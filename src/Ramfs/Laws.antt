-- ===== src/Ramfs/Laws.antt =====
-- The operations of the file system on its map from paths to bytes.
use open_agent_os.Prelude.{
  ℕ, ◌+◌, ◌≤◌, ◌<◌, ◌≡◌, ◌⊎◌, refl, ap, ◌∙◌, true, List, ◌++◌, ℤ, pos, arith, if◌then◌else◌, set,
  take, drop, length, length-set, length-take, none, some, inl, inr, take-length_le,
}
use open_agent_os.Abi.{enospc}
use open_agent_os.Bytes.{Str, str_eq, str_eq_refl}
use open_agent_os.Ramfs.{
  File, Files, Offset, path_max, file_size, lookup_create, find_free, file_at, read, write, put,
  write_file, fill_file,
}
use open_agent_os.Ramfs.Content.{
  content, or_empty, bytes_of, read_bytes, IsFile, AllFiles, AllFiles-file_at, AllFiles-set,
  read_lem,
}
use open_agent_os.Ramfs.Valid.{
  Slot, lookup_create_cases, fill_file-IsFile, bytes_of-fill_file, write_file-IsFile,
  bytes_of-write_file,
}

-- `after` is the state `fs` with `bs` under the path `p`.
pub record Stores (fs after : Files) (p : Str) (bs : List ℕ) : Type 0 where
  pub files : AllFiles after
  pub same_length : length after ≡ length fs
  pub map_is : (q : Str) → content after q ≡ (if str_eq p q then some bs else content fs q)

-- What `put` and `write` do when the path is new and every slot is in use.
abbrev pub IsFull : Files → Str → Type 0
IsFull fs p = (content fs p ≡ none) × (find_free fs ≡ none)

set-Stores :
    (fs fs' : Files) (p : Str) (i : ℕ) (g : File) (bs : List ℕ)
    → Slot fs fs' p i
    → IsFile g
    → g.path ≡ p
    → g.used ≡ true
    → bytes_of g ≡ bs
    → Stores fs (set fs' i g) p bs
set-Stores fs fs' p i g bs slot whole gp gu e = record {
  files = AllFiles-set fs' i g slot.files whole;
  same_length = length-set fs' i g ∙ slot.same_length;
  map_is = λ q. slot.update g q gp gu ∙ ap (λ b. if str_eq p q then some b else content fs q) e;
}

fill_file-header :
    (f : File) (src : List ℕ) (n : ℕ)
    → ((fill_file f src n).path ≡ f.path) × ((fill_file f src n).used ≡ f.used)
unfolding fill_file
fill_file-header f src n = (refl, refl)

write_file-header :
    (f : File) (offset : Offset) (src : List ℕ) (n : ℕ)
    → ((write_file f offset src n).path ≡ f.path) × ((write_file f offset src n).used ≡ f.used)
unfolding write_file
write_file-header f offset src n = (refl, refl)

put-found :
    (fs fs' : Files) (p : Str) (src : List ℕ) (n i : ℕ)
    → 0 < n
    → n < file_size
    → lookup_create fs p ≡ (some i, fs')
    → put fs p src (pos n) ≡ (pos 0, set fs' i (fill_file (file_at fs' i) src n))
unfolding put
put-found fs fs' p src n i some_bytes fits e = ground arith

put-full :
    (fs : Files) (p : Str) (src : List ℕ) (n : ℕ)
    → 0 < n
    → n < file_size
    → lookup_create fs p ≡ (none, fs)
    → put fs p src (pos n) ≡ (enospc, fs)
unfolding put
put-full fs p src n some_bytes fits e = ground arith

write-found :
    (fs fs' : Files) (p : Str) (offset : Offset) (src : List ℕ) (n i : ℕ)
    → 0 < n
    → offset.value + n < file_size
    → lookup_create fs p ≡ (some i, fs')
    → write fs p offset src (pos n) ≡ (pos n, set fs' i (write_file (file_at fs' i) offset src n))
unfolding write
write-found fs fs' p offset src n i some_bytes fits e = ground arith

write-full :
    (fs : Files) (p : Str) (offset : Offset) (src : List ℕ) (n : ℕ)
    → 0 < n
    → lookup_create fs p ≡ (none, fs)
    → write fs p offset src (pos n) ≡ (enospc, fs)
unfolding write
write-full fs p offset src n some_bytes e = ground arith

-- The bytes under a path, none of them if it is not there.
abbrev pub old_bytes : Files → Str → List ℕ
old_bytes fs p = or_empty (content fs p)

module _ (fs : Files) (p : Str) (src : List ℕ) (n : ℕ) (v : AllFiles fs)
    (short : length p < path_max) (some_bytes : 0 < n) (enough : n ≤ length src) where
  -- In a well-formed table, for a path of at most 63 bytes and a buffer with enough bytes, `ramfs_put`
  -- of 1 to 8191 bytes stores just these bytes under its path and leaves every other path alone; or
  -- the table is full and has no such path, and it fails without changing anything.
  pub put_lem :
      n < file_size
      → (((put fs p src (pos n)).0 ≡ pos 0) × Stores fs (put fs p src (pos n)).1 p (take n src))
        ⊎ ((put fs p src (pos n) ≡ (enospc, fs)) × IsFull fs p)
  put_lem fits = elim (lookup_create_cases fs p v short) [
    | inl (i, fs', e, slot) ↦
        let whole = AllFiles-file_at fs' i slot.files slot.in_range in
        rw (put-found fs fs' p src n i some_bytes fits e) (
          inl (
            refl,
            set-Stores fs fs' p i (fill_file (file_at fs' i) src n) (take n src) slot
                (fill_file-IsFile (file_at fs' i) src n whole fits)
                ((fill_file-header (file_at fs' i) src n).0 ∙ slot.path_is)
                ((fill_file-header (file_at fs' i) src n).1 ∙ slot.is_used)
                (bytes_of-fill_file (file_at fs' i) src n whole fits enough),
          ))
    | inr (e, missing, full) ↦ inr (put-full fs p src n some_bytes fits e, (missing, full))
  ]

  -- In a well-formed table, for a path of at most 63 bytes and a buffer with enough bytes, a
  -- `ramfs_write` of one or more bytes that starts within the file or at its end and ends before byte
  -- 8192 replaces the bytes that it covers, and leaves every other path alone; or the table is full and
  -- has no such path, and it fails without changing anything.
  pub write_lem :
      (offset : Offset)
      → offset.value ≤ length (old_bytes fs p)
      → offset.value + n < file_size
      → (((write fs p offset src (pos n)).0 ≡ pos n)
          × Stores fs (write fs p offset src (pos n)).1 p (
              take offset.value (old_bytes fs p)
              ++ (take n src ++ drop (offset.value + n) (old_bytes fs p))))
        ⊎ ((write fs p offset src (pos n) ≡ (enospc, fs)) × IsFull fs p)
  write_lem offset within fits = elim (lookup_create_cases fs p v short) [
    | inl (i, fs', e, slot) ↦
        let whole = AllFiles-file_at fs' i slot.files slot.in_range in
        rw (write-found fs fs' p offset src n i some_bytes fits e) (
          inl (
            refl,
            set-Stores fs fs' p i (write_file (file_at fs' i) offset src n)
                (take offset.value (old_bytes fs p)
                  ++ (take n src ++ drop (offset.value + n) (old_bytes fs p)))
                slot (write_file-IsFile (file_at fs' i) offset src n whole fits)
                ((write_file-header (file_at fs' i) offset src n).0 ∙ slot.path_is)
                ((write_file-header (file_at fs' i) offset src n).1 ∙ slot.is_used)
                (bytes_of-write_file (file_at fs' i) offset src n whole
                    (omega (
                      arith,
                      length-take (file_at fs' i).size (file_at fs' i).bytes,
                      ap length slot.old_bytes,
                    ))
                    fits enough
                  ∙ ap (λ bs. take offset.value bs ++ (take n src ++ drop (offset.value + n) bs))
                      slot.old_bytes),
          ))
    | inr (e, missing, full) ↦ inr (write-full fs p offset src n some_bytes e, (missing, full))
  ]

  -- What a `ramfs_put` of 1 to 8191 bytes that returned 0 stored in a well-formed table, under a path of
  -- at most 63 bytes, is read back whole by a read from the start that asks for at least as much.
  pub read-put :
      (m : ℕ)
      → n < file_size
      → n ≤ m
      → (put fs p src (pos n)).0 ≡ pos 0
      → read (put fs p src (pos n)).1 p 0 (pos m) ≡ (pos n, take n src)
  unfolding read_bytes
  read-put m fits wide done = elim (put_lem fits) [
    | inl (_, stored) ↦
        read_lem (put fs p src (pos n)).1 p 0 (pos m) stored.files
        ∙ rw (stored.map_is p, str_eq_refl p)
            (ground (arith, length-take n src, take-length_le m (take n src)))
    | inr (failed, _) ↦ cc (ap (λ (r : ℤ × Files). r.0) failed)
  ]
