-- ===== src/Ramfs/Valid.antt =====
-- kernel/ramfs.c: what each operation makes of a single file's array, size and bytes, and the slot
-- that `lookup(path, 1)` returns.
use open_agent_os.Prelude.{
  ℕ, ◌+◌, ◌-◌, ◌%◌, ◌^◌, ◌≤◌, ◌<◌, ◌≡◌, ◌⊎◌, refl, ap, sym, ◌∙◌, true, false, List, [], ◌++◌, arith,
  if◌then◌else◌, set, take, drop, length, length-set, length-take, none, some, Option-cases, inl,
  inr, ltb, take-append_left, take-length_le, take-set_beyond, get_or-set_self, set-set,
  take-overlay,
}
use open_agent_os.Bytes.{Str, str_eq, copy_in, copy_in_lem, length-copy_in}
use open_agent_os.Ramfs.{
  File, Files, path_max, file_size, str_copy, find_file, find_free, file_at, claim, lookup_create,
  Offset, write_file, fill_file,
}
use open_agent_os.Ramfs.Content.{
  content, or_empty, bytes_of, IsFile, AllFiles, content_of_none, find_file-Found, AllFiles-file_at,
  AllFiles-set, content-set_found, content-set_free, find_free-lt,
}

pub fill_file-IsFile :
    (f : File) (src : List ℕ) (n : ℕ) → IsFile f → n < file_size → IsFile (fill_file f src n)
unfolding fill_file
fill_file-IsFile f src n v h =
    omega (
      arith,
      length-set (copy_in f.bytes 0 (take n src)) n 0,
      length-copy_in f.bytes 0 (take n src),
    )

pub bytes_of-fill_file :
    (f : File) (src : List ℕ) (n : ℕ)
    → IsFile f
    → n < file_size
    → n ≤ length src
    → bytes_of (fill_file f src n) ≡ take n src
unfolding fill_file
bytes_of-fill_file f src n v h enough =
    take-set_beyond (copy_in f.bytes 0 (take n src)) n n 0 (omega arith)
    ∙ ap (take n) (copy_in_lem f.bytes 0 (take n src) (omega (arith, length-take n src)))
    ∙ take-append_left n (take n src) (drop (0 + length (take n src)) f.bytes)
        (omega (arith, length-take n src))

pub write_file-IsFile :
    (f : File) (offset : Offset) (src : List ℕ) (n : ℕ)
    → IsFile f
    → offset.value + n < file_size
    → IsFile (write_file f offset src n)
unfolding write_file
write_file-IsFile f offset src n v h =
    ground (arith, length-copy_in f.bytes offset.value (take n src))

-- A write that starts within the file replaces what it covers and may extend the file.
pub bytes_of-write_file :
    (f : File) (offset : Offset) (src : List ℕ) (n : ℕ)
    → IsFile f
    → offset.value ≤ f.size
    → offset.value + n < file_size
    → n ≤ length src
    → bytes_of (write_file f offset src n)
      ≡ take offset.value (bytes_of f) ++ (take n src ++ drop (offset.value + n) (bytes_of f))
unfolding write_file
bytes_of-write_file f offset src n v within fits enough =
    ap (take end) (copy_in_lem f.bytes offset.value (take n src) (omega (arith, length-take n src)))
    ∙ ap
        (λ k.
          take end (take offset.value f.bytes ++ (take n src ++ drop (offset.value + k) f.bytes)))
        (let e : length (take n src) ≡ n = omega (arith, length-take n src) in e)
    ∙ take-overlay f.bytes (take n src) offset.value n f.size end (omega (arith, length-take n src))
        within (omega arith) (ground arith) (ground arith)
  where
    end : ℕ
    end = if ltb f.size ((offset.value + n) % 2 ^ 64) then (offset.value + n) % 2 ^ 64 else f.size

-- What `lookup(path, 1)` promises of the slot that it returns.
pub record Slot (fs fs' : Files) (p : Str) (i : ℕ) : Type 0 where
  pub in_range : i < length fs'
  pub same_length : length fs' ≡ length fs
  pub path_is : (file_at fs' i).path ≡ p
  pub is_used : (file_at fs' i).used ≡ true
  pub files : AllFiles fs'
  pub old_bytes : bytes_of (file_at fs' i) ≡ or_empty (content fs p)
  pub update :
      (g : File) (q : Str)
      → g.path ≡ p
      → g.used ≡ true
      → content (set fs' i g) q ≡ (if str_eq p q then some (bytes_of g) else content fs q)

file_at-set_self : (fs : Files) (i : ℕ) (f : File) → i < length fs → file_at (set fs i f) i ≡ f
unfolding file_at
file_at-set_self fs i f h =
    get_or-set_self fs i f (record { path = []; bytes = []; size = 0; used = false }) h

claimed-IsFile :
    (f : File) (p : Str) → IsFile f → IsFile (record f { used = true; size = 0; path = p })
claimed-IsFile f p v = omega arith

claim-Slot :
    (fs : Files) (p : Str) (i : ℕ)
    → AllFiles fs
    → length p < path_max
    → find_file fs p ≡ none
    → find_free fs ≡ some i
    → Slot fs (claim fs i p) p i
unfolding claim str_copy
claim-Slot fs p i v short missing free =
    let fresh : File = record (file_at fs i) {
      used = true;
      size = 0;
      path = take (path_max - 1) p;
    } in
    let inside : i < length fs = find_free-lt fs i free in
    let whole : take (path_max - 1) p ≡ p = take-length_le (path_max - 1) p (omega arith) in
    record {
      in_range = omega (arith, length-set fs i fresh);
      same_length = length-set fs i fresh;
      path_is = rw (file_at-set_self fs i fresh inside) whole;
      is_used = rw (file_at-set_self fs i fresh inside) refl;
      files =
          AllFiles-set fs i fresh v (
            claimed-IsFile (file_at fs i) (take (path_max - 1) p) (AllFiles-file_at fs i v inside));
      old_bytes =
          rw (file_at-set_self fs i fresh inside)
            (sym (ap or_empty (content_of_none fs p missing)));
      update =
          λ g q gp gu. rw (set-set fs i fresh g) (content-set_free fs p i g q missing free gp gu);
    }

-- `lookup(path, 1)` returns a slot, unless the path is new and the table full: then it changes nothing.
pub lookup_create_cases :
    (fs : Files) (p : Str)
    → AllFiles fs
    → length p < path_max
    → ((i : ℕ) × (fs' : Files) × (lookup_create fs p ≡ (some i, fs')) × Slot fs fs' p i)
      ⊎ ((lookup_create fs p ≡ (none, fs)) × (content fs p ≡ none) × (find_free fs ≡ none))
unfolding lookup_create
lookup_create_cases fs p v short = elim (Option-cases (find_file fs p)) [
  | inr (i, e) ↦ inl (
    i,
    fs,
    rw (e, lookup_create) refl,
    let found = find_file-Found fs p i e in
        record {
          in_range = found.in_range;
          same_length = refl;
          path_is = found.path_is;
          is_used = found.is_used;
          files = v;
          old_bytes = sym (ap or_empty found.bytes_at);
          update = λ g q gp gu. content-set_found fs p i g q e gp gu;
        },
  )
  | inl e ↦ elim (Option-cases (find_free fs)) [
    | inr (i, free) ↦
        inl (i, claim fs i p, rw (e, free, lookup_create) refl, claim-Slot fs p i v short e free)
    | inl full ↦ inr (rw (e, full, lookup_create) refl, content_of_none fs p e, full)
  ]
]
