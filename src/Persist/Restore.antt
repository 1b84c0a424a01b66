-- ===== src/Persist/Restore.antt =====
-- kernel/persist.c: `persist_load` over sectors that hold files.
use open_agent_os.Prelude.{
  ℕ, suc, ◌+◌, ◌≤◌, ◌<◌, ◌≡◌, refl, ap, sym, ◌∙◌, subst, Bool, List, [], ◌∷◌, ℤ, pos, arith,
  if◌then◌else◌, length, Option, some, inl, inr, take-length_le,
}
use open_agent_os.Bytes.{Str, str_eq}
use open_agent_os.Crc.{xor32, crc32}
use open_agent_os.Ramfs.{Files, path_max, file_size, put}
use open_agent_os.Ramfs.Content.{AllFiles, content}
use open_agent_os.Ramfs.Laws.{Stores, put_lem}
use open_agent_os.Ramfs.Names.{used_count, used_count-put, used_count-full}
use open_agent_os.BlockDevice.{Device}
use open_agent_os.Persist.{Meta, meta_of, path_of, file_sectors, read_data, restore, load_files}
use open_agent_os.Persist.Stored.{roll, IsStored, Laid}

-- The files, put one after the other over what a path had.
unfoldable pub over : List (Str × List ℕ) → Str → Option (List ℕ) → Option (List ℕ)
over [] q o = o
over ((p, bs) ∷ rest) q o = over rest q (if str_eq p q then some bs else o)

-- Files that `persist_load` takes back.
abbrev pub AllRestorable : List (Str × List ℕ) → Type 0
AllRestorable [] = Unit
AllRestorable ((p, bs) ∷ rest) =
    (length p < path_max) × (0 < length bs) × (length bs < file_size) × AllRestorable rest

pub put_room :
    (fs : Files) (p : Str) (bs : List ℕ)
    → AllFiles fs
    → length p < path_max
    → 0 < length bs
    → length bs < file_size
    → used_count fs < length fs
    → ((put fs p bs (pos (length bs))).0 ≡ pos 0) × Stores fs (put fs p bs (pos (length bs))).1 p bs
put_room fs p bs v short some_bytes fits room =
    elim (put_lem fs p bs (length bs) v short some_bytes (omega arith) fits) [
      | inl (ok, stored) ↦ (
        ok,
        subst (Stores fs (put fs p bs (pos (length bs))).1 p)
            (take-length_le (length bs) bs (omega arith)) stored,
      )
      | inr (_, full) ↦ absurd (omega (arith, used_count-full fs full.1))
    ]

module _ (D : Device) where
  restore_step :
      (checked : Bool) (s : D.State) (fs : Files) (sector : ℕ) (m : Meta) (bs : List ℕ)
      → 0 < m.size
      → m.size < file_size
      → read_data D s sector (file_sectors m.size) m.size ≡ some bs
      → m.crc ≡ crc32 bs
      → (put fs (path_of m) bs (pos m.size)).0 ≡ pos 0
      → restore D checked s fs sector m ≡ (pos 0, (put fs (path_of m) bs (pos m.size)).1)
  unfolding restore
  restore_step checked s fs sector m bs some_bytes fits got sum ok = ground arith

  pub load_files_step :
      (checked : Bool) (s : D.State) (fs fs' : Files) (sector rolling n : ℕ) (buf : List ℕ)
      → D.read_sector s sector ≡ some buf
      → restore D checked s fs (sector + 1) (meta_of buf) ≡ (pos 0, fs')
      → load_files D checked s fs sector rolling (suc n)
        ≡ load_files D checked s fs'
            (sector + 1 + file_sectors (meta_of buf).size)
            (xor32 (xor32 rolling (meta_of buf).crc) (meta_of buf).size)
            n
  unfolding load_files
  load_files_step checked s fs fs' sector rolling n buf at done = ground arith

  pub restore-IsStored :
      (checked : Bool) (s : D.State) (fs : Files) (sector : ℕ) (p : Str) (bs : List ℕ)
      → (v : IsStored D s sector p bs) → 0 < length bs
      → length bs < file_size
      → (put fs p bs (pos (length bs))).0 ≡ pos 0
      → restore D checked s fs (sector + 1) (meta_of v.buf)
        ≡ (pos 0, (put fs p bs (pos (length bs))).1)
  restore-IsStored checked s fs sector p bs v some_bytes fits ok =
      let m = meta_of v.buf in
      let same : put fs (path_of m) bs (pos m.size) ≡ put fs p bs (pos (length bs)) =
        cc (v.name, v.size) in
      let got : read_data D s (sector + 1) (file_sectors m.size) m.size ≡ some bs =
        ap (λ n. read_data D s (sector + 1) (file_sectors n) n) v.size ∙ v.bytes in
      let status = ap (λ (x : ℤ × Files). x.0) same ∙ ok in
      restore_step checked s fs (sector + 1) m bs (omega (arith, v.size)) (omega (arith, v.size))
        got v.crc status
      ∙ ap (λ (x : ℤ × Files). (pos 0, x.1)) same

  -- What the loop gives.
  pub record IsLoaded (fs : Files) (files : List (Str × List ℕ)) (r : ℕ) (out : ℤ × Files × ℕ)
      : Type 0 where
    pub status : out.0 ≡ pos 0
    pub map_is : (q : Str) → content out.1 q ≡ over files q (content fs q)
    pub sum : out.2 ≡ roll r files

  pub load_files-Laid :
      (checked : Bool) (s : D.State) (files : List (Str × List ℕ)) (fs : Files) (sector r : ℕ)
      → Laid D s sector files
      → AllRestorable files
      → AllFiles fs
      → used_count fs + length files ≤ length fs
      → IsLoaded fs files r (load_files D checked s fs sector r (length files))
  unfolding load_files over roll
  load_files-Laid checked s [] fs sector r laid ok v room = record {
    status = refl;
    map_is = λ q. refl;
    sum = refl;
  }
  load_files-Laid checked s ((p, bs) ∷ rest) fs sector r laid ok v room =
      let (fine, stores) = put_room fs p bs v ok.0 ok.1 ok.2 (omega arith) in
      let fs' = (put fs p bs (pos (length bs))).1 in
      let here = laid.0 in
      let buf = here.buf in
      let next = sector + 1 + file_sectors (length bs) in
      let r' = xor32 (xor32 r (crc32 bs)) (length bs) in
      let step =
        load_files_step checked s fs fs' sector r (length rest) buf here.at
          (restore-IsStored checked s fs sector p bs here ok.1 ok.2 fine) in
      let same : load_files D checked s fs' (sector + 1 + file_sectors (meta_of buf).size)
            (xor32 (xor32 r (meta_of buf).crc) (meta_of buf).size) (length rest)
          ≡ load_files D checked s fs' next r' (length rest) =
        cc (here.size, here.crc) in
      let less = used_count-put fs p bs (pos (length bs)) in
      let after =
        load_files-Laid checked s rest fs' next r' laid.1 ok.3 stores.files
          (omega (arith, stores.same_length)) in
      subst (IsLoaded fs ((p, bs) ∷ rest) r) (sym (step ∙ same)) (record {
        status = after.status;
        map_is = λ q. after.map_is q ∙ ap (over rest q) (stores.map_is q);
        sum = after.sum;
      })
