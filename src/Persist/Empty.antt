-- ===== src/Persist/Empty.antt =====
-- kernel/persist.c: `persist_load` of what `persist_sync` wrote for a file without bytes.
use open_agent_os.Prelude.{
  ℕ, suc, ◌+◌, ◌^◌, ◌≤◌, ◌<◌, ◌≡◌, ap, sym, ◌∙◌, Bool, true, false, List, [], ◌∷◌, ℤ, pos, arith,
  length, some, Bool-cases, inl, inr, ◌==◌, ◌||◌, not, ◌&&◌, length-take,
}
use open_agent_os.Abi.{eio}
use open_agent_os.Bytes.{Str, str_eq_iff}
use open_agent_os.Crc.{xor32}
use open_agent_os.Ramfs.{Files, path_max, file_size, put, is_sys_path, clear_user, user_count}
use open_agent_os.Ramfs.Content.{AllFiles, content}
use open_agent_os.Ramfs.UserFiles.{user_files, user_get_lem}
use open_agent_os.Ramfs.Names.{
  AllNames, used_count, used_count-put, AllFiles-clear_user, length-clear_user,
}
use open_agent_os.BlockDevice.{Device, IsLawful}
use open_agent_os.Persist.{
  Meta, meta_of, file_sectors, restore, load_files, load_v2, rounds_of, load, sync,
}
use open_agent_os.Persist.Stored.{roll, Laid}
use open_agent_os.Persist.Synced.{sync-Laid}
use open_agent_os.Persist.Restore.{load_files_step, restore-IsStored, put_room}
use open_agent_os.Persist.RoundTrip.{load_lem, roll-lt, AllStorable-user_files, length-user_files}

-- Some of these files has no bytes.
unfoldable has_empty : List (Str × List ℕ) → Bool
has_empty [] = false
has_empty ((p, bs) ∷ rest) = length bs == 0 || has_empty rest

-- Names and sizes that `ramfs_put` takes.
abbrev AllShort : List (Str × List ℕ) → Type 0
AllShort [] = Unit
AllShort ((p, bs) ∷ rest) = (length p < path_max) × (length bs < file_size) × AllShort rest

module _ (D : Device) where
  restore_empty :
      (s : D.State) (fs : Files) (sector : ℕ) (m : Meta)
      → m.size ≡ 0
      → restore D true s fs sector m ≡ (eio, fs)
  unfolding restore
  restore_empty s fs sector m e = ground arith

  load_files_stop :
      (s : D.State) (fs : Files) (sector r n : ℕ) (buf : List ℕ)
      → D.read_sector s sector ≡ some buf
      → (meta_of buf).size ≡ 0
      → (load_files D true s fs sector r (suc n)).0 ≡ eio
  unfolding load_files
  load_files_stop s fs sector r n buf at e =
      ground (arith, restore_empty s fs (sector + 1) (meta_of buf) e)

  load_files-empty :
      (s : D.State) (files : List (Str × List ℕ)) (fs : Files) (sector r : ℕ)
      → Laid D s sector files
      → AllShort files
      → AllFiles fs
      → used_count fs + length files ≤ length fs
      → has_empty files ≡ true
      → (load_files D true s fs sector r (length files)).0 ≡ eio
  unfolding has_empty
  load_files-empty s [] fs sector r laid ok v room found = cc
  load_files-empty s ((p, bs) ∷ rest) fs sector r laid ok v room found =
      let here = laid.0 in
      let buf = here.buf in
      elim (Bool-cases (length bs == 0)) [
        | inl none_here ↦
            load_files_stop s fs sector r (length rest) buf here.at (ground (arith, here.size))
        | inr some_here ↦
            let some_bytes : 0 < length bs = ground arith in
            let (fine, stores) = put_room fs p bs v ok.0 some_bytes ok.1 (omega arith) in
            let fs' = (put fs p bs (pos (length bs))).1 in
            let m = meta_of buf in
            let next = sector + 1 + file_sectors (length bs) in
            let step =
              load_files_step D true s fs fs' sector r (length rest) buf here.at
                (restore-IsStored D true s fs sector p bs here some_bytes ok.1 fine) in
            let r' = xor32 (xor32 r m.crc) m.size in
            let less = used_count-put fs p bs (pos (length bs)) in
            let after =
              load_files-empty s rest fs' next r' laid.1 ok.2 stores.files
                (omega (arith, stores.same_length)) (ground arith) in
            ap (λ (x : ℤ × Files × ℕ). x.0) step
            ∙ ap (λ n. (load_files D true s fs' (sector + 1 + file_sectors n) r' (length rest)).0)
                here.size
            ∙ after
      ]

  load_v2_failed :
      (s : D.State) (fs : Files) (count sum : ℕ)
      → count < 2 ^ 31
      → (load_files D true s fs 1 0 count).0 ≡ eio
      → (load_v2 D s fs count sum).0 ≡ eio
  unfolding load_v2 rounds_of
  load_v2_failed s fs count sum small e =
      let same : rounds_of count ≡ count = ground arith in
      ground (arith, ap (λ n. (load_files D true s fs 1 0 n).0) same ∙ e)

AllShort-user_files : (fs : Files) → AllFiles fs → AllNames fs → AllShort (user_files fs)
unfolding user_files
AllShort-user_files [] v names = tt
AllShort-user_files (f ∷ fs) v names =
    let rest = AllShort-user_files fs v.1 names.1 in
    elim (Bool-cases (f.used && not (is_sys_path f.path))) [
      | inr other ↦ rw other rest
      | inl mine ↦
          let (string, short, fresh) = names.0 (ground arith) in
          let fits = v.0.fits in rw mine (short, omega (arith, length-take f.size f.bytes), rest)
    ]

has_empty-user_files :
    (fs : Files) (q : Str)
    → is_sys_path q ≡ false
    → content fs q ≡ some []
    → has_empty (user_files fs) ≡ true
unfolding has_empty user_files content
has_empty-user_files [] q user e = cc
has_empty-user_files (f ∷ fs) q user e = ground (
  arith,
  str_eq_iff f.path q,
  has_empty-user_files fs q user,
  λ (e : f.path ≡ q). ap is_sys_path e,
)

module _ (D : Device) (law : IsLawful D) (junk : List ℕ) (whole : length junk ≡ path_max)
    (s : D.State) (fs fs' : Files) where
  -- Let a device keep what is written to its sectors, a well-formed table of at most 64 slots have
  -- names that are distinct strings of at most 63 bytes, some file outside /sys be empty, and
  -- `persist_sync` return 0 on it. Then `persist_load` of what it wrote fails with EIO, into any
  -- well-formed table that has free slots for these files next to those it uses under /sys.
  pub load-sync_empty :
      AllFiles fs
      → AllNames fs
      → (q : Str) → is_sys_path q ≡ false
      → content fs q ≡ some []
      → length fs ≤ 64
      → AllFiles fs'
      → used_count (clear_user fs') + user_count fs ≤ length fs'
      → (sync D junk s true fs).0 ≡ pos 0
      → (load D junk (sync D junk s true fs).1 true fs').0 ≡ eio
  load-sync_empty v names q user e fits v' room done =
      let files = user_files fs in
      let s' = (sync D junk s true fs).1 in
      let cleared = clear_user fs' in
      let count = (user_get_lem fs 0 v).1 in
      let some_slots = length-user_files fs in
      let (laid, header) =
        sync-Laid D law junk whole s fs v (AllStorable-user_files fs v names) done in
      let failed =
        load_files-empty D s' files cleared 1 0 laid (AllShort-user_files fs v names)
          (AllFiles-clear_user fs' v') (omega (arith, count, length-clear_user fs'))
          (has_empty-user_files fs q user e) in
      ap (λ (x : ℤ × D.State × Files). x.0)
        (load_lem D junk s' fs' (user_count fs) (roll 0 files) (omega arith)
          (roll-lt 0 files (omega arith)) header)
      ∙ load_v2_failed D s' cleared (user_count fs) (roll 0 files) (omega arith)
          (ap (λ n. (load_files D true s' cleared 1 0 n).0) (sym count) ∙ failed)
