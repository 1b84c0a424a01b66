-- ===== src/Persist/RoundTrip.antt =====
-- kernel/persist.c: `persist_sync` followed by `persist_load`.
use open_agent_os.Prelude.{
  ℕ, ◌+◌, ◌^◌, ◌≤◌, ◌<◌, ◌≡◌, ◌≢◌, refl, ap, sym, ◌∙◌, true, false, List, [], ◌∷◌, ℤ, pos, arith,
  if◌then◌else◌, length, Option, none, some, Bool-cases, inl, inr, not, ◌&&◌, length-take,
}
use open_agent_os.Bytes.{Str, str_eq_iff, str_eq_refl}
use open_agent_os.Crc.{xor32, crc32, xor32-lt}
use open_agent_os.Ramfs.{File, Files, path_max, is_sys_path, clear_user, user_count}
use open_agent_os.Ramfs.Content.{AllFiles, content, bytes_of}
use open_agent_os.Ramfs.UserFiles.{user_files, user_get_lem, content-clear_user}
use open_agent_os.Ramfs.Names.{AllNames, used_count, AllFiles-clear_user, length-clear_user}
use open_agent_os.BlockDevice.{Device, IsLawful}
use open_agent_os.Persist.{
  Super, magic, sector_of, super_bytes, rounds_of, load_files, load_v2, load_marked, load, sync,
}
use open_agent_os.Persist.Sectors.{super_of-sector_of}
use open_agent_os.Persist.Stored.{roll, AllStorable}
use open_agent_os.Persist.Synced.{sync-Laid}
use open_agent_os.Persist.Restore.{over, AllRestorable, load_files-Laid}

-- No file outside /sys is empty.
abbrev pub NoEmpty : Files → Type 0
NoEmpty fs = (q : Str) → is_sys_path q ≡ false → content fs q ≢ some []

prefer : Option (List ℕ) → Option (List ℕ) → Option (List ℕ)
prefer none o = o
prefer (some bs) o = some bs

pub roll-lt : (r : ℕ) (files : List (Str × List ℕ)) → r < 2 ^ 32 → roll r files < 2 ^ 32
unfolding roll
roll-lt r [] small = small
roll-lt r ((p, bs) ∷ rest) small =
    roll-lt (xor32 (xor32 r (crc32 bs)) (length bs)) rest
      (xor32-lt (xor32 r (crc32 bs)) (length bs))

over-user_files :
    (fs : Files) (q : Str) (o : Option (List ℕ))
    → AllNames fs
    → over (user_files fs) q o ≡ (if is_sys_path q then o else prefer (content fs q) o)
unfolding over user_files content prefer
over-user_files [] q o v = ground arith
over-user_files (f ∷ fs) q o v = ground (
  arith,
  v.0,
  str_eq_iff f.path q,
  over-user_files fs q o v.1,
  over-user_files fs q (some (bytes_of f)) v.1,
  λ (e : f.path ≡ q). ap is_sys_path e,
  λ (e : f.path ≡ q). ap (content fs) e,
)

pub length-user_files : (fs : Files) → length (user_files fs) ≤ length fs
unfolding user_files
length-user_files [] = omega arith
length-user_files (f ∷ fs) = ground (arith, length-user_files fs)

pub AllStorable-user_files : (fs : Files) → AllFiles fs → AllNames fs → AllStorable (user_files fs)
unfolding user_files
AllStorable-user_files [] v names = tt
AllStorable-user_files (f ∷ fs) v names =
    let rest = AllStorable-user_files fs v.1 names.1 in
    elim (Bool-cases (f.used && not (is_sys_path f.path))) [
      | inr other ↦ rw other rest
      | inl mine ↦
          let (string, short, fresh) = names.0 (ground arith) in
          let fits = v.0.fits in
          rw mine (string, short, omega (arith, length-take f.size f.bytes), rest)
    ]

NoEmpty-tail : (f : File) (fs : Files) → AllNames (f ∷ fs) → NoEmpty (f ∷ fs) → NoEmpty fs
unfolding content
NoEmpty-tail f fs names full q user e =
    full q user
      (ground (arith, names.0, str_eq_iff f.path q, λ (e' : f.path ≡ q). ap (content fs) e'))

positive : (bs : List ℕ) → bs ≢ [] → 0 < length bs
positive [] ne = absurd (ne refl)
positive (b ∷ bs) ne = omega arith

AllRestorable-user_files :
    (fs : Files) → AllFiles fs → AllNames fs → NoEmpty fs → AllRestorable (user_files fs)
unfolding user_files content
AllRestorable-user_files [] v names full = tt
AllRestorable-user_files (f ∷ fs) v names full =
    let rest = AllRestorable-user_files fs v.1 names.1 (NoEmpty-tail f fs names full) in
    elim (Bool-cases (f.used && not (is_sys_path f.path))) [
      | inr other ↦ rw other rest
      | inl mine ↦
          let (string, short, fresh) = names.0 (ground arith) in
          let fits = v.0.fits in
          let here : content (f ∷ fs) f.path ≡ some (bytes_of f) =
            ground (arith, str_eq_refl f.path) in
          let some_bytes : 0 < length (bytes_of f) =
            positive (bytes_of f) (λ e. full f.path (ground arith) (here ∙ ap some e)) in
          rw mine (short, some_bytes, omega (arith, length-take f.size f.bytes), rest)
    ]

-- A header of version 2 that is read back: `persist_load` restores the files it counts.
pub load_lem :
    (D : Device) (junk : List ℕ) (s : D.State) (fs : Files) (count sum : ℕ)
    → count < 2 ^ 31
    → sum < 2 ^ 32
    → D.read_sector s 0
      ≡ some (
          sector_of
            (super_bytes (record { tag = magic; version = 2; file_count = count; checksum = sum })))
    → load D junk s true fs
      ≡ (let (rc, fs') = load_v2 D s (clear_user fs) count sum in (rc, s, fs'))
unfolding load load_marked
load_lem D junk s fs count sum small small' at =
    let sup : Super = record { tag = magic; version = 2; file_count = count; checksum = sum } in
    rw at (rw (super_of-sector_of sup (omega arith) (omega arith) (omega arith) small') refl)

load_v2_done :
    (D : Device) (s : D.State) (fs : Files) (count sum : ℕ) (fs' : Files)
    → count < 2 ^ 31
    → load_files D true s fs 1 0 count ≡ (pos 0, fs', sum)
    → load_v2 D s fs count sum ≡ (pos 0, fs')
unfolding load_v2 rounds_of
load_v2_done D s fs count sum fs' small e =
    let same : rounds_of count ≡ count = ground arith in
    ground (arith, ap (load_files D true s fs 1 0) same ∙ e)

module _ (D : Device) (law : IsLawful D) (junk : List ℕ) (whole : length junk ≡ path_max)
    (s : D.State) (fs fs' : Files) where
  restored :
      (q : Str) (o : Option (List ℕ))
      → content (clear_user fs') q ≡ (if is_sys_path q then content fs' q else none)
      → (if is_sys_path q
          then content (clear_user fs') q
          else prefer o (content (clear_user fs') q))
        ≡ (if is_sys_path q then content fs' q else o)
  unfolding prefer
  restored q none e = ground arith
  restored q (some bs) e = ground arith

  -- Let a device keep what is written to its sectors, a well-formed table of at most 64 slots have
  -- names that are distinct strings of at most 63 bytes and no empty file outside /sys, and
  -- `persist_sync` return 0 on it. If the table that `persist_load` finds, whatever else it holds, has
  -- free slots for these files next to those it uses under /sys, the call returns 0, leaves the device
  -- as it is, and every path outside /sys has just the bytes it had at the sync, every other path what
  -- it had before the load.
  pub load-sync :
      AllFiles fs
      → AllNames fs
      → NoEmpty fs
      → length fs ≤ 64
      → AllFiles fs'
      → used_count (clear_user fs') + user_count fs ≤ length fs'
      → (sync D junk s true fs).0 ≡ pos 0
      → (let out = load D junk (sync D junk s true fs).1 true fs' in
          (out.0 ≡ pos 0)
          × (out.1 ≡ (sync D junk s true fs).1)
          × ((q : Str) → content out.2 q ≡ (if is_sys_path q then content fs' q else content fs q)))
  load-sync v names full fits v' room done =
      let files = user_files fs in
      let s' = (sync D junk s true fs).1 in
      let cleared = clear_user fs' in
      let count = (user_get_lem fs 0 v).1 in
      let some_slots = length-user_files fs in
      let (laid, header) =
        sync-Laid D law junk whole s fs v (AllStorable-user_files fs v names) done in
      let loaded =
        load_files-Laid D true s' files cleared 1 0 laid (AllRestorable-user_files fs v names full)
          (AllFiles-clear_user fs' v') (omega (arith, count, length-clear_user fs')) in
      let out = load_files D true s' cleared 1 0 (length files) in
      let whole_loop : load_files D true s' cleared 1 0 (user_count fs)
          ≡ (pos 0, out.1, roll 0 files) =
        ap (load_files D true s' cleared 1 0) (sym count) ∙ cc (loaded.status, loaded.sum) in
      let v2 =
        load_v2_done D s' cleared (user_count fs) (roll 0 files) out.1 (omega arith) whole_loop in
      let e : load D junk s' true fs' ≡ (pos 0, s', out.1) =
        load_lem D junk s' fs' (user_count fs) (roll 0 files) (omega arith)
          (roll-lt 0 files (omega arith)) header
        ∙ ap (λ (x : ℤ × Files). (x.0, s', x.1)) v2 in
      (
        ap (λ (x : ℤ × D.State × Files). x.0) e,
        ap (λ (x : ℤ × D.State × Files). x.1) e,
        λ q.
            ap (λ (x : ℤ × D.State × Files). content x.2 q) e
            ∙ loaded.map_is q
            ∙ over-user_files fs q (content cleared q) names
            ∙ restored q (content fs q) (content-clear_user fs' q),
      )
