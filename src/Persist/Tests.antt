-- ===== src/Persist/Tests.antt =====
-- Examples for kernel/persist.c: a disk that always works, one file outside /sys and one under it.
use open_agent_os.Prelude.{
  ℕ, ◌+◌, ◌≤◌, ◌<◌, ◌≡◌, refl, true, false, List, [], ◌∷◌, pos, arith, if◌then◌else◌, ◌==◌,
  replicate, length, some, length-replicate,
}
use open_agent_os.Abi.{eio}
use open_agent_os.Bytes.{Str, AllNonzero, str_eq}
use open_agent_os.Ramfs.{Files, is_sys_path, clear_user, user_count, user_get, user_scan}
use open_agent_os.Ramfs.Content.{content, AllFiles}
use open_agent_os.Ramfs.Names.{AllNames, used_count}
use open_agent_os.BlockDevice.{Device, IsLawful}
use open_agent_os.Persist.{load, sync, store_files, store, write_data, file_sectors}
use open_agent_os.Persist.RoundTrip.{NoEmpty, load-sync}
use open_agent_os.Persist.Empty.{load-sync_empty}

written : (ℕ → List ℕ) → ℕ → List ℕ → ℕ → List ℕ
written s n bs m = if m == n then bs else s m

abbrev disk : Device
disk = record {
  State = ℕ → List ℕ;
  read_sector = λ s n. some (s n);
  write_sector = λ s n bs. (pos 0, written s n bs);
}

disk-IsLawful : IsLawful disk
unfolding written
disk-IsLawful = record {
  read-write = λ s n bs whole ok. ground arith;
  read-write_ne = λ s n m bs ne. ground arith;
}

abbrev blank_disk : ℕ → List ℕ
blank_disk n = []

abbrev dirty : List ℕ
dirty = replicate 64 7

-- "/a" and "/sys/b"
abbrev name_a : Str
name_a = b'/' ∷ b'a' ∷ []

abbrev name_sys : Str
name_sys = b'/' ∷ b's' ∷ b'y' ∷ b's' ∷ b'/' ∷ b'b' ∷ []

abbrev table : ℕ → Files
table n =
    record { path = name_a; bytes = replicate 8192 5; size = n; used = true }
    ∷ record { path = name_sys; bytes = replicate 8192 0; size = 1; used = true }
    ∷ []

abbrev fresh : Files
fresh =
    record { path = name_sys; bytes = replicate 8192 1; size = 1; used = true }
    ∷ record { path = []; bytes = replicate 8192 0; size = 0; used = false }
    ∷ []

table-AllFiles : (n : ℕ) → n < 8192 → AllFiles (table n)
table-AllFiles n fits = (
  record { array = length-replicate {A = ℕ} 8192 5; fits = fits },
  (record { array = length-replicate {A = ℕ} 8192 0; fits = omega arith }, tt),
)

fresh-AllFiles : AllFiles fresh
fresh-AllFiles = (
  record { array = length-replicate {A = ℕ} 8192 1; fits = omega arith },
  (record { array = length-replicate {A = ℕ} 8192 0; fits = omega arith }, tt),
)

name_a-string : AllNonzero name_a
name_a-string = (λ e. omega arith, (λ e. omega arith, tt))

name_sys-string : AllNonzero name_sys
name_sys-string = (
  λ e. omega arith,
  (
    λ e. omega arith,
    (λ e. omega arith, (λ e. omega arith, (λ e. omega arith, (λ e. omega arith, tt)))),
  ),
)

table-AllNames : (n : ℕ) → AllNames (table n)
unfolding content str_eq
table-AllNames n =
    (λ _. (name_a-string, omega arith, refl), (λ _. (name_sys-string, omega arith, refl), tt))

table-NoEmpty : NoEmpty (table 1)
unfolding content is_sys_path
table-NoEmpty q user e = ground arith

room : used_count (clear_user fresh) + user_count (table 1) ≤ length fresh
unfolding used_count clear_user user_count is_sys_path
room = omega arith

stored : (sync disk dirty blank_disk true (table 1)).0 ≡ pos 0
unfolding sync store_files store write_data user_count user_get user_scan is_sys_path file_sectors
stored = refl

load-sync_example :
    (let s = (sync disk dirty blank_disk true (table 1)).1 in
      let out = load disk dirty s true fresh in
      (out.0 ≡ pos 0)
      × (out.1 ≡ s)
      × ((q : Str)
          → content out.2 q ≡ (if is_sys_path q then content fresh q else content (table 1) q)))
load-sync_example =
    load-sync disk disk-IsLawful dirty (length-replicate {A = ℕ} 64 7) blank_disk (table 1) fresh
      (table-AllFiles 1 (omega arith)) (table-AllNames 1) table-NoEmpty (omega arith) fresh-AllFiles
      room stored

empty_room : used_count (clear_user fresh) + user_count (table 0) ≤ length fresh
unfolding used_count clear_user user_count is_sys_path
empty_room = omega arith

empty_stored : (sync disk dirty blank_disk true (table 0)).0 ≡ pos 0
unfolding sync store_files store write_data user_count user_get user_scan is_sys_path file_sectors
empty_stored = refl

a_is_empty : content (table 0) name_a ≡ some []
unfolding content str_eq
a_is_empty = refl

a_is_user : is_sys_path name_a ≡ false
unfolding is_sys_path
a_is_user = refl

load-sync_empty_example :
    (load disk dirty (sync disk dirty blank_disk true (table 0)).1 true fresh).0 ≡ eio
load-sync_empty_example =
    load-sync_empty disk disk-IsLawful dirty (length-replicate {A = ℕ} 64 7) blank_disk (table 0)
      fresh (table-AllFiles 0 (omega arith)) (table-AllNames 0) name_a a_is_user a_is_empty
      (omega arith) fresh-AllFiles empty_room empty_stored
