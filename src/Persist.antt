-- ===== src/Persist.antt =====
-- kernel/persist.c: the files outside /sys on a block device. Sector 0 holds the header; after it come,
-- for each file, one sector with its name, size and checksum, and the sectors of its bytes.
pub mod Sectors
pub mod Stored
pub mod Synced
pub mod Restore
pub mod RoundTrip
pub mod Empty
mod Tests
use open_agent_os.Prelude.{
  ℕ, zero, suc, ◌+◌, ◌-◌, ◌*◌, ◌/◌, ◌%◌, ◌^◌, Bool, true, false, not, ◌&&◌, ◌||◌, List, [], ◌∷◌,
  ◌++◌, ℤ, pos, negsuc, is_zero, is_neg, pos_part, ltb, leb, ◌==◌, if◌then◌else◌, take, drop,
  length, replicate, min, Option, none, some,
}
use open_agent_os.Abi.{eio, enodev}
use open_agent_os.Bytes.{Str, until_nul}
use open_agent_os.Words.{le32, of_le32}
use open_agent_os.Crc.{xor32, crc32}
use open_agent_os.Ramfs.{Files, path_max, file_size, put, clear_user, user_count, user_get}
use open_agent_os.BlockDevice.{Device, sector_size}

abbrev pub magic : ℕ
magic = 0x31495641

-- `struct persist_super`
pub record Super : Type 0 where
  pub tag : ℕ
  pub version : ℕ
  pub file_count : ℕ
  pub checksum : ℕ

-- `struct persist_meta`; the path is the whole array.
pub record Meta : Type 0 where
  pub path : List ℕ
  pub size : ℕ
  pub crc : ℕ

-- A structure copied into a sector of zeros.
unfoldable pub sector_of : List ℕ → List ℕ
sector_of bs = bs ++ replicate (sector_size - length bs) 0

unfoldable pub super_bytes : Super → List ℕ
super_bytes sup = le32 sup.tag ++ (le32 sup.version ++ (le32 sup.file_count ++ le32 sup.checksum))

unfoldable pub super_of : List ℕ → Super
super_of bs = record {
  tag = of_le32 bs 0;
  version = of_le32 bs 4;
  file_count = of_le32 bs 8;
  checksum = of_le32 bs 12;
}

unfoldable pub meta_bytes : Meta → List ℕ
meta_bytes m = m.path ++ (le32 m.size ++ le32 m.crc)

unfoldable pub meta_of : List ℕ → Meta
meta_of bs = record {
  path = take path_max bs;
  size = of_le32 (drop path_max bs) 0;
  crc = of_le32 (drop path_max bs) 4;
}

-- The string that `meta.path` holds. Without a terminator it runs on into the fields after it.
unfoldable pub path_of : Meta → Str
path_of m = until_nul (path_max + 8) (meta_bytes m)

-- `str_copy(path, …)` into an array that held something else.
unfoldable pub path_array : Str → List ℕ → List ℕ
path_array path junk = path ++ 0 ∷ drop (length path + 1) junk

-- `persist_file_sectors`
unfoldable pub file_sectors : ℕ → ℕ
file_sectors size = (size + sector_size - 1) / sector_size

-- `(int)file_count`, as the number of rounds of a loop.
unfoldable pub rounds_of : ℕ → ℕ
rounds_of count = if ltb count (2 ^ 31) then count else 0

module _ (D : Device) where
  -- `persist_read_file_data`, with this many sectors and bytes to go.
  unfoldable pub read_data : D.State → ℕ → ℕ → ℕ → Option (List ℕ)
  read_data s sector zero left = some []
  read_data s sector (suc n) left =
      let rest = read_data s (sector + 1) n (left - sector_size) in
      elim (D.read_sector s sector) [
        | none ↦ none
        | some buf ↦ elim rest [
          | none ↦ none
          | some more ↦ some (take (min left sector_size) buf ++ more)
        ]
      ]

  -- `persist_write_file_data`
  unfoldable pub write_data : D.State → ℕ → ℕ → List ℕ → ℤ × D.State
  write_data s sector zero bs = (pos 0, s)
  write_data s sector (suc n) bs =
      let (rc, s') = D.write_sector s sector (sector_of (take sector_size bs)) in
      let rest = write_data s' (sector + 1) n (drop sector_size bs) in
      if is_zero rc then rest else (eio, s')

  -- One round of `persist_load_v1` and `persist_load_v2` after the name and size of the file were read:
  -- `checked` tells whether the checksum is compared.
  unfoldable pub restore : Bool → D.State → Files → ℕ → Meta → ℤ × Files
  restore checked s fs sector m =
      if m.size == 0 || ltb file_size m.size
      then (eio, fs)
      else (elim (read_data s sector (file_sectors m.size) m.size) [
        | none ↦ (eio, fs)
        | some bs ↦
            if checked && not (crc32 bs == m.crc)
            then (eio, fs)
            else (let (rc, fs') = put fs (path_of m) bs (pos m.size) in
                if is_zero rc then (pos 0, fs') else (eio, fs'))
      ])

  -- The loop of `persist_load_v1` and `persist_load_v2` with `n` files to go: the status, the files and
  -- `rolling`.
  unfoldable pub load_files : Bool → D.State → Files → ℕ → ℕ → ℕ → ℤ × Files × ℕ
  load_files checked s fs sector rolling zero = (pos 0, fs, rolling)
  load_files checked s fs sector rolling (suc n) = elim (D.read_sector s sector) [
    | none ↦ (eio, fs, rolling)
    | some buf ↦
        let m = meta_of buf in
        let (rc, fs') = restore checked s fs (sector + 1) m in
        let rolling' = xor32 (xor32 rolling m.crc) m.size in
        elim (is_zero rc) [
          | true ↦ load_files checked s fs' (sector + 1 + file_sectors m.size) rolling' n
          | false ↦ (rc, fs', rolling')
        ]
  ]

  -- `persist_load_v1`
  unfoldable pub load_v1 : D.State → Files → ℕ → ℤ × Files
  load_v1 s fs count =
      let (rc, fs', rolling) = load_files false s fs 1 0 (rounds_of count) in (rc, fs')

  -- `persist_load_v2`
  unfoldable pub load_v2 : D.State → Files → ℕ → ℕ → ℤ × Files
  load_v2 s fs count super_crc =
      let (rc, fs', rolling) = load_files true s fs 1 0 (rounds_of count) in
      if is_zero rc then (if rolling == super_crc then (pos 0, fs') else (eio, fs')) else (rc, fs')

  -- One round of the loop of `persist_sync` for a file that `ramfs_user_get` gave. `junk` is what the
  -- array of the path held before.
  unfoldable pub store : List ℕ → D.State → ℕ → Str → List ℕ → ℤ × D.State
  store junk s sector path bs =
      let m : Meta = record { path = path_array path junk; size = length bs; crc = crc32 bs } in
      let (rc, s') = D.write_sector s sector (sector_of (meta_bytes m)) in
      let (rc', s'') = write_data s' (sector + 1) (file_sectors (length bs)) bs in
      if is_zero rc then (rc', s'') else (eio, s')

  -- The loop of `persist_sync` from file `idx` on, with `n` files to go: the status, the device and
  -- `rolling`.
  unfoldable pub store_files : List ℕ → Files → D.State → ℕ → ℕ → ℕ → ℕ → ℤ × D.State × ℕ
  store_files junk fs s sector rolling idx zero = (pos 0, s, rolling)
  store_files junk fs s sector rolling idx (suc n) =
      let (size, path, bs) = user_get fs idx (pos file_size) in
      elim (is_neg size) [
        | true ↦ (eio, s, rolling)
        | false ↦
            let (rc, s') = store junk s sector path bs in
            elim (is_zero rc) [
              | false ↦ (eio, s', rolling)
              | true ↦
                  store_files junk fs s' (sector + 1 + file_sectors (length bs))
                    (xor32 (xor32 rolling (crc32 bs)) (length bs)) (idx + 1) n
            ]
      ]

  -- `persist_sync`
  unfoldable pub sync : List ℕ → D.State → Bool → Files → ℤ × D.State
  sync junk s ready fs =
      let count = user_count fs in
      let (rc, s', rolling) = store_files junk fs s 1 0 0 count in
      let sup : Super = record {
        tag = magic;
        version = 2;
        file_count = count;
        checksum = rolling;
      } in
      let (rc', s'') = D.write_sector s' 0 (sector_of (super_bytes sup)) in
      if ready
      then (if is_zero rc then (if is_zero rc' then (pos 0, s'') else (eio, s'')) else (rc, s'))
      else (enodev, s)

  -- `persist_migrate`
  unfoldable pub migrate : List ℕ → D.State → Bool → Files → ℤ × D.State
  migrate junk s ready fs = if ready then sync junk s ready fs else (enodev, s)

  -- `persist_load` for a header that carries the mark.
  unfoldable pub load_marked : List ℕ → D.State → Files → Super → ℤ × D.State × Files
  load_marked junk s fs sup =
      if sup.version == 1
      then (let (rc, fs') = load_v1 s (clear_user fs) sup.file_count in
          let (rc', s') = migrate junk s true fs' in
          if is_zero rc then (rc', s', fs') else (rc, s, fs'))
      else (if sup.version == 2
          then (let (rc, fs') = load_v2 s (clear_user fs) sup.file_count sup.checksum in
              (rc, s, fs'))
          else (eio, s, fs))

  -- `persist_load`
  unfoldable pub load : List ℕ → D.State → Bool → Files → ℤ × D.State × Files
  load junk s ready fs =
      if ready
      then (elim (D.read_sector s 0) [
        | none ↦ (eio, s, fs)
        | some buf ↦
            let sup = super_of buf in
            if sup.tag == magic then load_marked junk s fs sup else (pos 0, s, fs)
      ])
      else (pos 0, s, fs)
