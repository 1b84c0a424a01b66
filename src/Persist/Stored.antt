-- ===== src/Persist/Stored.antt =====
-- kernel/persist.c: what storing one file leaves on the device.
use open_agent_os.Prelude.{
  ℕ, ◌+◌, ◌*◌, ◌^◌, ◌≤◌, ◌<◌, ◌≡◌, ◌⊎◌, ap, sym, ◌∙◌, List, [], ◌∷◌, pos, arith, is_zero, length,
  some, Bool-cases, inl, inr, ◌++◌, length-append,
}
use open_agent_os.Bytes.{Str, AllNonzero}
use open_agent_os.Words.{le32}
use open_agent_os.Crc.{xor32, crc32, crc32-lt}
use open_agent_os.Ramfs.{path_max}
use open_agent_os.Agent.Post.{is_zero_sound}
use open_agent_os.BlockDevice.{Device, IsLawful, sector_size}
use open_agent_os.Persist.{
  Meta, sector_of, meta_bytes, meta_of, path_of, path_array, file_sectors, read_data, write_data,
  store,
}
use open_agent_os.Persist.Sectors.{
  length-sector_of, meta_of-sector_of, path_of-path_array, length-path_array, read_data_same,
  write_data_outside, read_data-write_data,
}

-- The checksum of the header for these files.
unfoldable pub roll : ℕ → List (Str × List ℕ) → ℕ
roll r [] = r
roll r ((p, bs) ∷ rest) = roll (xor32 (xor32 r (crc32 bs)) (length bs)) rest

-- A file that the device can hold: its name is a string of at most 63 bytes.
abbrev pub AllStorable : List (Str × List ℕ) → Type 0
AllStorable [] = Unit
AllStorable ((p, bs) ∷ rest) =
    AllNonzero p × (length p < path_max) × (length bs < 2 ^ 32) × AllStorable rest

-- A sector describes the file `p`, and those after it hold its bytes.
pub record IsStored (D : Device) (s : D.State) (sector : ℕ) (p : Str) (bs : List ℕ) : Type 0 where
  pub buf : List ℕ
  pub at : D.read_sector s sector ≡ some buf
  pub name : path_of (meta_of buf) ≡ p
  pub size : (meta_of buf).size ≡ length bs
  pub crc : (meta_of buf).crc ≡ crc32 bs
  pub bytes : read_data D s (sector + 1) (file_sectors (length bs)) (length bs) ≡ some bs

-- The files one after the other, from this sector on.
abbrev pub Laid : (D : Device) → D.State → ℕ → List (Str × List ℕ) → Type 0
Laid D s sector [] = Unit
Laid D s sector ((p, bs) ∷ rest) =
    IsStored D s sector p bs × Laid D s (sector + 1 + file_sectors (length bs)) rest

enough_sectors : (n : ℕ) → n ≤ file_sectors n * sector_size
unfolding file_sectors
enough_sectors n = omega arith

length-meta_bytes : (m : Meta) → length m.path ≡ path_max → length (meta_bytes m) ≤ sector_size
unfolding meta_bytes le32
length-meta_bytes m whole = omega (arith, length-append m.path (le32 m.size ++ le32 m.crc))

module _ (D : Device) (law : IsLawful D) where
  pub IsStored-same :
      (s s' : D.State) (sector : ℕ) (p : Str) (bs : List ℕ)
      → ((m : ℕ)
          → sector ≤ m
          → m < sector + 1 + file_sectors (length bs)
          → D.read_sector s m ≡ D.read_sector s' m)
      → IsStored D s sector p bs
      → IsStored D s' sector p bs
  IsStored-same s s' sector p bs same v = record {
    buf = v.buf;
    at = sym (same sector (omega arith) (omega arith)) ∙ v.at;
    name = v.name;
    size = v.size;
    crc = v.crc;
    bytes =
        sym (
          read_data_same D law s s' (sector + 1) (file_sectors (length bs)) (length bs)
            (λ m lo hi. same m (omega arith) (omega arith)))
        ∙ v.bytes;
  }

  pub Laid-same :
      (s s' : D.State) (sector : ℕ) (files : List (Str × List ℕ))
      → ((m : ℕ) → sector ≤ m → D.read_sector s m ≡ D.read_sector s' m)
      → Laid D s sector files
      → Laid D s' sector files
  Laid-same s s' sector [] same v = tt
  Laid-same s s' sector ((p, bs) ∷ rest) same v = (
    IsStored-same s s' sector p bs (λ m lo hi. same m lo) v.0,
    Laid-same s s' (sector + 1 + file_sectors (length bs)) rest (λ m lo. same m (omega arith)) v.1,
  )

  module _ (junk : List ℕ) (whole : length junk ≡ path_max) where
    abbrev the_meta : Str → List ℕ → Meta
    the_meta p bs = record { path = path_array p junk; size = length bs; crc = crc32 bs }

    pub store_outside :
        (s : D.State) (sector : ℕ) (p : Str) (bs : List ℕ) (m : ℕ)
        → (m < sector) ⊎ (sector + 1 + file_sectors (length bs) ≤ m)
        → D.read_sector (store D junk s sector p bs).1 m ≡ D.read_sector s m
    unfolding store
    store_outside s sector p bs m out =
        let buf = sector_of (meta_bytes (the_meta p bs)) in
        let one : D.read_sector (D.write_sector s sector buf).1 m ≡ D.read_sector s m =
          law.read-write_ne s sector m buf (λ e. omega arith) in
        elim (Bool-cases (is_zero (D.write_sector s sector buf).0)) [
          | inl ok ↦
              rw (ok, store)
                (write_data_outside D law (D.write_sector s sector buf).1 (sector + 1)
                    (file_sectors (length bs)) bs m (omega arith)
                  ∙ one)
          | inr bad ↦ rw (bad, store) one
        ]

    pub store-IsStored :
        (s : D.State) (sector : ℕ) (p : Str) (bs : List ℕ)
        → AllNonzero p
        → length p < path_max
        → length bs < 2 ^ 32
        → (store D junk s sector p bs).0 ≡ pos 0
        → IsStored D (store D junk s sector p bs).1 sector p bs
    unfolding store
    store-IsStored s sector p bs good short small ok =
        let buf = sector_of (meta_bytes (the_meta p bs)) in
        let s' = (D.write_sector s sector buf).1 in
        let n = file_sectors (length bs) in
        let len = length-path_array p junk short whole in
        let back = meta_of-sector_of (the_meta p bs) len small (crc32-lt bs) in
        elim (Bool-cases (is_zero (D.write_sector s sector buf).0)) [
          | inr bad ↦ absurd (ground arith)
          | inl fine ↦
              let ok' : (write_data D s' (sector + 1) n bs).0 ≡ pos 0 = ground arith in
              rw (fine, store)
                (record {
                  buf = buf;
                  at =
                      write_data_outside D law s' (sector + 1) n bs sector (omega arith)
                      ∙ law.read-write s sector buf
                          (length-sector_of (meta_bytes (the_meta p bs))
                            (length-meta_bytes (the_meta p bs) len))
                          (is_zero_sound (D.write_sector s sector buf).0 fine);
                  name =
                      ap path_of back ∙ path_of-path_array p junk (length bs) (crc32 bs) good short;
                  size = ap (λ (m : Meta). m.size) back;
                  crc = ap (λ (m : Meta). m.crc) back;
                  bytes =
                      read_data-write_data D law s' (sector + 1) n bs (enough_sectors (length bs))
                        ok';
                })
        ]
