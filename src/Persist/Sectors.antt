-- ===== src/Persist/Sectors.antt =====
-- kernel/persist.c: what a sector holds of the structure copied into it, and file data over sectors.
use open_agent_os.Prelude.{
  ℕ, zero, suc, ◌+◌, ◌-◌, ◌*◌, ◌^◌, ◌≤◌, ◌<◌, ◌≡◌, ◌⊎◌, refl, ap, sym, ◌∙◌, List, [], ◌∷◌, ◌++◌,
  pos, arith, is_zero, take, drop, length, replicate, min, some, Bool-cases, inl, inr,
  length-append, length-take, length-drop, length-replicate, take-append_left, drop-append_left,
  take-drop, append_assoc,
}
use open_agent_os.Bytes.{Str, until_nul, AllNonzero, until_nul-string}
use open_agent_os.Words.{le32, of_le32, of_le32-le32}
use open_agent_os.Ramfs.{path_max}
use open_agent_os.BlockDevice.{Device, IsLawful, sector_size}
use open_agent_os.Agent.Post.{is_zero_sound}
use open_agent_os.Persist.{
  Super, Meta, sector_of, super_bytes, super_of, meta_bytes, meta_of, path_of, path_array,
  read_data, write_data,
}

pub length-sector_of : (bs : List ℕ) → length bs ≤ sector_size → length (sector_of bs) ≡ sector_size
unfolding sector_of
length-sector_of bs h = omega (
  arith,
  length-append bs (replicate (sector_size - length bs) 0),
  length-replicate {A = ℕ} (sector_size - length bs) 0,
)

-- A header is read back from its sector.
pub super_of-sector_of :
    (sup : Super)
    → sup.tag < 2 ^ 32
    → sup.version < 2 ^ 32
    → sup.file_count < 2 ^ 32
    → sup.checksum < 2 ^ 32
    → super_of (sector_of (super_bytes sup)) ≡ sup
unfolding super_of sector_of super_bytes of_le32 le32
super_of-sector_of sup a b c d =
    let bs = sector_of (super_bytes sup) in
    let tag : of_le32 bs 0 ≡ sup.tag = omega arith in
    let version : of_le32 bs 4 ≡ sup.version = omega arith in
    let count : of_le32 bs 8 ≡ sup.file_count = omega arith in
    let sum : of_le32 bs 12 ≡ sup.checksum = omega arith in cc

pub length-path_array :
    (p : Str) (junk : List ℕ)
    → length p < path_max
    → length junk ≡ path_max
    → length (path_array p junk) ≡ path_max
unfolding path_array
length-path_array p junk short whole =
    omega (arith, length-append p (0 ∷ drop (length p + 1) junk), length-drop (length p + 1) junk)

second_word : (x y : ℕ) (rest : List ℕ) → y < 2 ^ 32 → of_le32 (le32 x ++ (le32 y ++ rest)) 4 ≡ y
unfolding of_le32 le32
second_word x y rest small = omega arith

-- The name, size and checksum of a file are read back from their sector.
pub meta_of-sector_of :
    (m : Meta)
    → length m.path ≡ path_max
    → m.size < 2 ^ 32
    → m.crc < 2 ^ 32
    → meta_of (sector_of (meta_bytes m)) ≡ m
unfolding meta_of sector_of meta_bytes le32
meta_of-sector_of m whole small small' =
    let pad : List ℕ = replicate (sector_size - length (m.path ++ (le32 m.size ++ le32 m.crc))) 0 in
    let words : List ℕ = le32 m.size ++ (le32 m.crc ++ pad) in
    let split : sector_of (meta_bytes m) ≡ m.path ++ words =
      append_assoc m.path (le32 m.size ++ le32 m.crc) pad in
    let name : take path_max (sector_of (meta_bytes m)) ≡ m.path =
      ap (take path_max) split ∙ take-append_left path_max m.path words (sym whole) in
    let fields : drop path_max (sector_of (meta_bytes m)) ≡ words =
      ap (drop path_max) split ∙ drop-append_left path_max m.path words (sym whole) in
    let size : of_le32 (drop path_max (sector_of (meta_bytes m))) 0 ≡ m.size =
      ap (λ bs. of_le32 bs 0) fields ∙ of_le32-le32 m.size (le32 m.crc ++ pad) small in
    let crc : of_le32 (drop path_max (sector_of (meta_bytes m))) 4 ≡ m.crc =
      ap (λ bs. of_le32 bs 4) fields ∙ second_word m.size m.crc pad small' in
    cc

pub path_of-path_array :
    (p : Str) (junk : List ℕ) (size crc : ℕ)
    → AllNonzero p
    → length p < path_max
    → path_of (record { path = path_array p junk; size = size; crc = crc }) ≡ p
unfolding path_of meta_bytes path_array
path_of-path_array p junk size crc v short =
    ap (until_nul (path_max + 8))
      (append_assoc p (0 ∷ drop (length p + 1) junk) (le32 size ++ le32 crc))
    ∙ until_nul-string (path_max + 8) p (drop (length p + 1) junk ++ (le32 size ++ le32 crc)) v
        (omega arith)

cut_sector :
    (bs : List ℕ)
    → take (min (length bs) sector_size) (sector_of (take sector_size bs)) ≡ take sector_size bs
unfolding sector_of
cut_sector bs =
    take-append_left (min (length bs) sector_size) (take sector_size bs)
      (replicate (sector_size - length (take sector_size bs)) 0)
      (omega (arith, length-take sector_size bs))

module _ (D : Device) (law : IsLawful D) where
  pub read_data_same :
      (s s' : D.State) (sector n left : ℕ)
      → ((m : ℕ) → sector ≤ m → m < sector + n → D.read_sector s m ≡ D.read_sector s' m)
      → read_data D s sector n left ≡ read_data D s' sector n left
  unfolding read_data
  read_data_same s s' sector zero left same = refl
  read_data_same s s' sector (suc n) left same = ground (
    arith,
    same sector,
    read_data_same s s' (sector + 1) n (left - sector_size)
        (λ m lo hi. same m (omega arith) (omega arith)),
  )

  read_data_step :
      (s : D.State) (sector n left : ℕ) (buf more : List ℕ)
      → D.read_sector s sector ≡ some buf
      → read_data D s (sector + 1) n (left - sector_size) ≡ some more
      → read_data D s sector (suc n) left ≡ some (take (min left sector_size) buf ++ more)
  unfolding read_data
  read_data_step s sector n left buf more here there = ground arith

  pub write_data_outside :
      (s : D.State) (sector n : ℕ) (bs : List ℕ) (m : ℕ)
      → (m < sector) ⊎ (sector + n ≤ m)
      → D.read_sector (write_data D s sector n bs).1 m ≡ D.read_sector s m
  unfolding write_data
  write_data_outside s sector zero bs m out = refl
  write_data_outside s sector (suc n) bs m out =
      let buf = sector_of (take sector_size bs) in
      let s' = (D.write_sector s sector buf).1 in
      let one : D.read_sector s' m ≡ D.read_sector s m =
        law.read-write_ne s sector m buf (λ e. omega arith) in
      elim (Bool-cases (is_zero (D.write_sector s sector buf).0)) [
        | inl ok ↦
            rw (ok, write_data)
              (write_data_outside s' (sector + 1) n (drop sector_size bs) m (omega arith) ∙ one)
        | inr bad ↦ rw (bad, write_data) one
      ]

  pub read_data-write_data :
      (s : D.State) (sector n : ℕ) (bs : List ℕ)
      → length bs ≤ n * sector_size
      → (write_data D s sector n bs).0 ≡ pos 0
      → read_data D (write_data D s sector n bs).1 sector n (length bs) ≡ some bs
  unfolding write_data read_data
  read_data-write_data s sector zero [] fits ok = refl
  read_data-write_data s sector zero (b ∷ bs) fits ok = absurd (omega arith)
  read_data-write_data s sector (suc n) bs fits ok =
      let buf = sector_of (take sector_size bs) in
      let s' = (D.write_sector s sector buf).1 in
      elim (Bool-cases (is_zero (D.write_sector s sector buf).0)) [
        | inr bad ↦ absurd (ground arith)
        | inl good ↦
            let rest = drop sector_size bs in
            let after = write_data D s' (sector + 1) n rest in
            let ok' : after.0 ≡ pos 0 = ground arith in
            let here : D.read_sector after.1 sector ≡ some buf =
              write_data_outside s' (sector + 1) n rest sector (omega arith)
              ∙ law.read-write s sector buf
                  (length-sector_of (take sector_size bs)
                    (omega (arith, length-take sector_size bs)))
                  (is_zero_sound (D.write_sector s sector buf).0 good) in
            let there : read_data D after.1 (sector + 1) n (length bs - sector_size) ≡ some rest =
              ap (read_data D after.1 (sector + 1) n) (sym (length-drop sector_size bs))
              ∙ read_data-write_data s' (sector + 1) n rest
                  (omega (arith, length-drop sector_size bs)) ok' in
            let cut : take (min (length bs) sector_size) buf ≡ take sector_size bs =
              cut_sector bs in
            rw (good, write_data)
              (read_data_step after.1 sector n (length bs) buf rest here there
                ∙ ap some (ap (λ x. x ++ rest) cut ∙ take-drop sector_size bs))
      ]
