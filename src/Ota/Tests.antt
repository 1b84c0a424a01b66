-- ===== src/Ota/Tests.antt =====
-- Examples for kernel/ota.c: a signed package of 192 bytes under "/sys/ota/p", with a hash that is
-- always zero, and the same package with an offset that wraps around.
use open_agent_os.Prelude.{
  ℕ, ◌+◌, ◌%◌, ◌^◌, ◌≤◌, ◌<◌, ◌≡◌, ◌⊎◌, refl, true, false, ◌&&◌, List, [], ◌∷◌, ◌++◌, pos, arith,
  replicate, length, some, is_zero, length-replicate,
}
use open_agent_os.Bytes.{Str, str_eq, char_at}
use open_agent_os.Ramfs.{Files, find_file, read}
use open_agent_os.Ramfs.Content.{content, AllFiles}
use open_agent_os.Mem.{Heap, kalloc, round_up}
use open_agent_os.Kernel.{Agent, no_agent}
use open_agent_os.Words.{of_le32}
use open_agent_os.Ota.{
  Manifest, slice, manifest_of, loaded, apply_kpath, verify_kpath, signature_ok, channel_matches,
  same_bytes, compute_hmac, pkg_magic, manifest_size,
}
use open_agent_os.Ota.Package.{IsApplied, apply_lem}
use open_agent_os.Ota.Wrap.{verify_wraps}

abbrev zero_hash : List ℕ → List ℕ
zero_hash bs = replicate 32 0

abbrev around : ℕ → ℕ
around i = 0

abbrev heap : Heap
heap = record { next = 4096; limit = 65536 }

-- The package, for the bytes of its offset and size.
abbrev file_of : List ℕ → List ℕ
file_of where_is =
    0x41
    ∷ 0x4f
    ∷ 0x50
    ∷ 0x4b
    ∷ 2
    ∷ 0
    ∷ 0
    ∷ 0
    ∷ (replicate 52 0
        ++ (b's' ∷ replicate 11 0
            ++ (where_is ++ (b'/' ∷ b'b' ∷ replicate 46 0 ++ replicate 64 9))))

abbrev good_place : List ℕ
good_place = 128 ∷ 0 ∷ 0 ∷ 0 ∷ 64 ∷ 0 ∷ 0 ∷ 0 ∷ []

-- 2 ^ 32 - 64 and 128
abbrev bad_place : List ℕ
bad_place = 192 ∷ 255 ∷ 255 ∷ 255 ∷ 128 ∷ 0 ∷ 0 ∷ 0 ∷ []

abbrev package_path : Str
package_path = b'/' ∷ b's' ∷ b'y' ∷ b's' ∷ b'/' ∷ b'o' ∷ b't' ∷ b'a' ∷ b'/' ∷ b'p' ∷ []

abbrev table : List ℕ → Files
table where_is =
    record {
      path = package_path;
      bytes = file_of where_is ++ replicate 8000 0;
      size = 192;
      used = true;
    }
    ∷ record { path = []; bytes = replicate 8192 0; size = 0; used = false }
    ∷ []

abbrev updater : Agent
updater = record no_agent { caps = 64 }

good-AllFiles : AllFiles (table good_place)
good-AllFiles = (
  record { array = omega (arith, length-replicate {A = ℕ} 8000 0); fits = omega arith },
  (record { array = length-replicate {A = ℕ} 8192 0; fits = omega arith }, tt),
)

bad-AllFiles : AllFiles (table bad_place)
bad-AllFiles = (
  record { array = omega (arith, length-replicate {A = ℕ} 8000 0); fits = omega arith },
  (record { array = length-replicate {A = ℕ} 8192 0; fits = omega arith }, tt),
)

good_content : content (table good_place) package_path ≡ some (file_of good_place)
unfolding content str_eq
good_content = refl

bad_content : content (table bad_place) package_path ≡ some (file_of bad_place)
unfolding content str_eq
bad_content = refl

good_sum :
    (manifest_of (loaded around (file_of good_place))).elf_offset
      + (manifest_of (loaded around (file_of good_place))).elf_size
    < 2 ^ 32
unfolding manifest_of loaded slice of_le32
good_sum = omega arith

apply_lem_example :
    ((is_zero
          (apply_kpath zero_hash around heap (some (3, updater)) (table good_place) package_path).0
        ≡ false)
      × ((apply_kpath zero_hash around heap (some (3, updater)) (table good_place) package_path).1
          ≡ table good_place))
    ⊎ (((apply_kpath zero_hash around heap (some (3, updater)) (table good_place) package_path).0
          ≡ pos 0)
        × IsApplied zero_hash around heap 3 updater
            (table good_place)
            package_path
            (file_of good_place)
            (apply_kpath zero_hash around heap
              (some (3, updater))
              (table good_place)
              package_path).1)
apply_lem_example =
    apply_lem zero_hash around heap 3 updater (table good_place) package_path (file_of good_place)
      good-AllFiles good_content good_sum

abbrev bad : Manifest
bad = manifest_of (loaded around (file_of bad_place))

got_buffer : (kalloc heap 192).0 ≡ some 4096
unfolding kalloc round_up
got_buffer = refl

bad_magic : bad.magic ≡ pkg_magic
unfolding manifest_of loaded slice of_le32
bad_magic = refl

bad_format : bad.format ≡ 2
unfolding manifest_of loaded slice of_le32
bad_format = refl

bad_after : manifest_size ≤ bad.elf_offset
unfolding manifest_of loaded slice of_le32
bad_after = omega arith

bad_wraps : 2 ^ 32 ≤ bad.elf_offset + bad.elf_size
unfolding manifest_of loaded slice of_le32
bad_wraps = omega arith

bad_small : (bad.elf_offset + bad.elf_size) % 2 ^ 32 ≤ length (file_of bad_place)
unfolding manifest_of loaded slice of_le32
bad_small = omega arith

bad_absolute : char_at bad.install_path 0 ≡ b'/'
unfolding manifest_of loaded slice of_le32
bad_absolute = refl

bad_signed :
    (signature_ok zero_hash (loaded around (file_of bad_place)) bad 192
      && channel_matches (table bad_place) bad.channel)
    ≡ true
unfolding manifest_of loaded slice of_le32 signature_ok same_bytes compute_hmac channel_matches read
    find_file str_eq
bad_signed = refl

verify_wraps_example :
    (verify_kpath zero_hash around heap (table bad_place) package_path ≡ pos 0)
    × (length (file_of bad_place) < bad.elf_offset + bad.elf_size)
verify_wraps_example =
    verify_wraps zero_hash around heap (table bad_place) package_path (file_of bad_place) 4096
      bad-AllFiles bad_content (omega arith) got_buffer bad_magic bad_format bad_after bad_wraps
      bad_small bad_absolute bad_signed
