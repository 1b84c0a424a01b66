-- ===== src/Ota/Wrap.antt =====
-- kernel/ota.c: the test of a program's offset and size, which are added in 32 bits.
use open_agent_os.Prelude.{
  ℕ, ◌+◌, ◌%◌, ◌^◌, ◌≤◌, ◌<◌, ◌≡◌, refl, true, ◌&&◌, List, pos, arith, length, some,
}
use open_agent_os.Bytes.{Str, char_at}
use open_agent_os.Ramfs.{Files}
use open_agent_os.Ramfs.Content.{content, AllFiles, content-lt}
use open_agent_os.Mem.{Heap, kalloc}
use open_agent_os.Ota.{
  Manifest, manifest_size, pkg_magic, manifest_of, loaded, header_ok, signature_ok, channel_matches,
  verify_kpath,
}
use open_agent_os.Ota.Accept.{parse_accepted}

header_wraps :
    (m : Manifest) (len : ℕ)
    → m.magic ≡ pkg_magic
    → m.format ≡ 2
    → manifest_size ≤ m.elf_offset
    → (m.elf_offset + m.elf_size) % 2 ^ 32 ≤ len
    → char_at m.install_path 0 ≡ b'/'
    → header_ok m len ≡ true
unfolding header_ok
header_wraps m len magic format after small absolute = ground arith

-- A signed package whose program's offset and size add up to 2 ^ 32 or more, but wrap around to a sum
-- within the file, passes `ota_verify_package_kpath` when its mark, name, hash and channel are right
-- and the kernel's heap has room for the file, although its program ends behind the file's end.
pub verify_wraps :
    (sha256 : List ℕ → List ℕ) (mem : ℕ → ℕ) (heap : Heap) (fs : Files) (path : Str) (bs : List ℕ)
    (buf : ℕ)
    → AllFiles fs
    → content fs path ≡ some bs
    → manifest_size + 64 ≤ length bs
    → (kalloc heap (length bs)).0 ≡ some buf
    → (manifest_of (loaded mem bs)).magic ≡ pkg_magic
    → (manifest_of (loaded mem bs)).format ≡ 2
    → manifest_size ≤ (manifest_of (loaded mem bs)).elf_offset
    → 2 ^ 32 ≤ (manifest_of (loaded mem bs)).elf_offset + (manifest_of (loaded mem bs)).elf_size
    → ((manifest_of (loaded mem bs)).elf_offset + (manifest_of (loaded mem bs)).elf_size) % 2 ^ 32
      ≤ length bs
    → char_at (manifest_of (loaded mem bs)).install_path 0 ≡ b'/'
    → (signature_ok sha256 (loaded mem bs) (manifest_of (loaded mem bs)) (length bs)
        && channel_matches fs (manifest_of (loaded mem bs)).channel)
      ≡ true
    → (verify_kpath sha256 mem heap fs path ≡ pos 0)
      × (length bs
          < (manifest_of (loaded mem bs)).elf_offset + (manifest_of (loaded mem bs)).elf_size)
unfolding verify_kpath
verify_wraps sha256 mem heap fs path bs buf v at long got magic format after wraps small absolute
      signed =
    let m = manifest_of (loaded mem bs) in
    let short = content-lt fs path bs v at in
    let good = header_wraps m (length bs) magic format after small absolute in
    (
      rw (parse_accepted sha256 mem heap fs path bs buf v at long got good signed, verify_kpath)
          refl,
      omega arith,
    )
