-- ===== src/Ota.antt =====
-- kernel/ota.c: update packages. A package is a file of a header of 128 bytes and a program; it is
-- accepted by a checksum or by a keyed hash. SHA-256, which the code takes from another library, is a
-- parameter. `mem` is what the bytes of the kernel's buffer and those after it hold.
pub mod Calls
pub mod Accept
pub mod Package
pub mod Wrap
mod Tests
use open_agent_os.Prelude.{
  ℕ, zero, suc, ◌+◌, ◌-◌, ◌*◌, ◌%◌, ◌^◌, Bool, true, false, not, ◌&&◌, ◌||◌, List, [], ◌∷◌, ◌++◌, ℤ,
  pos, negsuc, is_neg, is_nonpos, is_zero, pos_part, int_eq, of_u32, ltb, leb, ◌==◌, if◌then◌else◌,
  take, drop, length, get_or, replicate, Option, none, some,
}
use open_agent_os.Abi.{einval, eperm, enospc, efault, eio, cap_fs}
use open_agent_os.Bytes.{Str, char_at, starts_with, until_nul}
use open_agent_os.Words.{of_le32}
use open_agent_os.Crc.{crc_update, not32}
use open_agent_os.Paths.{parse_digits}
use open_agent_os.Ramfs.{Files, file_size, read, put}
use open_agent_os.Usage.{usage_from}
use open_agent_os.Mem.{Heap, kalloc}
use open_agent_os.Uaccess.{UserMem, user_strnlen, copy_from_user}
use open_agent_os.Kernel.{Agent, has_cap}

abbrev pub pkg_magic : ℕ
pkg_magic = 0x4b504f41

abbrev pub manifest_size : ℕ
manifest_size = 128

abbrev pub channel_path : Str
channel_path =
    b'/' ∷ b's' ∷ b'y' ∷ b's' ∷ b'/' ∷ b'o' ∷ b't' ∷ b'a' ∷ b'/' ∷ b'c' ∷ b'h' ∷ b'a' ∷ b'n' ∷ b'n'
    ∷ b'e' ∷ b'l' ∷ []

-- "openagentos-ota-dev-key-v1"
abbrev pub hmac_key : Str
hmac_key =
    b'o' ∷ b'p' ∷ b'e' ∷ b'n' ∷ b'a' ∷ b'g' ∷ b'e' ∷ b'n' ∷ b't' ∷ b'o' ∷ b's' ∷ b'-' ∷ b'o' ∷ b't'
    ∷ b'a' ∷ b'-' ∷ b'd' ∷ b'e' ∷ b'v' ∷ b'-' ∷ b'k' ∷ b'e' ∷ b'y' ∷ b'-' ∷ b'v' ∷ b'1' ∷ []

-- The bytes of `n` addresses from this one on.
unfoldable pub slice : (ℕ → ℕ) → ℕ → ℕ → List ℕ
slice mem at zero = []
slice mem at (suc n) = mem at ∷ slice mem (at + 1) n

-- `struct ota_manifest`, less the fields that are only printed or never read.
pub record Manifest : Type 0 where
  pub magic : ℕ
  pub format : ℕ
  pub sig : ℕ
  pub channel : List ℕ
  pub elf_offset : ℕ
  pub elf_size : ℕ
  pub install_path : List ℕ
  pub hmac : List ℕ

unfoldable pub manifest_of : (ℕ → ℕ) → Manifest
manifest_of mem = record {
  magic = of_le32 (slice mem 0 4) 0;
  format = of_le32 (slice mem 4 4) 0;
  sig = of_le32 (slice mem 8 4) 0;
  channel = slice mem 60 8;
  elf_offset = of_le32 (slice mem 72 4) 0;
  elf_size = of_le32 (slice mem 76 4) 0;
  install_path = slice mem 80 16;
  hmac = slice mem 96 32;
}

-- The string that `install_path` holds. Without a terminator it runs on into the hash after it.
unfoldable pub install_of : Manifest → Str
install_of m = until_nul 48 (m.install_path ++ m.hmac)

-- The buffer after the file was read into it.
unfoldable pub loaded : (ℕ → ℕ) → List ℕ → ℕ → ℕ
loaded mem bs i = if ltb i (length bs) then get_or bs i 0 else mem i

-- `ota_file_size`
unfoldable pub ota_file_size : Files → Str → ℤ
ota_file_size fs path =
    let counted = usage_from fs path (file_size - 1) 1 in
    let n = (read fs path 0 (pos 1)).0 in if is_neg n then n else pos counted

-- `ota_pkg_path_ok`, for the id of the current agent.
unfoldable pub pkg_path_ok : Option ℕ → Str → Bool
pkg_path_ok who path =
    let (id, rest) = parse_digits 0 (drop 7 path) in
    if starts_with (drop 1 path) (b's' ∷ b'y' ∷ b's' ∷ b'/' ∷ b'o' ∷ b't' ∷ b'a' ∷ b'/' ∷ [])
    then true
    else (if starts_with (drop 1 path) (b'a' ∷ b'g' ∷ b'e' ∷ b'n' ∷ b't' ∷ b'/' ∷ [])
        then char_at rest 0 == b'/'
          && (elim who [ none ↦ false | some me ↦ int_eq (of_u32 id) (pos me) ])
        else false)

-- `if (a >= 'A' && a <= 'Z') a = a + ('a' - 'A');`
unfoldable pub lower : ℕ → ℕ
lower c = if leb b'A' c && leb c b'Z' then c + 32 else c

-- The loop of `ota_channel_matches`, with this many places to go.
unfoldable pub same_channel : ℕ → Str → List ℕ → Bool
same_channel zero cur pkg = true
same_channel (suc n) cur pkg =
    let rest = same_channel n (drop 1 cur) (drop 1 pkg) in
    if lower (char_at cur 0) == lower (char_at pkg 0)
    then (if lower (char_at cur 0) == 0 then true else rest)
    else false

unfoldable pub channel_matches : Files → List ℕ → Bool
channel_matches fs pkg =
    let (n, cur) = read fs channel_path 0 (pos 15) in
    if is_nonpos n then char_at pkg 0 == b's' else same_channel 8 cur pkg

-- `ota_package_sig`
unfoldable pub package_sig : (ℕ → ℕ) → ℕ → ℕ → ℕ
package_sig mem elf_offset total =
    let head = crc_update (2 ^ 32 - 1) (slice mem 0 8 ++ (replicate 4 0 ++ slice mem 12 116)) in
    let middle =
      if ltb manifest_size elf_offset
      then crc_update head (slice mem manifest_size (elf_offset - manifest_size))
      else head in
    not32 (
      if ltb elf_offset total
      then crc_update middle (slice mem elf_offset (total - elf_offset))
      else middle)

-- `got[i] != expect[i]` for the 32 places.
unfoldable pub same_bytes : ℕ → List ℕ → List ℕ → Bool
same_bytes zero got expect = true
same_bytes (suc n) got expect =
    char_at got 0 == char_at expect 0 && same_bytes n (drop 1 got) (drop 1 expect)

-- What `ota_parse_package` gives: an error, or the header and where the program is.
pub data Parsed : Type 0 where
  refused : ℤ → Parsed
  parsed : Manifest → ℕ → ℕ → Parsed

-- The tests of `ota_parse_package` before the signature.
unfoldable pub header_ok : Manifest → ℕ → Bool
header_ok m len =
    m.magic == pkg_magic
    && (m.format == 1 || m.format == 2)
    && leb manifest_size m.elf_offset
    && leb ((m.elf_offset + m.elf_size) % 2 ^ 32) len
    && char_at m.install_path 0 == b'/'

-- `ramfs_put(manifest.install_path, elf, elf_len)`
unfoldable pub install : (ℕ → ℕ) → Files → Manifest → ℕ → ℕ → ℤ × Files
install mem fs m at n =
    let (rc, fs') = put fs (install_of m) (slice mem at n) (of_u32 n) in
    if is_zero rc then (pos 0, fs') else (enospc, fs')

module _ (sha256 : List ℕ → List ℕ) where
  -- `ota_compute_hmac`
  unfoldable pub compute_hmac : (ℕ → ℕ) → ℕ → List ℕ
  compute_hmac mem len = sha256 (
      hmac_key
      ++ (if ltb len manifest_size
          then slice mem 0 len
          else slice mem 0 96 ++ (replicate 32 0 ++ slice mem manifest_size (len - manifest_size))))

  -- `ota_hmac_match`, and the test of the checksum.
  unfoldable pub signature_ok : (ℕ → ℕ) → Manifest → ℕ → Bool
  signature_ok mem m len =
      if m.format == 2
      then same_bytes 32 (compute_hmac mem len) m.hmac
      else package_sig mem m.elf_offset len == m.sig

  -- `ota_parse_package` after the file was read.
  unfoldable pub check_package : (ℕ → ℕ) → Files → ℕ → Parsed
  check_package mem fs len =
      let m = manifest_of mem in
      if not (header_ok m len)
      then refused einval
      else (if signature_ok mem m len && channel_matches fs m.channel
          then parsed m m.elf_offset m.elf_size
          else refused eperm)

  -- `ota_parse_package`: what it gives, the heap, and the bytes from its buffer on.
  unfoldable pub parse_package : (ℕ → ℕ) → Heap → Files → Str → Parsed × Heap × (ℕ → ℕ)
  parse_package mem heap fs path =
      let size = ota_file_size fs path in
      let len = pos_part size in
      let (buf, heap') = kalloc heap len in
      let (rc, bs) = read fs path 0 (pos len) in
      let mem' = loaded mem bs in
      if is_neg size
      then (refused size, heap, mem)
      else (if ltb len (manifest_size + 64) then (refused einval, heap, mem) else (elim buf [
        | none ↦ (refused enospc, heap', mem)
        | some at ↦
            if int_eq rc (pos len)
            then (check_package mem' fs len, heap', mem')
            else (refused (if is_neg rc then rc else eio), heap', mem')
      ]))

  -- `ota_verify_package_kpath`
  unfoldable pub verify_kpath : (ℕ → ℕ) → Heap → Files → Str → ℤ
  verify_kpath mem heap fs path = elim ((parse_package mem heap fs path).0) [
    | refused rc ↦ rc
    | parsed m at n ↦ pos 0
  ]

  -- `ota_apply_package_kpath`, for the current agent and its id.
  unfoldable pub apply_kpath : (ℕ → ℕ) → Heap → Option (ℕ × Agent) → Files → Str → ℤ × Files
  apply_kpath mem heap none fs path = (eperm, fs)
  apply_kpath mem heap (some (id, a)) fs path =
      let (out, heap', mem') = parse_package mem heap fs path in
      if has_cap a cap_fs
      then (if pkg_path_ok (some id) path
          then (elim out [ refused rc ↦ (rc, fs) | parsed m at n ↦ install mem' fs m at n ])
          else (eperm, fs))
      else (eperm, fs)
