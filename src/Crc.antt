-- ===== src/Crc.antt =====
-- The checksum that kernel/persist.c and kernel/ota.c share: the reflected CRC-32, bit by bit.
use Prim.Native.Nat.{bit_xor}
use open_agent_os.Prelude.{
  ℕ, zero, suc, ◌-◌, ◌/◌, ◌%◌, ◌^◌, ◌<◌, ◌==◌, List, [], ◌∷◌, if◌then◌else◌, arith,
}

-- `a ^ b` on `uint32_t`.
unfoldable pub xor32 : ℕ → ℕ → ℕ
xor32 a b = bit_xor a b % 2 ^ 32

-- One round of the inner loop.
unfoldable pub crc_bit : ℕ → ℕ
crc_bit crc = if crc % 2 == 1 then xor32 (crc / 2) 0xedb88320 else crc / 2

-- `for (bit = 0; bit < 8; bit++)`, with this many rounds to go.
unfoldable pub crc_bits : ℕ → ℕ → ℕ
crc_bits zero crc = crc
crc_bits (suc n) crc = crc_bits n (crc_bit crc)

-- `ota_crc32_update`
unfoldable pub crc_update : ℕ → List ℕ → ℕ
crc_update crc [] = crc
crc_update crc (b ∷ bs) = crc_update (crc_bits 8 (xor32 crc b)) bs

-- `~crc`
unfoldable pub not32 : ℕ → ℕ
not32 x = 2 ^ 32 - 1 - x % 2 ^ 32

-- `persist_crc32`
unfoldable pub crc32 : List ℕ → ℕ
crc32 bs = not32 (crc_update (2 ^ 32 - 1) bs)

pub crc32-lt : (bs : List ℕ) → crc32 bs < 2 ^ 32
unfolding crc32 not32
crc32-lt bs = omega arith

pub xor32-lt : (a b : ℕ) → xor32 a b < 2 ^ 32
unfolding xor32
xor32-lt a b = omega arith
