-- ===== src/Words.antt =====
-- 32-bit words in memory, as the structures that the kernel writes to sectors and frames hold them.
use open_agent_os.Prelude.{ℕ, ◌+◌, ◌*◌, ◌/◌, ◌%◌, ◌^◌, ◌<◌, ◌≡◌, List, [], ◌∷◌, ◌++◌, get_or, arith}

-- A `uint32_t`, its low byte first.
unfoldable pub le32 : ℕ → List ℕ
le32 x = x % 256 ∷ x / 2 ^ 8 % 256 ∷ x / 2 ^ 16 % 256 ∷ x / 2 ^ 24 % 256 ∷ []

-- The `uint32_t` at this offset.
unfoldable pub of_le32 : List ℕ → ℕ → ℕ
of_le32 bs at =
    get_or bs at 0
    + get_or bs (at + 1) 0 * 2 ^ 8
    + get_or bs (at + 2) 0 * 2 ^ 16
    + get_or bs (at + 3) 0 * 2 ^ 24

-- The `uint16_t` at this offset.
unfoldable pub of_le16 : List ℕ → ℕ → ℕ
of_le16 bs at = get_or bs at 0 + get_or bs (at + 1) 0 * 2 ^ 8

-- The `uint64_t` at this offset.
unfoldable pub of_le64 : List ℕ → ℕ → ℕ
of_le64 bs at = of_le32 bs at + of_le32 bs (at + 4) * 2 ^ 32

pub of_le32-le32 : (x : ℕ) (rest : List ℕ) → x < 2 ^ 32 → of_le32 (le32 x ++ rest) 0 ≡ x
unfolding of_le32 le32
of_le32-le32 x rest small = omega arith
