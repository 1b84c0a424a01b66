-- ===== src/Paths.antt =====
-- The parts that the path parsers of kernel/namespace.c, tenant.c, audit.c, quota.c and tool.c have
-- in common: a fixed prefix, a number, and what follows it. Numbers are summed up in an `int`.
pub mod Numbers
pub mod Digits
use open_agent_os.Prelude.{
  ℕ, ◌+◌, ◌-◌, ◌*◌, ◌%◌, ◌^◌, Bool, true, false, ◌&&◌, List, [], ◌∷◌, ◌++◌, ℤ, pos, negsuc, leb,
  ◌==◌, if◌then◌else◌, drop, length, of_u32,
}
use open_agent_os.Bytes.{Str, char_at, starts_with}

unfoldable pub is_digit : ℕ → Bool
is_digit c = leb b'0' c && leb c b'9'

-- `while (is digit) { id = id * 10 + (path[i] - '0'); i++; }`: the bit pattern of `id`, and the rest
-- of the path.
unfoldable pub parse_digits : ℕ → Str → ℕ × Str
parse_digits id [] = (id, [])
parse_digits id (c ∷ cs) =
    if is_digit c then parse_digits ((id * 10 + (c - 48)) % 2 ^ 32) cs else (id, c ∷ cs)

-- The number that stands after `prefix`, which itself stands after the first byte of the path;
-- -1 if the prefix, the first digit or what follows the number is not as it should be.
unfoldable pub id_after : Str → (Str → Bool) → Str → ℤ
id_after prefix rest_ok path =
    let tail = drop (1 + length prefix) path in
    let (id, rest) = parse_digits 0 tail in
    if starts_with (drop 1 path) prefix
    then (if is_digit (char_at tail 0)
        then (if rest_ok rest then of_u32 id else negsuc 0)
        else negsuc 0)
    else negsuc 0
