-- ===== src/Tool/Line.antt =====
-- kernel/tool.c: the line that `tool_audit_log` builds in 32 bytes.
use open_agent_os.Prelude.{
  ℕ, ◌+◌, ◌^◌, ◌≤◌, ◌<◌, ◌≡◌, refl, ap, sym, List, [], ◌∷◌, ◌++◌, ℤ, pos, negsuc, arith, length,
  length-append, append_assoc, append-nil, some,
}
use open_agent_os.Paths.Digits.{length-decimal-le}
use open_agent_os.Tool.{append_digits, int_text, append_int, audit_line}

append_digits_lem :
    (buf : List ℕ) (cap : ℕ) (ds : List ℕ)
    → length buf + length ds < cap
    → append_digits buf cap ds ≡ some (buf ++ ds)
unfolding append_digits
append_digits_lem buf cap [] h = ap some (sym (append-nil buf))
append_digits_lem buf cap (d ∷ ds) h = ground (
  arith,
  append_digits_lem (buf ++ d ∷ []) cap ds (omega (arith, length-append buf (d ∷ []))),
  append_assoc buf (d ∷ []) ds,
)

-- An `int`.
abbrev pub IsInt : ℤ → Type 0
IsInt (pos n) = n < 2 ^ 31
IsInt (negsuc n) = n < 2 ^ 31

length-int_text : (x : ℤ) → IsInt x → length (int_text x) ≤ 11
unfolding int_text
length-int_text (pos n) small = omega (arith, length-decimal-le 10 n (omega arith) (omega arith))
length-int_text (negsuc n) small =
    omega (arith, length-decimal-le 10 (n + 1) (omega arith) (omega arith))

-- "tool="
abbrev pub tool_is : List ℕ
tool_is = b't' ∷ b'o' ∷ b'o' ∷ b'l' ∷ b'=' ∷ []

-- " rc="
abbrev pub rc_is : List ℕ
rc_is = 32 ∷ b'r' ∷ b'c' ∷ b'=' ∷ []

-- "tool=<tool> rc=<status>" and a line end
abbrev pub line_of : ℤ → ℤ → List ℕ
line_of tool rc = (((tool_is ++ int_text tool) ++ rc_is) ++ int_text rc) ++ 10 ∷ []

-- For every `int` that names a tool and every `int` that is a status, the buffer of 32 bytes has room
-- for the whole line "tool=<tool> rc=<status>" and its line end: it is built, and has at most 32 bytes.
pub audit_line_lem :
    (tool rc : ℤ)
    → IsInt tool
    → IsInt rc
    → (audit_line tool rc ≡ some (line_of tool rc)) × (length (line_of tool rc) ≤ 32)
unfolding audit_line append_int
audit_line_lem tool rc v w =
    let short = length-int_text tool v in
    let short' = length-int_text rc w in
    let first = tool_is ++ int_text tool in
    let len : length (first ++ rc_is) ≡ 9 + length (int_text tool) =
      omega (arith, length-append first rc_is) in
    let one = append_digits_lem tool_is 32 (int_text tool) (omega arith) in
    let two = append_digits_lem (first ++ rc_is) 32 (int_text rc) (omega (arith, len)) in
    (
      rw (one, audit_line, append_int) (rw two refl),
      omega (
        arith,
        len,
        length-append (first ++ rc_is) (int_text rc),
        length-append ((first ++ rc_is) ++ int_text rc) (10 ∷ []),
      ),
    )
