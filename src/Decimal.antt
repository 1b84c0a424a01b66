-- ===== src/Decimal.antt =====
-- The digit loops that the kernel repeats wherever it prints a number: `tmp[i++] = n % 10; n /= 10`
-- and then the digits back to front.
use open_agent_os.Prelude.{
  ℕ, zero, suc, ◌+◌, ◌/◌, ◌%◌, List, [], ◌∷◌, ◌==◌, true, false, ℤ, pos, negsuc,
}

-- The digits of `n`, last digit first; `fuel` rounds at most.
unfoldable pub digits_from : ℕ → ℕ → List ℕ
digits_from zero n = []
digits_from (suc fuel) n = elim (n == 0) [
  | true ↦ []
  | false ↦ (n % 10) ∷ digits_from fuel (n / 10)
]

-- `while (i > 0) put('0' + tmp[--i])`
unfoldable pub put_back : List ℕ → List ℕ → List ℕ
put_back [] acc = acc
put_back (d ∷ ds) acc = put_back ds ((48 + d) ∷ acc)

-- Each round at least halves the number, so `n` rounds are enough.
unfoldable pub decimal : ℕ → List ℕ
decimal n = elim (n == 0) [ true ↦ b'0' ∷ [] | false ↦ put_back (digits_from n n) [] ]

-- The same loop over an `int`, which prints nothing for a negative one.
unfoldable pub decimal_int : ℤ → List ℕ
decimal_int (pos n) = decimal n
decimal_int (negsuc n) = []
