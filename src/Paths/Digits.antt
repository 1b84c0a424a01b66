-- ===== src/Paths/Digits.antt =====
-- How many digits the digit loops of kernel/namespace.c, audit.c and the others store.
use native.Mathlib.Nat.{pow-suc}
use open_agent_os.Prelude.{
  ℕ, zero, suc, ◌+◌, ◌/◌, ◌^◌, ◌≤◌, ◌<◌, ◌≡◌, true, false, List, [], ◌∷◌, ◌==◌, arith, length,
  Bool-cases, inl, inr, ap, ◌%◌, refl,
}
use open_agent_os.Decimal.{decimal, digits_from, put_back}
use open_agent_os.Paths.Numbers.{value, value-digits_from}

length-digits_from-le : (k fuel n : ℕ) → n < 10 ^ k → length (digits_from fuel n) ≤ k
unfolding digits_from
length-digits_from-le k zero n h = omega arith
length-digits_from-le zero (suc fuel) n h =
    let done : (n == 0) ≡ true = ground arith in rw (done, digits_from) (omega arith)
length-digits_from-le (suc k) (suc fuel) n h = elim (Bool-cases (n == 0)) [
  | inl done ↦ rw (done, digits_from) (omega arith)
  | inr more ↦
      rw (more, digits_from)
        (omega (arith, length-digits_from-le k fuel (n / 10) (omega (arith, pow-suc 10 k))))
]

ten_pow_pos : (k : ℕ) → 0 < 10 ^ k
ten_pow_pos zero = omega arith
ten_pow_pos (suc k) = omega (arith, pow-suc 10 k, ten_pow_pos k)

le-length-digits_from : (k fuel n : ℕ) → n ≤ fuel → 10 ^ k ≤ n → k < length (digits_from fuel n)
unfolding digits_from
le-length-digits_from k zero n h big = absurd (omega (arith, ten_pow_pos k))
le-length-digits_from zero (suc fuel) n h big =
    let more : (n == 0) ≡ false = ground arith in rw (more, digits_from) (omega arith)
le-length-digits_from (suc k) (suc fuel) n h big =
    let some_left : 0 < n = omega (arith, pow-suc 10 k, ten_pow_pos k) in
    let more : (n == 0) ≡ false = ground arith in
    rw (more, digits_from)
      (omega
        (arith, le-length-digits_from k fuel (n / 10) (omega arith) (omega (arith, pow-suc 10 k))))

length-put_back : (ds r : List ℕ) → length (put_back ds r) ≡ length ds + length r
unfolding put_back
length-put_back [] r = omega arith
length-put_back (d ∷ ds) r = omega (arith, length-put_back ds ((48 + d) ∷ r))

-- A number below 10 ^ k, for a k that is not 0, prints to at most k bytes.
pub length-decimal-le : (k n : ℕ) → 0 < k → n < 10 ^ k → length (decimal n) ≤ k
unfolding decimal
length-decimal-le k n some_digits h = elim (Bool-cases (n == 0)) [
  | inl done ↦ rw (done, decimal) (omega arith)
  | inr more ↦
      rw (more, decimal)
        (omega (arith, length-put_back (digits_from n n) [], length-digits_from-le k n n h))
]

-- The digit loop stores at most eight digits exactly for the numbers below 10 ^ 8; for any other it
-- writes past the end of `digits[8]`.
pub digits_fit :
    (n : ℕ)
    → (n < 10 ^ 8 → length (digits_from n n) ≤ 8) × (10 ^ 8 ≤ n → 8 < length (digits_from n n))
digits_fit n = (length-digits_from-le 8 n n, le-length-digits_from 8 n n (omega arith))

same_digits : (f g n : ℕ) → n ≤ f → n ≤ g → digits_from f n ≡ digits_from g n
unfolding digits_from
same_digits zero zero n h k = refl
same_digits zero (suc g) n h k =
    let none_left : (n == 0) ≡ true = ground arith in rw (none_left, digits_from) refl
same_digits (suc f) zero n h k =
    let none_left : (n == 0) ≡ true = ground arith in rw (none_left, digits_from) refl
same_digits (suc f) (suc g) n h k = elim (Bool-cases (n == 0)) [
  | inl done ↦ rw (done, digits_from) refl
  | inr more ↦
      rw (more, digits_from)
        (ap (λ ds. n % 10 ∷ ds) (same_digits f g (n / 10) (ground arith) (ground arith)))
]

-- The loop that takes a number apart ends after at most as many rounds as the number: with any more
-- rounds to go it gives the same digits, and no digit is lost, as each stands for its place in the
-- number.
pub digits_from_ends :
    (fuel n : ℕ) → n ≤ fuel → (digits_from fuel n ≡ digits_from n n) × (value (digits_from n n) ≡ n)
digits_from_ends fuel n h =
    (same_digits fuel n n h (omega arith), value-digits_from n n (omega arith))
