-- ===== src/Paths/Numbers.antt =====
-- Printing a number in a path and parsing the path again.
use open_agent_os.Prelude.{
  ℕ, zero, suc, ◌+◌, ◌*◌, ◌/◌, ◌%◌, ◌^◌, ◌≤◌, ◌<◌, ◌≡◌, refl, ap, ◌∙◌, Bool, true, false, ◌&&◌,
  List, [], ◌∷◌, ◌++◌, pos, negsuc, leb, ◌==◌, arith, if◌then◌else◌, drop, length, Bool-cases, inl,
  inr,
}
use open_agent_os.Bytes.{Str, char_at, starts_with-append}
use open_agent_os.Decimal.{decimal, digits_from, put_back}
use open_agent_os.Paths.{is_digit, parse_digits, id_after}

-- The number whose digits these are, last digit first.
pub value : List ℕ → ℕ
value [] = 0
value (d ∷ ds) = d + 10 * value ds

abbrev AllDigits : List ℕ → Type 0
AllDigits [] = Unit
AllDigits (d ∷ ds) = (d < 10) × AllDigits ds

digits_from-AllDigits : (fuel n : ℕ) → AllDigits (digits_from fuel n)
unfolding digits_from
digits_from-AllDigits zero n = tt
digits_from-AllDigits (suc fuel) n = elim (Bool-cases (n == 0)) [
  | inl done ↦ rw (done, digits_from) tt
  | inr more ↦ rw (more, digits_from) (omega arith, digits_from-AllDigits fuel (n / 10))
]

-- The fuel that `decimal` gives is enough: no digit is lost.
pub value-digits_from : (fuel n : ℕ) → n ≤ fuel → value (digits_from fuel n) ≡ n
unfolding digits_from value
value-digits_from zero n h = omega arith
value-digits_from (suc fuel) n h = elim (Bool-cases (n == 0)) [
  | inl done ↦ rw (done, digits_from) (ground arith)
  | inr more ↦ rw (more, digits_from) (ground (arith, value-digits_from fuel (n / 10)))
]

put_back-append : (ds r s : List ℕ) → put_back ds r ++ s ≡ put_back ds (r ++ s)
unfolding put_back
put_back-append [] r s = refl
put_back-append (d ∷ ds) r s = put_back-append ds ((48 + d) ∷ r) s

parse_digits-digit :
    (id d : ℕ) (r : Str)
    → d < 10
    → id * 10 + d < 2 ^ 32
    → parse_digits id ((48 + d) ∷ r) ≡ parse_digits (id * 10 + d) r
unfolding parse_digits is_digit
parse_digits-digit id d r h small =
    let is_one : (leb b'0' (48 + d) && leb (48 + d) b'9') ≡ true = ground arith in
    rw is_one (ap (λ k. parse_digits k r) (omega arith))

parse_digits-stop :
    (id c : ℕ) (s : Str) → is_digit c ≡ false → parse_digits id (c ∷ s) ≡ (id, c ∷ s)
unfolding parse_digits
parse_digits-stop id c s stop = rw stop

parse-put_back :
    (ds : List ℕ) (r : Str)
    → AllDigits ds
    → value ds < 2 ^ 32
    → parse_digits 0 (put_back ds r) ≡ parse_digits (value ds) r
unfolding put_back value
parse-put_back [] r all small = refl
parse-put_back (d ∷ ds) r all small =
    parse-put_back ds ((48 + d) ∷ r) all.1 (omega arith)
    ∙ parse_digits-digit (value ds) d r all.0 (omega arith)
    ∙ ap (λ k. parse_digits k r) (omega arith)

-- A path that goes on with a printed number and then with no digit parses to that number.
pub parse_digits-decimal :
    (n c : ℕ) (s : Str)
    → n < 2 ^ 32
    → is_digit c ≡ false
    → parse_digits 0 (decimal n ++ c ∷ s) ≡ (n, c ∷ s)
unfolding decimal
parse_digits-decimal n c s small stop = elim (Bool-cases (n == 0)) [
  | inl none_left ↦
      rw (none_left, decimal)
        (parse_digits-digit 0 0 (c ∷ s) (omega arith) (omega arith)
          ∙ parse_digits-stop (0 * 10 + 0) c s stop
          ∙ ap (λ k. (k, c ∷ s)) (ground arith))
  | inr more ↦
      rw (more, decimal, put_back-append (digits_from n n) [] (c ∷ s))
        (parse-put_back (digits_from n n) (c ∷ s) (digits_from-AllDigits n n)
            (omega (arith, value-digits_from n n))
          ∙ ap (λ k. parse_digits k (c ∷ s)) (value-digits_from n n (omega arith))
          ∙ parse_digits-stop n c s stop)
]

is_digit_lem : (d : ℕ) → d < 10 → is_digit (48 + d) ≡ true
unfolding is_digit
is_digit_lem d h = ground arith

put_back-starts :
    (ds : List ℕ) (c : ℕ) (s : Str)
    → AllDigits ds
    → is_digit c ≡ true
    → is_digit (char_at (put_back ds (c ∷ s)) 0) ≡ true
unfolding put_back
put_back-starts [] c s all h = h
put_back-starts (d ∷ ds) c s all h =
    put_back-starts ds (48 + d) (c ∷ s) all.1 (is_digit_lem d all.0)

digits_from-starts :
    (fuel n : ℕ) (s : Str)
    → 0 < n
    → is_digit (char_at (put_back (digits_from (suc fuel) n) s) 0) ≡ true
unfolding digits_from put_back
digits_from-starts fuel n s some_left =
    let more : (n == 0) ≡ false = ground arith in
    rw (more, digits_from)
      (put_back-starts (digits_from fuel (n / 10)) (48 + n % 10) s
        (digits_from-AllDigits fuel (n / 10)) (is_digit_lem (n % 10) (omega arith)))

-- A printed number begins with a digit.
pub decimal-starts : (n : ℕ) (s : Str) → is_digit (char_at (decimal n ++ s) 0) ≡ true
unfolding decimal
decimal-starts zero s = is_digit_lem 0 (omega arith)
decimal-starts (suc n) s =
    let more : (suc n == 0) ≡ false = ground arith in
    rw (more, decimal, put_back-append (digits_from (suc n) (suc n)) [] s)
      (digits_from-starts n (suc n) s (omega arith))

drop-append : (xs ys : List ℕ) → drop (length xs) (xs ++ ys) ≡ ys
drop-append [] ys = refl
drop-append (x ∷ xs) ys = drop-append xs ys

one_more : (k : ℕ) → 1 + k ≡ suc k
one_more k = omega arith

-- A number below 2 ^ 31 that was printed behind the prefix is found again, whatever its size, if the
-- rest of the path is accepted; otherwise the answer is -1.
pub id_after-decimal :
    (prefix : Str) (ok : Str → Bool) (b n c : ℕ) (s : Str)
    → n < 2 ^ 31
    → is_digit c ≡ false
    → id_after prefix ok (b ∷ (prefix ++ (decimal n ++ c ∷ s)))
      ≡ (if ok (c ∷ s) then pos n else negsuc 0)
unfolding id_after
id_after-decimal prefix ok b n c s small stop = ground (
  arith,
  starts_with-append prefix (decimal n ++ c ∷ s),
  decimal-starts n (c ∷ s),
  parse_digits-decimal n c s,
  drop-append prefix (decimal n ++ c ∷ s),
  ap (λ k. drop k (b ∷ (prefix ++ (decimal n ++ c ∷ s)))) (one_more (length prefix)),
)
