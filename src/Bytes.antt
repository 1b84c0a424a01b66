-- ===== src/Bytes.antt =====
-- C strings and byte buffers. A string is the list of its bytes before the terminator; reading at
-- or past the end of one reads the terminator, 0.
use open_agent_os.Prelude.{
  ℕ, zero, suc, ◌+◌, ◌≤◌, ◌<◌, ◌≡◌, ◌≢◌, if◌then◌else◌, ◌↔◌, refl, ap, ◌∙◌, Bool, true, false, ◌&&◌,
  List, [], ◌∷◌, ◌++◌, ◌==◌, arith, get_or, set, take, drop, length, length-set,
}

abbrev pub Str : Type 0
Str = List ℕ

-- `s[i]`
abbrev pub char_at : Str → ℕ → ℕ
char_at s i = get_or s i 0

-- `str_eq`, `host_eq`: walks both strings to the first difference or terminator.
unfoldable pub str_eq : Str → Str → Bool
str_eq [] [] = true
str_eq [] (b ∷ bs) = false
str_eq (a ∷ as_) [] = false
str_eq (a ∷ as_) (b ∷ bs) = a == b && str_eq as_ bs

pub str_eq_sound : (s t : Str) → str_eq s t ≡ true → s ≡ t
unfolding str_eq
str_eq_sound [] [] h = refl
str_eq_sound [] (b ∷ bs) h = cc
str_eq_sound (a ∷ as_) [] h = cc
str_eq_sound (a ∷ as_) (b ∷ bs) h = ground (arith, str_eq_sound as_ bs)

pub str_eq_refl : (s : Str) → str_eq s s ≡ true
unfolding str_eq
str_eq_refl [] = refl
str_eq_refl (a ∷ as_) = ground (arith, str_eq_refl as_)

pub str_eq_iff : (s t : Str) → (str_eq s t ≡ true) ↔ (s ≡ t)
str_eq_iff s t = (str_eq_sound s t, λ e. rw e (str_eq_refl t))

-- The string continues with exactly these bytes, as a chain `p[k] == c && p[k + 1] == d && …` tests.
unfoldable pub starts_with : Str → Str → Bool
starts_with s [] = true
starts_with s (c ∷ cs) = char_at s 0 == c && starts_with (drop 1 s) cs

pub starts_with-append : (cs s : Str) → starts_with (cs ++ s) cs ≡ true
unfolding starts_with
starts_with-append [] s = refl
starts_with-append (c ∷ cs) s = ground (arith, starts_with-append cs s)

-- `for (i = 0; i < n; i++) dst[off + i] = src[i]`, over the bytes that are copied.
unfoldable pub copy_in : List ℕ → ℕ → List ℕ → List ℕ
copy_in dst off [] = dst
copy_in dst off (c ∷ cs) = copy_in (set dst off c) (suc off) cs

pub length-copy_in :
    (dst : List ℕ) (off : ℕ) (src : List ℕ) → length (copy_in dst off src) ≡ length dst
unfolding copy_in
length-copy_in dst off [] = refl
length-copy_in dst off (c ∷ cs) = length-copy_in (set dst off c) (suc off) cs ∙ length-set dst off c

copy_in-cons :
    (x : ℕ) (dst : List ℕ) (off : ℕ) (src : List ℕ)
    → copy_in (x ∷ dst) (suc off) src ≡ x ∷ copy_in dst off src
unfolding copy_in
copy_in-cons x dst off [] = refl
copy_in-cons x dst off (c ∷ cs) = copy_in-cons x (set dst off c) (suc off) cs

-- Within the array a copy replaces just the bytes that it covers.
pub copy_in_lem :
    (dst : List ℕ) (off : ℕ) (src : List ℕ)
    → off + length src ≤ length dst
    → copy_in dst off src ≡ take off dst ++ (src ++ drop (off + length src) dst)
unfolding copy_in
copy_in_lem dst zero [] h = refl
copy_in_lem [] zero (c ∷ cs) h = absurd (omega arith)
copy_in_lem (x ∷ dst) zero (c ∷ cs) h =
    copy_in-cons c dst 0 cs
    ∙ ap (λ r. c ∷ r) (copy_in_lem dst 0 cs (omega arith))
    ∙ ap (λ k. c ∷ (cs ++ drop k (x ∷ dst)))
        (let e : suc (0 + length cs) ≡ 0 + suc (length cs) = omega arith in e)
copy_in_lem [] (suc off) src h = absurd (omega arith)
copy_in_lem (x ∷ dst) (suc off) src h =
    copy_in-cons x dst off src
    ∙ ap (λ r. x ∷ r) (copy_in_lem dst off src (omega arith))
    ∙ ap (λ k. x ∷ (take off dst ++ (src ++ drop k (x ∷ dst))))
        (let e : suc (off + length src) ≡ suc off + length src = omega arith in e)

-- No byte of a string is its terminator.
abbrev pub AllNonzero : List ℕ → Type 0
AllNonzero [] = Unit
AllNonzero (b ∷ bs) = (b ≢ 0) × AllNonzero bs

-- The bytes before the first terminator, at most `n` of them.
unfoldable pub until_nul : ℕ → List ℕ → List ℕ
until_nul zero bs = []
until_nul (suc n) [] = []
until_nul (suc n) (b ∷ bs) = if b == 0 then [] else b ∷ until_nul n bs

-- A string in an array, with its terminator, is read back whole.
pub until_nul-string :
    (n : ℕ) (s rest : List ℕ) → AllNonzero s → length s < n → until_nul n (s ++ 0 ∷ rest) ≡ s
unfolding until_nul
until_nul-string zero s rest v h = absurd (omega arith)
until_nul-string (suc n) [] rest v h = refl
until_nul-string (suc n) (b ∷ bs) rest v h = ground (arith, until_nul-string n bs rest v.1)
