-- ===== src/Prelude/Lists.antt =====
-- C arrays as lists, measured and indexed by native numbers, under the library's names.
use Prim.Native.Nat.{ℕ, zero, suc, ◌+◌, ◌-◌, ◌≤◌, ◌<◌, min}
use mathlib.Core.Path.{◌≡◌, refl, ap, sym, ◌∙◌}
use mathlib.Core.Logic.{◌≢◌}
use mathlib.Core.List.{List, [], ◌∷◌, ◌++◌}
use native.Mathlib.Omega.{arith}

module _ {ℓ} {A : Type ℓ} where
  abbrev pub length : List A → ℕ
  length [] = 0
  length (x ∷ xs) = suc (length xs)

  abbrev pub get_or : List A → ℕ → A → A
  get_or [] i d = d
  get_or (x ∷ xs) zero d = x
  get_or (x ∷ xs) (suc i) d = get_or xs i d

  -- A write out of bounds changes nothing.
  abbrev pub set : List A → ℕ → A → List A
  set [] i v = []
  set (x ∷ xs) zero v = v ∷ xs
  set (x ∷ xs) (suc i) v = x ∷ set xs i v

  abbrev pub take : ℕ → List A → List A
  take zero xs = []
  take (suc n) [] = []
  take (suc n) (x ∷ xs) = x ∷ take n xs

  abbrev pub drop : ℕ → List A → List A
  drop zero xs = xs
  drop (suc n) [] = []
  drop (suc n) (x ∷ xs) = drop n xs

  abbrev pub replicate : ℕ → A → List A
  replicate zero a = []
  replicate (suc n) a = a ∷ replicate n a

module _ {ℓ} {A : Type ℓ} where
  pub length-append : (xs ys : List A) → length (xs ++ ys) ≡ length xs + length ys
  length-append [] ys = omega arith
  length-append (x ∷ xs) ys = omega (arith, length-append xs ys)

  pub length-set : (xs : List A) (i : ℕ) (v : A) → length (set xs i v) ≡ length xs
  length-set [] i v = refl
  length-set (x ∷ xs) zero v = refl
  length-set (x ∷ xs) (suc i) v = ap suc (length-set xs i v)

  pub length-take : (n : ℕ) (xs : List A) → length (take n xs) ≡ min n (length xs)
  length-take zero xs = omega arith
  length-take (suc n) [] = omega arith
  length-take (suc n) (x ∷ xs) = omega (arith, length-take n xs)

  pub length-drop : (n : ℕ) (xs : List A) → length (drop n xs) ≡ length xs - n
  length-drop zero xs = omega arith
  length-drop (suc n) [] = omega arith
  length-drop (suc n) (x ∷ xs) = omega (arith, length-drop n xs)

  pub length-replicate : (n : ℕ) (a : A) → length (replicate n a) ≡ n
  length-replicate zero a = refl
  length-replicate (suc n) a = ap suc (length-replicate n a)

  pub get_or-set_self :
      (xs : List A) (i : ℕ) (v d : A) → i < length xs → get_or (set xs i v) i d ≡ v
  get_or-set_self [] i v d h = absurd (omega arith)
  get_or-set_self (x ∷ xs) zero v d h = refl
  get_or-set_self (x ∷ xs) (suc i) v d h = get_or-set_self xs i v d (omega arith)

  pub get_or-set_ne :
      (xs : List A) (i j : ℕ) (v d : A) → i ≢ j → get_or (set xs i v) j d ≡ get_or xs j d
  get_or-set_ne [] i j v d h = refl
  get_or-set_ne (x ∷ xs) zero zero v d h = absurd (h refl)
  get_or-set_ne (x ∷ xs) zero (suc j) v d h = refl
  get_or-set_ne (x ∷ xs) (suc i) zero v d h = refl
  get_or-set_ne (x ∷ xs) (suc i) (suc j) v d h = get_or-set_ne xs i j v d (λ e. h (ap suc e))

  pub set_same : (xs : List A) (i : ℕ) (d : A) → set xs i (get_or xs i d) ≡ xs
  set_same [] i d = refl
  set_same (x ∷ xs) zero d = refl
  set_same (x ∷ xs) (suc i) d = ap (λ r. x ∷ r) (set_same xs i d)

  -- What a write does not change about the entry that it replaces, it changes nowhere.
  pub set_keeps {ℓ'} :
      {B : Type ℓ'} (f : A → B) (xs : List A) (i j : ℕ) (v d : A)
      → f v ≡ f (get_or xs i d)
      → f (get_or (set xs i v) j d) ≡ f (get_or xs j d)
  set_keeps f [] i j v d h = refl
  set_keeps f (x ∷ xs) zero zero v d h = h
  set_keeps f (x ∷ xs) zero (suc j) v d h = refl
  set_keeps f (x ∷ xs) (suc i) zero v d h = refl
  set_keeps f (x ∷ xs) (suc i) (suc j) v d h = set_keeps f xs i j v d h

  pub take-nil : (n : ℕ) → take n (let e : List A = [] in e) ≡ []
  take-nil zero = refl
  take-nil (suc n) = refl

  take-congr : (n m : ℕ) (xs : List A) → n ≡ m → take n xs ≡ take m xs
  take-congr n m xs e = ap (λ k. take k xs) e

  pub drop-take : (n m : ℕ) (xs : List A) → drop n (take m xs) ≡ take (m - n) (drop n xs)
  drop-take zero m xs = take-congr m (m - 0) xs (omega arith)
  drop-take (suc n) zero xs = take-congr 0 (0 - suc n) (drop (suc n) xs) (omega arith)
  drop-take (suc n) (suc m) [] = sym (take-nil (suc m - suc n))
  drop-take (suc n) (suc m) (x ∷ xs) =
      drop-take n m xs ∙ take-congr (m - n) (suc m - suc n) (drop n xs) (omega arith)

  pub take-take : (n m : ℕ) (xs : List A) → take n (take m xs) ≡ take (min n m) xs
  take-take zero m xs = take-congr 0 (min 0 m) xs (omega arith)
  take-take (suc n) zero xs = take-congr 0 (min (suc n) 0) xs (omega arith)
  take-take (suc n) (suc m) [] = sym (take-nil (min (suc n) (suc m)))
  take-take (suc n) (suc m) (x ∷ xs) =
      ap (λ r. x ∷ r) (take-take n m xs)
      ∙ take-congr (suc (min n m)) (min (suc n) (suc m)) (x ∷ xs) (omega arith)

  pub take-length_le : (n : ℕ) (xs : List A) → length xs ≤ n → take n xs ≡ xs
  take-length_le zero [] h = refl
  take-length_le zero (x ∷ xs) h = absurd (omega arith)
  take-length_le (suc n) [] h = refl
  take-length_le (suc n) (x ∷ xs) h = ap (λ r. x ∷ r) (take-length_le n xs (omega arith))

  pub take-append_left : (n : ℕ) (xs ys : List A) → n ≡ length xs → take n (xs ++ ys) ≡ xs
  take-append_left zero [] ys h = refl
  take-append_left zero (x ∷ xs) ys h = absurd (omega arith)
  take-append_left (suc n) [] ys h = absurd (omega arith)
  take-append_left (suc n) (x ∷ xs) ys h = ap (λ r. x ∷ r) (take-append_left n xs ys (omega arith))

  pub set-set : (xs : List A) (i : ℕ) (v w : A) → set (set xs i v) i w ≡ set xs i w
  set-set [] i v w = refl
  set-set (x ∷ xs) zero v w = refl
  set-set (x ∷ xs) (suc i) v w = ap (λ r. x ∷ r) (set-set xs i v w)

  pub take-append :
      (n : ℕ) (xs ys : List A) → take n (xs ++ ys) ≡ take n xs ++ take (n - length xs) ys
  take-append zero xs ys = take-congr 0 (0 - length xs) ys (omega arith)
  take-append (suc n) [] ys = take-congr (suc n) (suc n - 0) ys (omega arith)
  take-append (suc n) (x ∷ xs) ys =
      ap (λ r. x ∷ r)
        (take-append n xs ys
          ∙ ap (λ r. take n xs ++ r)
              (take-congr (n - length xs) (suc n - suc (length xs)) ys (omega arith)))

  pub take-set_beyond : (xs : List A) (n i : ℕ) (v : A) → n ≤ i → take n (set xs i v) ≡ take n xs
  take-set_beyond [] n i v h = refl
  take-set_beyond (x ∷ xs) zero i v h = refl
  take-set_beyond (x ∷ xs) (suc n) zero v h = absurd (omega arith)
  take-set_beyond (x ∷ xs) (suc n) (suc i) v h =
      ap (λ r. x ∷ r) (take-set_beyond xs n i v (omega arith))

  -- An array that was overwritten from `off` on, cut at `m`, beside the cut array overwritten.
  pub take-overlay :
      (xs s : List A) (off n size m : ℕ)
      → length s ≡ n
      → off ≤ size
      → off ≤ length xs
      → off + n ≤ m
      → m - off - n ≡ size - (off + n)
      → take m (take off xs ++ (s ++ drop (off + n) xs))
        ≡ take off (take size xs) ++ (s ++ drop (off + n) (take size xs))
  take-overlay xs s off n size m ls within whole fits gap =
      take-append m (take off xs) (s ++ drop (off + n) xs)
      ∙ ap (λ r. take m (take off xs) ++ r)
          (take-append (m - length (take off xs)) s (drop (off + n) xs))
      ∙ rw (
        take-length_le m (take off xs) (omega (arith, length-take off xs)),
        take-length_le (m - length (take off xs)) s (omega (arith, length-take off xs)),
        take-take off size xs,
        drop-take (off + n) size xs,
        take-congr (m - length (take off xs) - length s) (size - (off + n)) (drop (off + n) xs)
            (omega (arith, length-take off xs)),
        take-congr (min off size) off xs (omega arith),
      )

  drop-nil : (n : ℕ) → drop n (let e : List A = [] in e) ≡ []
  drop-nil zero = refl
  drop-nil (suc n) = refl

  pub drop-drop : (n m : ℕ) (xs : List A) → drop (n + m) xs ≡ drop m (drop n xs)
  drop-drop zero m xs = ap (λ k. drop k xs) (let e : 0 + m ≡ m = omega arith in e)
  drop-drop (suc n) m [] =
      ap (λ k. drop k []) (let e : suc n + m ≡ suc (n + m) = omega arith in e) ∙ sym (drop-nil m)
  drop-drop (suc n) m (x ∷ xs) =
      ap (λ k. drop k (x ∷ xs)) (let e : suc n + m ≡ suc (n + m) = omega arith in e)
      ∙ drop-drop n m xs

  pub drop-length_le : (n : ℕ) (xs : List A) → length xs ≤ n → drop n xs ≡ []
  drop-length_le zero [] h = refl
  drop-length_le zero (x ∷ xs) h = absurd (omega arith)
  drop-length_le (suc n) [] h = refl
  drop-length_le (suc n) (x ∷ xs) h = drop-length_le n xs (omega arith)

  pub take-drop : (n : ℕ) (xs : List A) → take n xs ++ drop n xs ≡ xs
  take-drop zero xs = refl
  take-drop (suc n) [] = refl
  take-drop (suc n) (x ∷ xs) = ap (λ r. x ∷ r) (take-drop n xs)

  pub drop-append_left : (n : ℕ) (xs ys : List A) → n ≡ length xs → drop n (xs ++ ys) ≡ ys
  drop-append_left zero [] ys h = refl
  drop-append_left zero (x ∷ xs) ys h = absurd (omega arith)
  drop-append_left (suc n) [] ys h = absurd (omega arith)
  drop-append_left (suc n) (x ∷ xs) ys h = drop-append_left n xs ys (omega arith)
