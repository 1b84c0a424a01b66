-- ===== src/Ring.antt =====
-- The messages that a ring of the inbox holds, oldest first, and how a write past them extends it.
-- The two rings of kernel/ipc.c differ in their size alone.
use native.Mathlib.Nat.{add-zero, mod-add-mod, mod-eq_of_lt, mod-eq-sub-mod, mod-lt}
use native.Mathlib.Numerals.{add-one}
use native.Mathlib.Decide.{dec_lt}
use open_agent_os.Prelude.{
  ℕ, zero, suc, ◌+◌, ◌-◌, ◌%◌, ◌<◌, ◌≡◌, ◌≢◌, refl, ap, sym, ◌∙◌, List, [], ◌∷◌, ◌++◌, arith,
  get_or, set, length, get_or-set_self, get_or-set_ne,
}

module _ {ℓ} {A : Type ℓ} (d : A) (cap : ℕ) where
  -- The `n` entries from position `h` on; positions count past the end and are taken modulo `cap`.
  abbrev pub held : List A → ℕ → ℕ → List A
  held slots h zero = []
  held slots h (suc n) = get_or slots (h % cap) d ∷ held slots (suc h) n

  pub length-held : (slots : List A) (h n : ℕ) → length (held slots h n) ≡ n
  length-held slots h zero = refl
  length-held slots h (suc n) = ap suc (length-held slots (suc h) n)

  -- Only the position modulo `cap` counts.
  pub held-congr :
      (slots : List A) (h k n : ℕ) → h % cap ≡ k % cap → held slots h n ≡ held slots k n
  held-congr slots h k zero e = refl
  held-congr slots h k (suc n) e =
      rw e (ap (λ r. get_or slots (k % cap) d ∷ r) (held-congr slots (suc h) (suc k) n next))
    where
      next : suc h % cap ≡ suc k % cap
      next = omega (
        arith,
        mod-add-mod h cap 1,
        mod-add-mod k cap 1,
        ap (λ (t : ℕ). (t + 1) % cap) e,
        ap (λ (t : ℕ). t % cap) (add-one h),
        ap (λ (t : ℕ). t % cap) (add-one k),
      )

  -- Fewer than `cap` positions further on is another slot.
  mod-ne-mod_add : (h k : ℕ) → 0 < k → k < cap → (h + k) % cap ≢ h % cap
  mod-ne-mod_add h k pos_k small = elim (dec_lt (h % cap + k) cap) [
    | yes p ↦ omega (arith, mod-add-mod h cap k, mod-eq_of_lt p)
    | no p ↦ omega (
      arith,
      mod-add-mod h cap k,
      mod-lt h {m = cap} (omega arith),
      mod-eq-sub-mod {n = h % cap + k} {m = cap} (omega arith),
      mod-eq_of_lt {n = h % cap + k - cap} {m = cap}
          (omega (arith, mod-lt h {m = cap} (omega arith))),
    )
  ]

  -- A write into the slot just past the entries adds one entry at the end.
  pub held-set :
      (slots : List A) (h n i : ℕ) (x : A)
      → length slots ≡ cap
      → n < cap
      → i ≡ (h + n) % cap
      → held (set slots i x) h (suc n) ≡ held slots h n ++ x ∷ []
  held-set slots h zero i x e lt at =
      ap (λ r. r ∷ [])
        (rw at (
          rw add-zero (
            get_or-set_self slots (h % cap) x d (omega (arith, mod-lt h {m = cap} (omega arith))))))
  held-set slots h (suc n) i x e lt at = rw (get_or-set_ne slots i (h % cap) x d other) (
      ap (λ r. get_or slots (h % cap) d ∷ r)
        (held-set slots (suc h) n i x e (omega arith) (at ∙ ap (λ (t : ℕ). t % cap) (omega arith))))
    where
      other : i ≢ h % cap
      other = rw at (mod-ne-mod_add h (suc n) (omega arith) lt)

  -- The oldest entry, and the ring without it.
  pub held-pop :
      (slots : List A) (h n : ℕ)
      → h < cap
      → 0 < n
      → held slots h n ≡ get_or slots h d ∷ held slots ((h + 1) % cap) (n - 1)
  held-pop slots h zero lt some_left = absurd (omega arith)
  held-pop slots h (suc n) lt some_left = rw (mod-eq_of_lt lt) (
      ap (λ r. get_or slots h d ∷ r)
        (held-congr slots (suc h) ((h + 1) % cap) n (sym again)
          ∙ ap (held slots ((h + 1) % cap)) (omega arith)))
    where
      again : (h + 1) % cap % cap ≡ suc h % cap
      again =
          mod-eq_of_lt (mod-lt (h + 1) {m = cap} (omega arith))
          ∙ ap (λ (t : ℕ). t % cap) (add-one h)
