-- ===== src/Spinlock/Exclusion.antt =====
-- kernel/spinlock.c: at most one hart holds a lock.
use open_agent_os.Prelude.{
  ℕ, zero, suc, ◌+◌, ◌≤◌, ◌<◌, ◌≡◌, ◌≢◌, refl, ap, sym, ◌∙◌, Bool, true, false, List, [], ◌∷◌, ◌==◌,
  if◌then◌else◌, get_or, set, length, replicate, arith, Bool-cases, inl, inr, length-set,
}
use open_agent_os.Spinlock.{
  Lock, init, try_acquire, release, Turn, tries, releases, Turns, done, after,
}

-- The harts that hold the lock.
unfoldable pub holders : List Bool → ℕ
holders [] = 0
holders (b ∷ bs) = (if b then 1 else 0) + holders bs

holders-set-true :
    (bs : List Bool) (i : ℕ)
    → i < length bs
    → get_or bs i false ≡ false
    → holders (set bs i true) ≡ holders bs + 1
unfolding holders
holders-set-true [] i h e = absurd (omega arith)
holders-set-true (b ∷ bs) zero h e = ground arith
holders-set-true (b ∷ bs) (suc i) h e = ground (arith, holders-set-true bs i)

holders-set-false :
    (bs : List Bool) (i : ℕ) → get_or bs i false ≡ true → holders (set bs i false) + 1 ≡ holders bs
unfolding holders
holders-set-false [] i e = cc
holders-set-false (b ∷ bs) zero e = ground arith
holders-set-false (b ∷ bs) (suc i) e = ground (arith, holders-set-false bs i)

holders_none : (bs : List Bool) (i : ℕ) → holders bs ≡ 0 → get_or bs i false ≡ false
unfolding holders
holders_none [] i e = refl
holders_none (b ∷ bs) zero e = ground arith
holders_none (b ∷ bs) (suc i) e = ground (arith, holders_none bs i)

holders_init : (n : ℕ) → holders (replicate n false) ≡ 0
unfolding holders
holders_init zero = refl
holders_init (suc n) = ground (arith, holders_init n)

-- The word tells whether a hart holds the lock.
abbrev pub IsHeld : Lock → Type 0
IsHeld l = (holders l.holds ≡ l.locked) × (l.locked ≤ 1)

Turn-IsHeld : (l l' : Lock) → Turn l l' → IsHeld l → IsHeld l'
unfolding try_acquire release
Turn-IsHeld l _ (tries _ i inside) (count, small) = elim (Bool-cases (l.locked == 0)) [
  | inl free ↦
      let nobody : holders l.holds ≡ 0 = ground arith in
      rw free (
        holders-set-true l.holds i inside (holders_none l.holds i nobody) ∙ ground arith,
        omega arith,
      )
  | inr taken ↦ rw taken (ground arith, omega arith)
]
Turn-IsHeld l _ (releases _ i inside held) (count, small) =
    (omega (arith, holders-set-false l.holds i held), omega arith)

Turns-IsHeld : (l l' : Lock) → Turns l l' → IsHeld l → IsHeld l'
Turns-IsHeld l _ (done _) v = v
Turns-IsHeld l l'' (after _ l' _ turn rest) v = Turns-IsHeld l' l'' rest (Turn-IsHeld l l' turn v)

-- From `spinlock_init` on, after any turns of any number of harts that release only what they hold,
-- at most one hart holds the lock, and the word is 1 exactly when one does.
pub exclusion :
    (n : ℕ) (l : Lock) → Turns (init n) l → (holders l.holds ≡ l.locked) × (l.locked ≤ 1)
unfolding init
exclusion n l turns = Turns-IsHeld (init n) l turns (holders_init n, omega arith)

get_or-set_self :
    (bs : List Bool) (i : ℕ) (b : Bool) → i < length bs → get_or (set bs i b) i false ≡ b
get_or-set_self [] i b h = absurd (omega arith)
get_or-set_self (x ∷ bs) zero b h = refl
get_or-set_self (x ∷ bs) (suc i) b h = get_or-set_self bs i b (omega arith)

get_or-set_other :
    (bs : List Bool) (i j : ℕ) (b : Bool) → i ≢ j → get_or (set bs i b) j false ≡ get_or bs j false
get_or-set_other [] i j b other = refl
get_or-set_other (x ∷ bs) zero zero b other = absurd (other refl)
get_or-set_other (x ∷ bs) zero (suc j) b other = refl
get_or-set_other (x ∷ bs) (suc i) zero b other = refl
get_or-set_other (x ∷ bs) (suc i) (suc j) b other =
    get_or-set_other bs i j b (λ e. other (ap suc e))

-- When hart `k` releases the lock while another hart `i` holds it, as a second release in a row may
-- do, the next turn of any hart `j` other than `i` takes the lock as well: then two harts hold it.
pub extra_release :
    (l : Lock) (i j k : ℕ)
    → i ≢ j
    → k ≢ i
    → j < length l.holds
    → get_or l.holds i false ≡ true
    → (get_or (try_acquire (release l k) j).holds i false ≡ true)
      × (get_or (try_acquire (release l k) j).holds j false ≡ true)
unfolding try_acquire release
extra_release l i j k other other' inside held = (
  get_or-set_other (set l.holds k false) j i true (λ e. other (sym e))
      ∙ get_or-set_other l.holds k i false other'
      ∙ held,
  get_or-set_self (set l.holds k false) j true (omega (arith, length-set l.holds k false)),
)
