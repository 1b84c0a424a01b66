-- ===== src/Agent/Alloc.antt =====
-- kernel/agent.c: the slots that `agent_alloc_id` finds.
use open_agent_os.Prelude.{
  ℕ, zero, suc, ◌+◌, ◌-◌, ◌≤◌, ◌<◌, ◌≡◌, Bool, true, false, ◌||◌, List, [], ◌∷◌, pos, negsuc, arith,
  Bool-cases, inl, inr, ap, sym, ◌∙◌, get_or, length,
}
use open_agent_os.Kernel.{Agent, no_agent, is_unused, is_zombie}
use open_agent_os.Agent.{alloc_from, alloc_id}

-- An agent that a new one may replace.
abbrev pub is_free : Agent → Bool
is_free a = is_unused a.state || is_zombie a.state

alloc_from-found :
    (at : ℕ) (as_ : List Agent) (i : ℕ)
    → alloc_from at as_ ≡ pos i
    → (at ≤ i) × (i < at + length as_) × (is_free (get_or as_ (i - at) no_agent) ≡ true)
unfolding alloc_from
alloc_from-found at [] i h = cc
alloc_from-found at (a ∷ rest) i h = elim (Bool-cases (is_free a)) [
  | inl free ↦
      let here : at ≡ i = ground arith in
      let none_before : i - at ≡ 0 = omega arith in
      (
        omega arith,
        omega arith,
        ap (λ n. is_free (get_or (a ∷ rest) n no_agent)) none_before ∙ free,
      )
  | inr busy ↦
      let (le, lt, free) = alloc_from-found (at + 1) rest i (ground arith) in
      let later : i - at ≡ suc (i - (at + 1)) = omega arith in
      (omega arith, omega arith, ap (λ n. is_free (get_or (a ∷ rest) n no_agent)) later ∙ free)
]

alloc_from-first :
    (at : ℕ) (as_ : List Agent) (i j : ℕ)
    → alloc_from at as_ ≡ pos i
    → at + j < i
    → is_free (get_or as_ j no_agent) ≡ false
unfolding alloc_from
alloc_from-first at [] i j h lt = cc
alloc_from-first at (a ∷ rest) i zero h lt = ground arith
alloc_from-first at (a ∷ rest) i (suc j) h lt = ground (arith, alloc_from-first (at + 1) rest i j)

alloc_from-none :
    (at : ℕ) (as_ : List Agent) (n j : ℕ)
    → alloc_from at as_ ≡ negsuc n
    → j < length as_
    → is_free (get_or as_ j no_agent) ≡ false
unfolding alloc_from
alloc_from-none at [] n j h lt = absurd (omega arith)
alloc_from-none at (a ∷ rest) n zero h lt = ground arith
alloc_from-none at (a ∷ rest) n (suc j) h lt = ground (arith, alloc_from-none (at + 1) rest n j)

-- The slot that `agent_alloc_id` gives is a free one of the table, not the kernel's slot 0, and every
-- slot between the two is taken.
pub alloc_id-first :
    (as_ : List Agent) (i : ℕ)
    → alloc_id as_ ≡ pos i
    → (1 ≤ i)
      × (i < length as_)
      × (is_free (get_or as_ i no_agent) ≡ true)
      × ((j : ℕ) → 1 ≤ j → j < i → is_free (get_or as_ j no_agent) ≡ false)
unfolding alloc_id
alloc_id-first [] i h = cc
alloc_id-first (a ∷ rest) zero h = absurd (omega (arith, (alloc_from-found 1 rest 0 h).0))
alloc_id-first (a ∷ rest) (suc i) h =
    let (le, lt, free) = alloc_from-found 1 rest (suc i) h in
    let same : suc i - 1 ≡ i = omega arith in
    (le, omega arith, ap (λ n. is_free (get_or rest n no_agent)) (sym same) ∙ free, between)
  where
    between : (j : ℕ) → 1 ≤ j → j < suc i → is_free (get_or (a ∷ rest) j no_agent) ≡ false
    between zero lo hi = absurd (omega arith)
    between (suc j) lo hi = alloc_from-first 1 rest (suc i) j h (omega arith)

-- When `agent_alloc_id` fails, every slot of the table but the kernel's is taken.
pub alloc_id-none :
    (as_ : List Agent) (n j : ℕ)
    → alloc_id as_ ≡ negsuc n
    → 1 ≤ j
    → j < length as_
    → is_free (get_or as_ j no_agent) ≡ false
unfolding alloc_id
alloc_id-none [] n j h lo hi = absurd (omega arith)
alloc_id-none (a ∷ rest) n zero h lo hi = absurd (omega arith)
alloc_id-none (a ∷ rest) n (suc j) h lo hi = alloc_from-none 1 rest n j h (omega arith)
