-- ===== src/Sched/Queue.antt =====
-- kernel/sched.c: run queues without repetitions.
use open_agent_os.Prelude.{
  ℕ, zero, suc, ◌≤◌, ◌<◌, ◌≡◌, refl, ap, ◌∙◌, false, ◌||◌, List, [], ◌∷◌, ◌++◌, arith,
  if◌then◌else◌, leb, ◌==◌, length, Bool-cases, inl, inr,
}
use open_agent_os.Abi.{max_agents}
use open_agent_os.Sched.{holds, rq_insert, rq_delete}

-- No entry twice, and each below a bound.
abbrev pub IsQueue : ℕ → List ℕ → Type 0
IsQueue n [] = Unit
IsQueue n (x ∷ xs) = (x < n) × (holds xs x ≡ false) × IsQueue n xs

pub holds-delete :
    (n : ℕ) (q : List ℕ) (id j : ℕ)
    → IsQueue n q
    → holds (rq_delete q id) j ≡ (if j == id then false else holds q j)
unfolding holds rq_delete
holds-delete n [] id j v = ground arith
holds-delete n (x ∷ xs) id j v = ground (arith, holds-delete n xs id j v.2)

pub delete-IsQueue : (n : ℕ) (q : List ℕ) (id : ℕ) → IsQueue n q → IsQueue n (rq_delete q id)
unfolding rq_delete
delete-IsQueue n [] id v = tt
delete-IsQueue n (x ∷ xs) id v = elim (Bool-cases (x == id)) [
  | inl same ↦ rw (same, rq_delete) v.2
  | inr other ↦
      rw (other, rq_delete)
        (v.0, holds-delete n xs id x v.2 ∙ ground arith, delete-IsQueue n xs id v.2)
]

length-delete : (q : List ℕ) (id : ℕ) → length q ≤ suc (length (rq_delete q id))
unfolding rq_delete
length-delete [] id = omega arith
length-delete (x ∷ xs) id = ground (arith, length-delete xs id)

-- Without its largest possible entry a queue is one of smaller numbers.
lower : (n : ℕ) (q : List ℕ) → IsQueue (suc n) q → holds q n ≡ false → IsQueue n q
unfolding holds
lower n [] v h = tt
lower n (x ∷ xs) v h = (ground arith, v.1, lower n xs v.2 (ground arith))

pub length-IsQueue : (n : ℕ) (q : List ℕ) → IsQueue n q → length q ≤ n
length-IsQueue zero [] v = omega arith
length-IsQueue zero (x ∷ xs) v = absurd (omega arith)
length-IsQueue (suc n) q v = omega (
  arith,
  length-delete q n,
  length-IsQueue n (rq_delete q n) (
      lower n (rq_delete q n) (delete-IsQueue (suc n) q n v)
        (holds-delete (suc n) q n n v ∙ ground arith)),
)

holds-append : (q : List ℕ) (id j : ℕ) → holds (q ++ id ∷ []) j ≡ (holds q j || id == j)
unfolding holds
holds-append [] id j = ground arith
holds-append (x ∷ xs) id j = ground (arith, holds-append xs id j)

append-IsQueue :
    (n : ℕ) (q : List ℕ) (id : ℕ)
    → IsQueue n q
    → id < n
    → holds q id ≡ false
    → IsQueue n (q ++ id ∷ [])
unfolding holds
append-IsQueue n [] id v lt h = (lt, refl, tt)
append-IsQueue n (x ∷ xs) id v lt h =
    (v.0, holds-append xs id x ∙ ground arith, append-IsQueue n xs id v.2 lt (ground arith))

-- The test for a full queue never turns an agent away: a queue without it has room.
has_room :
    (q : List ℕ) (id : ℕ)
    → IsQueue max_agents q
    → id < max_agents
    → holds q id ≡ false
    → leb max_agents (length q) ≡ false
has_room q id v lt h =
    let fits : length (id ∷ q) ≤ max_agents = length-IsQueue max_agents (id ∷ q) (lt, h, v) in
    ground arith

-- Adding an agent of the table to a run queue without repetitions keeps the queue free of repetitions, and the queue then holds just
-- that agent besides those that it held.
pub rq_insert_lem :
    (q : List ℕ) (id : ℕ)
    → IsQueue max_agents q
    → id < max_agents
    → IsQueue max_agents (rq_insert q id)
      × ((j : ℕ) → holds (rq_insert q id) j ≡ (holds q j || id == j))
unfolding rq_insert
rq_insert_lem q id v lt = elim (Bool-cases (holds q id)) [
  | inl there ↦ rw (there, rq_insert) (v, λ j. ground (arith, λ (e : id ≡ j). ap (holds q) e))
  | inr new ↦
      rw (new, rq_insert, has_room q id v lt new)
        (append-IsQueue max_agents q id v lt new, λ j. holds-append q id j)
]
