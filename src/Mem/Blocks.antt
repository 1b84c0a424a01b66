-- ===== src/Mem/Blocks.antt =====
-- kernel/mem.c: the blocks that sequences of allocations get.
use open_agent_os.Prelude.{
  ℕ, ◌+◌, ◌*◌, ◌%◌, ◌^◌, ◌≤◌, ◌<◌, ◌≡◌, ◌⊎◌, ◌↔◌, ◌/◌, ◌∙◌, ap, ltb, List, [], ◌∷◌, Option, none,
  some, arith, Bool-cases, inl, inr,
}
use open_agent_os.Mem.{Heap, round_up, kalloc, kalloc_page}

-- A call of `kalloc` or `kalloc_page`.
pub data Request : Type 0 where
  bytes : ℕ → Request
  page : Request

-- A block: its address and its size.
abbrev pub Block : Type 0
Block = ℕ × ℕ

abbrev pub with_block : Option ℕ → ℕ → List Block → List Block
with_block none size rest = rest
with_block (some p) size rest = (p, size) ∷ rest

-- The blocks that a sequence of calls gets.
unfoldable pub blocks : Heap → List Request → List Block
blocks h [] = []
blocks h (bytes n ∷ rs) = let (p, h') = kalloc h n in with_block p n (blocks h' rs)
blocks h (page ∷ rs) = let (p, h') = kalloc_page h in with_block p 4096 (blocks h' rs)

-- No request comes near the size of the address space.
abbrev pub AreSmall : List Request → Type 0
AreSmall [] = Unit
AreSmall (bytes n ∷ rs) = (n < 2 ^ 32) × AreSmall rs
AreSmall (page ∷ rs) = AreSmall rs

-- Each block starts where the one before it ends, or later, and all lie between the two addresses.
abbrev pub AreApart : ℕ → ℕ → List Block → Type 0
AreApart lo hi [] = lo ≤ hi
AreApart lo hi ((p, size) ∷ bs) = (lo ≤ p) × AreApart (p + size) hi bs

AreApart-lower :
    (lo lo' hi : ℕ) (bs : List Block) → lo ≤ lo' → AreApart lo' hi bs → AreApart lo hi bs
AreApart-lower lo lo' hi [] le v = omega arith
AreApart-lower lo lo' hi ((p, size) ∷ bs) le v = (omega arith, v.1)

kalloc_cases :
    (h : Heap) (n : ℕ)
    → h.next ≤ h.limit
    → h.limit < 2 ^ 63
    → n < 2 ^ 32
    → (kalloc h n ≡ (none, h))
      ⊎ ((m : ℕ) × (kalloc h n ≡ (some h.next, record h { next = m }))
          × (h.next + n ≤ m)
          × (m ≤ h.limit))
unfolding kalloc round_up
kalloc_cases h n le small few =
    elim (Bool-cases (ltb h.limit ((h.next + round_up 16 n) % 2 ^ 64))) [
      | inl full ↦ inl (ground arith)
      | inr room ↦ inr ((h.next + round_up 16 n) % 2 ^ 64, ground arith, ground arith, ground arith)
    ]

kalloc_page_cases :
    (h : Heap)
    → h.next ≤ h.limit
    → h.limit < 2 ^ 63
    → (kalloc_page h ≡ (none, h))
      ⊎ ((p : ℕ) × (kalloc_page h ≡ (some p, record h { next = p + 4096 }))
          × (h.next ≤ p)
          × (p % 4096 ≡ 0)
          × (p + 4096 ≤ h.limit))
unfolding kalloc_page round_up
kalloc_page_cases h le small =
    elim (Bool-cases (ltb h.limit ((round_up 4096 h.next + 4096) % 2 ^ 64))) [
      | inl full ↦ inl (ground arith)
      | inr room ↦
          inr (round_up 4096 h.next, ground arith, ground arith, ground arith, ground arith)
    ]

-- In a heap whose limit is below 2 ^ 63, any sequence of calls of `kalloc`, each for fewer than 2 ^ 32
-- bytes, and of `kalloc_page` gets blocks that lie in the heap, one behind the other.
pub blocks-AreApart :
    (h : Heap) (rs : List Request)
    → h.next ≤ h.limit
    → h.limit < 2 ^ 63
    → AreSmall rs
    → AreApart h.next h.limit (blocks h rs)
unfolding blocks
blocks-AreApart h [] le small few = le
blocks-AreApart h (bytes n ∷ rs) le small few = elim (kalloc_cases h n le small few.0) [
  | inl e ↦ rw e (blocks-AreApart h rs le small few.1)
  | inr (m, e, above, below) ↦ rw e (
    omega arith,
    AreApart-lower (h.next + n) m h.limit (blocks (record h { next = m }) rs) above
        (blocks-AreApart (record h { next = m }) rs below small few.1),
  )
]
blocks-AreApart h (page ∷ rs) le small few = elim (kalloc_page_cases h le small) [
  | inl e ↦ rw e (blocks-AreApart h rs le small few)
  | inr (p, e, above, aligned, below) ↦
      rw e (above, blocks-AreApart (record h { next = p + 4096 }) rs below small few)
]

-- In a heap whose limit is below 2 ^ 63, a page that `kalloc_page` gives starts at a multiple of 4096
-- and ends within the heap, behind everything given out before.
pub kalloc_page_lem :
    (h : Heap) (p : ℕ)
    → h.next ≤ h.limit
    → h.limit < 2 ^ 63
    → (kalloc_page h).0 ≡ some p
    → (p % 4096 ≡ 0) × (h.next ≤ p) × (p + 4096 ≤ h.limit) × ((kalloc_page h).1.next ≡ p + 4096)
kalloc_page_lem h p le small got = elim (kalloc_page_cases h le small) [
  | inl e ↦ absurd (cc (ap (λ (r : Option ℕ × Heap). r.0) e))
  | inr (q, e, above, aligned, below) ↦
      let same : q ≡ p = cc (ap (λ (r : Option ℕ × Heap). r.0) e) in
      (
        omega arith,
        omega arith,
        omega arith,
        ap (λ (r : Option ℕ × Heap). r.1.next) e ∙ ap (λ n. n + 4096) same,
      )
]

-- In a heap whose limit is below 2 ^ 63, `kalloc` of fewer than 2 ^ 32 bytes succeeds exactly when the
-- size rounded up to a multiple of 16 fits between the blocks given out and the limit.
pub kalloc_lem :
    (h : Heap) (n : ℕ)
    → h.next ≤ h.limit
    → h.limit < 2 ^ 63
    → n < 2 ^ 32
    → ((kalloc h n).0 ≡ some h.next) ↔ (h.next + (n + 15) / 16 * 16 ≤ h.limit)
unfolding kalloc round_up
kalloc_lem h n le small few = (λ e. ground arith, λ fits. ground arith)
