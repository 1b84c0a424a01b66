-- ===== src/Vm/Check.antt =====
-- kernel/vm.c: which ranges `vm_user_check` accepts.
use open_agent_os.Prelude.{
  ℕ, zero, suc, ◌+◌, ◌-◌, ◌*◌, ◌/◌, ◌%◌, ◌^◌, ◌≤◌, ◌<◌, ◌≡◌, ◌↔◌, refl, ap, sym, ◌∙◌, Bool, true,
  ltb, arith, Bool-cases, inl, inr, subst,
}
use open_agent_os.Vm.{PageTable, page_size, pte_allows, page_of, check_pages, user_check}

-- Every page from `a` on, at the distance of a multiple of the page size, is allowed before `end`.
check_pages_sound :
    (pt : PageTable) (write : Bool) (rounds a end k : ℕ)
    → end + page_size ≤ 2 ^ 64
    → check_pages pt write rounds a end ≡ true
    → a + k * page_size < end
    → pte_allows (pt (a + k * page_size)) write ≡ true
unfolding check_pages
check_pages_sound pt write zero a end k room h lt = absurd (ground arith)
check_pages_sound pt write (suc rounds) a end zero room h lt =
    let same : a + 0 * page_size ≡ a = omega arith in rw same (ground arith)
check_pages_sound pt write (suc rounds) a end (suc k) room h lt =
    let same : (a + page_size) + k * page_size ≡ a + suc k * page_size = omega arith in
    let next : (a + page_size) % 2 ^ 64 ≡ a + page_size = omega arith in
    subst (λ (va : ℕ). pte_allows (pt va) write ≡ true) same
      (check_pages_sound pt write rounds (a + page_size) end k room
        (ground (arith, ap (λ (va : ℕ). check_pages pt write rounds va end) next)) (omega arith))

check_pages_complete :
    (pt : PageTable) (write : Bool) (rounds a end : ℕ)
    → end + page_size ≤ 2 ^ 64
    → end ≤ a + rounds * page_size
    → ((k : ℕ) → a + k * page_size < end → pte_allows (pt (a + k * page_size)) write ≡ true)
    → check_pages pt write rounds a end ≡ true
unfolding check_pages
check_pages_complete pt write zero a end room enough all = ground arith
check_pages_complete pt write (suc rounds) a end room enough all = elim (Bool-cases (ltb a end)) [
  | inr done ↦ rw (done, check_pages) refl
  | inl more ↦
      let same : a + 0 * page_size ≡ a = omega arith in
      let here : pte_allows (pt a) write ≡ true =
        subst (λ (va : ℕ). pte_allows (pt va) write ≡ true) same (all 0 (ground arith)) in
      let next : (a + page_size) % 2 ^ 64 ≡ a + page_size = ground arith in
      rw (more, check_pages, here, next)
        (check_pages_complete pt write rounds (a + page_size) end room (omega arith) (λ k lt.
          let shift : (a + page_size) + k * page_size ≡ a + suc k * page_size = omega arith in
          subst (λ (va : ℕ). pte_allows (pt va) write ≡ true) (sym shift)
            (all (suc k) (omega arith))))
]

page_of_offset :
    (ua i : ℕ) → page_of (ua + i) ≡ page_of ua + ((ua + i) / page_size - ua / page_size) * page_size
unfolding page_of
page_of_offset ua i = omega arith

page_of-le : (va : ℕ) → page_of va ≤ va
unfolding page_of
page_of-le va = omega arith

-- The byte of the range at which the k-th page begins.
page_start :
    (ua len k : ℕ)
    → 0 < len
    → page_of ua + k * page_size < ua + len
    → (i : ℕ) × (i < len) × (page_of (ua + i) ≡ page_of ua + k * page_size)
unfolding page_of
page_start ua len zero some_bytes lt = (0, omega arith, omega arith)
page_start ua len (suc k) some_bytes lt =
    (page_of ua + suc k * page_size - ua, omega arith, omega arith)

user_check-eq :
    (pt : PageTable) (write : Bool) (ua len : ℕ)
    → ua + len + page_size ≤ 2 ^ 64
    → 0 < len
    → user_check pt ua len write
      ≡ check_pages pt write (len / page_size + 2) (page_of ua) (ua + len)
unfolding user_check
user_check-eq pt write ua len room some_bytes =
    let no_wrap : (ua + len) % 2 ^ 64 ≡ ua + len = omega arith in rw no_wrap (ground arith)

enough : (ua len : ℕ) → ua + len ≤ page_of ua + (len / page_size + 2) * page_size
unfolding page_of
enough ua len = omega arith

user_check-zero : (pt : PageTable) (write : Bool) (ua : ℕ) → user_check pt ua 0 write ≡ true
unfolding user_check
user_check-zero pt write ua = refl

-- For a range that does not reach into the last page of the address space, `vm_user_check` accepts
-- exactly when the page of every byte of the range is mapped for the user with the right asked for.
pub user_check_lem :
    (pt : PageTable) (write : Bool) (ua len : ℕ)
    → ua + len + page_size ≤ 2 ^ 64
    → (user_check pt ua len write ≡ true)
      ↔ ((i : ℕ) → i < len → pte_allows (pt (page_of (ua + i))) write ≡ true)
user_check_lem pt write ua len room = (sound, complete len room)
  where
    sound :
        user_check pt ua len write ≡ true
        → (i : ℕ) → i < len
        → pte_allows (pt (page_of (ua + i))) write ≡ true
    sound h i lt =
        subst (λ (va : ℕ). pte_allows (pt va) write ≡ true) (sym (page_of_offset ua i))
          (check_pages_sound pt write (len / page_size + 2) (page_of ua) (ua + len)
            ((ua + i) / page_size - ua / page_size) room
            (sym (user_check-eq pt write ua len room (omega arith)) ∙ h)
            (omega (arith, page_of_offset ua i, page_of-le (ua + i))))

    complete :
        (len : ℕ)
        → ua + len + page_size ≤ 2 ^ 64
        → ((i : ℕ) → i < len → pte_allows (pt (page_of (ua + i))) write ≡ true)
        → user_check pt ua len write ≡ true
    complete zero room all = user_check-zero pt write ua
    complete (suc n) room all =
        user_check-eq pt write ua (suc n) room (omega arith)
        ∙ check_pages_complete pt write (suc n / page_size + 2) (page_of ua) (ua + suc n) room
            (enough ua (suc n))
            (λ k lt.
              let (i, inside, at) = page_start ua (suc n) k (omega arith) lt in
              subst (λ (va : ℕ). pte_allows (pt va) write ≡ true) at (all i inside))
