-- ===== src/Vm.antt =====
-- kernel/vm.c: the test that a range of user addresses is mapped with the rights that an access needs.
-- A page table is the function that `vm_walk(pt, va, 0)` computes, from the address of a page to its
-- entry, with an entry's flag bits and its page frame; `none` is a null entry pointer.
pub mod Tables
pub mod Walk
pub mod Map
pub mod Shared
pub mod Check
mod Tests
use open_agent_os.Prelude.{
  ℕ, zero, suc, ◌+◌, ◌-◌, ◌*◌, ◌/◌, ◌%◌, ◌^◌, Bool, true, false, ◌&&◌, ◌||◌, not, ltb, ◌==◌,
  if◌then◌else◌, Option, none, some,
}

abbrev pub page_size : ℕ
page_size = 4096

-- A page table entry: PTE_V, PTE_R, PTE_W, PTE_X, PTE_U and the address of the frame.
pub record Pte : Type 0 where
  pub valid : Bool
  pub readable : Bool
  pub writable : Bool
  pub executable : Bool
  pub user : Bool
  pub frame : ℕ

abbrev pub PageTable : Type 0
PageTable = ℕ → Option Pte

-- The tests of one page in `vm_user_check`.
unfoldable pub pte_allows : Option Pte → Bool → Bool
pte_allows none write = false
pte_allows (some pte) write =
    pte.valid && pte.user && (if write then pte.writable else pte.readable || pte.executable)

-- `va & ~(PAGE_SIZE - 1)`
unfoldable pub page_of : ℕ → ℕ
page_of va = va - va % page_size

-- `for (; a < end; a += PAGE_SIZE)` with `rounds` pages left.
unfoldable pub check_pages : PageTable → Bool → ℕ → ℕ → ℕ → Bool
check_pages pt write zero a end = not (ltb a end)
check_pages pt write (suc rounds) a end =
    let next = check_pages pt write rounds ((a + page_size) % 2 ^ 64) end in
    if ltb a end then (if pte_allows (pt a) write then next else false) else true

-- True for a result of 0. A range of `len` bytes touches at most `len / 4096 + 2` pages.
unfoldable pub user_check : PageTable → ℕ → ℕ → Bool → Bool
user_check pt ua len write =
    let end = (ua + len) % 2 ^ 64 in
    let checked = check_pages pt write (len / page_size + 2) (page_of ua) end in
    if len == 0 then true else (if ltb end ua then false else checked)
