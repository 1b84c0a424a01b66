-- ===== src/Mem.antt =====
-- kernel/mem.c: the kernel's heap, which only grows. Addresses are those of a 64-bit machine; the lock
-- makes each allocation one step, and `kfree` does nothing.
pub mod Blocks
mod Tests
use open_agent_os.Prelude.{
  ℕ, ◌+◌, ◌-◌, ◌*◌, ◌%◌, ◌^◌, Bool, true, false, ltb, if◌then◌else◌, List, [], ◌∷◌, Option, none,
  some,
}

abbrev pub heap_size : ℕ
heap_size = 2 * 1024 * 1024

-- `heap_ptr` and `heap_end`.
pub record Heap : Type 0 where
  pub next : ℕ
  pub limit : ℕ

-- `mem_init`, for the address that the platform gives.
unfoldable pub init : ℕ → Heap
init start = record { next = start; limit = (start + heap_size) % 2 ^ 64 }

-- `(size + 15) & ~15UL`
unfoldable pub round_up : ℕ → ℕ → ℕ
round_up unit size = (size + (unit - 1)) % 2 ^ 64 - (size + (unit - 1)) % 2 ^ 64 % unit

unfoldable pub kalloc : Heap → ℕ → Option ℕ × Heap
kalloc h size =
    let size' = round_up 16 size in
    if ltb h.limit ((h.next + size') % 2 ^ 64)
    then (none, h)
    else (some h.next, record h { next = (h.next + size') % 2 ^ 64 })

unfoldable pub kalloc_page : Heap → Option ℕ × Heap
kalloc_page h =
    let p = round_up 4096 h.next in
    if ltb h.limit ((p + 4096) % 2 ^ 64)
    then (none, h)
    else (some p, record h { next = (p + 4096) % 2 ^ 64 })
