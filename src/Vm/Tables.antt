-- ===== src/Vm/Tables.antt =====
-- kernel/vm.c: the page tables themselves, as tables of 512 entries that are found by their address.
-- `pool` is the address of `pt_storage`, a multiple of the page size.
use open_agent_os.Prelude.{
  ℕ, zero, suc, ◌+◌, ◌-◌, ◌*◌, ◌/◌, ◌%◌, ◌^◌, Bool, true, false, not, ◌&&◌, ℤ, pos, negsuc, ltb,
  leb, ◌==◌, if◌then◌else◌, Option, none, some, is_zero,
}
use open_agent_os.Vm.{Pte, PageTable, page_size, page_of}

-- The entries by table and index, and `pt_next`.
pub record Tables : Type 0 where
  pub entry : ℕ → ℕ → Pte
  pub next : ℕ

-- An entry of 0.
abbrev pub no_pte : Pte
no_pte = record {
  valid = false;
  readable = false;
  writable = false;
  executable = false;
  user = false;
  frame = 0;
}

abbrev pub pt_pages : ℕ
pt_pages = 64

unfoldable pub set_entry : Tables → ℕ → ℕ → Pte → Tables
set_entry m t i pte = record m { entry = λ u j. if u == t && j == i then pte else m.entry u j }

-- `(va >> (12 + 9 * level)) & 0x1ff`
abbrev pub index_at : ℕ → ℕ → ℕ
index_at level va = va / 2 ^ (12 + 9 * level) % 512

-- `pa_round_up`
abbrev pub pa_round_up : ℕ → ℕ
pa_round_up x = page_of ((x + (page_size - 1)) % 2 ^ 64)

module _ (pool : ℕ) where
  abbrev pub table_at : ℕ → ℕ
  table_at k = pool + page_size * k

  -- `pt_alloc` when the pool is not used up.
  unfoldable pub take_table : Tables → Tables
  take_table m = record {
    entry = λ u j. if u == table_at m.next then no_pte else m.entry u j;
    next = m.next + 1;
  }

  -- `pt_alloc`
  unfoldable pub pt_alloc : Tables → Option ℕ × Tables
  pt_alloc m = if leb pt_pages m.next then (none, m) else (some (table_at m.next), take_table m)

  -- The loop of `vm_walk` with `level` levels to go, and the place of the last entry.
  unfoldable pub walk_from : ℕ → Tables → ℕ → ℕ → Bool → Option (ℕ × ℕ) × Tables
  walk_from zero m t va alloc = (some (t, index_at 0 va), m)
  walk_from (suc level) m t va alloc =
      let i = index_at (suc level) va in
      let down = walk_from level m (m.entry t i).frame va alloc in
      let (child, m') = pt_alloc m in
      if (m.entry t i).valid
      then down
      else (if not alloc then (none, m) else (elim child [
        | none ↦ (none, m')
        | some c ↦
            walk_from level (set_entry m' t i (record no_pte { valid = true; frame = c })) c va
              alloc
      ]))

  -- `vm_walk`
  unfoldable pub walk : Tables → ℕ → ℕ → Bool → Option (ℕ × ℕ) × Tables
  walk m pt va alloc = walk_from 2 m pt va alloc

  -- `vm_map_page` and `vm_map_user_page`, with the permissions as an entry.
  unfoldable pub map_page : Tables → ℕ → ℕ → ℕ → Pte → ℤ × Tables
  map_page m pt va pa perm =
      let (place, m') = walk m pt va true in
      if not (va % page_size == 0 && pa % page_size == 0) then (negsuc 0, m) else (elim place [
        | none ↦ (negsuc 0, m')
        | some (t, i) ↦
            if (m'.entry t i).valid
            then (negsuc 0, m')
            else (pos 0, set_entry m' t i (record perm { valid = true; frame = pa }))
      ])

  -- What `vm_walk` without allocation finds, as the table that the checks of user memory read.
  unfoldable pub pages_of : Tables → ℕ → PageTable
  pages_of m pt va = elim ((walk m pt va false).0) [
    | none ↦ none
    | some (t, i) ↦ some (m.entry t i)
  ]

  -- `vm_page_mapped`
  unfoldable pub page_mapped : Tables → ℕ → ℕ → Bool
  page_mapped m pt va = elim (pages_of m pt (page_of va)) [ none ↦ false | some pte ↦ pte.valid ]

  -- `vm_create_agent_pt`, for the address of `kernel_pt`, which is none for a null pointer.
  unfoldable pub create_agent_pt : Tables → Option ℕ → Option ℕ × Tables
  create_agent_pt m kernel_pt =
      let (pt, m') = pt_alloc m in
      elim pt [
        | none ↦ (none, m')
        | some p ↦ elim kernel_pt [
          | none ↦ (none, m')
          | some root ↦ (
            some p,
            record m' {
              entry = λ u j. if u == p && ltb j 512 then m'.entry root j else m'.entry u j;
            },
          )
        ]
      ]

  -- The loop of `vm_map_region` with `n` pages to go.
  unfoldable pub map_pages : Tables → ℕ → ℕ → ℕ → Pte → ℕ → ℤ × Tables
  map_pages m pt a pa perm zero = (pos 0, m)
  map_pages m pt a pa perm (suc n) =
      let (rc, m') = map_page m pt a pa perm in
      let rest = map_pages m' pt (a + page_size) ((pa + page_size) % 2 ^ 64) perm n in
      if is_zero rc then rest else (negsuc 0, m')

  -- `vm_map_region`
  unfoldable pub map_region : Tables → ℕ → ℕ → ℕ → ℕ → Pte → ℤ × Tables
  map_region m pt va pa size perm =
      let first = page_of va in
      let last = pa_round_up ((va + size) % 2 ^ 64) in
      map_pages m pt first ((pa + (2 ^ 64 - (va - first))) % 2 ^ 64) perm
        ((last - first) / page_size)
