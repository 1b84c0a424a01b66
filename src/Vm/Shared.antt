-- ===== src/Vm/Shared.antt =====
-- kernel/vm.c: what a new agent's table shows, next to the kernel's.
use open_agent_os.Prelude.{
  ℕ, zero, suc, ◌≡◌, ◌≢◌, ◌<◌, refl, ap, sym, ◌∙◌, true, false, ◌&&◌, ltb, ◌==◌, if◌then◌else◌,
  arith, Option, none, some, Bool-cases, inl, inr,
}
use open_agent_os.Vm.{Pte}
use open_agent_os.Vm.Tables.{
  Tables, index_at, table_at, take_table, walk_from, walk, pages_of, create_agent_pt,
}
use open_agent_os.Vm.Walk.{IsOld, IsTree, walk_from-valid, pt_alloc_cases}
use open_agent_os.Vm.Map.{walk_from-invalid}

module _ (pool : ℕ) where
  -- The entry that a walk without allocation ends at.
  abbrev entry_of : Tables → Option (ℕ × ℕ) → Option Pte
  entry_of m place = elim place [ none ↦ none | some (t, i) ↦ some (m.entry t i) ]

  abbrev seen : ℕ → Tables → ℕ → ℕ → Option Pte
  seen l m t va = entry_of m (walk_from pool l m t va false).0

  seen-valid :
      (l : ℕ) (m : Tables) (t va : ℕ) (pte : Pte)
      → m.entry t (index_at (suc l) va) ≡ pte
      → pte.valid ≡ true
      → seen (suc l) m t va ≡ seen l m pte.frame va
  seen-valid l m t va pte e valid =
      ap (λ (x : Option (ℕ × ℕ) × Tables). entry_of m x.0)
        (walk_from-valid pool l m t va false (ap (λ (x : Pte). x.valid) e ∙ valid))
      ∙ ap (λ (x : Pte). seen l m x.frame va) e

  seen-invalid :
      (l : ℕ) (m : Tables) (t va : ℕ) (pte : Pte)
      → m.entry t (index_at (suc l) va) ≡ pte
      → pte.valid ≡ false
      → seen (suc l) m t va ≡ none
  seen-invalid l m t va pte e invalid =
      ap (entry_of m) (walk_from-invalid pool l m t va (ap (λ (x : Pte). x.valid) e ∙ invalid))

  -- Two tables with the same entries are seen alike when what they lead to is.
  seen-suc :
      (l : ℕ) (m m' : Tables) (t t' va : ℕ)
      → m'.entry t' (index_at (suc l) va) ≡ m.entry t (index_at (suc l) va)
      → ((m.entry t (index_at (suc l) va)).valid ≡ true
          → seen l m' (m.entry t (index_at (suc l) va)).frame va
            ≡ seen l m (m.entry t (index_at (suc l) va)).frame va)
      → seen (suc l) m' t' va ≡ seen (suc l) m t va
  seen-suc l m m' t t' va same below =
      let pte = m.entry t (index_at (suc l) va) in
      elim (Bool-cases pte.valid) [
        | inl valid ↦
            seen-valid l m' t' va pte same valid
            ∙ below valid
            ∙ sym (seen-valid l m t va pte refl valid)
        | inr invalid ↦
            seen-invalid l m' t' va pte same invalid ∙ sym (seen-invalid l m t va pte refl invalid)
      ]

  -- Tables that differ only in what the pool had not given out are walked alike.
  seen-old :
      (l : ℕ) (m m' : Tables) (lev : ℕ → ℕ) (t va : ℕ)
      → IsTree pool m lev
      → ((u j : ℕ) → IsOld pool m u → m'.entry u j ≡ m.entry u j)
      → lev t ≡ l
      → IsOld pool m t
      → seen l m' t va ≡ seen l m t va
  unfolding walk_from
  seen-old zero m m' lev t va v same at old = ap (λ (x : Pte). some x) (same t (index_at 0 va) old)
  seen-old (suc l) m m' lev t va v same at old =
      seen-suc l m m' t t va (same t (index_at (suc l) va) old) (λ valid.
        let i = index_at (suc l) va in
        let above : lev t ≢ 0 = λ z. omega arith in
        seen-old l m m' lev (m.entry t i).frame va v same (omega (arith, v.down t i valid above))
          (v.old t i valid above))

  -- The tables after `vm_create_agent_pt` for a root table `r`.
  abbrev with_copy : Tables → ℕ → Tables
  with_copy m r = record (take_table pool m) {
    entry = λ u j.
        if u == table_at pool m.next && ltb j 512
        then (take_table pool m).entry r j
        else (take_table pool m).entry u j;
  }

  create_agent_pt_cases :
      (m : Tables) (r p : ℕ)
      → (create_agent_pt pool m (some r)).0 ≡ some p
      → (p ≡ table_at pool m.next) × ((create_agent_pt pool m (some r)).1 ≡ with_copy m r)
  unfolding create_agent_pt
  create_agent_pt_cases m r p out =
      let copy = λ (x : Option ℕ × Tables).
        let pair : Option ℕ × Tables = elim x.0 [
          | none ↦ (none, x.1)
          | some q ↦ (
            some q,
            record x.1 {
              entry = λ u j. if u == q && ltb j 512 then x.1.entry r j else x.1.entry u j;
            },
          )
        ] in
        pair in
      elim (pt_alloc_cases pool m) [
        | inl full ↦
            let bad : none ≡ some p = sym (ap (λ (x : Option ℕ × Tables). (copy x).0) full) ∙ out in
            absurd (cc bad)
        | inr room ↦
            let got : some (table_at pool m.next) ≡ some p =
              sym (ap (λ (x : Option ℕ × Tables). (copy x).0) room) ∙ out in
            (
              sym (ap (λ (o : Option ℕ). elim o [ none ↦ table_at pool m.next | some x ↦ x ]) got),
              ap (λ (x : Option ℕ × Tables). (copy x).1) room,
            )
      ]

  with_copy-old :
      (m : Tables) (r u j : ℕ) → IsOld pool m u → (with_copy m r).entry u j ≡ m.entry u j
  unfolding take_table
  with_copy-old m r u j old =
      let other : (u == table_at pool m.next) ≡ false = ground (arith, old m.next (omega arith)) in
      rw other refl

  with_copy-new :
      (m : Tables) (r j : ℕ)
      → IsOld pool m r
      → j < 512
      → (with_copy m r).entry (table_at pool m.next) j ≡ m.entry r j
  unfolding take_table
  with_copy-new m r j old less =
      let here : (table_at pool m.next == table_at pool m.next && ltb j 512) ≡ true =
        ground arith in
      let other : (r == table_at pool m.next) ≡ false = ground (arith, old m.next (omega arith)) in
      rw here (rw other refl)

  -- In tables that are a tree with the kernel's root `r` at level 2, the table that
  -- `vm_create_agent_pt` returns shows at every address what the kernel's showed before, and the
  -- kernel's shows the same as before.
  pub create_agent_pt-pages_of :
      (m : Tables) (lev : ℕ → ℕ) (r p va : ℕ)
      → IsTree pool m lev
      → lev r ≡ 2
      → IsOld pool m r
      → (create_agent_pt pool m (some r)).0 ≡ some p
      → (pages_of pool (create_agent_pt pool m (some r)).1 p va ≡ pages_of pool m r va)
        × (pages_of pool (create_agent_pt pool m (some r)).1 r va ≡ pages_of pool m r va)
  unfolding walk pages_of
  create_agent_pt-pages_of m lev r p va v root old out =
      let (new, after) = create_agent_pt_cases m r p out in
      let i = index_at 2 va in
      let same = λ (u j : ℕ) (o : IsOld pool m u). with_copy-old m r u j o in
      let above : lev r ≢ 0 = λ z. omega arith in
      let copied : seen 2 (with_copy m r) (table_at pool m.next) va ≡ seen 2 m r va =
        seen-suc 1 m (with_copy m r) r (table_at pool m.next) va
          (with_copy-new m r i old (omega arith))
          (λ valid.
            seen-old 1 m (with_copy m r) lev (m.entry r i).frame va v same
              (omega (arith, v.down r i valid above)) (v.old r i valid above)) in
      (
        ap (λ (x : Tables). seen 2 x p va) after
            ∙ ap (λ (x : ℕ). seen 2 (with_copy m r) x va) new
            ∙ copied,
        ap (λ (x : Tables). seen 2 x r va) after
            ∙ seen-old 2 m (with_copy m r) lev r va v same root old,
      )
