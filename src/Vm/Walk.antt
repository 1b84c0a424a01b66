-- ===== src/Vm/Walk.antt =====
-- kernel/vm.c: what `vm_walk` builds, and what it finds afterwards.
use open_agent_os.Prelude.{
  ℕ, zero, suc, ◌+◌, ◌≤◌, ◌<◌, ◌≡◌, ◌≢◌, ◌⊎◌, refl, ap, sym, ◌∙◌, subst, Bool, true, false, ◌&&◌,
  leb, ◌==◌, if◌then◌else◌, arith, Option, none, some, Bool-cases, inl, inr,
}
use open_agent_os.Vm.{Pte}
use open_agent_os.Vm.Tables.{
  Tables, no_pte, pt_pages, set_entry, index_at, table_at, take_table, pt_alloc, walk_from,
}

-- The entry of a table that points to another.
abbrev pub pointer : ℕ → Pte
pointer c = record no_pte { valid = true; frame = c }

module _ (pool : ℕ) where
  -- A table that the pool does not give out from here on.
  abbrev pub IsOld : Tables → ℕ → Type 0
  IsOld m u = (k : ℕ) → m.next ≤ k → u ≢ table_at pool k

  -- Each table has a level; the entries in use of one above level 0 lead to tables one level lower
  -- that are in use.
  pub record IsTree (m : Tables) (lev : ℕ → ℕ) : Type 0 where
    pub down :
        (t i : ℕ) → (m.entry t i).valid ≡ true → lev t ≢ 0 → lev ((m.entry t i).frame) + 1 ≡ lev t
    pub old : (t i : ℕ) → (m.entry t i).valid ≡ true → lev t ≢ 0 → IsOld m ((m.entry t i).frame)

  -- What a walk that allocates leaves behind.
  pub record Walked (l : ℕ) (m m' : Tables) (lev : ℕ → ℕ) (t va : ℕ) (place : ℕ × ℕ) : Type 0 where
    pub lev' : ℕ → ℕ
    pub tree : IsTree m' lev'
    pub leaf : lev' place.0 ≡ 0
    pub found : (walk_from pool l m' t va false).0 ≡ some place
    pub same_lev : (u : ℕ) → IsOld m u → lev' u ≡ lev u
    pub keep : (u j : ℕ) → l < lev u → IsOld m u → m'.entry u j ≡ m.entry u j
    pub grows : m.next ≤ m'.next

  pub walk_from-valid :
      (l : ℕ) (m : Tables) (t va : ℕ) (alloc : Bool)
      → (m.entry t (index_at (suc l) va)).valid ≡ true
      → walk_from pool (suc l) m t va alloc
        ≡ walk_from pool l m (m.entry t (index_at (suc l) va)).frame va alloc
  unfolding walk_from
  walk_from-valid l m t va alloc valid = rw valid refl

  abbrev extended : Tables → ℕ → ℕ → Tables
  extended m t i = set_entry (take_table pool m) t i (pointer (table_at pool m.next))

  pub pt_alloc_cases :
      (m : Tables)
      → (pt_alloc pool m ≡ (none, m))
        ⊎ (pt_alloc pool m ≡ (some (table_at pool m.next), take_table pool m))
  unfolding pt_alloc
  pt_alloc_cases m = elim (Bool-cases (leb pt_pages m.next)) [
    | inl full ↦ inl (rw full refl)
    | inr room ↦ inr (rw room refl)
  ]

  walk_from-alloc :
      (l : ℕ) (m : Tables) (t va : ℕ)
      → (m.entry t (index_at (suc l) va)).valid ≡ false
      → ((walk_from pool (suc l) m t va true).0 ≡ none)
        ⊎ (walk_from pool (suc l) m t va true
            ≡ walk_from pool l (extended m t (index_at (suc l) va)) (table_at pool m.next) va true)
  unfolding walk_from
  walk_from-alloc l m t va invalid = elim (pt_alloc_cases m) [
    | inl full ↦ inl (rw invalid (rw full refl))
    | inr room ↦ inr (
        rw invalid (
          rw room (
            ap
              (λ (x : Tables).
                walk_from pool l
                  (set_entry x t (index_at (suc l) va) (pointer (table_at pool m.next)))
                  (table_at pool m.next) va true)
              (ap (λ (x : Option ℕ × Tables). x.1) room))))
  ]

  abbrev with_lev : (ℕ → ℕ) → ℕ → ℕ → ℕ → ℕ
  with_lev lev c l u = if u == c then l else lev u

  extended-entry :
      (m : Tables) (t i u j : ℕ)
      → (extended m t i).entry u j ≡ (
          if u == t && j == i
          then pointer (table_at pool m.next)
          else (if u == table_at pool m.next then no_pte else m.entry u j))
  unfolding set_entry take_table
  extended-entry m t i u j = refl

  differs : (a b : ℕ) → (a == b) ≡ false → a ≢ b
  differs a b e same = ground arith

  lev-new : (lev : ℕ → ℕ) (c l : ℕ) → with_lev lev c l c ≡ l
  lev-new lev c l = ground arith

  lev-other : (lev : ℕ → ℕ) (c l u : ℕ) → u ≢ c → with_lev lev c l u ≡ lev u
  lev-other lev c l u other = ground arith

  -- An entry in use of the extended tables is the new pointer or one of before, of another table.
  extended_cases :
      (m : Tables) (t i u j : ℕ)
      → IsOld m t
      → ((extended m t i).entry u j).valid ≡ true
      → ((u ≡ t) × ((extended m t i).entry u j ≡ pointer (table_at pool m.next)))
        ⊎ ((u ≢ table_at pool m.next) × ((extended m t i).entry u j ≡ m.entry u j))
  extended_cases m t i u j old valid = elim (Bool-cases (u == t && j == i)) [
    | inl here ↦ inl (ground arith, extended-entry m t i u j ∙ rw here refl)
    | inr other ↦ elim (Bool-cases (u == table_at pool m.next)) [
      | inl new ↦
          let e : (extended m t i).entry u j ≡ no_pte =
            extended-entry m t i u j ∙ rw (other, new) refl in
          absurd (cc (ap (λ (x : Pte). x.valid) e))
      | inr before ↦ inr (
        (λ e. differs u (table_at pool m.next) before e),
        extended-entry m t i u j ∙ rw (other, before) refl,
      )
    ]
  ]

  extended-IsTree :
      (m : Tables) (lev : ℕ → ℕ) (t i l : ℕ)
      → IsTree m lev
      → lev t ≡ suc l
      → IsOld m t
      → IsTree (extended m t i) (with_lev lev (table_at pool m.next) l)
  unfolding set_entry take_table
  extended-IsTree m lev t i l v at old =
      let c = table_at pool m.next in
      let not_new : t ≢ c = old m.next (omega arith) in
      record {
        down = λ u j valid above. elim (extended_cases m t i u j old valid) [
          | inl (here, e) ↦
              let not_c : u ≢ c = λ same. not_new (sym here ∙ same) in
              omega (
                arith,
                ap (λ (x : Pte). with_lev lev c l x.frame) e ∙ lev-new lev c l,
                lev-other lev c l u not_c,
                ap lev here,
                at,
              )
          | inr (other, e) ↦
              let valid' = sym (ap (λ (x : Pte). x.valid) e) ∙ valid in
              let above' : lev u ≢ 0 = λ z. above (lev-other lev c l u other ∙ z) in
              let child = v.old u j valid' above' in
              omega (
                arith,
                ap (λ (x : Pte). with_lev lev c l x.frame) e
                    ∙ lev-other lev c l ((m.entry u j).frame) (child m.next (omega arith)),
                lev-other lev c l u other,
                v.down u j valid' above',
              )
        ];
        old = λ u j valid above. elim (extended_cases m t i u j old valid) [
          | inl (here, e) ↦ λ k le same. omega (arith, ap (λ (x : Pte). x.frame) e, same)
          | inr (other, e) ↦
              let valid' = sym (ap (λ (x : Pte). x.valid) e) ∙ valid in
              let above' : lev u ≢ 0 = λ z. above (lev-other lev c l u other ∙ z) in
              λ k le same.
                v.old u j valid' above' k (omega arith) (sym (ap (λ (x : Pte). x.frame) e) ∙ same)
        ];
      }

  extended-next : (m : Tables) (t i : ℕ) → (extended m t i).next ≡ m.next + 1
  unfolding set_entry take_table
  extended-next m t i = refl

  extended-IsOld : (m : Tables) (t i : ℕ) → IsOld (extended m t i) (table_at pool m.next)
  unfolding set_entry take_table
  extended-IsOld m t i k le same = omega arith

  at_place : (t i : ℕ) (a b : Pte) → (if t == t && i == i then a else b) ≡ a
  at_place t i a b = ground arith

  elsewhere :
      (u t j i : ℕ) (a b x : Pte) (c : ℕ)
      → u ≢ t
      → u ≢ c
      → (if u == t && j == i then a else (if u == c then b else x)) ≡ x
  elsewhere u t j i a b x c other other' = ground arith

  Walked-zero :
      (m : Tables) (lev : ℕ → ℕ) (t va : ℕ) (place : ℕ × ℕ)
      → IsTree m lev
      → lev t ≡ 0
      → (walk_from pool 0 m t va true).0 ≡ some place
      → Walked 0 m (walk_from pool 0 m t va true).1 lev t va place
  unfolding walk_from
  Walked-zero m lev t va place v at out =
      let same : (t, index_at 0 va) ≡ place =
        ap (λ (o : Option (ℕ × ℕ)). elim o [ none ↦ (t, index_at 0 va) | some x ↦ x ]) out in
      record {
        lev' = lev;
        tree = v;
        leaf = ap (λ (x : ℕ × ℕ). lev x.0) (sym same) ∙ at;
        found = out;
        same_lev = λ u o. refl;
        keep = λ u j h o. refl;
        grows = omega arith;
      }

  -- A walk through an entry that was in use.
  Walked-down :
      (l : ℕ) (m m' : Tables) (lev : ℕ → ℕ) (t va : ℕ) (place : ℕ × ℕ)
      → lev t ≡ suc l
      → IsOld m t
      → (m.entry t (index_at (suc l) va)).valid ≡ true
      → Walked l m m' lev (m.entry t (index_at (suc l) va)).frame va place
      → Walked (suc l) m m' lev t va place
  Walked-down l m m' lev t va place at old valid w =
      let i = index_at (suc l) va in
      let same : m'.entry t i ≡ m.entry t i = w.keep t i (omega arith) old in
      record {
        lev' = w.lev';
        tree = w.tree;
        leaf = w.leaf;
        found =
            ap (λ (x : Option (ℕ × ℕ) × Tables). x.0)
              (walk_from-valid l m' t va false (ap (λ (x : Pte). x.valid) same ∙ valid))
            ∙ ap (λ (x : Pte). (walk_from pool l m' x.frame va false).0) same
            ∙ w.found;
        same_lev = w.same_lev;
        keep = λ u j above o. w.keep u j (omega arith) o;
        grows = w.grows;
      }

  -- A walk through a table that was added.
  Walked-new :
      (l : ℕ) (m m' : Tables) (lev : ℕ → ℕ) (t va : ℕ) (place : ℕ × ℕ)
      → lev t ≡ suc l
      → IsOld m t
      → Walked l
          (extended m t (index_at (suc l) va))
          m'
          (with_lev lev (table_at pool m.next) l)
          (table_at pool m.next)
          va
          place
      → Walked (suc l) m m' lev t va place
  unfolding set_entry take_table
  Walked-new l m m' lev t va place at old w =
      let i = index_at (suc l) va in
      let c = table_at pool m.next in
      let still : (u : ℕ) → IsOld m u → IsOld (extended m t i) u = λ u o k le. o k (omega arith) in
      let lev_at : (u : ℕ) → IsOld m u → with_lev lev c l u ≡ lev u =
        λ u o. lev-other lev c l u (o m.next (omega arith)) in
      let here : (extended m t i).entry t i ≡ pointer c =
        extended-entry m t i t i ∙ at_place t i (pointer c) _ in
      let same : m'.entry t i ≡ pointer c =
        w.keep t i (omega (arith, lev_at t old)) (still t old) ∙ here in
      record {
        lev' = w.lev';
        tree = w.tree;
        leaf = w.leaf;
        found =
            ap (λ (x : Option (ℕ × ℕ) × Tables). x.0)
              (walk_from-valid l m' t va false (ap (λ (x : Pte). x.valid) same))
            ∙ ap (λ (x : Pte). (walk_from pool l m' x.frame va false).0) same
            ∙ w.found;
        same_lev = λ u o. w.same_lev u (still u o) ∙ lev_at u o;
        keep = λ u j above o.
            w.keep u j (omega (arith, lev_at u o)) (still u o)
            ∙ extended-entry m t i u j
            ∙ elsewhere u t j i (pointer c) no_pte (m.entry u j) c (λ e. omega (arith, ap lev e))
                (o m.next (omega arith));
        grows = omega (arith, w.grows);
      }

  pub walk_from-Walked :
      (l : ℕ) (m : Tables) (lev : ℕ → ℕ) (t va : ℕ) (place : ℕ × ℕ)
      → IsTree m lev
      → lev t ≡ l
      → IsOld m t
      → (walk_from pool l m t va true).0 ≡ some place
      → Walked l m (walk_from pool l m t va true).1 lev t va place
  walk_from-Walked zero m lev t va place v at old out = Walked-zero m lev t va place v at out
  walk_from-Walked (suc l) m lev t va place v at old out =
      let i = index_at (suc l) va in
      let c = table_at pool m.next in
      elim (Bool-cases (m.entry t i).valid) [
        | inl valid ↦
            let step = walk_from-valid l m t va true valid in
            let child = (m.entry t i).frame in
            let above : lev t ≢ 0 = λ z. omega arith in
            subst (λ (x : Option (ℕ × ℕ) × Tables). Walked (suc l) m x.1 lev t va place) (sym step)
              (Walked-down l m (walk_from pool l m child va true).1 lev t va place at old valid (
                walk_from-Walked l m lev child va place v (omega (arith, v.down t i valid above))
                  (v.old t i valid above)
                  (ap (λ (x : Option (ℕ × ℕ) × Tables). x.0) (sym step) ∙ out)))
        | inr invalid ↦ elim (walk_from-alloc l m t va invalid) [
          | inl full ↦ let bad : none ≡ some place = sym full ∙ out in absurd (cc bad)
          | inr step ↦
              let m0 = extended m t i in
              let lev0 = with_lev lev c l in
              subst (λ (x : Option (ℕ × ℕ) × Tables). Walked (suc l) m x.1 lev t va place)
                (sym step)
                (Walked-new l m (walk_from pool l m0 c va true).1 lev t va place at old (
                  walk_from-Walked l m0 lev0 c va place (extended-IsTree m lev t i l v at old)
                    (lev-new lev c l) (extended-IsOld m t i)
                    (ap (λ (x : Option (ℕ × ℕ) × Tables). x.0) (sym step) ∙ out)))
        ]
      ]
