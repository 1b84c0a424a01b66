-- ===== src/Vm/Map.antt =====
-- kernel/vm.c: a page that `vm_map_page` maps, as the walks that follow find it.
use open_agent_os.Prelude.{
  ℕ, zero, suc, ◌≡◌, ◌≢◌, ◌%◌, refl, ap, sym, ◌∙◌, Bool, true, false, ◌&&◌, ◌==◌, if◌then◌else◌,
  arith, Option, none, some, pos, negsuc, Bool-cases, Option-cases, inl, inr,
}
use open_agent_os.Vm.{Pte, page_size}
use open_agent_os.Vm.Tables.{Tables, set_entry, index_at, walk_from, walk, map_page, pages_of}
use open_agent_os.Vm.Walk.{IsOld, IsTree, walk_from-valid, walk_from-Walked}

module _ (pool : ℕ) where
  set_entry_other :
      (m : Tables) (u j t i : ℕ) (pte : Pte) → t ≢ u → (set_entry m u j pte).entry t i ≡ m.entry t i
  unfolding set_entry
  set_entry_other m u j t i pte other =
      let e : (t == u && i == j) ≡ false = ground arith in
      ap (λ (b : Bool). if b then pte else m.entry t i) e

  set_entry_here : (m : Tables) (u j : ℕ) (pte : Pte) → (set_entry m u j pte).entry u j ≡ pte
  unfolding set_entry
  set_entry_here m u j pte =
      let e : (u == u && j == j) ≡ true = ground arith in
      ap (λ (b : Bool). if b then pte else m.entry u j) e

  pub walk_from-invalid :
      (l : ℕ) (m : Tables) (t va : ℕ)
      → (m.entry t (index_at (suc l) va)).valid ≡ false
      → (walk_from pool (suc l) m t va false).0 ≡ none
  unfolding walk_from
  walk_from-invalid l m t va invalid = rw invalid refl

  -- The entries of the last level do not lead a walk anywhere else.
  walk_from-leaf :
      (l : ℕ) (m : Tables) (lev : ℕ → ℕ) (t va u j : ℕ) (pte : Pte)
      → IsTree pool m lev
      → lev t ≡ l
      → lev u ≡ 0
      → (walk_from pool l (set_entry m u j pte) t va false).0 ≡ (walk_from pool l m t va false).0
  unfolding walk_from
  walk_from-leaf zero m lev t va u j pte v at leaf = refl
  walk_from-leaf (suc l) m lev t va u j pte v at leaf =
      let i = index_at (suc l) va in
      let same : (set_entry m u j pte).entry t i ≡ m.entry t i =
        set_entry_other m u j t i pte (λ e. omega (arith, ap lev e)) in
      let fst = λ (x : Option (ℕ × ℕ) × Tables). x.0 in
      elim (Bool-cases (m.entry t i).valid) [
        | inl valid ↦
            ap fst (
              walk_from-valid pool l (set_entry m u j pte) t va false
                (ap (λ (x : Pte). x.valid) same ∙ valid))
            ∙ ap (λ (x : Pte). (walk_from pool l (set_entry m u j pte) x.frame va false).0) same
            ∙ walk_from-leaf l m lev (m.entry t i).frame va u j pte v
                (omega (arith, v.down t i valid (λ z. omega arith))) leaf
            ∙ sym (ap fst (walk_from-valid pool l m t va false valid))
        | inr invalid ↦
            walk_from-invalid l (set_entry m u j pte) t va
              (ap (λ (x : Pte). x.valid) same ∙ invalid)
            ∙ sym (walk_from-invalid l m t va invalid)
      ]

  -- A result of 0 comes from a walk that found a free place.
  map_page_cases :
      (m : Tables) (pt va pa : ℕ) (perm : Pte)
      → (map_page pool m pt va pa perm).0 ≡ pos 0
      → (place : ℕ × ℕ) × ((walk pool m pt va true).0 ≡ some place)
        × ((map_page pool m pt va pa perm).1
            ≡ set_entry
                ((walk pool m pt va true).1)
                place.0
                place.1
                (record perm { valid = true; frame = pa }))
  unfolding map_page
  map_page_cases m pt va pa perm out =
      elim (Bool-cases (va % page_size == 0 && pa % page_size == 0)) [
        | inr odd ↦ let bad : negsuc 0 ≡ pos 0 = sym (rw odd refl) ∙ out in absurd (cc bad)
        | inl even ↦ elim (Option-cases ((walk pool m pt va true).0)) [
          | inl lost ↦
              let bad : negsuc 0 ≡ pos 0 = sym (rw (even, lost) refl) ∙ out in absurd (cc bad)
          | inr (place, found) ↦
              elim (Bool-cases ((walk pool m pt va true).1.entry place.0 place.1).valid) [
                | inl taken ↦
                    let bad : negsuc 0 ≡ pos 0 = sym (rw (even, found, taken) refl) ∙ out in
                    absurd (cc bad)
                | inr free ↦ (place, found, rw (even, found, free) refl)
              ]
        ]
      ]

  entry_found :
      (m : Tables) (pt va : ℕ) (place : ℕ × ℕ)
      → (walk_from pool 2 m pt va false).0 ≡ some place
      → pages_of pool m pt va ≡ some (m.entry place.0 place.1)
  unfolding walk pages_of
  entry_found m pt va place found =
      ap (λ (x : Option (ℕ × ℕ)). elim x [ none ↦ none | some (t, i) ↦ some (m.entry t i) ]) found

  -- In tables that are a tree with the root `pt` at level 2, a `vm_map_page` that returns 0 makes the
  -- walk of that address find the frame and the permissions that were given.
  pub map_page-pages_of :
      (m : Tables) (lev : ℕ → ℕ) (pt va pa : ℕ) (perm : Pte)
      → IsTree pool m lev
      → lev pt ≡ 2
      → IsOld pool m pt
      → (map_page pool m pt va pa perm).0 ≡ pos 0
      → pages_of pool (map_page pool m pt va pa perm).1 pt va
        ≡ some (record perm { valid = true; frame = pa })
  unfolding walk
  map_page-pages_of m lev pt va pa perm v root old out =
      let (place, found, e) = map_page_cases m pt va pa perm out in
      let pte : Pte = record perm { valid = true; frame = pa } in
      let m' = (walk pool m pt va true).1 in
      let w = walk_from-Walked pool 2 m lev pt va place v root old found in
      let find : (walk_from pool 2 (set_entry m' place.0 place.1 pte) pt va false).0 ≡ some place =
        walk_from-leaf 2 m' w.lev' pt va place.0 place.1 pte w.tree (w.same_lev pt old ∙ root)
          w.leaf
        ∙ w.found in
      ap (λ (x : Tables). pages_of pool x pt va) e
      ∙ entry_found (set_entry m' place.0 place.1 pte) pt va place find
      ∙ ap (λ (x : Pte). some x) (set_entry_here m' place.0 place.1 pte)
