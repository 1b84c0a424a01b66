-- ===== src/Ramfs/Distinct.antt =====
-- kernel/ramfs.c: the names in the table stay distinct strings.
use open_agent_os.Prelude.{
  ℕ, zero, suc, ◌+◌, ◌-◌, ◌<◌, ◌≡◌, ◌≢◌, subst, refl, ap, sym, ◌∙◌, true, not, ◌&&◌, List, [], ◌∷◌,
  ℤ, arith, if◌then◌else◌, set, length, Option, none, Option-cases, Bool-cases, is_nonpos, leb,
  pos_part, ◌||◌, inl, inr, ◌%◌, ◌^◌, take-length_le,
}
use open_agent_os.Bytes.{Str, AllNonzero, str_eq_iff, str_eq_refl}
use open_agent_os.Ramfs.{
  File, Files, Offset, path_max, file_size, find_file, find_free, file_at, str_copy, claim,
  lookup_create, fill_file, write_file, write, put, clear_user, is_sys_path,
}
use open_agent_os.Ramfs.Content.{content, AllFiles, content_of_none}
use open_agent_os.Ramfs.UserFiles.{content-clear_user}
use open_agent_os.Ramfs.Valid.{lookup_create_cases}
use open_agent_os.Ramfs.Names.{AllNames}

content-set-none :
    (fs : Files) (i : ℕ) (g : File) (q : Str)
    → content fs q ≡ none
    → g.path ≢ q
    → content (set fs i g) q ≡ none
unfolding content
content-set-none [] i g q e ne = refl
content-set-none (f ∷ fs) zero g q e ne = ground (arith, str_eq_iff g.path q, str_eq_iff f.path q)
content-set-none (f ∷ fs) (suc i) g q e ne = ground (arith, content-set-none fs i g q)

content-used :
    (fs : Files) (i : ℕ) (q : Str)
    → (file_at fs i).used ≡ true
    → content fs q ≡ none
    → (file_at fs i).path ≢ q
unfolding content file_at
content-used [] i q u e = cc
content-used (f ∷ fs) zero q u e = ground (arith, str_eq_iff f.path q)
content-used (f ∷ fs) (suc i) q u e = ground (arith, content-used fs i q)

AllNames-set_found :
    (fs : Files) (i : ℕ) (g : File)
    → AllNames fs
    → (file_at fs i).used ≡ true
    → g.path ≡ (file_at fs i).path
    → AllNames (set fs i g)
unfolding file_at
AllNames-set_found [] i g v u e = tt
AllNames-set_found (f ∷ fs) zero g v u e = (
  λ _. subst (λ p. AllNonzero p × (length p < path_max) × (content fs p ≡ none)) (sym e) (v.0 u),
  v.1,
)
AllNames-set_found (f ∷ fs) (suc i) g v u e = (
  λ used.
      let (string, short, fresh) = v.0 used in
      (
        string,
        short,
        content-set-none fs i g f.path fresh
            (λ same. content-used fs i f.path u fresh (sym e ∙ same)),
      ),
  AllNames-set_found fs i g v.1 u e,
)

AllNames-set_free :
    (fs : Files) (i : ℕ) (g : File)
    → AllNames fs
    → AllNonzero g.path
    → length g.path < path_max
    → content fs g.path ≡ none
    → AllNames (set fs i g)
unfolding content
AllNames-set_free [] i g v string short fresh = tt
AllNames-set_free (f ∷ fs) zero g v string short fresh =
    (λ _. (string, short, ground (arith, str_eq_refl g.path)), v.1)
AllNames-set_free (f ∷ fs) (suc i) g v string short fresh = (
  λ used.
      let (string', short', fresh') = v.0 used in
      (
        string',
        short',
        content-set-none fs i g f.path fresh' (λ same. ground (arith, str_eq_iff f.path g.path)),
      ),
  AllNames-set_free fs i g v.1 string short (ground (arith, str_eq_iff f.path g.path)),
)

lookup_create-AllNames :
    (fs : Files) (p : Str)
    → AllNames fs
    → AllNonzero p
    → length p < path_max
    → AllNames (lookup_create fs p).1
unfolding lookup_create claim str_copy
lookup_create-AllNames fs p v string short = elim (Option-cases (find_file fs p)) [
  | inr (i, e) ↦ rw (e, lookup_create) v
  | inl e ↦ elim (Option-cases (find_free fs)) [
    | inr (i, free) ↦
        let whole = take-length_le (path_max - 1) p (omega arith) in
        let g : File = record (file_at fs i) { used = true; size = 0; path = str_copy p } in
        rw (e, free, lookup_create)
          (AllNames-set_free fs i g v (subst AllNonzero (sym whole) string)
            (omega (arith, ap length whole)) (ap (content fs) whole ∙ content_of_none fs p e))
    | inl full ↦ rw (e, full, lookup_create) v
  ]
]

fill_file-AllNames :
    (fs : Files) (i : ℕ) (src : List ℕ) (n : ℕ)
    → AllNames fs
    → (file_at fs i).used ≡ true
    → AllNames (set fs i (fill_file (file_at fs i) src n))
unfolding fill_file
fill_file-AllNames fs i src n v u =
    AllNames-set_found fs i (fill_file (file_at fs i) src n) v u refl

write_file-AllNames :
    (fs : Files) (i : ℕ) (offset : Offset) (src : List ℕ) (n : ℕ)
    → AllNames fs
    → (file_at fs i).used ≡ true
    → AllNames (set fs i (write_file (file_at fs i) offset src n))
unfolding write_file
write_file-AllNames fs i offset src n v u =
    AllNames-set_found fs i (write_file (file_at fs i) offset src n) v u refl

clear_user-AllNames : (fs : Files) → AllNames fs → AllNames (clear_user fs)
unfolding clear_user
clear_user-AllNames [] v = tt
clear_user-AllNames (f ∷ fs) v =
    let gone : content fs f.path ≡ none → content (clear_user fs) f.path ≡ none =
      λ e. content-clear_user fs f.path ∙ ground arith in
    elim (Bool-cases (f.used && not (is_sys_path f.path))) [
      | inl mine ↦ rw mine (λ no. cc, clear_user-AllNames fs v.1)
      | inr other ↦ rw other (
        λ used. let (string, short, fresh) = v.0 used in (string, short, gone fresh),
        clear_user-AllNames fs v.1,
      )
    ]

module _ (fs : Files) (p : Str) (v : AllFiles fs) (names : AllNames fs) (string : AllNonzero p)
    (short : length p < path_max) where
  put-AllNames : (src : List ℕ) (n : ℤ) → AllNames (put fs p src n).1
  unfolding put
  put-AllNames src n =
      let after = lookup_create-AllNames fs p names string short in
      elim (Bool-cases (is_nonpos n || leb file_size (pos_part n))) [
        | inl bad ↦ rw bad names
        | inr good ↦ elim (lookup_create_cases fs p v short) [
          | inl (i, fs', e, slot) ↦
              let at : (put fs p src n).1 ≡ set fs' i (fill_file (file_at fs' i) src (pos_part n)) =
                ground arith in
              let after' = subst (λ (x : Option ℕ × Files). AllNames x.1) e after in
              subst AllNames (sym at)
                (fill_file-AllNames fs' i src (pos_part n) after' slot.is_used)
          | inr (e, missing, full) ↦
              let at : (put fs p src n).1 ≡ fs = ground arith in subst AllNames (sym at) names
        ]
      ]

  write-AllNames : (offset : Offset) (src : List ℕ) (n : ℤ) → AllNames (write fs p offset src n).1
  unfolding write
  write-AllNames offset src n =
      let after = lookup_create-AllNames fs p names string short in
      elim (Bool-cases (is_nonpos n)) [
        | inl bad ↦ rw bad names
        | inr good ↦ elim (lookup_create_cases fs p v short) [
          | inl (i, fs', e, slot) ↦
              let after' = subst (λ (x : Option ℕ × Files). AllNames x.1) e after in
              let g = write_file (file_at fs' i) offset src (pos_part n) in
              let at : (write fs p offset src n).1 ≡ (
                  if leb file_size ((offset.value + pos_part n) % 2 ^ 64)
                  then fs'
                  else set fs' i g) =
                ground arith in
              subst AllNames (sym at)
                (elim (Bool-cases (leb file_size ((offset.value + pos_part n) % 2 ^ 64))) [
                  | inl wide ↦ rw wide after'
                  | inr fits ↦
                      rw fits
                        (write_file-AllNames fs' i offset src (pos_part n) after' slot.is_used)
                ])
          | inr (e, missing, full) ↦
              let at : (write fs p offset src n).1 ≡ fs = ground arith in
              subst AllNames (sym at) names
        ]
      ]

  -- Let a well-formed table have distinct names that are strings of at most 63 bytes. It still has
  -- after a `ramfs_put` or a `ramfs_write` at any path of at most 63 nonzero bytes, with any bytes
  -- and length, any offset below 2 ^ 63 and whatever status they return, and after `ramfs_clear_user`.
  pub put-write-clear_user-AllNames :
      (src : List ℕ) (n : ℤ) (offset : Offset)
      → AllNames (put fs p src n).1
        × AllNames (write fs p offset src n).1
        × AllNames (clear_user fs)
  put-write-clear_user-AllNames src n offset =
      (put-AllNames src n, write-AllNames offset src n, clear_user-AllNames fs names)
