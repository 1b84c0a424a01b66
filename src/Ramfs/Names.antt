-- ===== src/Ramfs/Names.antt =====
-- The names in the table of kernel/ramfs.c, and how many of its slots are in use.
use open_agent_os.Prelude.{
  ℕ, zero, suc, ◌+◌, ◌≤◌, ◌<◌, ◌≡◌, refl, Bool, true, false, not, ◌&&◌, List, [], ◌∷◌, ℤ, arith,
  if◌then◌else◌, set, length, none, Option-cases, Bool-cases, is_nonpos, leb, pos_part, ◌||◌, inl,
  inr, set-set,
}
use open_agent_os.Bytes.{Str, AllNonzero}
use open_agent_os.Ramfs.{
  File, Files, path_max, file_size, find_file, find_free, file_at, str_copy, claim, lookup_create,
  fill_file, put, is_sys_path, clear_user,
}
use open_agent_os.Ramfs.Content.{content, IsFile, AllFiles}

-- The slots in use.
unfoldable pub used_count : Files → ℕ
used_count [] = 0
used_count (f ∷ fs) = (if f.used then 1 else 0) + used_count fs

-- No two files in use have one name, and each name is a string that its array can hold.
abbrev pub AllNames : Files → Type 0
AllNames [] = Unit
AllNames (f ∷ fs) =
    (f.used ≡ true → (AllNonzero f.path × (length f.path < path_max) × (content fs f.path ≡ none)))
    × AllNames fs

used_count-set : (fs : Files) (i : ℕ) (g : File) → used_count (set fs i g) ≤ used_count fs + 1
unfolding used_count
used_count-set [] i g = omega arith
used_count-set (f ∷ fs) zero g = ground arith
used_count-set (f ∷ fs) (suc i) g = ground (arith, used_count-set fs i g)

pub used_count-full : (fs : Files) → find_free fs ≡ none → used_count fs ≡ length fs
unfolding used_count find_free
used_count-full [] h = refl
used_count-full (f ∷ fs) h = ground (arith, used_count-full fs)

-- A `ramfs_put` takes one more slot at most.
pub used_count-put :
    (fs : Files) (p : Str) (src : List ℕ) (n : ℤ)
    → used_count (put fs p src n).1 ≤ used_count fs + 1
unfolding put lookup_create claim
used_count-put fs p src n = elim (Bool-cases (is_nonpos n || leb file_size (pos_part n))) [
  | inl bad ↦ ground arith
  | inr good ↦ elim (Option-cases (find_file fs p)) [
    | inr (i, e) ↦ ground (arith, used_count-set fs i (fill_file (file_at fs i) src (pos_part n)))
    | inl e ↦ elim (Option-cases (find_free fs)) [
      | inl full ↦ ground arith
      | inr (i, free) ↦
          let g = record (file_at fs i) { used = true; size = 0; path = str_copy p } in
          let g' = fill_file (file_at (claim fs i p) i) src (pos_part n) in
          ground (arith, used_count-set fs i g', set-set fs i g g')
    ]
  ]
]

pub AllFiles-clear_user : (fs : Files) → AllFiles fs → AllFiles (clear_user fs)
unfolding clear_user
AllFiles-clear_user [] v = tt
AllFiles-clear_user (f ∷ fs) v =
    (if-IsFile (f.used && not (is_sys_path f.path)) v.0, AllFiles-clear_user fs v.1)
  where
    if-IsFile : (b : Bool) → IsFile f → IsFile (if b then record f { used = false } else f)
    if-IsFile true v = record { array = v.array; fits = v.fits }
    if-IsFile false v = v

pub length-clear_user : (fs : Files) → length (clear_user fs) ≡ length fs
unfolding clear_user
length-clear_user [] = refl
length-clear_user (f ∷ fs) = ground (arith, length-clear_user fs)
