-- ===== src/Ramfs/Content.antt =====
-- The files as a map from paths to bytes, and what the lookups find in it.
use open_agent_os.Prelude.{
  ℕ, zero, suc, ◌-◌, ◌<◌, ◌≡◌, refl, true, ◌&&◌, List, [], ◌∷◌, ℤ, pos, arith, if◌then◌else◌, set,
  take, drop, length, length-take, Option, none, some, Option-cases, drop-take, take-take,
  length-drop, inl, inr, is_nonpos, pos_part, leb,
}
use open_agent_os.Bytes.{Str, str_eq, str_eq_iff}
use open_agent_os.Ramfs.{File, Files, file_size, find_file, find_free, file_at, read_file, read}
use open_agent_os.Abi.{einval, enoent}

-- The bytes of the first file in use under a path.
unfoldable pub content : Files → Str → Option (List ℕ)
content [] path = none
content (f ∷ fs) path =
    if f.used && str_eq f.path path then some (take f.size f.bytes) else content fs path

-- The bytes that an answer of the map stands for, none for a path that is not there.
abbrev pub or_empty : Option (List ℕ) → List ℕ
or_empty none = []
or_empty (some bs) = bs

-- `ramfs_read` in terms of the map.
unfoldable pub read_bytes : Option (List ℕ) → ℕ → ℤ → ℤ × List ℕ
read_bytes o offset len = if is_nonpos len then (einval, []) else (elim o [
  | none ↦ (enoent, [])
  | some bs ↦
      if leb (length bs) offset
      then (pos 0, [])
      else (let out = take (pos_part len) (drop offset bs) in (pos (length out), out))
])

-- The bytes of a file.
abbrev pub bytes_of : File → List ℕ
bytes_of f = take f.size f.bytes

pub record IsFile (f : File) : Type 0 where
  pub array : length f.bytes ≡ file_size
  pub fits : f.size < file_size

abbrev pub AllFiles : Files → Type 0
AllFiles [] = Unit
AllFiles (f ∷ fs) = IsFile f × AllFiles fs

-- A lookup that fails: the map has nothing there.
pub content_of_none : (fs : Files) (p : Str) → find_file fs p ≡ none → content fs p ≡ none
unfolding find_file content
content_of_none [] p h = refl
content_of_none (f ∷ fs) p h = ground (arith, content_of_none fs p)

-- A lookup that succeeds: the slot, and the file that the map has there.
pub record Found (fs : Files) (p : Str) (i : ℕ) : Type 0 where
  pub in_range : i < length fs
  pub path_is : (file_at fs i).path ≡ p
  pub is_used : (file_at fs i).used ≡ true
  pub bytes_at : content fs p ≡ some (bytes_of (file_at fs i))

pub find_file-Found : (fs : Files) (p : Str) (i : ℕ) → find_file fs p ≡ some i → Found fs p i
unfolding find_file content file_at
find_file-Found [] p i h = cc
find_file-Found (f ∷ fs) p zero h = ground (arith, str_eq_iff f.path p)
find_file-Found (f ∷ fs) p (suc i) h = ground (arith, str_eq_iff f.path p, find_file-Found fs p i)

pub AllFiles-file_at : (fs : Files) (i : ℕ) → AllFiles fs → i < length fs → IsFile (file_at fs i)
unfolding file_at
AllFiles-file_at [] i v h = absurd (omega arith)
AllFiles-file_at (f ∷ fs) zero v h = v.0
AllFiles-file_at (f ∷ fs) (suc i) v h = AllFiles-file_at fs i v.1 (omega arith)

pub AllFiles-set : (fs : Files) (i : ℕ) (f : File) → AllFiles fs → IsFile f → AllFiles (set fs i f)
AllFiles-set [] i f v h = tt
AllFiles-set (g ∷ fs) zero f v h = (h, v.1)
AllFiles-set (g ∷ fs) (suc i) f v h = (v.0, AllFiles-set fs i f v.1 h)

-- Replacing the file of a lookup changes the map at its path alone.
pub content-set_found :
    (fs : Files) (p : Str) (i : ℕ) (g : File) (q : Str)
    → find_file fs p ≡ some i
    → g.path ≡ p
    → g.used ≡ true
    → content (set fs i g) q ≡ (if str_eq p q then some (bytes_of g) else content fs q)
unfolding find_file content
content-set_found [] p i g q h gp gu = cc
content-set_found (f ∷ fs) p zero g q h gp gu =
    ground (arith, str_eq_iff f.path p, str_eq_iff f.path q, str_eq_iff p q, str_eq_iff g.path q)
content-set_found (f ∷ fs) p (suc i) g q h gp gu =
    ground (
      arith,
      str_eq_iff f.path p,
      str_eq_iff f.path q,
      str_eq_iff p q,
      content-set_found fs p i g q,
    )

-- Claiming a free slot for a path that no file has changes the map at that path alone.
pub content-set_free :
    (fs : Files) (p : Str) (i : ℕ) (g : File) (q : Str)
    → find_file fs p ≡ none
    → find_free fs ≡ some i
    → g.path ≡ p
    → g.used ≡ true
    → content (set fs i g) q ≡ (if str_eq p q then some (bytes_of g) else content fs q)
unfolding find_file find_free content
content-set_free [] p i g q h free gp gu = cc
content-set_free (f ∷ fs) p zero g q h free gp gu =
    ground (arith, str_eq_iff g.path q, str_eq_iff p q)
content-set_free (f ∷ fs) p (suc i) g q h free gp gu =
    ground
      (arith, str_eq_iff f.path p, str_eq_iff f.path q, str_eq_iff p q, content-set_free fs p i g q)

pub find_free-lt : (fs : Files) (i : ℕ) → find_free fs ≡ some i → i < length fs
unfolding find_free
find_free-lt [] i h = cc
find_free-lt (f ∷ fs) zero h = omega arith
find_free-lt (f ∷ fs) (suc i) h = ground (arith, find_free-lt fs i)

read_file_lem :
    (f : File) (offset n : ℕ)
    → IsFile f
    → read_file f offset n ≡ (
        if leb (length (bytes_of f)) offset
        then (pos 0, [])
        else (let out = take n (drop offset (bytes_of f)) in (pos (length out), out)))
unfolding read_file
read_file_lem f offset n v = ground (
  arith,
  length-take f.size f.bytes,
  drop-take offset f.size f.bytes,
  take-take n (f.size - offset) (drop offset f.bytes),
  length-take n (drop offset (bytes_of f)),
  length-drop offset (bytes_of f),
)

-- In a well-formed table `ramfs_read` gives, for any path, offset and length, what reading the bytes
-- that the map has under the path gives: EINVAL, ENOENT, or the bytes from the offset on.
pub read_lem :
    (fs : Files) (p : Str) (offset : ℕ) (len : ℤ)
    → AllFiles fs
    → read fs p offset len ≡ read_bytes (content fs p) offset len
unfolding read read_bytes
read_lem fs p offset len v = elim (Option-cases (find_file fs p)) [
  | inl e ↦ rw (e, content_of_none fs p e) refl
  | inr (i, e) ↦
      rw (e, (find_file-Found fs p i e).bytes_at)
        (rw
          (read_file_lem (file_at fs i) offset (pos_part len)
            (AllFiles-file_at fs i v (find_file-Found fs p i e).in_range))
          refl)
]

-- No file is as long as the array.
pub content-lt :
    (fs : Files) (p : Str) (bs : List ℕ)
    → AllFiles fs
    → content fs p ≡ some bs
    → length bs < file_size
unfolding content
content-lt [] p bs v e = cc
content-lt (f ∷ fs) p bs v e = ground (arith, content-lt fs p bs, length-take f.size f.bytes)
