-- ===== src/Ramfs/UserFiles.antt =====
-- The files outside /sys: clearing them, counting them and listing them, as kernel/persist.c does;
-- and what a refused write leaves behind.
use open_agent_os.Prelude.{
  ℕ, zero, suc, ◌+◌, ◌-◌, ◌≤◌, ◌<◌, ◌≡◌, refl, ap, true, List, [], ◌∷◌, ℤ, pos, arith,
  if◌then◌else◌, length, none, some, not, ◌&&◌, ◌^◌, length-take, take-length_le,
}
use open_agent_os.Abi.{einval, enoent}
use open_agent_os.Bytes.{Str, str_eq_iff, str_eq_refl}
use open_agent_os.Ramfs.{
  Files, Offset, path_max, file_size, lookup_create, find_file, find_free, file_at, claim, str_copy,
  write, clear_user, is_sys_path, user_count, user_scan, user_get,
}
use open_agent_os.Ramfs.Content.{content, AllFiles, bytes_of, content_of_none, content-set_free}

-- `ramfs_clear_user` removes exactly the files whose path does not begin like /sys.
pub content-clear_user :
    (fs : Files) (p : Str)
    → content (clear_user fs) p ≡ (if is_sys_path p then content fs p else none)
unfolding clear_user content
content-clear_user [] p = ground arith
content-clear_user (f ∷ fs) p =
    ground
      (arith, str_eq_iff f.path p, content-clear_user fs p, λ (e : f.path ≡ p). ap is_sys_path e)

-- Nothing is left to list afterwards.
pub user_count-clear_user : (fs : Files) → user_count (clear_user fs) ≡ 0
unfolding clear_user user_count
user_count-clear_user [] = refl
user_count-clear_user (f ∷ fs) = ground (arith, user_count-clear_user fs)

-- The files in use outside /sys, in table order.
unfoldable pub user_files : Files → List (Str × List ℕ)
user_files [] = []
user_files (f ∷ fs) =
    if f.used && not (is_sys_path f.path)
    then (f.path, bytes_of f) ∷ user_files fs
    else user_files fs

-- The answer for an index of that list.
unfoldable pub listed : List (Str × List ℕ) → ℕ → ℤ × Str × List ℕ
listed [] idx = (enoent, [], [])
listed ((p, bs) ∷ rest) zero = (pos (length bs), p, bs)
listed (x ∷ rest) (suc idx) = listed rest idx

user_scan-listed :
    (fs : Files) (idx : ℕ) → AllFiles fs → user_scan fs idx file_size ≡ listed (user_files fs) idx
unfolding user_scan user_files listed
user_scan-listed [] idx v = refl
user_scan-listed (f ∷ fs) zero v =
    ground (arith, user_scan-listed fs 0 v.1, length-take f.size f.bytes)
user_scan-listed (f ∷ fs) (suc idx) v = ground (
  arith,
  user_scan-listed fs (suc idx) v.1,
  user_scan-listed fs idx v.1,
  ap (λ k. user_scan fs k file_size) (let e : suc idx - 1 ≡ idx = omega arith in e),
)

length-user_files : (fs : Files) → length (user_files fs) ≡ user_count fs
unfolding user_files user_count
length-user_files [] = refl
length-user_files (f ∷ fs) = ground (arith, length-user_files fs)

-- In a well-formed table, and with room for any file, `ramfs_user_get` answers every index below `ramfs_user_count` with the
-- file of that rank outside /sys, whole, and every other index with ENOENT.
pub user_get_lem :
    (fs : Files) (idx : ℕ)
    → AllFiles fs
    → (user_get fs idx (pos file_size) ≡ listed (user_files fs) idx)
      × (length (user_files fs) ≡ user_count fs)
unfolding user_get
user_get_lem fs idx v = (user_scan-listed fs idx v, length-user_files fs)

-- In a well-formed table with a free slot, a write of one or more bytes that would pass the end of the
-- array, at a path of at most 63 bytes that is not there, is refused with EINVAL, and the path is an
-- empty file from then on.
pub write_refused_creates :
    (fs : Files) (p : Str) (offset : Offset) (src : List ℕ) (n i : ℕ)
    → AllFiles fs
    → length p < path_max
    → 0 < n
    → offset.value + n < 2 ^ 64
    → file_size ≤ offset.value + n
    → find_file fs p ≡ none
    → find_free fs ≡ some i
    → let (rc, fs') = write fs p offset src (pos n) in
      (rc ≡ einval) × (content fs p ≡ none) × (content fs' p ≡ some [])
unfolding write lookup_create claim str_copy
write_refused_creates fs p offset src n i v short some_bytes no_wrap too_far missing free = ground (
  arith,
  content_of_none fs p missing,
  str_eq_refl p,
  take-length_le (path_max - 1) p,
  content-set_free fs p i (record (file_at fs i) { used = true; size = 0; path = p }) p,
)
