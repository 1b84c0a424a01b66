-- ===== src/Ramfs.antt =====
-- kernel/ramfs.c: 64 files in memory, each a path of at most 63 bytes and an array of 8192 bytes.
-- The kernel's own buffers, which callers pass as `path`, `data` and `buf`, are never null: their
-- null tests do not appear. A buffer that is written through a pointer is returned.
pub mod Content
pub mod Valid
pub mod Laws
pub mod UserFiles
pub mod Names
pub mod Distinct
mod Tests
use mathlib.Core.Option
use open_agent_os.Prelude.{
  ℕ, zero, suc, ◌+◌, ◌-◌, ◌*◌, ◌%◌, ◌^◌, ◌<◌, Bool, true, false, not, ◌&&◌, ◌||◌, List, [], ◌∷◌,
  ◌++◌, ℤ, pos, negsuc, is_nonpos, pos_part, ltb, leb, ◌==◌, if◌then◌else◌, get_or, set, take, drop,
  length, replicate, Option, none, some, arith,
}
use open_agent_os.Abi.{einval, enoent, enospc}
use open_agent_os.Bytes.{Str, char_at, str_eq, starts_with, copy_in}
use open_agent_os.Decimal.{decimal_int}

abbrev pub path_max : ℕ
path_max = 64

abbrev pub file_size : ℕ
file_size = 8192

abbrev pub max_files : ℕ
max_files = 64

-- `struct ramfs_file`
pub record File : Type 0 where
  pub path : Str
  pub bytes : List ℕ
  pub size : ℕ
  pub used : Bool

abbrev pub Files : Type 0
Files = List File

-- `str_copy(dst, src, RAMFS_PATH_MAX)`: the string that `dst` holds afterwards.
unfoldable pub str_copy : Str → Str
str_copy src = take (path_max - 1) src

-- The first loop of `lookup`: the first file in use under this path.
unfoldable pub find_file : Files → Str → Option ℕ
find_file [] path = none
find_file (f ∷ fs) path =
    if f.used && str_eq f.path path then some 0 else Option.map suc (find_file fs path)

-- The second loop: the first slot that is not in use.
unfoldable pub find_free : Files → Option ℕ
find_free [] = none
find_free (f ∷ fs) = if f.used then Option.map suc (find_free fs) else some 0

-- What `&files[i]` points to.
unfoldable pub file_at : Files → ℕ → File
file_at fs i = get_or fs i (record { path = []; bytes = []; size = 0; used = false })

-- A new file keeps the bytes that the slot held.
unfoldable pub claim : Files → ℕ → Str → Files
claim fs i path = set fs i (record (file_at fs i) { used = true; size = 0; path = str_copy path })

-- `lookup(path, 1)`; `lookup(path, 0)` is `find_file`.
unfoldable pub lookup_create : Files → Str → Option ℕ × Files
lookup_create fs path = elim (find_file fs path) [
  | some i ↦ (some i, fs)
  | none ↦ elim (find_free fs) [ some i ↦ (some i, claim fs i path) | none ↦ (none, fs) ]
]

-- The status, and the bytes that were copied to `buf`.
unfoldable pub read_file : File → ℕ → ℕ → ℤ × List ℕ
read_file f offset len =
    if leb f.size offset
    then (pos 0, [])
    else (let n = if ltb f.size (offset + len) then f.size - offset else len in
        (pos n, take n (drop offset f.bytes)))

unfoldable pub read : Files → Str → ℕ → ℤ → ℤ × List ℕ
read fs path offset len = if is_nonpos len then (einval, []) else (elim (find_file fs path) [
  | none ↦ (enoent, [])
  | some i ↦ read_file (file_at fs i) offset (pos_part len)
])

-- An `offset` for which neither `offset + len` nor the address `&data[offset + i]` wraps around. Larger
-- ones pass the range test and store in front of `data`, which C leaves undefined; they are not modelled.
pub record Offset : Type 0 where
  pub value : ℕ
  pub small : value < 2 ^ 63

abbrev pub at_start : Offset
at_start = record { value = 0; small = omega arith }

-- `offset + len` is computed in 64 bits.
unfoldable pub write_file : File → Offset → List ℕ → ℕ → File
write_file f offset src n = record f {
  bytes = copy_in f.bytes offset.value (take n src);
  size = if ltb f.size ((offset.value + n) % 2 ^ 64) then (offset.value + n) % 2 ^ 64 else f.size;
}

unfoldable pub write : Files → Str → Offset → List ℕ → ℤ → ℤ × Files
write fs path offset src len =
    if is_nonpos len
    then (einval, fs)
    else (let (found, fs') = lookup_create fs path in
        elim found [
          | none ↦ (enospc, fs')
          | some i ↦
              if leb file_size ((offset.value + pos_part len) % 2 ^ 64)
              then (einval, fs')
              else (len, set fs' i (write_file (file_at fs' i) offset src (pos_part len)))
        ])

-- The file that `ramfs_put` and `ramfs_seed` leave behind.
unfoldable pub fill_file : File → List ℕ → ℕ → File
fill_file f src n = record f { bytes = set (copy_in f.bytes 0 (take n src)) n 0; size = n }

unfoldable pub put : Files → Str → List ℕ → ℤ → ℤ × Files
put fs path src size =
    if is_nonpos size || leb file_size (pos_part size)
    then (einval, fs)
    else (let (found, fs') = lookup_create fs path in
        elim found [
          | none ↦ (enospc, fs')
          | some i ↦ (pos 0, set fs' i (fill_file (file_at fs' i) src (pos_part size)))
        ])

unfoldable pub path_exists : Files → Str → Bool
path_exists fs path = elim (find_file fs path) [ none ↦ false | some i ↦ true ]

unfoldable pub is_sys_path : Str → Bool
is_sys_path p = char_at p 1 == b's' && char_at p 2 == b'y' && char_at p 3 == b's'

-- `ramfs_seed`; the content is cut to 8191 bytes.
unfoldable pub seed : Files → Str → List ℕ → Files
seed fs path content =
    let (found, fs') = lookup_create fs path in
    elim found [
      | none ↦ fs'
      | some i ↦
          let n = if ltb (length content) (file_size - 1) then length content else file_size - 1 in
          set fs' i (fill_file (file_at fs' i) content n)
    ]

unfoldable pub release_all : Files → Files
release_all [] = []
release_all (f ∷ fs) = record f { used = false } ∷ release_all fs

-- `ramfs_init`, over whatever the array held.
unfoldable pub init : Files → Files
init fs =
    seed
      (seed (release_all fs)
        (b'/' ∷ b's' ∷ b'y' ∷ b's' ∷ b'/' ∷ b'v' ∷ b'e' ∷ b'r' ∷ b's' ∷ b'i' ∷ b'o' ∷ b'n' ∷ [])
        (b'O' ∷ b'p' ∷ b'e' ∷ b'n' ∷ b'A' ∷ b'g' ∷ b'e' ∷ b'n' ∷ b't' ∷ b'O' ∷ b'S' ∷ 32 ∷ b'v'
          ∷ b'1' ∷ b'.' ∷ b'0' ∷ []))
      (b'/' ∷ b's' ∷ b'y' ∷ b's' ∷ b'/' ∷ b't' ∷ b'i' ∷ b'c' ∷ b'k' ∷ b'_' ∷ b'h' ∷ b'z' ∷ [])
      (b'1' ∷ b'0' ∷ b'0' ∷ b'0' ∷ b'0' ∷ b'0' ∷ b'0' ∷ b'0' ∷ [])

-- "/agent/<id>/"
unfoldable pub agent_prefix : ℤ → Str
agent_prefix id = b'/' ∷ b'a' ∷ b'g' ∷ b'e' ∷ b'n' ∷ b't' ∷ b'/' ∷ (decimal_int id ++ b'/' ∷ [])

unfoldable pub count_with_prefix : Files → Str → ℕ
count_with_prefix [] prefix = 0
count_with_prefix (f ∷ fs) prefix =
    (if not f.used || is_sys_path f.path then 0 else (if starts_with f.path prefix then 1 else 0))
    + count_with_prefix fs prefix

unfoldable pub count_agent_files : Files → ℤ → ℕ
count_agent_files fs id = count_with_prefix fs (agent_prefix id)

unfoldable pub clear_user : Files → Files
clear_user [] = []
clear_user (f ∷ fs) =
    (if f.used && not (is_sys_path f.path) then record f { used = false } else f) ∷ clear_user fs

unfoldable pub user_count : Files → ℕ
user_count [] = 0
user_count (f ∷ fs) = (if f.used && not (is_sys_path f.path) then 1 else 0) + user_count fs

-- The loop of `ramfs_user_get`; `idx` user files are still to be passed over.
unfoldable pub user_scan : Files → ℕ → ℕ → ℤ × Str × List ℕ
user_scan [] idx cap = (enoent, [], [])
user_scan (f ∷ fs) idx cap =
    let later = user_scan fs (idx - 1) cap in
    let same = user_scan fs idx cap in
    if not f.used || is_sys_path f.path
    then same
    else (if idx == 0
        then (if leb cap f.size
            then (einval, f.path, [])
            else (pos f.size, f.path, take f.size f.bytes))
        else later)

-- The status, and what goes to `path` and `data`.
unfoldable pub user_get : Files → ℕ → ℤ → ℤ × Str × List ℕ
user_get fs idx cap = if is_nonpos cap then (einval, [], []) else user_scan fs idx (pos_part cap)
