-- ===== src/Audit.antt =====
-- kernel/audit.c: each agent's tool log, bounded by a quota and compacted to its last lines. An agent
-- is its number.
pub mod Laws
use open_agent_os.Prelude.{
  ℕ, zero, suc, ◌+◌, ◌-◌, ◌/◌, ◌%◌, ◌<◌, Bool, true, false, not, ◌&&◌, List, [], ◌∷◌, ◌++◌, ℤ, pos,
  negsuc, is_neg, is_nonpos, is_zero, int_eq, ltb, leb, ◌==◌, if◌then◌else◌, pos_part, length, take,
  drop, get_or,
}
use open_agent_os.Abi.{eperm, einval, enospc, eio}
use open_agent_os.Bytes.{Str, str_eq}
use open_agent_os.Decimal.{decimal_int}
use open_agent_os.Paths.{id_after}
use open_agent_os.Ramfs.{Files, file_size, read, put}
use open_agent_os.Usage.{usage}

abbrev pub quota_bytes : ℕ
quota_bytes = 512

abbrev pub tail_max : ℕ
tail_max = 128

abbrev pub compact_max_lines : ℕ
compact_max_lines = 256

-- "audit/agent/"
abbrev pub audit_prefix : Str
audit_prefix =
    b'a' ∷ b'u' ∷ b'd' ∷ b'i' ∷ b't' ∷ b'/' ∷ b'a' ∷ b'g' ∷ b'e' ∷ b'n' ∷ b't' ∷ b'/' ∷ []

-- "/tool.log"
abbrev pub tool_log : Str
tool_log = b'/' ∷ b't' ∷ b'o' ∷ b'o' ∷ b'l' ∷ b'.' ∷ b'l' ∷ b'o' ∷ b'g' ∷ []

unfoldable pub parse_audit_agent_id : Str → ℤ
parse_audit_agent_id path = id_after audit_prefix (λ rest. str_eq rest tool_log) path

unfoldable pub path_for : ℤ → Str
path_for id = b'/' ∷ (audit_prefix ++ (decimal_int id ++ tool_log))

unfoldable pub audit_usage : Files → ℕ → ℕ
audit_usage fs a = usage fs (path_for (pos a))

unfoldable pub allow_append : Files → ℕ → ℤ → ℤ
allow_append fs a add_bytes =
    if is_neg add_bytes
    then einval
    else (if ltb quota_bytes (audit_usage fs a + pos_part add_bytes) then enospc else pos 0)

unfoldable pub path_ok : ℕ → Str → Bool
path_ok a path =
    let id = parse_audit_agent_id path in if is_neg id then false else int_eq id (pos a)

unfoldable pub probe_cross_read : Files → ℕ → ℤ → ℤ
probe_cross_read fs a target =
    if int_eq target (pos a)
    then pos 0
    else (let path = path_for target in
        let rc = (read fs path 0 (pos 15)).0 in
        if not (path_ok a path) then eperm else (if is_neg rc then rc else pos 0))

-- The part of `audit_write` behind the quota test, for a log that is there.
unfoldable pub extend : Files → ℕ → ℕ → List ℕ → ℕ → ℤ × Files
extend fs a used src n =
    let (rc, old) = read fs (path_for (pos a)) 0 (pos used) in
    if is_neg rc
    then (rc, fs)
    else put fs (path_for (pos a)) (old ++ take n src) (pos (pos_part rc + n))

unfoldable pub write : Files → ℕ → List ℕ → ℤ → ℤ × Files
write fs a src len =
    let rc = allow_append fs a len in
    let used = audit_usage fs a in
    if is_nonpos len
    then (einval, fs)
    else (if not (is_zero rc)
        then (rc, fs)
        else (if used == 0
            then put fs (path_for (pos a)) src len
            else (if leb file_size (used + pos_part len)
                then (enospc, fs)
                else extend fs a used src (pos_part len))))

-- `line_starts`, behind its first entry: `count` entries are there, and byte `i` comes next.
unfoldable pub line_starts : ℕ → ℕ → List ℕ → List ℕ
line_starts count i [] = []
line_starts count i (b ∷ []) = []
line_starts count i (b ∷ c ∷ bs) =
    let found = (i + 1) ∷ line_starts (count + 1) (i + 1) (c ∷ bs) in
    let passed = line_starts count (i + 1) (c ∷ bs) in
    if b == b'\n' && ltb count (compact_max_lines - 1) then found else passed

unfoldable pub clamp_keep : ℤ → ℕ
clamp_keep (negsuc n) = 1
clamp_keep (pos n) = if ltb n 1 then 1 else (if ltb 32 n then 32 else n)

-- "compact: <keep>" and a newline.
unfoldable pub compact_head : ℕ → List ℕ
compact_head keep =
    b'c'
    ∷ b'o'
    ∷ b'm'
    ∷ b'p'
    ∷ b'a'
    ∷ b'c'
    ∷ b't'
    ∷ b':'
    ∷ b' '
    ∷ ((if leb 10 keep then (48 + keep / 10) ∷ [] else []) ++ (48 + keep % 10) ∷ b'\n' ∷ [])

-- The text that `audit_compact` writes.
unfoldable pub compact_text : ℕ → ℕ → List ℕ → List ℕ
compact_text keep start bs =
    compact_head keep ++ take (file_size - 1 - length (compact_head keep)) (drop start bs)

-- The count, or the measure of the log if it was short enough; and the files.
unfoldable pub compact : Files → ℕ → ℤ → ℤ × Files
compact fs a keep_lines =
    let keep = clamp_keep keep_lines in
    let (n, bs) = read fs (path_for (pos a)) 0 (pos file_size) in
    let starts = 0 ∷ line_starts 1 0 bs in
    let text = compact_text keep (get_or starts (length starts - keep) 0) bs in
    if is_nonpos n
    then (pos 0, fs)
    else (if leb (length starts) keep
        then (pos (audit_usage fs a), fs)
        else (pos (length text), (put fs (path_for (pos a)) text (pos (length text))).1))

unfoldable pub clamp_tail : ℤ → ℕ
clamp_tail (negsuc n) = tail_max
clamp_tail (pos n) = if n == 0 then tail_max else (if ltb tail_max n then tail_max else n)

-- The status, and the bytes that are printed.
unfoldable pub tail : Files → ℕ → ℤ → ℤ × List ℕ
tail fs a max_bytes =
    let used = audit_usage fs a in
    let (n, bs) =
      read fs (path_for (pos a)) (used - clamp_tail max_bytes) (pos (clamp_tail max_bytes)) in
    if used == 0
    then (pos 0, [])
    else (if is_nonpos n then ((if is_neg n then n else eio), []) else (n, bs))
