-- ===== src/Session.antt =====
-- kernel/session.c: an agent's session log, a file of lines. An agent is its number; where a function
-- posts to the agent's inbox it takes the inbox too. The texts come without their terminators.
pub mod Lines
pub mod Log
pub mod Compact
use open_agent_os.Prelude.{
  ℕ, zero, suc, ◌+◌, ◌-◌, ◌≤◌, Bool, true, false, not, List, [], ◌∷◌, ◌++◌, ℤ, pos, negsuc, is_neg,
  is_nonpos, ◌&&◌, ◌||◌, is_zero, int_eq, ltb, leb, ◌==◌, if◌then◌else◌, pos_part, length, take,
  drop, get_or, replicate,
}
use open_agent_os.Abi.{einval, enoent, enospc, eio, msg_summary, msg_payload_size, Msg}
use open_agent_os.Bytes.{Str, until_nul, copy_in}
use open_agent_os.Ramfs.{Files, file_size, read, write, at_start}
use open_agent_os.Tenant.{session_path, session_allow}
use open_agent_os.Ipc.{Msgbox, push}

abbrev pub line_max : ℕ
line_max = 192

-- `build_session_path`
unfoldable pub build_session_path : ℕ → Str
build_session_path a = session_path (pos a)

-- The write at the end of `session_append`.
unfoldable pub store_line : Files → ℕ → ℕ → List ℕ → Str → ℤ × Files
store_line fs a old_len buf line =
    let (rc, fs') =
      write fs (build_session_path a) at_start (buf ++ line) (pos (old_len + length line)) in
    if is_neg rc then (eio, fs') else (pos (length line), fs')

-- `session_append` once the old log is read.
unfoldable pub append_line : Files → ℕ → ℕ → List ℕ → Str → ℤ × Files
append_line fs a old_len buf line =
    if not (is_zero (session_allow fs a (pos (old_len + length line))))
    then (enospc, fs)
    else (if leb file_size (old_len + length line)
        then (enospc, fs)
        else store_line fs a old_len buf line)

unfoldable pub append : Files → ℕ → Str → ℤ × Files
append fs a text =
    let line = take (line_max - 4) text ++ b'\n' ∷ [] in
    let (old_len, buf) = read fs (build_session_path a) 0 (pos (file_size - 2)) in
    if length text == 0
    then (einval, fs)
    else (if is_neg old_len && not (int_eq old_len enoent)
        then (old_len, fs)
        else append_line fs a (pos_part old_len) buf line)

-- The bytes up to the first terminator, newline or limit.
unfoldable pub first_line : ℕ → List ℕ → List ℕ
first_line zero bs = []
first_line (suc n) [] = []
first_line (suc n) (b ∷ bs) = if b == 0 || b == b'\n' then [] else b ∷ first_line n bs

-- `while (start > 0 && data[start - 1] != '\n') start--;`
unfoldable pub back_to_line : List ℕ → ℕ → ℕ
back_to_line bs zero = zero
back_to_line bs (suc n) =
    let before = back_to_line bs n in if get_or bs n 0 == b'\n' then suc n else before

-- The status, and the string that is left in `buf`.
unfoldable pub tail : Files → ℕ → ℤ → ℤ × Str
tail fs a buflen =
    let (len, bs) = read fs (build_session_path a) 0 (pos (file_size - 1)) in
    let start = back_to_line bs (length bs - 1) in
    let out = first_line (pos_part buflen - 1) (drop start bs) in
    if is_nonpos buflen
    then (einval, [])
    else (if is_neg len
        then (if int_eq len enoent then (pos 0, []) else (len, []))
        else (if is_zero len then (pos 0, []) else (pos (length out), out)))

unfoldable pub newlines : List ℕ → ℕ
newlines [] = 0
newlines (b ∷ bs) = (if b == b'\n' then 1 else 0) + newlines bs

-- A last line without a newline counts too.
unfoldable pub count_lines : List ℕ → ℕ
count_lines bs =
    if length bs == 0
    then 0
    else newlines bs + (if get_or bs (length bs - 1) 0 == b'\n' then 0 else 1)

-- The bytes of the first line, its newline included.
unfoldable pub line_length : List ℕ → ℕ
line_length [] = 0
line_length (b ∷ bs) = let rest = line_length bs in if b == b'\n' then 1 else suc rest

-- Where the line of this rank starts.
unfoldable pub line_start_at : List ℕ → ℕ → ℕ
line_start_at bs zero = 0
line_start_at bs (suc n) = line_length bs + line_start_at (drop (line_length bs) bs) n

-- `session_read`: the status, and the string that is left in `buf`.
unfoldable pub read_lines : Files → ℕ → ℤ → ℤ → ℤ × Str
read_lines fs a buflen max_lines =
    let (len, bs) = read fs (build_session_path a) 0 (pos (file_size - 1)) in
    let total = count_lines bs in
    let start =
      if is_nonpos max_lines
      then 0
      else (if ltb (pos_part max_lines) total
          then line_start_at bs (total - pos_part max_lines)
          else 0) in
    let out = until_nul (pos_part buflen - 1) (drop start bs) in
    if is_nonpos buflen
    then (einval, [])
    else (if is_neg len
        then (if int_eq len enoent then (pos 0, []) else (len, []))
        else (if is_zero len then (pos 0, []) else (pos (length out), out)))

unfoldable pub summary_byte : ℕ → ℕ
summary_byte b = if b == b'\n' then b';' else b

unfoldable pub map_bytes : (ℕ → ℕ) → List ℕ → List ℕ
map_bytes f [] = []
map_bytes f (b ∷ bs) = f b ∷ map_bytes f bs

-- "summary: " and the dropped bytes, up to 222 bytes in all, as the string that the array holds.
unfoldable pub summary_text : List ℕ → ℕ → Str
summary_text bs start =
    let head = b's' ∷ b'u' ∷ b'm' ∷ b'm' ∷ b'a' ∷ b'r' ∷ b'y' ∷ b':' ∷ b' ' ∷ [] in
    until_nul msg_payload_size
      (head ++ map_bytes summary_byte (take (msg_payload_size - 2 - 9) (take start bs)))

-- The new text of the log: the summary as a line, then the lines kept, within the buffer.
unfoldable pub compacted : List ℕ → ℕ → List ℕ
compacted bs start =
    let summary = take (file_size - 2) (summary_text bs start) in
    let line = summary ++ b'\n' ∷ [] in line ++ take (file_size - 1 - length line) (drop start bs)

unfoldable pub summary_msg : Str → Msg
summary_msg text = record {
  sender_id = pos 0;
  kind = msg_summary;
  payload = copy_in (replicate msg_payload_size 0) 0 (take (msg_payload_size - 1) text);
}

-- The part of `session_compact` after the lines to drop are known.
unfoldable pub compact_at : Files → ℕ → Msgbox → List ℕ → ℕ → ℕ → ℤ × Files × Msgbox
compact_at fs a inbox bs start dropped =
    let text = compacted bs start in
    let (rc, fs') = write fs (build_session_path a) at_start text (pos (length text)) in
    let (posted, inbox') = push inbox (summary_msg (summary_text bs start)) in
    if is_neg rc
    then (eio, fs', inbox)
    else (if is_zero posted then (pos dropped, fs', inbox') else (enospc, fs', inbox'))

unfoldable pub compact : Files → ℕ → Msgbox → ℤ → ℤ × Files × Msgbox
compact fs a inbox keep =
    let (len, bs) = read fs (build_session_path a) 0 (pos (file_size - 1)) in
    let total = count_lines bs in
    let dropped = total - pos_part keep in
    if is_neg keep
    then (einval, fs, inbox)
    else (if is_neg len
        then (if int_eq len enoent then (pos 0, fs, inbox) else (len, fs, inbox))
        else (if is_zero len || leb total (pos_part keep)
            then (pos 0, fs, inbox)
            else compact_at fs a inbox bs (line_start_at bs dropped) dropped))
