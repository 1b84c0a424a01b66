-- ===== src/Policy.antt =====
-- kernel/policy.c: the tools that are denied, the hosts that are allowed, and the file of rules. The
-- agent that a call names is only printed and does not appear; nor do the calls that only print.
pub mod Tools
pub mod Net
pub mod Load
pub mod Parse
mod Tests
use open_agent_os.Prelude.{
  ℕ, zero, suc, ◌+◌, ◌-◌, ◌*◌, ◌%◌, ◌^◌, Bool, true, false, not, ◌&&◌, ◌||◌, List, [], ◌∷◌, ◌++◌, ℤ,
  pos, negsuc, is_neg, pos_part, ltb, leb, ◌==◌, if◌then◌else◌, take, drop, length, of_u32,
}
use open_agent_os.Abi.{
  einval, eperm, enospc, tool_policy, tool_fleet, tool_remote, tool_mesh, tool_quota,
}
use open_agent_os.Bytes.{Str, char_at, str_eq, starts_with}
use open_agent_os.Paths.{is_digit, parse_digits}
use open_agent_os.Ramfs.{Files, file_size, read, put, path_exists}

-- include/policy.h, POLICY_DENY_MAX
abbrev pub deny_max : ℕ
deny_max = 16

-- include/policy.h, POLICY_NET_ALLOW_MAX
abbrev pub net_allow_max : ℕ
net_allow_max = 8

-- An entry of `net_allow_host[]` and `net_allow_port[]`.
pub record Allowed : Type 0 where
  pub host : Str
  pub port : ℕ

-- `deny_tools[]`, whose entries are never negative, the allowed hosts, each array up to its count, and
-- `net_restrict`.
pub record Policy : Type 0 where
  pub deny_tools : List ℕ
  pub net_allowed : List Allowed
  pub net_restrict : Bool

abbrev pub policy_active : Str
policy_active =
    b'/' ∷ b's' ∷ b'y' ∷ b's' ∷ b'/' ∷ b'p' ∷ b'o' ∷ b'l' ∷ b'i' ∷ b'c' ∷ b'y' ∷ b'/' ∷ b'a' ∷ b'c'
    ∷ b't' ∷ b'i' ∷ b'v' ∷ b'e' ∷ []

unfoldable pub deny_has : List ℕ → ℕ → Bool
deny_has [] tool = false
deny_has (t ∷ ts) tool = t == tool || deny_has ts tool

-- `policy_exempt`
unfoldable pub is_exempt : ℕ → Bool
is_exempt tool =
    tool == tool_policy
    || tool == tool_fleet
    || tool == tool_remote
    || tool == tool_mesh
    || tool == tool_quota

-- `policy_init`, with the file of rules that it makes if there is none.
unfoldable pub init : Files → Policy × Files
init fs = (
  record { deny_tools = []; net_allowed = []; net_restrict = false },
  if path_exists fs policy_active
      then fs
      else (put fs policy_active (b'd' ∷ b'e' ∷ b'n' ∷ b'y' ∷ 32 ∷ b'1' ∷ b'0' ∷ 10 ∷ [])
          (pos 8)).1,
)

-- `policy_deny_tool` for a tool that is not negative.
unfoldable pub deny : Policy → ℕ → ℤ × Policy
deny p tool =
    if ltb 31 tool
    then (einval, p)
    else (if is_exempt tool
        then (einval, p)
        else (if deny_has p.deny_tools tool
            then (pos 0, p)
            else (if leb deny_max (length p.deny_tools)
                then (enospc, p)
                else (pos 0, record p { deny_tools = p.deny_tools ++ tool ∷ [] }))))

unfoldable pub deny_tool : Policy → ℤ → ℤ × Policy
deny_tool p (pos tool) = deny p tool
deny_tool p (negsuc n) = (einval, p)

-- The loops of `policy_allow_tool`: the first entry for this tool goes.
unfoldable pub without : List ℕ → ℕ → List ℕ
without [] tool = []
without (t ∷ ts) tool = if t == tool then ts else t ∷ without ts tool

unfoldable pub allow_tool : Policy → ℤ → ℤ × Policy
allow_tool p (pos tool) = (pos 0, record p { deny_tools = without p.deny_tools tool })
allow_tool p (negsuc n) = (pos 0, p)

unfoldable pub tool_allow : Policy → ℤ → ℤ
tool_allow p (pos tool) =
    if is_exempt tool then pos 0 else (if deny_has p.deny_tools tool then eperm else pos 0)
tool_allow p (negsuc n) = pos 0

unfoldable pub net_set_restrict : Policy → Bool → ℤ × Policy
net_set_restrict p on = (if on then pos 1 else pos 0, record p { net_restrict = on })

-- The loops over the allowed hosts.
unfoldable pub net_has : List Allowed → Str → ℕ → Bool
net_has [] host port = false
net_has (a ∷ as_) host port = a.port == port && str_eq a.host host || net_has as_ host port

unfoldable pub net_add_allow : Policy → Str → ℕ → ℤ × Policy
net_add_allow p host port =
    if length host == 0 || port == 0
    then (einval, p)
    else (if net_has p.net_allowed host port
        then (pos 0, p)
        else (if leb net_allow_max (length p.net_allowed) then (enospc, p) else (
          pos 0,
          record p {
            net_allowed = p.net_allowed ++ record { host = take 47 host; port = port } ∷ [];
          },
        )))

unfoldable pub net_allow : Policy → Str → ℕ → ℤ
net_allow p host port =
    if length host == 0
    then einval
    else (if not p.net_restrict || length p.net_allowed == 0
        then pos 0
        else (if net_has p.net_allowed host port then pos 0 else eperm))

-- `while (*walk == ' ' || *walk == '\t') walk++;`
unfoldable pub skip_blanks : Str → Str
skip_blanks [] = []
skip_blanks (c ∷ cs) = if c == 32 || c == 9 then skip_blanks cs else c ∷ cs

-- The loop over the host name, with room for this many bytes: the name and the rest of the line.
unfoldable pub take_host : ℕ → Str → Str × Str
take_host zero line = ([], line)
take_host (suc n) [] = ([], [])
take_host (suc n) (c ∷ cs) =
    let (host, rest) = take_host n cs in
    if c == b':' || c == 32 then ([], c ∷ cs) else (c ∷ host, rest)

-- The loop over the digits of the port; -1 if it grows too large.
unfoldable pub parse_port : ℕ → Str → ℤ
parse_port port [] = pos port
parse_port port (c ∷ cs) =
    let port' = port * 10 + (c - 48) in
    let rest = parse_port port' cs in
    if is_digit c then (if ltb 65535 port' then negsuc 0 else rest) else pos port

-- `policy_parse_net_allow` after "allow".
unfoldable pub parse_allow : Policy → Str → ℤ × Policy
parse_allow p line =
    let (host, rest) = take_host 47 (skip_blanks line) in
    let port = if char_at rest 0 == b':' then parse_port 0 (drop 1 rest) else pos 0 in
    if length host == 0 || is_neg port
    then (negsuc 0, p)
    else net_add_allow p host (if pos_part port == 0 then 443 else pos_part port)

-- `policy_parse_net_allow` after "rest".
unfoldable pub parse_restrict : Policy → Str → ℤ × Policy
parse_restrict p line =
    let word = skip_blanks line in
    if starts_with word (b'r' ∷ b'i' ∷ b'c' ∷ b't' ∷ [])
    then net_set_restrict p true
    else (if starts_with word (b'o' ∷ b'p' ∷ b'e' ∷ b'n' ∷ [])
        then net_set_restrict p false
        else (pos 0, p))

-- `policy_parse_net_allow`
unfoldable pub parse_net_allow : Policy → Str → ℤ × Policy
parse_net_allow p line =
    let word = skip_blanks line in
    let next = skip_blanks (drop 3 word) in
    if starts_with word (b'n' ∷ b'e' ∷ b't' ∷ [])
    then (if starts_with next (b'r' ∷ b'e' ∷ b's' ∷ b't' ∷ [])
        then parse_restrict p (drop 4 next)
        else (if starts_with next (b'a' ∷ b'l' ∷ b'l' ∷ b'o' ∷ b'w' ∷ [])
            then parse_allow p (drop 5 next)
            else (pos 0, p)))
    else (pos 0, p)

-- `policy_parse_line` after "deny"; the number is summed up in an `int`.
unfoldable pub parse_deny : Policy → Str → ℤ × Policy
parse_deny p line =
    let word = skip_blanks line in
    if is_digit (char_at word 0)
    then deny_tool p (of_u32 (parse_digits 0 word).0)
    else (negsuc 0, p)

-- `policy_parse_line`
unfoldable pub parse_line : Policy → Str → ℤ × Policy
parse_line p line =
    let word = skip_blanks line in
    if starts_with word (b'n' ∷ b'e' ∷ b't' ∷ [])
    then parse_net_allow p line
    else (if starts_with word (b'd' ∷ b'e' ∷ b'n' ∷ b'y' ∷ [])
        then parse_deny p (drop 4 word)
        else (pos 0, p))

-- The lines of the buffer: what stands between line ends and terminators.
unfoldable pub lines_of : Str → List Str
lines_of [] = [] ∷ []
lines_of (c ∷ cs) =
    if c == 10 || c == 0
    then [] ∷ lines_of cs
    else (elim (lines_of cs) [ [] ↦ [] | line ∷ rest ↦ (c ∷ line) ∷ rest ])

-- The rules of these lines, one after the other; empty lines are passed over.
unfoldable pub parse_lines : Policy → List Str → Policy
parse_lines p [] = p
parse_lines p ([] ∷ rest) = parse_lines p rest
parse_lines p ((c ∷ cs) ∷ rest) = parse_lines (parse_line p (c ∷ cs)).1 rest

-- `policy_load` of a path that is not empty; an empty one stands for `policy_active`.
unfoldable pub load : Policy → Files → Str → ℤ × Policy
load p fs path =
    let (len, buf) =
      read fs (if length path == 0 then policy_active else path) 0 (pos (file_size - 1)) in
    let p' = parse_lines (record p { deny_tools = [] }) (lines_of buf) in
    if is_neg len then (len, p) else (pos (length p'.deny_tools), p')
