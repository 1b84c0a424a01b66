-- ===== src/Tenant.antt =====
-- kernel/tenant.c: the quota of an agent's session log and the test of session paths. An agent is its
-- number.
pub mod Paths
use open_agent_os.Prelude.{
  ℕ, ◌+◌, Bool, true, false, not, List, [], ◌∷◌, ◌++◌, ℤ, pos, negsuc, is_neg, int_eq, ltb,
  if◌then◌else◌, pos_part,
}
use open_agent_os.Abi.{eperm, einval, enospc}
use open_agent_os.Bytes.{Str, str_eq}
use open_agent_os.Decimal.{decimal_int}
use open_agent_os.Paths.{id_after}
use open_agent_os.Ramfs.{Files, read}
use open_agent_os.Usage.{usage}

abbrev pub session_quota : ℕ
session_quota = 640

-- "sessio/agent/", as the tests of `path[1]` to `path[13]` spell it
abbrev pub tested_prefix : Str
tested_prefix =
    b's' ∷ b'e' ∷ b's' ∷ b's' ∷ b'i' ∷ b'o' ∷ b'/' ∷ b'a' ∷ b'g' ∷ b'e' ∷ b'n' ∷ b't' ∷ b'/' ∷ []

-- "/log"
abbrev pub log_name : Str
log_name = b'/' ∷ b'l' ∷ b'o' ∷ b'g' ∷ []

unfoldable pub parse_session_agent_id : Str → ℤ
parse_session_agent_id path = id_after tested_prefix (λ rest. str_eq rest log_name) path

-- "session/agent/"
abbrev pub session_prefix : Str
session_prefix =
    b's' ∷ b'e' ∷ b's' ∷ b's' ∷ b'i' ∷ b'o' ∷ b'n' ∷ b'/' ∷ b'a' ∷ b'g' ∷ b'e' ∷ b'n' ∷ b't' ∷ b'/'
    ∷ []

-- The path that `tenant_session_usage` and `tenant_probe_cross_read` build.
unfoldable pub session_path : ℤ → Str
session_path id = b'/' ∷ (session_prefix ++ (decimal_int id ++ log_name))

unfoldable pub session_usage : Files → ℕ → ℕ
session_usage fs a = usage fs (session_path (pos a))

unfoldable pub session_allow : Files → ℕ → ℤ → ℤ
session_allow fs a add_bytes =
    if is_neg add_bytes
    then einval
    else (if ltb session_quota (session_usage fs a + pos_part add_bytes) then enospc else pos 0)

unfoldable pub session_path_ok : ℕ → Str → Bool
session_path_ok a path =
    let id = parse_session_agent_id path in if is_neg id then false else int_eq id (pos a)

unfoldable pub probe_cross_read : Files → ℕ → ℤ → ℤ
probe_cross_read fs a target =
    if int_eq target (pos a)
    then pos 0
    else (let path = session_path target in
        let rc = (read fs path 0 (pos 15)).0 in
        if not (session_path_ok a path) then eperm else (if is_neg rc then rc else pos 0))
