-- ===== src/Namespace.antt =====
-- kernel/namespace.c: each agent's home directory /ns/agent/<id>/home, its path test and its quota.
-- An agent is its number; the kernel passes no null agent here. `digits[8]` in `namespace_root_for`
-- holds the digits of any number below 10 ^ 8; the model has no such limit.
pub mod Isolation
use open_agent_os.Prelude.{
  ℕ, ◌+◌, ◌-◌, ◌≤◌, Bool, true, false, ◌&&◌, not, List, [], ◌∷◌, ◌++◌, ℤ, pos, negsuc, is_nonpos,
  is_neg, int_eq, ltb, if◌then◌else◌, take, length, pos_part,
}
use open_agent_os.Abi.{eperm, einval, enospc}
use open_agent_os.Bytes.{Str, char_at, starts_with}
use open_agent_os.Decimal.{decimal_int}
use open_agent_os.Paths.{id_after}
use open_agent_os.Ramfs.{Files, path_max, read, put}
use open_agent_os.Usage.{usage}

abbrev pub home_quota : ℕ
home_quota = 256

-- "ns/agent/"
abbrev pub ns_prefix : Str
ns_prefix = b'n' ∷ b's' ∷ b'/' ∷ b'a' ∷ b'g' ∷ b'e' ∷ b'n' ∷ b't' ∷ b'/' ∷ []

-- "/home/"
abbrev pub home_dir : Str
home_dir = b'/' ∷ b'h' ∷ b'o' ∷ b'm' ∷ b'e' ∷ b'/' ∷ []

-- "secret"
abbrev pub secret : Str
secret = b's' ∷ b'e' ∷ b'c' ∷ b'r' ∷ b'e' ∷ b't' ∷ []

unfoldable pub parse_namespace_agent_id : Str → ℤ
parse_namespace_agent_id path = id_after ns_prefix (λ rest. starts_with rest home_dir) path

unfoldable pub is_path : Str → Bool
is_path path = starts_with path (b'/' ∷ b'n' ∷ b's' ∷ b'/' ∷ [])

unfoldable pub root_for : ℤ → Str
root_for id = b'/' ∷ (ns_prefix ++ (decimal_int id ++ b'/' ∷ b'h' ∷ b'o' ∷ b'm' ∷ b'e' ∷ []))

-- The name is cut where the path array ends.
unfoldable pub file_for : ℤ → Str → Str
file_for id name = root_for id ++ b'/' ∷ take (path_max - 1 - (length (root_for id) + 1)) name

unfoldable pub home_usage : Files → ℕ → ℕ
home_usage fs a = usage fs (file_for (pos a) secret)

unfoldable pub path_ok : ℕ → Str → Bool
path_ok a path =
    let id = parse_namespace_agent_id path in
    if is_path path then (if is_neg id then false else int_eq id (pos a)) else false

unfoldable pub write_secret : Files → ℕ → List ℕ → ℤ → ℤ × Files
write_secret fs a src len =
    if is_nonpos len
    then (einval, fs)
    else (if ltb home_quota (home_usage fs a + pos_part len)
        then (enospc, fs)
        else put fs (file_for (pos a) secret) src len)

unfoldable pub probe_cross_read : Files → ℕ → ℤ → ℤ
probe_cross_read fs a target =
    if int_eq target (pos a)
    then pos 0
    else (let path = file_for target secret in
        let rc = (read fs path 0 (pos 31)).0 in
        if not (path_ok a path) then eperm else (if is_neg rc then rc else pos 0))

unfoldable pub status : Files → ℕ → ℤ
status fs a = pos (home_usage fs a)
