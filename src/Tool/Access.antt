-- ===== src/Tool/Access.antt =====
-- kernel/tool.c: which paths the tool for writing files lets through.
use open_agent_os.Prelude.{
  ℕ, ◌^◌, ◌<◌, ◌≡◌, ◌==◌, if◌then◌else◌, refl, false, ◌∷◌, ◌++◌, pos, arith, int_eq_iff, of_u32,
}
use open_agent_os.Abi.{eperm}
use open_agent_os.Bytes.{Str, starts_with}
use open_agent_os.Decimal.{decimal}
use open_agent_os.Paths.Numbers.{parse_digits-decimal}
use open_agent_os.Paths.{is_digit}
use open_agent_os.Namespace as Home
use open_agent_os.Namespace.Isolation.{path_ok-file_for}
use open_agent_os.Tool.Checks.{
  is_audit_path, is_sys, is_agent_path, own_agent_path, check_write_path,
}

-- "<c>agent/<n>/<name>"
abbrev pub agent_path : ℕ → ℕ → Str → Str
agent_path c n name = c ∷ b'a' ∷ b'g' ∷ b'e' ∷ b'n' ∷ b't' ∷ b'/' ∷ (decimal n ++ b'/' ∷ name)

check_write_path-agent_path :
    (i n c : ℕ) (name : Str)
    → n < 2 ^ 31
    → check_write_path false i (agent_path c n name) ≡ (if n == i then pos 0 else eperm)
unfolding check_write_path own_agent_path is_audit_path is_sys is_agent_path Home.is_path
    starts_with is_digit
check_write_path-agent_path i n c name small =
    let parsed = parse_digits-decimal n b'/' name (omega arith) refl in
    let signed : of_u32 n ≡ pos n = ground arith in
    ground (arith, parsed, signed, int_eq_iff (of_u32 n) (pos i))

check_write_path-file_for :
    (i n : ℕ) (name : Str)
    → n < 2 ^ 31
    → check_write_path false i (Home.file_for (pos n) name) ≡ (if n == i then pos 0 else eperm)
unfolding check_write_path is_audit_path Home.is_path Home.file_for Home.root_for starts_with
check_write_path-file_for i n name small = ground (arith, path_ok-file_for i n name small)

-- For two agent numbers i and n, n below 2 ^ 31, and any name, the tool for writing lets agent i, without
-- CAP_SVC_STORAGE, use the path /agent/<n>/<name>, and the path that is made for this name in the home
-- of agent n, exactly when i is n, and refuses it with EPERM otherwise.
pub check_write_path_own :
    (i n : ℕ) (name : Str)
    → n < 2 ^ 31
    → (check_write_path false i (agent_path b'/' n name) ≡ (if n == i then pos 0 else eperm))
      × (check_write_path false i (Home.file_for (pos n) name) ≡ (if n == i then pos 0 else eperm))
check_write_path_own i n name small =
    (check_write_path-agent_path i n b'/' name small, check_write_path-file_for i n name small)
