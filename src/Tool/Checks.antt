-- ===== src/Tool/Checks.antt =====
-- kernel/tool.c: the `check` functions of the tools for files, numbers, pins and sessions.
use open_agent_os.Prelude.{
  ℕ, ◌+◌, ◌-◌, ◌^◌, Bool, true, false, not, ◌&&◌, ◌||◌, [], ◌∷◌, ℤ, pos, negsuc, is_neg, is_zero,
  is_nonpos, pos_part, int_eq, of_u32, ltb, leb, ◌==◌, if◌then◌else◌, drop, Option, none, some,
}
use open_agent_os.Abi.{einval, eperm, efault}
use open_agent_os.Bytes.{Str, char_at, starts_with, until_nul}
use open_agent_os.Paths.{parse_digits}
use open_agent_os.Ramfs.{path_max}
use open_agent_os.Uaccess.{UserMem, user_strnlen, copy_from_user}
use open_agent_os.Kernel.{agent_at, has_cap}
use open_agent_os.Audit as Trail
use open_agent_os.Namespace as Home
use open_agent_os.Tenant.{session_path_ok}
use open_agent_os.Tool.{Sys, Args}

abbrev pub cap_svc_storage : ℕ
cap_svc_storage = 8

-- The `long` that a 64-bit pattern stands for.
abbrev pub of_u64 : ℕ → ℤ
of_u64 w = if ltb w (2 ^ 63) then pos w else negsuc (2 ^ 64 - 1 - w)

-- `read_path_from_user`: the status and the path. A string without a terminator in the array of 64 bytes
-- ends here with the array.
unfoldable pub read_path_from_user : Option UserMem → ℕ → ℤ × Str
read_path_from_user um ua =
    let len = user_strnlen um ua (path_max - 1) in
    if is_neg len
    then (efault, [])
    else (if is_nonpos len || leb path_max (pos_part len)
        then (einval, [])
        else (elim (copy_from_user um ua (pos_part len + 1)) [
          | none ↦ (efault, [])
          | some bs ↦ (pos 0, until_nul (pos_part len + 1) bs)
        ]))

unfoldable pub is_audit_path : Str → Bool
is_audit_path path = starts_with (drop 1 path) (b'a' ∷ b'u' ∷ b'd' ∷ b'i' ∷ b't' ∷ b'/' ∷ [])

unfoldable pub is_sys : Str → Bool
is_sys path = starts_with (drop 1 path) (b's' ∷ b'y' ∷ b's' ∷ [])

unfoldable pub is_agent_path : Str → Bool
is_agent_path path = starts_with (drop 1 path) (b'a' ∷ b'g' ∷ b'e' ∷ b'n' ∷ b't' ∷ b'/' ∷ [])

unfoldable pub is_session_path : Str → Bool
is_session_path path =
    starts_with (drop 1 path) (b's' ∷ b'e' ∷ b's' ∷ b's' ∷ b'i' ∷ b'o' ∷ b'n' ∷ b'/' ∷ [])

unfoldable pub storage_path_ok : Str → Bool → ℤ
storage_path_ok path write =
    if not (char_at path 0 == b'/')
    then einval
    else (if is_audit_path path || Home.is_path path
        then eperm
        else (if is_sys path
            then (if write then eperm else pos 0)
            else (if is_agent_path path || is_session_path path then pos 0 else eperm)))

-- The last part of `policy_fs_read` and `policy_fs_write`: the number after "/agent/".
unfoldable pub own_agent_path : ℕ → Str → ℤ
own_agent_path i path =
    let (id, rest) = parse_digits 0 (drop 7 path) in
    if not (char_at rest 0 == b'/')
    then einval
    else (if int_eq (of_u32 id) (pos i) then pos 0 else eperm)

-- `policy_fs_read` for an agent without CAP_SVC_STORAGE, of a path that is no log and no home.
unfoldable pub check_own_read : ℕ → Str → ℤ
check_own_read i path =
    if not (char_at path 0 == b'/')
    then einval
    else (if is_sys path
        then pos 0
        else (if is_session_path path
            then (if session_path_ok i path then pos 0 else eperm)
            else (if is_agent_path path then own_agent_path i path else eperm)))

-- `policy_fs_read` of a path.
unfoldable pub check_read_path : Bool → ℕ → Str → ℤ
check_read_path storage i path =
    if is_audit_path path
    then (if Trail.path_ok i path then pos 0 else eperm)
    else (if Home.is_path path
        then (if Home.path_ok i path then pos 0 else eperm)
        else (if storage then storage_path_ok path false else check_own_read i path))

-- `policy_fs_write` of a path.
unfoldable pub check_write_path : Bool → ℕ → Str → ℤ
check_write_path storage i path =
    if is_audit_path path
    then eperm
    else (if Home.is_path path
        then (if Home.path_ok i path then pos 0 else eperm)
        else (if storage
            then storage_path_ok path true
            else (if is_sys path
                then eperm
                else (if is_agent_path path then own_agent_path i path else eperm))))

-- `policy_fs_read`
unfoldable pub check_read : Sys → ℕ → Args → ℤ
check_read s i args =
    let (rc, path) = read_path_from_user (agent_at s.kernel i).mem args.arg0 in
    if is_zero rc
    then check_read_path (has_cap (agent_at s.kernel i) cap_svc_storage) i path
    else einval

-- `policy_fs_write`
unfoldable pub check_write : Sys → ℕ → Args → ℤ
check_write s i args =
    let (rc, path) = read_path_from_user (agent_at s.kernel i).mem args.arg0 in
    if is_zero rc
    then check_write_path (has_cap (agent_at s.kernel i) cap_svc_storage) i path
    else einval

-- `-1000000 <= x && x <= 1000000`
unfoldable pub is_summand : ℤ → Bool
is_summand (pos n) = leb n 1000000
is_summand (negsuc n) = ltb n 1000000

-- `policy_add`
unfoldable pub check_add : Sys → ℕ → Args → ℤ
check_add s i args =
    if is_summand (of_u64 args.arg0) && is_summand (of_u64 args.arg1) then pos 0 else einval

-- `policy_session`
unfoldable pub check_session : Sys → ℕ → Args → ℤ
check_session s i args = if args.arg0 == 0 then einval else pos 0

-- `policy_gpio`
unfoldable pub check_gpio : Sys → ℕ → Args → ℤ
check_gpio s i args = if leb args.arg0 63 && leb args.arg1 1 then pos 0 else einval
