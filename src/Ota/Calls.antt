-- ===== src/Ota/Calls.antt =====
-- kernel/ota.c: the calls with pointers of user programs, and the update channel.
use open_agent_os.Prelude.{
  ℕ, ◌+◌, ◌-◌, ◌||◌, List, [], ◌∷◌, ℤ, pos, negsuc, is_nonpos, is_zero, pos_part, ◌==◌,
  if◌then◌else◌, Option, none, some,
}
use open_agent_os.Abi.{einval, eperm, enospc, efault, cap_fs}
use open_agent_os.Bytes.{Str, until_nul}
use open_agent_os.Ramfs.{Files, read, put}
use open_agent_os.Mem.{Heap}
use open_agent_os.Uaccess.{UserMem, user_strnlen, copy_from_user}
use open_agent_os.Kernel.{Agent, has_cap}
use open_agent_os.Ota.{channel_path, verify_kpath, apply_kpath}

-- The string at a user address with room for `max` bytes and the terminator; `none` is a fault or an
-- empty string.
unfoldable pub user_string : Option UserMem → ℕ → ℕ → Option Str
user_string um ua max =
    let len = user_strnlen um ua max in
    if is_nonpos len then none else (elim (copy_from_user um ua (pos_part len + 1)) [
      | none ↦ none
      | some bs ↦ some (until_nul (pos_part len + 1) bs)
    ])

-- `ota_init`
unfoldable pub init : Files → Files
init fs =
    if is_nonpos (read fs channel_path 0 (pos 15)).0
    then (put fs channel_path (b's' ∷ b't' ∷ b'a' ∷ b'b' ∷ b'l' ∷ b'e' ∷ []) (pos 6)).1
    else fs

-- `ota_channel_set`; a `channel` that is NULL is told apart from an empty string and a fault.
unfoldable pub channel_set : Option UserMem → Files → ℕ → ℤ × Files
channel_set um fs channel =
    let len = user_strnlen um channel 15 in
    if channel == 0 || is_nonpos len
    then (einval, fs)
    else (elim (copy_from_user um channel (pos_part len + 1)) [
      | none ↦ (efault, fs)
      | some bs ↦
          let (rc, fs') = put fs channel_path bs len in
          if is_zero rc then (pos 0, fs') else (enospc, fs')
    ])

-- `ota_channel_get` into a buffer of the kernel: the status and the bytes before the terminator.
unfoldable pub channel_get : Files → ℤ → ℤ × List ℕ
channel_get fs (negsuc n) = (einval, [])
channel_get fs (pos buflen) =
    if buflen == 0 then (einval, []) else read fs channel_path 0 (pos (buflen - 1))

module _ (sha256 : List ℕ → List ℕ) where
  -- `ota_verify_package`
  unfoldable pub verify_package : (ℕ → ℕ) → Heap → Option UserMem → Files → ℕ → ℤ
  verify_package mem heap um fs path =
      if path == 0 then einval else (elim (user_string um path 63) [
        | none ↦ efault
        | some kpath ↦ verify_kpath sha256 mem heap fs kpath
      ])

  -- `ota_apply_package`
  unfoldable pub apply_package :
      (ℕ → ℕ) → Heap → Option (ℕ × Agent) → Option UserMem → Files → ℕ → ℤ × Files
  apply_package mem heap none um fs path = (eperm, fs)
  apply_package mem heap (some (id, a)) um fs path =
      if has_cap a cap_fs
      then (if path == 0 then (einval, fs) else (elim (user_string um path 63) [
        | none ↦ (efault, fs)
        | some kpath ↦ apply_kpath sha256 mem heap (some (id, a)) fs kpath
      ]))
      else (eperm, fs)
