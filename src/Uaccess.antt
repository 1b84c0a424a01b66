-- ===== src/Uaccess.antt =====
-- kernel/uaccess.c: the kernel's copies from and to the memory of the current agent.
pub mod Text
use open_agent_os.Prelude.{
  ℕ, zero, suc, ◌+◌, ◌-◌, ◌%◌, ◌^◌, Bool, true, false, ◌&&◌, List, [], ◌∷◌, ℤ, pos, ltb, leb, ◌==◌,
  if◌then◌else◌, get_or, length, Option, none, some,
}
use open_agent_os.Abi.{efault}
use open_agent_os.Vm.{PageTable, user_check}

-- The address space of an agent: its page table, and what a user address holds.
pub record UserMem : Type 0 where
  pub pt : PageTable
  pub byte : ℕ → ℕ

-- `user_access_ok`; an agent with no page table has `none`.
unfoldable pub access_ok : Option UserMem → ℕ → ℕ → Bool → Bool
access_ok none ua len write = false
access_ok (some m) ua len write = if ua == 0 then false else user_check m.pt ua len write

-- The bytes at these addresses; nothing without an address space.
unfoldable pub user_bytes : Option UserMem → ℕ → ℕ → List ℕ
user_bytes none ua len = []
user_bytes (some m) ua zero = []
user_bytes (some m) ua (suc n) = m.byte (ua % 2 ^ 64) ∷ user_bytes (some m) (ua + 1) n

-- `none` is EFAULT.
unfoldable pub copy_from_user : Option UserMem → ℕ → ℕ → Option (List ℕ)
copy_from_user m src len =
    if src == 0
    then none
    else (if len == 0
        then some []
        else (if access_ok m src len false then some (user_bytes m src len) else none))

-- The memory after `for (i = 0; i < len; i++) d[i] = s[i]`.
unfoldable pub store_bytes : Option UserMem → ℕ → List ℕ → Option UserMem
store_bytes none dst src = none
store_bytes (some m) dst src = some (record m {
  byte =
      λ va. if leb dst va && ltb va (dst + length src) then get_or src (va - dst) 0 else m.byte va;
})

-- `none` is EFAULT; otherwise the memory after the copy.
unfoldable pub copy_to_user : Option UserMem → ℕ → List ℕ → Option (Option UserMem)
copy_to_user m dst src =
    if dst == 0
    then none
    else (if length src == 0
        then some m
        else (if access_ok m dst (length src) true then some (store_bytes m dst src) else none))

-- The loop of `user_strnlen`, `rounds` bytes before `max`.
unfoldable pub strnlen_from : Option UserMem → ℕ → ℕ → ℕ → ℤ
strnlen_from m s zero n = pos n
strnlen_from m s (suc rounds) n =
    let later = strnlen_from m s rounds (n + 1) in
    if access_ok m ((s + n) % 2 ^ 64) 1 false
    then (elim (copy_from_user m ((s + n) % 2 ^ 64) 1) [
      | some (c ∷ cs) ↦ if c == 0 then pos n else later
      | _ ↦ efault
    ])
    else efault

unfoldable pub user_strnlen : Option UserMem → ℕ → ℕ → ℤ
user_strnlen m s max =
    let counted = strnlen_from m s max 0 in
    if s == 0 then efault else (if max == 0 then efault else counted)
