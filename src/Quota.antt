-- ===== src/Quota.antt =====
-- kernel/quota.c: what each agent may still send, call and create. The counters are fields of the
-- kernel's state, and an agent is given by its index.
use open_agent_os.Prelude.{ℕ, ◌+◌, ℤ, pos, int_eq, leb, [], ◌∷◌, if◌then◌else◌, get_or, set}
use open_agent_os.Abi.{max_agents, enospc}
use open_agent_os.Bytes.{Str, char_at}
use open_agent_os.Paths.{id_after}
use open_agent_os.Ramfs.{Files, path_exists, count_agent_files}
use open_agent_os.Kernel.{Kernel}

-- include/quota.h
abbrev pub ipc_max : ℕ
ipc_max = 16

abbrev pub tool_max : ℕ
tool_max = 128

abbrev pub fs_files : ℕ
fs_files = 32

abbrev pub agent_dir : Str
agent_dir = b'a' ∷ b'g' ∷ b'e' ∷ b'n' ∷ b't' ∷ b'/' ∷ []

abbrev pub ipc_used : Kernel → ℕ → ℕ
ipc_used k i = if leb max_agents i then 0 else get_or k.quota_ipc i 0

abbrev pub tool_used : Kernel → ℕ → ℕ
tool_used k i = if leb max_agents i then 0 else get_or k.quota_tool i 0

unfoldable pub ipc_allow : Kernel → ℕ → ℤ
ipc_allow k i = if leb ipc_max (ipc_used k i) then enospc else pos 0

unfoldable pub ipc_charge : Kernel → ℕ → Kernel
ipc_charge k i =
    if leb max_agents i
    then k
    else record k { quota_ipc = set k.quota_ipc i (get_or k.quota_ipc i 0 + 1) }

unfoldable pub tool_allow : Kernel → ℕ → ℤ
tool_allow k i = if leb tool_max (tool_used k i) then enospc else pos 0

unfoldable pub tool_charge : Kernel → ℕ → Kernel
tool_charge k i =
    if leb max_agents i
    then k
    else record k { quota_tool = set k.quota_tool i (get_or k.quota_tool i 0 + 1) }

-- A number of 2 ^ 31 or more is negative, but is not the error -1 unless it is 2 ^ 32 - 1; either way
-- it is no agent's.
unfoldable pub parse_agent_path_id : Str → ℤ
parse_agent_path_id path =
    id_after agent_dir (λ rest. int_eq (pos (char_at rest 0)) (pos b'/')) path

unfoldable pub fs_allow_new : Files → ℕ → Str → ℤ
fs_allow_new fs i path =
    if int_eq (pos (char_at path 0)) (pos b'/')
    then (if int_eq (parse_agent_path_id path) (pos i)
        then (if path_exists fs path
            then pos 0
            else (if leb fs_files (count_agent_files fs (pos i)) then enospc else pos 0))
        else pos 0)
    else pos 0
