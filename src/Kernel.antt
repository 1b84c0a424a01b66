-- ===== src/Kernel.antt =====
-- The state that kernel/agent.c, sched.c and quota.c share: the agent table, the run queues and the
-- quota counters. kernel/agent.h declares the records.
use open_agent_os.Prelude.{
  ℕ, ◌/◌, ◌%◌, ◌^◌, Bool, true, false, List, [], ℤ, pos, negsuc, ltb, leb, ◌==◌, if◌then◌else◌,
  get_or, set, Option, none, some,
}
use open_agent_os.Abi.{max_agents, Phase, idle}
use open_agent_os.Bytes.{Str}
use open_agent_os.Ipc.{Msgbox}
use open_agent_os.Ramfs.{Files}
use open_agent_os.Uaccess.{UserMem}

abbrev pub max_harts : ℕ
max_harts = 4

-- `enum agent_state`
pub data State : Type 0 where
  unused created runnable running waiting zombie : State

-- `struct agent`, less the saved registers, the entry point and the stack, which no operation of the
-- model reads: `has_tf` tells whether `tf` is set.
pub record Agent : Type 0 where
  pub name : Str
  pub state : State
  pub phase : Phase
  pub has_tf : Bool
  pub caps : ℕ
  pub inbox : Msgbox
  pub exit_code : ℤ
  pub mem : Option UserMem
  pub home_cpu : ℤ
  pub running_cpu : ℤ

abbrev pub no_inbox : Msgbox
no_inbox = record {
  normal = [];
  normal_head = 0;
  normal_tail = 0;
  normal_count = 0;
  steer = [];
  steer_head = 0;
  steer_tail = 0;
  steer_count = 0;
}

abbrev pub no_agent : Agent
no_agent = record {
  name = [];
  state = unused;
  phase = idle;
  has_tf = false;
  caps = 0;
  inbox = no_inbox;
  exit_code = pos 0;
  mem = none;
  home_cpu = pos 0;
  running_cpu = negsuc 0;
}

-- `agents[]`, `agent_count`, `cpu_current[]`, `cpu_rq[][]` with `cpu_rq_count[]`, `rr_next`, the two
-- counters of kernel/quota.c, the number of harts online, and the files. An agent's `id` is its index.
pub record Kernel : Type 0 where
  pub agents : List Agent
  pub agent_count : ℕ
  pub cpu_current : List (Option ℕ)
  pub cpu_rq : List (List ℕ)
  pub rr_next : ℕ
  pub quota_ipc : List ℕ
  pub quota_tool : List ℕ
  pub online : ℕ
  pub files : Files

-- `agents[i]`
abbrev pub agent_at : Kernel → ℕ → Agent
agent_at k i = get_or k.agents i no_agent

abbrev pub set_agent : Kernel → ℕ → Agent → Kernel
set_agent k i a = record k { agents = set k.agents i a }

-- `agent_current` on a hart.
unfoldable pub current : Kernel → ℕ → Option ℕ
current k hart = if leb max_harts hart then none else get_or k.cpu_current hart none

-- `agent_set_current`
unfoldable pub set_current : Kernel → ℕ → Option ℕ → Kernel
set_current k hart a =
    if ltb hart max_harts then record k { cpu_current = set k.cpu_current hart a } else k

-- `agent_set_phase`
unfoldable pub set_phase : Kernel → ℕ → Phase → Kernel
set_phase k hart phase = elim (current k hart) [
  | none ↦ k
  | some i ↦ set_agent k i (record (agent_at k i) { phase = phase })
]

-- `agent_has_cap`, of the mask's bit `cap`.
unfoldable pub has_cap : Agent → ℕ → Bool
has_cap a cap = a.caps / 2 ^ cap % 2 == 1

abbrev pub is_unused : State → Bool
is_unused unused = true
is_unused _ = false

abbrev pub is_zombie : State → Bool
is_zombie zombie = true
is_zombie _ = false

abbrev pub is_created : State → Bool
is_created created = true
is_created _ = false

abbrev pub is_running : State → Bool
is_running running = true
is_running _ = false

abbrev pub is_runnable : State → Bool
is_runnable runnable = true
is_runnable _ = false

-- `agent_get`: the index, if it names an agent.
unfoldable pub agent_get : Kernel → ℤ → Option ℕ
agent_get k (negsuc n) = none
agent_get k (pos i) =
    if leb max_agents i then none else (if is_unused (agent_at k i).state then none else some i)
