-- ===== src/Tool.antt =====
-- kernel/tool.c: the gateway of the tools. An agent is its index, and an argument is the 64-bit pattern
-- of a `long`. The table of the tools is a parameter of the dispatch, as it is data of the code; the
-- tools that are modelled stand in Tool/Runs.
pub mod Checks
pub mod Runs
pub mod Line
pub mod Log
pub mod Accounts
pub mod Gate
pub mod Access
pub mod Strings
pub mod Sum
mod Tests
use open_agent_os.Prelude.{
  ℕ, ◌+◌, ◌-◌, ◌%◌, ◌^◌, Bool, true, false, not, ◌&&◌, ◌||◌, List, [], ◌∷◌, ◌++◌, ℤ, pos, negsuc,
  is_neg, is_zero, int_eq, of_u32, ltb, leb, ◌==◌, if◌then◌else◌, length, Option, none, some,
}
use open_agent_os.Abi.{
  einval, eperm, enospc, tool_quota, tool_policy, tool_fleet, tool_remote, tool_mesh,
}
use open_agent_os.Bytes.{Str}
use open_agent_os.Decimal.{decimal}
use open_agent_os.Ramfs.{Files}
use open_agent_os.Mem.{Heap}
use open_agent_os.Kernel.{Kernel, agent_at, has_cap}
use open_agent_os.Policy.{Policy}
use open_agent_os.Policy as Rules
use open_agent_os.Quota as Limits
use open_agent_os.Audit as Trail

abbrev pub tool_input : ℕ
tool_input = 15

abbrev pub tool_console : ℕ
tool_console = 16

abbrev pub tool_audit : ℕ
tool_audit = 19

abbrev pub tool_namespace : ℕ
tool_namespace = 20

-- What the tools work on.
pub record Sys : Type 0 where
  pub kernel : Kernel
  pub policy : Policy
  pub heap : Heap

-- `arg0`, `arg1` and `arg2`
pub record Args : Type 0 where
  pub arg0 : ℕ
  pub arg1 : ℕ
  pub arg2 : ℕ

-- `struct tool_entry`, with the bit of its capability; a tool without `check` passes.
pub record Entry : Type 0 where
  pub tool : ℕ
  pub cap : ℕ
  pub check : Sys → ℕ → Args → ℤ
  pub run : Sys → ℕ → Args → ℤ × Sys

abbrev pub with_files : Sys → Files → Sys
with_files s fs = record s { kernel = record s.kernel { files = fs } }

-- `append_int` into a buffer of `cap` bytes; `none` is -1.
unfoldable pub append_digits : List ℕ → ℕ → List ℕ → Option (List ℕ)
append_digits buf cap [] = some buf
append_digits buf cap (d ∷ ds) =
    let rest = append_digits (buf ++ d ∷ []) cap ds in
    if leb (cap - 1) (length buf) then none else rest

-- A negative value is printed as a sign and its opposite, which `unsigned int` holds.
unfoldable pub int_text : ℤ → List ℕ
int_text (pos n) = decimal n
int_text (negsuc n) = b'-' ∷ decimal (n + 1)

unfoldable pub append_int : List ℕ → ℕ → ℤ → Option (List ℕ)
append_int buf cap val = append_digits buf cap (int_text val)

-- The line of `tool_audit_log`.
unfoldable pub audit_line : ℤ → ℤ → Option (List ℕ)
audit_line tool rc = elim (append_int (b't' ∷ b'o' ∷ b'o' ∷ b'l' ∷ b'=' ∷ []) 32 tool) [
  | none ↦ none
  | some buf ↦ elim (append_int (buf ++ 32 ∷ b'r' ∷ b'c' ∷ b'=' ∷ []) 32 rc) [
    | none ↦ none
    | some line ↦ some (line ++ 10 ∷ [])
  ]
]

-- `tool_audit_log` on the files.
unfoldable pub log_line : Files → ℕ → List ℕ → Files
log_line fs i line =
    let (rc, fs') = Trail.write fs i line (pos (length line)) in
    if int_eq rc enospc
    then (Trail.write (Trail.compact fs' i (pos 8)).1 i line (pos (length line))).1
    else fs'

unfoldable pub audit_log : Sys → ℕ → ℤ → ℤ → Sys
audit_log s i tool rc = elim (audit_line tool rc) [
  | none ↦ s
  | some line ↦ with_files s (log_line s.kernel.files i line)
]

-- The commands of the console that are neither counted nor logged.
unfoldable pub is_quiet_console : ℤ → Args → Bool
is_quiet_console tool args =
    int_eq tool (pos tool_console) && (args.arg0 == 3 || args.arg0 == 1 || args.arg0 == 2)

-- The tools that the quota and the policy do not touch.
unfoldable pub is_free : ℤ → Args → Bool
is_free tool args =
    int_eq tool (pos tool_quota)
    || int_eq tool (pos tool_policy)
    || int_eq tool (pos tool_fleet)
    || int_eq tool (pos tool_remote)
    || int_eq tool (pos tool_mesh)
    || is_quiet_console tool args

-- The calls that are not logged after the tool has run.
unfoldable pub is_unlogged : ℤ → Args → ℤ → Bool
is_unlogged tool args rc =
    int_eq tool (pos tool_input) && is_zero rc
    || int_eq tool (pos tool_audit)
    || int_eq tool (pos tool_namespace)
    || is_free tool args

unfoldable pub find_entry : List Entry → ℤ → Option Entry
find_entry [] tool = none
find_entry (e ∷ es) tool = if int_eq (pos e.tool) tool then some e else find_entry es tool

unfoldable pub refuse : Sys → ℕ → ℤ → ℤ → ℤ × Sys
refuse s i tool rc = (rc, audit_log s i tool rc)

-- `tool_dispatch` after the tool has run.
unfoldable pub finish : Sys → ℕ → ℤ → Args → ℤ → ℤ × Sys
finish s i tool args rc =
    let s' = if is_unlogged tool args rc then s else audit_log s i tool rc in
    (rc, if is_free tool args then s' else record s' { kernel = Limits.tool_charge s'.kernel i })

-- One entry of the table that is for this tool.
unfoldable pub call_entry : Entry → Sys → ℕ → ℤ → Args → ℤ × Sys
call_entry e s i tool args =
    let rc = e.check s i args in
    let (ran, s') = e.run s i args in
    if has_cap (agent_at s.kernel i) e.cap
    then (if is_zero rc then finish s' i tool args ran else refuse s i tool rc)
    else refuse s i tool eperm

-- `tool_dispatch` behind the quota and the policy.
unfoldable pub call_tool : List Entry → Sys → ℕ → ℤ → Args → ℤ × Sys
call_tool table s i tool args = elim (find_entry table tool) [
  | none ↦ refuse s i tool einval
  | some e ↦ call_entry e s i tool args
]

-- `tool_dispatch`
unfoldable pub dispatch : List Entry → Sys → Option ℕ → ℤ → Args → ℤ × Sys
dispatch table s none tool args = (eperm, s)
dispatch table s (some i) tool args =
    let quota = Limits.tool_allow s.kernel i in
    let rule = Rules.tool_allow s.policy tool in
    if not (is_free tool args) && not (is_zero quota)
    then refuse s i tool quota
    else (if not (is_free tool args) && not (is_zero rule)
        then refuse s i tool rule
        else call_tool table s i tool args)
