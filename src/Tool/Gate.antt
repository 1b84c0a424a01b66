-- ===== src/Tool/Gate.antt =====
-- kernel/tool.c: which calls `tool_dispatch` lets through to their tool, and what the others change.
use open_agent_os.Prelude.{
  ℕ, ◌^◌, ◌<◌, ◌≡◌, refl, ◌∙◌, Bool, true, false, ◌&&◌, ◌||◌, List, ℤ, pos, arith, if◌then◌else◌,
  Option, none, some, Bool-cases, Option-cases, inl, inr, is_zero,
}
use open_agent_os.Abi.{max_agents, eperm, einval}
use open_agent_os.Ramfs.Content.{AllFiles}
use open_agent_os.Kernel.{agent_at, has_cap}
use open_agent_os.Policy as Rules
use open_agent_os.Policy.Tools.{denied_blocks}
use open_agent_os.Quota as Limits
use open_agent_os.Audit.{path_for}
use open_agent_os.Tool.{
  Sys, Args, Entry, audit_line, audit_log, is_quiet_console, is_free, find_entry, refuse,
  call_entry, call_tool, dispatch,
}
use open_agent_os.Tool.Line.{IsInt}
use open_agent_os.Tool.Accounts.{KeepsAccounts, Ran, audit_line-some, finish-Ran}
use open_agent_os.Tool.Log.{KeepsOthers, KeepsOthers-refl, log_line-KeepsOthers}

-- All is as before but for the agent's audit log.
pub record OnlyLog (s s' : Sys) (i : ℕ) : Type 0 where
  pub policy : s'.policy ≡ s.policy
  pub heap : s'.heap ≡ s.heap
  pub kernel : s'.kernel ≡ record s.kernel { files = s'.kernel.files }
  pub files : KeepsOthers s.kernel.files s'.kernel.files (path_for (pos i))

pub audit_log-OnlyLog :
    (s : Sys) (i : ℕ) (tool rc : ℤ)
    → AllFiles s.kernel.files
    → i < 2 ^ 31
    → OnlyLog s (audit_log s i tool rc) i
unfolding audit_log
audit_log-OnlyLog s i tool rc v small = elim (Option-cases (audit_line tool rc)) [
  | inl e ↦
      rw (e, audit_log)
        (record {
          policy = refl;
          heap = refl;
          kernel = refl;
          files = KeepsOthers-refl s.kernel.files (path_for (pos i)) v;
        })
  | inr (line, e) ↦
      rw (e, audit_log)
        (record {
          policy = refl;
          heap = refl;
          kernel = refl;
          files =
              log_line-KeepsOthers s.kernel.files i line v small (audit_line-some tool rc line e);
        })
]

-- The test of an entry of the table.
abbrev passes : Entry → Sys → ℕ → Args → Bool
passes e s i args = has_cap (agent_at s.kernel i) e.cap && is_zero (e.check s i args)

-- Whether the quota and the policy let a call through.
unfoldable pub is_open : Sys → ℕ → ℤ → Args → Bool
is_open s i tool args =
    is_free tool args
    || is_zero (Limits.tool_allow s.kernel i) && is_zero (Rules.tool_allow s.policy tool)

abbrev Refused : Sys → ℕ → ℤ × Sys → Type 0
Refused s i out = (is_zero out.0 ≡ false) × OnlyLog s out.1 i

-- What becomes of a call whose entry in the table this is.
abbrev pub Outcome : Sys → ℕ → ℤ → Args → Option Entry → ℤ × Sys → Type 0
Outcome s i tool args none out = Refused s i out
Outcome s i tool args (some e) out =
    if is_open s i tool args && passes e s i args
    then Ran i tool args (e.run s i args) out
    else Refused s i out

module _ (table : List Entry) (s : Sys) (i : ℕ) (tool : ℤ) (args : Args)
    (v : AllFiles s.kernel.files) (small : i < 2 ^ 31) where
  refuse-Refused : (rc : ℤ) → is_zero rc ≡ false → Refused s i (refuse s i tool rc)
  unfolding refuse
  refuse-Refused rc nonzero = (nonzero, audit_log-OnlyLog s i tool rc v small)

  call_entry-Outcome :
      (e : Entry)
      → i < max_agents
      → IsInt tool
      → KeepsAccounts (e.run s i args) i
      → if passes e s i args
        then Ran i tool args (e.run s i args) (call_entry e s i tool args)
        else Refused s i (call_entry e s i tool args)
  unfolding call_entry
  call_entry-Outcome e in_table t ran = elim (Bool-cases (has_cap (agent_at s.kernel i) e.cap)) [
    | inr denied ↦ rw (denied, call_entry) (refuse-Refused eperm refl)
    | inl may ↦ elim (Bool-cases (is_zero (e.check s i args))) [
      | inl fine ↦
          rw (may, fine, call_entry) (finish-Ran i tool args (e.run s i args) ran t in_table)
      | inr failed ↦ rw (may, failed, call_entry) (refuse-Refused (e.check s i args) failed)
    ]
  ]

  dispatch_open :
      is_open s i tool args ≡ true
      → dispatch table s (some i) tool args ≡ call_tool table s i tool args
  unfolding is_open dispatch
  dispatch_open opened = ground arith

  dispatch_shut : is_open s i tool args ≡ false → Refused s i (dispatch table s (some i) tool args)
  unfolding is_open dispatch
  dispatch_shut shut =
      let quota = Limits.tool_allow s.kernel i in
      let rule = Rules.tool_allow s.policy tool in
      let counted : is_free tool args ≡ false = ground arith in
      elim (Bool-cases (is_zero quota)) [
        | inr over ↦ rw (counted, dispatch) (rw over (refuse-Refused quota over))
        | inl within ↦
            let blocked : is_zero rule ≡ false = ground arith in
            rw (counted, dispatch) (rw within (rw blocked (refuse-Refused rule blocked)))
      ]

  call_tool-some :
      (e : Entry)
      → find_entry table tool ≡ some e
      → call_tool table s i tool args ≡ call_entry e s i tool args
  unfolding call_tool
  call_tool-some e found = rw (found, call_tool) refl

  missing_Refused : find_entry table tool ≡ none → Refused s i (dispatch table s (some i) tool args)
  unfolding call_tool
  missing_Refused missing = elim (Bool-cases (is_open s i tool args)) [
    | inr shut ↦ dispatch_shut shut
    | inl opened ↦ rw (dispatch_open opened) (rw (missing, call_tool) (refuse-Refused einval refl))
  ]

-- Take a well-formed file table, an agent of the table and an `int` for the tool, and suppose that the
-- run of the tool's entry, whatever else it does, returns an `int` and leaves a well-formed file table
-- and a counter for the agent. When the tool is one of those that are never stopped, or the agent's
-- quota and the policy let it through, and the first entry of the table for the tool has a capability
-- that the agent holds and a check that passes, `tool_dispatch` returns the run's status and leaves the
-- run's state but for two accounts. The agent's counter of calls is one larger, unless the tool is never
-- stopped; no other counter changes. The agent's audit log has the line "tool=<tool> rc=<status>" at its
-- end, or had no room for it and no other file changes; for the calls that are not logged no file
-- changes. In every other case its status is not 0, the tool is not run, and nothing is changed but the
-- agent's own audit log.
pub dispatch_lem :
    (table : List Entry) (s : Sys) (i : ℕ) (tool : ℤ) (args : Args)
    → AllFiles s.kernel.files
    → i < max_agents
    → IsInt tool
    → ((e : Entry) → find_entry table tool ≡ some e → KeepsAccounts (e.run s i args) i)
    → Outcome s i tool args (find_entry table tool) (dispatch table s (some i) tool args)
dispatch_lem table s i tool args v in_table t runs =
    let small : i < 2 ^ 31 = omega arith in
    elim (Option-cases (find_entry table tool)) [
      | inl missing ↦ rw missing (missing_Refused table s i tool args v small missing)
      | inr (e, found) ↦ rw found (elim (Bool-cases (is_open s i tool args)) [
        | inr shut ↦ rw shut (dispatch_shut table s i tool args v small shut)
        | inl opened ↦ rw opened (
            rw
              (dispatch_open table s i tool args v small opened
                ∙ call_tool-some table s i tool args v small e found)
              (call_entry-Outcome table s i tool args v small e in_table t (runs e found)))
      ])
    ]

free_of_exempt :
    (t : ℕ) (args : Args)
    → Rules.is_exempt t ≡ false
    → is_quiet_console (pos t) args ≡ false
    → is_free (pos t) args ≡ false
unfolding is_free Rules.is_exempt
free_of_exempt t args free loud = ground arith

shut_by :
    (s : Sys) (i t : ℕ) (args : Args)
    → is_free (pos t) args ≡ false
    → Rules.tool_allow s.policy (pos t) ≡ eperm
    → is_open s i (pos t) args ≡ false
unfolding is_open
shut_by s i t args counted blocked = ground arith

-- After `policy_deny_tool` has returned 0 for a tool, every `tool_dispatch` of it, whatever the table,
-- the agent's number below 2 ^ 31, its capabilities and its quota, in a state with a well-formed file
-- table, fails without running it and changes nothing but the agent's own audit log; the three calls
-- of the console that are never stopped are left out.
pub deny_tool-dispatch :
    (table : List Entry) (s : Sys) (i t : ℕ) (args : Args)
    → AllFiles s.kernel.files
    → i < 2 ^ 31
    → (Rules.deny_tool s.policy (pos t)).0 ≡ pos 0
    → is_quiet_console (pos t) args ≡ false
    → (let s' : Sys = record s { policy = (Rules.deny_tool s.policy (pos t)).1 } in
        let out = dispatch table s' (some i) (pos t) args in
        (is_zero out.0 ≡ false) × OnlyLog s' out.1 i)
deny_tool-dispatch table s i t args v small denied loud =
    let s' : Sys = record s { policy = (Rules.deny_tool s.policy (pos t)).1 } in
    let (free, blocked) = denied_blocks s.policy t denied in
    dispatch_shut table s' i (pos t) args v small
      (shut_by s' i t args (free_of_exempt t args free loud) blocked)
