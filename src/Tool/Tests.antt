-- ===== src/Tool/Tests.antt =====
-- Examples for kernel/tool.c: agent 3 with the capabilities for numbers and files, and a policy that
-- denies the tool for files.
use open_agent_os.Prelude.{
  ℕ, ◌+◌, ◌-◌, ◌%◌, ◌^◌, ◌==◌, if◌then◌else◌, ◌≤◌, ◌<◌, ◌≡◌, refl, true, false, [], ◌∷◌, pos,
  negsuc, arith, replicate, length, Option, subst, some, none, is_zero, length-replicate,
}
use open_agent_os.Bytes.{Str}
use open_agent_os.Ramfs.{path_max}
use open_agent_os.Ramfs.Content.{AllFiles}
use open_agent_os.Vm.{user_check, check_pages, page_of, pte_allows}
use open_agent_os.Uaccess.{UserMem, access_ok}
use open_agent_os.Kernel.{Kernel, Agent, no_agent}
use open_agent_os.Policy as Rules
use open_agent_os.Namespace as Home
use open_agent_os.Tool.{Sys, Args, Entry, audit_line, is_quiet_console, find_entry, dispatch}
use open_agent_os.Tool.Checks.{is_summand, check_add, check_write_path, read_path_from_user}
use open_agent_os.Tool.Runs.{rows, run_add}
use open_agent_os.Tool.Line.{line_of, audit_line_lem}
use open_agent_os.Tool.Accounts.{KeepsAccounts}
use open_agent_os.Tool.Gate.{Outcome, OnlyLog, dispatch_lem, deny_tool-dispatch}
use open_agent_os.Abi.{eperm}
use open_agent_os.Tool.Access.{agent_path, check_write_path_own}
use open_agent_os.Tool.Strings.{read_path_from_user_full}

-- Every page can be read, and every byte is 'a'.
abbrev flat : UserMem
flat = record {
  pt = λ va. some (record {
    valid = true;
    readable = true;
    writable = false;
    executable = false;
    user = true;
    frame = 0;
  });
  byte = λ va. b'a';
}

abbrev caller : Agent
caller = record no_agent { caps = 66; mem = some flat }

abbrev kernel : Kernel
kernel = record {
  agents = no_agent ∷ no_agent ∷ no_agent ∷ caller ∷ replicate 8 no_agent;
  agent_count = 1;
  cpu_current = replicate 4 none;
  cpu_rq = replicate 4 [];
  rr_next = 0;
  quota_ipc = replicate 12 0;
  quota_tool = replicate 12 0;
  online = 1;
  files = record { path = []; bytes = replicate 8192 0; size = 0; used = false } ∷ [];
}

abbrev system : Sys
system = record {
  kernel = kernel;
  policy = record { deny_tools = []; net_allowed = []; net_restrict = false };
  heap = record { next = 4096; limit = 65536 };
}

no_files-AllFiles : AllFiles kernel.files
no_files-AllFiles = (record { array = length-replicate {A = ℕ} 8192 0; fits = omega arith }, tt)

-- 5 and -2
abbrev five_less_two : Args
five_less_two = record { arg0 = 5; arg1 = 2 ^ 64 - 2; arg2 = 0 }

sum-KeepsAccounts : KeepsAccounts (run_add system 3 five_less_two) 3
unfolding run_add
sum-KeepsAccounts = record {
  is_int = omega arith;
  files = no_files-AllFiles;
  counter = omega arith;
}

dispatch_lem_example :
    Outcome system 3
      (pos 1)
      five_less_two
      (find_entry rows (pos 1))
      (dispatch rows system (some 3) (pos 1) five_less_two)
unfolding find_entry
dispatch_lem_example =
    dispatch_lem rows system 3 (pos 1) five_less_two no_files-AllFiles (omega arith) (omega arith)
      (λ e found.
        subst
          (λ (x : Option Entry). elim x as (λ _. Type 0) [
            | none ↦ Unit
            | some y ↦ KeepsAccounts (y.run system 3 five_less_two) 3
          ])
          found sum-KeepsAccounts)

denied : (Rules.deny_tool system.policy (pos 4)).0 ≡ pos 0
unfolding Rules.deny_tool Rules.deny Rules.is_exempt Rules.deny_has
denied = refl

not_console : is_quiet_console (pos 4) five_less_two ≡ false
unfolding is_quiet_console
not_console = refl

deny_tool-dispatch_example :
    let s' : Sys = record system { policy = (Rules.deny_tool system.policy (pos 4)).1 } in
    let out = dispatch rows s' (some 3) (pos 4) five_less_two in
    (is_zero out.0 ≡ false) × OnlyLog s' out.1 3
deny_tool-dispatch_example =
    deny_tool-dispatch rows system 3 4 five_less_two no_files-AllFiles (omega arith) denied
      not_console

audit_line_lem_example :
    (audit_line (pos 25) (negsuc 3) ≡ some (line_of (pos 25) (negsuc 3)))
    × (length (line_of (pos 25) (negsuc 3)) ≤ 32)
audit_line_lem_example = audit_line_lem (pos 25) (negsuc 3) (omega arith) (omega arith)

sum_checked : check_add system 3 five_less_two ≡ pos 0
unfolding check_add is_summand
sum_checked = refl

-- "xagent/3/n"
abbrev name_n : Str
name_n = b'n' ∷ []

check_write_path_own_example :
    (check_write_path false 3 (agent_path b'/' 4 name_n) ≡ (if 4 == 3 then pos 0 else eperm))
    × (check_write_path false 3 (Home.file_for (pos 4) name_n) ≡ (if 4 == 3 then pos 0 else eperm))
check_write_path_own_example = check_write_path_own 3 4 name_n (omega arith)

readable : (k : ℕ) → k < 64 → access_ok (some flat) ((4096 + k) % 2 ^ 64) 1 false ≡ true
unfolding access_ok user_check check_pages page_of pte_allows
readable k small =
    let low : (4096 + k) % 2 ^ 64 ≡ 4096 + k = omega arith in
    let page : (4096 + k) - (4096 + k) % 4096 ≡ 4096 = omega arith in ground (arith, low, page)

all_readable : access_ok (some flat) 4096 64 false ≡ true
unfolding access_ok user_check check_pages page_of pte_allows
all_readable = refl

read_path_from_user_full_example :
    ((read_path_from_user (some flat) 4096).0 ≡ pos 0)
    × (length (read_path_from_user (some flat) 4096).1 ≡ path_max)
read_path_from_user_full_example =
    read_path_from_user_full flat 4096 (λ e. omega arith) readable (λ k small e. omega arith)
      all_readable
