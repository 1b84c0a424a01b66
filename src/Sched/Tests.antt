-- ===== src/Sched/Tests.antt =====
-- Examples for kernel/sched.c: twelve agents, of which three are in use on hart 0.
use open_agent_os.Prelude.{ℕ, ◌≡◌, ◌≢◌, refl, [], ◌∷◌, replicate, some, none, arith}
use open_agent_os.Abi.{blank}
use open_agent_os.Ipc
use open_agent_os.Kernel.{Kernel, Agent, runnable, waiting, no_agent, no_inbox, agent_at}
use open_agent_os.Sched.{
  pick_next, pick_mail, pick_queued, pick_round, selectable, has_inbox, notify_runnable,
}
use open_agent_os.Sched.Pick.{IsReady, HasMail}
use open_agent_os.Sched.Progress.{pick_next_misses_none, notify_runnable-pick_next}

-- An agent that waits, with one message or none.
abbrev pub waits : ℕ → Agent
waits n = record no_agent {
  state = waiting;
  inbox = record no_inbox {
    normal = blank ∷ replicate 15 blank;
    normal_tail = n;
    normal_count = n;
  };
}

abbrev pub kernel_of : Agent → Agent → Agent → Kernel
kernel_of a b c = record {
  agents = a ∷ b ∷ c ∷ replicate 9 no_agent;
  agent_count = 3;
  cpu_current = replicate 4 none;
  cpu_rq = (2 ∷ []) ∷ [] ∷ [] ∷ [] ∷ [];
  rr_next = 5;
  quota_ipc = replicate 12 0;
  quota_tool = replicate 12 0;
  online = 1;
  files = [];
}

-- Agent 1 waits with a message, agent 2 is ready.
abbrev busy : Kernel
busy = kernel_of no_agent (waits 1) (record no_agent { state = runnable })

-- Nobody has anything to do.
abbrev quiet : Kernel
quiet = kernel_of no_agent (waits 0) (waits 0)

busy_picks : (pick_next busy 0).0 ≡ some 1
unfolding pick_next pick_mail has_inbox Ipc.is_empty
busy_picks = refl

quiet_picks : (pick_next quiet 0).0 ≡ none
unfolding pick_next pick_mail has_inbox Ipc.is_empty pick_queued pick_round selectable
quiet_picks = refl

pick_next_misses_none_example :
    ((pick_next quiet 0).1 ≡ quiet)
    × (¬ IsReady 0 (agent_at quiet 2))
    × (¬ HasMail 0 (agent_at quiet 2))
pick_next_misses_none_example =
    pick_next_misses_none quiet 0 2 refl (omega arith) (omega arith) quiet_picks

has_mail : HasMail 0 (agent_at busy 1)
has_mail = (λ e. cc, λ e. cc, λ e. cc, refl, omega arith)

notify_runnable-pick_next_example : (pick_next (notify_runnable quiet 1) 0).0 ≢ none
notify_runnable-pick_next_example =
    notify_runnable-pick_next quiet 0 1 refl (omega arith) (omega arith) refl (λ e. cc)
