-- ===== src/Agent/Invariant.antt =====
-- kernel/agent.c: the kernel's tables after a send: their sizes, the inboxes, the agents that run.
use open_agent_os.Prelude.{
  ℕ, ◌+◌, ◌<◌, ◌≡◌, refl, ap, sym, ◌∙◌, subst, List, ℤ, negsuc, arith, is_zero, leb, ◌==◌,
  if◌then◌else◌, get_or, set, length, Option, none, Bool-cases, inl, inr, get_or-set_self,
  get_or-set_ne, length-set,
}
use open_agent_os.Abi.{max_agents, Msg}
use open_agent_os.Ipc
use open_agent_os.Ipc.Refine.{IsValid, push-IsValid}
use open_agent_os.Kernel.{Kernel, Agent, runnable, no_agent, max_harts, agent_at, current}
use open_agent_os.Quota.{ipc_charge}
use open_agent_os.Sched.{notify_runnable, make_runnable, rq_add}
use open_agent_os.Agent.{push_to, post, send, with_inbox}
use open_agent_os.Agent.Post.{
  notify_runnable-inbox, notify_runnable-quota, post_ok, post_fails, is_zero_sound, is_zero-false,
}
use open_agent_os.Agent.Send.{IsTable, Sent, refused, posted, send-Sent, message}

current-same :
    (k k' : Kernel) (hart : ℕ) → k'.cpu_current ≡ k.cpu_current → current k' hart ≡ current k hart
unfolding current
current-same k k' hart e =
    ap (λ (c : List (Option ℕ)). if leb max_harts hart then none else get_or c hart none) e

-- A change that keeps the sizes, the running agents and valid inboxes.
pub keeps-IsTable :
    (k k' : Kernel)
    → IsTable k
    → length k'.agents ≡ length k.agents
    → length k'.quota_ipc ≡ length k.quota_ipc
    → k'.cpu_current ≡ k.cpu_current
    → ((i : ℕ) → i < max_agents → IsValid (agent_at k' i).inbox)
    → IsTable k'
keeps-IsTable k k' v agents quota running inboxes = record {
  agents_len = agents ∙ v.agents_len;
  quota_len = quota ∙ v.quota_len;
  inboxes = inboxes;
  currents = λ hart i at. v.currents hart i (sym (current-same k k' hart running) ∙ at);
}

-- One inbox replaced by a valid one.
pub with_inbox-IsTable :
    (k : Kernel) (t : ℕ) (b : Ipc.Msgbox)
    → IsTable k
    → (t < max_agents → IsValid b)
    → IsTable (with_inbox k t b)
with_inbox-IsTable k t b v vb =
    keeps-IsTable k (with_inbox k t b) v (length-set k.agents t a') refl refl valid
  where
    a' : Agent
    a' = record (agent_at k t) { inbox = b }

    valid : (i : ℕ) → i < max_agents → IsValid (get_or (set k.agents t a') i no_agent).inbox
    valid i lt = elim (Bool-cases (t == i)) [
      | inl here ↦
          let e : t ≡ i = ground arith in
          let lt' : t < max_agents = omega arith in
          subst (λ j. IsValid (get_or (set k.agents t a') j no_agent).inbox) e
            (subst (λ (a : Agent). IsValid a.inbox)
              (sym (
                get_or-set_self k.agents t a' no_agent (subst (λ n. t < n) (sym v.agents_len) lt')))
              (vb lt'))
      | inr other ↦
          subst (λ (a : Agent). IsValid a.inbox)
            (sym (get_or-set_ne k.agents t i a' no_agent (ground arith))) (v.inboxes i lt)
    ]

-- The end of a send keeps the tables too.
pub push_to-IsTable : (k : Kernel) (t : ℕ) (m : Msg) → IsTable k → IsTable (push_to k t m).1
unfolding push_to
push_to-IsTable k t m v =
    with_inbox-IsTable k t (Ipc.push (agent_at k t).inbox m).1 v
      (λ lt. push-IsValid (agent_at k t).inbox m (v.inboxes t lt))

charge-IsTable : (k : Kernel) (i : ℕ) → IsTable k → IsTable (ipc_charge k i)
unfolding ipc_charge
charge-IsTable k i v = elim (Bool-cases (leb max_agents i)) [
  | inl out ↦ rw (out, ipc_charge) v
  | inr inside ↦
      rw (inside, ipc_charge)
        (keeps-IsTable k (record k { quota_ipc = set k.quota_ipc i (get_or k.quota_ipc i 0 + 1) }) v
          refl (length-set k.quota_ipc i (get_or k.quota_ipc i 0 + 1)) refl v.inboxes)
]

same_length : (k : Kernel) (i : ℕ) → length (notify_runnable k i).agents ≡ length k.agents
unfolding notify_runnable make_runnable rq_add
same_length k i = ground (
  arith,
  length-set k.agents i (record (agent_at k i) { state = runnable; running_cpu = negsuc 0 }),
)

same_running : (k : Kernel) (i : ℕ) → (notify_runnable k i).cpu_current ≡ k.cpu_current
unfolding notify_runnable make_runnable rq_add
same_running k i = ground arith

notify-IsTable : (k : Kernel) (i : ℕ) → IsTable k → IsTable (notify_runnable k i)
notify-IsTable k i v =
    keeps-IsTable k (notify_runnable k i) v (same_length k i)
      (ap length (notify_runnable-quota k i)) (same_running k i)
      (λ j lt. subst IsValid (sym (notify_runnable-inbox k i j)) (v.inboxes j lt))

post-IsTable : (k : Kernel) (i t : ℕ) (m : Msg) → IsTable k → IsTable (post k i t m).1
post-IsTable k i t m v = elim (Bool-cases (is_zero (post k i t m).0)) [
  | inl ok ↦ subst IsTable (sym (post_ok k i t m (is_zero_sound (post k i t m).0 ok)).1) (
      notify-IsTable (ipc_charge (push_to k t m).1 i) t
        (charge-IsTable (push_to k t m).1 i (push_to-IsTable k t m v)))
  | inr bad ↦ subst IsTable (sym (post_fails k i t m (λ z. is_zero-false z bad))) v
]

Sent-IsTable :
    {k : Kernel} {hart : ℕ} {dst kind : ℤ} {payload : ℕ} {r : ℤ × Kernel}
    → IsTable k
    → Sent k hart dst kind payload r
    → IsTable r.1
Sent-IsTable v (refused bad same) = subst IsTable (sym same) v
Sent-IsTable {k = k} {kind = kind} v (posted i t bytes at cap got allow text e) =
    subst (λ (r : ℤ × Kernel). IsTable r.1) (sym e) (post-IsTable k i t (message i kind bytes) v)

-- A kernel with tables of the right size, valid inboxes and running agents of the table is one after
-- every send too, whatever the send returns.
pub send-IsTable :
    (k : Kernel) (hart : ℕ) (dst kind : ℤ) (payload : ℕ)
    → IsTable k
    → IsTable (send k hart dst kind payload).1
send-IsTable k hart dst kind payload v = Sent-IsTable v (send-Sent k hart dst kind payload)
