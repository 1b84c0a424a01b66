-- ===== src/Agent/RecvInvariant.antt =====
-- kernel/agent.c: the kernel's tables after `agent_recv` and `agent_compact_inbox`.
use open_agent_os.Prelude.{
  ℕ, ◌≡◌, ◌⊎◌, refl, sym, subst, ℤ, arith, is_zero, ◌==◌, Bool-cases, Option-cases, inl, inr,
  length-set, set_keeps,
}
use open_agent_os.Abi.{Msg, Phase, blank, cap_recv, turn, wait_ipc}
use open_agent_os.Ipc
use open_agent_os.Ipc.Refine.{IsValid, pop-IsValid}
use open_agent_os.Ipc.Compact.{compact-IsValid}
use open_agent_os.Kernel.{Kernel, Agent, no_agent, agent_at, set_agent, current, set_phase, has_cap}
use open_agent_os.Uaccess.{copy_to_user}
use open_agent_os.Agent.{with_inbox, msg_bytes, hand_over, recv, compact_inbox}
use open_agent_os.Agent.Send.{IsTable}
use open_agent_os.Agent.Invariant.{keeps-IsTable, with_inbox-IsTable, push_to-IsTable}

set_agent-IsTable :
    (k : Kernel) (t : ℕ) (a : Agent)
    → a.inbox ≡ (agent_at k t).inbox
    → IsTable k
    → IsTable (set_agent k t a)
set_agent-IsTable k t a same v =
    keeps-IsTable k (set_agent k t a) v (length-set k.agents t a) refl refl (λ i lt.
      subst IsValid (sym (set_keeps (λ (x : Agent). x.inbox) k.agents t i a no_agent same))
        (v.inboxes i lt))

set_phase-IsTable : (k : Kernel) (hart : ℕ) (p : Phase) → IsTable k → IsTable (set_phase k hart p)
unfolding set_phase
set_phase-IsTable k hart p v = elim (Option-cases (current k hart)) [
  | inl e ↦ rw (e, set_phase) v
  | inr (i, e) ↦
      rw (e, set_phase) (set_agent-IsTable k i (record (agent_at k i) { phase = p }) refl v)
]

hand_over-IsTable :
    (k : Kernel) (hart i msg : ℕ) (m : Msg) → IsTable k → IsTable (hand_over k hart i msg m).1
unfolding hand_over
hand_over-IsTable k hart i msg m v =
    elim (Option-cases (copy_to_user (agent_at k i).mem msg (msg_bytes m))) [
      | inl e ↦ rw (e, hand_over) (push_to-IsTable k i m v)
      | inr (mem, e) ↦
          rw (e, hand_over)
            (set_phase-IsTable (set_agent k i (record (agent_at k i) { mem = mem })) hart turn
              (set_agent-IsTable k i (record (agent_at k i) { mem = mem }) refl v))
    ]

-- The ways that a receive ends, less the message.
recv_cases :
    (k : Kernel) (hart msg : ℕ)
    → ((recv k hart msg).1 ≡ k)
      ⊎ ((recv k hart msg).1 ≡ set_phase k hart wait_ipc)
      ⊎ ((i : ℕ) × ((recv k hart msg).1
            ≡ (hand_over
                (with_inbox k i (Ipc.pop (agent_at k i).inbox blank).2)
                hart
                i
                msg
                (Ipc.pop (agent_at k i).inbox blank).1).1))
unfolding recv
recv_cases k hart msg = elim (Option-cases (current k hart)) [
  | inl e ↦ inl (ground arith)
  | inr (i, e) ↦ elim (Bool-cases (has_cap (agent_at k i) cap_recv)) [
    | inr weak ↦ inl (ground arith)
    | inl cap ↦ elim (Bool-cases (msg == 0)) [
      | inl null ↦ inl (ground arith)
      | inr ptr ↦ elim (Bool-cases (Ipc.is_empty (agent_at k i).inbox)) [
        | inl empty ↦ inr (inl (ground arith))
        | inr full ↦ elim (Bool-cases (is_zero (Ipc.pop (agent_at k i).inbox blank).0)) [
          | inl ok ↦ inr (inr (i, ground arith))
          | inr bad ↦ inl (ground arith)
        ]
      ]
    ]
  ]
]

-- A kernel with tables of the right size, valid inboxes and running agents of the table is one after
-- every receive too, whatever it returns.
pub recv-IsTable : (k : Kernel) (hart msg : ℕ) → IsTable k → IsTable (recv k hart msg).1
recv-IsTable k hart msg v = elim (recv_cases k hart msg) [
  | inl e ↦ subst IsTable (sym e) v
  | inr (inl e) ↦ subst IsTable (sym e) (set_phase-IsTable k hart wait_ipc v)
  | inr (inr (i, e)) ↦ subst IsTable (sym e) (
      hand_over-IsTable (with_inbox k i (Ipc.pop (agent_at k i).inbox blank).2) hart i msg
        (Ipc.pop (agent_at k i).inbox blank).1
        (with_inbox-IsTable k i (Ipc.pop (agent_at k i).inbox blank).2 v
          (λ lt. pop-IsValid (agent_at k i).inbox blank (v.inboxes i lt))))
]

-- A kernel with tables of the right size, valid inboxes and running agents of the table is one after
-- every compaction of an inbox too.
pub compact_inbox-IsTable :
    (k : Kernel) (hart : ℕ) (keep : ℤ) → IsTable k → IsTable (compact_inbox k hart keep).1
unfolding compact_inbox
compact_inbox-IsTable k hart keep v = elim (Option-cases (current k hart)) [
  | inl e ↦ rw (e, compact_inbox) v
  | inr (i, e) ↦ elim (Bool-cases (has_cap (agent_at k i) cap_recv)) [
    | inr weak ↦ rw (e, weak, compact_inbox) v
    | inl cap ↦
        rw (e, cap, compact_inbox)
          (with_inbox-IsTable k i (Ipc.compact (agent_at k i).inbox keep).1 v
            (λ lt. compact-IsValid (agent_at k i).inbox keep (v.inboxes i lt)))
  ]
]
