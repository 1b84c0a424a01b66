-- ===== src/Agent/Recv.antt =====
-- What `agent_recv` does with the message that it takes out.
use open_agent_os.Prelude.{
  ℕ, ◌<◌, ◌≡◌, ◌≢◌, refl, ap, sym, ◌∙◌, true, false, ℤ, pos, arith, length, Option, none, some,
  Option-cases, inl, inr, subst, set_keeps, get_or-set_self, length-set,
}
use open_agent_os.Abi.{Msg, Phase, turn, blank, efault, cap_recv}
use open_agent_os.Ipc
use open_agent_os.Ipc.Queue
use open_agent_os.Ipc.Refine.{IsValid, view, push_refines, pop_refines, pop-IsValid}
use open_agent_os.Kernel.{Kernel, Agent, no_agent, agent_at, set_agent, current, set_phase, has_cap}
use open_agent_os.Uaccess.{UserMem, copy_to_user}
use open_agent_os.Agent.{msg_bytes, push_to, with_inbox, hand_over, recv}
use open_agent_os.Agent.Post.{push_to-inbox}

-- The message that a receive takes out, and the inbox that is left.
abbrev pub taken : Kernel → ℕ → Msg
taken k i = (Ipc.pop (agent_at k i).inbox blank).1

abbrev pub rest : Kernel → ℕ → Ipc.Msgbox
rest k i = (Ipc.pop (agent_at k i).inbox blank).2

pop_ok : (b : Ipc.Msgbox) (out : Msg) → Ipc.is_empty b ≡ false → (Ipc.pop b out).0 ≡ pos 0
unfolding Ipc.is_empty Ipc.pop
pop_ok b out h = ground arith

recv-hand_over :
    (k : Kernel) (hart i msg : ℕ)
    → current k hart ≡ some i
    → has_cap (agent_at k i) cap_recv ≡ true
    → msg ≢ 0
    → Ipc.is_empty (agent_at k i).inbox ≡ false
    → recv k hart msg ≡ hand_over (with_inbox k i (rest k i)) hart i msg (taken k i)
unfolding recv
recv-hand_over k hart i msg at cap ptr full = ground (arith, pop_ok (agent_at k i).inbox blank full)

-- The kernel without the message, and the agent in it.
abbrev without : Kernel → ℕ → Kernel
without k i = with_inbox k i (rest k i)

without-agent :
    (k : Kernel) (i : ℕ)
    → i < length k.agents
    → agent_at (without k i) i ≡ record (agent_at k i) { inbox = rest k i }
without-agent k i lt =
    get_or-set_self k.agents i (record (agent_at k i) { inbox = rest k i }) no_agent lt

length-without : (k : Kernel) (i : ℕ) → length (without k i).agents ≡ length k.agents
length-without k i = length-set k.agents i (record (agent_at k i) { inbox = rest k i })

without-mem :
    (k : Kernel) (i msg : ℕ) (r : Option (Option UserMem))
    → i < length k.agents
    → copy_to_user (agent_at k i).mem msg (msg_bytes (taken k i)) ≡ r
    → copy_to_user (agent_at (without k i) i).mem msg (msg_bytes (taken k i)) ≡ r
without-mem k i msg r lt h =
    ap (λ (a : Agent). copy_to_user a.mem msg (msg_bytes (taken k i))) (without-agent k i lt) ∙ h

hand_over-fault :
    (k : Kernel) (hart i msg : ℕ) (m : Msg)
    → copy_to_user (agent_at k i).mem msg (msg_bytes m) ≡ none
    → hand_over k hart i msg m ≡ (efault, (push_to k i m).1)
unfolding hand_over
hand_over-fault k hart i msg m h = ground arith

hand_over-good :
    (k : Kernel) (hart i msg : ℕ) (m : Msg) (mem : Option UserMem)
    → copy_to_user (agent_at k i).mem msg (msg_bytes m) ≡ some mem
    → hand_over k hart i msg m
      ≡ (m.kind, set_phase (set_agent k i (record (agent_at k i) { mem = mem })) hart turn)
unfolding hand_over
hand_over-good k hart i msg m mem h = ground arith

set_phase-keeps {ℓ} :
    {B : Type ℓ} (f : Agent → B) (k : Kernel) (hart : ℕ) (p : Phase) (j : ℕ)
    → ((a : Agent) → f (record a { phase = p }) ≡ f a)
    → f (agent_at (set_phase k hart p) j) ≡ f (agent_at k j)
unfolding set_phase
set_phase-keeps f k hart p j h = elim (Option-cases (current k hart)) [
  | inl e ↦ rw (e, set_phase) refl
  | inr (i, e) ↦
      rw (e, set_phase)
        (set_keeps f k.agents i j (record (agent_at k i) { phase = p }) no_agent (h (agent_at k i)))
]

-- An agent of the table with the capability to receive and a valid inbox that is not empty, that asks
-- for its next message at an address the kernel may not write, gets EFAULT; the message is pushed
-- again, so that it goes to the end of its queue.
pub recv_fault :
    (k : Kernel) (hart i msg : ℕ)
    → current k hart ≡ some i
    → has_cap (agent_at k i) cap_recv ≡ true
    → msg ≢ 0
    → i < length k.agents
    → IsValid (agent_at k i).inbox
    → Ipc.is_empty (agent_at k i).inbox ≡ false
    → copy_to_user (agent_at k i).mem msg (msg_bytes (taken k i)) ≡ none
    → let (rc, m, left) = Queue.pop (view (agent_at k i).inbox) blank in
      ((recv k hart msg).0 ≡ efault)
      × (rc ≡ pos 0)
      × (view (agent_at (recv k hart msg).1 i).inbox ≡ (Queue.push left m).1)
recv_fault k hart i msg at cap ptr lt v full bad =
    let b = (agent_at k i).inbox in
    let m = taken k i in
    let k' = without k i in
    let done =
      recv-hand_over k hart i msg at cap ptr full
      ∙ hand_over-fault k' hart i msg m (without-mem k i msg none lt bad) in
    (
      ap (λ (r : ℤ × Kernel). r.0) done,
      sym (ap (λ (r : ℤ × Msg × Queue.Inbox). r.0) (pop_refines b blank v)) ∙ pop_ok b blank full,
      ap (λ (r : ℤ × Kernel). view (agent_at r.1 i).inbox) done
          ∙ ap view (push_to-inbox k' i m (subst (λ n. i < n) (sym (length-without k i)) lt))
          ∙ ap (λ (a : Agent). view (Ipc.push a.inbox m).1) (without-agent k i lt)
          ∙ ap (λ (r : ℤ × Queue.Inbox). r.1) (push_refines (rest k i) m (pop-IsValid b blank v))
          ∙ ap (λ (r : ℤ × Msg × Queue.Inbox). (Queue.push r.2 r.1).1) (pop_refines b blank v),
    )

-- An agent of the table with the capability to receive and a valid inbox that is not empty, that asks
-- for its next message at an address the kernel may write, gets as a result the type of the message that the queues' pop gives, and its inbox is
-- left with the rest.
pub recv_lem :
    (k : Kernel) (hart i msg : ℕ) (mem : Option UserMem)
    → current k hart ≡ some i
    → has_cap (agent_at k i) cap_recv ≡ true
    → msg ≢ 0
    → i < length k.agents
    → IsValid (agent_at k i).inbox
    → Ipc.is_empty (agent_at k i).inbox ≡ false
    → copy_to_user (agent_at k i).mem msg (msg_bytes (taken k i)) ≡ some mem
    → let (rc, m, left) = Queue.pop (view (agent_at k i).inbox) blank in
      ((recv k hart msg).0 ≡ m.kind)
      × (rc ≡ pos 0)
      × ((agent_at (recv k hart msg).1 i).mem ≡ mem)
      × (view (agent_at (recv k hart msg).1 i).inbox ≡ left)
recv_lem k hart i msg mem at cap ptr lt v full good =
    let b = (agent_at k i).inbox in
    let m = taken k i in
    let k' = without k i in
    let a' = record (agent_at k' i) { mem = mem } in
    let done =
      recv-hand_over k hart i msg at cap ptr full
      ∙ hand_over-good k' hart i msg m mem (without-mem k i msg (some mem) lt good) in
    let there =
      get_or-set_self k'.agents i a' no_agent (subst (λ n. i < n) (sym (length-without k i)) lt) in
    (
      ap (λ (r : ℤ × Kernel). r.0) done
          ∙ ap (λ (r : ℤ × Msg × Queue.Inbox). r.1.kind) (pop_refines b blank v),
      sym (ap (λ (r : ℤ × Msg × Queue.Inbox). r.0) (pop_refines b blank v)) ∙ pop_ok b blank full,
      ap (λ (r : ℤ × Kernel). (agent_at r.1 i).mem) done
          ∙ set_phase-keeps (λ (a : Agent). a.mem) (set_agent k' i a') hart turn i (λ a. refl)
          ∙ ap (λ (a : Agent). a.mem) there,
      ap (λ (r : ℤ × Kernel). view (agent_at r.1 i).inbox) done
          ∙ ap view
              (set_phase-keeps (λ (a : Agent). a.inbox) (set_agent k' i a') hart turn i (λ a. refl))
          ∙ ap (λ (a : Agent). view a.inbox) there
          ∙ ap (λ (a : Agent). view a.inbox) (without-agent k i lt)
          ∙ ap (λ (r : ℤ × Msg × Queue.Inbox). r.2) (pop_refines b blank v),
    )
