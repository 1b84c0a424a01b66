-- ===== src/Agent/Tests.antt =====
-- Examples for kernel/agent.c: agent 1 sends to agent 2 and receives from its own inbox. Its memory has
-- a page at 0x40001000 that starts with the string "hi".
use open_agent_os.Prelude.{
  ℕ, zero, suc, ◌≤◌, ◌<◌, ◌≡◌, ◌≢◌, refl, sym, subst, Bool, true, false, List, [], ◌∷◌, pos, negsuc,
  replicate, get_or, some, none, arith, ◌==◌, if◌then◌else◌,
}
use open_agent_os.Abi.{max_agents, Msg, blank, efault, cap_recv}
use open_agent_os.Ipc
use open_agent_os.Ipc.Queue
use open_agent_os.Ipc.Refine.{IsValid, view}
use open_agent_os.Kernel.{
  Kernel, Agent, running, zombie, no_agent, agent_at, current, has_cap, agent_get,
}
use open_agent_os.Quota.{ipc_used, ipc_max, ipc_allow}
use open_agent_os.Uaccess.{
  UserMem, copy_to_user, copy_from_user, user_strnlen, strnlen_from, access_ok, user_bytes,
  store_bytes,
}
use open_agent_os.Vm.{PageTable, user_check, check_pages, page_of, pte_allows}
use open_agent_os.Agent.{
  send, send_to, user_payload, post, push_to, recv, alloc_id, alloc_from, msg_bytes, int_bytes,
}
use open_agent_os.Agent.Send.{IsTable, Delivered, send_fails, send_delivers, send_within}
use open_agent_os.Agent.Recv.{taken, recv_fault, recv_lem}
use open_agent_os.Agent.Invariant.{send-IsTable}
use open_agent_os.Agent.RecvInvariant.{recv-IsTable}

abbrev pages : Bool → PageTable
pages writable va =
    if va == 0x40001000
    then some (record {
      valid = true;
      readable = true;
      writable = writable;
      executable = false;
      user = true;
      frame = 0x80200000;
    })
    else none

abbrev memory : Bool → UserMem
memory writable = record {
  pt = pages writable;
  byte = λ va. if va == 0x40001000 then b'h' else (if va == 0x40001001 then b'i' else 0);
}

-- Two messages of different types.
abbrev first : Msg
first = record blank { kind = pos 7 }

abbrev second : Msg
second = record blank { kind = pos 8 }

abbrev inbox : Ipc.Msgbox
inbox = record {
  normal = first ∷ second ∷ replicate 14 blank;
  normal_head = 0;
  normal_tail = 2;
  normal_count = 2;
  steer = replicate 4 blank;
  steer_head = 0;
  steer_tail = 0;
  steer_count = 0;
}

inbox-IsValid : IsValid inbox
inbox-IsValid = record {
  normal_ring = record {
    slots_len = refl;
    head_in = omega arith;
    count_in = omega arith;
    tail_at = refl;
  };
  steer_ring = record {
    slots_len = refl;
    head_in = omega arith;
    count_in = omega arith;
    tail_at = refl;
  };
}

-- All capabilities, a memory that may be written or not, and the two messages.
abbrev agent : Bool → Agent
agent writable = record no_agent {
  state = running;
  caps = 0xff;
  inbox = inbox;
  mem = some (memory writable);
  running_cpu = pos 0;
}

-- Agent 1 runs on hart 0; all twelve agents are alike.
abbrev kernel : Bool → Kernel
kernel writable = record {
  agents = replicate 12 (agent writable);
  agent_count = 12;
  cpu_current = some 1 ∷ none ∷ none ∷ none ∷ [];
  cpu_rq = [] ∷ [] ∷ [] ∷ [] ∷ [];
  rr_next = 0;
  quota_ipc = replicate 12 3;
  quota_tool = replicate 12 0;
  online = 1;
  files = [];
}

all_alike {ℓ} : {A : Type ℓ} (n i : ℕ) (x d : A) → i < n → get_or (replicate n x) i d ≡ x
all_alike zero i x d h = absurd (omega arith)
all_alike (suc n) zero x d h = refl
all_alike (suc n) (suc i) x d h = all_alike n i x d (omega arith)

current_is : (hart i : ℕ) → current (kernel true) hart ≡ some i → i < max_agents
unfolding current
current_is zero i h = ground arith
current_is (suc zero) i h = cc
current_is (suc (suc zero)) i h = cc
current_is (suc (suc (suc zero))) i h = cc
current_is (suc (suc (suc (suc hart)))) i h = ground arith

kernel-IsTable : IsTable (kernel true)
kernel-IsTable = record {
  agents_len = refl;
  quota_len = refl;
  inboxes = λ i lt.
      subst (λ (a : Agent). IsValid a.inbox) (sym (all_alike 12 i (agent true) no_agent lt))
        inbox-IsValid;
  currents = current_is;
}

send_works : (send (kernel true) 0 (pos 2) (pos 5) 0x40001000).0 ≡ pos 0
unfolding send current has_cap agent_get send_to ipc_allow user_payload user_strnlen strnlen_from
    access_ok copy_from_user user_bytes user_check check_pages page_of pte_allows post push_to
    Ipc.push
send_works = refl

send_delivers_example :
    Delivered
      (kernel true)
      0
      (pos 2)
      (pos 5)
      0x40001000
      (send (kernel true) 0 (pos 2) (pos 5) 0x40001000).1
send_delivers_example =
    send_delivers (kernel true) 0 (pos 2) (pos 5) 0x40001000 kernel-IsTable send_works

send_refused : (send (kernel true) 0 (pos 12) (pos 5) 0x40001000).0 ≢ pos 0
unfolding send current has_cap agent_get
send_refused h = cc

send_fails_example : (send (kernel true) 0 (pos 12) (pos 5) 0x40001000).1 ≡ kernel true
send_fails_example = send_fails (kernel true) 0 (pos 12) (pos 5) 0x40001000 send_refused

send_within_example : ipc_used (send (kernel true) 0 (pos 2) (pos 5) 0x40001000).1 1 ≤ ipc_max
send_within_example = send_within (kernel true) 0 (pos 2) (pos 5) 0x40001000 1 (omega arith)

may_receive : has_cap (agent_at (kernel true) 1) cap_recv ≡ true
unfolding has_cap
may_receive = refl

may_receive_too : has_cap (agent_at (kernel false) 1) cap_recv ≡ true
unfolding has_cap
may_receive_too = refl

has_mail : Ipc.is_empty inbox ≡ false
unfolding Ipc.is_empty
has_mail = refl

runs : (writable : Bool) → current (kernel writable) 0 ≡ some 1
unfolding current
runs writable = refl

cannot_write :
    copy_to_user (agent_at (kernel false) 1).mem 0x40001000 (msg_bytes (taken (kernel false) 1))
    ≡ none
unfolding copy_to_user access_ok user_check check_pages page_of pte_allows msg_bytes int_bytes
    Ipc.pop
cannot_write = refl

can_write :
    copy_to_user (agent_at (kernel true) 1).mem 0x40001000 (msg_bytes (taken (kernel true) 1))
    ≡ some (store_bytes (some (memory true)) 0x40001000 (msg_bytes (taken (kernel true) 1)))
unfolding copy_to_user access_ok user_check check_pages page_of pte_allows msg_bytes int_bytes
    Ipc.pop
can_write = refl

recv_fault_example :
    ((recv (kernel false) 0 0x40001000).0 ≡ efault)
    × ((Queue.pop (view inbox) blank).0 ≡ pos 0)
    × (view (agent_at (recv (kernel false) 0 0x40001000).1 1).inbox
        ≡ (Queue.push (Queue.pop (view inbox) blank).2 (Queue.pop (view inbox) blank).1).1)
recv_fault_example =
    recv_fault (kernel false) 0 1 0x40001000 (runs false) may_receive_too (λ e. omega arith)
      (omega arith) inbox-IsValid has_mail cannot_write

recv_lem_example :
    ((recv (kernel true) 0 0x40001000).0 ≡ (Queue.pop (view inbox) blank).1.kind)
    × ((Queue.pop (view inbox) blank).0 ≡ pos 0)
    × ((agent_at (recv (kernel true) 0 0x40001000).1 1).mem
        ≡ store_bytes (some (memory true)) 0x40001000 (msg_bytes (taken (kernel true) 1)))
    × (view (agent_at (recv (kernel true) 0 0x40001000).1 1).inbox
        ≡ (Queue.pop (view inbox) blank).2)
recv_lem_example =
    recv_lem (kernel true) 0 1 0x40001000
      (store_bytes (some (memory true)) 0x40001000 (msg_bytes (taken (kernel true) 1))) (runs true)
      may_receive (λ e. omega arith) (omega arith) inbox-IsValid has_mail can_write

-- The kernel's slot, a running agent, a free slot.
abbrev slots : List Agent
slots = agent true ∷ agent true ∷ record no_agent { state = zombie } ∷ no_agent ∷ []

abbrev taken_slots : List Agent
taken_slots = no_agent ∷ agent true ∷ agent true ∷ []

finds_two : alloc_id slots ≡ pos 2
unfolding alloc_id alloc_from
finds_two = refl

finds_none : alloc_id taken_slots ≡ negsuc 0
unfolding alloc_id alloc_from
finds_none = refl

send-IsTable_example : IsTable (send (kernel true) 0 (pos 2) (pos 5) 0x40001000).1
send-IsTable_example = send-IsTable (kernel true) 0 (pos 2) (pos 5) 0x40001000 kernel-IsTable

recv-IsTable_example : IsTable (recv (kernel true) 0 0x40001000).1
recv-IsTable_example = recv-IsTable (kernel true) 0 0x40001000 kernel-IsTable
