-- ===== src/Agent.antt =====
-- kernel/agent.c: the calls of an agent that go to its inbox, its phase and the agent table. Each takes
-- the hart that it runs on, for `current_agent`; user pointers are addresses, 0 for NULL. What a call
-- prints on the console is left out.
pub mod Post
pub mod Text
pub mod Send
pub mod Recv
pub mod Alloc
pub mod Invariant
pub mod RecvInvariant
mod Tests
use open_agent_os.Prelude.{
  ℕ, zero, suc, ◌+◌, ◌-◌, ◌*◌, ◌/◌, ◌%◌, ◌^◌, ◌<◌, Bool, true, false, not, ◌&&◌, ◌||◌, List, [],
  ◌∷◌, ◌++◌, ℤ, pos, negsuc, to_u32, is_zero, is_neg, ltb, leb, ◌==◌, if◌then◌else◌, get_or, set,
  take, length, replicate, Option, none, some, ◌⊎◌, inl, inr,
}
use open_agent_os.Abi.{
  max_agents, Msg, Phase, idle, turn, wait_ipc, msg_payload_size, cap_send, cap_recv, eperm, einval,
  enoent, eagain, efault, blank,
}
use open_agent_os.Bytes.{Str}
use open_agent_os.Ipc
use open_agent_os.Kernel.{
  Kernel, Agent, zombie, agent_at, set_agent, current, set_current, set_phase, has_cap, agent_get,
  is_unused, is_zombie, unused,
}
use open_agent_os.Quota.{ipc_allow, ipc_charge}
use open_agent_os.Sched.{notify_runnable}
use open_agent_os.Uaccess.{UserMem, copy_from_user, copy_to_user, user_strnlen}

-- The loop of `agent_init`. The exit code and the page table are not touched.
unfoldable pub init_agents : List Agent → List Agent
init_agents [] = []
init_agents (a ∷ rest) =
    record a {
      state = unused;
      phase = idle;
      name = [];
      has_tf = false;
      caps = 0;
      home_cpu = pos 0;
      running_cpu = negsuc 0;
      inbox = Ipc.init a.inbox;
    }
    ∷ init_agents rest

unfoldable pub agent_init : Kernel → ℕ → Kernel
agent_init k hart = record (set_current (record k { agents = init_agents k.agents }) hart none) {
  agent_count = 0;
}

-- The loop of `agent_alloc_id` from agent `i` on.
unfoldable pub alloc_from : ℕ → List Agent → ℤ
alloc_from i [] = negsuc 0
alloc_from i (a ∷ rest) =
    if is_unused a.state || is_zombie a.state then pos i else alloc_from (i + 1) rest

-- Agent 0 is never given out.
unfoldable pub alloc_id : List Agent → ℤ
alloc_id [] = negsuc 0
alloc_id (a ∷ rest) = alloc_from 1 rest

-- The payload of a message: these bytes, and zeros to the end of the array.
unfoldable pub padded : List ℕ → List ℕ
padded bytes = bytes ++ replicate (msg_payload_size - length bytes) 0

-- The part of `agent_send` that reads the caller's string: an error code, or the bytes.
unfoldable pub user_payload : Option UserMem → ℕ → ℤ ⊎ List ℕ
user_payload mem payload = elim (user_strnlen mem payload (msg_payload_size - 1)) [
  | negsuc e ↦ inl efault
  | pos len ↦
      if len == 0
      then inl einval
      else elim (copy_from_user mem payload len) [ none ↦ inl efault | some bytes ↦ inr bytes ]
]

-- `msgbox_push(&target->inbox, &msg)`
unfoldable pub push_to : Kernel → ℕ → Msg → ℤ × Kernel
push_to k dst msg =
    let (rc, box) = Ipc.push (agent_at k dst).inbox msg in
    (rc, set_agent k dst (record (agent_at k dst) { inbox = box }))

-- The end of `agent_send`: the push, the charge and the wake-up.
unfoldable pub post : Kernel → ℕ → ℕ → Msg → ℤ × Kernel
post k i dst msg =
    let (rc, k') = push_to k dst msg in
    if is_zero rc then (pos 0, notify_runnable (ipc_charge k' i) dst) else (rc, k')

-- `agent_send` once the target is known.
unfoldable pub send_to : Kernel → ℕ → ℕ → ℤ → ℕ → ℤ × Kernel
send_to k i dst kind payload =
    if is_zero (ipc_allow k i)
    then (elim (user_payload (agent_at k i).mem payload) [
      | inl e ↦ (e, k)
      | inr bytes ↦ post k i dst (record { sender_id = pos i; kind = kind; payload = padded bytes })
    ])
    else (ipc_allow k i, k)

-- `agent_send`
unfoldable pub send : Kernel → ℕ → ℤ → ℤ → ℕ → ℤ × Kernel
send k hart dst kind payload = elim (current k hart) [
  | none ↦ (eperm, k)
  | some i ↦
      if has_cap (agent_at k i) cap_send
      then (if payload == 0 then (einval, k) else (elim (agent_get k dst) [
        | none ↦ (enoent, k)
        | some t ↦ send_to k i t kind payload
      ]))
      else (eperm, k)
]

-- The bytes of a kernel string that a message takes: up to its end, 223 at most.
unfoldable pub kernel_payload : Str → List ℕ
kernel_payload text = take (msg_payload_size - 1) text

-- The end of `agent_send_kernel_nocheck`: the push and the wake-up.
unfoldable pub post_kernel : Kernel → ℕ → Msg → ℤ × Kernel
post_kernel k dst msg =
    let (rc, k') = push_to k dst msg in
    if is_zero rc then (pos 0, notify_runnable k' dst) else (rc, k')

-- `agent_send_kernel_nocheck`
unfoldable pub send_kernel_nocheck : Kernel → ℕ → ℤ → ℤ → Str → ℤ × Kernel
send_kernel_nocheck k i dst kind text =
    if has_cap (agent_at k i) cap_send
    then (elim (agent_get k dst) [
      | none ↦ (enoent, k)
      | some t ↦
          if length (kernel_payload text) == 0
          then (einval, k)
          else post_kernel k t
              (record { sender_id = pos i; kind = kind; payload = padded (kernel_payload text) })
    ])
    else (eperm, k)

-- `agent_send_kernel`
unfoldable pub send_kernel : Kernel → ℕ → ℤ → ℤ → Str → ℤ × Kernel
send_kernel k i dst kind text =
    let (rc, k') = send_kernel_nocheck k i dst kind text in
    if is_zero (ipc_allow k i)
    then (if is_zero rc then (rc, ipc_charge k' i) else (rc, k'))
    else (ipc_allow k i, k)

-- An `int` in memory, its low byte first.
unfoldable pub int_bytes : ℤ → List ℕ
int_bytes x =
    to_u32 x % 256 ∷ to_u32 x / 2 ^ 8 % 256 ∷ to_u32 x / 2 ^ 16 % 256 ∷ to_u32 x / 2 ^ 24 % 256 ∷ []

-- `struct agent_msg` in memory.
unfoldable pub msg_bytes : Msg → List ℕ
msg_bytes m = int_bytes m.sender_id ++ (int_bytes m.kind ++ m.payload)

abbrev pub with_inbox : Kernel → ℕ → Ipc.Msgbox → Kernel
with_inbox k i box = set_agent k i (record (agent_at k i) { inbox = box })

-- The end of `agent_recv`, for the message that was taken out.
unfoldable pub hand_over : Kernel → ℕ → ℕ → ℕ → Msg → ℤ × Kernel
hand_over k hart i msg kmsg = elim (copy_to_user (agent_at k i).mem msg (msg_bytes kmsg)) [
  | none ↦ (efault, (push_to k i kmsg).1)
  | some mem ↦
      (kmsg.kind, set_phase (set_agent k i (record (agent_at k i) { mem = mem })) hart turn)
]

-- `agent_recv`
unfoldable pub recv : Kernel → ℕ → ℕ → ℤ × Kernel
recv k hart msg = elim (current k hart) [
  | none ↦ (eperm, k)
  | some i ↦
      let (rc, kmsg, box) = Ipc.pop (agent_at k i).inbox blank in
      if has_cap (agent_at k i) cap_recv
      then (if msg == 0
          then (einval, k)
          else (if Ipc.is_empty (agent_at k i).inbox
              then (eagain, set_phase k hart wait_ipc)
              else (if is_zero rc
                  then hand_over (with_inbox k i box) hart i msg kmsg
                  else (eagain, k))))
      else (eperm, k)
]

-- `agent_compact_inbox`
unfoldable pub compact_inbox : Kernel → ℕ → ℤ → ℤ × Kernel
compact_inbox k hart keep = elim (current k hart) [
  | none ↦ (eperm, k)
  | some i ↦
      let (rc, box) = Ipc.compact (agent_at k i).inbox keep in
      if has_cap (agent_at k i) cap_recv then (rc, with_inbox k i box) else (eperm, k)
]

-- `agent_destroy`
unfoldable pub destroy : Kernel → ℤ → ℤ × Kernel
destroy k id = elim (agent_get k id) [
  | none ↦ (enoent, k)
  | some t ↦ (pos 0, set_agent k t (record (agent_at k t) { state = zombie }))
]

-- `agent_exit`
unfoldable pub exit : Kernel → ℕ → ℤ → Kernel
exit k hart code = elim (current k hart) [
  | none ↦ k
  | some i ↦
      set_agent k i
        (record (agent_at k i) { exit_code = code; state = zombie; running_cpu = negsuc 0 })
]
