-- ===== src/Agent/Send.antt =====
-- kernel/agent.c: how `agent_send` ends, and what it has done then.
use open_agent_os.Prelude.{
  ℕ, zero, suc, ◌+◌, ◌-◌, ◌≤◌, ◌<◌, ◌≡◌, ◌≢◌, refl, ap, sym, ◌∙◌, subst, true, List, [], ◌∷◌, ◌++◌,
  replicate, ℤ, pos, negsuc, arith, leb, ◌==◌, get_or, set, length, some, Bool-cases, Option-cases,
  Sum-cases, inl, inr, get_or-set_ne,
}
use open_agent_os.Uaccess.{UserMem}
use open_agent_os.Uaccess.Text.{IsText}
use open_agent_os.Abi.{max_agents, Msg, msg_payload_size, cap_send}
use open_agent_os.Ipc.Queue
use open_agent_os.Ipc.Refine.{IsValid, view}
use open_agent_os.Kernel.{Kernel, agent_at, current, has_cap, agent_get}
use open_agent_os.Quota.{ipc_used, ipc_allow, ipc_charge, ipc_max}
use open_agent_os.Agent.{padded, user_payload, post, send_to, send}
use open_agent_os.Agent.Text.{user_payload-IsText}
use open_agent_os.Agent.Post.{post_delivers, post_fails, post-used}

abbrev pub message : ℕ → ℤ → List ℕ → Msg
message i kind bytes = record {
  sender_id = pos i;
  kind = kind;
  payload = bytes ++ replicate (msg_payload_size - length bytes) 0;
}

-- How a send ends: refused before the push, or with the push and what follows it.
pub data Sent (k : Kernel) (hart : ℕ) (dst kind : ℤ) (payload : ℕ) : ℤ × Kernel → Type 0 where
  refused : {r : ℤ × Kernel} → r.0 ≢ pos 0 → r.1 ≡ k → Sent k hart dst kind payload r
  posted :
      {r : ℤ × Kernel} (i t : ℕ) (bytes : List ℕ)
      → current k hart ≡ some i
      → has_cap (agent_at k i) cap_send ≡ true
      → agent_get k dst ≡ some t
      → ipc_allow k i ≡ pos 0
      → user_payload (agent_at k i).mem payload ≡ inr bytes
      → r ≡ post k i t (message i kind bytes)
      → Sent k hart dst kind payload r

user_payload-error :
    (k : Kernel) (i payload : ℕ) (e : ℤ)
    → user_payload (agent_at k i).mem payload ≡ inl e
    → e ≢ pos 0
unfolding user_payload
user_payload-error k i payload e h z = ground arith

send_to-Sent :
    (k : Kernel) (hart : ℕ) (dst kind : ℤ) (payload i t : ℕ)
    → current k hart ≡ some i
    → has_cap (agent_at k i) cap_send ≡ true
    → agent_get k dst ≡ some t
    → Sent k hart dst kind payload (send_to k i t kind payload)
unfolding send_to ipc_allow padded
send_to-Sent k hart dst kind payload i t at cap got =
    elim (Bool-cases (leb ipc_max (ipc_used k i))) [
      | inl out ↦ refused (ground arith) (ground arith)
      | inr room ↦ elim (Sum-cases (user_payload (agent_at k i).mem payload)) [
        | inl (e, bad) ↦ refused (ground (arith, user_payload-error k i payload e)) (ground arith)
        | inr (bytes, good) ↦
            posted i t bytes at cap got (ground arith) good (rw (room, good, send_to) refl)
      ]
    ]

-- Each send ends in one of these ways.
pub send-Sent :
    (k : Kernel) (hart : ℕ) (dst kind : ℤ) (payload : ℕ)
    → Sent k hart dst kind payload (send k hart dst kind payload)
unfolding send
send-Sent k hart dst kind payload = elim (Option-cases (current k hart)) [
  | inl idle ↦ refused (ground arith) (ground arith)
  | inr (i, at) ↦ elim (Bool-cases (has_cap (agent_at k i) cap_send)) [
    | inr weak ↦ refused (ground arith) (ground arith)
    | inl cap ↦ elim (Bool-cases (payload == 0)) [
      | inl null ↦ refused (ground arith) (ground arith)
      | inr some_text ↦ elim (Option-cases (agent_get k dst)) [
        | inl gone ↦ refused (ground arith) (ground arith)
        | inr (t, got) ↦
            subst (Sent k hart dst kind payload)
              (sym (
                let e : send k hart dst kind payload ≡ send_to k i t kind payload = ground arith in
                e))
              (send_to-Sent k hart dst kind payload i t at cap got)
      ]
    ]
  ]
]

Sent-fails :
    {k : Kernel} {hart : ℕ} {dst kind : ℤ} {payload : ℕ} {r : ℤ × Kernel}
    → Sent k hart dst kind payload r
    → r.0 ≢ pos 0
    → r.1 ≡ k
Sent-fails (refused bad same) h = same
Sent-fails {k = k} {kind = kind} (posted i t bytes at cap got allow text e) h =
    ap (λ (x : ℤ × Kernel). x.1) e
    ∙ post_fails k i t (message i kind bytes) (λ z. h (ap (λ (x : ℤ × Kernel). x.0) e ∙ z))

-- A send that does not return 0 leaves the whole state of the kernel as it was: no message, no charge,
-- no agent made ready.
pub send_fails :
    (k : Kernel) (hart : ℕ) (dst kind : ℤ) (payload : ℕ)
    → (send k hart dst kind payload).0 ≢ pos 0
    → (send k hart dst kind payload).1 ≡ k
send_fails k hart dst kind payload = Sent-fails (send-Sent k hart dst kind payload)

-- The entries that the tables of a kernel must have.
pub record IsTable (k : Kernel) : Type 0 where
  pub agents_len : length k.agents ≡ max_agents
  pub quota_len : length k.quota_ipc ≡ max_agents
  pub inboxes : (i : ℕ) → i < max_agents → IsValid (agent_at k i).inbox
  pub currents : (hart i : ℕ) → current k hart ≡ some i → i < max_agents

pub agent_get-lt :
    (k : Kernel) (id : ℤ) (t : ℕ) → agent_get k id ≡ some t → (id ≡ pos t) × (t < max_agents)
unfolding agent_get
agent_get-lt k (pos n) t h = ground arith
agent_get-lt k (negsuc n) t h = cc

allowed : (k : Kernel) (i : ℕ) → ipc_allow k i ≡ pos 0 → ipc_used k i < ipc_max
unfolding ipc_allow
allowed k i h = ground arith

-- What a send that succeeded is and does.
abbrev pub Delivered : Kernel → ℕ → ℤ → ℤ → ℕ → Kernel → Type 0
Delivered k hart dst kind payload k' =
    (i : ℕ) × (t : ℕ) × (m : UserMem) × (bytes : List ℕ) × (current k hart ≡ some i)
    × (has_cap (agent_at k i) cap_send ≡ true)
    × (dst ≡ pos t)
    × (ipc_used k i < ipc_max)
    × ((agent_at k i).mem ≡ some m)
    × (0 < length bytes)
    × IsText m payload 223 bytes
    × (Queue.push (view (agent_at k t).inbox) (message i kind bytes)
        ≡ (pos 0, view (agent_at k' t).inbox))
    × (ipc_used k' i ≡ ipc_used k i + 1)

Sent-delivers :
    {k : Kernel} {hart : ℕ} {dst kind : ℤ} {payload : ℕ} {r : ℤ × Kernel}
    → IsTable k
    → Sent k hart dst kind payload r
    → r.0 ≡ pos 0
    → Delivered k hart dst kind payload r.1
Sent-delivers v (refused bad same) h = absurd (bad h)
Sent-delivers {k = k} {hart = hart} {dst = dst} {kind = kind} {payload = payload} v
      (posted i t bytes at cap got allow text e) h =
    let (is_t, lt) = agent_get-lt k dst t got in
    let small = v.currents hart i at in
    let (queued, charged) =
      post_delivers k i t (message i kind bytes) (subst (λ n. t < n) (sym v.agents_len) lt) small
        v.quota_len (v.inboxes t lt) (sym (ap (λ (x : ℤ × Kernel). x.0) e) ∙ h) in
    let (m, memory, some_text, is_text) =
      user_payload-IsText (agent_at k i).mem payload bytes text in
    (
      i,
      t,
      m,
      bytes,
      at,
      cap,
      is_t,
      allowed k i allow,
      memory,
      some_text,
      is_text,
      queued ∙ ap (λ (x : ℤ × Kernel). (pos 0, view (agent_at x.1 t).inbox)) (sym e),
      ap (λ (x : ℤ × Kernel). ipc_used x.1 i) e ∙ charged,
    )

-- A send that returns 0, in a kernel with tables of the right size, comes from an agent with the
-- capability to send whose messages did not reach the quota. The target's queue for the message's type
-- had room and holds the message at its end: its bytes are those of the string at the address, one to
-- 223 of them, up to its terminator if that comes before, with zeros behind them, and the sender is charged one message.
pub send_delivers :
    (k : Kernel) (hart : ℕ) (dst kind : ℤ) (payload : ℕ)
    → IsTable k
    → (send k hart dst kind payload).0 ≡ pos 0
    → Delivered k hart dst kind payload (send k hart dst kind payload).1
send_delivers k hart dst kind payload v = Sent-delivers v (send-Sent k hart dst kind payload)

set_bound : (q : List ℕ) (i v : ℕ) → get_or (set q i v) i 0 ≤ v
set_bound [] i v = omega arith
set_bound (x ∷ xs) zero v = omega arith
set_bound (x ∷ xs) (suc i) v = set_bound xs i v

charge-within :
    (k : Kernel) (i j : ℕ)
    → ipc_used k i < ipc_max
    → ipc_used k j ≤ ipc_max
    → ipc_used (ipc_charge k i) j ≤ ipc_max
unfolding ipc_charge
charge-within k i j room le = elim (Bool-cases (i == j)) [
  | inr other ↦ ground (arith, get_or-set_ne k.quota_ipc i j (get_or k.quota_ipc i 0 + 1) 0)
  | inl same ↦
      let e : i ≡ j = ground arith in
      ground (
        arith,
        set_bound k.quota_ipc i (get_or k.quota_ipc i 0 + 1),
        ap (λ n. get_or (set k.quota_ipc i (get_or k.quota_ipc i 0 + 1)) n 0) e,
      )
]

Sent-within :
    {k : Kernel} {hart : ℕ} {dst kind : ℤ} {payload : ℕ} {r : ℤ × Kernel} (j : ℕ)
    → Sent k hart dst kind payload r
    → ipc_used k j ≤ ipc_max
    → ipc_used r.1 j ≤ ipc_max
Sent-within j (refused bad same) le = subst (λ (s : Kernel). ipc_used s j ≤ ipc_max) (sym same) le
Sent-within {k = k} {kind = kind} j (posted i t bytes at cap got allow text e) le =
    subst (λ (r : ℤ × Kernel). ipc_used r.1 j ≤ ipc_max) (sym e)
      (elim (post-used k i t (message i kind bytes) j) [
        | inl same ↦ subst (λ n. n ≤ ipc_max) (sym same) le
        | inr charged ↦
            subst (λ n. n ≤ ipc_max) (sym charged) (charge-within k i j (allowed k i allow) le)
      ])

-- No send takes any agent over its quota of messages.
pub send_within :
    (k : Kernel) (hart : ℕ) (dst kind : ℤ) (payload j : ℕ)
    → ipc_used k j ≤ ipc_max
    → ipc_used (send k hart dst kind payload).1 j ≤ ipc_max
send_within k hart dst kind payload j = Sent-within j (send-Sent k hart dst kind payload)
