-- ===== src/Agent/Post.antt =====
-- The end of a send: the push into the target's inbox, the charge and the wake-up.
use open_agent_os.Prelude.{
  ℕ, ◌+◌, ◌<◌, ◌≡◌, ◌≢◌, ◌⊎◌, refl, ap, sym, ◌∙◌, true, false, List, ℤ, pos, negsuc, arith, is_zero,
  leb, if◌then◌else◌, get_or, length, Bool-cases, inl, inr, get_or-set_self, set_same, set_keeps,
}
use open_agent_os.Abi.{max_agents, Msg}
use open_agent_os.Ipc
use open_agent_os.Ipc.Queue
use open_agent_os.Ipc.Refine.{IsValid, view, push_refines}
use open_agent_os.Kernel.{Kernel, Agent, zombie, runnable, no_agent, agent_at, set_agent}
use open_agent_os.Quota.{ipc_used, ipc_charge}
use open_agent_os.Sched.Progress.{is_zombie-false}
use open_agent_os.Sched.{notify_runnable, make_runnable, rq_add}
use open_agent_os.Agent.{push_to, post}

-- `msgbox_push` fails by leaving the rings as they are.
pub push_cases :
    (b : Ipc.Msgbox) (m : Msg)
    → ((Ipc.push b m).0 ≡ pos 0) ⊎ (((Ipc.push b m).0 ≢ pos 0) × ((Ipc.push b m).1 ≡ b))
unfolding Ipc.push
push_cases b m = ground arith

pub is_zero_sound : (x : ℤ) → is_zero x ≡ true → x ≡ pos 0
is_zero_sound (pos n) h = ground arith
is_zero_sound (negsuc n) h = cc

pub push_to_fails :
    (k : Kernel) (dst : ℕ) (m : Msg) → (push_to k dst m).0 ≢ pos 0 → (push_to k dst m).1 ≡ k
unfolding push_to
push_to_fails k dst m h = elim (push_cases (agent_at k dst).inbox m) [
  | inl ok ↦ absurd (h ok)
  | inr (bad, same) ↦
      ap (λ (b : Ipc.Msgbox). set_agent k dst (record (agent_at k dst) { inbox = b })) same
      ∙ ap (λ (as_ : List Agent). record k { agents = as_ }) (set_same k.agents dst no_agent)
]

pub notify_runnable-inbox :
    (k : Kernel) (i j : ℕ) → (agent_at (notify_runnable k i) j).inbox ≡ (agent_at k j).inbox
unfolding notify_runnable make_runnable rq_add
notify_runnable-inbox k i j = ground (
  arith,
  set_keeps (λ (a : Agent). a.inbox) k.agents i j
      (record (agent_at k i) { state = runnable; running_cpu = negsuc 0 }) no_agent refl,
)

pub notify_runnable-quota : (k : Kernel) (i : ℕ) → (notify_runnable k i).quota_ipc ≡ k.quota_ipc
unfolding notify_runnable make_runnable rq_add
notify_runnable-quota k i = ground arith

notify_runnable-state :
    (k : Kernel) (i : ℕ)
    → i < length k.agents
    → (agent_at k i).state ≢ zombie
    → (agent_at (notify_runnable k i) i).state ≡ runnable
unfolding notify_runnable make_runnable rq_add
notify_runnable-state k i lt alive = ground (
  arith,
  is_zombie-false (agent_at k i).state alive,
  get_or-set_self k.agents i (record (agent_at k i) { state = runnable; running_cpu = negsuc 0 })
      no_agent lt,
)

pub post_ok :
    (k : Kernel) (i t : ℕ) (m : Msg)
    → (post k i t m).0 ≡ pos 0
    → ((push_to k t m).0 ≡ pos 0)
      × ((post k i t m).1 ≡ notify_runnable (ipc_charge (push_to k t m).1 i) t)
unfolding post
post_ok k i t m h = elim (Bool-cases (is_zero (push_to k t m).0)) [
  | inl ok ↦ (is_zero_sound (push_to k t m).0 ok, rw (ok, post) refl)
  | inr bad ↦ absurd (ground arith)
]

pub charge-agents : (k : Kernel) (i : ℕ) → (ipc_charge k i).agents ≡ k.agents
unfolding ipc_charge
charge-agents k i = ground arith

charge-used :
    (k : Kernel) (i : ℕ)
    → i < max_agents
    → length k.quota_ipc ≡ max_agents
    → ipc_used (ipc_charge k i) i ≡ ipc_used k i + 1
unfolding ipc_charge
charge-used k i lt size =
    ground (arith, get_or-set_self k.quota_ipc i (get_or k.quota_ipc i 0 + 1) 0)

pub push_to-inbox :
    (k : Kernel) (t : ℕ) (m : Msg)
    → t < length k.agents
    → (agent_at (push_to k t m).1 t).inbox ≡ (Ipc.push (agent_at k t).inbox m).1
unfolding push_to
push_to-inbox k t m lt =
    ap (λ (a : Agent). a.inbox)
      (get_or-set_self k.agents t
        (record (agent_at k t) { inbox = (Ipc.push (agent_at k t).inbox m).1 }) no_agent lt)

push_to-quota : (k : Kernel) (t : ℕ) (m : Msg) → (push_to k t m).1.quota_ipc ≡ k.quota_ipc
unfolding push_to
push_to-quota k t m = refl

pushed :
    (b : Ipc.Msgbox) (m : Msg)
    → IsValid b
    → (Ipc.push b m).0 ≡ pos 0
    → Queue.push (view b) m ≡ (pos 0, view (Ipc.push b m).1)
pushed b m v ok = sym (push_refines b m v) ∙ ap (λ (rc : ℤ). (rc, view (Ipc.push b m).1)) ok

-- What a push to an agent that succeeds leaves behind.
pub post_delivers :
    (k : Kernel) (i t : ℕ) (m : Msg)
    → t < length k.agents
    → i < max_agents
    → length k.quota_ipc ≡ max_agents
    → IsValid (agent_at k t).inbox
    → (post k i t m).0 ≡ pos 0
    → (Queue.push (view (agent_at k t).inbox) m ≡ (pos 0, view (agent_at (post k i t m).1 t).inbox))
      × (ipc_used (post k i t m).1 i ≡ ipc_used k i + 1)
unfolding push_to
post_delivers k i t m lt small size v h =
    let k' = (push_to k t m).1 in
    let (pushed_ok, done) = post_ok k i t m h in
    (
      pushed (agent_at k t).inbox m v pushed_ok
          ∙ ap (λ (q : Queue.Inbox). (pos 0, q))
              (sym (
                ap (λ (s : Kernel). view (agent_at s t).inbox) done
                ∙ ap view (notify_runnable-inbox (ipc_charge k' i) t t)
                ∙ ap (λ (as_ : List Agent). view (get_or as_ t no_agent).inbox) (charge-agents k' i)
                ∙ ap view (push_to-inbox k t m lt))),
      ap (λ (s : Kernel). ipc_used s i) done
          ∙ ap (λ (q : List ℕ). if leb max_agents i then 0 else get_or q i 0)
              (notify_runnable-quota (ipc_charge k' i) t)
          ∙ charge-used k' i small (ap length (push_to-quota k t m) ∙ size)
          ∙ ap (λ (q : List ℕ). (if leb max_agents i then 0 else get_or q i 0) + 1)
              (push_to-quota k t m),
    )

pub post_fails : (k : Kernel) (i t : ℕ) (m : Msg) → (post k i t m).0 ≢ pos 0 → (post k i t m).1 ≡ k
unfolding post
post_fails k i t m h = ground (arith, push_to_fails k t m)

pub is_zero-false : {x : ℤ} → x ≡ pos 0 → is_zero x ≢ false
is_zero-false {x = pos n} h z = ground arith
is_zero-false {x = negsuc n} h z = cc

charge-push_to :
    (k : Kernel) (i t : ℕ) (m : Msg) (j : ℕ)
    → ipc_used (ipc_charge (push_to k t m).1 i) j ≡ ipc_used (ipc_charge k i) j
unfolding ipc_charge push_to
charge-push_to k i t m j = ground arith

-- The counters after a push and what follows it.
pub post-used :
    (k : Kernel) (i t : ℕ) (m : Msg) (j : ℕ)
    → (ipc_used (post k i t m).1 j ≡ ipc_used k j)
      ⊎ (ipc_used (post k i t m).1 j ≡ ipc_used (ipc_charge k i) j)
post-used k i t m j = elim (Bool-cases (is_zero (post k i t m).0)) [
  | inr bad ↦
      inl (ap (λ (s : Kernel). ipc_used s j) (post_fails k i t m (λ z. is_zero-false z bad)))
  | inl ok ↦ inr (
      ap (λ (s : Kernel). ipc_used s j) ((post_ok k i t m (is_zero_sound (post k i t m).0 ok)).1)
      ∙ ap (λ (q : List ℕ). if leb max_agents j then 0 else get_or q j 0)
          (notify_runnable-quota (ipc_charge (push_to k t m).1 i) t)
      ∙ charge-push_to k i t m j)
]
