-- ===== src/Sched/Progress.antt =====
-- kernel/sched.c: what `pick_next` returns, when it returns nothing, and how it answers
-- `sched_notify_runnable`.
use open_agent_os.Prelude.{
  ℕ, ◌+◌, ◌-◌, ◌%◌, ◌≤◌, ◌<◌, ◌≡◌, ◌≢◌, ◌⊎◌, refl, ap, ◌∙◌, subst, Bool-cases, leb, List, true,
  false, pos, negsuc, arith, get_or, length, Option, none, some, inl, inr, get_or-set_self,
  length-set,
}
use open_agent_os.Abi.{max_agents}
use open_agent_os.Kernel.{
  Kernel, Agent, State, unused, created, runnable, running, waiting, zombie, no_agent, max_harts,
  agent_at, is_zombie,
}
use open_agent_os.Sched.{queue_at, make_runnable, notify_runnable, rq_add, pick_next}
use open_agent_os.Sched.Pick.{
  IsReady, HasMail, Choice, by_mail, by_queue, by_round, by_none, pick_next-Choice, pick_mail_found,
  pick_mail_first, pick_round_found, pick_round-none, pick_queued_found,
}

make_runnable-state :
    (k : Kernel) (i : ℕ)
    → i < length k.agents
    → agent_at (make_runnable k i) i
      ≡ record (agent_at k i) { state = runnable; running_cpu = negsuc 0 }
unfolding make_runnable
make_runnable-state k i lt =
    get_or-set_self k.agents i (record (agent_at k i) { state = runnable; running_cpu = negsuc 0 })
      no_agent lt

-- What a choice returns.
Choice-runs :
    (k : Kernel) (hart i : ℕ) {r : Option ℕ × Kernel}
    → length k.agents ≡ max_agents
    → Choice k hart r
    → r.0 ≡ some i
    → (i < max_agents)
      × (HasMail hart (agent_at k i) ⊎ ((agent_at k i).state ≡ runnable))
      × ((agent_at r.1 i).state ≡ runnable)
Choice-runs k hart i table (by_mail j e r) h =
    let same : j ≡ i = cc in
    let found = pick_mail_found hart k.agents i (e ∙ ap some same) in
    let here : i < length k.agents = found.0 in
    (
      omega arith,
      inl found.1,
      ap (λ (x : Option ℕ × Kernel). (agent_at x.1 i).state)
            (r ∙ ap (λ (x : ℕ). (some x, make_runnable k x)) same)
          ∙ ap (λ (a : Agent). a.state) (make_runnable-state k i here),
    )
Choice-runs k hart i table (by_queue j e q r) h =
    let same : j ≡ i = cc in
    let found = pick_queued_found k (queue_at k hart) i (q ∙ ap some same) in
    (found.0, inr found.1, ap (λ (x : Option ℕ × Kernel). (agent_at x.1 i).state) r ∙ found.1)
Choice-runs k hart i table (by_round j e q r) h =
    let same : j ≡ i = cc in
    let found = pick_round_found k hart max_agents k.rr_next i (q ∙ ap some same) in
    (found.0, inr found.1.0, ap (λ (x : Option ℕ × Kernel). (agent_at x.1 i).state) r ∙ found.1.0)
Choice-runs k hart i table (by_none e q r) h = cc

-- In a kernel with twelve agents, what `pick_next` returns, on a hart of the table, is an agent of the table that had mail for this
-- hart or was runnable, and it is runnable when it is returned.
pick_next_runnable :
    (k : Kernel) (hart i : ℕ)
    → length k.agents ≡ max_agents
    → hart < max_harts
    → (pick_next k hart).0 ≡ some i
    → (i < max_agents)
      × (HasMail hart (agent_at k i) ⊎ ((agent_at k i).state ≡ runnable))
      × ((agent_at (pick_next k hart).1 i).state ≡ runnable)
pick_next_runnable k hart i table small h =
    Choice-runs k hart i table (pick_next-Choice k hart small) h

-- The pass of the last loop that looks at a given agent.
pass_of :
    (rr i : ℕ)
    → i < max_agents
    → (rr + (i + max_agents - rr % max_agents) % max_agents) % max_agents ≡ i
pass_of rr i lt = omega arith

Choice-misses_none :
    (k : Kernel) (hart i : ℕ) {r : Option ℕ × Kernel}
    → length k.agents ≡ max_agents
    → i < max_agents
    → Choice k hart r
    → r.0 ≡ none
    → (r.1 ≡ k) × (¬ IsReady hart (agent_at k i)) × (¬ HasMail hart (agent_at k i))
Choice-misses_none k hart i table lt (by_mail j e r) h = cc
Choice-misses_none k hart i table lt (by_queue j e q r) h = cc
Choice-misses_none k hart i table lt (by_round j e q r) h = cc
Choice-misses_none k hart i table lt (by_none e q r) h = (
  cc,
  subst (λ (x : ℕ). ¬ IsReady hart (agent_at k x)) (pass_of k.rr_next i lt)
      (pick_round-none k hart max_agents k.rr_next
        ((i + max_agents - k.rr_next % max_agents) % max_agents) q (omega arith)),
  pick_mail_first hart k.agents 0 i (inl e) (omega arith),
)

-- In a kernel with twelve agents, when `pick_next` finds nothing on a hart of the table, the kernel is as before, and no agent of the
-- table with this home hart is runnable, and none that was started and not destroyed has a message in
-- its inbox.
pub pick_next_misses_none :
    (k : Kernel) (hart i : ℕ)
    → length k.agents ≡ max_agents
    → hart < max_harts
    → i < max_agents
    → (pick_next k hart).0 ≡ none
    → ((pick_next k hart).1 ≡ k) × (¬ IsReady hart (agent_at k i)) × (¬ HasMail hart (agent_at k i))
pick_next_misses_none k hart i table small lt h =
    Choice-misses_none k hart i table lt (pick_next-Choice k hart small) h

Choice-prefers_mail :
    (k : Kernel) (hart i : ℕ) {r : Option ℕ × Kernel}
    → length k.agents ≡ max_agents
    → i < max_agents
    → HasMail hart (agent_at k i)
    → Choice k hart r
    → (j : ℕ) × (r.0 ≡ some j) × (j ≤ i) × HasMail hart (agent_at k j)
Choice-prefers_mail k hart i table lt m (by_mail j e r) = (
  j,
  ap (λ (x : Option ℕ × Kernel). x.0) r,
  first (Bool-cases (leb j i)),
  (pick_mail_found hart k.agents j e).1,
)
  where
    first : (leb j i ≡ true) ⊎ (leb j i ≡ false) → j ≤ i
    first (inl le) = ground arith
    first (inr gt) =
        absurd (pick_mail_first hart k.agents j i (inr (e, ground arith)) (ground arith) m)
Choice-prefers_mail k hart i table lt m (by_queue j e q r) =
    absurd (pick_mail_first hart k.agents 0 i (inl e) (omega arith) m)
Choice-prefers_mail k hart i table lt m (by_round j e q r) =
    absurd (pick_mail_first hart k.agents 0 i (inl e) (omega arith) m)
Choice-prefers_mail k hart i table lt m (by_none e q r) =
    absurd (pick_mail_first hart k.agents 0 i (inl e) (omega arith) m)

-- In a kernel with twelve agents, as long as an agent of a hart of the table, started and not
-- destroyed, has mail, `pick_next` on that hart returns it or such a one with a smaller index: an agent with a larger index is not chosen.
pub pick_next_prefers_mail :
    (k : Kernel) (hart i : ℕ)
    → length k.agents ≡ max_agents
    → hart < max_harts
    → i < max_agents
    → HasMail hart (agent_at k i)
    → (j : ℕ) × ((pick_next k hart).0 ≡ some j) × (j ≤ i) × HasMail hart (agent_at k j)
pick_next_prefers_mail k hart i table small lt m =
    Choice-prefers_mail k hart i table lt m (pick_next-Choice k hart small)

pub is_zombie-false : (s : State) → s ≢ zombie → is_zombie s ≡ false
is_zombie-false unused h = refl
is_zombie-false created h = refl
is_zombie-false runnable h = refl
is_zombie-false running h = refl
is_zombie-false waiting h = refl
is_zombie-false zombie h = absurd (h refl)

notify_runnable-agents :
    (k : Kernel) (i : ℕ)
    → (agent_at k i).state ≢ zombie
    → (notify_runnable k i).agents ≡ (make_runnable k i).agents
unfolding notify_runnable rq_add
notify_runnable-agents k i alive =
    rw (is_zombie-false (agent_at k i).state alive, notify_runnable) refl

length-make_runnable : (k : Kernel) (i : ℕ) → length (make_runnable k i).agents ≡ length k.agents
unfolding make_runnable
length-make_runnable k i =
    length-set k.agents i (record (agent_at k i) { state = runnable; running_cpu = negsuc 0 })

-- In a kernel with twelve agents, one that is not a zombie and lives on a hart of the table, once
-- `sched_notify_runnable` was called for it, keeps that hart's `pick_next` from finding nothing.
pub notify_runnable-pick_next :
    (k : Kernel) (hart i : ℕ)
    → length k.agents ≡ max_agents
    → hart < max_harts
    → i < max_agents
    → (agent_at k i).home_cpu ≡ pos hart
    → (agent_at k i).state ≢ zombie
    → (pick_next (notify_runnable k i) hart).0 ≢ none
notify_runnable-pick_next k hart i table small lt home alive h =
    let k' = notify_runnable k i in
    let ready : agent_at k' i ≡ record (agent_at k i) { state = runnable; running_cpu = negsuc 0 } =
      ap (λ (as_ : List Agent). get_or as_ i no_agent) (notify_runnable-agents k i alive)
      ∙ make_runnable-state k i (omega arith) in
    let size : length k'.agents ≡ max_agents =
      ap length (notify_runnable-agents k i alive) ∙ length-make_runnable k i ∙ table in
    (pick_next_misses_none k' hart i size small lt h).1
      (ap (λ (a : Agent). a.state) ready, ap (λ (a : Agent). a.home_cpu) ready ∙ home)
