-- ===== src/Sched/Pick.antt =====
-- kernel/sched.c: the loops of `pick_next`, and the choice that they make.
use open_agent_os.Prelude.{
  ℕ, zero, suc, ◌+◌, ◌%◌, ◌<◌, ◌≡◌, ◌≢◌, ◌↔◌, ◌⊎◌, ◌||◌, refl, ap, subst, Bool, true, false, not,
  ◌&&◌, List, [], ◌∷◌, pos, arith, int_eq, int_eq_iff, get_or, length, Option, none, some,
  Bool-cases, Option-cases, inl, inr,
}
use open_agent_os.Abi.{max_agents}
use open_agent_os.Ipc
use open_agent_os.Kernel.{
  Kernel, Agent, unused, created, running, waiting, zombie, is_unused, is_zombie, is_created,
  runnable, no_agent, max_harts, agent_at, is_runnable,
}
use open_agent_os.Sched.{
  selectable, has_inbox, make_runnable, pick_queued, queue_at, pick_mail, pick_round, pick_next,
}

-- An agent of a hart that could run there.
abbrev pub IsReady : ℕ → Agent → Type 0
IsReady hart a = (a.state ≡ runnable) × (a.home_cpu ≡ pos hart)

-- An agent of a hart that was started and not destroyed, with a message in one of its rings.
abbrev pub HasMail : ℕ → Agent → Type 0
HasMail hart a =
    (a.state ≢ unused)
    × (a.state ≢ created)
    × (a.state ≢ zombie)
    × (a.home_cpu ≡ pos hart)
    × (0 < a.inbox.normal_count + a.inbox.steer_count)

-- What `sched_agent_has_inbox` tells.
has_inbox_iff :
    (a : Agent)
    → (has_inbox a ≡ true) ↔ ((a.state ≢ unused) × (a.state ≢ created) × (a.state ≢ zombie))
unfolding has_inbox
has_inbox_iff a =
    elim a.state
      as (λ s.
        (not (is_unused s || is_zombie s || is_created s) ≡ true)
        ↔ ((s ≢ unused) × (s ≢ created) × (s ≢ zombie))) [
          | unused ↦ (λ h. cc, λ h. absurd (h.0 refl))
          | created ↦ (λ h. cc, λ h. absurd (h.1 refl))
          | runnable ↦ (λ h. (λ e. cc, λ e. cc, λ e. cc), λ h. refl)
          | running ↦ (λ h. (λ e. cc, λ e. cc, λ e. cc), λ h. refl)
          | waiting ↦ (λ h. (λ e. cc, λ e. cc, λ e. cc), λ h. refl)
          | zombie ↦ (λ h. cc, λ h. absurd (h.2 refl))
        ]

is_empty_iff : (b : Ipc.Msgbox) → (Ipc.is_empty b ≡ false) ↔ (0 < b.normal_count + b.steer_count)
unfolding Ipc.is_empty
is_empty_iff b = ground arith

mail_parts :
    (hart : ℕ) (a : Agent)
    → (has_inbox a && int_eq a.home_cpu (pos hart) && not (Ipc.is_empty a.inbox)) ≡ true
    → (has_inbox a ≡ true) × (a.home_cpu ≡ pos hart) × (Ipc.is_empty a.inbox ≡ false)
mail_parts hart a h = ground (arith, int_eq_iff a.home_cpu (pos hart))

mail_seen :
    (hart : ℕ) (a : Agent)
    → HasMail hart a
    → (has_inbox a && int_eq a.home_cpu (pos hart) && not (Ipc.is_empty a.inbox)) ≡ true
mail_seen hart a (u, c, z, at, some_mail) =
    let live = (has_inbox_iff a).1 (u, c, z) in
    let box = (is_empty_iff a.inbox).1 some_mail in ground (arith, int_eq_iff a.home_cpu (pos hart))

mail_test :
    (hart : ℕ) (a : Agent)
    → (has_inbox a && int_eq a.home_cpu (pos hart) && not (Ipc.is_empty a.inbox)) ≡ true
    → HasMail hart a
mail_test hart a h =
    let (live, at, some_mail) = mail_parts hart a h in
    let (u, c, z) = (has_inbox_iff a).0 live in (u, c, z, at, (is_empty_iff a.inbox).0 some_mail)

-- The mail loop finds the first agent with mail.
pub pick_mail_found :
    (hart : ℕ) (as_ : List Agent) (j : ℕ)
    → pick_mail hart as_ ≡ some j
    → (j < length as_) × HasMail hart (get_or as_ j no_agent)
unfolding pick_mail
pick_mail_found hart [] j h = cc
pick_mail_found hart (a ∷ rest) zero h = ground (arith, mail_test hart a)
pick_mail_found hart (a ∷ rest) (suc j) h = ground (arith, pick_mail_found hart rest j)

-- No agent before the one found has mail, and none at all if nothing is found.
pub pick_mail_first :
    (hart : ℕ) (as_ : List Agent) (i j : ℕ)
    → (pick_mail hart as_ ≡ none) ⊎ ((pick_mail hart as_ ≡ some i) × (j < i))
    → j < length as_
    → ¬ HasMail hart (get_or as_ j no_agent)
unfolding pick_mail
pick_mail_first hart [] i j h lt m = absurd (omega arith)
pick_mail_first hart (a ∷ rest) i zero h lt m = ground (arith, mail_seen hart a m)
pick_mail_first hart (a ∷ rest) zero (suc j) h lt m =
    ground (arith, pick_mail_first hart rest zero j)
pick_mail_first hart (a ∷ rest) (suc i) (suc j) h lt m =
    ground (arith, pick_mail_first hart rest i j)

round_test :
    (hart : ℕ) (a : Agent)
    → ((selectable a && int_eq a.home_cpu (pos hart) && is_runnable a.state) ≡ true
        → IsReady hart a)
      × (IsReady hart a
          → (selectable a && int_eq a.home_cpu (pos hart) && is_runnable a.state) ≡ true)
unfolding selectable
round_test hart a = (
  λ h. ground (arith, int_eq_iff a.home_cpu (pos hart)),
  λ h. ground (arith, int_eq_iff a.home_cpu (pos hart)),
)

pub pick_round_found :
    (k : Kernel) (hart left idx j : ℕ)
    → pick_round k hart left idx ≡ some j
    → (j < max_agents) × IsReady hart (agent_at k j)
unfolding pick_round
pick_round_found k hart zero idx j h = cc
pick_round_found k hart (suc left) idx j h = elim (Bool-cases test) [
  | inl ready ↦
      let found : some (idx % max_agents) ≡ some j = ground arith in
      let at : idx % max_agents ≡ j = ground arith in
      (
        omega arith,
        subst (λ (i : ℕ). IsReady hart (agent_at k i)) at
            ((round_test hart (agent_at k (idx % max_agents))).0 ready),
      )
  | inr busy ↦ pick_round_found k hart left (idx + 1) j (ground arith)
]
  where
    test : Bool
    test =
        selectable (agent_at k (idx % max_agents))
        && int_eq (agent_at k (idx % max_agents)).home_cpu (pos hart)
        && is_runnable (agent_at k (idx % max_agents)).state

pub pick_round-none :
    (k : Kernel) (hart left idx p : ℕ)
    → pick_round k hart left idx ≡ none
    → p < left
    → ¬ IsReady hart (agent_at k ((idx + p) % max_agents))
unfolding pick_round
pick_round-none k hart zero idx p h lt r = absurd (omega arith)
pick_round-none k hart (suc left) idx zero h lt r =
    let same : idx + 0 ≡ idx = omega arith in
    let ready =
      (round_test hart (agent_at k (idx % max_agents))).1
        (subst (λ (i : ℕ). IsReady hart (agent_at k (i % max_agents))) same r) in
    ground arith
pick_round-none k hart (suc left) idx (suc p) h lt r =
    let same : idx + suc p ≡ idx + 1 + p = omega arith in
    pick_round-none k hart left (idx + 1) p (ground arith) (omega arith)
      (subst (λ (i : ℕ). IsReady hart (agent_at k (i % max_agents))) same r)

pub pick_queued_found :
    (k : Kernel) (q : List ℕ) (j : ℕ)
    → pick_queued k q ≡ some j
    → (j < max_agents) × ((agent_at k j).state ≡ runnable)
unfolding pick_queued
pick_queued_found k [] j h = cc
pick_queued_found k (id ∷ rest) j h =
    ground
      (arith, pick_queued_found k rest j, λ (e : id ≡ j). ap (λ (i : ℕ). (agent_at k i).state) e)

-- The choice of `pick_next`, by the loop that makes it.
pub data Choice (k : Kernel) (hart : ℕ) : Option ℕ × Kernel → Type 0 where
  by_mail :
      {r : Option ℕ × Kernel} (i : ℕ)
      → pick_mail hart k.agents ≡ some i
      → r ≡ (some i, make_runnable k i)
      → Choice k hart r
  by_queue :
      {r : Option ℕ × Kernel} (i : ℕ)
      → pick_mail hart k.agents ≡ none
      → pick_queued k (queue_at k hart) ≡ some i
      → r ≡ (some i, k)
      → Choice k hart r
  by_round :
      {r : Option ℕ × Kernel} (i : ℕ)
      → pick_mail hart k.agents ≡ none
      → pick_round k hart max_agents k.rr_next ≡ some i
      → r ≡ (some i, record k { rr_next = (i + 1) % max_agents })
      → Choice k hart r
  by_none :
      {r : Option ℕ × Kernel}
      → pick_mail hart k.agents ≡ none
      → pick_round k hart max_agents k.rr_next ≡ none
      → r ≡ (none, k)
      → Choice k hart r

-- `pick_next` makes one of these choices.
pub pick_next-Choice : (k : Kernel) (hart : ℕ) → hart < max_harts → Choice k hart (pick_next k hart)
unfolding pick_next
pick_next-Choice k hart small = elim (Option-cases (pick_mail hart k.agents)) [
  | inr (i, e) ↦ by_mail i e (rw (e, pick_next) refl)
  | inl e ↦ elim (Option-cases (pick_queued k (queue_at k hart))) [
    | inr (i, q) ↦ by_queue i e q (ground arith)
    | inl q ↦ elim (Option-cases (pick_round k hart max_agents k.rr_next)) [
      | inr (i, r) ↦ by_round i e r (ground arith)
      | inl r ↦ by_none e r (ground arith)
    ]
  ]
]
