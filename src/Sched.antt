-- ===== src/Sched.antt =====
-- kernel/sched.c: the run queues, the choice of the next agent, and the bookkeeping of a switch. The
-- queues change under `sched_lock` only, so each call is one step. What only moves registers, sends
-- interrupts or halts is left out.
pub mod Queue
pub mod Pick
pub mod Progress
mod Tests
use mathlib.Core.Option
use open_agent_os.Prelude.{
  ℕ, zero, suc, ◌+◌, ◌-◌, ◌%◌, ◌<◌, Bool, true, false, ◌&&◌, ◌||◌, not, List, [], ◌∷◌, ◌++◌, ℤ, pos,
  negsuc, is_neg, int_eq, ltb, leb, ◌==◌, if◌then◌else◌, pos_part, get_or, set, length, Option,
  none, some,
}
use open_agent_os.Abi.{max_agents}
use open_agent_os.Ipc
use open_agent_os.Kernel.{
  Kernel, Agent, State, unused, created, runnable, running, waiting, zombie, max_harts, agent_at,
  set_agent, current, set_current, agent_get, is_unused, is_zombie, is_created, is_running,
  is_runnable,
}

-- The queue that an agent of this home hart goes to.
unfoldable pub queue_of : ℤ → ℕ
queue_of (negsuc n) = 0
queue_of (pos cpu) = if leb max_harts cpu then 0 else cpu

unfoldable pub holds : List ℕ → ℕ → Bool
holds [] id = false
holds (x ∷ xs) id = x == id || holds xs id

-- `sched_rq_add_locked`, on one queue.
unfoldable pub rq_insert : List ℕ → ℕ → List ℕ
rq_insert q id = if holds q id then q else (if leb max_agents (length q) then q else q ++ id ∷ [])

-- `sched_rq_remove_locked`, on one queue: the first entry goes and the later ones move down.
unfoldable pub rq_delete : List ℕ → ℕ → List ℕ
rq_delete [] id = []
rq_delete (x ∷ xs) id = if x == id then xs else x ∷ rq_delete xs id

abbrev pub queue_at : Kernel → ℕ → List ℕ
queue_at k cpu = get_or k.cpu_rq cpu []

unfoldable pub rq_add : Kernel → ℕ → Kernel
rq_add k i =
    let cpu = queue_of (agent_at k i).home_cpu in
    record k { cpu_rq = set k.cpu_rq cpu (rq_insert (queue_at k cpu) i) }

unfoldable pub rq_remove : Kernel → ℤ → ℕ → Kernel
rq_remove k home i =
    let cpu = queue_of home in record k { cpu_rq = set k.cpu_rq cpu (rq_delete (queue_at k cpu) i) }

-- An agent made ready: the two assignments that `sched_notify_runnable`, `schedule_trap` and
-- `pick_next` share.
unfoldable pub make_runnable : Kernel → ℕ → Kernel
make_runnable k i =
    set_agent k i (record (agent_at k i) { state = runnable; running_cpu = negsuc 0 })

-- `sched_notify_runnable`
unfoldable pub notify_runnable : Kernel → ℕ → Kernel
notify_runnable k i = if is_zombie (agent_at k i).state then k else rq_add (make_runnable k i) i

-- `sched_agent_selectable`
unfoldable pub selectable : Agent → Bool
selectable a =
    not (is_unused a.state || is_zombie a.state || is_created a.state || is_running a.state)

-- `sched_agent_has_inbox`
unfoldable pub has_inbox : Agent → Bool
has_inbox a = not (is_unused a.state || is_zombie a.state || is_created a.state)

-- `sched_has_runnable`
unfoldable pub any_runnable : List Agent → Bool
any_runnable [] = false
any_runnable (a ∷ rest) =
    (selectable a && (is_runnable a.state || not (Ipc.is_empty a.inbox))) || any_runnable rest

unfoldable pub has_runnable : Kernel → Bool
has_runnable k = any_runnable k.agents

unfoldable pub any_active : List Agent → Bool
any_active [] = false
any_active (a ∷ rest) = not (is_unused a.state || is_zombie a.state) || any_active rest

-- `sched_system_done`; agent 0 does not count.
unfoldable pub system_done : Kernel → Bool
system_done k =
    elim k.agents [ [] ↦ true | a ∷ rest ↦ not (any_active rest) ] && not (has_runnable k)

-- `pick_from_runqueues`, along one queue.
unfoldable pub pick_queued : Kernel → List ℕ → Option ℕ
pick_queued k [] = none
pick_queued k (id ∷ rest) =
    if not (is_unused (agent_at k id).state)
      && ltb id max_agents
      && is_runnable (agent_at k id).state
      && is_neg (agent_at k id).running_cpu
    then some id
    else pick_queued k rest

-- The first loop of `pick_next`: the first agent of this hart with mail.
unfoldable pub pick_mail : ℕ → List Agent → Option ℕ
pick_mail hart [] = none
pick_mail hart (a ∷ rest) =
    if has_inbox a && int_eq a.home_cpu (pos hart) && not (Ipc.is_empty a.inbox)
    then some 0
    else Option.map suc (pick_mail hart rest)

-- The last loop of `pick_next`, with `left` passes to go.
unfoldable pub pick_round : Kernel → ℕ → ℕ → ℕ → Option ℕ
pick_round k hart zero idx = none
pick_round k hart (suc left) idx =
    let a = agent_at k (idx % max_agents) in
    if selectable a && int_eq a.home_cpu (pos hart) && is_runnable a.state
    then some (idx % max_agents)
    else pick_round k hart left (idx + 1)

unfoldable pub pick_next : Kernel → ℕ → Option ℕ × Kernel
pick_next k hart = elim (pick_mail hart k.agents) [
  | some i ↦ (some i, make_runnable k i)
  | none ↦ elim (if ltb hart max_harts then pick_queued k (queue_at k hart) else none) [
    | some i ↦ (some i, k)
    | none ↦ elim (pick_round k hart max_agents k.rr_next) [
      | some i ↦ (some i, record k { rr_next = (i + 1) % max_agents })
      | none ↦ (none, k)
    ]
  ]
]

-- What `schedule_trap` does to the agent that was running.
unfoldable pub yield_current : Kernel → ℕ → Kernel
yield_current k hart = elim (current k hart) [
  | none ↦ k
  | some i ↦ if is_running (agent_at k i).state then rq_add (make_runnable k i) i else k
]

-- What `schedule_trap` and `sched_cpu_run_loop` do to the agent that was picked.
unfoldable pub switch_to : Kernel → ℕ → ℕ → Kernel
switch_to k hart i =
    let k' = set_current k hart (some i) in
    let a = agent_at k' i in
    rq_remove (set_agent k' i (record a { state = running; running_cpu = pos hart })) a.home_cpu i

-- One pass of the loop of `schedule_trap`; `none` is a wait, after which it tries again.
unfoldable pub schedule_once : Kernel → ℕ → Option ℕ × Kernel
schedule_once k hart =
    let (next, k') = pick_next (yield_current k hart) hart in
    elim next [ none ↦ (none, k') | some i ↦ (some i, switch_to k' hart i) ]
