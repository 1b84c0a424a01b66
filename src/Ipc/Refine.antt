-- ===== src/Ipc/Refine.antt =====
-- kernel/ipc.c: the rings of the inbox as queues.
use open_agent_os.Prelude.{ℕ, ◌+◌, ◌%◌, ◌≤◌, ◌<◌, ◌≡◌, refl, List, [], arith, length, length-set}
use open_agent_os.Abi.{Msg, blank, msg_capacity, msg_steer_capacity}
use open_agent_os.Ring.{held, length-held, held-set, held-pop}
use open_agent_os.Ipc.{Msgbox, init, push, pop}
use open_agent_os.Ipc.Queue
use open_agent_os.Ipc.Queue.{Inbox}

-- One ring: all its slots are there, and head, tail and count agree.
pub record IsRing (cap : ℕ) (slots : List Msg) (head tail count : ℕ) : Type 0 where
  pub slots_len : length slots ≡ cap
  pub head_in : head < cap
  pub count_in : count ≤ cap
  pub tail_at : tail ≡ (head + count) % cap

pub record IsValid (b : Msgbox) : Type 0 where
  pub normal_ring : IsRing msg_capacity b.normal b.normal_head b.normal_tail b.normal_count
  pub steer_ring : IsRing msg_steer_capacity b.steer b.steer_head b.steer_tail b.steer_count

abbrev pub normal_held : Msgbox → List Msg
normal_held b = held blank msg_capacity b.normal b.normal_head b.normal_count

abbrev pub steer_held : Msgbox → List Msg
steer_held b = held blank msg_steer_capacity b.steer b.steer_head b.steer_count

-- The queues that the rings stand for.
unfoldable pub view : Msgbox → Inbox
view b = record { urgent = steer_held b; ordinary = normal_held b }

-- `msgbox_init` makes any two arrays of the right size an empty inbox.
pub init-IsValid :
    (b : Msgbox)
    → length b.normal ≡ msg_capacity
    → length b.steer ≡ msg_steer_capacity
    → IsValid (init b) × (view (init b) ≡ record { urgent = []; ordinary = [] })
unfolding init view
init-IsValid b hn hs = (
  record {
    normal_ring = record {
      slots_len = hn;
      head_in = omega arith;
      count_in = omega arith;
      tail_at = refl;
    };
    steer_ring = record {
      slots_len = hs;
      head_in = omega arith;
      count_in = omega arith;
      tail_at = refl;
    };
  },
  refl,
)

pub push-IsValid : (b : Msgbox) (m : Msg) → IsValid b → IsValid (push b m).1
unfolding push
push-IsValid b m v =
    ground (arith, length-set b.normal b.normal_tail m, length-set b.steer b.steer_tail m)

pub pop-IsValid : (b : Msgbox) (out : Msg) → IsValid b → IsValid (pop b out).2
unfolding pop
pop-IsValid b out v = ground arith

-- `msgbox_push` gives the status of the queues' push, and leaves the rings holding their result.
pub push_refines :
    (b : Msgbox) (m : Msg)
    → IsValid b
    → let (rc, b') = push b m in (rc, view b') ≡ Queue.push (view b) m
unfolding push Queue.push view
push_refines b m v = ground (
  arith,
  length-held blank msg_capacity b.normal b.normal_head b.normal_count,
  length-held blank msg_steer_capacity b.steer b.steer_head b.steer_count,
  held-set blank msg_capacity b.normal b.normal_head b.normal_count b.normal_tail m,
  held-set blank msg_steer_capacity b.steer b.steer_head b.steer_count b.steer_tail m,
)

-- `msgbox_pop` gives what the queues' pop gives, and leaves the rings holding the rest.
pub pop_refines :
    (b : Msgbox) (out : Msg)
    → IsValid b
    → let (rc, m, b') = pop b out in (rc, m, view b') ≡ Queue.pop (view b) out
unfolding pop Queue.pop view
pop_refines b out v = ground (
  arith,
  held-pop blank msg_capacity b.normal b.normal_head b.normal_count,
  held-pop blank msg_steer_capacity b.steer b.steer_head b.steer_count,
  length-held blank msg_capacity b.normal b.normal_head b.normal_count,
  length-held blank msg_steer_capacity b.steer b.steer_head b.steer_count,
)
