-- ===== src/Ipc/Run.antt =====
-- kernel/ipc.c: sequences of calls on an inbox and on its queues.
use open_agent_os.Prelude.{◌≡◌, refl, List, [], ◌∷◌, ℤ, pos}
use open_agent_os.Abi.{Msg}
use open_agent_os.Ipc.{Msgbox, push, pop, compact}
use open_agent_os.Ipc.Queue
use open_agent_os.Ipc.Queue.{Inbox}
use open_agent_os.Ipc.Refine.{IsValid, view, push-IsValid, pop-IsValid, push_refines, pop_refines}
use open_agent_os.Ipc.Compact.{compact-IsValid, compact_refines}

-- A call, with the message that a receiver's buffer holds before it.
pub data Call : Type 0 where
  sends : Msg → Call
  receives : Msg → Call
  compacts : ℤ → Call

-- The status, and what the receiver's buffer holds afterwards.
pub data Reply : Type 0 where
  answered : ℤ → Reply
  received : ℤ → Msg → Reply

unfoldable pub run : Msgbox → List Call → List Reply
run b [] = []
run b (sends m ∷ cs) = let (rc, b') = push b m in answered rc ∷ run b' cs
run b (receives out ∷ cs) = let (rc, m, b') = pop b out in received rc m ∷ run b' cs
run b (compacts keep ∷ cs) = let (rc, b') = compact b keep in answered rc ∷ run b' cs

unfoldable pub run_queue : Inbox → List Call → List Reply
run_queue q [] = []
run_queue q (sends m ∷ cs) = let (rc, q') = Queue.push q m in answered rc ∷ run_queue q' cs
run_queue q (receives out ∷ cs) =
    let (rc, m, q') = Queue.pop q out in received rc m ∷ run_queue q' cs
run_queue q (compacts keep ∷ cs) = answered (pos 0) ∷ run_queue (Queue.compact q keep) cs

-- A valid inbox answers every sequence of sends, receives and compactions as the two bounded
-- queues of its messages do.
pub run_refines : (cs : List Call) (b : Msgbox) → IsValid b → run b cs ≡ run_queue (view b) cs
unfolding run run_queue
run_refines [] b v = refl
run_refines (sends m ∷ cs) b v =
    rw (run_refines cs (push b m).1 (push-IsValid b m v), ← push_refines b m v)
run_refines (receives out ∷ cs) b v =
    rw (run_refines cs (pop b out).2 (pop-IsValid b out v), ← pop_refines b out v)
run_refines (compacts keep ∷ cs) b v = rw (
  run_refines cs (compact b keep).1 (compact-IsValid b keep v),
  (compact_refines b keep v).0,
  (compact_refines b keep v).1,
)
