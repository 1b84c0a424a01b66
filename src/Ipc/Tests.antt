-- ===== src/Ipc/Tests.antt =====
-- Examples for kernel/ipc.c: an inbox with an ordinary and a steering message.
use open_agent_os.Prelude.{◌≡◌, refl, [], ◌∷◌, pos, replicate}
use open_agent_os.Abi.{Msg, blank, msg_steer}
use open_agent_os.Ipc.{Msgbox, init, push, compact}
use open_agent_os.Ipc.Queue
use open_agent_os.Ipc.Refine.{IsValid, view, init-IsValid, push-IsValid}
use open_agent_os.Ipc.Compact.{compact_refines}
use open_agent_os.Ipc.Run.{sends, receives, compacts, run, run_queue, run_refines}

abbrev raw_box : Msgbox
raw_box = record {
  normal = replicate 16 blank;
  normal_head = 3;
  normal_tail = 9;
  normal_count = 2;
  steer = replicate 4 blank;
  steer_head = 1;
  steer_tail = 2;
  steer_count = 3;
}

abbrev hello : Msg
hello = record { sender_id = pos 1; kind = pos 2; payload = replicate 224 104 }

abbrev stop : Msg
stop = record { sender_id = pos 0; kind = msg_steer; payload = replicate 224 115 }

two_messages-IsValid : IsValid (push (push (init raw_box) hello).1 hello).1
two_messages-IsValid =
    push-IsValid (push (init raw_box) hello).1 hello
      (push-IsValid (init raw_box) hello (init-IsValid raw_box refl refl).0)

run_refines_example :
    run
      (init raw_box)
      (sends hello ∷ sends stop ∷ sends hello ∷ compacts (pos 1) ∷ receives blank ∷ [])
    ≡ run_queue
        (view (init raw_box))
        (sends hello ∷ sends stop ∷ sends hello ∷ compacts (pos 1) ∷ receives blank ∷ [])
run_refines_example =
    run_refines (sends hello ∷ sends stop ∷ sends hello ∷ compacts (pos 1) ∷ receives blank ∷ [])
      (init raw_box) (init-IsValid raw_box refl refl).0

compact_refines_example :
    ((compact (push (push (init raw_box) hello).1 hello).1 (pos 1)).0 ≡ pos 0)
    × (view (compact (push (push (init raw_box) hello).1 hello).1 (pos 1)).1
        ≡ Queue.compact (view (push (push (init raw_box) hello).1 hello).1) (pos 1))
compact_refines_example =
    compact_refines (push (push (init raw_box) hello).1 hello).1 (pos 1) two_messages-IsValid
