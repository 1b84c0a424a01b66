-- ===== src/Ipc.antt =====
-- kernel/ipc.c: an agent's inbox, a ring of ordinary messages beside a ring of steering messages.
-- Each function holds `msgbox_lock` from its first access to its last, so it is one step here.
-- `msg_copy` copies every field, which is the copy of a value.
mod Summary
pub mod Queue
pub mod Refine
pub mod Compact
pub mod Run
pub mod Terminated
pub mod Text
mod Tests
pub use Summary.{summary, Out}
use open_agent_os.Prelude.{
  ℕ, zero, suc, ◌+◌, ◌-◌, ◌%◌, Bool, true, false, ◌&&◌, List, [], ◌∷◌, ℤ, pos, negsuc, is_neg, ltb,
  leb, ◌==◌, int_eq, if◌then◌else◌, get_or, set, take, drop, length,
}
use open_agent_os.Abi.{Msg, blank, msg_capacity, msg_steer_capacity, msg_steer, enospc, eagain}

-- `struct msgbox`; `normal` has 16 slots and `steer` has 4.
pub record Msgbox : Type 0 where
  pub normal : List Msg
  pub normal_head : ℕ
  pub normal_tail : ℕ
  pub normal_count : ℕ
  pub steer : List Msg
  pub steer_head : ℕ
  pub steer_tail : ℕ
  pub steer_count : ℕ

-- The slots keep what they held.
unfoldable pub init : Msgbox → Msgbox
init box = record box {
  normal_head = 0;
  normal_tail = 0;
  normal_count = 0;
  steer_head = 0;
  steer_tail = 0;
  steer_count = 0;
}

unfoldable pub is_priority_type : ℤ → Bool
is_priority_type t = int_eq t msg_steer

unfoldable pub is_empty : Msgbox → Bool
is_empty box = box.normal_count == 0 && box.steer_count == 0

unfoldable pub push : Msgbox → Msg → ℤ × Msgbox
unfolding is_priority_type
push box msg =
    if is_priority_type msg.kind
    then (if leb msg_steer_capacity box.steer_count then (enospc, box) else (
      pos 0,
      record box {
        steer = set box.steer box.steer_tail msg;
        steer_tail = (box.steer_tail + 1) % msg_steer_capacity;
        steer_count = box.steer_count + 1;
      },
    ))
    else (if leb msg_capacity box.normal_count then (enospc, box) else (
      pos 0,
      record box {
        normal = set box.normal box.normal_tail msg;
        normal_tail = (box.normal_tail + 1) % msg_capacity;
        normal_count = box.normal_count + 1;
      },
    ))

-- The message goes out through `msg`, which a failure leaves as it was.
unfoldable pub pop : Msgbox → Msg → ℤ × Msg × Msgbox
pop box out =
    if ltb 0 box.steer_count
    then (
      pos 0,
      get_or box.steer box.steer_head blank,
      record box {
        steer_head = (box.steer_head + 1) % msg_steer_capacity;
        steer_count = box.steer_count - 1;
      },
    )
    else (if box.normal_count == 0 then (eagain, out, box) else (
      pos 0,
      get_or box.normal box.normal_head blank,
      record box {
        normal_head = (box.normal_head + 1) % msg_capacity;
        normal_count = box.normal_count - 1;
      },
    ))

-- The first loop of `msgbox_compact`: `ordered[i] = normal[(normal_head + i) % 16]` for i < n.
unfoldable pub ordered_from : List Msg → ℕ → ℕ → ℕ → List Msg
ordered_from slots head i zero = []
ordered_from slots head i (suc n) =
    get_or slots ((head + i) % msg_capacity) blank ∷ ordered_from slots head (i + 1) n

-- `for (i = 0; i < out; i++) normal[i] = rebuilt[i]`
unfoldable pub write_slots : List Msg → ℕ → List Msg → List Msg
write_slots slots i [] = slots
write_slots slots i (m ∷ ms) = write_slots (set slots i m) (i + 1) ms

-- The bounds that `keep` is brought into.
unfoldable pub clamp_keep : ℤ → ℕ
clamp_keep (pos n) = if ltb msg_capacity n then msg_capacity else n
clamp_keep (negsuc n) = 0

-- The body once there is something to drop.
unfoldable pub compact_by : Msgbox → ℕ → Msgbox
unfolding ordered_from write_slots
compact_by box drop_count =
    let total = box.normal_count in
    let ordered = ordered_from box.normal box.normal_head 0 total in
    let rebuilt = summary drop_count ordered ∷ drop drop_count ordered in
    let out = 1 + (total - drop_count) in
    record box {
      normal = write_slots box.normal 0 rebuilt;
      normal_head = 0;
      normal_tail = out % msg_capacity;
      normal_count = out;
    }

unfoldable pub compact : Msgbox → ℤ → ℤ × Msgbox
compact box keep =
    if leb box.normal_count (clamp_keep keep)
    then (pos 0, box)
    else (pos 0, compact_by box (box.normal_count - clamp_keep keep))
