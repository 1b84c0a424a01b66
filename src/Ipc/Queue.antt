-- ===== src/Ipc/Queue.antt =====
-- The specification of kernel/ipc.c: a queue of steering messages before a queue of ordinary ones,
-- each bounded.
use open_agent_os.Prelude.{
  ℕ, ◌+◌, ◌-◌, Bool, true, false, List, [], ◌∷◌, ◌++◌, ℤ, pos, pos_part, to_u32, ltb, leb, int_eq,
  if◌then◌else◌, length, take, drop, replicate,
}
use open_agent_os.Abi.{
  Msg, msg_capacity, msg_steer_capacity, msg_steer, msg_summary, enospc, eagain,
}
use open_agent_os.Decimal.{decimal}

-- Both queues, oldest message first.
pub record Inbox : Type 0 where
  pub urgent : List Msg
  pub ordinary : List Msg

unfoldable pub push : Inbox → Msg → ℤ × Inbox
push q m =
    if int_eq m.kind msg_steer
    then (if leb msg_steer_capacity (length q.urgent)
        then (enospc, q)
        else (pos 0, record q { urgent = q.urgent ++ m ∷ [] }))
    else (if leb msg_capacity (length q.ordinary)
        then (enospc, q)
        else (pos 0, record q { ordinary = q.ordinary ++ m ∷ [] }))

unfoldable pub pop_from : List Msg → List Msg → Msg → ℤ × Msg × Inbox
pop_from (m ∷ ms) ns out = (pos 0, m, record { urgent = ms; ordinary = ns })
pop_from [] (n ∷ ns) out = (pos 0, n, record { urgent = []; ordinary = ns })
pop_from [] [] out = (eagain, out, record { urgent = []; ordinary = [] })

unfoldable pub pop : Inbox → Msg → ℤ × Msg × Inbox
unfolding pop_from
pop q out = pop_from q.urgent q.ordinary out

-- What a summary says of each message: "t<type>", with a comma before it unless it is the first. No
-- message is told of once the text before it, of `at` bytes, has 216 or more.
unfoldable pub told : ℕ → Bool → List Msg → List ℕ
told at first [] = []
told at first (m ∷ ms) =
    let entry = (if first then [] else b',' ∷ []) ++ b't' ∷ decimal (to_u32 m.kind) in
    let rest = told (at + length entry) false ms in if ltb at 216 then entry ++ rest else []

-- "compact:<number of messages>;" and what is told of them.
unfoldable pub summary_text : List Msg → List ℕ
summary_text ms =
    let head =
      b'c' ∷ b'o' ∷ b'm' ∷ b'p' ∷ b'a' ∷ b'c' ∷ b't' ∷ b':' ∷ (decimal (length ms) ++ b';' ∷ []) in
    head ++ told (length head) true ms

-- The first 223 bytes of a text, with zeros up to the size of a payload.
abbrev pub cut : List ℕ → List ℕ
cut text = take 223 text ++ replicate (224 - length (take 223 text)) 0

-- One message of the system in place of these.
abbrev pub summary_of : List Msg → Msg
summary_of ms = record { sender_id = pos 0; kind = msg_summary; payload = cut (summary_text ms) }

-- All but the `keep` newest ordinary messages, none of them if it is negative, give way to one summary
-- of them.
unfoldable pub compact : Inbox → ℤ → Inbox
compact q keep =
    if leb (length q.ordinary) (pos_part keep)
    then q
    else (let dropped = length q.ordinary - pos_part keep in
        record q { ordinary = summary_of (take dropped q.ordinary) ∷ drop dropped q.ordinary })
