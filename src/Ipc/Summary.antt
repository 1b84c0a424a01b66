-- ===== src/Ipc/Summary.antt =====
-- The summary message that `msgbox_compact` writes in place of the messages that it drops:
-- "compact:<dropped>;t<type>,t<type>,…", in an array of zeros, cut short before it is full.
use open_agent_os.Prelude.{
  ℕ, ◌+◌, ◌-◌, List, [], ◌∷◌, ltb, zero, suc, if◌then◌else◌, true, false, ℤ, pos, set, replicate,
  to_u32,
}
use open_agent_os.Abi.{Msg, msg_payload_size, msg_summary}
use open_agent_os.Decimal.{decimal}

-- The array that is written, and `*pos`.
pub record Out : Type 0 where
  pub buf : List ℕ
  pub at : ℕ

-- `payload_putc`; the last byte of the array is never written.
unfoldable pub putc : ℕ → Out → ℕ → Out
putc cap o c = if ltb o.at (cap - 1) then record { buf = set o.buf o.at c; at = o.at + 1 } else o

-- `payload_puts`, over the bytes before the terminator. Once the array is full `putc` stays so.
unfoldable pub puts : ℕ → Out → List ℕ → Out
puts cap o [] = o
puts cap o (c ∷ cs) = puts cap (putc cap o c) cs

unfoldable pub put_uint : ℕ → Out → ℕ → Out
put_uint cap o n = puts cap o (decimal n)

-- One round of the loop over the dropped messages.
unfoldable pub put_type : Out → ℕ → ℤ → Out
put_type o i kind =
    let sep = if ltb 0 i then putc msg_payload_size o b',' else o in
    put_uint msg_payload_size (putc msg_payload_size sep b't') (to_u32 kind)

-- The loop: `i` messages are done, `n` dropped ones are left, and it stops 8 bytes before the end.
unfoldable pub put_types : Out → ℕ → ℕ → List Msg → Out
put_types o i zero ms = o
put_types o i (suc n) [] = o
put_types o i (suc n) (m ∷ ms) = elim (ltb o.at (msg_payload_size - 8)) [
  | true ↦ put_types (put_type o i m.kind) (i + 1) n ms
  | false ↦ o
]

-- "compact:<dropped>;"
unfoldable pub put_head : Out → ℕ → Out
put_head start dropped =
    let name =
      puts msg_payload_size start (b'c' ∷ b'o' ∷ b'm' ∷ b'p' ∷ b'a' ∷ b'c' ∷ b't' ∷ b':' ∷ []) in
    puts msg_payload_size (put_uint msg_payload_size name dropped) (b';' ∷ [])

unfoldable pub summary_payload : ℕ → List Msg → List ℕ
summary_payload dropped ordered =
    let start : Out = record { buf = replicate msg_payload_size 0; at = 0 } in
    (put_types (put_head start dropped) 0 dropped ordered).buf

-- `rebuilt[0]`
unfoldable pub summary : ℕ → List Msg → Msg
summary dropped ordered = record {
  sender_id = pos 0;
  kind = msg_summary;
  payload = summary_payload dropped ordered;
}
