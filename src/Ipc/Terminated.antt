-- ===== src/Ipc/Terminated.antt =====
-- kernel/ipc.c: the bounds of the writers of the summary.
use open_agent_os.Prelude.{
  ℕ, zero, suc, ◌+◌, ◌-◌, ◌<◌, ◌≡◌, List, [], ◌∷◌, ℤ, arith, ltb, length, get_or, length-set,
  get_or-set_ne, Bool-cases, inl, inr, refl, replicate, to_u32,
}
use open_agent_os.Abi.{Msg, msg_payload_size}
use open_agent_os.Decimal.{decimal}
use open_agent_os.Ipc.Summary.{
  Out, putc, puts, put_uint, put_type, put_types, put_head, summary_payload, summary,
}

-- The position is before the last byte of the array, which is a zero.
record IsOpen (o : Out) : Type 0 where
  whole : length o.buf ≡ msg_payload_size
  before_end : o.at < msg_payload_size
  ends : get_or o.buf (msg_payload_size - 1) 0 ≡ 0

putc-IsOpen : (o : Out) (c : ℕ) → IsOpen o → IsOpen (putc msg_payload_size o c)
unfolding putc
putc-IsOpen o c v =
    ground (arith, length-set o.buf o.at c, get_or-set_ne o.buf o.at (msg_payload_size - 1) c 0)

puts-IsOpen : (o : Out) (cs : List ℕ) → IsOpen o → IsOpen (puts msg_payload_size o cs)
unfolding puts
puts-IsOpen o [] v = v
puts-IsOpen o (c ∷ cs) v = puts-IsOpen (putc msg_payload_size o c) cs (putc-IsOpen o c v)

put_uint-IsOpen : (o : Out) (n : ℕ) → IsOpen o → IsOpen (put_uint msg_payload_size o n)
unfolding put_uint
put_uint-IsOpen o n v = puts-IsOpen o (decimal n) v

put_type-IsOpen : (o : Out) (i : ℕ) (k : ℤ) → IsOpen o → IsOpen (put_type o i k)
unfolding put_type
put_type-IsOpen o i k v = elim (Bool-cases (ltb 0 i)) [
  | inl more ↦
      rw (more, put_type)
        (put_uint-IsOpen _ (to_u32 k)
          (putc-IsOpen (putc msg_payload_size o b',') b't' (putc-IsOpen o b',' v)))
  | inr first ↦ rw (first, put_type) (put_uint-IsOpen _ (to_u32 k) (putc-IsOpen o b't' v))
]

put_types-IsOpen : (o : Out) (i n : ℕ) (ms : List Msg) → IsOpen o → IsOpen (put_types o i n ms)
unfolding put_types
put_types-IsOpen o i zero ms v = v
put_types-IsOpen o i (suc n) [] v = v
put_types-IsOpen o i (suc n) (m ∷ ms) v = elim (Bool-cases (ltb o.at (msg_payload_size - 8))) [
  | inl room ↦
      rw (room, put_types)
        (put_types-IsOpen (put_type o i m.kind) (i + 1) n ms (put_type-IsOpen o i m.kind v))
  | inr full ↦ rw (full, put_types) v
]

put_head-IsOpen : (o : Out) (n : ℕ) → IsOpen o → IsOpen (put_head o n)
unfolding put_head
put_head-IsOpen o n v =
    puts-IsOpen (put_uint msg_payload_size (puts msg_payload_size o letters) n) (b';' ∷ [])
      (put_uint-IsOpen (puts msg_payload_size o letters) n (puts-IsOpen o letters v))
  where
    letters : List ℕ
    letters = b'c' ∷ b'o' ∷ b'm' ∷ b'p' ∷ b'a' ∷ b'c' ∷ b't' ∷ b':' ∷ []

-- Whatever is dropped, the summary's payload fills its array exactly and ends in a zero byte.
pub summary-terminated :
    (dropped : ℕ) (ordered : List Msg)
    → (length (summary dropped ordered).payload ≡ msg_payload_size)
      × (get_or (summary dropped ordered).payload (msg_payload_size - 1) 0 ≡ 0)
unfolding summary summary_payload
summary-terminated dropped ordered = (filled.whole, filled.ends)
  where
    start : Out
    start = record { buf = replicate msg_payload_size 0; at = 0 }

    filled : IsOpen (put_types (put_head start dropped) 0 dropped ordered)
    filled = put_types-IsOpen (put_head start dropped) 0 dropped ordered (
        put_head-IsOpen start dropped
          (record { whole = refl; before_end = omega arith; ends = refl }))
