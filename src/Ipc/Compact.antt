-- ===== src/Ipc/Compact.antt =====
-- kernel/ipc.c: what `msgbox_compact` leaves in the inbox.
use native.Mathlib.Numerals.{add-one}
use native.Mathlib.Nat.{mod-eq_of_lt}
use open_agent_os.Prelude.{
  ℕ, zero, suc, ◌+◌, ◌-◌, ◌%◌, ◌≤◌, ◌<◌, ◌≡◌, refl, ap, sym, ◌∙◌, List, [], ◌∷◌, ℤ, pos, negsuc,
  pos_part, if◌then◌else◌, arith, length, length-set, length-drop, get_or, set, leb, take, drop,
  Bool-cases, inl, inr, get_or-set_self, get_or-set_ne,
}
use open_agent_os.Abi.{Msg, blank, msg_capacity}
use open_agent_os.Ring.{held, length-held}
use open_agent_os.Ipc.{Msgbox, compact, compact_by, clamp_keep, ordered_from, write_slots, summary}
use open_agent_os.Ipc.Queue
use open_agent_os.Ipc.Text.{summary_lem}
use open_agent_os.Ipc.Refine.{IsValid, view, normal_held, steer_held}

-- The copy loop reads the messages that the ring holds, in their order.
ordered_from-held :
    (slots : List Msg) (head i n : ℕ)
    → ordered_from slots head i n ≡ held blank msg_capacity slots (head + i) n
unfolding ordered_from
ordered_from-held slots head i zero = refl
ordered_from-held slots head i (suc n) =
    ap (λ r. get_or slots ((head + i) % msg_capacity) blank ∷ r)
      (ordered_from-held slots head (i + 1) n
        ∙ ap (λ h. held blank msg_capacity slots h n) (omega arith))

length-write_slots :
    (slots : List Msg) (i : ℕ) (ms : List Msg) → length (write_slots slots i ms) ≡ length slots
unfolding write_slots
length-write_slots slots i [] = refl
length-write_slots slots i (m ∷ ms) =
    length-write_slots (set slots i m) (i + 1) ms ∙ length-set slots i m

get_or-write_slots_below :
    (slots : List Msg) (i j : ℕ) (ms : List Msg)
    → j < i
    → get_or (write_slots slots i ms) j blank ≡ get_or slots j blank
unfolding write_slots
get_or-write_slots_below slots i j [] h = refl
get_or-write_slots_below slots i j (m ∷ ms) h =
    get_or-write_slots_below (set slots i m) (i + 1) j ms (omega arith)
    ∙ get_or-set_ne slots i j m blank (omega arith)

-- What the write-back loop stores from slot `i` on is read back from there.
held-write_slots :
    (slots : List Msg) (i : ℕ) (ms : List Msg)
    → i + length ms ≤ msg_capacity
    → length slots ≡ msg_capacity
    → held blank msg_capacity (write_slots slots i ms) i (length ms) ≡ ms
unfolding write_slots
held-write_slots slots i [] h e = refl
held-write_slots slots i (m ∷ ms) h e = rw (mod-eq_of_lt {n = i} {m = msg_capacity} (omega arith)) (
    rw (here slots i m ms (omega arith)) (
      ap (λ r. m ∷ r)
        (ap (λ k. held blank msg_capacity (write_slots (set slots i m) (i + 1) ms) k (length ms))
            (sym (add-one i))
          ∙ held-write_slots (set slots i m) (i + 1) ms (omega arith) (length-set slots i m ∙ e))))
  where
    here :
        (slots : List Msg) (i : ℕ) (m : Msg) (ms : List Msg)
        → i < length slots
        → get_or (write_slots (set slots i m) (i + 1) ms) i blank ≡ m
    here slots i m ms h =
        get_or-write_slots_below (set slots i m) (i + 1) i ms (omega arith)
        ∙ get_or-set_self slots i m blank h

ordered_lem : (b : Msgbox) → ordered_from b.normal b.normal_head 0 b.normal_count ≡ normal_held b
ordered_lem b =
    ordered_from-held b.normal b.normal_head 0 b.normal_count
    ∙ ap (λ h. held blank msg_capacity b.normal h b.normal_count) (omega arith)

-- The messages that `compact_by` leaves in the ring.
abbrev rebuilt : Msgbox → ℕ → List Msg
rebuilt b n = summary n (normal_held b) ∷ drop n (normal_held b)

length-rebuilt : (b : Msgbox) (n : ℕ) → length (rebuilt b n) ≡ 1 + (b.normal_count - n)
length-rebuilt b n = omega (
  arith,
  length-drop n (normal_held b),
  length-held blank msg_capacity b.normal b.normal_head b.normal_count,
)

compact_by-held :
    (b : Msgbox) (n : ℕ)
    → IsValid b
    → 0 < n
    → n ≤ b.normal_count
    → normal_held (compact_by b n) ≡ rebuilt b n
unfolding compact_by
compact_by-held b n v some_dropped enough = rw (ordered_lem b) (
    ap (held blank msg_capacity (write_slots b.normal 0 (rebuilt b n)) 0) (sym (length-rebuilt b n))
    ∙ held-write_slots b.normal 0 (rebuilt b n) (omega (arith, length-rebuilt b n))
        v.normal_ring.slots_len)

-- The same with the summary as the message of its text.
compact_by-told :
    (b : Msgbox) (n : ℕ)
    → IsValid b
    → 0 < n
    → n ≤ b.normal_count
    → normal_held (compact_by b n)
      ≡ Queue.summary_of (take n (normal_held b)) ∷ drop n (normal_held b)
compact_by-told b n v some_dropped enough =
    compact_by-held b n v some_dropped enough
    ∙ ap (λ m. m ∷ drop n (normal_held b))
        (summary_lem n (normal_held b)
          (omega (arith, length-held blank msg_capacity b.normal b.normal_head b.normal_count)))

compact_by-IsValid :
    (b : Msgbox) (n : ℕ) → IsValid b → 0 < n → n ≤ b.normal_count → IsValid (compact_by b n)
unfolding compact_by
compact_by-IsValid b n v some_dropped enough = record {
  normal_ring = record {
    slots_len =
        length-write_slots b.normal 0 (
          summary n (ordered_from b.normal b.normal_head 0 b.normal_count)
          ∷ drop n (ordered_from b.normal b.normal_head 0 b.normal_count))
        ∙ v.normal_ring.slots_len;
    head_in = omega arith;
    count_in = omega arith;
    tail_at = omega arith;
  };
  steer_ring = v.steer_ring;
}

compact_by-steer : (b : Msgbox) (n : ℕ) → steer_held (compact_by b n) ≡ steer_held b
unfolding compact_by
compact_by-steer b n = refl

pub compact-IsValid : (b : Msgbox) (keep : ℤ) → IsValid b → IsValid (compact b keep).1
unfolding compact
compact-IsValid b keep v = elim (Bool-cases (leb b.normal_count (clamp_keep keep))) [
  | inl few ↦ rw few v
  | inr many ↦ rw many (compact_by-IsValid b _ v (ground arith) (omega arith))
]

-- The bounds on `keep` change nothing for a ring of at most 16 messages.
clamped :
    (n : ℕ) (keep : ℤ)
    → n ≤ msg_capacity
    → (leb n (clamp_keep keep) ≡ leb n (pos_part keep)) × (n - clamp_keep keep ≡ n - pos_part keep)
unfolding clamp_keep
clamped n (pos k) h = ground arith
clamped n (negsuc k) h = (refl, refl)

compact-eq :
    (b : Msgbox) (keep : ℤ)
    → IsValid b
    → compact b keep ≡ (
        if leb b.normal_count (pos_part keep)
        then (pos 0, b)
        else (pos 0, compact_by b (b.normal_count - pos_part keep)))
unfolding compact
compact-eq b keep v =
    let (few, dropped) = clamped b.normal_count keep v.normal_ring.count_in in
    rw (few, dropped) refl

-- `msgbox_compact` of a valid inbox always succeeds and leaves the steering messages as they were. When
-- there are more than `keep` ordinary messages, it leaves the `keep` newest of them, none if `keep` is
-- negative, behind one message of the system that says how many the others were and names the types of
-- as many of them as fit; otherwise it leaves all of them.
pub compact_refines :
    (b : Msgbox) (keep : ℤ)
    → IsValid b
    → let (rc, b') = compact b keep in (rc ≡ pos 0) × (view b' ≡ Queue.compact (view b) keep)
unfolding Queue.compact view
compact_refines b keep v = rw (compact-eq b keep v) (
    ground (
      arith,
      length-held blank msg_capacity b.normal b.normal_head b.normal_count,
      compact_by-told b (b.normal_count - pos_part keep) v,
      compact_by-steer b (b.normal_count - pos_part keep),
    ))
