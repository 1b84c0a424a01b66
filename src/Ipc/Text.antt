-- ===== src/Ipc/Text.antt =====
-- kernel/ipc.c: the text that the writers of the summary leave in its payload.
use open_agent_os.Prelude.{
  ℕ, zero, suc, ◌+◌, ◌-◌, ◌≤◌, ◌<◌, ◌≡◌, refl, ap, sym, ◌∙◌, Bool, true, false, List, [], ◌∷◌, ◌++◌,
  ltb, ◌==◌, ℤ, pos, arith, if◌then◌else◌, length, take, set, replicate, to_u32, length-append,
  length-take, take-length_le, append_assoc, append-nil, Bool-cases, inl, inr,
}
use open_agent_os.Abi.{Msg, msg_payload_size, msg_summary}
use open_agent_os.Decimal.{decimal}
use open_agent_os.Ipc.Queue.{told, summary_text, cut, summary_of}
use open_agent_os.Ipc.Summary.{
  Out, putc, puts, put_uint, put_type, put_types, put_head, summary_payload, summary,
}

-- The array with these bytes at its start and zeros behind them.
abbrev filled : List ℕ → Out
filled t = record { buf = t ++ replicate (224 - length t) 0; at = length t }

-- The state of the writers after a text, of which they keep 223 bytes.
abbrev written : List ℕ → Out
written text = filled (take 223 text)

set-append :
    (xs : List ℕ) (y c : ℕ) (ys : List ℕ) → set (xs ++ y ∷ ys) (length xs) c ≡ (xs ++ c ∷ []) ++ ys
set-append [] y c ys = refl
set-append (x ∷ xs) y c ys = ap (λ r. x ∷ r) (set-append xs y c ys)

take-append_ge : (n : ℕ) (xs ys : List ℕ) → n ≤ length xs → take n (xs ++ ys) ≡ take n xs
take-append_ge zero xs ys h = refl
take-append_ge (suc n) [] ys h = absurd (omega arith)
take-append_ge (suc n) (x ∷ xs) ys h = ap (λ r. x ∷ r) (take-append_ge n xs ys (omega arith))

filled-putc :
    (t : List ℕ) (c : ℕ)
    → length t < 223
    → putc msg_payload_size (filled t) c ≡ filled (t ++ c ∷ [])
unfolding putc
filled-putc t c room =
    let size = length-append t (c ∷ []) in
    let some_room : ltb (length t) 223 ≡ true = ground arith in
    let left : 224 - length t ≡ suc (224 - length (t ++ c ∷ [])) = omega (arith, size) in
    let buf : set (t ++ replicate (224 - length t) 0) (length t) c
        ≡ (t ++ c ∷ []) ++ replicate (224 - length (t ++ c ∷ [])) 0 =
      ap (λ k. set (t ++ replicate k 0) (length t) c) left
      ∙ set-append t 0 c (replicate (224 - length (t ++ c ∷ [])) 0) in
    let at : length t + 1 ≡ length (t ++ c ∷ []) = omega (arith, size) in
    rw some_room (
      ap (λ (b : List ℕ). let o : Out = record { buf = b; at = length t + 1 } in o) buf
      ∙ ap
          (λ (k : ℕ).
            let o : Out = record {
              buf = (t ++ c ∷ []) ++ replicate (224 - length (t ++ c ∷ [])) 0;
              at = k;
            } in
            o)
          at)

filled-full : (t : List ℕ) (c : ℕ) → 223 ≤ length t → putc msg_payload_size (filled t) c ≡ filled t
unfolding putc
filled-full t c full = let no_room : ltb (length t) 223 ≡ false = ground arith in rw no_room refl

written-putc :
    (text : List ℕ) (c : ℕ) → putc msg_payload_size (written text) c ≡ written (text ++ c ∷ [])
written-putc text c = elim (Bool-cases (ltb (length text) 223)) [
  | inl room ↦
      let small : length text < 223 = ground arith in
      ap (λ t. putc msg_payload_size (filled t) c) (take-length_le 223 text (omega arith))
      ∙ filled-putc text c small
      ∙ ap filled
          (sym (take-length_le 223 (text ++ c ∷ []) (omega (arith, length-append text (c ∷ [])))))
  | inr full ↦
      let large : 223 ≤ length text = ground arith in
      filled-full (take 223 text) c (omega (arith, length-take 223 text))
      ∙ ap filled (sym (take-append_ge 223 text (c ∷ []) large))
]

written-puts : (text cs : List ℕ) → puts msg_payload_size (written text) cs ≡ written (text ++ cs)
unfolding puts
written-puts text [] = ap written (sym (append-nil text))
written-puts text (c ∷ cs) =
    ap (λ o. puts msg_payload_size o cs) (written-putc text c)
    ∙ written-puts (text ++ c ∷ []) cs
    ∙ ap written (append_assoc text (c ∷ []) cs)

-- What one round of the loop adds.
abbrev entry : Bool → ℤ → List ℕ
entry first kind = (if first then [] else b',' ∷ []) ++ b't' ∷ decimal (to_u32 kind)

put_type-written :
    (text : List ℕ) (i : ℕ) (kind : ℤ)
    → put_type (written text) i kind ≡ written (text ++ entry (i == 0) kind)
unfolding put_type put_uint
put_type-written text zero kind =
    ap (λ o. puts msg_payload_size o (decimal (to_u32 kind))) (written-putc text b't')
    ∙ written-puts (text ++ b't' ∷ []) (decimal (to_u32 kind))
    ∙ ap written (append_assoc text (b't' ∷ []) (decimal (to_u32 kind)))
put_type-written text (suc i) kind =
    let more : ltb 0 (suc i) ≡ true = ground arith in
    let later : (suc i == 0) ≡ false = ground arith in
    let number = decimal (to_u32 kind) in
    rw (more, later)
      (ap (λ o. puts msg_payload_size (putc msg_payload_size o b't') number)
          (written-putc text b',')
        ∙ ap (λ o. puts msg_payload_size o number) (written-putc (text ++ b',' ∷ []) b't')
        ∙ written-puts ((text ++ b',' ∷ []) ++ b't' ∷ []) number
        ∙ ap written (
            append_assoc (text ++ b',' ∷ []) (b't' ∷ []) number
            ∙ append_assoc text (b',' ∷ []) (b't' ∷ number)))

told-room :
    (at : ℕ) (first : Bool) (m : Msg) (ms : List Msg)
    → ltb at 216 ≡ true
    → told at first (m ∷ ms)
      ≡ entry first m.kind ++ told (at + length (entry first m.kind)) false ms
unfolding told
told-room at first m ms room = rw room refl

told-full :
    (at : ℕ) (first : Bool) (m : Msg) (ms : List Msg)
    → ltb at 216 ≡ false
    → told at first (m ∷ ms) ≡ []
unfolding told
told-full at first m ms full = rw full refl

told-nil : (at : ℕ) (first : Bool) → told at first [] ≡ []
unfolding told
told-nil at first = refl

same_test : (a b : ℕ) → (b < 216 → a < 216) → (216 ≤ b → 216 ≤ a) → ltb a 216 ≡ ltb b 216
same_test a b low high = elim (Bool-cases (ltb b 216)) [
  | inl small ↦
      let less : a < 216 = low (ground arith) in
      let e : ltb a 216 ≡ true = ground arith in e ∙ sym small
  | inr large ↦
      let more : 216 ≤ a = high (ground arith) in
      let e : ltb a 216 ≡ false = ground arith in e ∙ sym large
]

-- The test of the loop, on the bytes that were kept.
test_lem : (text : List ℕ) → ltb (length (take 223 text)) 216 ≡ ltb (length text) 216
test_lem text =
    same_test (length (take 223 text)) (length text) (λ small. omega (arith, length-take 223 text))
      (λ large. omega (arith, length-take 223 text))

written_nil : (text : List ℕ) (more : List ℕ) → more ≡ [] → written text ≡ written (text ++ more)
written_nil text more e = ap written (sym (append-nil text) ∙ ap (λ r. text ++ r) (sym e))

put_types-written :
    (text : List ℕ) (i n : ℕ) (ms : List Msg)
    → put_types (written text) i n ms ≡ written (text ++ told (length text) (i == 0) (take n ms))
unfolding put_types
put_types-written text i zero ms = written_nil text _ (told-nil (length text) (i == 0))
put_types-written text i (suc n) [] = written_nil text _ (told-nil (length text) (i == 0))
put_types-written text i (suc n) (m ∷ ms) = elim (Bool-cases (ltb (length text) 216)) [
  | inr full ↦
      let stop : ltb (length (take 223 text)) 216 ≡ false = test_lem text ∙ full in
      rw (stop, put_types)
        (written_nil text _ (told-full (length text) (i == 0) m (take n ms) full))
  | inl room ↦
      let go : ltb (length (take 223 text)) 216 ≡ true = test_lem text ∙ room in
      let e = entry (i == 0) m.kind in
      let later : (i + 1 == 0) ≡ false = ground arith in
      rw (go, put_types)
        (ap (λ o. put_types o (i + 1) n ms) (put_type-written text i m.kind)
          ∙ put_types-written (text ++ e) (i + 1) n ms
          ∙ ap (λ b. written ((text ++ e) ++ told (length (text ++ e)) b (take n ms))) later
          ∙ ap (λ k. written ((text ++ e) ++ told k false (take n ms))) (length-append text e)
          ∙ ap written (append_assoc text e (told (length text + length e) false (take n ms)))
          ∙ ap (λ r. written (text ++ r))
              (sym (told-room (length text) (i == 0) m (take n ms) room)))
]

abbrev head_text : ℕ → List ℕ
head_text n = b'c' ∷ b'o' ∷ b'm' ∷ b'p' ∷ b'a' ∷ b'c' ∷ b't' ∷ b':' ∷ (decimal n ++ b';' ∷ [])

put_head-written : (n : ℕ) → put_head (written []) n ≡ written (head_text n)
unfolding put_head put_uint
put_head-written n =
    let name = b'c' ∷ b'o' ∷ b'm' ∷ b'p' ∷ b'a' ∷ b'c' ∷ b't' ∷ b':' ∷ [] in
    ap (λ o. puts msg_payload_size (puts msg_payload_size o (decimal n)) (b';' ∷ []))
      (written-puts [] name)
    ∙ ap (λ o. puts msg_payload_size o (b';' ∷ [])) (written-puts name (decimal n))
    ∙ written-puts (name ++ decimal n) (b';' ∷ [])
    ∙ ap written (append_assoc name (decimal n) (b';' ∷ []))

-- The summary of the first `dropped` messages is the one message of their text.
pub summary_lem :
    (dropped : ℕ) (ordered : List Msg)
    → dropped ≤ length ordered
    → summary dropped ordered ≡ summary_of (take dropped ordered)
unfolding summary summary_payload summary_text
summary_lem dropped ordered enough =
    let size : dropped ≡ length (take dropped ordered) =
      omega (arith, length-take dropped ordered) in
    let told_of =
      λ (k : ℕ). head_text k ++ told (length (head_text k)) true (take dropped ordered) in
    let whole : put_types (put_head (written []) dropped) 0 dropped ordered
        ≡ written (told_of dropped) =
      ap (λ o. put_types o 0 dropped ordered) (put_head-written dropped)
      ∙ put_types-written (head_text dropped) 0 dropped ordered in
    ap
      (λ (p : List ℕ).
        let m : Msg = record { sender_id = pos 0; kind = msg_summary; payload = p } in m)
      (ap (λ (o : Out). o.buf) whole ∙ ap (λ k. cut (told_of k)) size)
