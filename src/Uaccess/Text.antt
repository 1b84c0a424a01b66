-- ===== src/Uaccess/Text.antt =====
-- kernel/uaccess.c: which bytes `user_strnlen` counts, and `copy_from_user` gives.
use open_agent_os.Prelude.{
  ℕ, zero, suc, ◌+◌, ◌%◌, ◌^◌, ◌≤◌, ◌<◌, ◌≡◌, ◌≢◌, ◌⊎◌, refl, ap, sym, ◌∙◌, subst, false, List, [],
  ◌∷◌, pos, arith, ◌==◌, get_or, length, some, none, Bool-cases, inl, inr,
}
use open_agent_os.Abi.{efault}
use open_agent_os.Uaccess.{
  UserMem, access_ok, user_bytes, copy_from_user, strnlen_from, user_strnlen,
}

-- The byte that is `j` behind an address.
abbrev pub byte_at : UserMem → ℕ → ℕ → ℕ
byte_at m ua j = m.byte ((ua + j) % 2 ^ 64)

pub length-user_bytes : (m : UserMem) (ua n : ℕ) → length (user_bytes (some m) ua n) ≡ n
unfolding user_bytes
length-user_bytes m ua zero = refl
length-user_bytes m ua (suc n) = ap suc (length-user_bytes m (ua + 1) n)

pub get_or-user_bytes :
    (m : UserMem) (ua n j : ℕ) → j < n → get_or (user_bytes (some m) ua n) j 0 ≡ byte_at m ua j
unfolding user_bytes
get_or-user_bytes m ua zero j lt = absurd (omega arith)
get_or-user_bytes m ua (suc n) zero lt =
    ap (λ k. m.byte (k % 2 ^ 64)) (let e : ua ≡ ua + 0 = omega arith in e)
get_or-user_bytes m ua (suc n) (suc j) lt =
    get_or-user_bytes m (ua + 1) n j (omega arith)
    ∙ ap (λ k. m.byte (k % 2 ^ 64)) (let e : ua + 1 + j ≡ ua + suc j = omega arith in e)

-- No byte from the `n`th to the `len`th is a 0, and the next one is, or the count reached its end.
pub record Counted (m : UserMem) (ua n end len : ℕ) : Type 0 where
  pub low : n ≤ len
  pub high : len ≤ end
  pub nonzero : (j : ℕ) → n ≤ j → j < len → byte_at m ua j ≢ 0
  pub stop : (len ≡ end) ⊎ (byte_at m ua len ≡ 0)

-- What the copy of one byte gives, if it gives any.
one_byte_cases :
    (m : UserMem) (ua n : ℕ)
    → (copy_from_user (some m) ((ua + n) % 2 ^ 64) 1 ≡ none)
      ⊎ (copy_from_user (some m) ((ua + n) % 2 ^ 64) 1 ≡ some (byte_at m ua n ∷ []))
unfolding copy_from_user user_bytes
one_byte_cases m ua n =
    let same : (ua + n) % 2 ^ 64 % 2 ^ 64 ≡ (ua + n) % 2 ^ 64 = omega arith in
    ground (arith, ap m.byte same)

strnlen_from-Counted :
    (m : UserMem) (ua rounds n len : ℕ)
    → strnlen_from (some m) ua rounds n ≡ pos len
    → Counted m ua n (n + rounds) len
unfolding strnlen_from
strnlen_from-Counted m ua zero n len e =
    let same : n ≡ len = ground arith in
    record {
      low = omega arith;
      high = omega arith;
      nonzero = λ j lo hi. absurd (omega arith);
      stop = inl (omega arith);
    }
strnlen_from-Counted m ua (suc rounds) n len e =
    elim (Bool-cases (access_ok (some m) ((ua + n) % 2 ^ 64) 1 false)) [
      | inr denied ↦ let bad : efault ≡ pos len = sym (rw denied refl) ∙ e in absurd (cc bad)
      | inl ok ↦ elim (one_byte_cases m ua n) [
        | inl fault ↦ let bad : efault ≡ pos len = sym (rw (ok, fault) refl) ∙ e in absurd (cc bad)
        | inr byte ↦ elim (Bool-cases (byte_at m ua n == 0)) [
          | inl nul ↦
              let here : pos n ≡ pos len = sym (rw (ok, byte, nul) refl) ∙ e in
              let same : n ≡ len = ground arith in
              let zero_there : byte_at m ua n ≡ 0 = ground arith in
              record {
                low = omega arith;
                high = omega arith;
                nonzero = λ j lo hi. absurd (omega arith);
                stop = inr (subst (λ k. byte_at m ua k ≡ 0) same zero_there);
              }
          | inr more ↦
              let rest : strnlen_from (some m) ua rounds (n + 1) ≡ pos len =
                sym (rw (ok, byte, more) refl) ∙ e in
              let v = strnlen_from-Counted m ua rounds (n + 1) len rest in
              record {
                low = omega (arith, v.low);
                high = omega (arith, v.high);
                nonzero = λ j lo hi. elim (Bool-cases (j == n)) [
                  | inl same ↦
                      let at_n : n ≡ j = ground arith in
                      let some_byte : byte_at m ua n ≢ 0 = λ z. ground arith in
                      subst (λ k. byte_at m ua k ≢ 0) at_n some_byte
                  | inr later ↦ v.nonzero j (ground arith) hi
                ];
                stop = elim v.stop [ inl end ↦ inl (omega (arith, end)) | inr nul ↦ inr nul ];
              }
        ]
      ]
    ]

user_strnlen-Counted :
    (m : UserMem) (ua max len : ℕ) → user_strnlen (some m) ua max ≡ pos len → Counted m ua 0 max len
unfolding user_strnlen
user_strnlen-Counted m ua max len e = elim (Bool-cases (ua == 0)) [
  | inl null ↦ let bad : efault ≡ pos len = sym (rw null refl) ∙ e in absurd (cc bad)
  | inr there ↦ elim (Bool-cases (max == 0)) [
    | inl no_max ↦ let bad : efault ≡ pos len = sym (rw (there, no_max) refl) ∙ e in absurd (cc bad)
    | inr some_max ↦
        let counted : strnlen_from (some m) ua max 0 ≡ pos len =
          sym (rw (there, some_max) refl) ∙ e in
        subst (λ end. Counted m ua 0 end len) (let z : 0 + max ≡ max = omega arith in z)
          (strnlen_from-Counted m ua max 0 len counted)
  ]
]

-- The bytes are the string at this address up to its terminator, or its first `max` bytes.
pub record IsText (m : UserMem) (ua max : ℕ) (bytes : List ℕ) : Type 0 where
  pub fits : length bytes ≤ max
  pub same : (j : ℕ) → j < length bytes → get_or bytes j 0 ≡ byte_at m ua j
  pub nonzero : (j : ℕ) → j < length bytes → get_or bytes j 0 ≢ 0
  pub stop : (length bytes ≡ max) ⊎ (byte_at m ua (length bytes) ≡ 0)

pub copied_bytes :
    (m : UserMem) (ua len : ℕ) (bytes : List ℕ)
    → copy_from_user (some m) ua len ≡ some bytes
    → bytes ≡ user_bytes (some m) ua len
unfolding copy_from_user user_bytes
copied_bytes m ua zero bytes e = ground arith
copied_bytes m ua (suc n) bytes e = ground arith

-- The bytes that are copied after they were counted are the string at the address.
pub copied-IsText :
    (m : UserMem) (ua max len : ℕ) (bytes : List ℕ)
    → user_strnlen (some m) ua max ≡ pos len
    → copy_from_user (some m) ua len ≡ some bytes
    → IsText m ua max bytes
copied-IsText m ua max len bytes e copied =
    let v = user_strnlen-Counted m ua max len e in
    let same = copied_bytes m ua len bytes copied in
    let size : len ≡ length bytes = sym (ap length same ∙ length-user_bytes m ua len) in
    let at : (j : ℕ) → j < length bytes → get_or bytes j 0 ≡ byte_at m ua j =
      λ j lt. ap (λ bs. get_or bs j 0) same ∙ get_or-user_bytes m ua len j (omega arith) in
    record {
      fits = omega (arith, v.high);
      same = at;
      nonzero = λ j lt z. v.nonzero j (omega arith) (omega arith) (sym (at j lt) ∙ z);
      stop = subst (λ n. (n ≡ max) ⊎ (byte_at m ua n ≡ 0)) size v.stop;
    }

pub user_strnlen-none : (ua max : ℕ) → 0 < max → user_strnlen none ua max ≡ efault
unfolding user_strnlen strnlen_from access_ok
user_strnlen-none ua zero h = absurd (omega arith)
user_strnlen-none ua (suc max) h = ground arith
