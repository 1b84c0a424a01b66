-- ===== src/Agent/Text.antt =====
-- kernel/agent.c: the string that `agent_send` reads.
use open_agent_os.Prelude.{
  ℕ, ◌<◌, ◌≡◌, refl, ap, sym, ◌∙◌, List, ℤ, pos, negsuc, arith, ◌==◌, length, Option, ◌⊎◌, none,
  some, Bool-cases, Option-cases, inl, inr,
}
use open_agent_os.Uaccess.{UserMem, user_strnlen, copy_from_user}
use open_agent_os.Uaccess.Text.{
  IsText, copied-IsText, copied_bytes, length-user_bytes, user_strnlen-none,
}
use open_agent_os.Abi.{efault, einval}
use open_agent_os.Agent.{user_payload}

int_cases : (x : ℤ) → ((n : ℕ) × (x ≡ negsuc n)) ⊎ ((n : ℕ) × (x ≡ pos n))
int_cases (pos n) = inr (n, refl)
int_cases (negsuc n) = inl (n, refl)

-- The bytes that a send reads are the caller's string, with at least one and at most 223 bytes.
pub user_payload-IsText :
    (mem : Option UserMem) (payload : ℕ) (bytes : List ℕ)
    → user_payload mem payload ≡ inr bytes
    → (m : UserMem) × (mem ≡ some m) × (0 < length bytes) × IsText m payload 223 bytes
unfolding user_payload
user_payload-IsText none payload bytes e =
    let none_text : user_strnlen none payload 223 ≡ efault =
      user_strnlen-none payload 223 (omega arith) in
    let bad : inl efault ≡ inr bytes = sym (rw (none_text, user_payload) refl) ∙ e in
    absurd (cc bad)
user_payload-IsText (some m) payload bytes e =
    elim (int_cases (user_strnlen (some m) payload 223)) [
      | inl (n, bad_string) ↦
          let bad : inl efault ≡ inr bytes = sym (rw (bad_string, user_payload) refl) ∙ e in
          absurd (cc bad)
      | inr (len, counted) ↦ elim (Bool-cases (len == 0)) [
        | inl empty ↦
            let bad : inl einval ≡ inr bytes =
              sym (rw (counted, user_payload) (rw empty refl)) ∙ e in
            absurd (cc bad)
        | inr some_text ↦ elim (Option-cases (copy_from_user (some m) payload len)) [
          | inl fault ↦
              let bad : inl efault ≡ inr bytes =
                sym (rw (counted, user_payload) (rw (some_text, fault) refl)) ∙ e in
              absurd (cc bad)
          | inr (bs, copied) ↦
              let got : inr bs ≡ inr bytes =
                sym (rw (counted, user_payload) (rw (some_text, copied) refl)) ∙ e in
              let same : bs ≡ bytes = cc in
              let copied' = copied ∙ ap (λ (x : List ℕ). some x) same in
              let size =
                ap length (copied_bytes m payload len bytes copied')
                ∙ length-user_bytes m payload len in
              (m, refl, ground (arith, size), copied-IsText m payload 223 len bytes counted copied')
        ]
      ]
    ]
