-- ===== src/Session/Log.antt =====
-- What `session_append` and `session_compact` do to the stored log.
use native.Mathlib.Decide.{dec_le}
use open_agent_os.Prelude.{
  ℕ, zero, suc, ◌+◌, ◌-◌, ◌*◌, ◌^◌, ◌≤◌, ◌<◌, ◌≡◌, ◌≢◌, ◌⊎◌, refl, ap, sym, ◌∙◌, List, [], ◌∷◌,
  ◌++◌, pos, arith, length, take, drop, length-append, length-take, take-length_le, drop-length_le,
  subst, some, Option-cases, inl, inr, append-nil,
}
use open_agent_os.Abi.{enoent, enospc, eio}
use open_agent_os.Bytes.{Str}
use open_agent_os.Ramfs.{Files, file_size, read, write, at_start}
use open_agent_os.Ramfs.Content.{content, or_empty, read_bytes, AllFiles, read_lem, content-lt}
use open_agent_os.Ramfs.Laws.{Stores, write_lem, old_bytes}
use open_agent_os.Usage.{usage_lem}
use open_agent_os.Tenant.{session_path, session_allow, session_usage, session_quota}
use open_agent_os.Tenant.Paths.{length-session_path}
use open_agent_os.Session.{line_max, build_session_path, append, append_line, store_line}

-- The line that `session_append` adds.
abbrev pub new_line : Str → List ℕ
new_line text = take (line_max - 4) text ++ b'\n' ∷ []

-- What the log held before.
abbrev pub log : Files → ℕ → List ℕ
log fs a = old_bytes fs (session_path (pos a))

pub old_bytes-lt : (fs : Files) (p : Str) → AllFiles fs → length (old_bytes fs p) < file_size
old_bytes-lt fs p v = elim (Option-cases (content fs p)) [
  | inl e ↦ omega (arith, ap (λ o. length (or_empty o)) e)
  | inr (bs, e) ↦ omega (arith, ap (λ o. length (or_empty o)) e, content-lt fs p bs v e)
]

-- A read of the whole log, short by `file_size - n` bytes.
pub read_log :
    (fs : Files) (p : Str) (n : ℕ)
    → AllFiles fs
    → 0 < n
    → ((read fs p 0 (pos n) ≡ (enoent, [])) × (old_bytes fs p ≡ []))
      ⊎ (read fs p 0 (pos n) ≡ (pos (length (take n (old_bytes fs p))), take n (old_bytes fs p)))
unfolding read_bytes
read_log fs p n v some_room = elim (Option-cases (content fs p)) [
  | inl e ↦ inl (read_lem fs p 0 (pos n) v ∙ rw e (ground arith), ap or_empty e)
  | inr (bs, e) ↦ inr (
      read_lem fs p 0 (pos n) v
      ∙ ap (λ o. read_bytes o 0 (pos n)) e
      ∙ read_whole bs n some_room
      ∙ ap (λ o. (pos (length (take n (or_empty o))), take n (or_empty o))) (sym e))
]
  where
    read_whole :
        (bs : List ℕ) (n : ℕ)
        → 0 < n
        → read_bytes (some bs) 0 (pos n) ≡ (pos (length (take n bs)), take n bs)
    read_whole [] zero h = absurd (omega arith)
    read_whole [] (suc n) h = ground arith
    read_whole (b ∷ bs) n h = ground arith

append-eq :
    (fs : Files) (a : ℕ) (text : Str)
    → AllFiles fs
    → 0 < length text
    → append fs a text
      ≡ append_line fs a
          (length (take (file_size - 2) (log fs a)))
          (take (file_size - 2) (log fs a))
          (new_line text)
unfolding append build_session_path
append-eq fs a text v some_text =
    elim (read_log fs (session_path (pos a)) (file_size - 2) v (omega arith)) [
      | inl (e, empty) ↦ ground (arith, ap (take (file_size - 2)) empty)
      | inr e ↦ ground arith
    ]

-- `session_allow` adds what is stored to an amount that already contains it.
append_line-over :
    (fs : Files) (a : ℕ) (old line : List ℕ)
    → session_quota < session_usage fs a + (length old + length line)
    → append_line fs a (length old) old line ≡ (enospc, fs)
unfolding append_line session_allow
append_line-over fs a old line over = ground arith

append_line-within :
    (fs : Files) (a : ℕ) (old line : List ℕ)
    → session_usage fs a + (length old + length line) ≤ session_quota
    → append_line fs a (length old) old line ≡ store_line fs a (length old) old line
unfolding append_line session_allow
append_line-within fs a old line within = ground arith

module _ (fs : Files) (a : ℕ) (line : List ℕ) (v : AllFiles fs) (small : a < 2 ^ 31)
    (some_line : 0 < length line) (fits : length (log fs a) + length line < file_size) where
  abbrev both : List ℕ
  both = log fs a ++ line

  store-whole :
      take 0 (log fs a)
        ++ (take (length (log fs a) + length line) both
            ++ drop (0 + (length (log fs a) + length line)) (log fs a))
      ≡ both
  store-whole = rw (
    take-length_le (length (log fs a) + length line) both
        (omega (arith, length-append (log fs a) line)),
    drop-length_le (0 + (length (log fs a) + length line)) (log fs a) (omega arith),
    append-nil,
  )

  store_line_done :
      (n : ℕ)
      → (write fs (session_path (pos a)) at_start both (pos (length (log fs a) + length line))).0
        ≡ pos n
      → store_line fs a (length (log fs a)) (log fs a) line ≡ (
        pos (length line),
        (write fs (session_path (pos a)) at_start both (pos (length (log fs a) + length line))).1,
      )
  unfolding store_line build_session_path
  store_line_done n done = ground arith

  store_line_full :
      write fs (session_path (pos a)) at_start both (pos (length (log fs a) + length line))
        ≡ (enospc, fs)
      → store_line fs a (length (log fs a)) (log fs a) line ≡ (eio, fs)
  unfolding store_line build_session_path
  store_line_full failed = ground arith

  store_line_lem :
      let (rc, fs') = store_line fs a (length (log fs a)) (log fs a) line in
      ((rc ≡ pos (length line)) × Stores fs fs' (session_path (pos a)) both)
      ⊎ ((rc ≡ eio) × (fs' ≡ fs))
  store_line_lem =
      elim (write_lem fs (session_path (pos a)) both (length (log fs a) + length line) v
        (length-session_path a small) (omega arith) (omega (arith, length-append (log fs a) line))
        at_start (omega arith) (omega arith)) [
          | inl (done, stored) ↦ rw (store_line_done (length (log fs a) + length line) done) (
              inl (
                refl,
                subst
                    (λ bs.
                      Stores fs
                        (write fs (session_path (pos a)) at_start both
                          (pos (length (log fs a) + length line))).1
                        (session_path (pos a)) bs)
                    store-whole stored,
              ))
          | inr (failed, _) ↦ rw (store_line_full failed) (inr (refl, refl))
        ]

-- In a well-formed table, for an agent number below 2 ^ 31, `session_append` of a text that is not empty either adds one line, the text's first 188 bytes and a
-- newline, to the end of the agent's log and changes no other file; or it fails and changes nothing.
-- It adds a line only while the log's measure, the log's length and the line's together stay within
-- the quota, so that the log is counted twice.
pub append_lem :
    (fs : Files) (a : ℕ) (text : Str)
    → AllFiles fs
    → a < 2 ^ 31
    → 0 < length text
    → let (rc, fs') = append fs a text in
      ((rc ≡ pos (length (new_line text)))
        × Stores fs fs' (session_path (pos a)) (log fs a ++ new_line text)
        × (session_usage fs a + (length (log fs a) + length (new_line text)) ≤ session_quota))
      ⊎ (((rc ≡ enospc) ⊎ (rc ≡ eio)) × (fs' ≡ fs))
append_lem fs a text v small some_text =
    elim (dec_le
      (session_usage fs a + (length (take (file_size - 2) (log fs a)) + length (new_line text)))
      session_quota) [
        | no over ↦
            rw
              (
                append-eq fs a text v some_text,
                append_line-over fs a (take (file_size - 2) (log fs a)) (new_line text)
                    (omega arith),
              )
              (inr (inl refl, refl))
        | yes within ↦
            let short : length (log fs a) ≤ file_size - 2 =
              omega (arith, length-take (file_size - 2) (log fs a)) in
            let same = take-length_le (file_size - 2) (log fs a) short in
            rw
              (
                append-eq fs a text v some_text,
                append_line-within fs a (take (file_size - 2) (log fs a)) (new_line text) within,
                same,
              )
              (added (omega (arith, ap length same)))
      ]
  where
    added :
        session_usage fs a + (length (log fs a) + length (new_line text)) ≤ session_quota
        → let (rc, fs') = store_line fs a (length (log fs a)) (log fs a) (new_line text) in
          ((rc ≡ pos (length (new_line text)))
            × Stores fs fs' (session_path (pos a)) (log fs a ++ new_line text)
            × (session_usage fs a + (length (log fs a) + length (new_line text)) ≤ session_quota))
          ⊎ (((rc ≡ enospc) ⊎ (rc ≡ eio)) × (fs' ≡ fs))
    added bound =
        elim (store_line_lem fs a (new_line text) v small
          (omega (arith, length-append (take (line_max - 4) text) (b'\n' ∷ []))) (omega arith)) [
            | inl (rc, stored) ↦ inl (rc, stored, bound)
            | inr (rc, kept) ↦ inr (inr rc, kept)
          ]

log-le-usage : (fs : Files) (a : ℕ) → AllFiles fs → length (log fs a) ≤ session_usage fs a
unfolding session_usage
log-le-usage fs a v = elim (Option-cases (content fs (session_path (pos a)))) [
  | inl e ↦ omega (arith, ap (λ o. length (or_empty o)) e)
  | inr (bs, e) ↦ ground (arith, usage_lem fs (session_path (pos a)))
]

-- In a well-formed table, for an agent number below 2 ^ 31, `session_append` of a text that is not empty
-- fails and changes nothing once twice the log's length and the new line's together pass the quota.
pub append_stops_at_half :
    (fs : Files) (a : ℕ) (text : Str)
    → AllFiles fs
    → a < 2 ^ 31
    → 0 < length text
    → session_quota < 2 * length (log fs a) + length (new_line text)
    → ((append fs a text).0 ≢ pos (length (new_line text))) × ((append fs a text).1 ≡ fs)
append_stops_at_half fs a text v small some_text half =
    elim (append_lem fs a text v small some_text) [
      | inl (_, _, bound) ↦ absurd (omega (arith, log-le-usage fs a v))
      | inr (inl failed, kept) ↦ (λ e. cc, kept)
      | inr (inr failed, kept) ↦ (λ e. cc, kept)
    ]
