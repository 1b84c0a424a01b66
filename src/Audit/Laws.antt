-- ===== src/Audit/Laws.antt =====
-- kernel/audit.c: who may read an audit log, and what `audit_write` does to it.
use native.Mathlib.Decide.{dec_le}
use open_agent_os.Prelude.{
  ℕ, ◌+◌, ◌^◌, ◌≤◌, ◌<◌, ◌≡◌, ◌≢◌, ◌⊎◌, refl, ap, ◌∙◌, List, [], ◌∷◌, ◌++◌, pos, arith,
  if◌then◌else◌, ◌==◌, length, take, length-append, length-take, take-length_le, none, some,
  Option-cases, inl, inr, subst,
}
use open_agent_os.Abi.{eperm, enospc}
use open_agent_os.Bytes.{str_eq}
use open_agent_os.Decimal.{decimal, decimal_int}
use open_agent_os.Paths.{is_digit}
use open_agent_os.Paths.Numbers.{id_after-decimal}
use open_agent_os.Paths.Digits.{length-decimal-le}
use open_agent_os.Ramfs.{Files, path_max, read, put}
use open_agent_os.Ramfs.Content.{content, or_empty, read_bytes, AllFiles, read_lem}
use open_agent_os.Ramfs.Laws.{Stores, IsFull, put_lem, old_bytes}
use open_agent_os.Usage.{usage, usage_lem}
use open_agent_os.Audit.{
  quota_bytes, audit_prefix, tool_log, parse_audit_agent_id, path_for, audit_usage, allow_append,
  path_ok, probe_cross_read, extend, write,
}

parse-path_for : (n : ℕ) → n < 2 ^ 31 → parse_audit_agent_id (path_for (pos n)) ≡ pos n
unfolding parse_audit_agent_id path_for decimal_int is_digit str_eq
parse-path_for n small =
    id_after-decimal audit_prefix (λ rest. str_eq rest tool_log) b'/' n b'/'
      (b't' ∷ b'o' ∷ b'o' ∷ b'l' ∷ b'.' ∷ b'l' ∷ b'o' ∷ b'g' ∷ []) small refl

-- `audit_path_ok` accepts the log of an agent, whose number is below 2 ^ 31, exactly for that agent.
pub path_ok-path_for : (a n : ℕ) → n < 2 ^ 31 → path_ok a (path_for (pos n)) ≡ (n == a)
unfolding path_ok
path_ok-path_for a n small = rw (parse-path_for n small) (ground arith)

-- `audit_probe_cross_read` lets no agent read the log of another.
pub probe_cross_read_denied :
    (fs : Files) (a n : ℕ) → n < 2 ^ 31 → n ≢ a → probe_cross_read fs a (pos n) ≡ eperm
unfolding probe_cross_read
probe_cross_read_denied fs a n small other = ground (arith, path_ok-path_for a n)

pub length-path_for : (a : ℕ) → a < 2 ^ 31 → length (path_for (pos a)) < path_max
unfolding path_for decimal_int
length-path_for a small =
    omega (
      arith,
      length-append (decimal a) tool_log,
      length-decimal-le 10 a (omega arith) (omega arith),
    )

-- What the log held before.
abbrev pub log : Files → ℕ → List ℕ
log fs a = old_bytes fs (path_for (pos a))

-- Why `n` more bytes do not go into the log.
abbrev pub HasNoRoom : Files → ℕ → ℕ → Type 0
HasNoRoom fs a n = (quota_bytes ≤ length (log fs a) + n) ⊎ IsFull fs (path_for (pos a))

-- The new log is put whole.
module _ (fs : Files) (a n : ℕ) (src : List ℕ) (v : AllFiles fs) (some_bytes : 0 < n)
    (enough : n ≤ length src) where
  write-over : quota_bytes < audit_usage fs a + n → write fs a src (pos n) ≡ (enospc, fs)
  unfolding write allow_append
  write-over over = ground arith

  write-new :
      content fs (path_for (pos a)) ≡ none
      → audit_usage fs a + n ≤ quota_bytes
      → write fs a src (pos n) ≡ put fs (path_for (pos a)) src (pos n)
  unfolding write allow_append audit_usage
  write-new missing within =
      let unused : usage fs (path_for (pos a)) ≡ 0 =
        usage_lem fs (path_for (pos a)) v ∙ rw missing refl in
      ground arith

  read_used :
      (bs : List ℕ) (used : ℕ)
      → content fs (path_for (pos a)) ≡ some bs
      → length bs ≤ used
      → 0 < used
      → read fs (path_for (pos a)) 0 (pos used) ≡ (pos (length bs), bs)
  unfolding read_bytes
  read_used bs used there covers some_used =
      read_lem fs (path_for (pos a)) 0 (pos used) v ∙ rw there (read_all bs used covers some_used)
    where
      read_all :
          (bs : List ℕ) (used : ℕ)
          → length bs ≤ used
          → 0 < used
          → read_bytes (some bs) 0 (pos used) ≡ (pos (length bs), bs)
      read_all [] used h k = ground arith
      read_all (b ∷ bs) used h k = ground (arith, take-length_le used (b ∷ bs))

  extend-eq :
      (bs : List ℕ) (used : ℕ)
      → content fs (path_for (pos a)) ≡ some bs
      → length bs ≤ used
      → 0 < used
      → extend fs a used src n ≡ put fs (path_for (pos a)) (bs ++ take n src) (pos (length bs + n))
  unfolding extend
  extend-eq bs used there covers some_used = ground (arith, read_used bs used there)

  write-more :
      0 < audit_usage fs a
      → audit_usage fs a + n ≤ quota_bytes
      → write fs a src (pos n) ≡ extend fs a (audit_usage fs a) src n
  unfolding write allow_append
  write-more some_used within = ground arith

  used_bounds :
      (bs : List ℕ)
      → content fs (path_for (pos a)) ≡ some bs
      → (0 < audit_usage fs a) × (length bs ≤ audit_usage fs a)
  unfolding audit_usage
  used_bounds bs there =
      let used : usage fs (path_for (pos a)) ≡ (if length bs == 0 then 1 else length bs) =
        usage_lem fs (path_for (pos a)) v ∙ rw there refl in
      ground arith

  appended :
      a < 2 ^ 31
      → (bs : List ℕ) → content fs (path_for (pos a)) ≡ some bs
      → audit_usage fs a + n ≤ quota_bytes
      → let (rc, fs') = write fs a src (pos n) in
        ((rc ≡ pos 0)
          × Stores fs fs' (path_for (pos a)) (bs ++ take n src)
          × (length bs + n ≤ quota_bytes))
        ⊎ ((rc ≡ enospc)
            × (fs' ≡ fs)
            × ((quota_bytes ≤ length bs + n) ⊎ IsFull fs (path_for (pos a))))
  appended small bs there within =
      let (some_used, covers) = used_bounds bs there in
      let len : length (bs ++ take n src) ≡ length bs + n =
        omega (arith, length-append bs (take n src), length-take n src) in
      rw (write-more some_used within, extend-eq bs (audit_usage fs a) there covers some_used)
        (elim (put_lem fs (path_for (pos a)) (bs ++ take n src) (length bs + n) v
          (length-path_for a small) (omega arith) (omega arith) (omega arith)) [
            | inl (done, stored) ↦ inl (
              done,
              subst
                  (λ new.
                    Stores fs (put fs (path_for (pos a)) (bs ++ take n src) (pos (length bs + n))).1
                      (path_for (pos a)) new)
                  (take-length_le (length bs + n) (bs ++ take n src) (omega arith)) stored,
              omega arith,
            )
            | inr (failed, full) ↦ rw failed (inr (refl, refl, inr full))
          ])

  over_room : quota_bytes < audit_usage fs a + n → quota_bytes ≤ length (log fs a) + n
  unfolding audit_usage
  over_room over =
      let used = usage_lem fs (path_for (pos a)) v in
      elim (Option-cases (content fs (path_for (pos a)))) [
        | inl missing ↦
            let e : usage fs (path_for (pos a)) ≡ 0 = used ∙ rw missing refl in omega arith
        | inr (bs, there) ↦
            let e : usage fs (path_for (pos a)) ≡ (if length bs == 0 then 1 else length bs) =
              used ∙ rw there refl in
            let len : length (log fs a) ≡ length bs = ap (λ o. length (or_empty o)) there in
            ground arith
      ]

  -- In a well-formed table, for an agent number below 2 ^ 31, `audit_write` of one or more bytes from a
  -- buffer with enough bytes either appends them to the agent's log, within the quota, and
  -- changes no other file; or fails with ENOSPC and changes nothing,
  -- because the log has less than one byte of room left behind them, or is not there and the table is full.
  pub audit_write_lem :
      a < 2 ^ 31
      → let (rc, fs') = write fs a src (pos n) in
        ((rc ≡ pos 0)
          × Stores fs fs' (path_for (pos a)) (log fs a ++ take n src)
          × (length (log fs a) + n ≤ quota_bytes))
        ⊎ ((rc ≡ enospc) × (fs' ≡ fs) × HasNoRoom fs a n)
  unfolding audit_usage
  audit_write_lem small = elim (dec_le (audit_usage fs a + n) quota_bytes) [
    | no over ↦ rw (write-over (omega arith)) (inr (refl, refl, inl (over_room (omega arith))))
    | yes within ↦ elim (Option-cases (content fs (path_for (pos a)))) [
      | inl missing ↦
          rw (write-new missing within, ap or_empty missing)
            (elim (put_lem fs (path_for (pos a)) src n v (length-path_for a small) some_bytes enough
              (omega arith)) [
                | inl (done, stored) ↦ inl (done, stored, omega arith)
                | inr (failed, full) ↦ rw failed (inr (refl, refl, inr full))
              ])
      | inr (bs, there) ↦ rw (ap or_empty there) (appended small bs there within)
    ]
  ]
