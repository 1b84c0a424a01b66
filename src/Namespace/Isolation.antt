-- ===== src/Namespace/Isolation.antt =====
-- kernel/namespace.c: who may open a path in a home directory, and how much an agent may store there.
use open_agent_os.Prelude.{
  ℕ, ◌+◌, ◌-◌, ◌^◌, ◌≤◌, ◌<◌, ◌≡◌, ◌≢◌, ◌⊎◌, refl, ap, ◌∙◌, true, false, List, [], ◌∷◌, ◌++◌, pos,
  arith, take, length, append_assoc, ◌==◌, inl, inr, Bool-cases, ltb, length-append, length-take,
}
use open_agent_os.Abi.{eperm, enospc}
use open_agent_os.Bytes.{Str, starts_with}
use open_agent_os.Decimal.{decimal, decimal_int}
use open_agent_os.Paths.{is_digit}
use open_agent_os.Paths.Numbers.{id_after-decimal}
use open_agent_os.Paths.Digits.{length-decimal-le}
use open_agent_os.Ramfs.{Files, path_max, put}
use open_agent_os.Ramfs.Content.{AllFiles}
use open_agent_os.Ramfs.Laws.{Stores, put_lem}
use open_agent_os.Namespace.{
  parse_namespace_agent_id, is_path, root_for, file_for, path_ok, probe_cross_read, ns_prefix,
  home_dir, secret, write_secret, home_usage, home_quota,
}

-- Any path below the home directory of an agent.
home_path_lem :
    (n : ℕ) (name : Str)
    → root_for (pos n) ++ b'/' ∷ name ≡ b'/' ∷ (ns_prefix ++ (decimal n ++ (home_dir ++ name)))
unfolding root_for decimal_int
home_path_lem n name = simp append_assoc

parse_home :
    (n : ℕ) (name : Str)
    → n < 2 ^ 31
    → parse_namespace_agent_id (root_for (pos n) ++ b'/' ∷ name) ≡ pos n
unfolding parse_namespace_agent_id is_digit starts_with
parse_home n name small =
    ap parse_namespace_agent_id (home_path_lem n name)
    ∙ id_after-decimal ns_prefix (λ rest. starts_with rest home_dir) b'/' n b'/'
        (b'h' ∷ b'o' ∷ b'm' ∷ b'e' ∷ b'/' ∷ name) small refl

is_path_home : (n : ℕ) (name : Str) → is_path (root_for (pos n) ++ b'/' ∷ name) ≡ true
unfolding is_path starts_with root_for
is_path_home n name = refl

-- `namespace_path_ok` accepts the path of a file in the home of an agent, whose number is below 2 ^ 31,
-- exactly for that agent.
pub path_ok-file_for :
    (a n : ℕ) (name : Str) → n < 2 ^ 31 → path_ok a (file_for (pos n) name) ≡ (n == a)
unfolding path_ok file_for
path_ok-file_for a n name small = rw (parse_home n _ small, is_path_home) (ground arith)

-- `namespace_probe_cross_read` refuses with EPERM every attempt to read the secret of another agent,
-- whose number is below 2 ^ 31.
pub probe_cross_read_denied :
    (fs : Files) (a n : ℕ) → n < 2 ^ 31 → n ≢ a → probe_cross_read fs a (pos n) ≡ eperm
unfolding probe_cross_read
probe_cross_read_denied fs a n small other = ground (arith, path_ok-file_for a n secret)

length-file_for : (a : ℕ) → a < 2 ^ 31 → length (file_for (pos a) secret) < path_max
unfolding file_for root_for decimal_int
length-file_for a small = omega (
  arith,
  length-append (root_for (pos a))
      (b'/' ∷ take (path_max - 1 - (length (root_for (pos a)) + 1)) secret),
  length-append (decimal a) (b'/' ∷ b'h' ∷ b'o' ∷ b'm' ∷ b'e' ∷ []),
  length-decimal-le 10 a (omega arith) (omega arith),
  length-take (path_max - 1 - (length (root_for (pos a)) + 1)) secret,
)

write_secret-over :
    (fs : Files) (a n : ℕ) (src : List ℕ)
    → 0 < n
    → ltb home_quota (home_usage fs a + n) ≡ true
    → write_secret fs a src (pos n) ≡ (enospc, fs)
unfolding write_secret
write_secret-over fs a n src some_bytes over = ground arith

write_secret-within :
    (fs : Files) (a n : ℕ) (src : List ℕ)
    → 0 < n
    → ltb home_quota (home_usage fs a + n) ≡ false
    → write_secret fs a src (pos n) ≡ put fs (file_for (pos a) secret) src (pos n)
unfolding write_secret
write_secret-within fs a n src some_bytes within = ground arith

-- In a well-formed table, for an agent number below 2 ^ 31, `namespace_write_secret` of one or more
-- bytes with enough bytes in its buffer either stores exactly the bytes given under
-- the agent's own path, within the quota, or fails with ENOSPC and changes nothing.
pub write_secret_lem :
    (fs : Files) (a n : ℕ) (src : List ℕ)
    → AllFiles fs
    → a < 2 ^ 31
    → 0 < n
    → n ≤ length src
    → let (rc, fs') = write_secret fs a src (pos n) in
      ((rc ≡ pos 0)
        × Stores fs fs' (file_for (pos a) secret) (take n src)
        × (home_usage fs a + n ≤ home_quota))
      ⊎ ((rc ≡ enospc) × (fs' ≡ fs))
write_secret_lem fs a n src v small some_bytes enough =
    elim (Bool-cases (ltb home_quota (home_usage fs a + n))) [
      | inl over ↦ rw (write_secret-over fs a n src some_bytes over) (inr (refl, refl))
      | inr within ↦
          rw (write_secret-within fs a n src some_bytes within)
            (elim (put_lem fs (file_for (pos a) secret) src n v (length-file_for a small) some_bytes
              enough (ground arith)) [
                | inl (done, stored) ↦ inl (done, stored, ground arith)
                | inr (failed, _) ↦ rw failed (inr (refl, refl))
              ])
    ]
