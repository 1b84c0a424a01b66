-- ===== src/Usage.antt =====
-- How kernel/namespace.c, tenant.c and audit.c measure a file: they read it byte by byte until a read
-- gives nothing.
use open_agent_os.Prelude.{
  ℕ, zero, suc, ◌+◌, ◌-◌, ◌≤◌, ◌<◌, ◌≡◌, refl, ap, ◌∙◌, List, pos, arith, is_nonpos, is_neg,
  if◌then◌else◌, false, length, drop, none, some, length-drop, length-take, Option-cases, inl, inr,
  leb, ◌==◌, Bool-cases,
}
use open_agent_os.Bytes.{Str}
use open_agent_os.Ramfs.{Files, file_size, read}
use open_agent_os.Ramfs.Content.{content, read_bytes, AllFiles, read_lem, content-lt}

-- `for (off = …; off < RAMFS_FILE_SIZE; off++)`, with `rounds` offsets left.
unfoldable pub usage_from : Files → Str → ℕ → ℕ → ℕ
usage_from fs path zero off = file_size
usage_from fs path (suc rounds) off =
    let later = usage_from fs path rounds (off + 1) in
    if is_nonpos (read fs path off (pos 1)).0 then off else later

-- `namespace_home_usage`, `tenant_session_usage` and `audit_usage`, over their paths.
unfoldable pub usage : Files → Str → ℕ
usage fs path =
    let counted = usage_from fs path (file_size - 1) 1 in
    if is_neg (read fs path 0 (pos 1)).0 then 0 else counted

-- One byte read from a file that is there.
pub read_one :
    (fs : Files) (p : Str) (bs : List ℕ) (off : ℕ)
    → AllFiles fs
    → content fs p ≡ some bs
    → (is_nonpos (read fs p off (pos 1)).0 ≡ leb (length bs) off)
      × (is_neg (read fs p off (pos 1)).0 ≡ false)
unfolding read_bytes
read_one fs p bs off v e =
    rw (read_lem fs p off (pos 1) v, e, read_bytes)
      (ground (arith, length-take 1 (drop off bs), length-drop off bs))

usage_from-length :
    (fs : Files) (p : Str) (bs : List ℕ) (rounds off : ℕ)
    → AllFiles fs
    → content fs p ≡ some bs
    → off ≤ length bs
    → length bs < off + rounds
    → usage_from fs p rounds off ≡ length bs
unfolding usage_from
usage_from-length fs p bs zero off v e h k = absurd (omega arith)
usage_from-length fs p bs (suc rounds) off v e h k = elim (Bool-cases (leb (length bs) off)) [
  | inl ended ↦ rw ((read_one fs p bs off v e).0 ∙ ended, usage_from) (ground arith)
  | inr more ↦
      rw ((read_one fs p bs off v e).0 ∙ more, usage_from)
        (usage_from-length fs p bs rounds (off + 1) v e (ground arith) (omega arith))
]

usage_from_one :
    (fs : Files) (p : Str) (bs : List ℕ) (rounds : ℕ)
    → AllFiles fs
    → content fs p ≡ some bs
    → 0 < rounds
    → length bs ≤ rounds
    → usage_from fs p rounds 1 ≡ (if length bs == 0 then 1 else length bs)
unfolding usage_from
usage_from_one fs p bs zero v e some_rounds h = absurd (omega arith)
usage_from_one fs p bs (suc rounds) v e some_rounds h = elim (Bool-cases (length bs == 0)) [
  | inl empty ↦ rw empty (ground (arith, read_one fs p bs 1 v e))
  | inr full ↦ rw full (usage_from-length fs p bs (suc rounds) 1 v e (ground arith) (omega arith))
]

usage_found :
    (fs : Files) (p : Str) (bs : List ℕ)
    → AllFiles fs
    → content fs p ≡ some bs
    → usage fs p ≡ (if length bs == 0 then 1 else length bs)
unfolding usage
usage_found fs p bs v e =
    ap (λ b. if b then 0 else usage_from fs p (file_size - 1) 1) (read_one fs p bs 0 v e).1
    ∙ usage_from_one fs p bs (file_size - 1) v e (omega arith)
        (omega (arith, content-lt fs p bs v e))

-- In a well-formed table the measure is the file's length; a file that is there but empty counts as
-- one byte, and a file that is not there as none.
pub usage_lem :
    (fs : Files) (p : Str)
    → AllFiles fs
    → usage fs p
      ≡ elim (content fs p) [ none ↦ 0 | some bs ↦ if length bs == 0 then 1 else length bs ]
unfolding usage read_bytes
usage_lem fs p v = elim (Option-cases (content fs p)) [
  | inl e ↦ rw (e, usage, read_lem fs p 0 (pos 1) v) (rw (e, read_bytes) refl)
  | inr (bs, e) ↦ usage_found fs p bs v e ∙ rw e refl
]
