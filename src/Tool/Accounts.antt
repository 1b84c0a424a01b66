-- ===== src/Tool/Accounts.antt =====
-- kernel/tool.c: the counter and the audit log after a tool has run.
use open_agent_os.Prelude.{
  ℕ, ◌+◌, ◌^◌, ◌<◌, ◌≡◌, ◌==◌, refl, ap, sym, subst, not, set, get_or, get_or-set_self,
  get_or-set_ne, leb, true, false, ◌&&◌, List, [], ◌∷◌, ◌++◌, ℤ, arith, if◌then◌else◌, length,
  length-append, some, Bool-cases, Option-cases, inl, inr,
}
use open_agent_os.Abi.{max_agents}
use open_agent_os.Ramfs.{Files}
use open_agent_os.Ramfs.Content.{AllFiles}
use open_agent_os.Quota as Limits
use open_agent_os.Tool.{
  Sys, Args, append_int, audit_line, audit_log, is_free, is_unlogged, with_files, log_line, finish,
}
use open_agent_os.Tool.Line.{IsInt, line_of, audit_line_lem}
use open_agent_os.Tool.Log.{Logged, log_line-Logged}

pub audit_line-some :
    (tool rc : ℤ) (line : List ℕ) → audit_line tool rc ≡ some line → 0 < length line
unfolding audit_line
audit_line-some tool rc line e =
    elim (Option-cases (append_int (b't' ∷ b'o' ∷ b'o' ∷ b'l' ∷ b'=' ∷ []) 32 tool)) [
      | inl stop ↦ absurd (ground arith)
      | inr (buf, one) ↦
          elim (Option-cases (append_int (buf ++ 32 ∷ b'r' ∷ b'c' ∷ b'=' ∷ []) 32 rc)) [
            | inl stop ↦ absurd (ground arith)
            | inr (whole, two) ↦
                let same : line ≡ whole ++ 10 ∷ [] = ground arith in
                omega (arith, ap length same, length-append whole (10 ∷ []))
          ]
    ]

-- What every run of the table keeps, for the accounts that follow it.
pub record KeepsAccounts (ran : ℤ × Sys) (i : ℕ) : Type 0 where
  pub is_int : IsInt ran.0
  pub files : AllFiles ran.1.kernel.files
  pub counter : i < length ran.1.kernel.quota_tool

-- What a call that ran returns, after the run left its status and state in `ran`.
pub record Ran (i : ℕ) (tool : ℤ) (args : Args) (ran out : ℤ × Sys) : Type 0 where
  pub status : out.0 ≡ ran.0
  pub policy : out.1.policy ≡ ran.1.policy
  pub heap : out.1.heap ≡ ran.1.heap
  pub kernel :
      out.1.kernel
      ≡ record ran.1.kernel { files = out.1.kernel.files; quota_tool = out.1.kernel.quota_tool }
  pub counted :
      (j : ℕ)
      → get_or out.1.kernel.quota_tool j 0
        ≡ get_or ran.1.kernel.quota_tool j 0 + (if j == i && not (is_free tool args) then 1 else 0)
  pub logged :
      if is_unlogged tool args ran.0
      then out.1.kernel.files ≡ ran.1.kernel.files
      else Logged ran.1.kernel.files out.1.kernel.files i (line_of tool ran.0)

audit_log-line :
    (s : Sys) (i : ℕ) (tool rc : ℤ)
    → IsInt tool
    → IsInt rc
    → audit_log s i tool rc ≡ with_files s (log_line s.kernel.files i (line_of tool rc))
unfolding audit_log
audit_log-line s i tool rc t r = rw ((audit_line_lem tool rc t r).0, audit_log) refl

-- The counters after one more call.
one_more :
    (q : List ℕ) (i j : ℕ)
    → i < length q
    → get_or (set q i (get_or q i 0 + 1)) j 0 ≡ get_or q j 0 + (if j == i && true then 1 else 0)
one_more q i j counter = elim (Bool-cases (j == i)) [
  | inl same ↦
      let e : j ≡ i = ground arith in
      subst
        (λ k.
          get_or (set q i (get_or q i 0 + 1)) k 0
          ≡ get_or q k 0 + (if k == i && true then 1 else 0))
        (sym e) (ground (arith, get_or-set_self q i (get_or q i 0 + 1) 0))
  | inr other ↦ ground (arith, get_or-set_ne q i j (get_or q i 0 + 1) 0)
]

no_more : (q : List ℕ) (i j : ℕ) → get_or q j 0 ≡ get_or q j 0 + (if j == i && false then 1 else 0)
no_more q i j = ground arith

module _ (i : ℕ) (tool : ℤ) (args : Args) (ran : ℤ × Sys) (v : KeepsAccounts ran i) (t : IsInt tool)
    (in_table : i < max_agents) where
  charge-Ran :
      (fs : Files)
      → if is_unlogged tool args ran.0
        then fs ≡ ran.1.kernel.files
        else Logged ran.1.kernel.files fs i (line_of tool ran.0)
      → Ran i tool args ran (
        ran.0,
        if is_free tool args then with_files ran.1 fs else record (with_files ran.1 fs) {
          kernel = Limits.tool_charge (with_files ran.1 fs).kernel i;
        },
      )
  unfolding Limits.tool_charge
  charge-Ran fs log =
      let below : leb max_agents i ≡ false = ground arith in
      elim (Bool-cases (is_free tool args)) [
        | inl free ↦ rw free (record {
          status = refl;
          policy = refl;
          heap = refl;
          kernel = refl;
          counted = λ j. rw free (no_more ran.1.kernel.quota_tool i j);
          logged = log;
        })
        | inr not_free ↦
            rw (not_free, below)
              (record {
                status = refl;
                policy = refl;
                heap = refl;
                kernel = refl;
                counted = λ j. rw not_free (one_more ran.1.kernel.quota_tool i j v.counter);
                logged = log;
              })
      ]

  pub finish-Ran : Ran i tool args ran (finish ran.1 i tool args ran.0)
  unfolding finish
  finish-Ran = elim (Bool-cases (is_unlogged tool args ran.0)) [
    | inl quiet ↦ rw (quiet, finish) (charge-Ran ran.1.kernel.files (rw quiet refl))
    | inr loud ↦
        let line = line_of tool ran.0 in
        let small : i < 2 ^ 31 = omega arith in
        let (built, _) = audit_line_lem tool ran.0 t v.is_int in
        rw (loud, finish)
          (rw (audit_log-line ran.1 i tool ran.0 t v.is_int) (
            charge-Ran (log_line ran.1.kernel.files i line) (
              rw loud (
                log_line-Logged ran.1.kernel.files i line v.files small
                  (audit_line-some tool ran.0 line built)))))
  ]
