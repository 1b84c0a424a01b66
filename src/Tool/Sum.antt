-- ===== src/Tool/Sum.antt =====
-- kernel/tool.c: the tool that adds two numbers.
use open_agent_os.Prelude.{
  ℕ, ◌+◌, ◌-◌, ◌^◌, ◌<◌, ◌≡◌, ap, true, ◌&&◌, ℤ, pos, negsuc, arith, ltb, if◌then◌else◌, Bool-cases,
  inl, inr,
}
use open_agent_os.Tool.{Sys, Args}
use open_agent_os.Tool.Checks.{of_u64, is_summand, check_add}
use open_agent_os.Tool.Runs.{to_int, run_add}

infixl 60 ◌+ℤ◌
abbrev pub ◌+ℤ◌ : ℤ → ℤ → ℤ
pos a +ℤ pos b = pos (a + b)
pos a +ℤ negsuc b = if ltb b a then pos (a - (b + 1)) else negsuc (b - a)
negsuc a +ℤ pos b = if ltb a b then pos (b - (a + 1)) else negsuc (a - b)
negsuc a +ℤ negsuc b = negsuc (a + b + 1)

sum_lem :
    (a b : ℕ)
    → a < 2 ^ 64
    → b < 2 ^ 64
    → (is_summand (of_u64 a) && is_summand (of_u64 b)) ≡ true
    → to_int (a + b) ≡ of_u64 a +ℤ of_u64 b
unfolding is_summand
sum_lem a b small small' ok = elim (Bool-cases (ltb a (2 ^ 63))) [
  | inl p ↦ elim (Bool-cases (ltb b (2 ^ 63))) [ inl q ↦ ground arith | inr q ↦ ground arith ]
  | inr p ↦ elim (Bool-cases (ltb b (2 ^ 63))) [ inl q ↦ ground arith | inr q ↦ ground arith ]
]

-- For any two 64-bit arguments that the check of the tool passes, the tool for adding returns the sum
-- of the two signed numbers, without overflow, and changes nothing.
pub run_add_lem :
    (s : Sys) (i : ℕ) (args : Args)
    → args.arg0 < 2 ^ 64
    → args.arg1 < 2 ^ 64
    → check_add s i args ≡ pos 0
    → run_add s i args ≡ (of_u64 args.arg0 +ℤ of_u64 args.arg1, s)
unfolding check_add run_add
run_add_lem s i args small small' ok =
    ap (λ (x : ℤ). (x, s)) (sum_lem args.arg0 args.arg1 small small' (ground arith))
