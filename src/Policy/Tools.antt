-- ===== src/Policy/Tools.antt =====
-- kernel/policy.c: the tools that are denied.
use open_agent_os.Prelude.{
  ℕ, ◌≤◌, ◌≡◌, refl, ap, ◌∙◌, false, not, ◌&&◌, ◌||◌, List, [], ◌∷◌, ◌++◌, ℤ, pos, negsuc, arith,
  is_zero, int_eq, ◌==◌, if◌then◌else◌, length, Bool-cases, inl, inr,
}
use open_agent_os.Abi.{eperm}
use open_agent_os.Policy.{
  Policy, deny_has, is_exempt, deny, deny_tool, without, allow_tool, tool_allow,
}

-- The tools of a deny list: each from 0 to 31, none of those that cannot be denied, none twice.
abbrev pub AllTools : List ℕ → Type 0
AllTools [] = Unit
AllTools (t ∷ ts) = (t ≤ 31) × (is_exempt t ≡ false) × (deny_has ts t ≡ false) × AllTools ts

pub deny_has-append :
    (ts : List ℕ) (t u : ℕ) → deny_has (ts ++ t ∷ []) u ≡ (t == u || deny_has ts u)
unfolding deny_has
deny_has-append [] t u = refl
deny_has-append (x ∷ ts) t u = ground (arith, deny_has-append ts t u)

pub AllTools-append :
    (ts : List ℕ) (t : ℕ)
    → AllTools ts
    → t ≤ 31
    → is_exempt t ≡ false
    → deny_has ts t ≡ false
    → AllTools (ts ++ t ∷ [])
unfolding deny_has
AllTools-append [] t v small free fresh = (small, free, refl, tt)
AllTools-append (x ∷ ts) t v small free fresh = (
  v.0,
  v.1,
  deny_has-append ts t x ∙ ground arith,
  AllTools-append ts t v.3 small free (ground arith),
)

deny_has-without :
    (ts : List ℕ) (t u : ℕ)
    → AllTools ts
    → deny_has (without ts t) u ≡ (not (t == u) && deny_has ts u)
unfolding deny_has without
deny_has-without [] t u v = ground arith
deny_has-without (x ∷ ts) t u v = ground (arith, deny_has-without ts t u v.3)

pub AllTools-without : (ts : List ℕ) (t : ℕ) → AllTools ts → AllTools (without ts t)
unfolding without
AllTools-without [] t v = tt
AllTools-without (x ∷ ts) t v = elim (Bool-cases (x == t)) [
  | inl here ↦ rw here v.3
  | inr there ↦
      rw there (v.0, v.1, deny_has-without ts t x v.3 ∙ ground arith, AllTools-without ts t v.3)
]

pub length-without : (ts : List ℕ) (t : ℕ) → length (without ts t) ≤ length ts
unfolding without
length-without [] t = omega arith
length-without (x ∷ ts) t = ground (arith, length-without ts t)

-- For every policy and every two tool numbers: a `policy_deny_tool` that fails changes nothing; after
-- one that returns 0 its tool is blocked with EPERM, and every other tool is decided as before.
pub deny_tool-tool_allow :
    (p : Policy) (t u : ℤ)
    → (if is_zero (deny_tool p t).0
        then tool_allow (deny_tool p t).1 u ≡ (if int_eq t u then eperm else tool_allow p u)
        else (deny_tool p t).1 ≡ p)
unfolding deny_tool deny tool_allow
deny_tool-tool_allow p (pos t) (pos u) = ground (
  arith,
  deny_has-append p.deny_tools t u,
  λ (e : t ≡ u). ap is_exempt e,
  λ (e : t ≡ u). ap (deny_has p.deny_tools) e,
)
deny_tool-tool_allow p (pos t) (negsuc u) = ground arith
deny_tool-tool_allow p (negsuc t) u = ground arith

-- In a policy whose deny list has no tool twice, `policy_allow_tool` returns 0, its tool is no longer
-- blocked, and every other tool is decided as before.
pub allow_tool-tool_allow :
    (p : Policy) (t u : ℤ)
    → AllTools p.deny_tools
    → ((allow_tool p t).0 ≡ pos 0)
      × (tool_allow (allow_tool p t).1 u ≡ (if int_eq t u then pos 0 else tool_allow p u))
unfolding allow_tool tool_allow
allow_tool-tool_allow p (pos t) (pos u) v = ground (arith, deny_has-without p.deny_tools t u v)
allow_tool-tool_allow p (pos t) (negsuc u) v = ground arith
allow_tool-tool_allow p (negsuc t) (pos u) v = ground arith
allow_tool-tool_allow p (negsuc t) (negsuc u) v = ground arith

-- A tool that was denied may be denied, and is blocked.
pub denied_blocks :
    (p : Policy) (t : ℕ)
    → (deny_tool p (pos t)).0 ≡ pos 0
    → (is_exempt t ≡ false) × (tool_allow (deny_tool p (pos t)).1 (pos t) ≡ eperm)
unfolding deny_tool deny tool_allow
denied_blocks p t done = ground (arith, deny_has-append p.deny_tools t t)
