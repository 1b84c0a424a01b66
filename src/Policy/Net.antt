-- ===== src/Policy/Net.antt =====
-- kernel/policy.c: the hosts that are allowed.
use open_agent_os.Prelude.{
  ℕ, ◌≤◌, ◌<◌, ◌≡◌, ◌⊎◌, refl, ap, ◌∙◌, Bool, true, false, ◌&&◌, ◌||◌, List, [], ◌∷◌, ◌++◌, pos,
  arith, is_zero, leb, ◌==◌, if◌then◌else◌, take, length, length-append, length-take,
  take-length_le, Bool-cases, inl, inr,
}
use open_agent_os.Abi.{eperm}
use open_agent_os.Bytes.{Str, str_eq, str_eq_iff}
use open_agent_os.Policy.{Allowed, Policy, net_allow_max, net_has, net_add_allow, net_allow}

-- The entries: a host of 1 to 47 bytes and a port.
abbrev pub AllHosts : List Allowed → Type 0
AllHosts [] = Unit
AllHosts (a ∷ as_) = (0 < length a.host) × (length a.host < 48) × (0 < a.port) × AllHosts as_

pub net_has-append :
    (as_ : List Allowed) (a : Allowed) (h : Str) (q : ℕ)
    → net_has (as_ ++ a ∷ []) h q ≡ (net_has as_ h q || a.port == q && str_eq a.host h)
unfolding net_has
net_has-append [] a h q = ground arith
net_has-append (x ∷ as_) a h q = ground (arith, net_has-append as_ a h q)

pub AllHosts-append :
    (as_ : List Allowed) (a : Allowed)
    → AllHosts as_
    → 0 < length a.host
    → length a.host < 48
    → 0 < a.port
    → AllHosts (as_ ++ a ∷ [])
AllHosts-append [] a v some_bytes short some_port = (some_bytes, short, some_port, tt)
AllHosts-append (x ∷ as_) a v some_bytes short some_port =
    (v.0, v.1, v.2, AllHosts-append as_ a v.3 some_bytes short some_port)

net_has-long :
    (as_ : List Allowed) (h : Str) (q : ℕ) → AllHosts as_ → 48 ≤ length h → net_has as_ h q ≡ false
unfolding net_has
net_has-long [] h q v long = refl
net_has-long (a ∷ as_) h q v long =
    ground
      (arith, net_has-long as_ h q v.3 long, str_eq_iff a.host h, λ (e : a.host ≡ h). ap length e)

net_has_some : (as_ : List Allowed) (h : Str) (q : ℕ) → net_has as_ h q ≡ true → 0 < length as_
unfolding net_has
net_has_some [] h q e = cc
net_has_some (a ∷ as_) h q e = omega arith

abbrev pub entry : Str → ℕ → Allowed
entry host port = record { host = take 47 host; port = port }

abbrev pub with_entry : Policy → Str → ℕ → Policy
with_entry p host port = record p { net_allowed = p.net_allowed ++ entry host port ∷ [] }

pub net_add_allow_cases :
    (p : Policy) (host : Str) (port : ℕ)
    → ((is_zero (net_add_allow p host port).0 ≡ false) × ((net_add_allow p host port).1 ≡ p))
      ⊎ (((net_add_allow p host port ≡ (pos 0, p)) × (net_has p.net_allowed host port ≡ true))
          ⊎ ((net_add_allow p host port ≡ (pos 0, with_entry p host port))
              × (0 < length host)
              × (0 < port)
              × (length p.net_allowed < net_allow_max)))
unfolding net_add_allow
net_add_allow_cases p host port = elim (Bool-cases (length host == 0 || port == 0)) [
  | inl bad ↦ inl (rw (bad, net_add_allow) (refl, refl))
  | inr good ↦ elim (Bool-cases (net_has p.net_allowed host port)) [
    | inl there ↦ inr (inl (rw (good, there, net_add_allow) (refl, refl)))
    | inr fresh ↦ elim (Bool-cases (leb net_allow_max (length p.net_allowed))) [
      | inl full ↦ inl (rw (good, fresh, net_add_allow) (rw full (refl, refl)))
      | inr room ↦ inr (
          inr (
            rw (good, fresh, net_add_allow)
              (rw room (refl, ground arith, ground arith, ground arith))))
    ]
  ]
]

net_allow_lem :
    (p : Policy) (h : Str) (q : ℕ)
    → p.net_restrict ≡ true
    → 0 < length h
    → 0 < length p.net_allowed
    → net_allow p h q ≡ (if net_has p.net_allowed h q then pos 0 else eperm)
unfolding net_allow
net_allow_lem p h q on named some_entry = ground arith

net_allow-with_entry :
    (p : Policy) (host : Str) (port : ℕ) (h : Str) (q : ℕ)
    → p.net_restrict ≡ true
    → 0 < length h
    → net_allow (with_entry p host port) h q
      ≡ (if net_has p.net_allowed h q || port == q && str_eq (take 47 host) h then pos 0 else eperm)
net_allow-with_entry p host port h q on named =
    net_allow_lem (with_entry p host port) h q on named
      (omega (arith, length-append p.net_allowed (entry host port ∷ [])))
    ∙ ap (λ b. if b then pos 0 else eperm) (net_has-append p.net_allowed (entry host port) h q)

-- For a policy that restricts the network and a host of at most 47 bytes: when `policy_net_add_allow`
-- returns 0, `policy_net_allow` of any host name that is not empty and any port returns 0 if they are
-- the pair that was added or one that was listed before, and EPERM otherwise; when it fails, the
-- policy is as it was.
net_add_allow-net_allow :
    (p : Policy) (host : Str) (port : ℕ) (h : Str) (q : ℕ)
    → p.net_restrict ≡ true
    → length host ≤ 47
    → 0 < length h
    → (if is_zero (net_add_allow p host port).0
        then net_allow (net_add_allow p host port).1 h q
          ≡ (if port == q && str_eq host h || net_has p.net_allowed h q then pos 0 else eperm)
        else (net_add_allow p host port).1 ≡ p)
net_add_allow-net_allow p host port h q on short named = elim (net_add_allow_cases p host port) [
  | inl (failed, same) ↦ rw failed same
  | inr (inl (e, there)) ↦
      let entries = net_has_some p.net_allowed host port there in
      rw e (
        net_allow_lem p h q on named entries
        ∙ ground
            (arith, str_eq_iff host h, λ (e : host ≡ h). ap (λ x. net_has p.net_allowed x q) e))
  | inr (inr (e, _, _, _)) ↦ rw e (
      net_allow-with_entry p host port h q on named
      ∙ ap (λ x. if net_has p.net_allowed h q || port == q && str_eq x h then pos 0 else eperm)
          (take-length_le 47 host short)
      ∙ ground arith)
]

cut_differs : (host : Str) → 48 ≤ length host → str_eq (take 47 host) host ≡ false
cut_differs host long = elim (Bool-cases (str_eq (take 47 host) host)) [
  | inr differs ↦ differs
  | inl same ↦
      absurd
        (omega (arith, length-take 47 host, ap length ((str_eq_iff (take 47 host) host).0 same)))
]

blocked :
    (port q : ℕ) (a b : Bool)
    → a ≡ false
    → b ≡ false
    → (if b || port == q && a then pos 0 else eperm) ≡ eperm
blocked port q a b e e' = ground arith

-- In a policy whose entries have at most 47 bytes and that restricts the network, a host of more than
-- 47 bytes stays blocked after `policy_net_add_allow` has returned 0 for it.
pub net_add_allow-long :
    (p : Policy) (host : Str) (port : ℕ)
    → AllHosts p.net_allowed
    → p.net_restrict ≡ true
    → 48 ≤ length host
    → (net_add_allow p host port).0 ≡ pos 0
    → net_allow (net_add_allow p host port).1 host port ≡ eperm
net_add_allow-long p host port v on long added =
    let absent = net_has-long p.net_allowed host port v long in
    elim (net_add_allow_cases p host port) [
      | inl (failed, same) ↦ absurd (ground arith)
      | inr (inl (e, there)) ↦ absurd (ground arith)
      | inr (inr (e, _, _, _)) ↦ rw e (
          net_allow-with_entry p host port host port on (omega arith)
          ∙ blocked port port (str_eq (take 47 host) host) (net_has p.net_allowed host port)
              (cut_differs host long) absent)
    ]
