-- ===== src/Policy/Load.antt =====
-- kernel/policy.c: what the rules of a file may do to the policy.
use open_agent_os.Prelude.{
  ℕ, ◌-◌, ◌≤◌, ◌≡◌, ap, sym, ◌∙◌, subst, Bool, true, false, ◌&&◌, ◌||◌, List, [], ◌∷◌, ◌++◌, ℤ, pos,
  negsuc, arith, is_neg, pos_part, of_u32, ltb, leb, ◌==◌, if◌then◌else◌, take, drop, length,
  length-append, length-take, Bool-cases, inl, inr,
}
use open_agent_os.Bytes.{Str, str_eq, char_at, starts_with}
use open_agent_os.Paths.{is_digit, parse_digits}
use open_agent_os.Ramfs.{Files, file_size, read}
use open_agent_os.Policy.{
  Policy, deny_max, net_allow_max, policy_active, deny_has, is_exempt, deny, deny_tool, allow_tool,
  net_set_restrict, net_has, net_add_allow, skip_blanks, take_host, parse_port, parse_allow,
  parse_restrict, parse_net_allow, parse_deny, parse_line, lines_of, parse_lines, load, init,
}
use open_agent_os.Policy.Tools.{AllTools, AllTools-append, AllTools-without, length-without}
use open_agent_os.Policy.Net.{AllHosts, AllHosts-append, net_has-append, net_add_allow_cases, entry}

-- A well-formed policy: its lists fit their arrays.
pub record IsPolicy (p : Policy) : Type 0 where
  pub tools : AllTools p.deny_tools
  pub few_tools : length p.deny_tools ≤ deny_max
  pub hosts : AllHosts p.net_allowed
  pub few_hosts : length p.net_allowed ≤ net_allow_max

-- Every host and port that `p` lists is listed in `p'`.
abbrev pub Keeps : Policy → Policy → Type 0
Keeps p p' =
    (h : Str) (q : ℕ) → net_has p.net_allowed h q ≡ true → net_has p'.net_allowed h q ≡ true

-- What a rule may do.
data Edits (p : Policy) : Policy → Type 0 where
  none_made : Edits p p
  denied : (t : ℤ) → Edits p (deny_tool p t).1
  added : (h : Str) (q : ℕ) → Edits p (net_add_allow p h q).1
  restricted : (on : Bool) → Edits p (net_set_restrict p on).1

parse_allow-Edits : (p : Policy) (line : Str) → Edits p (parse_allow p line).1
unfolding parse_allow
parse_allow-Edits p line =
    let (host, rest) = take_host 47 (skip_blanks line) in
    let port = if char_at rest 0 == b':' then parse_port 0 (drop 1 rest) else pos 0 in
    elim (Bool-cases (length host == 0 || is_neg port)) [
      | inl bad ↦ rw bad none_made
      | inr good ↦ rw good (added host (if pos_part port == 0 then 443 else pos_part port))
    ]

parse_restrict-Edits : (p : Policy) (line : Str) → Edits p (parse_restrict p line).1
unfolding parse_restrict
parse_restrict-Edits p line =
    let word = skip_blanks line in
    elim (Bool-cases (starts_with word (b'r' ∷ b'i' ∷ b'c' ∷ b't' ∷ []))) [
      | inl on ↦ rw on (restricted true)
      | inr other ↦ elim (Bool-cases (starts_with word (b'o' ∷ b'p' ∷ b'e' ∷ b'n' ∷ []))) [
        | inl off ↦ rw (other, off) (restricted false)
        | inr neither ↦ rw (other, neither) none_made
      ]
    ]

parse_net_allow-Edits : (p : Policy) (line : Str) → Edits p (parse_net_allow p line).1
unfolding parse_net_allow
parse_net_allow-Edits p line =
    let word = skip_blanks line in
    let next = skip_blanks (drop 3 word) in
    elim (Bool-cases (starts_with word (b'n' ∷ b'e' ∷ b't' ∷ []))) [
      | inr other ↦ rw other none_made
      | inl net ↦ elim (Bool-cases (starts_with next (b'r' ∷ b'e' ∷ b's' ∷ b't' ∷ []))) [
        | inl rest ↦ rw (net, rest) (parse_restrict-Edits p (drop 4 next))
        | inr no_rest ↦
            elim (Bool-cases (starts_with next (b'a' ∷ b'l' ∷ b'l' ∷ b'o' ∷ b'w' ∷ []))) [
              | inl allow ↦ rw (net, no_rest, allow) (parse_allow-Edits p (drop 5 next))
              | inr neither ↦ rw (net, no_rest, neither) none_made
            ]
      ]
    ]

parse_line-Edits : (p : Policy) (line : Str) → Edits p (parse_line p line).1
unfolding parse_line parse_deny
parse_line-Edits p line =
    let word = skip_blanks line in
    elim (Bool-cases (starts_with word (b'n' ∷ b'e' ∷ b't' ∷ []))) [
      | inl net ↦ rw net (parse_net_allow-Edits p line)
      | inr other ↦ elim (Bool-cases (starts_with word (b'd' ∷ b'e' ∷ b'n' ∷ b'y' ∷ []))) [
        | inr neither ↦ rw (other, neither) none_made
        | inl deny ↦ elim (Bool-cases (is_digit (char_at (skip_blanks (drop 4 word)) 0))) [
          | inl number ↦
              rw (other, deny, number)
                (denied (of_u32 (parse_digits 0 (skip_blanks (drop 4 word))).0))
          | inr none_there ↦ rw (other, deny, none_there) none_made
        ]
      ]
    ]

deny_tool-IsPolicy : (p : Policy) (t : ℤ) → IsPolicy p → IsPolicy (deny_tool p t).1
unfolding deny_tool deny
deny_tool-IsPolicy p (negsuc t) v = v
deny_tool-IsPolicy p (pos t) v = elim (Bool-cases (ltb 31 t || is_exempt t)) [
  | inl bad ↦ subst IsPolicy (let e : p ≡ (deny_tool p (pos t)).1 = ground arith in e) v
  | inr good ↦ elim (Bool-cases (deny_has p.deny_tools t || leb deny_max (length p.deny_tools))) [
    | inl there ↦ subst IsPolicy (let e : p ≡ (deny_tool p (pos t)).1 = ground arith in e) v
    | inr fresh ↦
        subst IsPolicy
          (let e : record p { deny_tools = p.deny_tools ++ t ∷ [] } ≡ (deny_tool p (pos t)).1 =
              ground arith in
            e)
          (record {
            tools =
                AllTools-append p.deny_tools t v.tools (ground arith) (ground arith) (ground arith);
            few_tools = ground (arith, length-append p.deny_tools (t ∷ []));
            hosts = v.hosts;
            few_hosts = v.few_hosts;
          })
  ]
]

allow_tool-IsPolicy : (p : Policy) (t : ℤ) → IsPolicy p → IsPolicy (allow_tool p t).1
unfolding allow_tool
allow_tool-IsPolicy p (negsuc t) v = v
allow_tool-IsPolicy p (pos t) v = record {
  tools = AllTools-without p.deny_tools t v.tools;
  few_tools = omega (arith, v.few_tools, length-without p.deny_tools t);
  hosts = v.hosts;
  few_hosts = v.few_hosts;
}

net_add_allow-IsPolicy :
    (p : Policy) (h : Str) (q : ℕ) → IsPolicy p → IsPolicy (net_add_allow p h q).1
net_add_allow-IsPolicy p h q v = elim (net_add_allow_cases p h q) [
  | inl (failed, same) ↦ subst IsPolicy (sym same) v
  | inr (inl (e, there)) ↦ subst IsPolicy (sym (ap (λ (x : ℤ × Policy). x.1) e)) v
  | inr (inr (e, named, some_port, room)) ↦
      subst IsPolicy (sym (ap (λ (x : ℤ × Policy). x.1) e)) (record {
        tools = v.tools;
        few_tools = v.few_tools;
        hosts =
            AllHosts-append p.net_allowed (entry h q) v.hosts (omega (arith, length-take 47 h))
              (omega (arith, length-take 47 h)) some_port;
        few_hosts = omega (arith, length-append p.net_allowed (entry h q ∷ []));
      })
]

net_add_allow-Keeps : (p : Policy) (h : Str) (q : ℕ) → Keeps p (net_add_allow p h q).1
net_add_allow-Keeps p h q = elim (net_add_allow_cases p h q) [
  | inl (failed, same) ↦ subst (Keeps p) (sym same) (λ h' q' e. e)
  | inr (inl (e, there)) ↦ subst (Keeps p) (sym (ap (λ (x : ℤ × Policy). x.1) e)) (λ h' q' e'. e')
  | inr (inr (e, _, _, _)) ↦ subst (Keeps p) (sym (ap (λ (x : ℤ × Policy). x.1) e)) (λ h' q' e'.
      net_has-append p.net_allowed (entry h q) h' q'
      ∙ ap (λ b. b || q == q' && str_eq (take 47 h) h') e')
]

deny_tool-Keeps : (p : Policy) (t : ℤ) → Keeps p (deny_tool p t).1
unfolding deny_tool deny
deny_tool-Keeps p (negsuc t) h q e = e
deny_tool-Keeps p (pos t) h q e = ground arith

Edits-IsPolicy : (p p' : Policy) → Edits p p' → IsPolicy p → IsPolicy p'
unfolding net_set_restrict
Edits-IsPolicy p _ none_made v = v
Edits-IsPolicy p _ (denied t) v = deny_tool-IsPolicy p t v
Edits-IsPolicy p _ (added h q) v = net_add_allow-IsPolicy p h q v
Edits-IsPolicy p _ (restricted on) v = record {
  tools = v.tools;
  few_tools = v.few_tools;
  hosts = v.hosts;
  few_hosts = v.few_hosts;
}

Edits-Keeps : (p p' : Policy) → Edits p p' → Keeps p p'
unfolding net_set_restrict
Edits-Keeps p _ none_made = λ h q e. e
Edits-Keeps p _ (denied t) = deny_tool-Keeps p t
Edits-Keeps p _ (added h q) = net_add_allow-Keeps p h q
Edits-Keeps p _ (restricted on) = λ h q e. e

parse_lines_lem :
    (p : Policy) (lines : List Str)
    → IsPolicy p
    → IsPolicy (parse_lines p lines) × Keeps p (parse_lines p lines)
unfolding parse_lines
parse_lines_lem p [] v = (v, λ h q e. e)
parse_lines_lem p ([] ∷ rest) v = parse_lines_lem p rest v
parse_lines_lem p ((c ∷ cs) ∷ rest) v =
    let p' = (parse_line p (c ∷ cs)).1 in
    let made = parse_line-Edits p (c ∷ cs) in
    let (valid, keeps) = parse_lines_lem p' rest (Edits-IsPolicy p p' made v) in
    (valid, λ h q e. keeps h q (Edits-Keeps p p' made h q e))

no_tools-IsPolicy : (p : Policy) → IsPolicy p → IsPolicy (record p { deny_tools = [] })
no_tools-IsPolicy p v = record {
  tools = tt;
  few_tools = omega arith;
  hosts = v.hosts;
  few_hosts = v.few_hosts;
}

load_both :
    (p : Policy) (fs : Files) (path : Str)
    → IsPolicy p
    → IsPolicy (load p fs path).1 × Keeps p (load p fs path).1
unfolding load
load_both p fs path v =
    let (len, buf) =
      read fs (if length path == 0 then policy_active else path) 0 (pos (file_size - 1)) in
    elim (Bool-cases (is_neg len)) [
      | inl failed ↦ rw failed (v, λ h q e. e)
      | inr done ↦
          rw done
            (parse_lines_lem (record p { deny_tools = [] }) (lines_of buf) (no_tools-IsPolicy p v))
    ]

-- The state that `policy_init` makes is well-formed: its deny list has at most 16 entries, each a tool
-- from 0 to 31 that may be denied and none twice, and its host list at most 8, each of 1 to 47 bytes
-- with a port other than 0. Denying and allowing any tool, adding any host and port, and loading
-- whatever file keep a policy well-formed.
pub policy-IsPolicy :
    (fs : Files) (p : Policy) (t : ℤ) (host : Str) (port : ℕ) (path : Str)
    → IsPolicy p
    → IsPolicy (init fs).0
      × IsPolicy (deny_tool p t).1
      × IsPolicy (allow_tool p t).1
      × IsPolicy (net_add_allow p host port).1
      × IsPolicy (load p fs path).1
unfolding init
policy-IsPolicy fs p t host port path v = (
  record { tools = tt; few_tools = omega arith; hosts = tt; few_hosts = omega arith },
  deny_tool-IsPolicy p t v,
  allow_tool-IsPolicy p t v,
  net_add_allow-IsPolicy p host port v,
  (load_both p fs path v).0,
)

-- Whatever file a well-formed policy is loaded from, every host and port that was listed before the
-- `policy_load` is listed after it.
pub load_keeps_hosts :
    (p : Policy) (fs : Files) (path : Str) (host : Str) (port : ℕ)
    → IsPolicy p
    → net_has p.net_allowed host port ≡ true
    → net_has (load p fs path).1.net_allowed host port ≡ true
load_keeps_hosts p fs path host port v = (load_both p fs path v).1 host port
