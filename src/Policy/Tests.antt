-- ===== src/Policy/Tests.antt =====
-- Examples for kernel/policy.c: a policy with two denied tools and one host, and a file of rules.
use open_agent_os.Prelude.{
  ℕ, ◌≡◌, refl, true, [], ◌∷◌, ◌++◌, pos, arith, replicate, length, some, length-replicate,
}
use open_agent_os.Abi.{eperm}
use open_agent_os.Bytes.{Str, str_eq}
use open_agent_os.Decimal.{decimal, digits_from, put_back}
use open_agent_os.Ramfs.{Files}
use open_agent_os.Ramfs.Content.{content, AllFiles}
use open_agent_os.Policy.{
  Policy, deny_tool, allow_tool, deny_has, is_exempt, net_has, net_add_allow, net_allow, load, init,
}
use open_agent_os.Policy.Tools.{AllTools}
use open_agent_os.Policy.Net.{AllHosts, net_add_allow-long}
use open_agent_os.Policy.Load.{IsPolicy, policy-IsPolicy, load_keeps_hosts}
use open_agent_os.Policy.Parse.{deny_text, load-deny_text}

abbrev host_a : Str
host_a = b'a' ∷ b'.' ∷ b'b' ∷ []

abbrev host_b : Str
host_b = b'c' ∷ []

abbrev far_host : Str
far_host = replicate 50 b'x'

abbrev example : Policy
example = record {
  deny_tools = 10 ∷ 11 ∷ [];
  net_allowed = record { host = host_a; port = 443 } ∷ [];
  net_restrict = true;
}

tools_10_11 : AllTools (10 ∷ 11 ∷ [])
unfolding deny_has is_exempt
tools_10_11 = (omega arith, refl, refl, (omega arith, refl, refl, tt))

example_hosts : AllHosts example.net_allowed
example_hosts = (omega arith, omega arith, omega arith, tt)

example-IsPolicy : IsPolicy example
example-IsPolicy = record {
  tools = tools_10_11;
  few_tools = omega arith;
  hosts = example_hosts;
  few_hosts = omega arith;
}

-- "/p"
abbrev rules_path : Str
rules_path = b'/' ∷ b'p' ∷ []

abbrev rules : Str
rules = deny_text (10 ∷ 11 ∷ [])

abbrev table : Files
table =
    record {
      path = rules_path;
      bytes = rules ++ replicate 8176 0;
      size = length rules;
      used = true;
    }
    ∷ []

table-AllFiles : AllFiles table
unfolding deny_text decimal digits_from put_back
table-AllFiles =
    (record { array = omega (arith, length-replicate {A = ℕ} 8176 0); fits = omega arith }, tt)

rules_there : content table rules_path ≡ some rules
unfolding content str_eq deny_text decimal digits_from put_back
rules_there = refl

far_added : (net_add_allow example far_host 80).0 ≡ pos 0
unfolding net_add_allow net_has str_eq
far_added = refl

net_add_allow-long_example : net_allow (net_add_allow example far_host 80).1 far_host 80 ≡ eperm
net_add_allow-long_example =
    net_add_allow-long example far_host 80 example_hosts refl
      (omega (arith, length-replicate {A = ℕ} 50 b'x')) far_added

policy-IsPolicy_example :
    IsPolicy (init table).0
    × IsPolicy (deny_tool example (pos 12)).1
    × IsPolicy (allow_tool example (pos 12)).1
    × IsPolicy (net_add_allow example host_b 80).1
    × IsPolicy (load example table rules_path).1
policy-IsPolicy_example =
    policy-IsPolicy table example (pos 12) host_b 80 rules_path example-IsPolicy

listed : net_has example.net_allowed host_a 443 ≡ true
unfolding net_has str_eq
listed = refl

load_keeps_hosts_example : net_has (load example table rules_path).1.net_allowed host_a 443 ≡ true
load_keeps_hosts_example =
    load_keeps_hosts example table rules_path host_a 443 example-IsPolicy listed

load-deny_text_example :
    ((load example table rules_path).0 ≡ pos 2)
    × ((load example table rules_path).1.deny_tools ≡ 10 ∷ 11 ∷ [])
load-deny_text_example =
    load-deny_text example table rules_path (10 ∷ 11 ∷ []) table-AllFiles (omega arith) rules_there
      tools_10_11 (omega arith)
