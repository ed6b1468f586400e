-- ===== src/Examples/Policies.antt =====
-- Emitted names and the compiled -auth policy at concrete inputs.
use assayd.Base.{◌≡◌, refl, true, none, some, [], ◌∷◌, ◌++◌, ◌==◌, arith, take}
use assayd.Status.{AuthTransaction, create, publishing}
use assayd.Auth.{AuthTarget, mode_api_key, new_transaction}
use assayd.Auth.Publication.{create_target, aimed}
use assayd.Compiler.{
  Name, concern_serving, AuthInput, AuthPolicy, auth_policy, auth_policy_name, serving_route_name,
  group_is, compile_auth, name_tail,
}
use assayd.Compiler.Names.{emitted_name-injective}
use assayd.Compiler.Groups.{holds_of}
use assayd.Compiler.Policy.{digest_of, auth_policy-compiled, create_target-compile_auth}

abbrev digits : Name → Name
digits x =
    "0" ∷ "1" ∷ "2" ∷ "3" ∷ "4" ∷ "5" ∷ "6" ∷ "7" ∷ "8" ∷ "9" ∷ "a" ∷ "b" ∷ "c" ∷ "d" ∷ "e" ∷ "f"
    ∷ []

abbrev ten : Name
ten = "a" ∷ "-" ∷ "a" ∷ "-" ∷ "a" ∷ "-" ∷ "a" ∷ "-" ∷ "a" ∷ "-" ∷ []

-- A name of 60 characters, of which 38 would be kept, less the dash that ends them.
abbrev long_name : Name
long_name = ten ++ (ten ++ (ten ++ (ten ++ (ten ++ ten))))

abbrev emitted_long : Name
emitted_long = take 37 long_name ++ (("-" ∷ concern_serving) ++ ("-" ∷ digits []))

emitted_name-injective_example : long_name ≡ long_name
unfolding name_tail
emitted_name-injective_example =
    emitted_name-injective digits long_name long_name concern_serving (λ x. omega arith)
      (λ x. omega arith) (λ q. refl) (omega arith) refl refl

abbrev agent : AuthInput
agent = record {
  agent_name = "b" ∷ "o" ∷ "t" ∷ [];
  agent_namespace = "team";
  agent_uid = "u1";
  run_namespace = "run";
}

abbrev bot_policy : AuthPolicy
bot_policy = record {
  name = "b" ∷ "o" ∷ "t" ∷ "-" ∷ "a" ∷ "u" ∷ "t" ∷ "h" ∷ [];
  namespace = "run";
  label_uid = "u1";
  label_agent = "b" ∷ "o" ∷ "t" ∷ [];
  label_namespace = "team";
  target_route = "b" ∷ "o" ∷ "t" ∷ "-" ∷ "s" ∷ "e" ∷ "r" ∷ "v" ∷ "i" ∷ "n" ∷ "g" ∷ [];
  match_expression = group_is "team";
}

auth_policy-compiled_example :
    (auth_policy_name digits agent.agent_name ≡ some bot_policy.name)
    × (serving_route_name digits agent.agent_name ≡ some bot_policy.target_route)
    × (holds_of bot_policy.match_expression "other" ≡ ("other" == "team"))
    × (bot_policy.namespace ≡ "run")
    × (bot_policy.label_uid ≡ "u1")
unfolding auth_policy
auth_policy-compiled_example = auth_policy-compiled digits (λ g. true) agent bot_policy "other" refl

abbrev bot_target : AuthTarget
bot_target = record { mode = mode_api_key; digest = "p1" }

abbrev bot_create : AuthTransaction
bot_create = new_transaction create mode_api_key "p1" publishing none

create_target-compile_auth_example :
    create_target
      (digest_of digits (λ g. true) agent (λ p. some "p1") (auth_policy digits (λ g. true) agent))
      bot_create
    ≡ aimed bot_target
unfolding compile_auth
create_target-compile_auth_example =
    create_target-compile_auth digits (λ g. true) agent (λ p. some "p1") (some mode_api_key)
      bot_target bot_create refl refl refl
