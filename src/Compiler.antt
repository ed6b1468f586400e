-- ===== src/Compiler.antt =====
-- internal/compiler/naming.go and auth.go: the names of what the operator emits, and an Agent's -auth
-- policy compiled from its spec.
--
-- A name is the list of its characters, each a byte: the API server admits ASCII names alone. The hash in
-- hex, `utf8.ValidString` and the digest of a policy are parameters. A CEL expression is its tree, without
-- the ids and the text that `Unparse` prints.
pub mod Names
pub mod Groups
pub mod Policy
use assayd.Base.{
  ℕ, zero, suc, ◌+◌, ◌-◌, Bool, true, false, not, ◌&&◌, ◌||◌, Option, none, some, List, [], ◌∷◌,
  ◌++◌, String, Char, ◌==◌, leb, ltb, length, take, if◌then◌else◌, nat_eq, code,
}
use assayd.Base.Sort.{sort_by}
use assayd.Auth.{AuthTarget, mode_none, mode_api_key}

abbrev pub Name : Type 0
Name = List Char

abbrev pub dash : Name
dash = "-" ∷ []

-- ConcernServing and ConcernAuth
abbrev pub concern_serving : Name
concern_serving = "s" ∷ "e" ∷ "r" ∷ "v" ∷ "i" ∷ "n" ∷ "g" ∷ []

abbrev pub concern_auth : Name
concern_auth = "a" ∷ "u" ∷ "t" ∷ "h" ∷ []

abbrev pub is_dash : Char → Bool
is_dash c = nat_eq (code c) 45

abbrev pub is_empty : Name → Bool
is_empty [] = true
is_empty (_ ∷ _) = false

-- strings.TrimRight(name, "-")
unfoldable pub trim_right : Name → Name
trim_right [] = []
trim_right (c ∷ cs) =
    let rest = trim_right cs in if is_empty rest && is_dash c then [] else c ∷ rest

abbrev pub with_revision : Name → Name → Name
with_revision tail [] = tail
with_revision tail (c ∷ cs) = tail ++ (dash ++ (c ∷ cs))

-- The concern and the revision, as a name ends with them.
unfoldable pub name_tail : Name → Name → Name
name_tail concern rev = with_revision (dash ++ concern) rev

abbrev pub hash_hex : ℕ
hash_hex = 16

-- A name over 63 characters, cut and told apart by the hash of the whole.
unfoldable pub hashed_name : (Name → Name) → Name → Name → Name
unfolding trim_right
hashed_name hash name tail =
    trim_right (take (63 - length tail - 1 - hash_hex) name)
    ++ (tail ++ (dash ++ take hash_hex (hash (name ++ tail))))

-- `keep < 1`, where Go's subtraction may go below 0.
abbrev pub keeps_nothing : Name → Bool
keeps_nothing tail = ltb 63 (length tail + 1 + hash_hex + 1)

-- `EmittedName`
unfoldable pub emitted_name : (Name → Name) → Name → Name → Name → Option Name
unfolding name_tail hashed_name
emitted_name hash name concern rev =
    let tail = name_tail concern rev in
    if leb (length (name ++ tail)) 63
    then some (name ++ tail)
    else if keeps_nothing tail
    then none
    else some (hashed_name hash name tail)

-- `ServingRouteName`
unfoldable pub serving_route_name : (Name → Name) → Name → Option Name
unfolding emitted_name
serving_route_name hash agent = emitted_name hash agent concern_serving []

-- `AuthPolicyName`
unfoldable pub auth_policy_name : (Name → Name) → Name → Option Name
unfolding emitted_name
auth_policy_name hash agent = emitted_name hash agent concern_auth []

-- The expressions that `AdmitGroupsExpression` builds.
pub data Expr : Type 0 where
  ident : String → Expr
  literal : String → Expr
  select : Expr → String → Expr
  call_equals call_or : Expr → Expr → Expr

pub data Admission : Type 0 where
  admits : Expr → Admission
  no_group group_empty : Admission
  group_repeated group_invalid : String → Admission

-- `apiKey.group == group`
abbrev pub group_is : String → Expr
group_is group = call_equals (select (ident "apiKey") "group") (literal group)

abbrev pub joined : Option Expr → Expr → Expr
joined none e = e
joined (some x) e = call_or x e

abbrev pub repeats : Option String → String → Bool
repeats none group = false
repeats (some last) group = group == last

abbrev pub built : Option Expr → Admission
built none = no_group
built (some e) = admits e

-- The loop, over the sorted groups.
unfoldable pub admit_loop : (String → Bool) → Option String → Option Expr → List String → Admission
admit_loop valid last expr [] = built expr
admit_loop valid last expr (group ∷ groups) =
    let rest = admit_loop valid (some group) (some (joined expr (group_is group))) groups in
    if group == ""
    then group_empty
    else if repeats last group
    then group_repeated group
    else if not (valid group)
    then group_invalid group
    else rest

-- `AdmitGroupsExpression`
unfoldable pub admit_groups : (String → Bool) → List String → Admission
unfolding admit_loop
admit_groups valid groups = admit_loop valid none none (sort_by (λ g. g) groups)

pub record AuthInput : Type 0 where
  pub agent_name : Name
  pub agent_namespace : String
  pub agent_uid : String
  pub run_namespace : String

-- What varies in the AgentgatewayPolicy that `AuthPolicy` builds.
pub record AuthPolicy : Type 0 where
  pub name : Name
  pub namespace : String
  pub label_uid : String
  pub label_agent : Name
  pub label_namespace : String
  pub target_route : Name
  pub match_expression : Expr

pub data PolicyError : Type 0 where
  name_empty namespace_empty uid_empty run_namespace_empty unnamed : PolicyError
  unadmitted : Admission → PolicyError
  not_compilable : String → PolicyError
  digest_failed : PolicyError

-- A Go result of a value and an error.
pub data Compiled {ℓ} (V : Type ℓ) : Type ℓ where
  rejected : PolicyError → Compiled V
  compiled : V → Compiled V

-- `if err != nil { return nil, err }`, and the code after it.
infixl 4 ◌>>=◌ ◌>>◌
abbrev pub ◌>>=◌ {ℓ κ} : {V : Type ℓ} {W : Type κ} → Compiled V → (V → Compiled W) → Compiled W
rejected why >>= next = rejected why
compiled value >>= next = next value

abbrev pub ◌>>◌ {ℓ} : {W : Type ℓ} → Compiled (Unit {0}) → Compiled W → Compiled W
first >> next = first >>= λ _. next

abbrev pub require : Bool → PolicyError → Compiled (Unit {0})
require true e = rejected e
require false e = compiled tt

abbrev pub named : Option Name → Compiled Name
named none = rejected unnamed
named (some name) = compiled name

abbrev pub admitted : Admission → Compiled Expr
admitted (admits e) = compiled e
admitted a = rejected (unadmitted a)

-- `AuthPolicy`
unfoldable pub auth_policy : (Name → Name) → (String → Bool) → AuthInput → Compiled AuthPolicy
unfolding auth_policy_name serving_route_name admit_groups
auth_policy hash valid in_ = do
  require (is_empty in_.agent_name) name_empty
  require (in_.agent_namespace == "") namespace_empty
  require (in_.agent_uid == "") uid_empty
  require (in_.run_namespace == "") run_namespace_empty
  name ← named (auth_policy_name hash in_.agent_name)
  route ← named (serving_route_name hash in_.agent_name)
  expr ← admitted (admit_groups valid (in_.agent_namespace ∷ []))
  compiled (record {
    name = name;
    namespace = in_.run_namespace;
    label_uid = in_.agent_uid;
    label_agent = in_.agent_name;
    label_namespace = in_.agent_namespace;
    target_route = route;
    match_expression = expr;
  })

-- `desiredAuthMode`, of spec.expose.a2a.auth where the pointers to it are set.
unfoldable pub desired_auth_mode : Option String → Compiled String
desired_auth_mode none = compiled mode_api_key
desired_auth_mode (some mode) =
    if mode == mode_none || mode == mode_api_key
    then compiled mode
    else rejected (not_compilable mode)

abbrev digested : Option String → Compiled String
digested none = rejected digest_failed
digested (some digest) = compiled digest

abbrev key_target : String → Compiled AuthTarget
key_target digest = compiled (record { mode = mode_api_key; digest = digest })

-- `CompileAuth`
unfoldable pub compile_auth :
    (Name → Name)
    → (String → Bool)
    → (AuthPolicy → Option String)
    → Option String
    → AuthInput
    → Compiled AuthTarget
unfolding desired_auth_mode auth_policy
compile_auth hash valid digest auth in_ = desired_auth_mode auth >>= λ mode.
    if mode == mode_none
    then compiled (record { mode = mode_none; digest = "" })
    else auth_policy hash valid in_ >>= λ policy. digested (digest policy) >>= key_target
