-- ===== src/Compiler/Policy.antt =====
-- What the compiled -auth policy says, when there is one, and that a transaction entered for a compiled
-- target can be run.
use assayd.Base.{
  ◌≡◌, refl, sym, ap, ◌∙◌, subst, Bool, true, false, not, ◌&&◌, ◌||◌, Option, none, some, [], ◌∷◌,
  String, ◌==◌, arith, eq_iff, inl, inr, Bool-cases, is_some, if◌then◌else◌,
}
use assayd.Status.{AuthTransaction}
use assayd.Auth.{AuthTarget, mode_none, mode_api_key}
use assayd.Auth.Publication.{create_target, aimed}
use assayd.Compiler.{
  Name, is_empty, serving_route_name, auth_policy_name, Expr, Admission, admits, no_group,
  group_empty, group_repeated, group_invalid, admit_loop, admit_groups, AuthInput, AuthPolicy,
  PolicyError, Compiled, compiled, rejected, ◌>>=◌, ◌>>◌, require, named, admitted, auth_policy,
  desired_auth_mode, digested, compile_auth,
}
use assayd.Auth.Serving.{create_target-aimed}
use assayd.Compiler.Names.{names-is_some}
use assayd.Compiler.Groups.{holds_of, admit_groups-holds_of}

-- A predicate of the value, where there is one.
abbrev pub IfOk {ℓ κ} : {A : Type ℓ} → (A → Type κ) → Compiled A → Type κ
IfOk P (compiled a) = P a
IfOk P (rejected e) = Unit

bind-IfOk {ℓ κ ι} :
    {A : Type ℓ} {B : Type κ} (P : B → Type ι) (m : Compiled A) (f : A → Compiled B)
    → ((a : A) → m ≡ compiled a → IfOk P (f a))
    → IfOk P (m >>= f)
bind-IfOk P (compiled a) f h = h a refl
bind-IfOk P (rejected e) f h = tt

abbrev pub is_compiled {ℓ} : {A : Type ℓ} → Compiled A → Bool
is_compiled (compiled a) = true
is_compiled (rejected e) = false

abbrev value_of : Compiled Name → Option Name
value_of (compiled name) = some name
value_of (rejected e) = none

branch-IfOk {ℓ κ} :
    {A : Type ℓ} (P : A → Type κ) (b : Bool) (x y : Compiled A)
    → IfOk P x
    → IfOk P y
    → IfOk P (if b then x else y)
branch-IfOk P true x y p q = p
branch-IfOk P false x y p q = q

abbrev text_of : Compiled String → Option String
text_of (compiled text) = some text
text_of (rejected e) = none

digested-ok : (o : Option String) (text : String) → digested o ≡ compiled text → o ≡ some text
digested-ok none text q = ap text_of q
digested-ok (some s) text q = ap text_of q

named-ok : (o : Option Name) (name : Name) → named o ≡ compiled name → o ≡ some name
named-ok none name q = ap value_of q
named-ok (some n) name q = ap value_of q

abbrev admission_of : Compiled Expr → Admission
admission_of (compiled e) = admits e
admission_of (rejected e) = no_group

admitted-ok : (a : Admission) (e : Expr) → admitted a ≡ compiled e → a ≡ admits e
admitted-ok (admits x) e q = ap admission_of q
admitted-ok no_group e q = absurd (ground (arith, ap is_compiled q))
admitted-ok group_empty e q = absurd (ground (arith, ap is_compiled q))
admitted-ok (group_repeated g) e q = absurd (ground (arith, ap is_compiled q))
admitted-ok (group_invalid g) e q = absurd (ground (arith, ap is_compiled q))

or_false : (b : Bool) → (b || false) ≡ b
or_false true = refl
or_false false = refl

is_compiled-named : (o : Option Name) → is_compiled (named o) ≡ is_some o
is_compiled-named none = refl
is_compiled-named (some n) = refl

-- A bind of results that all succeed.
is_compiled-bind {ℓ κ} :
    {A : Type ℓ} {B : Type κ} (m : Compiled A) (f : A → Compiled B) (b : Bool)
    → is_compiled m ≡ true
    → ((a : A) → is_compiled (f a) ≡ b)
    → is_compiled (m >>= f) ≡ b
is_compiled-bind (compiled a) f b s h = h a
is_compiled-bind (rejected e) f b s h = absurd (ground arith)

is_compiled-require {κ} :
    {B : Type κ} (fails : Bool) (e : PolicyError) (k : Compiled B) (b : Bool)
    → (fails ≡ false → is_compiled k ≡ b)
    → is_compiled (require fails e >> k) ≡ (not fails && b)
is_compiled-require true e k b h = refl
is_compiled-require false e k b h = h refl

-- The last of a chain of results does not fail.
is_compiled-last {ℓ κ} :
    {A : Type ℓ} {B : Type κ} (m : Compiled A) (f : A → B)
    → is_compiled (m >>= λ a. compiled (f a)) ≡ is_compiled m
is_compiled-last (compiled a) f = refl
is_compiled-last (rejected e) f = refl

module _ (hash : Name → Name) (valid : String → Bool) (in_ : AuthInput) where
  -- The policy is this Agent's: its name, the route that it targets, the one group that it admits, its
  -- namespace and its label.
  abbrev pub IsPolicy : AuthPolicy → Type 0
  IsPolicy p =
      (auth_policy_name hash in_.agent_name ≡ some p.name)
      × (serving_route_name hash in_.agent_name ≡ some p.target_route)
      × ((group : String) → holds_of p.match_expression group ≡ (group == in_.agent_namespace))
      × (p.namespace ≡ in_.run_namespace)
      × (p.label_uid ≡ in_.agent_uid)

  auth_policy-IfOk : IfOk IsPolicy (auth_policy hash valid in_)
  unfolding auth_policy
  auth_policy-IfOk = bind-IfOk IsPolicy (require (is_empty in_.agent_name) _) _ (λ a _.
      bind-IfOk IsPolicy (require (in_.agent_namespace == "") _) _ (λ a _.
        bind-IfOk IsPolicy (require (in_.agent_uid == "") _) _ (λ a _.
          bind-IfOk IsPolicy (require (in_.run_namespace == "") _) _ (λ a _.
            bind-IfOk IsPolicy (named (auth_policy_name hash in_.agent_name)) _ (λ name n.
              bind-IfOk IsPolicy (named (serving_route_name hash in_.agent_name)) _ (λ route r.
                bind-IfOk IsPolicy (admitted (admit_groups valid (in_.agent_namespace ∷ []))) _
                  (λ expr e. (
                    named-ok _ name n,
                    named-ok _ route r,
                    λ group.
                        admit_groups-holds_of valid (in_.agent_namespace ∷ []) expr group
                          (admitted-ok _ expr e)
                        ∙ or_false (group == in_.agent_namespace),
                    refl,
                    refl,
                  ))))))))

  is_compiled-admitted :
      (in_.agent_namespace == "") ≡ false
      → is_compiled (admitted (admit_groups valid (in_.agent_namespace ∷ [])))
        ≡ valid in_.agent_namespace
  unfolding admit_groups admit_loop
  is_compiled-admitted n = elim (Bool-cases (valid in_.agent_namespace)) [
    | inl v ↦ rw (n, v) refl
    | inr v ↦ rw (n, v) refl
  ]

  -- A policy that is compiled is the Agent's: it has the Agent's policy name, targets the Agent's serving
  -- route by its name, admits a key exactly where its group is the Agent's namespace, lies in the run
  -- namespace and carries the Agent's UID.
  pub auth_policy-compiled :
      (p : AuthPolicy) (group : String)
      → auth_policy hash valid in_ ≡ compiled p
      → (auth_policy_name hash in_.agent_name ≡ some p.name)
        × (serving_route_name hash in_.agent_name ≡ some p.target_route)
        × (holds_of p.match_expression group ≡ (group == in_.agent_namespace))
        × (p.namespace ≡ in_.run_namespace)
        × (p.label_uid ≡ in_.agent_uid)
  auth_policy-compiled p group q =
      let (name, route, expr, namespace, uid) = subst (IfOk IsPolicy) q auth_policy-IfOk in
      (name, route, expr group, namespace, uid)

  -- A policy is compiled exactly where the Agent's name, namespace, UID and run namespace are not empty
  -- and the namespace is valid UTF-8.
  pub is_compiled-auth_policy : is_compiled (auth_policy hash valid in_) ≡ (
      not (is_empty in_.agent_name)
      && (not (in_.agent_namespace == "")
          && (not (in_.agent_uid == "")
              && (not (in_.run_namespace == "") && valid in_.agent_namespace))))
  unfolding auth_policy
  is_compiled-auth_policy =
      let (route, name) = names-is_some hash in_.agent_name in
      is_compiled-require (is_empty in_.agent_name) _ _ _ (λ _.
        is_compiled-require (in_.agent_namespace == "") _ _ _ (λ n.
          is_compiled-require (in_.agent_uid == "") _ _ _ (λ _.
            is_compiled-require (in_.run_namespace == "") _ _ _ (λ _.
              is_compiled-bind (named (auth_policy_name hash in_.agent_name)) _ _
                (is_compiled-named _ ∙ name)
                (λ a.
                  is_compiled-bind (named (serving_route_name hash in_.agent_name)) _ _
                    (is_compiled-named _ ∙ route)
                    (λ r. is_compiled-last _ _ ∙ is_compiled-admitted n))))))

  abbrev pub digest_of : (AuthPolicy → Option String) → Compiled AuthPolicy → Option String
  digest_of digest (rejected e) = none
  digest_of digest (compiled p) = digest p

  abbrev Aimed : (AuthPolicy → Option String) → AuthTarget → Type 0
  Aimed digest target =
      (tx : AuthTransaction)
      → tx.target_mode ≡ target.mode
      → tx.target_digest ≡ target.digest
      → create_target (digest_of digest (auth_policy hash valid in_)) tx ≡ aimed target

  none-Aimed :
      (digest : AuthPolicy → Option String)
      → Aimed digest (record { mode = mode_none; digest = "" })
  unfolding create_target
  none-Aimed digest tx m d = let is_none = (eq_iff tx.target_mode mode_none).1 m in rw is_none refl

  key-Aimed :
      (digest : AuthPolicy → Option String) (text : String)
      → digest_of digest (auth_policy hash valid in_) ≡ some text
      → Aimed digest (record { mode = mode_api_key; digest = text })
  key-Aimed digest text q tx m d =
      ap (λ rendered. create_target rendered tx) (q ∙ ap some (sym d))
      ∙ create_target-aimed tx m
      ∙ ap (λ text. aimed (record { mode = mode_api_key; digest = text })) d

  compile_auth-IfOk :
      (digest : AuthPolicy → Option String) (auth : Option String)
      → IfOk (Aimed digest) (compile_auth hash valid digest auth in_)
  unfolding compile_auth
  compile_auth-IfOk digest auth = bind-IfOk (Aimed digest) (desired_auth_mode auth) _ (λ mode _.
      branch-IfOk (Aimed digest) (mode == mode_none) _ _ (none-Aimed digest) (
        bind-IfOk (Aimed digest) (auth_policy hash valid in_) _ (λ policy p.
          bind-IfOk (Aimed digest) (digested (digest policy)) _ (λ text t.
            key-Aimed digest text (ap (digest_of digest) p ∙ digested-ok (digest policy) text t)))))

  -- A transaction entered for a target that compiled aims at it for as long as the same policy is
  -- rendered: `createTarget` returns that target.
  pub create_target-compile_auth :
      (digest : AuthPolicy → Option String) (auth : Option String) (target : AuthTarget)
      (tx : AuthTransaction)
      → compile_auth hash valid digest auth in_ ≡ compiled target
      → tx.target_mode ≡ target.mode
      → tx.target_digest ≡ target.digest
      → create_target (digest_of digest (auth_policy hash valid in_)) tx ≡ aimed target
  create_target-compile_auth digest auth target tx q m d =
      subst (IfOk (Aimed digest)) q (compile_auth-IfOk digest auth) tx m d
