-- ===== src/Auth.antt =====
-- internal/controller/authtxn.go: the -auth transactions, which take a serving route from unpublished to
-- published under the operator's policy. This file: what a pass decides from status.auth and the spec
-- before it acts, what it acts with, and the route's fields that it reads (httproute.go, compiler/auth.go).
--
-- The children: Auth/Create and Auth/Lock run the two transactions, Auth/Served keeps a served Agent,
-- Auth/Abandon undoes a transaction, Auth/Pass chooses between them, and Auth/World is what passes that
-- may stop anywhere leave behind, of which Auth/Rounds to Auth/Reachable prove the safety. Auth/Ready and
-- Auth/Serving are about the progress of a Create. Auth/Nack and Auth/Converged are what a pass reads.
pub mod Publication
pub mod Create
pub mod Attribution
pub mod Lock
pub mod Abandon
pub mod Served
pub mod Pass
pub mod World
pub mod Rounds
pub mod Creation
pub mod Locking
pub mod Safety
pub mod Dispatching
pub mod Undoing
pub mod Reachable
pub mod Ready
pub mod Serving
pub mod Consent
pub mod Nack
pub mod Converged
pub mod Judgement
pub mod Standing
pub mod Holding
use assayd.Base.{
  ℕ, Bool, true, false, not, ◌&&◌, ◌||◌, Option, none, some, List, [], ◌∷◌, String, ◌==◌, leb,
  if◌then◌else◌,
}
use Prim.Native.String.{◌++◌}
use assayd.Status.{
  TxKind, no_kind, create, lock, adopt, Stage, refused, publishing, AuthTransaction, Verification,
  AuthStatus,
}
use assayd.Predicates.{is_lock, is_re_creation}

-- compiler.AuthMode
abbrev pub mode_none : String
mode_none = "none"

abbrev pub mode_api_key : String
mode_api_key = "apikey"

-- compiler.AuthTarget, without the policy itself.
pub record AuthTarget : Type 0 where
  pub mode : String
  pub digest : String

-- spec.expose.a2a.auth, where the pointers to it are set.
abbrev pub desired_mode_name : Option String → String
desired_mode_name none = mode_api_key
desired_mode_name (some auth) = auth

-- `authDesire`: the target, or that it does not compile, and whether spec.budget is set.
pub record AuthDesire : Type 0 where
  pub target : Option AuthTarget
  pub budget : Bool

abbrev is_compiled : Option AuthTarget → Bool
is_compiled none = false
is_compiled (some _) = true

-- `compiles`
unfoldable pub compiles : AuthDesire → Bool
compiles d = is_compiled d.target && not d.budget

pub data CompileFailure : Type 0 where
  input_absent transition_not_built concern_not_built : CompileFailure

abbrev target_failures : Option AuthTarget → String → List CompileFailure
target_failures none recorded = input_absent ∷ []
target_failures (some t) recorded =
    if recorded == mode_api_key && t.mode == mode_none then transition_not_built ∷ [] else []

abbrev budget_failures : Bool → List CompileFailure
budget_failures budget = if budget then concern_not_built ∷ [] else []

-- `compileFailures`, the reasons in order.
unfoldable pub compile_failures : AuthDesire → String → List CompileFailure
compile_failures d recorded = elim (target_failures d.target recorded) [
  | [] ↦ budget_failures d.budget
  | f ∷ fs ↦ f ∷ budget_failures d.budget
]

abbrev pub is_adopt : TxKind → Bool
is_adopt adopt = true
is_adopt _ = false

abbrev pub is_create_kind : TxKind → Bool
is_create_kind create = true
is_create_kind _ = false

abbrev pub is_publishing : Stage → Bool
is_publishing publishing = true
is_publishing _ = false

abbrev abandons_transaction : Bool → Option AuthTransaction → String → Bool
abandons_transaction re_created none desired = false
abandons_transaction re_created (some tx) desired =
    if re_created
    then false
    else if not (is_create_kind tx.kind || is_lock tx.kind) || tx.target_mode == ""
    then false
    else not (tx.target_mode == desired)

-- `abandons`
unfoldable pub abandons : Option AuthStatus → String → Bool
unfolding is_re_creation
abandons none desired = false
abandons (some auth) desired =
    abandons_transaction (is_re_creation (some auth)) auth.transaction desired

-- `k2Consent`
unfoldable pub k2_consent : AuthTransaction → String → Bool
k2_consent tx desired =
    desired == mode_api_key
    && (not (tx.refused_mode == "") && not (tx.refused_mode == mode_api_key))

abbrev passed_at : Option ℕ → ℕ → Bool
passed_at none now = false
passed_at (some d) now = leb d now

-- `deadlinePassed` of `runCreate` and `runLock`.
abbrev pub deadline_passed : AuthTransaction → ℕ → Bool
deadline_passed tx now = passed_at tx.deadline now

-- A transaction with the fields that every one of them sets, and Go's zero values.
abbrev pub new_transaction : TxKind → String → String → Stage → Option ℕ → AuthTransaction
new_transaction kind mode digest stage deadline = record {
  kind = kind;
  target_mode = mode;
  target_digest = digest;
  stage = stage;
  deadline = deadline;
  written = false;
  before_observed = false;
  before_revision = "";
  refused_mode = "";
  probe_before = none;
  probe_after = none;
}

-- status.auth with a mode and a transaction, and Go's zero values.
abbrev pub new_auth : String → Option AuthTransaction → AuthStatus
new_auth mode tx = record {
  mode = mode;
  key_source = "";
  admitted_groups = [];
  applied_digest = "";
  verified = none;
  route_refused = false;
  policy_unattached = false;
  key_source_empty = false;
  transaction = tx;
}

abbrev pub with_transaction : AuthStatus → AuthTransaction → AuthStatus
with_transaction auth tx = record auth { transaction = some tx }

-- `storedClaims` and `writeTo`: the claim store that an assignment of status.auth carries over.
abbrev pub carry_claims : Option AuthStatus → AuthStatus → AuthStatus
carry_claims none auth = auth
carry_claims (some stored) auth = record auth {
  route_refused = stored.route_refused;
  policy_unattached = stored.policy_unattached;
  key_source_empty = stored.key_source_empty;
}

-- The serving route's rules, each the names of its backendRefs, as a read returns them.
pub record Route : Type 0 where
  pub rules : List (List String)

abbrev any_backend : List (List String) → Bool
any_backend [] = false
any_backend ([] ∷ rules) = any_backend rules
any_backend ((_ ∷ _) ∷ rules) = true

-- `routePublished`
abbrev pub route_published : Route → Bool
route_published rt = any_backend rt.rules

abbrev one_backend : List (List String) → String
one_backend ((backend ∷ []) ∷ []) = backend
one_backend _ = ""

-- `singleBackend`
abbrev pub single_backend : Route → String
single_backend rt = one_backend rt.rules

-- `WorkloadName`
abbrev pub workload_name : String → String → String
workload_name agent rev = agent ++ ("-" ++ rev)

-- `KeySource`
unfoldable pub key_source : String → String
key_source run_namespace = run_namespace ++ ("/" ++ ("assayd.dev/api-keys" ++ ("=" ++ "true")))
