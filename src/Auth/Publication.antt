-- ===== src/Auth/Publication.antt =====
-- internal/controller/authtxn.go and httproute.go: what a pass writes, and how it ends.
--
-- A pass is its writes, in order. A read or a write that fails returns at once, as a crash does: what
-- was written by then is a prefix of the list, and Auth/World plays every prefix.
use assayd.Base.{
  ℕ, Bool, true, false, Option, none, some, List, [], ◌∷◌, ◌++◌, String, ◌==◌, if◌then◌else◌,
}
use assayd.Status.{Stage, AuthTransaction, AuthStatus}
use assayd.Auth.{
  AuthTarget, key_source, mode_none, mode_api_key, is_create_kind, is_publishing, new_auth,
}

-- `routePublication`: prepared, with no backendRefs, or published under a mode.
pub record RoutePublication : Type 0 where
  pub prepared : Bool
  pub mode : String

abbrev recorded_publication : String → RoutePublication
recorded_publication mode = record { prepared = false; mode = mode }

abbrev pub publication_in : String → Option AuthTransaction → RoutePublication
publication_in mode none = recorded_publication mode
publication_in mode (some tx) =
    if is_create_kind tx.kind
    then (if is_publishing tx.stage
        then record { prepared = false; mode = tx.target_mode }
        else record { prepared = true; mode = "" })
    else recorded_publication mode

-- `routePublicationFor`
unfoldable pub route_publication_for : Option AuthStatus → RoutePublication
route_publication_for none = recorded_publication ""
route_publication_for (some auth) = publication_in auth.mode auth.transaction

pub data Effect : Type 0 where
  -- `ensureServingRoute` brought the route to this.
  ensured : RoutePublication → Effect
  -- `collectRoutes`, keeping this route.
  collected : String → Effect
  -- The abandonment's removal of the route's backendRefs, its deletion, and the policy's.
  stripped deleted_route deleted_policy : Effect
  -- `ensureAuthPolicy` in a transaction, and `reassertServedPolicy`'s write.
  wrote_policy reasserted_policy : Effect
  -- An anonymous request: the answer's code, whether a 401 is this route's policy's, and whether a
  -- gateway-wide policy stood beside it.
  probed : Option ℕ → Bool → Bool → Effect
  -- `persistStatus`
  persisted : Option AuthStatus → Effect

pub data AuthError : Type 0 where
  target_unrenderable policy_uncompiled route_gone no_serving_revision no_route : AuthError
  target_unknown : String → AuthError
  stage_unknown : Stage → AuthError
  kind_unknown : AuthError

-- Why a transaction waits, `unmet`.
pub data Unmet : Type 0 where
  not_settled own_name_held policy_nacked not_converged foreign_policy unattached : Unmet
  probe_refused no_revision not_published_converged : Unmet

pub data End : Type 0 where
  -- A served record was written, or kept.
  served : End
  waiting : Unmet → AuthTransaction → End
  -- The abandonment waits for what it deletes.
  abandon_waiting : End
  adopt_refused : End
  -- Nothing to do: no revision serves, or the spec does not compile.
  idle : End
  failed : AuthError → End

pub record AuthPass : Type 0 where
  pub effects : List Effect
  pub end : End

abbrev pub after : List Effect → AuthPass → AuthPass
after es pass = record { effects = es ++ pass.effects; end = pass.end }

abbrev pub ends : List Effect → End → AuthPass
ends es e = record { effects = es; end = e }

-- What every -auth pass knows: the rendered policy's digest, the policies the operator did not emit, and
-- the names.
pub record PassInput : Type 0 where
  pub route_name : String
  pub own_policy : String
  pub agent_name : String
  pub agent_namespace : String
  pub run_namespace : String
  pub rendered : Option String
  pub foreign : List String
  pub now : ℕ
  pub new_deadline : ℕ

pub data TargetRead : Type 0 where
  aimed : AuthTarget → TargetRead
  unaimed : AuthError → TargetRead

abbrev rendered_target : Option String → String → TargetRead
rendered_target none recorded = unaimed policy_uncompiled
rendered_target (some digest) recorded =
    if digest == recorded
    then aimed (record { mode = mode_api_key; digest = digest })
    else unaimed target_unrenderable

-- `createTarget`
unfoldable pub create_target : Option String → AuthTransaction → TargetRead
create_target rendered tx =
    if tx.target_mode == mode_none
    then aimed (record { mode = mode_none; digest = "" })
    else if tx.target_mode == mode_api_key
    then rendered_target rendered tx.target_digest
    else unaimed (target_unknown tx.target_mode)

abbrev pub with_target : TargetRead → (AuthTarget → AuthPass) → AuthPass
with_target (unaimed e) run = ends [] (failed e)
with_target (aimed target) run = run target

-- `servedRecord`
unfoldable pub served_record : PassInput → AuthTarget → AuthStatus
served_record inp target =
    if target.mode == mode_none
    then new_auth mode_none none
    else record (new_auth mode_api_key none) {
      key_source = key_source inp.run_namespace;
      admitted_groups = inp.agent_namespace ∷ [];
      applied_digest = target.digest;
      verified = some (record { replicas_probed = 1; replicas_declared = none });
    }

-- `foreignAtOwnName`
unfoldable pub foreign_at_own_name : List String → String → Bool
foreign_at_own_name [] own = false
foreign_at_own_name (f ∷ fs) own =
    let rest = foreign_at_own_name fs own in if f == own then true else rest

abbrev pub some_foreign : List String → Bool
some_foreign [] = false
some_foreign (_ ∷ _) = true

-- After how long the pass runs again; a nil deadline is dereferenced.
pub data Requeue : Type 0 where
  probe_interval card_retry deadline_nil : Requeue
  past_deadline : ℕ → Requeue

abbrev at_deadline : Option ℕ → Requeue
at_deadline none = deadline_nil
at_deadline (some d) = past_deadline d

-- The `requeue` of a transaction that waits.
unfoldable pub requeue_for : Unmet → Bool → AuthTransaction → Requeue
requeue_for u passed tx = elim u [
  | not_settled ↦ probe_interval
  | own_name_held ↦ probe_interval
  | policy_nacked ↦ probe_interval
  | foreign_policy ↦ probe_interval
  | unattached ↦ if passed then card_retry else probe_interval
  | probe_refused ↦ if passed then card_retry else probe_interval
  | _ ↦ if passed then card_retry else at_deadline tx.deadline
]
