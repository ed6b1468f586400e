-- ===== src/Auth/Abandon.antt =====
-- internal/controller/authtxn.go: `refuseAdopt`, and `abandon`, which undoes a transaction whose target
-- the spec no longer asks for.
use assayd.Base.{
  Bool, true, false, not, ◌&&◌, Option, none, some, List, [], ◌∷◌, ◌++◌, String, ◌==◌,
  if◌then◌else◌,
}
use assayd.Status.{adopt, refused, AuthTransaction, AuthStatus, AgentStatus}
use assayd.Predicates.{transaction_of, is_lock}
use assayd.Auth.{
  mode_api_key, is_adopt, is_create_kind, new_transaction, new_auth, carry_claims, Route,
  route_published,
}
use assayd.Auth.Publication.{
  Effect, ensured, collected, stripped, deleted_route, deleted_policy, persisted, abandon_waiting,
  adopt_refused, AuthPass, after, ends, PassInput, route_publication_for,
}

abbrev pub mode_of : Option AuthStatus → String
mode_of none = ""
mode_of (some auth) = auth.mode

abbrev pub refused_by : AuthTransaction → String → String
refused_by prev desired =
    if is_adopt prev.kind && (desired == mode_api_key && not (prev.refused_mode == ""))
    then prev.refused_mode
    else desired

abbrev pub refused_mode_of : Option AuthTransaction → String → String
refused_mode_of none desired = desired
refused_mode_of (some prev) desired = refused_by prev desired

-- The Adopt that `refuseAdopt` records.
unfoldable pub refusal : Option AuthStatus → String → AuthStatus
refusal auth desired = carry_claims auth (
    new_auth "" (
      some (record (new_transaction adopt "" "" refused none) {
        refused_mode = refused_mode_of (transaction_of auth) desired;
      })))

abbrev pub ensure_serving : AgentStatus → Option AuthStatus → List Effect
ensure_serving status auth =
    if status.active_revision == "" then [] else ensured (route_publication_for auth) ∷ []

-- `refuseAdopt`
unfoldable pub refuse_adopt : PassInput → AgentStatus → Option AuthStatus → String → AuthPass
unfolding refusal
refuse_adopt inp status auth desired =
    ends
      (ensure_serving status auth
        ++ (collected inp.route_name ∷ persisted (some (refusal auth desired)) ∷ []))
      adopt_refused

-- What `abandon` reads.
pub record AbandonReads : Type 0 where
  pub live : Option Route
  pub is_deleting : Bool
  -- The route is still there after its deletion.
  pub still : Bool
  -- A policy at the name carries this Agent's UID, and is still there after its deletion.
  pub owned : Bool
  pub held : Bool

-- An abandonment stops the pass, or goes on with status.auth returned to what it records.
pub data Abandoned : Type 0 where
  halted : AuthPass → Abandoned
  resumed : List Effect → Option AuthStatus → Abandoned

abbrev pub prefixed : List Effect → Abandoned → Abandoned
prefixed es (halted p) = halted (after es p)
prefixed es (resumed fs auth) = resumed (es ++ fs) auth

abbrev pub recorded_none : AuthStatus → AuthStatus
recorded_none auth = carry_claims (some auth) (new_auth auth.mode none)

-- The status update that ends the abandonment.
unfoldable pub abandon_record :
    PassInput → AgentStatus → Bool → String → AuthStatus → AuthTransaction → Abandoned
unfolding refuse_adopt
abandon_record inp status does_compile desired auth tx =
    if is_lock tx.kind
    then (if auth.mode == ""
        then halted (refuse_adopt inp status (some auth) desired)
        else resumed (persisted (some (recorded_none auth)) ∷ []) (some (recorded_none auth)))
    else if does_compile
    then resumed [] none
    else resumed (persisted none ∷ []) none

abbrev pub strips : Option Route → List Effect
strips none = []
strips (some rt) = if route_published rt then stripped ∷ [] else []

abbrev pub deletes : AbandonReads → List Effect
deletes r = if r.is_deleting then [] else deleted_route ∷ []

abbrev pub is_there : Option Route → Bool
is_there none = false
is_there (some _) = true

-- The abandoned Create's route loses its backendRefs, and goes where the spec does not compile.
unfoldable pub abandon_route : AbandonReads → Bool → Abandoned → Abandoned
abandon_route r does_compile rest = prefixed (strips r.live) (
    if is_there r.live && not does_compile
    then prefixed (deletes r) (if r.still then halted (ends [] abandon_waiting) else rest)
    else rest)

-- The policy that the transaction wrote goes.
unfoldable pub abandon_policy : AbandonReads → AuthTransaction → Abandoned → Abandoned
abandon_policy r tx rest =
    if tx.written && r.owned
    then prefixed (deleted_policy ∷ []) (if r.held then halted (ends [] abandon_waiting) else rest)
    else rest

-- `abandon`
unfoldable pub abandon :
    PassInput
    → AgentStatus
    → AbandonReads
    → Bool
    → String
    → AuthStatus
    → AuthTransaction
    → Abandoned
unfolding abandon_record abandon_route abandon_policy
abandon inp status r does_compile desired auth tx =
    let rest = abandon_policy r tx (abandon_record inp status does_compile desired auth tx) in
    if is_create_kind tx.kind then abandon_route r does_compile rest else rest
