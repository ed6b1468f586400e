-- ===== src/Auth/Pass.antt =====
-- internal/controller/authtxn.go: `authStep`, which chooses what a pass does.
use assayd.Base.{
  ℕ, Bool, false, not, ◌&&◌, Option, none, some, [], ◌∷◌, String, ◌==◌, if◌then◌else◌,
}
use assayd.Status.{
  create, preparing_route, publishing, Stage, AuthTransaction, AuthStatus, AgentStatus,
}
use assayd.Predicates.{is_lock}
use assayd.Auth.{
  AuthTarget, AuthDesire, compiles, mode_none, mode_api_key, is_adopt, is_create_kind, abandons,
  k2_consent, new_transaction, new_auth, Route, route_published,
}
use assayd.Auth.Publication.{
  collected, kind_unknown, idle, failed, AuthPass, after, ends, PassInput,
}
use assayd.Auth.Abandon.{mode_of, refuse_adopt, AbandonReads, Abandoned, halted, resumed, abandon}
use assayd.Auth.Create.{CreateReads, persist, run_create}
use assayd.Auth.Served.{ServedReads, run_lock, enter_lock, reconcile_served}

pub record StepReads : Type 0 where
  pub adopted : Option Route
  pub abandonment : AbandonReads
  pub keeping : ServedReads
  pub creation : ℕ → CreateReads

-- The stage that a Create of this mode starts at.
abbrev pub first_stage : String → Stage
first_stage mode = if mode == mode_none then publishing else preparing_route

abbrev pub base_auth : Option AuthStatus → AuthStatus
base_auth none = new_auth "" none
base_auth (some auth) = auth

-- An Agent that was never served, and its first Create.
unfoldable pub first_create :
    PassInput → AgentStatus → StepReads → AuthTarget → Option AuthStatus → AuthPass
unfolding run_create
first_create inp status reads target auth =
    let tx =
      new_transaction create target.mode target.digest (first_stage target.mode)
        (some inp.new_deadline) in
    after (persist (base_auth auth) tx ∷ [])
      (run_create inp status.active_revision reads.creation (base_auth auth) tx)

-- The target that a transaction may be entered for: it compiles, and a revision serves.
unfoldable pub enterable : AgentStatus → AuthDesire → Option AuthTarget
unfolding compiles
enterable status desire =
    if compiles desire && not (status.active_revision == "") then desire.target else none

-- An Agent that was never served: its first Create, or no route.
unfoldable pub never_served :
    Option AuthTarget → PassInput → AgentStatus → StepReads → Option AuthStatus → AuthPass
unfolding first_create
never_served none inp status reads auth = ends (collected "" ∷ []) idle
never_served (some target) inp status reads auth = first_create inp status reads target auth

-- An Agent served under a mode, with nothing in the slot: `none` is locked in place for keys.
unfoldable pub served_step :
    Option AuthTarget → PassInput → AgentStatus → StepReads → AuthStatus → AuthPass
unfolding enter_lock reconcile_served
served_step none inp status reads auth = reconcile_served inp status reads.keeping auth
served_step (some target) inp status reads auth =
    if auth.mode == mode_none && target.mode == mode_api_key
    then enter_lock inp status reads.keeping.lock_reads target (some auth)
    else reconcile_served inp status reads.keeping auth

-- The transaction in the slot runs, or nothing is in it.
unfoldable pub slot_step :
    Option AuthTransaction
    → PassInput
    → AgentStatus
    → StepReads
    → AuthDesire
    → AuthStatus
    → AuthPass
unfolding run_create run_lock never_served served_step enterable
slot_step none inp status reads desire auth =
    if auth.mode == ""
    then never_served (enterable status desire) inp status reads (some auth)
    else served_step (enterable status desire) inp status reads auth
slot_step (some tx) inp status reads desire auth =
    if is_create_kind tx.kind
    then run_create inp status.active_revision reads.creation auth tx
    else if is_lock tx.kind
    then run_lock inp status reads.keeping.lock_reads auth tx
    else ends [] (failed kind_unknown)

-- The switch that ends `authStep`.
unfoldable pub dispatch :
    PassInput → AgentStatus → StepReads → AuthDesire → Option AuthStatus → AuthPass
unfolding never_served slot_step enterable
dispatch inp status reads desire none = never_served (enterable status desire) inp status reads none
dispatch inp status reads desire (some auth) =
    slot_step auth.transaction inp status reads desire auth

abbrev pub go_on : Abandoned → (Option AuthStatus → AuthPass) → AuthPass
go_on (halted p) rest = p
go_on (resumed es auth) rest = after es (rest auth)

-- The slot holds an Adopt: it is refused again, or its owner's edit locks the route.
unfoldable pub adopt_step :
    Option AuthTarget
    → PassInput
    → AgentStatus
    → StepReads
    → String
    → AuthStatus
    → AuthTransaction
    → AuthPass
unfolding enter_lock refuse_adopt k2_consent
adopt_step none inp status reads desired auth tx = refuse_adopt inp status (some auth) desired
adopt_step (some target) inp status reads desired auth tx =
    if k2_consent tx desired
    then enter_lock inp status reads.keeping.lock_reads target (some auth)
    else refuse_adopt inp status (some auth) desired

-- The slot holds another transaction: it is abandoned, or run.
unfoldable pub transaction_step :
    PassInput
    → AgentStatus
    → StepReads
    → String
    → AuthDesire
    → AuthStatus
    → AuthTransaction
    → AuthPass
unfolding abandons abandon dispatch compiles
transaction_step inp status reads desired desire auth tx =
    if abandons (some auth) desired
    then go_on (abandon inp status reads.abandonment (compiles desire) desired auth tx)
        (dispatch inp status reads desire)
    else dispatch inp status reads desire (some auth)

abbrev adoptable : Option Route → Bool
adoptable none = false
adoptable (some rt) = route_published rt

-- The slot is empty: a published route that status does not record is refused.
unfoldable pub open_step :
    PassInput → AgentStatus → StepReads → String → AuthDesire → Option AuthStatus → AuthPass
unfolding refuse_adopt dispatch
open_step inp status reads desired desire auth =
    if mode_of auth == "" && adoptable reads.adopted
    then refuse_adopt inp status auth desired
    else dispatch inp status reads desire auth

unfoldable pub recorded_step :
    Option AuthTransaction
    → PassInput
    → AgentStatus
    → StepReads
    → String
    → AuthDesire
    → AuthStatus
    → AuthPass
unfolding adopt_step transaction_step open_step enterable
recorded_step none inp status reads desired desire auth =
    open_step inp status reads desired desire (some auth)
recorded_step (some tx) inp status reads desired desire auth =
    if is_adopt tx.kind
    then adopt_step (enterable status desire) inp status reads desired auth tx
    else transaction_step inp status reads desired desire auth tx

-- `authStep`
unfoldable pub auth_step :
    PassInput → AgentStatus → StepReads → String → AuthDesire → Option AuthStatus → AuthPass
unfolding open_step recorded_step
auth_step inp status reads desired desire none = open_step inp status reads desired desire none
auth_step inp status reads desired desire (some auth) =
    recorded_step auth.transaction inp status reads desired desire auth
