-- ===== src/Auth/Served.antt =====
-- internal/controller/authtxn.go: `runLock`'s loop and entry, and `reconcileServed`, which keeps an Agent
-- that status.auth records as served.
use assayd.Base.{
  ℕ, zero, suc, Bool, true, false, not, ◌&&◌, Option, none, some, List, [], ◌∷◌, ◌==◌,
  if◌then◌else◌,
}
use assayd.Status.{
  probing_before, applying_policies, lock, AuthTransaction, AuthStatus, AgentStatus,
}
use assayd.Predicates.{is_re_creation}
use assayd.Auth.{
  AuthTarget, mode_api_key, new_transaction, new_auth, carry_claims, Route, route_published,
  single_backend, workload_name,
}
use assayd.Auth.Publication.{
  Effect, ensured, collected, reasserted_policy, no_route, no_serving_revision, not_settled, served,
  waiting, failed, AuthPass, after, ends, PassInput, create_target, with_target,
  route_publication_for,
}
use assayd.Auth.Create.{persist, ensure, continued}
use assayd.Auth.Lock.{LockPassReads, recreate_route, lock_stage_round}

-- The loop of `runLock`.
unfoldable pub lock_rounds :
    ℕ
    → PassInput
    → AgentStatus
    → AuthTarget
    → LockPassReads
    → Bool
    → Route
    → AuthStatus
    → AuthTransaction
    → AuthPass
unfolding lock_stage_round
lock_rounds zero inp status target reads re_created rt auth tx = ends [] (waiting not_settled tx)
lock_rounds (suc n) inp status target reads re_created rt auth tx =
    continued
      (lock_stage_round tx.stage inp status target reads re_created rt (reads.rounds (suc n)) auth
        tx)
      (lock_rounds n inp status target reads re_created rt auth)

abbrev pub is_unpublished : Option Route → Bool
is_unpublished none = true
is_unpublished (some rt) = not (route_published rt)

-- The route, before the first round, of a Lock that re-creates a missing policy.
unfoldable pub lock_missing :
    PassInput → AgentStatus → AuthTarget → LockPassReads → AuthStatus → AuthTransaction → AuthPass
unfolding recreate_route lock_rounds
lock_missing inp status target reads auth tx =
    if is_unpublished reads.current && not (status.active_revision == "")
    then recreate_route inp status.active_revision reads.creation auth
    else elim reads.current [
      | none ↦ ends [] (failed no_route)
      | some rt ↦ lock_rounds 12 inp status target reads true rt auth tx
    ]

abbrev pub forgotten : AuthTransaction → AuthTransaction
forgotten tx = record tx { before_observed = false; before_revision = "" }

-- Whether the revision that was observed open is no longer the one that the route serves.
abbrev pub is_stale : PassInput → Route → AuthTransaction → Bool
is_stale inp rt tx =
    not (tx.before_revision == "")
    && not (single_backend rt == workload_name inp.agent_name tx.before_revision)

-- The same of J2's and K2's, whose route stays published.
unfoldable pub lock_in_place :
    PassInput → AgentStatus → AuthTarget → LockPassReads → AuthStatus → AuthTransaction → AuthPass
unfolding lock_rounds
lock_in_place inp status target reads auth tx =
    if status.active_revision == ""
    then ends [] (failed no_serving_revision)
    else after (ensure auth tx ∷ collected inp.route_name ∷ []) (
        if is_stale inp reads.kept tx
        then after (persist auth (forgotten tx) ∷ [])
            (lock_rounds 12 inp status target reads false reads.kept auth (forgotten tx))
        else lock_rounds 12 inp status target reads false reads.kept auth tx)

abbrev pub lock_for :
    Bool
    → PassInput
    → AgentStatus
    → AuthTarget
    → LockPassReads
    → AuthStatus
    → AuthTransaction
    → AuthPass
unfolding lock_missing lock_in_place
lock_for re_created inp status target reads auth tx =
    if re_created
    then lock_missing inp status target reads auth tx
    else lock_in_place inp status target reads auth tx

-- `runLock`
unfoldable pub run_lock :
    PassInput → AgentStatus → LockPassReads → AuthStatus → AuthTransaction → AuthPass
unfolding create_target is_re_creation lock_missing lock_in_place
run_lock inp status reads auth tx = with_target (create_target inp.rendered tx) (λ target.
    lock_for (is_re_creation (some (record auth { transaction = some tx }))) inp status target reads
      auth tx)

-- `lockMissingPolicy`
unfoldable pub lock_missing_policy : PassInput → AgentStatus → LockPassReads → AuthStatus → AuthPass
unfolding run_lock
lock_missing_policy inp status reads auth =
    let tx =
      record (new_transaction lock auth.mode auth.applied_digest applying_policies
        (some inp.new_deadline)) { written = true } in
    after (persist auth tx ∷ []) (run_lock inp status reads auth tx)

-- status.auth as the Lock is entered over it: a recorded mode is kept with all it has.
abbrev pub entered_over : Option AuthStatus → AuthStatus
entered_over none = new_auth "" none
entered_over (some auth) =
    if auth.mode == "" then carry_claims (some auth) (new_auth "" none) else auth

-- `enterLock`
unfoldable pub enter_lock :
    PassInput → AgentStatus → LockPassReads → AuthTarget → Option AuthStatus → AuthPass
unfolding run_lock
enter_lock inp status reads target auth =
    let tx =
      new_transaction lock mode_api_key target.digest probing_before (some inp.new_deadline) in
    after (persist (entered_over auth) tx ∷ []) (run_lock inp status reads (entered_over auth) tx)

-- What `reconcileServed` reads besides.
pub record ServedReads : Type 0 where
  pub lock_reads : LockPassReads
  pub present : Bool
  -- The policy carries this Agent's UID, and the recorded digest is the rendered one.
  pub reasserted : Bool
  pub gone : Bool

abbrev pub reasserts : Bool → List Effect
reasserts reasserted = if reasserted then reasserted_policy ∷ [] else []

abbrev ensure_recorded : AuthStatus → Effect
ensure_recorded auth = ensured (route_publication_for (some auth))

-- `reconcileServed` where a revision serves and nothing is missing.
unfoldable pub keep_route : PassInput → AgentStatus → ServedReads → AuthStatus → AuthPass
unfolding recreate_route
keep_route inp status reads auth =
    if reads.gone && auth.mode == mode_api_key
    then recreate_route inp status.active_revision reads.lock_reads.creation auth
    else ends (ensure_recorded auth ∷ collected inp.route_name ∷ []) served

-- `reconcileServed`
unfoldable pub reconcile_served : PassInput → AgentStatus → ServedReads → AuthStatus → AuthPass
unfolding recreate_route lock_missing_policy keep_route
reconcile_served inp status reads auth =
    if status.active_revision == ""
    then ends (collected "" ∷ []) served
    else if not (auth.mode == mode_api_key)
    then keep_route inp status reads auth
    else if is_unpublished reads.lock_reads.current
    then recreate_route inp status.active_revision reads.lock_reads.creation auth
    else if not reads.present
    then lock_missing_policy inp status reads.lock_reads auth
    else after (reasserts reads.reasserted) (keep_route inp status reads auth)
