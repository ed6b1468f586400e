-- ===== src/Auth/Lock.antt =====
-- internal/controller/authtxn.go: the rounds of `runLock`, which locks a route that is published, in
-- place, and the re-creation of a route that is missing.
use assayd.Base.{
  ℕ, Bool, true, false, not, ◌&&◌, ◌||◌, Option, none, some, List, [], ◌∷◌, String, ◌==◌,
  if◌then◌else◌,
}
use assayd.Status.{
  Stage, probing_before, preparing_route, applying_policies, converging, probing_after, create,
  AuthTransaction, AuthStatus, CardStatus, AgentStatus,
}
use assayd.Predicates.{carded_revision}
use assayd.Auth.{AuthTarget, new_transaction, Route}
use assayd.Auth.Attribution.{before_revision_for, card_attributes}
use assayd.Auth.Publication.{
  Effect, ensured, collected, probed, stage_unknown, policy_nacked, not_converged, foreign_policy,
  unattached, probe_refused, served, waiting, failed, AuthPass, after, PassInput, served_record,
  route_publication_for, some_foreign,
}
use assayd.Auth.Create.{
  CreateReads, Round, again, done, persist, ensure, moves_to, following, is_401, recorded_served,
  run_create, applying_round, stopped,
}

-- What one round of the loop reads.
pub record LockReads : Type 0 where
  pub intact : Bool
  pub nacked : Bool
  pub route_converged : Bool
  pub policy_converged : Bool
  pub above_before : Bool
  pub above_after : Bool
  pub answer : Option ℕ
  pub card_digest : String
  -- The route that the re-point wrote, or none where it was gone.
  pub repointed : Option Route

-- What `runLock` reads, with what the Create reads where it re-creates the route.
pub record LockPassReads : Type 0 where
  pub current : Option Route
  pub kept : Route
  pub rounds : ℕ → LockReads
  pub creation : ℕ → CreateReads

-- `recreateRoute`
unfoldable pub recreate_route : PassInput → String → (ℕ → CreateReads) → AuthStatus → AuthPass
unfolding run_create
recreate_route inp rev reads auth =
    let tx =
      new_transaction create auth.mode auth.applied_digest preparing_route
        (some inp.new_deadline) in
    after (persist auth tx ∷ []) (run_create inp rev reads auth tx)

abbrev before_observed_by : String → AuthTransaction → AuthTransaction
before_observed_by rev tx =
    if rev == "" then tx else record tx { before_observed = true; before_revision = rev }

-- Stage ProbingBefore: its answer is kept, and the policy is written whatever it was.
unfoldable pub before_round :
    PassInput → List CardStatus → Route → LockReads → AuthStatus → AuthTransaction → Round
unfolding before_revision_for
before_round inp cards rt r auth tx =
    let rev = before_revision_for inp.agent_name cards rt r.answer r.card_digest in
    let seen = before_observed_by rev (record tx { probe_before = r.answer; probe_after = none }) in
    let next = record seen { stage = applying_policies; written = true } in
    again (probed r.answer false false ∷ persist auth next ∷ []) next

-- `lockServed`'s route write: the marker of the recorded `none` goes with the served record.
abbrev republished : PassInput → AuthTarget → Bool → List Effect
republished inp target re_created =
    if re_created
    then []
    else ensured (route_publication_for (some (served_record inp target))) ∷ []

-- `lockServed`
unfoldable pub lock_served : PassInput → AuthTarget → Bool → Round
lock_served inp target re_created =
    done (recorded_served inp target ∷ republished inp target re_created) served

abbrev pub can_credit : Bool → LockReads → AuthTransaction → Bool
can_credit attributed r tx = is_401 r.answer && (tx.before_observed || attributed)

abbrev pub held_in_lock : Bool → LockReads → AuthTransaction → Bool
held_in_lock attributed r tx = r.above_before || can_credit attributed r tx && r.above_after

-- The request of stage ProbingAfter, and whether its answer ends the Lock.
unfoldable pub lock_probe :
    PassInput → AuthTarget → Bool → Bool → LockReads → AuthStatus → AuthTransaction → Round
unfolding lock_served
lock_probe inp target re_created attributed r auth tx =
    let next = record tx { probe_after = r.answer } in
    let held = held_in_lock attributed r tx in
    let sent = probed r.answer (tx.before_observed || attributed) held in
    following (sent ∷ []) (
      if can_credit attributed r tx && not held
      then lock_served inp target re_created
      else done (persist auth next ∷ []) (waiting probe_refused next))

-- No request is sent until the route has converged.
unfoldable pub attached_probe :
    PassInput
    → AgentStatus
    → AuthTarget
    → Bool
    → Route
    → LockReads
    → AuthStatus
    → AuthTransaction
    → Round
unfolding card_attributes lock_probe
attached_probe inp status target re_created rt r auth tx =
    if r.route_converged
    then lock_probe inp target re_created (card_attributes inp.agent_name status.cards rt) r auth tx
    else done [] (waiting unattached tx)

abbrev as_round : AuthPass → Round
as_round p = done p.effects p.end

-- The re-point of a route whose policy was missing, to the revision whose card attributes the answer.
unfoldable pub repoint :
    PassInput
    → AgentStatus
    → AuthTarget
    → (ℕ → CreateReads)
    → LockReads
    → AuthStatus
    → AuthTransaction
    → Round
unfolding recreate_route attached_probe
repoint inp status target creation r auth tx = elim r.repointed [
  | none ↦ as_round (recreate_route inp status.active_revision creation auth)
  | some rt ↦
      following (ensure auth tx ∷ collected inp.route_name ∷ [])
        (attached_probe inp status target true rt r auth tx)
]

-- Stage ProbingAfter, after the checks that it shares with Converging.
unfoldable pub lock_probing :
    PassInput
    → AgentStatus
    → AuthTarget
    → LockPassReads
    → Bool
    → Route
    → LockReads
    → AuthStatus
    → AuthTransaction
    → Round
unfolding carded_revision repoint attached_probe
lock_probing inp status target reads re_created rt r auth tx =
    if some_foreign inp.foreign
    then done [] (waiting foreign_policy tx)
    else if re_created && carded_revision status status.active_revision
    then repoint inp status target reads.creation r auth tx
    else attached_probe inp status target re_created rt r auth tx

-- Stages Converging and ProbingAfter.
unfoldable pub lock_settling :
    PassInput
    → AgentStatus
    → AuthTarget
    → LockPassReads
    → Bool
    → Bool
    → Route
    → LockReads
    → AuthStatus
    → AuthTransaction
    → Round
unfolding lock_probing
lock_settling inp status target reads re_created is_converging rt r auth tx =
    if not r.intact
    then moves_to auth tx applying_policies
    else if r.nacked
    then (if is_converging
        then done [] (waiting policy_nacked tx)
        else stopped policy_nacked (moves_to auth tx converging))
    else if is_converging
    then (if r.route_converged && r.policy_converged
        then moves_to auth tx probing_after
        else done [] (waiting not_converged tx))
    else lock_probing inp status target reads re_created rt r auth tx

-- What a stage of the Lock does.
unfoldable pub lock_stage_round :
    Stage
    → PassInput
    → AgentStatus
    → AuthTarget
    → LockPassReads
    → Bool
    → Route
    → LockReads
    → AuthStatus
    → AuthTransaction
    → Round
unfolding before_round applying_round lock_settling
lock_stage_round probing_before inp status target reads re_created rt r auth tx =
    before_round inp status.cards rt r auth tx
lock_stage_round applying_policies inp status target reads re_created rt r auth tx =
    applying_round inp auth tx
lock_stage_round converging inp status target reads re_created rt r auth tx =
    lock_settling inp status target reads re_created true rt r auth tx
lock_stage_round probing_after inp status target reads re_created rt r auth tx =
    lock_settling inp status target reads re_created false rt r auth tx
lock_stage_round s inp status target reads re_created rt r auth tx =
    done [] (failed (stage_unknown s))
