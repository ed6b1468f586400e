-- ===== src/Auth/Create.antt =====
-- internal/controller/authtxn.go: `runCreate`, the Create of an Agent's -auth.
use assayd.Base.{
  ℕ, zero, suc, Bool, true, false, not, ◌&&◌, ◌||◌, Option, none, some, List, [], ◌∷◌, ◌++◌, String,
  ◌==◌, if◌then◌else◌, nat_eq,
}
use assayd.Status.{
  Stage, preparing_route, applying_policies, converging, probing_after, publishing, AuthTransaction,
  AuthStatus,
}
use assayd.Auth.{AuthTarget, mode_api_key, with_transaction, Route}
use assayd.Auth.Publication.{
  Effect, ensured, collected, wrote_policy, probed, persisted, stage_unknown, Unmet, not_settled,
  own_name_held, policy_nacked, not_converged, foreign_policy, probe_refused, no_revision,
  not_published_converged, End, served, waiting, failed, AuthPass, after, ends, PassInput,
  create_target, with_target, served_record, route_publication_for, foreign_at_own_name,
  some_foreign,
}

-- What one round of the loop reads.
pub record CreateReads : Type 0 where
  -- `ensureServingRoute` created the route.
  pub created : Bool
  -- The policy is there with the target's digest.
  pub intact : Bool
  pub nacked : Bool
  pub route_converged : Bool
  pub policy_converged : Bool
  -- Gateway-wide policies, read before the request and again after its 401.
  pub above_before : Bool
  pub above_after : Bool
  -- The answer's code, or none where no answer came.
  pub answer : Option ℕ
  pub current : Option Route
  -- `ensureServingRoute` returned errRouteGone.
  pub gone : Bool

-- A round of the loop: its writes, and the transaction that the next round starts with.
pub data Round : Type 0 where
  again : List Effect → AuthTransaction → Round
  done : List Effect → End → Round

-- `status.auth` is written with this transaction.
abbrev pub persist : AuthStatus → AuthTransaction → Effect
persist auth tx = persisted (some (with_transaction auth tx))

-- `ensureServingRoute` for what status.auth records.
abbrev pub ensure : AuthStatus → AuthTransaction → Effect
ensure auth tx = ensured (route_publication_for (some (with_transaction auth tx)))

abbrev pub at_stage : AuthTransaction → Stage → AuthTransaction
at_stage tx stage = record tx { stage = stage }

-- The transaction moves to a stage, which is written.
abbrev pub moves_to : AuthStatus → AuthTransaction → Stage → Round
moves_to auth tx stage = again (persist auth (at_stage tx stage) ∷ []) (at_stage tx stage)

abbrev pub following : List Effect → Round → Round
following es (again fs tx) = again (es ++ fs) tx
following es (done fs e) = done (es ++ fs) e

abbrev pub is_401 : Option ℕ → Bool
is_401 none = false
is_401 (some code) = nat_eq code 401

abbrev written_at : AuthTransaction → Stage → AuthTransaction
written_at tx stage = record tx { stage = stage; written = true }

-- Stage PreparingRoute.
unfoldable pub preparing_round : PassInput → AuthStatus → AuthTransaction → Round
preparing_round inp auth tx =
    let next = written_at tx applying_policies in
    again (ensure auth tx ∷ collected inp.route_name ∷ persist auth next ∷ []) next

-- Stage ApplyingPolicies.
unfoldable pub applying_round : PassInput → AuthStatus → AuthTransaction → Round
unfolding foreign_at_own_name
applying_round inp auth tx =
    if foreign_at_own_name inp.foreign inp.own_policy
    then done [] (waiting own_name_held tx)
    else following (wrote_policy ∷ []) (moves_to auth tx converging)

abbrev pub with_answer : AuthTransaction → Option ℕ → AuthTransaction
with_answer tx answer = record tx { probe_before = none; probe_after = answer }

-- Whether a gateway-wide policy stood before the request or, after a 401, still does.
abbrev pub held_by_gateway : CreateReads → Bool
held_by_gateway r = r.above_before || is_401 r.answer && r.above_after

-- Stage ProbingAfter, after the checks that it shares with Converging.
unfoldable pub probing_round : PassInput → CreateReads → AuthStatus → AuthTransaction → Round
probing_round inp r auth tx =
    let next = with_answer tx r.answer in
    let sent = probed r.answer true (held_by_gateway r) in
    if some_foreign inp.foreign
    then done [] (waiting foreign_policy tx)
    else if is_401 r.answer && not (held_by_gateway r)
    then following (sent ∷ []) (moves_to auth next publishing)
    else done (sent ∷ persist auth next ∷ []) (waiting probe_refused next)

-- Stage Converging, after the checks.
unfoldable pub converging_round : CreateReads → AuthStatus → AuthTransaction → Round
converging_round r auth tx =
    if r.route_converged && r.policy_converged
    then moves_to auth tx probing_after
    else done [] (waiting not_converged tx)

abbrev pub stopped : Unmet → Round → Round
stopped u (again es tx) = done es (waiting u tx)
stopped u (done es e) = done es e

-- Stages Converging and ProbingAfter: the route stays prepared, and the policy must be intact and taken.
unfoldable pub settling_round :
    PassInput → CreateReads → Bool → AuthStatus → AuthTransaction → Round
unfolding probing_round converging_round
settling_round inp r is_converging auth tx = following (ensure auth tx ∷ []) (
    if r.created || not r.intact
    then moves_to auth tx applying_policies
    else if r.nacked
    then (if is_converging
        then done [] (waiting policy_nacked tx)
        else stopped policy_nacked (moves_to auth tx converging))
    else if is_converging
    then converging_round r auth tx
    else probing_round inp r auth tx)

abbrev pub is_absent : Option Route → Bool
is_absent none = true
is_absent (some _) = false

abbrev pub recorded_served : PassInput → AuthTarget → Effect
recorded_served inp target = persisted (some (served_record inp target))

-- The route is published, and the Create ends once it has converged.
unfoldable pub publishes :
    PassInput → AuthTarget → CreateReads → AuthStatus → AuthTransaction → Round
publishes inp target r auth tx =
    if r.gone && target.mode == mode_api_key
    then moves_to auth tx preparing_route
    else if r.route_converged
    then done (ensure auth tx ∷ collected inp.route_name ∷ recorded_served inp target ∷ []) served
    else done (ensure auth tx ∷ collected inp.route_name ∷ []) (waiting not_published_converged tx)

-- Stage Publishing.
unfoldable pub publishing_round :
    PassInput → AuthTarget → String → CreateReads → AuthStatus → AuthTransaction → Round
unfolding publishes
publishing_round inp target rev r auth tx =
    let is_key = target.mode == mode_api_key in
    if is_key && not r.intact
    then moves_to auth tx preparing_route
    else if rev == ""
    then done [] (waiting no_revision tx)
    else if some_foreign inp.foreign
    then done [] (waiting foreign_policy tx)
    else if is_absent r.current && is_key
    then moves_to auth tx preparing_route
    else publishes inp target r auth tx

-- What a stage of the Create does.
unfoldable pub stage_round :
    Stage → PassInput → AuthTarget → String → CreateReads → AuthStatus → AuthTransaction → Round
unfolding preparing_round applying_round settling_round publishing_round
stage_round preparing_route inp target rev r auth tx = preparing_round inp auth tx
stage_round applying_policies inp target rev r auth tx = applying_round inp auth tx
stage_round converging inp target rev r auth tx = settling_round inp r true auth tx
stage_round probing_after inp target rev r auth tx = settling_round inp r false auth tx
stage_round publishing inp target rev r auth tx = publishing_round inp target rev r auth tx
stage_round s inp target rev r auth tx = done [] (failed (stage_unknown s))

-- One round of `runCreate`'s loop.
unfoldable pub create_round :
    PassInput → AuthTarget → String → CreateReads → AuthStatus → AuthTransaction → Round
unfolding stage_round
create_round inp target rev r auth tx = stage_round tx.stage inp target rev r auth tx

abbrev pub continued : Round → (AuthTransaction → AuthPass) → AuthPass
continued (again es tx) rest = after es (rest tx)
continued (done es e) rest = ends es e

-- The loop, which ends unsettled when its rounds run out.
unfoldable pub create_rounds :
    ℕ
    → PassInput
    → AuthTarget
    → String
    → (ℕ → CreateReads)
    → AuthStatus
    → AuthTransaction
    → AuthPass
unfolding create_round
create_rounds zero inp target rev reads auth tx = ends [] (waiting not_settled tx)
create_rounds (suc n) inp target rev reads auth tx =
    continued (create_round inp target rev (reads (suc n)) auth tx)
      (create_rounds n inp target rev reads auth)

-- `runCreate`: twelve rounds at most.
unfoldable pub run_create :
    PassInput → String → (ℕ → CreateReads) → AuthStatus → AuthTransaction → AuthPass
unfolding create_target create_rounds
run_create inp rev reads auth tx =
    with_target (create_target inp.rendered tx)
      (λ target. create_rounds 12 inp target rev reads auth tx)
