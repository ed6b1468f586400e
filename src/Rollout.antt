-- ===== src/Rollout.antt =====
-- internal/controller/agent_controller.go: the part of the Agent's reconcile that decides which revision
-- serves: the collision guard, the candidate that a new generation supersedes, the gate's choice and the
-- promotion switch.
--
-- What the pass learnt before is the input: the revision of the spec or of the pin, whether its workload
-- is ready and whether the serving one's is, the cards that the card step left, whether the -auth input
-- compiles and what the gate reads. A condition is its type, status and reason; GatesPassed after a
-- promotion is left out.
pub mod Names
pub mod Promotion
pub mod Superseded
use assayd.Base.{
  ℕ, zero, suc, Bool, true, false, not, ◌&&◌, ◌||◌, Option, none, some, List, [], ◌∷◌, ◌++◌, ◌-◌,
  String, ◌==◌, if◌then◌else◌, length, drop, ltb,
}
use assayd.Status.{AgentStatus, CardStatus}
use assayd.Predicates.{i1_hold}
use assayd.Rollout.Names.{superseded_name}
use assayd.Gate.{
  GateMode, gate_none, gate_unwired, gate_crd_absent, gate_enforced, GateDecision, GateInput,
  ReadError, satisfied_decision, hold, decide_gate, awaiting_gates,
}

-- AgentPhase, the values that the switch sets; `no_phase` is the empty string.
pub data Phase : Type 0 where
  no_phase phase_pending phase_ready phase_held phase_degraded : Phase

pub record Report : Type 0 where
  pub condition : String
  pub is_true : Bool
  pub reason : String

-- What the switch reads and writes: the status, its list of superseded candidates, the phase, and the
-- conditions in the order they are set.
pub record Rollout : Type 0 where
  pub status : AgentStatus
  pub superseded : List String
  pub phase : Phase
  pub reports : List Report

pub record RolloutInput : Type 0 where
  pub desired : String
  pub desired_digest : String
  pub is_ready : Bool
  pub active_available : Bool
  pub cards : List CardStatus
  pub gateway_enabled : Bool
  pub compiles : Bool
  pub is_pinned : Bool
  pub gating : GateMode
  pub pin_admitted : Bool
  pub missing : List String
  pub record_err : Option ReadError
  pub suite_err : Option ReadError
  pub digest_err : Bool
  pub suite_digest : String

abbrev pub max_superseded_candidates : ℕ
max_superseded_candidates = 10

-- `containsString`
unfoldable pub contains_string : List String → String → Bool
contains_string [] s = false
contains_string (x ∷ xs) s = x == s || contains_string xs s

-- `removeString`
unfoldable pub remove_string : List String → String → List String
remove_string [] s = []
remove_string (x ∷ xs) s = let rest = remove_string xs s in if not (x == s) then x ∷ rest else rest

abbrev pub trimmed : List String → List String
trimmed list =
    if ltb max_superseded_candidates (length list)
    then drop (length list - max_superseded_candidates) list
    else list

-- `appendSuperseded`
unfoldable pub append_superseded : List String → String → List String
unfolding contains_string
append_superseded list rev =
    if rev == "" || contains_string list rev then list else trimmed (list ++ (rev ∷ []))

pub record Collision : Type 0 where
  pub role : String
  pub existing : String

abbrev pub collides : String → String → String → String → Bool
collides name dig rev digest = name == rev && (not (dig == "") && not (dig == digest))

-- `collisionAgainstStatus`
unfoldable pub collision_against_status : AgentStatus → String → String → Option Collision
collision_against_status st rev digest =
    if collides st.active_revision st.active_revision_digest rev digest
    then some (record { role = "active"; existing = st.active_revision_digest })
    else if collides st.candidate_revision st.candidate_revision_digest rev digest
    then some (record { role = "candidate"; existing = st.candidate_revision_digest })
    else none

abbrev pub with_candidate : AgentStatus → String → String → AgentStatus
with_candidate st rev digest = record st {
  candidate_revision = rev;
  candidate_revision_digest = digest;
}

-- A new generation supersedes the candidate in flight.
unfoldable pub supersede : RolloutInput → Rollout → Rollout
unfolding append_superseded
supersede inp r =
    if not (r.status.candidate_revision == "")
      && not (r.status.candidate_revision_digest == inp.desired_digest)
    then record r {
      status = with_candidate r.status "" "";
      superseded =
          append_superseded r.superseded
            (superseded_name r.status.candidate_revision r.status.candidate_revision_digest);
    }
    else r

-- What `gateFor` gathers for the candidate.
abbrev pub gather_gate_input : RolloutInput → AgentStatus → GateInput
gather_gate_input inp st = record {
  desired_digest = inp.desired_digest;
  missing = inp.missing;
  record_err = inp.record_err;
  suite_err = inp.suite_err;
  digest_err = inp.digest_err;
  suite_digest = inp.suite_digest;
  status = st;
  available = inp.is_ready;
}

abbrev pub gate_by_mode : RolloutInput → AgentStatus → GateMode → GateDecision
gate_by_mode inp st gate_unwired = hold "" ""
gate_by_mode inp st gate_enforced = decide_gate (gather_gate_input inp st)
gate_by_mode inp st _ = satisfied_decision

-- The gate of the switch: for a candidate that no admitted pin promotes.
unfoldable pub rollout_gate : RolloutInput → AgentStatus → GateDecision
unfolding decide_gate
rollout_gate inp st =
    if st.active_revision_digest == inp.desired_digest || inp.pin_admitted
    then satisfied_decision
    else gate_by_mode inp st inp.gating

abbrev pub report : String → Bool → String → Report
report condition is_true reason = record {
  condition = condition;
  is_true = is_true;
  reason = reason;
}

-- `gateDecision.report`
abbrev pub gate_report : GateDecision → List Report
gate_report g =
    if not g.satisfied && not (g.reason == "") then report "GatesPassed" false g.reason ∷ [] else []

abbrev pub reporting : Rollout → Phase → AgentStatus → List Report → Rollout
reporting r phase st reports = record r {
  status = st;
  phase = phase;
  reports = r.reports ++ reports;
}

-- The candidate is not available and an available revision serves.
abbrev pub rolling_out : RolloutInput → GateDecision → Rollout → Rollout
rolling_out inp gate r =
    reporting r phase_ready (with_candidate r.status inp.desired inp.desired_digest) (
      report "Ready" true "Available"
      ∷ report "Progressing" true "CandidateNotAvailable"
      ∷ gate_report gate)

-- The revision is not available, and none other is said to serve.
abbrev pub not_available : RolloutInput → GateDecision → Rollout → Rollout
not_available inp gate r =
    if r.status.active_revision_digest == inp.desired_digest
    then reporting r phase_degraded (with_candidate r.status "" "") (
        report "Progressing" false "NoRolloutInFlight"
        ∷ report "Degraded" true "WorkloadUnavailable"
        ∷ report "Ready" false "WorkloadUnavailable"
        ∷ [])
    else reporting r phase_pending (with_candidate r.status inp.desired inp.desired_digest) (
        report "Progressing" false "NoRolloutInFlight"
        ∷ report "Ready" false "WorkloadNotAvailable"
        ∷ gate_report gate)

abbrev pub is_enforced : GateMode → Bool
is_enforced gate_enforced = true
is_enforced _ = false

-- The candidate is held: its -auth input does not compile.
abbrev pub held_for_auth : RolloutInput → Rollout → Rollout
held_for_auth inp r =
    reporting r phase_held (with_candidate r.status inp.desired inp.desired_digest) (
      report "Progressing" true "AuthInputUncompilable"
      ∷ report "Ready" true "Available"
      ∷ (if is_enforced inp.gating then report "GatesPassed" false "EvalHeldForAuth" ∷ [] else []))

abbrev pub held_ready : GateDecision → String → Report
held_ready gate active =
    if not (active == "")
    then report "Ready" true "Available"
    else if not (gate.reason == "")
    then report "Ready" false gate.ready_reason
    else report "Ready" false awaiting_gates

-- The candidate is held: its gates have not passed.
abbrev pub held_by_gate : RolloutInput → GateDecision → Rollout → Rollout
held_by_gate inp gate r =
    reporting r phase_held (with_candidate r.status inp.desired inp.desired_digest) (
      report "Progressing" true awaiting_gates
      ∷ (gate_report gate ++ (held_ready gate r.status.active_revision ∷ [])))

-- The revision serves from here on.
abbrev pub promoted : RolloutInput → Rollout → Rollout
unfolding remove_string
promoted inp r = record {
  status = record (with_candidate r.status "" "") {
    active_revision = inp.desired;
    active_revision_digest = inp.desired_digest;
  };
  superseded = remove_string r.superseded (superseded_name inp.desired inp.desired_digest);
  phase = phase_ready;
  reports =
      r.reports
      ++ (report "Progressing" false "RolloutComplete" ∷ report "Ready" true "Available" ∷ []);
}

-- The revision of the spec is not the one serving.
abbrev pub is_candidate : RolloutInput → AgentStatus → Bool
is_candidate inp st = not (st.active_revision_digest == inp.desired_digest)

-- `authHoldsPromotion`
abbrev pub auth_held : RolloutInput → AgentStatus → Bool
auth_held inp st = i1_hold inp.gateway_enabled st inp.compiles inp.is_pinned

-- The promotion switch.
unfoldable pub promotion_switch : RolloutInput → GateDecision → Rollout → Rollout
unfolding remove_string
promotion_switch inp gate r =
    if not inp.is_ready
      && (not (r.status.active_revision == "")
          && (is_candidate inp r.status && inp.active_available))
    then rolling_out inp gate r
    else if not inp.is_ready
    then not_available inp gate r
    else if auth_held inp r.status
        && (not (r.status.active_revision == "") && is_candidate inp r.status)
    then held_for_auth inp r
    else if not gate.satisfied && is_candidate inp r.status
    then held_by_gate inp gate r
    else promoted inp r

-- The card step's writing of the cards.
abbrev pub recarded : RolloutInput → Rollout → Rollout
recarded inp r = record r { status = record r.status { cards = inp.cards } }

abbrev pub unless_colliding : Option Collision → Rollout → Option Rollout
unless_colliding none r = some r
unless_colliding (some c) r = none

-- The pass from the collision guard to the switch; none where the guard refuses it.
unfoldable pub roll_out : RolloutInput → Rollout → Option Rollout
unfolding collision_against_status supersede rollout_gate promotion_switch
roll_out inp r =
    let superseding = recarded inp (supersede inp r) in
    unless_colliding (collision_against_status r.status inp.desired inp.desired_digest)
      (promotion_switch inp (rollout_gate inp superseding.status) superseding)

-- `earliest`: the sooner of two requeues, where zero means none
unfoldable pub earliest : ℕ → ℕ → ℕ
earliest zero b = b
earliest (suc a) b = if is_sooner b then b else suc a
  where
    is_sooner : ℕ → Bool
    is_sooner zero = false
    is_sooner (suc c) = ltb c a
