-- ===== src/Gate.antt =====
-- internal/controller/gate.go: the gate branch's answer for a candidate.
--
-- The texts of the conditions' messages are not modelled, nor what only they read: the route of a wedged
-- Lock, the number of cases and the time. `missing` and the read errors are the inputs that `gateFor`
-- gathers.
pub mod Promotion
pub mod Rows
use assayd.Base.{
  ℕ, Bool, true, false, not, ◌&&◌, ◌||◌, Option, none, some, List, [], ◌∷◌, String, ◌==◌, is_some,
  if◌then◌else◌,
}
use assayd.Status.{Verdict, EvalBlocked, EvalBlockedFor, EvalPair, EvalStatus, AgentStatus}
use assayd.Predicates.{has_card_for, recorded_transaction, exempt_transaction, blocked_for_matches}
use assayd.Eval.Records.{pair_failed}

-- The reasons of GatesPassed, and of Ready while no earlier revision serves.
abbrev pub eval_running : String
eval_running = "EvalRunning"

abbrev pub eval_paused : String
eval_paused = "EvalPaused"

abbrev pub eval_record_not_kept : String
eval_record_not_kept = "EvalRecordNotKept"

abbrev pub eval_record_unverifiable : String
eval_record_unverifiable = "EvalRecordUnverifiable"

abbrev pub eval_suite_not_found : String
eval_suite_not_found = "EvalSuiteNotFound"

abbrev pub eval_suite_unreadable : String
eval_suite_unreadable = "EvalSuiteUnreadable"

abbrev pub eval_awaiting_card : String
eval_awaiting_card = "EvalAwaitingCard"

abbrev pub eval_binding_unsupported : String
eval_binding_unsupported = "EvalBindingUnsupported"

abbrev pub eval_waiting_for_auth : String
eval_waiting_for_auth = "EvalWaitingForAuth"

abbrev pub eval_candidate_unaddressable : String
eval_candidate_unaddressable = "EvalCandidateUnaddressable"

abbrev pub eval_pair_already_failed : String
eval_pair_already_failed = "EvalPairAlreadyFailed"

abbrev pub eval_failed : String
eval_failed = "EvalFailed"

abbrev pub awaiting_gates : String
awaiting_gates = "AwaitingGates"

-- gateMode
pub data GateMode : Type 0 where
  gate_none gate_unwired gate_crd_absent gate_enforced : GateMode

-- `gateModeOf`, from how many gates are declared and what the detector says, if there is one.
unfoldable pub gate_mode_of : List String → Option Bool → GateMode
gate_mode_of [] detector = gate_none
gate_mode_of (_ ∷ _) none = gate_unwired
gate_mode_of (_ ∷ _) (some false) = gate_crd_absent
gate_mode_of (_ ∷ _) (some true) = gate_enforced

pub data ReadError : Type 0 where
  not_found another_error : ReadError

pub record GateDecision : Type 0 where
  pub satisfied : Bool
  pub reason : String
  pub ready_reason : String

pub record GateInput : Type 0 where
  pub desired_digest : String
  pub missing : List String
  pub record_err : Option ReadError
  pub suite_err : Option ReadError
  pub digest_err : Bool
  pub suite_digest : String
  pub status : AgentStatus
  pub available : Bool

abbrev pub hold : String → String → GateDecision
hold reason ready = record { satisfied = false; reason = reason; ready_reason = ready }

abbrev pub satisfied_decision : GateDecision
satisfied_decision = record { satisfied = true; reason = ""; ready_reason = "" }

abbrev pub is_verdict_passed : Verdict → Bool
is_verdict_passed Verdict.passed = true
is_verdict_passed _ = false

abbrev pub is_verdict_failed : Verdict → Bool
is_verdict_failed Verdict.failed = true
is_verdict_failed _ = false

-- `matched`: the record is of this candidate and this suite.
abbrev pub names_pair : Option EvalStatus → String → String → Bool
names_pair none rev suite = false
names_pair (some e) rev suite = e.revision_digest == rev && e.suite_digest == suite

abbrev pub verdict_of : Option EvalStatus → Verdict
verdict_of none = Verdict.unset
verdict_of (some e) = e.verdict

abbrev pub failed_of : Option EvalStatus → List EvalPair
failed_of none = []
failed_of (some e) = e.failed

abbrev pub blocked_for_of : Option EvalStatus → Option EvalBlockedFor
blocked_for_of none = none
blocked_for_of (some e) = e.blocked_for

abbrev pub blocked_of : Option EvalStatus → Option EvalBlocked
blocked_of none = none
blocked_of (some e) = e.blocked

-- `failedRows`
unfoldable pub failed_rows : GateInput → Option GateDecision
failed_rows in_ =
    if names_pair in_.status.eval in_.desired_digest in_.suite_digest
      && is_verdict_failed (verdict_of in_.status.eval)
    then some (hold eval_failed eval_failed)
    else if pair_failed (failed_of in_.status.eval) in_.desired_digest in_.suite_digest
    then some (hold eval_pair_already_failed eval_failed)
    else none

-- `noVerdictRows`
unfoldable pub no_verdict_rows : GateInput → GateDecision
no_verdict_rows in_ =
    if not in_.available then hold eval_paused awaiting_gates else hold eval_running awaiting_gates

-- The switch on `blocked.reason`; a reason of no row is passed over.
unfoldable pub blocked_row : GateInput → Option EvalBlocked → GateDecision
unfolding no_verdict_rows
blocked_row in_ none = no_verdict_rows in_
blocked_row in_ (some b) =
    if b.reason == eval_candidate_unaddressable
    then hold eval_candidate_unaddressable awaiting_gates
    else if b.reason == eval_binding_unsupported
    then hold eval_binding_unsupported awaiting_gates
    else if b.reason == eval_awaiting_card
    then hold eval_awaiting_card awaiting_gates
    else if b.reason == eval_waiting_for_auth
    then hold eval_waiting_for_auth awaiting_gates
    else no_verdict_rows in_

-- The rows after the card's: the transaction's, the candidate's availability and `blocked`.
unfoldable pub transaction_rows : GateInput → GateDecision
transaction_rows in_ =
    let tx = is_some (recorded_transaction in_.status) in
    let exempt = tx && exempt_transaction in_.status in
    let bf_matched =
      blocked_for_matches (blocked_for_of in_.status.eval) in_.desired_digest in_.suite_digest
        in_.status in
    if tx && not exempt
    then hold eval_waiting_for_auth awaiting_gates
    else if not in_.available
    then no_verdict_rows in_
    else if exempt && not bf_matched
    then hold eval_waiting_for_auth awaiting_gates
    else if bf_matched
    then blocked_row in_ (blocked_of in_.status.eval)
    else no_verdict_rows in_

abbrev after_failed : GateInput → Option GateDecision → GateDecision
after_failed in_ (some d) = d
after_failed in_ none =
    if not (has_card_for in_.status in_.desired_digest)
    then hold eval_awaiting_card awaiting_gates
    else transaction_rows in_

-- The rows of a suite that was read and digested.
unfoldable pub pair_rows : GateInput → GateDecision
unfolding failed_rows
pair_rows in_ =
    if names_pair in_.status.eval in_.desired_digest in_.suite_digest
      && is_verdict_passed (verdict_of in_.status.eval)
    then if has_card_for in_.status in_.desired_digest
      then satisfied_decision
      else hold eval_awaiting_card awaiting_gates
    else after_failed in_ (failed_rows in_)

abbrev after_schema : GateInput → List String → GateDecision
after_schema in_ (_ ∷ _) = hold eval_record_not_kept eval_record_not_kept
after_schema in_ [] = elim in_.suite_err [
  | some not_found ↦ hold eval_suite_not_found awaiting_gates
  | some another_error ↦ hold eval_suite_unreadable awaiting_gates
  | none ↦ if in_.digest_err then hold eval_suite_unreadable awaiting_gates else pair_rows in_
]

-- `decideGate`
unfoldable pub decide_gate : GateInput → GateDecision
unfolding pair_rows
decide_gate in_ =
    if is_some in_.record_err
    then hold eval_record_unverifiable eval_record_unverifiable
    else after_schema in_ in_.missing
