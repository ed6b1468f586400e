-- ===== src/Pin.antt =====
-- internal/controller/pinrule.go: the pin rule, and what status says of a revision that serves without a
-- recorded pass.
--
-- A message is its fixed sentence as a constructor, with the digests and counts that it quotes; the texts
-- are not modelled. `pinRule` takes what it learnt of the suite as an argument.
pub mod Passes
use assayd.Base.{
  ℕ, Bool, true, false, not, ◌&&◌, ◌||◌, Option, none, some, List, [], ◌∷◌, String, ◌==◌,
  if◌then◌else◌, is_some, length,
}
use assayd.Status.{Verdict, EvalPair, EvalStatus, AgentStatus}
use assayd.Gate.{is_verdict_passed, failed_of}
use assayd.Eval.Records.{pair_failed, find_pair}

-- Why a pin is refused.
pub data PinRefusal : Type 0 where
  current_candidate recorded_failed : PinRefusal

-- `pinIneligible`
unfoldable pub pin_ineligible : String → String → AgentStatus → String → Option PinRefusal
pin_ineligible pin spec status suite_digest =
    if pin == status.active_revision_digest
    then none
    else if pin == spec
    then some current_candidate
    else if not (suite_digest == "")
        && (is_some status.eval && pair_failed (failed_of status.eval) pin suite_digest)
    then some recorded_failed
    else none

-- The suite as the pin rule learns it: its digest, or the class of the failure.
pub data SuiteRead : Type 0 where
  unread : String → SuiteRead
  digested : String → SuiteRead

pub data PinAnswer : Type 0 where
  pin_refused : PinRefusal → PinAnswer
  admitted_unread : String → PinAnswer
  admitted_against : String → PinAnswer

abbrev answer : Option PinRefusal → PinAnswer → PinAnswer
answer (some why) admitted = pin_refused why
answer none admitted = admitted

-- `pinRule`
unfoldable pub pin_rule : String → String → AgentStatus → SuiteRead → PinAnswer
unfolding pin_ineligible
pin_rule pin spec status (unread class) =
    answer (pin_ineligible pin spec status "") (admitted_unread class)
pin_rule pin spec status (digested suite) =
    answer (pin_ineligible pin spec status suite) (admitted_against suite)

-- `evalPassedFor`
abbrev pub eval_passed_for : Option EvalStatus → String → Bool
eval_passed_for none digest = false
eval_passed_for (some e) digest = is_verdict_passed e.verdict && e.revision_digest == digest

-- `passedEntry`
unfoldable pub passed_entry : Option EvalStatus → String → Option EvalPair
passed_entry none digest = none
passed_entry (some e) digest = if digest == "" then none else find_pair e.passed digest

-- `activeRevisionPassUnrecorded`: whether it has a message.
unfoldable pub active_revision_pass_unrecorded : AgentStatus → Bool
unfolding passed_entry
active_revision_pass_unrecorded status =
    if status.active_revision_digest == ""
    then false
    else not (
        eval_passed_for status.eval status.active_revision_digest
        || is_some (passed_entry status.eval status.active_revision_digest))

-- The first sentence of `servingRecord`.
pub data RunSentence : Type 0 where
  pair_no_run no_run : RunSentence
  pair_of_another another_unrecorded another_unrecorded_or_never_ran : String → RunSentence
  run_failed run_no_verdict run_cleared : String → RunSentence

-- The suite digests of the failed pairs of a revision.
unfoldable pub failed_suites : List EvalPair → String → List String
failed_suites [] d = []
failed_suites (p ∷ ps) d =
    let rest = failed_suites ps d in if p.revision_digest == d then p.suite_digest ∷ rest else rest

pub record ServingRecord : Type 0 where
  pub run : RunSentence
  pub entry : Option EvalPair
  pub suites : List String

abbrev no_suites : List String → Bool
no_suites [] = true
no_suites (_ ∷ _) = false

abbrev verdict_sentence : Verdict → String → RunSentence
verdict_sentence Verdict.failed suite = run_failed suite
verdict_sentence Verdict.running suite = run_no_verdict suite
verdict_sentence _ suite = run_cleared suite

abbrev run_sentence : Option EvalStatus → String → Bool → List String → RunSentence
run_sentence none d has_entry suites = no_run
run_sentence (some e) d has_entry suites =
    if has_entry && e.revision_digest == ""
    then pair_no_run
    else if has_entry && not (e.revision_digest == d)
    then pair_of_another e.revision_digest
    else if e.revision_digest == ""
    then no_run
    else if not (e.revision_digest == d) && not (no_suites suites)
    then another_unrecorded e.revision_digest
    else if not (e.revision_digest == d)
    then another_unrecorded_or_never_ran e.revision_digest
    else verdict_sentence e.verdict e.suite_digest

-- `servingRecord`
unfoldable pub serving_record : Option EvalStatus → String → ServingRecord
unfolding passed_entry failed_suites
serving_record e d =
    let entry = passed_entry e d in
    let suites = failed_suites (failed_of e) d in
    record { run = run_sentence e d (is_some entry) suites; entry = entry; suites = suites }

-- `servingPinBypass`, of the pinned digest, which is empty where nothing is pinned.
unfoldable pub serving_pin_bypass : String → AgentStatus → Option ServingRecord
unfolding serving_record
serving_pin_bypass pin status =
    if pin == ""
    then none
    else if not (pin == status.active_revision_digest) || eval_passed_for status.eval pin
    then none
    else some (serving_record status.eval pin)
