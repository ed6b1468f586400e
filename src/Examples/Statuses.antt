-- ===== src/Examples/Statuses.antt =====
-- The records of a run, the conditions and the pin at concrete inputs.
use assayd.Base.{
  ◌≡◌, ◌≢◌, ◌≤◌, refl, true, false, ◌&&◌, none, some, List, [], ◌∷◌, String, arith, eq_iff,
  if◌then◌else◌, ◌==◌, length,
}
use assayd.Status.{Verdict, case_passed, case_failed, EvalPair, EvalCaseRecord, AgentStatus}
use assayd.Gate.{GateInput, decide_gate, eval_failed, eval_awaiting_card}
use assayd.Predicates.{has_card_for}
use assayd.Suite.{passes}
use assayd.Eval.Records.{
  append_passed, pair_failed, find_pair, with_case, case_record, with_outcome, without_case,
  suite_ids, count_outcomes,
}
use assayd.Eval.Retention.{append_passed_keeps, HasUniqueRevisions}
use assayd.Eval.Cases.{every_outcome}
use assayd.Eval.Outcome.{
  with_outcome_fails, with_outcome-decide_gate, cases_after, all_recorded, run_passes,
}
use assayd.Eval.Pass.{run_start_record}
use assayd.Conditions.{
  ConditionSet, Condition, new_condition_set, set, merge, find, cond_true, cond_false,
}
use assayd.Conditions.Merge.{find-merge, merged_entry}
use assayd.Pin.{
  pin_rule, pin_refused, digested, current_candidate, recorded_failed,
  active_revision_pass_unrecorded,
}
use assayd.Pin.Passes.{run_start_keeps_pass, pin_rule-after_failure, recording}
use assayd.Fixtures.{greetings_run, started, one_sent, one_failed, evaluated, gate_input}

abbrev new_pair : EvalPair
new_pair = record { revision_digest = "d2"; suite_digest = "s1" }

append_passed_example :
    HasUniqueRevisions (append_passed started.passed new_pair "d1")
    × (length (append_passed started.passed new_pair "d1") ≤ 10)
    × (find_pair (append_passed started.passed new_pair "d1") "d2" ≡ some new_pair)
    × (find_pair (append_passed started.passed new_pair "d1") "d1"
        ≡ (if "d2" == "d1" then some new_pair else find_pair started.passed "d1"))
append_passed_example = append_passed_keeps started.passed new_pair "d1" (tt, tt)

abbrev outcome_of_b : EvalCaseRecord
outcome_of_b = record { id = "b"; outcome = case_passed; reason = ""; claim = "n2" }

all_recorded_b :
    all_recorded greetings_run (cases_after one_failed "b" "n2" case_failed "NoMatch") ≡ true
unfolding with_case without_case case_record suite_ids every_outcome
all_recorded_b = refl

fails_b : run_passes greetings_run (cases_after one_failed "b" "n2" case_failed "NoMatch") ≡ false
unfolding with_case without_case case_record suite_ids count_outcomes passes
fails_b = refl

all_recorded_p : all_recorded greetings_run (cases_after one_sent "b" "n2" case_passed "") ≡ true
unfolding with_case without_case case_record suite_ids every_outcome
all_recorded_p = refl

passes_p : run_passes greetings_run (cases_after one_sent "b" "n2" case_passed "") ≡ true
unfolding with_case without_case case_record suite_ids count_outcomes passes
passes_p = refl

d2_ne_d1 : ◌≢◌ {A = String} "d2" "d1"
d2_ne_d1 = λ e. ground (arith, eq_iff "d2" "d1")

fails_example :
    let e' = with_outcome greetings_run one_failed "b" "n2" case_failed "NoMatch" 7 in
    (e'.verdict ≡ Verdict.failed)
    × (pair_failed e'.failed "d2" "s1" ≡ true)
    × (length e'.failed ≤ 10)
    × (find_pair e'.passed "d2" ≡ none)
    × (find_pair e'.passed "d1" ≡ find_pair one_failed.passed "d1")
fails_example =
    with_outcome_fails greetings_run one_failed "b" "n2" case_failed "NoMatch" 7 "d1" all_recorded_b
      fails_b d2_ne_d1

abbrev decided_input : GateInput
decided_input = record gate_input {
  status = record evaluated {
    eval = some (with_outcome greetings_run one_sent "b" "n2" case_passed "" 7);
  };
}

decided_example :
    let cs = cases_after one_sent "b" "n2" case_passed "" in
    ((decide_gate decided_input).satisfied
      ≡ (run_passes greetings_run cs && has_card_for decided_input.status "d2"))
    × ((decide_gate decided_input).reason ≡ (
        if run_passes greetings_run cs
        then if has_card_for decided_input.status "d2" then "" else eval_awaiting_card
        else eval_failed))
decided_example =
    with_outcome-decide_gate greetings_run one_sent "b" "n2" case_passed "" 7 decided_input refl
      refl refl refl all_recorded_p

-- A pass that asserts Ready=False, over a stored Ready=True, a stale GatesBypassed and another
-- controller's condition.
abbrev stored : List Condition
stored =
    record {
      type = "Ready";
      status = cond_true;
      reason = "Available";
      message = "";
      observed_generation = 3;
      last_transition_time = 5;
    }
    ∷ record {
      type = "GatesBypassed";
      status = cond_true;
      reason = "PinnedRollback";
      message = "";
      observed_generation = 3;
      last_transition_time = 5;
    }
    ∷ record {
      type = "BudgetExhausted";
      status = cond_true;
      reason = "Spent";
      message = "";
      observed_generation = 3;
      last_transition_time = 5;
    }
    ∷ []

abbrev this_pass : ConditionSet
this_pass = set (new_condition_set 4) "Ready" cond_false "EvalFailed" "held"

merge_example :
    find (merge this_pass 9 stored) "GatesBypassed"
    ≡ merged_entry 9 "GatesBypassed"
        (find this_pass.asserted "GatesBypassed")
        (find stored "GatesBypassed")
merge_example = find-merge this_pass 9 stored "GatesBypassed"

pass_of_d1 : active_revision_pass_unrecorded evaluated ≡ false
unfolding active_revision_pass_unrecorded find_pair
pass_of_d1 = refl

run_start_example :
    active_revision_pass_unrecorded
      (recording evaluated (run_start_record greetings_run evaluated "/a2a" "c2"))
    ≡ false
run_start_example = run_start_keeps_pass greetings_run evaluated "/a2a" "c2" (tt, tt) pass_of_d1

abbrev failing : AgentStatus
failing = record evaluated { eval = some one_failed }

pass_of_d1_failing : active_revision_pass_unrecorded failing ≡ false
unfolding active_revision_pass_unrecorded find_pair
pass_of_d1_failing = refl

pin_example :
    pin_rule "d2" "d3"
      (recording failing (with_outcome greetings_run one_failed "b" "n2" case_failed "NoMatch" 7))
      (digested "s1")
    ≡ pin_refused (if "d2" == "d3" then current_candidate else recorded_failed)
pin_example =
    pin_rule-after_failure greetings_run failing one_failed "b" "n2" case_failed "NoMatch" 7 "d3"
      all_recorded_b fails_b d2_ne_d1 (λ e. ground (arith, eq_iff "s1" ""))
