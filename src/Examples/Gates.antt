-- ===== src/Examples/Gates.antt =====
-- The gate branch and a pass of the eval controller at concrete inputs.
use assayd.Base.{◌≡◌, ◌↔◌, ◌∙◌, ap, refl, true, none, some}
use assayd.Status.{Verdict, EvalStatus}
use assayd.Predicates.{
  has_card_for, recorded_transaction, exempt_transaction, blocked_for_matches, candidate_pending,
  workload_available_in, i1_hold, pinned_rollback_holds,
}
use assayd.Suite.{threshold}
use assayd.Gate.{
  GateInput, transaction_rows, no_verdict_rows, blocked_row, decide_gate, eval_running,
}
use assayd.Gate.Promotion.{IsPromotable, decide_gate-satisfied_iff}
use assayd.Eval.Records.{pair_failed}
use assayd.Eval.Pass.{go_on, reconcile, run_blocked_for, clears_superseded, pair_rows, claim_rows}
use assayd.Eval.Sends.{sends, MaySend, sends-reconcile_iff}
use assayd.Eval.Agree.{after_write, gate_reads, reconcile-decide_gate_agree}
use assayd.Fixtures.{evaluated, gate_input, observed, started, greetings_run}

-- The candidate with a Passed verdict.
abbrev passed_input : GateInput
passed_input = record gate_input {
  status = record evaluated { eval = some (record started { verdict = Verdict.passed }) };
}

abbrev failed_input : GateInput
failed_input = record gate_input {
  status = record evaluated { eval = some (record started { verdict = Verdict.failed }) };
}

passed_is_satisfied : (decide_gate passed_input).satisfied ≡ true
unfolding decide_gate has_card_for
passed_is_satisfied = refl

running_is_held : (decide_gate gate_input).reason ≡ eval_running
unfolding decide_gate pair_failed has_card_for transaction_rows no_verdict_rows blocked_row
    recorded_transaction exempt_transaction blocked_for_matches
running_is_held = refl

satisfied_example : ((decide_gate passed_input).satisfied ≡ true) ↔ IsPromotable passed_input
satisfied_example = decide_gate-satisfied_iff passed_input

goes_on : reconcile observed ≡ go_on greetings_run
unfolding reconcile recorded_transaction exempt_transaction clears_superseded candidate_pending
    workload_available_in i1_hold has_card_for threshold pair_rows pair_failed claim_rows
    pinned_rollback_holds
goes_on = refl

sends_example : (sends (reconcile observed) ≡ some greetings_run) ↔ MaySend observed greetings_run
sends_example = sends-reconcile_iff observed greetings_run

-- The record of the run once the pass has written `blocked`.
abbrev written : EvalStatus
written = record started {
  blocked = none;
  blocked_for = some (run_blocked_for greetings_run evaluated);
}

agree_example : (decide_gate (gate_reads evaluated greetings_run written)).reason ≡ eval_running
agree_example =
    reconcile-decide_gate_agree observed greetings_run written (ap sends goes_on)
      (ap (after_write evaluated) goes_on ∙ refl)
