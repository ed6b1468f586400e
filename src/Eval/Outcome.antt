-- ===== src/Eval/Outcome.antt =====
-- What the outcome of a sent case writes: `withOutcome`, and what the gate branch reads after it.
use assayd.Base.{
  ℕ, ◌≡◌, refl, ◌∙◌, Bool, true, false, not, ◌&&◌, none, some, List, [], ◌∷◌, String, arith, length,
  ◌≤◌, ◌≢◌, if◌then◌else◌, eq_refl,
}
use assayd.Base.Sort.{insert_by, sort_by}
use assayd.Status.{Verdict, Outcome, EvalPair, EvalCase, EvalCaseRecord, EvalStatus}
use assayd.Suite.{passes}
use assayd.Predicates.{has_card_for}
use assayd.Gate.{GateInput, decide_gate, eval_failed, eval_awaiting_card, pair_rows}
use assayd.Gate.Rows.{is_readable}
use assayd.Eval.Records.{
  EvalRun, with_outcome, with_case, suite_ids, case_ids, count_outcomes, outcome_recorded,
  is_passed, final_record, pair_of, pair_failed, find_pair, remove_passed,
}
use assayd.Eval.Cases.{every_outcome, count_outcomes-every}
use assayd.Eval.Retention.{append_failed_keeps, find_pair-remove_passed}

length-insert_by :
    {A : Type 0} (key : A → String) (x : A) (xs : List A)
    → length (insert_by key x xs) ≡ length (x ∷ xs)
length-insert_by key x [] = refl
length-insert_by key x (y ∷ ys) = ground (arith, length-insert_by key x ys)

length-sort_by : {A : Type 0} (key : A → String) (xs : List A) → length (sort_by key xs) ≡ length xs
length-sort_by key [] = refl
length-sort_by key (x ∷ xs) =
    ground (arith, length-sort_by key xs, length-insert_by key x (sort_by key xs))

length-case_ids : (cs : List EvalCase) → length (case_ids cs) ≡ length cs
length-case_ids [] = refl
length-case_ids (c ∷ cs) = omega (arith, length-case_ids cs)

-- The suite's cases, in the number that the run's total counts.
length-suite_ids : (run : EvalRun) → length (suite_ids run.suite) ≡ length run.suite.spec.cases
unfolding suite_ids
length-suite_ids run =
    length-sort_by (λ (i : String). i) (case_ids run.suite.spec.cases)
    ∙ length-case_ids run.suite.spec.cases

-- The entry that an outcome writes.
abbrev pub outcome_entry : String → String → Outcome → String → EvalCaseRecord
outcome_entry id claim outcome reason = record {
  id = id;
  outcome = outcome;
  reason = reason;
  claim = claim;
}

-- Every case of the suite has an outcome.
abbrev pub all_recorded : EvalRun → List EvalCaseRecord → Bool
all_recorded run cs = every_outcome outcome_recorded cs (suite_ids run.suite)

-- The count of passed cases passes the suite's threshold.
abbrev pub run_passes : EvalRun → List EvalCaseRecord → Bool
run_passes run cs =
    passes (count_outcomes is_passed cs (suite_ids run.suite)) (length run.suite.spec.cases)
      run.threshold

-- cases[] after it.
abbrev pub cases_after : EvalStatus → String → String → Outcome → String → List EvalCaseRecord
cases_after e id claim outcome reason = with_case e.cases (outcome_entry id claim outcome reason)

with_outcome_eq :
    (run : EvalRun) (e : EvalStatus) (id claim : String) (outcome : Outcome) (reason : String)
    (now : ℕ)
    → with_outcome run e id claim outcome reason now ≡ (
        let e' = record e { cases = with_case e.cases (outcome_entry id claim outcome reason) } in
        if all_recorded run e'.cases
        then final_record run
            (count_outcomes is_passed e'.cases (suite_ids run.suite))
            (length run.suite.spec.cases)
            now
            e'
        else e')
unfolding with_outcome
with_outcome_eq run e id claim outcome reason now = ground (
  arith,
  length-suite_ids run,
  count_outcomes-every outcome_recorded (with_case e.cases (outcome_entry id claim outcome reason))
      (suite_ids run.suite),
)

find_pair-remove_passed_self :
    (l : List EvalPair) (d : String) → find_pair (remove_passed l d) d ≡ none
unfolding find_pair remove_passed
find_pair-remove_passed_self [] d = refl
find_pair-remove_passed_self (x ∷ l) d = ground (arith, find_pair-remove_passed_self l d)

-- The last outcome of a run that does not reach its threshold records Failed: the pair is then in
-- failed[], which stays within its cap, the revision is no longer in passed[], and the entry there of
-- another revision stays.
pub with_outcome_fails :
    (run : EvalRun) (e : EvalStatus) (id claim : String) (outcome : Outcome) (reason : String)
    (now : ℕ) (other : String)
    → all_recorded run (cases_after e id claim outcome reason) ≡ true
    → run_passes run (cases_after e id claim outcome reason) ≡ false
    → run.revision_digest ≢ other
    → let e' = with_outcome run e id claim outcome reason now in
      (e'.verdict ≡ Verdict.failed)
      × (pair_failed e'.failed run.revision_digest run.suite_digest ≡ true)
      × (length e'.failed ≤ 10)
      × (find_pair e'.passed run.revision_digest ≡ none)
      × (find_pair e'.passed other ≡ find_pair e.passed other)
unfolding final_record
with_outcome_fails run e id claim outcome reason now other h f ne =
    rw (with_outcome_eq run e id claim outcome reason now, h, f)
      (
        refl,
        (append_failed_keeps e.failed (pair_of run)).0,
        (append_failed_keeps e.failed (pair_of run)).2,
        find_pair-remove_passed_self e.passed run.revision_digest,
        find_pair-remove_passed e.passed run.revision_digest other ne,
      )

-- Any other outcome leaves failed[] and passed[] as they are, and writes a verdict, the score and the
-- time exactly when it is the last of its run.
pub with_outcome_keeps :
    (run : EvalRun) (e : EvalStatus) (id claim : String) (outcome : Outcome) (reason : String)
    (now : ℕ)
    → (all_recorded run (cases_after e id claim outcome reason)
        && not (run_passes run (cases_after e id claim outcome reason)))
      ≡ false
    → let e' = with_outcome run e id claim outcome reason now in
      let cs = cases_after e id claim outcome reason in
      (e'.cases ≡ cs)
      × (e'.failed ≡ e.failed)
      × (e'.passed ≡ e.passed)
      × (e'.verdict ≡ (if all_recorded run cs then Verdict.passed else e.verdict))
      × (e'.at ≡ (if all_recorded run cs then some now else e.at))
unfolding final_record
with_outcome_keeps run e id claim outcome reason now h =
    ground (arith, with_outcome_eq run e id claim outcome reason now)

-- The record of the last outcome decides the gate branch, for the pair of the run with the record and
-- the suite read: satisfied where the run passes and the card is recorded, EvalFailed where it fails.
pub with_outcome-decide_gate :
    (run : EvalRun) (e : EvalStatus) (id claim : String) (outcome : Outcome) (reason : String)
    (now : ℕ) (in_ : GateInput)
    → is_readable in_ ≡ true
    → in_.status.eval ≡ some (with_outcome run e id claim outcome reason now)
    → in_.desired_digest ≡ e.revision_digest
    → in_.suite_digest ≡ e.suite_digest
    → all_recorded run (cases_after e id claim outcome reason) ≡ true
    → let cs = cases_after e id claim outcome reason in
      ((decide_gate in_).satisfied
        ≡ (run_passes run cs && has_card_for in_.status in_.desired_digest))
      × ((decide_gate in_).reason ≡ (
          if run_passes run cs
          then if has_card_for in_.status in_.desired_digest then "" else eval_awaiting_card
          else eval_failed))
unfolding decide_gate pair_rows final_record
with_outcome-decide_gate run e id claim outcome reason now in_ r s d u h = ground (
  arith,
  with_outcome_eq run e id claim outcome reason now,
  eq_refl e.revision_digest,
  eq_refl e.suite_digest,
)
