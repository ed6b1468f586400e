-- ===== src/Pin/Passes.antt =====
-- The recorded pass of the serving revision, and the refusal of a revision that failed, across the eval
-- controller's writes.
use assayd.Base.{
  ℕ, ◌≡◌, ◌≢◌, true, false, not, ◌&&◌, ◌||◌, Option, none, some, String, ◌==◌, arith, eq_iff,
  if◌then◌else◌, is_some, Bool-cases, inl, inr,
}
use assayd.Status.{Outcome, EvalPair, EvalStatus, AgentStatus}
use assayd.Eval.Records.{EvalRun, with_outcome, find_pair}
use assayd.Eval.Pass.{run_start_record, passed_at_start, passed_of}
use assayd.Eval.Retention.{HasUniqueRevisions, append_passed_keeps}
use assayd.Eval.Outcome.{
  all_recorded, run_passes, cases_after, with_outcome_fails, with_outcome_keeps,
}
use assayd.Pin.{
  pin_rule, pin_refused, digested, current_candidate, recorded_failed,
  active_revision_pass_unrecorded, passed_entry, eval_passed_for,
}

-- The status with another record.
abbrev pub recording : AgentStatus → EvalStatus → AgentStatus
recording st e = record st { eval = some e }

pass_at_start :
    (old : Option EvalStatus) (active : String)
    → HasUniqueRevisions (passed_of old)
    → (active == "") ≡ false
    → (eval_passed_for old active || is_some (passed_entry old active)) ≡ true
    → is_some (find_pair (passed_at_start old active) active) ≡ true
unfolding passed_at_start passed_entry
pass_at_start none active u ne h = absurd (ground arith)
pass_at_start (some e) active u ne h =
    let pair : EvalPair = record {
      revision_digest = e.revision_digest;
      suite_digest = e.suite_digest;
    } in
    let (_, _, own, kept) = append_passed_keeps e.passed pair active u in
    ground (arith, own, kept, eq_iff e.revision_digest active, eq_iff e.revision_digest "")

-- A run start keeps the pass that is recorded for the active revision: the record that it replaces goes
-- to passed[], whose eviction spares the active revision. No two entries of passed[] name one revision.
pub run_start_keeps_pass :
    (run : EvalRun) (st : AgentStatus) (path digest : String)
    → HasUniqueRevisions (passed_of st.eval)
    → active_revision_pass_unrecorded st ≡ false
    → active_revision_pass_unrecorded (recording st (run_start_record run st path digest)) ≡ false
unfolding active_revision_pass_unrecorded run_start_record
run_start_keeps_pass run st path digest u h =
    ground (arith, pass_at_start st.eval st.active_revision_digest u)

-- No outcome of a run withdraws the pass that is recorded for another revision, which is serving.
pub with_outcome_keeps_pass :
    (run : EvalRun) (st : AgentStatus) (e : EvalStatus) (id claim : String) (outcome : Outcome)
    (reason : String) (now : ℕ)
    → st.eval ≡ some e
    → e.revision_digest ≡ run.revision_digest
    → run.revision_digest ≢ st.active_revision_digest
    → active_revision_pass_unrecorded st ≡ false
    → active_revision_pass_unrecorded
        (recording st (with_outcome run e id claim outcome reason now))
      ≡ false
unfolding active_revision_pass_unrecorded passed_entry
with_outcome_keeps_pass run st e id claim outcome reason now q same ne h =
    let cs = cases_after e id claim outcome reason in
    elim (Bool-cases (all_recorded run cs && not (run_passes run cs))) [
      | inl f ↦
          let (_, _, _, _, kept) =
            with_outcome_fails run e id claim outcome reason now st.active_revision_digest
              (ground arith) (ground arith) ne in
          ground (arith, kept, eq_iff e.revision_digest st.active_revision_digest)
      | inr f ↦
          let (_, _, kept, _, _) = with_outcome_keeps run e id claim outcome reason now f in
          ground (arith, kept, eq_iff e.revision_digest st.active_revision_digest)
    ]

-- A revision whose run has just failed cannot be pinned while its suite is the one in force, unless it
-- is the revision serving.
pub pin_rule-after_failure :
    (run : EvalRun) (st : AgentStatus) (e : EvalStatus) (id claim : String) (outcome : Outcome)
    (reason : String) (now : ℕ) (spec : String)
    → all_recorded run (cases_after e id claim outcome reason) ≡ true
    → run_passes run (cases_after e id claim outcome reason) ≡ false
    → run.revision_digest ≢ st.active_revision_digest
    → run.suite_digest ≢ ""
    → pin_rule run.revision_digest spec
        (recording st (with_outcome run e id claim outcome reason now))
        (digested run.suite_digest)
      ≡ pin_refused (if run.revision_digest == spec then current_candidate else recorded_failed)
unfolding pin_rule
pin_rule-after_failure run st e id claim outcome reason now spec all fails ne suite =
    let (_, failed, _, _, _) =
      with_outcome_fails run e id claim outcome reason now st.active_revision_digest all fails ne in
    ground (
      arith,
      failed,
      eq_iff run.revision_digest st.active_revision_digest,
      eq_iff run.suite_digest "",
    )
