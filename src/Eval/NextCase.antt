-- ===== src/Eval/NextCase.antt =====
-- What `nextCase` chooses.
use assayd.Base.{ℕ, ◌≡◌, inl, inr, true, some, List, [], ◌∷◌, String, arith, eq_iff, Option-cases}
use assayd.Status.{Outcome, EvalStatus, EvalCase, EvalCaseRecord}
use assayd.Eval.Records.{
  EvalRun, with_case, with_outcome, case_record, suite_case, find_case, suite_ids, final_record,
}
use assayd.Eval.Steps.{
  is_sending, is_none, find_orphan, find_next, interrupted, to_claim, next_case,
}

pub case_record-id :
    (cs : List EvalCaseRecord) (id : String) (c : EvalCaseRecord)
    → case_record cs id ≡ some c
    → c.id ≡ id
unfolding case_record
case_record-id [] id c h = absurd (ground arith)
case_record-id (x ∷ cs) id c h = ground (arith, case_record-id cs id c, eq_iff x.id id)

pub find_case-id :
    (cs : List EvalCase) (id : String) (c : EvalCase) → find_case cs id ≡ some c → c.id ≡ id
unfolding find_case
find_case-id [] id c h = absurd (ground arith)
find_case-id (x ∷ cs) id c h = ground (arith, find_case-id cs id c, eq_iff x.id id)

pub find_orphan-sending :
    (cs : List EvalCaseRecord) (ids : List String) (c : EvalCaseRecord)
    → find_orphan cs ids ≡ some c
    → (case_record cs c.id ≡ some c) × (is_sending (some c) ≡ true)
unfolding find_orphan
find_orphan-sending cs [] c h = absurd (ground arith)
find_orphan-sending cs (id ∷ ids) c h =
    ground (arith, find_orphan-sending cs ids c, case_record-id cs id c)

pub find_next-none :
    (cs : List EvalCaseRecord) (ids : List String) (id : String)
    → find_next cs ids ≡ some id
    → is_none (case_record cs id) ≡ true
unfolding find_next
find_next-none cs [] id h = absurd (ground arith)
find_next-none cs (x ∷ ids) id h = ground (arith, find_next-none cs ids id)

pub next_case-interrupted :
    (run : EvalRun) (cs : List EvalCaseRecord) (c : EvalCaseRecord)
    → next_case run cs ≡ interrupted c
    → (case_record cs c.id ≡ some c) × (is_sending (some c) ≡ true)
unfolding next_case
next_case-interrupted run cs c h = elim (Option-cases (find_orphan cs (suite_ids run.suite))) [
  | inl q ↦ absurd (ground arith)
  | inr (o, q) ↦ ground (arith, find_orphan-sending cs (suite_ids run.suite) c)
]

pub next_case-to_claim :
    (run : EvalRun) (cs : List EvalCaseRecord) (c : EvalCase)
    → next_case run cs ≡ to_claim c
    → is_none (case_record cs c.id) ≡ true
unfolding next_case suite_case
next_case-to_claim run cs c h = elim (Option-cases (find_next cs (suite_ids run.suite))) [
  | inl q ↦ absurd (ground arith)
  | inr (id, q) ↦
      ground
        (arith, find_next-none cs (suite_ids run.suite) id, find_case-id run.suite.spec.cases id c)
]

pub cases-with_outcome :
    (run : EvalRun) (e : EvalStatus) (id claim : String) (outcome : Outcome) (reason : String)
    (now : ℕ)
    → (with_outcome run e id claim outcome reason now).cases
      ≡ with_case e.cases (record { id = id; outcome = outcome; reason = reason; claim = claim })
unfolding with_outcome final_record
cases-with_outcome run e id claim result reason now = ground arith
