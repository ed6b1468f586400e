-- ===== src/Eval/Records.antt =====
-- The records of a run: status.eval.cases[], failed[] and passed[], and the outcome that a sent case
-- writes (evalcontroller.go, from `withOutcome` to `outcomeRecorded`).
use assayd.Base.{
  ℕ, zero, suc, ◌-◌, Bool, true, false, not, ◌&&◌, ◌||◌, Option, none, some, List, [], ◌∷◌, ◌++◌,
  String, ◌==◌, ltb, length, drop, if◌then◌else◌,
}
use assayd.Base.Sort.{sort_by}
use assayd.Status.{
  Verdict, Outcome, no_outcome, sending, case_passed, case_failed, EvalPair, EvalCaseRecord,
  EvalStatus, EvalCase, EvalSuite,
}
use assayd.Suite.{passes}

-- `removePassed`
unfoldable pub remove_passed : List EvalPair → String → List EvalPair
remove_passed [] digest = []
remove_passed (x ∷ xs) digest =
    let rest = remove_passed xs digest in if x.revision_digest == digest then rest else x ∷ rest

abbrev pub max_failed_pairs : ℕ
max_failed_pairs = 10

-- `appendFailed`: the oldest pairs beyond the cap are dropped.
unfoldable pub append_failed : List EvalPair → EvalPair → List EvalPair
append_failed failed p =
    let out = failed ++ p ∷ [] in
    if ltb max_failed_pairs (length out) then drop (length out - max_failed_pairs) out else out

abbrev pub max_passed_pairs : ℕ
max_passed_pairs = 10

-- One round of `appendPassed`'s loop: the first entry that is not the active revision's goes.
unfoldable pub evict_one : String → List EvalPair → List EvalPair
evict_one active [] = []
evict_one active (x ∷ xs) =
    let rest = evict_one active xs in if not (x.revision_digest == active) then xs else x ∷ rest

-- The loop, on fuel. It spins in the source where every entry is the active revision's.
unfoldable pub evict : ℕ → String → List EvalPair → List EvalPair
unfolding evict_one
evict zero active out = out
evict (suc fuel) active out =
    let rest = evict fuel active (evict_one active out) in
    if ltb max_passed_pairs (length out) then rest else out

-- `appendPassed`
unfoldable pub append_passed : List EvalPair → EvalPair → String → List EvalPair
unfolding remove_passed evict
append_passed passed p active =
    let out = remove_passed passed p.revision_digest ++ p ∷ [] in evict (length out) active out

-- The loop of `withCase` that copies the other entries.
unfoldable pub without_case : String → List EvalCaseRecord → List EvalCaseRecord
without_case id [] = []
without_case id (x ∷ xs) =
    let rest = without_case id xs in if not (x.id == id) then x ∷ rest else rest

-- `withCase`
unfoldable pub with_case : List EvalCaseRecord → EvalCaseRecord → List EvalCaseRecord
unfolding without_case
with_case cases c = sort_by (λ (r : EvalCaseRecord). r.id) (without_case c.id cases ++ c ∷ [])

abbrev pub case_ids : List EvalCase → List String
case_ids [] = []
case_ids (c ∷ cs) = c.id ∷ case_ids cs

-- `suiteIDs`
unfoldable pub suite_ids : EvalSuite → List String
suite_ids s = sort_by (λ (i : String). i) (case_ids s.spec.cases)

-- `caseRecord`
unfoldable pub case_record : List EvalCaseRecord → String → Option EvalCaseRecord
case_record [] id = none
case_record (c ∷ cs) id = if c.id == id then some c else case_record cs id

-- The loop of `suiteCase`.
unfoldable pub find_case : List EvalCase → String → Option EvalCase
find_case [] id = none
find_case (c ∷ cs) id = if c.id == id then some c else find_case cs id

-- `suiteCase`
unfoldable pub suite_case : EvalSuite → String → Option EvalCase
unfolding find_case
suite_case s id = find_case s.spec.cases id

-- `outcomeRecorded`
abbrev pub outcome_recorded : Outcome → Bool
outcome_recorded case_passed = true
outcome_recorded case_failed = true
outcome_recorded sending = false
outcome_recorded no_outcome = false

abbrev pub is_passed : Outcome → Bool
is_passed case_passed = true
is_passed _ = false

abbrev pub has_outcome : (Outcome → Bool) → Option EvalCaseRecord → Bool
has_outcome test none = false
has_outcome test (some c) = test c.outcome

-- How many of the ids have an entry whose outcome passes the test.
unfoldable pub count_outcomes : (Outcome → Bool) → List EvalCaseRecord → List String → ℕ
unfolding case_record
count_outcomes test cases [] = 0
count_outcomes test cases (id ∷ ids) =
    let rest = count_outcomes test cases ids in
    if has_outcome test (case_record cases id) then suc rest else rest

-- evalRun: one pass's view of the run that it acts on.
pub record EvalRun : Type 0 where
  pub suite : EvalSuite
  pub suite_digest : String
  pub threshold : ℕ
  pub revision : String
  pub revision_digest : String

abbrev pub pair_of : EvalRun → EvalPair
pair_of run = record { revision_digest = run.revision_digest; suite_digest = run.suite_digest }

-- The verdict, score and time of a run whose every case has an outcome.
unfoldable pub final_record : EvalRun → ℕ → ℕ → ℕ → EvalStatus → EvalStatus
unfolding passes append_failed remove_passed
final_record run passed total now e =
    let scored = record e {
      score = some (passed, total);
      at = some now;
      verdict = Verdict.passed;
    } in
    if passes passed total run.threshold then scored else record scored {
      verdict = Verdict.failed;
      failed = append_failed e.failed (pair_of run);
      passed = remove_passed e.passed run.revision_digest;
    }

-- `withOutcome`
unfoldable pub with_outcome :
    EvalRun → EvalStatus → String → String → Outcome → String → ℕ → EvalStatus
unfolding with_case count_outcomes suite_ids final_record
with_outcome run e id claim outcome reason now =
    let entry : EvalCaseRecord = record {
      id = id;
      outcome = outcome;
      reason = reason;
      claim = claim;
    } in
    let e' = record e { cases = with_case e.cases entry } in
    let done = count_outcomes outcome_recorded e'.cases (suite_ids run.suite) in
    let passed = count_outcomes is_passed e'.cases (suite_ids run.suite) in
    let total = length run.suite.spec.cases in
    if ltb done total then e' else final_record run passed total now e'

-- `pairFailed` (gate.go): the pair is recorded as failed.
unfoldable pub pair_failed : List EvalPair → String → String → Bool
pair_failed [] rev suite = false
pair_failed (p ∷ ps) rev suite =
    p.revision_digest == rev && p.suite_digest == suite || pair_failed ps rev suite

-- The loop of `passedEntry` (pinrule.go): the entry of a revision.
unfoldable pub find_pair : List EvalPair → String → Option EvalPair
find_pair [] digest = none
find_pair (p ∷ ps) digest = if p.revision_digest == digest then some p else find_pair ps digest
