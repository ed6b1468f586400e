-- ===== src/Eval/Cases.antt =====
-- The case records of a run, as a map from case ids.
use assayd.Base.{
  ◌≤◌, ◌≡◌, refl, ap, ◌∙◌, Bool, true, not, ◌&&◌, some, List, [], ◌∷◌, ◌++◌, String, ◌==◌, arith,
  ltb, str_le_total, eq_iff, if◌then◌else◌, length, str_le,
}
use assayd.Base.Sort.{insert_by, sort_by}
use assayd.Status.{EvalCaseRecord, Outcome}
use assayd.Eval.Records.{without_case, with_case, case_record, count_outcomes, has_outcome}

-- The key of the sort.
abbrev record_id : EvalCaseRecord → String
record_id r = r.id

le_refl : (s : String) → str_le s s ≡ true
le_refl s = ground (arith, str_le_total s s)

case_record-insert_by :
    (c : EvalCaseRecord) (cs : List EvalCaseRecord) (id : String)
    → case_record (insert_by record_id c cs) id ≡ (if c.id == id then some c else case_record cs id)
unfolding case_record
case_record-insert_by c [] id = refl
case_record-insert_by c (x ∷ cs) id =
    ground (arith, case_record-insert_by c cs id, eq_iff c.id id, eq_iff x.id id, le_refl id)

case_record-sort_by :
    (cs : List EvalCaseRecord) (id : String)
    → case_record (sort_by record_id cs) id ≡ case_record cs id
unfolding case_record
case_record-sort_by [] id = refl
case_record-sort_by (c ∷ cs) id =
    case_record-insert_by c (sort_by record_id cs) id
    ∙ ap (λ r. if c.id == id then some c else r) (case_record-sort_by cs id)

case_record-without_case :
    (cs : List EvalCaseRecord) (c : EvalCaseRecord) (id : String)
    → case_record (without_case c.id cs ++ c ∷ []) id
      ≡ (if c.id == id then some c else case_record cs id)
unfolding case_record without_case
case_record-without_case [] c id = refl
case_record-without_case (x ∷ cs) c id =
    ground
      (arith, case_record-without_case cs c id, eq_iff c.id id, eq_iff x.id id, eq_iff x.id c.id)

-- After an entry is written, its id reads that entry, and every other id reads what it read before.
pub case_record-with_case :
    (cs : List EvalCaseRecord) (c : EvalCaseRecord) (id : String)
    → case_record (with_case cs c) id ≡ (if c.id == id then some c else case_record cs id)
unfolding with_case
case_record-with_case cs c id =
    case_record-sort_by (without_case c.id cs ++ c ∷ []) id ∙ case_record-without_case cs c id

-- Every id has an entry whose outcome passes the test.
unfoldable pub every_outcome : (Outcome → Bool) → List EvalCaseRecord → List String → Bool
every_outcome test cs [] = true
every_outcome test cs (id ∷ ids) = has_outcome test (case_record cs id) && every_outcome test cs ids

pub count_outcomes_le :
    (test : Outcome → Bool) (cs : List EvalCaseRecord) (ids : List String)
    → count_outcomes test cs ids ≤ length ids
unfolding count_outcomes
count_outcomes_le test cs [] = omega arith
count_outcomes_le test cs (id ∷ ids) = ground (arith, count_outcomes_le test cs ids)

-- The count reaches the number of ids exactly when every one passes.
pub count_outcomes-every :
    (test : Outcome → Bool) (cs : List EvalCaseRecord) (ids : List String)
    → ltb (count_outcomes test cs ids) (length ids) ≡ not (every_outcome test cs ids)
unfolding count_outcomes every_outcome
count_outcomes-every test cs [] = refl
count_outcomes-every test cs (id ∷ ids) =
    ground (arith, count_outcomes-every test cs ids, count_outcomes_le test cs ids)
