-- ===== src/Examples/Runs.antt =====
-- A run of two processes: one sends case a, and both have read the record when the second sends case b.
use assayd.Base.{ℕ, ◌≡◌, refl, true, some, [], ◌∷◌, String, arith, eq_iff}
use mathlib.Core.List.{Memᴰ}
use assayd.Status.{case_passed, case_failed, EvalStatus}
use assayd.Gate.{names_pair}
use assayd.Eval.Records.{
  case_record, with_case, without_case, suite_ids, suite_case, find_case, has_outcome,
  outcome_recorded, with_outcome, count_outcomes,
}
use assayd.Eval.Steps.{
  View, Flight, World, Step, Reach, init, next_case, to_claim, find_orphan, find_next, with_claim,
  put, draw, send, is_sending, claims, cases_of,
}
use assayd.Eval.Safety.{IsUnique}
use assayd.Eval.Exclusion.{sent-IsUnique, flight_may_record, outcome_stays}
use assayd.Fixtures.{case_a, case_b, greetings_run, started}

abbrev first_view : View
first_view = record { version = 0; eval = some started }

abbrev seen : World
seen = record (init first_view) { views = first_view ∷ [] }

-- Case a is claimed and sent.
abbrev sent_a : World
sent_a =
    draw "n1" (send (put seen (with_claim started "a" "n1")) greetings_run "a" "n1" case_passed "")

claims_a : next_case greetings_run started.cases ≡ to_claim case_a
unfolding next_case suite_ids suite_case find_case case_record find_orphan find_next
claims_a = refl

Reach-a : Reach first_view sent_a
Reach-a = Reach.later (Reach.later Reach.begin Step.observe) (
    Step.claim first_view started greetings_run case_a "n1" case_passed ""
      (record { was_read = Memᴰ.head refl; same_version = refl; holds = refl }) refl claims_a
      (λ m. elim m [ ]))

-- Its outcome is recorded.
abbrev flight_a : Flight
flight_a = record {
  number = 0;
  run = greetings_run;
  id = "a";
  nonce = "n1";
  outcome = case_passed;
  reason = "";
  view = record { version = 1; eval = some (with_claim started "a" "n1") };
}

abbrev eval_a : EvalStatus
eval_a = with_outcome greetings_run (with_claim started "a" "n1") "a" "n1" case_passed "" 7

abbrev recorded_a : World
recorded_a = put sent_a eval_a

Reach-recorded : Reach first_view recorded_a
Reach-recorded =
    Reach.later Reach-a
      (Step.record_outcome flight_a (with_claim started "a" "n1") 7 (Memᴰ.head refl) refl refl)

-- Case b is claimed and sent.
abbrev seen_a : World
seen_a = record recorded_a { views = recorded_a.stored ∷ recorded_a.views }

abbrev sent_b : World
sent_b =
    draw "n2"
      (send (put seen_a (with_claim eval_a "b" "n2")) greetings_run "b" "n2" case_failed "NoMatch")

claims_b : next_case greetings_run eval_a.cases ≡ to_claim case_b
unfolding with_outcome with_claim with_case without_case next_case suite_ids suite_case find_case
    case_record find_orphan find_next count_outcomes
claims_b = refl

pair_b : names_pair (some eval_a) "d2" "s1" ≡ true
unfolding with_outcome with_claim with_case without_case case_record suite_ids count_outcomes
pair_b = refl

fresh_b : ¬ (Memᴰ {A = String} "n2" ("n1" ∷ []))
fresh_b (Memᴰ.head e) = ground (arith, eq_iff "n2" "n1")
fresh_b (Memᴰ.tail m) = elim m [ ]

Step-b : Step seen_a sent_b
Step-b =
    Step.claim recorded_a.stored eval_a greetings_run case_b "n2" case_failed "NoMatch"
      (record { was_read = Memᴰ.head refl; same_version = refl; holds = refl }) pair_b claims_b
      fresh_b

Reach-b : Reach first_view sent_b
Reach-b = Reach.later (Reach.later Reach-recorded Step.observe) Step-b

sent_example : IsUnique sent_b.sent
sent_example = sent-IsUnique first_view sent_b Reach-b

flight_example :
    (flight_a.view ≡ sent_a.stored)
    × (is_sending (case_record (cases_of sent_a.stored.eval) "a") ≡ true)
    × (claims (cases_of sent_a.stored.eval) "a" "n1" ≡ true)
    × (◌≡◌ {A = ℕ} 0 0)
flight_example = flight_may_record first_view sent_a flight_a Reach-a (Memᴰ.head refl) refl

a_has_outcome : has_outcome outcome_recorded (case_record (cases_of seen_a.stored.eval) "a") ≡ true
unfolding with_outcome with_claim with_case without_case case_record suite_ids count_outcomes
a_has_outcome = refl

stays_example :
    case_record (cases_of sent_b.stored.eval) "a" ≡ case_record (cases_of seen_a.stored.eval) "a"
stays_example =
    outcome_stays first_view seen_a sent_b "a" (Reach.later Reach-recorded Step.observe) Step-b refl
      a_has_outcome
