-- ===== src/Examples/Rollouts.antt =====
-- The promotion switch and the served judgement at concrete inputs.
use assayd.Base.{
  ℕ, not, if◌then◌else◌, leb, ◌+◌, ◌==◌, ◌≡◌, ◌⊎◌, refl, true, false, none, some, List, [], ◌∷◌,
  String, arith, eq_iff,
}
use assayd.Cards.{
  upsert_card, record_card_attempt, card_fetch_due, card_requeue_after, card_retry_interval,
  card_drift_interval,
}
use assayd.Cards.Entries.{
  registered_entry, attempt_entry, read_at, upsert_card-card_entry, card_fetch_due-requeue,
}
use assayd.Status.{CardStatus, AgentStatus, Verdict, AuthStatus}
use assayd.Predicates.{has_card_for, card_entry, i1_hold}
use assayd.Gate.{gate_enforced}
use assayd.Fixtures.{evaluated, started}
use assayd.Rollout.{
  Rollout, RolloutInput, no_phase, promoted, contains_string, remove_string, roll_out,
}
use assayd.Rollout.Names.{superseded_name}
use assayd.Rollout.Promotion.{serving, IsPromotion, roll_out-IsPromotion}
use assayd.Rollout.Superseded.{IsTidy, is_unique, roll_out-IsTidy}
use assayd.Auth.{new_auth}
use assayd.Conditions.{Condition, cond_true}
use assayd.Auth.Nack.{Gateway}
use assayd.Auth.Converged.{Ancestor, route_converged, policy_converged}
use assayd.Auth.Judgement.{
  ReportedParent, report_unknown, report_broken, report_holding, route_report, policy_report,
  unclaused,
}
use assayd.Auth.Holding.{converged-holding}
use assayd.Auth.Standing.{ServedPass, judged, step_failed}

-- Revision d2 has passed its gate, and d1 serves.
abbrev before : Rollout
before = record {
  status = record evaluated { eval = some (record started { verdict = Verdict.passed }) };
  superseded = "r0@d0" ∷ "r2@d2" ∷ [];
  phase = no_phase;
  reports = [];
}

abbrev input : RolloutInput
input = record {
  desired = "r2";
  desired_digest = "d2";
  is_ready = true;
  active_available = true;
  cards = evaluated.cards;
  gateway_enabled = true;
  compiles = true;
  is_pinned = false;
  gating = gate_enforced;
  pin_admitted = false;
  missing = [];
  record_err = none;
  suite_err = none;
  digest_err = false;
  suite_digest = "s1";
}

abbrev after : Rollout
unfolding remove_string
after = promoted input before

roll_out-IsPromotion_example : IsPromotion input before after
unfolding roll_out remove_string has_card_for superseded_name i1_hold
roll_out-IsPromotion_example =
    roll_out-IsPromotion input before after refl (λ q. absurd (ground (arith, q, eq_iff "d2" "d1")))

before-IsTidy : IsTidy before.superseded
unfolding is_unique
before-IsTidy = record { bounded = omega arith; unique = refl }

roll_out-IsTidy_example :
    IsTidy ("r0@d0" ∷ [])
    × ((serving after ≡ serving before) ⊎ (contains_string ("r0@d0" ∷ []) "r2@d2" ≡ false))
unfolding roll_out remove_string has_card_for superseded_name i1_hold
roll_out-IsTidy_example = roll_out-IsTidy input before after before-IsTidy refl

abbrev served : AuthStatus
served = new_auth "apikey" none

abbrev served_passes : List ServedPass
served_passes =
    judged report_broken report_holding
    ∷ step_failed
    ∷ judged report_unknown report_broken
    ∷ judged report_unknown report_holding
    ∷ []

abbrev gateway : Gateway
gateway = record { name = "gw"; namespace = "system" }

abbrev reported : ℕ → String → String → Condition
reported generation type reason = record {
  type = type;
  status = cond_true;
  reason = reason;
  message = "";
  observed_generation = generation;
  last_transition_time = 0;
}

abbrev parents : List ReportedParent
parents =
    record {
      parent = record {
        name = "gw";
        namespace = some "system";
        conditions =
            reported 3 "Accepted" "Accepted" ∷ reported 3 "ResolvedRefs" "ResolvedRefs" ∷ [];
      };
      controller = "agentgateway.dev/agentgateway";
    }
    ∷ []

abbrev ancestors : List Ancestor
ancestors =
    record {
      group = "gateway.networking.k8s.io";
      kind = "Gateway";
      name = "gw";
      namespace = "system";
      conditions = reported 1 "Accepted" "Valid" ∷ reported 1 "Attached" "Attached" ∷ [];
    }
    ∷ []

converged-holding_example :
    (route_report parents "run" 3 gateway ≡ report_holding)
    × (policy_report ancestors 1 gateway ≡ unclaused report_holding)
unfolding route_converged policy_converged
converged-holding_example = converged-holding parents "run" ancestors 3 1 gateway refl refl refl

abbrev card : CardStatus
card = record { revision = "r3"; revision_digest = ""; digest = "c3"; fetched_at = some 7 }

upsert_card-card_entry_example :
    (card_entry (record evaluated { cards = upsert_card evaluated.cards card "d3" }) "d2"
      ≡ (if "d3" == "d2" then some (registered_entry card "d3") else card_entry evaluated "d2"))
    × (card_entry (record_card_attempt evaluated "r2" "d3" 9) "d2"
        ≡ (if "d3" == "d2" then some (attempt_entry "r2" "d3" 9) else card_entry evaluated "d2"))
    × (has_card_for (record evaluated { cards = upsert_card evaluated.cards card "d3" }) "d2"
        ≡ (if "d3" == "d2" then not (card.digest == "") else has_card_for evaluated "d2"))
    × (has_card_for (record_card_attempt evaluated "r2" "d3" 9) "d2"
        ≡ (if "d3" == "d2" then false else has_card_for evaluated "d2"))
upsert_card-card_entry_example = upsert_card-card_entry evaluated card "r2" "d3" "d2" 9

-- The card of d3 is read at 7, or the attempt fails then.
abbrev read_card : AgentStatus
read_card = record evaluated { cards = upsert_card evaluated.cards (read_at card 7) "d3" }

abbrev failed_card : AgentStatus
failed_card = record_card_attempt evaluated "r3" "d3" 7

card_fetch_due-requeue_example :
    (card_fetch_due read_card "d3" 400 ≡ (
      if "d3" == "d3"
      then leb (7 + card_requeue_after read_card "d3") 400
      else card_fetch_due evaluated "d3" 400))
    × (card_fetch_due failed_card "d3" 400 ≡ (
        if "d3" == "d3"
        then leb (7 + card_requeue_after failed_card "d3") 400
        else card_fetch_due evaluated "d3" 400))
    × (card_requeue_after read_card "d3" ≡ (
        if "d3" == "d3"
        then (if card.digest == "" then card_retry_interval else card_drift_interval)
        else card_requeue_after evaluated "d3"))
    × (card_requeue_after failed_card "d3"
        ≡ (if "d3" == "d3" then card_retry_interval else card_requeue_after evaluated "d3"))
card_fetch_due-requeue_example = card_fetch_due-requeue evaluated card "r3" "d3" "d3" 7 400
