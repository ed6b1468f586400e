-- ===== src/Auth/Holding.antt =====
-- A tuple that a transaction passes is one that the judgement takes to hold.
use assayd.Base.{
  ℕ, ◌≡◌, refl, ◌∙◌, Bool, true, false, not, ◌&&◌, ◌||◌, inl, inr, Option, none, some, List, [],
  ◌∷◌, String, ◌==◌, arith, Bool-cases, eq_iff, map, nat_eq,
}
use assayd.Conditions.{Condition, ConditionStatus, cond_true, cond_false, cond_unknown}
use assayd.Auth.Nack.{Gateway}
use assayd.Auth.Converged.{
  is_true, RouteParent, find_status_condition, is_ours, route_converged, policy_converged,
  current_true, Ancestor, find_ours, Ours, attached_to_nothing, ours, ancestor_converged,
  has_reason,
}
use assayd.Auth.Judgement.{
  report_holding, ReportedParent, agentgateway_controller_name, known, leg, leg_of, parent_report,
  is_reported, route_report, policy_legs, policy_report, ancestor_report, unclaused,
}

abbrev c_reason : Option Condition → String
c_reason none = ""
c_reason (some c) = c.reason

status_leg :
    (s : ConditionStatus) (reason : String)
    → is_true s ≡ true
    → leg_of s reason ≡ known cond_true reason
status_leg cond_true reason q = refl
status_leg cond_false reason q = absurd (ground (arith, q))
status_leg cond_unknown reason q = absurd (ground (arith, q))

-- A leg that is reported True at the generation.
leg-current_true :
    (c : Option Condition) (generation : ℕ)
    → current_true c generation ≡ true
    → leg c generation ≡ known cond_true (c_reason c)
leg-current_true none generation q = absurd (ground (arith, q))
leg-current_true (some c) generation q =
    let now : nat_eq c.observed_generation generation ≡ true = ground (arith, q) in
    rw now (status_leg c.status c.reason (ground (arith, q)))

-- Every entry of the route's status for the assayd Gateway is of the controller that the judgement heeds.
abbrev pub of_controller : List ReportedParent → String → Gateway → Bool
of_controller [] own gw = true
of_controller (p ∷ ps) own gw =
    (not (is_ours p.parent own gw) || p.controller == agentgateway_controller_name)
    && of_controller ps own gw

parent_report-converged :
    (p : RouteParent) (generation : ℕ)
    → (current_true (find_status_condition p.conditions "Accepted") generation
        && current_true (find_status_condition p.conditions "ResolvedRefs") generation)
      ≡ true
    → parent_report p generation ≡ report_holding
parent_report-converged p generation q =
    let accepted = find_status_condition p.conditions "Accepted" in
    let resolved = find_status_condition p.conditions "ResolvedRefs" in
    rw
      (
        leg-current_true accepted generation (ground (arith, q)),
        leg-current_true resolved generation (ground (arith, q)),
      )
      refl

-- A route that has converged, each of whose entries for the Gateway is of its controller, is reported to
-- hold.
route_converged-holding :
    (ps : List ReportedParent) (own : String) (generation : ℕ) (gw : Gateway)
    → of_controller ps own gw ≡ true
    → route_converged (map (λ p. p.parent) ps) own generation gw ≡ true
    → route_report ps own generation gw ≡ report_holding
unfolding route_converged route_report
route_converged-holding [] own generation gw c q = absurd (ground (arith, q))
route_converged-holding (p ∷ ps) own generation gw c q =
    elim (Bool-cases (is_ours p.parent own gw)) [
      | inl e ↦
          let reported : is_reported p own gw ≡ true = ground (arith, e, c) in
          rw reported (parent_report-converged p.parent generation (ground (arith, e, q)))
      | inr e ↦
          let reported : is_reported p own gw ≡ false = ground (arith, e) in
          rw reported (
            route_converged-holding ps own generation gw (ground (arith, c)) (ground (arith, e, q)))
    ]

valid_legs :
    (accepted : Option Condition) (valid reason : String)
    → has_reason accepted valid ≡ true
    → (valid == "Valid") ≡ true
    → policy_legs (known cond_true (c_reason accepted)) (known cond_true reason)
      ≡ unclaused report_holding
valid_legs none valid reason h v = absurd (ground (arith, h))
valid_legs (some c) valid reason h v =
    let same : c.reason ≡ "Valid" = (eq_iff c.reason valid).0 h ∙ (eq_iff valid "Valid").0 v in
    rw same refl

ancestor_report-converged :
    (o : Ours) (generation : ℕ)
    → ancestor_converged o generation ≡ true
    → ancestor_report o generation ≡ unclaused report_holding
ancestor_report-converged attached_to_nothing generation q = absurd (ground (arith, q))
ancestor_report-converged (ours none) generation q = absurd (ground (arith, q))
ancestor_report-converged (ours (some a)) generation q =
    let accepted = find_status_condition a.conditions "Accepted" in
    let attached = find_status_condition a.conditions "Attached" in
    let fits : has_reason accepted "Valid" ≡ true = ground (arith, q) in
    rw
      (
        leg-current_true accepted generation (ground (arith, q)),
        leg-current_true attached generation (ground (arith, q)),
      )
      (valid_legs accepted "Valid" (c_reason attached) fits refl)

-- What passes a transaction's check, the judgement takes to hold: a route that has converged at its
-- generation, where each of its entries for the Gateway is of the controller that the judgement heeds, and
-- a policy that has converged at its own generation.
pub converged-holding :
    (ps : List ReportedParent) (own : String) (ancestors : List Ancestor)
    (generation policy_generation : ℕ) (gw : Gateway)
    → of_controller ps own gw ≡ true
    → route_converged (map (λ p. p.parent) ps) own generation gw ≡ true
    → policy_converged ancestors policy_generation gw ≡ true
    → (route_report ps own generation gw ≡ report_holding)
      × (policy_report ancestors policy_generation gw ≡ unclaused report_holding)
unfolding policy_converged policy_report
converged-holding ps own ancestors generation policy_generation gw c q r = (
  route_converged-holding ps own generation gw c q,
  ancestor_report-converged (find_ours ancestors gw none) policy_generation r,
)
