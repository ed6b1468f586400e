-- ===== src/Auth/Standing.antt =====
-- What the served judgement keeps: a claim stands just where the last report that said anything was broken.
use assayd.Base.{
  ◌≡◌, refl, sym, ap, ◌∙◌, Bool, true, false, Option, none, some, List, [], ◌∷◌, ◌++◌, String,
  if◌then◌else◌, arith,
}
use assayd.Status.{AuthStatus}
use assayd.Auth.Judgement.{
  GatewayReport, report_unknown, report_broken, report_holding, ServedClaims, stored_claims,
  write_claims, judges_served, claim_after, raised_by, judge_served, hold_served_judgement,
  reason_route, reason_policy,
}

-- A pass over a served Agent: judged by these reports of the route and the policy, or failed before.
pub data ServedPass : Type 0 where
  judged : GatewayReport → GatewayReport → ServedPass
  step_failed : ServedPass

-- status.auth after a pass, and after passes, the first of them the earliest, where nothing else writes it.
unfoldable pub after_pass : Option AuthStatus → ServedPass → Option AuthStatus
unfolding judge_served stored_claims
after_pass auth (judged route policy) =
    (judge_served true auth (stored_claims auth) route policy).auth
after_pass auth step_failed = auth

unfoldable pub after_passes : Option AuthStatus → List ServedPass → Option AuthStatus
unfolding after_pass
after_passes auth [] = auth
after_passes auth (p ∷ passes) = after_passes (after_pass auth p) passes

-- The last of the reports that said anything: whether it was broken.
unfoldable pub last_word : Bool → List GatewayReport → Bool
last_word stands [] = stands
last_word stands (report_unknown ∷ rest) = last_word stands rest
last_word stands (report_broken ∷ rest) = last_word true rest
last_word stands (report_holding ∷ rest) = last_word false rest

abbrev pub route_reports : List ServedPass → List GatewayReport
route_reports [] = []
route_reports (judged route policy ∷ passes) = route ∷ route_reports passes
route_reports (step_failed ∷ passes) = route_reports passes

abbrev pub policy_reports : List ServedPass → List GatewayReport
policy_reports [] = []
policy_reports (judged route policy ∷ passes) = policy ∷ policy_reports passes
policy_reports (step_failed ∷ passes) = policy_reports passes

abbrev claims_after : ServedClaims → GatewayReport → GatewayReport → ServedClaims
claims_after stored route policy = record {
  route_refused = claim_after route stored.route_refused;
  policy_unattached = claim_after policy stored.policy_unattached;
  key_source_empty = stored.key_source_empty;
}

judge_served-served :
    (auth : Option AuthStatus) (stored : ServedClaims) (route policy : GatewayReport)
    → judges_served auth ≡ true
    → ((judge_served true auth stored route policy).auth
        ≡ write_claims (claims_after stored route policy) auth)
      × ((judge_served true auth stored route policy).withheld
          ≡ raised_by route stored.route_refused reason_route
            ++ raised_by policy stored.policy_unattached reason_policy)
unfolding judge_served
judge_served-served auth stored route policy j = rw j (refl, refl)

hold-served :
    (auth : Option AuthStatus) (stored : ServedClaims)
    → judges_served auth ≡ true
    → hold_served_judgement true auth stored
      ≡ raised_by report_unknown stored.route_refused reason_route
        ++ raised_by report_unknown stored.policy_unattached reason_policy
unfolding hold_served_judgement
hold-served auth stored j = rw j refl

-- What is written is what is stored, and the Agent is still judged.
write_claims-stored :
    (c : ServedClaims) (auth : Option AuthStatus)
    → judges_served auth ≡ true
    → (judges_served (write_claims c auth) ≡ true) × (stored_claims (write_claims c auth) ≡ c)
unfolding judges_served write_claims stored_claims
write_claims-stored c none j = absurd (ground (arith, j))
write_claims-stored c (some auth) j = (j, refl)

after_pass-claims :
    (auth : Option AuthStatus) (route policy : GatewayReport)
    → judges_served auth ≡ true
    → (judges_served (after_pass auth (judged route policy)) ≡ true)
      × (stored_claims (after_pass auth (judged route policy))
          ≡ claims_after (stored_claims auth) route policy)
unfolding after_pass
after_pass-claims auth route policy j =
    let (writes, withheld) = judge_served-served auth (stored_claims auth) route policy j in
    rw writes (write_claims-stored (claims_after (stored_claims auth) route policy) auth j)

-- The reasons of the claims that stand.
abbrev pub standing : ServedClaims → List String
standing c =
    (if c.route_refused then reason_route ∷ [] else [])
    ++ (if c.policy_unattached then reason_policy ∷ [] else [])

raised_by-claim_after :
    (r : GatewayReport) (stored : Bool) (reason : String)
    → raised_by r stored reason ≡ (if claim_after r stored then reason ∷ [] else [])
raised_by-claim_after report_unknown stored reason = refl
raised_by-claim_after report_broken stored reason = refl
raised_by-claim_after report_holding stored reason = refl

-- A pass over a served Agent raises or holds the reasons of the claims that stand after it, the route's
-- before the policy's, and one whose -auth step failed holds those of the claims that stood before.
pub withheld-standing :
    (auth : Option AuthStatus) (route policy : GatewayReport)
    → judges_served auth ≡ true
    → ((judge_served true auth (stored_claims auth) route policy).withheld
        ≡ standing (stored_claims (after_pass auth (judged route policy))))
      × (hold_served_judgement true auth (stored_claims auth) ≡ standing (stored_claims auth))
withheld-standing auth route policy j =
    let stored = stored_claims auth in
    let (writes, withheld) = judge_served-served auth stored route policy j in
    let (served, claims) = after_pass-claims auth route policy j in
    let r = raised_by-claim_after route stored.route_refused reason_route in
    let p = raised_by-claim_after policy stored.policy_unattached reason_policy in
    let both : raised_by route stored.route_refused reason_route
          ++ raised_by policy stored.policy_unattached reason_policy
        ≡ standing (claims_after stored route policy) =
      rw (r, p) refl in
    (withheld ∙ both ∙ ap standing (sym claims), hold-served auth stored j)
