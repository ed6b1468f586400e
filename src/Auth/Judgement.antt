-- ===== src/Auth/Judgement.antt =====
-- internal/controller/authserved.go: what the Gateway's status says of a served Agent's route and policy,
-- and the claims that `judgeServed` keeps of it in status.auth. The messages and GovernanceSkipped are left
-- out: what is raised is a reason.
use assayd.Base.{
  ℕ, Bool, true, false, not, ◌&&◌, ◌||◌, Option, none, some, List, [], ◌∷◌, ◌++◌, String, ◌==◌,
  nat_eq, if◌then◌else◌,
}
use assayd.Status.{AuthTransaction, AuthStatus}
use assayd.Conditions.{Condition, ConditionStatus, cond_true, cond_false}
use assayd.Auth.{is_adopt}
use assayd.Auth.Nack.{Gateway}
use assayd.Auth.Converged.{
  RouteParent, find_status_condition, is_ours, Ancestor, Ours, attached_to_nothing, ours, find_ours,
}

-- gatewayReport
pub data GatewayReport : Type 0 where
  report_unknown report_broken report_holding : GatewayReport

-- policyClause
pub data PolicyClause : Type 0 where
  clause_unknown clause_unattached clause_rejected clause_partly_valid : PolicyClause

abbrev pub agentgateway_controller_name : String
agentgateway_controller_name = "agentgateway.dev/agentgateway"

-- An entry of the route's status.parents, with its controllerName.
pub record ReportedParent : Type 0 where
  pub parent : RouteParent
  pub controller : String

-- A condition of the object's current generation: silent where there is none.
pub data Leg : Type 0 where
  silent refuses : Leg
  known : ConditionStatus → String → Leg

abbrev pub leg_of : ConditionStatus → String → Leg
leg_of cond_false reason = refuses
leg_of status reason = known status reason

abbrev pub leg : Option Condition → ℕ → Leg
leg none generation = silent
leg (some c) generation =
    if nat_eq c.observed_generation generation then leg_of c.status c.reason else silent

-- `routeReport`'s loop over Accepted and ResolvedRefs.
abbrev pub route_legs : Leg → Leg → GatewayReport
route_legs refuses resolved = report_broken
route_legs accepted refuses = report_broken
route_legs (known s r) (known t q) = report_holding
route_legs _ _ = report_unknown

abbrev pub is_reported : ReportedParent → String → Gateway → Bool
is_reported p own gw = is_ours p.parent own gw && p.controller == agentgateway_controller_name

abbrev pub parent_report : RouteParent → ℕ → GatewayReport
parent_report p generation =
    route_legs (leg (find_status_condition p.conditions "Accepted") generation)
      (leg (find_status_condition p.conditions "ResolvedRefs") generation)

-- `routeReport`, of a route of this namespace and generation
unfoldable pub route_report : List ReportedParent → String → ℕ → Gateway → GatewayReport
unfolding find_status_condition
route_report [] own generation gw = report_unknown
route_report (p ∷ ps) own generation gw =
    let rest = route_report ps own generation gw in
    if is_reported p own gw then parent_report p.parent generation else rest

pub record PolicyReport : Type 0 where
  pub report : GatewayReport
  pub clause : PolicyClause

abbrev pub broken_by : PolicyClause → PolicyReport
broken_by clause = record { report = report_broken; clause = clause }

abbrev pub unclaused : GatewayReport → PolicyReport
unclaused report = record { report = report; clause = clause_unknown }

-- Accepted=True under another reason than Valid.
abbrev pub is_unwanted : ConditionStatus → String → Bool
is_unwanted cond_true reason = not (reason == "Valid")
is_unwanted _ reason = false

-- The answers over Accepted and Attached, the strongest claim first.
abbrev pub policy_legs : Leg → Leg → PolicyReport
policy_legs accepted refuses = broken_by clause_unattached
policy_legs refuses attached = broken_by clause_rejected
policy_legs silent attached = unclaused report_unknown
policy_legs (known s r) silent =
    if is_unwanted s r then broken_by clause_partly_valid else unclaused report_unknown
policy_legs (known s r) (known t q) =
    if is_unwanted s r then broken_by clause_partly_valid else unclaused report_holding

abbrev pub ancestor_report : Ours → ℕ → PolicyReport
ancestor_report attached_to_nothing generation = broken_by clause_unattached
ancestor_report (ours none) generation = unclaused report_unknown
ancestor_report (ours (some a)) generation =
    policy_legs (leg (find_status_condition a.conditions "Accepted") generation)
      (leg (find_status_condition a.conditions "Attached") generation)

-- `policyReport`, of the policy's ancestors and generation
unfoldable pub policy_report : List Ancestor → ℕ → Gateway → PolicyReport
unfolding find_ours find_status_condition
policy_report ancestors generation gw = ancestor_report (find_ours ancestors gw none) generation

-- servedClaims
pub record ServedClaims : Type 0 where
  pub route_refused : Bool
  pub policy_unattached : Bool
  pub key_source_empty : Bool

-- `storedClaims`
unfoldable pub stored_claims : Option AuthStatus → ServedClaims
stored_claims none = record {
  route_refused = false;
  policy_unattached = false;
  key_source_empty = false;
}
stored_claims (some a) = record {
  route_refused = a.route_refused;
  policy_unattached = a.policy_unattached;
  key_source_empty = a.key_source_empty;
}

-- `writeTo`
unfoldable pub write_claims : ServedClaims → Option AuthStatus → Option AuthStatus
write_claims c none = none
write_claims c (some a) = some (record a {
  route_refused = c.route_refused;
  policy_unattached = c.policy_unattached;
  key_source_empty = c.key_source_empty;
})

abbrev pub judged_slot : String → Option AuthTransaction → Bool
judged_slot mode none = not (mode == "")
judged_slot mode (some tx) = is_adopt tx.kind

-- `judgesServed`
unfoldable pub judges_served : Option AuthStatus → Bool
judges_served none = false
judges_served (some auth) = judged_slot auth.mode auth.transaction

-- A claim after a report: an unknown one holds it.
abbrev pub claim_after : GatewayReport → Bool → Bool
claim_after report_broken stored = true
claim_after report_holding stored = false
claim_after report_unknown stored = stored

-- A reason is raised on a broken report, and held on an unknown one where its claim stands.
abbrev pub raised_by : GatewayReport → Bool → String → List String
raised_by report_broken stored reason = reason ∷ []
raised_by report_holding stored reason = []
raised_by report_unknown stored reason = if stored then reason ∷ [] else []

-- routeLead: what the policy's message may say of the route
pub data RouteLead : Type 0 where
  route_serving route_named route_unread : RouteLead

-- `servedRouteLead`
unfoldable pub served_route_lead : GatewayReport → ServedClaims → RouteLead
served_route_lead report_holding stored = route_serving
served_route_lead report_broken stored = route_named
served_route_lead report_unknown stored = if stored.route_refused then route_named else route_unread

-- What is left in status.auth, and the reasons raised or held, in their order: each withholds Ready.
pub record Judged : Type 0 where
  pub auth : Option AuthStatus
  pub withheld : List String

abbrev pub reason_route : String
reason_route = "ServingRouteNotAccepted"

abbrev pub reason_policy : String
reason_policy = "AuthPolicyNotAttached"

-- `judgeServed`, with the claims stored before the -auth step and the two reports
unfoldable pub judge_served :
    Bool → Option AuthStatus → ServedClaims → GatewayReport → GatewayReport → Judged
unfolding write_claims judges_served
judge_served gateway_enabled auth stored route policy =
    if not gateway_enabled || not (judges_served auth)
    then record { auth = auth; withheld = [] }
    else record {
      auth =
          write_claims
            (record {
              route_refused = claim_after route stored.route_refused;
              policy_unattached = claim_after policy stored.policy_unattached;
              key_source_empty = stored.key_source_empty;
            })
            auth;
      withheld =
          raised_by route stored.route_refused reason_route
          ++ raised_by policy stored.policy_unattached reason_policy;
    }

-- `holdServedJudgement`, of a pass whose -auth step failed
unfoldable pub hold_served_judgement : Bool → Option AuthStatus → ServedClaims → List String
unfolding judges_served
hold_served_judgement gateway_enabled auth stored =
    if not gateway_enabled || not (judges_served auth)
    then []
    else raised_by report_unknown stored.route_refused reason_route
      ++ raised_by report_unknown stored.policy_unattached reason_policy
