-- ===== src/Auth/Converged.antt =====
-- internal/controller/authtxn.go: when the gateway has taken the route and the policy at their current
-- generation, `routeConverged` and `policyConverged`.
--
-- The policy's unstructured status is its ancestors, each with its reference and its conditions.
use assayd.Base.{
  ℕ, ◌≡◌, refl, Bool, true, false, ◌&&◌, ◌||◌, Option, none, some, List, [], ◌∷◌, String, ◌==◌,
  nat_eq, if◌then◌else◌, arith, Bool-cases, inl, inr,
}
use assayd.Conditions.{Condition, ConditionStatus, cond_true}
use assayd.Auth.Nack.{Gateway}

-- A parent of the route's status; the reference's namespace may be nil.
pub record RouteParent : Type 0 where
  pub name : String
  pub namespace : Option String
  pub conditions : List Condition

-- `meta.FindStatusCondition`
unfoldable pub find_status_condition : List Condition → String → Option Condition
find_status_condition [] type = none
find_status_condition (c ∷ cs) type =
    let rest = find_status_condition cs type in if c.type == type then some c else rest

abbrev pub is_true : ConditionStatus → Bool
is_true cond_true = true
is_true _ = false

abbrev pub current_true : Option Condition → ℕ → Bool
current_true none generation = false
current_true (some c) generation = nat_eq c.observed_generation generation && is_true c.status

abbrev or_namespace : Option String → String → String
or_namespace none own = own
or_namespace (some ns) own = ns

abbrev pub is_ours : RouteParent → String → Gateway → Bool
is_ours p own gw = p.name == gw.name && or_namespace p.namespace own == gw.namespace

-- `routeConverged`, for a route of this namespace and generation.
unfoldable pub route_converged : List RouteParent → String → ℕ → Gateway → Bool
unfolding find_status_condition
route_converged [] own generation gw = false
route_converged (p ∷ ps) own generation gw =
    let rest = route_converged ps own generation gw in
    if is_ours p own gw
    then current_true (find_status_condition p.conditions "Accepted") generation
      && current_true (find_status_condition p.conditions "ResolvedRefs") generation
    else rest

-- An entry of the policy's status.ancestors.
pub record Ancestor : Type 0 where
  pub group : String
  pub kind : String
  pub name : String
  pub namespace : String
  pub conditions : List Condition

abbrev pub is_summary : Ancestor → Bool
is_summary a = a.group == "agentgateway.dev" && a.name == "StatusSummary"

abbrev is_gateway : Ancestor → Gateway → Bool
is_gateway a gw =
    a.group == "gateway.networking.k8s.io"
    && (a.kind == "Gateway" && (a.name == gw.name && a.namespace == gw.namespace))

-- The loop of `policyConverged`: no ancestor where a StatusSummary stands, else the last of the Gateway's.
pub data Ours : Type 0 where
  attached_to_nothing : Ours
  ours : Option Ancestor → Ours

unfoldable pub find_ours : List Ancestor → Gateway → Option Ancestor → Ours
find_ours [] gw found = ours found
find_ours (a ∷ others) gw found =
    let rest = find_ours others gw (if is_gateway a gw then some a else found) in
    if is_summary a then attached_to_nothing else rest

abbrev pub has_reason : Option Condition → String → Bool
has_reason none reason = false
has_reason (some c) reason = c.reason == reason

abbrev pub ancestor_converged : Ours → ℕ → Bool
ancestor_converged attached_to_nothing generation = false
ancestor_converged (ours none) generation = false
ancestor_converged (ours (some a)) generation =
    let accepted = find_status_condition a.conditions "Accepted" in
    (current_true accepted generation && has_reason accepted "Valid")
    && current_true (find_status_condition a.conditions "Attached") generation

-- `policyConverged`
unfoldable pub policy_converged : List Ancestor → ℕ → Gateway → Bool
unfolding find_ours find_status_condition
policy_converged others generation gw = ancestor_converged (find_ours others gw none) generation

abbrev any_summary : List Ancestor → Bool
any_summary [] = false
any_summary (a ∷ others) = is_summary a || any_summary others

find_ours-summary :
    (others : List Ancestor) (gw : Gateway) (found : Option Ancestor)
    → any_summary others ≡ true
    → find_ours others gw found ≡ attached_to_nothing
unfolding find_ours
find_ours-summary [] gw found h = absurd (ground arith)
find_ours-summary (a ∷ others) gw found h = elim (Bool-cases (is_summary a)) [
  | inl e ↦ rw e refl
  | inr e ↦ rw e (find_ours-summary others gw _ (ground (arith, h, e)))
]

-- A policy with a StatusSummary ancestor has not converged, whatever its other ancestors report.
pub policy_converged-summary :
    (others : List Ancestor) (generation : ℕ) (gw : Gateway)
    → any_summary others ≡ true
    → policy_converged others generation gw ≡ false
unfolding policy_converged
policy_converged-summary others generation gw h = rw (find_ours-summary others gw none h) refl
