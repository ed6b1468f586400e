-- ===== src/Auth/Nack.antt =====
-- internal/controller/authnack.go: the gateway's NACK of an -auth policy, which a transaction reads before
-- it takes an answer.
--
-- A time is a count, with 0 for Go's zero time. An Event comes with the policies that its message names,
-- and with the group of its object's apiVersion, none where that does not parse. The list is the pages
-- that were read.
pub mod Taken
use assayd.Base.{
  ℕ, Bool, true, false, not, ◌&&◌, ◌||◌, Option, none, some, List, [], ◌∷◌, String, ◌==◌, ltb,
  if◌then◌else◌, nat_eq,
}

pub record Event : Type 0 where
  pub type : String
  pub reason : String
  pub namespace : String
  pub object_group : Option String
  pub object_kind : String
  pub object_name : String
  pub object_namespace : String
  pub source_component : String
  pub reporting_controller : String
  pub first_seen : ℕ
  pub last_seen : ℕ
  pub event_time : ℕ
  pub series_seen : Option ℕ
  pub names : List String

pub record Gateway : Type 0 where
  pub name : String
  pub namespace : String

abbrev pub nack_reason : String
nack_reason = "AgentGatewayNackError"

-- AgentgatewayControllerName
abbrev pub agentgateway_controller : String
agentgateway_controller = "agentgateway.dev/agentgateway"

abbrev is_group : Option String → Bool
is_group none = false
is_group (some group) = group == "gateway.networking.k8s.io"

-- `GenuineNack`
unfoldable pub genuine_nack : Event → Gateway → Bool
genuine_nack ev gw =
    if not (ev.type == "Warning")
      || (not (ev.reason == nack_reason) || not (ev.namespace == gw.namespace))
    then false
    else if not (is_group ev.object_group)
        || (not (ev.object_kind == "Gateway")
            || (not (ev.object_name == gw.name) || not (ev.object_namespace == gw.namespace)))
    then false
    else ev.source_component == agentgateway_controller
      && ev.reporting_controller == agentgateway_controller

abbrev later : ℕ → ℕ → ℕ
later at t = if ltb at t then t else at

abbrev later_series : ℕ → Option ℕ → ℕ
later_series at none = at
later_series at (some t) = later at t

-- `eventLastSeen`
unfoldable pub event_last_seen : Event → ℕ
event_last_seen ev =
    later_series (later (later ev.first_seen ev.last_seen) ev.event_time) ev.series_seen

-- A managed field of the policy: its subresource, and its time.
pub record ManagedField : Type 0 where
  pub subresource : String
  pub time : Option ℕ

abbrev later_field : ManagedField → ℕ → ℕ
later_field field at = if not (field.subresource == "") then at else later_series at field.time

-- The loop of `policyWrittenAt`.
unfoldable pub last_write : List ManagedField → ℕ → ℕ
last_write [] at = at
last_write (field ∷ fields) at = last_write fields (later_field field at)

-- `policyWrittenAt`
unfoldable pub policy_written_at : List ManagedField → ℕ → ℕ
unfolding last_write
policy_written_at fields created =
    if nat_eq (last_write fields 0) 0 then created else last_write fields 0

abbrev pub names_policy : String → List String → Bool
names_policy key [] = false
names_policy key (n ∷ ns) = n == key || names_policy key ns

-- What the loop of `freshNack` has found, with when it was seen.
pub record Found : Type 0 where
  pub event : Event
  pub at : ℕ

abbrev pub at_of : Option Found → ℕ
at_of none = 0
at_of (some f) = f.at

abbrev pub takes : Gateway → ℕ → String → Option Found → Event → Bool
unfolding genuine_nack event_last_seen
takes gw written key found ev =
    genuine_nack ev gw
    && (ltb written (event_last_seen ev)
        && (ltb (at_of found) (event_last_seen ev) && names_policy key ev.names))

abbrev pub found_in : Event → Option Found
unfolding event_last_seen
found_in ev = some (record { event = ev; at = event_last_seen ev })

-- The loop of `freshNack`, over the Events that were read.
unfoldable pub find_nack : Gateway → ℕ → String → Option Found → List Event → Option Found
unfolding genuine_nack event_last_seen
find_nack gw written key found [] = found
find_nack gw written key found (ev ∷ evs) =
    find_nack gw written key (if takes gw written key found ev then found_in ev else found) evs

-- `freshNack`, of the policy of this key.
unfoldable pub fresh_nack : Gateway → List ManagedField → ℕ → String → List Event → Option Found
unfolding policy_written_at find_nack
fresh_nack gw fields created key evs =
    if gw.namespace == ""
    then none
    else find_nack gw (policy_written_at fields created) key none evs
