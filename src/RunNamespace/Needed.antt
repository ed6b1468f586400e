-- ===== src/RunNamespace/Needed.antt =====
-- internal/controller/runnamespace.go: `runNamespaceStillNeeded`, whether a run namespace has an Agent or
-- an Agent's material left.
use assayd.Base.{
  Bool, true, false, not, ◌&&◌, ◌||◌, Option, none, some, List, [], ◌∷◌, String, ◌==◌,
  if◌then◌else◌,
}
use assayd.RunNamespace.{Binding, Namespace, Answer, found, missing, unreadable}

-- What is read of an Agent of the source namespace.
pub record ListedAgent : Type 0 where
  pub uid : String
  pub is_external : Bool
  pub is_deleting : Bool

-- The live reads, each list none where it fails; of a workload or a copy, its Agent UID label.
pub record NeededReads : Type 0 where
  pub source : Answer Namespace
  pub agents : Option (List ListedAgent)
  pub deployments : Option (List String)
  pub config_maps : Option (List String)
  pub secrets : Option (List String)

-- The Agent's own UID, where the finalizer of an Agent asks.
abbrev pub is_self : Option String → String → Bool
is_self none uid = false
is_self (some self) uid = uid == self

abbrev pub counts : Option String → ListedAgent → Bool
counts self a = not (is_self self a.uid) && not a.is_external

abbrev pub extended : String → Option (List String) → Option (List String)
extended uid none = none
extended uid (some uids) = some (uid ∷ uids)

-- The UIDs of the Agents that count, where all are being deleted; none where one is live.
unfoldable pub known_agents : Option String → List ListedAgent → Option (List String)
known_agents self [] = some []
known_agents self (a ∷ items) =
    let rest = known_agents self items in
    if counts self a then (if a.is_deleting then extended a.uid rest else none) else rest

abbrev pub is_known : List String → String → Bool
is_known [] uid = false
is_known (k ∷ known) uid = k == uid || is_known known uid

abbrev pub any_known : List String → List String → Bool
any_known known [] = false
any_known known (label ∷ labels) = is_known known label || any_known known labels

-- One list looked through, and the next one where nothing was found.
abbrev pub found_here : List String → Option (List String) → Option Bool → Option Bool
found_here known none next = none
found_here known (some labels) next = if any_known known labels then some true else next

abbrev pub left_over : NeededReads → List String → Option Bool
left_over reads [] = some false
left_over reads (uid ∷ uids) =
    found_here (uid ∷ uids) reads.deployments (
      found_here (uid ∷ uids) reads.config_maps
        (found_here (uid ∷ uids) reads.secrets (some false)))

abbrev pub needed_by : NeededReads → Option (List String) → Option Bool
needed_by reads none = some true
needed_by reads (some known) = left_over reads known

abbrev pub needed_among : Option String → NeededReads → Option (List ListedAgent) → Option Bool
unfolding known_agents
needed_among self reads none = none
needed_among self reads (some agents) = needed_by reads (known_agents self agents)

abbrev pub needed_under : Binding → Option String → NeededReads → Answer Namespace → Option Bool
unfolding known_agents
needed_under b self reads unreadable = none
needed_under b self reads missing = some false
needed_under b self reads (found source) =
    if source.uid == b.source_namespace_uid
    then needed_among self reads reads.agents
    else some false

-- `runNamespaceStillNeeded`; none where a read fails
unfoldable pub run_namespace_still_needed : Binding → Option String → NeededReads → Option Bool
unfolding known_agents
run_namespace_still_needed b self reads = needed_under b self reads reads.source

-- A live Agent that counts.
abbrev pub lives : Option String → ListedAgent → Bool
lives self a = counts self a && not a.is_deleting
