-- ===== src/Conditions.antt =====
-- internal/controller/conditions.go: what a pass asserts, merged into the stored conditions.
--
-- `asserted` is a map in the source: here a list with one entry for a type, in any order. `equalStatus` and `carry` are
-- not modelled.
pub mod Lookup
pub mod Merge
use assayd.Base.{
  ℕ, Bool, true, false, not, ◌&&◌, ◌||◌, Option, none, some, List, [], ◌∷◌, String, ◌==◌,
  if◌then◌else◌, map,
}
use assayd.Base.Sort.{sort_by}

-- metav1.ConditionStatus
pub data ConditionStatus : Type 0 where
  cond_true cond_false cond_unknown : ConditionStatus

-- metav1.Condition
pub record Condition : Type 0 where
  pub type : String
  pub status : ConditionStatus
  pub reason : String
  pub message : String
  pub observed_generation : ℕ
  pub last_transition_time : ℕ

-- conditionSet
pub record ConditionSet : Type 0 where
  pub generation : ℕ
  pub asserted : List Condition

-- `newConditionSet`
abbrev pub new_condition_set : ℕ → ConditionSet
new_condition_set generation = record { generation = generation; asserted = [] }

-- A read of the map.
unfoldable pub find : List Condition → String → Option Condition
find [] t = none
find (c ∷ cs) t = if c.type == t then some c else find cs t

-- `delete` on the map.
unfoldable pub delete : List Condition → String → List Condition
delete [] t = []
delete (c ∷ cs) t = let rest = delete cs t in if c.type == t then rest else c ∷ rest

-- `set`
unfoldable pub set : ConditionSet → String → ConditionStatus → String → String → ConditionSet
unfolding delete
set c t status reason message =
    let asserted : Condition = record {
      type = t;
      status = status;
      reason = reason;
      message = message;
      observed_generation = c.generation;
      last_transition_time = 0;
    } in
    record c { asserted = asserted ∷ delete c.asserted t }

-- `unset`
unfoldable pub unset : ConditionSet → String → ConditionSet
unfolding delete
unset c t = record c { asserted = delete c.asserted t }

abbrev elem : String → List String → Bool
elem x [] = false
elem x (y ∷ ys) = x == y || elem x ys

-- ownedTypes
abbrev pub owned_types : List String
owned_types =
    "Ready" ∷ "Progressing" ∷ "GatesSkipped" ∷ "GatesPassed" ∷ "SandboxDowngraded"
    ∷ "TaskStateUnverified" ∷ "Degraded" ∷ "EnvSourceProtectionUnavailable" ∷ "EnvSourceUnresolved"
    ∷ "RevisionHashCollision" ∷ "RunNamespaceUnavailable" ∷ "RevisionMaterialUnavailable"
    ∷ "GovernanceSkipped" ∷ "PolicyCompileFailed" ∷ "PolicyApplyIncomplete"
    ∷ "ImageSignatureUnverified" ∷ "GatesBypassed" ∷ "ActiveRevisionPassUnrecorded" ∷ []

-- stickyTypes
abbrev pub sticky_types : List String
sticky_types = "Ready" ∷ "Progressing" ∷ "GatesPassed" ∷ "GovernanceSkipped" ∷ []

unfoldable pub is_owned : String → Bool
is_owned t = elem t owned_types

unfoldable pub is_sticky : String → Bool
is_sticky t = elem t sticky_types

abbrev pub same_status : ConditionStatus → ConditionStatus → Bool
same_status cond_true cond_true = true
same_status cond_false cond_false = true
same_status cond_unknown cond_unknown = true
same_status _ _ = false

-- The transition time stays while the status does.
abbrev pub stamp : ℕ → Condition → Condition → Condition
stamp now prev next = record next {
  last_transition_time =
      if same_status prev.status next.status then prev.last_transition_time else now;
}

abbrev pub stamp_new : ℕ → Condition → Condition
stamp_new now c = record c { last_transition_time = now }

-- `sortedConditions`, which sorts the types that `sortStrings` orders and reads each.
unfoldable pub sorted_conditions : List Condition → List Condition
sorted_conditions m = sort_by (λ (c : Condition). c.type) m

-- `merge`: the loop over the existing conditions, then what is newly asserted.
unfoldable pub merge_with : ℕ → List Condition → List Condition → List Condition
unfolding find delete sorted_conditions
merge_with now asserted [] = map (stamp_new now) (sorted_conditions asserted)
merge_with now asserted (prev ∷ existing) = elim (find asserted prev.type) [
  | some next ↦ stamp now prev next ∷ merge_with now (delete asserted prev.type) existing
  | none ↦
      let rest = merge_with now asserted existing in
      if is_sticky prev.type then prev ∷ rest else if is_owned prev.type then rest else prev ∷ rest
]

-- `merge`
abbrev pub merge : ConditionSet → ℕ → List Condition → List Condition
merge c now existing = merge_with now c.asserted existing
