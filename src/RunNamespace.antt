-- ===== src/RunNamespace.antt =====
-- internal/controller/runnamespace.go: the run namespace of a source namespace, which holds the material
-- and the workloads of its Agents, and the binding record that says who made it.
--
-- What a pass reads is an argument, each read with its own. A pass returns the writes it makes in their
-- order, and a write that fails ends it there. `sha256` in hex, the nonce, the installation's identity
-- and the UID that a create returns are read too.
pub mod Naming
pub mod Labels
pub mod Mirrored
pub mod Record
pub mod Needed
pub mod Remaining
pub mod Handler
pub mod Ensure
pub mod Log
pub mod Keeping
pub mod Ensuring
pub mod Safety
pub mod Owning
pub mod Serving
use assayd.Base.{
  Bool, true, false, Option, none, some, List, [], ◌∷◌, ◌++◌, String, ◌==◌, if◌then◌else◌,
  starts_with,
}

abbrev pub run_namespace_prefix : String
run_namespace_prefix = "assayd-run-"

pub data BindingState : Type 0 where
  binding_creating bound terminating deleting : BindingState

pub record Binding : Type 0 where
  pub source_namespace : String
  pub source_namespace_uid : String
  pub run_namespace : String
  pub run_namespace_uid : String
  pub nonce : String
  pub state : BindingState

-- A label or an annotation, by its key.
pub record Entry : Type 0 where
  pub key : String
  pub value : String

-- What is read of a Namespace; the nonce is its annotation, "" where it has none.
pub record Namespace : Type 0 where
  pub uid : String
  pub nonce : String
  pub is_deleting : Bool
  pub labels : List Entry

-- What a Get answers.
pub data Answer {ℓ} (A : Type ℓ) : Type ℓ where
  found : A → Answer A
  missing unreadable : Answer A

pub data RunReason : Type 0 where
  not_created_by_operator name_collision being_torn_down binding_record_invalid
        label_authority_absent :
      RunReason

-- `runNamespaceError`, without its message.
pub record RunNamespaceError : Type 0 where
  pub reason : RunReason
  pub terminal : Bool

pub data RunEffect : Type 0 where
  created_binding swapped_binding : Binding → RunEffect
  deleted_binding : RunEffect
  -- its name, its nonce, and the UID that the API server returned
  created_namespace : String → String → String → RunEffect
  labelled_namespace : List Entry → RunEffect
  mirrored : RunEffect
  -- its name, with the UID read as the precondition
  deleted_namespace : String → Namespace → RunEffect

pub data RunEnd : Type 0 where
  serves : String → RunEnd
  refused : RunNamespaceError → RunEnd
  errs : RunEnd

pub record RunPass : Type 0 where
  pub effects : List RunEffect
  pub end : RunEnd

-- The writes of a step that returns an error or nil.
pub record RunSteps : Type 0 where
  pub effects : List RunEffect
  pub is_ok : Bool

abbrev pub ended : RunEnd → RunPass
ended e = record { effects = []; end = e }

abbrev pub writing : List RunEffect → RunPass → RunPass
writing es p = record { effects = es ++ p.effects; end = p.end }

abbrev pub steps : List RunEffect → RunSteps
steps es = record { effects = es; is_ok = true }

abbrev pub step_error : RunSteps
step_error = record { effects = []; is_ok = false }

abbrev pub preceded : List RunEffect → RunSteps → RunSteps
preceded es s = record { effects = es ++ s.effects; is_ok = s.is_ok }

-- `if err := step; err != nil { return "", err }`, and what follows
abbrev pub followed_by : RunSteps → RunPass → RunPass
followed_by s p =
    if s.is_ok then writing s.effects p else record { effects = s.effects; end = errs }

abbrev pub waits : RunPass
waits = ended (refused (record { reason = being_torn_down; terminal = false }))

-- A refusal that a human must act on.
abbrev pub refuses : RunReason → RunPass
refuses reason = ended (refused (record { reason = reason; terminal = true }))

-- `deleteRunNamespace`
unfoldable pub delete_run_namespace : String → Namespace → RunSteps
delete_run_namespace name ns =
    if starts_with name run_namespace_prefix
    then steps (deleted_namespace name ns ∷ [])
    else step_error
