-- ===== src/Status.antt =====
-- The Agent's status and the EvalSuite, as api/v1alpha1/agent_types.go and evalsuite_types.go declare
-- them: the fields that the gate, the pin rule and the eval controller read or write.
--
-- A Go pointer is an `Option`; a string enum whose values the CRD closes is a data type with a
-- constructor for the empty value; a `metav1.Time` is a count of nanoseconds.
use assayd.Base.{ℕ, Bool, String, Option, List}

-- EvalVerdict; `unset` is the empty string.
pub data Verdict : Type 0 where
  unset running passed failed : Verdict

-- EvalCaseOutcome; `no_outcome` is the empty string.
pub data Outcome : Type 0 where
  no_outcome sending case_passed case_failed : Outcome

pub record EvalPair : Type 0 where
  pub revision_digest : String
  pub suite_digest : String

pub record EvalCaseRecord : Type 0 where
  pub id : String
  pub outcome : Outcome
  pub reason : String
  pub claim : String

pub record EvalBlocked : Type 0 where
  pub reason : String
  pub message : String

pub record EvalBlockedFor : Type 0 where
  pub revision_digest : String
  pub suite_digest : String
  pub lock_deadline : Option ℕ

-- The score, "passed/total", is kept as its two numbers.
pub record EvalStatus : Type 0 where
  pub score : Option (ℕ × ℕ)
  pub suite : String
  pub revision : String
  pub revision_digest : String
  pub at : Option ℕ
  pub suite_digest : String
  pub endpoint_path : String
  pub card_digest : String
  pub blocked : Option EvalBlocked
  pub blocked_for : Option EvalBlockedFor
  pub verdict : Verdict
  pub cases : List EvalCaseRecord
  pub failed : List EvalPair
  pub passed : List EvalPair

-- status.auth.transaction.kind. `narrow` and `loosen` are admitted by the CRD and written by no code.
pub data TxKind : Type 0 where
  no_kind create lock narrow loosen adopt : TxKind

-- status.auth.transaction.stage, as authtxn.go names the stages; `other` is any other text.
pub data Stage : Type 0 where
  refused probing_before preparing_route applying_policies converging probing_after publishing :
      Stage
  other : String → Stage

pub record AuthTransaction : Type 0 where
  pub kind : TxKind
  pub target_mode : String
  pub target_digest : String
  pub stage : Stage
  pub deadline : Option ℕ
  pub written : Bool
  pub before_observed : Bool
  pub before_revision : String
  pub refused_mode : String
  pub probe_before : Option ℕ
  pub probe_after : Option ℕ

-- AuthVerification
pub record Verification : Type 0 where
  pub replicas_probed : ℕ
  pub replicas_declared : Option ℕ

pub record AuthStatus : Type 0 where
  pub mode : String
  pub key_source : String
  pub admitted_groups : List String
  pub applied_digest : String
  pub verified : Option Verification
  pub route_refused : Bool
  pub policy_unattached : Bool
  pub key_source_empty : Bool
  pub transaction : Option AuthTransaction

pub record CardStatus : Type 0 where
  pub revision : String
  pub revision_digest : String
  pub digest : String
  pub fetched_at : Option ℕ

pub record AgentStatus : Type 0 where
  pub active_revision : String
  pub active_revision_digest : String
  pub candidate_revision : String
  pub candidate_revision_digest : String
  pub cards : List CardStatus
  pub auth : Option AuthStatus
  pub eval : Option EvalStatus
  pub observed_generation : ℕ

pub record EvalExpect : Type 0 where
  pub contains : String
  pub equals : String

pub record EvalCase : Type 0 where
  pub id : String
  pub message : String
  pub expect : EvalExpect

pub record EvalMetric : Type 0 where
  pub name : String
  pub threshold : String

pub record EvalSuiteSpec : Type 0 where
  pub cases : List EvalCase
  pub metrics : List EvalMetric
  pub case_timeout_seconds : ℕ

pub record EvalSuite : Type 0 where
  pub name : String
  pub spec : EvalSuiteSpec
