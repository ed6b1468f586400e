-- ===== src/RunNamespace/Ensure.antt =====
-- internal/controller/runnamespace.go: `ensureRunNamespace`, its fourteen checks in their order.
use assayd.Base.{
  Bool, true, false, not, Option, none, some, List, [], ◌∷◌, String, ◌==◌, if◌then◌else◌,
}
use assayd.RunNamespace.{
  Binding, BindingState, binding_creating, bound, terminating, Namespace, Answer, found, missing,
  unreadable, not_created_by_operator, name_collision, binding_record_invalid,
  label_authority_absent, RunEffect, created_binding, swapped_binding, deleted_binding,
  created_namespace, labelled_namespace, mirrored, RunPass, serves, errs, ended, writing,
  followed_by, waits, refuses, delete_run_namespace,
}
use assayd.RunNamespace.Labels.{Reconciled, wanted_labels, reconcile_run_namespace_labels}
use assayd.RunNamespace.Handler.{
  HandlerReads, run_namespace_handler, RecordAnswer, record_unreadable, record_invalid,
  record_absent, recorded,
}

-- What is read of an admission policy, or of its binding.
pub data Presence : Type 0 where
  present absent unknown : Presence

pub record PolicyPresence : Type 0 where
  pub policy : Presence
  pub binding : Presence

abbrev pub all_present : Presence → Option Bool → Option Bool
all_present present rest = rest
all_present absent rest = some false
all_present unknown rest = none

-- `LabelAuthorityPresent`, over what is read of each policy; none where a read fails
unfoldable pub label_authority_present : List PolicyPresence → Option Bool
label_authority_present [] = some true
label_authority_present (p ∷ ps) =
    all_present p.policy (all_present p.binding (label_authority_present ps))

-- The Agent's namespace and the name of its run namespace; `is_wired` says that the reconciler has an
-- operator namespace and a label authority.
pub record EnsureInput : Type 0 where
  pub namespace : String
  pub run_name : String
  pub is_wired : Bool

pub record EnsureReads : Type 0 where
  pub authority : List PolicyPresence
  pub source : Answer Namespace
  -- the run namespace, where no record is there
  pub unbound : Answer Namespace
  pub nonce : Option String
  -- the run namespace, where a record is there
  pub current : Answer Namespace
  pub rotated_nonce : Option String
  pub install_uid : Option String
  pub created_uid : String
  pub handling : HandlerReads

-- The handler on a record whose namespace is torn down, and a wait for it.
abbrev pub torn_down : Binding → HandlerReads → RunPass
torn_down b reads = followed_by (run_namespace_handler b none reads) waits

-- Check 5, of a record that was never bound.
unfoldable pub discard_unbound : EnsureInput → Binding → Answer Namespace → RunPass
unfolding delete_run_namespace
discard_unbound inp b unreadable = ended errs
discard_unbound inp b missing = writing (deleted_binding ∷ []) waits
discard_unbound inp b (found ns) =
    if ns.nonce == b.nonce
    then followed_by (delete_run_namespace inp.run_name ns) (writing (deleted_binding ∷ []) waits)
    else writing (deleted_binding ∷ []) waits

-- Check 5: the source namespace was deleted and recreated.
unfoldable pub source_moved : EnsureInput → EnsureReads → Binding → BindingState → RunPass
unfolding discard_unbound run_namespace_handler
source_moved inp reads b binding_creating = discard_unbound inp b reads.current
source_moved inp reads b bound =
    writing (swapped_binding (record b { state = terminating }) ∷ [])
      (torn_down (record b { state = terminating }) reads.handling)
source_moved inp reads b _ = torn_down b reads.handling

-- Check 7: the namespace is created, and bound from what the create returned.
unfoldable pub create_and_bind : EnsureInput → EnsureReads → Binding → Option String → RunPass
create_and_bind inp reads b none = ended errs
create_and_bind inp reads b (some install_uid) =
    writing
      (created_namespace inp.run_name b.nonce reads.created_uid
        ∷ mirrored
        ∷ swapped_binding (record b { run_namespace_uid = reads.created_uid; state = bound })
        ∷ [])
      (ended (serves inp.run_name))

-- The record back at Creating, under a new nonce.
abbrev pub rotated_record : Binding → String → Binding
rotated_record b nonce = record b {
  nonce = nonce;
  run_namespace_uid = "";
  state = binding_creating;
}

abbrev pub rotate : Binding → Option String → RunPass
rotate b none = ended errs
rotate b (some nonce) = writing (swapped_binding (rotated_record b nonce) ∷ []) waits

-- Check 9 ends so, where the record has no UID to forget.
abbrev pub renonced : Binding → Option String → RunPass
renonced b none = ended errs
renonced b (some nonce) =
    writing (swapped_binding (record b { nonce = nonce; state = binding_creating }) ∷ []) waits

-- Checks 7 to 10, of a record at Creating.
unfoldable pub while_creating : EnsureInput → EnsureReads → Binding → Answer Namespace → RunPass
unfolding create_and_bind delete_run_namespace
while_creating inp reads b unreadable = ended errs
while_creating inp reads b missing = create_and_bind inp reads b reads.install_uid
while_creating inp reads b (found ns) =
    if ns.is_deleting
    then waits
    else if ns.nonce == b.nonce
    then followed_by (delete_run_namespace inp.run_name ns) (renonced b reads.rotated_nonce)
    else refuses not_created_by_operator

abbrev pub label_writes : Reconciled → List RunEffect
label_writes r = if r.changed then labelled_namespace r.labels ∷ [] else []

-- Check 14: the namespace is the operator's.
unfoldable pub keep_current :
    EnsureInput → EnsureReads → Namespace → Namespace → Option String → RunPass
unfolding reconcile_run_namespace_labels wanted_labels
keep_current inp reads source ns none = ended errs
keep_current inp reads source ns (some install_uid) =
    writing
      (label_writes (
        reconcile_run_namespace_labels ns.labels
          (wanted_labels inp.namespace source.labels install_uid)))
      (writing (mirrored ∷ []) (ended (serves inp.run_name)))

-- Checks 11 to 14, of a record at Bound.
unfoldable pub while_bound :
    EnsureInput → EnsureReads → Namespace → Binding → Answer Namespace → RunPass
unfolding keep_current run_namespace_handler
while_bound inp reads source b unreadable = ended errs
while_bound inp reads source b missing = rotate b reads.rotated_nonce
while_bound inp reads source b (found ns) =
    if ns.is_deleting
    then writing (swapped_binding (record b { state = terminating }) ∷ [])
        (torn_down (record b { state = terminating }) reads.handling)
    else if not (ns.uid == b.run_namespace_uid)
    then refuses not_created_by_operator
    else keep_current inp reads source ns reads.install_uid

-- Checks 6 to 14.
unfoldable pub by_state : EnsureInput → EnsureReads → Namespace → Binding → BindingState → RunPass
unfolding while_creating while_bound run_namespace_handler
by_state inp reads source b binding_creating = while_creating inp reads b reads.current
by_state inp reads source b bound = while_bound inp reads source b reads.current
by_state inp reads source b _ = torn_down b reads.handling

-- Checks 4 to 14.
unfoldable pub check_record : EnsureInput → EnsureReads → Namespace → Binding → RunPass
unfolding source_moved by_state
check_record inp reads source b =
    if not (b.source_namespace == inp.namespace)
    then refuses name_collision
    else if not (b.source_namespace_uid == source.uid)
    then source_moved inp reads b b.state
    else by_state inp reads source b b.state

abbrev pub new_binding : EnsureInput → Namespace → String → Binding
new_binding inp source nonce = record {
  source_namespace = inp.namespace;
  source_namespace_uid = source.uid;
  run_namespace = inp.run_name;
  run_namespace_uid = "";
  nonce = nonce;
  state = binding_creating;
}

-- Check 3.
unfoldable pub create_record : EnsureInput → EnsureReads → Namespace → Option String → RunPass
unfolding check_record
create_record inp reads source none = ended errs
create_record inp reads source (some nonce) =
    writing (created_binding (new_binding inp source nonce) ∷ [])
      (check_record inp reads source (new_binding inp source nonce))

-- Checks 1 to 3, where there is no record.
unfoldable pub without_record : EnsureInput → EnsureReads → Namespace → Answer Namespace → RunPass
unfolding create_record
without_record inp reads source unreadable = ended errs
without_record inp reads source missing = create_record inp reads source reads.nonce
without_record inp reads source (found ns) =
    if ns.is_deleting then waits else refuses not_created_by_operator

unfoldable pub with_source : EnsureInput → EnsureReads → RecordAnswer → Answer Namespace → RunPass
unfolding check_record without_record
with_source inp reads answer unreadable = ended errs
with_source inp reads answer missing = ended errs
with_source inp reads record_unreadable (found source) = ended errs
with_source inp reads record_invalid (found source) = refuses binding_record_invalid
with_source inp reads record_absent (found source) = without_record inp reads source reads.unbound
with_source inp reads (recorded b) (found source) = check_record inp reads source b

unfoldable pub with_authority : EnsureInput → EnsureReads → RecordAnswer → Option Bool → RunPass
unfolding with_source
with_authority inp reads answer none = ended errs
with_authority inp reads answer (some false) = refuses label_authority_absent
with_authority inp reads answer (some true) = with_source inp reads answer reads.source

-- `ensureRunNamespace`, with what reading the record answers
unfoldable pub ensure_run_namespace : EnsureInput → EnsureReads → RecordAnswer → RunPass
unfolding with_authority label_authority_present
ensure_run_namespace inp reads answer =
    if inp.is_wired
    then with_authority inp reads answer (label_authority_present reads.authority)
    else ended errs
