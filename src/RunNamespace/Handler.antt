-- ===== src/RunNamespace/Handler.antt =====
-- internal/controller/runnamespace.go: `runNamespaceHandler`, which tears a run namespace down, and
-- `releaseRunNamespaceIfLast`, the finalizer's last step.
use assayd.Base.{Bool, true, false, not, Option, none, some, [], ◌∷◌, String, ◌==◌, if◌then◌else◌}
use assayd.RunNamespace.{
  Binding, BindingState, bound, terminating, deleting, Namespace, Answer, found, missing,
  unreadable, RunSteps, steps, step_error, preceded, deleted_binding, swapped_binding,
  delete_run_namespace,
}
use assayd.RunNamespace.Needed.{NeededReads, run_namespace_still_needed}

pub record HandlerReads : Type 0 where
  pub namespace : Answer Namespace
  pub needed : NeededReads

-- Steps 3 to 5: what follows in each state, with whether the namespace is still needed.
unfoldable pub tear_down : Binding → Namespace → Option Bool → BindingState → RunSteps
unfolding delete_run_namespace
tear_down b ns needed deleting = delete_run_namespace b.run_namespace ns
tear_down b ns none terminating = step_error
tear_down b ns (some true) terminating = steps (swapped_binding (record b { state = bound }) ∷ [])
tear_down b ns (some false) terminating =
    preceded (swapped_binding (record b { state = deleting }) ∷ [])
      (delete_run_namespace b.run_namespace ns)
tear_down b ns needed _ = steps []

-- Steps 1 and 2.
unfoldable pub handle : Binding → Option String → HandlerReads → Answer Namespace → RunSteps
unfolding tear_down
handle b self reads unreadable = step_error
handle b self reads missing = steps (deleted_binding ∷ [])
handle b self reads (found ns) =
    if not (ns.uid == b.run_namespace_uid)
    then steps (deleted_binding ∷ [])
    else if ns.is_deleting
    then steps []
    else tear_down b ns (run_namespace_still_needed b self reads.needed) b.state

abbrev pub handled_state : BindingState → Bool
handled_state terminating = true
handled_state deleting = true
handled_state _ = false

-- `runNamespaceHandler`; `self` is the UID of the Agent being deleted, where its finalizer calls
unfoldable pub run_namespace_handler : Binding → Option String → HandlerReads → RunSteps
unfolding handle
run_namespace_handler b self reads =
    if handled_state b.state then handle b self reads reads.namespace else steps []

-- What reading the binding record answers: `readBinding`.
pub data RecordAnswer : Type 0 where
  record_unreadable record_invalid record_absent : RecordAnswer
  recorded : Binding → RecordAnswer

-- `conflicted` says that the swap met one, and `reread` is what is read then.
pub record ReleaseReads : Type 0 where
  pub needed : NeededReads
  pub conflicted : Bool
  pub reread : RecordAnswer
  pub handling : HandlerReads

-- The handler on the record as it was read again.
unfoldable pub release_reread : String → HandlerReads → RecordAnswer → RunSteps
unfolding run_namespace_handler
release_reread self reads record_unreadable = step_error
release_reread self reads record_invalid = step_error
release_reread self reads record_absent = steps []
release_reread self reads (recorded b) = run_namespace_handler b (some self) reads

-- A Bound record, with whether its namespace is still needed.
unfoldable pub release_bound : Binding → String → ReleaseReads → Option Bool → RunSteps
unfolding run_namespace_handler release_reread
release_bound b self reads none = step_error
release_bound b self reads (some true) = steps []
release_bound b self reads (some false) =
    if reads.conflicted
    then release_reread self reads.handling reads.reread
    else preceded (swapped_binding (record b { state = terminating }) ∷ [])
        (run_namespace_handler (record b { state = terminating }) (some self) reads.handling)

unfoldable pub release_state : Binding → String → ReleaseReads → BindingState → RunSteps
unfolding run_namespace_handler release_bound run_namespace_still_needed
release_state b self reads bound =
    release_bound b self reads (run_namespace_still_needed b (some self) reads.needed)
release_state b self reads _ = run_namespace_handler b (some self) reads.handling

-- `releaseRunNamespaceIfLast` of the Agent with this UID in this namespace
unfoldable pub release_run_namespace_if_last :
    String → String → ReleaseReads → RecordAnswer → RunSteps
unfolding release_state
release_run_namespace_if_last namespace self reads record_unreadable = step_error
release_run_namespace_if_last namespace self reads record_invalid = steps []
release_run_namespace_if_last namespace self reads record_absent = steps []
release_run_namespace_if_last namespace self reads (recorded b) =
    if b.source_namespace == namespace then release_state b self reads b.state else steps []
