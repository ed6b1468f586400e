-- ===== src/RunNamespace/Ensuring.antt =====
-- Checks 5 to 14 of `ensureRunNamespace` keep the log, from a record that the log holds.
use assayd.Base.{
  ◌≡◌, refl, true, not, ◌&&◌, inl, inr, Option, none, some, List, [], ◌∷◌, String, ◌==◌, arith,
  eq_refl, Bool-cases,
}
use assayd.RunNamespace.{
  Binding, BindingState, binding_creating, bound, terminating, deleting, Namespace, Answer, found,
  missing, unreadable, RunEffect, created_namespace, deleted_binding, mirrored, labelled_namespace,
  delete_run_namespace, writing, waits,
}
use assayd.RunNamespace.Labels.{Reconciled, reconcile_run_namespace_labels, wanted_labels}
use assayd.RunNamespace.Handler.{HandlerReads, run_namespace_handler}
use assayd.RunNamespace.Ensure.{
  EnsureInput, EnsureReads, discard_unbound, source_moved, create_and_bind, while_creating,
  while_bound, keep_current, label_writes, torn_down, rotated_record, rotate, renonced,
}
use assayd.RunNamespace.Log.{
  stored_in, made, same_owner, may_make, may_fill, IsKeeping, IsKeeping-append, branch-IsKeeping,
  followed_by-IsKeeping, replay, IsKeeping-end,
}
use assayd.RunNamespace.Keeping.{
  IsHeld, IsHeld-named, passes_stored, quiet-IsHeld, swap-IsKept, terminating-IsKept,
  discard-IsKept, delete-IsKeeping, run_namespace_handler-IsKeeping,
}

pub torn_down-IsKeeping :
    (r : String) (b : Binding) (h : List RunEffect) (reads : HandlerReads)
    → IsHeld r b b.state h
    → IsKeeping r h (torn_down b reads).effects
torn_down-IsKeeping r b h reads k =
    let kept = run_namespace_handler-IsKeeping r b h none reads k in
    followed_by-IsKeeping r h (run_namespace_handler b none reads) waits kept
      (IsKeeping-end r h _ kept)

-- A namespace under the nonce that a record at Creating has.
nonce_delete-IsKeeping :
    (inp : EnsureInput) (b : Binding) (h : List RunEffect) (ns : Namespace)
    → IsHeld inp.run_name b binding_creating h
    → (ns.nonce == b.nonce) ≡ true
    → IsKeeping inp.run_name h (delete_run_namespace inp.run_name ns).effects
      × IsHeld inp.run_name b binding_creating
          (replay h (delete_run_namespace inp.run_name ns).effects)
unfolding made
nonce_delete-IsKeeping inp b h ns k q =
    let named = (IsHeld-named inp.run_name b binding_creating h k).0 in
    delete-IsKeeping inp.run_name b binding_creating h inp.run_name ns k
      (λ e. ground (arith, e, q, named))

pub by_own_state :
    (r : String) (b : Binding) (s : BindingState) (h : List RunEffect)
    → IsHeld r b s h
    → IsHeld r b b.state h
by_own_state r b s h k = record { kept = k.kept; stored = k.stored; in_state = refl }

same_owner_refl : (b : Binding) → same_owner b b ≡ true
same_owner_refl b =
    ground
      (arith, eq_refl b.source_namespace, eq_refl b.source_namespace_uid, eq_refl b.run_namespace)

discard_unbound-IsKeeping :
    (inp : EnsureInput) (b : Binding) (h : List RunEffect) (answer : Answer Namespace)
    → IsHeld inp.run_name b binding_creating h
    → IsKeeping inp.run_name h (discard_unbound inp b answer).effects
unfolding discard_unbound
discard_unbound-IsKeeping inp b h unreadable k = k.kept
discard_unbound-IsKeeping inp b h missing k =
    (k.kept, discard-IsKept inp.run_name b binding_creating h k refl)
discard_unbound-IsKeeping inp b h (found ns) k =
    branch-IsKeeping inp.run_name h (ns.nonce == b.nonce) _ _
      (λ e.
        let (deletes, held) = nonce_delete-IsKeeping inp b h ns k e in
        followed_by-IsKeeping inp.run_name h (delete_run_namespace inp.run_name ns)
          (writing (deleted_binding ∷ []) waits) deletes
          (held.kept, discard-IsKept inp.run_name b binding_creating _ held refl))
      (λ e. (k.kept, discard-IsKept inp.run_name b binding_creating h k refl))

pub source_moved-IsKeeping :
    (inp : EnsureInput) (reads : EnsureReads) (b : Binding) (s : BindingState) (h : List RunEffect)
    → IsHeld inp.run_name b s h
    → IsKeeping inp.run_name h (source_moved inp reads b s).effects
unfolding source_moved
source_moved-IsKeeping inp reads b binding_creating h k =
    discard_unbound-IsKeeping inp b h reads.current k
source_moved-IsKeeping inp reads b bound h k =
    let held = terminating-IsKept inp.run_name b h k in
    (
      k.kept,
      torn_down-IsKeeping inp.run_name (record b { state = terminating }) _ reads.handling held,
    )
source_moved-IsKeeping inp reads b terminating h k =
    torn_down-IsKeeping inp.run_name b h reads.handling (by_own_state inp.run_name b _ h k)
source_moved-IsKeeping inp reads b deleting h k =
    torn_down-IsKeeping inp.run_name b h reads.handling (by_own_state inp.run_name b _ h k)

create_and_bind-IsKeeping :
    (inp : EnsureInput) (reads : EnsureReads) (b : Binding) (install_uid : Option String)
    (h : List RunEffect)
    → IsHeld inp.run_name b binding_creating h
    → IsKeeping inp.run_name h (create_and_bind inp reads b install_uid).effects
unfolding create_and_bind made stored_in
create_and_bind-IsKeeping inp reads b none h k = k.kept
create_and_bind-IsKeeping inp reads b (some install_uid) h k =
    let named = (IsHeld-named inp.run_name b binding_creating h k).0 in
    let may =
      passes_stored inp.run_name b binding_creating h (λ o. may_make o inp.run_name b.nonce) k
        (ground (arith, named, eq_refl b.nonce)) in
    let created =
      quiet-IsHeld inp.run_name b binding_creating
        (created_namespace inp.run_name b.nonce reads.created_uid) h k may refl in
    let fills = passes_stored inp.run_name b binding_creating _ may_fill created refl in
    let filled = quiet-IsHeld inp.run_name b binding_creating mirrored _ created fills refl in
    let nonce = eq_refl b.nonce in
    let uid = eq_refl reads.created_uid in
    let was_made : (b.nonce == b.nonce && reads.created_uid == reads.created_uid) ≡ true =
      ground (arith, nonce, uid) in
    let held =
      swap-IsKept inp.run_name b (record b { run_namespace_uid = reads.created_uid; state = bound })
        binding_creating _ filled (same_owner_refl b) (ground (arith, nonce, was_made))
        (ground (arith, was_made)) in
    (k.kept, (created.kept, (filled.kept, held.kept)))

rotate-IsKeeping :
    (r : String) (b : Binding) (nonce : Option String) (h : List RunEffect)
    → IsHeld r b bound h
    → IsKeeping r h (rotate b nonce).effects
unfolding made
rotate-IsKeeping r b none h k = k.kept
rotate-IsKeeping r b (some nonce) h k = (
  k.kept,
  (swap-IsKept r b (rotated_record b nonce) bound h k (same_owner_refl b) refl refl).kept,
)

renonced-IsKeeping :
    (r : String) (b : Binding) (nonce : Option String) (h : List RunEffect)
    → IsHeld r b binding_creating h
    → IsKeeping r h (renonced b nonce).effects
unfolding made
renonced-IsKeeping r b none h k = k.kept
renonced-IsKeeping r b (some nonce) h k =
    let empty = (IsHeld-named r b binding_creating h k).1 in
    (
      k.kept,
      (swap-IsKept r b (record b { nonce = nonce; state = binding_creating }) binding_creating h k
          (same_owner_refl b) empty empty).kept,
    )

pub while_creating-IsKeeping :
    (inp : EnsureInput) (reads : EnsureReads) (b : Binding) (answer : Answer Namespace)
    (h : List RunEffect)
    → IsHeld inp.run_name b binding_creating h
    → IsKeeping inp.run_name h (while_creating inp reads b answer).effects
unfolding while_creating
while_creating-IsKeeping inp reads b unreadable h k = k.kept
while_creating-IsKeeping inp reads b missing h k =
    create_and_bind-IsKeeping inp reads b reads.install_uid h k
while_creating-IsKeeping inp reads b (found ns) h k =
    branch-IsKeeping inp.run_name h ns.is_deleting _ _ (λ e. k.kept)
      (λ e.
        branch-IsKeeping inp.run_name h (ns.nonce == b.nonce) _ _
          (λ e.
            let (deletes, held) = nonce_delete-IsKeeping inp b h ns k e in
            followed_by-IsKeeping inp.run_name h (delete_run_namespace inp.run_name ns)
              (renonced b reads.rotated_nonce) deletes
              (renonced-IsKeeping inp.run_name b reads.rotated_nonce _ held))
          (λ e. k.kept))

mirrored-IsKeeping :
    (r : String) (b : Binding) (h : List RunEffect)
    → IsHeld r b bound h
    → IsKeeping r h (mirrored ∷ [])
unfolding stored_in made
mirrored-IsKeeping r b h k =
    let fills = passes_stored r b bound h may_fill k refl in
    (k.kept, (quiet-IsHeld r b bound mirrored h k fills refl).kept)

label_writes-IsHeld :
    (r : String) (b : Binding) (w : Reconciled) (h : List RunEffect)
    → IsHeld r b bound h
    → IsKeeping r h (label_writes w) × IsHeld r b bound (replay h (label_writes w))
unfolding stored_in made
label_writes-IsHeld r b w h k =
    let fills = passes_stored r b bound h may_fill k refl in
    let held = quiet-IsHeld r b bound (labelled_namespace w.labels) h k fills refl in
    elim (Bool-cases w.changed) [
      | inl e ↦ simp e ((k.kept, held.kept), held)
      | inr e ↦ simp e (k.kept, k)
    ]

keep_current-IsKeeping :
    (inp : EnsureInput) (reads : EnsureReads) (source ns : Namespace) (b : Binding)
    (install_uid : Option String) (h : List RunEffect)
    → IsHeld inp.run_name b bound h
    → IsKeeping inp.run_name h (keep_current inp reads source ns install_uid).effects
unfolding keep_current stored_in
keep_current-IsKeeping inp reads source ns b none h k = k.kept
keep_current-IsKeeping inp reads source ns b (some install_uid) h k =
    let r =
      reconcile_run_namespace_labels ns.labels
        (wanted_labels inp.namespace source.labels install_uid) in
    let (writes, held) = label_writes-IsHeld inp.run_name b r h k in
    IsKeeping-append inp.run_name h (label_writes r) (mirrored ∷ []) writes
      (mirrored-IsKeeping inp.run_name b _ held)

pub while_bound-IsKeeping :
    (inp : EnsureInput) (reads : EnsureReads) (source : Namespace) (b : Binding)
    (answer : Answer Namespace) (h : List RunEffect)
    → IsHeld inp.run_name b bound h
    → IsKeeping inp.run_name h (while_bound inp reads source b answer).effects
unfolding while_bound
while_bound-IsKeeping inp reads source b unreadable h k = k.kept
while_bound-IsKeeping inp reads source b missing h k =
    rotate-IsKeeping inp.run_name b reads.rotated_nonce h k
while_bound-IsKeeping inp reads source b (found ns) h k =
    let held = terminating-IsKept inp.run_name b h k in
    branch-IsKeeping inp.run_name h ns.is_deleting _ _
      (λ e. (
        k.kept,
        torn_down-IsKeeping inp.run_name (record b { state = terminating }) _ reads.handling held,
      ))
      (λ e.
        branch-IsKeeping inp.run_name h (not (ns.uid == b.run_namespace_uid)) _ _ (λ d. k.kept)
          (λ d. keep_current-IsKeeping inp reads source ns b reads.install_uid h k))
