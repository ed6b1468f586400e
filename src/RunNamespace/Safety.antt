-- ===== src/RunNamespace/Safety.antt =====
-- Every pass and every finalizer keeps the log, from any log that is kept: the safety of
-- `ensureRunNamespace` and of `releaseRunNamespaceIfLast`.
use assayd.Base.{
  ◌≡◌, refl, sym, subst, Bool, true, false, not, Option, none, some, List, ◌∷◌, String, ◌==◌, arith,
  eq_refl,
}
use assayd.RunNamespace.{
  Binding, BindingState, binding_creating, bound, terminating, deleting, Namespace, Answer, found,
  missing, unreadable, RunEffect, created_binding,
}
use assayd.RunNamespace.Handler.{
  HandlerReads, ReleaseReads, release_run_namespace_if_last, release_state, release_bound,
  release_reread,
}
use assayd.RunNamespace.Needed.{run_namespace_still_needed}
use assayd.RunNamespace.Ensure.{
  EnsureInput, EnsureReads, ensure_run_namespace, by_state, check_record, create_record,
  without_record, with_source, with_authority, label_authority_present, new_binding,
}
use assayd.RunNamespace.Log.{
  stored_in, made, permitted, RunReach, run_start, ensured_once, released_once, IsKept, IsKeeping,
  IsKeeping-take, may_create, branch-IsKeeping, branch_steps-IsKeeping, read_record,
}
use assayd.RunNamespace.Keeping.{IsHeld, terminating-IsKept, run_namespace_handler-IsKeeping}
use assayd.RunNamespace.Ensuring.{
  torn_down-IsKeeping, by_own_state, source_moved-IsKeeping, while_creating-IsKeeping,
  while_bound-IsKeeping,
}

by_state-IsKeeping :
    (inp : EnsureInput) (reads : EnsureReads) (source : Namespace) (b : Binding) (s : BindingState)
    (h : List RunEffect)
    → IsHeld inp.run_name b s h
    → IsKeeping inp.run_name h (by_state inp reads source b s).effects
unfolding by_state
by_state-IsKeeping inp reads source b binding_creating h k =
    while_creating-IsKeeping inp reads b reads.current h k
by_state-IsKeeping inp reads source b bound h k =
    while_bound-IsKeeping inp reads source b reads.current h k
by_state-IsKeeping inp reads source b terminating h k =
    torn_down-IsKeeping inp.run_name b h reads.handling (by_own_state inp.run_name b _ h k)
by_state-IsKeeping inp reads source b deleting h k =
    torn_down-IsKeeping inp.run_name b h reads.handling (by_own_state inp.run_name b _ h k)

check_record-IsKeeping :
    (inp : EnsureInput) (reads : EnsureReads) (source : Namespace) (b : Binding)
    (h : List RunEffect)
    → IsHeld inp.run_name b b.state h
    → IsKeeping inp.run_name h (check_record inp reads source b).effects
unfolding check_record
check_record-IsKeeping inp reads source b h k =
    branch-IsKeeping inp.run_name h (not (b.source_namespace == inp.namespace)) _ _ (λ e. k.kept)
      (λ e.
        branch-IsKeeping inp.run_name h (not (b.source_namespace_uid == source.uid)) _ _
          (λ d. source_moved-IsKeeping inp reads b b.state h k)
          (λ d. by_state-IsKeeping inp reads source b b.state h k))

create_record-IsKeeping :
    (inp : EnsureInput) (reads : EnsureReads) (source : Namespace) (nonce : Option String)
    (h : List RunEffect)
    → IsKept inp.run_name h
    → stored_in h ≡ none
    → IsKeeping inp.run_name h (create_record inp reads source nonce).effects
unfolding create_record permitted stored_in made
create_record-IsKeeping inp reads source none h k q = k
create_record-IsKeeping inp reads source (some nonce) h k q =
    let b = new_binding inp source nonce in
    let may = subst (λ o. may_create o b ≡ true) (sym q) refl in
    let named = eq_refl inp.run_name in
    let held : IsHeld inp.run_name b binding_creating (created_binding b ∷ h) = record {
      kept = record { log = ground (arith, may, k.log); borne_out = ground (arith, named) };
      stored = refl;
      in_state = refl;
    } in
    (k, check_record-IsKeeping inp reads source b _ held)

without_record-IsKeeping :
    (inp : EnsureInput) (reads : EnsureReads) (source : Namespace) (answer : Answer Namespace)
    (h : List RunEffect)
    → IsKept inp.run_name h
    → stored_in h ≡ none
    → IsKeeping inp.run_name h (without_record inp reads source answer).effects
unfolding without_record
without_record-IsKeeping inp reads source unreadable h k q = k
without_record-IsKeeping inp reads source missing h k q =
    create_record-IsKeeping inp reads source reads.nonce h k q
without_record-IsKeeping inp reads source (found ns) h k q =
    branch-IsKeeping inp.run_name h ns.is_deleting _ _ (λ e. k) (λ e. k)

with_source-IsKeeping :
    (inp : EnsureInput) (reads : EnsureReads) (o : Option Binding) (answer : Answer Namespace)
    (h : List RunEffect)
    → IsKept inp.run_name h
    → stored_in h ≡ o
    → IsKeeping inp.run_name h (with_source inp reads (read_record o) answer).effects
unfolding with_source
with_source-IsKeeping inp reads o unreadable h k q = k
with_source-IsKeeping inp reads o missing h k q = k
with_source-IsKeeping inp reads none (found source) h k q =
    without_record-IsKeeping inp reads source reads.unbound h k q
with_source-IsKeeping inp reads (some b) (found source) h k q =
    check_record-IsKeeping inp reads source b h (record { kept = k; stored = q; in_state = refl })

with_authority-IsKeeping :
    (inp : EnsureInput) (reads : EnsureReads) (o : Option Binding) (authority : Option Bool)
    (h : List RunEffect)
    → IsKept inp.run_name h
    → stored_in h ≡ o
    → IsKeeping inp.run_name h (with_authority inp reads (read_record o) authority).effects
unfolding with_authority
with_authority-IsKeeping inp reads o none h k q = k
with_authority-IsKeeping inp reads o (some false) h k q = k
with_authority-IsKeeping inp reads o (some true) h k q =
    with_source-IsKeeping inp reads o reads.source h k q

pub ensure_run_namespace-IsKeeping :
    (inp : EnsureInput) (reads : EnsureReads) (h : List RunEffect)
    → IsKept inp.run_name h
    → IsKeeping inp.run_name h (ensure_run_namespace inp reads (read_record (stored_in h))).effects
unfolding ensure_run_namespace
ensure_run_namespace-IsKeeping inp reads h k =
    branch-IsKeeping inp.run_name h inp.is_wired _ _
      (λ e.
        with_authority-IsKeeping inp reads (stored_in h) (label_authority_present reads.authority) h
          k refl)
      (λ e. k)

release_reread-IsKeeping :
    (r : String) (self : String) (reads : HandlerReads) (o : Option Binding) (h : List RunEffect)
    → IsKept r h
    → stored_in h ≡ o
    → IsKeeping r h (release_reread self reads (read_record o)).effects
unfolding release_reread
release_reread-IsKeeping r self reads none h k q = k
release_reread-IsKeeping r self reads (some b) h k q =
    run_namespace_handler-IsKeeping r b h (some self) reads
      (record { kept = k; stored = q; in_state = refl })

release_bound-IsKeeping :
    (r : String) (b : Binding) (self : String) (reads : ReleaseReads) (needed : Option Bool)
    (h : List RunEffect)
    → IsHeld r b bound h
    → reads.reread ≡ read_record (stored_in h)
    → IsKeeping r h (release_bound b self reads needed).effects
unfolding release_bound
release_bound-IsKeeping r b self reads none h k q = k.kept
release_bound-IsKeeping r b self reads (some true) h k q = k.kept
release_bound-IsKeeping r b self reads (some false) h k q =
    branch_steps-IsKeeping r h reads.conflicted _ _
      (λ e.
        subst (λ x. IsKeeping r h (release_reread self reads.handling x).effects) (sym q)
          (release_reread-IsKeeping r self reads.handling (stored_in h) h k.kept refl))
      (λ e.
        let held = terminating-IsKept r b h k in
        (
          k.kept,
          run_namespace_handler-IsKeeping r (record b { state = terminating }) _ (some self)
              reads.handling held,
        ))

release_state-IsKeeping :
    (r : String) (b : Binding) (self : String) (reads : ReleaseReads) (s : BindingState)
    (h : List RunEffect)
    → IsHeld r b s h
    → reads.reread ≡ read_record (stored_in h)
    → IsKeeping r h (release_state b self reads s).effects
unfolding release_state
release_state-IsKeeping r b self reads bound h k q =
    release_bound-IsKeeping r b self reads (run_namespace_still_needed b (some self) reads.needed) h
      k q
release_state-IsKeeping r b self reads binding_creating h k q =
    run_namespace_handler-IsKeeping r b h (some self) reads.handling (by_own_state r b _ h k)
release_state-IsKeeping r b self reads terminating h k q =
    run_namespace_handler-IsKeeping r b h (some self) reads.handling (by_own_state r b _ h k)
release_state-IsKeeping r b self reads deleting h k q =
    run_namespace_handler-IsKeeping r b h (some self) reads.handling (by_own_state r b _ h k)

release-IsKeeping :
    (r namespace self : String) (reads : ReleaseReads) (o : Option Binding) (h : List RunEffect)
    → IsKept r h
    → stored_in h ≡ o
    → reads.reread ≡ read_record (stored_in h)
    → IsKeeping r h (release_run_namespace_if_last namespace self reads (read_record o)).effects
unfolding release_run_namespace_if_last
release-IsKeeping r namespace self reads none h k p q = k
release-IsKeeping r namespace self reads (some b) h k p q =
    branch_steps-IsKeeping r h (b.source_namespace == namespace) _ _
      (λ e.
        release_state-IsKeeping r b self reads b.state h
          (record { kept = k; stored = p; in_state = refl }) q)
      (λ e. k)

-- Whatever the passes and the finalizers of a run namespace read, and wherever they stop, each write is
-- permitted by those before it: a namespace is deleted only under a run namespace's name and for the
-- nonce of the record at Creating or for the UID of the record at Deleting, which a create under that
-- nonce returned; the record moves only along its states, and takes a UID only from such a create; and
-- what the record then says of its namespace is so.
pub RunReach-IsKept : (r : String) (h : List RunEffect) → RunReach r h → IsKept r h
unfolding stored_in permitted made
RunReach-IsKept r h run_start = record { log = refl; borne_out = refl }
RunReach-IsKept r h (ensured_once {h = g} reach n namespace reads) = IsKeeping-take n r g _ (
    ensure_run_namespace-IsKeeping (record { namespace = namespace; run_name = r; is_wired = true })
      reads g (RunReach-IsKept r g reach))
RunReach-IsKept r h (released_once {h = g} reach n namespace self reads) = IsKeeping-take n r g _ (
    release-IsKeeping r namespace self (record reads { reread = read_record (stored_in g) })
      (stored_in g) g (RunReach-IsKept r g reach) refl refl)
