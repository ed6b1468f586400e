-- ===== src/RunNamespace/Serving.antt =====
-- The run namespace that `ensureRunNamespace` answers is the operator's own.
use assayd.Base.{
  ◌≡◌, refl, Bool, true, false, not, Option, none, some, List, [], ◌∷◌, String, ◌==◌, arith,
}
use assayd.RunNamespace.{
  Binding, BindingState, binding_creating, bound, terminating, deleting, Namespace, Answer, found,
  missing, unreadable, RunEffect, RunPass, serves, created_binding, writing,
}
use assayd.RunNamespace.Ensure.{
  EnsureInput, EnsureReads, ensure_run_namespace, by_state, check_record, create_record,
  without_record, with_source, with_authority, label_authority_present, new_binding,
}
use assayd.RunNamespace.Log.{stored_in, replay, read_record, IsKept, is_borne_out, IsKeeping-end}
use assayd.RunNamespace.Safety.{ensure_run_namespace-IsKeeping}
use assayd.RunNamespace.Owning.{
  Owns, is_own, branch-Owns, else-Owns, torn_down-waits, source_moved-Owns, while_creating-Owns,
  while_bound-Owns,
}

by_state-Owns :
    (inp : EnsureInput) (reads : EnsureReads) (source : Namespace) (b : Binding) (s : BindingState)
    (h : List RunEffect)
    → reads.source ≡ found source
    → stored_in h ≡ some b
    → b.state ≡ s
    → (b.source_namespace == inp.namespace) ≡ true
    → (b.source_namespace_uid == source.uid) ≡ true
    → Owns inp reads h (by_state inp reads source b s)
unfolding by_state
by_state-Owns inp reads source b binding_creating h q k s n u =
    while_creating-Owns inp reads source b reads.current h q refl n u
by_state-Owns inp reads source b bound h q k s n u =
    while_bound-Owns inp reads source b reads.current h q refl k s n u
by_state-Owns inp reads source b terminating h q k s n u =
    else-Owns inp reads h _ (torn_down-waits b reads.handling)
by_state-Owns inp reads source b deleting h q k s n u =
    else-Owns inp reads h _ (torn_down-waits b reads.handling)

check_record-Owns :
    (inp : EnsureInput) (reads : EnsureReads) (source : Namespace) (b : Binding)
    (h : List RunEffect)
    → reads.source ≡ found source
    → stored_in h ≡ some b
    → Owns inp reads h (check_record inp reads source b)
unfolding check_record
check_record-Owns inp reads source b h q k =
    branch-Owns inp reads h (not (b.source_namespace == inp.namespace)) _ _
      (λ e. else-Owns inp reads h _ refl)
      (λ e.
        branch-Owns inp reads h (not (b.source_namespace_uid == source.uid)) _ _
          (λ d. source_moved-Owns inp reads b b.state h)
          (λ d.
            by_state-Owns inp reads source b b.state h q k refl (ground (arith, e))
              (ground (arith, d))))

-- A pass after a write is the pass from what the write leaves.
after_write-Owns :
    (inp : EnsureInput) (reads : EnsureReads) (e : RunEffect) (h : List RunEffect) (p : RunPass)
    → Owns inp reads (e ∷ h) p
    → Owns inp reads h (writing (e ∷ []) p)
after_write-Owns inp reads e h p o = record { owned = o.owned }

create_record-Owns :
    (inp : EnsureInput) (reads : EnsureReads) (source : Namespace) (nonce : Option String)
    (h : List RunEffect)
    → reads.source ≡ found source
    → Owns inp reads h (create_record inp reads source nonce)
unfolding create_record stored_in
create_record-Owns inp reads source none h q = else-Owns inp reads h _ refl
create_record-Owns inp reads source (some nonce) h q =
    let b = new_binding inp source nonce in
    after_write-Owns inp reads (created_binding b) h (check_record inp reads source b)
      (check_record-Owns inp reads source b _ q refl)

without_record-Owns :
    (inp : EnsureInput) (reads : EnsureReads) (source : Namespace) (answer : Answer Namespace)
    (h : List RunEffect)
    → reads.source ≡ found source
    → Owns inp reads h (without_record inp reads source answer)
unfolding without_record
without_record-Owns inp reads source unreadable h q = else-Owns inp reads h _ refl
without_record-Owns inp reads source missing h q =
    create_record-Owns inp reads source reads.nonce h q
without_record-Owns inp reads source (found ns) h q =
    branch-Owns inp reads h ns.is_deleting _ _ (λ e. else-Owns inp reads h _ refl)
      (λ e. else-Owns inp reads h _ refl)

with_source-Owns :
    (inp : EnsureInput) (reads : EnsureReads) (o : Option Binding) (answer : Answer Namespace)
    (h : List RunEffect)
    → reads.source ≡ answer
    → stored_in h ≡ o
    → Owns inp reads h (with_source inp reads (read_record o) answer)
unfolding with_source
with_source-Owns inp reads o unreadable h q k = else-Owns inp reads h _ refl
with_source-Owns inp reads o missing h q k = else-Owns inp reads h _ refl
with_source-Owns inp reads none (found source) h q k =
    without_record-Owns inp reads source reads.unbound h q
with_source-Owns inp reads (some b) (found source) h q k =
    check_record-Owns inp reads source b h q k

with_authority-Owns :
    (inp : EnsureInput) (reads : EnsureReads) (o : Option Binding) (authority : Option Bool)
    (h : List RunEffect)
    → stored_in h ≡ o
    → Owns inp reads h (with_authority inp reads (read_record o) authority)
unfolding with_authority
with_authority-Owns inp reads o none h k = else-Owns inp reads h _ refl
with_authority-Owns inp reads o (some false) h k = else-Owns inp reads h _ refl
with_authority-Owns inp reads o (some true) h k = with_source-Owns inp reads o reads.source h refl k

ensure_run_namespace-Owns :
    (inp : EnsureInput) (reads : EnsureReads) (h : List RunEffect)
    → Owns inp reads h (ensure_run_namespace inp reads (read_record (stored_in h)))
unfolding ensure_run_namespace
ensure_run_namespace-Owns inp reads h =
    branch-Owns inp reads h inp.is_wired _ _
      (λ e.
        with_authority-Owns inp reads (stored_in h) (label_authority_present reads.authority) h
          refl)
      (λ e. else-Owns inp reads h _ refl)

-- A pass from a log that is kept, all of whose writes are made, and that answers a run namespace, answers
-- the Agent's own: the record it leaves is Bound for the Agent's namespace under the UID that this has,
-- the namespace that was read is not being deleted and has the record's UID or was absent, and the
-- operator created a namespace with that UID under the record's nonce.
pub ensure_run_namespace-serves :
    (inp : EnsureInput) (reads : EnsureReads) (h : List RunEffect) (name : String)
    → IsKept inp.run_name h
    → (ensure_run_namespace inp reads (read_record (stored_in h))).end ≡ serves name
    → let after = replay h (ensure_run_namespace inp reads (read_record (stored_in h))).effects in
      (name ≡ inp.run_name)
      × (is_own inp reads (stored_in after) ≡ true)
      × (is_borne_out inp.run_name (stored_in after) after ≡ true)
ensure_run_namespace-serves inp reads h name k e =
    let (same, own) = (ensure_run_namespace-Owns inp reads h).owned name e in
    let kept = IsKeeping-end inp.run_name h _ (ensure_run_namespace-IsKeeping inp reads h k) in
    (same, own, kept.borne_out)
