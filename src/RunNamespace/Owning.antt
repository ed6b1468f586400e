-- ===== src/RunNamespace/Owning.antt =====
-- The checks of `ensureRunNamespace` that answer a run namespace, and those that do not.
use assayd.Base.{
  ◌≡◌, refl, sym, subst, Bool, true, false, not, ◌&&◌, inl, inr, Option, none, some, List, [], ◌∷◌,
  ◌++◌, String, ◌==◌, arith, if◌then◌else◌, Bool-cases, ◌∙◌, ap,
}
use assayd.RunNamespace.{
  Binding, BindingState, binding_creating, bound, terminating, deleting, Namespace, Answer, found,
  missing, unreadable, RunEffect, RunPass, RunSteps, RunEnd, serves, deleted_binding, mirrored,
  delete_run_namespace, waits, writing, followed_by,
}
use assayd.RunNamespace.Labels.{Reconciled, reconcile_run_namespace_labels, wanted_labels}
use assayd.RunNamespace.Handler.{run_namespace_handler, HandlerReads}
use assayd.RunNamespace.Ensure.{
  EnsureInput, EnsureReads, discard_unbound, source_moved, create_and_bind, while_creating,
  while_bound, keep_current, label_writes, rotate, renonced, torn_down,
}
use assayd.RunNamespace.Log.{stored_in, replay}

abbrev pub is_serving : RunEnd → Bool
is_serving (serves name) = true
is_serving _ = false

abbrev pub is_bound : BindingState → Bool
is_bound bound = true
is_bound _ = false

abbrev pub is_source : Binding → Answer Namespace → Bool
is_source b (found source) = b.source_namespace_uid == source.uid
is_source b _ = false

-- The namespace that was read has the record's UID, or there was none and the pass made one.
abbrev pub is_current : Binding → Answer Namespace → Bool
is_current b (found ns) = not ns.is_deleting && ns.uid == b.run_namespace_uid
is_current b missing = true
is_current b unreadable = false

-- The record is bound for this Agent's namespace.
abbrev pub is_own : EnsureInput → EnsureReads → Option Binding → Bool
is_own inp reads none = false
is_own inp reads (some b) =
    is_bound b.state
    && b.source_namespace == inp.namespace
    && (is_source b reads.source && is_current b reads.current)

-- A pass that answers a run namespace answers its own.
pub record Owns (inp : EnsureInput) (reads : EnsureReads) (h : List RunEffect) (p : RunPass)
    : Type 0 where
  pub owned :
      (name : String)
      → p.end ≡ serves name
      → (name ≡ inp.run_name) × (is_own inp reads (stored_in (replay h p.effects)) ≡ true)

pub branch-Owns :
    (inp : EnsureInput) (reads : EnsureReads) (h : List RunEffect) (c : Bool) (x y : RunPass)
    → (c ≡ true → Owns inp reads h x)
    → (c ≡ false → Owns inp reads h y)
    → Owns inp reads h (if c then x else y)
branch-Owns inp reads h true x y f g = f refl
branch-Owns inp reads h false x y f g = g refl

-- A pass that ends otherwise.
pub else-Owns :
    (inp : EnsureInput) (reads : EnsureReads) (h : List RunEffect) (p : RunPass)
    → is_serving p.end ≡ false
    → Owns inp reads h p
else-Owns inp reads h p q = record { owned = λ name e. absurd (ground (arith, q, ap is_serving e)) }

followed_by-waits :
    (s : RunSteps) (p : RunPass)
    → is_serving p.end ≡ false
    → is_serving (followed_by s p).end ≡ false
followed_by-waits s p q = elim (Bool-cases s.is_ok) [
  | inl e ↦ simp (e, q) refl
  | inr e ↦ simp e refl
]

abbrev served_name : String → RunEnd → String
served_name d (serves name) = name
served_name d _ = d

same_name : (a b : String) → serves a ≡ serves b → b ≡ a
same_name a b e = sym (ap (served_name a) e)

create_and_bind-Owns :
    (inp : EnsureInput) (reads : EnsureReads) (source : Namespace) (b : Binding)
    (install_uid : Option String) (h : List RunEffect)
    → reads.source ≡ found source
    → reads.current ≡ missing
    → (b.source_namespace == inp.namespace) ≡ true
    → (b.source_namespace_uid == source.uid) ≡ true
    → Owns inp reads h (create_and_bind inp reads b install_uid)
unfolding create_and_bind stored_in
create_and_bind-Owns inp reads source b none h q c n u = else-Owns inp reads h _ refl
create_and_bind-Owns inp reads source b (some install_uid) h q c n u = record {
  owned = λ name e. (same_name inp.run_name name e, rw (q, c) (ground (arith, n, u)));
}

discarded-Owns :
    (inp : EnsureInput) (reads : EnsureReads) (b : Binding) (answer : Answer Namespace)
    (h : List RunEffect)
    → Owns inp reads h (discard_unbound inp b answer)
unfolding discard_unbound
discarded-Owns inp reads b unreadable h = else-Owns inp reads h _ refl
discarded-Owns inp reads b missing h = else-Owns inp reads h _ refl
discarded-Owns inp reads b (found ns) h =
    branch-Owns inp reads h (ns.nonce == b.nonce) _ _
      (λ e. else-Owns inp reads h _ (
        followed_by-waits (delete_run_namespace inp.run_name ns)
          (writing (deleted_binding ∷ []) waits) refl))
      (λ e. else-Owns inp reads h _ refl)

pub torn_down-waits :
    (b : Binding) (reads : HandlerReads) → is_serving (torn_down b reads).end ≡ false
torn_down-waits b reads = followed_by-waits (run_namespace_handler b none reads) waits refl

pub source_moved-Owns :
    (inp : EnsureInput) (reads : EnsureReads) (b : Binding) (s : BindingState) (h : List RunEffect)
    → Owns inp reads h (source_moved inp reads b s)
unfolding source_moved
source_moved-Owns inp reads b binding_creating h = discarded-Owns inp reads b reads.current h
source_moved-Owns inp reads b bound h =
    else-Owns inp reads h _ (torn_down-waits (record b { state = terminating }) reads.handling)
source_moved-Owns inp reads b terminating h =
    else-Owns inp reads h _ (torn_down-waits b reads.handling)
source_moved-Owns inp reads b deleting h =
    else-Owns inp reads h _ (torn_down-waits b reads.handling)

renonced-waits : (b : Binding) (nonce : Option String) → is_serving (renonced b nonce).end ≡ false
renonced-waits b none = refl
renonced-waits b (some nonce) = refl

rotate-waits : (b : Binding) (nonce : Option String) → is_serving (rotate b nonce).end ≡ false
rotate-waits b none = refl
rotate-waits b (some nonce) = refl

pub while_creating-Owns :
    (inp : EnsureInput) (reads : EnsureReads) (source : Namespace) (b : Binding)
    (answer : Answer Namespace) (h : List RunEffect)
    → reads.source ≡ found source
    → reads.current ≡ answer
    → (b.source_namespace == inp.namespace) ≡ true
    → (b.source_namespace_uid == source.uid) ≡ true
    → Owns inp reads h (while_creating inp reads b answer)
unfolding while_creating
while_creating-Owns inp reads source b unreadable h q c n u = else-Owns inp reads h _ refl
while_creating-Owns inp reads source b missing h q c n u =
    create_and_bind-Owns inp reads source b reads.install_uid h q c n u
while_creating-Owns inp reads source b (found ns) h q c n u =
    branch-Owns inp reads h ns.is_deleting _ _ (λ e. else-Owns inp reads h _ refl)
      (λ e.
        branch-Owns inp reads h (ns.nonce == b.nonce) _ _
          (λ d. else-Owns inp reads h _ (
            followed_by-waits (delete_run_namespace inp.run_name ns)
              (renonced b reads.rotated_nonce) (renonced-waits b reads.rotated_nonce)))
          (λ d. else-Owns inp reads h _ refl))

-- Labels and mirrors leave the record alone.
stored_in-kept :
    (w : Reconciled) (h : List RunEffect)
    → stored_in (replay h (label_writes w ++ mirrored ∷ [])) ≡ stored_in h
unfolding stored_in
stored_in-kept w h = elim (Bool-cases w.changed) [ inl e ↦ simp e refl | inr e ↦ simp e refl ]

keep_current-Owns :
    (inp : EnsureInput) (reads : EnsureReads) (source ns : Namespace) (b : Binding)
    (install_uid : Option String) (h : List RunEffect)
    → stored_in h ≡ some b
    → is_own inp reads (some b) ≡ true
    → Owns inp reads h (keep_current inp reads source ns install_uid)
unfolding keep_current
keep_current-Owns inp reads source ns b none h k o = else-Owns inp reads h _ refl
keep_current-Owns inp reads source ns b (some install_uid) h k o =
    let w =
      reconcile_run_namespace_labels ns.labels
        (wanted_labels inp.namespace source.labels install_uid) in
    record {
      owned = λ name e. (
        same_name inp.run_name name e,
        subst (λ x. is_own inp reads x ≡ true) (sym (stored_in-kept w h ∙ k)) o,
      );
    }

pub while_bound-Owns :
    (inp : EnsureInput) (reads : EnsureReads) (source : Namespace) (b : Binding)
    (answer : Answer Namespace) (h : List RunEffect)
    → reads.source ≡ found source
    → reads.current ≡ answer
    → stored_in h ≡ some b
    → b.state ≡ bound
    → (b.source_namespace == inp.namespace) ≡ true
    → (b.source_namespace_uid == source.uid) ≡ true
    → Owns inp reads h (while_bound inp reads source b answer)
unfolding while_bound
while_bound-Owns inp reads source b unreadable h q c k s n u = else-Owns inp reads h _ refl
while_bound-Owns inp reads source b missing h q c k s n u =
    else-Owns inp reads h _ (rotate-waits b reads.rotated_nonce)
while_bound-Owns inp reads source b (found ns) h q c k s n u =
    branch-Owns inp reads h ns.is_deleting _ _
      (λ e.
        else-Owns inp reads h _ (torn_down-waits (record b { state = terminating }) reads.handling))
      (λ e.
        branch-Owns inp reads h (not (ns.uid == b.run_namespace_uid)) _ _
          (λ d. else-Owns inp reads h _ refl)
          (λ d. keep_current-Owns inp reads source ns b reads.install_uid h k (
            let in_state = subst (λ x. is_bound x ≡ true) (sym s) refl in
            let from = subst (λ x. is_source b x ≡ true) (sym q) u in
            let now = subst (λ x. is_current b x ≡ true) (sym c) (ground (arith, e, d)) in
            ground (arith, in_state, n, from, now))))
