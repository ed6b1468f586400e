-- ===== src/RunNamespace/Keeping.antt =====
-- The handler and the finalizer keep the log: each of their writes is permitted, and what the record says
-- stays borne out.
use assayd.Base.{
  ◌≡◌, refl, sym, subst, ◌∙◌, Bool, true, false, not, ◌&&◌, inl, inr, Option, none, some, List, ◌∷◌,
  String, ◌==◌, arith, Bool-cases, eq_iff, eq_refl, starts_with,
}
use assayd.RunNamespace.{
  run_namespace_prefix, Binding, BindingState, binding_creating, bound, terminating, deleting,
  Namespace, Answer, found, missing, unreadable, RunEffect, created_binding, created_namespace,
  labelled_namespace, swapped_binding, deleted_binding, deleted_namespace, mirrored,
  delete_run_namespace,
}
use assayd.RunNamespace.Needed.{run_namespace_still_needed}
use assayd.RunNamespace.Handler.{
  HandlerReads, handled_state, tear_down, handle, run_namespace_handler,
}
use assayd.RunNamespace.Log.{
  stored_in, made, permitted, same_owner, is_transition, holds_uid, is_borne_out, may_swap,
  may_delete, may_discard, same_namespace, IsKept, IsKeeping, replay, is_permitted,
  branch_steps-IsKeeping,
}

-- A record that the log holds in this state.
pub record IsHeld (r : String) (b : Binding) (s : BindingState) (h : List RunEffect) : Type 0 where
  pub kept : IsKept r h
  pub stored : stored_in h ≡ some b
  pub in_state : b.state ≡ s

pub IsHeld-named :
    (r : String) (b : Binding) (s : BindingState) (h : List RunEffect)
    → IsHeld r b s h
    → ((b.run_namespace == r) ≡ true) × (holds_uid s b h ≡ true)
unfolding made
IsHeld-named r b s h k =
    let out : is_borne_out r (some b) h ≡ true =
      subst (λ o. is_borne_out r o h ≡ true) k.stored k.kept.borne_out in
    let named = subst (λ t. (b.run_namespace == r && holds_uid t b h) ≡ true) k.in_state out in
    (ground arith, ground arith)

-- A test that the record passes in its state is passed by what is stored.
pub passes_stored :
    (r : String) (b : Binding) (s : BindingState) (h : List RunEffect) (f : Option Binding → Bool)
    → IsHeld r b s h
    → f (some (record b { state = s })) ≡ true
    → f (stored_in h) ≡ true
passes_stored r b s h f k m =
    let here = subst (λ x. f (some (record b { state = x })) ≡ true) (sym k.in_state) m in
    subst (λ x. f x ≡ true) (sym k.stored) here

-- What the log shows stays shown.
made-grows :
    (e : RunEffect) (h : List RunEffect) (nonce uid : String)
    → made nonce uid h ≡ true
    → made nonce uid (e ∷ h) ≡ true
unfolding made
made-grows (created_namespace name n u) h nonce uid m = ground (arith, m)
made-grows (created_binding b) h nonce uid m = m
made-grows (swapped_binding b) h nonce uid m = m
made-grows deleted_binding h nonce uid m = m
made-grows (labelled_namespace labels) h nonce uid m = m
made-grows mirrored h nonce uid m = m
made-grows (deleted_namespace name ns) h nonce uid m = m

holds_uid-grows :
    (s : BindingState) (b : Binding) (e : RunEffect) (h : List RunEffect)
    → holds_uid s b h ≡ true
    → holds_uid s b (e ∷ h) ≡ true
unfolding made
holds_uid-grows binding_creating b e h u = u
holds_uid-grows bound b e h u = made-grows e h b.nonce b.run_namespace_uid u
holds_uid-grows terminating b e h u = made-grows e h b.nonce b.run_namespace_uid u
holds_uid-grows deleting b e h u = made-grows e h b.nonce b.run_namespace_uid u

is_borne_out-grows :
    (r : String) (o : Option Binding) (e : RunEffect) (h : List RunEffect)
    → is_borne_out r o h ≡ true
    → is_borne_out r o (e ∷ h) ≡ true
unfolding made
is_borne_out-grows r none e h u = u
is_borne_out-grows r (some b) e h u =
    let grows = holds_uid-grows b.state b e h in ground (arith, u, grows)

-- A swap to another state of the same owner's record, or to another nonce.
pub swap-IsKept :
    (r : String) (a b : Binding) (s : BindingState) (h : List RunEffect)
    → IsHeld r a s h
    → same_owner a b ≡ true
    → is_transition s b.state a b h ≡ true
    → holds_uid b.state b h ≡ true
    → IsHeld r b b.state (swapped_binding b ∷ h)
unfolding permitted stored_in made
swap-IsKept r a b s h k o m u =
    let moves = subst (λ x. is_transition x b.state a b h ≡ true) (sym k.in_state) m in
    let swaps : may_swap (some a) b h ≡ true = ground (arith, o, moves) in
    let allowed = subst (λ x. may_swap x b h ≡ true) (sym k.stored) swaps in
    let kept_uid = holds_uid-grows b.state b (swapped_binding b) h u in
    let named = (IsHeld-named r a s h k).0 in
    let same : a.run_namespace ≡ b.run_namespace =
      ground (arith, o, eq_iff a.run_namespace b.run_namespace) in
    record {
      kept = record {
        log = ground (arith, allowed, k.kept.log);
        borne_out = ground (arith, kept_uid, subst (λ x. (x == r) ≡ true) same named);
      };
      stored = refl;
      in_state = refl;
    }

-- The same record in another state.
pub in_state-IsKept :
    (r : String) (b : Binding) (s t : BindingState) (h : List RunEffect)
    → IsHeld r b s h
    → is_transition s t b (record b { state = t }) h ≡ true
    → holds_uid t (record b { state = t }) h ≡ true
    → IsHeld r (record b { state = t }) t (swapped_binding (record b { state = t }) ∷ h)
in_state-IsKept r b s t h k =
    let owner = eq_refl b.source_namespace in
    let uid = eq_refl b.source_namespace_uid in
    let named = eq_refl b.run_namespace in
    swap-IsKept r b (record b { state = t }) s h k (ground (arith, owner, uid, named))

same_namespace_refl :
    (b : Binding) (t : BindingState) → same_namespace b (record b { state = t }) ≡ true
same_namespace_refl b t = ground (arith, eq_refl b.nonce, eq_refl b.run_namespace_uid)

pub terminating-IsKept :
    (r : String) (b : Binding) (h : List RunEffect)
    → IsHeld r b bound h
    → IsHeld r
        (record b { state = terminating })
        terminating
        (swapped_binding (record b { state = terminating }) ∷ h)
unfolding made
terminating-IsKept r b h k =
    in_state-IsKept r b bound terminating h k (same_namespace_refl b terminating)
      (IsHeld-named r b bound h k).1

-- The record of a namespace that is gone, or was never bound.
pub discard-IsKept :
    (r : String) (b : Binding) (s : BindingState) (h : List RunEffect)
    → IsHeld r b s h
    → may_discard (some (record b { state = s })) ≡ true
    → IsKept r (deleted_binding ∷ h)
unfolding permitted stored_in made
discard-IsKept r b s h k m =
    let allowed = passes_stored r b s h may_discard k m in
    record { log = ground (arith, allowed, k.kept.log); borne_out = refl }

-- A permitted write that leaves the record alone.
pub quiet-IsHeld :
    (r : String) (b : Binding) (s : BindingState) (e : RunEffect) (h : List RunEffect)
    → IsHeld r b s h
    → is_permitted e h ≡ true
    → stored_in (e ∷ h) ≡ stored_in h
    → IsHeld r b s (e ∷ h)
unfolding permitted made stored_in
quiet-IsHeld r b s e h k p q =
    let out : is_borne_out r (stored_in h) (e ∷ h) ≡ true =
      is_borne_out-grows r (stored_in h) e h k.kept.borne_out in
    record {
      kept = record {
        log = ground (arith, p, k.kept.log);
        borne_out = subst (λ x. is_borne_out r x (e ∷ h) ≡ true) (sym q) out;
      };
      stored = q ∙ k.stored;
      in_state = k.in_state;
    }

-- A namespace is deleted under the shape check, where its nonce or its UID permits it.
pub delete-IsKeeping :
    (r : String) (b : Binding) (s : BindingState) (h : List RunEffect) (name : String)
    (ns : Namespace)
    → IsHeld r b s h
    → (starts_with name run_namespace_prefix ≡ true
        → may_delete (some (record b { state = s })) name ns h ≡ true)
    → IsKeeping r h (delete_run_namespace name ns).effects
      × IsHeld r b s (replay h (delete_run_namespace name ns).effects)
unfolding permitted stored_in made delete_run_namespace
delete-IsKeeping r b s h name ns k m = elim (Bool-cases (starts_with name run_namespace_prefix)) [
  | inl e ↦
      let allowed = passes_stored r b s h (λ o. may_delete o name ns h) k (m e) in
      let held = quiet-IsHeld r b s (deleted_namespace name ns) h k allowed refl in
      rw e ((k.kept, held.kept), held)
  | inr e ↦ rw e (k.kept, k)
]

-- A namespace under the UID that a record at Deleting has.
own_delete-IsKeeping :
    (r : String) (b : Binding) (h : List RunEffect) (ns : Namespace)
    → IsHeld r b deleting h
    → (ns.uid == b.run_namespace_uid) ≡ true
    → IsKeeping r h (delete_run_namespace b.run_namespace ns).effects
unfolding made
own_delete-IsKeeping r b h ns k u =
    let same : ns.uid ≡ b.run_namespace_uid = (eq_iff ns.uid b.run_namespace_uid).0 u in
    let recorded_uid = (IsHeld-named r b deleting h k).1 in
    let was_made : made b.nonce ns.uid h ≡ true =
      subst (λ x. made b.nonce x h ≡ true) (sym same) recorded_uid in
    (delete-IsKeeping r b deleting h b.run_namespace ns k
      (λ e. ground (arith, e, u, was_made, eq_refl b.run_namespace))).0

handled-may_discard :
    (s : BindingState) (b : Binding)
    → handled_state s ≡ true
    → may_discard (some (record b { state = s })) ≡ true
handled-may_discard binding_creating b t = refl
handled-may_discard bound b t = absurd (ground (arith, t))
handled-may_discard terminating b t = refl
handled-may_discard deleting b t = refl

tear_down-IsKeeping :
    (r : String) (s : BindingState) (b : Binding) (h : List RunEffect) (ns : Namespace)
    (needed : Option Bool)
    → IsHeld r b s h
    → (ns.uid == b.run_namespace_uid) ≡ true
    → IsKeeping r h (tear_down b ns needed s).effects
unfolding tear_down made
tear_down-IsKeeping r binding_creating b h ns needed k u = k.kept
tear_down-IsKeeping r bound b h ns needed k u = k.kept
tear_down-IsKeeping r terminating b h ns none k u = k.kept
tear_down-IsKeeping r terminating b h ns (some true) k u =
    let back =
      in_state-IsKept r b terminating bound h k (same_namespace_refl b bound)
        (IsHeld-named r b terminating h k).1 in
    (k.kept, back.kept)
tear_down-IsKeeping r terminating b h ns (some false) k u =
    let gone =
      in_state-IsKept r b terminating deleting h k (same_namespace_refl b deleting)
        (IsHeld-named r b terminating h k).1 in
    (k.kept, own_delete-IsKeeping r (record b { state = deleting }) _ ns gone u)
tear_down-IsKeeping r deleting b h ns needed k u = own_delete-IsKeeping r b h ns k u

handle-IsKeeping :
    (r : String) (s : BindingState) (b : Binding) (h : List RunEffect) (self : Option String)
    (reads : HandlerReads) (answer : Answer Namespace)
    → IsHeld r b s h
    → handled_state s ≡ true
    → IsKeeping r h (handle b self reads answer).effects
unfolding handle
handle-IsKeeping r s b h self reads unreadable k t = k.kept
handle-IsKeeping r s b h self reads missing k t =
    (k.kept, discard-IsKept r b s h k (handled-may_discard s b t))
handle-IsKeeping r s b h self reads (found ns) k t =
    let torn = tear_down-IsKeeping r s b h ns (run_namespace_still_needed b self reads.needed) k in
    branch_steps-IsKeeping r h (not (ns.uid == b.run_namespace_uid)) _ _
      (λ e. (k.kept, discard-IsKept r b s h k (handled-may_discard s b t)))
      (λ e.
        branch_steps-IsKeeping r h ns.is_deleting _ _ (λ d. k.kept)
          (λ d.
            subst
              (λ x.
                IsKeeping r h
                  (tear_down b ns (run_namespace_still_needed b self reads.needed) x).effects)
              (sym k.in_state) (torn (ground (arith, e)))))

pub run_namespace_handler-IsKeeping :
    (r : String) (b : Binding) (h : List RunEffect) (self : Option String) (reads : HandlerReads)
    → IsHeld r b b.state h
    → IsKeeping r h (run_namespace_handler b self reads).effects
unfolding run_namespace_handler
run_namespace_handler-IsKeeping r b h self reads k =
    branch_steps-IsKeeping r h (handled_state b.state) _ _
      (λ e. handle-IsKeeping r b.state b h self reads reads.namespace k e) (λ e. k.kept)
