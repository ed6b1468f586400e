-- ===== src/RunNamespace/Log.antt =====
-- The writes of the passes over one run namespace, from the last one, and what each of them needs.
--
-- Namespaces come and go as anyone pleases: what the passes read of them is arbitrary. The binding record
-- is written by the operator alone, in the lock of its run namespace, and read live.
use assayd.Base.{
  ℕ, zero, suc, ◌≡◌, refl, Bool, true, false, ◌&&◌, Option, none, some, List, [], ◌∷◌, ◌++◌, String,
  ◌==◌, if◌then◌else◌, take, starts_with,
}
use assayd.RunNamespace.{
  run_namespace_prefix, Binding, BindingState, binding_creating, bound, terminating, deleting,
  Namespace, RunEffect, created_binding, swapped_binding, deleted_binding, created_namespace,
  labelled_namespace, mirrored, deleted_namespace, RunPass, RunSteps, followed_by, writing, errs,
}
use assayd.RunNamespace.Handler.{
  ReleaseReads, RecordAnswer, record_absent, recorded, release_run_namespace_if_last,
}
use assayd.RunNamespace.Ensure.{EnsureReads, ensure_run_namespace}

-- The binding record that the writes leave.
unfoldable pub stored_in : List RunEffect → Option Binding
stored_in [] = none
stored_in (created_binding b ∷ h) = some b
stored_in (swapped_binding b ∷ h) = some b
stored_in (deleted_binding ∷ h) = none
stored_in (_ ∷ h) = stored_in h

-- The operator created a namespace with this nonce, and the API server gave it this UID.
unfoldable pub made : String → String → List RunEffect → Bool
made nonce uid [] = false
made nonce uid (created_namespace name n u ∷ h) =
    let rest = made nonce uid h in if n == nonce && u == uid then true else rest
made nonce uid (_ ∷ h) = made nonce uid h

-- The same owner, and the same namespace name.
abbrev pub same_owner : Binding → Binding → Bool
same_owner a b =
    a.source_namespace == b.source_namespace
    && (a.source_namespace_uid == b.source_namespace_uid && a.run_namespace == b.run_namespace)

abbrev pub same_namespace : Binding → Binding → Bool
same_namespace a b = a.nonce == b.nonce && a.run_namespace_uid == b.run_namespace_uid

-- The swaps of a record: a UID enters it only from the create that returned it.
abbrev pub is_transition : BindingState → BindingState → Binding → Binding → List RunEffect → Bool
unfolding made
is_transition binding_creating binding_creating a b h = b.run_namespace_uid == ""
is_transition binding_creating bound a b h =
    a.nonce == b.nonce && made b.nonce b.run_namespace_uid h
is_transition bound terminating a b h = same_namespace a b
is_transition bound binding_creating a b h = b.run_namespace_uid == ""
is_transition terminating bound a b h = same_namespace a b
is_transition terminating deleting a b h = same_namespace a b
is_transition _ _ a b h = false

abbrev pub may_swap : Option Binding → Binding → List RunEffect → Bool
unfolding made
may_swap none b h = false
may_swap (some a) b h = same_owner a b && is_transition a.state b.state a b h

abbrev pub may_create : Option Binding → Binding → Bool
may_create (some a) b = false
may_create none b = b.run_namespace_uid == "" && is_new b.state
  where
    is_new : BindingState → Bool
    is_new binding_creating = true
    is_new _ = false

-- A record goes away from any state but Bound.
abbrev pub may_discard : Option Binding → Bool
may_discard none = false
may_discard (some a) = is_unbound a.state
  where
    is_unbound : BindingState → Bool
    is_unbound bound = false
    is_unbound _ = true

-- The operator creates a namespace only under the nonce it recorded first.
abbrev pub may_make : Option Binding → String → String → Bool
may_make none name nonce = false
may_make (some a) name nonce = in_state a.state
  where
    in_state : BindingState → Bool
    in_state binding_creating = a.nonce == nonce && a.run_namespace == name
    in_state _ = false

-- The operator writes into a namespace that it is creating, or that it is bound to.
abbrev pub may_fill : Option Binding → Bool
may_fill none = false
may_fill (some a) = in_state a.state
  where
    in_state : BindingState → Bool
    in_state binding_creating = true
    in_state bound = true
    in_state _ = false

-- A namespace is deleted only with the shape of a run namespace's name, and only for the nonce that a
-- record at Creating has, or for the UID that a record at Deleting has and that a create returned.
abbrev pub may_delete : Option Binding → String → Namespace → List RunEffect → Bool
unfolding made
may_delete none name ns h = false
may_delete (some a) name ns h =
    starts_with name run_namespace_prefix && (a.run_namespace == name && in_state a.state)
  where
    in_state : BindingState → Bool
    in_state binding_creating = ns.nonce == a.nonce
    in_state deleting = ns.uid == a.run_namespace_uid && made a.nonce ns.uid h
    in_state _ = false

abbrev pub is_permitted : RunEffect → List RunEffect → Bool
unfolding made stored_in
is_permitted (created_binding b) h = may_create (stored_in h) b
is_permitted (swapped_binding b) h = may_swap (stored_in h) b h
is_permitted deleted_binding h = may_discard (stored_in h)
is_permitted (created_namespace name nonce uid) h = may_make (stored_in h) name nonce
is_permitted (labelled_namespace labels) h = may_fill (stored_in h)
is_permitted mirrored h = may_fill (stored_in h)
is_permitted (deleted_namespace name ns) h = may_delete (stored_in h) name ns h

-- Each write was permitted by those before it.
unfoldable pub permitted : List RunEffect → Bool
unfolding made stored_in
permitted [] = true
permitted (e ∷ h) = let rest = permitted h in is_permitted e h && rest

-- What the record says of its namespace is so.
abbrev pub holds_uid : BindingState → Binding → List RunEffect → Bool
unfolding made
holds_uid binding_creating b h = b.run_namespace_uid == ""
holds_uid _ b h = made b.nonce b.run_namespace_uid h

abbrev pub is_borne_out : String → Option Binding → List RunEffect → Bool
unfolding made
is_borne_out run_name none h = true
is_borne_out run_name (some b) h = b.run_namespace == run_name && holds_uid b.state b h

abbrev pub replay : List RunEffect → List RunEffect → List RunEffect
replay h [] = h
replay h (e ∷ es) = replay (e ∷ h) es

abbrev pub read_record : Option Binding → RecordAnswer
read_record none = record_absent
read_record (some b) = recorded b

-- A pass or a finalizer reads anything else, and gets as far as `n` of its writes.
pub data RunReach (run_name : String) : List RunEffect → Type 0 where
  run_start : RunReach run_name []
  ensured_once :
      {h : List RunEffect}
      → RunReach run_name h
      → (n : ℕ) (namespace : String) (reads : EnsureReads)
      → RunReach run_name (
          replay h (
            take n
              (ensure_run_namespace
                (record { namespace = namespace; run_name = run_name; is_wired = true })
                reads
                (read_record (stored_in h))).effects))
  released_once :
      {h : List RunEffect}
      → RunReach run_name h
      → (n : ℕ) (namespace self : String) (reads : ReleaseReads)
      → RunReach run_name (
          replay h (
            take n
              (release_run_namespace_if_last namespace self
                (record reads { reread = read_record (stored_in h) })
                (read_record (stored_in h))).effects))

pub record IsKept (run_name : String) (h : List RunEffect) : Type 0 where
  pub log : permitted h ≡ true
  pub borne_out : is_borne_out run_name (stored_in h) h ≡ true

-- The log is kept before each of these writes, and after the last.
abbrev pub IsKeeping : String → List RunEffect → List RunEffect → Type 0
IsKeeping r h [] = IsKept r h
IsKeeping r h (e ∷ es) = IsKept r h × IsKeeping r (e ∷ h) es

pub IsKeeping-start : (r : String) (h es : List RunEffect) → IsKeeping r h es → IsKept r h
IsKeeping-start r h [] s = s
IsKeeping-start r h (e ∷ es) s = s.0

pub IsKeeping-take :
    (n : ℕ) (r : String) (h es : List RunEffect)
    → IsKeeping r h es
    → IsKept r (replay h (take n es))
IsKeeping-take zero r h es s = IsKeeping-start r h es s
IsKeeping-take (suc n) r h [] s = s
IsKeeping-take (suc n) r h (e ∷ es) s = IsKeeping-take n r (e ∷ h) es s.1

pub IsKeeping-end : (r : String) (h es : List RunEffect) → IsKeeping r h es → IsKept r (replay h es)
IsKeeping-end r h [] s = s
IsKeeping-end r h (e ∷ es) s = IsKeeping-end r (e ∷ h) es s.1

pub IsKeeping-append :
    (r : String) (h es fs : List RunEffect)
    → IsKeeping r h es
    → IsKeeping r (replay h es) fs
    → IsKeeping r h (es ++ fs)
IsKeeping-append r h [] fs s t = t
IsKeeping-append r h (e ∷ es) fs s t = (s.0, IsKeeping-append r (e ∷ h) es fs s.1 t)

-- A step, or a pass, that branches keeps the log where each branch does.
pub branch_steps-IsKeeping :
    (r : String) (h : List RunEffect) (c : Bool) (x y : RunSteps)
    → (c ≡ true → IsKeeping r h x.effects)
    → (c ≡ false → IsKeeping r h y.effects)
    → IsKeeping r h (if c then x else y).effects
branch_steps-IsKeeping r h true x y f g = f refl
branch_steps-IsKeeping r h false x y f g = g refl

pub branch-IsKeeping :
    (r : String) (h : List RunEffect) (c : Bool) (x y : RunPass)
    → (c ≡ true → IsKeeping r h x.effects)
    → (c ≡ false → IsKeeping r h y.effects)
    → IsKeeping r h (if c then x else y).effects
branch-IsKeeping r h true x y f g = f refl
branch-IsKeeping r h false x y f g = g refl

pub followed_by-IsKeeping :
    (r : String) (h : List RunEffect) (s : RunSteps) (p : RunPass)
    → IsKeeping r h s.effects
    → IsKeeping r (replay h s.effects) p.effects
    → IsKeeping r h (followed_by s p).effects
followed_by-IsKeeping r h s p a b =
    branch-IsKeeping r h s.is_ok (writing s.effects p) (record { effects = s.effects; end = errs })
      (λ _. IsKeeping-append r h s.effects p.effects a b) (λ _. a)
