-- ===== src/Auth/Dispatching.antt =====
-- The switch that ends an -auth pass keeps the world safe.
use assayd.Base.{
  ◌≡◌, refl, sym, subst, ap, Bool, true, false, ◌&&◌, Option, none, some, List, ◌∷◌, String, ◌==◌,
  arith, eq_iff,
}
use assayd.Status.{AuthTransaction, AuthStatus, AgentStatus, create}
use assayd.Predicates.{is_lock}
use assayd.Auth.{
  AuthTarget, AuthDesire, mode_api_key, mode_none, with_transaction, is_create_kind,
  new_transaction,
}
use assayd.Auth.Publication.{Effect, collected, PassInput}
use assayd.Auth.Pass.{
  StepReads, first_stage, base_auth, first_create, enterable, never_served, served_step, slot_step,
  dispatch,
}
use assayd.Auth.World.{guarded, grounded, AuthWorld, IsSafe, IsSound, is_creating, branch-IsSound}
use assayd.Auth.Rounds.{write-IsSafe}
use assayd.Auth.Creation.{run_create-IsSound}
use assayd.Auth.Locking.{collect-IsSafe}
use assayd.Auth.Safety.{run_lock-IsSound, enter_lock-IsSound, reconcile_served-IsSound}

abbrev pub is_creating_in : Option AuthStatus → Bool
is_creating_in none = false
is_creating_in (some auth) = is_creating auth.transaction

abbrev pub at : Option AuthStatus → List Effect → AuthWorld
at stored h = record { stored = stored; history = h }

modes_differ : (m : String) → (m == mode_none) ≡ true → (m == mode_api_key) ≡ false
modes_differ m e = rw ((eq_iff m mode_none).0 e) refl

first_create-IsSound :
    (inp : PassInput) (status : AgentStatus) (reads : StepReads) (target : AuthTarget)
    (auth stored : Option AuthStatus) (h : List Effect)
    → IsSafe (at stored h)
    → IsSound (at stored h) (first_create inp status reads target auth).effects
unfolding first_create grounded
first_create-IsSound inp status reads target auth stored h s =
    let tx =
      new_transaction create target.mode target.digest (first_stage target.mode)
        (some inp.new_deadline) in
    (
      s,
      run_create-IsSound inp status.active_revision reads.creation (base_auth auth) tx _ refl (
          write-IsSafe stored (with_transaction (base_auth auth) tx) h s
            (ground (arith, modes_differ target.mode))),
    )

pub collected-IsSafe :
    (stored : Option AuthStatus) (name : String) (h : List Effect)
    → IsSafe (at stored h)
    → IsSafe (at stored (collected name ∷ h))
unfolding guarded grounded
collected-IsSafe none name h s = record { log = ground (arith, s.log); record_ok = refl }
collected-IsSafe (some auth) name h s = collect-IsSafe auth name h s

never_served-IsSound :
    (t : Option AuthTarget) (inp : PassInput) (status : AgentStatus) (reads : StepReads)
    (auth stored : Option AuthStatus) (h : List Effect)
    → IsSafe (at stored h)
    → IsSound (at stored h) (never_served t inp status reads auth).effects
unfolding never_served
never_served-IsSound none inp status reads auth stored h s = (s, collected-IsSafe stored "" h s)
never_served-IsSound (some t) inp status reads auth stored h s =
    first_create-IsSound inp status reads t auth stored h s

served_step-IsSound :
    (t : Option AuthTarget) (inp : PassInput) (status : AgentStatus) (reads : StepReads)
    (auth : AuthStatus) (h : List Effect)
    → is_creating auth.transaction ≡ false
    → IsSafe (at (some auth) h)
    → IsSound (at (some auth) h) (served_step t inp status reads auth).effects
unfolding served_step
served_step-IsSound none inp status reads auth h k s =
    reconcile_served-IsSound inp status reads.keeping auth h k s
served_step-IsSound (some t) inp status reads auth h k s =
    branch-IsSound _ (auth.mode == mode_none && t.mode == mode_api_key) _ _
      (λ e. enter_lock-IsSound inp status reads.keeping.lock_reads t auth h k s)
      (λ e. reconcile_served-IsSound inp status reads.keeping auth h k s)

slot_step-IsSound :
    (slot : Option AuthTransaction) (inp : PassInput) (status : AgentStatus) (reads : StepReads)
    (desire : AuthDesire) (auth : AuthStatus) (h : List Effect)
    → auth.transaction ≡ slot
    → IsSafe (at (some auth) h)
    → IsSound (at (some auth) h) (slot_step slot inp status reads desire auth).effects
unfolding slot_step
slot_step-IsSound none inp status reads desire auth h q s =
    branch-IsSound _ (auth.mode == "") _ _
      (λ e.
        never_served-IsSound (enterable status desire) inp status reads (some auth) (some auth) h s)
      (λ e. served_step-IsSound (enterable status desire) inp status reads auth h (rw q refl) s)
slot_step-IsSound (some tx) inp status reads desire auth h q s =
    let same : some auth ≡ some (with_transaction auth tx) =
      ap (λ slot. some (record auth { transaction = slot })) q in
    subst
      (λ stored. IsSound (at stored h) (slot_step (some tx) inp status reads desire auth).effects)
      (sym same)
      (let t = subst (λ stored. IsSafe (at stored h)) same s in
        branch-IsSound _ (is_create_kind tx.kind) _ _
          (λ e. run_create-IsSound inp status.active_revision reads.creation auth tx h e t)
          (λ e.
            branch-IsSound _ (is_lock tx.kind) _ _
              (λ l. run_lock-IsSound inp status reads.keeping.lock_reads auth tx h e t) (λ l. t)))

-- The auth that a pass goes on with is none, or the stored one with nothing in its slot.
abbrev pub IsResumed : AuthWorld → Option AuthStatus → Type 0
IsResumed w none = Unit
IsResumed w (some auth) = w.stored ≡ some auth

pub dispatch-IsSound :
    (inp : PassInput) (status : AgentStatus) (reads : StepReads) (desire : AuthDesire)
    (auth : Option AuthStatus) (w : AuthWorld)
    → IsResumed w auth
    → IsSafe w
    → IsSound w (dispatch inp status reads desire auth).effects
unfolding dispatch
dispatch-IsSound inp status reads desire none w r s =
    never_served-IsSound (enterable status desire) inp status reads none w.stored w.history s
dispatch-IsSound inp status reads desire (some auth) w r s =
    subst
      (λ stored.
        IsSound (at stored w.history) (dispatch inp status reads desire (some auth)).effects)
      (sym r)
      (slot_step-IsSound auth.transaction inp status reads desire auth w.history refl
        (subst (λ stored. IsSafe (at stored w.history)) r s))
