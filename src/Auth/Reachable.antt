-- ===== src/Auth/Reachable.antt =====
-- What every -auth pass leaves, from any stored status.auth and whatever it reads: the safety of `authStep`
-- and of the worlds that passes reach.
use assayd.Base.{
  ◌≡◌, refl, subst, true, false, ◌||◌, Option, none, some, List, [], ◌∷◌, ◌++◌, String, arith,
  eq_iff,
}
use assayd.Status.{AuthTransaction, AuthStatus, AgentStatus, create, publishing}
use assayd.Predicates.{is_lock}
use assayd.Auth.{
  AuthTarget, AuthDesire, compiles, mode_api_key, is_adopt, is_create_kind, abandons, k2_consent,
}
use assayd.Auth.Publication.{RoutePublication, Effect, ensured, AuthPass, PassInput}
use assayd.Auth.Abandon.{Abandoned, halted, resumed}
use assayd.Auth.Pass.{
  StepReads, enterable, dispatch, go_on, adopt_step, transaction_step, open_step, recorded_step,
  auth_step,
}
use assayd.Auth.World.{
  proved, enforced, guarded, grounded, AuthWorld, play, IsSafe, IsSound, IsSound-append,
  IsSound-end, IsSound-take, is_creating, branch-IsSound, Reach, start, pass,
}
use assayd.Auth.Safety.{enter_lock-IsSound}
use assayd.Auth.Dispatching.{is_creating_in, at, IsResumed, dispatch-IsSound}
use assayd.Auth.Undoing.{IsSoundAbandoned, refuse_adopt-IsSound, abandon-IsSound}

go_on-IsSound :
    (w : AuthWorld) (a : Abandoned) (rest : Option AuthStatus → AuthPass)
    → IsSoundAbandoned w a
    → ((auth : Option AuthStatus) (v : AuthWorld)
        → IsResumed v auth
        → IsSafe v
        → IsSound v (rest auth).effects)
    → IsSound w (go_on a rest).effects
go_on-IsSound w (halted p) rest s f = s
go_on-IsSound w (resumed es auth) rest (s, r) f =
    IsSound-append w es (rest auth).effects s (f auth (play w es) r (IsSound-end w es s))

-- A transaction that is abandoned is a Create or a Lock.
abandons-kind :
    (auth : AuthStatus) (tx : AuthTransaction) (desired : String)
    → auth.transaction ≡ some tx
    → abandons (some auth) desired ≡ true
    → (is_create_kind tx.kind || is_lock tx.kind) ≡ true
unfolding abandons
abandons-kind auth tx desired q e = ground (arith, q, e)

transaction_step-IsSound :
    (inp : PassInput) (status : AgentStatus) (reads : StepReads) (desired : String)
    (desire : AuthDesire) (auth : AuthStatus) (tx : AuthTransaction) (h : List Effect)
    → auth.transaction ≡ some tx
    → IsSafe (at (some auth) h)
    → IsSound (at (some auth) h) (transaction_step inp status reads desired desire auth tx).effects
unfolding transaction_step
transaction_step-IsSound inp status reads desired desire auth tx h q s =
    let next = dispatch-IsSound inp status reads desire in
    branch-IsSound _ (abandons (some auth) desired) _ _
      (λ e.
        go_on-IsSound _ _ (dispatch inp status reads desire)
          (abandon-IsSound inp status reads.abandonment (compiles desire) desired auth tx h q
            (abandons-kind auth tx desired q e) s)
          next)
      (λ e. next (some auth) (at (some auth) h) refl s)

adopt_step-IsSound :
    (t : Option AuthTarget) (inp : PassInput) (status : AgentStatus) (reads : StepReads)
    (desired : String) (auth : AuthStatus) (tx : AuthTransaction) (h : List Effect)
    → is_creating auth.transaction ≡ false
    → IsSafe (at (some auth) h)
    → IsSound (at (some auth) h) (adopt_step t inp status reads desired auth tx).effects
unfolding adopt_step
adopt_step-IsSound none inp status reads desired auth tx h k s =
    refuse_adopt-IsSound inp status (some auth) desired h k s
adopt_step-IsSound (some t) inp status reads desired auth tx h k s =
    branch-IsSound _ (k2_consent tx desired) _ _
      (λ e. enter_lock-IsSound inp status reads.keeping.lock_reads t auth h k s)
      (λ e. refuse_adopt-IsSound inp status (some auth) desired h k s)

IsResumed-at : (auth : Option AuthStatus) (h : List Effect) → IsResumed (at auth h) auth
IsResumed-at none h = tt
IsResumed-at (some auth) h = refl

open_step-IsSound :
    (inp : PassInput) (status : AgentStatus) (reads : StepReads) (desired : String)
    (desire : AuthDesire) (auth : Option AuthStatus) (h : List Effect)
    → is_creating_in auth ≡ false
    → IsSafe (at auth h)
    → IsSound (at auth h) (open_step inp status reads desired desire auth).effects
unfolding open_step
open_step-IsSound inp status reads desired desire auth h k s =
    branch-IsSound _ _ _ _ (λ e. refuse_adopt-IsSound inp status auth desired h k s)
      (λ e. dispatch-IsSound inp status reads desire auth (at auth h) (IsResumed-at auth h) s)

recorded_step-IsSound :
    (slot : Option AuthTransaction) (inp : PassInput) (status : AgentStatus) (reads : StepReads)
    (desired : String) (desire : AuthDesire) (auth : AuthStatus) (h : List Effect)
    → auth.transaction ≡ slot
    → IsSafe (at (some auth) h)
    → IsSound (at (some auth) h) (recorded_step slot inp status reads desired desire auth).effects
unfolding recorded_step
recorded_step-IsSound none inp status reads desired desire auth h q s =
    open_step-IsSound inp status reads desired desire (some auth) h (rw q refl) s
recorded_step-IsSound (some tx) inp status reads desired desire auth h q s =
    branch-IsSound _ (is_adopt tx.kind) _ _
      (λ e.
        adopt_step-IsSound (enterable status desire) inp status reads desired auth tx h
          (rw q (ground (arith, e))) s)
      (λ e. transaction_step-IsSound inp status reads desired desire auth tx h q s)

-- A pass keeps the world safe, whatever it reads.
auth_step-IsSound :
    (inp : PassInput) (status : AgentStatus) (reads : StepReads) (desired : String)
    (desire : AuthDesire) (auth : Option AuthStatus) (h : List Effect)
    → IsSafe (at auth h)
    → IsSound (at auth h) (auth_step inp status reads desired desire auth).effects
unfolding auth_step
auth_step-IsSound inp status reads desired desire none h s =
    open_step-IsSound inp status reads desired desire none h refl s
auth_step-IsSound inp status reads desired desire (some auth) h s =
    recorded_step-IsSound auth.transaction inp status reads desired desire auth h refl s

Reach-IsSafe : {w : AuthWorld} → Reach w → IsSafe w
unfolding guarded grounded
Reach-IsSafe start = record { log = refl; record_ok = refl }
Reach-IsSafe (pass {w} r n inp status reads desired desire) =
    IsSound-take n w _
      (auth_step-IsSound inp status reads desired desire w.stored w.history (Reach-IsSafe r))

guarded-publication :
    (es : List Effect) (p : RoutePublication) (h : List Effect)
    → guarded (es ++ (ensured p ∷ h)) ≡ true
    → p.prepared ≡ false
    → p.mode ≡ mode_api_key
    → proved h ≡ true
unfolding guarded
guarded-publication [] p h g n m = ground (arith, g, n, (eq_iff p.mode mode_api_key).1 m)
guarded-publication (e ∷ es) p h g n m = guarded-publication es p h (ground (arith, g)) n m

-- In every world that passes reach, each write that publishes the route for callers with a key came after
-- an anonymous request got a credited 401, later than the last time the route was prepared.
pub publication-proved :
    {w : AuthWorld} (r : Reach w) (es : List Effect) (p : RoutePublication) (h : List Effect)
    → w.history ≡ es ++ (ensured p ∷ h)
    → p.prepared ≡ false
    → p.mode ≡ mode_api_key
    → proved h ≡ true
publication-proved r es p h q n m = guarded-publication es p h (rw⁻¹ q (Reach-IsSafe r).log) n m

-- In every world that passes reach, a status.auth that records apikey, and whose slot holds no Create, is
-- stored only where an anonymous request got a credited 401 since the route was last prepared.
pub record-proved :
    {w : AuthWorld} (r : Reach w) (auth : AuthStatus)
    → w.stored ≡ some auth
    → auth.mode ≡ mode_api_key
    → is_creating auth.transaction ≡ false
    → proved w.history ≡ true
unfolding grounded
record-proved {w} r auth q m k =
    let g : grounded (some auth) w.history ≡ true =
      subst (λ stored. grounded stored w.history ≡ true) q (Reach-IsSafe r).record_ok in
    ground (arith, g, k, (eq_iff auth.mode mode_api_key).1 m)

-- In every world that passes reach, a Create for apikey stands in stage Publishing only where an
-- anonymous request got a credited 401 since the route was last prepared and since a transaction last
-- wrote the policy.
pub publishing-enforced :
    {w : AuthWorld} (r : Reach w) (auth : AuthStatus) (tx : AuthTransaction)
    → w.stored ≡ some auth
    → auth.transaction ≡ some tx
    → tx.kind ≡ create
    → tx.stage ≡ publishing
    → tx.target_mode ≡ mode_api_key
    → enforced w.history ≡ true
unfolding grounded
publishing-enforced {w} r auth tx q t k p m =
    let g : grounded (some auth) w.history ≡ true =
      subst (λ stored. grounded stored w.history ≡ true) q (Reach-IsSafe r).record_ok in
    ground (arith, g, t, k, p, (eq_iff tx.target_mode mode_api_key).1 m)
