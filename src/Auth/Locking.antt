-- ===== src/Auth/Locking.antt =====
-- A Lock keeps the world safe, and so does the re-creation of a route.
use assayd.Base.{
  ℕ, ◌≡◌, refl, Bool, true, false, not, ◌&&◌, ◌||◌, inl, inr, Option, some, List, [], ◌∷◌, String,
  ◌==◌, arith, Bool-cases, Option-cases,
}
use assayd.Status.{
  AuthTransaction, AuthStatus, AgentStatus, CardStatus, Stage, applying_policies, converging,
  probing_after, preparing_route, publishing, refused, probing_before, other, create,
}
use assayd.Predicates.{carded_revision}
use assayd.Auth.{AuthTarget, with_transaction, is_create_kind, Route, new_transaction}
use assayd.Auth.Publication.{
  Effect, ensured, collected, probed, PassInput, served_record, route_publication_for, some_foreign,
}
use assayd.Auth.Create.{CreateReads, ensure, persist}
use assayd.Auth.Attribution.{before_revision_for, card_attributes}
use assayd.Auth.Lock.{
  LockReads, LockPassReads, recreate_route, before_round, lock_served, can_credit, held_in_lock,
  lock_probe, attached_probe, repoint, lock_probing, lock_settling, lock_stage_round,
}
use assayd.Auth.World.{proved, enforced, guarded, grounded, IsSafe, IsSound, is_creating}
use assayd.Auth.Rounds.{
  holding, RoundIsSound, write-IsSafe, probe-IsSafe, moves-IsSound, following-IsSound,
  applying_round-IsSound,
}
use assayd.Auth.Creation.{grounded-served_record, run_create-IsSound}

-- The route is brought to what a status.auth with no Create in it records.
pub ensure_recorded-IsSafe :
    (auth : AuthStatus) (h : List Effect)
    → is_creating auth.transaction ≡ false
    → IsSafe (record { stored = some auth; history = h })
    → IsSafe
        (record { stored = some auth; history = ensured (route_publication_for (some auth)) ∷ h })
unfolding route_publication_for guarded grounded proved enforced
ensure_recorded-IsSafe auth h k s = record {
  log = ground (arith, k, s.log, s.record_ok);
  record_ok = ground (arith, k, s.record_ok);
}

pub collect-IsSafe :
    (auth : AuthStatus) (name : String) (h : List Effect)
    → IsSafe (record { stored = some auth; history = h })
    → IsSafe (record { stored = some auth; history = collected name ∷ h })
unfolding guarded grounded proved enforced
collect-IsSafe auth name h s = record {
  log = ground (arith, s.log);
  record_ok = ground (arith, s.record_ok);
}

pub recreate_route-IsSound :
    (inp : PassInput) (rev : String) (reads : ℕ → CreateReads) (auth : AuthStatus)
    (stored : Option AuthStatus) (h : List Effect)
    → IsSafe (record { stored = stored; history = h })
    → IsSound (record { stored = stored; history = h }) (recreate_route inp rev reads auth).effects
unfolding recreate_route grounded
recreate_route-IsSound inp rev reads auth stored h s =
    let tx =
      new_transaction create auth.mode auth.applied_digest preparing_route
        (some inp.new_deadline) in
    (
      s,
      run_create-IsSound inp rev reads auth tx (persist auth tx ∷ h) refl
          (write-IsSafe stored (with_transaction auth tx) h s (ground arith)),
    )

before_round-IsSound :
    (inp : PassInput) (cards : List CardStatus) (rt : Route) (r : LockReads) (auth : AuthStatus)
    (tx : AuthTransaction) (h : List Effect)
    → IsSafe (holding auth tx h)
    → RoundIsSound (holding auth tx h) auth tx (before_round inp cards rt r auth tx)
unfolding before_round grounded proved enforced guarded
before_round-IsSound inp cards rt r auth tx h s =
    let rev = before_revision_for inp.agent_name cards rt r.answer r.card_digest in
    let asked = probe-IsSafe (some (with_transaction auth tx)) h r.answer false false s in
    elim (Bool-cases (rev == "")) [
      | inl e ↦ rw e (
        (s, (asked, write-IsSafe _ _ _ asked (ground (arith, asked.record_ok)))),
        refl,
        refl,
        refl,
      )
      | inr e ↦ rw e (
        (s, (asked, write-IsSafe _ _ _ asked (ground (arith, asked.record_ok)))),
        refl,
        refl,
        refl,
      )
    ]

-- After a credited 401 the Lock's record is written, and its route with it.
lock_served-IsSound :
    (inp : PassInput) (target : AuthTarget) (re_created : Bool) (auth : AuthStatus)
    (tx old : AuthTransaction) (h : List Effect)
    → proved h ≡ true
    → IsSafe (holding auth tx h)
    → RoundIsSound (holding auth tx h) auth old (lock_served inp target re_created)
unfolding lock_served served_record proved
lock_served-IsSound inp target re_created auth tx old h p s =
    let kept =
      write-IsSafe _ (served_record inp target) h s
        (grounded-served_record inp target h (λ n. p)) in
    elim (Bool-cases re_created) [
      | inl e ↦ rw e (s, kept)
      | inr e ↦
          rw e (s, (kept, ensure_recorded-IsSafe (served_record inp target) _ (ground arith) kept))
    ]

lock_probe-IsSound :
    (inp : PassInput) (target : AuthTarget) (re_created attributed : Bool) (r : LockReads)
    (auth : AuthStatus) (tx : AuthTransaction) (h : List Effect)
    → is_create_kind tx.kind ≡ false
    → IsSafe (holding auth tx h)
    → RoundIsSound
        (holding auth tx h)
        auth
        tx
        (lock_probe inp target re_created attributed r auth tx)
unfolding lock_probe grounded proved enforced
lock_probe-IsSound inp target re_created attributed r auth tx h k s =
    let credit = tx.before_observed || attributed in
    let held = held_in_lock attributed r tx in
    let asked = probe-IsSafe (some (with_transaction auth tx)) h r.answer credit held s in
    following-IsSound _ auth tx (probed r.answer credit held ∷ []) _ (s, asked)
      (elim (Bool-cases (can_credit attributed r tx && not held)) [
        | inl e ↦
            rw e (lock_served-IsSound inp target re_created auth tx tx _ (ground (arith, e)) asked)
        | inr e ↦ rw e (asked, write-IsSafe _ _ _ asked (ground (arith, k, asked.record_ok)))
      ])

attached_probe-IsSound :
    (inp : PassInput) (status : AgentStatus) (target : AuthTarget) (re_created : Bool) (rt : Route)
    (r : LockReads) (auth : AuthStatus) (tx : AuthTransaction) (h : List Effect)
    → is_create_kind tx.kind ≡ false
    → IsSafe (holding auth tx h)
    → RoundIsSound
        (holding auth tx h)
        auth
        tx
        (attached_probe inp status target re_created rt r auth tx)
unfolding attached_probe
attached_probe-IsSound inp status target re_created rt r auth tx h k s =
    elim (Bool-cases r.route_converged) [
      | inl e ↦ rw e (
          lock_probe-IsSound inp target re_created (card_attributes inp.agent_name status.cards rt)
            r auth tx h k s)
      | inr e ↦ rw e s
    ]

repoint-IsSound :
    (inp : PassInput) (status : AgentStatus) (target : AuthTarget) (creation : ℕ → CreateReads)
    (r : LockReads) (auth : AuthStatus) (tx : AuthTransaction) (h : List Effect)
    → is_create_kind tx.kind ≡ false
    → IsSafe (holding auth tx h)
    → RoundIsSound (holding auth tx h) auth tx (repoint inp status target creation r auth tx)
unfolding repoint
repoint-IsSound inp status target creation r auth tx h k s = elim (Option-cases r.repointed) [
  | inl e ↦ rw e (recreate_route-IsSound inp status.active_revision creation auth _ h s)
  | inr (rt, e) ↦
      let ensured_too = ensure_recorded-IsSafe (with_transaction auth tx) h k s in
      let both = collect-IsSafe (with_transaction auth tx) inp.route_name _ ensured_too in
      rw e (
        following-IsSound _ auth tx (ensure auth tx ∷ collected inp.route_name ∷ []) _
          (s, (ensured_too, both))
          (attached_probe-IsSound inp status target true rt r auth tx _ k both))
]

lock_probing-IsSound :
    (inp : PassInput) (status : AgentStatus) (target : AuthTarget) (reads : LockPassReads)
    (re_created : Bool) (rt : Route) (r : LockReads) (auth : AuthStatus) (tx : AuthTransaction)
    (h : List Effect)
    → is_create_kind tx.kind ≡ false
    → IsSafe (holding auth tx h)
    → RoundIsSound
        (holding auth tx h)
        auth
        tx
        (lock_probing inp status target reads re_created rt r auth tx)
unfolding lock_probing
lock_probing-IsSound inp status target reads re_created rt r auth tx h k s =
    elim (Bool-cases (some_foreign inp.foreign)) [
      | inl e ↦ rw e s
      | inr e ↦ elim (Bool-cases (re_created && carded_revision status status.active_revision)) [
        | inl c ↦ rw (e, c) (repoint-IsSound inp status target reads.creation r auth tx h k s)
        | inr c ↦ rw (e, c) (attached_probe-IsSound inp status target re_created rt r auth tx h k s)
      ]
    ]

lock_settling-IsSound :
    (inp : PassInput) (status : AgentStatus) (target : AuthTarget) (reads : LockPassReads)
    (re_created b : Bool) (rt : Route) (r : LockReads) (auth : AuthStatus) (tx : AuthTransaction)
    (h : List Effect)
    → is_create_kind tx.kind ≡ false
    → IsSafe (holding auth tx h)
    → RoundIsSound
        (holding auth tx h)
        auth
        tx
        (lock_settling inp status target reads re_created b rt r auth tx)
unfolding lock_settling
lock_settling-IsSound inp status target reads re_created b rt r auth tx h k s =
    elim (Bool-cases (not r.intact)) [
      | inl e ↦ rw e (moves-IsSound auth tx applying_policies h (inl refl) s)
      | inr e ↦ elim (Bool-cases r.nacked) [
        | inl n ↦ elim (Bool-cases b) [
          | inl c ↦ rw (e, n, c) s
          | inr c ↦ rw (e, n, c) (moves-IsSound auth tx converging h (inl refl) s).0
        ]
        | inr n ↦ elim (Bool-cases b) [
          | inl c ↦ elim (Bool-cases (r.route_converged && r.policy_converged)) [
            | inl v ↦ rw (e, n, c, v) (moves-IsSound auth tx probing_after h (inl refl) s)
            | inr v ↦ rw (e, n, c, v) s
          ]
          | inr c ↦
              rw (e, n, c)
                (lock_probing-IsSound inp status target reads re_created rt r auth tx h k s)
        ]
      ]
    ]

-- Every stage's round of a Lock keeps the world safe.
pub lock_stage_round-IsSound :
    (stage : Stage) (inp : PassInput) (status : AgentStatus) (target : AuthTarget)
    (reads : LockPassReads) (re_created : Bool) (rt : Route) (r : LockReads) (auth : AuthStatus)
    (tx : AuthTransaction) (h : List Effect)
    → tx.stage ≡ stage
    → is_create_kind tx.kind ≡ false
    → IsSafe (holding auth tx h)
    → RoundIsSound
        (holding auth tx h)
        auth
        tx
        (lock_stage_round stage inp status target reads re_created rt r auth tx)
unfolding lock_stage_round
lock_stage_round-IsSound probing_before inp status target reads re_created rt r auth tx h q k s =
    before_round-IsSound inp status.cards rt r auth tx h s
lock_stage_round-IsSound applying_policies inp status target reads re_created rt r auth tx h q k s =
    applying_round-IsSound inp auth tx h (rw q refl) s
lock_stage_round-IsSound converging inp status target reads re_created rt r auth tx h q k s =
    lock_settling-IsSound inp status target reads re_created true rt r auth tx h k s
lock_stage_round-IsSound probing_after inp status target reads re_created rt r auth tx h q k s =
    lock_settling-IsSound inp status target reads re_created false rt r auth tx h k s
lock_stage_round-IsSound refused inp status target reads re_created rt r auth tx h q k s = s
lock_stage_round-IsSound preparing_route inp status target reads re_created rt r auth tx h q k s = s
lock_stage_round-IsSound publishing inp status target reads re_created rt r auth tx h q k s = s
lock_stage_round-IsSound (other x) inp status target reads re_created rt r auth tx h q k s = s
