-- ===== src/Auth/Safety.antt =====
-- Every -auth pass keeps the world safe: what status.auth claims is borne out, and each publication for
-- keys comes after a credited 401.
use assayd.Base.{
  ℕ, zero, suc, ◌≡◌, refl, Bool, true, false, not, ◌&&◌, inl, inr, some, List, ◌∷◌, ◌==◌, arith,
  Bool-cases, Option-cases,
}
use assayd.Status.{
  AuthTransaction, AuthStatus, AgentStatus, lock, applying_policies, probing_before,
}
use assayd.Predicates.{is_re_creation}
use assayd.Auth.{AuthTarget, mode_api_key, with_transaction, is_create_kind, Route, new_transaction}
use assayd.Auth.Publication.{Effect, reasserted_policy, after, PassInput, create_target}
use assayd.Auth.Lock.{LockPassReads}
use assayd.Auth.Served.{
  ServedReads, lock_rounds, is_unpublished, lock_missing, forgotten, is_stale, lock_in_place,
  run_lock, lock_missing_policy, entered_over, reasserts, enter_lock, keep_route, reconcile_served,
}
use assayd.Auth.World.{
  proved, enforced, guarded, grounded, IsSafe, IsSound, is_creating, branch-IsSound,
}
use assayd.Auth.Rounds.{holding, write-IsSafe}
use assayd.Auth.Creation.{continued-IsSound, create_target-Aims, with_target-IsSound}
use assayd.Auth.Locking.{
  ensure_recorded-IsSafe, collect-IsSafe, recreate_route-IsSound, lock_stage_round-IsSound,
}

lock_rounds-IsSound :
    (n : ℕ) (inp : PassInput) (status : AgentStatus) (target : AuthTarget) (reads : LockPassReads)
    (re_created : Bool) (rt : Route) (auth : AuthStatus) (tx : AuthTransaction) (h : List Effect)
    → is_create_kind tx.kind ≡ false
    → IsSafe (holding auth tx h)
    → IsSound
        (holding auth tx h)
        (lock_rounds n inp status target reads re_created rt auth tx).effects
unfolding lock_rounds
lock_rounds-IsSound zero inp status target reads re_created rt auth tx h k s = s
lock_rounds-IsSound (suc n) inp status target reads re_created rt auth tx h k s =
    continued-IsSound (holding auth tx h) auth tx _
      (lock_rounds n inp status target reads re_created rt auth)
      (lock_stage_round-IsSound tx.stage inp status target reads re_created rt
        (reads.rounds (suc n)) auth tx h refl k s)
      (λ next g same mode safe.
        lock_rounds-IsSound n inp status target reads re_created rt auth next g (rw same k) safe)

lock_missing-IsSound :
    (inp : PassInput) (status : AgentStatus) (target : AuthTarget) (reads : LockPassReads)
    (auth : AuthStatus) (tx : AuthTransaction) (h : List Effect)
    → is_create_kind tx.kind ≡ false
    → IsSafe (holding auth tx h)
    → IsSound (holding auth tx h) (lock_missing inp status target reads auth tx).effects
unfolding lock_missing
lock_missing-IsSound inp status target reads auth tx h k s =
    elim (Bool-cases (is_unpublished reads.current && not (status.active_revision == ""))) [
      | inl e ↦ rw e (recreate_route-IsSound inp status.active_revision reads.creation auth _ h s)
      | inr e ↦ elim (Option-cases reads.current) [
        | inl c ↦ rw (e, c) s
        | inr (rt, c) ↦
            rw (e, c) (lock_rounds-IsSound 12 inp status target reads true rt auth tx h k s)
      ]
    ]

lock_in_place-IsSound :
    (inp : PassInput) (status : AgentStatus) (target : AuthTarget) (reads : LockPassReads)
    (auth : AuthStatus) (tx : AuthTransaction) (h : List Effect)
    → is_create_kind tx.kind ≡ false
    → IsSafe (holding auth tx h)
    → IsSound (holding auth tx h) (lock_in_place inp status target reads auth tx).effects
unfolding lock_in_place grounded proved
lock_in_place-IsSound inp status target reads auth tx h k s =
    let ensured_too = ensure_recorded-IsSafe (with_transaction auth tx) h k s in
    let both = collect-IsSafe (with_transaction auth tx) inp.route_name _ ensured_too in
    elim (Bool-cases (status.active_revision == "")) [
      | inl e ↦ rw e s
      | inr e ↦ elim (Bool-cases (is_stale inp reads.kept tx)) [
        | inl c ↦
            rw (e, c)
              (
                s,
                (
                  ensured_too,
                  (
                    both,
                    lock_rounds-IsSound 12 inp status target reads false reads.kept auth
                        (forgotten tx) _ k
                        (write-IsSafe _ _ _ both (ground (arith, k, both.record_ok))),
                  ),
                ),
              )
        | inr c ↦
            rw (e, c)
              (
                s,
                (
                  ensured_too,
                  lock_rounds-IsSound 12 inp status target reads false reads.kept auth tx _ k both,
                ),
              )
      ]
    ]

pub run_lock-IsSound :
    (inp : PassInput) (status : AgentStatus) (reads : LockPassReads) (auth : AuthStatus)
    (tx : AuthTransaction) (h : List Effect)
    → is_create_kind tx.kind ≡ false
    → IsSafe (holding auth tx h)
    → IsSound (holding auth tx h) (run_lock inp status reads auth tx).effects
unfolding run_lock
run_lock-IsSound inp status reads auth tx h k s =
    with_target-IsSound (holding auth tx h) tx (create_target inp.rendered tx) _
      (create_target-Aims inp.rendered tx) s
      (λ target t.
        elim (Bool-cases (is_re_creation (some (record auth { transaction = some tx })))) [
          | inl e ↦ rw e (lock_missing-IsSound inp status target reads auth tx h k s)
          | inr e ↦ rw e (lock_in_place-IsSound inp status target reads auth tx h k s)
        ])

lock_missing_policy-IsSound :
    (inp : PassInput) (status : AgentStatus) (reads : LockPassReads) (auth : AuthStatus)
    (h : List Effect)
    → is_creating auth.transaction ≡ false
    → IsSafe (record { stored = some auth; history = h })
    → IsSound
        (record { stored = some auth; history = h })
        (lock_missing_policy inp status reads auth).effects
unfolding lock_missing_policy grounded proved
lock_missing_policy-IsSound inp status reads auth h k s =
    let tx =
      record (new_transaction lock auth.mode auth.applied_digest applying_policies
        (some inp.new_deadline)) { written = true } in
    (
      s,
      run_lock-IsSound inp status reads auth tx _ refl
          (write-IsSafe _ (with_transaction auth tx) h s (ground (arith, k, s.record_ok))),
    )

-- What status.auth claims is no more with a Lock entered over it.
grounded-entered_over :
    (auth : AuthStatus) (tx : AuthTransaction) (h : List Effect)
    → is_create_kind tx.kind ≡ false
    → is_creating auth.transaction ≡ false
    → grounded (some auth) h ≡ true
    → grounded (some (with_transaction (entered_over (some auth)) tx)) h ≡ true
unfolding grounded
grounded-entered_over auth tx h n k s = elim (Bool-cases (auth.mode == "")) [
  | inl e ↦ rw e (ground (arith, n))
  | inr e ↦ rw e (ground (arith, n, k, s))
]

-- No slot but the Lock's own: the recorded mode stays, or there was none.
pub enter_lock-IsSound :
    (inp : PassInput) (status : AgentStatus) (reads : LockPassReads) (target : AuthTarget)
    (auth : AuthStatus) (h : List Effect)
    → is_creating auth.transaction ≡ false
    → IsSafe (record { stored = some auth; history = h })
    → IsSound
        (record { stored = some auth; history = h })
        (enter_lock inp status reads target (some auth)).effects
unfolding enter_lock grounded proved
enter_lock-IsSound inp status reads target auth h k s =
    let tx =
      new_transaction lock mode_api_key target.digest probing_before (some inp.new_deadline) in
    (
      s,
      run_lock-IsSound inp status reads (entered_over (some auth)) tx _ refl
          (write-IsSafe _ _ h s (grounded-entered_over auth tx h refl k s.record_ok)),
    )

keep_route-IsSound :
    (inp : PassInput) (status : AgentStatus) (reads : ServedReads) (auth : AuthStatus)
    (h : List Effect)
    → is_creating auth.transaction ≡ false
    → IsSafe (record { stored = some auth; history = h })
    → IsSound
        (record { stored = some auth; history = h })
        (keep_route inp status reads auth).effects
unfolding keep_route
keep_route-IsSound inp status reads auth h k s =
    let ensured_too = ensure_recorded-IsSafe auth h k s in
    elim (Bool-cases (reads.gone && auth.mode == mode_api_key)) [
      | inl e ↦
          rw e
            (recreate_route-IsSound inp status.active_revision reads.lock_reads.creation auth _ h s)
      | inr e ↦ rw e (s, (ensured_too, collect-IsSafe auth inp.route_name _ ensured_too))
    ]

reassert-IsSound :
    (b : Bool) (inp : PassInput) (status : AgentStatus) (reads : ServedReads) (auth : AuthStatus)
    (h : List Effect)
    → is_creating auth.transaction ≡ false
    → IsSafe (record { stored = some auth; history = h })
    → IsSound
        (record { stored = some auth; history = h })
        (after (reasserts b) (keep_route inp status reads auth)).effects
unfolding guarded grounded proved enforced
reassert-IsSound false inp status reads auth h k s = keep_route-IsSound inp status reads auth h k s
reassert-IsSound true inp status reads auth h k s = (
  s,
  keep_route-IsSound inp status reads auth (reasserted_policy ∷ h) k
      (record { log = ground (arith, s.log); record_ok = ground (arith, s.record_ok) }),
)

pub reconcile_served-IsSound :
    (inp : PassInput) (status : AgentStatus) (reads : ServedReads) (auth : AuthStatus)
    (h : List Effect)
    → is_creating auth.transaction ≡ false
    → IsSafe (record { stored = some auth; history = h })
    → IsSound
        (record { stored = some auth; history = h })
        (reconcile_served inp status reads auth).effects
unfolding reconcile_served
reconcile_served-IsSound inp status reads auth h k s =
    branch-IsSound _ (status.active_revision == "") _ _ (λ e. (s, collect-IsSafe auth "" h s))
      (λ e.
        branch-IsSound _ (not (auth.mode == mode_api_key)) _ _
          (λ m. keep_route-IsSound inp status reads auth h k s)
          (λ m.
            branch-IsSound _ (is_unpublished reads.lock_reads.current) _ _
              (λ u.
                recreate_route-IsSound inp status.active_revision reads.lock_reads.creation auth _ h
                  s)
              (λ u.
                branch-IsSound _ (not reads.present) _ _
                  (λ p. lock_missing_policy-IsSound inp status reads.lock_reads auth h k s)
                  (λ p. reassert-IsSound reads.reasserted inp status reads auth h k s))))
