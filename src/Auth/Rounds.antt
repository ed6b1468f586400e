-- ===== src/Auth/Rounds.antt =====
-- The rounds of a Create keep the world safe.
use assayd.Base.{
  ℕ, ◌≡◌, refl, not, ◌||◌, Bool, true, false, ◌&&◌, Option, none, some, List, [], ◌∷◌, ◌⊎◌, arith,
  inl, inr, Bool-cases,
}
use assayd.Status.{AuthTransaction, AuthStatus, Stage, applying_policies, converging, probing_after}
use assayd.Auth.{with_transaction, is_create_kind, is_publishing}
use assayd.Auth.Publication.{
  Effect, PassInput, route_publication_for, probed, persisted, collected, wrote_policy,
  foreign_at_own_name, some_foreign,
}
use assayd.Auth.Create.{
  CreateReads, Round, held_by_gateway, with_answer, is_401, again, done, ensure, moves_to,
  following, preparing_round, applying_round, probing_round, converging_round, settling_round,
}
use assayd.Auth.World.{
  proved, enforced, guarded, grounded, AuthWorld, play, IsSafe, IsSound, IsSound-append,
  play-append, enforced-proved,
}

-- The world in which status.auth holds this transaction.
abbrev pub holding : AuthStatus → AuthTransaction → List Effect → AuthWorld
holding auth tx h = record { stored = some (with_transaction auth tx); history = h }

-- The round's writes are sound, and leave the next round's transaction stored.
abbrev pub RoundIsSound : AuthWorld → AuthStatus → AuthTransaction → Round → Type 0
RoundIsSound w auth old (again es tx) =
    IsSound w es
    × ((play w es).stored ≡ some (with_transaction auth tx))
    × (tx.kind ≡ old.kind)
    × (tx.target_mode ≡ old.target_mode)
RoundIsSound w auth old (done es e) = IsSound w es

-- A write that is neither the route's nor the policy's, and no request, leaves what the history shows.
pub write-IsSafe :
    (auth : Option AuthStatus) (new : AuthStatus) (h : List Effect)
    → IsSafe (record { stored = auth; history = h })
    → grounded (some new) h ≡ true
    → IsSafe (record { stored = some new; history = persisted (some new) ∷ h })
unfolding guarded grounded proved enforced
write-IsSafe auth new h s g = record { log = ground (arith, s.log); record_ok = ground (arith, g) }

-- The route of a Create that does not publish is brought to the prepared one.
pub prepare-IsSafe :
    (auth : AuthStatus) (tx : AuthTransaction) (h : List Effect)
    → is_create_kind tx.kind ≡ true
    → is_publishing tx.stage ≡ false
    → IsSafe (holding auth tx h)
    → IsSafe (holding auth tx (ensure auth tx ∷ h))
unfolding route_publication_for guarded grounded proved enforced
prepare-IsSafe auth tx h k q s = record {
  log = ground (arith, s.log);
  record_ok = ground (arith, s.record_ok);
}

-- A Create moves to a stage before Publishing, or after a credited 401.
pub moves-IsSound :
    (auth : AuthStatus) (tx : AuthTransaction) (stage : Stage) (h : List Effect)
    → (is_publishing stage ≡ false) ⊎ (enforced h ≡ true)
    → IsSafe (holding auth tx h)
    → RoundIsSound (holding auth tx h) auth tx (moves_to auth tx stage)
unfolding grounded proved enforced guarded
moves-IsSound auth tx stage h q s =
    ((s, write-IsSafe _ _ h s (ground (arith, s.record_ok, q))), refl, refl, refl)

pub following-IsSound :
    (w : AuthWorld) (auth : AuthStatus) (old : AuthTransaction) (es : List Effect) (r : Round)
    → IsSound w es
    → RoundIsSound (play w es) auth old r
    → RoundIsSound w auth old (following es r)
following-IsSound w auth old es (again fs tx) s (t, q, k, m) =
    (IsSound-append w es fs s t, rw (play-append w es fs) q, k, m)
following-IsSound w auth old es (done fs e) s t = IsSound-append w es fs s t

pub preparing_round-IsSound :
    (inp : PassInput) (auth : AuthStatus) (tx : AuthTransaction) (h : List Effect)
    → is_create_kind tx.kind ≡ true
    → is_publishing tx.stage ≡ false
    → IsSafe (holding auth tx h)
    → RoundIsSound (holding auth tx h) auth tx (preparing_round inp auth tx)
unfolding preparing_round proved enforced guarded grounded
preparing_round-IsSound inp auth tx h k q s =
    let prepared = prepare-IsSafe auth tx h k q s in
    let kept : IsSafe (holding auth tx (collected inp.route_name ∷ ensure auth tx ∷ h)) = record {
      log = ground (arith, prepared.log);
      record_ok = ground (arith, prepared.record_ok);
    } in
    ((s, (prepared, (kept, write-IsSafe _ _ _ kept (ground arith)))), refl, refl, refl)

pub applying_round-IsSound :
    (inp : PassInput) (auth : AuthStatus) (tx : AuthTransaction) (h : List Effect)
    → is_publishing tx.stage ≡ false
    → IsSafe (holding auth tx h)
    → RoundIsSound (holding auth tx h) auth tx (applying_round inp auth tx)
unfolding applying_round proved enforced guarded grounded
applying_round-IsSound inp auth tx h q s =
    elim (Bool-cases (foreign_at_own_name inp.foreign inp.own_policy)) [
      | inl e ↦ rw e s
      | inr e ↦
          let wrote : IsSafe (holding auth tx (wrote_policy ∷ h)) = record {
            log = ground (arith, s.log);
            record_ok = ground (arith, s.record_ok);
          } in
          rw e (
            following-IsSound _ auth tx (wrote_policy ∷ []) (moves_to auth tx converging) (s, wrote)
              (moves-IsSound auth tx converging (wrote_policy ∷ h) (inl refl) wrote))
    ]

-- A request, whatever it got.
pub probe-IsSafe :
    (auth : Option AuthStatus) (h : List Effect) (code : Option ℕ) (attributed held : Bool)
    → IsSafe (record { stored = auth; history = h })
    → IsSafe (record { stored = auth; history = probed code attributed held ∷ h })
unfolding guarded grounded proved enforced
probe-IsSafe none h code attributed held s = record {
  log = ground (arith, s.log);
  record_ok = refl;
}
probe-IsSafe (some auth) h code attributed held s = record {
  log = ground (arith, s.log);
  record_ok = ground (arith, s.record_ok);
}

probing_round-IsSound :
    (inp : PassInput) (r : CreateReads) (auth : AuthStatus) (tx : AuthTransaction) (h : List Effect)
    → is_create_kind tx.kind ≡ true
    → is_publishing tx.stage ≡ false
    → IsSafe (holding auth tx h)
    → RoundIsSound (holding auth tx h) auth tx (probing_round inp r auth tx)
unfolding probing_round proved enforced guarded grounded
probing_round-IsSound inp r auth tx h k q s =
    let held = held_by_gateway r in
    let next = with_answer tx r.answer in
    let asked = probe-IsSafe (some (with_transaction auth tx)) h r.answer true held s in
    elim (Bool-cases (some_foreign inp.foreign)) [
      | inl e ↦ rw e s
      | inr e ↦ elim (Bool-cases (is_401 r.answer && not held)) [
        | inl c ↦
            rw (e, c) ((s, (asked, write-IsSafe _ _ _ asked (ground (arith, c)))), refl, refl, refl)
        | inr c ↦ rw (e, c) (s, (asked, write-IsSafe _ _ _ asked (ground (arith, k, q))))
      ]
    ]

converging_round-IsSound :
    (r : CreateReads) (auth : AuthStatus) (tx : AuthTransaction) (h : List Effect)
    → IsSafe (holding auth tx h)
    → RoundIsSound (holding auth tx h) auth tx (converging_round r auth tx)
unfolding converging_round
converging_round-IsSound r auth tx h s =
    elim (Bool-cases (r.route_converged && r.policy_converged)) [
      | inl e ↦ rw e (moves-IsSound auth tx probing_after h (inl refl) s)
      | inr e ↦ rw e s
    ]

pub settling_round-IsSound :
    (inp : PassInput) (r : CreateReads) (b : Bool) (auth : AuthStatus) (tx : AuthTransaction)
    (h : List Effect)
    → is_create_kind tx.kind ≡ true
    → is_publishing tx.stage ≡ false
    → IsSafe (holding auth tx h)
    → RoundIsSound (holding auth tx h) auth tx (settling_round inp r b auth tx)
unfolding settling_round
settling_round-IsSound inp r b auth tx h k q s =
    let prepared = prepare-IsSafe auth tx h k q s in
    following-IsSound _ auth tx (ensure auth tx ∷ []) _ (s, prepared)
      (elim (Bool-cases (r.created || not r.intact)) [
        | inl e ↦ rw e (moves-IsSound auth tx applying_policies _ (inl refl) prepared)
        | inr e ↦ elim (Bool-cases r.nacked) [
          | inl n ↦ elim (Bool-cases b) [
            | inl c ↦ rw (e, n, c) prepared
            | inr c ↦ rw (e, n, c) (moves-IsSound auth tx converging _ (inl refl) prepared).0
          ]
          | inr n ↦ elim (Bool-cases b) [
            | inl c ↦ rw (e, n, c) (converging_round-IsSound r auth tx _ prepared)
            | inr c ↦ rw (e, n, c) (probing_round-IsSound inp r auth tx _ k q prepared)
          ]
        ]
      ])

-- The route is published under the Create's mode.
pub publish-IsSafe :
    (auth : AuthStatus) (tx : AuthTransaction) (h : List Effect)
    → is_create_kind tx.kind ≡ true
    → is_publishing tx.stage ≡ true
    → IsSafe (holding auth tx h)
    → IsSafe (holding auth tx (ensure auth tx ∷ h))
unfolding route_publication_for guarded grounded proved enforced
publish-IsSafe auth tx h k q s = record {
  log = ground (arith, s.log, s.record_ok, enforced-proved h);
  record_ok = ground (arith, s.record_ok);
}
