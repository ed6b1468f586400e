-- ===== src/Auth/Creation.antt =====
-- A Create keeps the world safe, whatever it reads.
use assayd.Base.{
  ℕ, zero, suc, ◌≡◌, refl, sym, subst, ◌∙◌, true, false, not, ◌&&◌, inl, inr, Option, none, some,
  List, ◌∷◌, String, ◌==◌, arith, eq_iff, Bool-cases,
}
use assayd.Status.{
  AuthTransaction, AuthStatus, Stage, preparing_route, applying_policies, converging, probing_after,
  publishing, refused, probing_before, other,
}
use assayd.Auth.{AuthTarget, mode_none, mode_api_key, is_create_kind, is_publishing}
use assayd.Auth.Publication.{
  Effect, AuthPass, PassInput, served_record, create_target, aimed, unaimed, with_target,
  TargetRead, route_publication_for, some_foreign, collected,
}
use assayd.Auth.Create.{
  CreateReads, Round, again, done, ensure, continued, is_absent, publishes, publishing_round,
  stage_round, create_round, create_rounds, run_create,
}
use assayd.Auth.World.{
  proved, enforced, guarded, grounded, AuthWorld, play, IsSafe, IsSound, IsSound-end,
  IsSound-append, enforced-proved,
}
use assayd.Auth.Rounds.{
  holding, RoundIsSound, write-IsSafe, moves-IsSound, preparing_round-IsSound,
  applying_round-IsSound, settling_round-IsSound, publish-IsSafe,
}

-- The target is the transaction's.
pub record IsAimed (target : AuthTarget) (tx : AuthTransaction) : Type 0 where
  pub same : target.mode ≡ tx.target_mode
  pub known : (target.mode == mode_none) ≡ false → (target.mode == mode_api_key) ≡ true

abbrev pub Aims : TargetRead → AuthTransaction → Type 0
Aims (aimed target) tx = IsAimed target tx
Aims (unaimed e) tx = Unit

pub create_target-Aims :
    (rendered : Option String) (tx : AuthTransaction) → Aims (create_target rendered tx) tx
unfolding create_target
create_target-Aims none tx = elim (Bool-cases (tx.target_mode == mode_none)) [
  | inl e ↦ rw e (record {
    same = ground (arith, e, eq_iff tx.target_mode mode_none);
    known = λ n. ground (arith, n);
  })
  | inr e ↦ elim (Bool-cases (tx.target_mode == mode_api_key)) [
    | inl k ↦ rw (e, k) tt
    | inr k ↦ rw (e, k) tt
  ]
]
create_target-Aims (some d) tx = elim (Bool-cases (tx.target_mode == mode_none)) [
  | inl e ↦ rw e (record {
    same = ground (arith, e, eq_iff tx.target_mode mode_none);
    known = λ n. ground (arith, n);
  })
  | inr e ↦ elim (Bool-cases (tx.target_mode == mode_api_key)) [
    | inl k ↦ elim (Bool-cases (d == tx.target_digest)) [
      | inl q ↦
          rw (e, k, q)
            (record {
              same = ground (arith, k, eq_iff tx.target_mode mode_api_key);
              known = λ n. refl;
            })
      | inr q ↦ rw (e, k, q) tt
    ]
    | inr k ↦ rw (e, k) tt
  ]
]

-- A pass that needs a target writes nothing without one.
pub with_target-IsSound :
    (w : AuthWorld) (tx : AuthTransaction) (t : TargetRead) (run : AuthTarget → AuthPass)
    → Aims t tx
    → IsSafe w
    → ((target : AuthTarget) → IsAimed target tx → IsSound w (run target).effects)
    → IsSound w (with_target t run).effects
with_target-IsSound w tx (aimed target) run a s f = f target a
with_target-IsSound w tx (unaimed e) run a s f = s

-- A served record is borne out where, for keys, a 401 was credited since the route was last prepared.
pub grounded-served_record :
    (inp : PassInput) (target : AuthTarget) (h : List Effect)
    → ((target.mode == mode_none) ≡ false → proved h ≡ true)
    → grounded (some (served_record inp target)) h ≡ true
unfolding served_record grounded
grounded-served_record inp target h p = elim (Bool-cases (target.mode == mode_none)) [
  | inl e ↦ rw e refl
  | inr e ↦ rw (e, p e) refl
]

proved-publish :
    (name : String) (auth : AuthStatus) (tx : AuthTransaction) (target : AuthTarget)
    (h : List Effect)
    → is_create_kind tx.kind ≡ true
    → is_publishing tx.stage ≡ true
    → IsAimed target tx
    → IsSafe (holding auth tx h)
    → (target.mode == mode_none) ≡ false
    → proved (collected name ∷ ensure auth tx ∷ h) ≡ true
unfolding route_publication_for proved grounded
proved-publish name auth tx target h k q t s n =
    ground (arith, k, q, t.same, t.known n, s.record_ok, enforced-proved h)

publishes-IsSound :
    (inp : PassInput) (target : AuthTarget) (r : CreateReads) (auth : AuthStatus)
    (tx : AuthTransaction) (h : List Effect)
    → is_create_kind tx.kind ≡ true
    → is_publishing tx.stage ≡ true
    → IsAimed target tx
    → IsSafe (holding auth tx h)
    → RoundIsSound (holding auth tx h) auth tx (publishes inp target r auth tx)
unfolding publishes served_record route_publication_for proved enforced guarded grounded
publishes-IsSound inp target r auth tx h k q t s =
    let opened = publish-IsSafe auth tx h k q s in
    let kept : IsSafe (holding auth tx (collected inp.route_name ∷ ensure auth tx ∷ h)) = record {
      log = ground (arith, opened.log);
      record_ok = ground (arith, opened.record_ok);
    } in
    elim (Bool-cases (r.gone && target.mode == mode_api_key)) [
      | inl e ↦ rw e (moves-IsSound auth tx preparing_route h (inl refl) s)
      | inr e ↦ elim (Bool-cases r.route_converged) [
        | inl c ↦
            rw (e, c)
              (
                s,
                (
                  opened,
                  (
                    kept,
                    write-IsSafe _ _ _ kept (
                        grounded-served_record inp target
                          (collected inp.route_name ∷ ensure auth tx ∷ h)
                          (proved-publish inp.route_name auth tx target h k q t s)),
                  ),
                ),
              )
        | inr c ↦ rw (e, c) (s, (opened, kept))
      ]
    ]

publishing_round-IsSound :
    (inp : PassInput) (target : AuthTarget) (rev : String) (r : CreateReads) (auth : AuthStatus)
    (tx : AuthTransaction) (h : List Effect)
    → is_create_kind tx.kind ≡ true
    → is_publishing tx.stage ≡ true
    → IsAimed target tx
    → IsSafe (holding auth tx h)
    → RoundIsSound (holding auth tx h) auth tx (publishing_round inp target rev r auth tx)
unfolding publishing_round
publishing_round-IsSound inp target rev r auth tx h k q t s =
    let back = moves-IsSound auth tx preparing_route h (inl refl) s in
    let is_key = target.mode == mode_api_key in
    elim (Bool-cases (is_key && not r.intact)) [
      | inl e ↦ rw e back
      | inr e ↦ elim (Bool-cases (rev == "")) [
        | inl v ↦ rw (e, v) s
        | inr v ↦ elim (Bool-cases (some_foreign inp.foreign)) [
          | inl f ↦ rw (e, v, f) s
          | inr f ↦ elim (Bool-cases (is_absent r.current && is_key)) [
            | inl a ↦ rw (e, v, f, a) back
            | inr a ↦ rw (e, v, f, a) (publishes-IsSound inp target r auth tx h k q t s)
          ]
        ]
      ]
    ]

-- Every stage's round keeps the world safe.
stage_round-IsSound :
    (stage : Stage) (inp : PassInput) (target : AuthTarget) (rev : String) (r : CreateReads)
    (auth : AuthStatus) (tx : AuthTransaction) (h : List Effect)
    → tx.stage ≡ stage
    → is_create_kind tx.kind ≡ true
    → IsAimed target tx
    → IsSafe (holding auth tx h)
    → RoundIsSound (holding auth tx h) auth tx (stage_round stage inp target rev r auth tx)
unfolding stage_round
stage_round-IsSound preparing_route inp target rev r auth tx h q k t s =
    preparing_round-IsSound inp auth tx h k (rw q refl) s
stage_round-IsSound applying_policies inp target rev r auth tx h q k t s =
    applying_round-IsSound inp auth tx h (rw q refl) s
stage_round-IsSound converging inp target rev r auth tx h q k t s =
    settling_round-IsSound inp r true auth tx h k (rw q refl) s
stage_round-IsSound probing_after inp target rev r auth tx h q k t s =
    settling_round-IsSound inp r false auth tx h k (rw q refl) s
stage_round-IsSound publishing inp target rev r auth tx h q k t s =
    publishing_round-IsSound inp target rev r auth tx h k (rw q refl) t s
stage_round-IsSound refused inp target rev r auth tx h q k t s = s
stage_round-IsSound probing_before inp target rev r auth tx h q k t s = s
stage_round-IsSound (other x) inp target rev r auth tx h q k t s = s

-- The rounds that follow a sound one, from what it stored.
pub continued-IsSound :
    (w : AuthWorld) (auth : AuthStatus) (old : AuthTransaction) (r : Round)
    (rest : AuthTransaction → AuthPass)
    → RoundIsSound w auth old r
    → ((tx : AuthTransaction) (h : List Effect)
        → tx.kind ≡ old.kind
        → tx.target_mode ≡ old.target_mode
        → IsSafe (holding auth tx h)
        → IsSound (holding auth tx h) (rest tx).effects)
    → IsSound w (continued r rest).effects
continued-IsSound w auth old (done es e) rest s f = s
continued-IsSound w auth old (again es tx) rest (s, q, k, m) f =
    let g = (play w es).history in
    IsSound-append w es (rest tx).effects s (
      subst (λ stored. IsSound (record { stored = stored; history = g }) (rest tx).effects) (sym q)
        (f tx g k m (
          subst (λ stored. IsSafe (record { stored = stored; history = g })) q
            (IsSound-end w es s))))

pub create_rounds-IsSound :
    (n : ℕ) (inp : PassInput) (target : AuthTarget) (rev : String) (reads : ℕ → CreateReads)
    (auth : AuthStatus) (tx : AuthTransaction) (h : List Effect)
    → is_create_kind tx.kind ≡ true
    → IsAimed target tx
    → IsSafe (holding auth tx h)
    → IsSound (holding auth tx h) (create_rounds n inp target rev reads auth tx).effects
unfolding create_rounds create_round
create_rounds-IsSound zero inp target rev reads auth tx h k t s = s
create_rounds-IsSound (suc n) inp target rev reads auth tx h k t s =
    continued-IsSound (holding auth tx h) auth tx _ (create_rounds n inp target rev reads auth)
      (stage_round-IsSound tx.stage inp target rev (reads (suc n)) auth tx h refl k t s)
      (λ next g same mode safe.
        create_rounds-IsSound n inp target rev reads auth next g (rw same k)
          (record { same = t.same ∙ sym mode; known = t.known }) safe)

-- A run of the Create keeps the world safe, whatever it reads.
pub run_create-IsSound :
    (inp : PassInput) (rev : String) (reads : ℕ → CreateReads) (auth : AuthStatus)
    (tx : AuthTransaction) (h : List Effect)
    → is_create_kind tx.kind ≡ true
    → IsSafe (holding auth tx h)
    → IsSound (holding auth tx h) (run_create inp rev reads auth tx).effects
unfolding run_create
run_create-IsSound inp rev reads auth tx h k s =
    with_target-IsSound (holding auth tx h) tx (create_target inp.rendered tx) _
      (create_target-Aims inp.rendered tx) s
      (λ target t. create_rounds-IsSound 12 inp target rev reads auth tx h k t s)
