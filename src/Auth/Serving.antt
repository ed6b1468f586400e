-- ===== src/Auth/Serving.antt =====
-- A Create for keys ends served in one pass, when everything is in place.
use assayd.Base.{
  ℕ, zero, suc, ◌≡◌, ◌≤◌, ◌<◌, refl, sym, subst, ap, ◌∙◌, Bool, true, false, not, ◌&&◌, ◌||◌, some,
  List, [], ◌∷◌, String, ◌==◌, arith, if◌then◌else◌, eq_iff, eq_refl,
}
use assayd.Status.{
  Stage, preparing_route, applying_policies, converging, probing_after, publishing, refused,
  probing_before, other, AuthTransaction, AuthStatus,
}
use assayd.Auth.{AuthTarget, mode_none, mode_api_key}
use assayd.Auth.Publication.{
  Effect, served, AuthPass, PassInput, create_target, foreign_at_own_name, some_foreign,
  served_record, with_target, aimed, TargetRead,
}
use assayd.Auth.Create.{
  CreateReads, Round, ensure, again, done, following, continued, is_absent, is_401, held_by_gateway,
  preparing_round, applying_round, probing_round, converging_round, settling_round, publishes,
  publishing_round, stage_round, create_round, create_rounds, run_create,
}
use assayd.Auth.World.{AuthWorld, play, play-append}
use assayd.Auth.Ready.{IsUndisturbed, rounds_left, rounds_left-pos}

-- What a round reads when the gateway has taken the route and the policy and nothing stands above them.
pub record IsFavourable (r : CreateReads) : Type 0 where
  pub undisturbed : IsUndisturbed r
  pub not_nacked : r.nacked ≡ false
  pub route_taken : r.route_converged ≡ true
  pub policy_taken : r.policy_converged ≡ true
  pub none_above : r.above_before ≡ false
  pub none_above_after : r.above_after ≡ false
  pub unauthorized : is_401 r.answer ≡ true

-- The pass ends served, and whatever was stored, the served record is stored at its end.
abbrev pub Serves : PassInput → AuthTarget → AuthPass → Type 0
Serves inp target p =
    (p.end ≡ served)
    × ((w : AuthWorld) → (play w p.effects).stored ≡ some (served_record inp target))

abbrev pub is_create_stage : Stage → Bool
is_create_stage preparing_route = true
is_create_stage applying_policies = true
is_create_stage converging = true
is_create_stage probing_after = true
is_create_stage publishing = true
is_create_stage _ = false

-- The round is the last, which serves, or leads to one with fewer rounds left.
abbrev Leads : PassInput → AuthTarget → Stage → Round → Type 0
Leads inp target stage (done es e) =
    (e ≡ served) × ((w : AuthWorld) → (play w es).stored ≡ some (served_record inp target))
Leads inp target stage (again es tx) =
    (rounds_left tx.stage < rounds_left stage) × (is_create_stage tx.stage ≡ true)

module _ (inp : PassInput) (target : AuthTarget) where
  branch-Leads :
      (stage : Stage) (b : Bool) (x y : Round)
      → (b ≡ true → Leads inp target stage x)
      → (b ≡ false → Leads inp target stage y)
      → Leads inp target stage (if b then x else y)
  branch-Leads stage true x y f g = f refl
  branch-Leads stage false x y f g = g refl

  following-Leads :
      (stage : Stage) (es : List Effect) (r : Round)
      → Leads inp target stage r
      → Leads inp target stage (following es r)
  following-Leads stage es (again fs tx) l = l
  following-Leads stage es (done fs e) l = (l.0, λ w. rw (play-append w es fs) (l.1 (play w es)))

  converging-Leads :
      (r : CreateReads) (auth : AuthStatus) (tx : AuthTransaction)
      → IsFavourable r
      → Leads inp target converging (settling_round inp r true auth tx)
  unfolding settling_round converging_round
  converging-Leads r auth tx f =
      let u = f.undisturbed in
      following-Leads converging (ensure auth tx ∷ []) _ (
        branch-Leads converging (r.created || not r.intact) _ _
          (λ e. absurd (ground (arith, u.not_created, u.kept, e)))
          (λ e.
            branch-Leads converging r.nacked _ _ (λ n. absurd (ground (arith, f.not_nacked, n)))
              (λ n.
                branch-Leads converging (r.route_converged && r.policy_converged) _ _
                  (λ c. (omega arith, refl))
                  (λ c. absurd (ground (arith, f.route_taken, f.policy_taken, c))))))

  probing-Leads :
      (r : CreateReads) (auth : AuthStatus) (tx : AuthTransaction)
      → IsFavourable r
      → some_foreign inp.foreign ≡ false
      → Leads inp target probing_after (settling_round inp r false auth tx)
  unfolding settling_round probing_round
  probing-Leads r auth tx f alone =
      let u = f.undisturbed in
      following-Leads probing_after (ensure auth tx ∷ []) _ (
        branch-Leads probing_after (r.created || not r.intact) _ _
          (λ e. absurd (ground (arith, u.not_created, u.kept, e)))
          (λ e.
            branch-Leads probing_after r.nacked _ _ (λ n. absurd (ground (arith, f.not_nacked, n)))
              (λ n.
                branch-Leads probing_after (some_foreign inp.foreign) _ _
                  (λ c. absurd (ground (arith, alone, c)))
                  (λ c.
                    branch-Leads probing_after (is_401 r.answer && not (held_by_gateway r)) _ _
                      (λ p. (omega arith, refl))
                      (λ p.
                        absurd
                          (ground (arith, f.unauthorized, f.none_above, f.none_above_after, p)))))))

  publishing-Leads :
      (rev : String) (r : CreateReads) (auth : AuthStatus) (tx : AuthTransaction)
      → IsFavourable r
      → some_foreign inp.foreign ≡ false
      → (rev == "") ≡ false
      → Leads inp target publishing (publishing_round inp target rev r auth tx)
  unfolding publishing_round publishes
  publishing-Leads rev r auth tx f alone serves =
      let u = f.undisturbed in
      let is_key = target.mode == mode_api_key in
      branch-Leads publishing (is_key && not r.intact) _ _ (λ e. absurd (ground (arith, u.kept, e)))
        (λ e.
          branch-Leads publishing (rev == "") _ _ (λ v. absurd (ground (arith, serves, v)))
            (λ v.
              branch-Leads publishing (some_foreign inp.foreign) _ _
                (λ c. absurd (ground (arith, alone, c)))
                (λ c.
                  branch-Leads publishing (is_absent r.current && is_key) _ _
                    (λ a. absurd (ground (arith, u.there, a)))
                    (λ a.
                      branch-Leads publishing (r.gone && is_key) _ _
                        (λ g. absurd (ground (arith, u.not_gone, g)))
                        (λ g.
                          branch-Leads publishing r.route_converged _ _ (λ k. (refl, λ w. refl))
                            (λ k. absurd (ground (arith, f.route_taken, k))))))))

  stage_round-Leads :
      (stage : Stage) (rev : String) (r : CreateReads) (auth : AuthStatus) (tx : AuthTransaction)
      → is_create_stage stage ≡ true
      → IsFavourable r
      → some_foreign inp.foreign ≡ false
      → foreign_at_own_name inp.foreign inp.own_policy ≡ false
      → (rev == "") ≡ false
      → Leads inp target stage (stage_round stage inp target rev r auth tx)
  unfolding stage_round preparing_round applying_round
  stage_round-Leads preparing_route rev r auth tx p f alone own serves = (omega arith, refl)
  stage_round-Leads applying_policies rev r auth tx p f alone own serves =
      branch-Leads applying_policies (foreign_at_own_name inp.foreign inp.own_policy) _ _
        (λ e. absurd (ground (arith, own, e))) (λ e. (omega arith, refl))
  stage_round-Leads converging rev r auth tx p f alone own serves = converging-Leads r auth tx f
  stage_round-Leads probing_after rev r auth tx p f alone own serves =
      probing-Leads r auth tx f alone
  stage_round-Leads publishing rev r auth tx p f alone own serves =
      publishing-Leads rev r auth tx f alone serves
  stage_round-Leads refused rev r auth tx p f alone own serves = absurd (ground arith)
  stage_round-Leads probing_before rev r auth tx p f alone own serves = absurd (ground arith)
  stage_round-Leads (other x) rev r auth tx p f alone own serves = absurd (ground arith)

  continued-Serves :
      (stage : Stage) (r : Round) (rest : AuthTransaction → AuthPass)
      → Leads inp target stage r
      → ((tx : AuthTransaction)
          → rounds_left tx.stage < rounds_left stage
          → is_create_stage tx.stage ≡ true
          → Serves inp target (rest tx))
      → Serves inp target (continued r rest)
  continued-Serves stage (done es e) rest l f = l
  continued-Serves stage (again es tx) rest l f =
      let next = f tx l.0 l.1 in
      (next.0, λ w. rw (play-append w es (rest tx).effects) (next.1 (play w es)))

  create_rounds-Serves :
      (n : ℕ) (rev : String) (reads : ℕ → CreateReads) (auth : AuthStatus) (tx : AuthTransaction)
      → ((k : ℕ) → IsFavourable (reads k))
      → some_foreign inp.foreign ≡ false
      → foreign_at_own_name inp.foreign inp.own_policy ≡ false
      → (rev == "") ≡ false
      → is_create_stage tx.stage ≡ true
      → rounds_left tx.stage ≤ n
      → Serves inp target (create_rounds n inp target rev reads auth tx)
  unfolding create_rounds create_round
  create_rounds-Serves zero rev reads auth tx f alone own serves p le =
      absurd (ground (arith, (rounds_left-pos tx.stage).0, le))
  create_rounds-Serves (suc n) rev reads auth tx f alone own serves p le =
      continued-Serves tx.stage _ (create_rounds n inp target rev reads auth)
        (stage_round-Leads tx.stage rev (reads (suc n)) auth tx p (f (suc n)) alone own serves)
        (λ next lt q.
          create_rounds-Serves n rev reads auth next f alone own serves q (omega (arith, lt, le)))

pub create_target-aimed :
    (tx : AuthTransaction)
    → tx.target_mode ≡ mode_api_key
    → create_target (some tx.target_digest) tx
      ≡ aimed (record { mode = mode_api_key; digest = tx.target_digest })
unfolding create_target
create_target-aimed tx m =
    let is_key = (eq_iff tx.target_mode mode_api_key).1 m in
    let not_none : (tx.target_mode == mode_none) ≡ false =
      subst (λ m. (m == mode_none) ≡ false) (sym m) refl in
    rw (not_none, is_key, eq_refl tx.target_digest) refl

with_target-Serves :
    (inp : PassInput) (t : TargetRead) (target : AuthTarget) (run : AuthTarget → AuthPass)
    → t ≡ aimed target
    → Serves inp target (run target)
    → Serves inp target (with_target t run)
with_target-Serves inp t target run q s =
    subst (λ t. Serves inp target (with_target t run)) (sym q) s

-- A Create for apikey, at any of its stages, with the recorded digest rendered, no policy but the
-- operator's and a revision that serves, ends served within one pass, and its served record is stored,
-- where each round reads that the gateway took the route and the policy, that nothing above them stands,
-- that nobody removed them, and a 401.
pub run_create-Serves :
    (inp : PassInput) (rev : String) (reads : ℕ → CreateReads) (auth : AuthStatus)
    (tx : AuthTransaction)
    → ((k : ℕ) → IsFavourable (reads k))
    → inp.foreign ≡ []
    → (rev == "") ≡ false
    → inp.rendered ≡ some tx.target_digest
    → tx.target_mode ≡ mode_api_key
    → is_create_stage tx.stage ≡ true
    → Serves inp
        (record { mode = mode_api_key; digest = tx.target_digest })
        (run_create inp rev reads auth tx)
unfolding run_create foreign_at_own_name
run_create-Serves inp rev reads auth tx f alone serves q m p =
    with_target-Serves inp (create_target inp.rendered tx)
      (record { mode = mode_api_key; digest = tx.target_digest }) _
      (ap (λ rendered. create_target rendered tx) q ∙ create_target-aimed tx m)
      (create_rounds-Serves inp (record { mode = mode_api_key; digest = tx.target_digest }) 12 rev
        reads auth tx f (ap some_foreign alone)
        (ap (λ fs. foreign_at_own_name fs inp.own_policy) alone) serves p
        (ground (arith, (rounds_left-pos tx.stage).1)))
