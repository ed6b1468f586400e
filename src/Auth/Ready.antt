-- ===== src/Auth/Ready.antt =====
-- A Create makes progress: undisturbed it settles within its rounds, and with everything in place it ends
-- served in one pass.
use assayd.Base.{
  ℕ, zero, suc, ◌≡◌, ◌≤◌, ◌<◌, refl, Bool, true, false, not, ◌&&◌, ◌||◌, List, [], ◌∷◌, String,
  ◌==◌, arith, if◌then◌else◌,
}
use assayd.Status.{
  Stage, preparing_route, applying_policies, converging, probing_after, publishing, refused,
  probing_before, other, AuthTransaction, AuthStatus,
}
use assayd.Auth.{AuthTarget, mode_api_key}
use assayd.Auth.Publication.{
  Effect, End, waiting, Unmet, not_settled, AuthPass, PassInput, create_target, foreign_at_own_name,
  some_foreign, with_target, aimed, unaimed, TargetRead,
}
use assayd.Auth.Create.{
  CreateReads, Round, ensure, again, done, following, continued, is_absent, is_401, held_by_gateway,
  preparing_round, applying_round, probing_round, converging_round, settling_round, publishes,
  publishing_round, stage_round, create_round, create_rounds, run_create,
}

-- Nobody else removes or changes the route and the policy.
pub record IsUndisturbed (r : CreateReads) : Type 0 where
  pub not_created : r.created ≡ false
  pub kept : r.intact ≡ true
  pub there : is_absent r.current ≡ false
  pub not_gone : r.gone ≡ false

abbrev is_unsettled : Unmet → Bool
is_unsettled not_settled = true
is_unsettled _ = false

-- The loop did not run out of rounds.
abbrev pub is_settled : End → Bool
is_settled (waiting u tx) = not (is_unsettled u)
is_settled _ = true

-- The rounds that are left of an undisturbed Create.
abbrev pub rounds_left : Stage → ℕ
rounds_left preparing_route = 5
rounds_left applying_policies = 4
rounds_left converging = 3
rounds_left probing_after = 2
rounds_left _ = 1

-- The round ends the pass, or the next has fewer rounds left.
abbrev Advances : Stage → Round → Type 0
Advances stage (done es e) = is_settled e ≡ true
Advances stage (again es tx) = rounds_left tx.stage < rounds_left stage

branch-Advances :
    (stage : Stage) (b : Bool) (x y : Round)
    → (b ≡ true → Advances stage x)
    → (b ≡ false → Advances stage y)
    → Advances stage (if b then x else y)
branch-Advances stage true x y f g = f refl
branch-Advances stage false x y f g = g refl

following-Advances :
    (stage : Stage) (es : List Effect) (r : Round)
    → Advances stage r
    → Advances stage (following es r)
following-Advances stage es (again fs tx) a = a
following-Advances stage es (done fs e) a = a

settling-Advances :
    (inp : PassInput) (r : CreateReads) (auth : AuthStatus) (tx : AuthTransaction)
    → IsUndisturbed r
    → Advances converging (settling_round inp r true auth tx)
      × Advances probing_after (settling_round inp r false auth tx)
unfolding settling_round converging_round probing_round
settling-Advances inp r auth tx u = (
  following-Advances converging (ensure auth tx ∷ []) _ (
      branch-Advances converging (r.created || not r.intact) _ _
        (λ e. absurd (ground (arith, u.not_created, u.kept, e)))
        (λ e.
          branch-Advances converging r.nacked _ _ (λ n. refl)
            (λ n.
              branch-Advances converging (r.route_converged && r.policy_converged) _ _
                (λ c. omega arith) (λ c. refl)))),
  following-Advances probing_after (ensure auth tx ∷ []) _ (
      branch-Advances probing_after (r.created || not r.intact) _ _
        (λ e. absurd (ground (arith, u.not_created, u.kept, e)))
        (λ e.
          branch-Advances probing_after r.nacked _ _ (λ n. refl)
            (λ n.
              branch-Advances probing_after (some_foreign inp.foreign) _ _ (λ c. refl)
                (λ c.
                  branch-Advances probing_after (is_401 r.answer && not (held_by_gateway r)) _ _
                    (λ p. omega arith) (λ p. refl))))),
)

publishing-Advances :
    (inp : PassInput) (target : AuthTarget) (rev : String) (r : CreateReads) (auth : AuthStatus)
    (tx : AuthTransaction)
    → IsUndisturbed r
    → Advances publishing (publishing_round inp target rev r auth tx)
unfolding publishing_round publishes
publishing-Advances inp target rev r auth tx u =
    let is_key = target.mode == mode_api_key in
    branch-Advances publishing (is_key && not r.intact) _ _
      (λ e. absurd (ground (arith, u.kept, e)))
      (λ e.
        branch-Advances publishing (rev == "") _ _ (λ v. refl)
          (λ v.
            branch-Advances publishing (some_foreign inp.foreign) _ _ (λ f. refl)
              (λ f.
                branch-Advances publishing (is_absent r.current && is_key) _ _
                  (λ a. absurd (ground (arith, u.there, a)))
                  (λ a.
                    branch-Advances publishing (r.gone && is_key) _ _
                      (λ g. absurd (ground (arith, u.not_gone, g)))
                      (λ g.
                        branch-Advances publishing r.route_converged _ _ (λ c. refl)
                          (λ c. refl))))))

stage_round-Advances :
    (stage : Stage) (inp : PassInput) (target : AuthTarget) (rev : String) (r : CreateReads)
    (auth : AuthStatus) (tx : AuthTransaction)
    → IsUndisturbed r
    → Advances stage (stage_round stage inp target rev r auth tx)
unfolding stage_round preparing_round applying_round
stage_round-Advances preparing_route inp target rev r auth tx u = omega arith
stage_round-Advances applying_policies inp target rev r auth tx u =
    branch-Advances applying_policies (foreign_at_own_name inp.foreign inp.own_policy) _ _
      (λ e. refl) (λ e. omega arith)
stage_round-Advances converging inp target rev r auth tx u = (settling-Advances inp r auth tx u).0
stage_round-Advances probing_after inp target rev r auth tx u =
    (settling-Advances inp r auth tx u).1
stage_round-Advances publishing inp target rev r auth tx u =
    publishing-Advances inp target rev r auth tx u
stage_round-Advances refused inp target rev r auth tx u = refl
stage_round-Advances probing_before inp target rev r auth tx u = refl
stage_round-Advances (other x) inp target rev r auth tx u = refl

continued-settles :
    (stage : Stage) (r : Round) (rest : AuthTransaction → AuthPass)
    → Advances stage r
    → ((tx : AuthTransaction)
        → rounds_left tx.stage < rounds_left stage
        → is_settled (rest tx).end ≡ true)
    → is_settled (continued r rest).end ≡ true
continued-settles stage (done es e) rest a f = a
continued-settles stage (again es tx) rest a f = f tx a

pub rounds_left-pos : (stage : Stage) → (0 < rounds_left stage) × (rounds_left stage ≤ 5)
rounds_left-pos preparing_route = (omega arith, omega arith)
rounds_left-pos applying_policies = (omega arith, omega arith)
rounds_left-pos converging = (omega arith, omega arith)
rounds_left-pos probing_after = (omega arith, omega arith)
rounds_left-pos publishing = (omega arith, omega arith)
rounds_left-pos refused = (omega arith, omega arith)
rounds_left-pos probing_before = (omega arith, omega arith)
rounds_left-pos (other x) = (omega arith, omega arith)

aimed-settles :
    (t : TargetRead) (run : AuthTarget → AuthPass)
    → ((target : AuthTarget) → is_settled (run target).end ≡ true)
    → is_settled (with_target t run).end ≡ true
aimed-settles (aimed target) run f = f target
aimed-settles (unaimed e) run f = refl

create_rounds-settles :
    (n : ℕ) (inp : PassInput) (target : AuthTarget) (rev : String) (reads : ℕ → CreateReads)
    (auth : AuthStatus) (tx : AuthTransaction)
    → ((k : ℕ) → IsUndisturbed (reads k))
    → rounds_left tx.stage ≤ n
    → is_settled (create_rounds n inp target rev reads auth tx).end ≡ true
unfolding create_rounds create_round
create_rounds-settles zero inp target rev reads auth tx u le =
    absurd (ground (arith, (rounds_left-pos tx.stage).0, le))
create_rounds-settles (suc n) inp target rev reads auth tx u le =
    continued-settles tx.stage _ (create_rounds n inp target rev reads auth)
      (stage_round-Advances tx.stage inp target rev (reads (suc n)) auth tx (u (suc n)))
      (λ next lt. create_rounds-settles n inp target rev reads auth next u (omega (arith, lt, le)))

-- Where nobody else removes or changes the route and the policy, a pass of the Create does not run out of
-- its twelve rounds, whatever else it reads.
pub run_create-settles :
    (inp : PassInput) (rev : String) (reads : ℕ → CreateReads) (auth : AuthStatus)
    (tx : AuthTransaction)
    → ((k : ℕ) → IsUndisturbed (reads k))
    → is_settled (run_create inp rev reads auth tx).end ≡ true
unfolding run_create
run_create-settles inp rev reads auth tx u =
    aimed-settles (create_target inp.rendered tx) _ (λ target.
      create_rounds-settles 12 inp target rev reads auth tx u
        (ground (arith, (rounds_left-pos tx.stage).1)))
