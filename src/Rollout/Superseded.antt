-- ===== src/Rollout/Superseded.antt =====
-- The list of superseded candidates: bounded, without repeats, and without the revision just promoted.
use assayd.Base.{
  ℕ, zero, suc, ◌≤◌, ◌-◌, ◌≡◌, refl, subst, Bool, true, false, not, ◌&&◌, ◌||◌, ◌⊎◌, ◌∙◌, inl, inr,
  some, List, [], ◌∷◌, ◌++◌, String, ◌==◌, if◌then◌else◌, arith, eq_iff, length, drop, ltb,
  length-drop,
}
use assayd.Gate.{GateDecision}
use assayd.Rollout.{
  Rollout, RolloutInput, contains_string, remove_string, append_superseded, trimmed, supersede,
  roll_out, promotion_switch, rollout_gate, recarded, collision_against_status,
  max_superseded_candidates, promoted, rolling_out, not_available, held_for_auth, held_by_gate,
  reporting, with_candidate, phase_degraded, phase_pending,
}
use assayd.Rollout.Names.{superseded_name}
use assayd.Rollout.Promotion.{serving, supersede-Carried, unless_colliding-some}

-- No text stands in the list twice.
unfoldable pub is_unique : List String → Bool
unfolding contains_string
is_unique [] = true
is_unique (x ∷ xs) = let rest = is_unique xs in not (contains_string xs x) && rest

pub record IsTidy (xs : List String) : Type 0 where
  pub bounded : length xs ≤ max_superseded_candidates
  pub unique : is_unique xs ≡ true

contains_string-append :
    (xs : List String) (y z : String)
    → contains_string (xs ++ (y ∷ [])) z ≡ (contains_string xs z || y == z)
unfolding contains_string
contains_string-append [] y z = ground arith
contains_string-append (x ∷ xs) y z = ground (arith, contains_string-append xs y z)

is_unique-append :
    (xs : List String) (y : String)
    → is_unique xs ≡ true
    → contains_string xs y ≡ false
    → is_unique (xs ++ (y ∷ [])) ≡ true
unfolding is_unique contains_string
is_unique-append [] y u c = refl
is_unique-append (x ∷ xs) y u c =
    let rest = is_unique-append xs y (ground (arith, u)) (ground (arith, c)) in
    ground (arith, u, c, rest, contains_string-append xs y x, eq_iff x y, eq_iff y x)

is_unique-drop : (n : ℕ) (xs : List String) → is_unique xs ≡ true → is_unique (drop n xs) ≡ true
unfolding is_unique
is_unique-drop zero xs u = u
is_unique-drop (suc n) [] u = refl
is_unique-drop (suc n) (x ∷ xs) u = is_unique-drop n xs (ground (arith, u))

branch-IsTidy :
    (c : Bool) (x y : List String)
    → (c ≡ true → IsTidy x)
    → (c ≡ false → IsTidy y)
    → IsTidy (if c then x else y)
branch-IsTidy true x y f g = f refl
branch-IsTidy false x y f g = g refl

trimmed-IsTidy : (xs : List String) → is_unique xs ≡ true → IsTidy (trimmed xs)
trimmed-IsTidy xs u =
    branch-IsTidy (ltb 10 (length xs)) (drop (length xs - 10) xs) xs
      (λ e. record {
        bounded = omega (arith, length-drop (length xs - 10) xs);
        unique = is_unique-drop (length xs - 10) xs u;
      })
      (λ e. record { bounded = ground (arith, e); unique = u })

append_superseded-IsTidy :
    (xs : List String) (rev : String) → IsTidy xs → IsTidy (append_superseded xs rev)
unfolding append_superseded
append_superseded-IsTidy xs rev t =
    branch-IsTidy (rev == "" || contains_string xs rev) xs (trimmed (xs ++ (rev ∷ []))) (λ e. t)
      (λ e.
        trimmed-IsTidy (xs ++ (rev ∷ [])) (is_unique-append xs rev t.unique (ground (arith, e))))

-- What is removed is gone, and what was not there stays so.
contains_string-remove_string :
    (xs : List String) (s t : String)
    → (contains_string (remove_string xs s) s ≡ false)
      × (contains_string xs t ≡ false → contains_string (remove_string xs s) t ≡ false)
unfolding contains_string remove_string
contains_string-remove_string [] s t = (refl, λ e. refl)
contains_string-remove_string (x ∷ xs) s t =
    let (gone, stays) = contains_string-remove_string xs s t in
    (ground (arith, gone), λ e. ground (arith, stays, e))

length-remove_string : (xs : List String) (s : String) → length (remove_string xs s) ≤ length xs
unfolding remove_string
length-remove_string [] s = omega arith
length-remove_string (x ∷ xs) s = ground (arith, length-remove_string xs s)

is_unique-remove_string :
    (xs : List String) (s : String) → is_unique xs ≡ true → is_unique (remove_string xs s) ≡ true
unfolding is_unique remove_string
is_unique-remove_string [] s u = refl
is_unique-remove_string (x ∷ xs) s u =
    let rest = is_unique-remove_string xs s (ground (arith, u)) in
    let stays = (contains_string-remove_string xs s x).1 (ground (arith, u)) in
    ground (arith, rest, stays)

remove_string-IsTidy : (xs : List String) (s : String) → IsTidy xs → IsTidy (remove_string xs s)
remove_string-IsTidy xs s t = record {
  bounded = omega (arith, t.bounded, length-remove_string xs s);
  unique = is_unique-remove_string xs s t.unique;
}

branch-Tidy :
    (c : Bool) (x y : Rollout)
    → IsTidy x.superseded
    → IsTidy y.superseded
    → IsTidy (if c then x else y).superseded
branch-Tidy true x y f g = f
branch-Tidy false x y f g = g

supersede-IsTidy :
    (inp : RolloutInput) (r : Rollout) → IsTidy r.superseded → IsTidy (supersede inp r).superseded
unfolding supersede
supersede-IsTidy inp r t =
    branch-Tidy _ _ r
      (append_superseded-IsTidy r.superseded
        (superseded_name r.status.candidate_revision r.status.candidate_revision_digest) t)
      t

-- The list after the switch: tidy, and without a revision that it promoted.
record Listed (r s : Rollout) : Type 0 where
  tidy : IsTidy s.superseded
  promoted_out :
      (serving s ≡ serving r)
      ⊎ (contains_string s.superseded (superseded_name s.status.active_revision (serving s))
          ≡ false)

branch-Listed :
    (r : Rollout) (c : Bool) (x y : Rollout)
    → Listed r x
    → Listed r y
    → Listed r (if c then x else y)
branch-Listed r true x y f g = f
branch-Listed r false x y f g = g

promotion_switch-Listed :
    (inp : RolloutInput) (gate : GateDecision) (r : Rollout)
    → IsTidy r.superseded
    → Listed r (promotion_switch inp gate r)
unfolding promotion_switch
promotion_switch-Listed inp gate r t =
    let digest_named = superseded_name inp.desired inp.desired_digest in
    branch-Listed r _ (rolling_out inp gate r) _ (record { tidy = t; promoted_out = inl refl })
      (branch-Listed r (not inp.is_ready) (not_available inp gate r) _
        (branch-Listed r (r.status.active_revision_digest == inp.desired_digest)
          (reporting r phase_degraded (with_candidate r.status "" "") _)
          (reporting r phase_pending (with_candidate r.status inp.desired inp.desired_digest) _)
          (record { tidy = t; promoted_out = inl refl })
          (record { tidy = t; promoted_out = inl refl }))
        (branch-Listed r _ (held_for_auth inp r) _ (record { tidy = t; promoted_out = inl refl })
          (branch-Listed r _ (held_by_gate inp gate r) (promoted inp r)
            (record { tidy = t; promoted_out = inl refl })
            (record {
              tidy = remove_string-IsTidy r.superseded digest_named t;
              promoted_out = inr (contains_string-remove_string r.superseded digest_named "").0;
            }))))

roll_out-Listed :
    (inp : RolloutInput) (r s : Rollout)
    → IsTidy r.superseded
    → roll_out inp r ≡ some s
    → Listed (recarded inp (supersede inp r)) s
unfolding roll_out
roll_out-Listed inp r s t q =
    let next = recarded inp (supersede inp r) in
    subst (λ x. Listed next x)
      (unless_colliding-some (collision_against_status r.status inp.desired inp.desired_digest) _ s
        q)
      (promotion_switch-Listed inp (rollout_gate inp next.status) next (supersede-IsTidy inp r t))

-- A pass over a list of at most ten superseded candidates, none of them twice, leaves such a list, and one
-- that does not have the revision that the pass brought to serve.
pub roll_out-IsTidy :
    (inp : RolloutInput) (r s : Rollout)
    → IsTidy r.superseded
    → roll_out inp r ≡ some s
    → IsTidy s.superseded
      × ((serving s ≡ serving r)
          ⊎ (contains_string s.superseded (superseded_name s.status.active_revision (serving s))
              ≡ false))
roll_out-IsTidy inp r s t q =
    let listed = roll_out-Listed inp r s t q in
    (
      listed.tidy,
      elim listed.promoted_out [
        | inl e ↦ inl (e ∙ (supersede-Carried inp r).digest)
        | inr e ↦ inr e
      ],
    )
