-- ===== src/Rollout/Promotion.antt =====
-- When a revision comes to serve, and what a pass leaves of the candidate.
use assayd.Base.{
  ◌≡◌, ◌≢◌, refl, sym, ap, ◌∙◌, subst, Bool, true, false, not, ◌&&◌, ◌||◌, ◌⊎◌, inl, inr, Option,
  none, some, List, String, ◌==◌, if◌then◌else◌, arith, Bool-cases, eq_iff,
}
use assayd.Status.{AgentStatus}
use assayd.Gate.{
  satisfied_decision, GateDecision, GateMode, gate_none, gate_unwired, gate_crd_absent,
  gate_enforced,
}
use assayd.Gate.Promotion.{IsPromotable, decide_gate-satisfied_iff}
use assayd.Predicates.{i1_hold}
use assayd.Rollout.{
  auth_held, Phase, Report, reporting, with_candidate, Rollout, RolloutInput, Collision,
  collision_against_status, supersede, rollout_gate, gate_by_mode, gather_gate_input, promoted,
  is_candidate, rolling_out, not_available, held_for_auth, held_by_gate, promotion_switch, recarded,
  unless_colliding, roll_out,
}

-- The digest of the revision that serves.
abbrev pub serving : Rollout → String
serving r = r.status.active_revision_digest

-- No candidate, or one that is not the revision serving.
abbrev pub is_apart : Rollout → Bool
is_apart r =
    r.status.candidate_revision_digest == ""
    || not (r.status.candidate_revision_digest == r.status.active_revision_digest)

-- The switch leaves the serving revision, or promotes one that is ready, not held and satisfied.
record Switched (inp : RolloutInput) (gate : GateDecision) (r s : Rollout) : Type 0 where
  apart : is_apart s ≡ true
  moves :
      (s.status.active_revision ≡ r.status.active_revision) × (serving s ≡ serving r)
      ⊎ (inp.is_ready ≡ true)
        × ((auth_held inp r.status
              && (not (r.status.active_revision == "") && is_candidate inp r.status))
            ≡ false)
        × ((not gate.satisfied && is_candidate inp r.status) ≡ false)
        × (s.status.active_revision ≡ inp.desired)
        × (serving s ≡ inp.desired_digest)

branch-Switched :
    (inp : RolloutInput) (gate : GateDecision) (r : Rollout) (c : Bool) (x y : Rollout)
    → (c ≡ true → Switched inp gate r x)
    → (c ≡ false → Switched inp gate r y)
    → Switched inp gate r (if c then x else y)
branch-Switched inp gate r true x y f g = f refl
branch-Switched inp gate r false x y f g = g refl

-- Another candidate than the revision serving.
candidate-Switched :
    (inp : RolloutInput) (gate : GateDecision) (r : Rollout) (phase : Phase) (reports : List Report)
    → is_candidate inp r.status ≡ true
    → Switched inp gate r
        (reporting r phase (with_candidate r.status inp.desired inp.desired_digest) reports)
candidate-Switched inp gate r phase reports a = record {
  apart = ground (
    arith,
    a,
    eq_iff inp.desired_digest r.status.active_revision_digest,
    eq_iff r.status.active_revision_digest inp.desired_digest,
  );
  moves = inl (refl, refl);
}

promotion_switch-Switched :
    (inp : RolloutInput) (gate : GateDecision) (r : Rollout)
    → Switched inp gate r (promotion_switch inp gate r)
unfolding promotion_switch
promotion_switch-Switched inp gate r =
    branch-Switched inp gate r _ (rolling_out inp gate r) _
      (λ a. candidate-Switched inp gate r _ _ (ground (arith, a)))
      (λ a.
        branch-Switched inp gate r (not inp.is_ready) (not_available inp gate r) _
          (λ b.
            branch-Switched inp gate r (r.status.active_revision_digest == inp.desired_digest) _ _
              (λ c. record { apart = refl; moves = inl (refl, refl) })
              (λ c. candidate-Switched inp gate r _ _ (ground (arith, c))))
          (λ b.
            branch-Switched inp gate r _ (held_for_auth inp r) _
              (λ c. candidate-Switched inp gate r _ _ (ground (arith, c)))
              (λ c.
                branch-Switched inp gate r _ (held_by_gate inp gate r) (promoted inp r)
                  (λ d. candidate-Switched inp gate r _ _ (ground (arith, d)))
                  (λ d. record {
                    apart = refl;
                    moves = inr (ground (arith, b), c, d, refl, refl);
                  }))))

-- The gate of a promotion: passed, or not asked.
abbrev pub IsGated : RolloutInput → Rollout → Type 0
IsGated inp r =
    (inp.pin_admitted ≡ true)
    ⊎ (inp.gating ≡ gate_none)
    ⊎ (inp.gating ≡ gate_crd_absent)
    ⊎ (inp.gating ≡ gate_enforced)
      × ((st : AgentStatus) × (st.eval ≡ r.status.eval)
          × (st.cards ≡ inp.cards)
          × IsPromotable (gather_gate_input inp st))

-- What a promotion rests on: the revision's workload was ready, no -auth hold stood before it while
-- another served, and its gate was passed, or was not asked of it.
pub record IsPromotion (inp : RolloutInput) (r s : Rollout) : Type 0 where
  pub revision : s.status.active_revision ≡ inp.desired
  pub digest : serving s ≡ inp.desired_digest
  pub ready : inp.is_ready ≡ true
  pub unheld : (auth_held inp r.status ≡ false) ⊎ (r.status.active_revision ≡ "")
  pub gate : IsGated inp r

gate_by_mode-satisfied :
    (inp : RolloutInput) (st : AgentStatus) (mode : GateMode)
    → (gate_by_mode inp st mode).satisfied ≡ true
    → (mode ≡ gate_none)
      ⊎ (mode ≡ gate_crd_absent)
      ⊎ (mode ≡ gate_enforced) × IsPromotable (gather_gate_input inp st)
gate_by_mode-satisfied inp st gate_none q = inl refl
gate_by_mode-satisfied inp st gate_unwired q = absurd (ground (arith, q))
gate_by_mode-satisfied inp st gate_crd_absent q = inr (inl refl)
gate_by_mode-satisfied inp st gate_enforced q =
    inr (inr (refl, (decide_gate-satisfied_iff (gather_gate_input inp st)).0 q))

rollout_gate-satisfied :
    (inp : RolloutInput) (st : AgentStatus)
    → (rollout_gate inp st).satisfied ≡ true
    → is_candidate inp st ≡ true
    → (inp.pin_admitted ≡ true)
      ⊎ (inp.gating ≡ gate_none)
      ⊎ (inp.gating ≡ gate_crd_absent)
      ⊎ (inp.gating ≡ gate_enforced) × IsPromotable (gather_gate_input inp st)
unfolding rollout_gate
rollout_gate-satisfied inp st q c = elim (Bool-cases inp.pin_admitted) [
  | inl p ↦ inl p
  | inr p ↦
      let asked : (st.active_revision_digest == inp.desired_digest || inp.pin_admitted) ≡ false =
        ground (arith, p, c) in
      let decided =
        ap (λ b. (if b then satisfied_decision else gate_by_mode inp st inp.gating).satisfied)
          asked in
      inr (gate_by_mode-satisfied inp st inp.gating (sym decided ∙ q))
]

-- What a pass before the switch leaves as it is.
pub record Carried (inp : RolloutInput) (r s : Rollout) : Type 0 where
  pub revision : s.status.active_revision ≡ r.status.active_revision
  pub digest : serving s ≡ serving r
  pub eval : s.status.eval ≡ r.status.eval
  pub held : auth_held inp (recarded inp s).status ≡ auth_held inp r.status

branch-Carried :
    (inp : RolloutInput) (r : Rollout) (c : Bool) (x y : Rollout)
    → Carried inp r x
    → Carried inp r y
    → Carried inp r (if c then x else y)
branch-Carried inp r true x y f g = f
branch-Carried inp r false x y f g = g

pub supersede-Carried : (inp : RolloutInput) (r : Rollout) → Carried inp r (supersede inp r)
unfolding supersede i1_hold
supersede-Carried inp r =
    branch-Carried inp r _ _ _ (record { revision = refl; digest = refl; eval = refl; held = refl })
      (record { revision = refl; digest = refl; eval = refl; held = refl })

rollout_or : Rollout → Option Rollout → Rollout
rollout_or d none = d
rollout_or d (some r) = r

pub unless_colliding-some :
    (c : Option Collision) (x s : Rollout) → unless_colliding c x ≡ some s → x ≡ s
unfolding rollout_or
unless_colliding-some none x s q = ap (rollout_or x) q
unless_colliding-some (some c) x s q = absurd (ground (arith, q))

abbrev superseding : RolloutInput → Rollout → Rollout
superseding inp r = recarded inp (supersede inp r)

roll_out-Switched :
    (inp : RolloutInput) (r s : Rollout)
    → roll_out inp r ≡ some s
    → Switched inp (rollout_gate inp (superseding inp r).status) (superseding inp r) s
unfolding roll_out
roll_out-Switched inp r s q =
    let next = superseding inp r in
    let gate = rollout_gate inp next.status in
    subst (λ x. Switched inp gate next x)
      (unless_colliding-some (collision_against_status r.status inp.desired inp.desired_digest) _ s
        q)
      (promotion_switch-Switched inp gate next)

false_of : (b : Bool) → (b ≡ true → ⊥) → b ≡ false
false_of true f = absurd (f refl)
false_of false f = refl

unheld_of :
    (inp : RolloutInput) (next r : Rollout)
    → next.status.active_revision ≡ r.status.active_revision
    → auth_held inp next.status ≡ auth_held inp r.status
    → (auth_held inp next.status && not (next.status.active_revision == "")) ≡ false
    → (auth_held inp r.status ≡ false) ⊎ (r.status.active_revision ≡ "")
unheld_of inp next r same held h = elim (Bool-cases (auth_held inp next.status)) [
  | inl e ↦ inr (sym same ∙ (eq_iff next.status.active_revision "").0 (ground (arith, e, h)))
  | inr e ↦ inl (sym held ∙ e)
]

gate_rests_on :
    (inp : RolloutInput) (r : Rollout) (st : AgentStatus)
    → st.eval ≡ r.status.eval
    → (inp.pin_admitted ≡ true)
      ⊎ (inp.gating ≡ gate_none)
      ⊎ (inp.gating ≡ gate_crd_absent)
      ⊎ (inp.gating ≡ gate_enforced)
        × IsPromotable (gather_gate_input inp (record st { cards = inp.cards }))
    → IsGated inp r
gate_rests_on inp r st e (inl p) = inl p
gate_rests_on inp r st e (inr (inl p)) = inr (inl p)
gate_rests_on inp r st e (inr (inr (inl p))) = inr (inr (inl p))
gate_rests_on inp r st e (inr (inr (inr (p, q)))) =
    inr (inr (inr (p, (record st { cards = inp.cards }, e, refl, q))))

-- After a pass that the collision guard lets through, the candidate is none or not the revision serving.
pub roll_out-apart :
    (inp : RolloutInput) (r s : Rollout) → roll_out inp r ≡ some s → is_apart s ≡ true
roll_out-apart inp r s q = (roll_out-Switched inp r s q).apart

-- A pass after which another digest serves promoted the revision that it was of: its workload was ready,
-- no -auth hold stood while an earlier revision served, and a pin was admitted, or no gate is declared, or
-- the CRD of EvalSuite is absent, or the gate's four conditions held on the recorded verdict and the card.
pub roll_out-IsPromotion :
    (inp : RolloutInput) (r s : Rollout)
    → roll_out inp r ≡ some s
    → serving s ≢ serving r
    → IsPromotion inp r s
roll_out-IsPromotion inp r s q moved =
    let next = superseding inp r in
    let kept = supersede-Carried inp r in
    elim (roll_out-Switched inp r s q).moves [
      | inl (revision, digest) ↦ absurd (moved (digest ∙ kept.digest))
      | inr (ready, held, gated, revision, digest) ↦
          let differs : (serving next == inp.desired_digest) ≡ false =
            false_of (serving next == inp.desired_digest) (λ e.
              moved
                (digest ∙ sym ((eq_iff (serving next) inp.desired_digest).0 e) ∙ kept.digest)) in
          let other : is_candidate inp next.status ≡ true = ground (arith, differs) in
          record {
            revision = revision;
            digest = digest;
            ready = ready;
            unheld = unheld_of inp next r kept.revision kept.held (ground (arith, held, other));
            gate =
                gate_rests_on inp r (supersede inp r).status kept.eval
                  (rollout_gate-satisfied inp next.status (ground (arith, gated, other)) other);
          }
    ]
