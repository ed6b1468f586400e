-- ===== src/Gate/Promotion.antt =====
-- When the gate branch lets a candidate through.
use assayd.Base.{
  ◌≡◌, ◌↔◌, true, false, Option, none, some, [], eq_iff, arith, Option-cases, inl, inr,
}
use assayd.Status.{Verdict, EvalStatus, EvalBlocked}
use assayd.Predicates.{has_card_for}
use assayd.Gate.{
  GateInput, decide_gate, pair_rows, transaction_rows, no_verdict_rows, blocked_row, blocked_of,
}

-- The four promotion conditions, and that the record and the suite could be read.
pub record IsPromotable (in_ : GateInput) : Type 0 where
  pub record_readable : in_.record_err ≡ none
  pub record_kept : in_.missing ≡ []
  pub suite_read : in_.suite_err ≡ none
  pub suite_digested : in_.digest_err ≡ false
  pub eval : EvalStatus
  pub recorded : in_.status.eval ≡ some eval
  pub passed : eval.verdict ≡ Verdict.passed
  pub revision : eval.revision_digest ≡ in_.desired_digest
  pub suite : eval.suite_digest ≡ in_.suite_digest
  pub card : has_card_for in_.status in_.desired_digest ≡ true

blocked_row_holds :
    (in_ : GateInput) (b : Option EvalBlocked) → (blocked_row in_ b).satisfied ≡ false
unfolding blocked_row no_verdict_rows
blocked_row_holds in_ none = ground arith
blocked_row_holds in_ (some b) = ground arith

transaction_rows_hold : (in_ : GateInput) → (transaction_rows in_).satisfied ≡ false
unfolding transaction_rows no_verdict_rows
transaction_rows_hold in_ = ground (arith, blocked_row_holds in_ (blocked_of in_.status.eval))

pair_rows_satisfied :
    (in_ : GateInput)
    → (pair_rows in_).satisfied ≡ true
    → (e : EvalStatus) × (in_.status.eval ≡ some e)
      × (e.verdict ≡ Verdict.passed)
      × (e.revision_digest ≡ in_.desired_digest)
      × (e.suite_digest ≡ in_.suite_digest)
      × (has_card_for in_.status in_.desired_digest ≡ true)
unfolding pair_rows
pair_rows_satisfied in_ h = elim (Option-cases in_.status.eval) [
  | inl no_record ↦ absurd (ground (arith, transaction_rows_hold in_))
  | inr (e, recorded) ↦ (
    e,
    recorded,
    ground (arith, transaction_rows_hold in_),
    ground (arith, transaction_rows_hold in_, eq_iff e.revision_digest in_.desired_digest),
    ground (arith, transaction_rows_hold in_, eq_iff e.suite_digest in_.suite_digest),
    ground (arith, transaction_rows_hold in_),
  )
]

-- The gate branch answers satisfied exactly when the four promotion conditions hold on a record and a
-- suite that could be read: a Passed verdict for the candidate's digest and the suite's, with the
-- candidate's card recorded.
pub decide_gate-satisfied_iff :
    (in_ : GateInput) → ((decide_gate in_).satisfied ≡ true) ↔ IsPromotable in_
unfolding decide_gate
decide_gate-satisfied_iff in_ = (to, from)
  where
    at_pair : (decide_gate in_).satisfied ≡ true → (pair_rows in_).satisfied ≡ true
    at_pair h = ground arith

    to : (decide_gate in_).satisfied ≡ true → IsPromotable in_
    to h =
        let (e, recorded, passed, revision, suite, card) = pair_rows_satisfied in_ (at_pair h) in
        record {
          record_readable = ground arith;
          record_kept = ground arith;
          suite_read = ground arith;
          suite_digested = ground arith;
          eval = e;
          recorded = recorded;
          passed = passed;
          revision = revision;
          suite = suite;
          card = card;
        }

    from : IsPromotable in_ → (decide_gate in_).satisfied ≡ true
    from p = ground (
      arith,
      eq_iff p.eval.revision_digest in_.desired_digest,
      eq_iff p.eval.suite_digest in_.suite_digest,
    )
