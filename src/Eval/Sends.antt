-- ===== src/Eval/Sends.antt =====
-- When a pass of the eval controller goes on to a case.
use assayd.Base.{
  ℕ, ◌≡◌, refl, ap, subst, if◌then◌else◌, ◌∙◌, ◌↔◌, ◌⊎◌, inl, inr, Bool, true, false, not, ◌&&◌,
  ◌||◌, Option, none, some, String, ◌==◌, arith, is_some, Option-cases,
}
use assayd.Status.{EvalSuite, AgentStatus}
use assayd.Suite.{ThresholdResult, ok, err, threshold}
use assayd.Predicates.{
  has_card_for, recorded_transaction, exempt_transaction, candidate_pending, i1_hold,
}
use assayd.Gate.{names_pair, verdict_of, failed_of, is_verdict_passed, is_verdict_failed}
use assayd.Eval.Records.{EvalRun, pair_failed}
use assayd.Eval.Pass.{
  Read, read_failed, read, Address, address, unaddressable, RunStartCard, card_taken, card_refused,
  Observed, Pass, start_run, go_on, in_progress, eval_generation_current, workload_says,
  rollback_held, clears_superseded, reconcile, start_pass, claim_rows, pair_rows, available_rows,
  suite_rows, digest_rows, threshold_rows,
}

-- The run whose next case the pass goes on to, if it does.
abbrev pub sends : Pass → Option EvalRun
sends (start_run run e) = some run
sends (go_on run) = some run
sends _ = none

abbrev pub is_address : Address → Bool
is_address (address _) = true
is_address (unaddressable _) = false

abbrev pub is_taken : RunStartCard → Bool
is_taken (card_taken _ _) = true
is_taken (card_refused _ _) = false

-- The pair has a final verdict or is recorded as failed.
abbrev pub is_decided : AgentStatus → EvalRun → Bool
is_decided st run =
    names_pair st.eval run.revision_digest run.suite_digest
      && (is_verdict_passed (verdict_of st.eval) || is_verdict_failed (verdict_of st.eval))
    || pair_failed (failed_of st.eval) run.revision_digest run.suite_digest

-- A run in progress goes on; any other starts from an address and a card that was taken.
abbrev pub can_start : Observed → EvalRun → Bool
can_start o run = in_progress o.status run || is_address o.start_address && is_taken o.start_card

-- Clause 5 holds nothing.
abbrev pub clause5_clear : Observed → Bool
clause5_clear o = not o.clause5_failed && not (is_some o.clause5_hold)

claim_rows_send :
    (o : Observed) (exempt : Bool) (run r : EvalRun)
    → (sends (claim_rows o exempt run) ≡ some r)
      ↔ ((run ≡ r) × ((not exempt || clause5_clear o) ≡ true) × (can_start o run ≡ true))
unfolding claim_rows start_pass
claim_rows_send o exempt run r = ground arith

pair_rows_send :
    (o : Observed) (exempt : Bool) (run r : EvalRun)
    → (sends (pair_rows o exempt run) ≡ some r)
      ↔ ((is_decided o.status run ≡ false) × (sends (claim_rows o exempt run) ≡ some r))
unfolding pair_rows
pair_rows_send o exempt run r = ground arith

-- The run that a pass would act on.
abbrev pub run_of : Observed → EvalSuite → String → ℕ → EvalRun
run_of o suite digest th = record {
  suite = suite;
  suite_digest = digest;
  threshold = th;
  revision = o.status.candidate_revision;
  revision_digest = o.status.candidate_revision_digest;
}

-- The send predicates of the candidate: available, held by no I1, with a card, its suite read and
-- digested, and minted by the current spec.
pub record IsReady (o : Observed) (run : EvalRun) : Type 0 where
  pub available : workload_says o o.workload ≡ read true
  pub no_i1_hold : i1_hold o.gateway_enabled o.status o.auth_compiles (not (o.pin == "")) ≡ false
  pub card : has_card_for o.status o.status.candidate_revision_digest ≡ true
  pub suite : EvalSuite
  pub suite_read : o.suite ≡ read (some suite)
  pub digest : String
  pub digested : o.suite_digest ≡ some digest
  pub minted : rollback_held o o.spec_digest ≡ read false
  pub th : ℕ
  pub threshold_read : threshold suite.spec ≡ ok th
  pub acts_on : run_of o suite digest th ≡ run

-- Every predicate that a claim waits for.
pub record MaySend (o : Observed) (run : EvalRun) : Type 0 where
  pub live :
      (o.deleting || (not o.has_runtime || (not o.gate_declared || not o.crd_installed))) ≡ false
  pub generation : eval_generation_current o ≡ true
  pub no_transaction :
      (recorded_transaction o.status ≡ none)
      ⊎ ((exempt_transaction o.status && clause5_clear o) ≡ true)
  pub nothing_to_clear :
      (is_some (recorded_transaction o.status) || not (clears_superseded o.status)) ≡ true
  pub pending : candidate_pending o.status ≡ true
  pub ready : IsReady o run
  pub undecided : is_decided o.status run ≡ false
  pub startable : can_start o run ≡ true

threshold_rows_send :
    (o : Observed) (exempt : Bool) (suite : EvalSuite) (digest : String) (t : ThresholdResult)
    (r : EvalRun)
    → sends (threshold_rows o exempt suite digest t) ≡ some r
    → (th : ℕ) × (t ≡ ok th) × (sends (pair_rows o exempt (run_of o suite digest th)) ≡ some r)
threshold_rows_send o exempt suite digest (ok th) r h = (th, refl, h)
threshold_rows_send o exempt suite digest (err e) r h = cc

suite_rows_send :
    (o : Observed) (exempt : Bool) (r : EvalRun)
    → sends (suite_rows o exempt o.suite) ≡ some r
    → (suite : EvalSuite) × (o.suite ≡ read (some suite))
      × (sends (digest_rows o exempt suite o.suite_digest) ≡ some r)
suite_rows_send o exempt r h = go o.suite refl
  where
    go :
        (s : Read (Option EvalSuite))
        → o.suite ≡ s
        → (suite : EvalSuite) × (o.suite ≡ read (some suite))
          × (sends (digest_rows o exempt suite o.suite_digest) ≡ some r)
    go read_failed e = absurd (ground arith)
    go (read none) e = absurd (ground arith)
    go (read (some suite)) e = (suite, e, ground arith)

digest_rows_send :
    (o : Observed) (exempt : Bool) (suite : EvalSuite) (r : EvalRun)
    → sends (digest_rows o exempt suite o.suite_digest) ≡ some r
    → (digest : String) × (o.suite_digest ≡ some digest)
      × (rollback_held o o.spec_digest ≡ read false)
      × (sends (threshold_rows o exempt suite digest (threshold suite.spec)) ≡ some r)
digest_rows_send o exempt suite r h = elim (Option-cases o.suite_digest) [
  | inl unread ↦ absurd (ground arith)
  | inr (digest, digested) ↦ (digest, digested, ground arith, ground arith)
]

available_rows_send :
    (o : Observed) (exempt : Bool) (r : EvalRun)
    → sends (available_rows o exempt (workload_says o o.workload)) ≡ some r
    → (workload_says o o.workload ≡ read true)
      × (i1_hold o.gateway_enabled o.status o.auth_compiles (not (o.pin == "")) ≡ false)
      × (has_card_for o.status o.status.candidate_revision_digest ≡ true)
      × (sends (suite_rows o exempt o.suite) ≡ some r)
available_rows_send o exempt r h = ground arith

reconcile_send :
    (o : Observed) (r : EvalRun)
    → sends (reconcile o) ≡ some r
    → ((o.deleting || (not o.has_runtime || (not o.gate_declared || not o.crd_installed))) ≡ false)
      × (eval_generation_current o ≡ true)
      × ((is_some (recorded_transaction o.status) || not (clears_superseded o.status)) ≡ true)
      × (candidate_pending o.status ≡ true)
      × ((recorded_transaction o.status ≡ none) ⊎ (exempt_transaction o.status ≡ true))
      × (sends (
            available_rows o
              (is_some (recorded_transaction o.status) && exempt_transaction o.status)
              (workload_says o o.workload))
          ≡ some r)
unfolding reconcile
reconcile_send o r h = ground arith

reconcile_reaches :
    (o : Observed)
    → (o.deleting || (not o.has_runtime || (not o.gate_declared || not o.crd_installed))) ≡ false
    → eval_generation_current o ≡ true
    → (is_some (recorded_transaction o.status) || not (clears_superseded o.status)) ≡ true
    → candidate_pending o.status ≡ true
    → ((recorded_transaction o.status ≡ none) ⊎ (exempt_transaction o.status ≡ true))
    → reconcile o
      ≡ available_rows o
          (is_some (recorded_transaction o.status) && exempt_transaction o.status)
          (workload_says o o.workload)
unfolding reconcile
reconcile_reaches o live generation clear pending tx = ground arith

available_rows_of_IsReady :
    (o : Observed) (exempt : Bool) (run : EvalRun)
    → IsReady o run
    → available_rows o exempt (workload_says o o.workload) ≡ pair_rows o exempt run
available_rows_of_IsReady o exempt run h =
    rw (h.available, h.no_i1_hold, h.card, h.suite_read, h.digested, h.minted, h.threshold_read)
      (rw h.acts_on refl)

pair_rows_of_clear :
    (o : Observed) (exempt : Bool) (run : EvalRun)
    → is_decided o.status run ≡ false
    → (not exempt || clause5_clear o) ≡ true
    → pair_rows o exempt run ≡ (if in_progress o.status run then go_on run else start_pass o run)
unfolding pair_rows claim_rows
pair_rows_of_clear o exempt run u c = ground arith

-- What such a pass does.
pub reconcile_of_MaySend :
    (o : Observed) (run : EvalRun)
    → MaySend o run
    → reconcile o ≡ (if in_progress o.status run then go_on run else start_pass o run)
reconcile_of_MaySend o run m =
    let exempt : Bool = is_some (recorded_transaction o.status) && exempt_transaction o.status in
    reconcile_reaches o m.live m.generation m.nothing_to_clear m.pending (ground arith)
    ∙ available_rows_of_IsReady o exempt run m.ready
    ∙ pair_rows_of_clear o exempt run m.undecided (ground arith)

start_pass-sends :
    (o : Observed) (run : EvalRun)
    → can_start o run ≡ true
    → sends (if in_progress o.status run then go_on run else start_pass o run) ≡ some run
unfolding start_pass
start_pass-sends o run h = ground arith

-- A pass goes on to `nextCase` exactly when every send predicate holds: the Agent is live, gated and
-- observed at its generation; no Create or Lock is recorded, or an exempt one that clause 5 does not
-- hold; a candidate is pending, which the current spec mints, is available, has a card and is held by no
-- I1; its suite is read; its pair is not decided; and the run is in progress or can start.
pub sends-reconcile_iff :
    (o : Observed) (run : EvalRun) → (sends (reconcile o) ≡ some run) ↔ MaySend o run
sends-reconcile_iff o run = (to, from)
  where
    to : sends (reconcile o) ≡ some run → MaySend o run
    to h =
        let (live, generation, nothing_to_clear, pending, tx, rows) = reconcile_send o run h in
        let exempt : Bool =
          is_some (recorded_transaction o.status) && exempt_transaction o.status in
        let (available, no_i1_hold, card, rows') = available_rows_send o exempt run rows in
        let (suite, suite_read, rows'') = suite_rows_send o exempt run rows' in
        let (digest, digested, minted, rows''') = digest_rows_send o exempt suite run rows'' in
        let (th, threshold_read, paired) =
          threshold_rows_send o exempt suite digest (threshold suite.spec) run rows''' in
        let acting = run_of o suite digest th in
        let (undecided, claimed) = (pair_rows_send o exempt acting run).0 paired in
        let (acts_on, clear, startable) = (claim_rows_send o exempt acting run).0 claimed in
        record {
          live = live;
          generation = generation;
          no_transaction = ground arith;
          nothing_to_clear = nothing_to_clear;
          pending = pending;
          ready = record {
            available = available;
            no_i1_hold = no_i1_hold;
            card = card;
            suite = suite;
            suite_read = suite_read;
            digest = digest;
            digested = digested;
            minted = minted;
            th = th;
            threshold_read = threshold_read;
            acts_on = acts_on;
          };
          undecided = subst (λ r. is_decided o.status r ≡ false) acts_on undecided;
          startable = subst (λ r. can_start o r ≡ true) acts_on startable;
        }

    from : MaySend o run → sends (reconcile o) ≡ some run
    from m = ap sends (reconcile_of_MaySend o run m) ∙ start_pass-sends o run m.startable
