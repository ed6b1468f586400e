-- ===== src/Gate/Rows.antt =====
-- What the gate branch answers for a candidate that it holds.
use assayd.Base.{
  ◌≡◌, ◌↔◌, ◌≢◌, ◌⊎◌, Bool, true, false, not, ◌&&◌, ◌||◌, Option, none, some, List, [], ◌∷◌, String,
  ◌==◌, arith, is_some, if◌then◌else◌,
}
use assayd.Status.{Verdict, EvalBlocked}
use assayd.Predicates.{has_card_for, recorded_transaction, exempt_transaction, blocked_for_matches}
use assayd.Eval.Records.{pair_failed}
use assayd.Gate.{
  GateInput, decide_gate, pair_rows, transaction_rows, no_verdict_rows, blocked_row, hold,
  eval_failed, eval_pair_already_failed, failed_of, names_pair, verdict_of, blocked_of,
  eval_running, blocked_for_of, is_verdict_passed, is_verdict_failed, eval_candidate_unaddressable,
  eval_binding_unsupported, eval_awaiting_card, eval_waiting_for_auth,
}

abbrev no_names : List String → Bool
no_names [] = true
no_names (_ ∷ _) = false

-- The record and the suite could be read.
abbrev pub is_readable : GateInput → Bool
is_readable in_ =
    not (is_some in_.record_err)
    && (no_names in_.missing && (not (is_some in_.suite_err) && not in_.digest_err))

-- The record names this pair and holds a verdict that the test accepts.
abbrev pub has_verdict : (Verdict → Bool) → GateInput → Bool
has_verdict test in_ =
    names_pair in_.status.eval in_.desired_digest in_.suite_digest
    && test (verdict_of in_.status.eval)

abbrev pub is_final : Verdict → Bool
is_final v = is_verdict_passed v || is_verdict_failed v

abbrev pub pair_in_failed : GateInput → Bool
pair_in_failed in_ = pair_failed (failed_of in_.status.eval) in_.desired_digest in_.suite_digest

-- A recorded failure of the pair is answered as one, whatever else the status records: no transaction,
-- blocked entry, missing card or unavailable candidate comes before it. The record and the suite are
-- read, and no Passed verdict is recorded for the pair.
pub decide_gate_failed_pair :
    (in_ : GateInput)
    → is_readable in_ ≡ true
    → has_verdict is_verdict_passed in_ ≡ false
    → (has_verdict is_verdict_failed in_ || pair_in_failed in_) ≡ true
    → decide_gate in_ ≡ (
        if has_verdict is_verdict_failed in_
        then hold eval_failed eval_failed
        else hold eval_pair_already_failed eval_failed)
unfolding decide_gate
decide_gate_failed_pair in_ readable p f = ground arith

-- The reasons of `blocked` that have a row.
abbrev pub has_row : Option EvalBlocked → Bool
has_row none = false
has_row (some b) =
    b.reason == eval_candidate_unaddressable
    || (b.reason == eval_binding_unsupported
        || (b.reason == eval_awaiting_card || b.reason == eval_waiting_for_auth))

abbrev pub matches_blocked_for : GateInput → Bool
matches_blocked_for in_ =
    blocked_for_matches (blocked_for_of in_.status.eval) in_.desired_digest in_.suite_digest
      in_.status

-- Nothing recorded stops the eval controller from claiming the candidate's next case.
pub record IsRunnable (in_ : GateInput) : Type 0 where
  pub readable : is_readable in_ ≡ true
  pub no_verdict : has_verdict is_final in_ ≡ false
  pub not_failed : pair_in_failed in_ ≡ false
  pub card : has_card_for in_.status in_.desired_digest ≡ true
  pub available : in_.available ≡ true
  pub no_transaction :
      (recorded_transaction in_.status ≡ none)
      ⊎ ((exempt_transaction in_.status && matches_blocked_for in_) ≡ true)
  pub unblocked : (matches_blocked_for in_ && has_row (blocked_of in_.status.eval)) ≡ false

-- The rows of `blocked` are told from EvalRunning by their reasons.
unaddressable_ne_running : ◌≢◌ {A = String} "EvalCandidateUnaddressable" "EvalRunning"
unaddressable_ne_running = λ e. cc

unsupported_ne_running : ◌≢◌ {A = String} "EvalBindingUnsupported" "EvalRunning"
unsupported_ne_running = λ e. cc

card_ne_running : ◌≢◌ {A = String} "EvalAwaitingCard" "EvalRunning"
card_ne_running = λ e. cc

waiting_ne_running : ◌≢◌ {A = String} "EvalWaitingForAuth" "EvalRunning"
waiting_ne_running = λ e. cc

paused_ne_running : ◌≢◌ {A = String} "EvalPaused" "EvalRunning"
paused_ne_running = λ e. cc

blocked_row_running :
    (in_ : GateInput) (b : Option EvalBlocked)
    → in_.available ≡ true
    → ((blocked_row in_ b).reason ≡ eval_running) ↔ (has_row b ≡ false)
unfolding blocked_row no_verdict_rows
blocked_row_running in_ none a = ground arith
blocked_row_running in_ (some b) a =
    ground
      (arith, unaddressable_ne_running, unsupported_ne_running, card_ne_running, waiting_ne_running)

transaction_rows_running :
    (in_ : GateInput)
    → ((transaction_rows in_).reason ≡ eval_running) ↔ (
        (in_.available ≡ true)
        × ((recorded_transaction in_.status ≡ none)
            ⊎ ((exempt_transaction in_.status && matches_blocked_for in_) ≡ true))
        × ((matches_blocked_for in_ && has_row (blocked_of in_.status.eval)) ≡ false))
unfolding transaction_rows no_verdict_rows
transaction_rows_running in_ = ground (
  arith,
  blocked_row_running in_ (blocked_of in_.status.eval),
  waiting_ne_running,
  paused_ne_running,
)

empty_ne_running : ◌≢◌ {A = String} "" "EvalRunning"
empty_ne_running = λ e. cc

failed_ne_running : ◌≢◌ {A = String} "EvalFailed" "EvalRunning"
failed_ne_running = λ e. cc

already_failed_ne_running : ◌≢◌ {A = String} "EvalPairAlreadyFailed" "EvalRunning"
already_failed_ne_running = λ e. cc

not_found_ne_running : ◌≢◌ {A = String} "EvalSuiteNotFound" "EvalRunning"
not_found_ne_running = λ e. cc

unreadable_ne_running : ◌≢◌ {A = String} "EvalSuiteUnreadable" "EvalRunning"
unreadable_ne_running = λ e. cc

not_kept_ne_running : ◌≢◌ {A = String} "EvalRecordNotKept" "EvalRunning"
not_kept_ne_running = λ e. cc

unverifiable_ne_running : ◌≢◌ {A = String} "EvalRecordUnverifiable" "EvalRunning"
unverifiable_ne_running = λ e. cc

pair_rows_running :
    (in_ : GateInput)
    → ((pair_rows in_).reason ≡ eval_running) ↔ (
        (has_verdict is_final in_ ≡ false)
        × (pair_in_failed in_ ≡ false)
        × (has_card_for in_.status in_.desired_digest ≡ true)
        × ((transaction_rows in_).reason ≡ eval_running))
unfolding pair_rows
pair_rows_running in_ =
    ground (arith, empty_ne_running, failed_ne_running, already_failed_ne_running, card_ne_running)

decide_gate_running :
    (in_ : GateInput)
    → ((decide_gate in_).reason ≡ eval_running)
      ↔ ((is_readable in_ ≡ true) × ((pair_rows in_).reason ≡ eval_running))
unfolding decide_gate
decide_gate_running in_ = ground (
  arith, not_found_ne_running, unreadable_ne_running, not_kept_ne_running, unverifiable_ne_running,
)

-- The gate branch answers EvalRunning exactly when nothing recorded stops the eval controller from
-- claiming the candidate's next case.
pub decide_gate-running_iff :
    (in_ : GateInput) → ((decide_gate in_).reason ≡ eval_running) ↔ IsRunnable in_
decide_gate-running_iff in_ = (to, from)
  where
    to : (decide_gate in_).reason ≡ eval_running → IsRunnable in_
    to h =
        let (readable, paired) = (decide_gate_running in_).0 h in
        let (no_verdict, not_failed, card, rest) = (pair_rows_running in_).0 paired in
        let (available, no_transaction, unblocked) = (transaction_rows_running in_).0 rest in
        record {
          readable = readable;
          no_verdict = no_verdict;
          not_failed = not_failed;
          card = card;
          available = available;
          no_transaction = no_transaction;
          unblocked = unblocked;
        }

    from : IsRunnable in_ → (decide_gate in_).reason ≡ eval_running
    from r = (decide_gate_running in_).1 (
      r.readable,
      (pair_rows_running in_).1 (
        r.no_verdict,
        r.not_failed,
        r.card,
        (transaction_rows_running in_).1 (r.available, r.no_transaction, r.unblocked),
      ),
    )
