-- ===== src/Eval/Agree.antt =====
-- What the gate branch reads of the write that a pass of the eval controller makes.
use mathlib.Core.Option
use assayd.Base.{
  ap, subst, Bool-cases, ℕ, ◌≡◌, refl, inl, inr, true, false, Option, none, some, [], String, arith,
  eq_refl, nat_eq_iff,
}
use assayd.Status.{EvalStatus, AgentStatus}
use assayd.Predicates.{
  has_card_for, recorded_transaction, exempt_transaction, blocked_for_matches,
  recorded_lock_deadline, equal_deadline,
}
use assayd.Gate.{GateInput, decide_gate, eval_running}
use assayd.Gate.Rows.{IsRunnable, decide_gate-running_iff}
use assayd.Eval.Records.{EvalRun}
use assayd.Eval.Pass.{
  Address, address, unaddressable, RunStartCard, card_taken, card_refused, Observed, Pass,
  start_run, go_on, reconcile, in_progress, run_blocked_for, run_start_record, start_pass,
}
use assayd.Eval.Sends.{sends, MaySend, is_decided, sends-reconcile_iff, reconcile_of_MaySend}

-- The status with the eval record as a write left it.
abbrev with_eval : AgentStatus → EvalStatus → AgentStatus
with_eval st e = record st { eval = some e }

-- status.eval after the pass's blocked write: the run-start record, or the record of the run in progress
-- with `blocked` empty.
abbrev pub after_write : AgentStatus → Pass → Option EvalStatus
after_write st (start_run run e) = some e
after_write st (go_on run) =
    Option.map
      (λ (e : EvalStatus). record e { blocked = none; blocked_for = some (run_blocked_for run st) })
      st.eval
after_write st _ = none

-- What the gate branch reads of the run's candidate once that write is stored.
abbrev pub gate_reads : AgentStatus → EvalRun → EvalStatus → GateInput
gate_reads st run e = record {
  desired_digest = run.revision_digest;
  missing = [];
  record_err = none;
  suite_err = none;
  digest_err = false;
  suite_digest = run.suite_digest;
  status = with_eval st e;
  available = true;
}

recorded_transaction-with_eval :
    (st : AgentStatus) (e : EvalStatus)
    → recorded_transaction (with_eval st e) ≡ recorded_transaction st
unfolding recorded_transaction
recorded_transaction-with_eval st e = refl

exempt_transaction-with_eval :
    (st : AgentStatus) (e : EvalStatus)
    → exempt_transaction (with_eval st e) ≡ exempt_transaction st
unfolding exempt_transaction
exempt_transaction-with_eval st e = refl

has_card_for-with_eval :
    (st : AgentStatus) (e : EvalStatus) (d : String)
    → has_card_for (with_eval st e) d ≡ has_card_for st d
unfolding has_card_for
has_card_for-with_eval st e d = refl

recorded_lock_deadline-with_eval :
    (st : AgentStatus) (e : EvalStatus)
    → recorded_lock_deadline (with_eval st e) ≡ recorded_lock_deadline st
unfolding recorded_lock_deadline
recorded_lock_deadline-with_eval st e = refl

equal_deadline_refl : (d : Option ℕ) → equal_deadline d d ≡ true
equal_deadline_refl none = refl
equal_deadline_refl (some t) = (nat_eq_iff t t).1 refl

-- What the run records as blocked-for matches on the status that is stored.
blocked_for_matches-own :
    (run : EvalRun) (st : AgentStatus) (e : EvalStatus)
    → blocked_for_matches
        (some (run_blocked_for run st))
        run.revision_digest
        run.suite_digest
        (with_eval st e)
      ≡ true
unfolding blocked_for_matches run_blocked_for
blocked_for_matches-own run st e = ground (
  arith,
  eq_refl run.revision_digest,
  eq_refl run.suite_digest,
  equal_deadline_refl (recorded_lock_deadline st),
  recorded_lock_deadline-with_eval st e,
)

-- The record that the write leaves: of this run, blocked by nothing, undecided.
record IsUnblocked (o : Observed) (run : EvalRun) (e : EvalStatus) : Type 0 where
  blocked : e.blocked ≡ none
  blocked_for : e.blocked_for ≡ some (run_blocked_for run o.status)
  undecided : is_decided (with_eval o.status e) run ≡ false

run_start_record-IsUnblocked :
    (o : Observed) (run : EvalRun) (path digest : String)
    → is_decided o.status run ≡ false
    → IsUnblocked o run (run_start_record run o.status path digest)
unfolding run_start_record
run_start_record-IsUnblocked o run path digest u = record {
  blocked = refl;
  blocked_for = refl;
  undecided = ground arith;
}

after_go_on :
    (o : Observed) (run : EvalRun) (e : EvalStatus)
    → is_decided o.status run ≡ false
    → after_write o.status (go_on run) ≡ some e
    → IsUnblocked o run e
after_go_on o run e u w = go o.status.eval refl
  where
    go : (old : Option EvalStatus) → o.status.eval ≡ old → IsUnblocked o run e
    go none q = absurd (ground arith)
    go (some old) q = record {
      blocked = ground arith;
      blocked_for = ground arith;
      undecided = ground arith;
    }

-- A run start writes the run-start record.
start_pass_writes :
    (o : Observed) (run : EvalRun) (e : EvalStatus)
    → after_write o.status (start_pass o run) ≡ some e
    → (path : String) × (digest : String) × (run_start_record run o.status path digest ≡ e)
unfolding start_pass
start_pass_writes o run e w = go o.start_address o.start_card refl refl
  where
    go :
        (a : Address) (c : RunStartCard)
        → o.start_address ≡ a
        → o.start_card ≡ c
        → (path : String) × (digest : String) × (run_start_record run o.status path digest ≡ e)
    go (unaddressable f) c qa qc = absurd (ground arith)
    go (address url) (card_refused b t) qa qc = absurd (ground arith)
    go (address url) (card_taken path digest) qa qc = (path, digest, ground arith)

after_start :
    (o : Observed) (run : EvalRun) (e : EvalStatus)
    → is_decided o.status run ≡ false
    → after_write o.status (start_pass o run) ≡ some e
    → IsUnblocked o run e
after_start o run e u w =
    let (path, digest, q) = start_pass_writes o run e w in
    subst (λ r. IsUnblocked o run r) q (run_start_record-IsUnblocked o run path digest u)

after_write-IsUnblocked :
    (o : Observed) (run : EvalRun) (e : EvalStatus)
    → MaySend o run
    → after_write o.status (reconcile o) ≡ some e
    → IsUnblocked o run e
after_write-IsUnblocked o run e m w = elim (Bool-cases (in_progress o.status run)) [
  | inl q ↦ after_go_on o run e m.undecided (ground (arith, reconcile_of_MaySend o run m))
  | inr q ↦ after_start o run e m.undecided (ground (arith, reconcile_of_MaySend o run m))
]

gate_reads-IsRunnable :
    (o : Observed) (run : EvalRun) (e : EvalStatus)
    → MaySend o run
    → IsUnblocked o run e
    → IsRunnable (gate_reads o.status run e)
gate_reads-IsRunnable o run e m u = record {
  readable = refl;
  no_verdict = ground (arith, u.undecided);
  not_failed = ground (arith, u.undecided);
  card = ground (
    arith,
    has_card_for-with_eval o.status e run.revision_digest,
    ap (λ (r : EvalRun). r.revision_digest) m.ready.acts_on,
  );
  available = refl;
  no_transaction = ground (
    arith,
    recorded_transaction-with_eval o.status e,
    exempt_transaction-with_eval o.status e,
    blocked_for_matches-own run o.status e,
    u.blocked_for,
    m.no_transaction,
  );
  unblocked = ground (arith, u.blocked);
}

-- On a pass that goes on to its next case, the gate branch reads EvalRunning for the candidate once the
-- pass has stored the run-start record, or `blocked` empty beside the run in progress. The record is
-- kept, the suite read and the candidate still available.
pub reconcile-decide_gate_agree :
    (o : Observed) (run : EvalRun) (e : EvalStatus)
    → sends (reconcile o) ≡ some run
    → after_write o.status (reconcile o) ≡ some e
    → (decide_gate (gate_reads o.status run e)).reason ≡ eval_running
reconcile-decide_gate_agree o run e h w =
    let m = (sends-reconcile_iff o run).0 h in
    (decide_gate-running_iff (gate_reads o.status run e)).1
      (gate_reads-IsRunnable o run e m (after_write-IsUnblocked o run e m w))
