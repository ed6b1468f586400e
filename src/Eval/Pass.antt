-- ===== src/Eval/Pass.antt =====
-- One pass of the eval controller (`Reconcile`, `startRun`, `nextCase` of evalcontroller.go): what it
-- does, as a function of what it reads.
--
-- The reads are fields of `Observed`: the API server's answers, clause 5 (`clause5`), the run-start card
-- (`runStartCard`) and the candidate's address (`candidateAddress`) with the blocked reason that each
-- computes. A write that comes back Conflict, fails or is pruned ends the pass; the writes themselves
-- are in Eval/Steps.
use assayd.Base.{
  ℕ, Bool, true, false, not, ◌&&◌, ◌||◌, Option, none, some, List, [], String, ◌==◌, nat_eq,
  is_some, if◌then◌else◌,
}
use assayd.Status.{
  Verdict, EvalBlocked, EvalBlockedFor, EvalPair, EvalStatus, AgentStatus, EvalSuite,
}
use assayd.Suite.{ThresholdResult, ok, err, threshold}
use assayd.Predicates.{
  Workload, has_card_for, recorded_transaction, exempt_transaction, candidate_pending,
  pinned_rollback_holds, i1_hold, workload_available_in, recorded_lock_deadline,
}
use assayd.Gate.{names_pair, verdict_of, failed_of, is_verdict_passed, is_verdict_failed}
use assayd.Eval.Records.{EvalRun, pair_failed, append_passed}

-- evalWait: why a pass comes round again.
pub data EvalWait : Type 0 where
  wait_transaction wait_paused wait_held wait_fetch_failed wait_refused wait_sent wait_read_back :
      EvalWait

pub data Read (A : Type 0) : Type 0 where
  read_failed : Read A
  read : A → Read A

-- What `runStartCard` returns.
pub data RunStartCard : Type 0 where
  card_taken : (path digest : String) → RunStartCard
  card_refused : EvalBlocked → EvalWait → RunStartCard

-- What `candidateAddress` returns.
pub data Address : Type 0 where
  address : String → Address
  unaddressable : EvalBlocked → Address

pub record Observed : Type 0 where
  pub deleting : Bool
  pub has_runtime : Bool
  pub gate_declared : Bool
  pub crd_installed : Bool
  pub generation : ℕ
  pub status : AgentStatus
  pub agent_uid : String
  pub workload : Read (Option Workload)
  pub gateway_enabled : Bool
  pub auth_compiles : Bool
  pub pin : String
  pub suite : Read (Option EvalSuite)
  pub suite_digest : Option String
  pub spec_digest : Read (Option String)
  -- the hold that clause 5 found, and whether one of its reads failed
  pub clause5_hold : Option EvalBlocked
  pub clause5_failed : Bool
  pub start_address : Address
  pub start_card : RunStartCard

-- After a blocked write that came back.
pub data After : Type 0 where
  then_wait : EvalWait → After
  then_fail : After

pub data Pass : Type 0 where
  stop : Pass
  fail : Pass
  requeue : EvalWait → Pass
  clear_run : Pass
  sync_blocked : Option EvalBlocked → After → Pass
  start_run : EvalRun → EvalStatus → Pass
  go_on : EvalRun → Pass

-- `evalGenerationCurrent`
abbrev pub eval_generation_current : Observed → Bool
eval_generation_current o = nat_eq o.status.observed_generation o.generation

abbrev pub workload_says : Observed → Read (Option Workload) → Read Bool
workload_says o read_failed = read_failed
workload_says o (read w) =
    read (workload_available_in o.agent_uid o.status.candidate_revision_digest w)

-- `pinnedRollbackCandidate`
abbrev pub rollback_held : Observed → Read (Option String) → Read Bool
rollback_held o read_failed = read_failed
rollback_held o (read none) =
    read (pinned_rollback_holds o.pin o.status.candidate_revision_digest "" false)
rollback_held o (read (some spec)) =
    read (pinned_rollback_holds o.pin o.status.candidate_revision_digest spec true)

-- The digest of the revision that is desired: the candidate's while one is pending.
abbrev desired_digest : AgentStatus → String
desired_digest st =
    if candidate_pending st then st.candidate_revision_digest else st.active_revision_digest

abbrev names_revision : Option EvalStatus → String → Bool
names_revision none rev = false
names_revision (some e) rev = e.revision_digest == rev

-- The trigger of `clearSuperseded`.
unfoldable pub clears_superseded : AgentStatus → Bool
clears_superseded st =
    is_verdict_failed (verdict_of st.eval) && not (names_revision st.eval (desired_digest st))

-- `blockedFor`: what this pass evaluates blocked for.
unfoldable pub run_blocked_for : EvalRun → AgentStatus → EvalBlockedFor
run_blocked_for run st = record {
  revision_digest = run.revision_digest;
  suite_digest = run.suite_digest;
  lock_deadline = recorded_lock_deadline st;
}

abbrev pub passed_of : Option EvalStatus → List EvalPair
passed_of none = []
passed_of (some e) = e.passed

-- passed[] at a run start: a Passed record that the run replaces is kept there.
unfoldable pub passed_at_start : Option EvalStatus → String → List EvalPair
passed_at_start none active = []
passed_at_start (some e) active =
    if is_verdict_passed e.verdict && not (e.revision_digest == "")
    then append_passed e.passed
        (record { revision_digest = e.revision_digest; suite_digest = e.suite_digest }) active
    else e.passed

-- The record that `startRun` writes.
unfoldable pub run_start_record : EvalRun → AgentStatus → String → String → EvalStatus
unfolding run_blocked_for passed_at_start
run_start_record run st path card_digest = record {
  score = none;
  suite = run.suite.name;
  revision = run.revision;
  revision_digest = run.revision_digest;
  at = none;
  suite_digest = run.suite_digest;
  endpoint_path = path;
  card_digest = card_digest;
  blocked = none;
  blocked_for = some (run_blocked_for run st);
  verdict = Verdict.running;
  cases = [];
  failed = failed_of st.eval;
  passed = passed_at_start st.eval st.active_revision_digest;
}

-- `startRun`
unfoldable pub start_pass : Observed → EvalRun → Pass
start_pass o run = elim o.start_address [
  | unaddressable fault ↦ sync_blocked (some fault) then_fail
  | address _ ↦ elim o.start_card [
    | card_refused refusal w ↦ sync_blocked (some refusal) (then_wait w)
    | card_taken path digest ↦ start_run run (run_start_record run o.status path digest)
  ]
]

abbrev is_running : Verdict → Bool
is_running Verdict.running = true
is_running _ = false

abbrev has_endpoint : Option EvalStatus → Bool
has_endpoint none = false
has_endpoint (some e) = not (e.endpoint_path == "") && not (e.card_digest == "")

-- The record is a run of this pair in progress, kept whole.
abbrev pub in_progress : AgentStatus → EvalRun → Bool
in_progress st run =
    names_pair st.eval run.revision_digest run.suite_digest
    && (is_running (verdict_of st.eval) && has_endpoint st.eval)

-- The rows from clause 5 on.
unfoldable pub claim_rows : Observed → Bool → EvalRun → Pass
claim_rows o exempt run =
    if exempt && o.clause5_failed
    then sync_blocked o.clause5_hold then_fail
    else if exempt && is_some o.clause5_hold
    then sync_blocked o.clause5_hold (then_wait wait_transaction)
    else if in_progress o.status run
    then go_on run
    else start_pass o run

-- The rows of a suite whose threshold is read: a pair that is decided is sent nothing.
unfoldable pub pair_rows : Observed → Bool → EvalRun → Pass
pair_rows o exempt run =
    if names_pair o.status.eval run.revision_digest run.suite_digest
      && (is_verdict_passed (verdict_of o.status.eval)
          || is_verdict_failed (verdict_of o.status.eval))
    then sync_blocked none (then_wait wait_held)
    else if pair_failed (failed_of o.status.eval) run.revision_digest run.suite_digest
    then sync_blocked none (then_wait wait_held)
    else claim_rows o exempt run

abbrev pub threshold_rows : Observed → Bool → EvalSuite → String → ThresholdResult → Pass
threshold_rows o exempt suite digest (err _) = fail
threshold_rows o exempt suite digest (ok th) = pair_rows o exempt (record {
  suite = suite;
  suite_digest = digest;
  threshold = th;
  revision = o.status.candidate_revision;
  revision_digest = o.status.candidate_revision_digest;
})

abbrev pub held_rows : Observed → Bool → EvalSuite → String → Read Bool → Pass
held_rows o exempt suite digest read_failed = fail
held_rows o exempt suite digest (read true) = requeue wait_held
held_rows o exempt suite digest (read false) =
    threshold_rows o exempt suite digest (threshold suite.spec)

abbrev pub digest_rows : Observed → Bool → EvalSuite → Option String → Pass
digest_rows o exempt suite none = fail
digest_rows o exempt suite (some digest) =
    held_rows o exempt suite digest (rollback_held o o.spec_digest)

abbrev pub suite_rows : Observed → Bool → Read (Option EvalSuite) → Pass
suite_rows o exempt read_failed = fail
suite_rows o exempt (read none) = requeue wait_held
suite_rows o exempt (read (some suite)) = digest_rows o exempt suite o.suite_digest

abbrev pub available_rows : Observed → Bool → Read Bool → Pass
available_rows o exempt read_failed = fail
available_rows o exempt (read false) = requeue wait_paused
available_rows o exempt (read true) =
    if i1_hold o.gateway_enabled o.status o.auth_compiles (not (o.pin == ""))
      || not (has_card_for o.status o.status.candidate_revision_digest)
    then requeue wait_held
    else suite_rows o exempt o.suite

-- `Reconcile`, of an Agent that was found.
unfoldable pub reconcile : Observed → Pass
reconcile o =
    let tx = is_some (recorded_transaction o.status) in
    let exempt = tx && exempt_transaction o.status in
    if o.deleting || (not o.has_runtime || (not o.gate_declared || not o.crd_installed))
    then stop
    else if not (eval_generation_current o)
    then stop
    else if tx && not exempt
    then requeue wait_transaction
    else if not exempt && clears_superseded o.status
    then clear_run
    else if not (candidate_pending o.status)
    then stop
    else available_rows o exempt (workload_says o o.workload)
