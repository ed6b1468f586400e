-- ===== src/Fixtures.antt =====
-- The data that the tests run on: a suite of two cases, a candidate under evaluation, and the pass and
-- the gate's reads of it.
use assayd.Base.{true, false, none, some, [], ◌∷◌}
use assayd.Status.{
  Verdict, sending, case_passed, case_failed, EvalCase, EvalSuite, EvalStatus, AgentStatus,
}
use assayd.Gate.{GateInput}
use assayd.Eval.Records.{EvalRun}
use assayd.Eval.Pass.{Observed, read, address, card_taken}

abbrev pub case_a : EvalCase
case_a = record { id = "a"; message = "hello"; expect = record { contains = "hi"; equals = "" } }

abbrev pub case_b : EvalCase
case_b = record { id = "b"; message = "bye"; expect = record { contains = ""; equals = "ciao" } }

abbrev pub greetings : EvalSuite
greetings = record {
  name = "greetings";
  spec = record {
    cases = case_b ∷ case_a ∷ [];
    metrics = record { name = "task_success"; threshold = "0.5" } ∷ [];
    case_timeout_seconds = 0;
  };
}

abbrev pub greetings_run : EvalRun
greetings_run = record {
  suite = greetings;
  suite_digest = "s1";
  threshold = 500;
  revision = "r2";
  revision_digest = "d2";
}

-- A run in progress with no case sent.
abbrev pub started : EvalStatus
started = record {
  score = none;
  suite = "greetings";
  revision = "r2";
  revision_digest = "d2";
  at = none;
  suite_digest = "s1";
  endpoint_path = "/a2a";
  card_digest = "c2";
  blocked = none;
  blocked_for = some (record { revision_digest = "d2"; suite_digest = "s1"; lock_deadline = none });
  verdict = Verdict.running;
  cases = [];
  failed = record { revision_digest = "d0"; suite_digest = "s1" } ∷ [];
  passed = record { revision_digest = "d1"; suite_digest = "s1" } ∷ [];
}

-- The same run with case a passed, and its claim of case b.
abbrev pub one_sent : EvalStatus
one_sent = record started {
  cases =
      record { id = "a"; outcome = case_passed; reason = ""; claim = "n1" }
      ∷ record { id = "b"; outcome = sending; reason = ""; claim = "n2" }
      ∷ [];
}

-- With case a failed instead.
abbrev pub one_failed : EvalStatus
one_failed = record started {
  cases =
      record { id = "a"; outcome = case_failed; reason = "NoMatch"; claim = "n1" }
      ∷ record { id = "b"; outcome = sending; reason = ""; claim = "n2" }
      ∷ [];
}

-- Revision d1 serves, and d2 is evaluated.
abbrev pub evaluated : AgentStatus
evaluated = record {
  active_revision = "r1";
  active_revision_digest = "d1";
  candidate_revision = "r2";
  candidate_revision_digest = "d2";
  cards = record { revision = "r2"; revision_digest = "d2"; digest = "c2"; fetched_at = none } ∷ [];
  auth = none;
  eval = some started;
  observed_generation = 4;
}

abbrev pub gate_input : GateInput
gate_input = record {
  desired_digest = "d2";
  missing = [];
  record_err = none;
  suite_err = none;
  digest_err = false;
  suite_digest = "s1";
  status = evaluated;
  available = true;
}

abbrev pub observed : Observed
observed = record {
  deleting = false;
  has_runtime = true;
  gate_declared = true;
  crd_installed = true;
  generation = 4;
  status = evaluated;
  agent_uid = "u";
  workload =
      read (some (record { revision_digest = "d2"; agent_uid = "u"; available_replicas = 1 }));
  gateway_enabled = false;
  auth_compiles = true;
  pin = "";
  suite = read (some greetings);
  suite_digest = some "s1";
  spec_digest = read (some "d2");
  clause5_hold = none;
  clause5_failed = false;
  start_address = address "http://10.0.0.1:8080";
  start_card = card_taken "/a2a" "c2";
}
