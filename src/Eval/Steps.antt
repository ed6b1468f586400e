-- ===== src/Eval/Steps.antt =====
-- The writes of the eval controller and what comes between them: `patchEval`, `syncBlocked`,
-- `clearSuperseded`, `startRun`, `nextCase` and `record` of evalcontroller.go, as steps on the stored
-- record. Several processes may run them at once, as on a change of leader.
--
-- A write is one patch under the optimistic lock: it is stored when the version that its writer read is
-- the stored one, and is a Conflict otherwise, which changes nothing. What a process reads back of its own write is an
-- `observe` step after it. The relation allows more than the code does: a process may act again on what
-- it read, and a pass may start a run whatever the Agent's status says (Eval/Pass has those tests).
use assayd.Base.{
  ℕ, suc, ◌≡◌, Bool, true, false, ◌&&◌, Option, none, some, List, [], ◌∷◌, String, ◌==◌,
  if◌then◌else◌,
}
use mathlib.Core.List.{Memᴰ}
use assayd.Status.{
  Verdict, Outcome, sending, case_failed, EvalBlocked, EvalBlockedFor, EvalStatus, EvalCase,
  EvalCaseRecord, AgentStatus,
}
use assayd.Gate.{names_pair}
use assayd.Eval.Records.{EvalRun, with_case, with_outcome, case_record, suite_case, suite_ids}
use assayd.Eval.Pass.{run_start_record}

abbrev pub is_sending : Option EvalCaseRecord → Bool
is_sending none = false
is_sending (some c) = elim c.outcome [ sending ↦ true | _ ↦ false ]

abbrev pub is_none : {A : Type 0} → Option A → Bool
is_none none = true
is_none (some _) = false

-- The first loop of `nextCase`: a claim found with no outcome.
unfoldable pub find_orphan : List EvalCaseRecord → List String → Option EvalCaseRecord
find_orphan cases [] = none
find_orphan cases (id ∷ ids) =
    let rest = find_orphan cases ids in
    if is_sending (case_record cases id) then case_record cases id else rest

-- The second: the first id that has no entry.
unfoldable pub find_next : List EvalCaseRecord → List String → Option String
find_next cases [] = none
find_next cases (id ∷ ids) =
    let rest = find_next cases ids in if is_none (case_record cases id) then some id else rest

pub data Next : Type 0 where
  nothing_left : Next
  interrupted : EvalCaseRecord → Next
  to_claim : EvalCase → Next

abbrev claim_of : Option EvalCase → Next
claim_of none = nothing_left
claim_of (some c) = to_claim c

-- `nextCase`'s choice.
unfoldable pub next_case : EvalRun → List EvalCaseRecord → Next
unfolding find_orphan find_next
next_case run cases = elim (find_orphan cases (suite_ids run.suite)) [
  | some c ↦ interrupted c
  | none ↦ elim (find_next cases (suite_ids run.suite)) [
    | none ↦ nothing_left
    | some id ↦ claim_of (suite_case run.suite id)
  ]
]

-- What `clearSuperseded` writes.
unfoldable pub cleared : EvalStatus → EvalStatus
cleared e = record e { verdict = Verdict.unset; cases = []; score = none; at = none }

-- An empty record, which `syncBlocked` starts from where there is none.
abbrev pub empty_record : EvalStatus
empty_record = record {
  score = none;
  suite = "";
  revision = "";
  revision_digest = "";
  at = none;
  suite_digest = "";
  endpoint_path = "";
  card_digest = "";
  blocked = none;
  blocked_for = none;
  verdict = Verdict.unset;
  cases = [];
  failed = [];
  passed = [];
}

-- What `syncBlocked` writes.
unfoldable pub blocked_write : Option EvalStatus → Option EvalBlocked → EvalBlockedFor → EvalStatus
blocked_write none b bf = record empty_record { blocked = b; blocked_for = some bf }
blocked_write (some e) b bf = record e { blocked = b; blocked_for = some bf }

-- The claim of a case.
unfoldable pub with_claim : EvalStatus → String → String → EvalStatus
with_claim e id nonce = record e {
  cases = with_case e.cases (record { id = id; outcome = sending; reason = ""; claim = nonce });
}

-- What a process read: the version and status.eval.
pub record View : Type 0 where
  pub version : ℕ
  pub eval : Option EvalStatus

-- A request that was sent, with its answer, and what its process last read.
pub record Flight : Type 0 where
  pub number : ℕ
  pub run : EvalRun
  pub id : String
  pub nonce : String
  pub outcome : Outcome
  pub reason : String
  pub view : View

-- The stored record, the processes, and the history: how many times cases[] was started anew, the
-- requests that were sent, each with that count, and the nonces drawn.
pub record World : Type 0 where
  pub stored : View
  pub views : List View
  pub flights : List Flight
  pub number : ℕ
  pub sent : List (ℕ × String)
  pub nonces : List String

abbrev pub cases_of : Option EvalStatus → List EvalCaseRecord
cases_of none = []
cases_of (some e) = e.cases

-- The entry of this id bears this nonce.
abbrev pub claims : List EvalCaseRecord → String → String → Bool
claims cases id nonce = elim (case_record cases id) [ none ↦ false | some c ↦ c.claim == nonce ]

-- The claim stands: this pair, and this nonce at this id with no outcome (the loop of `record`).
unfoldable pub claim_stands : Flight → Option EvalStatus → Bool
claim_stands f e =
    names_pair e f.run.revision_digest f.run.suite_digest
    && (claims (cases_of e) f.id f.nonce && is_sending (case_record (cases_of e) f.id))

-- A patch that is stored.
abbrev pub put : World → EvalStatus → World
put w e = record w { stored = record { version = suc w.stored.version; eval = some e } }

abbrev pub anew : World → World
anew w = record w { number = suc w.number }

abbrev pub draw : String → World → World
draw nonce w = record w { nonces = nonce ∷ w.nonces }

-- The request goes out, with the answer that it gets, from the record that its claim read back.
abbrev pub send : World → EvalRun → String → String → Outcome → String → World
send w run id nonce outcome reason =
    let flight : Flight = record {
      number = w.number;
      run = run;
      id = id;
      nonce = nonce;
      outcome = outcome;
      reason = reason;
      view = w.stored;
    } in
    record w { sent = (w.number, id) ∷ w.sent; flights = flight ∷ w.flights }

-- A view that a write is made from: it is one that was read, its version is the stored one, and the
-- record in it is `e`.
pub record Current (w : World) (v : View) (e : EvalStatus) : Type 0 where
  pub was_read : Memᴰ v w.views
  pub same_version : v.version ≡ w.stored.version
  pub holds : v.eval ≡ some e

pub data Step (w : World) : World → Type 0 where
  observe : Step w (record w { views = w.stored ∷ w.views })
  other_write : Step w (record w { stored = record w.stored { version = suc w.stored.version } })
  write_blocked :
      (v : View) (b : Option EvalBlocked) (bf : EvalBlockedFor)
      → Memᴰ v w.views
      → v.version ≡ w.stored.version
      → Step w (put w (blocked_write v.eval b bf))
  clear : (v : View) (e : EvalStatus) → Current w v e → Step w (anew (put w (cleared e)))
  start :
      (v : View) (run : EvalRun) (st : AgentStatus) (path digest : String)
      → Memᴰ v w.views
      → v.version ≡ w.stored.version
      → st.eval ≡ v.eval
      → Step w (anew (put w (run_start_record run st path digest)))
  -- the claim, and the send that follows it
  claim :
      (v : View) (e : EvalStatus) (run : EvalRun) (c : EvalCase) (nonce : String)
      (outcome : Outcome) (reason : String)
      → Current w v e
      → names_pair (some e) run.revision_digest run.suite_digest ≡ true
      → next_case run e.cases ≡ to_claim c
      → ¬ (Memᴰ nonce w.nonces)
      → Step w (draw nonce (send (put w (with_claim e c.id nonce)) run c.id nonce outcome reason))
  -- the claim, whose response is lost or whose process stops before the send
  claim_lost :
      (v : View) (e : EvalStatus) (run : EvalRun) (c : EvalCase) (nonce : String)
      → Current w v e
      → names_pair (some e) run.revision_digest run.suite_digest ≡ true
      → next_case run e.cases ≡ to_claim c
      → ¬ (Memᴰ nonce w.nonces)
      → Step w (draw nonce (put w (with_claim e c.id nonce)))
  interrupt :
      (v : View) (e : EvalStatus) (run : EvalRun) (c : EvalCaseRecord) (now : ℕ)
      → Current w v e
      → names_pair (some e) run.revision_digest run.suite_digest ≡ true
      → next_case run e.cases ≡ interrupted c
      → Step w (put w (with_outcome run e c.id c.claim case_failed "Interrupted" now))
  -- a patch of `record`, from what its process last read
  record_outcome :
      (f : Flight) (e : EvalStatus) (now : ℕ)
      → Memᴰ f w.flights
      → f.view.version ≡ w.stored.version
      → f.view.eval ≡ some e
      → Step w (put w (with_outcome f.run e f.id f.nonce f.outcome f.reason now))
  -- a patch of `record` that was a Conflict: the live record is read, and the claim stands in it
  read_again :
      (f : Flight)
      → Memᴰ f w.flights
      → claim_stands f w.stored.eval ≡ true
      → Step w (record w { flights = record f { view = w.stored } ∷ w.flights })

-- A process starts with no run in progress in its history.
abbrev pub init : View → World
init v = record { stored = v; views = []; flights = []; number = 0; sent = []; nonces = [] }

pub data Reach (v : View) : World → Type 0 where
  begin : Reach v (init v)
  later : {w w' : World} → Reach v w → Step w w' → Reach v w'
