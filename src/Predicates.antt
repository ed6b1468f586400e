-- ===== src/Predicates.antt =====
-- internal/controller/sendpredicates.go: the predicates that decide whether a case may be sent, which
-- the gate branch and the eval controller share; with what they read in card.go, authtxn.go, httproute.go
-- and gate.go.
--
-- What the reads return is an argument: the digest of the current spec, the workload, and whether the
-- desired -auth compiles. `why`, a message of `exemptTransaction`, is not modelled.
use assayd.Base.{
  ℕ, ◌-◌, ◌%◌, Bool, true, false, not, ◌&&◌, ◌||◌, Option, none, some, List, [], ◌∷◌, String, ◌==◌,
  nat_eq, ltb, is_some, if◌then◌else◌,
}
use assayd.Status.{
  TxKind, create, lock, Stage, probing_after, AuthTransaction, AuthStatus, CardStatus, AgentStatus,
  EvalBlockedFor,
}

-- The loop of `cardEntry`.
unfoldable pub find_card : List CardStatus → String → Option CardStatus
find_card [] digest = none
find_card (c ∷ cs) digest = if c.revision_digest == digest then some c else find_card cs digest

-- `cardEntry`
unfoldable pub card_entry : AgentStatus → String → Option CardStatus
unfolding find_card
card_entry status digest = find_card status.cards digest

abbrev has_digest : Option CardStatus → Bool
has_digest none = false
has_digest (some c) = not (c.digest == "")

-- `hasCardFor`: an entry with an empty digest is a failed attempt, not a card.
unfoldable pub has_card_for : AgentStatus → String → Bool
unfolding card_entry
has_card_for status digest = has_digest (card_entry status digest)

-- The loop of `cardedRevision`.
unfoldable pub any_carded : List CardStatus → String → Bool
any_carded [] rev = false
any_carded (c ∷ cs) rev = c.revision == rev && not (c.digest == "") || any_carded cs rev

-- `cardedRevision`: by the revision's name.
unfoldable pub carded_revision : AgentStatus → String → Bool
unfolding any_carded
carded_revision status rev = if rev == "" then false else any_carded status.cards rev

abbrev pub transaction_of : Option AuthStatus → Option AuthTransaction
transaction_of none = none
transaction_of (some auth) = auth.transaction

-- `authTransaction`
abbrev pub auth_transaction : AgentStatus → Option AuthTransaction
auth_transaction status = transaction_of status.auth

abbrev is_create : TxKind → Bool
is_create create = true
is_create _ = false

abbrev pub is_lock : TxKind → Bool
is_lock lock = true
is_lock _ = false

abbrev pub is_probing_after : Stage → Bool
is_probing_after probing_after = true
is_probing_after _ = false

abbrev re_creates : String → Option AuthTransaction → Bool
re_creates mode none = false
re_creates mode (some tx) =
    if mode == "" then false else is_create tx.kind || is_lock tx.kind && tx.target_mode == mode

-- `isReCreation`: the Create or Lock of something a served -auth lost.
unfoldable pub is_re_creation : Option AuthStatus → Bool
is_re_creation none = false
is_re_creation (some auth) = re_creates auth.mode auth.transaction

abbrev create_or_lock : Option AuthTransaction → Option AuthTransaction
create_or_lock none = none
create_or_lock (some tx) = if is_create tx.kind || is_lock tx.kind then some tx else none

-- `recordedTransaction`: a Create or a Lock, at any stage.
unfoldable pub recorded_transaction : AgentStatus → Option AuthTransaction
recorded_transaction status = create_or_lock (auth_transaction status)

abbrev exempt_clauses : AgentStatus → Option AuthTransaction → Bool
unfolding is_re_creation carded_revision
exempt_clauses status none = false
exempt_clauses status (some tx) =
    if not (is_lock tx.kind)
    then false
    else if is_re_creation status.auth
    then false
    else if not (is_probing_after tx.stage)
    then false
    else if tx.before_observed
    then false
    else if carded_revision status status.active_revision
    then false
    else true

-- `exemptTransaction`: clauses 1 to 4 of the exemption.
unfoldable pub exempt_transaction : AgentStatus → Bool
unfolding recorded_transaction is_re_creation carded_revision
exempt_transaction status = exempt_clauses status (recorded_transaction status)

-- `candidatePending`
unfoldable pub candidate_pending : AgentStatus → Bool
candidate_pending status =
    not (status.candidate_revision_digest == "")
    && not (status.candidate_revision_digest == status.active_revision_digest)

-- `pinnedRollbackHolds`
unfoldable pub pinned_rollback_holds : String → String → String → Bool → Bool
pinned_rollback_holds pin candidate spec computed =
    if not computed then pin == "" || pin == candidate else not (spec == candidate)

abbrev served_mode : Option AuthStatus → String
served_mode none = ""
served_mode (some auth) = auth.mode

-- `i1Hold`, whether it holds: a served Agent whose -auth input does not compile keeps its route.
unfoldable pub i1_hold : Bool → AgentStatus → Bool → Bool → Bool
i1_hold gateway_enabled status compiles pinned =
    if not gateway_enabled || (pinned || (not (is_some status.auth) || compiles))
    then false
    else not (served_mode status.auth == "")

-- What `workloadAvailableIn` reads of the Deployment.
pub record Workload : Type 0 where
  pub revision_digest : String
  pub agent_uid : String
  pub available_replicas : ℕ

-- `workloadAvailableIn`, on a read that found the Deployment or found none.
unfoldable pub workload_available_in : String → String → Option Workload → Bool
workload_available_in uid digest none = false
workload_available_in uid digest (some d) =
    if not (d.revision_digest == digest) || not (d.agent_uid == uid)
    then false
    else ltb 0 d.available_replicas

abbrev truncated : Option ℕ → Option ℕ
truncated none = none
truncated (some t) = some (t - t % 1_000_000_000)

abbrev lock_deadline_of : Option AuthTransaction → Option ℕ
lock_deadline_of none = none
lock_deadline_of (some tx) = if is_lock tx.kind then truncated tx.deadline else none

-- `recordedLockDeadline`, truncated to the second.
unfoldable pub recorded_lock_deadline : AgentStatus → Option ℕ
recorded_lock_deadline status = lock_deadline_of (auth_transaction status)

abbrev pub equal_deadline : Option ℕ → Option ℕ → Bool
equal_deadline none none = true
equal_deadline (some a) (some b) = nat_eq a b
equal_deadline _ _ = false

-- `blockedForMatches`: blocked applies only for the current pair and the Lock recorded now.
unfoldable pub blocked_for_matches : Option EvalBlockedFor → String → String → AgentStatus → Bool
unfolding recorded_lock_deadline
blocked_for_matches none rev suite status = false
blocked_for_matches (some bf) rev suite status =
    if not (bf.revision_digest == rev) || not (bf.suite_digest == suite)
    then false
    else equal_deadline (recorded_lock_deadline status) bf.lock_deadline
