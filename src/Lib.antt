-- ===== src/Lib.antt =====
-- assayd: the eval gate, the rollout, the -auth transactions and the run namespaces of a Kubernetes
-- operator for agents.
--
-- A new revision of an Agent is a candidate. While `spec.gates` names an EvalSuite, the candidate serves
-- only after a run of the suite's cases passes. Two controllers share the Agent's status: the eval
-- controller claims cases one at a time, sends each to the candidate, and records outcomes and a verdict in
-- status.eval; the Agent reconciler reads that record, promotes the candidate or says why it is held, and
-- judges pins against it. They agree through predicates that both call, and through an optimistic lock.
-- The Agent's workloads and material live in a run namespace, which the reconciler makes, binds to the
-- Agent's namespace by a record, and tears down with the last Agent.
--
-- Files, by the code that each models:
--   Status       api/v1alpha1/agent_types.go, evalsuite_types.go: the fields that the parts below use
--   Suite        internal/evalsuite/threshold.go (Threshold, Passes, FormatThreshold) and, in
--                Suite/Digest, digest.go (Digest)
--   Predicates   internal/controller/sendpredicates.go, and the helpers it calls in card.go, authtxn.go,
--                httproute.go and gate.go
--   Gate         internal/controller/gate.go: decideGate and its rows
--   Eval/Records, Eval/Pass, Eval/Steps
--                internal/controller/evalcontroller.go: the records (withOutcome, withCase, appendFailed,
--                appendPassed), one pass of Reconcile and startRun as a decision, and every write as a
--                step on the stored record
--   Conditions   internal/controller/conditions.go: conditionSet and merge
--   Pin          internal/controller/pinrule.go: pinIneligible, pinRule and the status statements' tests
--   Auth         internal/controller/authtxn.go: authStep and all it runs, with what it reads of routes in
--                httproute.go. Auth/Create, Auth/Lock, Auth/Served, Auth/Abandon and Auth/Pass are the
--                operations; Auth/World is the passes over time. Auth/Nack: authnack.go. Auth/Converged:
--                routeConverged and policyConverged, whose answers a pass reads. Auth/Judgement:
--                authserved.go, what is reported of a served route and policy and the claims kept of it
--   Cards        internal/controller/card.go: the entries of status.cards and when a card is read again
--   Rollout      internal/controller/agent_controller.go: the part of Reconcile that decides which revision
--                serves, from collisionAgainstStatus to the promotion switch
--   RunNamespace internal/controller/runnamespace.go: ensureRunNamespace (Ensure), runNamespaceHandler and
--                releaseRunNamespaceIfLast (Handler), runNamespaceStillNeeded (Needed), the binding record
--                (Record), the names (Naming) and the labels (Labels). Log is the passes over time
--   Compiler     internal/compiler/naming.go and auth.go: EmittedName, AdmitGroupsExpression, AuthPolicy and
--                CompileAuth
--   Revision     internal/revision/sources.go (EnvSources, UnknownEnvArms, MissingSources,
--                ContentDigest), and encode and Digest of revision.go
-- The files under each are named for what they prove. Base holds what they share: numbers and text tests,
-- lists, the order of texts, and sorting by a key. Fixtures holds test data, and Examples tests.
--
-- How the code is read. A function that reads the API server takes what it read as an argument, and one
-- that writes returns what it writes. `decide_gate` and `reconcile` are total functions of such records.
-- Eval/Steps is a relation: a world is the stored record with its version, what each process has read,
-- and the requests in flight; a step is a read, or a patch that is stored when its version is current. A
-- patch that meets a Conflict changes nothing, so it has no step. The relation allows more than the code
-- does where its comments say so.
--
-- The -auth passes. A pass of authStep is the list of its writes, in order, computed from status.auth and
-- from a record of what it reads, one such record per round of its loops. A read or write that fails ends
-- the pass at once, as a crash does, so Auth/World plays any prefix of the list. `create_rounds` and
-- `lock_rounds` take the source's own bound, twelve rounds, and end unsettled after it as the code does.
-- Others may change the route and the policy between any two reads; only the operator writes status.auth.
-- A route is credited with a 401 that a probe got when nothing above the route could have given it.
--
-- Run namespaces. A pass is the list of its writes, as for -auth, and RunNamespace/Log plays any prefix of
-- each on the log of all writes so far, from which the stored binding record is read back. The record is
-- read live in the lock of its run namespace, and only the operator writes it; namespaces are made and
-- deleted by anyone, so every read of one is arbitrary. A deletion carries the UID that was read as its
-- precondition.
--
-- The rollout. `roll_out` is one pass from the status it begins with to the one it would write, with the
-- workload's readiness, the cards, whether -auth compiles and what the gate reads as inputs.
--
-- Numbers. Go's `int` and `int64` are natural numbers, except in `passes`, which multiplies modulo 2^64
-- and compares as signed numbers. A time is a count of nanoseconds. `evict` runs on fuel, the length
-- of its list: each round drops one entry, and Eval/Retention needs no more rounds. Text is compared by
-- code points, which for valid UTF-8 is Go's order.
--
-- Parameters: the canonical JSON encoder, SHA-256 and the bytes of a text, for which an injective encoding
-- and the absence of collisions are assumed by name; the hash of a long name, the UTF-8 test and the
-- policy's digest; the projection that the revision digest covers, and its JSON, of which nothing is
-- assumed; clause 5 of the exemption, the candidate's address and the card fetch, which are inputs of a pass.
--
-- Not modelled: the texts of messages and logs; HTTP (internal/evalclient) and the Kubernetes client; the
-- policy's constant fields and its digest (internal/compiler); the parse of a NACK's message; the
-- projection of a spec (internal/revision); the workloads, services, routes and copies of material, quotas
-- and limit ranges that the Agent reconciler builds; generated code, charts and commands.
pub mod Base
pub mod Status
pub mod Suite
pub mod Eval
pub mod Predicates
pub mod Gate
pub mod Conditions
pub mod Pin
pub mod Revision
pub mod Rollout
pub mod RunNamespace
pub mod Auth
pub mod Cards
pub mod Compiler
pub mod Fixtures
pub mod Examples
