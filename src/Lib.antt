-- ===== src/Lib.antt =====
-- Verification of the orchestrator's decision and governance core.
--
-- The program lets a Brain (a ChatGPT conversation) drive executors on the user's machine. The Brain
-- sends controls (PLAN, TASK, REVISE, ASK_USER, PUBLISH, REPLAN, DONE), an executor sends results with
-- evidence, and a Governance service keeps the state of the task between them. Which executor may write
-- is decided by a router and kept by a mutation owner.
--
-- Which file models which part (paths from the root of the repository):
-- - Prelude: the shared names, Boolean tests, and the result type of code that throws.
-- - Router and below it Validation, Selection, Ownership: src/router/decide.js and
--   src/router/capability-router.js, from the raw facts to the decision.
-- - MutationOwner, MutationOwner/Exclusion: src/state/mutation-owner.js. A method returns the new state or
--   the error; `run` is any sequence of calls.
-- - Evidence, Evidence/Normal: normalizeEvidence of src/protocol.js, evaluateEvidenceLevel of
--   src/protocol-integrity.js.
-- - Gate, Gate/Exact: normalizeAcceptanceItem and evaluateDirectAcceptanceGate of
--   src/direct-governance.js.
-- - Governance/Ledger, Governance/Paths, Changed, Freshness: createProofLedger of src/direct-governance.js.
-- - Governance/State, Handoff, Controls, Transition, Results: src/governance/index.js with
--   src/state/handoff.js. `transition` is transition(), `record_result` is recordResult(); each control
--   has its own function in Controls. A call returns the answer or the error, and beside it the
--   service as the call leaves it, since the code writes before it throws.
-- - Governance/Sound, Live, Entered, Recorded, Reach, Ending, Terminal: the invariant of that state, and
--   what ends a step and a task.
--
-- - WriterGuard, WriterGuard/Effect, Moves, Exclusive, Reclaim: src/governance/writer-guard.js. Each
--   call of the file system is a step of one guard, `step` takes an event (the start of a call, the next
--   step of a guard, the death of a process), and `run` any sequence of them.
-- - Coordinator, Coordinator/State, Once, Calls, Accept: createDirectRunCoordinator of
--   src/protocol-integrity.js, with its three calls; `hash` is the payload hash, which is node:crypto's.
-- - JobMap, JobMap/Safe: the recovery preflight of src/executor/job-map.js; `roots_equal` is the
--   comparison of paths by node:path.
-- - Publication, Publication/Quiet, Refused, Cleared: src/publication-transaction.js with
--   checkPublishIdentity of src/publish-policy.js; `git` and `readback` are the injected functions.
-- - Approval, Approval/Closed: src/executor/approval.js.
-- - Table: JavaScript's objects and Maps as association lists, which the Coordinator and the Relay share.
-- - Relay, Relay/Core, Relay/Calls: the requests in flight of RelayCore in src/relay/core.js, with its
--   calls and timers as events; `step` takes one, `run` any sequence. Relay/Store is the database of
--   RelayStore, Relay/Pairing its pairing calls. Relay/Frame, Sweeps, Events: what every event keeps, for
--   any predicate on sessions, pending requests and answers; Bounds, Once, Delivered use them. Rows, Later:
--   what events do to the rows of devices; Fence and Revoked use them. Codes, Completed, Paired,
--   Credential: the pairing codes and the credentials that they issue.
-- - Protocol, Protocol/Repair: the control objects of the Brain, and Registry, Registry/Distinct, Runs,
--   Verdict: the acceptance registry and the evidence ledger, both of src/protocol.js.
-- - Store, Store/Saves, Trusted, Loads: src/governance/store.js. A save may stop at any of its file operations.
-- - Direct, Direct/Items, Reviewed, Record, Runs: createDirectGovernance of src/direct-governance.js, on top of
--   Gate and Governance/Ledger.
-- - The Examples module of a part has runs of it on concrete inputs.
--
-- The Governance service uses Evidence and Gate for the machine gate of a step, and the ledger for the
-- proofs that a later step may reuse. JavaScript's object of steps is an association list in the order
-- of insertion. Strings are native strings, null and undefined are `none`, and the empty string is
-- false where the code tests truthiness. Reading the file system is the parameter `compute` of the
-- ledger: the fingerprint of a file at the time of the call, or nothing where reading it throws; each
-- call of a sequence has its own. There is no fuel: every loop is a
-- recursion on a list, and the retries of the writer guard are counted as in the code.
--
-- Not modelled: time stamps, log and metric counters of the Governance service; names to display and the
-- creation of workspace and process affinities in the relay; the reading of a Brain's text; the names of
-- the files of the Governance store; the durable layer on top of that store; the transports, the local
-- tools, the activation and installation scripts, and the process of an executor, which are input and
-- output.
pub mod Approval
pub mod Coordinator
pub mod Direct
pub mod Evidence
pub mod Gate
pub mod Governance
pub mod JobMap
pub mod MutationOwner
pub mod Prelude
pub mod Protocol
pub mod Publication
pub mod Registry
pub mod Relay
pub mod Router
pub mod Store
pub mod Table
pub mod WriterGuard
