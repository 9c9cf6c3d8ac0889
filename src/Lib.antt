-- ===== src/Lib.antt =====
-- Sub2API scheduler and Guardian: a service that watches the accounts and channels of a Sub2API
-- gateway, takes broken ones out of service and brings them back.
--
-- The parts and how they interact. The Guardian decides about channels from collected evidence
-- (src/sub2api_mcp/guardian/state_machine.py), asks for probes of fused channels within a budget
-- (src/sub2api_mcp/guardian/recovery.py), and tests, enables and disables accounts in recovery runs
-- (src/sub2api_mcp/guardian/account_recovery.py). The maintenance (core/maintenance.py) closes
-- accounts whose channel tests fail or whose first tokens come late. Probes, recoveries and
-- maintenance runs are jobs of a queue in PostgreSQL (src/sub2api_mcp/repository.py,
-- src/sub2api_mcp/jobs.py), and workers exclude each other by leases and by claims of snapshots
-- (src/sub2api_mcp/guardian/repository.py). An account that the maintenance closes is entered in a
-- quarantine registry of the repository, which the scheduler scans to leave such accounts alone.
--
-- Which file models what:
--   Prelude: shared tests, lists, texts and dictionaries.
--   Guardian/Contracts: the enumerations, policies and observations of
--     src/sub2api_mcp/guardian/contracts.py and src/sub2api_mcp/contracts.py.
--   Guardian/StateMachine: `decide_channel_state`, cut at its early returns.
--   Guardian/ProbeBudget: `select_recovery_probe_candidates`.
--   Guardian/Selection: `_classification` and `select_account_recovery_candidates`.
--   Guardian/Engine: scope and overrides, the channel error episodes (Episodes) and the decisions of
--     a round (Round) of src/sub2api_mcp/guardian/engine.py, with the table of episodes, and
--     `run_once` with the table `guardian_runs` (Cycle).
--   Guardian/Policies: the row of the policy of src/sub2api_mcp/guardian/repository.py, and its patch
--     by src/sub2api_mcp/guardian/service.py.
--   Guardian/Ledger: the runs of account recovery and their recorded results, of
--     src/sub2api_mcp/guardian/repository.py.
--   Guardian/Executor: `_execute_account` and the loop of `execute`.
--   Maintenance: `_MinimumUsablePool` (Pool), `_ChannelAccountSweepService` (Sweep),
--     `_AccountLogGuardService` (LogGuard) and `MaintenanceCoordinator` (Coordinator).
--   Jobs: the operations on the table `jobs`, as functions of the table, `run_once` (Worker), the
--     operations as steps (Trace), and what interleaved transactions can do (Races).
--   Storage/Leases: the leases of src/sub2api_mcp/guardian/repository.py and
--     src/sub2api_mcp/repository.py.
--   Storage/Cursors, Storage/Paging: the paging cursors and the cut of a page of
--     src/sub2api_mcp/repository.py.
--   Storage/Snapshots: the queue of input snapshots of src/sub2api_mcp/guardian/repository.py.
--   Quarantine: the tables of account quarantines, intents and restore intents of
--     src/sub2api_mcp/repository.py with their operations and listings, the records' validators
--     (Records), the stages of an account that the tables implement (Stages, Refinement), and the
--     scan of src/sub2api_mcp/scheduler.py for excluded accounts (Listing, Excluded).
--   Bindings: `BindingRegistry` of core/bindings.py, which binds chat actors to accounts, and
--     `BindingAttemptLimiter` (Limiter).
--
-- Conventions. An ID of an account or a group is the positive number that it spells without leading
-- zeros, except in Bindings, where a leading 1 keeps spellings apart, and a job's
-- UUID is its 128-bit number. A time is a number of microseconds. A score or a confidence is the
-- whole multiple of 2 ^ -1074 that a finite float is. A call of the gateway, of the adapter or of a
-- handler is an argument that holds its answer; an exception that the code catches is an answer of
-- its own, and one that it does not catch ends the run. The one loop that does not
-- run over a list is the scan of at most 100 pages, whose bound is the source's own. JSON and base64
-- are a parameter with their documented behaviour, the order of texts in the database another.
--
-- Not modelled: HTTP clients and servers, the console, rendering, metrics, configuration, scripts,
-- the floating point scores, the deletion of old jobs, snapshots and runs, and the other tables.
pub mod Prelude
pub mod Guardian
pub mod Maintenance
pub mod Jobs
pub mod Storage
pub mod Bindings
pub mod Quarantine
