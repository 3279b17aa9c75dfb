-- ===== src/Lib.antt =====
-- The analysis queue of the PARTHA backend, verified.
--
-- The backend analyses imported repositories in the background. A request submits a job through
-- `AnalysisJobService` (apps/backend/app/services/analysis_job_service.py); a job is a row of the
-- table `analysis_jobs` (models/analysis_job.py), and that table is the queue. Workers in any number
-- of processes poll it: `DatabaseAnalysisControlPlane` (workers/control_plane.py) decides which job is
-- eligible and who owns it, by guarded UPDATE statements whose row count tells who has won;
-- `AnalysisWorker` (workers/analysis_worker.py) runs a claimed job through its stages to one of its
-- endings, and sweeps up jobs whose worker has died. The facts that a failed run leaves are purged by
-- intelligence/retention.py. A request may cancel a job at any time, even while a worker claims it.
--
-- The files, with paths below apps/backend/app:
--   Table          a table under the statements that SQLAlchemy sends: lookup by key, guarded update
--                  with its row count, ordered selection. Table.Laws, Table.Cases, Table.Select.*: laws
--   Jobs           models/analysis_job.py: the row; Jobs.Valid: its invariant
--   Database       the other rows, models/repository.py and models/snapshot.py
--   ControlPlane   workers/control_plane.py: next_eligible_job_id, claim, renew, expired_job_ids,
--                  reclaim, update_owned, cancel_requested. Claiming, Ownership, Reclaim, Expiry and
--                  Valid below it hold the proofs
--   Session        a SQLAlchemy session: what is committed, what the open transaction sees, the number
--                  of clock readings; an action returns or raises. Session.Rules, Session.Keeps: rules
--   Retention      intelligence/retention.py; Retention.Purge: its proofs
--   Worker         workers/analysis_worker.py: Worker.Endings (_update_owned_job, _lock_owned_job,
--                  _complete, _cancel, _complete_sealed_snapshot, _checkpoint), Worker.Retry
--                  (_retry_or_fail, _fail_resource_exceeded), Worker.Sweep (_reconcile_stale,
--                  sweep_stale), Worker.Run (_execute_stages, run_once). Proofs: Worker.Valid,
--                  Worker.Soundness, Worker.Tracking, Worker.Retries, Worker.Sweeps, Worker.Runs
--   JobService     services/analysis_job_service.py: JobService.Lookup (the queries),
--                  JobService.Submit and JobService.Rows (submit, status), JobService.Cancel (cancel).
--                  Proofs: JobService.Queries, JobService.Valid, JobService.Submission,
--                  JobService.Final, JobService.CancelRuns, JobService.Outcome
--   Text           Python's `str` on lists of code points; Text.Laws, Text.Parts, Text.Order: laws
--   Canonical      intelligence/canonical.py: Canonical.Path (normalize_repo_path), Canonical.Key
--                  (normalize_stable_key, validate_predicate, compute_edge_id), Canonical.Records
--                  (_order_records), Canonical.Lists (normalize_producer_version_set, sort_derived_from,
--                  order_evidence), Canonical.Json (_normalize). Proofs: Path.Normal, Path.Escape, Path.Characters, Key.Forms,
--                  Key.Identity, Records.Distinct, Records.Ordered, Lists.Orders, Lists.Producers,
--                  Json.Stable; Results: rules
--   Snapshots      intelligence/snapshot_store.py: Snapshots.Begin (begin, get_or_reuse, find_completed),
--                  Snapshots.Evidence (_add_evidence, _validate_stored_evidence), Snapshots.Nodes
--                  (add_node), Snapshots.Derivations
--                  (_validate_derivation_graph), Snapshots.Graph (its search for a cycle),
--                  Snapshots.Guard (_guard_completed_snapshots and the flush behind it). Proofs:
--                  Begin.Reuse, Derivations.Grouped, ByRow, Filled, Described and Validated, Evidence.Sealing, Graph.Acyclic, Graph.Visits,
--                  Graph.Search, Guard.Fresh, Guard.Immutable, Guard.Flush, Nodes.Find, Nodes.Lookup
--   RateLimit      core/rate_limit.py: classify, resolve_rate_key, MemoryRateLimitStore.hit and the
--                  middleware's dispatch. RateLimit.Limits, RateLimit.Routes, RateLimit.Dispatch: the
--                  proofs
--   ResourceBudget analysis/resource_budget.py: the budget of a run. ResourceBudget.Stream: the loop of
--                  analysis/source_stream.py and its checkpoints. ResourceBudget.Served, Calls,
--                  Charges: its proof
--   System         all users of the queue, one method after the other; System.Reachable: its invariant
--   Tests          the theorems at concrete data
--
-- Choices. The ids, hashes and revision values of the queue are only compared, so they are natural
-- numbers; in Canonical and Snapshots they are texts, which are lists of code points. An instant
-- is a number of microseconds, and the clock is a function of the number of its readings. A statement
-- takes effect at once and on all rows, as the database guarantees; where an ORDER BY ties, the order
-- of the table decides. A worker's method runs on its own session, from the committed rows to what it
-- commits. Two methods that interleave within one another meet in the guarded statements; the
-- theorems on those take the table as it then is, and the row that the caller has read as another
-- argument. The retries of a cancellation are counted down from `_CANCEL_LOCK_ATTEMPTS`, 3, and which
-- of them meet a lock is an argument. The depth-first search of the derivation graph has one unit of
-- fuel for each key of the graph, which is proved to be enough; no other recursion needs fuel.
-- What the operating system answers for the paths of a manifest, and what a session has loaded of the
-- attributes of a snapshot, are arguments.
-- `unicodedata.normalize`, `str.isalpha`, `json.dumps` and SHA-256 are arguments.
-- Beside the queue stand the resource budget that a run is charged against, and the rate limiter of the
-- HTTP front, a counter for each budget and identity. What the analysis finds is stored in a snapshot
-- under identities that canonical.py computes (paths, keys, edge ids) and that snapshot_store.py checks,
-- when a fact is written and again before the snapshot is sealed.
--
-- Not modelled: the bodies of the stages (extraction, resolution and sealing) and the heartbeat thread
-- around them, which are the argument `run_stage` of the worker's loop and may raise anything; the
-- refinement of `repo_metadata`; logging; foreign keys; the text of errors, but for what is stored;
-- the normalisation and the reading of the manifest before the stream, and the bytes that it reads;
-- the rate limiter's store in Redis and the check of access tokens, whose result is an argument.
-- Of canonical.py, the records of nodes, edges and diagnostics, the declared arrays, the ids of
-- observations and assertions and the texts of JSON values are not modelled; of snapshot_store.py, the
-- other writers, the rest of the validation, the sealing transaction and the rejection of bulk
-- statements. The rest of the backend (resolution, queries, authentication, the HTTP routes, the AI
-- providers) and the frontend are outside this library.
pub mod Prelude
pub mod Text
pub mod Table
pub mod Jobs
pub mod ControlPlane
pub mod Database
pub mod Session
pub mod Retention
pub mod Worker
pub mod JobService
pub mod RateLimit
pub mod ResourceBudget
pub mod Canonical
pub mod Snapshots
pub mod System
pub mod Tests
