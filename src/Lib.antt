-- ===== src/Lib.antt =====
-- A model of the core of the AI SDLC orchestrator: the domain objects that its control plane
-- moves through their states, and what their operations guarantee. An operator queues an issue;
-- a Job is claimed by a worker, which advances a Run through its phases, inside bounded
-- review-and-fix Loops; review comments on the pull request are answered and verified; a
-- scheduler admits the dispatches of several repositories under limits, a lease keeps other
-- workers off a repository; and a release batch collects the merged work of several issues, has
-- it tested and promotes it.
--
-- Files, with the sources that they model (paths from the repository's root):
-- - Run (packages/domain/src/run.ts): the record `Run` and one function for each exported
--   operation, in snake case (`startPhase` is `start_phase`). Run.Ops makes the operations
--   data, Run.Graph has the status diagram, Run.Invariant and Run.History what holds over
--   histories.
-- - Job (packages/domain/src/job.ts): the record `Job`, its operations and those with an
--   ownership. Job.Ops and Job.Ownership have the invariant and the fencing of stale owners.
-- - Loop (packages/domain/src/loop.ts): bounded loops; Loop.Bounds has their bound and
--   numbering.
-- - PrReview (packages/domain/src/pr-review.ts): review comments; PrReview.Severity has the
--   severity of a body, PrReview.Lifecycle the states.
-- - Batch (packages/domain/src/release-batch.ts): the data and errors; Batch.Create,
--   Batch.Items and Batch.Candidate have the operations, Batch.Ops makes them data,
--   Batch.Change says what an operation does to the items, Batch.Listing and Batch.Issues have
--   lemmas on the items, Batch.Invariant, Batch.Release, Batch.Admission and Batch.Alone the
--   properties.
-- - Lease (packages/domain/src/worker-lease.ts,
--   packages/application/src/ports/worker-lease-port.ts,
--   packages/infrastructure/src/sqlite/worker-lease-repository.ts): the leases of workers on
--   repositories, as the rows of their table. Lease.Table has the primary key, Lease.Exclusion
--   the exclusion and the fencing.
-- - JobQueue (packages/application/src/ports/job-queue-port.ts,
--   packages/infrastructure/src/sqlite/job-queue-repository.ts): the table of jobs, on which
--   the operations of Job run. JobQueue.Order has the order of the queue, JobQueue.Claim and
--   JobQueue.Exclusion what a claim takes, JobQueue.Owned the operations of an owner and the
--   reconciliation, JobQueue.Fencing and JobQueue.Ids what they leave alone.
-- - Scheduler (packages/application/src/fair-repository-scheduler.ts): the admission of
--   dispatches, in the pieces between the `await`s of `scheduleOnce`. Scheduler.World
--   interleaves them, Scheduler.Rounds says what a round does, Scheduler.Capacity has the
--   limits, Scheduler.Cursor and Scheduler.Order the cursor after a call and the order of the
--   visits, Scheduler.Sequence the numbers of worker ids.
-- - Worker (packages/domain/src/worker.ts,
--   packages/infrastructure/src/sqlite/worker-registry-repository.ts): the workers and their
--   table.
-- - WorkerLoop (packages/domain/src/execution-outcome.ts,
--   packages/application/src/executor/worker-loop.ts): `runClaimedJob` and `workerLoop` over
--   the tables of JobQueue, Lease and Worker. WorkerLoop itself has the `try`,
--   WorkerLoop.Settling the `catch` and the `finally`, WorkerLoop.Turns the loop.
--   WorkerLoop.Rows says what the operations of an owner leave of its rows, WorkerLoop.Settled
--   what a call leaves of the job, WorkerLoop.Released of the lease; WorkerLoop.Ends and
--   WorkerLoop.Bounded are on the end of the loop.
-- - ValidateFix (packages/application/src/validate-fix/validate-fix-loop.ts and types.ts,
--   packages/application/src/review-fix/types.ts): the validate-fix loop, over the loops of
--   Loop. ValidateFix.Boundary has the check of the changed files, ValidateFix.Rounds the
--   iterations, ValidateFix.Opened, ValidateFix.Steps and ValidateFix.Ends how they and the
--   loop end.
-- - Revalidation (packages/application/src/revalidation-plan.ts): the planner of revalidations.
--   Revalidation.Graph has the graph of the packages and the searches in it,
--   Revalidation.Commands the commands, Revalidation.Plan the plan; Revalidation.Closure and
--   Revalidation.Found say what the search for dependents finds, Revalidation.Packages what the
--   validation of the packages establishes, Revalidation.Depth which package a path is in,
--   Revalidation.Degrees, Revalidation.Acyclic, Revalidation.Kahn and Revalidation.Visits what
--   the test for cycles shows, Revalidation.Narrow when a plan is narrow.
-- - TaskScope (packages/application/src/task-file-boundaries.ts, packages/domain/src/step.ts):
--   which files a task may change. TaskScope.Classes has the classes of changes,
--   TaskScope.Boundaries the checks of a manifest; TaskScope.Permitted says which paths are
--   permitted, TaskScope.Clean what a check that reports nothing means.
-- - Ledger (packages/application/src/review-fix/finding-ledger.ts): the findings of reviews.
--   Ledger has the ids and the new entries, Ledger.Update the operations; Ledger.Ids says that
--   there is a free id, Ledger.Kept that findings are kept, Ledger.Stale what is counted of
--   repeats.
-- - Prelude: the shared names, results of code that throws, optional properties and lists.
--
-- How the code is read. An operation that throws returns `err` with a constructor for each
-- reason; an operation that returns the same object returns the same value. The object spreads
-- of the sources are record updates, and an optional property is an `Option`. A `Date` is its
-- number of milliseconds. The time that a default argument or `new Date()` reads, and the token
-- that a claim draws at random, are arguments. Numbers are naturals: the tests for a whole
-- number hold of them and are not written out, and a test for a positive number is a test for
-- zero. Texts compare as code points. A history is a list of operations in which one that
-- throws leaves the object as it was, as for a caller that catches the error. Every recursion
-- is over a list, but for these: the search for a free sequence number in Scheduler takes fuel
-- for one step more than there are numbers in use; the search for dependents, and the two loops
-- in topological order, take fuel for one step more than there are packages, since each package
-- comes into a queue once; the validate-fix loop takes as much fuel as it is allowed
-- iterations, each of which adds one to its loop or ends it. The search for a free id in Ledger
-- takes fuel for one step more than there are ids. The turns of the loop of a worker are
-- bounded by a list of what they read. In WorkerLoop, what other processes, the heartbeat and
-- the abort signals do while a call waits is a function on the tables, an argument for each
-- wait; between the waits nobody else changes the tables. In ValidateFix the ports are
-- functions on the state of everything outside. What the scheduler asks of its ports (the
-- inspection of a repository, the worker ids) and the order of texts are arguments, and its
-- repositories come sorted. The order of texts in the queue's `ORDER BY` is an argument too,
-- total and transitive where a theorem needs it, and a table keeps its rows in the order of
-- their insertion.
--
-- Not modelled: the polling loop, the drain and the telemetry of the scheduler, which read its
-- state only; the callbacks of the worker loop (of `markUnreachable`, the error for a
-- repository that is missing) and the race of an execution with the abort signals, of which
-- WorkerLoop takes the outcome; the reading of a manifest, of which ValidateFix takes the
-- result, with the function that gives the files that violate it (TaskScope has that function);
-- the rendering of a ledger as a prompt; the ownership claims and the diffs of
-- packages/application/src/task-file-boundaries.ts; the artifacts of the orchestrator, which
-- TaskScope takes as a test; the patterns and the splitting of texts in Revalidation and
-- TaskScope; the executor of runs, the phase handlers, the agent, git and GitHub adapters, the
-- HTTP API, the command line and the dashboard, which are mainly calls of other programs.
pub mod Prelude
pub mod Run
pub mod Job
pub mod Loop
pub mod PrReview
pub mod Batch
pub mod Lease
pub mod Scheduler
pub mod JobQueue
pub mod Worker
pub mod WorkerLoop
pub mod ValidateFix
pub mod Revalidation
pub mod TaskScope
pub mod Ledger
