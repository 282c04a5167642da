-- ===== src/WorkerLoop.antt =====
-- packages/application/src/executor/worker-loop.ts and packages/domain/src/execution-outcome.ts: a
-- worker runs a job that it has claimed, under a lease on the repository. The tables of jobs, leases
-- and workers are those of JobQueue, Lease and Worker. What happens at an `await`, by other processes
-- and by the heartbeat too, is an argument: a function on the tables with the outcome of the wait.
-- Left out: the callbacks of progress, of a failed preparation and of the availability of a
-- repository, and the notification, which change none of the tables.
pub mod Settling
pub mod Rows
pub mod Settled
pub mod Released
pub mod Turns
pub mod Ends
pub mod Bounded
mod Tests
use automation.Prelude.{
  ℕ, ◌+◌, String, Bool, true, false, not, ◌&&◌, ◌||◌, Option, none, some, List, [], ◌∷◌, ◌++◌,
  Result, ok, err, if◌then◌else◌, str_eq, find?, includes,
}
use automation.Run.{RunStatus}
use automation.Job.{Job, JobStatus, JobOwnership, JobError, generate_job_ownership}
use automation.JobQueue.{QueueError, job_ownership_lost, update_job_with_ownership}
use automation.JobQueue.Owned.{
  OwnedOp, give_back, send_back, begin, succeed, fail, cancel, run_owned, transition,
}
use automation.Lease.{WorkerLease, AcquireLeaseInput, Holder, acquire, release, new_lease}
use automation.Worker.{
  Worker, WorkerStatus, idle, busy, stopping, unhealthy, find_worker, mark_busy, mark_idle,
  mark_stopping,
}

pub data ExecutionOutcome : Type 0 where
  completed deferred operator_blocked failed cancelled : ExecutionOutcome

unfoldable pub run_status_to_execution_outcome : RunStatus → ExecutionOutcome
run_status_to_execution_outcome RunStatus.passed = completed
run_status_to_execution_outcome RunStatus.waiting = deferred
run_status_to_execution_outcome RunStatus.blocked = operator_blocked
run_status_to_execution_outcome RunStatus.needs_human_review = operator_blocked
run_status_to_execution_outcome RunStatus.failed = ExecutionOutcome.failed
run_status_to_execution_outcome RunStatus.cancelled = ExecutionOutcome.cancelled
run_status_to_execution_outcome _ = ExecutionOutcome.failed

unfoldable pub execution_outcome_to_job_status : ExecutionOutcome → JobStatus
execution_outcome_to_job_status completed = JobStatus.succeeded
execution_outcome_to_job_status deferred = JobStatus.succeeded
execution_outcome_to_job_status operator_blocked = JobStatus.succeeded
execution_outcome_to_job_status ExecutionOutcome.failed = JobStatus.failed
execution_outcome_to_job_status ExecutionOutcome.cancelled = JobStatus.cancelled

pub data AbortReason : Type 0 where
  shutdown user_cancelled lease_lost repository_unavailable : AbortReason

-- A patch that `updateRun` receives.
pub record RunPatch : Type 0 where
  pub run_id : String
  pub status : RunStatus
  pub failure_reason : Option String

pub record Site : Type 0 where
  pub jobs : List Job
  pub leases : List WorkerLease
  pub workers : List Worker
  pub patches : List RunPatch
  pub skipped_job_ids : List String

-- What is thrown, as far as `runClaimedJob` tells it apart.
pub data Thrown : Type 0 where
  ownership_lost lease_conflict grace_expired_during_shutdown other : Thrown
  unavailable : String → Thrown

pub data ExecutionEnd : Type 0 where
  finished : ExecutionOutcome → ExecutionEnd
  threw : Thrown → ExecutionEnd

-- The waits of one call, and what it reads: the token and the times, whether the run is found, and
-- the reason of an abort when an error is caught and at the end.
pub record Waits : Type 0 where
  pub lease_token : String
  pub acquired_at : ℕ
  pub ttl_ms : ℕ
  pub started_at : ℕ
  pub ended_at : ℕ
  pub run_found : Bool
  pub prepare : Site → Site × Option Thrown
  pub execute : Site → Site × ExecutionEnd
  pub reason_caught : Option AbortReason
  pub reason_at_end : Option AbortReason

pub data JobResult : Type 0 where
  settled lease_conflict : JobResult

-- The state of the call after its `try` or its `catch`.
pub record Attempt : Type 0 where
  pub site : Site
  pub lease : Option Holder
  pub started : Bool
  pub result : Result Thrown JobResult

abbrev pub thrown_by : QueueError → Thrown
thrown_by (job_ownership_lost id) = ownership_lost
thrown_by _ = other

-- The call of the queue that settles a job with the given status.
abbrev pub settling : JobStatus → ℕ → OwnedOp
settling JobStatus.succeeded now = succeed now
settling JobStatus.cancelled now = cancel now
settling _ now = fail now

abbrev pub lease_input : String → Job → Waits → AcquireLeaseInput
lease_input worker job w = record {
  repo_id = job.repo_id;
  worker_id = worker;
  run_id = job.run_id;
  now = w.acquired_at;
  ttl_ms = w.ttl_ms;
}

abbrev pub holder_of : String → Job → Waits → Holder
holder_of worker job w = record {
  repo_id = job.repo_id;
  worker_id = worker;
  run_id = job.run_id;
  lease_token = w.lease_token;
}

-- The marks of the queue with which a job is settled after its execution.
unfoldable pub settle : Waits → JobOwnership → ExecutionEnd → Site → Site × Result Thrown JobResult
unfolding run_owned execution_outcome_to_job_status
settle w owner (threw t) s = (s, err t)
settle w owner (finished outcome) s =
    elim (run_owned (settling (execution_outcome_to_job_status outcome) w.ended_at) owner s.jobs) [
      | err e ↦ (s, err (thrown_by e))
      | ok jobs ↦ (record s { jobs = jobs }, ok settled)
    ]

-- After the preparation of the worktree.
unfoldable pub execute_run :
    Waits → JobOwnership → Option Thrown → Site → Site × Result Thrown JobResult
unfolding settle
execute_run w owner (some t) s = (s, err t)
execute_run w owner none s =
    let (done, end) = w.execute s in
    if not w.run_found then (s, err other) else settle w owner end done

-- After the job is marked running.
unfoldable pub work : Waits → JobOwnership → Site → Site × Result Thrown JobResult
unfolding execute_run
work w owner s = let (prepared, failure) = w.prepare s in execute_run w owner failure prepared

-- After the lease is acquired.
unfoldable pub start : Waits → JobOwnership → Holder → Site → Attempt
unfolding run_owned work
start w owner lease s = elim (run_owned (begin w.started_at) owner s.jobs) [
  | err e ↦ record { site = s; lease = some lease; started = false; result = err (thrown_by e) }
  | ok jobs ↦
      let (worked, result) = work w owner (record s { jobs = jobs }) in
      record { site = worked; lease = some lease; started = true; result = result }
]

-- The `try` block.
unfoldable pub try_run : String → String → Job → JobOwnership → Waits → Site → Attempt
unfolding start acquire mark_busy
try_run repo worker job owner w s = elim (mark_busy worker repo s.workers) [
  | err e ↦ record { site = s; lease = none; started = false; result = err other }
  | ok workers ↦
      let s' = record s { workers = workers } in
      elim (acquire (lease_input worker job w) w.lease_token s.leases) [
        | err e ↦ record {
          site = s';
          lease = none;
          started = false;
          result = err Thrown.lease_conflict;
        }
        | ok leases ↦ start w owner (holder_of worker job w) (record s' { leases = leases })
      ]
]
