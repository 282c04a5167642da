-- ===== src/WorkerLoop/Tests.antt =====
-- A worker with a claimed job, and the theorems on it there.
use automation.Prelude.{
  ◌≡◌, ◌≢◌, refl, String, Bool, true, false, none, some, [], ◌∷◌, arith, inr, ok, leb,
}
use Prim.Native.String.{count}
use automation.Job.{Job, JobOwnership, claimed, queued, generate_job_ownership}
use automation.JobQueue.{
  ClaimNextInput, claim_next, claim_tx, order_rows, insert_row, queued_rows, update_claimed,
}
use automation.Lease.{WorkerLease, acquire, new_lease, some_held, worker_lease_conflict, current}
use automation.Worker.{Worker, idle, busy, mark_busy, mark_worker_busy, update_status}
use automation.WorkerLoop.{
  Site, ExecutionOutcome, finished, Waits, JobResult, try_run, holder_of, start, work,
}
use automation.WorkerLoop.Settling.{run_claimed_job}
use automation.WorkerLoop.Rows.{SettledRows, GivenBack}
use automation.WorkerLoop.Settled.{Settles, run_claimed_job-Settles}
use automation.WorkerLoop.Released.{run_claimed_job-releases, conflict-gives_back}
use automation.WorkerLoop.Turns.{WorkerLoopDeps, Turn, again, worker_loop}
use automation.WorkerLoop.Bounded.{worker_loop-ends}

abbrev job : Job
job = record {
  id = "j";
  run_id = "u";
  repo_id = "repo";
  issue_number = 7;
  status = claimed;
  priority = 0;
  attempts = 1;
  claimed_by = some "w";
  claim_token = some "t";
  created_at = 10;
  claimed_at = some 20;
  started_at = none;
  completed_at = none;
  claim_expires_at = none;
  resume_disposition = none;
}

abbrev worker : Worker
worker = record {
  id = "w";
  repo_id = "repo";
  hostname = "h";
  process_id = 1;
  status = idle;
  heartbeat_at = 5;
}

abbrev owner : JobOwnership
owner = record { job_id = "j"; worker_id = "w"; claim_token = "t" }

abbrev site : Site
site = record {
  jobs = job ∷ [];
  leases = [];
  workers = worker ∷ [];
  patches = [];
  skipped_job_ids = [];
}

-- An execution that completes, while the job is taken from its owner.
abbrev waits : Waits
waits = record {
  lease_token = "x";
  acquired_at = 100;
  ttl_ms = 60;
  started_at = 101;
  ended_at = 120;
  run_found = true;
  prepare = λ s. (s, none);
  execute = λ s. (s, finished ExecutionOutcome.completed);
  reason_caught = none;
  reason_at_end = none;
}

run_claimed_job-Settles_example : Settles owner (run_claimed_job "repo" "w" job waits site)
unfolding generate_job_ownership
run_claimed_job-Settles_example =
    run_claimed_job-Settles waits owner (λ s. inr refl) (λ s. inr refl) (λ s t e. ground (arith, e))
      (λ s t e. ground (arith, e)) "repo" "w" job site refl (inr (job, refl, refl))

run_claimed_job-releases_example :
    some_held (holder_of "w" job waits) (run_claimed_job "repo" "w" job waits site).0.leases ≡ false
unfolding generate_job_ownership some_held try_run start work current
    automation.JobQueue.Owned.transition
run_claimed_job-releases_example =
    run_claimed_job-releases "repo" "w" job owner waits site refl refl refl refl

abbrev foreign : WorkerLease
foreign =
    new_lease (record { repo_id = "repo"; worker_id = "v"; run_id = "u9"; now = 90; ttl_ms = 60 })
      "y"

abbrev contended : Site
contended = record site { leases = foreign ∷ [] }

conflict-gives_back_example :
    ((run_claimed_job "repo" "w" job waits contended).1 ≡ ok JobResult.lease_conflict)
    × ((run_claimed_job "repo" "w" job waits contended).0.skipped_job_ids ≡ "j" ∷ [])
    × ((run_claimed_job "repo" "w" job waits contended).0.leases ≡ foreign ∷ [])
    × GivenBack owner (job ∷ []) (run_claimed_job "repo" "w" job waits contended).0.jobs
    × SettledRows owner (run_claimed_job "repo" "w" job waits contended).0.jobs
unfolding generate_job_ownership mark_busy update_status mark_worker_busy acquire current
conflict-gives_back_example =
    conflict-gives_back "repo" "w" job owner waits contended (record worker { status = busy } ∷ [])
      (worker_lease_conflict "repo" "v") refl (inr (job, refl, refl)) refl refl

-- Texts by their lengths.
abbrev by_length : String → String → Bool
by_length x y = leb (count x) (count y)

abbrev loop : WorkerLoopDeps
loop = record { text_le = by_length; scope = none; worker_id = "w"; repo_id = "repo"; ttl_ms = 60 }

abbrev a_turn : Turn
a_turn = record { claim_token = "t"; claimed_at = 20; repo_enabled = true; waits = waits }

worker_loop-ends_example :
    (worker_loop loop true
      (a_turn ∷ a_turn ∷ [])
      (record contended { jobs = record job { status = queued; claim_token = none } ∷ [] })).1
    ≢ again
worker_loop-ends_example =
    worker_loop-ends loop true (a_turn ∷ a_turn ∷ [])
      (record contended { jobs = record job { status = queued; claim_token = none } ∷ [] })
      (
        ((λ s e. ground (arith, e)), (λ s e. ground (arith, e))),
        (((λ s e. ground (arith, e)), (λ s e. ground (arith, e))), tt),
      )
      (omega arith)
