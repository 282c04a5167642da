-- ===== src/JobQueue/Owned.antt =====
-- The operations of the queue on one job, by its owner or to reconcile it, and their limits:
-- packages/infrastructure/src/sqlite/job-queue-repository.ts.
use automation.Prelude.{
  ℕ, String, str_eq, Bool, true, false, not, ◌&&◌, ◌||◌, Option, none, some, List, [], ◌∷◌,
  if◌then◌else◌, find?, Result, ok, err, opt_is_str,
}
use automation.Job.{
  Job, JobStatus, JobOwnership, JobError, queued, claimed, running, succeeded, failed, cancelled,
  unclaim_job, reset_job_to_queued, mark_job_running, mark_job_succeeded, mark_job_failed,
  mark_job_cancelled,
}
use automation.JobQueue.{QueueError, job_ownership_lost, update_job_with_ownership}

-- The methods `releaseClaim`, `resetToQueued` and the four marks, with their times.
pub data OwnedOp : Type 0 where
  give_back send_back : OwnedOp
  begin succeed fail cancel : ℕ → OwnedOp

unfoldable pub transition : OwnedOp → Job → Result JobError Job
unfolding unclaim_job reset_job_to_queued mark_job_running mark_job_succeeded mark_job_failed
    mark_job_cancelled
transition give_back j = unclaim_job j
transition send_back j = reset_job_to_queued j
transition (begin now) j = mark_job_running j now
transition (succeed now) j = mark_job_succeeded j now
transition (fail now) j = mark_job_failed j now
transition (cancel now) j = mark_job_cancelled j now

unfoldable pub run_owned : OwnedOp → JobOwnership → List Job → Result QueueError (List Job)
unfolding update_job_with_ownership
run_owned op owner rows = update_job_with_ownership owner (transition op) rows

-- `findById`.
abbrev pub is_scoped : Option String → Job → Bool
is_scoped none j = true
is_scoped (some own) j = str_eq j.repo_id own

unfoldable pub find_by_id : Option String → String → List Job → Option Job
find_by_id scope id rows = find? (λ j. str_eq j.id id && is_scoped scope j) rows

pub record ReconcileTerminalJobInput : Type 0 where
  pub job_id : String
  pub target_status : JobStatus
  pub now : ℕ
  pub expected_status : Option JobStatus
  pub owner : Option JobOwnership

pub record ReconcileTerminalJobResult : Type 0 where
  pub reconciled : Bool
  pub status : JobStatus

abbrev pub is_ended_status : JobStatus → Bool
is_ended_status succeeded = true
is_ended_status failed = true
is_ended_status cancelled = true
is_ended_status _ = false

abbrev pub same_status : JobStatus → JobStatus → Bool
same_status queued queued = true
same_status claimed claimed = true
same_status running running = true
same_status succeeded succeeded = true
same_status failed failed = true
same_status cancelled cancelled = true
same_status _ _ = false

abbrev pub is_unexpected : Option JobStatus → JobStatus → Bool
is_unexpected none status = false
is_unexpected (some expected) status = not (same_status status expected)

abbrev pub is_foreign_owner : Option JobOwnership → Job → Bool
is_foreign_owner none j = false
is_foreign_owner (some owner) j =
    not (opt_is_str j.claimed_by owner.worker_id)
    || not (opt_is_str j.claim_token owner.claim_token)

-- The columns that a reconciliation sets.
abbrev pub write_end : ReconcileTerminalJobInput → Job → Job
write_end input j = record j {
  status = input.target_status;
  completed_at = some input.now;
  claimed_by = none;
  claim_token = none;
  claim_expires_at = none;
}

unfoldable pub update_ended : Option String → ReconcileTerminalJobInput → List Job → List Job
update_ended scope input [] = []
update_ended scope input (j ∷ js) =
    (if str_eq j.id input.job_id && is_scoped scope j then write_end input j else j)
    ∷ update_ended scope input js

unfoldable pub reconcile_terminal_job :
    Option String
    → ReconcileTerminalJobInput
    → List Job
    → Result QueueError (ReconcileTerminalJobResult × List Job)
unfolding find_by_id update_ended
reconcile_terminal_job scope input rows = elim (find_by_id scope input.job_id rows) [
  | none ↦ ok (record { reconciled = false; status = failed }, rows)
  | some row ↦
      if is_ended_status row.status || is_unexpected input.expected_status row.status
      then ok (record { reconciled = false; status = row.status }, rows)
      else if is_foreign_owner input.owner row
      then err (job_ownership_lost (elim input.owner [ none ↦ input.job_id | some o ↦ o.job_id ]))
      else ok (
        record { reconciled = true; status = input.target_status },
        update_ended scope input rows,
      )
]
