-- ===== src/Job.antt =====
-- packages/domain/src/job.ts: the Job of a queue and who owns it. The random text that
-- `newClaimToken` draws is an argument of `claim_job`; a `Date` is its number of milliseconds.
pub mod Ops
pub mod Ownership
mod Tests
use automation.Prelude.{
  ℕ, ◌+◌, String, Bool, true, false, not, Option, none, some, Result, ok, err, ◌>>=◌, ◌>>◌,
  throw_if, is_none, get_or, or_else, opt_is_str, truthy,
}

pub data JobStatus : Type 0 where
  queued claimed running succeeded failed cancelled : JobStatus

pub data ResumeDisposition : Type 0 where
  preserve_working_tree reset_to_baseline : ResumeDisposition

pub record JobOwnership : Type 0 where
  pub job_id : String
  pub worker_id : String
  pub claim_token : String

pub record Job : Type 0 where
  pub id : String
  pub run_id : String
  pub repo_id : String
  pub issue_number : ℕ
  pub status : JobStatus
  pub priority : ℕ
  pub attempts : ℕ
  pub claimed_by : Option String
  pub claim_token : Option String
  pub created_at : ℕ
  pub claimed_at : Option ℕ
  pub started_at : Option ℕ
  pub completed_at : Option ℕ
  pub claim_expires_at : Option ℕ
  pub resume_disposition : Option ResumeDisposition

pub record CreateJobInput : Type 0 where
  pub id : String
  pub run_id : String
  pub repo_id : String
  pub issue_number : ℕ
  pub priority : Option ℕ
  pub created_at : ℕ
  pub resume_disposition : Option ResumeDisposition

-- What is thrown: a `JobStateError` for one of two reasons, or the `Error` of a missing token.
pub data JobError : Type 0 where
  unexpected_status : JobStatus → JobError
  token_mismatch : JobError
  no_claim_token : JobError

abbrev pub is_queued : JobStatus → Bool
is_queued queued = true
is_queued _ = false

abbrev pub is_claimed : JobStatus → Bool
is_claimed claimed = true
is_claimed _ = false

abbrev pub is_running : JobStatus → Bool
is_running running = true
is_running _ = false

-- `claimed` or `running`: the statuses that a reset accepts.
abbrev pub is_held : JobStatus → Bool
is_held claimed = true
is_held running = true
is_held _ = false

unfoldable pub generate_job_ownership : Job → String → Result JobError JobOwnership
generate_job_ownership job worker_id = elim job.claim_token [
  | none ↦ err no_claim_token
  | some token ↦ do
    throw_if (not (truthy (some token))) no_claim_token
    ok (record { job_id = job.id; worker_id = worker_id; claim_token = token })
]

unfoldable pub create_job : CreateJobInput → Job
create_job input = record {
  id = input.id;
  run_id = input.run_id;
  repo_id = input.repo_id;
  issue_number = input.issue_number;
  status = queued;
  priority = get_or input.priority 0;
  attempts = 0;
  claimed_by = none;
  claim_token = none;
  created_at = input.created_at;
  claimed_at = none;
  started_at = none;
  completed_at = none;
  claim_expires_at = none;
  resume_disposition = input.resume_disposition;
}

-- `ttlMs !== undefined ? { claimExpiresAt: now + ttlMs } : {}` over the old property.
abbrev pub expiry : ℕ → Option ℕ → Option ℕ → Option ℕ
expiry now none old = old
expiry now (some ttl) old = some (now + ttl)

-- The arguments are the job, the worker, the drawn token, the time and `ttlMs`.
unfoldable pub claim_job : Job → String → String → ℕ → Option ℕ → Result JobError Job
claim_job job worker_id token now ttl_ms = do
  throw_if (not (is_queued job.status)) (unexpected_status job.status)
  ok (record job {
    status = claimed;
    claimed_by = some worker_id;
    claim_token = some token;
    claimed_at = some now;
    attempts = job.attempts + 1;
    claim_expires_at = expiry now ttl_ms job.claim_expires_at;
  })

unfoldable pub claim_job_with_ownership :
    Job → String → String → ℕ → Option ℕ → Result JobError (Job × JobOwnership)
unfolding claim_job generate_job_ownership
claim_job_with_ownership job worker_id token now ttl_ms = do
  claimed_job ← claim_job job worker_id token now ttl_ms
  ownership ← generate_job_ownership claimed_job worker_id
  ok (claimed_job, ownership)

unfoldable pub mark_job_running : Job → ℕ → Result JobError Job
mark_job_running job now = do
  throw_if (not (is_claimed job.status)) (unexpected_status job.status)
  ok (record job { status = running; started_at = some now })

-- The status is one of the last three.
unfoldable pub terminate : Job → JobStatus → ℕ → Result JobError Job
terminate job status now = do
  throw_if (not (is_running job.status)) (unexpected_status job.status)
  ok (record job { status = status; completed_at = some now })

unfoldable pub mark_job_succeeded : Job → ℕ → Result JobError Job
unfolding terminate
mark_job_succeeded job now = terminate job succeeded now

unfoldable pub mark_job_failed : Job → ℕ → Result JobError Job
unfolding terminate
mark_job_failed job now = terminate job failed now

unfoldable pub mark_job_cancelled : Job → ℕ → Result JobError Job
unfolding terminate
mark_job_cancelled job now = terminate job cancelled now

-- `job.claimToken !== owner.claimToken`.
abbrev pub is_stale : Job → JobOwnership → Bool
is_stale job owner = not (opt_is_str job.claim_token owner.claim_token)

unfoldable pub mark_job_running_with_ownership : Job → JobOwnership → ℕ → Result JobError Job
unfolding mark_job_running
mark_job_running_with_ownership job owner now = do
  throw_if (is_stale job owner) token_mismatch
  mark_job_running job now

unfoldable pub mark_job_succeeded_with_ownership : Job → JobOwnership → ℕ → Result JobError Job
unfolding mark_job_succeeded
mark_job_succeeded_with_ownership job owner now = do
  throw_if (is_stale job owner) token_mismatch
  mark_job_succeeded job now

unfoldable pub mark_job_failed_with_ownership : Job → JobOwnership → ℕ → Result JobError Job
unfolding mark_job_failed
mark_job_failed_with_ownership job owner now = do
  throw_if (is_stale job owner) token_mismatch
  mark_job_failed job now

unfoldable pub mark_job_cancelled_with_ownership : Job → JobOwnership → ℕ → Result JobError Job
unfolding mark_job_cancelled
mark_job_cancelled_with_ownership job owner now = do
  throw_if (is_stale job owner) token_mismatch
  mark_job_cancelled job now

-- The expiry of the claim stays.
unfoldable pub unclaim_job : Job → Result JobError Job
unclaim_job job = do
  throw_if (not (is_claimed job.status)) (unexpected_status job.status)
  ok (record job { status = queued; claimed_by = none; claimed_at = none; claim_token = none })

unfoldable pub release_claim_with_ownership : Job → JobOwnership → Result JobError Job
unfolding unclaim_job
release_claim_with_ownership job owner = do
  throw_if (is_stale job owner) token_mismatch
  unclaim_job job

-- The expiry of the claim stays.
unfoldable pub reset_job_to_queued : Job → Result JobError Job
reset_job_to_queued job = do
  throw_if (not (is_held job.status)) (unexpected_status job.status)
  ok (record job {
    status = queued;
    claimed_by = none;
    claimed_at = none;
    started_at = none;
    claim_token = none;
  })

unfoldable pub reset_job_to_queued_with_ownership : Job → JobOwnership → Result JobError Job
unfolding reset_job_to_queued
reset_job_to_queued_with_ownership job owner = do
  throw_if (is_stale job owner) token_mismatch
  reset_job_to_queued job
