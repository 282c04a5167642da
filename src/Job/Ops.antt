-- ===== src/Job/Ops.antt =====
-- The operations of packages/domain/src/job.ts as data; a rejected operation leaves the job.
use automation.Prelude.{
  ℕ, ◌≡◌, ◌≢◌, String, Bool, true, false, Option, none, List, [], ◌∷◌, Result, ok, err, arith, ◌≤◌,
  ◌⊎◌,
}
use automation.Job.{
  Job, JobStatus, JobOwnership, JobError, CreateJobInput, create_job, claim_job, mark_job_running,
  mark_job_succeeded, mark_job_failed, mark_job_cancelled, mark_job_running_with_ownership,
  mark_job_succeeded_with_ownership, mark_job_failed_with_ownership,
  mark_job_cancelled_with_ownership, unclaim_job, release_claim_with_ownership, reset_job_to_queued,
  reset_job_to_queued_with_ownership, queued, claimed, running, succeeded, failed, cancelled,
}

-- What an owner may do, and what needs no token.
pub data Action : Type 0 where
  run succeed fail cancel release reset : Action

pub data JobOp : Type 0 where
  claim : String → String → ℕ → Option ℕ → JobOp
  act : Action → ℕ → JobOp
  act_as : JobOwnership → Action → ℕ → JobOp

unfoldable pub apply_action : Action → Job → ℕ → Result JobError Job
unfolding mark_job_running mark_job_succeeded mark_job_failed mark_job_cancelled unclaim_job
    reset_job_to_queued
apply_action run job now = mark_job_running job now
apply_action succeed job now = mark_job_succeeded job now
apply_action fail job now = mark_job_failed job now
apply_action cancel job now = mark_job_cancelled job now
apply_action release job now = unclaim_job job
apply_action reset job now = reset_job_to_queued job

unfoldable pub apply_owned : Action → Job → JobOwnership → ℕ → Result JobError Job
unfolding mark_job_running_with_ownership mark_job_succeeded_with_ownership
    mark_job_failed_with_ownership mark_job_cancelled_with_ownership release_claim_with_ownership
    reset_job_to_queued_with_ownership
apply_owned run job owner now = mark_job_running_with_ownership job owner now
apply_owned succeed job owner now = mark_job_succeeded_with_ownership job owner now
apply_owned fail job owner now = mark_job_failed_with_ownership job owner now
apply_owned cancel job owner now = mark_job_cancelled_with_ownership job owner now
apply_owned release job owner now = release_claim_with_ownership job owner
apply_owned reset job owner now = reset_job_to_queued_with_ownership job owner

unfoldable pub apply : JobOp → Job → Result JobError Job
unfolding claim_job apply_action apply_owned
apply (claim worker token now ttl) job = claim_job job worker token now ttl
apply (act a now) job = apply_action a job now
apply (act_as owner a now) job = apply_owned a job owner now

abbrev pub keep : Job → Result JobError Job → Job
keep old (ok new) = new
keep old (err e) = old

unfoldable pub apply_all : List JobOp → Job → Job
apply_all [] job = job
apply_all (op ∷ ops) job = apply_all ops (keep job (apply op job))

abbrev pub is_ended : JobStatus → Bool
is_ended succeeded = true
is_ended failed = true
is_ended cancelled = true
is_ended _ = false

abbrev pub IsActive : JobStatus → Type 0
IsActive s = s ≢ queued

-- What holds of a job between two operations: who holds it, and which dates are set.
pub record JobInv (j : Job) : Type 0 where
  pub free :
      j.status ≡ queued → (j.claimed_by ≡ none) × (j.claim_token ≡ none) × (j.claimed_at ≡ none)
  pub held :
      IsActive j.status → (j.claimed_by ≢ none) × (j.claim_token ≢ none) × (j.claimed_at ≢ none)
  pub not_started : (j.status ≡ queued) ⊎ (j.status ≡ claimed) → j.started_at ≡ none
  pub has_started : (j.status ≡ running) ⊎ (is_ended j.status ≡ true) → j.started_at ≢ none
  pub not_ended : is_ended j.status ≡ false → j.completed_at ≡ none
  pub has_ended : is_ended j.status ≡ true → j.completed_at ≢ none
  pub tried : IsActive j.status → 1 ≤ j.attempts

-- A job that `createJob` returns satisfies the invariant.
pub create_job-JobInv : (input : CreateJobInput) → JobInv (create_job input)
unfolding create_job
create_job-JobInv input = ground arith

-- Every accepted operation keeps the invariant, with a token or without.
pub apply-JobInv : (op : JobOp) (j j' : Job) → JobInv j → apply op j ≡ ok j' → JobInv j'
unfolding apply
apply-JobInv (claim worker token now ttl) j j' i h = ground arith
apply-JobInv (act run now) j j' i h = ground arith
apply-JobInv (act a now) j j' i h = ground arith
apply-JobInv (act_as owner run now) j j' i h = ground arith
apply-JobInv (act_as owner a now) j j' i h = ground arith
