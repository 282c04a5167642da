-- ===== src/JobQueue.antt =====
-- packages/infrastructure/src/sqlite/job-queue-repository.ts: the table of jobs and the statements
-- of the queue on it. A row and its Job have the same columns, so that the table is a list of jobs;
-- each method is one transaction. The order of texts in `ORDER BY id`, the registry of
-- repositories, the token that a claim draws and the time that it reads are arguments.
pub mod Order
pub mod Claim
pub mod Exclusion
pub mod Owned
pub mod Ids
pub mod Fencing
mod Tests
use automation.Prelude.{
  ℕ, ◌+◌, String, str_eq, Bool, true, false, not, ◌&&◌, ◌||◌, Option, none, some, List, [], ◌∷◌,
  ◌++◌, Result, ok, err, ltb, ◌==◌, if◌then◌else◌, find?, includes, opt_is_str, ◌>>=◌, ◌>>◌,
  throw_if, is_some,
}
use automation.Job.{
  Job, JobStatus, JobOwnership, JobError, is_queued, claim_job, queued, claimed, running, succeeded,
  failed, cancelled, unclaim_job, reset_job_to_queued, mark_job_running, mark_job_succeeded,
  mark_job_failed, mark_job_cancelled,
}

pub data QueueError : Type 0 where
  repository_not_approved : String → QueueError
  duplicate_job_id : String → QueueError
  job_ownership_lost : String → QueueError
  job_error : JobError → QueueError

pub record ClaimNextInput : Type 0 where
  pub worker_id : String
  pub repo_id : String
  pub skip_job_ids : Option (List String)
  pub ttl_ms : Option ℕ

-- `ORDER BY priority DESC, created_at ASC, id ASC`, as "not after".
abbrev pub is_before : (String → String → Bool) → Job → Job → Bool
is_before text_le j k =
    ltb k.priority j.priority
    || (j.priority == k.priority
        && (ltb j.created_at k.created_at || (j.created_at == k.created_at && text_le j.id k.id)))

unfoldable pub insert_row : (String → String → Bool) → Job → List Job → List Job
insert_row text_le j [] = j ∷ []
insert_row text_le j (k ∷ ks) =
    let rest = insert_row text_le j ks in if is_before text_le j k then j ∷ (k ∷ ks) else k ∷ rest

unfoldable pub order_rows : (String → String → Bool) → List Job → List Job
unfolding insert_row
order_rows text_le [] = []
order_rows text_le (j ∷ js) = insert_row text_le j (order_rows text_le js)

-- `WHERE status = 'queued' AND repo_id = @repo_id`.
unfoldable pub queued_rows : String → List Job → List Job
queued_rows repo [] = []
queued_rows repo (j ∷ js) =
    let rest = queued_rows repo js in
    if is_queued j.status && str_eq j.repo_id repo then j ∷ rest else rest

abbrev pub is_skipped : ClaimNextInput → Job → Bool
is_skipped input j = elim input.skip_job_ids [ none ↦ false | some ids ↦ includes ids j.id ]

-- The columns that the update of a claim sets.
abbrev pub write_claim : Job → Job → Job
write_claim claimed_job row = record row {
  status = claimed_job.status;
  claimed_by = claimed_job.claimed_by;
  claim_token = claimed_job.claim_token;
  claimed_at = claimed_job.claimed_at;
  claim_expires_at = claimed_job.claim_expires_at;
  attempts = claimed_job.attempts;
}

-- `UPDATE jobs ... WHERE id = @id AND repo_id = @repo_id`.
unfoldable pub update_claimed : Job → String → List Job → List Job
update_claimed claimed_job repo [] = []
update_claimed claimed_job repo (j ∷ js) =
    (if str_eq j.id claimed_job.id && str_eq j.repo_id repo then write_claim claimed_job j else j)
    ∷ update_claimed claimed_job repo js

-- The transaction `claimTx`.
unfoldable pub claim_tx :
    (String → String → Bool)
    → ClaimNextInput
    → String
    → ℕ
    → List Job
    → Result QueueError (Option Job × List Job)
unfolding claim_job order_rows queued_rows update_claimed
claim_tx text_le input token now rows =
    elim (find? (λ r. not (is_skipped input r))
      (order_rows text_le (queued_rows input.repo_id rows))) [
        | none ↦ ok (none, rows)
        | some job ↦ elim (claim_job job input.worker_id token now input.ttl_ms) [
          | err e ↦ err (job_error e)
          | ok claimed_job ↦ ok (some claimed_job, update_claimed claimed_job input.repo_id rows)
        ]
      ]

-- `this.repoId !== undefined && repo !== this.repoId`.
abbrev pub is_out_of_scope : Option String → String → Bool
is_out_of_scope none repo = false
is_out_of_scope (some own) repo = not (str_eq repo own)

unfoldable pub claim_next :
    (String → String → Bool)
    → Option String
    → ClaimNextInput
    → String
    → ℕ
    → List Job
    → Result QueueError (Option Job × List Job)
unfolding claim_tx
claim_next text_le scope input token now rows =
    if is_out_of_scope scope input.repo_id
    then ok (none, rows)
    else claim_tx text_le input token now rows

-- `repos.findById(id)` as whether there is a repository that is enabled.
unfoldable pub enqueue : (String → Bool) → Job → List Job → Result QueueError (List Job)
enqueue is_approved job rows = do
  throw_if (not (is_approved job.repo_id)) (repository_not_approved job.repo_id)
  throw_if (is_some (find? (λ r. str_eq r.id job.id) rows)) (duplicate_job_id job.id)
  ok (rows ++ (job ∷ []))

-- `claimed_by = .. AND claim_token = ..`, and with `id = ..`.
abbrev pub is_claimed_by : JobOwnership → Job → Bool
is_claimed_by owner j =
    opt_is_str j.claimed_by owner.worker_id && opt_is_str j.claim_token owner.claim_token

abbrev pub is_owned : JobOwnership → Job → Bool
is_owned owner j = str_eq j.id owner.job_id && is_claimed_by owner j

abbrev pub write_job : Job → Job → Job
write_job updated row = record row {
  status = updated.status;
  attempts = updated.attempts;
  claimed_by = updated.claimed_by;
  claim_token = updated.claim_token;
  claimed_at = updated.claimed_at;
  started_at = updated.started_at;
  completed_at = updated.completed_at;
  claim_expires_at = updated.claim_expires_at;
}

unfoldable pub update_owned : JobOwnership → Job → List Job → List Job
update_owned owner updated [] = []
update_owned owner updated (j ∷ js) =
    (if str_eq j.id updated.id && is_claimed_by owner j then write_job updated j else j)
    ∷ update_owned owner updated js

unfoldable pub update_job_with_ownership :
    JobOwnership → (Job → Result JobError Job) → List Job → Result QueueError (List Job)
unfolding update_owned
update_job_with_ownership owner transition rows = elim (find? (is_owned owner) rows) [
  | none ↦ err (job_ownership_lost owner.job_id)
  | some job ↦ elim (transition job) [
    | err e ↦ err (job_error e)
    | ok updated ↦
        if is_some (find? (λ r. str_eq r.id updated.id && is_claimed_by owner r) rows)
        then ok (update_owned owner updated rows)
        else err (job_ownership_lost owner.job_id)
  ]
]
