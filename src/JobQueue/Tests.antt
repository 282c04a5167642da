-- ===== src/JobQueue/Tests.antt =====
-- A queue of three jobs, and the theorems on it there.
use automation.Prelude.{
  ℕ, ◌+◌, ◌≡◌, ◌≢◌, refl, Option, Memᴰ, String, Bool, true, false, none, some, List, [], ◌∷◌, arith,
  All, inr, ◌⊎◌, eq_iff, ok, err, leb,
}
use Prim.Native.String.{count}
use automation.Job.{
  Job, JobStatus, JobOwnership, claim_job, queued, claimed, running, succeeded, failed, cancelled,
}
use automation.JobQueue.{
  ClaimNextInput, claim_next, claim_tx, order_rows, insert_row, queued_rows, update_claimed,
  job_ownership_lost,
}
use automation.JobQueue.Order.{IsTextOrder}
use automation.JobQueue.Claim.{Eligible, ComesFirst, claim_next_outcome}
use automation.JobQueue.Exclusion.{claimed_once}
use automation.JobQueue.Owned.{
  succeed, run_owned, find_by_id, ReconcileTerminalJobInput, ReconcileTerminalJobResult,
  reconcile_terminal_job, update_ended,
}
use automation.JobQueue.Fencing.{claimed_fences, reconcile_terminal_job_outcome}

-- Texts by their lengths: one of the orders that the theorems are for.
abbrev by_length : String → String → Bool
by_length x y = leb (count x) (count y)

by_length-IsTextOrder : IsTextOrder by_length
by_length-IsTextOrder = record {
  total = λ x y. ground arith;
  transitive = λ x y z a b. ground (arith, a, b);
}

abbrev make : String → ℕ → ℕ → Job
make id priority created_at = record {
  id = id;
  run_id = "u";
  repo_id = "repo";
  issue_number = 7;
  status = queued;
  priority = priority;
  attempts = 0;
  claimed_by = none;
  claim_token = none;
  created_at = created_at;
  claimed_at = none;
  started_at = none;
  completed_at = none;
  claim_expires_at = none;
  resume_disposition = none;
}

abbrev table : List Job
table = make "a" 0 10 ∷ make "bb" 1 12 ∷ make "ccc" 1 11 ∷ []

abbrev ask : ClaimNextInput
ask = record { worker_id = "w"; repo_id = "repo"; skip_job_ids = none; ttl_ms = none }

abbrev take : Job → String → ℕ → Job
take job token now = record job {
  status = claimed;
  claimed_by = some "w";
  claim_token = some token;
  claimed_at = some now;
  attempts = 1;
}

abbrev table' : List Job
table' = make "a" 0 10 ∷ make "bb" 1 12 ∷ take (make "ccc" 1 11) "t1" 20 ∷ []

abbrev table'' : List Job
table'' = make "a" 0 10 ∷ take (make "bb" 1 12) "t2" 21 ∷ take (make "ccc" 1 11) "t1" 20 ∷ []

first_claim :
    claim_next by_length none ask "t1" 20 table ≡ ok (some (take (make "ccc" 1 11) "t1" 20), table')
unfolding claim_next claim_tx order_rows insert_row queued_rows update_claimed claim_job
first_claim = refl

second_claim :
    claim_next by_length none ask "t2" 21 table'
    ≡ ok (some (take (make "bb" 1 12) "t2" 21), table'')
unfolding claim_next claim_tx order_rows insert_row queued_rows update_claimed claim_job
second_claim = refl

claim_next_outcome_example :
    (claim_next by_length none ask "t1" 20 table ≡ ok (none, table))
      × All (λ k. ¬ Eligible ask k) table
    ⊎ ((job : Job) × (rows' : List Job) × (expires : Option ℕ) × Memᴰ job table
        × Eligible ask job
        × (((ask.ttl_ms ≡ none) × (expires ≡ job.claim_expires_at))
            ⊎ ((ttl : ℕ) × (ask.ttl_ms ≡ some ttl) × (expires ≡ some (20 + ttl))))
        × All (λ k. ¬ Eligible ask k ⊎ ComesFirst by_length job k) table
        × (claim_next by_length none ask "t1" 20 table
            ≡ ok (
              some (record job {
                status = claimed;
                claimed_by = some "w";
                claim_token = some "t1";
                claimed_at = some 20;
                attempts = job.attempts + 1;
                claim_expires_at = expires;
              }),
              rows',
            ))
        × Memᴰ
            (record job {
              status = claimed;
              claimed_by = some "w";
              claim_token = some "t1";
              claimed_at = some 20;
              attempts = job.attempts + 1;
              claim_expires_at = expires;
            })
            rows')
claim_next_outcome_example =
    claim_next_outcome by_length none ask "t1" 20 table by_length-IsTextOrder refl

claimed_once_example : (take (make "ccc" 1 11) "t1" 20).id ≢ (take (make "bb" 1 12) "t2" 21).id
claimed_once_example =
    claimed_once by_length none none ask ask "t1" "t2" 20 21 table table' table''
      (take (make "ccc" 1 11) "t1" 20) (take (make "bb" 1 12) "t2" 21) first_claim refl second_claim

-- An owner of the job from before its claim was released and taken again.
abbrev earlier : JobOwnership
earlier = record { job_id = "ccc"; worker_id = "w"; claim_token = "t0" }

claimed_fences_example : run_owned (succeed 30) earlier table' ≡ err (job_ownership_lost "ccc")
claimed_fences_example =
    claimed_fences by_length none ask "t1" 20 table table' (take (make "ccc" 1 11) "t1" 20) earlier
      (succeed 30) first_claim (inr refl, (inr refl, (inr refl, tt))) refl
      (ground (arith, eq_iff "t1" "t0"))

abbrev current_owner : JobOwnership
current_owner = record { job_id = "ccc"; worker_id = "w"; claim_token = "t1" }

abbrev reconcile : ReconcileTerminalJobInput
reconcile = record {
  job_id = "ccc";
  target_status = succeeded;
  now = 40;
  expected_status = some claimed;
  owner = some current_owner;
}

abbrev reconciled : ReconcileTerminalJobResult
reconciled = record { reconciled = true; status = succeeded }

reconcile_terminal_job_outcome_example :
    ((true ≡ false)
      × (update_ended none reconcile table' ≡ table')
      × ((find_by_id none "ccc" table' ≡ none)
          ⊎ ((row : Job) × (find_by_id none "ccc" table' ≡ some row)
              × (((row.status ≡ succeeded) ⊎ ((row.status ≡ failed) ⊎ (row.status ≡ cancelled)))
                  ⊎ ((e : JobStatus) × (some claimed ≡ some e) × (row.status ≢ e))))))
    ⊎ ((row : Job) × (true ≡ true)
        × (find_by_id none "ccc" table' ≡ some row)
        × ((row.status ≡ queued) ⊎ ((row.status ≡ claimed) ⊎ (row.status ≡ running)))
        × ((some claimed ≡ none) ⊎ (some claimed ≡ some row.status))
        × ((some current_owner ≡ none)
            ⊎ ((owner : JobOwnership) × (some current_owner ≡ some owner)
                × (row.claimed_by ≡ some owner.worker_id)
                × (row.claim_token ≡ some owner.claim_token)))
        × (find_by_id none "ccc" (update_ended none reconcile table')
            ≡ some (record row {
              status = succeeded;
              completed_at = some 40;
              claimed_by = none;
              claim_token = none;
              claim_expires_at = none;
            })))
unfolding reconcile_terminal_job find_by_id
reconcile_terminal_job_outcome_example =
    reconcile_terminal_job_outcome none reconcile table' (update_ended none reconcile table')
      reconciled refl
