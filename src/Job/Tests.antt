-- ===== src/Job/Tests.antt =====
-- A job that is claimed, taken back and claimed again, and the theorems on jobs there.
use automation.Prelude.{
  String, ◌≡◌, ◌≢◌, refl, true, none, some, List, [], ◌∷◌, err, arith, inl, ◌↔◌, eq_iff,
}
use automation.Job.{
  Job, JobOwnership, queued, claimed, succeeded, token_mismatch, CreateJobInput, create_job,
  claim_job, reset_job_to_queued,
}
use automation.Job.Ops.{
  run, succeed, JobOp, claim, act_as, apply_owned, apply, apply_all, JobInv, create_job-JobInv,
}
use automation.Job.Ownership.{
  is_ok, expects, apply_owned-accepts, stale_owner_refused, apply_all-JobInv,
}

abbrev input : CreateJobInput
input = record {
  id = "j1";
  run_id = "u1";
  repo_id = "repo";
  issue_number = 7;
  priority = none;
  created_at = 100;
  resume_disposition = none;
}

abbrev waiting_job : Job
waiting_job = record {
  id = "j1";
  run_id = "u1";
  repo_id = "repo";
  issue_number = 7;
  status = queued;
  priority = 0;
  attempts = 0;
  claimed_by = none;
  claim_token = none;
  created_at = 100;
  claimed_at = none;
  started_at = none;
  completed_at = none;
  claim_expires_at = none;
  resume_disposition = none;
}

created : create_job input ≡ waiting_job
unfolding create_job
created = refl

waiting_job-JobInv : JobInv waiting_job
waiting_job-JobInv = rw created at (create_job-JobInv input)

abbrev first_owner : JobOwnership
first_owner = record { job_id = "j1"; worker_id = "w1"; claim_token = "aa" }

abbrev held : Job
held = record waiting_job {
  status = claimed;
  claimed_by = some "w1";
  claim_token = some "aa";
  claimed_at = some 110;
  attempts = 1;
  claim_expires_at = some 170;
}

abbrev freed : Job
freed = record waiting_job { attempts = 1; claim_expires_at = some 170 }

abbrev held_again : Job
held_again = record freed {
  status = claimed;
  claimed_by = some "w2";
  claim_token = some "bb";
  claimed_at = some 200;
  attempts = 2;
  claim_expires_at = some 260;
}

apply_owned-accepts_example :
    (is_ok (apply_owned run held first_owner 120) ≡ true)
    ↔ ((held.claim_token ≡ some "aa") × (expects run held.status ≡ true))
apply_owned-accepts_example = apply_owned-accepts run held first_owner 120

other_token : ◌≢◌ {A = String} "bb" "aa"
other_token = ground (arith, eq_iff "bb" "aa")

stale_owner_refused_example :
    (apply_owned succeed freed first_owner 210 ≡ err token_mismatch)
    × (apply_owned succeed held_again first_owner 210 ≡ err token_mismatch)
unfolding claim_job reset_job_to_queued
stale_owner_refused_example =
    stale_owner_refused succeed held freed held_again first_owner "w2" "bb" (some 60) 200 210
      (inl refl) refl other_token

abbrev finished : Job
finished = record held { status = succeeded; started_at = some 120; completed_at = some 130 }

abbrev story : List JobOp
story =
    claim "w1" "aa" 110 (some 60)
    ∷ claim "w2" "bb" 111 none
    ∷ act_as first_owner run 120
    ∷ act_as first_owner succeed 130
    ∷ []

story_told : apply_all story waiting_job ≡ finished
unfolding apply_all apply
story_told = refl

apply_all-JobInv_example : JobInv (apply_all story waiting_job)
apply_all-JobInv_example = apply_all-JobInv story waiting_job waiting_job-JobInv
