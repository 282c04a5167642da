-- ===== src/WorkerLoop/Turns.antt =====
-- The loop of a worker over the jobs of its repository, `workerLoop`:
-- packages/application/src/executor/worker-loop.ts. A turn that goes on waits nowhere, so what one
-- turn reads are arguments of it; the list of them bounds the turns.
use automation.Prelude.{
  ℕ, String, str_eq, Bool, true, false, not, Option, none, some, List, [], ◌∷◌, Result, ok, err,
  if◌then◌else◌,
}
use automation.Job.{Job, generate_job_ownership}
use automation.JobQueue.{ClaimNextInput, claim_next}
use automation.JobQueue.Owned.{give_back}
use automation.Worker.{Worker, idle, find_worker, mark_idle}
use automation.WorkerLoop.{
  Site, Thrown, other, JobResult, settled, lease_conflict, Waits, thrown_by,
}
use automation.WorkerLoop.Settling.{unless_lost, run_claimed_job, is_runnable, or_same}

-- What a turn reads: the token and the time of its claim, whether the repository is enabled, and the
-- waits of the job.
pub record Turn : Type 0 where
  pub claim_token : String
  pub claimed_at : ℕ
  pub repo_enabled : Bool
  pub waits : Waits

-- Whether the loop goes on after a turn, or how it ends.
pub data TurnEnd : Type 0 where
  again : TurnEnd
  returned : TurnEnd
  failed_with : Thrown → TurnEnd

pub record WorkerLoopDeps : Type 0 where
  pub text_le : String → String → Bool
  pub scope : Option String
  pub worker_id : String
  pub repo_id : String
  pub ttl_ms : ℕ

abbrev pub claim_input : WorkerLoopDeps → Site → ClaimNextInput
claim_input l s = record {
  worker_id = l.worker_id;
  repo_id = l.repo_id;
  skip_job_ids = some s.skipped_job_ids;
  ttl_ms = some l.ttl_ms;
}

abbrev pub end_of : TurnEnd → Result Thrown JobResult → TurnEnd
end_of after (ok r) = after
end_of after (err t) = failed_with t

-- `releaseClaim` of a job with a token, a lost ownership ignored.
unfoldable pub release_claimed : String → Job → TurnEnd → Site → Site × TurnEnd
unfolding generate_job_ownership unless_lost
release_claimed worker job after s = elim job.claim_token [
  | none ↦ (s, after)
  | some token ↦ elim (generate_job_ownership job worker) [
    | err e ↦ (s, failed_with other)
    | ok owner ↦ let (s', result) = unless_lost give_back owner s in (s', end_of after result)
  ]
]

-- What follows a conflict of leases.
unfoldable pub after_conflict : WorkerLoopDeps → Site → Site × TurnEnd
unfolding find_worker mark_idle
after_conflict l s = elim (find_worker l.worker_id l.repo_id s.workers) [
  | none ↦ (s, returned)
  | some worker ↦
      if is_runnable worker.status
      then (
        record s { workers = or_same s.workers (mark_idle l.worker_id l.repo_id s.workers) },
        again,
      )
      else (s, returned)
]

unfoldable pub after_job : WorkerLoopDeps → Site → Result Thrown JobResult → Site × TurnEnd
unfolding after_conflict
after_job l s (err t) = (s, failed_with t)
after_job l s (ok settled) = (s, returned)
after_job l s (ok lease_conflict) = after_conflict l s

-- `skippedJobIds.add(job.id)`, which an error comes before.
abbrev pub skip_job : Job → Site × TurnEnd → Site × TurnEnd
skip_job job (s, again) = (record s { skipped_job_ids = job.id ∷ s.skipped_job_ids }, again)
skip_job job (s, end) = (s, end)

-- A turn with the job that it claimed.
unfoldable pub with_job : WorkerLoopDeps → Turn → Job → Site → Site × TurnEnd
unfolding release_claimed run_claimed_job after_job
with_job l t job s =
    if not (str_eq job.repo_id l.repo_id)
    then skip_job job (release_claimed l.worker_id job again s)
    else if not t.repo_enabled
    then release_claimed l.worker_id job returned s
    else let (s', result) = run_claimed_job l.repo_id l.worker_id job t.waits s in
      after_job l s' result

unfoldable pub turn : WorkerLoopDeps → Turn → Site → Site × TurnEnd
unfolding claim_next with_job
turn l t s =
    elim (claim_next l.text_le l.scope (claim_input l s) t.claim_token t.claimed_at s.jobs) [
      | err e ↦ (s, failed_with (thrown_by e))
      | ok (none, jobs) ↦ (record s { jobs = jobs }, returned)
      | ok (some job, jobs) ↦ with_job l t job (record s { jobs = jobs })
    ]

-- The `while`: `again` means that the turns are used up.
unfoldable pub take_turns : WorkerLoopDeps → List Turn → Site → Site × TurnEnd
unfolding turn
take_turns l [] s = (s, again)
take_turns l (t ∷ ts) s =
    let (s', end) = turn l t s in
    elim end [
      | again ↦ take_turns l ts s'
      | returned ↦ (s', returned)
      | failed_with x ↦ (s', failed_with x)
    ]

abbrev pub is_idle : Option Worker → Bool
is_idle none = false
is_idle (some worker) = elim worker.status [ idle ↦ true | _ ↦ false ]

-- `listed` says whether the repository is among the enabled ones at the start.
unfoldable pub worker_loop : WorkerLoopDeps → Bool → List Turn → Site → Site × TurnEnd
unfolding take_turns find_worker
worker_loop l listed ts s =
    if not listed
    then (s, returned)
    else if not (is_idle (find_worker l.worker_id l.repo_id s.workers))
    then (s, returned)
    else take_turns l ts (record s { skipped_job_ids = [] })
