-- ===== src/WorkerLoop/Ends.antt =====
-- Which results of a job make the loop of a worker go on:
-- packages/application/src/executor/worker-loop.ts.
use automation.Prelude.{
  ◌≡◌, ◌≢◌, refl, ap, ◌∙◌, String, str_eq, Bool, true, false, ◌&&◌, Option, none, some, List, [],
  ◌∷◌, arith, find?, Bool-cases, Option-cases, Result-cases, inl, inr, ◌⊎◌, Result, ok, err,
}
use automation.Job.{Job, JobOwnership, generate_job_ownership}
use automation.JobQueue.{
  is_owned, is_claimed_by, update_owned, update_claimed, update_job_with_ownership, QueueError,
  job_ownership_lost, repository_not_approved, duplicate_job_id, job_error,
}
use automation.JobQueue.Owned.{OwnedOp, give_back, begin, fail, run_owned, transition}
use automation.Lease.{acquire, Holder}
use automation.Worker.{mark_busy}
use automation.WorkerLoop.{
  Site, Thrown, ownership_lost, grace_expired_during_shutdown, other, unavailable, JobResult, Waits,
  AbortReason, shutdown, user_cancelled, lease_lost, repository_unavailable, ExecutionEnd, finished,
  threw, settle, settling, execute_run, work, start, try_run, execution_outcome_to_job_status,
  lease_input, holder_of, thrown_by,
}
use automation.WorkerLoop.Settling.{
  unless_lost, catch_started, catch_run, caught, free_lease, run_claimed_job,
}
use automation.WorkerLoop.Settled.{free_worker-jobs, free_lease-jobs}
use automation.WorkerLoop.Released.{free_worker-skipped}

abbrev pub job_ids : List Job → List String
job_ids [] = []
job_ids (j ∷ js) = j.id ∷ job_ids js

-- The same ids of jobs, and the same ones to skip.
abbrev pub Same : Site → Site → Type 0
Same s' s = (job_ids s'.jobs ≡ job_ids s.jobs) × (s'.skipped_job_ids ≡ s.skipped_job_ids)

-- The same ids of jobs, and one more to skip.
abbrev pub Skips : Job → Site → Site → Type 0
Skips job s' s =
    (job_ids s'.jobs ≡ job_ids s.jobs) × (s'.skipped_job_ids ≡ job.id ∷ s.skipped_job_ids)

update_owned-ids :
    (owner : JobOwnership) (u : Job) (rows : List Job)
    → job_ids (update_owned owner u rows) ≡ job_ids rows
unfolding update_owned
update_owned-ids owner u [] = refl
update_owned-ids owner u (j ∷ js) = elim (Bool-cases (str_eq j.id u.id && is_claimed_by owner j)) [
  | inl written ↦ rw (written, update_owned-ids owner u js) refl
  | inr kept ↦ rw (kept, update_owned-ids owner u js) refl
]

pub update_claimed-ids :
    (c : Job) (repo : String) (rows : List Job)
    → job_ids (update_claimed c repo rows) ≡ job_ids rows
unfolding update_claimed
update_claimed-ids c repo [] = refl
update_claimed-ids c repo (j ∷ js) = elim (Bool-cases (str_eq j.id c.id && str_eq j.repo_id repo)) [
  | inl written ↦ rw (written, update_claimed-ids c repo js) refl
  | inr kept ↦ rw (kept, update_claimed-ids c repo js) refl
]

run_owned-ids :
    (op : OwnedOp) (owner : JobOwnership) (rows rows' : List Job)
    → run_owned op owner rows ≡ ok rows'
    → job_ids rows' ≡ job_ids rows
unfolding run_owned update_job_with_ownership
run_owned-ids op owner rows rows' e = elim (Option-cases (find? (is_owned owner) rows)) [
  | inl lost ↦ absurd (ground (arith, e, lost))
  | inr (j, found) ↦ elim (Result-cases (transition op j)) [
    | inl (u, accepted) ↦ ground (arith, e, found, accepted, update_owned-ids owner u rows)
    | inr (x, refused) ↦ absurd (ground (arith, e, found, refused))
  ]
]

unless_lost-refused :
    (op : OwnedOp) (owner : JobOwnership) (s : Site) (e : QueueError)
    → run_owned op owner s.jobs ≡ err e
    → (unless_lost op owner s).0 ≡ s
unfolding unless_lost
unless_lost-refused op owner s (job_ownership_lost id) h = rw (unless_lost, h) refl
unless_lost-refused op owner s (repository_not_approved id) h = rw (unless_lost, h) refl
unless_lost-refused op owner s (duplicate_job_id id) h = rw (unless_lost, h) refl
unless_lost-refused op owner s (job_error x) h = rw (unless_lost, h) refl

pub unless_lost-Same :
    (op : OwnedOp) (owner : JobOwnership) (s : Site) → Same (unless_lost op owner s).0 s
unfolding unless_lost
unless_lost-Same op owner s = elim (Result-cases (run_owned op owner s.jobs)) [
  | inl (rows', accepted) ↦
      rw (unless_lost, accepted) (run_owned-ids op owner s.jobs rows' accepted, refl)
  | inr (e, refused) ↦ rw (unless_lost-refused op owner s e refused) (refl, refl)
]

-- The result `lease_conflict`, and an error of that class.
abbrev pub is_conflict : Result Thrown JobResult → Bool
is_conflict (ok JobResult.lease_conflict) = true
is_conflict _ = false

abbrev pub is_refused : Result Thrown JobResult → Bool
is_refused (err Thrown.lease_conflict) = true
is_refused _ = false

unless_lost-conflict :
    (op : OwnedOp) (owner : JobOwnership) (s : Site)
    → is_conflict (unless_lost op owner s).1 ≡ false
unfolding unless_lost
unless_lost-conflict op owner s = ground arith

catch_started-conflict :
    (w : Waits) (job : Job) (owner : JobOwnership) (reason : Option AbortReason) (s : Site)
    → is_conflict (catch_started w job owner reason s).1 ≡ false
unfolding catch_started
catch_started-conflict w job owner none s = unless_lost-conflict (fail w.ended_at) owner s
catch_started-conflict w job owner (some shutdown) s = refl
catch_started-conflict w job owner (some user_cancelled) s = refl
catch_started-conflict w job owner (some lease_lost) s =
    unless_lost-conflict (fail w.ended_at) owner s
catch_started-conflict w job owner (some repository_unavailable) s =
    unless_lost-conflict (fail w.ended_at) owner s

-- The claim given back by the `catch` for a conflict of leases.
catch_run-refused :
    (w : Waits) (job : Job) (owner : JobOwnership) (started : Bool) (s : Site)
    → is_conflict (catch_run w job owner started Thrown.lease_conflict s).1 ≡ true
    → Skips job (catch_run w job owner started Thrown.lease_conflict s).0 s
unfolding catch_run
catch_run-refused w job owner started s h =
    let (ids, skipped) = unless_lost-Same give_back owner s in
    elim (Result-cases (unless_lost give_back owner s).1) [
      | inl (r, given) ↦ rw (catch_run, given) (ids, ap (λ x. job.id ∷ x) skipped)
      | inr (t, failed) ↦ absurd (ground (arith, h, failed))
    ]

-- The `catch` returns `lease_conflict` for an error of that class alone.
catch_run-conflict :
    (w : Waits) (job : Job) (owner : JobOwnership) (started : Bool) (t : Thrown) (s : Site)
    → is_refused (err t) ≡ false
    → is_conflict (catch_run w job owner started t s).1 ≡ false
unfolding catch_run
catch_run-conflict w job owner started ownership_lost s n = refl
catch_run-conflict w job owner started Thrown.lease_conflict s n = absurd (cc)
catch_run-conflict w job owner true grace_expired_during_shutdown s n = refl
catch_run-conflict w job owner true other s n = catch_started-conflict w job owner w.reason_caught s
catch_run-conflict w job owner true (unavailable cause) s n =
    unless_lost-conflict (fail w.ended_at) owner _
catch_run-conflict w job owner false grace_expired_during_shutdown s n =
    unless_lost-conflict give_back owner s
catch_run-conflict w job owner false other s n = unless_lost-conflict give_back owner s
catch_run-conflict w job owner false (unavailable cause) s n =
    unless_lost-conflict give_back owner _

-- The waits throw no conflict of leases.
abbrev pub Quiet : Waits → Type 0
Quiet w =
    ((s : Site) → (w.prepare s).1 ≢ some Thrown.lease_conflict)
    × ((s : Site) → (w.execute s).1 ≢ threw Thrown.lease_conflict)

-- Neither a result nor an error that says that there is a conflict.
abbrev Unrefused : Result Thrown JobResult → Type 0
Unrefused r = (is_conflict r ≡ false) × (is_refused r ≡ false)

err-Unrefused : (t : Thrown) → t ≢ Thrown.lease_conflict → Unrefused (err t)
err-Unrefused t n = ground (arith, n)

thrown_by-Unrefused : (e : QueueError) → Unrefused (err (thrown_by e))
thrown_by-Unrefused (job_ownership_lost id) = (refl, refl)
thrown_by-Unrefused (repository_not_approved id) = (refl, refl)
thrown_by-Unrefused (duplicate_job_id id) = (refl, refl)
thrown_by-Unrefused (job_error x) = (refl, refl)

settle-Unrefused :
    (w : Waits) (owner : JobOwnership) (end : ExecutionEnd) (s : Site)
    → end ≢ threw Thrown.lease_conflict
    → Unrefused (settle w owner end s).1
unfolding settle
settle-Unrefused w owner (threw t) s n = err-Unrefused t (λ e. n (ap threw e))
settle-Unrefused w owner (finished outcome) s n =
    elim (Result-cases
      (run_owned (settling (execution_outcome_to_job_status outcome) w.ended_at) owner s.jobs)) [
        | inl (rows, accepted) ↦ rw (settle, accepted) (refl, refl)
        | inr (e, refused) ↦ rw (settle, refused) (thrown_by-Unrefused e)
      ]

execute_run-Unrefused :
    (w : Waits) (owner : JobOwnership) (failure : Option Thrown) (s : Site)
    → Quiet w
    → failure ≢ some Thrown.lease_conflict
    → Unrefused (execute_run w owner failure s).1
unfolding execute_run
execute_run-Unrefused w owner (some t) s q n = err-Unrefused t (λ e. n (ap some e))
execute_run-Unrefused w owner none s q n = elim (Bool-cases w.run_found) [
  | inl found ↦ rw found (settle-Unrefused w owner (w.execute s).1 (w.execute s).0 (q.1 s))
  | inr missing ↦ rw missing (refl, refl)
]

start-Unrefused :
    (w : Waits) (owner : JobOwnership) (lease : Holder) (s : Site)
    → Quiet w
    → Unrefused (start w owner lease s).result
unfolding start work
start-Unrefused w owner lease s q =
    elim (Result-cases (run_owned (begin w.started_at) owner s.jobs)) [
      | inl (rows, accepted) ↦
          let s' : Site = record s { jobs = rows } in
          rw (start, accepted)
            (execute_run-Unrefused w owner (w.prepare s').1 (w.prepare s').0 q (q.0 s'))
      | inr (e, refused) ↦ rw (start, refused) (thrown_by-Unrefused e)
    ]

-- The `try` refuses the job before anything but the table of workers is changed.
try_run-refused :
    (repo worker : String) (job : Job) (owner : JobOwnership) (w : Waits) (s : Site)
    → Quiet w
    → Unrefused (try_run repo worker job owner w s).result
      ⊎ (((try_run repo worker job owner w s).result ≡ err Thrown.lease_conflict)
          × Same (try_run repo worker job owner w s).site s)
unfolding try_run
try_run-refused repo worker job owner w s q =
    elim (Result-cases (mark_busy worker repo s.workers)) [
      | inr (e, unknown) ↦ rw (try_run, unknown) (inl (refl, refl))
      | inl (workers, known) ↦
          elim (Result-cases (acquire (lease_input worker job w) w.lease_token s.leases)) [
            | inr (e, conflict) ↦ rw (try_run, known, conflict) (inr (refl, (refl, refl)))
            | inl (leases, free) ↦
                rw (try_run, known, free)
                  (inl (start-Unrefused w owner (holder_of worker job w) _ q))
          ]
    ]

caught-conflict :
    (w : Waits) (job : Job) (owner : JobOwnership) (started : Bool)
    (result : Result Thrown JobResult) (s : Site)
    → Unrefused result
    → is_conflict (caught w job owner started result s).1 ≡ false
unfolding caught
caught-conflict w job owner started (ok r) s (n, m) = n
caught-conflict w job owner started (err t) s (n, m) = catch_run-conflict w job owner started t s m

free_lease-skipped :
    (w : Waits) (grace : Bool) (lease : Option Holder) (s : Site)
    → (free_lease w grace lease s).skipped_job_ids ≡ s.skipped_job_ids
unfolding free_lease
free_lease-skipped w grace none s = refl
free_lease-skipped w grace (some lease) s = ground arith

-- A job whose result is a conflict of leases is to be skipped, and the jobs keep their ids.
pub run_claimed_job-Skips :
    (repo worker : String) (job : Job) (w : Waits) (s : Site)
    → Quiet w
    → is_conflict (run_claimed_job repo worker job w s).1 ≡ true
    → Skips job (run_claimed_job repo worker job w s).0 s
unfolding run_claimed_job caught
run_claimed_job-Skips repo worker job w s q h =
    elim (Result-cases (generate_job_ownership job worker)) [
      | inr (e, unowned) ↦ absurd (ground (arith, h, unowned))
      | inl (owner, owns) ↦
          let a = try_run repo worker job owner w s in
          let c = caught w job owner a.started a.result a.site in
          let conflict : is_conflict c.1 ≡ true = (rw (run_claimed_job, owns) at h) in
          elim (try_run-refused repo worker job owner w s q) [
            | inl n ↦
                absurd (
                  ground (arith, conflict, caught-conflict w job owner a.started a.result a.site n))
            | inr (refused, same) ↦
                let e : c ≡ catch_run w job owner a.started Thrown.lease_conflict a.site =
                  rw refused refl in
                let (ids, skipped) =
                  catch_run-refused w job owner a.started a.site (rw e at conflict) in
                rw
                  (
                    run_claimed_job, owns, free_worker-jobs, free_worker-skipped, free_lease-jobs,
                    free_lease-skipped, e,
                  )
                  (ids ∙ same.0, skipped ∙ ap (λ x. job.id ∷ x) same.1)
          ]
    ]
