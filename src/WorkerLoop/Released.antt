-- ===== src/WorkerLoop/Released.antt =====
-- The lease of a worker after the job that it ran:
-- packages/application/src/executor/worker-loop.ts.
use automation.Prelude.{
  ◌≡◌, refl, String, Bool, false, Option, none, some, List, [], ◌∷◌, arith, Bool-cases,
  Result-cases, inl, inr, ◌⊎◌, Result, ok, err,
}
use automation.Job.{Job, JobOwnership, generate_job_ownership, is_claimed}
use automation.JobQueue.Owned.{OwnedOp, send_back, fail, give_back}
use automation.Lease.{
  WorkerLease, LeaseError, Holder, acquire, release, some_held, delete_held, is_held_by,
}
use automation.Worker.{Worker, mark_busy}
use automation.WorkerLoop.{
  Site, Thrown, JobResult, settled, Waits, start, try_run, lease_input, holder_of,
}
use automation.WorkerLoop.Settling.{
  unless_lost, ignoring, catch_started, catch_run, caught, free_lease, free_worker, run_claimed_job,
  is_grace, is_lease_lost,
}
use automation.WorkerLoop.Settled.{free_worker-jobs, unless_lost-settles}
use automation.WorkerLoop.Rows.{SettledRows, OwnedIn, GivenBack, run_owned-GivenBack}

delete_held-gone : (h : Holder) (rows : List WorkerLease) → some_held h (delete_held h rows) ≡ false
unfolding some_held delete_held
delete_held-gone h [] = refl
delete_held-gone h (row ∷ rows) = elim (Bool-cases (is_held_by h row)) [
  | inl mine ↦ rw mine (delete_held-gone h rows)
  | inr foreign ↦ rw (foreign, foreign) (delete_held-gone h rows)
]

unless_lost-leases :
    (op : OwnedOp) (owner : JobOwnership) (s : Site) → (unless_lost op owner s).0.leases ≡ s.leases
unfolding unless_lost
unless_lost-leases op owner s = ground arith

ignoring-leases :
    (op : OwnedOp) (owner : JobOwnership) (s : Site) → (ignoring op owner s).leases ≡ s.leases
unfolding ignoring
ignoring-leases op owner s = ground arith

caught-leases :
    (w : Waits) (job : Job) (owner : JobOwnership) (started : Bool)
    (result : Result Thrown JobResult) (s : Site)
    → (caught w job owner started result s).0.leases ≡ s.leases
unfolding caught catch_run catch_started
caught-leases w job owner started (ok r) s = refl
caught-leases w job owner started (err t) s = ground (
  arith,
  unless_lost-leases give_back owner s,
  unless_lost-leases (fail w.ended_at) owner s,
  ignoring-leases (fail w.ended_at) owner s,
  ignoring-leases send_back owner s,
)

start-lease :
    (w : Waits) (owner : JobOwnership) (lease : Holder) (s : Site)
    → (start w owner lease s).lease ≡ some lease
unfolding start
start-lease w owner lease s = ground arith

-- Without a lease the table of leases is as it was.
try_run-lease :
    (repo worker : String) (job : Job) (owner : JobOwnership) (w : Waits) (s : Site)
    → ((try_run repo worker job owner w s).lease ≡ some (holder_of worker job w))
      ⊎ (((try_run repo worker job owner w s).lease ≡ none)
          × ((try_run repo worker job owner w s).site.leases ≡ s.leases))
unfolding try_run
try_run-lease repo worker job owner w s = elim (Result-cases (mark_busy worker repo s.workers)) [
  | inr (e, unknown) ↦ rw (try_run, unknown) (inr (refl, refl))
  | inl (workers, known) ↦
      elim (Result-cases (acquire (lease_input worker job w) w.lease_token s.leases)) [
        | inr (e, conflict) ↦ rw (try_run, known, conflict) (inr (refl, refl))
        | inl (leases, free) ↦
            rw (try_run, known, free) (inl (start-lease w owner (holder_of worker job w) _))
      ]
]

free_worker-leases :
    (w : Waits) (grace : Bool) (repo worker : String) (s : Site)
    → (free_worker w grace repo worker s).leases ≡ s.leases
unfolding free_worker
free_worker-leases w grace repo worker s = ground arith

free_lease-gone :
    (w : Waits) (lease : Holder) (s : Site)
    → is_lease_lost w.reason_at_end ≡ false
    → some_held lease (free_lease w false (some lease) s).leases ≡ false
unfolding free_lease release
free_lease-gone w lease s kept = elim (Bool-cases (some_held lease s.leases)) [
  | inl mine ↦ ground (arith, kept, mine, delete_held-gone lease s.leases)
  | inr gone ↦ ground (arith, kept, gone)
]

free_lease-unheld :
    (w : Waits) (h : Holder) (lease : Option Holder) (grace : Bool) (s : Site)
    → is_lease_lost w.reason_at_end ≡ false
    → grace ≡ false
    → (lease ≡ some h) ⊎ ((lease ≡ none) × (some_held h s.leases ≡ false))
    → some_held h (free_lease w grace lease s).leases ≡ false
unfolding free_lease
free_lease-unheld w h lease grace s kept no_grace (inl held) =
    rw (held, no_grace) (free_lease-gone w h s kept)
free_lease-unheld w h lease grace s kept no_grace (inr (unheld, gone)) = rw unheld gone

-- After a call of runClaimedJob the worker holds no lease under the token that it drew, which no
-- lease had before, unless the reason of an abort is a lost lease or the grace ran out in a shutdown.
-- So whatever happened to the tables at the waits, and also if the call ends with an error.
pub run_claimed_job-releases :
    (repo worker : String) (job : Job) (owner : JobOwnership) (w : Waits) (s : Site)
    → generate_job_ownership job worker ≡ ok owner
    → some_held (holder_of worker job w) s.leases ≡ false
    → is_lease_lost w.reason_at_end ≡ false
    → is_grace (try_run repo worker job owner w s).result ≡ false
    → some_held (holder_of worker job w) (run_claimed_job repo worker job w s).0.leases ≡ false
unfolding run_claimed_job
run_claimed_job-releases repo worker job owner w s e fresh kept no_grace =
    let a = try_run repo worker job owner w s in
    let s' = (caught w job owner a.started a.result a.site).0 in
    let same = caught-leases w job owner a.started a.result a.site in
    let held : (a.lease ≡ some (holder_of worker job w))
        ⊎ ((a.lease ≡ none) × (some_held (holder_of worker job w) s'.leases ≡ false)) =
      elim (try_run-lease repo worker job owner w s) [
        | inl some_lease ↦ inl some_lease
        | inr (none_held, unchanged) ↦ inr (none_held, rw (same, unchanged) fresh)
      ] in
    let freed =
      free_worker-leases w (is_grace a.result) repo worker
        (free_lease w (is_grace a.result) a.lease s') in
    rw (run_claimed_job, e, freed)
      (free_lease-unheld w (holder_of worker job w) a.lease (is_grace a.result) s' kept no_grace
        held)

pub unless_lost-skipped :
    (op : OwnedOp) (owner : JobOwnership) (s : Site)
    → (unless_lost op owner s).0.skipped_job_ids ≡ s.skipped_job_ids
unfolding unless_lost
unless_lost-skipped op owner s = ground arith

pub free_worker-skipped :
    (w : Waits) (grace : Bool) (repo worker : String) (s : Site)
    → (free_worker w grace repo worker s).skipped_job_ids ≡ s.skipped_job_ids
unfolding free_worker
free_worker-skipped w grace repo worker s = ground arith

unless_lost-GivenBack :
    (owner : JobOwnership) (s : Site)
    → OwnedIn is_claimed owner s.jobs
    → GivenBack owner s.jobs (unless_lost give_back owner s).0.jobs
unfolding unless_lost
unless_lost-GivenBack owner s h = elim (run_owned-GivenBack owner s.jobs h) [
  | inl (refused, lost) ↦
      let e : unless_lost give_back owner s ≡ (s, ok settled) = rw (unless_lost, refused) refl in
      rw e (inl (lost, refl))
  | inr (rows', accepted, back) ↦
      let e : unless_lost give_back owner s ≡ (record s { jobs = rows' }, ok settled) =
        rw (unless_lost, accepted) refl in
      rw e back
]

-- When the worker is known and the lease of the repository is refused, the job, if its claim is still
-- the worker's, is back in the queue without a claim, and otherwise the jobs are as before. Either way
-- no job is left claimed or running by the owner, the job is to be skipped by the worker from then on,
-- and the leases are as before.
pub conflict-gives_back :
    (repo worker : String) (job : Job) (owner : JobOwnership) (w : Waits) (s : Site)
    (workers : List Worker) (e : LeaseError)
    → generate_job_ownership job worker ≡ ok owner
    → OwnedIn is_claimed owner s.jobs
    → mark_busy worker repo s.workers ≡ ok workers
    → acquire (lease_input worker job w) w.lease_token s.leases ≡ err e
    → ((run_claimed_job repo worker job w s).1 ≡ ok JobResult.lease_conflict)
      × ((run_claimed_job repo worker job w s).0.skipped_job_ids ≡ job.id ∷ s.skipped_job_ids)
      × ((run_claimed_job repo worker job w s).0.leases ≡ s.leases)
      × GivenBack owner s.jobs (run_claimed_job repo worker job w s).0.jobs
      × SettledRows owner (run_claimed_job repo worker job w s).0.jobs
unfolding run_claimed_job caught catch_run free_lease
conflict-gives_back repo worker job owner w s workers e owns h known conflict =
    let s' : Site = record s { workers = workers } in
    let tried : try_run repo worker job owner w s
        ≡ record { site = s'; lease = none; started = false; result = err Thrown.lease_conflict } =
      rw (try_run, known, conflict) refl in
    let (result, rows) = unless_lost-settles give_back owner s' h in
    let freed = (unless_lost give_back owner s').0 in
    let s'' : Site = record freed { skipped_job_ids = job.id ∷ freed.skipped_job_ids } in
    let end : run_claimed_job repo worker job w s
        ≡ (free_worker w false repo worker s'', ok JobResult.lease_conflict) =
      rw (run_claimed_job, owns, tried, catch_run, result) refl in
    rw
      (
        end, free_worker-jobs, free_worker-leases, free_worker-skipped, unless_lost-skipped,
        unless_lost-leases,
      )
      (refl, refl, refl, unless_lost-GivenBack owner s' h, rows)
