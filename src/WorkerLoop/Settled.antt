-- ===== src/WorkerLoop/Settled.antt =====
-- A job that a worker runs never stays claimed or running:
-- packages/application/src/executor/worker-loop.ts.
use automation.Prelude.{
  ℕ, ◌≡◌, ◌≢◌, refl, ◌∙◌, String, Bool, true, false, Option, none, some, List, ◌∷◌, arith, find?,
  Bool-cases, Result-cases, inl, inr, ◌⊎◌, Result, ok, err,
}
use automation.Job.{
  Job, JobStatus, JobOwnership, is_held, is_running, is_claimed, generate_job_ownership,
}
use automation.JobQueue.{is_owned}
use automation.JobQueue.Owned.{OwnedOp, give_back, send_back, fail, cancel}
use automation.Lease.{acquire, Holder}
use automation.Worker.{mark_busy}
use automation.WorkerLoop.{
  Site, Thrown, ownership_lost, grace_expired_during_shutdown, other, unavailable, JobResult,
  settled, Waits, Attempt, AbortReason, shutdown, user_cancelled, lease_lost,
  repository_unavailable, ExecutionEnd, finished, threw, settle, settling, execute_run, work, start,
  try_run, execution_outcome_to_job_status, lease_input, holder_of,
}
use automation.WorkerLoop.Settling.{
  unless_lost, ignoring, catch_started, catch_run, caught, free_lease, free_worker, run_claimed_job,
  is_grace,
}
use automation.WorkerLoop.Rows.{SettledRows, OwnedIn, closes, run_owned-settles, run_owned-begins}

pub free_worker-jobs :
    (w : Waits) (grace : Bool) (repo worker : String) (s : Site)
    → (free_worker w grace repo worker s).jobs ≡ s.jobs
unfolding free_worker
free_worker-jobs w grace repo worker s = ground arith

pub free_lease-jobs :
    (w : Waits) (grace : Bool) (lease : Option Holder) (s : Site)
    → (free_lease w grace lease s).jobs ≡ s.jobs
unfolding free_lease
free_lease-jobs w grace none s = refl
free_lease-jobs w grace (some lease) s = ground arith

-- At a wait nobody else changes the owner's job, or it is taken from the owner.
abbrev pub Leaves {ℓ} : {A : Type ℓ} → JobOwnership → (Site → Site × A) → Type 0
Leaves owner f =
    (s : Site)
    → (find? (is_owned owner) (f s).0.jobs ≡ none)
      ⊎ (find? (is_owned owner) (f s).0.jobs ≡ find? (is_owned owner) s.jobs)

-- An error that comes from outside: not one that the queue or the leases threw.
abbrev pub is_outside : Thrown → Bool
is_outside ownership_lost = false
is_outside Thrown.lease_conflict = false
is_outside _ = true

-- What holds of a result while the job is running, if it ended there.
abbrev Worked : JobOwnership → Site → Result Thrown JobResult → Type 0
Worked owner s (ok r) = SettledRows owner s.jobs
Worked owner s (err ownership_lost) = SettledRows owner s.jobs
Worked owner s (err Thrown.lease_conflict) = ⊥
Worked owner s (err grace_expired_during_shutdown) = OwnedIn is_running owner s.jobs
Worked owner s (err other) = OwnedIn is_running owner s.jobs
Worked owner s (err (unavailable cause)) = OwnedIn is_running owner s.jobs

outside-Worked :
    (owner : JobOwnership) (s : Site) (t : Thrown)
    → is_outside t ≡ true
    → OwnedIn is_running owner s.jobs
    → Worked owner s (err t)
outside-Worked owner s ownership_lost o h = cc
outside-Worked owner s Thrown.lease_conflict o h = absurd (cc)
outside-Worked owner s grace_expired_during_shutdown o h = h
outside-Worked owner s other o h = h
outside-Worked owner s (unavailable cause) o h = h

OwnedIn-wait :
    (test : JobStatus → Bool) (owner : JobOwnership) (rows rows' : List Job)
    → (find? (is_owned owner) rows' ≡ none)
      ⊎ (find? (is_owned owner) rows' ≡ find? (is_owned owner) rows)
    → OwnedIn test owner rows
    → OwnedIn test owner rows'
OwnedIn-wait test owner rows rows' (inl lost) h = inl lost
OwnedIn-wait test owner rows rows' (inr same) (inl lost) = inl (same ∙ lost)
OwnedIn-wait test owner rows rows' (inr same) (inr (j, f, h)) = inr (j, same ∙ f, h)

settling-closes : (status s : JobStatus) (now : ℕ) → closes (settling status now) s ≡ is_running s
settling-closes JobStatus.succeeded s now = refl
settling-closes JobStatus.cancelled s now = refl
settling-closes JobStatus.failed s now = refl
settling-closes JobStatus.queued s now = refl
settling-closes JobStatus.claimed s now = refl
settling-closes JobStatus.running s now = refl

OwnedIn-map :
    (test test' : JobStatus → Bool) (owner : JobOwnership) (rows : List Job)
    → ((s : JobStatus) → test' s ≡ test s)
    → OwnedIn test owner rows
    → OwnedIn test' owner rows
OwnedIn-map test test' owner rows same (inl lost) = inl lost
OwnedIn-map test test' owner rows same (inr (j, f, h)) = inr (j, f, same j.status ∙ h)

settle-Worked :
    (w : Waits) (owner : JobOwnership) (e : ExecutionEnd) (s : Site)
    → ((t : Thrown) → e ≡ threw t → is_outside t ≡ true)
    → OwnedIn is_running owner s.jobs
    → Worked owner (settle w owner e s).0 (settle w owner e s).1
unfolding settle
settle-Worked w owner (threw t) s o h = outside-Worked owner s t (o t refl) h
settle-Worked w owner (finished outcome) s o h =
    let status = execution_outcome_to_job_status outcome in
    let op = settling status w.ended_at in
    elim (run_owned-settles op owner s.jobs (
      OwnedIn-map is_running (closes op) owner s.jobs (λ x. settling-closes status x w.ended_at)
        h)) [
          | inl (lost, rows) ↦
              let e : settle w owner (finished outcome) s ≡ (s, err ownership_lost) =
                rw (settle, lost) refl in
              rw e rows
          | inr (rows', accepted, rows) ↦
              let e : settle w owner (finished outcome) s
                  ≡ (record s { jobs = rows' }, ok settled) =
                rw (settle, accepted) refl in
              rw e rows
        ]

pub unless_lost-settles :
    (op : OwnedOp) (owner : JobOwnership) (s : Site)
    → OwnedIn (closes op) owner s.jobs
    → ((unless_lost op owner s).1 ≡ ok settled) × SettledRows owner (unless_lost op owner s).0.jobs
unfolding unless_lost
unless_lost-settles op owner s h = elim (run_owned-settles op owner s.jobs h) [
  | inl (lost, rows) ↦
      let e : unless_lost op owner s ≡ (s, ok settled) = rw (unless_lost, lost) refl in
      rw e (refl, rows)
  | inr (rows', accepted, rows) ↦
      let e : unless_lost op owner s ≡ (record s { jobs = rows' }, ok settled) =
        rw (unless_lost, accepted) refl in
      rw e (refl, rows)
]

ignoring-settles :
    (op : OwnedOp) (owner : JobOwnership) (s : Site)
    → OwnedIn (closes op) owner s.jobs
    → SettledRows owner (ignoring op owner s).jobs
unfolding ignoring
ignoring-settles op owner s h = elim (run_owned-settles op owner s.jobs h) [
  | inl (lost, rows) ↦ rw (ignoring, lost) rows
  | inr (rows', accepted, rows) ↦ rw (ignoring, accepted) rows
]

-- A result without an error, and the owner's jobs are settled.
abbrev pub Settles : JobOwnership → Site × Result Thrown JobResult → Type 0
Settles owner r = ((x : JobResult) × (r.1 ≡ ok x)) × SettledRows owner r.0.jobs

unless_lost-Settles :
    (op : OwnedOp) (owner : JobOwnership) (s : Site)
    → OwnedIn (closes op) owner s.jobs
    → Settles owner (unless_lost op owner s)
unless_lost-Settles op owner s h =
    let (result, rows) = unless_lost-settles op owner s h in ((settled, result), rows)

held-running :
    (owner : JobOwnership) (rows : List Job)
    → OwnedIn is_running owner rows
    → OwnedIn is_held owner rows
held-running owner rows (inl lost) = inl lost
held-running owner rows (inr (j, f, h)) = inr (j, f, ground (arith, h))

catch_started-Settles :
    (w : Waits) (job : Job) (owner : JobOwnership) (reason : Option AbortReason) (s : Site)
    → OwnedIn is_running owner s.jobs
    → Settles owner (catch_started w job owner reason s)
unfolding catch_started
catch_started-Settles w job owner none s h = unless_lost-Settles (fail w.ended_at) owner s h
catch_started-Settles w job owner (some shutdown) s h =
    ((settled, refl), ignoring-settles send_back owner s (held-running owner s.jobs h))
catch_started-Settles w job owner (some user_cancelled) s h =
    ((settled, refl), ignoring-settles (cancel w.ended_at) owner _ h)
catch_started-Settles w job owner (some lease_lost) s h =
    unless_lost-Settles (fail w.ended_at) owner s h
catch_started-Settles w job owner (some repository_unavailable) s h =
    unless_lost-Settles (fail w.ended_at) owner s h

catch_run-running :
    (w : Waits) (job : Job) (owner : JobOwnership) (t : Thrown) (s : Site)
    → Worked owner s (err t)
    → Settles owner (catch_run w job owner true t s)
unfolding catch_run
catch_run-running w job owner ownership_lost s h = ((settled, refl), h)
catch_run-running w job owner Thrown.lease_conflict s h = absurd h
catch_run-running w job owner grace_expired_during_shutdown s h =
    ((settled, refl), ignoring-settles (fail w.ended_at) owner s h)
catch_run-running w job owner other s h = catch_started-Settles w job owner w.reason_caught s h
catch_run-running w job owner (unavailable cause) s h =
    unless_lost-Settles (fail w.ended_at) owner _ h

pub catch_run-claimed :
    (w : Waits) (job : Job) (owner : JobOwnership) (t : Thrown) (s : Site)
    → t ≢ ownership_lost
    → OwnedIn is_claimed owner s.jobs
    → Settles owner (catch_run w job owner false t s)
unfolding catch_run
catch_run-claimed w job owner ownership_lost s n h = absurd (n refl)
catch_run-claimed w job owner Thrown.lease_conflict s n h =
    let (result, rows) = unless_lost-settles give_back owner s h in
    let freed = (unless_lost give_back owner s).0 in
    let e : catch_run w job owner false Thrown.lease_conflict s ≡ (
      record freed { skipped_job_ids = job.id ∷ freed.skipped_job_ids },
      ok JobResult.lease_conflict,
    ) =
      rw (catch_run, result) refl in
    rw e ((JobResult.lease_conflict, refl), rows)
catch_run-claimed w job owner grace_expired_during_shutdown s n h =
    unless_lost-Settles give_back owner s h
catch_run-claimed w job owner other s n h = unless_lost-Settles give_back owner s h
catch_run-claimed w job owner (unavailable cause) s n h = unless_lost-Settles give_back owner _ h

module _ (w : Waits) (owner : JobOwnership) (prepares : Leaves owner w.prepare)
    (executes : Leaves owner w.execute)
    (prepare_outside : (s : Site) (t : Thrown) → (w.prepare s).1 ≡ some t → is_outside t ≡ true)
    (execute_outside : (s : Site) (t : Thrown)
      → (w.execute s).1 ≡ threw t
      → is_outside t ≡ true) where
  execute_run-Worked :
      (failure : Option Thrown) (s : Site)
      → ((t : Thrown) → failure ≡ some t → is_outside t ≡ true)
      → OwnedIn is_running owner s.jobs
      → Worked owner (execute_run w owner failure s).0 (execute_run w owner failure s).1
  unfolding execute_run
  execute_run-Worked (some t) s o h = outside-Worked owner s t (o t refl) h
  execute_run-Worked none s o h = elim (Bool-cases w.run_found) [
    | inl found ↦ rw found (
        settle-Worked w owner (w.execute s).1 (w.execute s).0 (execute_outside s)
          (OwnedIn-wait is_running owner s.jobs (w.execute s).0.jobs (executes s) h))
    | inr missing ↦ rw missing h
  ]

  work-Worked :
      (s : Site)
      → OwnedIn is_running owner s.jobs
      → Worked owner (work w owner s).0 (work w owner s).1
  unfolding work
  work-Worked s h =
      execute_run-Worked (w.prepare s).1 (w.prepare s).0 (prepare_outside s)
        (OwnedIn-wait is_running owner s.jobs (w.prepare s).0.jobs (prepares s) h)

  -- What holds after the `try`: an error before the job was marked as running leaves it claimed.
  abbrev Tried : Attempt → Type 0
  Tried a =
      ((a.started ≡ true) × Worked owner a.site a.result)
      ⊎ ((a.started ≡ false)
          × ((t : Thrown) × (a.result ≡ err t)
              × (((t ≡ ownership_lost) × SettledRows owner a.site.jobs)
                  ⊎ ((t ≢ ownership_lost) × OwnedIn is_claimed owner a.site.jobs))))

  start-Tried :
      (lease : Holder) (s : Site) → OwnedIn is_claimed owner s.jobs → Tried (start w owner lease s)
  unfolding start
  start-Tried lease s h = elim (run_owned-begins w.started_at owner s.jobs h) [
    | inl (lost, rows) ↦
        let e : start w owner lease s ≡ record {
          site = s;
          lease = some lease;
          started = false;
          result = err ownership_lost;
        } =
          rw (start, lost) refl in
        rw e (inr (refl, (ownership_lost, refl, inl (refl, rows))))
    | inr (rows', accepted, rows) ↦
        let s' : Site = record s { jobs = rows' } in
        let e : start w owner lease s ≡ record {
          site = (work w owner s').0;
          lease = some lease;
          started = true;
          result = (work w owner s').1;
        } =
          rw (start, accepted) refl in
        rw e (inl (refl, work-Worked s' rows))
  ]

  try_run-Tried :
      (repo worker : String) (job : Job) (s : Site)
      → OwnedIn is_claimed owner s.jobs
      → Tried (try_run repo worker job owner w s)
  unfolding try_run
  try_run-Tried repo worker job s h = elim (Result-cases (mark_busy worker repo s.workers)) [
    | inr (e, unknown) ↦ rw (try_run, unknown) (inr (refl, (other, refl, inr ((ground arith), h))))
    | inl (workers, known) ↦
        elim (Result-cases (acquire (lease_input worker job w) w.lease_token s.leases)) [
          | inr (e, conflict) ↦
              rw (try_run, known, conflict)
                (inr (refl, (Thrown.lease_conflict, refl, inr ((ground arith), h))))
          | inl (leases, free) ↦
              rw (try_run, known, free) (start-Tried (holder_of worker job w) _ h)
        ]
  ]

  caught-Settles :
      (job : Job) (lease : Option Holder) (started : Bool) (result : Result Thrown JobResult)
      (s : Site)
      → Tried (record { site = s; lease = lease; started = started; result = result })
      → Settles owner (caught w job owner started result s)
  unfolding caught
  caught-Settles job lease true (ok r) s (inl (u, h)) = ((r, refl), h)
  caught-Settles job lease true (err t) s (inl (u, h)) = catch_run-running w job owner t s h
  caught-Settles job lease false result s (inl (u, h)) = absurd (cc)
  caught-Settles job lease true result s (inr (u, h)) = absurd (cc)
  caught-Settles job lease false (ok r) s (inr (u, (t, e, h))) = absurd (ground arith)
  caught-Settles job lease false (err x) s (inr (u, (t, e, inl (lost, rows)))) =
      let same : x ≡ ownership_lost = ground (arith, e, lost) in rw same ((settled, refl), rows)
  caught-Settles job lease false (err x) s (inr (u, (t, e, inr (n, h)))) =
      catch_run-claimed w job owner x s (ground (arith, e, n)) h

  -- A call of runClaimedJob with a claimed job ends without an error, and the owner has no job that
  -- is claimed or running any more: it has ended, or it is back in the queue, or it was taken from
  -- the owner at a wait. So whatever the preparation, the execution, an abort and a shutdown do, if
  -- at a wait nobody else changes the owner's job but by taking it away, and if the waits throw
  -- neither a lost ownership nor a conflict of leases.
  pub run_claimed_job-Settles :
      (repo worker : String) (job : Job) (s : Site)
      → generate_job_ownership job worker ≡ ok owner
      → OwnedIn is_claimed owner s.jobs
      → Settles owner (run_claimed_job repo worker job w s)
  unfolding run_claimed_job
  run_claimed_job-Settles repo worker job s e h =
      let a = try_run repo worker job owner w s in
      let ((x, result), rows) =
        caught-Settles job a.lease a.started a.result a.site (try_run-Tried repo worker job s h) in
      let s' = (caught w job owner a.started a.result a.site).0 in
      let grace = is_grace a.result in
      let same = free_worker-jobs w grace repo worker (free_lease w grace a.lease s') in
      let same' = free_lease-jobs w grace a.lease s' in
      rw (run_claimed_job, e) ((x, result), rw (same, same') rows)
