-- ===== src/WorkerLoop/Settling.antt =====
-- The `catch` and the `finally` of `runClaimedJob`, and the whole of it:
-- packages/application/src/executor/worker-loop.ts.
use automation.Prelude.{
  String, Bool, true, false, not, ◌||◌, Option, none, some, [], ◌∷◌, ◌++◌, Result, ok, err,
  if◌then◌else◌,
}
use automation.Run.{RunStatus}
use automation.Job.{Job, JobOwnership, generate_job_ownership}
use automation.JobQueue.Owned.{OwnedOp, give_back, send_back, fail, cancel, run_owned}
use automation.Lease.{Holder, release}
use automation.Worker.{WorkerStatus, idle, busy, find_worker, mark_idle, mark_stopping}
use automation.WorkerLoop.{
  Site, Thrown, ownership_lost, grace_expired_during_shutdown, other, unavailable, JobResult,
  settled, lease_conflict, Waits, AbortReason, shutdown, user_cancelled, lease_lost, thrown_by,
  try_run,
}

-- A call of the queue in a `try` whose `catch` throws all but a lost ownership.
unfoldable pub unless_lost : OwnedOp → JobOwnership → Site → Site × Result Thrown JobResult
unfolding run_owned
unless_lost op owner s = elim (run_owned op owner s.jobs) [
  | ok jobs ↦ (record s { jobs = jobs }, ok settled)
  | err e ↦ elim (thrown_by e) [ ownership_lost ↦ (s, ok settled) | t ↦ (s, err t) ]
]

-- A call of the queue in a `try` whose `catch` is empty.
unfoldable pub ignoring : OwnedOp → JobOwnership → Site → Site
unfolding run_owned
ignoring op owner s = elim (run_owned op owner s.jobs) [
  | ok jobs ↦ record s { jobs = jobs }
  | err e ↦ s
]

abbrev pub patch : Job → RunStatus → Option String → Site → Site
patch job status reason s = record s {
  patches =
      s.patches ++ (record { run_id = job.run_id; status = status; failure_reason = reason } ∷ []);
}

-- The `catch` for an error of no class of its own, once the job is marked running.
unfoldable pub catch_started :
    Waits → Job → JobOwnership → Option AbortReason → Site → Site × Result Thrown JobResult
unfolding unless_lost ignoring
catch_started w job owner (some shutdown) s = (ignoring send_back owner s, ok settled)
catch_started w job owner (some user_cancelled) s =
    (ignoring (cancel w.ended_at) owner (patch job RunStatus.cancelled none s), ok settled)
catch_started w job owner _ s = unless_lost (fail w.ended_at) owner s

-- The `catch` block: the error, and whether the job is marked running.
unfoldable pub catch_run :
    Waits → Job → JobOwnership → Bool → Thrown → Site → Site × Result Thrown JobResult
unfolding unless_lost ignoring catch_started
catch_run w job owner started ownership_lost s = (s, ok settled)
catch_run w job owner started Thrown.lease_conflict s =
    let (freed, result) = unless_lost give_back owner s in
    elim result [
      | err t ↦ (freed, err t)
      | ok r ↦
          (record freed { skipped_job_ids = job.id ∷ freed.skipped_job_ids }, ok lease_conflict)
    ]
catch_run w job owner true (unavailable cause) s =
    unless_lost (fail w.ended_at) owner (patch job RunStatus.failed (some cause) s)
catch_run w job owner false (unavailable cause) s =
    unless_lost give_back owner (patch job RunStatus.failed (some cause) s)
catch_run w job owner true grace_expired_during_shutdown s =
    (ignoring (fail w.ended_at) owner s, ok settled)
catch_run w job owner false grace_expired_during_shutdown s = unless_lost give_back owner s
catch_run w job owner true other s = catch_started w job owner w.reason_caught s
catch_run w job owner false other s = unless_lost give_back owner s

abbrev pub is_grace : Result Thrown JobResult → Bool
is_grace (err grace_expired_during_shutdown) = true
is_grace _ = false

abbrev pub is_lease_lost : Option AbortReason → Bool
is_lease_lost (some lease_lost) = true
is_lease_lost _ = false

abbrev pub is_shutdown : Option AbortReason → Bool
is_shutdown (some shutdown) = true
is_shutdown _ = false

abbrev pub is_runnable : WorkerStatus → Bool
is_runnable idle = true
is_runnable busy = true
is_runnable _ = false

abbrev pub or_same {ℓ κ} : {E : Type ℓ} {A : Type κ} → A → Result E A → A
or_same old (ok new) = new
or_same old (err e) = old

-- The `finally` block: the lease, which a lost one or a grace that ran out keeps.
unfoldable pub free_lease : Waits → Bool → Option Holder → Site → Site
unfolding release
free_lease w grace none s = s
free_lease w grace (some lease) s =
    if is_lease_lost w.reason_at_end || grace
    then s
    else record s { leases = or_same s.leases (release lease s.leases) }

-- The `finally` block: the worker.
unfoldable pub free_worker : Waits → Bool → String → String → Site → Site
unfolding find_worker mark_stopping mark_idle
free_worker w grace repo worker s = elim (find_worker worker repo s.workers) [
  | none ↦ s
  | some x ↦
      if not (is_runnable x.status) || grace
      then s
      else if is_shutdown w.reason_at_end
      then record s { workers = or_same s.workers (mark_stopping worker repo s.workers) }
      else record s { workers = or_same s.workers (mark_idle worker repo s.workers) }
]

-- The `try` with its `catch`: whether the job was marked running, the result of the `try`, and the
-- tables then.
unfoldable pub caught :
    Waits
    → Job
    → JobOwnership
    → Bool
    → Result Thrown JobResult
    → Site
    → Site × Result Thrown JobResult
unfolding catch_run
caught w job owner started (ok r) s = (s, ok r)
caught w job owner started (err t) s = catch_run w job owner started t s

-- The arguments are the repository of the worker, the worker, the job that it has claimed and the
-- waits.
unfoldable pub run_claimed_job :
    String → String → Job → Waits → Site → Site × Result Thrown JobResult
unfolding generate_job_ownership try_run caught free_lease free_worker
run_claimed_job repo worker job w s = elim (generate_job_ownership job worker) [
  | err e ↦ (s, err other)
  | ok owner ↦
      let a = try_run repo worker job owner w s in
      let (s', result) = caught w job owner a.started a.result a.site in
      let grace = is_grace a.result in
      (free_worker w grace repo worker (free_lease w grace a.lease s'), result)
]
