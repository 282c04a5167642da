-- ===== src/WorkerLoop/Bounded.antt =====
-- The loop of a worker ends: packages/application/src/executor/worker-loop.ts.
use automation.Prelude.{
  ◌≡◌, ◌≢◌, ◌<◌, ◌≤◌, refl, ap, ◌∙◌, String, str_eq, eq_iff, Bool, true, false, not, some, List, [],
  ◌∷◌, arith, find?, All, All-map, Bool-cases, Option-cases, Result-cases, inl, inr, Result, ok,
  err, includes, length, unseen, unseen-falls,
}
use automation.Job.{Job, generate_job_ownership}
use automation.JobQueue.{
  is_skipped, is_out_of_scope, claim_next, claim_tx, order_rows, queued_rows, update_claimed,
}
use automation.JobQueue.Owned.{give_back}
use automation.JobQueue.Claim.{found_facts, claim_job-queued}
use automation.WorkerLoop.{Site, Thrown, JobResult, settled}
use automation.WorkerLoop.Settling.{run_claimed_job}
use automation.WorkerLoop.Turns.{
  Turn, TurnEnd, again, returned, failed_with, WorkerLoopDeps, claim_input, release_claimed,
  after_conflict, after_job, skip_job, with_job, turn, take_turns, worker_loop,
}
use automation.WorkerLoop.Ends.{
  job_ids, Same, Skips, update_claimed-ids, unless_lost-Same, is_conflict, Quiet,
  run_claimed_job-Skips,
}

unseen-length :
    (rows : List Job) (skipped : List String) → unseen (job_ids rows) skipped ≤ length rows
unseen-length [] skipped = omega arith
unseen-length (j ∷ js) skipped = ground (arith, unseen-length js skipped)

All-includes : (rows : List Job) → All (λ j. includes (job_ids rows) j.id ≡ true) rows
All-includes [] = tt
All-includes (j ∷ js) =
    let here : str_eq j.id j.id ≡ true = (eq_iff j.id j.id).1 refl in
    (
      rw here refl,
      All-map (λ k. includes (job_ids js) k.id ≡ true)
          (λ k. includes (job_ids (j ∷ js)) k.id ≡ true) (λ k h. ground (arith, h)) js
          (All-includes js),
    )

abbrev goes_on : TurnEnd → Bool
goes_on again = true
goes_on _ = false

-- What a turn that goes on has done: a job that was there and not to be skipped is to be skipped now.
abbrev Advances : Site → Site → Type 0
Advances s' s =
    (job : Job) × (includes (job_ids s.jobs) job.id ≡ true)
    × (includes s.skipped_job_ids job.id ≡ false)
    × Skips job s' s

release_claimed-Same :
    (worker : String) (job : Job) (after : TurnEnd) (s : Site)
    → Same (release_claimed worker job after s).0 s
unfolding release_claimed
release_claimed-Same worker job after s = elim (Option-cases job.claim_token) [
  | inl untokened ↦ rw (release_claimed, untokened) (refl, refl)
  | inr (token, tokened) ↦ elim (Result-cases (generate_job_ownership job worker)) [
    | inr (e, unowned) ↦ rw (release_claimed, tokened, unowned) (refl, refl)
    | inl (owner, owns) ↦ rw (release_claimed, tokened, owns) (unless_lost-Same give_back owner s)
  ]
]

release_claimed-returned :
    (worker : String) (job : Job) (s : Site)
    → goes_on (release_claimed worker job returned s).1 ≡ false
unfolding release_claimed
release_claimed-returned worker job s = ground arith

skip_job-Skips :
    (job : Job) (s : Site) (r : Site × TurnEnd)
    → Same r.0 s
    → goes_on (skip_job job r).1 ≡ true
    → Skips job (skip_job job r).0 s
skip_job-Skips job s (s', again) (ids, skipped) h = (ids, ap (λ x. job.id ∷ x) skipped)
skip_job-Skips job s (s', returned) same h = absurd (cc)
skip_job-Skips job s (s', failed_with t) same h = absurd (cc)

after_conflict-Same : (l : WorkerLoopDeps) (s : Site) → Same (after_conflict l s).0 s
unfolding after_conflict
after_conflict-Same l s = (ground arith, ground arith)

after_job-Same :
    (l : WorkerLoopDeps) (s : Site) (r : Result Thrown JobResult)
    → goes_on (after_job l s r).1 ≡ true
    → (is_conflict r ≡ true) × Same (after_job l s r).0 s
unfolding after_job
after_job-Same l s (err t) h = absurd (cc)
after_job-Same l s (ok settled) h = absurd (cc)
after_job-Same l s (ok JobResult.lease_conflict) h = (refl, after_conflict-Same l s)

with_job-Skips :
    (l : WorkerLoopDeps) (t : Turn) (job : Job) (s : Site)
    → Quiet t.waits
    → goes_on (with_job l t job s).1 ≡ true
    → Skips job (with_job l t job s).0 s
unfolding with_job
with_job-Skips l t job s q h = elim (Bool-cases (str_eq job.repo_id l.repo_id)) [
  | inr foreign ↦ rw foreign (
      skip_job-Skips job s (release_claimed l.worker_id job again s)
        (release_claimed-Same l.worker_id job again s) (rw (with_job, foreign) at h))
  | inl own ↦ elim (Bool-cases t.repo_enabled) [
    | inr disabled ↦
        absurd (ground (arith, h, own, disabled, release_claimed-returned l.worker_id job s))
    | inl enabled ↦
        let r = run_claimed_job l.repo_id l.worker_id job t.waits s in
        let goes : goes_on (after_job l r.0 r.1).1 ≡ true = rw (with_job, own, enabled) at h in
        let (conflict, same) = after_job-Same l r.0 r.1 goes in
        let (ids, skipped) = run_claimed_job-Skips l.repo_id l.worker_id job t.waits s q conflict in
        rw (own, enabled) (same.0 ∙ ids, same.1 ∙ skipped)
  ]
]

turn-Advances :
    (l : WorkerLoopDeps) (t : Turn) (s : Site)
    → Quiet t.waits
    → goes_on (turn l t s).1 ≡ true
    → Advances (turn l t s).0 s
unfolding turn claim_next claim_tx
turn-Advances l t s q h = elim (Bool-cases (is_out_of_scope l.scope l.repo_id)) [
  | inl foreign ↦ absurd (ground (arith, h, foreign))
  | inr scoped ↦
      let input = claim_input l s in
      elim (Option-cases (
        find? (λ r. not (is_skipped input r))
          (order_rows l.text_le (queued_rows l.repo_id s.jobs)))) [
            | inl nothing ↦ absurd (ground (arith, h, scoped, nothing))
            | inr (job, found) ↦
                let (facts, passes) =
                  found_facts l.text_le input s.jobs job
                    (λ j. includes (job_ids s.jobs) j.id ≡ true) (All-includes s.jobs) found in
                let (c, claims, same, busy, tokened) =
                  claim_job-queued job l.worker_id t.claim_token t.claimed_at (some l.ttl_ms)
                    facts.1 in
                let s' : Site = record s { jobs = update_claimed c l.repo_id s.jobs } in
                let e : turn l t s ≡ with_job l t c s' =
                  rw (turn, scoped, claim_next, claim_tx, found, claims) refl in
                let (ids, skipped) = with_job-Skips l t c s' q (rw e at h) in
                rw e (
                  c,
                  rw same facts.0,
                  ground (arith, same, passes),
                  (ids ∙ update_claimed-ids c l.repo_id s.jobs, skipped),
                )
          ]
]

-- No turn throws a conflict of leases at a wait.
abbrev pub AllQuiet : List Turn → Type 0
AllQuiet ts = All (λ (t : Turn). Quiet t.waits) ts

take_turns-ends :
    (l : WorkerLoopDeps) (ts : List Turn) (s : Site)
    → AllQuiet ts
    → unseen (job_ids s.jobs) s.skipped_job_ids < length ts
    → (take_turns l ts s).1 ≢ again
unfolding take_turns
take_turns-ends l [] s q enough = absurd (omega (arith, enough))
take_turns-ends l (t ∷ ts) s (q, qs) enough = elim (Bool-cases (goes_on (turn l t s).1)) [
  | inr ends ↦ ground (arith, ends)
  | inl goes ↦
      let s' = (turn l t s).0 in
      let (job, there, unskipped, (ids, skipped)) = turn-Advances l t s q goes in
      let falls : unseen (job_ids s'.jobs) s'.skipped_job_ids
          < unseen (job_ids s.jobs) s.skipped_job_ids =
        rw (ids, skipped)
          (unseen-falls (job_ids s.jobs) s.skipped_job_ids job.id there unskipped) in
      let on : (turn l t s).1 ≡ again = ground (arith, goes) in
      rw (take_turns, on) (take_turns-ends l ts s' qs (omega (arith, falls, enough)))
]

-- The loop of a worker ends within one turn more than there are jobs in the table, whatever the
-- waits of its jobs do to the tables, if they throw no conflict of leases: a turn after which the
-- loop goes on has skipped one more job, and has waited nowhere.
pub worker_loop-ends :
    (l : WorkerLoopDeps) (listed : Bool) (ts : List Turn) (s : Site)
    → AllQuiet ts
    → length s.jobs < length ts
    → (worker_loop l listed ts s).1 ≢ again
unfolding worker_loop
worker_loop-ends l listed ts s q enough =
    let turns =
      take_turns-ends l ts (record s { skipped_job_ids = [] }) q
        (omega (arith, enough, unseen-length s.jobs [])) in
    ground (arith, turns)
