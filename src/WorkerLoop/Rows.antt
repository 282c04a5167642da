-- ===== src/WorkerLoop/Rows.antt =====
-- What the operations of an owner leave of its rows in the table of jobs:
-- packages/infrastructure/src/sqlite/job-queue-repository.ts, as
-- packages/application/src/executor/worker-loop.ts calls it.
use automation.Prelude.{
  ℕ, ◌≡◌, refl, sym, ap, ◌∙◌, Memᴰ, str_eq, eq_iff, Bool, true, false, ◌&&◌, none, some, List, [],
  ◌∷◌, arith, find?, All, All-map, Bool-cases, inl, inr, ◌⊎◌, ok, err, is_some,
}
use automation.Job.{
  Job, JobStatus, queued, JobOwnership, is_held, is_running, is_claimed, unclaim_job,
  reset_job_to_queued, mark_job_running, mark_job_succeeded, mark_job_failed, mark_job_cancelled,
  terminate,
}
use automation.JobQueue.{
  job_ownership_lost, is_owned, is_claimed_by, update_owned, update_job_with_ownership, write_job,
}
use automation.JobQueue.Order.{find?-none}
use automation.JobQueue.Owned.{
  OwnedOp, give_back, send_back, begin, succeed, fail, cancel, run_owned, transition,
}

-- No job that the owner owns is left claimed or running.
abbrev pub SettledRows : JobOwnership → List Job → Type 0
SettledRows owner rows = All (λ k. is_owned owner k && is_held k.status ≡ false) rows

-- The owner's job is in a status that passes the test, or it is not the owner's any more.
abbrev pub OwnedIn : (JobStatus → Bool) → JobOwnership → List Job → Type 0
OwnedIn test owner rows =
    (find? (is_owned owner) rows ≡ none)
    ⊎ ((j : Job) × (find? (is_owned owner) rows ≡ some j) × (test j.status ≡ true))

pub lost-SettledRows :
    (owner : JobOwnership) (rows : List Job)
    → find? (is_owned owner) rows ≡ none
    → SettledRows owner rows
lost-SettledRows owner rows e =
    All-map (λ k. is_owned owner k ≡ false) (λ k. is_owned owner k && is_held k.status ≡ false)
      (λ k h. rw h refl) rows (find?-none (is_owned owner) rows e)

find?-owned :
    (owner : JobOwnership) (rows : List Job) (j : Job)
    → find? (is_owned owner) rows ≡ some j
    → (is_owned owner j ≡ true) × (j.id ≡ owner.job_id)
find?-owned owner [] j e = ground (arith, e)
find?-owned owner (k ∷ ks) j e = elim (Bool-cases (is_owned owner k)) [
  | inl found ↦
      let same : k ≡ j = ground (arith, e, found) in
      rw (← same) (found, ground (arith, found, eq_iff k.id owner.job_id))
  | inr passed_over ↦ find?-owned owner ks j (rw passed_over at e)
]

update_owned-SettledRows :
    (owner : JobOwnership) (u : Job) (rows : List Job)
    → u.id ≡ owner.job_id
    → (is_held u.status ≡ false) ⊎ (u.claim_token ≡ none)
    → SettledRows owner (update_owned owner u rows)
unfolding update_owned
update_owned-SettledRows owner u [] same ended = tt
update_owned-SettledRows owner u (k ∷ ks) same ended =
    let rest = update_owned-SettledRows owner u ks same ended in
    elim (Bool-cases (str_eq k.id u.id && is_claimed_by owner k)) [
      | inl written ↦ (
        rw written (elim ended [ inl e ↦ ground (arith, e) | inr e ↦ rw e (ground arith) ]),
        rest,
      )
      | inr kept ↦
          let unowned : is_owned owner k ≡ false = (rw same at kept) in
          (rw kept (rw unowned refl), rest)
    ]

-- What the operations that settle a job accept, and what they make of it.
abbrev pub closes : OwnedOp → JobStatus → Bool
closes give_back s = is_claimed s
closes send_back s = is_held s
closes (begin now) s = false
closes (succeed now) s = is_running s
closes (fail now) s = is_running s
closes (cancel now) s = is_running s

transition-closes :
    (op : OwnedOp) (j : Job)
    → closes op j.status ≡ true
    → (u : Job) × (transition op j ≡ ok u)
      × (u.id ≡ j.id)
      × ((is_held u.status ≡ false) ⊎ (u.claim_token ≡ none))
unfolding transition unclaim_job reset_job_to_queued mark_job_succeeded mark_job_failed
    mark_job_cancelled terminate
transition-closes give_back j h = rw h (_, refl, refl, inr refl)
transition-closes send_back j h = rw h (_, refl, refl, inr refl)
transition-closes (begin now) j h = ground (arith, h)
transition-closes (succeed now) j h = rw h (_, refl, refl, inl refl)
transition-closes (fail now) j h = rw h (_, refl, refl, inl refl)
transition-closes (cancel now) j h = rw h (_, refl, refl, inl refl)

find?-some :
    (test : Job → Bool) (rows : List Job) (j : Job)
    → find? test rows ≡ some j
    → (other : Job → Bool) → other j ≡ true
    → is_some (find? other rows) ≡ true
find?-some test [] j e other h = ground (arith, e)
find?-some test (k ∷ ks) j e other h = elim (Bool-cases (test k)) [
  | inl found ↦
      let same : k ≡ j = ground (arith, e, found) in
      let seen : other k ≡ true = rw same h in rw seen refl
  | inr passed_over ↦ elim (Bool-cases (other k)) [
    | inl seen ↦ rw seen refl
    | inr unseen ↦ rw unseen (find?-some test ks j (rw passed_over at e) other h)
  ]
]

run_owned-writes :
    (op : OwnedOp) (owner : JobOwnership) (rows : List Job) (j u : Job)
    → find? (is_owned owner) rows ≡ some j
    → transition op j ≡ ok u
    → u.id ≡ j.id
    → run_owned op owner rows ≡ ok (update_owned owner u rows)
unfolding run_owned update_job_with_ownership
run_owned-writes op owner rows j u f t same =
    let (owned, id) = find?-owned owner rows j f in
    let again : str_eq j.id u.id && is_claimed_by owner j ≡ true =
      ground (arith, owned, same, eq_iff j.id u.id) in
    let there =
      find?-some (is_owned owner) rows j f (λ r. str_eq r.id u.id && is_claimed_by owner r) again in
    rw (update_job_with_ownership, f, t, there) refl

run_owned-lost :
    (op : OwnedOp) (owner : JobOwnership) (rows : List Job)
    → find? (is_owned owner) rows ≡ none
    → run_owned op owner rows ≡ err (job_ownership_lost owner.job_id)
unfolding run_owned update_job_with_ownership
run_owned-lost op owner rows f = rw (update_job_with_ownership, f) refl

-- An operation that settles the owner's job finds the ownership lost or succeeds, and either way
-- no job of the owner is left claimed or running.
pub run_owned-settles :
    (op : OwnedOp) (owner : JobOwnership) (rows : List Job)
    → OwnedIn (closes op) owner rows
    → ((run_owned op owner rows ≡ err (job_ownership_lost owner.job_id)) × SettledRows owner rows)
      ⊎ ((rows' : List Job) × (run_owned op owner rows ≡ ok rows') × SettledRows owner rows')
run_owned-settles op owner rows (inl lost) =
    inl (run_owned-lost op owner rows lost, lost-SettledRows owner rows lost)
run_owned-settles op owner rows (inr (j, f, h)) =
    let (u, t, same, ended) = transition-closes op j h in
    inr (
      update_owned owner u rows,
      run_owned-writes op owner rows j u f t same,
      update_owned-SettledRows owner u rows (same ∙ (find?-owned owner rows j f).1) ended,
    )

update_owned-find :
    (owner : JobOwnership) (u : Job) (rows : List Job) (j : Job)
    → find? (is_owned owner) rows ≡ some j
    → u.id ≡ j.id
    → u.claimed_by ≡ j.claimed_by
    → u.claim_token ≡ j.claim_token
    → find? (is_owned owner) (update_owned owner u rows) ≡ some (write_job u j)
unfolding update_owned
update_owned-find owner u [] j f a b c = ground (arith, f)
update_owned-find owner u (k ∷ ks) j f a b c = elim (Bool-cases (is_owned owner k)) [
  | inl found ↦
      let same : k ≡ j = ground (arith, f, found) in
      let written : str_eq k.id u.id && is_claimed_by owner k ≡ true =
        ground (arith, found, ap (λ (x : Job). x.id) same, a, eq_iff k.id u.id) in
      let by : u.claimed_by ≡ k.claimed_by = rw same b in
      let token : u.claim_token ≡ k.claim_token = rw same c in
      let still : is_owned owner (write_job u k) ≡ true = rw (by, token) found in
      rw (written, still, same) refl
  | inr passed_over ↦
      let rest = rw passed_over at f in
      let id : u.id ≡ owner.job_id = a ∙ (find?-owned owner ks j rest).1 in
      let kept : str_eq k.id u.id && is_claimed_by owner k ≡ false = rw id passed_over in
      rw (kept, passed_over) (update_owned-find owner u ks j rest a b c)
]

-- Marking the job as running finds the ownership lost, or leaves the owner with a running job.
pub run_owned-begins :
    (now : ℕ) (owner : JobOwnership) (rows : List Job)
    → OwnedIn is_claimed owner rows
    → ((run_owned (begin now) owner rows ≡ err (job_ownership_lost owner.job_id))
        × SettledRows owner rows)
      ⊎ ((rows' : List Job) × (run_owned (begin now) owner rows ≡ ok rows')
          × OwnedIn is_running owner rows')
unfolding transition mark_job_running
run_owned-begins now owner rows (inl lost) =
    inl (run_owned-lost (begin now) owner rows lost, lost-SettledRows owner rows lost)
run_owned-begins now owner rows (inr (j, f, h)) =
    let u : Job = record j { status = JobStatus.running; started_at = some now } in
    let t : transition (begin now) j ≡ ok u = rw h refl in
    inr (
      update_owned owner u rows,
      run_owned-writes (begin now) owner rows j u f t refl,
      inr (write_job u j, update_owned-find owner u rows j f refl refl refl, refl),
    )

update_owned-Memᴰ :
    (owner : JobOwnership) (u : Job) (rows : List Job) (j : Job)
    → find? (is_owned owner) rows ≡ some j
    → u.id ≡ j.id
    → Memᴰ (write_job u j) (update_owned owner u rows)
unfolding update_owned
update_owned-Memᴰ owner u [] j f a = ground (arith, f)
update_owned-Memᴰ owner u (k ∷ ks) j f a = elim (Bool-cases (is_owned owner k)) [
  | inl found ↦
      let same : k ≡ j = ground (arith, f, found) in
      let written : str_eq k.id u.id && is_claimed_by owner k ≡ true =
        ground (arith, found, ap (λ (x : Job). x.id) same, a, eq_iff k.id u.id) in
      rw written (Memᴰ.head (ap (write_job u) (sym same)))
  | inr passed_over ↦ Memᴰ.tail (update_owned-Memᴰ owner u ks j (rw passed_over at f) a)
]

-- From the first table to the second the job of the owner, if it has one, goes back into the queue,
-- without a claim.
abbrev pub GivenBack : JobOwnership → List Job → List Job → Type 0
GivenBack owner rows rows' =
    ((find? (is_owned owner) rows ≡ none) × (rows' ≡ rows))
    ⊎ ((j : Job) × (find? (is_owned owner) rows ≡ some j)
        × Memᴰ
            (record j { status = queued; claimed_by = none; claimed_at = none; claim_token = none })
            rows')

-- The release of a claim finds the ownership lost, or puts the job back into the queue.
pub run_owned-GivenBack :
    (owner : JobOwnership) (rows : List Job)
    → OwnedIn is_claimed owner rows
    → ((run_owned give_back owner rows ≡ err (job_ownership_lost owner.job_id))
        × (find? (is_owned owner) rows ≡ none))
      ⊎ ((rows' : List Job) × (run_owned give_back owner rows ≡ ok rows')
          × GivenBack owner rows rows')
unfolding transition unclaim_job
run_owned-GivenBack owner rows (inl lost) = inl (run_owned-lost give_back owner rows lost, lost)
run_owned-GivenBack owner rows (inr (j, f, h)) =
    let u : Job = record j {
      status = queued;
      claimed_by = none;
      claimed_at = none;
      claim_token = none;
    } in
    let t : transition give_back j ≡ ok u = rw h refl in
    inr (
      update_owned owner u rows,
      run_owned-writes give_back owner rows j u f t refl,
      inr (j, f, update_owned-Memᴰ owner u rows j f refl),
    )
