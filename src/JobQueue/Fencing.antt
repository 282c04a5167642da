-- ===== src/JobQueue/Fencing.antt =====
-- What the owner of an earlier claim, and a reconciliation, can do to a job of the queue:
-- packages/infrastructure/src/sqlite/job-queue-repository.ts.
use automation.Prelude.{
  ℕ, ◌≡◌, ◌≢◌, refl, sym, ap, String, str_eq, Bool, true, false, ◌&&◌, ◌||◌, Option, none, some,
  List, [], ◌∷◌, arith, find?, All, Bool-cases, Option-cases, inl, inr, ◌⊎◌, eq_iff, ok, err,
  opt_is_str,
}
use automation.Job.{
  Job, JobStatus, JobOwnership, queued, claimed, running, succeeded, failed, cancelled,
}
use automation.JobQueue.{
  job_ownership_lost, is_owned, update_job_with_ownership, ClaimNextInput, claim_next,
  update_claimed,
}
use automation.JobQueue.Exclusion.{claim_next-Claimed}
use automation.JobQueue.Owned.{
  OwnedOp, run_owned, find_by_id, is_scoped, ReconcileTerminalJobInput, ReconcileTerminalJobResult,
  reconcile_terminal_job, is_ended_status, write_end, update_ended, is_foreign_owner, is_unexpected,
  same_status,
}

not_owned :
    (c : Job) (repo token : String) (owner : JobOwnership) (rows : List Job)
    → All (λ k. (k.id ≢ c.id) ⊎ (k.repo_id ≡ repo)) rows
    → c.claim_token ≡ some token
    → owner.job_id ≡ c.id
    → token ≢ owner.claim_token
    → find? (is_owned owner) (update_claimed c repo rows) ≡ none
unfolding update_claimed
not_owned c repo token owner [] a t same other = refl
not_owned c repo token owner (j ∷ js) a t same other =
    let rest = not_owned c repo token owner js a.1 t same other in
    elim (Bool-cases (str_eq j.id c.id && str_eq j.repo_id repo)) [
      | inl written ↦
          let lost : opt_is_str c.claim_token owner.claim_token ≡ false =
            rw t (ground (arith, other, eq_iff token owner.claim_token)) in
          rw written (ground (arith, rest, lost))
      | inr kept ↦
          let elsewhere : str_eq j.id owner.job_id ≡ false = ground (
            arith,
            a.0,
            kept,
            same,
            eq_iff j.id c.id,
            eq_iff j.repo_id repo,
            eq_iff j.id owner.job_id,
          ) in
          rw kept (ground (arith, rest, elsewhere))
    ]

-- Once a job has been claimed again under another token, its earlier owner can neither release it,
-- send it back, start it nor end it: every operation reports that the ownership is lost. The jobs
-- of the claimed job's id, which is the primary key, are of the repository of the queue.
pub claimed_fences :
    (text_le : String → String → Bool) (scope : Option String) (input : ClaimNextInput)
    (token : String) (now : ℕ) (rows rows' : List Job) (c : Job) (owner : JobOwnership)
    (op : OwnedOp)
    → claim_next text_le scope input token now rows ≡ ok (some c, rows')
    → All (λ k. (k.id ≢ c.id) ⊎ (k.repo_id ≡ input.repo_id)) rows
    → owner.job_id ≡ c.id
    → token ≢ owner.claim_token
    → run_owned op owner rows' ≡ err (job_ownership_lost owner.job_id)
unfolding run_owned update_job_with_ownership
claimed_fences text_le scope input token now rows rows' c owner op e key same other =
    let i = claim_next-Claimed text_le scope input token now rows rows' c e in
    rw
      (
        i.table,
        update_job_with_ownership,
        not_owned c input.repo_id token owner rows key i.tokened same other,
      )
      refl

is_scoped-write_end :
    (scope : Option String) (input : ReconcileTerminalJobInput) (j : Job)
    → is_scoped scope (write_end input j) ≡ is_scoped scope j
is_scoped-write_end none input j = refl
is_scoped-write_end (some own) input j = refl

update_ended-find :
    (scope : Option String) (input : ReconcileTerminalJobInput) (rows : List Job) (row : Job)
    → find_by_id scope input.job_id rows ≡ some row
    → find_by_id scope input.job_id (update_ended scope input rows) ≡ some (write_end input row)
unfolding find_by_id update_ended
update_ended-find scope input [] row e = ground (arith, e)
update_ended-find scope input (j ∷ js) row e =
    elim (Bool-cases (str_eq j.id input.job_id && is_scoped scope j)) [
      | inl found ↦
          let still = is_scoped-write_end scope input j in
          let same : j ≡ row = ground (arith, e, found) in rw (found, still, found, same) refl
      | inr passed_over ↦
          rw (passed_over, passed_over) (update_ended-find scope input js row (rw passed_over at e))
    ]

same_status_refl : (s : JobStatus) → same_status s s ≡ true
same_status_refl queued = refl
same_status_refl claimed = refl
same_status_refl running = refl
same_status_refl succeeded = refl
same_status_refl failed = refl
same_status_refl cancelled = refl

same_status_equal : (s e : JobStatus) → same_status s e ≡ true → s ≡ e
same_status_equal s e h = ground (arith, h)

ended_cases :
    (s : JobStatus) → is_ended_status s ≡ true → (s ≡ succeeded) ⊎ ((s ≡ failed) ⊎ (s ≡ cancelled))
ended_cases s h = ground (arith, h)

live_cases :
    (s : JobStatus) → is_ended_status s ≡ false → (s ≡ queued) ⊎ ((s ≡ claimed) ⊎ (s ≡ running))
live_cases s h = ground (arith, h)

opt_is_str-some : (x : Option String) (y : String) → opt_is_str x y ≡ true → x ≡ some y
opt_is_str-some none y h = ground (arith, h)
opt_is_str-some (some x) y h = ap some ((eq_iff x y).0 h)

unexpected_lem :
    (o : Option JobStatus) (s : JobStatus)
    → is_unexpected o s ≡ true
    → (e : JobStatus) × (o ≡ some e) × (s ≢ e)
unexpected_lem none s h = ground (arith, h)
unexpected_lem (some e) s h =
    (e, refl, λ same. let itself = same_status_refl e in ground (arith, (rw same at h), itself))

own_lem :
    (o : Option JobOwnership) (row : Job)
    → is_foreign_owner o row ≡ false
    → (o ≡ none)
      ⊎ ((owner : JobOwnership) × (o ≡ some owner)
          × (row.claimed_by ≡ some owner.worker_id)
          × (row.claim_token ≡ some owner.claim_token))
own_lem none row h = inl refl
own_lem (some owner) row h = inr (
  owner,
  refl,
  opt_is_str-some row.claimed_by owner.worker_id (ground (arith, h)),
  opt_is_str-some row.claim_token owner.claim_token (ground (arith, h)),
)

expected_lem :
    (o : Option JobStatus) (s : JobStatus) → is_unexpected o s ≡ false → (o ≡ none) ⊎ (o ≡ some s)
expected_lem none s h = inl refl
expected_lem (some e) s h = inr (ap some (sym (same_status_equal s e (ground (arith, h)))))

refusal :
    (expected : Option JobStatus) (s : JobStatus)
    → is_ended_status s || is_unexpected expected s ≡ true
    → ((s ≡ succeeded) ⊎ ((s ≡ failed) ⊎ (s ≡ cancelled)))
      ⊎ ((e : JobStatus) × (expected ≡ some e) × (s ≢ e))
refusal expected s h = elim (Bool-cases (is_ended_status s)) [
  | inl ended ↦ inl (ended_cases s ended)
  | inr live ↦ inr (unexpected_lem expected s (ground (arith, h, live)))
]

-- A reconciliation that does not throw leaves the table as it was, and says so, when there is no
-- such job, when the job has succeeded, failed or been cancelled, or when its status is not the one
-- expected. Otherwise the job, which was queued, claimed or running, in the status expected and of
-- the owner given, if any, is found in the table with the status asked for, completed now, without
-- a claim and its expiry, and in all else as it was.
pub reconcile_terminal_job_outcome :
    (scope : Option String) (input : ReconcileTerminalJobInput) (rows rows' : List Job)
    (r : ReconcileTerminalJobResult)
    → reconcile_terminal_job scope input rows ≡ ok (r, rows')
    → ((r.reconciled ≡ false)
        × (rows' ≡ rows)
        × ((find_by_id scope input.job_id rows ≡ none)
            ⊎ ((row : Job) × (find_by_id scope input.job_id rows ≡ some row)
                × (((row.status ≡ succeeded) ⊎ ((row.status ≡ failed) ⊎ (row.status ≡ cancelled)))
                    ⊎ ((e : JobStatus) × (input.expected_status ≡ some e) × (row.status ≢ e))))))
      ⊎ ((row : Job) × (r.reconciled ≡ true)
          × (find_by_id scope input.job_id rows ≡ some row)
          × ((row.status ≡ queued) ⊎ ((row.status ≡ claimed) ⊎ (row.status ≡ running)))
          × ((input.expected_status ≡ none) ⊎ (input.expected_status ≡ some row.status))
          × ((input.owner ≡ none)
              ⊎ ((owner : JobOwnership) × (input.owner ≡ some owner)
                  × (row.claimed_by ≡ some owner.worker_id)
                  × (row.claim_token ≡ some owner.claim_token)))
          × (find_by_id scope input.job_id rows'
              ≡ some (record row {
                status = input.target_status;
                completed_at = some input.now;
                claimed_by = none;
                claim_token = none;
                claim_expires_at = none;
              })))
unfolding reconcile_terminal_job
reconcile_terminal_job_outcome scope input rows rows' r h =
    elim (Option-cases (find_by_id scope input.job_id rows)) [
      | inl missing ↦ inl (ground (arith, h, missing), ground (arith, h, missing), inl missing)
      | inr (row, f) ↦
          elim (Bool-cases
            (is_ended_status row.status || is_unexpected input.expected_status row.status)) [
              | inl refused ↦ inl (
                ground (arith, h, f, refused),
                ground (arith, h, f, refused),
                inr (row, f, refusal input.expected_status row.status refused),
              )
              | inr live ↦ elim (Bool-cases (is_foreign_owner input.owner row)) [
                | inl foreign ↦ absurd (ground (arith, h, f, live, foreign))
                | inr own ↦
                    let table : rows' ≡ update_ended scope input rows =
                      ground (arith, h, f, live, own) in
                    inr (
                      row,
                      ground (arith, h, f, live, own),
                      f,
                      live_cases row.status (ground (arith, live)),
                      expected_lem input.expected_status row.status (ground (arith, live)),
                      own_lem input.owner row own,
                      rw table (update_ended-find scope input rows row f),
                    )
              ]
            ]
    ]
