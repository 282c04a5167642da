-- ===== src/Lease/Exclusion.antt =====
-- Mutual exclusion of workers by leases, over every sequence of statements on the table:
-- packages/infrastructure/src/sqlite/worker-lease-repository.ts. Each statement is atomic, so an
-- interleaving of processes is a list of operations.
use automation.Prelude.{
  ℕ, ◌+◌, ◌<◌, ◌≤◌, ◌≡◌, ◌≢◌, String, str_eq, eq_iff, Bool, true, false, not, ◌&&◌, ◌||◌, none,
  some, List, [], ◌∷◌, arith, All, ok, err, Result, inl, inr, Option-cases, ◌⊎◌, ltb,
}
use automation.Lease.{
  WorkerLease, Holder, AcquireLeaseInput, LeaseError, worker_lease_conflict, lease_ownership_lost,
  current, upsert, some_held, is_held_by, acquire, heartbeat, release, new_lease, blocked_by,
  may_take, check_active_lease,
}
use automation.Lease.Table.{
  OnePerRepo, current-upsert, current-update_held, current-delete_held, upsert-OnePerRepo,
  update_held-OnePerRepo, delete_held-OnePerRepo, some_held-current,
}

pub data LeaseOp : Type 0 where
  take : AcquireLeaseInput → String → LeaseOp
  renew : Holder → ℕ → ℕ → LeaseOp
  give_back : Holder → LeaseOp

unfoldable pub apply : LeaseOp → List WorkerLease → Result LeaseError (List WorkerLease)
unfolding acquire heartbeat release
apply (take input token) rows = acquire input token rows
apply (renew h now expires) rows = heartbeat h now expires rows
apply (give_back h) rows = release h rows

abbrev pub keep : List WorkerLease → Result LeaseError (List WorkerLease) → List WorkerLease
keep old (ok new) = new
keep old (err e) = old

unfoldable pub apply_all : List LeaseOp → List WorkerLease → List WorkerLease
apply_all [] rows = rows
apply_all (op ∷ ops) rows = apply_all ops (keep rows (apply op rows))

keep-OnePerRepo :
    (op : LeaseOp) (rows : List WorkerLease)
    → OnePerRepo rows
    → OnePerRepo (keep rows (apply op rows))
unfolding apply
keep-OnePerRepo (take input token) rows o =
    ground (arith, upsert-OnePerRepo (new_lease input token) rows)
keep-OnePerRepo (renew h now expires) rows o =
    ground (arith, update_held-OnePerRepo h now expires rows)
keep-OnePerRepo (give_back h) rows o = ground (arith, delete_held-OnePerRepo h rows)

-- A repository never has two leases, whatever statements are run on the table.
pub apply_all-OnePerRepo :
    (ops : List LeaseOp) (rows : List WorkerLease)
    → OnePerRepo rows
    → OnePerRepo (apply_all ops rows)
unfolding apply_all
apply_all-OnePerRepo [] rows o = o
apply_all-OnePerRepo (op ∷ ops) rows o =
    apply_all-OnePerRepo ops (keep rows (apply op rows)) (keep-OnePerRepo op rows o)

-- An operation that is not of the holder of the lease: it acquires another repository, or this one
-- before the lease expires for another worker or another run; or it renews or gives back a lease
-- that differs from this one in the repository, the worker, the run or the token.
abbrev pub is_foreign : WorkerLease → LeaseOp → Bool
is_foreign row (take input token) =
    not (str_eq input.repo_id row.repo_id)
    || (ltb input.now row.expires_at
        && not (str_eq row.worker_id input.worker_id && str_eq row.run_id input.run_id))
is_foreign row (renew h now expires) = not (is_held_by h row)
is_foreign row (give_back h) = not (is_held_by h row)

keep_of_foreign :
    (op : LeaseOp) (rows : List WorkerLease) (row : WorkerLease)
    → OnePerRepo rows
    → current row.repo_id rows ≡ some row
    → is_foreign row op ≡ true
    → current row.repo_id (keep rows (apply op rows)) ≡ some row
unfolding apply
keep_of_foreign (take input token) rows row o c f = ground (
  arith,
  eq_iff input.repo_id row.repo_id,
  current-upsert row.repo_id (new_lease input token) rows,
)
keep_of_foreign (renew h now expires) rows row o c f =
    ground (arith, current-update_held row.repo_id h now expires rows)
keep_of_foreign (give_back h) rows row o c f =
    ground (arith, current-delete_held row.repo_id h rows o)

-- Mutual exclusion: while a lease has not expired, no sequence of operations of other workers, or
-- of the same worker for other runs, or with other tokens, changes or removes it.
pub held_until_expiry :
    (ops : List LeaseOp) (rows : List WorkerLease) (row : WorkerLease)
    → OnePerRepo rows
    → current row.repo_id rows ≡ some row
    → All (λ op. is_foreign row op ≡ true) ops
    → current row.repo_id (apply_all ops rows) ≡ some row
unfolding apply_all
held_until_expiry [] rows row o c f = c
held_until_expiry (op ∷ ops) rows row o c (f, fs) =
    held_until_expiry ops (keep rows (apply op rows)) row (keep-OnePerRepo op rows o)
      (keep_of_foreign op rows row o c f) fs

not_held :
    (rows rows' : List WorkerLease) (input : AcquireLeaseInput) (token : String) (h : Holder)
    → OnePerRepo rows
    → acquire input token rows ≡ ok rows'
    → h.repo_id ≡ input.repo_id
    → token ≢ h.lease_token
    → some_held h rows' ≡ false
unfolding acquire
not_held rows rows' input token h o a same_repo other =
    let lease : WorkerLease = new_lease input token in
    let e : rows' ≡ upsert lease rows = ground arith in
    let found : current h.repo_id (upsert lease rows) ≡ some lease =
      ground (arith, current-upsert h.repo_id lease rows, eq_iff input.repo_id h.repo_id) in
    rw (e, some_held-current h (upsert lease rows) lease (upsert-OnePerRepo lease rows o) found)
      (ground (arith, eq_iff token h.lease_token))

-- Fencing: once the lease of a repository has been acquired again under another token, whoever
-- held it before, by the same worker and run or not, can neither renew it nor give it back.
pub taken_over_fenced :
    (rows rows' : List WorkerLease) (input : AcquireLeaseInput) (token : String) (h : Holder)
    (now expires : ℕ)
    → OnePerRepo rows
    → acquire input token rows ≡ ok rows'
    → h.repo_id ≡ input.repo_id
    → token ≢ h.lease_token
    → (heartbeat h now expires rows' ≡ err (lease_ownership_lost h.repo_id h.lease_token))
      × (release h rows' ≡ err (lease_ownership_lost h.repo_id h.lease_token))
unfolding heartbeat release
taken_over_fenced rows rows' input token h now expires o a same_repo other =
    let gone : some_held h rows' ≡ false = not_held rows rows' input token h o a same_repo other in
    (ground arith, ground arith)

acquired :
    (input : AcquireLeaseInput) (token : String) (rows : List WorkerLease)
    → let rows' = upsert (new_lease input token) rows in
      (current input.repo_id rows' ≡ some (new_lease input token))
      × ((t : ℕ) → check_active_lease input.repo_id t rows' ≡ ltb t (input.now + input.ttl_ms))
      × ((repo : String) → repo ≢ input.repo_id → current repo rows' ≡ current repo rows)
unfolding check_active_lease
acquired input token rows =
    let lease : WorkerLease = new_lease input token in
    let found : current input.repo_id (upsert lease rows) ≡ some lease =
      ground (arith, current-upsert input.repo_id lease rows, eq_iff input.repo_id input.repo_id) in
    (
      found,
      λ t. ground arith,
      λ repo ne. ground (arith, current-upsert repo lease rows, eq_iff input.repo_id repo),
    )

free_lease :
    (input : AcquireLeaseInput) (row : WorkerLease)
    → may_take input row ≡ true
    → (row.expires_at ≤ input.now)
      ⊎ ((row.worker_id ≡ input.worker_id) × (row.run_id ≡ input.run_id))
free_lease input row h =
    ground (arith, eq_iff row.worker_id input.worker_id, eq_iff row.run_id input.run_id)

-- An acquisition succeeds exactly when the repository has no lease, or one that has expired, or
-- one of the same worker for the same run. The repository's lease is then one of the worker, the run
-- and the token that asked, acquired now, renewed now and to expire after its time to live, until when
-- it is active; and the lease of any other repository is as before. Otherwise the worker that holds
-- the lease is reported.
pub acquire_outcome :
    (input : AcquireLeaseInput) (token : String) (rows : List WorkerLease) (t : ℕ) (other : String)
    → other ≢ input.repo_id
    → ((row : WorkerLease) × (current input.repo_id rows ≡ some row)
        × (input.now < row.expires_at)
        × ((row.worker_id ≢ input.worker_id) ⊎ (row.run_id ≢ input.run_id))
        × (acquire input token rows ≡ err (worker_lease_conflict input.repo_id row.worker_id)))
      ⊎ ((rows' : List WorkerLease) × (acquire input token rows ≡ ok rows')
          × ((current input.repo_id rows ≡ none)
              ⊎ ((row : WorkerLease) × (current input.repo_id rows ≡ some row)
                  × ((row.expires_at ≤ input.now)
                      ⊎ ((row.worker_id ≡ input.worker_id) × (row.run_id ≡ input.run_id)))))
          × (current input.repo_id rows'
              ≡ some (record {
                repo_id = input.repo_id;
                worker_id = input.worker_id;
                run_id = input.run_id;
                acquired_at = input.now;
                heartbeat_at = input.now;
                expires_at = input.now + input.ttl_ms;
                lease_token = token;
              }))
          × (check_active_lease input.repo_id t rows' ≡ ltb t (input.now + input.ttl_ms))
          × (current other rows' ≡ current other rows))
unfolding acquire
acquire_outcome input token rows t other elsewhere =
    elim (Option-cases (blocked_by input (current input.repo_id rows))) [
      | inl free ↦
          let (found, active, others) = acquired input token rows in
          inr (
            upsert (new_lease input token) rows,
            ground arith,
            elim (Option-cases (current input.repo_id rows)) [
              | inl unleased ↦ inl unleased
              | inr (row, e) ↦ inr (row, e, free_lease input row (ground arith))
            ],
            found,
            active t,
            others other elsewhere,
          )
      | inr (row, taken) ↦ inl (
        row,
        ground arith,
        ground arith,
        ground (arith, eq_iff row.worker_id input.worker_id, eq_iff row.run_id input.run_id),
        ground arith,
      )
    ]
