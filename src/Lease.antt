-- ===== src/Lease.antt =====
-- packages/domain/src/worker-lease.ts and packages/infrastructure/src/sqlite/worker-lease-repository.ts:
-- the lease of a worker on a repository, and the table of leases. The table is the list of its
-- rows; `repo_id` is its primary key, so an `INSERT ... ON CONFLICT(repo_id) DO UPDATE` changes
-- the row of the repository where there is one. A `Date` is its number of milliseconds, which ISO
-- texts of years with four digits compare like; the token that is drawn at random is an argument.
pub mod Table
pub mod Exclusion
mod Tests
use automation.Prelude.{
  ℕ, ◌+◌, String, str_eq, Bool, true, false, not, ◌&&◌, ◌||◌, Option, none, some, List, [], ◌∷◌,
  Result, ok, err, leb, ltb, if◌then◌else◌, is_none,
}

pub record WorkerLease : Type 0 where
  pub repo_id : String
  pub worker_id : String
  pub run_id : String
  pub acquired_at : ℕ
  pub heartbeat_at : ℕ
  pub expires_at : ℕ
  pub lease_token : String

-- `WorkerLeaseConflictError` with the worker that holds the lease, and `LeaseOwnershipLostError`.
pub data LeaseError : Type 0 where
  worker_lease_conflict : String → String → LeaseError
  lease_ownership_lost : String → String → LeaseError

pub record AcquireLeaseInput : Type 0 where
  pub repo_id : String
  pub worker_id : String
  pub run_id : String
  pub now : ℕ
  pub ttl_ms : ℕ

-- What a heartbeat and a release say of the lease that they mean.
pub record Holder : Type 0 where
  pub repo_id : String
  pub worker_id : String
  pub run_id : String
  pub lease_token : String

-- `SELECT * FROM worker_leases WHERE repo_id = @repo_id`.
unfoldable pub current : String → List WorkerLease → Option WorkerLease
current repo [] = none
current repo (row ∷ rows) = if str_eq row.repo_id repo then some row else current repo rows

-- The row that `acquire` writes and returns.
abbrev pub new_lease : AcquireLeaseInput → String → WorkerLease
new_lease input token = record {
  repo_id = input.repo_id;
  worker_id = input.worker_id;
  run_id = input.run_id;
  acquired_at = input.now;
  heartbeat_at = input.now;
  expires_at = input.now + input.ttl_ms;
  lease_token = token;
}

-- The condition of `DO UPDATE`: the lease has expired, or it is the same worker's for the same run.
abbrev pub may_take : AcquireLeaseInput → WorkerLease → Bool
may_take input row =
    leb row.expires_at input.now
    || (str_eq row.worker_id input.worker_id && str_eq row.run_id input.run_id)

-- Writes the row of a repository, or inserts it.
unfoldable pub upsert : WorkerLease → List WorkerLease → List WorkerLease
upsert lease [] = lease ∷ []
upsert lease (row ∷ rows) =
    if str_eq row.repo_id lease.repo_id then lease ∷ rows else row ∷ upsert lease rows

abbrev pub blocked_by : AcquireLeaseInput → Option WorkerLease → Option WorkerLease
blocked_by input none = none
blocked_by input (some row) = if may_take input row then none else some row

unfoldable pub acquire :
    AcquireLeaseInput → String → List WorkerLease → Result LeaseError (List WorkerLease)
acquire input token rows = elim (blocked_by input (current input.repo_id rows)) [
  | none ↦ ok (upsert (new_lease input token) rows)
  | some row ↦ err (worker_lease_conflict input.repo_id row.worker_id)
]

-- `repo_id = .. AND worker_id = .. AND run_id = .. AND lease_token = ..`.
abbrev pub is_held_by : Holder → WorkerLease → Bool
is_held_by h row =
    str_eq row.repo_id h.repo_id
    && str_eq row.worker_id h.worker_id
    && str_eq row.run_id h.run_id
    && str_eq row.lease_token h.lease_token

abbrev pub beat : ℕ → ℕ → WorkerLease → WorkerLease
beat now new_expires_at row = record row { heartbeat_at = now; expires_at = new_expires_at }

-- `UPDATE ... WHERE`: every row that matches.
unfoldable pub update_held : Holder → ℕ → ℕ → List WorkerLease → List WorkerLease
update_held h now expires [] = []
update_held h now expires (row ∷ rows) =
    (if is_held_by h row then beat now expires row else row) ∷ update_held h now expires rows

-- `DELETE ... WHERE`: every row that matches.
unfoldable pub delete_held : Holder → List WorkerLease → List WorkerLease
delete_held h [] = []
delete_held h (row ∷ rows) =
    if is_held_by h row then delete_held h rows else row ∷ delete_held h rows

-- `result.changes !== 0`.
unfoldable pub some_held : Holder → List WorkerLease → Bool
some_held h [] = false
some_held h (row ∷ rows) = is_held_by h row || some_held h rows

-- The arguments are the holder, `now`, `newExpiresAt` and the table.
unfoldable pub heartbeat : Holder → ℕ → ℕ → List WorkerLease → Result LeaseError (List WorkerLease)
heartbeat h now expires rows =
    if some_held h rows
    then ok (update_held h now expires rows)
    else err (lease_ownership_lost h.repo_id h.lease_token)

unfoldable pub release : Holder → List WorkerLease → Result LeaseError (List WorkerLease)
release h rows =
    if some_held h rows
    then ok (delete_held h rows)
    else err (lease_ownership_lost h.repo_id h.lease_token)

unfoldable pub check_active_lease : String → ℕ → List WorkerLease → Bool
check_active_lease repo now rows = elim (current repo rows) [
  | none ↦ false
  | some row ↦ ltb now row.expires_at
]
