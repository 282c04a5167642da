-- ===== src/Lease/Table.antt =====
-- The table of leases: what a repository's row is after each statement, and that there is at most
-- one (packages/infrastructure/src/sqlite/worker-lease-repository.ts).
use automation.Prelude.{
  ℕ, ◌≡◌, refl, String, str_eq, eq_iff, false, none, some, List, [], ◌∷◌, arith, if◌then◌else◌,
}
use automation.Lease.{
  WorkerLease, Holder, current, upsert, update_held, delete_held, some_held, is_held_by, beat,
}

-- At most one row for a repository.
abbrev pub OnePerRepo : List WorkerLease → Type 0
OnePerRepo [] = Unit
OnePerRepo (row ∷ rows) = (current row.repo_id rows ≡ none) × OnePerRepo rows

pub current-upsert :
    (repo : String) (lease : WorkerLease) (rows : List WorkerLease)
    → current repo (upsert lease rows)
      ≡ (if str_eq lease.repo_id repo then some lease else current repo rows)
unfolding current upsert
current-upsert repo lease [] = refl
current-upsert repo lease (row ∷ rows) = ground (
  arith,
  eq_iff lease.repo_id repo,
  eq_iff row.repo_id repo,
  eq_iff row.repo_id lease.repo_id,
  current-upsert repo lease rows,
)

pub upsert-OnePerRepo :
    (lease : WorkerLease) (rows : List WorkerLease)
    → OnePerRepo rows
    → OnePerRepo (upsert lease rows)
unfolding upsert current
upsert-OnePerRepo lease [] h = (refl, tt)
upsert-OnePerRepo lease (row ∷ rows) h = ground (
  arith,
  eq_iff row.repo_id lease.repo_id,
  eq_iff lease.repo_id row.repo_id,
  current-upsert row.repo_id lease rows,
  upsert-OnePerRepo lease rows,
)

pub current-update_held :
    (repo : String) (h : Holder) (now expires : ℕ) (rows : List WorkerLease)
    → current repo (update_held h now expires rows) ≡ elim (current repo rows) [
      | none ↦ none
      | some row ↦ some (if is_held_by h row then beat now expires row else row)
    ]
unfolding current update_held
current-update_held repo h now expires [] = refl
current-update_held repo h now expires (row ∷ rows) =
    ground (arith, current-update_held repo h now expires rows)

pub update_held-OnePerRepo :
    (h : Holder) (now expires : ℕ) (rows : List WorkerLease)
    → OnePerRepo rows
    → OnePerRepo (update_held h now expires rows)
unfolding update_held
update_held-OnePerRepo h now expires [] o = tt
update_held-OnePerRepo h now expires (row ∷ rows) o = ground (
  arith,
  current-update_held row.repo_id h now expires rows,
  update_held-OnePerRepo h now expires rows,
)

delete_held-none :
    (repo : String) (h : Holder) (rows : List WorkerLease)
    → current repo rows ≡ none
    → current repo (delete_held h rows) ≡ none
unfolding current delete_held
delete_held-none repo h [] n = refl
delete_held-none repo h (row ∷ rows) n = ground (arith, delete_held-none repo h rows)

pub current-delete_held :
    (repo : String) (h : Holder) (rows : List WorkerLease)
    → OnePerRepo rows
    → current repo (delete_held h rows) ≡ elim (current repo rows) [
      | none ↦ none
      | some row ↦ if is_held_by h row then none else some row
    ]
unfolding current delete_held
current-delete_held repo h [] o = refl
current-delete_held repo h (row ∷ rows) o =
    ground (
      arith,
      eq_iff row.repo_id repo,
      delete_held-none repo h rows,
      current-delete_held repo h rows,
    )

pub delete_held-OnePerRepo :
    (h : Holder) (rows : List WorkerLease) → OnePerRepo rows → OnePerRepo (delete_held h rows)
unfolding delete_held
delete_held-OnePerRepo h [] o = tt
delete_held-OnePerRepo h (row ∷ rows) o =
    ground (arith, delete_held-none row.repo_id h rows, delete_held-OnePerRepo h rows)

some_held-none :
    (h : Holder) (rows : List WorkerLease)
    → current h.repo_id rows ≡ none
    → some_held h rows ≡ false
unfolding current some_held
some_held-none h [] n = refl
some_held-none h (row ∷ rows) n = ground (arith, some_held-none h rows)

pub some_held-current :
    (h : Holder) (rows : List WorkerLease) (row : WorkerLease)
    → OnePerRepo rows
    → current h.repo_id rows ≡ some row
    → some_held h rows ≡ is_held_by h row
unfolding current some_held
some_held-current h [] row o c = cc
some_held-current h (x ∷ rows) row o c =
    ground (arith, eq_iff x.repo_id h.repo_id, some_held-none h rows, some_held-current h rows row)
