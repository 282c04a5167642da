-- ===== src/JobQueue/Ids.antt =====
-- The ids of the jobs of the queue: packages/infrastructure/src/sqlite/job-queue-repository.ts.
use automation.Prelude.{
  ◌≡◌, ◌≢◌, refl, String, str_eq, Bool, true, false, none, some, List, [], ◌∷◌, ◌++◌, arith, find?,
  All, All-append, All-map, Option-cases, inl, inr, eq_iff, ok,
}
use automation.Job.{Job}
use automation.JobQueue.{enqueue}
use automation.JobQueue.Order.{find?-none}
use automation.JobQueue.Owned.{find_by_id}

-- The primary key of the table.
abbrev pub UniqueIds : List Job → Type 0
UniqueIds [] = Unit
UniqueIds (j ∷ js) = All (λ k. j.id ≢ k.id) js × UniqueIds js

UniqueIds-append :
    (rows : List Job) (job : Job)
    → UniqueIds rows
    → All (λ k. k.id ≢ job.id) rows
    → UniqueIds (rows ++ (job ∷ []))
UniqueIds-append [] job u a = (tt, tt)
UniqueIds-append (j ∷ js) job u a =
    (All-append (λ k. j.id ≢ k.id) js (job ∷ []) u.0 (a.0, tt), UniqueIds-append js job u.1 a.1)

find?-append :
    (rows : List Job) (job : Job)
    → All (λ k. str_eq k.id job.id ≡ false) rows
    → find_by_id none job.id (rows ++ (job ∷ [])) ≡ some job
unfolding find_by_id
find?-append [] job a = rw ((eq_iff job.id job.id).1 refl) refl
find?-append (j ∷ js) job a = rw a.0 (find?-append js job a.1)

-- An accepted job is of a repository that is approved, it is found by its id afterwards, and the ids
-- stay distinct.
pub enqueue_outcome :
    (is_approved : String → Bool) (job : Job) (rows rows' : List Job)
    → UniqueIds rows
    → enqueue is_approved job rows ≡ ok rows'
    → (is_approved job.repo_id ≡ true) × (find_by_id none job.id rows' ≡ some job) × UniqueIds rows'
unfolding enqueue
enqueue_outcome is_approved job rows rows' u e =
    elim (Option-cases (find? (λ r. str_eq r.id job.id) rows)) [
      | inl fresh ↦
          let differ = find?-none (λ r. str_eq r.id job.id) rows fresh in
          let approved : is_approved job.repo_id ≡ true = ground (arith, e, fresh) in
          let table : rows' ≡ rows ++ (job ∷ []) = ground (arith, e, fresh) in
          (
            approved,
            rw table (find?-append rows job differ),
            rw table (
                UniqueIds-append rows job u (
                  All-map (λ k. str_eq k.id job.id ≡ false) (λ k. k.id ≢ job.id)
                    (λ k ne. ground (arith, ne, eq_iff k.id job.id)) rows differ)),
          )
      | inr (other, taken) ↦ ground (arith, e, taken)
    ]
