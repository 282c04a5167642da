-- ===== src/Lease/Tests.antt =====
-- Two workers on one repository, and the theorems on leases there.
use automation.Prelude.{
  ℕ, ◌+◌, ◌<◌, ◌≤◌, ◌≡◌, ◌≢◌, refl, String, none, some, List, [], ◌∷◌, arith, ok, err, ◌⊎◌, ltb,
  eq_iff,
}
use automation.Lease.{
  WorkerLease, Holder, AcquireLeaseInput, worker_lease_conflict, lease_ownership_lost, current,
  upsert, some_held, acquire, heartbeat, release, new_lease, check_active_lease,
}
use automation.Lease.Exclusion.{
  LeaseOp, take, renew, give_back, apply, apply_all, held_until_expiry, taken_over_fenced,
  acquire_outcome,
}

abbrev ask : String → String → ℕ → AcquireLeaseInput
ask worker run now = record {
  repo_id = "repo";
  worker_id = worker;
  run_id = run;
  now = now;
  ttl_ms = 60;
}

abbrev first : WorkerLease
first = new_lease (ask "w1" "u1" 100) "aa"

abbrev second : WorkerLease
second = new_lease (ask "w2" "u2" 160) "bb"

abbrev first_holder : Holder
first_holder = record { repo_id = "repo"; worker_id = "w1"; run_id = "u1"; lease_token = "aa" }

abbrev second_holder : Holder
second_holder = record { repo_id = "repo"; worker_id = "w2"; run_id = "u2"; lease_token = "bb" }

abbrev attempts : List LeaseOp
attempts =
    take (ask "w2" "u2" 120) "bb"
    ∷ renew second_holder 130 300
    ∷ give_back second_holder
    ∷ take (ask "w1" "u9" 159) "cc"
    ∷ []

attempts_refused : apply_all attempts (first ∷ []) ≡ first ∷ []
unfolding apply_all apply current some_held
attempts_refused = refl

held_until_expiry_example : current "repo" (apply_all attempts (first ∷ [])) ≡ some first
unfolding current
held_until_expiry_example =
    held_until_expiry attempts (first ∷ []) first (refl, tt) refl (refl, (refl, (refl, (refl, tt))))

taken_over_fenced_example :
    (heartbeat first_holder 170 300 (second ∷ []) ≡ err (lease_ownership_lost "repo" "aa"))
    × (release first_holder (second ∷ []) ≡ err (lease_ownership_lost "repo" "aa"))
unfolding acquire current upsert
taken_over_fenced_example =
    taken_over_fenced (first ∷ []) (second ∷ []) (ask "w2" "u2" 160) "bb" first_holder 170 300
      (refl, tt) refl refl (ground (arith, eq_iff "bb" "aa"))

acquire_outcome_example :
    ((row : WorkerLease) × (current "repo" (first ∷ []) ≡ some row)
      × (159 < row.expires_at)
      × ((row.worker_id ≢ "w2") ⊎ (row.run_id ≢ "u2"))
      × (acquire (ask "w2" "u2" 159) "bb" (first ∷ [])
          ≡ err (worker_lease_conflict "repo" row.worker_id)))
    ⊎ ((rows' : List WorkerLease) × (acquire (ask "w2" "u2" 159) "bb" (first ∷ []) ≡ ok rows')
        × ((current "repo" (first ∷ []) ≡ none)
            ⊎ ((row : WorkerLease) × (current "repo" (first ∷ []) ≡ some row)
                × ((row.expires_at ≤ 159) ⊎ ((row.worker_id ≡ "w2") × (row.run_id ≡ "u2")))))
        × (current "repo" rows'
            ≡ some (record {
              repo_id = "repo";
              worker_id = "w2";
              run_id = "u2";
              acquired_at = 159;
              heartbeat_at = 159;
              expires_at = 159 + 60;
              lease_token = "bb";
            }))
        × (check_active_lease "repo" 200 rows' ≡ ltb 200 (159 + 60))
        × (current "other" rows' ≡ current "other" (first ∷ [])))
acquire_outcome_example =
    acquire_outcome (ask "w2" "u2" 159) "bb" (first ∷ []) 200 "other"
      (ground (arith, eq_iff "other" "repo"))
