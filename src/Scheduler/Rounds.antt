-- ===== src/Scheduler/Rounds.antt =====
-- What one round of `scheduleOnce` and the end of a dispatch do to the reservations and the slots:
-- packages/application/src/fair-repository-scheduler.ts.
use automation.Prelude.{
  ℕ, suc, ◌+◌, ◌≤◌, ◌<◌, ◌≡◌, refl, String, str_eq, eq_iff, true, false, some, List, [], ◌∷◌, arith,
  ◌==◌, if◌then◌else◌, length, ◌⊎◌, inl, inr, Bool-cases, ◌||◌,
}
use automation.Scheduler.{
  Reservation, Scheduler, Inspection, unavailable, available, count_reserved_for_repo,
  put_reservation, delete_reservation, claim_slot, release_claim, Round, stop, skip, admit, commit,
  after_inspection, get_next_seq, is_at_cap,
}
use automation.Scheduler.World.{after_round}

length-put_reservation :
    (r : Reservation) (xs : List Reservation) → length (put_reservation r xs) ≤ suc (length xs)
unfolding put_reservation
length-put_reservation r [] = omega arith
length-put_reservation r (x ∷ xs) = ground (arith, length-put_reservation r xs)

pub length-delete_reservation :
    (worker : String) (xs : List Reservation) → length (delete_reservation worker xs) ≤ length xs
unfolding delete_reservation
length-delete_reservation worker [] = omega arith
length-delete_reservation worker (x ∷ xs) = ground (arith, length-delete_reservation worker xs)

count-put_reservation :
    (repo : String) (r : Reservation) (xs : List Reservation)
    → count_reserved_for_repo repo (put_reservation r xs)
      ≤ (if str_eq r.repo_id repo then 1 else 0) + count_reserved_for_repo repo xs
unfolding count_reserved_for_repo put_reservation
count-put_reservation repo r [] = ground arith
count-put_reservation repo r (x ∷ xs) = ground (arith, count-put_reservation repo r xs)

pub count-delete_reservation :
    (repo worker : String) (xs : List Reservation)
    → count_reserved_for_repo repo (delete_reservation worker xs) ≤ count_reserved_for_repo repo xs
unfolding count_reserved_for_repo delete_reservation
count-delete_reservation repo worker [] = omega arith
count-delete_reservation repo worker (x ∷ xs) =
    ground (arith, count-delete_reservation repo worker xs)

-- What a round does to the accounts: the slot is released, or it is committed for a repository that
-- had nothing in flight, which then has one dispatch more.
pub record RoundFacts (factory : String → ℕ → String) (repo : String) (s : Scheduler)
    (r : Round × Scheduler) : Type 0 where
  pub slots :
      r.1.claimed_slots + 1
      ≡ s.claimed_slots + (after_round (record { committed = 0; pending = true }) r.0).committed
  pub size :
      length r.1.in_flight
      ≤ length s.in_flight + (after_round (record { committed = 0; pending = true }) r.0).committed
  pub counts :
      (other : String)
      → (count_reserved_for_repo other r.1.in_flight ≤ count_reserved_for_repo other s.in_flight)
        ⊎ (count_reserved_for_repo other r.1.in_flight ≤ 1)

committed_counts :
    (factory : String → ℕ → String) (repo other : String) (s : Scheduler)
    → count_reserved_for_repo repo s.in_flight ≡ 0
    → (count_reserved_for_repo other (commit factory repo s).in_flight
        ≤ count_reserved_for_repo other s.in_flight)
      ⊎ (count_reserved_for_repo other (commit factory repo s).in_flight ≤ 1)
unfolding commit
committed_counts factory repo other s z =
    let seq = get_next_seq repo s.in_flight in
    let r : Reservation = record { repo_id = repo; worker_id = factory repo seq; seq = seq } in
    elim (Bool-cases (str_eq repo other)) [
      | inl this ↦
          let e : repo ≡ other = (eq_iff repo other).0 this in
          inr (omega (arith, rw this at (count-put_reservation other r s.in_flight), rw e at z))
      | inr differs ↦ inl (omega (arith, rw differs at (count-put_reservation other r s.in_flight)))
    ]

pub commit_facts :
    (factory : String → ℕ → String) (repo : String) (s : Scheduler)
    → (length (commit factory repo s).in_flight ≤ suc (length s.in_flight))
      × ((commit factory repo s).claimed_slots ≡ s.claimed_slots)
unfolding commit
commit_facts factory repo s =
    let seq = get_next_seq repo s.in_flight in
    let r : Reservation = record { repo_id = repo; worker_id = factory repo seq; seq = seq } in
    (length-put_reservation r s.in_flight, refl)

-- A round either gives its slot back, or admits the repository: then admission has not been stopped,
-- the repository is available with work in its queue, and nothing of it is active or in flight.
pub after_inspection_outcome :
    (limit : ℕ) (factory : String → ℕ → String) (repo : String) (i : Inspection) (s : Scheduler)
    → ((after_inspection limit factory repo i s).1 ≡ release_claim s)
        × (((after_inspection limit factory repo i s).0 ≡ stop)
            ⊎ ((after_inspection limit factory repo i s).0 ≡ skip))
      ⊎ (after_inspection limit factory repo i s ≡ (admit repo, commit factory repo s))
        × (s.stopped ≡ false)
        × (count_reserved_for_repo repo s.in_flight ≡ 0)
        × ((depth : ℕ) × (i ≡ available depth 0) × (1 ≤ depth))
unfolding after_inspection
after_inspection_outcome limit factory repo unavailable s = elim (Bool-cases s.stopped) [
  | inl stopped ↦ inl (ground arith, inl (ground arith))
  | inr live ↦ inl (ground arith, inr (ground arith))
]
after_inspection_outcome limit factory repo (available depth active) s =
    elim (Bool-cases s.stopped) [
      | inl stopped ↦ inl (ground arith, inl (ground arith))
      | inr live ↦ elim (Bool-cases (is_at_cap limit repo active s || depth == 0)) [
        | inl refused ↦ inl (ground arith, inr (ground arith))
        | inr admitted ↦ inr (ground arith, live, ground arith, (depth, ground arith, ground arith))
      ]
    ]

-- A round that gives its slot back leaves the rest as it was.
released_facts :
    (factory : String → ℕ → String) (repo : String) (s : Scheduler) (r : Round)
    → (r ≡ stop) ⊎ (r ≡ skip)
    → 1 ≤ s.claimed_slots
    → RoundFacts factory repo s (r, release_claim s)
unfolding release_claim
released_facts factory repo s r (inl e) c =
    rw e
      (record { slots = omega (arith, c); size = omega arith; counts = λ other. inl (omega arith) })
released_facts factory repo s r (inr e) c =
    rw e
      (record { slots = omega (arith, c); size = omega arith; counts = λ other. inl (omega arith) })

pub round_facts :
    (limit : ℕ) (factory : String → ℕ → String) (repo : String) (i : Inspection) (s : Scheduler)
    → 1 ≤ s.claimed_slots
    → RoundFacts factory repo s (after_inspection limit factory repo i s)
round_facts limit factory repo i s c = elim (after_inspection_outcome limit factory repo i s) [
  | inl (released, refused) ↦
      let r = after_inspection limit factory repo i s in
      rw (← released) at (released_facts factory repo s r.0 refused c)
  | inr (admitted, live, idle, work) ↦ rw admitted (record {
    slots = ground (arith, commit_facts factory repo s);
    size = ground (arith, commit_facts factory repo s);
    counts = λ other. committed_counts factory repo other s idle;
  })
]

pub claim_slot_lem :
    (limit : ℕ) (s t : Scheduler)
    → claim_slot limit s ≡ some t
    → (t.in_flight ≡ s.in_flight)
      × (t.claimed_slots ≡ s.claimed_slots + 1)
      × (length s.in_flight + s.claimed_slots < limit)
unfolding claim_slot
claim_slot_lem limit s t e = (ground arith, ground arith, ground arith)
