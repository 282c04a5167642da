-- ===== src/Scheduler/Sequence.antt =====
-- The sequence numbers of the worker ids: `getNextSeq` of
-- packages/application/src/fair-repository-scheduler.ts.
use automation.Prelude.{
  ℕ, zero, suc, ◌≤◌, ◌<◌, ◌≡◌, ◌≢◌, ◌⊎◌, ◌&&◌, refl, All, Memᴰ, eq_iff, str_eq, String, true, false,
  List, [], ◌∷◌, arith, ◌==◌, if◌then◌else◌, length, includes_nat, inl, inr, Bool-cases, leb,
}
use automation.Scheduler.{Reservation, used_seqs, first_free, get_next_seq}

-- How many of the numbers are at least the given one.
abbrev count_from : ℕ → List ℕ → ℕ
count_from seq [] = 0
count_from seq (x ∷ xs) = let rest = count_from seq xs in if leb seq x then suc rest else rest

count_from-le : (seq : ℕ) (xs : List ℕ) → count_from (suc seq) xs ≤ count_from seq xs
count_from-le seq [] = omega arith
count_from-le seq (x ∷ xs) = ground (arith, count_from-le seq xs)

count_from-lt :
    (seq : ℕ) (xs : List ℕ)
    → includes_nat xs seq ≡ true
    → count_from (suc seq) xs < count_from seq xs
count_from-lt seq [] e = ground arith
count_from-lt seq (x ∷ xs) e = elim (Bool-cases (x == seq)) [
  | inl here ↦ ground (arith, count_from-le seq xs)
  | inr later ↦ ground (arith, count_from-lt seq xs)
]

count_from-le-length : (seq : ℕ) (xs : List ℕ) → count_from seq xs ≤ length xs
count_from-le-length seq [] = omega arith
count_from-le-length seq (x ∷ xs) = ground (arith, count_from-le-length seq xs)

first_free_lem :
    (fuel seq : ℕ) (used : List ℕ)
    → count_from seq used < fuel
    → includes_nat used (first_free fuel seq used) ≡ false
unfolding first_free
first_free_lem zero seq used enough = ground arith
first_free_lem (suc fuel) seq used enough = elim (Bool-cases (includes_nat used seq)) [
  | inl taken ↦ ground (
    arith,
    first_free_lem fuel (suc seq) used (omega (arith, enough, count_from-lt seq used taken)),
  )
  | inr free ↦ ground arith
]

first_free-least :
    (fuel seq smaller : ℕ) (used : List ℕ)
    → seq ≤ smaller
    → smaller < first_free fuel seq used
    → includes_nat used smaller ≡ true
unfolding first_free
first_free-least zero seq smaller used above below = ground arith
first_free-least (suc fuel) seq smaller used above below =
    elim (Bool-cases (includes_nat used seq)) [
      | inl taken ↦ elim (Bool-cases (smaller == seq)) [
        | inl same ↦ let e : smaller ≡ seq = ground arith in rw e taken
        | inr greater ↦ first_free-least fuel (suc seq) smaller used (ground arith) (ground arith)
      ]
      | inr free ↦ ground arith
    ]

unused_seq :
    (repo : String) (seq : ℕ) (in_flight : List Reservation)
    → includes_nat (used_seqs repo in_flight) seq ≡ false
    → All (λ r. (r.repo_id ≢ repo) ⊎ (r.seq ≢ seq)) in_flight
unfolding used_seqs
unused_seq repo seq [] free = tt
unused_seq repo seq (r ∷ rs) free = elim (Bool-cases (str_eq r.repo_id repo)) [
  | inl own ↦ (inr (ground (arith, free, own)), unused_seq repo seq rs (ground (arith, free, own)))
  | inr foreign ↦ (
    inl (ground (arith, foreign, eq_iff r.repo_id repo)),
    unused_seq repo seq rs (ground (arith, free, foreign)),
  )
]

used_seq :
    (repo : String) (seq : ℕ) (in_flight : List Reservation)
    → includes_nat (used_seqs repo in_flight) seq ≡ true
    → (r : Reservation) × Memᴰ r in_flight × (r.repo_id ≡ repo) × (r.seq ≡ seq)
unfolding used_seqs
used_seq repo seq [] taken = ground (arith, taken)
used_seq repo seq (r ∷ rs) taken = elim (Bool-cases (str_eq r.repo_id repo && r.seq == seq)) [
  | inl here ↦
      (r, Memᴰ.head refl, ground (arith, here, eq_iff r.repo_id repo), ground (arith, here))
  | inr later ↦
      let (found, m, own, same) = used_seq repo seq rs (ground (arith, taken, later)) in
      (found, Memᴰ.tail m, own, same)
]

-- The sequence number of the next dispatch of a repository is that of none of its dispatches in
-- flight, and every smaller number is that of one of them: the search's fuel is enough, and it finds
-- the least one.
pub get_next_seq-least_free :
    (repo : String) (in_flight : List Reservation) (seq : ℕ)
    → All (λ r. (r.repo_id ≢ repo) ⊎ (r.seq ≢ get_next_seq repo in_flight)) in_flight
      × ((get_next_seq repo in_flight ≤ seq)
          ⊎ ((r : Reservation) × Memᴰ r in_flight × (r.repo_id ≡ repo) × (r.seq ≡ seq)))
unfolding get_next_seq
get_next_seq-least_free repo in_flight seq =
    let used = used_seqs repo in_flight in
    let fuel = suc (length used) in
    (
      unused_seq repo (first_free fuel 0 used) in_flight
          (first_free_lem fuel 0 used (omega (arith, count_from-le-length 0 used))),
      elim (Bool-cases (leb (first_free fuel 0 used) seq)) [
        | inl above ↦ inl (ground arith)
        | inr below ↦ inr (
            used_seq repo seq in_flight
              (first_free-least fuel 0 seq used (omega arith) (ground (arith, below))))
      ],
    )
