-- ===== src/Scheduler.antt =====
-- packages/application/src/fair-repository-scheduler.ts: admission of dispatches under a global
-- limit and a limit per repository. `scheduleOnce` runs without interruption between its `await`s;
-- each such piece is a function on the scheduler's state, and `Scheduler.World` interleaves
-- them. The port that inspects a repository, the factory of worker ids and the order of texts are
-- arguments. The telemetry records, which change no state, the reason of a stop, the promises, the
-- abort signals and the timers are left out.
pub mod World
pub mod Rounds
pub mod Capacity
pub mod Order
pub mod Cursor
pub mod Sequence
mod Tests
use automation.Prelude.{
  ℕ, zero, suc, ◌+◌, ◌-◌, String, str_eq, Bool, true, false, not, ◌&&◌, ◌||◌, Option, none, some,
  List, [], ◌∷◌, ◌++◌, leb, ltb, ◌==◌, if◌then◌else◌, length, includes_nat, get_or,
}
use Prim.Native.Nat.{min, max, ◌%◌}

-- The field `maxConcurrentRuns: 1` of a Repository.
abbrev pub max_concurrent_runs : ℕ
max_concurrent_runs = 1

pub record Reservation : Type 0 where
  pub repo_id : String
  pub worker_id : String
  pub seq : ℕ

-- The map `inFlight` is the list of its values, each under its own `workerId`.
pub record Scheduler : Type 0 where
  pub cursor_id : Option String
  pub in_flight : List Reservation
  pub claimed_slots : ℕ
  pub stopped : Bool

unfoldable pub new_scheduler : Scheduler
new_scheduler = record { cursor_id = none; in_flight = []; claimed_slots = 0; stopped = false }

-- What `inspectRepository` returns: not available, or the depth of the queue and the active count.
pub data Inspection : Type 0 where
  unavailable : Inspection
  available : ℕ → ℕ → Inspection

unfoldable pub count_reserved_for_repo : String → List Reservation → ℕ
count_reserved_for_repo repo [] = 0
count_reserved_for_repo repo (r ∷ rs) =
    let rest = count_reserved_for_repo repo rs in if str_eq r.repo_id repo then suc rest else rest

-- The set `usedSeqs`.
unfoldable pub used_seqs : String → List Reservation → List ℕ
used_seqs repo [] = []
used_seqs repo (r ∷ rs) =
    let rest = used_seqs repo rs in if str_eq r.repo_id repo then r.seq ∷ rest else rest

-- `while (usedSeqs.has(seq)) seq++`, on fuel.
unfoldable pub first_free : ℕ → ℕ → List ℕ → ℕ
first_free zero seq used = seq
first_free (suc fuel) seq used =
    let rest = first_free fuel (suc seq) used in if includes_nat used seq then rest else seq

unfoldable pub get_next_seq : String → List Reservation → ℕ
unfolding used_seqs first_free
get_next_seq repo rs = let used = used_seqs repo rs in first_free (suc (length used)) 0 used

-- `inFlight.set(workerId, reservation)`.
unfoldable pub put_reservation : Reservation → List Reservation → List Reservation
put_reservation r [] = r ∷ []
put_reservation r (x ∷ xs) =
    if str_eq x.worker_id r.worker_id then r ∷ xs else x ∷ put_reservation r xs

-- `inFlight.delete(workerId)`.
unfoldable pub delete_reservation : String → List Reservation → List Reservation
delete_reservation worker [] = []
delete_reservation worker (x ∷ xs) =
    if str_eq x.worker_id worker then xs else x ∷ delete_reservation worker xs

-- `if (inFlight.size + claimedSlots >= globalConcurrency) break; claimedSlots++`.
unfoldable pub claim_slot : ℕ → Scheduler → Option Scheduler
claim_slot limit s =
    if leb limit (length s.in_flight + s.claimed_slots)
    then none
    else some (record s { claimed_slots = s.claimed_slots + 1 })

unfoldable pub release_claim : Scheduler → Scheduler
release_claim s = record s { claimed_slots = s.claimed_slots - 1 }

-- What a round of the loop has done with the slot that it claimed.
pub data Round : Type 0 where
  stop : Round
  skip : Round
  admit : String → Round

-- The commit: the slot stays claimed, and the reservation enters `inFlight`.
unfoldable pub commit : (String → ℕ → String) → String → Scheduler → Scheduler
unfolding get_next_seq put_reservation
commit worker_id_factory repo s =
    let seq = get_next_seq repo s.in_flight in
    let worker = worker_id_factory repo seq in
    record s {
      in_flight =
          put_reservation (record { repo_id = repo; worker_id = worker; seq = seq }) s.in_flight;
      cursor_id = some repo;
    }

-- The admission test of a repository that is available.
abbrev pub is_at_cap : ℕ → String → ℕ → Scheduler → Bool
is_at_cap limit repo active s =
    leb (min max_concurrent_runs limit) (max active (count_reserved_for_repo repo s.in_flight))

-- What follows the `await` of the inspection, in the code's order.
unfoldable pub after_inspection :
    ℕ → (String → ℕ → String) → String → Inspection → Scheduler → Round × Scheduler
unfolding release_claim
after_inspection limit factory repo unavailable s =
    if s.stopped then (stop, release_claim s) else (skip, release_claim s)
after_inspection limit factory repo (available depth active) s =
    if s.stopped
    then (stop, release_claim s)
    else if is_at_cap limit repo active s
    then (skip, release_claim s)
    else if depth == 0
    then (skip, release_claim s)
    else (admit repo, commit factory repo s)

-- `finally { this.claimedSlots -= committedByMe }`.
unfoldable pub finish_call : ℕ → Scheduler → Scheduler
finish_call committed s = record s { claimed_slots = s.claimed_slots - committed }

-- The `finally` of a dispatch.
unfoldable pub settle : String → Scheduler → Scheduler
unfolding delete_reservation
settle worker s = record s { in_flight = delete_reservation worker s.in_flight }

unfoldable pub stop_admission : Scheduler → Scheduler
stop_admission s = record s { stopped = true }

-- The loop of `scheduleOnce` over the repositories in the order of the visits, when nothing
-- happens at its `await`s: the state, the number committed and the repositories admitted.
unfoldable pub rounds :
    ℕ
    → (String → ℕ → String)
    → (String → Inspection)
    → List String
    → Scheduler
    → Scheduler × List String
unfolding claim_slot after_inspection commit
rounds limit factory inspect [] s = (s, [])
rounds limit factory inspect (repo ∷ repos) s = elim (claim_slot limit s) [
  | none ↦ (s, [])
  | some claimed ↦
      let (round, s') = after_inspection limit factory repo (inspect repo) claimed in
      elim round [
        | stop ↦ (s', [])
        | skip ↦ rounds limit factory inspect repos s'
        | admit id ↦ let rest = rounds limit factory inspect repos s' in (rest.0, id ∷ rest.1)
      ]
]

-- `sorted.findIndex(p)`, where no index stands for -1.
unfoldable pub find_index : (String → Bool) → List String → Option ℕ
find_index p [] = none
find_index p (x ∷ xs) =
    let rest = find_index p xs in
    if p x then some 0 else elim rest [ none ↦ none | some i ↦ some (suc i) ]

-- Where the visits start: after the last repository admitted, or, when it is not enabled any more,
-- at the first one that is greater.
unfoldable pub find_start_index : (String → String → Bool) → Option String → List String → ℕ
unfolding find_index
find_start_index gt none sorted = 0
find_start_index gt (some cursor) sorted = elim (find_index (λ id. str_eq id cursor) sorted) [
  | some index ↦ (index + 1) % length sorted
  | none ↦ get_or (find_index (λ id. gt id cursor) sorted) 0
]

unfoldable pub element : List String → ℕ → Option String
element [] i = none
element (x ∷ xs) zero = some x
element (x ∷ xs) (suc i) = element xs i

-- The repositories `sorted[(startIndex + i) % sorted.length]` from the given `i` on.
unfoldable pub visits_from : List String → ℕ → ℕ → ℕ → List String
unfolding element
visits_from sorted start i zero = []
visits_from sorted start i (suc left) =
    let rest = visits_from sorted start (suc i) left in
    elim (element sorted ((start + i) % length sorted)) [ none ↦ rest | some repo ↦ repo ∷ rest ]

unfoldable pub visits : List String → ℕ → List String
unfolding visits_from
visits sorted start = visits_from sorted start 0 (length sorted)

-- `scheduleOnce` over the enabled repositories, sorted by id, when nothing happens at its `await`s.
unfoldable pub schedule_once :
    (String → String → Bool)
    → ℕ
    → (String → ℕ → String)
    → (String → Inspection)
    → List String
    → Scheduler
    → Scheduler × List String
unfolding rounds finish_call find_start_index visits
schedule_once gt limit factory inspect sorted s =
    let r =
      rounds limit factory inspect (visits sorted (find_start_index gt s.cursor_id sorted)) s in
    if s.stopped then (s, []) else (finish_call (length r.1) r.0, r.1)
