-- ===== src/Scheduler/Tests.antt =====
-- Three repositories under limits of two and three dispatches, and the theorems on the scheduler there.
use automation.Prelude.{
  ℕ, ◌≤◌, ◌≡◌, ◌≢◌, ◌⊎◌, All, Memᴰ, refl, String, str_eq, Bool, true, false, some, List, [], ◌∷◌,
  ◌||◌,
}
use automation.Scheduler.{
  Scheduler, Reservation, Inspection, available, new_scheduler, find_index, find_start_index,
  element, visits_from, visits, rounds, schedule_once, claim_slot, after_inspection, commit,
  get_next_seq, used_seqs, first_free, put_reservation, finish_call, count_reserved_for_repo,
  stop_admission, settle,
}
use automation.Scheduler.World.{
  Call, World, fresh_world, begin, claim, inspected, settled, Reach, here, next,
}
use automation.Scheduler.Capacity.{CapacityInv, Reach-CapacityInv, stop_admission-final}
use automation.Scheduler.Order.{last_admitted_last}
use automation.Scheduler.Sequence.{get_next_seq-least_free}

-- The order of texts, on the ids that are used here.
abbrev greater : String → String → Bool
greater x y = str_eq x "c" || str_eq y "a"

abbrev worker : String → ℕ → String
worker repo seq = repo

abbrev everywhere_work : String → Inspection
everywhere_work repo = available 3 0

abbrev enabled : List String
enabled = "a" ∷ "b" ∷ "c" ∷ []

abbrev after_a : Scheduler
after_a = record new_scheduler { cursor_id = some "a" }

-- A call admits from the cursor on; until it ends, a slot that it committed counts besides the
-- dispatch in flight, so that two admissions take four of the slots.
schedule_once_two :
    (schedule_once greater 3 worker everywhere_work enabled after_a).1 ≡ "b" ∷ "c" ∷ []
unfolding schedule_once visits find_start_index find_index element visits_from rounds claim_slot
    after_inspection commit get_next_seq put_reservation used_seqs first_free new_scheduler
    finish_call count_reserved_for_repo
schedule_once_two = refl

last_admitted_last_example :
    visits enabled (
      find_start_index greater
        (schedule_once greater 3 worker everywhere_work enabled after_a).0.cursor_id
        enabled)
    ≡ "a" ∷ "b" ∷ "c" ∷ []
last_admitted_last_example =
    last_admitted_last greater 3 worker everywhere_work enabled after_a ("b" ∷ []) "c"
      ("a" ∷ "b" ∷ []) [] schedule_once_two refl

abbrev reserved : List Reservation
reserved =
    record { repo_id = "a"; worker_id = "a0"; seq = 0 }
    ∷ record { repo_id = "b"; worker_id = "b1"; seq = 1 }
    ∷ record { repo_id = "a"; worker_id = "a1"; seq = 1 }
    ∷ []

get_next_seq_two : get_next_seq "a" reserved ≡ 2
unfolding get_next_seq used_seqs first_free
get_next_seq_two = refl

get_next_seq-least_free_example :
    All (λ r. (r.repo_id ≢ "a") ⊎ (r.seq ≢ get_next_seq "a" reserved)) reserved
    × ((get_next_seq "a" reserved ≤ 1)
        ⊎ ((r : Reservation) × Memᴰ r reserved × (r.repo_id ≡ "a") × (r.seq ≡ 1)))
get_next_seq-least_free_example = get_next_seq-least_free "a" reserved 1

abbrev idle_call : Call
idle_call = record { committed = 0; pending = false }

-- Two calls are under way, and the first has admitted a repository.
abbrev claimed : Scheduler
claimed = record new_scheduler { claimed_slots = 1 }

abbrev one_admitted : World
one_admitted = record {
  scheduler = commit worker "a" claimed;
  calls = record { committed = 1; pending = false } ∷ idle_call ∷ [];
}

reached : Reach 2 worker fresh_world one_admitted
unfolding claim_slot after_inspection new_scheduler count_reserved_for_repo
reached =
    next
      (next (next (next here begin) begin)
        (claim [] (idle_call ∷ []) idle_call claimed _ refl refl refl refl))
      (inspected [] (idle_call ∷ []) (record { committed = 0; pending = true }) "a" (available 3 0)
        _ refl refl refl)

Reach-CapacityInv_example : CapacityInv 2 one_admitted
Reach-CapacityInv_example = Reach-CapacityInv 2 worker one_admitted reached

abbrev halted_world : World
halted_world = record one_admitted { scheduler = stop_admission one_admitted.scheduler }

abbrev settled_world : World
settled_world = record halted_world { scheduler = settle "a" halted_world.scheduler }

stop_admission-final_example :
    (settled_world.scheduler.stopped ≡ true)
    × (count_reserved_for_repo "a" settled_world.scheduler.in_flight
        ≤ count_reserved_for_repo "a" halted_world.scheduler.in_flight)
unfolding stop_admission settle
stop_admission-final_example =
    stop_admission-final 2 worker halted_world settled_world "a" refl (next here (settled "a"))
