-- ===== src/Scheduler/Capacity.antt =====
-- The limits on what is in flight, over every interleaving of calls of `scheduleOnce`, ends of
-- dispatches and stops: packages/application/src/fair-repository-scheduler.ts.
use automation.Prelude.{
  ℕ, ◌+◌, ◌≤◌, ◌≡◌, refl, ap, String, true, some, List, [], ◌∷◌, ◌++◌, arith, length,
}
use automation.Scheduler.{
  Scheduler, Inspection, unavailable, available, count_reserved_for_repo, claim_slot, release_claim,
  Round, stop, skip, admit, after_inspection, finish_call, settle, stop_admission, new_scheduler,
}
use automation.Scheduler.World.{
  Call, one_if, pending_of, held_of, World, fresh_world, after_round, Step, begin, claim, inspected,
  finish, settled, stopping, Reach, here, next,
}
use automation.Scheduler.Rounds.{
  length-delete_reservation, count-delete_reservation, round_facts, claim_slot_lem,
}

pub record CapacityInv (limit : ℕ) (w : World) : Type 0 where
  pub accounted : w.scheduler.claimed_slots ≡ held_of w.calls
  pub within : length w.scheduler.in_flight + pending_of w.calls ≤ limit
  pub one_each : (repo : String) → count_reserved_for_repo repo w.scheduler.in_flight ≤ 1

pending-le-held : (cs : List Call) → pending_of cs ≤ held_of cs
pending-le-held [] = omega arith
pending-le-held (c ∷ cs) = omega (arith, pending-le-held cs)

-- The call that runs, apart from the others.
pending_of-insert :
    (before later : List Call) (c : Call)
    → pending_of (before ++ (c ∷ later)) ≡ one_if c.pending + pending_of (before ++ later)
pending_of-insert [] later c = omega arith
pending_of-insert (b ∷ bs) later c = omega (arith, pending_of-insert bs later c)

held_of-insert :
    (before later : List Call) (c : Call)
    → held_of (before ++ (c ∷ later)) ≡ one_if c.pending + c.committed + held_of (before ++ later)
held_of-insert [] later c = omega arith
held_of-insert (b ∷ bs) later c = omega (arith, held_of-insert bs later c)

after_round_lem :
    (c : Call) (r : Round)
    → (one_if (after_round c r).pending ≡ 0)
      × ((after_round c r).committed
          ≡ c.committed + (after_round (record { committed = 0; pending = true }) r).committed)
after_round_lem c stop = (refl, omega arith)
after_round_lem c skip = (refl, omega arith)
after_round_lem c (admit id) = (refl, omega arith)

committed_le_one :
    (r : Round) → (after_round (record { committed = 0; pending = true }) r).committed ≤ 1
committed_le_one stop = omega arith
committed_le_one skip = omega arith
committed_le_one (admit id) = omega arith

call_parts :
    (calls before later : List Call) (c : Call)
    → calls ≡ before ++ (c ∷ later)
    → (pending_of calls ≡ one_if c.pending + pending_of (before ++ later))
      × (held_of calls ≡ one_if c.pending + c.committed + held_of (before ++ later))
call_parts calls before later c e =
    rw e (pending_of-insert before later c, held_of-insert before later c)

-- Each piece keeps the invariant.
Step-CapacityInv :
    (limit : ℕ) (factory : String → ℕ → String) (w w' : World)
    → Step limit factory w w'
    → CapacityInv limit w
    → CapacityInv limit w'
unfolding finish_call settle stop_admission
Step-CapacityInv limit factory w _ begin i = record {
  accounted = omega (arith, i.accounted);
  within = omega (arith, i.within);
  one_each = i.one_each;
}
Step-CapacityInv limit factory w _ (claim before later c s w' calls idle some_slot e) i =
    let (same, one_more, room) = claim_slot_lem limit w.scheduler s some_slot in
    let taken : Call = record c { pending = true } in
    let (p, h) = call_parts w.calls before later c calls in
    let none_pending = ap one_if idle in
    rw e (record {
      accounted =
          omega (arith, i.accounted, one_more, h, none_pending, held_of-insert before later taken);
      within = omega (
        arith,
        i.accounted,
        room,
        ap length same,
        p,
        none_pending,
        pending-le-held w.calls,
        pending_of-insert before later taken,
      );
      one_each = λ repo. rw (← same) at (i.one_each repo);
    })
Step-CapacityInv limit factory w _ (inspected before later c repo insp w' calls busy e) i =
    let r = after_inspection limit factory repo insp w.scheduler in
    let (p, h) = call_parts w.calls before later c calls in
    let one_pending = ap one_if busy in
    let (not_pending, commits) = after_round_lem c r.0 in
    let facts =
      round_facts limit factory repo insp w.scheduler
        (omega (arith, i.accounted, h, one_pending)) in
    rw e (record {
      accounted = omega (
        arith,
        i.accounted,
        facts.slots,
        h,
        one_pending,
        not_pending,
        commits,
        held_of-insert before later (after_round c r.0),
      );
      within = omega (
        arith,
        i.within,
        facts.size,
        committed_le_one r.0,
        p,
        one_pending,
        not_pending,
        pending_of-insert before later (after_round c r.0),
      );
      one_each = λ other. omega (arith, i.one_each other, facts.counts other);
    })
Step-CapacityInv limit factory w _ (finish before later c w' calls idle e) i =
    let (p, h) = call_parts w.calls before later c calls in
    let none_pending = ap one_if idle in
    rw e (record {
      accounted = omega (arith, i.accounted, h, none_pending);
      within = omega (arith, i.within, p, none_pending);
      one_each = i.one_each;
    })
Step-CapacityInv limit factory w _ (settled worker) i = record {
  accounted = i.accounted;
  within = omega (arith, i.within, length-delete_reservation worker w.scheduler.in_flight);
  one_each = λ repo.
      omega (arith, i.one_each repo, count-delete_reservation repo worker w.scheduler.in_flight);
}
Step-CapacityInv limit factory w _ stopping i = record {
  accounted = i.accounted;
  within = i.within;
  one_each = i.one_each;
}

new_scheduler-CapacityInv : (limit : ℕ) → CapacityInv limit fresh_world
unfolding new_scheduler count_reserved_for_repo
new_scheduler-CapacityInv limit = record {
  accounted = omega arith;
  within = omega arith;
  one_each = λ repo. omega arith;
}

Reach-CapacityInv_from :
    (limit : ℕ) (factory : String → ℕ → String) (w v : World)
    → Reach limit factory w v
    → CapacityInv limit w
    → CapacityInv limit v
Reach-CapacityInv_from limit factory w v here i = i
Reach-CapacityInv_from limit factory w v (next {v = u} r st) i =
    Step-CapacityInv limit factory u v st (Reach-CapacityInv_from limit factory w u r i)

claim_slot_keeps :
    (limit : ℕ) (s t : Scheduler)
    → claim_slot limit s ≡ some t
    → (t.in_flight ≡ s.in_flight) × (t.stopped ≡ s.stopped)
unfolding claim_slot
claim_slot_keeps limit s t e = (ground arith, ground arith)

after_inspection_stopped :
    (limit : ℕ) (factory : String → ℕ → String) (repo : String) (i : Inspection) (s : Scheduler)
    → s.stopped ≡ true
    → ((after_inspection limit factory repo i s).1.stopped ≡ s.stopped)
      × ((after_inspection limit factory repo i s).1.in_flight ≡ s.in_flight)
unfolding after_inspection release_claim
after_inspection_stopped limit factory repo unavailable s e = (ground arith, ground arith)
after_inspection_stopped limit factory repo (available depth active) s e =
    (ground arith, ground arith)

Step-stopped :
    (limit : ℕ) (factory : String → ℕ → String) (w w' : World) (repo : String)
    → Step limit factory w w'
    → w.scheduler.stopped ≡ true
    → (w'.scheduler.stopped ≡ true)
      × (count_reserved_for_repo repo w'.scheduler.in_flight
          ≤ count_reserved_for_repo repo w.scheduler.in_flight)
unfolding finish_call settle stop_admission release_claim
Step-stopped limit factory w _ repo begin e = (e, omega arith)
Step-stopped limit factory w _ repo (claim before later c s w' calls idle some_slot e) halted =
    let (same, live) = claim_slot_keeps limit w.scheduler s some_slot in
    rw e (rw live halted, rw same (omega arith))
Step-stopped limit factory w _ repo (inspected before later c r insp w' calls busy e) halted =
    let (same, kept) = after_inspection_stopped limit factory r insp w.scheduler halted in
    rw e (rw same halted, rw kept (omega arith))
Step-stopped limit factory w _ repo (finish before later c w' calls idle e) halted =
    rw e (halted, omega arith)
Step-stopped limit factory w _ repo (settled worker) halted =
    (halted, count-delete_reservation repo worker w.scheduler.in_flight)
Step-stopped limit factory w _ repo stopping halted = (refl, omega arith)

-- However calls of scheduleOnce, inspections, ends of dispatches and stops interleave from a new
-- scheduler: the dispatches in flight and the slots that calls hold for an inspection never exceed
-- globalConcurrency, no repository has two dispatches in flight, and claimedSlots is what the calls
-- under way hold, committed or not, so it is 0 once all of them have returned.
pub Reach-CapacityInv :
    (limit : ℕ) (factory : String → ℕ → String) (w : World)
    → Reach limit factory fresh_world w
    → CapacityInv limit w
Reach-CapacityInv limit factory w r =
    Reach-CapacityInv_from limit factory fresh_world w r (new_scheduler-CapacityInv limit)

-- After stopAdmission nothing is admitted any more, whatever calls are still under way: admission
-- stays stopped, and no repository has more in flight than it had.
pub stop_admission-final :
    (limit : ℕ) (factory : String → ℕ → String) (w v : World) (repo : String)
    → w.scheduler.stopped ≡ true
    → Reach limit factory w v
    → (v.scheduler.stopped ≡ true)
      × (count_reserved_for_repo repo v.scheduler.in_flight
          ≤ count_reserved_for_repo repo w.scheduler.in_flight)
stop_admission-final limit factory w v repo stopped here = (stopped, omega arith)
stop_admission-final limit factory w v repo stopped (next {v = v'} r st) =
    let (still, fewer) = stop_admission-final limit factory w v' repo stopped r in
    let (halted, least) = Step-stopped limit factory v' v repo st still in
    (halted, omega (arith, fewer, least))
