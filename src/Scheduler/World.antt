-- ===== src/Scheduler/World.antt =====
-- The interleavings of packages/application/src/fair-repository-scheduler.ts: calls of `scheduleOnce`,
-- ends of dispatches and stops, one uninterrupted piece of code at a time.
use automation.Prelude.{ℕ, ◌+◌, ◌≡◌, String, Bool, true, false, some, List, [], ◌∷◌, ◌++◌}
use automation.Scheduler.{
  Scheduler, Inspection, claim_slot, Round, admit, after_inspection, finish_call, settle,
  stop_admission, new_scheduler,
}

-- A call of `scheduleOnce` that is under way: how many slots it has committed, and whether it holds
-- one more that is not committed yet, across the `await` of an inspection.
pub record Call : Type 0 where
  pub committed : ℕ
  pub pending : Bool

abbrev pub one_if : Bool → ℕ
one_if true = 1
one_if false = 0

abbrev pub pending_of : List Call → ℕ
pending_of [] = 0
pending_of (c ∷ cs) = one_if c.pending + pending_of cs

abbrev pub held_of : List Call → ℕ
held_of [] = 0
held_of (c ∷ cs) = one_if c.pending + c.committed + held_of cs

pub record World : Type 0 where
  pub scheduler : Scheduler
  pub calls : List Call

-- The call after a round that it had claimed a slot for.
abbrev pub after_round : Call → Round → Call
after_round c (admit id) = record { committed = c.committed + 1; pending = false }
after_round c _ = record c { pending = false }

-- One atomic piece of the program. The call that runs stands anywhere among the calls under way.
pub data Step (limit : ℕ) (factory : String → ℕ → String) (w : World) : World → Type 0 where
  begin :
      Step limit factory w
        (record w { calls = record { committed = 0; pending = false } ∷ w.calls })
  claim :
      (before later : List Call) (c : Call) (s : Scheduler) (w' : World)
      → w.calls ≡ before ++ (c ∷ later)
      → c.pending ≡ false
      → claim_slot limit w.scheduler ≡ some s
      → w' ≡ record { scheduler = s; calls = before ++ (record c { pending = true } ∷ later) }
      → Step limit factory w w'
  inspected :
      (before later : List Call) (c : Call) (repo : String) (i : Inspection) (w' : World)
      → w.calls ≡ before ++ (c ∷ later)
      → c.pending ≡ true
      → w' ≡ record {
        scheduler = (after_inspection limit factory repo i w.scheduler).1;
        calls =
            before ++ (after_round c (after_inspection limit factory repo i w.scheduler).0 ∷ later);
      }
      → Step limit factory w w'
  finish :
      (before later : List Call) (c : Call) (w' : World)
      → w.calls ≡ before ++ (c ∷ later)
      → c.pending ≡ false
      → w' ≡ record { scheduler = finish_call c.committed w.scheduler; calls = before ++ later }
      → Step limit factory w w'
  settled :
      (worker : String) → Step limit factory w (record w { scheduler = settle worker w.scheduler })
  stopping : Step limit factory w (record w { scheduler = stop_admission w.scheduler })

pub data Reach (limit : ℕ) (factory : String → ℕ → String) (w : World) : World → Type 0 where
  here : Reach limit factory w w
  next : {v u : World} → Reach limit factory w v → Step limit factory v u → Reach limit factory w u

-- The program at its start: no call has begun.
abbrev pub fresh_world : World
fresh_world = record { scheduler = new_scheduler; calls = [] }
