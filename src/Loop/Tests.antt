-- ===== src/Loop/Tests.antt =====
-- A loop of two iterations, and the theorems on loops there.
use automation.Prelude.{◌≡◌, refl, false, none, some, List, [], ◌∷◌, ◌≤◌}
use automation.Loop.{
  Loop, LoopStatus, exhausted, converged, CreateLoopInput, CompleteInput, a_review, a_fix, fixed,
  resolved, review_fix, create_loop, can_iterate, new_iteration,
}
use automation.Loop.Bounds.{
  LoopOp, start, complete, apply, apply_all, LoopInv, create_loop-LoopInv, apply_all-LoopInv,
}

abbrev input : CreateLoopInput
input = record {
  id = "l1";
  run_id = "u1";
  phase_id = "fix-review";
  loop_type = review_fix;
  max_iterations = 2;
  now = 100;
}

abbrev empty_loop : Loop
empty_loop = record {
  id = "l1";
  run_id = "u1";
  phase_id = "fix-review";
  loop_type = review_fix;
  max_iterations = 2;
  iterations = [];
  status = LoopStatus.running;
  started_at = 100;
  completed_at = none;
}

create_loop-LoopInv_lem : LoopInv empty_loop × (1 ≤ empty_loop.max_iterations)
create_loop-LoopInv_lem = create_loop-LoopInv input empty_loop (unfold create_loop in refl)

abbrev fix_done : CompleteInput
fix_done = record {
  outcome = fixed;
  fix_invocation_id = some "f1";
  revalidation_id = none;
  now = 120;
}

abbrev all_done : CompleteInput
all_done = record {
  outcome = resolved;
  fix_invocation_id = none;
  revalidation_id = none;
  now = 140;
}

abbrev story : List LoopOp
story =
    start (a_review "r1" 110)
    ∷ start (a_review "r2" 111)
    ∷ complete fix_done
    ∷ start (a_fix "f2" 130)
    ∷ complete all_done
    ∷ start (a_review "r3" 150)
    ∷ []

story_told :
    let l = apply_all story empty_loop in
    (l.status ≡ converged) × (l.completed_at ≡ some 140) × (can_iterate l ≡ false)
unfolding apply_all apply can_iterate
story_told = (refl, refl, refl)

apply_all-LoopInv_example :
    LoopInv (apply_all story empty_loop) × ((apply_all story empty_loop).max_iterations ≡ 2)
apply_all-LoopInv_example = apply_all-LoopInv story empty_loop create_loop-LoopInv_lem.0

abbrev busy_loop : Loop
busy_loop = record empty_loop { iterations = new_iteration 1 (a_review "r1" 110) ∷ [] }

abbrev given_up : Loop
given_up = record busy_loop { status = exhausted; completed_at = some 115 }
