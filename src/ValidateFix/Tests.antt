-- ===== src/ValidateFix/Tests.antt =====
-- A world that counts the calls of its ports, and the theorems on a fix loop there.
use automation.Prelude.{
  ℕ, suc, ◌≡◌, ◌≢◌, refl, true, none, some, [], Result, ok, leb, length, arith, ◌==◌, if◌then◌else◌,
}
use automation.Loop.{
  LoopStatus, LoopType, LoopStateError, create_loop, start_iteration, complete_iteration,
  can_iterate, exhaust, open_iteration,
}
use automation.ValidateFix.{
  ValidateFixLoopDeps, ValidateFixLoopInput, fixed, cannot_fix, ManifestLoadResult, missing, State,
  Call, close, rollback,
}
use automation.ValidateFix.Boundary.{check_boundary}
use automation.ValidateFix.Rounds.{
  unless_stuck, after_failed_revalidation, after_fixed, after_verdict, after_check, after_start,
  round, passed, Ended, returned, finish, run_rounds, start_rounds, execute, first_state,
}
use automation.ValidateFix.Steps.{Revalidated}
use automation.ValidateFix.Ends.{Returns, execute-Returns, execute-Revalidated, execute-stored}

-- The first fix fails its revalidation, and the third is one that the agent cannot make.
abbrev deps : ValidateFixLoopDeps ℕ
deps = record {
  run_fix = λ ctx opts w. (
    suc w,
    ok (record {
      invocation_id = "i";
      succeeded = true;
      verdict = if ctx.iteration_index == 2 then some cannot_fix else some fixed;
      head_before_fix = some "a";
    }),
  );
  run_revalidation = λ ctx w. (suc w, ok (record { validation_run_id = "v"; passed = leb 4 w }));
  rollback_fix = some (λ ctx head w. (suc w, ok true));
  git = none;
  now = λ w. w;
  id_factory = λ w. "l";
  uncommitted_source_paths = λ text. [];
}

abbrev input : ValidateFixLoopInput
input = record {
  run_id = "u";
  phase_id = "validate";
  repo_id = "repo";
  cwd = "/w";
  max_iterations = 3;
  fix_fallback_profile = none;
}

abbrev load : Call ℕ ManifestLoadResult
load w = (w, ok missing)

abbrev state_of : State ℕ → Result LoopStateError (Ended ℕ) → State ℕ
state_of other (ok (returned outcome s)) = s
state_of other _ = other

-- A state that no result is.
abbrev no_state : State ℕ
no_state = first_state 0 (record {
  id = "";
  run_id = "";
  phase_id = "";
  loop_type = LoopType.validate_fix;
  max_iterations = 0;
  iterations = [];
  status = LoopStatus.running;
  started_at = 0;
  completed_at = none;
})

abbrev last : State ℕ
last = state_of no_state (execute deps input load 0)

third_passes :
    (execute deps input load 0 ≡ ok (returned passed last))
    × (length last.loop.iterations ≡ 3)
    × (last.world ≡ 6)
unfolding execute create_loop start_rounds run_rounds can_iterate round start_iteration
    open_iteration after_start check_boundary after_check after_verdict after_fixed
    after_failed_revalidation rollback unless_stuck close complete_iteration finish exhaust
third_passes = (refl, refl, refl)

execute-Returns_example : Returns input (execute deps input load 0)
execute-Returns_example = execute-Returns deps input load 0 (omega arith)

execute-Revalidated_example :
    (last.loop.status ≡ LoopStatus.converged) × Revalidated deps last.world
execute-Revalidated_example =
    execute-Revalidated deps input load 0 last (omega arith) third_passes.0

execute-stored_example : (last.stored ≡ some last.loop) × (last.loop.status ≢ LoopStatus.running)
execute-stored_example = execute-stored deps input load 0 passed last (omega arith) third_passes.0
