-- ===== src/Run/Tests.antt =====
-- A run from its start to its end, and the theorems on runs at such inputs.
use automation.Prelude.{◌≡◌, refl, none, some, List, [], ◌∷◌, ok, ◌>>=◌}
use automation.Run.{
  Run, CreateRunInput, running, passed, issue_to_pr, create_run, fail_run, block_run, cancel_run,
  resume_run, is_pinned_runtime,
}
use automation.Run.Ops.{RunOp, start, complete, skip, pass, fail, resume, apply, apply_all}
use automation.Run.Graph.{Edge, apply-Edge}
use automation.Run.Invariant.{RunInv, create_run-RunInv}
use automation.Run.History.{apply_all-RunInv, Extends, apply_all-Extends, resume_run-restores}

abbrev input : CreateRunInput
input = record {
  uuid = "u1";
  display_id = "R-1";
  repo_id = "repo";
  issue_number = 7;
  started_at = 100;
  run_type = none;
  base_branch = none;
  execution_policy = none;
  pinned_runtime = some "codex";
}

abbrev fresh : Run
fresh = record {
  uuid = "u1";
  display_id = "R-1";
  repo_id = "repo";
  issue_number = 7;
  run_type = issue_to_pr;
  base_branch = none;
  execution_policy = none;
  pinned_runtime = some "codex";
  status = running;
  current_phase = none;
  completed_phases = [];
  skipped_phases = [];
  started_at = 100;
  completed_at = none;
  failure_reason = none;
}

fresh_created : create_run input ≡ ok fresh
unfolding create_run is_pinned_runtime
fresh_created = refl

fresh-RunInv : RunInv fresh
fresh-RunInv = create_run-RunInv input fresh fresh_created

abbrev story : List RunOp
story =
    start "plan-design"
    ∷ complete "plan-design"
    ∷ start "implement"
    ∷ fail "tests" 200
    ∷ resume (some "implement") none
    ∷ complete "implement"
    ∷ start "compound"
    ∷ skip "compound"
    ∷ pass 300
    ∷ []

abbrev planning : Run
planning = record fresh { current_phase = some "plan-design" }

abbrev done : Run
done = record fresh {
  status = passed;
  completed_phases = "plan-design" ∷ "implement" ∷ [];
  skipped_phases = "compound" ∷ [];
  completed_at = some 300;
}

story_told : apply_all story fresh ≡ done
unfolding apply_all apply is_pinned_runtime
story_told = refl

planning_reached : apply_all (start "plan-design" ∷ []) fresh ≡ planning
unfolding apply_all apply
planning_reached = refl

planning-RunInv : RunInv planning
planning-RunInv =
    rw planning_reached at (apply_all-RunInv (start "plan-design" ∷ []) fresh fresh-RunInv)

apply-Edge_example : Edge running running
apply-Edge_example = apply-Edge (start "plan-design") fresh planning (unfold apply in refl)

apply_all-RunInv_example : RunInv (apply_all story fresh)
apply_all-RunInv_example = apply_all-RunInv story fresh fresh-RunInv

apply_all-Extends_example : Extends fresh (apply_all story fresh)
apply_all-Extends_example = apply_all-Extends story fresh

resume_run-restores_example :
    ((fail_run planning "tests" 200 >>= λ s. resume_run s (some "plan-design") none) ≡ ok planning)
    × ((block_run planning "tests" 200 >>= λ s. resume_run s (some "plan-design") none)
        ≡ ok planning)
    × ((cancel_run planning none 200 >>= λ s. resume_run s (some "plan-design") none) ≡ ok planning)
resume_run-restores_example = resume_run-restores planning "tests" none 200 planning-RunInv refl
