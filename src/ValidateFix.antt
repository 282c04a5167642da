-- ===== src/ValidateFix.antt =====
-- packages/application/src/validate-fix/validate-fix-loop.ts and types.ts: the loop that lets an
-- agent fix what a validation found, over the loops of Loop. The ports are functions on the state of
-- everything outside, which they change, and each may throw; the clock and the ids are read off that
-- state. The store of loops is the loop last written; an event is its type.
pub mod Boundary
pub mod Rounds
pub mod Opened
pub mod Steps
pub mod Ends
mod Tests
use automation.Prelude.{
  ℕ, ◌+◌, String, Bool, true, false, Option, none, some, List, [], ◌∷◌, ◌++◌, Result, ok, err,
  truthy, is_some, ◌&&◌,
}
use automation.Loop.{Loop, LoopStateError, LoopIterationOutcome, CompleteInput, complete_iteration}

pub record ValidateFixLoopInput : Type 0 where
  pub run_id : String
  pub phase_id : String
  pub repo_id : String
  pub cwd : String
  pub max_iterations : ℕ
  pub fix_fallback_profile : Option String

pub record ValidateFixStepContext : Type 0 where
  pub loop_id : String
  pub run_id : String
  pub phase_id : String
  pub repo_id : String
  pub cwd : String
  pub iteration_index : ℕ

pub record FixStepOptions : Type 0 where
  pub use_fallback : Bool
  pub deterministic_diagnostic : Option String
  pub allowed_files : Option (List String)

pub data Verdict : Type 0 where
  fixed cannot_fix no_fixes_needed : Verdict

-- `succeeded` is `agentOutcome === 'success'`.
pub record ValidateFixAgentResult : Type 0 where
  pub invocation_id : String
  pub succeeded : Bool
  pub verdict : Option Verdict
  pub head_before_fix : Option String

pub record RevalidationResult : Type 0 where
  pub validation_run_id : String
  pub passed : Bool

-- The result of `loadManifest`: a found manifest is its writable files, sorted, and the function that
-- gives the files that violate it, in the way that the input enforces it.
pub data ManifestLoadResult : Type 0 where
  found : List String → (List String → List String) → ManifestLoadResult
  missing : ManifestLoadResult
  malformed : String → ManifestLoadResult

-- A call of a port: what it makes of the world, and what it returns or throws.
abbrev pub Call : Type 0 → Type 0 → Type 0
Call W A = W → W × Result String A

pub record GitPort (W : Type 0) : Type 0 where
  pub head_commit_sha : Call W String
  pub changed_files : String → String → Call W (List String)
  pub status : Call W String

pub record ValidateFixLoopDeps (W : Type 0) : Type 0 where
  pub run_fix : ValidateFixStepContext → FixStepOptions → Call W ValidateFixAgentResult
  pub run_revalidation : ValidateFixStepContext → Call W RevalidationResult
  pub rollback_fix : Option (ValidateFixStepContext → String → Call W Bool)
  pub git : Option (GitPort W)
  pub now : W → ℕ
  pub id_factory : W → String
  pub uncommitted_source_paths : String → List String

pub record State (W : Type 0) : Type 0 where
  pub world : W
  pub loop : Loop
  pub stored : Option Loop
  pub events : List String
  pub consecutive_fix_failures : ℕ
  pub next_deterministic_diagnostic : Option String

pub data Fault : Type 0 where
  state_error : LoopStateError → Fault
  port_error : String → Fault

-- How an iteration of the `while` ends: it goes on, breaks off, or throws.
pub data Step (W : Type 0) : Type 0 where
  go_on : State W → Step W
  break_off : State W → Step W
  throws : Fault → State W → Step W

abbrev pub emit : {W : Type 0} → String → State W → State W
emit event s = record s { events = s.events ++ event ∷ [] }

-- `loops.update(loop)`.
abbrev pub put_loop : {W : Type 0} → Loop → State W → State W
put_loop loop s = record s { loop = loop; stored = some loop }

abbrev pub next_step : {W : Type 0} → Bool → State W → Step W
next_step true s = go_on s
next_step false s = break_off s

-- `completeIteration`, `loops.update` and the event, and then `continue` if so told or `break`.
unfoldable pub close :
    {W : Type 0}
    → ValidateFixLoopDeps W
    → LoopIterationOutcome
    → ValidateFixAgentResult
    → Option String
    → Bool
    → State W
    → Step W
unfolding complete_iteration
close d outcome fix revalidation_id more s =
    elim (complete_iteration s.loop (record {
      outcome = outcome;
      fix_invocation_id = some fix.invocation_id;
      revalidation_id = revalidation_id;
      now = d.now s.world;
    })) [
      | err e ↦ throws (state_error e) s
      | ok loop ↦ next_step more (emit "loop.iteration.completed" (put_loop loop s))
    ]

-- `Boolean(fix.headBeforeFix && deps.rollbackFix)`.
abbrev pub could_rollback : {W : Type 0} → ValidateFixLoopDeps W → ValidateFixAgentResult → Bool
could_rollback d fix = truthy fix.head_before_fix && is_some d.rollback_fix

-- The rollback, if it can be done; otherwise as if it succeeded.
abbrev pub call_rollback :
    {W : Type 0}
    → Option (ValidateFixStepContext → String → Call W Bool)
    → Option String
    → ValidateFixStepContext
    → Call W Bool
call_rollback (some rollback) (some head) ctx w = rollback ctx head w
call_rollback _ _ ctx w = (w, ok true)

unfoldable pub rollback :
    {W : Type 0}
    → ValidateFixLoopDeps W
    → ValidateFixAgentResult
    → ValidateFixStepContext
    → Call W Bool
rollback d fix ctx w = elim (could_rollback d fix) [
  | true ↦ call_rollback d.rollback_fix fix.head_before_fix ctx w
  | false ↦ (w, ok true)
]
