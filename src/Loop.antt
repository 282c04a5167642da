-- ===== src/Loop.antt =====
-- packages/domain/src/loop.ts: bounded review-and-fix loops. Numbers are naturals, so the test
-- `Number.isInteger` holds of them and is not written; a `Date` is its number of milliseconds.
pub mod Bounds
mod Tests
use automation.Prelude.{
  ℕ, ◌+◌, String, Bool, true, false, not, ◌&&◌, Option, none, some, List, [], ◌∷◌, ◌++◌, Result, ok,
  err, ◌>>=◌, ◌>>◌, throw_if, is_some, is_none, or_else, ltb, leb, length, if◌then◌else◌,
}

pub data LoopType : Type 0 where
  review_fix implement_step validate_fix plan_review : LoopType

pub data LoopStatus : Type 0 where
  running converged converged_with_notes exhausted failed : LoopStatus

pub data LoopIterationOutcome : Type 0 where
  resolved fixed unresolved failed fix_failed revalidation_failed : LoopIterationOutcome

pub data LoopIterationKind : Type 0 where
  review deterministic_fix : LoopIterationKind

pub record LoopIteration : Type 0 where
  pub index : ℕ
  pub kind : Option LoopIterationKind
  pub review_invocation_id : Option String
  pub quality_review_invocation_id : Option String
  pub fix_invocation_id : Option String
  pub revalidation_id : Option String
  pub outcome : Option LoopIterationOutcome
  pub started_at : ℕ
  pub completed_at : Option ℕ

pub record Loop : Type 0 where
  pub id : String
  pub run_id : String
  pub phase_id : String
  pub loop_type : LoopType
  pub max_iterations : ℕ
  pub iterations : List LoopIteration
  pub status : LoopStatus
  pub started_at : ℕ
  pub completed_at : Option ℕ

pub data LoopStateError : Type 0 where
  bad_max_iterations : ℕ → LoopStateError
  not_running : LoopStatus → LoopStateError
  has_open_iteration no_open_iteration : LoopStateError
  reached_max : ℕ → LoopStateError

pub record CreateLoopInput : Type 0 where
  pub id : String
  pub run_id : String
  pub phase_id : String
  pub loop_type : LoopType
  pub max_iterations : ℕ
  pub now : ℕ

unfoldable pub create_loop : CreateLoopInput → Result LoopStateError Loop
create_loop input = do
  throw_if (ltb input.max_iterations 1) (bad_max_iterations input.max_iterations)
  ok (record {
    id = input.id;
    run_id = input.run_id;
    phase_id = input.phase_id;
    loop_type = input.loop_type;
    max_iterations = input.max_iterations;
    iterations = [];
    status = LoopStatus.running;
    started_at = input.now;
    completed_at = none;
  })

abbrev pub is_running : LoopStatus → Bool
is_running LoopStatus.running = true
is_running _ = false

unfoldable pub can_iterate : Loop → Bool
can_iterate loop = is_running loop.status && ltb (length loop.iterations) loop.max_iterations

-- The last iteration, if it is not completed.
abbrev pub open_of : List LoopIteration → Option LoopIteration
open_of [] = none
open_of (x ∷ []) = if is_none x.completed_at then some x else none
open_of (x ∷ y ∷ xs) = open_of (y ∷ xs)

unfoldable pub open_iteration : Loop → Option LoopIteration
open_iteration loop = open_of loop.iterations

-- The two forms of the input: a review (with `kind` left out or not), or a deterministic fix.
pub data StartInput : Type 0 where
  a_review a_fix : String → ℕ → StartInput

-- The iteration that `startIteration` appends.
abbrev pub new_iteration : ℕ → StartInput → LoopIteration
new_iteration index (a_review id now) = record {
  index = index;
  kind = some review;
  review_invocation_id = some id;
  quality_review_invocation_id = none;
  fix_invocation_id = none;
  revalidation_id = none;
  outcome = none;
  started_at = now;
  completed_at = none;
}
new_iteration index (a_fix id now) = record {
  index = index;
  kind = some deterministic_fix;
  review_invocation_id = none;
  quality_review_invocation_id = none;
  fix_invocation_id = some id;
  revalidation_id = none;
  outcome = none;
  started_at = now;
  completed_at = none;
}

unfoldable pub start_iteration : Loop → StartInput → Result LoopStateError Loop
unfolding open_iteration
start_iteration loop input = do
  throw_if (not (is_running loop.status)) (not_running loop.status)
  throw_if (is_some (open_iteration loop)) has_open_iteration
  throw_if (leb loop.max_iterations (length loop.iterations)) (reached_max loop.max_iterations)
  ok (record loop {
    iterations = loop.iterations ++ new_iteration (length loop.iterations + 1) input ∷ [];
  })

pub record CompleteInput : Type 0 where
  pub outcome : LoopIterationOutcome
  pub fix_invocation_id : Option String
  pub revalidation_id : Option String
  pub now : ℕ

-- `[...xs.slice(0, -1), x]`.
abbrev pub replace_last : List LoopIteration → LoopIteration → List LoopIteration
replace_last [] u = u ∷ []
replace_last (x ∷ []) u = u ∷ []
replace_last (x ∷ y ∷ xs) u = x ∷ replace_last (y ∷ xs) u

abbrev pub status_after : LoopIterationOutcome → LoopStatus
status_after resolved = converged
status_after LoopIterationOutcome.failed = LoopStatus.failed
status_after _ = LoopStatus.running

-- The loop's own status is not read; its end is set when the new status is not `running`.
unfoldable pub complete_iteration : Loop → CompleteInput → Result LoopStateError Loop
unfolding open_iteration
complete_iteration loop input = elim (open_iteration loop) [
  | none ↦ err no_open_iteration
  | some last ↦
      let updated : LoopIteration = record last {
        outcome = some input.outcome;
        completed_at = some input.now;
        fix_invocation_id = or_else input.fix_invocation_id last.fix_invocation_id;
        revalidation_id = or_else input.revalidation_id last.revalidation_id;
      } in
      let status : LoopStatus = status_after input.outcome in
      ok (record loop {
        iterations = replace_last loop.iterations updated;
        status = status;
        completed_at = if is_running status then loop.completed_at else some input.now;
      })
]

unfoldable pub update_open_iteration : Loop → String → Result LoopStateError Loop
unfolding open_iteration
update_open_iteration loop quality_review_invocation_id = elim (open_iteration loop) [
  | none ↦ err no_open_iteration
  | some last ↦
      let updated : LoopIteration = record last {
        quality_review_invocation_id = some quality_review_invocation_id;
      } in
      ok (record loop { iterations = replace_last loop.iterations updated })
]

unfoldable pub exhaust : Loop → ℕ → Result LoopStateError Loop
exhaust loop now = do
  throw_if (not (is_running loop.status)) (not_running loop.status)
  ok (record loop { status = exhausted; completed_at = some now })
