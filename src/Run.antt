-- ===== src/Run.antt =====
-- packages/domain/src/run.ts: a Run and the operations on it. An operation that throws returns
-- `err` with a constructor for each `throw`; the default arguments `at = new Date()` are arguments.
-- A `Date` is its number of milliseconds.
pub mod Ops
pub mod Graph
pub mod Invariant
pub mod History
mod Tests
use automation.Prelude.{
  ℕ, String, Bool, true, false, not, ◌||◌, ◌&&◌, Option, none, some, List, [], ◌∷◌, ◌++◌, includes,
  Result, ok, err, ◌>>=◌, ◌>>◌, throw_if, is_some, is_none, get_or, or_else, opt_is_str, truthy,
}

pub data RunStatus : Type 0 where
  queued running waiting passed failed cancelled blocked needs_human_review : RunStatus

pub data RunType : Type 0 where
  issue_to_pr pr_review consolidate : RunType

pub data ExecutionPolicy : Type 0 where
  legacy standard strict : ExecutionPolicy

abbrev pub pinned_runtimes : List String
pinned_runtimes = "claude-code" ∷ "antigravity" ∷ "codex" ∷ "opencode" ∷ []

unfoldable pub is_pinned_runtime : String → Bool
is_pinned_runtime val = includes pinned_runtimes val

-- `TERMINAL_STATUSES.has`.
abbrev pub is_terminal : RunStatus → Bool
is_terminal passed = true
is_terminal failed = true
is_terminal cancelled = true
is_terminal _ = false

abbrev pub is_running : RunStatus → Bool
is_running running = true
is_running _ = false

abbrev pub is_waiting : RunStatus → Bool
is_waiting waiting = true
is_waiting _ = false

pub record Run : Type 0 where
  pub uuid : String
  pub display_id : String
  pub repo_id : String
  pub issue_number : ℕ
  pub run_type : RunType
  pub base_branch : Option String
  pub execution_policy : Option ExecutionPolicy
  pub pinned_runtime : Option String
  pub status : RunStatus
  pub current_phase : Option String
  pub completed_phases : List String
  pub skipped_phases : List String
  pub started_at : ℕ
  pub completed_at : Option ℕ
  pub failure_reason : Option String

pub record CreateRunInput : Type 0 where
  pub uuid : String
  pub display_id : String
  pub repo_id : String
  pub issue_number : ℕ
  pub started_at : ℕ
  pub run_type : Option RunType
  pub base_branch : Option String
  pub execution_policy : Option ExecutionPolicy
  pub pinned_runtime : Option String

-- Why a `RunStateError` is thrown.
pub data RunStateError : Type 0 where
  invalid_pinned_runtime : Option String → RunStateError
  phase_set phase_unset : RunStateError
  other_phase : RunStateError
  already_recorded : RunStateError
  already_ended : RunStatus → RunStateError
  unexpected_status : RunStatus → RunStateError

-- `p !== undefined && !isPinnedRuntime(p)`.
abbrev pub bad_pin : Option String → Bool
bad_pin none = false
bad_pin (some p) = not (is_pinned_runtime p)

unfoldable pub create_run : CreateRunInput → Result RunStateError Run
create_run input = do
  throw_if (bad_pin input.pinned_runtime) (invalid_pinned_runtime input.pinned_runtime)
  ok (record {
    uuid = input.uuid;
    display_id = input.display_id;
    repo_id = input.repo_id;
    issue_number = input.issue_number;
    run_type = get_or input.run_type issue_to_pr;
    base_branch = input.base_branch;
    execution_policy = input.execution_policy;
    pinned_runtime = input.pinned_runtime;
    status = running;
    current_phase = none;
    completed_phases = [];
    skipped_phases = [];
    started_at = input.started_at;
    completed_at = none;
    failure_reason = none;
  })

unfoldable pub start_phase : Run → String → Result RunStateError Run
start_phase run phase = do
  throw_if (is_some run.current_phase) phase_set
  throw_if (is_terminal run.status) (already_ended run.status)
  ok (record run { current_phase = some phase })

unfoldable pub complete_phase : Run → String → Result RunStateError Run
complete_phase run phase = do
  throw_if (is_none run.current_phase) phase_unset
  throw_if (not (opt_is_str run.current_phase phase)) other_phase
  ok (record run { current_phase = none; completed_phases = run.completed_phases ++ phase ∷ [] })

unfoldable pub skip_phase : Run → String → Result RunStateError Run
skip_phase run phase = do
  throw_if (is_none run.current_phase) phase_unset
  throw_if (not (opt_is_str run.current_phase phase)) other_phase
  throw_if (includes run.completed_phases phase || includes run.skipped_phases phase)
      already_recorded
  ok (record run { current_phase = none; skipped_phases = run.skipped_phases ++ phase ∷ [] })

unfoldable pub pass_run : Run → ℕ → Result RunStateError Run
pass_run run at = do
  throw_if (is_some run.current_phase) phase_set
  throw_if (is_terminal run.status) (already_ended run.status)
  ok (record run { status = passed; completed_at = some at; current_phase = none })

unfoldable pub fail_run : Run → String → ℕ → Result RunStateError Run
fail_run run reason at = do
  throw_if (is_terminal run.status) (already_ended run.status)
  ok (record run {
    status = failed;
    completed_at = some at;
    failure_reason = some reason;
    current_phase = none;
  })

unfoldable pub block_run : Run → String → ℕ → Result RunStateError Run
block_run run reason at = do
  throw_if (is_terminal run.status) (already_ended run.status)
  ok (record run {
    status = blocked;
    completed_at = some at;
    failure_reason = some reason;
    current_phase = none;
  })

-- The current phase is kept.
unfoldable pub mark_run_needs_human_review : Run → String → ℕ → Result RunStateError Run
mark_run_needs_human_review run reason at = do
  throw_if (is_terminal run.status) (already_ended run.status)
  ok (record run {
    status = needs_human_review;
    completed_at = some at;
    failure_reason = some reason;
  })

-- `reason ? { failureReason: reason } : {}`: an empty reason is no reason.
abbrev pub reason_or : Option String → Option String → Option String
reason_or reason old = elim (truthy reason) [ true ↦ reason | false ↦ old ]

unfoldable pub cancel_run : Run → Option String → ℕ → Result RunStateError Run
cancel_run run reason at = do
  throw_if (is_terminal run.status) (already_ended run.status)
  ok (record run {
    status = cancelled;
    completed_at = some at;
    failure_reason = reason_or reason run.failure_reason;
    current_phase = none;
  })

unfoldable pub transition_to_ready : Run → Result RunStateError Run
transition_to_ready run = do
  throw_if (is_some run.current_phase) phase_set
  throw_if (is_terminal run.status) (already_ended run.status)
  throw_if (not (is_running run.status)) (unexpected_status run.status)
  ok (record run { status = waiting })

unfoldable pub reactivate : Run → Result RunStateError Run
reactivate run = do
  throw_if (is_some run.current_phase) phase_set
  throw_if (not (is_waiting run.status)) (unexpected_status run.status)
  ok (record run { status = running })

abbrev resumable : RunStatus → Bool
resumable failed = true
resumable blocked = true
resumable needs_human_review = true
resumable cancelled = true
resumable _ = false

unfoldable pub can_resume : Run → Bool
can_resume run = resumable run.status

-- The arguments are the run, the phase and the option `pinnedRuntime`.
unfoldable pub resume_run : Run → Option String → Option String → Result RunStateError Run
unfolding can_resume
resume_run run phase pin = do
  throw_if (not (can_resume run)) (unexpected_status run.status)
  throw_if (bad_pin pin) (invalid_pinned_runtime pin)
  ok (record run {
    status = running;
    completed_at = none;
    failure_reason = none;
    current_phase = phase;
    pinned_runtime = or_else pin run.pinned_runtime;
  })
