-- ===== src/Run/Invariant.antt =====
-- What holds of every Run between two operations.
use automation.Prelude.{◌≡◌, ◌≢◌, ◌⊎◌, true, false, none, arith, ok}
use automation.Run.{
  RunStatus, queued, running, waiting, failed, blocked, needs_human_review, Run, CreateRunInput,
  is_terminal, bad_pin, create_run,
}
use automation.Run.Ops.{RunOp, start, apply}

abbrev pub IsLive : RunStatus → Type 0
IsLive s = (s ≡ running) ⊎ (s ≡ waiting)

abbrev pub IsStopped : RunStatus → Type 0
IsStopped s = (s ≡ failed) ⊎ (s ≡ blocked) ⊎ (s ≡ needs_human_review)

pub record RunInv (r : Run) : Type 0 where
  pub ended_idle : is_terminal r.status ≡ true → r.current_phase ≡ none
  pub ended_dated : is_terminal r.status ≡ true → r.completed_at ≢ none
  pub live_undated : IsLive r.status → r.completed_at ≡ none
  pub live_reasonless : IsLive r.status → r.failure_reason ≡ none
  pub stopped_reason : IsStopped r.status → r.failure_reason ≢ none
  pub pin_known : bad_pin r.pinned_runtime ≡ false
  pub not_queued : r.status ≢ queued

-- A run that `createRun` returns satisfies the invariant.
pub create_run-RunInv : (input : CreateRunInput) (r : Run) → create_run input ≡ ok r → RunInv r
unfolding create_run
create_run-RunInv input r h = ground arith

-- Every operation that is accepted keeps the invariant.
pub apply-RunInv : (op : RunOp) (r r' : Run) → RunInv r → apply op r ≡ ok r' → RunInv r'
unfolding apply
apply-RunInv (start phase) r r' i h = ground arith
apply-RunInv op r r' i h = ground arith
