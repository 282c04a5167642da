-- ===== src/Run/Ops.antt =====
-- The operations of packages/domain/src/run.ts as data, so that a history of a Run is a list. A
-- caller that catches the error of a rejected operation goes on with the old value.
use automation.Prelude.{ℕ, String, Option, List, [], ◌∷◌, Result, ok, err}
use automation.Run.{
  Run, RunStateError, start_phase, complete_phase, skip_phase, pass_run, fail_run, block_run,
  mark_run_needs_human_review, cancel_run, transition_to_ready, reactivate, resume_run,
}

pub data RunOp : Type 0 where
  start complete skip : String → RunOp
  pass : ℕ → RunOp
  fail block mark_review : String → ℕ → RunOp
  cancel : Option String → ℕ → RunOp
  make_ready wake : RunOp
  resume : Option String → Option String → RunOp

unfoldable pub apply : RunOp → Run → Result RunStateError Run
unfolding start_phase complete_phase skip_phase pass_run fail_run block_run
    mark_run_needs_human_review cancel_run transition_to_ready reactivate resume_run
apply (start phase) run = start_phase run phase
apply (complete phase) run = complete_phase run phase
apply (skip phase) run = skip_phase run phase
apply (pass at) run = pass_run run at
apply (fail reason at) run = fail_run run reason at
apply (block reason at) run = block_run run reason at
apply (mark_review reason at) run = mark_run_needs_human_review run reason at
apply (cancel reason at) run = cancel_run run reason at
apply make_ready run = transition_to_ready run
apply wake run = reactivate run
apply (resume phase pin) run = resume_run run phase pin

abbrev pub keep : Run → Result RunStateError Run → Run
keep old (ok new) = new
keep old (err e) = old

unfoldable pub apply_all : List RunOp → Run → Run
apply_all [] run = run
apply_all (op ∷ ops) run = apply_all ops (keep run (apply op run))
