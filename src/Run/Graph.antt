-- ===== src/Run/Graph.antt =====
-- The status diagram of a Run, which run.ts holds only in the guards of its operations.
use automation.Prelude.{◌≡◌, true, false, arith, ok}
use automation.Run.{
  RunStatus, running, waiting, failed, cancelled, blocked, needs_human_review, Run, is_terminal,
}
use automation.Run.Ops.{RunOp, start, apply}

-- The statuses that `resumeRun` accepts.
pub data Resumes : RunStatus → Type 0 where
  from_failed : Resumes failed
  from_blocked : Resumes blocked
  from_review : Resumes needs_human_review
  from_cancelled : Resumes cancelled

pub data Edge : RunStatus → RunStatus → Type 0 where
  stay : {s : RunStatus} → Edge s s
  finish : {s t : RunStatus} → is_terminal s ≡ false → is_terminal t ≡ true → Edge s t
  stop : {s : RunStatus} → is_terminal s ≡ false → Edge s blocked
  ask : {s : RunStatus} → is_terminal s ≡ false → Edge s needs_human_review
  ready : Edge running waiting
  awake : Edge waiting running
  again : {s : RunStatus} → Resumes s → Edge s running

ruleset edges = (stay, finish, stop, ask, ready, awake, again)

ruleset resumes = (from_failed, from_blocked, from_review, from_cancelled)

-- Every accepted operation follows an edge of the status diagram: a run ends (passed, failed,
-- cancelled), is blocked or handed to a human only from a status that is not terminal, waits only
-- from running, wakes only from waiting, and runs again only from a resumable status.
pub apply-Edge : (op : RunOp) (r r' : Run) → apply op r ≡ ok r' → Edge r.status r'.status
unfolding apply
apply-Edge (start phase) r r' h = grind (arith, edges, resumes)
apply-Edge op r r' h = grind (arith, edges, resumes)
