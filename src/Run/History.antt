-- ===== src/Run/History.antt =====
-- Histories of a Run: lists of operations, where a rejected operation leaves the Run as it was.
use automation.Prelude.{
  ℕ, String, ◌≡◌, sym, refl, Option, none, arith, eq_iff, ok, Result-cases, ◌>>=◌, List, [], ◌∷◌,
  ◌++◌, inl, inr,
}
use mathlib.Core.List.{append-nil, append_assoc}
use automation.Run.{
  running, passed, Run, can_resume, start_phase, complete_phase, fail_run, block_run, cancel_run,
  resume_run,
}
use automation.Run.Ops.{RunOp, start, complete, skip, apply, apply_all, keep}
use automation.Run.Invariant.{RunInv, apply-RunInv}

keep-RunInv : (op : RunOp) (r : Run) → RunInv r → RunInv (keep r (apply op r))
keep-RunInv op r i = elim (Result-cases (apply op r)) [
  | inl (r', h) ↦ rw h (apply-RunInv op r r' i h)
  | inr (e, h) ↦ rw h i
]

-- Whatever operations are tried on a run, in any order, the invariant holds afterwards.
pub apply_all-RunInv : (ops : List RunOp) (r : Run) → RunInv r → RunInv (apply_all ops r)
unfolding apply_all
apply_all-RunInv [] r i = i
apply_all-RunInv (op ∷ ops) r i = apply_all-RunInv ops (keep r (apply op r)) (keep-RunInv op r i)

keep_of_passed : (op : RunOp) (r : Run) → RunInv r → r.status ≡ passed → keep r (apply op r) ≡ r
unfolding apply can_resume
keep_of_passed (start phase) r i p = ground arith
keep_of_passed op r i p = ground arith

-- A passed run never changes again: every operation on it is rejected.
pub apply_all_of_passed :
    (ops : List RunOp) (r : Run) → RunInv r → r.status ≡ passed → apply_all ops r ≡ r
unfolding apply_all
apply_all_of_passed [] r i p = refl
apply_all_of_passed (op ∷ ops) r i p = rw (keep_of_passed op r i p) (apply_all_of_passed ops r i p)

-- What a run has recorded of its phases is kept, and only grows at the end.
pub record Extends (r r' : Run) : Type 0 where
  pub newly_completed : List String
  pub newly_skipped : List String
  pub completed : r'.completed_phases ≡ r.completed_phases ++ newly_completed
  pub skipped : r'.skipped_phases ≡ r.skipped_phases ++ newly_skipped
  pub same_run : (r'.uuid ≡ r.uuid) × (r'.repo_id ≡ r.repo_id) × (r'.issue_number ≡ r.issue_number)

Extends-refl : (r : Run) → Extends r r
Extends-refl r = record {
  newly_completed = [];
  newly_skipped = [];
  completed = sym (append-nil _);
  skipped = sym (append-nil _);
  same_run = (refl, refl, refl);
}

Extends-trans : (r s t : Run) → Extends r s → Extends s t → Extends r t
Extends-trans r s t h k = record {
  newly_completed = h.newly_completed ++ k.newly_completed;
  newly_skipped = h.newly_skipped ++ k.newly_skipped;
  completed =
      rw (k.completed, h.completed)
        (append_assoc r.completed_phases h.newly_completed k.newly_completed);
  skipped =
      rw (k.skipped, h.skipped) (append_assoc r.skipped_phases h.newly_skipped k.newly_skipped);
  same_run = ground arith;
}

apply-Extends : (op : RunOp) (r r' : Run) → apply op r ≡ ok r' → Extends r r'
unfolding apply
apply-Extends (complete phase) r r' h = record {
  newly_completed = phase ∷ [];
  newly_skipped = [];
  completed = ground arith;
  skipped = ground (arith, append-nil r.skipped_phases);
  same_run = ground arith;
}
apply-Extends (skip phase) r r' h = record {
  newly_completed = [];
  newly_skipped = phase ∷ [];
  completed = ground (arith, append-nil r.completed_phases);
  skipped = ground arith;
  same_run = ground arith;
}
apply-Extends op r r' h = record {
  newly_completed = [];
  newly_skipped = [];
  completed = ground (arith, append-nil r.completed_phases);
  skipped = ground (arith, append-nil r.skipped_phases);
  same_run = ground arith;
}

keep-Extends : (op : RunOp) (r : Run) → Extends r (keep r (apply op r))
keep-Extends op r = elim (Result-cases (apply op r)) [
  | inl (r', h) ↦ rw h (apply-Extends op r r' h)
  | inr (e, h) ↦ rw h (Extends-refl r)
]

-- No list of operations removes or reorders a recorded phase, or changes whose run it is: the
-- recorded phases, completed and skipped, are those of before with some added at the end.
pub apply_all-Extends : (ops : List RunOp) (r : Run) → Extends r (apply_all ops r)
unfolding apply_all
apply_all-Extends [] r = Extends-refl r
apply_all-Extends (op ∷ ops) r =
    let r' = keep r (apply op r) in
    Extends-trans r r' (apply_all ops r') (keep-Extends op r) (apply_all-Extends ops r')

-- Starting a phase and completing it records just that phase, and leaves the rest of the run.
pub complete_phase-start_phase :
    (r r' : Run) (phase : String)
    → start_phase r phase ≡ ok r'
    → complete_phase r' phase
      ≡ ok (record r { completed_phases = r.completed_phases ++ phase ∷ [] })
unfolding start_phase complete_phase
complete_phase-start_phase r r' phase h = ground (arith, eq_iff phase phase)

-- A retry loses nothing: a running run that is failed, blocked or cancelled, and then resumed at the
-- phase that it was in without a new runtime pin, is the run of before, field by field.
pub resume_run-restores :
    (r : Run) (reason : String) (why : Option String) (at : ℕ)
    → RunInv r
    → r.status ≡ running
    → ((fail_run r reason at >>= λ s. resume_run s r.current_phase none) ≡ ok r)
      × ((block_run r reason at >>= λ s. resume_run s r.current_phase none) ≡ ok r)
      × ((cancel_run r why at >>= λ s. resume_run s r.current_phase none) ≡ ok r)
unfolding fail_run block_run cancel_run resume_run
resume_run-restores r reason why at i h = (ground arith, ground arith, ground arith)
