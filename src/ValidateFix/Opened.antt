-- ===== src/ValidateFix/Opened.antt =====
-- Loops with an open iteration, and how an iteration of the fix loop ends:
-- packages/application/src/validate-fix/validate-fix-loop.ts and packages/domain/src/loop.ts.
use automation.Prelude.{
  ℕ, suc, if◌then◌else◌, ◌+◌, ◌≡◌, ◌≢◌, ◌<◌, refl, ◌∙◌, String, Bool, true, false, Option, none,
  some, List, [], ◌∷◌, ◌++◌, ok, length, length-append, arith, inl, inr, ◌⊎◌, or_else,
}
use automation.Loop.{
  Loop, LoopIteration, LoopStatus, LoopIterationOutcome, CompleteInput, a_review, open_of,
  replace_last, new_iteration, is_running, status_after, start_iteration, complete_iteration,
  open_iteration,
}
use automation.Loop.Bounds.{length-replace_last}
use automation.ValidateFix.{
  ValidateFixAgentResult, ValidateFixLoopDeps, State, port_error, Step, go_on, break_off, throws,
  close,
}

-- A running loop between two iterations, `n` of at most `m`.
abbrev pub Rest : ℕ → ℕ → Loop → Type 0
Rest n m l =
    (l.status ≡ LoopStatus.running)
    × (open_of l.iterations ≡ none)
    × (length l.iterations ≡ n)
    × (l.max_iterations ≡ m)

-- A running loop with its iteration `n` open.
abbrev pub Opened : ℕ → ℕ → Loop → Type 0
Opened n m l =
    (l.status ≡ LoopStatus.running)
    × ((x : LoopIteration) × (open_of l.iterations ≡ some x))
    × (length l.iterations ≡ n)
    × (l.max_iterations ≡ m)

open_of-append :
    (xs : List LoopIteration) (x : LoopIteration)
    → x.completed_at ≡ none
    → open_of (xs ++ x ∷ []) ≡ some x
open_of-append [] x o = rw o refl
open_of-append (y ∷ []) x o = rw o refl
open_of-append (y ∷ z ∷ xs) x o = open_of-append (z ∷ xs) x o

open_of-replace_last :
    (xs : List LoopIteration) (u : LoopIteration)
    → u.completed_at ≢ none
    → open_of (replace_last xs u) ≡ none
open_of-replace_last [] u o = ground (arith, o)
open_of-replace_last (y ∷ []) u o = ground (arith, o)
open_of-replace_last (y ∷ z ∷ []) u o = ground (arith, o)
open_of-replace_last (y ∷ z ∷ w ∷ xs) u o = open_of-replace_last (z ∷ w ∷ xs) u o

pub start_iteration-Opened :
    (n m : ℕ) (l : Loop) (id : String) (now : ℕ)
    → Rest n m l
    → n < m
    → (l' : Loop) × (start_iteration l (a_review id now) ≡ ok l') × Opened (suc n) m l'
unfolding start_iteration open_iteration
start_iteration-Opened n m l id now (running, closed, count, same) room =
    let x = new_iteration (length l.iterations + 1) (a_review id now) in
    (
      record l { iterations = l.iterations ++ x ∷ [] },
      ground (arith, running, closed, count, same, room),
      (
        running,
        (x, open_of-append l.iterations x refl),
        omega (arith, length-append l.iterations (x ∷ []), count),
        same,
      ),
    )

-- Any outcome of an open iteration is accepted.
complete_iteration-closes :
    (n m : ℕ) (l : Loop) (input : CompleteInput)
    → Opened n m l
    → (l' : Loop) × (complete_iteration l input ≡ ok l')
      × (l'.status ≡ status_after input.outcome)
      × (open_of l'.iterations ≡ none)
      × (length l'.iterations ≡ n)
      × (l'.max_iterations ≡ m)
unfolding complete_iteration open_iteration
complete_iteration-closes n m l input (running, (x, last), count, same) =
    let u : LoopIteration = record x {
      outcome = some input.outcome;
      completed_at = some input.now;
      fix_invocation_id = or_else input.fix_invocation_id x.fix_invocation_id;
      revalidation_id = or_else input.revalidation_id x.revalidation_id;
    } in
    let status = status_after input.outcome in
    let l' : Loop = record l {
      iterations = replace_last l.iterations u;
      status = status;
      completed_at = if is_running status then l.completed_at else some input.now;
    } in
    (
      l',
      rw (complete_iteration, last) refl,
      refl,
      open_of-replace_last l.iterations u (ground arith),
      length-replace_last l.iterations x u last ∙ count,
      same,
    )

-- What holds of the end of an iteration: an error is one of a port; the loop goes on at rest, with
-- one iteration more; and where the loop breaks off it is resolved only if the given predicate holds
-- of the world, and has failed or is running otherwise.
abbrev pub Good : {W : Type 0} → ℕ → ℕ → (W → Type 0) → Step W → Type 0
Good n m P (go_on s) = Rest n m s.loop
Good n m P (break_off s) =
    (s.stored ≡ some s.loop)
    × (length s.loop.iterations ≡ n)
    × (((s.loop.status ≡ LoopStatus.converged) × P s.world)
        ⊎ ((s.loop.status ≡ LoopStatus.failed) ⊎ (s.loop.status ≡ LoopStatus.running)))
Good n m P (throws fault s) = (message : String) × (fault ≡ port_error message)

module _ {W : Type 0} (d : ValidateFixLoopDeps W) (n m : ℕ) (P : W → Type 0) where
  pub close-fails :
      (outcome : LoopIterationOutcome) (fix : ValidateFixAgentResult) (id : Option String)
      (s : State W)
      → Opened n m s.loop
      → status_after outcome ≡ LoopStatus.failed
      → Good n m P (close d outcome fix id false s)
  unfolding close
  close-fails outcome fix id s o e =
      let input : CompleteInput = record {
        outcome = outcome;
        fix_invocation_id = some fix.invocation_id;
        revalidation_id = id;
        now = d.now s.world;
      } in
      let (l, completes, status, closed, count, same) =
        complete_iteration-closes n m s.loop input o in
      rw (close, completes) (refl, count, inr (inl (status ∙ e)))

  pub close-goes :
      (outcome : LoopIterationOutcome) (fix : ValidateFixAgentResult) (id : Option String)
      (more : Bool) (s : State W)
      → Opened n m s.loop
      → status_after outcome ≡ LoopStatus.running
      → Good n m P (close d outcome fix id more s)
  unfolding close
  close-goes outcome fix id true s o e =
      let input : CompleteInput = record {
        outcome = outcome;
        fix_invocation_id = some fix.invocation_id;
        revalidation_id = id;
        now = d.now s.world;
      } in
      let (l, completes, status, closed, count, same) =
        complete_iteration-closes n m s.loop input o in
      rw (close, completes) (status ∙ e, closed, count, same)
  close-goes outcome fix id false s o e =
      let input : CompleteInput = record {
        outcome = outcome;
        fix_invocation_id = some fix.invocation_id;
        revalidation_id = id;
        now = d.now s.world;
      } in
      let (l, completes, status, closed, count, same) =
        complete_iteration-closes n m s.loop input o in
      rw (close, completes) (refl, count, inr (inr (status ∙ e)))

  pub close-resolves :
      (fix : ValidateFixAgentResult) (id : Option String) (s : State W)
      → Opened n m s.loop
      → P s.world
      → Good n m P (close d LoopIterationOutcome.resolved fix id false s)
  unfolding close
  close-resolves fix id s o p =
      let input : CompleteInput = record {
        outcome = LoopIterationOutcome.resolved;
        fix_invocation_id = some fix.invocation_id;
        revalidation_id = id;
        now = d.now s.world;
      } in
      let (l, completes, status, closed, count, same) =
        complete_iteration-closes n m s.loop input o in
      rw (close, completes) (refl, count, inl (status, p))
