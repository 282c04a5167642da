-- ===== src/ValidateFix/Rounds.antt =====
-- The iterations of the loop, and the whole of it:
-- packages/application/src/validate-fix/validate-fix-loop.ts.
use automation.Prelude.{
  ℕ, zero, suc, ◌+◌, String, Bool, true, false, not, ◌&&◌, Option, none, some, List, [], ◌∷◌,
  Result, ok, err, truthy, is_some, leb, length, if◌then◌else◌,
}
use automation.Loop.{
  Loop, LoopType, LoopStatus, LoopStateError, LoopIterationOutcome, a_review, create_loop,
  start_iteration, can_iterate, exhaust, resolved, unresolved, fix_failed, revalidation_failed,
  CreateLoopInput,
}
use automation.ValidateFix.{
  ValidateFixLoopInput, ValidateFixStepContext, FixStepOptions, Verdict, fixed, cannot_fix,
  no_fixes_needed, ValidateFixAgentResult, RevalidationResult, ManifestLoadResult, found, Call,
  ValidateFixLoopDeps, State, Fault, state_error, port_error, Step, go_on, break_off, throws, emit,
  put_loop, close, could_rollback, rollback,
}
use automation.ValidateFix.Boundary.{check_boundary}

-- After the rollback of a fix: a rollback that fails breaks the loop off.
unfoldable pub unless_stuck :
    {W : Type 0}
    → ValidateFixLoopDeps W
    → ValidateFixAgentResult
    → Result String Bool
    → (State W → Step W)
    → State W
    → Step W
unfolding close
unless_stuck d fix (err message) next s = throws (port_error message) s
unless_stuck d fix (ok true) next s = next s
unless_stuck d fix (ok false) next s =
    close d LoopIterationOutcome.failed fix none false (emit "loop.rollback.failed" s)

-- The agent failed.
unfoldable pub after_agent_failure :
    {W : Type 0}
    → ValidateFixLoopDeps W
    → ValidateFixStepContext
    → ValidateFixAgentResult
    → State W
    → Step W
unfolding rollback close
after_agent_failure d ctx fix s =
    let (w, done) = rollback d fix ctx s.world in
    let s' = record s { world = w } in
    elim done [
      | err message ↦ throws (port_error message) s'
      | ok r ↦ close d LoopIterationOutcome.failed fix none false s'
    ]

-- The fix did not keep the boundary.
unfoldable pub after_boundary_failure :
    {W : Type 0}
    → ValidateFixLoopDeps W
    → ValidateFixStepContext
    → ValidateFixAgentResult
    → String
    → State W
    → Step W
unfolding rollback close unless_stuck
after_boundary_failure d ctx fix message s =
    let id = d.id_factory s.world in
    let (w, done) = rollback d fix ctx s.world in
    unless_stuck d fix done
      (λ s'.
        if could_rollback d fix
        then close d revalidation_failed fix (some id) true (record s' {
          consecutive_fix_failures = 0;
          next_deterministic_diagnostic = some message;
        })
        else close d revalidation_failed fix (some id) false s')
      (record s { world = w })

-- The agent found nothing to fix.
unfoldable pub after_no_fixes :
    {W : Type 0}
    → ValidateFixLoopDeps W
    → ValidateFixStepContext
    → ValidateFixAgentResult
    → State W
    → Step W
unfolding close
after_no_fixes d ctx fix s =
    let (w, reval) = d.run_revalidation ctx s.world in
    let s' = record s { world = w } in
    elim reval [
      | err message ↦ throws (port_error message) s'
      | ok r ↦
          if r.passed
          then close d resolved fix (some r.validation_run_id) false s'
          else close d unresolved fix none true s'
    ]

-- The revalidation of a fix has failed.
unfoldable pub after_failed_revalidation :
    {W : Type 0}
    → ValidateFixLoopDeps W
    → ValidateFixStepContext
    → ValidateFixAgentResult
    → RevalidationResult
    → State W
    → Step W
unfolding rollback close unless_stuck
after_failed_revalidation d ctx fix reval s =
    let told =
      if not (truthy fix.head_before_fix) && is_some d.rollback_fix
      then emit "loop.rollback.unavailable" s
      else s in
    let (w, done) = rollback d fix ctx s.world in
    unless_stuck d fix done
      (close d revalidation_failed fix (some reval.validation_run_id) (could_rollback d fix))
      (record told { world = w })

-- The agent made a fix.
unfoldable pub after_fixed :
    {W : Type 0}
    → ValidateFixLoopDeps W
    → ValidateFixStepContext
    → ValidateFixAgentResult
    → State W
    → Step W
unfolding close after_failed_revalidation
after_fixed d ctx fix s =
    let (w, reval) = d.run_revalidation ctx s.world in
    let s' = record s { world = w; consecutive_fix_failures = 0 } in
    elim reval [
      | err message ↦ throws (port_error message) s'
      | ok r ↦
          if r.passed
          then close d resolved fix (some r.validation_run_id) false s'
          else after_failed_revalidation d ctx fix r s'
    ]

unfoldable pub after_verdict :
    {W : Type 0}
    → ValidateFixLoopDeps W
    → ValidateFixStepContext
    → ValidateFixAgentResult
    → Option Verdict
    → State W
    → Step W
unfolding close after_no_fixes after_fixed
after_verdict d ctx fix none s =
    close d LoopIterationOutcome.failed fix none false (emit "loop.verdict_missing" s)
after_verdict d ctx fix (some no_fixes_needed) s = after_no_fixes d ctx fix s
after_verdict d ctx fix (some cannot_fix) s =
    close d fix_failed fix none true
      (record s { consecutive_fix_failures = s.consecutive_fix_failures + 1 })
after_verdict d ctx fix (some fixed) s = after_fixed d ctx fix s

-- After the check of the boundary.
unfoldable pub after_check :
    {W : Type 0}
    → ValidateFixLoopDeps W
    → ValidateFixStepContext
    → ValidateFixAgentResult
    → Option String
    → State W
    → Step W
unfolding after_boundary_failure after_verdict
after_check d ctx fix (some message) s = after_boundary_failure d ctx fix message s
after_check d ctx fix none s = after_verdict d ctx fix fix.verdict s

-- After the iteration is started.
unfoldable pub after_start :
    {W : Type 0}
    → ValidateFixLoopDeps W
    → ValidateFixLoopInput
    → ManifestLoadResult
    → ValidateFixStepContext
    → ValidateFixAgentResult
    → State W
    → Step W
unfolding after_agent_failure check_boundary after_check
after_start d input manifest ctx fix s =
    if not fix.succeeded
    then after_agent_failure d ctx fix s
    else let (s', message) = check_boundary d input manifest fix s in
      after_check d ctx fix message s'

abbrev pub context : {W : Type 0} → ValidateFixLoopInput → State W → ValidateFixStepContext
context input s = record {
  loop_id = s.loop.id;
  run_id = input.run_id;
  phase_id = input.phase_id;
  repo_id = input.repo_id;
  cwd = input.cwd;
  iteration_index = length s.loop.iterations + 1;
}

abbrev pub use_fallback : {W : Type 0} → ValidateFixLoopInput → State W → Bool
use_fallback input s = leb 2 s.consecutive_fix_failures && is_some input.fix_fallback_profile

abbrev pub fix_options :
    {W : Type 0} → ValidateFixLoopInput → Option (List String) → State W → FixStepOptions
fix_options input allowed_files s = record {
  use_fallback = use_fallback input s;
  deterministic_diagnostic =
      if truthy s.next_deterministic_diagnostic then s.next_deterministic_diagnostic else none;
  allowed_files = allowed_files;
}

-- The events with which an iteration begins.
abbrev pub announce : {W : Type 0} → ValidateFixLoopInput → State W → State W
announce input s =
    let started = emit "loop.iteration.started" s in
    if use_fallback input s then emit "phase.fallback.escalated" started else started

unfoldable pub round :
    {W : Type 0}
    → ValidateFixLoopDeps W
    → ValidateFixLoopInput
    → ManifestLoadResult
    → Option (List String)
    → State W
    → Step W
unfolding start_iteration after_start
round d input manifest allowed_files s =
    let ctx = context input s in
    let (w, fix) = d.run_fix ctx (fix_options input allowed_files s) s.world in
    let s' = record (announce input s) { world = w; next_deterministic_diagnostic = none } in
    elim fix [
      | err message ↦ throws (port_error message) s'
      | ok r ↦ elim (start_iteration s'.loop (a_review r.invocation_id (d.now w))) [
        | err e ↦ throws (state_error e) s'
        | ok loop ↦ after_start d input manifest ctx r (put_loop loop s')
      ]
    ]

pub data PhaseOutcome : Type 0 where
  passed failed : PhaseOutcome

pub data Ended (W : Type 0) : Type 0 where
  returned : PhaseOutcome → State W → Ended W
  threw : Fault → State W → Ended W
  out_of_fuel : Ended W

-- After the `while`.
unfoldable pub finish : {W : Type 0} → ValidateFixLoopDeps W → State W → Ended W
unfolding exhaust
finish d s = elim s.loop.status [
  | LoopStatus.converged ↦ returned passed s
  | LoopStatus.failed ↦ returned PhaseOutcome.failed s
  | _ ↦ elim (exhaust s.loop (d.now s.world)) [
    | err e ↦ threw (state_error e) s
    | ok loop ↦ returned PhaseOutcome.failed (emit "loop.exhausted" (put_loop loop s))
  ]
]

unfoldable pub run_rounds :
    {W : Type 0}
    → ValidateFixLoopDeps W
    → ValidateFixLoopInput
    → ManifestLoadResult
    → Option (List String)
    → ℕ
    → State W
    → Ended W
unfolding can_iterate round finish
run_rounds d input manifest allowed_files zero s =
    if can_iterate s.loop then out_of_fuel else finish d s
run_rounds d input manifest allowed_files (suc fuel) s = elim (can_iterate s.loop) [
  | false ↦ finish d s
  | true ↦ elim (round d input manifest allowed_files s) [
    | go_on s' ↦ run_rounds d input manifest allowed_files fuel s'
    | break_off s' ↦ finish d s'
    | throws fault s' ↦ threw fault s'
  ]
]

-- `allowedFiles`.
abbrev pub allowed_of : ManifestLoadResult → Option (List String)
allowed_of (found [] violations) = none
allowed_of (found (x ∷ xs) violations) = some (x ∷ xs)
allowed_of _ = none

-- The loop once it is created: `load_manifest` is a port of its own.
unfoldable pub start_rounds :
    {W : Type 0}
    → ValidateFixLoopDeps W
    → ValidateFixLoopInput
    → Call W ManifestLoadResult
    → State W
    → Ended W
unfolding run_rounds
start_rounds d input load_manifest s =
    let (w, manifest) = load_manifest s.world in
    elim manifest [
      | err message ↦ threw (port_error message) (record s { world = w })
      | ok m ↦ run_rounds d input m (allowed_of m) input.max_iterations (record s { world = w })
    ]

abbrev pub create_input :
    {W : Type 0} → ValidateFixLoopDeps W → ValidateFixLoopInput → W → CreateLoopInput
create_input d input w = record {
  id = d.id_factory w;
  run_id = input.run_id;
  phase_id = input.phase_id;
  loop_type = LoopType.validate_fix;
  max_iterations = input.max_iterations;
  now = d.now w;
}

abbrev pub first_state : {W : Type 0} → W → Loop → State W
first_state w loop = record {
  world = w;
  loop = loop;
  stored = some loop;
  events = [];
  consecutive_fix_failures = 0;
  next_deterministic_diagnostic = none;
}

-- What the call leaves is the state, or the error of `createLoop`.
unfoldable pub execute :
    {W : Type 0}
    → ValidateFixLoopDeps W
    → ValidateFixLoopInput
    → Call W ManifestLoadResult
    → W
    → Result LoopStateError (Ended W)
unfolding create_loop start_rounds
execute d input load_manifest w = elim (create_loop (create_input d input w)) [
  | err e ↦ err e
  | ok loop ↦ ok (start_rounds d input load_manifest (first_state w loop))
]
