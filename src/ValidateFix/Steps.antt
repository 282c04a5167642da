-- ===== src/ValidateFix/Steps.antt =====
-- Every end of an iteration of the fix loop:
-- packages/application/src/validate-fix/validate-fix-loop.ts.
use automation.Prelude.{
  ℕ, suc, ◌≡◌, ◌<◌, refl, ap, String, Bool, true, false, not, ◌&&◌, Option, none, some, List, [],
  ◌∷◌, Result, ok, err, arith, inl, inr, Bool-cases, Option-cases, Result-cases, if◌then◌else◌,
  truthy, is_some, str_eq,
}
use automation.Loop.{LoopIterationOutcome, unresolved, fix_failed, revalidation_failed}
use automation.ValidateFix.{
  ValidateFixAgentResult, ValidateFixLoopDeps, ValidateFixLoopInput, ValidateFixStepContext,
  RevalidationResult, State, Step, emit, put_loop, rollback, could_rollback, ManifestLoadResult,
  found, missing, malformed, Verdict, fixed, cannot_fix, no_fixes_needed, GitPort,
}
use automation.ValidateFix.Boundary.{check_files, check_status, check_git, check_boundary}
use automation.ValidateFix.Rounds.{
  unless_stuck, after_agent_failure, after_boundary_failure, after_no_fixes,
  after_failed_revalidation, after_fixed, after_verdict, after_check, after_start, round, context,
  fix_options, announce,
}
use automation.ValidateFix.Opened.{
  Rest, Opened, Good, start_iteration-Opened, close-fails, close-goes, close-resolves,
}

-- The last thing that happened to the world is a revalidation that passed.
abbrev pub Revalidated : {W : Type 0} → ValidateFixLoopDeps W → W → Type 0
Revalidated d w =
    (ctx : ValidateFixStepContext) × (w' : _) × (r : RevalidationResult) × (d.run_revalidation ctx
        w'
      ≡ (w, ok r))
    × (r.passed ≡ true)

-- The check of the boundary leaves the loop alone.
check_files-loop :
    {W : Type 0} (input : ValidateFixLoopInput) (m : ManifestLoadResult) (files : List String)
    (s : State W)
    → (check_files input m files s).0.loop ≡ s.loop
unfolding check_files
check_files-loop input m [] s = refl
check_files-loop input missing (x ∷ xs) s = refl
check_files-loop input (malformed message) (x ∷ xs) s = refl
check_files-loop input (found writable violations) (x ∷ xs) s = ground arith

check_status-loop :
    {W : Type 0} (d : ValidateFixLoopDeps W) (git : GitPort W) (input : ValidateFixLoopInput)
    (m : ManifestLoadResult) (r : Result String (List String)) (s : State W)
    → (check_status d git input m r s).0.loop ≡ s.loop
unfolding check_status
check_status-loop d git input m (err message) s = refl
check_status-loop d git input m (ok committed) s = elim (Result-cases (git.status s.world).1) [
  | inl (text, given) ↦ rw (check_status, given) (check_files-loop input m _ _)
  | inr (message, failed) ↦ rw (check_status, failed) refl
]

check_git-loop :
    {W : Type 0} (d : ValidateFixLoopDeps W) (git : GitPort W) (input : ValidateFixLoopInput)
    (m : ManifestLoadResult) (before : String) (s : State W)
    → (check_git d git input m before s).0.loop ≡ s.loop
unfolding check_git
check_git-loop d git input m before s = elim (Result-cases (git.head_commit_sha s.world).1) [
  | inl (sha, given) ↦ rw (check_git, given) (check_status-loop d git input m _ _)
  | inr (message, failed) ↦ rw (check_git, failed) refl
]

check_boundary-loop :
    {W : Type 0} (d : ValidateFixLoopDeps W) (input : ValidateFixLoopInput) (m : ManifestLoadResult)
    (fix : ValidateFixAgentResult) (s : State W)
    → (check_boundary d input m fix s).0.loop ≡ s.loop
unfolding check_boundary
check_boundary-loop d input m fix s = elim (Option-cases d.git) [
  | inl off ↦ rw (check_boundary, off) refl
  | inr (git, on) ↦ elim (Option-cases fix.head_before_fix) [
    | inl unknown ↦ rw (check_boundary, on, unknown) refl
    | inr (head, known) ↦ elim (Bool-cases (str_eq head "")) [
      | inl empty ↦ rw (check_boundary, on, known, empty) refl
      | inr named ↦ rw (check_boundary, on, known, named) (check_git-loop d git input m head s)
    ]
  ]
]

module _ {W : Type 0} (d : ValidateFixLoopDeps W) (n m : ℕ) where
  abbrev Ends : Step W → Type 0
  Ends step = Good n m (Revalidated d) step

  unless_stuck-Ends :
      (fix : ValidateFixAgentResult) (done : Result String Bool) (next : State W → Step W)
      (s : State W)
      → Opened n m s.loop
      → Ends (next s)
      → Ends (unless_stuck d fix done next s)
  unfolding unless_stuck
  unless_stuck-Ends fix (err message) next s o e = (message, refl)
  unless_stuck-Ends fix (ok true) next s o e = e
  unless_stuck-Ends fix (ok false) next s o e =
      close-fails d n m (Revalidated d) LoopIterationOutcome.failed fix none _ o refl

  after_agent_failure-Ends :
      (ctx : ValidateFixStepContext) (fix : ValidateFixAgentResult) (s : State W)
      → Opened n m s.loop
      → Ends (after_agent_failure d ctx fix s)
  unfolding after_agent_failure
  after_agent_failure-Ends ctx fix s o = elim (Result-cases (rollback d fix ctx s.world).1) [
    | inl (r, done) ↦
        rw (after_agent_failure, done)
          (close-fails d n m (Revalidated d) LoopIterationOutcome.failed fix none _ o refl)
    | inr (message, failed) ↦ rw (after_agent_failure, failed) (message, refl)
  ]

  after_boundary_failure-Ends :
      (ctx : ValidateFixStepContext) (fix : ValidateFixAgentResult) (message : String) (s : State W)
      → Opened n m s.loop
      → Ends (after_boundary_failure d ctx fix message s)
  unfolding after_boundary_failure
  after_boundary_failure-Ends ctx fix message s o =
      let id = some (d.id_factory s.world) in
      let s' : State W = record s { world = (rollback d fix ctx s.world).0 } in
      let s'' : State W = record s' {
        consecutive_fix_failures = 0;
        next_deterministic_diagnostic = some message;
      } in
      unless_stuck-Ends fix (rollback d fix ctx s.world).1 _ s' o
        (elim (Bool-cases (could_rollback d fix)) [
          | inl can ↦
              rw can (close-goes d n m (Revalidated d) revalidation_failed fix id true s'' o refl)
          | inr cannot ↦
              rw cannot
                (close-goes d n m (Revalidated d) revalidation_failed fix id false s' o refl)
        ])

  after_no_fixes-Ends :
      (ctx : ValidateFixStepContext) (fix : ValidateFixAgentResult) (s : State W)
      → Opened n m s.loop
      → Ends (after_no_fixes d ctx fix s)
  unfolding after_no_fixes
  after_no_fixes-Ends ctx fix s o = elim (Result-cases (d.run_revalidation ctx s.world).1) [
    | inr (message, failed) ↦ rw (after_no_fixes, failed) (message, refl)
    | inl (r, done) ↦ elim (Bool-cases r.passed) [
      | inl passes ↦
          rw (after_no_fixes, done, passes)
            (close-resolves d n m (Revalidated d) fix (some r.validation_run_id) _ o
              (ctx, s.world, r, ap (λ x. ((d.run_revalidation ctx s.world).0, x)) done, passes))
      | inr fails ↦
          rw (after_no_fixes, done, fails)
            (close-goes d n m (Revalidated d) unresolved fix none true _ o refl)
    ]
  ]

  after_failed_revalidation-Ends :
      (ctx : ValidateFixStepContext) (fix : ValidateFixAgentResult) (reval : RevalidationResult)
      (s : State W)
      → Opened n m s.loop
      → Ends (after_failed_revalidation d ctx fix reval s)
  unfolding after_failed_revalidation
  after_failed_revalidation-Ends ctx fix reval s o =
      let id = some reval.validation_run_id in
      let w = (rollback d fix ctx s.world).0 in
      let told : State W = record (emit "loop.rollback.unavailable" s) { world = w } in
      let quiet : State W = record s { world = w } in
      elim (Bool-cases (not (truthy fix.head_before_fix) && is_some d.rollback_fix)) [
        | inl unavailable ↦
            rw (after_failed_revalidation, unavailable)
              (unless_stuck-Ends fix (rollback d fix ctx s.world).1 _ told o (
                close-goes d n m (Revalidated d) revalidation_failed fix id (could_rollback d fix)
                  told o refl))
        | inr available ↦
            rw (after_failed_revalidation, available)
              (unless_stuck-Ends fix (rollback d fix ctx s.world).1 _ quiet o (
                close-goes d n m (Revalidated d) revalidation_failed fix id (could_rollback d fix)
                  quiet o refl))
      ]

  after_fixed-Ends :
      (ctx : ValidateFixStepContext) (fix : ValidateFixAgentResult) (s : State W)
      → Opened n m s.loop
      → Ends (after_fixed d ctx fix s)
  unfolding after_fixed
  after_fixed-Ends ctx fix s o = elim (Result-cases (d.run_revalidation ctx s.world).1) [
    | inr (message, failed) ↦ rw (after_fixed, failed) (message, refl)
    | inl (r, done) ↦ elim (Bool-cases r.passed) [
      | inl passes ↦
          rw (after_fixed, done, passes)
            (close-resolves d n m (Revalidated d) fix (some r.validation_run_id) _ o
              (ctx, s.world, r, ap (λ x. ((d.run_revalidation ctx s.world).0, x)) done, passes))
      | inr fails ↦ rw (after_fixed, done, fails) (after_failed_revalidation-Ends ctx fix r _ o)
    ]
  ]

  after_verdict-Ends :
      (ctx : ValidateFixStepContext) (fix : ValidateFixAgentResult) (v : Option Verdict)
      (s : State W)
      → Opened n m s.loop
      → Ends (after_verdict d ctx fix v s)
  unfolding after_verdict
  after_verdict-Ends ctx fix none s o =
      close-fails d n m (Revalidated d) LoopIterationOutcome.failed fix none _ o refl
  after_verdict-Ends ctx fix (some no_fixes_needed) s o = after_no_fixes-Ends ctx fix s o
  after_verdict-Ends ctx fix (some cannot_fix) s o =
      close-goes d n m (Revalidated d) fix_failed fix none true _ o refl
  after_verdict-Ends ctx fix (some fixed) s o = after_fixed-Ends ctx fix s o

  after_check-Ends :
      (ctx : ValidateFixStepContext) (fix : ValidateFixAgentResult) (message : Option String)
      (s : State W)
      → Opened n m s.loop
      → Ends (after_check d ctx fix message s)
  unfolding after_check
  after_check-Ends ctx fix (some message) s o = after_boundary_failure-Ends ctx fix message s o
  after_check-Ends ctx fix none s o = after_verdict-Ends ctx fix fix.verdict s o

  after_start-Ends :
      (input : ValidateFixLoopInput) (manifest : ManifestLoadResult) (ctx : ValidateFixStepContext)
      (fix : ValidateFixAgentResult) (s : State W)
      → Opened n m s.loop
      → Ends (after_start d input manifest ctx fix s)
  unfolding after_start
  after_start-Ends input manifest ctx fix s o =
      let c = check_boundary d input manifest fix s in
      elim (Bool-cases fix.succeeded) [
        | inr failed ↦
            let e : after_start d input manifest ctx fix s ≡ after_agent_failure d ctx fix s =
              ap
                (λ b.
                  if not b then after_agent_failure d ctx fix s else after_check d ctx fix c.1 c.0)
                failed in
            rw e (after_agent_failure-Ends ctx fix s o)
        | inl succeeded ↦
            let e : after_start d input manifest ctx fix s ≡ after_check d ctx fix c.1 c.0 =
              ap
                (λ b.
                  if not b then after_agent_failure d ctx fix s else after_check d ctx fix c.1 c.0)
                succeeded in
            let still : Opened n m c.0.loop = rw (check_boundary-loop d input manifest fix s) o in
            rw e (after_check-Ends ctx fix c.1 c.0 still)
      ]

-- An iteration of a loop at rest ends well.
pub round-Good :
    {W : Type 0} (d : ValidateFixLoopDeps W) (input : ValidateFixLoopInput)
    (manifest : ManifestLoadResult) (allowed : Option (List String)) (n m : ℕ) (s : State W)
    → Rest n m s.loop
    → n < m
    → Good (suc n) m (Revalidated d) (round d input manifest allowed s)
unfolding round
round-Good {W = W} d input manifest allowed n m s rest room =
    let ctx = context input s in
    let called = d.run_fix ctx (fix_options input allowed s) s.world in
    let s' : State W = record (announce input s) {
      world = called.0;
      next_deterministic_diagnostic = none;
    } in
    let same : s'.loop ≡ s.loop = ground arith in
    elim (Result-cases called.1) [
      | inr (message, failed) ↦ rw (round, failed) (message, refl)
      | inl (fix, made) ↦
          let (l, starts, o) =
            start_iteration-Opened n m s'.loop fix.invocation_id (d.now called.0) (rw same rest)
              room in
          rw (round, made, starts)
            (after_start-Ends d (suc n) m input manifest ctx fix (put_loop l s') o)
    ]
