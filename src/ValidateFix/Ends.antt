-- ===== src/ValidateFix/Ends.antt =====
-- How the fix loop ends: packages/application/src/validate-fix/validate-fix-loop.ts.
use automation.Prelude.{
  ℕ, zero, suc, ◌+◌, ◌≡◌, ◌≢◌, ◌<◌, ◌≤◌, refl, String, true, Option, none, some, List, [], Result,
  ok, length, arith, inl, inr, ◌⊎◌, Bool-cases, Result-cases,
}
use mathlib.Core.Path.{subst}
use automation.Loop.{Loop, LoopStatus, LoopStateError, create_loop, can_iterate, exhaust}
use automation.ValidateFix.{
  ValidateFixLoopDeps, ValidateFixLoopInput, State, port_error, Step, go_on, break_off, throws,
  ManifestLoadResult, Call,
}
use automation.ValidateFix.Rounds.{
  PhaseOutcome, passed, Ended, returned, threw, out_of_fuel, round, finish, run_rounds,
  start_rounds, allowed_of, execute, create_input, first_state,
}
use automation.ValidateFix.Opened.{Rest, Good}
use automation.ValidateFix.Steps.{Revalidated, round-Good}

-- What a call leaves: a state whose loop is stored and has at most `m` iterations, where it has
-- passed only after a revalidation that passed; or an error of a port.
abbrev Final : {W : Type 0} → ValidateFixLoopDeps W → ℕ → Ended W → Type 0
Final d m (returned passed s) =
    (s.stored ≡ some s.loop)
    × (length s.loop.iterations ≤ m)
    × (s.loop.status ≡ LoopStatus.converged)
    × Revalidated d s.world
Final d m (returned PhaseOutcome.failed s) =
    (s.stored ≡ some s.loop)
    × (length s.loop.iterations ≤ m)
    × ((s.loop.status ≡ LoopStatus.failed) ⊎ (s.loop.status ≡ LoopStatus.exhausted))
Final d m (threw fault s) = (message : String) × (fault ≡ port_error message)
Final d m out_of_fuel = ⊥

module _ {W : Type 0} (d : ValidateFixLoopDeps W) (m : ℕ) where
  finish_running :
      (s : State W)
      → s.loop.status ≡ LoopStatus.running
      → length s.loop.iterations ≤ m
      → Final d m (finish d s)
  unfolding finish exhaust
  finish_running s running bound =
      let now = d.now s.world in
      let l : Loop = record s.loop { status = LoopStatus.exhausted; completed_at = some now } in
      let gives : exhaust s.loop now ≡ ok l = rw (exhaust, running) refl in
      rw (finish, running, gives) (refl, bound, inr refl)

  finish-Final :
      (n : ℕ) (s : State W)
      → n ≤ m
      → Good n m (Revalidated d) (break_off s)
      → Final d m (finish d s)
  unfolding finish
  finish-Final n s bound (stored, count, inl (converged, revalidated)) =
      rw (finish, converged) (stored, omega (arith, count, bound), converged, revalidated)
  finish-Final n s bound (stored, count, inr (inl failed)) =
      rw (finish, failed) (stored, omega (arith, count, bound), inl failed)
  finish-Final n s bound (stored, count, inr (inr running)) =
      finish_running s running (omega (arith, count, bound))

  room_left : (n : ℕ) (s : State W) → Rest n m s.loop → can_iterate s.loop ≡ true → n < m
  unfolding can_iterate
  room_left n s (running, closed, count, same) can = ground (arith, running, count, same, can)

  finish_full : (n : ℕ) (s : State W) → Rest n m s.loop → n ≤ m → Final d m (finish d s)
  finish_full n s (running, closed, count, same) bound =
      finish_running s running (omega (arith, count, bound))

  -- One iteration, with what is known of the iterations after it.
  one_round-Final :
      (input : ValidateFixLoopInput) (manifest : ManifestLoadResult)
      (allowed : Option (List String)) (fuel n : ℕ) (s : State W) (step : Step W)
      → can_iterate s.loop ≡ true
      → round d input manifest allowed s ≡ step
      → n < m
      → Good (suc n) m (Revalidated d) step
      → ((s' : State W)
          → Rest (suc n) m s'.loop
          → Final d m (run_rounds d input manifest allowed fuel s'))
      → Final d m (run_rounds d input manifest allowed (suc fuel) s)
  unfolding run_rounds
  one_round-Final input manifest allowed fuel n s (go_on s') can e room good later =
      rw (run_rounds, can, e) (later s' good)
  one_round-Final input manifest allowed fuel n s (break_off s') can e room good later =
      rw (run_rounds, can, e) (finish-Final (suc n) s' (omega (arith, room)) good)
  one_round-Final input manifest allowed fuel n s (throws fault s') can e room good later =
      rw (run_rounds, can, e) good

  run_rounds-Final :
      (input : ValidateFixLoopInput) (manifest : ManifestLoadResult)
      (allowed : Option (List String)) (fuel n : ℕ) (s : State W)
      → Rest n m s.loop
      → n ≤ m
      → m ≤ n + fuel
      → Final d m (run_rounds d input manifest allowed fuel s)
  unfolding run_rounds
  run_rounds-Final input manifest allowed zero n s rest bound enough =
      elim (Bool-cases (can_iterate s.loop)) [
        | inl can ↦ absurd (omega (arith, room_left n s rest can, enough))
        | inr full ↦ rw full (finish_full n s rest bound)
      ]
  run_rounds-Final input manifest allowed (suc fuel) n s rest bound enough =
      elim (Bool-cases (can_iterate s.loop)) [
        | inr full ↦ rw (run_rounds, full) (finish_full n s rest bound)
        | inl can ↦
            let room = room_left n s rest can in
            one_round-Final input manifest allowed fuel n s _ can refl room
              (round-Good d input manifest allowed n m s rest room)
              (λ s' rest'.
                run_rounds-Final input manifest allowed fuel (suc n) s' rest' (omega (arith, room))
                  (omega (arith, enough)))
      ]

  start_rounds-Final :
      (input : ValidateFixLoopInput) (load_manifest : Call W ManifestLoadResult) (s : State W)
      → input.max_iterations ≡ m
      → Rest 0 m s.loop
      → Final d m (start_rounds d input load_manifest s)
  unfolding start_rounds
  start_rounds-Final input load_manifest s same rest =
      elim (Result-cases (load_manifest s.world).1) [
        | inr (message, failed) ↦ rw (start_rounds, failed) (message, refl)
        | inl (manifest, loaded) ↦
            let s' : State W = record s { world = (load_manifest s.world).0 } in
            rw (start_rounds, loaded)
              (run_rounds-Final input manifest (allowed_of manifest) input.max_iterations 0 s' rest
                (omega arith) (omega (arith, same)))
      ]

execute-Final :
    {W : Type 0} (d : ValidateFixLoopDeps W) (input : ValidateFixLoopInput)
    (load_manifest : Call W ManifestLoadResult) (w : W)
    → 1 ≤ input.max_iterations
    → (e : Ended W) × (execute d input load_manifest w ≡ ok e) × Final d input.max_iterations e
unfolding execute create_loop
execute-Final d input load_manifest w positive =
    let c = create_input d input w in
    let loop : Loop = record {
      id = c.id;
      run_id = c.run_id;
      phase_id = c.phase_id;
      loop_type = c.loop_type;
      max_iterations = c.max_iterations;
      iterations = [];
      status = LoopStatus.running;
      started_at = c.now;
      completed_at = none;
    } in
    let created : create_loop c ≡ ok loop = ground (arith, positive) in
    (
      start_rounds d input load_manifest (first_state w loop),
      rw (execute, created) refl,
      start_rounds-Final d input.max_iterations input load_manifest (first_state w loop) refl
          (refl, refl, refl, refl),
    )

-- A result after at most the iterations allowed, or an error that a port has thrown.
abbrev pub Returns : {W : Type 0} → ValidateFixLoopInput → Result LoopStateError (Ended W) → Type 0
Returns {W = W} input r =
    ((outcome : PhaseOutcome) × (s : State W) × (r ≡ ok (returned outcome s))
      × (length s.loop.iterations ≤ input.max_iterations))
    ⊎ ((message : String) × (s : State W) × (r ≡ ok (threw (port_error message) s)))

Final-Returns :
    {W : Type 0} (d : ValidateFixLoopDeps W) (input : ValidateFixLoopInput) (e : Ended W)
    → Final d input.max_iterations e
    → Returns input (ok e)
Final-Returns d input (returned passed s) final = inl (passed, s, refl, final.1)
Final-Returns d input (returned PhaseOutcome.failed s) final =
    inl (PhaseOutcome.failed, s, refl, final.1)
Final-Returns d input (threw fault s) (message, same) = inr (message, s, rw same refl)
Final-Returns d input out_of_fuel final = absurd final

-- With at least one iteration allowed, a call ends: after at most that many iterations of its loop it
-- returns a result, or it throws what a port has thrown, and never an error of the states of the loop.
pub execute-Returns :
    {W : Type 0} (d : ValidateFixLoopDeps W) (input : ValidateFixLoopInput)
    (load_manifest : Call W ManifestLoadResult) (w : W)
    → 1 ≤ input.max_iterations
    → Returns input (execute d input load_manifest w)
execute-Returns d input load_manifest w positive =
    let (e, ended, final) = execute-Final d input load_manifest w positive in
    rw ended (Final-Returns d input e final)

-- With at least one iteration allowed, a phase passes only when the last thing that changed the world
-- was a revalidation that passed.
pub execute-Revalidated :
    {W : Type 0} (d : ValidateFixLoopDeps W) (input : ValidateFixLoopInput)
    (load_manifest : Call W ManifestLoadResult) (w : W) (s : State W)
    → 1 ≤ input.max_iterations
    → execute d input load_manifest w ≡ ok (returned passed s)
    → (s.loop.status ≡ LoopStatus.converged) × Revalidated d s.world
execute-Revalidated d input load_manifest w s positive h =
    let (e, ended, final) = execute-Final d input load_manifest w positive in
    let same : e ≡ returned passed s = ground (arith, ended, h) in
    let (stored, bound, converged, revalidated) =
      subst (λ x. Final d input.max_iterations x) same final in
    (converged, revalidated)

-- With at least one iteration allowed, a call that returns has stored its loop as it returns it, and
-- the loop is not running any more.
pub execute-stored :
    {W : Type 0} (d : ValidateFixLoopDeps W) (input : ValidateFixLoopInput)
    (load_manifest : Call W ManifestLoadResult) (w : W) (outcome : PhaseOutcome) (s : State W)
    → 1 ≤ input.max_iterations
    → execute d input load_manifest w ≡ ok (returned outcome s)
    → (s.stored ≡ some s.loop) × (s.loop.status ≢ LoopStatus.running)
execute-stored d input load_manifest w passed s positive h =
    let (e, ended, final) = execute-Final d input load_manifest w positive in
    let same : e ≡ returned passed s = ground (arith, ended, h) in
    let (stored, bound, converged, revalidated) =
      subst (λ x. Final d input.max_iterations x) same final in
    (stored, ground (arith, converged))
execute-stored d input load_manifest w PhaseOutcome.failed s positive h =
    let (e, ended, final) = execute-Final d input load_manifest w positive in
    let same : e ≡ returned PhaseOutcome.failed s = ground (arith, ended, h) in
    let (stored, bound, ends) = subst (λ x. Final d input.max_iterations x) same final in
    (stored, ground (arith, ends))
