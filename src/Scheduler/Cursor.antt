-- ===== src/Scheduler/Cursor.antt =====
-- The cursor after a call of `scheduleOnce` at whose `await`s nothing happens:
-- packages/application/src/fair-repository-scheduler.ts.
use automation.Prelude.{
  ℕ, ◌≡◌, refl, sym, ap, ◌∙◌, String, Bool, true, false, Option, some, List, [], ◌∷◌, ◌++◌, arith,
  Option-cases, Bool-cases, inl, inr, length,
}
use automation.Scheduler.{
  Scheduler, Inspection, rounds, claim_slot, release_claim, commit, schedule_once, find_start_index,
  visits, finish_call,
}
use automation.Scheduler.Rounds.{after_inspection_outcome}

-- The last of the given ones, or the one before them.
abbrev last_or : Option String → List String → Option String
last_or before [] = before
last_or before (x ∷ xs) = last_or (some x) xs

last_or-append :
    (xs : List String) (before : Option String) (c : String)
    → last_or before (xs ++ (c ∷ [])) ≡ some c
last_or-append [] before c = refl
last_or-append (x ∷ xs) before c = last_or-append xs (some x) c

claim_slot-cursor :
    (limit : ℕ) (s t : Scheduler) → claim_slot limit s ≡ some t → t.cursor_id ≡ s.cursor_id
unfolding claim_slot
claim_slot-cursor limit s t e = ground (arith, e)

release_claim-cursor : (s : Scheduler) → (release_claim s).cursor_id ≡ s.cursor_id
unfolding release_claim
release_claim-cursor s = refl

commit-cursor :
    (factory : String → ℕ → String) (repo : String) (s : Scheduler)
    → (commit factory repo s).cursor_id ≡ some repo
unfolding commit
commit-cursor factory repo s = refl

-- The cursor is at the repository admitted last, or where it was if none has been.
rounds-cursor :
    (limit : ℕ) (factory : String → ℕ → String) (inspect : String → Inspection)
    (repos : List String) (s : Scheduler)
    → (rounds limit factory inspect repos s).0.cursor_id
      ≡ last_or s.cursor_id (rounds limit factory inspect repos s).1
unfolding rounds
rounds-cursor limit factory inspect [] s = refl
rounds-cursor limit factory inspect (repo ∷ repos) s = elim (Option-cases (claim_slot limit s)) [
  | inl full ↦ rw (rounds, full) refl
  | inr (t, claimed) ↦
      let same = claim_slot-cursor limit s t claimed in
      elim (after_inspection_outcome limit factory repo (inspect repo) t) [
        | inl (released, inl stopped) ↦
            rw (rounds, claimed, stopped, released) (release_claim-cursor t ∙ same)
        | inl (released, inr skipped) ↦
            let rest = rounds-cursor limit factory inspect repos (release_claim t) in
            rw (rounds, claimed, skipped, released)
              (rest
                ∙ ap
                    (λ before.
                      last_or before (rounds limit factory inspect repos (release_claim t)).1)
                    (release_claim-cursor t ∙ same))
        | inr (admitted, live, idle, work) ↦
            let u = commit factory repo t in
            rw (rounds, claimed, ap (λ r. r.0) admitted, ap (λ r. r.1) admitted)
              (rounds-cursor limit factory inspect repos u
                ∙ ap (λ before. last_or before (rounds limit factory inspect repos u).1)
                    (commit-cursor factory repo t))
      ]
]

nonempty : (xs : List String) (c : String) → [] ≡ xs ++ (c ∷ []) → ⊥
nonempty [] c e = ground (arith, e)
nonempty (x ∷ xs) c e = ground (arith, e)

module _ (gt : String → String → Bool) (limit : ℕ) (factory : String → ℕ → String)
    (inspect : String → Inspection) (sorted : List String) (s : Scheduler) where
  abbrev pub visited : Scheduler × List String
  visited = rounds limit factory inspect (visits sorted (find_start_index gt s.cursor_id sorted)) s

  schedule_once-live :
      s.stopped ≡ false
      → schedule_once gt limit factory inspect sorted s
        ≡ (finish_call (length visited.1) visited.0, visited.1)
  unfolding schedule_once
  schedule_once-live live = ground (arith, live)

  schedule_once-stopped :
      s.stopped ≡ true → schedule_once gt limit factory inspect sorted s ≡ (s, [])
  unfolding schedule_once
  schedule_once-stopped stopped = ground (arith, stopped)

  -- After a call that admits some repositories the cursor is at the last of them.
  pub schedule_once-cursor :
      (earlier : List String) (c : String)
      → (schedule_once gt limit factory inspect sorted s).1 ≡ earlier ++ (c ∷ [])
      → (schedule_once gt limit factory inspect sorted s).0.cursor_id ≡ some c
  unfolding finish_call
  schedule_once-cursor earlier c e = elim (Bool-cases s.stopped) [
    | inl stopped ↦
        absurd (nonempty earlier c (sym (ap (λ r. r.1) (schedule_once-stopped stopped)) ∙ e))
    | inr live ↦
        let call = schedule_once-live live in
        ap (λ r. r.0.cursor_id) call
        ∙ rounds-cursor limit factory inspect
            (visits sorted (find_start_index gt s.cursor_id sorted)) s
        ∙ ap (last_or s.cursor_id) (sym (ap (λ r. r.1) call) ∙ e)
        ∙ last_or-append earlier s.cursor_id c
  ]
