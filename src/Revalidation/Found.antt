-- ===== src/Revalidation/Found.antt =====
-- What the search finds, and that it ends: packages/application/src/revalidation-plan.ts.
use automation.Prelude.{
  ℕ, zero, suc, ◌+◌, ◌≡◌, ◌≤◌, ◌↔◌, refl, ap, String, str_eq, eq_iff, true, some, List, [], ◌∷◌,
  arith, inl, inr, ◌⊎◌, Bool-cases, includes, length, unseen, unseen-length,
}
use automation.Revalidation.{WorkspacePackageDescriptor}
use automation.Revalidation.Graph.{names, direct_dependents, add_new, search_dependents, closure}
use automation.Revalidation.Closure.{
  Dependent, here, through, Subset, Added, add_new-Added, direct_dependents-names,
}

module _ (ds : List WorkspacePackageDescriptor) (seed : String) where
  -- The dependents of a package are all in the set.
  abbrev Closed : String → List String → Type 0
  Closed x seen = Subset (direct_dependents ds x) seen

  -- The set and the queue hold dependents only, and what is not in the queue any more is closed.
  record Searching (queue seen : List String) : Type 0 where
    sound : (y : String) → includes seen y ≡ true → Dependent ds seed y
    queue_sound : (y : String) → includes queue y ≡ true → Dependent ds seed y
    closed : (y : String) → includes seen y ≡ true → (includes queue y ≡ true) ⊎ Closed y seen

  turn-Searching :
      (x : String) (queue seen seen' queue' : List String)
      → Added (names ds) (direct_dependents ds x) seen queue seen' queue'
      → Searching (x ∷ queue) seen
      → Searching queue' seen'
  turn-Searching x queue seen seen' queue' a s =
      let reached : Dependent ds seed x = s.queue_sound x (ground (arith, (eq_iff x x).1 refl)) in
      record {
        sound = λ y h. elim (a.seen_from y h) [
          | inl old ↦ s.sound y old
          | inr new ↦ through reached new
        ];
        queue_sound = λ y h. elim (a.queue_from y h) [
          | inl old ↦ s.queue_sound y (ground (arith, old))
          | inr new ↦ through reached new
        ];
        closed = λ y h. elim (a.new_queued y h) [
          | inr queued ↦ inl queued
          | inl old ↦ elim (s.closed y old) [
            | inr kept ↦ inr (λ z e. a.keeps_seen z (kept z e))
            | inl waiting ↦ elim (Bool-cases (str_eq x y)) [
              | inl same ↦ inr (rw (← (eq_iff x y).0 same) a.adds)
              | inr other ↦ inl (a.keeps_queue y (rw other at waiting))
            ]
          ]
        ];
      }

  search_dependents-finds :
      (fuel : ℕ) (queue seen : List String)
      → Searching queue seen
      → length queue + unseen (names ds) seen ≤ fuel
      → (found : List String) × (search_dependents ds fuel queue seen ≡ some found)
        × Subset seen found
        × Searching [] found
  unfolding search_dependents
  search_dependents-finds fuel [] seen s enough = (seen, refl, (λ y h. h), s)
  search_dependents-finds zero (x ∷ queue) seen s enough = absurd (omega (arith, enough))
  search_dependents-finds (suc fuel) (x ∷ queue) seen s enough =
      let a =
        add_new-Added (names ds) (direct_dependents ds x) seen queue
          (direct_dependents-names ds x) in
      let next = add_new (direct_dependents ds x) seen queue in
      let (found, ends, kept, searched) =
        search_dependents-finds fuel next.1 next.0 (turn-Searching x queue seen next.0 next.1 a s)
          (omega (arith, a.measured, enough)) in
      (found, ends, (λ y h. kept y (a.keeps_seen y h)), searched)

  names-length : (all : List WorkspacePackageDescriptor) → length (names all) ≡ length all
  names-length [] = refl
  names-length (d ∷ all) = ap suc (names-length all)

  searched_complete :
      (found : List String)
      → includes found seed ≡ true
      → Searching [] found
      → (y : String) → Dependent ds seed y
      → includes found y ≡ true
  searched_complete found start s y here = start
  searched_complete found start s y (through {x = x} d e) =
      elim (s.closed x (searched_complete found start s x d)) [
        | inl waiting ↦ absurd (ground (arith, waiting))
        | inr closed ↦ closed y e
      ]

-- The search ends, and the set that it gives holds exactly the packages that depend on the given one,
-- directly or through others, and itself.
pub closure-Dependent :
    (ds : List WorkspacePackageDescriptor) (seed : String)
    → (found : List String) × (closure ds seed ≡ some found)
      × ((y : String) → (includes found y ≡ true) ↔ Dependent ds seed y)
unfolding closure
closure-Dependent ds seed =
    let start : Searching ds seed (seed ∷ []) (seed ∷ []) = record {
      sound = λ y h. only y h;
      queue_sound = λ y h. only y h;
      closed = λ y h. inl h;
    } in
    let room : 1 + unseen (names ds) (seed ∷ []) ≤ suc (length ds) =
      omega (arith, unseen-length (names ds) (seed ∷ []), names-length ds seed ds) in
    let (found, ends, kept, searched) =
      search_dependents-finds ds seed (suc (length ds)) (seed ∷ []) (seed ∷ []) start room in
    let there : includes found seed ≡ true =
      kept seed (ground (arith, (eq_iff seed seed).1 refl)) in
    (found, ends, λ y. (searched.sound y, searched_complete ds seed found there searched y))
  where
    only : (y : String) → includes (seed ∷ []) y ≡ true → Dependent ds seed y
    only y h =
        let same : str_eq seed y ≡ true = ground (arith, h) in rw (← (eq_iff seed y).0 same) here
