-- ===== src/Revalidation/Visits.antt =====
-- The visits of Kahn's algorithm, in the test for cycles:
-- packages/application/src/revalidation-plan.ts.
use automation.Prelude.{
  ℕ, zero, suc, ◌≤◌, ◌<◌, ◌≡◌, refl, ap, ◌∙◌, String, str_eq, eq_iff, Bool, true, false, List, [],
  ◌∷◌, ◌++◌, arith, inl, inr, Bool-cases, includes, All, All-map, Memᴰ, ◌⊎◌, length, unseen,
  unseen-falls, unseen-length,
}
use automation.Revalidation.{WorkspacePackageDescriptor}
use automation.Revalidation.Graph.{
  names, direct_dependents, distinct_size, Degrees, get_degree, zeros, in_degrees, lower,
  count_visited, is_cyclic,
}
use automation.Revalidation.Packages.{Unique}
use automation.Revalidation.Closure.{direct_dependents-names}
use automation.Revalidation.Degrees.{
  Distinct, lowered, freed-Distinct, direct_dependents-Distinct, direct_dependents-dependencies,
}
use automation.Revalidation.Acyclic.{
  DependsWithin, within_cases, pending, pending-distinct_size, pending-unvisited, pending-visit,
}
use automation.Revalidation.Kahn.{
  All-both, includes-both, Distinct-append, free_names, free_names-includes, free_names-All,
  in_degrees-get, zeros-degree, zeros-Distinct,
}

-- The degree of a package is at least the number of its dependencies that are not visited.
abbrev Counted : List WorkspacePackageDescriptor → List String → Degrees → Type 0
Counted ds visited degrees =
    All (λ d. pending visited d.workspace_dependencies ≤ get_degree 0 degrees d.name) ds

-- A package of degree zero is not in the set, when none that is visited is.
zero_free :
    (within : String → Bool) (visited : List String) (degrees : Degrees)
    (ds : List WorkspacePackageDescriptor) (y : String)
    → DependsWithin within ds
    → Counted ds visited degrees
    → ((z : String) → includes visited z ≡ true → within z ≡ false)
    → includes (names ds) y ≡ true
    → get_degree 0 degrees y ≡ 0
    → within y ≡ false
zero_free within visited degrees [] y dw c free named zeroed = absurd (ground (arith, named))
zero_free within visited degrees (d ∷ ds) y dw c free named zeroed =
    elim (Bool-cases (str_eq d.name y)) [
      | inl same ↦
          let e : d.name ≡ y = (eq_iff d.name y).0 same in
          elim (Bool-cases (within y)) [
            | inl in_set ↦
                let (dep, needed, dep_in) = dw.0 (ap within e ∙ in_set) in
                let fresh : includes visited dep ≡ false =
                  elim (Bool-cases (includes visited dep)) [
                    | inl seen ↦ absurd (ground (arith, free dep seen, dep_in))
                    | inr unseen_yet ↦ unseen_yet
                  ] in
                let left = pending-unvisited visited d.workspace_dependencies dep needed fresh in
                absurd (omega (arith, left, c.0, ap (get_degree 0 degrees) e, zeroed))
            | inr out ↦ out
          ]
      | inr other ↦ zero_free within visited degrees ds y dw.1 c.1 free (rw other at named) zeroed
    ]

-- The state of the loop: the packages of the queue and those visited have degree zero and are not
-- in the set, and each is in one of the two, once.
record Kahn (within : String → Bool) (ds : List WorkspacePackageDescriptor)
    (queue visited : List String) (degrees : Degrees) : Type 0 where
  counted : Counted ds visited degrees
  queue_zero : (y : String) → includes queue y ≡ true → get_degree 0 degrees y ≡ 0
  visited_zero : (y : String) → includes visited y ≡ true → get_degree 0 degrees y ≡ 0
  apart : (y : String) → includes queue y ≡ true → includes visited y ≡ false
  named : (y : String) → includes queue y ≡ true → includes (names ds) y ≡ true
  free : (y : String) → includes visited y ≡ true → within y ≡ false
  distinct : Distinct queue

module _ (within : String → Bool) (ds : List WorkspacePackageDescriptor) (u : Unique ds)
    (dw : DependsWithin within ds) where
  start_Kahn : Kahn within ds (zeros (in_degrees ds)) [] (in_degrees ds)
  start_Kahn = record {
    counted =
        All-map (λ d. get_degree 0 (in_degrees ds) d.name ≡ distinct_size d.workspace_dependencies)
          (λ d. pending [] d.workspace_dependencies ≤ get_degree 0 (in_degrees ds) d.name)
          (λ d h. omega (arith, h, pending-distinct_size d.workspace_dependencies)) ds
          (in_degrees-get ds u);
    queue_zero = λ y h. (zeros-degree ds y u h).1;
    visited_zero = λ y h. absurd (ground (arith, h));
    apart = λ y h. refl;
    named = λ y h. (zeros-degree ds y u h).0;
    free = λ y h. absurd (ground (arith, h));
    distinct = zeros-Distinct ds u;
  }

  module _ (current : String) (queue visited : List String) (degrees : Degrees)
      (k : Kahn within ds (current ∷ queue) visited degrees) where
    abbrev dependents : List String
    dependents = direct_dependents ds current

    abbrev result : Degrees × List String
    result = lower 0 dependents degrees

    once : Distinct dependents
    once = direct_dependents-Distinct ds current u

    in_queue : includes (current ∷ queue) current ≡ true
    in_queue = rw ((eq_iff current current).1 refl) refl

    fresh : includes visited current ≡ false
    fresh = k.apart current in_queue

    still_zero : (y : String) → get_degree 0 degrees y ≡ 0 → get_degree 0 result.0 y ≡ 0
    still_zero y h = omega (arith, lowered dependents degrees y once, h)

    freed_from :
        (y : String)
        → includes result.1 y ≡ true
        → (includes dependents y ≡ true) × (get_degree 0 degrees y ≡ 1)
    freed_from y h = (freed-Distinct dependents degrees once).1 y h

    freed_zero : (y : String) → includes result.1 y ≡ true → get_degree 0 result.0 y ≡ 0
    freed_zero y h =
        let (member, one) = freed_from y h in
        omega (arith, rw member at (lowered dependents degrees y once), one)

    -- A package of another degree is not one of degree zero.
    not_freed : (y : String) → get_degree 0 degrees y ≡ 0 → includes result.1 y ≡ false
    not_freed y h = elim (Bool-cases (includes result.1 y)) [
      | inl there ↦ absurd (omega (arith, (freed_from y there).1, h))
      | inr gone ↦ gone
    ]

    current_free : within current ≡ false
    current_free =
        zero_free within visited degrees ds current dw k.counted k.free (k.named current in_queue)
          (k.queue_zero current in_queue)

    later : (y : String) → includes queue y ≡ true → includes (current ∷ queue) y ≡ true
    later y h = ground (arith, h)

    visit-apart :
        (y : String)
        → includes (queue ++ result.1) y ≡ true
        → includes (current ∷ visited) y ≡ false
    visit-apart y h = elim (Bool-cases (str_eq current y)) [
      | inl same ↦
          let e : current ≡ y = (eq_iff current y).0 same in
          elim (includes-both queue result.1 y h) [
            | inl queued ↦ absurd (ground (arith, k.distinct.0, rw (← e) at queued))
            | inr freed ↦
                let gone = not_freed current (k.queue_zero current in_queue) in
                absurd (ground (arith, gone, rw (← e) at freed))
          ]
      | inr other ↦ rw other (elim (includes-both queue result.1 y h) [
        | inl queued ↦ k.apart y (later y queued)
        | inr freed ↦ elim (Bool-cases (includes visited y)) [
          | inl seen ↦ absurd (omega (arith, (freed_from y freed).1, k.visited_zero y seen))
          | inr unseen_yet ↦ unseen_yet
        ]
      ])
    ]

    visit-Kahn : Kahn within ds (queue ++ result.1) (current ∷ visited) result.0
    visit-Kahn = record {
      counted =
          All-both (λ d. pending visited d.workspace_dependencies ≤ get_degree 0 degrees d.name)
            (λ d. includes dependents d.name ≡ includes d.workspace_dependencies current)
            (λ d.
              pending (current ∷ visited) d.workspace_dependencies ≤ get_degree 0 result.0 d.name)
            (λ d c alike. omega (
              arith,
              c,
              pending-visit visited d.workspace_dependencies current fresh,
              rw alike at (lowered dependents degrees d.name once),
            ))
            ds k.counted (direct_dependents-dependencies ds current u);
      queue_zero = λ y h. elim (includes-both queue result.1 y h) [
        | inl queued ↦ still_zero y (k.queue_zero y (later y queued))
        | inr freed ↦ freed_zero y freed
      ];
      visited_zero = λ y h. elim (Bool-cases (str_eq current y)) [
        | inl same ↦
            still_zero y (rw ((eq_iff current y).0 same) at (k.queue_zero current in_queue))
        | inr other ↦ still_zero y (k.visited_zero y (rw other at h))
      ];
      apart = visit-apart;
      named = λ y h. elim (includes-both queue result.1 y h) [
        | inl queued ↦ k.named y (later y queued)
        | inr freed ↦ direct_dependents-names ds current y (freed_from y freed).0
      ];
      free = λ y h. elim (Bool-cases (str_eq current y)) [
        | inl same ↦ rw ((eq_iff current y).0 same) at current_free
        | inr other ↦ k.free y (rw other at h)
      ];
      distinct =
          Distinct-append queue result.1 k.distinct.1 (freed-Distinct dependents degrees once).0
            (λ y h. not_freed y (k.queue_zero y (later y h)));
    }

    -- The visit is of one more package that is not in the set.
    visit-unseen :
        unseen (free_names within (names ds)) (current ∷ visited)
        < unseen (free_names within (names ds)) visited
    visit-unseen =
        unseen-falls (free_names within (names ds)) visited current
          (free_names-includes within (names ds) current (k.named current in_queue) current_free)
          fresh

  count_visited-unseen :
      (fuel : ℕ) (queue visited : List String) (degrees : Degrees)
      → Kahn within ds queue visited degrees
      → count_visited ds fuel queue degrees ≤ unseen (free_names within (names ds)) visited
  unfolding count_visited
  count_visited-unseen zero queue visited degrees k = omega arith
  count_visited-unseen (suc fuel) [] visited degrees k = omega arith
  count_visited-unseen (suc fuel) (current ∷ queue) visited degrees k =
      let r = lower 0 (direct_dependents ds current) degrees in
      let rest =
        count_visited-unseen fuel (queue ++ r.1) (current ∷ visited) r.0
          (visit-Kahn current queue visited degrees k) in
      omega (arith, rest, visit-unseen current queue visited degrees k)

no_set_within :
    (ds : List WorkspacePackageDescriptor) (within : String → Bool)
    → Unique ds
    → is_cyclic ds ≡ false
    → DependsWithin within ds
    → All (λ d. within d.name ≡ false) ds
unfolding is_cyclic
no_set_within ds within u h dw =
    let free = free_names within (names ds) in
    let all_visited : count_visited ds (suc (length ds)) (zeros (in_degrees ds)) (in_degrees ds)
        ≡ length ds =
      ground (arith, h) in
    let most =
      count_visited-unseen within ds u dw (suc (length ds)) (zeros (in_degrees ds)) []
        (in_degrees ds) (start_Kahn within ds u dw) in
    free_names-All within ds (omega (arith, all_visited, most, unseen-length free []))

-- Packages with names and directories of their own that pass the test have no cycle: a set of them
-- is empty, or one of its packages has no dependency in the set.
pub is_cyclic-Acyclic :
    (ds : List WorkspacePackageDescriptor) (within : String → Bool)
    → Unique ds
    → is_cyclic ds ≡ false
    → All (λ d. within d.name ≡ false) ds
      ⊎ ((d : WorkspacePackageDescriptor) × Memᴰ d ds
          × (within d.name ≡ true)
          × All (λ dep. within dep ≡ false) d.workspace_dependencies)
is_cyclic-Acyclic ds within u h = elim (within_cases within ds) [
  | inl source ↦ inr source
  | inr dw ↦ inl (no_set_within ds within u h dw)
]
