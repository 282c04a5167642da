-- ===== src/Revalidation/Acyclic.antt =====
-- What the test for cycles, Kahn's algorithm, shows: packages/application/src/revalidation-plan.ts.
use automation.Prelude.{
  ℕ, ◌+◌, ◌≤◌, ◌≡◌, refl, sym, String, str_eq, eq_iff, Bool, true, false, ◌||◌, List, [], ◌∷◌,
  if◌then◌else◌, arith, inl, inr, Bool-cases, includes, All, Memᴰ, ◌⊎◌,
}
use automation.Revalidation.{WorkspacePackageDescriptor}
use automation.Revalidation.Graph.{distinct_size}

-- Each package of the set has a dependency in the set.
abbrev pub DependsWithin : (String → Bool) → List WorkspacePackageDescriptor → Type 0
DependsWithin within ds =
    All
      (λ d.
        within d.name ≡ true
        → (dep : String) × (includes d.workspace_dependencies dep ≡ true) × (within dep ≡ true))
      ds

-- A package of the set that has no dependency in it.
abbrev pub Source : (String → Bool) → List WorkspacePackageDescriptor → Type 0
Source within ds =
    (d : WorkspacePackageDescriptor) × Memᴰ d ds
    × (within d.name ≡ true)
    × All (λ dep. within dep ≡ false) d.workspace_dependencies

-- There is no cycle: a set of packages is empty, or one of its packages has no dependency in it.
abbrev pub Acyclic : List WorkspacePackageDescriptor → Type 0
Acyclic ds = (within : String → Bool) → All (λ d. within d.name ≡ false) ds ⊎ Source within ds

no_dependency :
    (within : String → Bool) (deps : List String)
    → All (λ dep. within dep ≡ false) deps
      ⊎ ((dep : String) × (includes deps dep ≡ true) × (within dep ≡ true))
no_dependency within [] = inl tt
no_dependency within (dep ∷ deps) = elim (Bool-cases (within dep)) [
  | inl in_set ↦ inr (dep, rw ((eq_iff dep dep).1 refl) refl, in_set)
  | inr out ↦ elim (no_dependency within deps) [
    | inl rest ↦ inl (out, rest)
    | inr (found, member, in_set) ↦ inr (found, ground (arith, member), in_set)
  ]
]

-- The set has a package without a dependency in it, or each of its packages has one.
pub within_cases :
    (within : String → Bool) (ds : List WorkspacePackageDescriptor)
    → Source within ds ⊎ DependsWithin within ds
within_cases within [] = inr tt
within_cases within (d ∷ ds) = elim (within_cases within ds) [
  | inl (e, member, in_set, none_in) ↦ inl (e, Memᴰ.tail member, in_set, none_in)
  | inr rest ↦ elim (no_dependency within d.workspace_dependencies) [
    | inr found ↦ inr (λ in_set. found, rest)
    | inl none_in ↦ elim (Bool-cases (within d.name)) [
      | inl in_set ↦ inl (d, Memᴰ.head refl, in_set, none_in)
      | inr out ↦ inr (λ in_set. absurd (ground (arith, in_set, out)), rest)
    ]
  ]
]

-- How many of the dependencies have not been visited.
abbrev pub pending : List String → List String → ℕ
pending visited [] = 0
pending visited (x ∷ xs) =
    (if includes xs x || includes visited x then 0 else 1) + pending visited xs

pub pending-distinct_size : (xs : List String) → pending [] xs ≡ distinct_size xs
pending-distinct_size [] = refl
pending-distinct_size (x ∷ xs) = ground (arith, pending-distinct_size xs)

pub pending-unvisited :
    (visited xs : List String) (x : String)
    → includes xs x ≡ true
    → includes visited x ≡ false
    → 1 ≤ pending visited xs
pending-unvisited visited [] x h n = ground (arith, h)
pending-unvisited visited (y ∷ ys) x h n = elim (Bool-cases (includes ys x)) [
  | inl later ↦ omega (arith, pending-unvisited visited ys x later n)
  | inr gone ↦
      let same : str_eq y x ≡ true = ground (arith, h, gone) in
      let e : y ≡ x = (eq_iff y x).0 same in
      let once : includes ys y || includes visited y ≡ false = rw e (ground (arith, gone, n)) in
      rw once (omega arith)
]

-- A visit leaves one pending dependency less to the dependents, and as many to the others.
pub pending-visit :
    (visited xs : List String) (x : String)
    → includes visited x ≡ false
    → pending visited xs ≡ (if includes xs x then 1 else 0) + pending (x ∷ visited) xs
pending-visit visited [] x n = omega arith
pending-visit visited (y ∷ ys) x n =
    let rest = pending-visit visited ys x n in
    elim (Bool-cases (str_eq y x)) [
      | inl same ↦
          let e : y ≡ x = (eq_iff y x).0 same in
          let there : str_eq x y ≡ true = (eq_iff x y).1 (sym e) in
          let fresh : includes visited y ≡ false = rw e n in
          let alike : includes ys y ≡ includes ys x = rw e refl in
          elim (Bool-cases (includes ys x)) [
            | inl twice ↦ rw (same, there, fresh, alike, twice) (omega (arith, rw twice at rest))
            | inr once ↦ rw (same, there, fresh, alike, once) (omega (arith, rw once at rest))
          ]
      | inr other ↦
          let away : str_eq x y ≡ false = elim (Bool-cases (str_eq x y)) [
            | inl same ↦ absurd (ground (arith, other, (eq_iff y x).1 (sym ((eq_iff x y).0 same))))
            | inr differs ↦ differs
          ] in
          rw (other, away) (omega (arith, rest))
    ]
