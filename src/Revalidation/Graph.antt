-- ===== src/Revalidation/Graph.antt =====
-- The graph of the packages: packages/application/src/revalidation-plan.ts. A queue that is not empty
-- gives a name, and none is empty, so that `if (!current) break` is not written.
use automation.Prelude.{
  ℕ, zero, suc, ◌+◌, ◌-◌, String, str_eq, Bool, not, Option, none, some, List, [], ◌∷◌, ◌++◌, ◌==◌,
  if◌then◌else◌, includes, length,
}
use automation.Revalidation.{WorkspacePackageDescriptor}

abbrev pub names : List WorkspacePackageDescriptor → List String
names [] = []
names (d ∷ ds) = d.name ∷ names ds

-- `directDependentsMap.get(name)`.
unfoldable pub direct_dependents : List WorkspacePackageDescriptor → String → List String
direct_dependents [] name = []
direct_dependents (d ∷ ds) name =
    let rest = direct_dependents ds name in
    if includes d.workspace_dependencies name then d.name ∷ rest else rest

-- `new Set(xs).size`.
abbrev pub distinct_size : List String → ℕ
distinct_size [] = 0
distinct_size (x ∷ xs) = (if includes xs x then 0 else 1) + distinct_size xs

abbrev pub Degrees : Type 0
Degrees = List (String × ℕ)

abbrev pub get_degree : ℕ → Degrees → String → ℕ
get_degree other [] name = other
get_degree other ((n, deg) ∷ rest) name = if str_eq n name then deg else get_degree other rest name

abbrev pub set_degree : Degrees → String → ℕ → Degrees
set_degree [] name deg = (name, deg) ∷ []
set_degree ((n, old) ∷ rest) name deg =
    let later = set_degree rest name deg in
    if str_eq n name then (n, deg) ∷ rest else (n, old) ∷ later

-- The names of degree zero.
abbrev pub zeros : Degrees → List String
zeros [] = []
zeros ((n, deg) ∷ rest) = let later = zeros rest in if deg == 0 then n ∷ later else later

-- The dependents that a package is taken from, each one degree less, and those that come to zero. A
-- degree below zero, which comes to zero no more, is zero here.
unfoldable pub lower : ℕ → List String → Degrees → Degrees × List String
lower other [] degrees = (degrees, [])
lower other (dep ∷ deps) degrees =
    let deg = get_degree other degrees dep in
    let (after, freed) = lower other deps (set_degree degrees dep (deg - 1)) in
    (after, if deg == 1 then dep ∷ freed else freed)

abbrev pub in_degrees : List WorkspacePackageDescriptor → Degrees
in_degrees [] = []
in_degrees (d ∷ ds) = (d.name, distinct_size d.workspace_dependencies) ∷ in_degrees ds

-- The loop of Kahn's algorithm: how many packages it visits, within the fuel.
unfoldable pub count_visited : List WorkspacePackageDescriptor → ℕ → List String → Degrees → ℕ
unfolding direct_dependents lower
count_visited ds zero queue degrees = 0
count_visited ds (suc fuel) [] degrees = 0
count_visited ds (suc fuel) (current ∷ queue) degrees =
    let (degrees', freed) = lower 0 (direct_dependents ds current) degrees in
    suc (count_visited ds fuel (queue ++ freed) degrees')

-- A package is visited at most once, so that one more turn than there are packages is enough.
unfoldable pub is_cyclic : List WorkspacePackageDescriptor → Bool
unfolding count_visited
is_cyclic ds =
    let degrees = in_degrees ds in
    not (count_visited ds (suc (length ds)) (zeros degrees) degrees == length ds)

-- The members that are new, added to a set and to a queue.
unfoldable pub add_new : List String → List String → List String → List String × List String
add_new [] seen queue = (seen, queue)
add_new (x ∷ xs) seen queue =
    let skipped = add_new xs seen queue in
    let added = add_new xs (seen ++ x ∷ []) (queue ++ x ∷ []) in
    if includes seen x then skipped else added

-- The search for the packages that depend on those of the queue; `none` if the fuel runs out.
unfoldable pub search_dependents :
    List WorkspacePackageDescriptor → ℕ → List String → List String → Option (List String)
unfolding direct_dependents add_new
search_dependents ds fuel [] seen = some seen
search_dependents ds zero (x ∷ queue) seen = none
search_dependents ds (suc fuel) (x ∷ queue) seen =
    let (seen', queue') = add_new (direct_dependents ds x) seen queue in
    search_dependents ds fuel queue' seen'

unfoldable pub closure : List WorkspacePackageDescriptor → String → Option (List String)
unfolding search_dependents
closure ds seed = search_dependents ds (suc (length ds)) (seed ∷ []) (seed ∷ [])
