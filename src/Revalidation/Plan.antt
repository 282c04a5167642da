-- ===== src/Revalidation/Plan.antt =====
-- The plan of a revalidation, `planRevalidation`: packages/application/src/revalidation-plan.ts.
use automation.Prelude.{
  ℕ, zero, suc, ◌-◌, String, str_eq, Bool, true, false, not, ◌&&◌, ◌||◌, Option, none, some, List,
  [], ◌∷◌, ◌++◌, if◌then◌else◌, Result, ok, err, ◌>>=◌, ◌>>◌, throw_if, leb, ◌==◌, includes, length,
  is_some,
}
use automation.Revalidation.{
  WorkspacePackageDescriptor, FullValidationReason, pr_ready, missing_baseline, first_iteration,
  empty_changed_files, invalid_descriptor, ambiguous_ownership, unresolved_dependency,
  cyclic_dependency, outside_package, multiple_packages, upstream_package, empty_narrowed_commands,
  ValidationCommand, line, words, Texts, join, is_under, find_package, normalize_repo_relative_path,
}
use automation.Revalidation.Graph.{
  direct_dependents, is_cyclic, closure, Degrees, distinct_size, get_degree, set_degree, zeros,
}
use automation.Revalidation.Commands.{Scopes, Narrowing, rewrite_commands}

pub record PlanRevalidationInput : Type 0 where
  pub changed_paths : List String
  pub iteration_index : ℕ
  pub has_step_baseline : Bool
  pub is_pr_ready : Bool
  pub descriptors : List WorkspacePackageDescriptor
  pub commands : List ValidationCommand
  pub tiers : Option (List (List String))
  pub command_scopes : Scopes

pub record NarrowPlan : Type 0 where
  pub changed_package : String
  pub narrowed_packages : List String
  pub commands : List ValidationCommand
  pub tiers : Option (List (List String))

pub data RevalidationPlan : Type 0 where
  full :
      FullValidationReason → List ValidationCommand → Option (List (List String)) → RevalidationPlan
  narrow : NarrowPlan → RevalidationPlan

abbrev pub has_directory : String → List WorkspacePackageDescriptor → Bool
has_directory dir [] = false
has_directory dir (d ∷ ds) = str_eq d.directory dir || has_directory dir ds

-- A descriptor with its directory normalized, where it is valid.
abbrev pub valid_directory : Texts → WorkspacePackageDescriptor → Result FullValidationReason String
valid_directory t d = elim (normalize_repo_relative_path t d.directory) [
  | none ↦ err invalid_descriptor
  | some dir ↦ if t.is_safe_directory dir then ok dir else err invalid_descriptor
]

-- The descriptors after those that are accepted already.
unfoldable pub validate_descriptors :
    Texts
    → List WorkspacePackageDescriptor
    → List WorkspacePackageDescriptor
    → Result FullValidationReason (List WorkspacePackageDescriptor)
unfolding find_package normalize_repo_relative_path
validate_descriptors t accepted [] = ok accepted
validate_descriptors t accepted (d ∷ ds) = do
  throw_if (str_eq d.name "" || not (t.is_safe_name d.name)) invalid_descriptor
  dir ← valid_directory t d
  throw_if (is_some (find_package d.name accepted)) ambiguous_ownership
  throw_if (has_directory dir accepted) ambiguous_ownership
  validate_descriptors t (accepted ++ record d { directory = dir } ∷ []) ds

abbrev pub all_found : List WorkspacePackageDescriptor → List String → Bool
all_found all [] = true
all_found all (dep ∷ deps) = is_some (find_package dep all) && all_found all deps

-- Whether every dependency of the given packages is one of all packages.
abbrev pub all_resolved : List WorkspacePackageDescriptor → List WorkspacePackageDescriptor → Bool
all_resolved all [] = true
all_resolved all (d ∷ ds) = all_found all d.workspace_dependencies && all_resolved all ds

-- `sort` by the length of the directory, the longest first, which keeps the order of equals.
abbrev pub insert_deepest :
    Texts
    → WorkspacePackageDescriptor
    → List WorkspacePackageDescriptor
    → List WorkspacePackageDescriptor
insert_deepest t d [] = d ∷ []
insert_deepest t d (e ∷ es) =
    let rest = insert_deepest t d es in
    if leb (t.text_length e.directory) (t.text_length d.directory) then d ∷ e ∷ es else e ∷ rest

unfoldable pub by_depth : Texts → List WorkspacePackageDescriptor → List WorkspacePackageDescriptor
by_depth t [] = []
by_depth t (d ∷ ds) = insert_deepest t d (by_depth t ds)

-- The first package, of those in order of depth, that a path is in.
unfoldable pub owner_of : Texts → List WorkspacePackageDescriptor → String → Option String
owner_of t [] path = none
owner_of t (d ∷ ds) path = if is_under t path d.directory then some d.name else owner_of t ds path

abbrev pub owner_of_raw : Texts → List WorkspacePackageDescriptor → String → Option String
owner_of_raw t ds raw = elim (normalize_repo_relative_path t raw) [
  | none ↦ none
  | some path ↦ owner_of t ds path
]

-- The packages that the paths are in, after those that are matched already.
unfoldable pub match_packages :
    Texts
    → List WorkspacePackageDescriptor
    → List String
    → List String
    → Result FullValidationReason (List String)
unfolding owner_of normalize_repo_relative_path
match_packages t ds matched [] = ok matched
match_packages t ds matched (raw ∷ paths) = elim (owner_of_raw t ds raw) [
  | none ↦ err outside_package
  | some name ↦
      match_packages t ds (if includes matched name then matched else matched ++ name ∷ []) paths
]

unfoldable pub single_package : List String → Result FullValidationReason String
single_package [] = err outside_package
single_package (x ∷ []) = ok x
single_package (x ∷ y ∷ xs) = err multiple_packages

-- `INELIGIBLE_UPSTREAM_PACKAGES`.
abbrev pub ineligible_upstream_packages : List String
ineligible_upstream_packages = "@ai-sdlc/shared" ∷ "@ai-sdlc/domain" ∷ []

abbrev pub in_closure : List String → List String → List String
in_closure found [] = []
in_closure found (dep ∷ deps) =
    let rest = in_closure found deps in if includes found dep then dep ∷ rest else rest

-- The degrees of the packages of the closure within it; `none` if one of them is not found.
abbrev pub closure_degrees :
    List WorkspacePackageDescriptor → List String → List String → Option Degrees
closure_degrees ds found [] = some []
closure_degrees ds found (name ∷ more) = elim (find_package name ds) [
  | none ↦ none
  | some d ↦ elim (closure_degrees ds found more) [
    | none ↦ none
    | some rest ↦ some ((name, distinct_size (in_closure found d.workspace_dependencies)) ∷ rest)
  ]
]

abbrev pub insert_name : Texts → String → List String → List String
insert_name t x [] = x ∷ []
insert_name t x (y ∷ ys) =
    let rest = insert_name t x ys in if t.locale_le x y then x ∷ y ∷ ys else y ∷ rest

-- `readyQueue.sort((a, b) => a.localeCompare(b))`.
unfoldable pub sort_names : Texts → List String → List String
sort_names t [] = []
sort_names t (x ∷ xs) = insert_name t x (sort_names t xs)

-- The dependents of the closure, each one degree less; one that comes to zero is put into the queue.
unfoldable pub release_ready :
    Texts → List String → List String → Degrees → List String → Degrees × List String
unfolding sort_names
release_ready t found [] degrees ready = (degrees, ready)
release_ready t found (dep ∷ deps) degrees ready =
    let deg = get_degree 1 degrees dep in
    let inside = includes found dep in
    let degrees' = if inside then set_degree degrees dep (deg - 1) else degrees in
    let ready' = if inside && deg == 1 then sort_names t (ready ++ dep ∷ []) else ready in
    release_ready t found deps degrees' ready'

-- The closure in topological order, within the fuel.
unfoldable pub order_closure :
    Texts → List WorkspacePackageDescriptor → List String → ℕ → Degrees → List String → List String
unfolding direct_dependents release_ready
order_closure t ds found zero degrees ready = []
order_closure t ds found (suc fuel) degrees [] = []
order_closure t ds found (suc fuel) degrees (current ∷ ready) =
    let (degrees', ready') = release_ready t found (direct_dependents ds current) degrees ready in
    current ∷ order_closure t ds found fuel degrees' ready'

abbrev pub any_bats : List WorkspacePackageDescriptor → List String → Bool
any_bats ds [] = false
any_bats ds (name ∷ more) = elim (find_package name ds) [
  | none ↦ any_bats ds more
  | some d ↦ d.has_bats || any_bats ds more
]

abbrev lines : List String → List ValidationCommand
lines [] = []
lines (x ∷ xs) = line x ∷ lines xs

abbrev text_of : ValidationCommand → String
text_of (line text) = text
text_of (words ws) = join " " ws

abbrev texts_of : List ValidationCommand → List String
texts_of [] = []
texts_of (c ∷ cs) = text_of c ∷ texts_of cs

-- The tiers, without those of which no command is left.
unfoldable pub rewrite_tiers :
    Texts
    → Scopes
    → Narrowing
    → List (List String)
    → Result FullValidationReason (List (List String))
unfolding rewrite_commands
rewrite_tiers t scopes n [] = ok []
rewrite_tiers t scopes n (tier ∷ tiers) = do
  commands ← rewrite_commands t scopes n (lines tier)
  rest ← rewrite_tiers t scopes n tiers
  ok (elim commands [ [] ↦ rest | c ∷ cs ↦ texts_of (c ∷ cs) ∷ rest ])

unfoldable pub rewrite_optional_tiers :
    Texts
    → Scopes
    → Narrowing
    → Option (List (List String))
    → Result FullValidationReason (Option (List (List String)))
unfolding rewrite_tiers
rewrite_optional_tiers t scopes n none = ok none
rewrite_optional_tiers t scopes n (some tiers) = do
  rest ← rewrite_tiers t scopes n tiers
  ok (some rest)

abbrev pub is_empty : {A : Type 0} → List A → Bool
is_empty [] = true
is_empty (x ∷ xs) = false

-- From the eligibility to the package that changed, with the normalized descriptors.
unfoldable pub seed_of :
    Texts
    → PlanRevalidationInput
    → Result FullValidationReason (List WorkspacePackageDescriptor × String)
unfolding validate_descriptors is_cyclic by_depth match_packages single_package
seed_of t input = do
  throw_if input.is_pr_ready pr_ready
  throw_if (not input.has_step_baseline) missing_baseline
  throw_if (leb input.iteration_index 1) first_iteration
  throw_if (is_empty input.changed_paths) empty_changed_files
  ds ← validate_descriptors t [] input.descriptors
  throw_if (not (all_resolved ds ds)) unresolved_dependency
  throw_if (is_cyclic ds) cyclic_dependency
  matched ← match_packages t (by_depth t ds) [] input.changed_paths
  seed ← single_package matched
  throw_if (includes ineligible_upstream_packages seed) upstream_package
  ok (ds, seed)

-- The closure with its order: a package that is not found ends it.
unfoldable pub narrowed_of :
    Texts → List WorkspacePackageDescriptor → String → Result FullValidationReason (List String)
unfolding closure order_closure sort_names
narrowed_of t ds seed = elim (closure ds seed) [
  | none ↦ err invalid_descriptor
  | some found ↦ elim (closure_degrees ds found found) [
    | none ↦ err invalid_descriptor
    | some degrees ↦
        ok (order_closure t ds found (suc (length found)) degrees (sort_names t (zeros degrees)))
  ]
]

unfoldable pub narrow_plan : Texts → PlanRevalidationInput → Result FullValidationReason NarrowPlan
unfolding seed_of narrowed_of rewrite_commands rewrite_optional_tiers
narrow_plan t input = do
  found ← seed_of t input
  narrowed ← narrowed_of t found.0 found.1
  let n : Narrowing = record {
    seed = found.1;
    narrowed = narrowed;
    packages = found.0;
    has_bats = any_bats found.0 narrowed;
    changed_paths = input.changed_paths;
  }
  commands ← rewrite_commands t input.command_scopes n input.commands
  throw_if (is_empty commands) empty_narrowed_commands
  tiers ← rewrite_optional_tiers t input.command_scopes n input.tiers
  ok (record {
    changed_package = found.1;
    narrowed_packages = narrowed;
    commands = commands;
    tiers = tiers;
  })

unfoldable pub plan_revalidation : Texts → PlanRevalidationInput → RevalidationPlan
unfolding narrow_plan
plan_revalidation t input = elim (narrow_plan t input) [
  | err reason ↦ full reason input.commands input.tiers
  | ok plan ↦ narrow plan
]
