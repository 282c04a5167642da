-- ===== src/Revalidation/Narrow.antt =====
-- When a revalidation is narrowed: packages/application/src/revalidation-plan.ts.
use automation.Prelude.{
  ◌≡◌, ◌≢◌, ◌<◌, refl, sym, ap, ◌∙◌, String, str_eq, eq_iff, true, false, some, List, [], ◌∷◌, ◌++◌,
  arith, inl, inr, Bool-cases, Option-cases, Result-cases, includes, All, All-map, ok,
  includes-append,
}
use automation.Revalidation.{WorkspacePackageDescriptor, Texts, normalize_repo_relative_path}
use automation.Revalidation.Packages.{
  Normalized, Unique, Resolved, validate_descriptors-Unique, all_resolved-Resolved,
}
use automation.Revalidation.Acyclic.{Acyclic}
use automation.Revalidation.Visits.{is_cyclic-Acyclic}
use automation.Revalidation.Depth.{DeepestOwner, owner_of_raw-DeepestOwner}
use automation.Revalidation.Plan.{
  PlanRevalidationInput, NarrowPlan, narrow, validate_descriptors, by_depth, owner_of_raw,
  match_packages, single_package, ineligible_upstream_packages, seed_of, narrowed_of, narrow_plan,
  plan_revalidation,
}

-- The paths are in packages of the given names.
abbrev Owned : Texts → List WorkspacePackageDescriptor → List String → List String → Type 0
Owned t ds out paths =
    All (λ raw. (name : String) × (owner_of_raw t ds raw ≡ some name) × (includes out name ≡ true))
      paths

match_packages-Owned :
    (t : Texts) (ds : List WorkspacePackageDescriptor) (matched paths out : List String)
    → match_packages t ds matched paths ≡ ok out
    → ((y : String) → includes matched y ≡ true → includes out y ≡ true) × Owned t ds out paths
unfolding match_packages
match_packages-Owned t ds matched [] out e =
    let same : matched ≡ out = ground (arith, e) in ((λ y h. rw (← same) h), tt)
match_packages-Owned t ds matched (raw ∷ paths) out e =
    elim (Option-cases (owner_of_raw t ds raw)) [
      | inl outside ↦ absurd (ground (arith, e, outside))
      | inr (name, inside) ↦ elim (Bool-cases (includes matched name)) [
        | inl old ↦
            let (kept, rest) =
              match_packages-Owned t ds matched paths out (rw (match_packages, inside, old) at e) in
            (kept, ((name, inside, kept name old), rest))
        | inr new ↦
            let (kept, rest) =
              match_packages-Owned t ds (matched ++ name ∷ []) paths out
                (rw (match_packages, inside, new) at e) in
            let added : includes (matched ++ name ∷ []) name ≡ true =
              rw (includes-append matched name name, (eq_iff name name).1 refl) refl in
            (
              (λ y h. kept y (rw (includes-append matched name y) (ground (arith, h)))),
              ((name, inside, kept name added), rest),
            )
      ]
    ]

single_package-only :
    (out : List String) (seed : String)
    → single_package out ≡ ok seed
    → (name : String) → includes out name ≡ true
    → name ≡ seed
unfolding single_package
single_package-only [] seed e name h = absurd (cc)
single_package-only (x ∷ []) seed e name h =
    let same : x ≡ seed = ground (arith, e) in
    let found : str_eq x name ≡ true = ground (arith, h) in sym ((eq_iff x name).0 found) ∙ same
single_package-only (x ∷ y ∷ xs) seed e name h = absurd (cc)

-- What the package that changed is, of the normalized packages: every changed path is in it, as the
-- package of the longest directory that the path is in.
pub record Seeded (t : Texts) (input : PlanRevalidationInput) (ds : List WorkspacePackageDescriptor)
    (seed : String) : Type 0 where
  pub not_ready : input.is_pr_ready ≡ false
  pub baseline : input.has_step_baseline ≡ true
  pub later : 1 < input.iteration_index
  pub changed : input.changed_paths ≢ []
  pub as_given : Normalized t input.descriptors ds
  pub unique : Unique ds
  pub resolved : Resolved ds ds
  pub acyclic : Acyclic ds
  pub owned :
      All
        (λ raw.
          (path : String) × (normalize_repo_relative_path t raw ≡ some path)
          × DeepestOwner t ds path seed)
        input.changed_paths
  pub not_shared : seed ≢ "@ai-sdlc/shared"
  pub not_domain : seed ≢ "@ai-sdlc/domain"

seed_of-Seeded :
    (t : Texts) (input : PlanRevalidationInput) (ds : List WorkspacePackageDescriptor)
    (seed : String)
    → seed_of t input ≡ ok (ds, seed)
    → Seeded t input ds seed
unfolding seed_of
seed_of-Seeded t input ds seed e =
    elim (Result-cases (validate_descriptors t [] input.descriptors)) [
      | inr (reason, invalid) ↦ absurd (ground (arith, e, invalid))
      | inl (ds', valid) ↦
          elim (Result-cases (match_packages t (by_depth t ds') [] input.changed_paths)) [
            | inr (reason, outside) ↦ absurd (ground (arith, e, valid, outside))
            | inl (out, matched) ↦ elim (Result-cases (single_package out)) [
              | inr (reason, several) ↦ absurd (ground (arith, e, valid, matched, several))
              | inl (seed', single) ↦
                  let same : ds' ≡ ds = ground (arith, e, valid, matched, single) in
                  let same' : seed' ≡ seed = ground (arith, e, valid, matched, single) in
                  let facts =
                    validate_descriptors-Unique t input.descriptors ds (valid ∙ ap ok same) in
                  let eligible : includes ineligible_upstream_packages seed ≡ false =
                    ground (arith, e, valid, matched, single) in
                  let (kept, owned) =
                    match_packages-Owned t (by_depth t ds') [] input.changed_paths out matched in
                  record {
                    not_ready = ground (arith, e);
                    baseline = ground (arith, e);
                    later = ground (arith, e);
                    changed = ground (arith, e);
                    as_given = facts.0;
                    unique = facts.1;
                    resolved =
                        all_resolved-Resolved ds ds (ground (arith, e, valid, matched, single));
                    acyclic = (λ within.
                        is_cyclic-Acyclic ds within facts.1
                          (ground (arith, e, valid, matched, single)));
                    owned = rw (← same) (
                        All-map
                          (λ raw.
                            (name : String) × (owner_of_raw t (by_depth t ds') raw ≡ some name)
                            × (includes out name ≡ true))
                          (λ raw.
                            (path : String) × (normalize_repo_relative_path t raw ≡ some path)
                            × DeepestOwner t ds' path seed)
                          (λ raw (name, inside, there). owner_of_raw-DeepestOwner t ds' raw seed (
                            inside
                            ∙ ap some (single_package-only out seed' single name there ∙ same')))
                          input.changed_paths owned);
                    not_shared = ground (arith, eligible, eq_iff "@ai-sdlc/shared" seed);
                    not_domain = ground (arith, eligible, eq_iff "@ai-sdlc/domain" seed);
                  }
            ]
          ]
    ]

-- A plan is narrow only for an iteration after the first, with a baseline and not ready for a pull
-- request, whose changed paths, at least one, are all in the directory of the changed package, and in
-- none that is longer of another package. The packages are the given ones with normalized, safe
-- directories and safe names, of which no two are the same, and their dependencies are among them.
-- There is no cycle: a set of them is empty, or one of its packages has no dependency in the set.
-- The changed one is not one of the two that all others depend on, the packages of the plan are
-- those of the code's order of its dependents, and some command is left.
pub plan_revalidation-Seeded :
    (t : Texts) (input : PlanRevalidationInput) (p : NarrowPlan)
    → plan_revalidation t input ≡ narrow p
    → (ds : List WorkspacePackageDescriptor) × Seeded t input ds p.changed_package
      × (narrowed_of t ds p.changed_package ≡ ok p.narrowed_packages)
      × (p.commands ≢ [])
unfolding plan_revalidation narrow_plan
plan_revalidation-Seeded t input p e = elim (Result-cases (seed_of t input)) [
  | inr (reason, wide) ↦ absurd (ground (arith, e, wide))
  | inl (found, seeds) ↦ elim (Result-cases (narrowed_of t found.0 found.1)) [
    | inr (reason, wide) ↦ absurd (ground (arith, e, seeds, wide))
    | inl (narrowed, narrows) ↦
        let same : p.changed_package ≡ found.1 = ground (arith, e, seeds, narrows) in
        let same' : narrowed ≡ p.narrowed_packages = ground (arith, e, seeds, narrows) in
        (
          found.0,
          rw same (seed_of-Seeded t input found.0 found.1 seeds),
          rw same (narrows ∙ ap ok same'),
          ground (arith, e, seeds, narrows),
        )
  ]
]
