-- ===== src/Revalidation/Packages.antt =====
-- What the validation of the packages establishes: packages/application/src/revalidation-plan.ts.
use automation.Prelude.{
  ◌≡◌, ◌≢◌, ◌∙◌, sym, refl, String, str_eq, eq_iff, true, false, not, ◌||◌, some, List, [], ◌∷◌,
  ◌++◌, arith, inl, inr, Bool-cases, Option-cases, Result-cases, includes, All, ok, is_some,
}
use mathlib.Core.List.{append_assoc, append-nil}
use automation.Revalidation.{
  WorkspacePackageDescriptor, Texts, find_package, normalize_repo_relative_path,
}
use automation.Revalidation.Graph.{names}
use automation.Revalidation.Plan.{
  validate_descriptors, valid_directory, has_directory, all_found, all_resolved,
}

-- The packages are those given, in their order, with normalized directories; their names are not
-- empty, and names and directories are safe.
abbrev pub Normalized :
    Texts → List WorkspacePackageDescriptor → List WorkspacePackageDescriptor → Type 0
Normalized t [] [] = Unit
Normalized t (d ∷ ds) (e ∷ es) =
    ((dir : String) × (normalize_repo_relative_path t d.directory ≡ some dir)
      × (e ≡ record d { directory = dir })
      × (t.is_safe_directory dir ≡ true)
      × (t.is_safe_name d.name ≡ true)
      × (d.name ≢ ""))
    × Normalized t ds es
Normalized t [] (e ∷ es) = ⊥
Normalized t (d ∷ ds) [] = ⊥

-- The package has another name and another directory.
abbrev pub Differs : WorkspacePackageDescriptor → WorkspacePackageDescriptor → Type 0
Differs d e = (e.name ≢ d.name) × (e.directory ≢ d.directory)

-- No two packages have the same name or the same directory.
abbrev pub Unique : List WorkspacePackageDescriptor → Type 0
Unique [] = Unit
Unique (d ∷ ds) = All (λ e. Differs d e) ds × Unique ds

All-snoc :
    (d e : WorkspacePackageDescriptor) (ds : List WorkspacePackageDescriptor)
    → All (λ x. Differs d x) ds
    → Differs d e
    → All (λ x. Differs d x) (ds ++ e ∷ [])
All-snoc d e [] a h = (h, tt)
All-snoc d e (x ∷ xs) a h = (a.0, All-snoc d e xs a.1 h)

Unique-snoc :
    (e : WorkspacePackageDescriptor) (ds : List WorkspacePackageDescriptor)
    → Unique ds
    → is_some (find_package e.name ds) ≡ false
    → has_directory e.directory ds ≡ false
    → Unique (ds ++ e ∷ [])
unfolding find_package
Unique-snoc e [] u n d = (tt, tt)
Unique-snoc e (x ∷ xs) u n d =
    let named : str_eq x.name e.name ≡ false = ground (arith, n) in
    let placed : str_eq x.directory e.directory ≡ false = ground (arith, d) in
    let differs : Differs x e = (
      ground (arith, named, eq_iff x.name e.name),
      ground (arith, placed, eq_iff x.directory e.directory),
    ) in
    (All-snoc x e xs u.0 differs, Unique-snoc e xs u.1 (rw named at n) (ground (arith, d, placed)))

-- What is accepted after those accepted already.
abbrev Accepted :
    Texts
    → List WorkspacePackageDescriptor
    → List WorkspacePackageDescriptor
    → List WorkspacePackageDescriptor
    → Type 0
Accepted t accepted ds out =
    (es : List WorkspacePackageDescriptor) × (out ≡ accepted ++ es)
    × Normalized t ds es
    × Unique out

valid_directory_lem :
    (t : Texts) (d : WorkspacePackageDescriptor) (dir : String)
    → valid_directory t d ≡ ok dir
    → (normalize_repo_relative_path t d.directory ≡ some dir) × (t.is_safe_directory dir ≡ true)
valid_directory_lem t d dir h = elim (Option-cases (normalize_repo_relative_path t d.directory)) [
  | inl invalid ↦ absurd (ground (arith, h, invalid))
  | inr (dir', normal) ↦ elim (Bool-cases (t.is_safe_directory dir')) [
    | inl safe ↦
        let same : dir' ≡ dir = ground (arith, h, normal, safe) in rw (← same) (normal, safe)
    | inr unsafe ↦ absurd (ground (arith, h, normal, unsafe))
  ]
]

validate_descriptors-Accepted :
    (t : Texts) (accepted ds out : List WorkspacePackageDescriptor)
    → Unique accepted
    → validate_descriptors t accepted ds ≡ ok out
    → Accepted t accepted ds out
unfolding validate_descriptors
validate_descriptors-Accepted t accepted [] out u h =
    let same : accepted ≡ out = ground (arith, h) in
    ([], sym same ∙ sym (append-nil accepted), tt, rw same at u)
validate_descriptors-Accepted t accepted (d ∷ ds) out u h =
    elim (Bool-cases (str_eq d.name "" || not (t.is_safe_name d.name))) [
      | inl unsafe ↦ absurd (ground (arith, h, unsafe))
      | inr safe ↦ elim (Result-cases (valid_directory t d)) [
        | inr (reason, invalid) ↦ absurd (ground (arith, h, safe, invalid))
        | inl (dir, valid) ↦
            elim (Bool-cases
              (is_some (find_package d.name accepted) || has_directory dir accepted)) [
                | inl taken ↦ absurd (ground (arith, h, safe, valid, taken))
                | inr free ↦
                    let e : WorkspacePackageDescriptor = record d { directory = dir } in
                    let unique =
                      Unique-snoc e accepted u (ground (arith, free)) (ground (arith, free)) in
                    let (es, all, normal, distinct) =
                      validate_descriptors-Accepted t (accepted ++ e ∷ []) ds out unique
                        (ground (arith, h, safe, valid, free)) in
                    let (path, safe_path) = valid_directory_lem t d dir valid in
                    (
                      e ∷ es,
                      all ∙ append_assoc accepted (e ∷ []) es,
                      (
                        (
                          dir,
                          path,
                          refl,
                          safe_path,
                          ground (arith, safe),
                          ground (arith, safe, eq_iff d.name ""),
                        ),
                        normal,
                      ),
                      distinct,
                    )
              ]
      ]
    ]

-- The packages that the code goes on with are the given ones, normalized, without a name or a
-- directory twice.
pub validate_descriptors-Unique :
    (t : Texts) (ds out : List WorkspacePackageDescriptor)
    → validate_descriptors t [] ds ≡ ok out
    → Normalized t ds out × Unique out
validate_descriptors-Unique t ds out h =
    let (es, same, normal, unique) = validate_descriptors-Accepted t [] ds out tt h in
    (rw (← same) at normal, unique)

-- Every dependency of each of the packages is a package.
abbrev pub Resolved : List WorkspacePackageDescriptor → List WorkspacePackageDescriptor → Type 0
Resolved all ds =
    All (λ d. All (λ dep. includes (names all) dep ≡ true) d.workspace_dependencies) ds

found_named :
    (dep : String) (ds : List WorkspacePackageDescriptor)
    → is_some (find_package dep ds) ≡ true
    → includes (names ds) dep ≡ true
unfolding find_package
found_named dep [] h = ground (arith, h)
found_named dep (d ∷ ds) h = ground (arith, h, found_named dep ds)

all_found-named :
    (all : List WorkspacePackageDescriptor) (deps : List String)
    → all_found all deps ≡ true
    → All (λ dep. includes (names all) dep ≡ true) deps
all_found-named all [] h = tt
all_found-named all (dep ∷ deps) h =
    (found_named dep all (ground (arith, h)), all_found-named all deps (ground (arith, h)))

pub all_resolved-Resolved :
    (all ds : List WorkspacePackageDescriptor) → all_resolved all ds ≡ true → Resolved all ds
all_resolved-Resolved all [] h = tt
all_resolved-Resolved all (d ∷ ds) h = (
  all_found-named all d.workspace_dependencies (ground (arith, h)),
  all_resolved-Resolved all ds (ground (arith, h)),
)
