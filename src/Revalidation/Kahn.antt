-- ===== src/Revalidation/Kahn.antt =====
-- Sets of names, and the start of Kahn's algorithm: packages/application/src/revalidation-plan.ts.
use automation.Prelude.{
  ◌≤◌, ◌≡◌, ◌≢◌, refl, sym, String, str_eq, eq_iff, Bool, true, false, List, [], ◌∷◌, ◌++◌, ◌==◌,
  if◌then◌else◌, arith, inl, inr, ◌⊎◌, Bool-cases, includes, All, length,
}
use automation.Revalidation.{WorkspacePackageDescriptor}
use automation.Revalidation.Graph.{names, distinct_size, get_degree, zeros, in_degrees}
use automation.Revalidation.Packages.{Unique}
use automation.Revalidation.Degrees.{Distinct, absent_name}

pub All-both :
    (P Q R : WorkspacePackageDescriptor → Type 0)
    → ((d : WorkspacePackageDescriptor) → P d → Q d → R d)
    → (ds : List WorkspacePackageDescriptor) → All P ds
    → All Q ds
    → All R ds
All-both P Q R f [] p q = tt
All-both P Q R f (d ∷ ds) p q = (f d p.0 q.0, All-both P Q R f ds p.1 q.1)

pub includes-both :
    (xs ys : List String) (y : String)
    → includes (xs ++ ys) y ≡ true
    → (includes xs y ≡ true) ⊎ (includes ys y ≡ true)
includes-both [] ys y h = inr h
includes-both (x ∷ xs) ys y h = elim (Bool-cases (str_eq x y)) [
  | inl here ↦ inl (rw here refl)
  | inr later ↦ elim (includes-both xs ys y (rw later at h)) [
    | inl left ↦ inl (rw later left)
    | inr right ↦ inr right
  ]
]

includes-neither :
    (xs ys : List String) (y : String)
    → includes xs y ≡ false
    → includes ys y ≡ false
    → includes (xs ++ ys) y ≡ false
includes-neither [] ys y h k = k
includes-neither (x ∷ xs) ys y h k =
    let other : str_eq x y ≡ false = ground (arith, h) in
    rw other (includes-neither xs ys y (rw other at h) k)

pub Distinct-append :
    (xs ys : List String)
    → Distinct xs
    → Distinct ys
    → ((y : String) → includes xs y ≡ true → includes ys y ≡ false)
    → Distinct (xs ++ ys)
Distinct-append [] ys u v apart = v
Distinct-append (x ∷ xs) ys (new, u) v apart = (
  includes-neither xs ys x new (apart x (rw ((eq_iff x x).1 refl) refl)),
  Distinct-append xs ys u v (λ y h. apart y (ground (arith, h))),
)

abbrev pub free_names : (String → Bool) → List String → List String
free_names within [] = []
free_names within (n ∷ ns) = if within n then free_names within ns else n ∷ free_names within ns

pub free_names-includes :
    (within : String → Bool) (ns : List String) (y : String)
    → includes ns y ≡ true
    → within y ≡ false
    → includes (free_names within ns) y ≡ true
free_names-includes within [] y h f = h
free_names-includes within (n ∷ ns) y h f = elim (Bool-cases (str_eq n y)) [
  | inl same ↦ let out : within n ≡ false = rw ((eq_iff n y).0 same) f in rw (out, same) refl
  | inr other ↦
      let rest = free_names-includes within ns y (rw other at h) f in
      elim (Bool-cases (within n)) [ inl in_set ↦ rw in_set rest | inr out ↦ rw (out, other) rest ]
]

pub free_names-length :
    (within : String → Bool) (ds : List WorkspacePackageDescriptor)
    → length (free_names within (names ds)) ≤ length ds
free_names-length within [] = omega arith
free_names-length within (d ∷ ds) = ground (arith, free_names-length within ds)

pub free_names-All :
    (within : String → Bool) (ds : List WorkspacePackageDescriptor)
    → length ds ≤ length (free_names within (names ds))
    → All (λ d. within d.name ≡ false) ds
free_names-All within [] h = tt
free_names-All within (d ∷ ds) h =
    let most = free_names-length within ds in
    elim (Bool-cases (within d.name)) [
      | inl in_set ↦ absurd (omega (arith, rw in_set at h, most))
      | inr out ↦ (out, free_names-All within ds (omega (arith, rw out at h)))
    ]

pub in_degrees-get :
    (ds : List WorkspacePackageDescriptor)
    → Unique ds
    → All (λ d. get_degree 0 (in_degrees ds) d.name ≡ distinct_size d.workspace_dependencies) ds
in_degrees-get [] u = tt
in_degrees-get (d ∷ ds) u = (
  rw ((eq_iff d.name d.name).1 refl) refl,
  All-both (λ e. (e.name ≢ d.name) × (e.directory ≢ d.directory))
      (λ e. get_degree 0 (in_degrees ds) e.name ≡ distinct_size e.workspace_dependencies)
      (λ e. get_degree 0 (in_degrees (d ∷ ds)) e.name ≡ distinct_size e.workspace_dependencies)
      (λ e differs h. elim (Bool-cases (str_eq d.name e.name)) [
        | inl same ↦ absurd (differs.0 (sym ((eq_iff d.name e.name).0 same)))
        | inr other ↦ rw other h
      ])
      ds u.0 (in_degrees-get ds u.1),
)

pub zeros-degree :
    (ds : List WorkspacePackageDescriptor) (y : String)
    → Unique ds
    → includes (zeros (in_degrees ds)) y ≡ true
    → (includes (names ds) y ≡ true) × (get_degree 0 (in_degrees ds) y ≡ 0)
zeros-degree [] y u h = absurd (ground (arith, h))
zeros-degree (d ∷ ds) y u h = elim (Bool-cases (str_eq d.name y)) [
  | inl same ↦ elim (Bool-cases (distinct_size d.workspace_dependencies == 0)) [
    | inl none_left ↦ (rw same refl, rw same (ground (arith, none_left)))
    | inr some_left ↦
        let later : includes (zeros (in_degrees ds)) y ≡ true = rw some_left at h in
        let e : d.name ≡ y = (eq_iff d.name y).0 same in
        let absent : includes (names ds) y ≡ false = rw (← e) (absent_name d ds u.0) in
        absurd (ground (arith, (zeros-degree ds y u.1 later).0, absent))
  ]
  | inr other ↦
      let later : includes (zeros (in_degrees ds)) y ≡ true =
        elim (Bool-cases (distinct_size d.workspace_dependencies == 0)) [
          | inl none_left ↦ rw (none_left, other) at h
          | inr some_left ↦ rw some_left at h
        ] in
      rw other (zeros-degree ds y u.1 later)
]

pub zeros-Distinct :
    (ds : List WorkspacePackageDescriptor) → Unique ds → Distinct (zeros (in_degrees ds))
zeros-Distinct [] u = tt
zeros-Distinct (d ∷ ds) u =
    let rest = zeros-Distinct ds u.1 in
    elim (Bool-cases (distinct_size d.workspace_dependencies == 0)) [
      | inl none_left ↦ rw none_left (
        elim (Bool-cases (includes (zeros (in_degrees ds)) d.name)) [
          | inl twice ↦
              absurd (ground (arith, (zeros-degree ds d.name u.1 twice).0, absent_name d ds u.0))
          | inr once ↦ once
        ],
        rest,
      )
      | inr some_left ↦ rw some_left rest
    ]
