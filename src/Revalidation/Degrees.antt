-- ===== src/Revalidation/Degrees.antt =====
-- The degrees of the packages and how a visit lowers them:
-- packages/application/src/revalidation-plan.ts.
use automation.Prelude.{
  ℕ, ◌-◌, ◌≡◌, refl, sym, ◌∙◌, String, str_eq, eq_iff, true, false, List, [], ◌∷◌, ◌==◌,
  if◌then◌else◌, arith, inl, inr, Bool-cases, includes, All, All-map,
}
use automation.Revalidation.{WorkspacePackageDescriptor}
use automation.Revalidation.Graph.{names, direct_dependents, Degrees, get_degree, set_degree, lower}
use automation.Revalidation.Packages.{Unique, Differs}
use automation.Revalidation.Closure.{direct_dependents-names}

-- No text occurs twice.
abbrev pub Distinct : List String → Type 0
Distinct [] = Unit
Distinct (x ∷ xs) = (includes xs x ≡ false) × Distinct xs

get-set_degree :
    (degrees : Degrees) (name : String) (deg : ℕ) (n : String)
    → get_degree 0 (set_degree degrees name deg) n
      ≡ (if str_eq name n then deg else get_degree 0 degrees n)
get-set_degree [] name deg n = refl
get-set_degree ((m, old) ∷ rest) name deg n = elim (Bool-cases (str_eq m name)) [
  | inl here ↦ let e : m ≡ name = (eq_iff m name).0 here in rw (here, e) (ground arith)
  | inr later ↦ elim (Bool-cases (str_eq m n)) [
    | inl asked ↦
        let e : m ≡ n = (eq_iff m n).0 asked in
        let other : str_eq name n ≡ false =
          ground (arith, later, e, eq_iff name n, eq_iff m name, sym e) in
        rw (later, asked, other) refl
    | inr passed ↦ rw (later, passed) (get-set_degree rest name deg n)
  ]
]

-- A visit lowers the degree of each dependent by one, and no other.
pub lowered :
    (deps : List String) (degrees : Degrees) (n : String)
    → Distinct deps
    → get_degree 0 (lower 0 deps degrees).0 n
      ≡ get_degree 0 degrees n - (if includes deps n then 1 else 0)
unfolding lower
lowered [] degrees n u = omega arith
lowered (dep ∷ deps) degrees n (new, u) =
    let deg = get_degree 0 degrees dep in
    let rest = lowered deps (set_degree degrees dep (deg - 1)) n u in
    let set = get-set_degree degrees dep (deg - 1) n in
    elim (Bool-cases (str_eq dep n)) [
      | inl same ↦
          let e : dep ≡ n = (eq_iff dep n).0 same in
          let gone : includes deps n ≡ false = rw (← e) new in
          let now : get_degree 0 (set_degree degrees dep (deg - 1)) n ≡ get_degree 0 degrees n - 1 =
            set ∙ rw (same, e) refl in
          rw (same) (rest ∙ rw (gone, now) (omega arith))
      | inr other ↦
          let now : get_degree 0 (set_degree degrees dep (deg - 1)) n ≡ get_degree 0 degrees n =
            set ∙ rw other refl in
          rw other (rest ∙ rw now refl)
    ]

-- The dependents that a visit frees are distinct, and their degree was one.
pub freed-Distinct :
    (deps : List String) (degrees : Degrees)
    → Distinct deps
    → Distinct (lower 0 deps degrees).1
      × ((y : String)
          → includes (lower 0 deps degrees).1 y ≡ true
          → (includes deps y ≡ true) × (get_degree 0 degrees y ≡ 1))
unfolding lower
freed-Distinct [] degrees u = (tt, λ y h. absurd (ground (arith, h)))
freed-Distinct (dep ∷ deps) degrees (new, u) =
    let deg = get_degree 0 degrees dep in
    let degrees' = set_degree degrees dep (deg - 1) in
    let (distinct, from) = freed-Distinct deps degrees' u in
    let from' : (y : String)
        → includes (lower 0 deps degrees').1 y ≡ true
        → (str_eq dep y ≡ false) × (includes deps y ≡ true) × (get_degree 0 degrees y ≡ 1) =
      λ y h. elim (Bool-cases (str_eq dep y)) [
        | inl same ↦
            let e : dep ≡ y = (eq_iff dep y).0 same in
            let gone : includes deps y ≡ false = rw (← e) new in
            absurd (ground (arith, gone, (from y h).0))
        | inr other ↦ (
          other,
          (from y h).0,
          sym (get-set_degree degrees dep (deg - 1) y ∙ rw other refl) ∙ (from y h).1,
        )
      ] in
    let absent : includes (lower 0 deps degrees').1 dep ≡ false =
      elim (Bool-cases (includes (lower 0 deps degrees').1 dep)) [
        | inl there ↦ absurd (ground (arith, (from' dep there).0, (eq_iff dep dep).1 refl))
        | inr gone ↦ gone
      ] in
    elim (Bool-cases (deg == 1)) [
      | inl frees ↦ rw frees (
        (absent, distinct),
        λ y h. elim (Bool-cases (str_eq dep y)) [
          | inl same ↦
              let e : dep ≡ y = (eq_iff dep y).0 same in
              let one : get_degree 0 degrees dep ≡ 1 = ground (arith, frees) in
              (rw same refl, rw (← e) one)
          | inr other ↦
              let (differs, member, one) = from' y (ground (arith, h, other)) in
              (rw other member, one)
        ],
      )
      | inr keeps ↦
          rw keeps
            (distinct, λ y h. let (differs, member, one) = from' y h in (rw differs member, one))
    ]

pub absent_name :
    (d : WorkspacePackageDescriptor) (ds : List WorkspacePackageDescriptor)
    → All (λ e. Differs d e) ds
    → includes (names ds) d.name ≡ false
absent_name d [] a = refl
absent_name d (e ∷ es) a = ground (arith, a.0.0, eq_iff e.name d.name, absent_name d es a.1)

-- The dependents of a package are distinct.
pub direct_dependents-Distinct :
    (ds : List WorkspacePackageDescriptor) (x : String)
    → Unique ds
    → Distinct (direct_dependents ds x)
unfolding direct_dependents
direct_dependents-Distinct [] x u = tt
direct_dependents-Distinct (d ∷ ds) x u =
    let rest = direct_dependents-Distinct ds x u.1 in
    elim (Bool-cases (includes d.workspace_dependencies x)) [
      | inl on ↦ rw on (
        elim (Bool-cases (includes (direct_dependents ds x) d.name)) [
          | inl twice ↦
              let named = direct_dependents-names ds x d.name twice in
              absurd (ground (arith, named, absent_name d ds u.0))
          | inr once ↦ once
        ],
        rest,
      )
      | inr off ↦ rw off rest
    ]

past_first :
    (d : WorkspacePackageDescriptor) (es : List WorkspacePackageDescriptor)
    (dependents : List String) (x : String)
    → All (λ e. Differs d e) es
    → All (λ e. includes dependents e.name ≡ includes e.workspace_dependencies x) es
    → All (λ e. includes (d.name ∷ dependents) e.name ≡ includes e.workspace_dependencies x) es
past_first d [] dependents x a r = tt
past_first d (e ∷ es) dependents x a r =
    let other : str_eq d.name e.name ≡ false = elim (Bool-cases (str_eq d.name e.name)) [
      | inl same ↦ absurd (a.0.0 (sym ((eq_iff d.name e.name).0 same)))
      | inr differs ↦ differs
    ] in
    (rw other r.0, past_first d es dependents x a.1 r.1)

-- A package is a dependent of another one exactly when it has that one as a dependency.
pub direct_dependents-dependencies :
    (ds : List WorkspacePackageDescriptor) (x : String)
    → Unique ds
    → All (λ d. includes (direct_dependents ds x) d.name ≡ includes d.workspace_dependencies x) ds
unfolding direct_dependents
direct_dependents-dependencies [] x u = tt
direct_dependents-dependencies (d ∷ ds) x u =
    let rest = direct_dependents-dependencies ds x u.1 in
    let first : includes (direct_dependents ds x) d.name ≡ false =
      elim (Bool-cases (includes (direct_dependents ds x) d.name)) [
        | inl twice ↦
            let named = direct_dependents-names ds x d.name twice in
            absurd (ground (arith, named, absent_name d ds u.0))
        | inr once ↦ once
      ] in
    let itself : str_eq d.name d.name ≡ true = (eq_iff d.name d.name).1 refl in
    elim (Bool-cases (includes d.workspace_dependencies x)) [
      | inl on ↦ (
        rw (on, itself) refl,
        All-map
            (λ e.
              includes (d.name ∷ direct_dependents ds x) e.name
              ≡ includes e.workspace_dependencies x)
            (λ e.
              includes (direct_dependents (d ∷ ds) x) e.name ≡ includes e.workspace_dependencies x)
            (λ e h. rw on h) ds (past_first d ds (direct_dependents ds x) x u.0 rest),
      )
      | inr off ↦ (
        rw off first,
        All-map
            (λ e. includes (direct_dependents ds x) e.name ≡ includes e.workspace_dependencies x)
            (λ e.
              includes (direct_dependents (d ∷ ds) x) e.name ≡ includes e.workspace_dependencies x)
            (λ e h. rw off h) ds rest,
      )
    ]
