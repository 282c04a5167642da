-- ===== src/Revalidation/Depth.antt =====
-- The order of the packages by depth, and the package that a path is in:
-- packages/application/src/revalidation-plan.ts.
use automation.Prelude.{
  ℕ, ◌≤◌, ◌≡◌, String, true, false, some, List, [], ◌∷◌, arith, inl, inr, ◌⊎◌, Bool-cases,
  Option-cases, All, All-map, Memᴰ, leb, All-Memᴰ,
}
use automation.Revalidation.{
  WorkspacePackageDescriptor, Texts, is_under, normalize_repo_relative_path,
}
use automation.Revalidation.Plan.{insert_deepest, by_depth, owner_of, owner_of_raw}

abbrev depth : Texts → WorkspacePackageDescriptor → ℕ
depth t d = t.text_length d.directory

module _ (t : Texts) (P : WorkspacePackageDescriptor → Type 0) where
  All-insert_deepest :
      (d : WorkspacePackageDescriptor) (ds : List WorkspacePackageDescriptor)
      → P d
      → All P ds
      → All P (insert_deepest t d ds)
  All-insert_deepest d [] p ps = (p, tt)
  All-insert_deepest d (e ∷ es) p ps = elim (Bool-cases (leb (depth t e) (depth t d))) [
    | inl first ↦ rw first (p, ps)
    | inr later ↦ rw later (ps.0, All-insert_deepest d es p ps.1)
  ]

  insert_deepest-All :
      (d : WorkspacePackageDescriptor) (ds : List WorkspacePackageDescriptor)
      → All P (insert_deepest t d ds)
      → P d × All P ds
  insert_deepest-All d [] ps = ps
  insert_deepest-All d (e ∷ es) ps = elim (Bool-cases (leb (depth t e) (depth t d))) [
    | inl first ↦ rw first at ps
    | inr later ↦
        let (pe, rest) = (rw later at ps) in
        let (pd, pes) = insert_deepest-All d es rest in (pd, (pe, pes))
  ]

  pub All-by_depth : (ds : List WorkspacePackageDescriptor) → All P ds → All P (by_depth t ds)
  unfolding by_depth
  All-by_depth [] ps = tt
  All-by_depth (d ∷ ds) ps = All-insert_deepest d (by_depth t ds) ps.0 (All-by_depth ds ps.1)

  pub by_depth-All : (ds : List WorkspacePackageDescriptor) → All P (by_depth t ds) → All P ds
  unfolding by_depth
  by_depth-All [] ps = tt
  by_depth-All (d ∷ ds) ps =
      let (p, rest) = insert_deepest-All d (by_depth t ds) ps in (p, by_depth-All ds rest)

abbrev Deepest : Texts → List WorkspacePackageDescriptor → Type 0
Deepest t [] = Unit
Deepest t (d ∷ ds) = All (λ e. depth t e ≤ depth t d) ds × Deepest t ds

insert_deepest-Deepest :
    (t : Texts) (d : WorkspacePackageDescriptor) (ds : List WorkspacePackageDescriptor)
    → Deepest t ds
    → Deepest t (insert_deepest t d ds)
insert_deepest-Deepest t d [] s = (tt, tt)
insert_deepest-Deepest t d (e ∷ es) (deep, s) = elim (Bool-cases (leb (depth t e) (depth t d))) [
  | inl first ↦
      let below : depth t e ≤ depth t d = ground (arith, first) in
      rw first (
        (
          below,
          All-map (λ x. depth t x ≤ depth t e) (λ x. depth t x ≤ depth t d)
              (λ x h. omega (arith, h, below)) es deep,
        ),
        (deep, s),
      )
  | inr later ↦
      let above : depth t d ≤ depth t e = ground (arith, later) in
      rw later (
        All-insert_deepest t (λ x. depth t x ≤ depth t e) d es above deep,
        insert_deepest-Deepest t d es s,
      )
]

by_depth-Deepest : (t : Texts) (ds : List WorkspacePackageDescriptor) → Deepest t (by_depth t ds)
unfolding by_depth
by_depth-Deepest t [] = tt
by_depth-Deepest t (d ∷ ds) = insert_deepest-Deepest t d (by_depth t ds) (by_depth-Deepest t ds)

-- Of the packages that the path is in, a package of the given name is one of the longest directory.
abbrev pub DeepestOwner : Texts → List WorkspacePackageDescriptor → String → String → Type 0
DeepestOwner t ds path name =
    (d : WorkspacePackageDescriptor) × Memᴰ d ds
    × (d.name ≡ name)
    × (is_under t path d.directory ≡ true)
    × All
        (λ e.
          (is_under t path e.directory ≡ false)
          ⊎ (t.text_length e.directory ≤ t.text_length d.directory))
        ds

module _ (t : Texts) (R : WorkspacePackageDescriptor → Type 0) (path name : String) where
  owner_of_lem :
      (ds : List WorkspacePackageDescriptor)
      → Deepest t ds
      → All R ds
      → owner_of t ds path ≡ some name
      → (d : WorkspacePackageDescriptor) × R d
        × (d.name ≡ name)
        × (is_under t path d.directory ≡ true)
        × All (λ e. (is_under t path e.directory ≡ false) ⊎ (depth t e ≤ depth t d)) ds
  unfolding owner_of
  owner_of_lem [] s rs e = ground (arith, e)
  owner_of_lem (d ∷ ds) (deep, s) rs e = elim (Bool-cases (is_under t path d.directory)) [
    | inl inside ↦ (
      d,
      rs.0,
      ground (arith, e, inside),
      inside,
      (
        inr (omega arith),
        All-map (λ x. depth t x ≤ depth t d)
            (λ x. (is_under t path x.directory ≡ false) ⊎ (depth t x ≤ depth t d)) (λ x h. inr h) ds
            deep,
      ),
    )
    | inr outside ↦
        let (found, r, named, inside, least) =
          owner_of_lem ds s rs.1 (ground (arith, e, outside)) in
        (found, r, named, inside, (inl outside, least))
  ]

-- The package that the code finds for a path is the deepest one.
pub owner_of_raw-DeepestOwner :
    (t : Texts) (ds : List WorkspacePackageDescriptor) (raw name : String)
    → owner_of_raw t (by_depth t ds) raw ≡ some name
    → (path : String) × (normalize_repo_relative_path t raw ≡ some path)
      × DeepestOwner t ds path name
owner_of_raw-DeepestOwner t ds raw name h =
    elim (Option-cases (normalize_repo_relative_path t raw)) [
      | inl invalid ↦ absurd (ground (arith, h, invalid))
      | inr (path, normal) ↦
          let (d, member, named, inside, least) =
            owner_of_lem t (λ d. Memᴰ d ds) path name (by_depth t ds) (by_depth-Deepest t ds)
              (All-by_depth t (λ d. Memᴰ d ds) ds (All-Memᴰ ds)) (rw (owner_of_raw, normal) at h) in
          (
            path,
            normal,
            (
              d,
              member,
              named,
              inside,
              by_depth-All t (λ e. (is_under t path e.directory ≡ false) ⊎ (depth t e ≤ depth t d))
                  ds least,
            ),
          )
    ]
