-- ===== src/Revalidation/Closure.antt =====
-- The search finds the packages that depend on one: packages/application/src/revalidation-plan.ts.
use automation.Prelude.{
  ◌+◌, ◌≡◌, ◌≤◌, refl, String, str_eq, eq_iff, true, List, [], ◌∷◌, ◌++◌, arith, inl, inr, ◌⊎◌,
  Bool-cases, includes, length, length-append, unseen, unseen-append, includes-append,
}
use automation.Revalidation.{WorkspacePackageDescriptor}
use automation.Revalidation.Graph.{names, direct_dependents, add_new}

-- The packages that depend on a package, directly or through others, and the package itself.
pub data Dependent (ds : List WorkspacePackageDescriptor) (seed : String) : String → Type 0 where
  here : Dependent ds seed seed
  through :
      {x y : String}
      → Dependent ds seed x
      → includes (direct_dependents ds x) y ≡ true
      → Dependent ds seed y

pub direct_dependents-names :
    (ds : List WorkspacePackageDescriptor) (x y : String)
    → includes (direct_dependents ds x) y ≡ true
    → includes (names ds) y ≡ true
unfolding direct_dependents
direct_dependents-names [] x y h = h
direct_dependents-names (d ∷ ds) x y h = elim (Bool-cases (includes d.workspace_dependencies x)) [
  | inl on ↦ elim (Bool-cases (str_eq d.name y)) [
    | inl same ↦ rw same refl
    | inr other ↦ rw other (direct_dependents-names ds x y (rw (on, other) at h))
  ]
  | inr off ↦ ground (arith, direct_dependents-names ds x y (rw off at h))
]

abbrev pub Subset : List String → List String → Type 0
Subset xs ys = (y : String) → includes xs y ≡ true → includes ys y ≡ true

-- What adding `xs` to a set and a queue makes of them.
pub record Added (all xs seen queue seen' queue' : List String) : Type 0 where
  pub keeps_seen : Subset seen seen'
  pub keeps_queue : Subset queue queue'
  pub adds : Subset xs seen'
  pub seen_from :
      (y : String) → includes seen' y ≡ true → (includes seen y ≡ true) ⊎ (includes xs y ≡ true)
  pub queue_from :
      (y : String) → includes queue' y ≡ true → (includes queue y ≡ true) ⊎ (includes xs y ≡ true)
  pub new_queued :
      (y : String) → includes seen' y ≡ true → (includes seen y ≡ true) ⊎ (includes queue' y ≡ true)
  pub measured : length queue' + unseen all seen' ≤ length queue + unseen all seen

grown : (xs : List String) (x : String) → Subset xs (xs ++ x ∷ [])
grown xs x y h = rw (includes-append xs x y) (ground (arith, h))

grown_by : (xs : List String) (x : String) → includes (xs ++ x ∷ []) x ≡ true
grown_by xs x = rw (includes-append xs x x, (eq_iff x x).1 refl) refl

grown_from :
    (xs : List String) (x y : String)
    → includes (xs ++ x ∷ []) y ≡ true
    → (str_eq x y ≡ true) ⊎ (includes xs y ≡ true)
grown_from xs x y h =
    let h' : includes (x ∷ xs) y ≡ true = (rw (includes-append xs x y) at h) in ground (arith, h')

pub add_new-Added :
    (all xs seen queue : List String)
    → Subset xs all
    → Added all xs seen queue (add_new xs seen queue).0 (add_new xs seen queue).1
unfolding add_new
add_new-Added all [] seen queue sub = record {
  keeps_seen = λ y h. h;
  keeps_queue = λ y h. h;
  adds = λ y h. absurd (ground (arith, h));
  seen_from = λ y h. inl h;
  queue_from = λ y h. inl h;
  new_queued = λ y h. inl h;
  measured = omega arith;
}
add_new-Added all (x ∷ xs) seen queue sub = elim (Bool-cases (includes seen x)) [
  | inl old ↦
      let rest = add_new-Added all xs seen queue (λ y h. sub y (ground (arith, h))) in
      rw old (record {
        keeps_seen = rest.keeps_seen;
        keeps_queue = rest.keeps_queue;
        adds = λ y h. elim (Bool-cases (str_eq x y)) [
          | inl same ↦ rest.keeps_seen y (rw (← (eq_iff x y).0 same) old)
          | inr other ↦ rest.adds y (rw other at h)
        ];
        seen_from =
            λ y h. elim (rest.seen_from y h) [ inl a ↦ inl a | inr b ↦ inr (ground (arith, b)) ];
        queue_from =
            λ y h. elim (rest.queue_from y h) [ inl a ↦ inl a | inr b ↦ inr (ground (arith, b)) ];
        new_queued = rest.new_queued;
        measured = rest.measured;
      })
  | inr new ↦
      let there : includes all x ≡ true = sub x (ground (arith, (eq_iff x x).1 refl)) in
      let falls = unseen-append all seen x there new in
      let rest =
        add_new-Added all xs (seen ++ x ∷ []) (queue ++ x ∷ [])
          (λ y h. sub y (ground (arith, h))) in
      rw new (record {
        keeps_seen = λ y h. rest.keeps_seen y (grown seen x y h);
        keeps_queue = λ y h. rest.keeps_queue y (grown queue x y h);
        adds = λ y h. elim (Bool-cases (str_eq x y)) [
          | inl same ↦ rest.keeps_seen y (rw (← (eq_iff x y).0 same) (grown_by seen x))
          | inr other ↦ rest.adds y (rw other at h)
        ];
        seen_from = λ y h. elim (rest.seen_from y h) [
          | inl a ↦ elim (grown_from seen x y a) [ inl e ↦ inr (ground (arith, e)) | inr b ↦ inl b ]
          | inr b ↦ inr (ground (arith, b))
        ];
        queue_from = λ y h. elim (rest.queue_from y h) [
          | inl a ↦ elim (grown_from queue x y a) [
            | inl e ↦ inr (ground (arith, e))
            | inr b ↦ inl b
          ]
          | inr b ↦ inr (ground (arith, b))
        ];
        new_queued = λ y h. elim (rest.new_queued y h) [
          | inl a ↦ elim (grown_from seen x y a) [
            | inl e ↦ inr (rest.keeps_queue y (rw (← (eq_iff x y).0 e) (grown_by queue x)))
            | inr b ↦ inl b
          ]
          | inr b ↦ inr b
        ];
        measured = omega (arith, rest.measured, falls, length-append queue (x ∷ []));
      })
]
