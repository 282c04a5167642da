-- ===== src/Batch/Issues.antt =====
-- The issues of a batch stay distinct: the checks of `createReleaseBatch` and of
-- `appendRemediationItems` in packages/domain/src/release-batch.ts.
use automation.Prelude.{
  ℕ, suc, ◌+◌, ◌≡◌, ◌≢◌, refl, ap, String, false, List, [], ◌∷◌, ◌++◌, ok, arith, All, All-append,
  All-map, map, includes_nat, Result-cases, inl, inr,
}
use mathlib.Core.Path.{subst}
use mathlib.Core.List.{map-append}
use automation.Batch.{ReleaseBatchItem}
use automation.Batch.Create.{CreateReleaseBatchItemInput, Seen, check_item, check_items, to_item}
use automation.Batch.Candidate.{check_remediation, remediation_items}
use automation.Batch.Listing.{Positioned, Distinct, issues_of}

abbrev pub NotIn : List ℕ → ℕ → Type 0
NotIn xs y = includes_nat xs y ≡ false

NotIn-ne : (x : ℕ) (xs : List ℕ) (y : ℕ) → NotIn (x ∷ xs) y → y ≢ x
NotIn-ne x xs y h = ground arith

NotIn-tail : (x : ℕ) (xs : List ℕ) (y : ℕ) → NotIn (x ∷ xs) y → NotIn xs y
NotIn-tail x xs y h = ground arith

Distinct-append :
    (xs ys : List ℕ) → Distinct xs → Distinct ys → All (NotIn xs) ys → Distinct (xs ++ ys)
Distinct-append [] ys h k n = k
Distinct-append (x ∷ xs) ys h k n = (
  All-append (λ y. y ≢ x) xs ys h.0 (All-map (NotIn (x ∷ xs)) (λ y. y ≢ x) (NotIn-ne x xs) ys n),
  Distinct-append xs ys h.1 k (All-map (NotIn (x ∷ xs)) (NotIn xs) (NotIn-tail x xs) ys n),
)

check_remediation-fresh :
    (old new nums : List ℕ)
    → check_remediation old new nums ≡ ok tt
    → All (NotIn old) nums × All (NotIn new) nums × Distinct nums
unfolding check_remediation
check_remediation-fresh old new [] h = (tt, tt, tt)
check_remediation-fresh old new (x ∷ nums) h =
    let (olds, news, distinct) = check_remediation-fresh old (x ∷ new) nums (ground arith) in
    (
      (ground arith, olds),
      (ground arith, All-map (NotIn (x ∷ new)) (NotIn new) (NotIn-tail x new) nums news),
      (All-map (NotIn (x ∷ new)) (λ y. y ≢ x) (NotIn-ne x new) nums news, distinct),
    )

issues_of-remediation :
    (id : String) (n : ℕ) (nums : List ℕ) → issues_of (remediation_items id n nums) ≡ nums
unfolding remediation_items
issues_of-remediation id n [] = refl
issues_of-remediation id n (x ∷ nums) = ap (λ t. x ∷ t) (issues_of-remediation id (suc n) nums)

-- An accepted remediation keeps the issues distinct.
pub append-Distinct :
    (id : String) (n : ℕ) (items : List ReleaseBatchItem) (nums : List ℕ)
    → Distinct (issues_of items)
    → check_remediation (issues_of items) [] nums ≡ ok tt
    → Distinct (issues_of (items ++ remediation_items id n nums))
append-Distinct id n items nums d h =
    let (fresh, others, distinct) = check_remediation-fresh (issues_of items) [] nums h in
    rw (map-append, issues_of-remediation id n nums)
      (Distinct-append (issues_of items) nums d distinct fresh)

check_item-facts :
    (i : ℕ) (seen seen' : Seen) (item : CreateReleaseBatchItemInput)
    → check_item i seen item ≡ ok seen'
    → (item.position ≡ i + 1)
      × NotIn seen.issues item.issue_number
      × (seen'.issues ≡ item.issue_number ∷ seen.issues)
unfolding check_item
check_item-facts i seen seen' item h = ground arith

-- Items that pass the checks of `createReleaseBatch` stand at consecutive positions and are for
-- distinct issues.
pub check_items-facts :
    (id : String) (i : ℕ) (seen : Seen) (items : List CreateReleaseBatchItemInput)
    → check_items i seen items ≡ ok tt
    → Positioned (suc i) (map (to_item id) items)
      × All (NotIn seen.issues) (issues_of (map (to_item id) items))
      × Distinct (issues_of (map (to_item id) items))
unfolding check_items to_item
check_items-facts id i seen [] h = (tt, tt, tt)
check_items-facts id i seen (x ∷ items) h = elim (Result-cases (check_item i seen x)) [
  | inl (seen', passed) ↦
      let (place, fresh, issues) = check_item-facts i seen seen' x passed in
      let (places, news, distinct) = check_items-facts id (suc i) seen' items (rw passed at h) in
      let n : ℕ = x.issue_number in
      let old : List ℕ = seen.issues in
      let rest : List ℕ = issues_of (map (to_item id) items) in
      let later : All (NotIn (n ∷ old)) rest = subst (λ l. All (NotIn l) rest) issues news in
      (
        (omega arith, places),
        (fresh, All-map (NotIn (n ∷ old)) (NotIn old) (NotIn-tail n old) rest later),
        (All-map (NotIn (n ∷ old)) (λ y. y ≢ n) (NotIn-ne n old) rest later, distinct),
      )
  | inr (e, thrown) ↦ absurd (ground arith)
]
