-- ===== src/Batch/Listing.antt =====
-- Lemmas on lists of items: finding and replacing the item at a position, and what is kept.
use automation.Prelude.{
  ℕ, suc, ◌+◌, ◌≡◌, ◌≢◌, refl, ◌∙◌, true, some, List, [], ◌∷◌, ◌++◌, ok, arith, length, ◌==◌, All,
  map, String, if◌then◌else◌,
}
use mathlib.Core.Path.{subst}
use native.Mathlib.Nat.{add-zero}
use automation.Batch.{ReleaseBatch, ReleaseBatchItem, is_merged, find_item, replace_item, item_at}
use automation.Batch.Candidate.{remediation_items}

-- The items stand at the positions n, n + 1 and so on.
abbrev pub Positioned : ℕ → List ReleaseBatchItem → Type 0
Positioned n [] = Unit
Positioned n (i ∷ items) = (i.position ≡ n) × Positioned (suc n) items

abbrev pub AllMerged : List ReleaseBatchItem → Type 0
AllMerged items = All (λ i. is_merged i ≡ true) items

abbrev pub Distinct : List ℕ → Type 0
Distinct [] = Unit
Distinct (x ∷ xs) = All (λ y. y ≢ x) xs × Distinct xs

abbrev pub issues_of : List ReleaseBatchItem → List ℕ
issues_of items = map (λ (i : ReleaseBatchItem). i.issue_number) items

pub find_of_item_at :
    (b : ReleaseBatch) (p : ℕ) (i : ReleaseBatchItem)
    → item_at b p ≡ ok i
    → find_item p b.items ≡ some i
unfolding item_at
find_of_item_at b p i h = ground arith

pub find_item-position :
    (p : ℕ) (items : List ReleaseBatchItem) (i : ReleaseBatchItem)
    → find_item p items ≡ some i
    → i.position ≡ p
unfolding find_item
find_item-position p [] i h = cc
find_item-position p (x ∷ items) i h = ground (arith, find_item-position p items i)

pub find_item-AllMerged :
    (p : ℕ) (items : List ReleaseBatchItem) (i : ReleaseBatchItem)
    → AllMerged items
    → find_item p items ≡ some i
    → is_merged i ≡ true
unfolding find_item
find_item-AllMerged p [] i m h = cc
find_item-AllMerged p (x ∷ items) i m h = ground (arith, find_item-AllMerged p items i)

pub replace_item-Positioned :
    (n p : ℕ) (items : List ReleaseBatchItem) (new : ReleaseBatchItem)
    → Positioned n items
    → new.position ≡ p
    → Positioned n (replace_item p new items)
unfolding replace_item
replace_item-Positioned n p [] new h e = tt
replace_item-Positioned n p (x ∷ items) new h e =
    ground (arith, replace_item-Positioned (suc n) p items new)

pub replace_item-AllMerged :
    (p : ℕ) (items : List ReleaseBatchItem) (new : ReleaseBatchItem)
    → AllMerged items
    → is_merged new ≡ true
    → AllMerged (replace_item p new items)
unfolding replace_item
replace_item-AllMerged p [] new h e = tt
replace_item-AllMerged p (x ∷ items) new h e = ground (arith, replace_item-AllMerged p items new)

pub replace_item-issues :
    (p : ℕ) (items : List ReleaseBatchItem) (old new : ReleaseBatchItem)
    → find_item p items ≡ some old
    → new.issue_number ≡ old.issue_number
    → issues_of (replace_item p new items) ≡ issues_of items
unfolding replace_item find_item
replace_item-issues p [] old new h e = refl
replace_item-issues p (x ∷ items) old new h e = ground (arith, replace_item-issues p items old new)

-- Looking up after a replacement.
pub find_item-replace_item :
    (q p : ℕ) (items : List ReleaseBatchItem) (old new : ReleaseBatchItem)
    → find_item p items ≡ some old
    → new.position ≡ p
    → find_item q (replace_item p new items) ≡ (if q == p then some new else find_item q items)
unfolding replace_item find_item
find_item-replace_item q p [] old new h e = cc
find_item-replace_item q p (x ∷ items) old new h e =
    ground (arith, find_item-replace_item q p items old new)

pub find_item-append :
    (q : ℕ) (items more : List ReleaseBatchItem) (i : ReleaseBatchItem)
    → find_item q items ≡ some i
    → find_item q (items ++ more) ≡ some i
unfolding find_item
find_item-append q [] more i h = cc
find_item-append q (x ∷ items) more i h = ground (arith, find_item-append q items more i)

pub remediation-Positioned :
    (id : String) (n : ℕ) (nums : List ℕ) → Positioned n (remediation_items id n nums)
unfolding remediation_items
remediation-Positioned id n [] = tt
remediation-Positioned id n (x ∷ nums) = (refl, remediation-Positioned id (suc n) nums)

pub append-Positioned :
    (n m : ℕ) (items more : List ReleaseBatchItem)
    → Positioned n items
    → m ≡ n + length items
    → Positioned m more
    → Positioned n (items ++ more)
append-Positioned n m [] more h e k = subst (λ j. Positioned j more) (e ∙ add-zero n) k
append-Positioned n m (x ∷ items) more h e k =
    (h.0, append-Positioned (suc n) m items more h.1 (omega arith) k)
