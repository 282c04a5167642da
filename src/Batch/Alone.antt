-- ===== src/Batch/Alone.antt =====
-- The admission of the items of a release batch from `createReleaseBatch` on:
-- packages/domain/src/release-batch.ts.
use automation.Prelude.{
  ℕ, ◌+◌, ◌≤◌, ◌≡◌, ap, Bool, true, false, some, Option, List, [], ◌∷◌, map, ok, arith, All, String,
  Bool-cases, inl, inr, leb,
}
use automation.Batch.{ReleaseBatch, ReleaseBatchItem, ReleaseBatchItemStatus}
use automation.Batch.Create.{
  CreateReleaseBatchInput, CreateReleaseBatchItemInput, create_release_batch, sort_by_position,
  insert_by_position, to_item,
}
use automation.Batch.Ops.{BatchOp, apply_all}
use automation.Batch.Release.{create_release_batch-BatchInv, create_release_batch-Checked}
use automation.Batch.Admission.{one_if, admitted, unblocks, one_admitted_from}

-- A status given for a new item that makes it active or waiting for its merge.
abbrev pub gives_admitted : Option ReleaseBatchItemStatus → Bool
gives_admitted (some ReleaseBatchItemStatus.active) = true
gives_admitted (some ReleaseBatchItemStatus.waiting_merge) = true
gives_admitted _ = false

-- The number of new items that are given as active or waiting for their merge.
abbrev pub given_admitted : List CreateReleaseBatchItemInput → ℕ
given_admitted [] = 0
given_admitted (x ∷ xs) = one_if (gives_admitted x.status) + given_admitted xs

insert-given_admitted :
    (x : CreateReleaseBatchItemInput) (ys : List CreateReleaseBatchItemInput)
    → given_admitted (insert_by_position x ys)
      ≡ one_if (gives_admitted x.status) + given_admitted ys
unfolding insert_by_position
insert-given_admitted x [] = omega arith
insert-given_admitted x (y ∷ ys) = elim (Bool-cases (leb x.position y.position)) [
  | inl first ↦ rw first (omega arith)
  | inr later ↦ rw later (omega (arith, insert-given_admitted x ys))
]

sort-given_admitted :
    (xs : List CreateReleaseBatchItemInput)
    → given_admitted (sort_by_position xs) ≡ given_admitted xs
unfolding sort_by_position
sort-given_admitted [] = omega arith
sort-given_admitted (x ∷ xs) =
    omega (arith, insert-given_admitted x (sort_by_position xs), sort-given_admitted xs)

to_item-admitted :
    (id : String) (x : CreateReleaseBatchItemInput) (items : List ReleaseBatchItem)
    → admitted (to_item id x ∷ items) ≡ one_if (gives_admitted x.status) + admitted items
unfolding to_item
to_item-admitted id x items = ground arith

listed-admitted :
    (id : String) (xs : List CreateReleaseBatchItemInput)
    → admitted (map (to_item id) xs) ≡ given_admitted xs
listed-admitted id [] = omega arith
listed-admitted id (x ∷ xs) =
    omega (arith, to_item-admitted id x (map (to_item id) xs), listed-admitted id xs)

-- A new batch has as many admitted items as are given to it: no check limits them.
create_release_batch-admitted :
    (input : CreateReleaseBatchInput) (b : ReleaseBatch)
    → create_release_batch input ≡ ok b
    → admitted b.items ≡ given_admitted input.items
create_release_batch-admitted input b h = omega (
  arith,
  ap admitted (create_release_batch-Checked input b h).listed,
  listed-admitted input.id (sort_by_position input.items),
  sort-given_admitted input.items,
)

-- When a batch is created with at most one item that is given as active or waiting for its merge,
-- it has at most one such item at any time, as long as no item is unblocked: this holds after any
-- other operations, those that fail included.
pub one_admitted :
    (input : CreateReleaseBatchInput) (b : ReleaseBatch) (ops : List BatchOp)
    → create_release_batch input ≡ ok b
    → given_admitted input.items ≤ 1
    → All (λ op. unblocks op ≡ false) ops
    → admitted (apply_all ops b).items ≤ 1
one_admitted input b ops h given u =
    one_admitted_from ops b (create_release_batch-BatchInv input b h)
      (omega (arith, given, create_release_batch-admitted input b h)) u
