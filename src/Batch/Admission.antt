-- ===== src/Batch/Admission.antt =====
-- At most one item is admitted at a time, and in order: `admitItem` and `unblockItem` of
-- packages/domain/src/release-batch.ts.
use automation.Prelude.{
  ℕ, suc, ◌+◌, ◌≤◌, ◌<◌, ◌≡◌, refl, ap, String, Bool, true, false, not, ◌&&◌, none, some, List, [],
  ◌∷◌, ◌++◌, ok, arith, length, ◌==◌, ltb, All, Result-cases, inl, inr, find?, Bool-cases, or_else,
}
use automation.Batch.{
  ReleaseBatch, ReleaseBatchItem, ReleaseBatchItemStatus, building, is_terminal, is_merged,
  is_admitted, is_blocked_item, find_item, item_at, replace_item,
}
use automation.Batch.Items.{AdmitInput, admit_item, unblock_item, some_blocked, is_blocked}
use automation.Batch.Candidate.{remediation_items}
use automation.Batch.Ops.{BatchOp, admit, unblock_at, apply, apply_all, keep}
use automation.Batch.Change.{Change, same, at, appended, apply-Change, grants}
use automation.Batch.Listing.{
  Positioned, find_of_item_at, find_item-position, find_item-replace_item,
}
use automation.Batch.Invariant.{BatchInv, apply-BatchInv}

abbrev pub one_if : Bool → ℕ
one_if true = 1
one_if false = 0

-- The number of items that are active or waiting for their merge.
abbrev pub admitted : List ReleaseBatchItem → ℕ
admitted [] = 0
admitted (i ∷ items) = one_if (is_admitted i) + admitted items

replace_item-admitted :
    (p : ℕ) (items : List ReleaseBatchItem) (old new : ReleaseBatchItem)
    → find_item p items ≡ some old
    → (is_admitted new ≡ true → is_admitted old ≡ true)
    → admitted (replace_item p new items) ≤ admitted items
unfolding find_item replace_item
replace_item-admitted p [] old new f h = cc
replace_item-admitted p (x ∷ items) old new f h =
    ground (arith, replace_item-admitted p items old new)

append-admitted :
    (items : List ReleaseBatchItem) (id : String) (n : ℕ) (nums : List ℕ)
    → admitted (items ++ remediation_items id n nums) ≡ admitted items
unfolding remediation_items
append-admitted [] id n [] = refl
append-admitted [] id n (x ∷ nums) = omega (arith, append-admitted [] id (suc n) nums)
append-admitted (y ∷ items) id n nums =
    ap (λ t. one_if (is_admitted y) + t) (append-admitted items id n nums)

-- Beyond the position no item is admitted.
later-admitted :
    (p n : ℕ) (items : List ReleaseBatchItem)
    → Positioned n items
    → p < n
    → find? (λ i. not (i.position == p) && is_admitted i) items ≡ none
    → admitted items ≡ 0
later-admitted p n [] h lt f = refl
later-admitted p n (x ∷ items) h lt f = ground (arith, later-admitted p (suc n) items)

admit-admitted :
    (p n : ℕ) (items : List ReleaseBatchItem) (new : ReleaseBatchItem)
    → Positioned n items
    → find? (λ i. not (i.position == p) && is_admitted i) items ≡ none
    → admitted (replace_item p new items) ≤ 1
unfolding replace_item
admit-admitted p n [] new h f = omega arith
admit-admitted p n (x ∷ items) new h f =
    ground (arith, admit-admitted p (suc n) items new, later-admitted p (suc n) items)

Change-admitted :
    (op : BatchOp) (b b' : ReleaseBatch)
    → Change op b b'
    → grants op ≡ false
    → admitted b'.items ≤ admitted b.items
Change-admitted op b b' (same e) g = omega (arith, ap admitted e)
Change-admitted op b b' (at p old new found ev e) g =
    rw e (replace_item-admitted p b.items old new (find_of_item_at b p old found) (ev.admission g))
Change-admitted op b b' (appended nums e passed gone) g =
    rw e (omega (arith, append-admitted b.items b.id (suc (length b.items)) nums))

-- What an accepted `admitItem` has established: the item was found and not merged, no other item
-- was admitted, and every item before it is merged.
pub record Admissible (b : ReleaseBatch) (p : ℕ) : Type 0 where
  pub item : ReleaseBatchItem
  pub found : item_at b p ≡ ok item
  pub unmerged : is_merged item ≡ false
  pub alone : find? (λ i. not (i.position == p) && is_admitted i) b.items ≡ none
  pub in_order : find? (λ i. ltb i.position p && not (is_merged i)) b.items ≡ none

admit_item-Admissible :
    (b b' : ReleaseBatch) (p : ℕ) (input : AdmitInput)
    → admit_item b p input ≡ ok b'
    → Admissible b p
unfolding admit_item
admit_item-Admissible b b' p input h = elim (Result-cases (item_at b p)) [
  | inl (item, found) ↦ record {
    item = item;
    found = found;
    unmerged = ground arith;
    alone = ground arith;
    in_order = ground arith;
  }
  | inr (e, missing) ↦ absurd (ground arith)
]

predecessors :
    (p : ℕ) (items : List ReleaseBatchItem)
    → find? (λ i. ltb i.position p && not (is_merged i)) items ≡ none
    → All (λ i. i.position < p → is_merged i ≡ true) items
predecessors p [] h = tt
predecessors p (x ∷ items) h = (λ lt. ground arith, predecessors p items (ground arith))

-- The call of `unblockItem`.
abbrev pub unblocks : BatchOp → Bool
unblocks (unblock_at p) = true
unblocks _ = false

admitted-admit_item :
    (b b' : ReleaseBatch) (p : ℕ) (input : AdmitInput)
    → BatchInv b
    → admit_item b p input ≡ ok b'
    → admitted b'.items ≤ 1
unfolding admit_item
admitted-admit_item b b' p input i h =
    let a : Admissible b p = admit_item-Admissible b b' p input h in
    let new : ReleaseBatchItem = record a.item {
      status = ReleaseBatchItemStatus.active;
      blocked_reason = none;
      started_at = or_else a.item.started_at (some input.now);
      run_uuid = or_else input.run_uuid a.item.run_uuid;
      base_sha = or_else input.base_sha a.item.base_sha;
    } in
    let e : b'.items ≡ replace_item p new b.items = ground (arith, a.found) in
    rw e (admit-admitted p 1 b.items new i.positioned a.alone)

apply-admitted :
    (op : BatchOp) (b b' : ReleaseBatch)
    → BatchInv b
    → admitted b.items ≤ 1
    → unblocks op ≡ false
    → apply op b ≡ ok b'
    → admitted b'.items ≤ 1
unfolding apply
apply-admitted (admit p input) b b' i one u h = admitted-admit_item b b' p input i h
apply-admitted (unblock_at p) b b' i one u h = cc
apply-admitted op b b' i one u h =
    omega (arith, Change-admitted op b b' (apply-Change op b b' h) refl)

-- `admitItem` admits an item only when its turn has come: the item is there and not merged, every
-- item before it is merged, and afterwards it is the only one that is admitted, the batch's current
-- one.
pub admit_item_in_order :
    (b b' : ReleaseBatch) (p : ℕ) (input : AdmitInput)
    → BatchInv b
    → admit_item b p input ≡ ok b'
    → ((item : ReleaseBatchItem) × (find_item p b.items ≡ some item) × (is_merged item ≡ false))
      × All (λ i. i.position < p → is_merged i ≡ true) b.items
      × (admitted b'.items ≤ 1)
      × (b'.current_position ≡ p)
      × ((new : ReleaseBatchItem) × (find_item p b'.items ≡ some new) × (is_admitted new ≡ true))
unfolding admit_item
admit_item_in_order b b' p input i h =
    let a : Admissible b p = admit_item-Admissible b b' p input h in
    let old_found = find_of_item_at b p a.item a.found in
    let new : ReleaseBatchItem = record a.item {
      status = ReleaseBatchItemStatus.active;
      blocked_reason = none;
      started_at = or_else a.item.started_at (some input.now);
      run_uuid = or_else input.run_uuid a.item.run_uuid;
      base_sha = or_else input.base_sha a.item.base_sha;
    } in
    let e : b'.items ≡ replace_item p new b.items = ground (arith, a.found) in
    let place : new.position ≡ p = find_item-position p b.items a.item old_found in
    let again : (p == p) ≡ true = ground arith in
    (
      (a.item, old_found, a.unmerged),
      predecessors p b.items a.in_order,
      admitted-admit_item b b' p input i h,
      ground arith,
      (new, rw e (rw (find_item-replace_item p p b.items a.item new old_found place, again)), refl),
    )

keep-admitted :
    (op : BatchOp) (b : ReleaseBatch)
    → BatchInv b
    → admitted b.items ≤ 1
    → unblocks op ≡ false
    → BatchInv (keep b (apply op b)) × (admitted (keep b (apply op b)).items ≤ 1)
keep-admitted op b i one u = elim (Result-cases (apply op b)) [
  | inl (b', h) ↦ rw h (apply-BatchInv op b b' i h, apply-admitted op b b' i one u h)
  | inr (e, h) ↦ rw h (i, one)
]

-- At most one item is admitted at a time, as long as no item is unblocked: this holds after any
-- other operations, from any batch that satisfies the invariant and has at most one admitted.
pub one_admitted_from :
    (ops : List BatchOp) (b : ReleaseBatch)
    → BatchInv b
    → admitted b.items ≤ 1
    → All (λ op. unblocks op ≡ false) ops
    → admitted (apply_all ops b).items ≤ 1
unfolding apply_all
one_admitted_from [] b i one u = one
one_admitted_from (op ∷ ops) b i one (u, us) =
    let (i', one') = keep-admitted op b i one u in
    one_admitted_from ops (keep b (apply op b)) i' one' us

activated :
    (p : ℕ) (items : List ReleaseBatchItem) (old new : ReleaseBatchItem)
    → find_item p items ≡ some old
    → is_blocked_item old ≡ true
    → is_admitted new ≡ true
    → admitted (replace_item p new items) ≡ suc (admitted items)
unfolding find_item replace_item
activated p [] old new f h k = cc
activated p (x ∷ items) old new f h k = ground (arith, activated p items old new)

-- `unblockItem` admits the item without the checks of `admitItem`: in every batch that is not ended,
-- where the item is blocked and others are admitted already, it is accepted, and one more item is
-- admitted than before.
pub unblock_item_admits :
    (b : ReleaseBatch) (p : ℕ) (item : ReleaseBatchItem)
    → is_terminal b.status ≡ false
    → item_at b p ≡ ok item
    → is_blocked_item item ≡ true
    → (b' : ReleaseBatch) × (unblock_item b p ≡ ok b')
      × (admitted b'.items ≡ suc (admitted b.items))
unfolding unblock_item
unblock_item_admits b p item live found was_blocked =
    let new : ReleaseBatchItem = record item {
      status = ReleaseBatchItemStatus.active;
      blocked_reason = none;
    } in
    let more : admitted (replace_item p new b.items) ≡ suc (admitted b.items) =
      activated p b.items item new (find_of_item_at b p item found) was_blocked refl in
    elim (Bool-cases (not (some_blocked (replace_item p new b.items)) && is_blocked b.status)) [
      | inl last ↦ (
        record b { status = building; blocked_reason = none; items = replace_item p new b.items },
        ground arith,
        more,
      )
      | inr rest ↦ (record b { items = replace_item p new b.items }, ground arith, more)
    ]
