-- ===== src/Batch/Change.antt =====
-- What an operation does to the list of items: nothing, or it replaces one item, or it appends the
-- items of a remediation. The invariants of a batch are proved from this.
use automation.Prelude.{
  ℕ, suc, ◌≡◌, Bool, true, false, none, some, List, [], ◌++◌, ok, Result-cases, Bool-cases, inl,
  inr, arith, length, map, or_else, opt_is_str, opt_is_nat, ◌&&◌,
}
use automation.Batch.{
  ReleaseBatch, ReleaseBatchItem, ReleaseBatchItemStatus, is_merged, is_admitted, replace_item,
  item_at, is_blocked_item,
}
use automation.Batch.Items.{is_waiting_merge}
use automation.Batch.Candidate.{check_remediation, remediation_items}
use automation.Batch.Ops.{
  BatchOp, admit, assign_run, wait, attach_pr, merge, block_item, unblock_at, append, apply,
}

-- The operations that can make an item active.
abbrev pub grants : BatchOp → Bool
grants (admit p input) = true
grants (unblock_at p) = true
grants _ = false

-- A merged item stays merged, with its commit; no item changes its place or its issue; and only two
-- operations admit an item that was not admitted.
pub record Evolves (op : BatchOp) (old new : ReleaseBatchItem) : Type 0 where
  pub place : new.position ≡ old.position
  pub issue : new.issue_number ≡ old.issue_number
  pub irreversible :
      is_merged old ≡ true
      → (is_merged new ≡ true) × (new.merged_commit_sha ≡ old.merged_commit_sha)
  pub admission : grants op ≡ false → is_admitted new ≡ true → is_admitted old ≡ true

pub data Change (op : BatchOp) (b b' : ReleaseBatch) : Type 0 where
  same : b'.items ≡ b.items → Change op b b'
  at :
      (position : ℕ) (old new : ReleaseBatchItem)
      → item_at b position ≡ ok old
      → Evolves op old new
      → b'.items ≡ replace_item position new b.items
      → Change op b b'
  appended :
      (issues : List ℕ)
      → b'.items ≡ b.items ++ remediation_items b.id (suc (length b.items)) issues
      → check_remediation (map (λ (i : ReleaseBatchItem). i.issue_number) b.items) [] issues ≡ ok tt
      → b'.candidate_sha ≡ none
      → Change op b b'

pub apply-Change : (op : BatchOp) (b b' : ReleaseBatch) → apply op b ≡ ok b' → Change op b b'
unfolding apply
apply-Change (admit p input) b b' h = elim (Result-cases (item_at b p)) [
  | inl (item, found) ↦
      let new : ReleaseBatchItem = record item {
        status = ReleaseBatchItemStatus.active;
        blocked_reason = none;
        started_at = or_else item.started_at (some input.now);
        run_uuid = or_else input.run_uuid item.run_uuid;
        base_sha = or_else input.base_sha item.base_sha;
      } in
      at p item new found (ground arith) (ground arith)
  | inr (e, missing) ↦ same (ground arith)
]
apply-Change (assign_run p run) b b' h = elim (Result-cases (item_at b p)) [
  | inl (item, found) ↦ elim (Bool-cases (opt_is_str item.run_uuid run)) [
    | inl already ↦ same (ground arith)
    | inr other ↦
        at p item (record item { run_uuid = some run }) found (ground arith) (ground arith)
  ]
  | inr (e, missing) ↦ same (ground arith)
]
apply-Change (wait p pr) b b' h = elim (Result-cases (item_at b p)) [
  | inl (item, found) ↦ elim (Bool-cases (is_waiting_merge item && opt_is_nat item.pr_number pr)) [
    | inl already ↦ same (ground arith)
    | inr other ↦
        let new : ReleaseBatchItem = record item {
          status = ReleaseBatchItemStatus.waiting_merge;
          pr_number = some pr;
        } in
        at p item new found (ground arith) (ground arith)
  ]
  | inr (e, missing) ↦ same (ground arith)
]
apply-Change (attach_pr p pr) b b' h = elim (Result-cases (item_at b p)) [
  | inl (item, found) ↦ elim (Bool-cases (opt_is_nat item.pr_number pr)) [
    | inl already ↦ same (ground arith)
    | inr other ↦
        at p item (record item { pr_number = some pr }) found (ground arith) (ground arith)
  ]
  | inr (e, missing) ↦ same (ground arith)
]
apply-Change (merge p sha now) b b' h = elim (Result-cases (item_at b p)) [
  | inl (item, found) ↦
      let new : ReleaseBatchItem = record item {
        status = ReleaseBatchItemStatus.merged;
        merged_commit_sha = some sha;
        completed_at = some now;
      } in
      at p item new found (ground arith) (ground arith)
  | inr (e, missing) ↦ same (ground arith)
]
apply-Change (block_item p reason) b b' h = elim (Result-cases (item_at b p)) [
  | inl (item, found) ↦
      let new : ReleaseBatchItem = record item {
        status = ReleaseBatchItemStatus.blocked;
        blocked_reason = some reason;
      } in
      at p item new found (ground arith) (ground arith)
  | inr (e, missing) ↦ same (ground arith)
]
apply-Change (unblock_at p) b b' h = elim (Result-cases (item_at b p)) [
  | inl (item, found) ↦ elim (Bool-cases (is_blocked_item item)) [
    | inl was_blocked ↦
        let new : ReleaseBatchItem = record item {
          status = ReleaseBatchItemStatus.active;
          blocked_reason = none;
        } in
        at p item new found (ground arith) (ground arith)
    | inr other ↦ same (ground arith)
  ]
  | inr (e, missing) ↦ same (ground arith)
]
apply-Change (append issues) b b' h = appended issues (ground arith) (ground arith) (ground arith)
apply-Change op b b' h = same (ground arith)
