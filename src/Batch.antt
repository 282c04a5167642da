-- ===== src/Batch.antt =====
-- packages/domain/src/release-batch.ts: the data of a release batch, its errors, and cloning.
-- Numbers are naturals, so the tests `Number.isInteger` hold of them and are not written; a `Date`
-- is its number of milliseconds, and what `new Date()` reads is an argument.
pub mod Create
pub mod Items
pub mod Candidate
pub mod Ops
pub mod Change
pub mod Listing
pub mod Issues
pub mod Invariant
pub mod Release
pub mod Admission
pub mod Alone
mod Tests
use automation.Prelude.{
  ℕ, ◌+◌, String, Bool, true, false, not, ◌||◌, ◌&&◌, Option, none, some, List, [], ◌∷◌, ◌++◌, map,
  Result, ok, err, ◌>>=◌, ◌>>◌, throw_if, ◌==◌, find?, if◌then◌else◌,
}

pub data ReleaseBatchStatus : Type 0 where
  queued building blocked awaiting_manual_test test_failed approved promoting completed cancelled :
      ReleaseBatchStatus

pub data ReleaseBatchItemStatus : Type 0 where
  pending active waiting_merge merged blocked : ReleaseBatchItemStatus

pub record ReleaseBatchItem : Type 0 where
  pub release_batch_id : String
  pub position : ℕ
  pub issue_number : ℕ
  pub status : ReleaseBatchItemStatus
  pub run_uuid : Option String
  pub pr_number : Option ℕ
  pub base_sha : Option String
  pub merged_commit_sha : Option String
  pub blocked_reason : Option String
  pub started_at : Option ℕ
  pub completed_at : Option ℕ

pub record ReleaseBatch : Type 0 where
  pub id : String
  pub repo_id : String
  pub source_branch : String
  pub source_start_sha : String
  pub release_branch : String
  pub status : ReleaseBatchStatus
  pub current_position : ℕ
  pub candidate_sha : Option String
  pub approved_candidate_sha : Option String
  pub candidate_tree_sha : Option String
  pub promotion_commit_sha : Option String
  pub promotion_pr_number : Option ℕ
  pub blocked_reason : Option String
  pub created_at : ℕ
  pub completed_at : Option ℕ
  pub items : List ReleaseBatchItem

-- Why a plain `ReleaseBatchStateError` is thrown.
pub data Reason : Type 0 where
  no_items bad_position not_contiguous bad_issue blank_run_uuid : Reason
  not_found bad_pr_number blank_sha no_candidate no_completed_at no_issues : Reason
  unmerged_predecessor : ℕ → Reason
  item_status : ReleaseBatchItemStatus → Reason
  batch_status : ReleaseBatchStatus → Reason

-- The error classes of the file.
pub data ReleaseBatchError : Type 0 where
  state_error : Reason → ReleaseBatchError
  duplicate_position duplicate_issue : ℕ → ReleaseBatchError
  duplicate_run_assignment : Option String → ReleaseBatchError
  reassign_run : Option String → ReleaseBatchError
  immutable_item_merged : ℕ → ReleaseBatchError
  concurrent_admission : ℕ → ReleaseBatchError
  premature_candidate_capture : ℕ → ReleaseBatchError
  invalid_candidate_sha unapproved_promotion : ReleaseBatchError
  terminal_batch : ReleaseBatchStatus → ReleaseBatchError
  source_branch_drift release_branch_drift tree_equivalence : ReleaseBatchError
  remediation_not_allowed : ReleaseBatchStatus → ReleaseBatchError

-- `TERMINAL_STATUSES.has`.
abbrev pub is_terminal : ReleaseBatchStatus → Bool
is_terminal completed = true
is_terminal cancelled = true
is_terminal _ = false

abbrev pub assert_not_terminal : ReleaseBatch → Result ReleaseBatchError (Unit {0})
assert_not_terminal batch = throw_if (is_terminal batch.status) (terminal_batch batch.status)

-- `isAllItemsMergedAllowedStatus`, on the statuses themselves.
unfoldable pub is_all_items_merged_allowed_status : ReleaseBatchStatus → Bool
is_all_items_merged_allowed_status building = true
is_all_items_merged_allowed_status awaiting_manual_test = true
is_all_items_merged_allowed_status approved = true
is_all_items_merged_allowed_status promoting = true
is_all_items_merged_allowed_status completed = true
is_all_items_merged_allowed_status _ = false

abbrev pub is_merged : ReleaseBatchItem → Bool
is_merged item = elim item.status [ ReleaseBatchItemStatus.merged ↦ true | _ ↦ false ]

-- `i.status === 'active' || i.status === 'waiting_merge'`.
abbrev pub is_admitted : ReleaseBatchItem → Bool
is_admitted item = elim item.status [
  | ReleaseBatchItemStatus.active ↦ true
  | ReleaseBatchItemStatus.waiting_merge ↦ true
  | _ ↦ false
]

abbrev pub is_blocked_item : ReleaseBatchItem → Bool
is_blocked_item item = elim item.status [ ReleaseBatchItemStatus.blocked ↦ true | _ ↦ false ]

-- `items.findIndex((i) => i.position === position)`, and the item there.
unfoldable pub find_item : ℕ → List ReleaseBatchItem → Option ReleaseBatchItem
find_item position items = find? (λ i. i.position == position) items

-- `const next = [...items]; next[itemIndex] = item`, for the index found by `find_item`.
unfoldable pub replace_item : ℕ → ReleaseBatchItem → List ReleaseBatchItem → List ReleaseBatchItem
replace_item position item [] = []
replace_item position item (i ∷ items) =
    if i.position == position then item ∷ items else i ∷ replace_item position item items

-- The item at a position, or the error of an operation that does not find it.
unfoldable pub item_at : ReleaseBatch → ℕ → Result ReleaseBatchError ReleaseBatchItem
unfolding find_item
item_at batch position = elim (find_item position batch.items) [
  | none ↦ err (state_error not_found)
  | some item ↦ ok item
]
