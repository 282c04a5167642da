-- ===== src/Batch/Create.antt =====
-- `createReleaseBatch` of packages/domain/src/release-batch.ts.
use automation.Prelude.{
  ℕ, suc, ◌+◌, String, Bool, true, false, not, Option, none, some, List, [], ◌∷◌, map, Result, ok,
  err, ◌>>=◌, ◌>>◌, throw_if, ◌==◌, leb, find?, if◌then◌else◌, is_blank, is_none, get_or, truthy,
  includes, includes_nat, opt_str_eq,
}
use automation.Batch.{
  ReleaseBatchStatus, queued, completed, ReleaseBatchItemStatus, ReleaseBatchItem, ReleaseBatch,
  ReleaseBatchError, state_error, no_items, bad_position, not_contiguous, bad_issue, blank_run_uuid,
  no_completed_at, duplicate_position, duplicate_issue, duplicate_run_assignment,
  premature_candidate_capture, invalid_candidate_sha, unapproved_promotion, is_merged,
}

pub record CreateReleaseBatchItemInput : Type 0 where
  pub position : ℕ
  pub issue_number : ℕ
  pub status : Option ReleaseBatchItemStatus
  pub run_uuid : Option String
  pub pr_number : Option ℕ
  pub base_sha : Option String
  pub merged_commit_sha : Option String
  pub blocked_reason : Option String
  pub started_at : Option ℕ
  pub completed_at : Option ℕ

pub record CreateReleaseBatchInput : Type 0 where
  pub id : String
  pub repo_id : String
  pub source_branch : String
  pub source_start_sha : String
  pub release_branch : String
  pub status : Option ReleaseBatchStatus
  pub current_position : Option ℕ
  pub candidate_sha : Option String
  pub approved_candidate_sha : Option String
  pub candidate_tree_sha : Option String
  pub promotion_commit_sha : Option String
  pub promotion_pr_number : Option ℕ
  pub blocked_reason : Option String
  pub created_at : ℕ
  pub completed_at : Option ℕ
  pub items : List CreateReleaseBatchItemInput

-- `[...items].sort((a, b) => a.position - b.position)`, a stable sort.
unfoldable pub insert_by_position :
    CreateReleaseBatchItemInput
    → List CreateReleaseBatchItemInput
    → List CreateReleaseBatchItemInput
insert_by_position x [] = x ∷ []
insert_by_position x (y ∷ ys) =
    if leb x.position y.position then x ∷ y ∷ ys else y ∷ insert_by_position x ys

unfoldable pub sort_by_position :
    List CreateReleaseBatchItemInput → List CreateReleaseBatchItemInput
unfolding insert_by_position
sort_by_position [] = []
sort_by_position (x ∷ xs) = insert_by_position x (sort_by_position xs)

-- The sets `seenPositions`, `seenIssues` and `seenRunUuids`.
pub record Seen : Type 0 where
  pub positions : List ℕ
  pub issues : List ℕ
  pub runs : List String

abbrev pub check_run : List String → Option String → Result ReleaseBatchError (List String)
check_run runs none = ok runs
check_run runs (some run) = do
  throw_if (is_blank run) (state_error blank_run_uuid)
  throw_if (includes runs run) (duplicate_run_assignment (some run))
  ok (run ∷ runs)

-- One round of the loop over the sorted items, at index `i`.
unfoldable pub check_item : ℕ → Seen → CreateReleaseBatchItemInput → Result ReleaseBatchError Seen
check_item i seen item = do
  throw_if (item.position == 0) (state_error bad_position)
  throw_if (includes_nat seen.positions item.position) (duplicate_position item.position)
  throw_if (not (item.position == i + 1)) (state_error not_contiguous)
  throw_if (item.issue_number == 0) (state_error bad_issue)
  throw_if (includes_nat seen.issues item.issue_number) (duplicate_issue item.issue_number)
  runs ← check_run seen.runs item.run_uuid
  ok (record {
    positions = item.position ∷ seen.positions;
    issues = item.issue_number ∷ seen.issues;
    runs = runs;
  })

unfoldable pub check_items :
    ℕ → Seen → List CreateReleaseBatchItemInput → Result ReleaseBatchError (Unit {0})
unfolding check_item
check_items i seen [] = ok tt
check_items i seen (item ∷ items) =
    check_item i seen item >>= λ seen'. check_items (suc i) seen' items

unfoldable pub to_item : String → CreateReleaseBatchItemInput → ReleaseBatchItem
to_item id item = record {
  release_batch_id = id;
  position = item.position;
  issue_number = item.issue_number;
  status = get_or item.status ReleaseBatchItemStatus.pending;
  run_uuid = item.run_uuid;
  pr_number = item.pr_number;
  base_sha = item.base_sha;
  merged_commit_sha = item.merged_commit_sha;
  blocked_reason = item.blocked_reason;
  started_at = item.started_at;
  completed_at = item.completed_at;
}

-- `items.find((i) => i.status !== 'merged')`, and the error if a candidate is to be captured.
abbrev pub all_merged : List ReleaseBatchItem → Result ReleaseBatchError (Unit {0})
all_merged items = elim (find? (λ i. not (is_merged i)) items) [
  | none ↦ ok tt
  | some item ↦ err (premature_candidate_capture item.position)
]

abbrev check_candidate : Option String → List ReleaseBatchItem → Result ReleaseBatchError (Unit {0})
check_candidate none items = ok tt
check_candidate (some sha) items = all_merged items

abbrev check_approved : Option String → Option String → Result ReleaseBatchError (Unit {0})
check_approved none candidate = ok tt
check_approved (some sha) candidate =
    throw_if (not (opt_str_eq (some sha) candidate)) invalid_candidate_sha

abbrev check_completed :
    ReleaseBatchStatus → CreateReleaseBatchInput → Result ReleaseBatchError (Unit {0})
check_completed completed input = do
  throw_if (is_none input.completed_at) (state_error no_completed_at)
  throw_if (not (truthy input.approved_candidate_sha)) unapproved_promotion
check_completed _ input = ok tt

abbrev is_empty : List CreateReleaseBatchItemInput → Bool
is_empty [] = true
is_empty (x ∷ xs) = false

unfoldable pub create_release_batch :
    CreateReleaseBatchInput → Result ReleaseBatchError ReleaseBatch
create_release_batch input = do
  throw_if (is_empty input.items) (state_error no_items)
  let sorted = sort_by_position input.items
  check_items 0 (record { positions = []; issues = []; runs = [] }) sorted
  let items = map (to_item input.id) sorted
  check_candidate input.candidate_sha items
  check_approved input.approved_candidate_sha input.candidate_sha
  let status = get_or input.status queued
  check_completed status input
  ok (record {
    id = input.id;
    repo_id = input.repo_id;
    source_branch = input.source_branch;
    source_start_sha = input.source_start_sha;
    release_branch = input.release_branch;
    status = status;
    current_position = get_or input.current_position 1;
    candidate_sha = input.candidate_sha;
    approved_candidate_sha = input.approved_candidate_sha;
    candidate_tree_sha = input.candidate_tree_sha;
    promotion_commit_sha = input.promotion_commit_sha;
    promotion_pr_number = input.promotion_pr_number;
    blocked_reason = input.blocked_reason;
    created_at = input.created_at;
    completed_at = input.completed_at;
    items = items;
  })
