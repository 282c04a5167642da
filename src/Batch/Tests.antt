-- ===== src/Batch/Tests.antt =====
-- A batch of two issues from its creation to its release, and the theorems on batches there.
use automation.Prelude.{
  ℕ, ◌≡◌, ◌≢◌, ◌≤◌, ◌<◌, refl, true, false, none, some, List, [], ◌∷◌, ok, arith, map, All,
  is_blank,
}
use automation.Batch.{
  ReleaseBatch, ReleaseBatchItem, ReleaseBatchStatus, ReleaseBatchItemStatus, queued, building,
  completed, find_item, item_at, replace_item, is_merged, is_admitted,
}
use automation.Batch.Create.{
  CreateReleaseBatchInput, CreateReleaseBatchItemInput, create_release_batch, sort_by_position,
  check_items, to_item,
}
use automation.Batch.Items.{AdmitInput, admit_item, unblock_item}
use automation.Batch.Candidate.{one_arg}
use automation.Batch.Ops.{
  BatchOp, admit, wait, merge, block_item, await_test, approve, reject, append, promote, complete,
  apply, apply_all,
}
use automation.Batch.Listing.{AllMerged}
use automation.Batch.Invariant.{BatchInv, apply_all-BatchInv}
use automation.Batch.Release.{
  create_release_batch-BatchInv, completed_tested, MergedAt, merged_irreversible,
}
use automation.Batch.Admission.{admitted, admit_item_in_order, unblock_item_admits}
use automation.Batch.Alone.{one_admitted}

abbrev item_input : ℕ → ℕ → CreateReleaseBatchItemInput
item_input position issue = record {
  position = position;
  issue_number = issue;
  status = none;
  run_uuid = none;
  pr_number = none;
  base_sha = none;
  merged_commit_sha = none;
  blocked_reason = none;
  started_at = none;
  completed_at = none;
}

abbrev input : CreateReleaseBatchInput
input = record {
  id = "b1";
  repo_id = "repo";
  source_branch = "main";
  source_start_sha = "s0";
  release_branch = "release";
  status = none;
  current_position = none;
  candidate_sha = none;
  approved_candidate_sha = none;
  candidate_tree_sha = none;
  promotion_commit_sha = none;
  promotion_pr_number = none;
  blocked_reason = none;
  created_at = 100;
  completed_at = none;
  items = item_input 2 12 ∷ item_input 1 11 ∷ [];
}

abbrev pending_item : ℕ → ℕ → ReleaseBatchItem
pending_item position issue = record {
  release_batch_id = "b1";
  position = position;
  issue_number = issue;
  status = ReleaseBatchItemStatus.pending;
  run_uuid = none;
  pr_number = none;
  base_sha = none;
  merged_commit_sha = none;
  blocked_reason = none;
  started_at = none;
  completed_at = none;
}

abbrev new_batch : ReleaseBatch
new_batch = record {
  id = "b1";
  repo_id = "repo";
  source_branch = "main";
  source_start_sha = "s0";
  release_branch = "release";
  status = queued;
  current_position = 1;
  candidate_sha = none;
  approved_candidate_sha = none;
  candidate_tree_sha = none;
  promotion_commit_sha = none;
  promotion_pr_number = none;
  blocked_reason = none;
  created_at = 100;
  completed_at = none;
  items = pending_item 1 11 ∷ pending_item 2 12 ∷ [];
}

created : create_release_batch input ≡ ok new_batch
unfolding create_release_batch sort_by_position check_items to_item
created = refl

new_batch-BatchInv : BatchInv new_batch
new_batch-BatchInv = create_release_batch-BatchInv input new_batch created

abbrev at_200 : AdmitInput
at_200 = record { run_uuid = some "u1"; base_sha = none; now = 200 }

-- The second issue is tried too early, the first candidate is rejected, and a third issue is added.
abbrev story : List BatchOp
story =
    admit 2 at_200
    ∷ admit 1 at_200
    ∷ wait 1 31
    ∷ merge 1 "m1" 210
    ∷ admit 2 (record { run_uuid = some "u2"; base_sha = none; now = 220 })
    ∷ await_test "c0" none none
    ∷ merge 2 "m2" 230
    ∷ await_test "c1" none none
    ∷ reject (one_arg (some "broken"))
    ∷ append (13 ∷ [])
    ∷ admit 3 (record { run_uuid = some "u3"; base_sha = none; now = 240 })
    ∷ merge 3 "m3" 250
    ∷ await_test "c2" none none
    ∷ approve "c1"
    ∷ approve "c2"
    ∷ promote
    ∷ complete 260
    ∷ []

abbrev released : ReleaseBatch
released = apply_all story new_batch

story_told :
    (released.status ≡ completed)
    × (released.candidate_sha ≡ some "c2")
    × (released.completed_at ≡ some 260)
    × (map (λ (i : ReleaseBatchItem). i.merged_commit_sha) released.items
        ≡ some "m1" ∷ some "m2" ∷ some "m3" ∷ [])
unfolding apply_all apply item_at find_item replace_item is_blank
story_told = (refl, refl, refl, refl)

completed_tested_example :
    (released.completed_at ≢ none)
    × (released.candidate_sha ≢ none)
    × (released.approved_candidate_sha ≡ released.candidate_sha)
    × AllMerged released.items
completed_tested_example = completed_tested input new_batch story created story_told.0

apply_all-BatchInv_example : BatchInv released
apply_all-BatchInv_example = apply_all-BatchInv story new_batch new_batch-BatchInv

abbrev merged_once : ReleaseBatch
merged_once = apply_all (admit 1 at_200 ∷ merge 1 "m1" 210 ∷ []) new_batch

merged_once-MergedAt : MergedAt 1 (some "m1") merged_once
unfolding apply_all apply item_at find_item replace_item is_blank
merged_once-MergedAt = (
  record (pending_item 1 11) {
    status = ReleaseBatchItemStatus.merged;
    run_uuid = some "u1";
    merged_commit_sha = some "m1";
    started_at = some 200;
    completed_at = some 210;
  },
  refl,
  refl,
  refl,
)

merged_irreversible_example : MergedAt 1 (some "m1") (apply_all story merged_once)
merged_irreversible_example =
    merged_irreversible 1 (some "m1") story merged_once merged_once-MergedAt

abbrev started : ReleaseBatch
started = record new_batch {
  status = building;
  items =
      record (pending_item 1 11) {
        status = ReleaseBatchItemStatus.active;
        run_uuid = some "u1";
        started_at = some 200;
      }
      ∷ pending_item 2 12
      ∷ [];
}

first_admitted : admit_item new_batch 1 at_200 ≡ ok started
unfolding admit_item item_at find_item replace_item
first_admitted = refl

admit_item_in_order_example :
    ((item : ReleaseBatchItem) × (find_item 1 new_batch.items ≡ some item)
      × (is_merged item ≡ false))
    × All (λ i. i.position < 1 → is_merged i ≡ true) new_batch.items
    × (admitted started.items ≤ 1)
    × (started.current_position ≡ 1)
    × ((new : ReleaseBatchItem) × (find_item 1 started.items ≡ some new) × (is_admitted new ≡ true))
admit_item_in_order_example =
    admit_item_in_order new_batch started 1 at_200 new_batch-BatchInv first_admitted

one_admitted_example : admitted (apply_all story new_batch).items ≤ 1
one_admitted_example = one_admitted input new_batch story created (omega arith) (ground arith)

-- Reached from a new batch: the first item is active, and the second, never admitted, is blocked.
abbrev second_blocked : ReleaseBatch
second_blocked = record started {
  status = ReleaseBatchStatus.blocked;
  blocked_reason = some "later";
  items =
      record (pending_item 1 11) {
        status = ReleaseBatchItemStatus.active;
        run_uuid = some "u1";
        started_at = some 200;
      }
      ∷ record (pending_item 2 12) {
        status = ReleaseBatchItemStatus.blocked;
        blocked_reason = some "later";
      }
      ∷ [];
}

second_blocked_reached :
    apply_all (admit 1 at_200 ∷ block_item 2 "later" ∷ []) new_batch ≡ second_blocked
unfolding apply_all apply item_at find_item replace_item is_blank
second_blocked_reached = refl

unblock_item_admits_example :
    (b' : ReleaseBatch) × (unblock_item second_blocked 2 ≡ ok b') × (admitted b'.items ≡ 2)
unfolding item_at find_item
unblock_item_admits_example =
    unblock_item_admits second_blocked 2
      (record (pending_item 2 12) {
        status = ReleaseBatchItemStatus.blocked;
        blocked_reason = some "later";
      })
      refl refl refl
