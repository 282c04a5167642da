-- ===== src/Batch/Items.antt =====
-- The operations on one item of a batch: packages/domain/src/release-batch.ts, `admitItem` to
-- `markItemBlocked`, and `unblockItem`.
use automation.Prelude.{
  ℕ, String, Bool, true, false, not, ◌||◌, ◌&&◌, Option, none, some, List, [], ◌∷◌, Result, ok, err,
  ◌>>=◌, ◌>>◌, throw_if, ◌==◌, ltb, find?, if◌then◌else◌, is_blank, is_some, or_else, opt_is_str,
  opt_is_nat,
}
use automation.Batch.{
  ReleaseBatchStatus, queued, building, ReleaseBatchItemStatus, ReleaseBatchItem, ReleaseBatch,
  ReleaseBatchError, state_error, blank_run_uuid, bad_pr_number, blank_sha, unmerged_predecessor,
  item_status, duplicate_run_assignment, reassign_run, immutable_item_merged, concurrent_admission,
  is_merged, is_admitted, is_blocked_item, assert_not_terminal, item_at, replace_item,
}

-- The optional argument of `admitItem`, with the time that is used.
pub record AdmitInput : Type 0 where
  pub run_uuid : Option String
  pub base_sha : Option String
  pub now : ℕ

abbrev pub throw_if_found :
    Option ReleaseBatchItem
    → (ReleaseBatchItem → ReleaseBatchError)
    → Result ReleaseBatchError (Unit {0})
throw_if_found none e = ok tt
throw_if_found (some item) e = err (e item)

-- `i.position !== position && i.runUuid === runUuid`.
abbrev pub other_with_run : ℕ → String → ReleaseBatchItem → Bool
other_with_run position run i = not (i.position == position) && opt_is_str i.run_uuid run

-- `item.runUuid !== undefined && item.runUuid !== runUuid`.
abbrev pub has_other_run : Option String → String → Bool
has_other_run none run = false
has_other_run (some r) run = not (opt_is_str (some r) run)

abbrev pub check_admitted_run :
    ReleaseBatch → ℕ → ReleaseBatchItem → Option String → Result ReleaseBatchError (Unit {0})
check_admitted_run batch position item none = ok tt
check_admitted_run batch position item (some run) = do
  throw_if (has_other_run item.run_uuid run) (reassign_run item.run_uuid)
  throw_if_found (find? (other_with_run position run) batch.items)
      (λ i. duplicate_run_assignment (some run))

abbrev pub status_on_admission : ReleaseBatchStatus → ReleaseBatchStatus
status_on_admission queued = building
status_on_admission ReleaseBatchStatus.blocked = building
status_on_admission s = s

unfoldable pub admit_item : ReleaseBatch → ℕ → AdmitInput → Result ReleaseBatchError ReleaseBatch
admit_item batch position input = do
  assert_not_terminal batch
  item ← item_at batch position
  throw_if (is_merged item) (immutable_item_merged position)
  throw_if_found (find? (λ i. not (i.position == position) && is_admitted i) batch.items)
      (λ i. concurrent_admission i.position)
  throw_if_found (find? (λ i. ltb i.position position && not (is_merged i)) batch.items)
      (λ i. state_error (unmerged_predecessor i.position))
  check_admitted_run batch position item input.run_uuid
  let next = record item {
    status = ReleaseBatchItemStatus.active;
    blocked_reason = none;
    started_at = or_else item.started_at (some input.now);
    run_uuid = or_else input.run_uuid item.run_uuid;
    base_sha = or_else input.base_sha item.base_sha;
  }
  ok (record batch {
    status = status_on_admission batch.status;
    current_position = position;
    blocked_reason = none;
    items = replace_item position next batch.items;
  })

-- The second half of `assignItemRun`, where the item does not have this run.
abbrev pub assign_new_run :
    ReleaseBatch → ℕ → ReleaseBatchItem → String → Result ReleaseBatchError ReleaseBatch
assign_new_run batch position item run = do
  throw_if (is_some item.run_uuid) (reassign_run item.run_uuid)
  throw_if_found (find? (other_with_run position run) batch.items)
      (λ i. duplicate_run_assignment (some run))
  ok (record batch {
    items = replace_item position (record item { run_uuid = some run }) batch.items;
  })

unfoldable pub assign_item_run : ReleaseBatch → ℕ → String → Result ReleaseBatchError ReleaseBatch
assign_item_run batch position run = do
  assert_not_terminal batch
  throw_if (is_blank run) (state_error blank_run_uuid)
  item ← item_at batch position
  if opt_is_str item.run_uuid run then ok batch else assign_new_run batch position item run

abbrev pub is_active : ReleaseBatchItem → Bool
is_active item = elim item.status [ ReleaseBatchItemStatus.active ↦ true | _ ↦ false ]

abbrev pub is_waiting_merge : ReleaseBatchItem → Bool
is_waiting_merge item = elim item.status [ ReleaseBatchItemStatus.waiting_merge ↦ true | _ ↦ false ]

abbrev pub wait_merge :
    ReleaseBatch → ℕ → ReleaseBatchItem → ℕ → Result ReleaseBatchError ReleaseBatch
wait_merge batch position item pr_number = do
  throw_if (not (is_active item)) (state_error (item_status item.status))
  let next = record item {
    status = ReleaseBatchItemStatus.waiting_merge;
    pr_number = some pr_number;
  }
  ok (record batch { items = replace_item position next batch.items })

unfoldable pub mark_item_waiting_merge :
    ReleaseBatch → ℕ → ℕ → Result ReleaseBatchError ReleaseBatch
mark_item_waiting_merge batch position pr_number = do
  assert_not_terminal batch
  throw_if (pr_number == 0) (state_error bad_pr_number)
  item ← item_at batch position
  throw_if (is_merged item) (immutable_item_merged position)
  if is_waiting_merge item && opt_is_nat item.pr_number pr_number
      then ok batch
      else wait_merge batch position item pr_number

abbrev pub put_pr : ReleaseBatch → ℕ → ReleaseBatchItem → ℕ → ReleaseBatch
put_pr batch position item pr_number = record batch {
  items = replace_item position (record item { pr_number = some pr_number }) batch.items;
}

-- The item's status is not read.
unfoldable pub attach_item_pr : ReleaseBatch → ℕ → ℕ → Result ReleaseBatchError ReleaseBatch
attach_item_pr batch position pr_number = do
  assert_not_terminal batch
  throw_if (pr_number == 0) (state_error bad_pr_number)
  item ← item_at batch position
  ok (if opt_is_nat item.pr_number pr_number then batch else put_pr batch position item pr_number)

-- The arguments are the batch, the position, the commit and the time.
unfoldable pub mark_item_merged :
    ReleaseBatch → ℕ → String → ℕ → Result ReleaseBatchError ReleaseBatch
mark_item_merged batch position merged_commit_sha now = do
  assert_not_terminal batch
  throw_if (is_blank merged_commit_sha) (state_error blank_sha)
  item ← item_at batch position
  throw_if (is_merged item) (immutable_item_merged position)
  throw_if (not (is_admitted item)) (state_error (item_status item.status))
  let next = record item {
    status = ReleaseBatchItemStatus.merged;
    merged_commit_sha = some merged_commit_sha;
    completed_at = some now;
  }
  ok (record batch { items = replace_item position next batch.items })

-- Any item that is not merged can be blocked.
unfoldable pub mark_item_blocked : ReleaseBatch → ℕ → String → Result ReleaseBatchError ReleaseBatch
mark_item_blocked batch position reason = do
  assert_not_terminal batch
  item ← item_at batch position
  throw_if (is_merged item) (immutable_item_merged position)
  let next = record item { status = ReleaseBatchItemStatus.blocked; blocked_reason = some reason }
  ok (record batch {
    status = ReleaseBatchStatus.blocked;
    blocked_reason = some reason;
    items = replace_item position next batch.items;
  })

unfoldable pub mark_batch_blocked : ReleaseBatch → String → Result ReleaseBatchError ReleaseBatch
mark_batch_blocked batch reason = do
  assert_not_terminal batch
  ok (record batch { status = ReleaseBatchStatus.blocked; blocked_reason = some reason })

abbrev pub is_blocked : ReleaseBatchStatus → Bool
is_blocked ReleaseBatchStatus.blocked = true
is_blocked _ = false

unfoldable pub unblock_batch : ReleaseBatch → Result ReleaseBatchError ReleaseBatch
unblock_batch batch = do
  assert_not_terminal batch
  ok (
      if is_blocked batch.status
      then record batch { status = building; blocked_reason = none }
      else batch)

abbrev pub some_blocked : List ReleaseBatchItem → Bool
some_blocked [] = false
some_blocked (i ∷ items) = is_blocked_item i || some_blocked items

-- Neither the other items nor the order of the items is read, but for whether one is blocked.
abbrev pub activate : ReleaseBatch → ℕ → ReleaseBatchItem → Result ReleaseBatchError ReleaseBatch
activate batch position item =
    let next : ReleaseBatchItem = record item {
      status = ReleaseBatchItemStatus.active;
      blocked_reason = none;
    } in
    let next_batch : ReleaseBatch = record batch {
      items = replace_item position next batch.items;
    } in
    if not (some_blocked next_batch.items) && is_blocked next_batch.status
    then unblock_batch next_batch
    else ok next_batch

unfoldable pub unblock_item : ReleaseBatch → ℕ → Result ReleaseBatchError ReleaseBatch
unfolding unblock_batch
unblock_item batch position = do
  assert_not_terminal batch
  item ← item_at batch position
  if is_blocked_item item then activate batch position item else ok batch
