-- ===== src/Batch/Candidate.antt =====
-- The operations on a batch as a whole: packages/domain/src/release-batch.ts,
-- `transitionToAwaitingManualTest` to `cancelBatch`, without `unblockItem`.
use automation.Prelude.{
  ℕ, suc, String, Bool, true, false, not, ◌||◌, ◌&&◌, Option, none, some, List, [], ◌∷◌, ◌++◌, map,
  Result, ok, err, ◌>>◌, throw_if, ◌==◌, find?, length, if◌then◌else◌, is_blank, or_else,
  opt_is_str, opt_is_nat, opt_str_eq, truthy, includes_nat,
}
use automation.Batch.{
  ReleaseBatchStatus, building, awaiting_manual_test, test_failed, approved, promoting, completed,
  cancelled, ReleaseBatchItemStatus, ReleaseBatchItem, ReleaseBatch, ReleaseBatchError, state_error,
  bad_pr_number, blank_sha, no_candidate, batch_status, no_issues, bad_issue, duplicate_issue,
  invalid_candidate_sha, unapproved_promotion, terminal_batch, remediation_not_allowed, is_merged,
  assert_not_terminal,
}
use automation.Batch.Create.{all_merged}

abbrev pub can_be_tested : ReleaseBatchStatus → Bool
can_be_tested building = true
can_be_tested test_failed = true
can_be_tested _ = false

abbrev pub is_awaiting : ReleaseBatchStatus → Bool
is_awaiting awaiting_manual_test = true
is_awaiting _ = false

abbrev pub is_test_failed : ReleaseBatchStatus → Bool
is_test_failed test_failed = true
is_test_failed _ = false

abbrev pub is_approved : ReleaseBatchStatus → Bool
is_approved approved = true
is_approved _ = false

-- `approved` or `promoting`.
abbrev pub is_approved_or_promoting : ReleaseBatchStatus → Bool
is_approved_or_promoting approved = true
is_approved_or_promoting promoting = true
is_approved_or_promoting _ = false

abbrev pub is_zero : Option ℕ → Bool
is_zero none = false
is_zero (some n) = n == 0

-- The arguments are the batch, `candidateSha`, `candidateTreeSha` and `promotionPrNumber`.
unfoldable pub transition_to_awaiting_manual_test :
    ReleaseBatch → String → Option String → Option ℕ → Result ReleaseBatchError ReleaseBatch
transition_to_awaiting_manual_test batch candidate_sha candidate_tree_sha pr_number = do
  assert_not_terminal batch
  throw_if (not (can_be_tested batch.status)) (state_error (batch_status batch.status))
  throw_if (is_blank candidate_sha) (state_error blank_sha)
  all_merged batch.items
  throw_if (is_zero pr_number) (state_error bad_pr_number)
  ok (record batch {
    status = awaiting_manual_test;
    candidate_sha = some candidate_sha;
    approved_candidate_sha = none;
    candidate_tree_sha = or_else candidate_tree_sha batch.candidate_tree_sha;
    promotion_commit_sha = none;
    promotion_pr_number = or_else pr_number batch.promotion_pr_number;
    blocked_reason = none;
  })

unfoldable pub record_promotion_pr : ReleaseBatch → ℕ → Result ReleaseBatchError ReleaseBatch
record_promotion_pr batch pr_number = do
  assert_not_terminal batch
  throw_if (pr_number == 0) (state_error bad_pr_number)
  ok (
      if opt_is_nat batch.promotion_pr_number pr_number
      then batch
      else record batch { promotion_pr_number = some pr_number })

unfoldable pub approve_batch_candidate :
    ReleaseBatch → String → Result ReleaseBatchError ReleaseBatch
approve_batch_candidate batch approved_candidate_sha = do
  assert_not_terminal batch
  throw_if (not (is_awaiting batch.status)) (state_error (batch_status batch.status))
  throw_if (not (truthy batch.candidate_sha)) (state_error no_candidate)
  throw_if (not (opt_is_str batch.candidate_sha approved_candidate_sha)) invalid_candidate_sha
  ok (record batch { status = approved; approved_candidate_sha = some approved_candidate_sha })

-- The three ways to call `rejectBatchCandidate`: with an options object, with a candidate and a
-- reason (three arguments), and with one text or none.
pub data RejectArgs : Type 0 where
  options two_args : Option String → Option String → RejectArgs
  one_arg : Option String → RejectArgs

-- The candidate and the reason that the arguments stand for, given the candidate of the batch.
abbrev pub read_args : Option String → RejectArgs → Option String × Option String
read_args candidate (options sha reason) = (sha, reason)
read_args candidate (two_args sha reason) = (sha, reason)
read_args candidate (one_arg none) = (none, none)
read_args candidate (one_arg (some text)) =
    if truthy candidate && opt_is_str candidate text then (some text, none) else (none, some text)

-- `candidateSha !== undefined && batch.candidateSha && candidateSha !== batch.candidateSha`.
abbrev pub is_other_candidate : Option String → Option String → Bool
is_other_candidate none candidate = false
is_other_candidate (some sha) candidate = truthy candidate && not (opt_is_str candidate sha)

unfoldable pub reject_batch_candidate :
    ReleaseBatch → RejectArgs → Result ReleaseBatchError ReleaseBatch
reject_batch_candidate batch args = do
  assert_not_terminal batch
  throw_if (not (is_awaiting batch.status)) (state_error (batch_status batch.status))
  let (sha, reason) = read_args batch.candidate_sha args
  throw_if (is_other_candidate sha batch.candidate_sha) invalid_candidate_sha
  ok (record batch { status = test_failed; blocked_reason = or_else reason batch.blocked_reason })

-- The loop over the remediation issues, with those of the batch and those before.
unfoldable pub check_remediation : List ℕ → List ℕ → List ℕ → Result ReleaseBatchError (Unit {0})
check_remediation existing new [] = ok tt
check_remediation existing new (num ∷ nums) =
    throw_if (num == 0) (state_error bad_issue)
    >> throw_if (includes_nat existing num) (duplicate_issue num)
    >> throw_if (includes_nat new num) (duplicate_issue num)
    >> check_remediation existing (num ∷ new) nums

-- The appended items, from a position on.
unfoldable pub remediation_items : String → ℕ → List ℕ → List ReleaseBatchItem
remediation_items id position [] = []
remediation_items id position (num ∷ nums) =
    record {
      release_batch_id = id;
      position = position;
      issue_number = num;
      status = ReleaseBatchItemStatus.pending;
      run_uuid = none;
      pr_number = none;
      base_sha = none;
      merged_commit_sha = none;
      blocked_reason = none;
      started_at = none;
      completed_at = none;
    }
    ∷ remediation_items id (suc position) nums

abbrev pub first_unmerged : List ReleaseBatchItem → ℕ → ℕ
first_unmerged items current = elim (find? (λ i. not (is_merged i)) items) [
  | none ↦ current
  | some item ↦ item.position
]

abbrev is_empty : List ℕ → Bool
is_empty [] = true
is_empty (x ∷ xs) = false

unfoldable pub append_remediation_items :
    ReleaseBatch → List ℕ → Result ReleaseBatchError ReleaseBatch
unfolding check_remediation remediation_items
append_remediation_items batch issue_numbers = do
  assert_not_terminal batch
  throw_if (not (is_test_failed batch.status)) (remediation_not_allowed batch.status)
  throw_if (is_empty issue_numbers) (state_error no_issues)
  check_remediation (map (λ (i : ReleaseBatchItem). i.issue_number) batch.items) [] issue_numbers
  let all_items = batch.items ++ remediation_items batch.id (suc (length batch.items)) issue_numbers
  ok (record batch {
    status = building;
    current_position = first_unmerged all_items batch.current_position;
    candidate_sha = none;
    approved_candidate_sha = none;
    candidate_tree_sha = none;
    promotion_commit_sha = none;
    blocked_reason = none;
    items = all_items;
  })

unfoldable pub attach_promotion_pr : ReleaseBatch → ℕ → Result ReleaseBatchError ReleaseBatch
attach_promotion_pr batch pr_number = do
  assert_not_terminal batch
  throw_if (not (is_approved_or_promoting batch.status)) (state_error (batch_status batch.status))
  throw_if (pr_number == 0) (state_error bad_pr_number)
  ok (record batch { status = promoting; promotion_pr_number = some pr_number })

unfoldable pub record_promotion_commit :
    ReleaseBatch → String → Result ReleaseBatchError ReleaseBatch
record_promotion_commit batch promotion_commit_sha = do
  assert_not_terminal batch
  throw_if (is_blank promotion_commit_sha) (state_error blank_sha)
  ok (record batch { promotion_commit_sha = some promotion_commit_sha })

-- `!batch.approvedCandidateSha || batch.approvedCandidateSha !== batch.candidateSha`.
abbrev pub is_unapproved : ReleaseBatch → Bool
is_unapproved batch =
    not (truthy batch.approved_candidate_sha)
    || not (opt_str_eq batch.approved_candidate_sha batch.candidate_sha)

unfoldable pub promote_batch : ReleaseBatch → Result ReleaseBatchError ReleaseBatch
promote_batch batch = do
  assert_not_terminal batch
  throw_if (not (is_approved batch.status)) (state_error (batch_status batch.status))
  throw_if (is_unapproved batch) unapproved_promotion
  ok (record batch { status = promoting })

unfoldable pub complete_batch : ReleaseBatch → ℕ → Result ReleaseBatchError ReleaseBatch
complete_batch batch now = do
  assert_not_terminal batch
  throw_if (not (is_approved_or_promoting batch.status)) (state_error (batch_status batch.status))
  throw_if (is_unapproved batch) unapproved_promotion
  ok (record batch { status = completed; completed_at = some now })

abbrev pub cancel_from :
    ReleaseBatchStatus → ReleaseBatch → Option String → ℕ → Result ReleaseBatchError ReleaseBatch
cancel_from completed batch reason now = err (terminal_batch completed)
cancel_from cancelled batch reason now = ok batch
cancel_from _ batch reason now = ok (record batch {
  status = cancelled;
  completed_at = some now;
  blocked_reason = or_else reason batch.blocked_reason;
})

unfoldable pub cancel_batch :
    ReleaseBatch → Option String → ℕ → Result ReleaseBatchError ReleaseBatch
cancel_batch batch reason now = cancel_from batch.status batch reason now
