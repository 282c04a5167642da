-- ===== src/Batch/Ops.antt =====
-- The operations of packages/domain/src/release-batch.ts as data, so that the life of a batch is a
-- list of operations. A rejected operation leaves the batch as it was.
use automation.Prelude.{ℕ, String, Option, List, [], ◌∷◌, Result, ok, err}
use automation.Batch.{ReleaseBatch, ReleaseBatchError}
use automation.Batch.Items.{
  AdmitInput, admit_item, assign_item_run, mark_item_waiting_merge, attach_item_pr,
  mark_item_merged, mark_item_blocked, mark_batch_blocked, unblock_batch, unblock_item,
}
use automation.Batch.Candidate.{
  transition_to_awaiting_manual_test, record_promotion_pr, approve_batch_candidate, RejectArgs,
  reject_batch_candidate, append_remediation_items, attach_promotion_pr, record_promotion_commit,
  promote_batch, complete_batch, cancel_batch,
}

pub data BatchOp : Type 0 where
  admit : ℕ → AdmitInput → BatchOp
  assign_run : ℕ → String → BatchOp
  wait attach_pr : ℕ → ℕ → BatchOp
  merge : ℕ → String → ℕ → BatchOp
  block_item : ℕ → String → BatchOp
  block : String → BatchOp
  unblock : BatchOp
  unblock_at : ℕ → BatchOp
  await_test : String → Option String → Option ℕ → BatchOp
  record_pr : ℕ → BatchOp
  approve : String → BatchOp
  reject : RejectArgs → BatchOp
  append : List ℕ → BatchOp
  attach_promotion : ℕ → BatchOp
  record_commit : String → BatchOp
  promote : BatchOp
  complete : ℕ → BatchOp
  cancel : Option String → ℕ → BatchOp

unfoldable pub apply : BatchOp → ReleaseBatch → Result ReleaseBatchError ReleaseBatch
unfolding admit_item assign_item_run mark_item_waiting_merge attach_item_pr mark_item_merged
    mark_item_blocked mark_batch_blocked unblock_batch unblock_item
    transition_to_awaiting_manual_test record_promotion_pr approve_batch_candidate
    reject_batch_candidate append_remediation_items attach_promotion_pr record_promotion_commit
    promote_batch complete_batch cancel_batch
apply (admit position input) b = admit_item b position input
apply (assign_run position run) b = assign_item_run b position run
apply (wait position pr) b = mark_item_waiting_merge b position pr
apply (attach_pr position pr) b = attach_item_pr b position pr
apply (merge position sha now) b = mark_item_merged b position sha now
apply (block_item position reason) b = mark_item_blocked b position reason
apply (block reason) b = mark_batch_blocked b reason
apply unblock b = unblock_batch b
apply (unblock_at position) b = unblock_item b position
apply (await_test sha tree pr) b = transition_to_awaiting_manual_test b sha tree pr
apply (record_pr pr) b = record_promotion_pr b pr
apply (approve sha) b = approve_batch_candidate b sha
apply (reject args) b = reject_batch_candidate b args
apply (append issues) b = append_remediation_items b issues
apply (attach_promotion pr) b = attach_promotion_pr b pr
apply (record_commit sha) b = record_promotion_commit b sha
apply promote b = promote_batch b
apply (complete now) b = complete_batch b now
apply (cancel reason now) b = cancel_batch b reason now

abbrev pub keep : ReleaseBatch → Result ReleaseBatchError ReleaseBatch → ReleaseBatch
keep old (ok new) = new
keep old (err e) = old

unfoldable pub apply_all : List BatchOp → ReleaseBatch → ReleaseBatch
apply_all [] b = b
apply_all (op ∷ ops) b = apply_all ops (keep b (apply op b))
