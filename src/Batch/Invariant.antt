-- ===== src/Batch/Invariant.antt =====
-- What holds of every release batch between two operations:
-- packages/domain/src/release-batch.ts.
use automation.Prelude.{
  suc, ◌≡◌, ◌≢◌, ◌∙◌, not, none, List, [], ◌∷◌, ok, arith, length, Result-cases, inl, inr, find?,
  ◌⊎◌, Option-cases, eq_iff,
}
use automation.Batch.{ReleaseBatch, ReleaseBatchItem, completed, is_merged}
use automation.Batch.Create.{all_merged}
use automation.Batch.Ops.{BatchOp, admit, approve, complete, apply, apply_all, keep}
use automation.Batch.Change.{Change, same, at, appended, apply-Change}
use automation.Batch.Listing.{
  Positioned, AllMerged, Distinct, issues_of, find_of_item_at, find_item-position,
  find_item-AllMerged, replace_item-Positioned, replace_item-AllMerged, replace_item-issues,
  append-Positioned, remediation-Positioned,
}
use automation.Batch.Issues.{append-Distinct}

pub record BatchInv (b : ReleaseBatch) : Type 0 where
  pub positioned : Positioned 1 b.items
  pub distinct : Distinct (issues_of b.items)
  pub candidate_merged : b.candidate_sha ≢ none → AllMerged b.items
  pub approved_candidate :
      b.approved_candidate_sha ≢ none → b.approved_candidate_sha ≡ b.candidate_sha
  pub completed_approved :
      b.status ≡ completed → (b.approved_candidate_sha ≢ none) × (b.completed_at ≢ none)

Change-positions :
    (op : BatchOp) (b b' : ReleaseBatch)
    → Change op b b'
    → Positioned 1 b.items
    → Positioned 1 b'.items
Change-positions op b b' (same e) h = rw e h
Change-positions op b b' (at p old new found ev e) h = rw e (
    replace_item-Positioned 1 p b.items new h
      (ev.place ∙ find_item-position p b.items old (find_of_item_at b p old found)))
Change-positions op b b' (appended nums e passed none_left) h = rw e (
    append-Positioned 1 (suc (length b.items)) b.items _ h (omega arith)
      (remediation-Positioned b.id (suc (length b.items)) nums))

Change-issues :
    (op : BatchOp) (b b' : ReleaseBatch)
    → Change op b b'
    → Distinct (issues_of b.items)
    → Distinct (issues_of b'.items)
Change-issues op b b' (same e) h = rw e h
Change-issues op b b' (at p old new found ev e) h =
    rw (e, replace_item-issues p b.items old new (find_of_item_at b p old found) ev.issue) h
Change-issues op b b' (appended nums e passed none_left) h =
    rw e (append-Distinct b.id (suc (length b.items)) b.items nums h passed)

-- A change keeps every item merged if all were, unless it appends items.
Change-merged :
    (op : BatchOp) (b b' : ReleaseBatch)
    → Change op b b'
    → b'.candidate_sha ≢ none
    → AllMerged b.items
    → AllMerged b'.items
Change-merged op b b' (same e) c h = rw e h
Change-merged op b b' (at p old new found ev e) c h = rw e (
    replace_item-AllMerged p b.items new h
      (ev.irreversible (find_item-AllMerged p b.items old h (find_of_item_at b p old found))).0)
Change-merged op b b' (appended nums e passed none_left) c h = absurd (c none_left)

none_unmerged-AllMerged :
    (items : List ReleaseBatchItem) → find? (λ i. not (is_merged i)) items ≡ none → AllMerged items
none_unmerged-AllMerged [] h = tt
none_unmerged-AllMerged (x ∷ items) h = ground (arith, none_unmerged-AllMerged items)

pub all_merged-AllMerged :
    (items : List ReleaseBatchItem) → all_merged items ≡ ok tt → AllMerged items
all_merged-AllMerged items h = none_unmerged-AllMerged items (ground arith)

-- A candidate that is there after an operation was there before, or all items are merged.
candidate-kept :
    (op : BatchOp) (b b' : ReleaseBatch)
    → apply op b ≡ ok b'
    → (b'.candidate_sha ≡ none)
      ⊎ (b'.candidate_sha ≡ b.candidate_sha)
      ⊎ (all_merged b.items ≡ ok tt)
unfolding apply
candidate-kept (admit p input) b b' h = ground arith
candidate-kept op b b' h = ground arith

apply-candidate_merged :
    (op : BatchOp) (b b' : ReleaseBatch)
    → BatchInv b
    → apply op b ≡ ok b'
    → b'.candidate_sha ≢ none
    → AllMerged b'.items
apply-candidate_merged op b b' i h c =
    let change : Change op b b' = apply-Change op b b' h in
    elim (candidate-kept op b b' h) [
      | inl gone ↦ absurd (c gone)
      | inr (inl kept) ↦ Change-merged op b b' change c (i.candidate_merged (λ e. c (kept ∙ e)))
      | inr (inr merged_now) ↦
          Change-merged op b b' change c (all_merged-AllMerged b.items merged_now)
    ]

apply-approved :
    (op : BatchOp) (b b' : ReleaseBatch)
    → BatchInv b
    → apply op b ≡ ok b'
    → b'.approved_candidate_sha ≢ none
    → b'.approved_candidate_sha ≡ b'.candidate_sha
unfolding apply
apply-approved (approve sha) b b' i h c = elim (Option-cases b.candidate_sha) [
  | inl missing ↦ ground arith
  | inr (candidate, there) ↦ ground (arith, eq_iff candidate sha)
]
apply-approved op b b' i h c = ground arith

apply-completed :
    (op : BatchOp) (b b' : ReleaseBatch)
    → BatchInv b
    → apply op b ≡ ok b'
    → b'.status ≡ completed
    → (b'.approved_candidate_sha ≢ none) × (b'.completed_at ≢ none)
unfolding apply
apply-completed (complete now) b b' i h c = ground arith
apply-completed op b b' i h c = ground arith

-- Every accepted operation keeps the invariant: items at the positions 1 to N, for distinct issues;
-- a candidate only if all items are merged; no approval but of the candidate; an end only with an
-- approval and a date.
pub apply-BatchInv :
    (op : BatchOp) (b b' : ReleaseBatch) → BatchInv b → apply op b ≡ ok b' → BatchInv b'
apply-BatchInv op b b' i h =
    let change : Change op b b' = apply-Change op b b' h in
    record {
      positioned = Change-positions op b b' change i.positioned;
      distinct = Change-issues op b b' change i.distinct;
      candidate_merged = apply-candidate_merged op b b' i h;
      approved_candidate = apply-approved op b b' i h;
      completed_approved = apply-completed op b b' i h;
    }

keep-BatchInv : (op : BatchOp) (b : ReleaseBatch) → BatchInv b → BatchInv (keep b (apply op b))
keep-BatchInv op b i = elim (Result-cases (apply op b)) [
  | inl (b', h) ↦ rw h (apply-BatchInv op b b' i h)
  | inr (e, h) ↦ rw h i
]

-- Whatever operations are tried on a batch, in any order, the invariant holds afterwards.
pub apply_all-BatchInv :
    (ops : List BatchOp) (b : ReleaseBatch) → BatchInv b → BatchInv (apply_all ops b)
unfolding apply_all
apply_all-BatchInv [] b i = i
apply_all-BatchInv (op ∷ ops) b i =
    apply_all-BatchInv ops (keep b (apply op b)) (keep-BatchInv op b i)
