-- ===== src/Batch/Release.antt =====
-- The life of a release batch from `createReleaseBatch` to its end:
-- packages/domain/src/release-batch.ts.
use automation.Prelude.{
  ℕ, ◌≡◌, ◌≢◌, ◌∙◌, refl, ap, String, true, Option, none, some, List, [], ◌∷◌, ok, arith, ◌==◌, map,
  Result-cases, inl, inr, opt_str_eq, eq_iff, ◌⊎◌, Bool-cases,
}
use automation.Batch.{ReleaseBatch, ReleaseBatchItem, completed, is_terminal, is_merged, find_item}
use automation.Batch.Create.{
  CreateReleaseBatchInput, create_release_batch, sort_by_position, check_items, to_item, all_merged,
  Seen,
}
use automation.Batch.Ops.{BatchOp, cancel, apply, apply_all, keep}
use automation.Batch.Change.{Change, same, at, appended, apply-Change}
use automation.Batch.Listing.{
  AllMerged, find_of_item_at, find_item-position, find_item-replace_item, find_item-append,
}
use automation.Batch.Issues.{check_items-facts}
use automation.Batch.Invariant.{BatchInv, all_merged-AllMerged, apply_all-BatchInv}

abbrev nothing_seen : Seen
nothing_seen = record { positions = []; issues = []; runs = [] }

abbrev pub sorted_items : CreateReleaseBatchInput → List ReleaseBatchItem
sorted_items input = map (to_item input.id) (sort_by_position input.items)

-- What `createReleaseBatch` has checked of a batch that it returns.
pub record Checked (input : CreateReleaseBatchInput) (b : ReleaseBatch) : Type 0 where
  passed : check_items 0 nothing_seen (sort_by_position input.items) ≡ ok tt
  pub listed : b.items ≡ sorted_items input
  merged : b.candidate_sha ≢ none → all_merged (sorted_items input) ≡ ok tt
  approved :
      (b.approved_candidate_sha ≡ none)
      ⊎ (opt_str_eq b.approved_candidate_sha b.candidate_sha ≡ true)
  ended : b.status ≡ completed → (b.approved_candidate_sha ≢ none) × (b.completed_at ≢ none)

pub create_release_batch-Checked :
    (input : CreateReleaseBatchInput) (b : ReleaseBatch)
    → create_release_batch input ≡ ok b
    → Checked input b
unfolding create_release_batch
create_release_batch-Checked input b h = record {
  passed = ground arith;
  listed = ground arith;
  merged = λ c. ground arith;
  approved = ground arith;
  ended = λ c. ground arith;
}

opt_str_eq-eq : (a b : Option String) → opt_str_eq a b ≡ true → a ≡ b
opt_str_eq-eq none none h = refl
opt_str_eq-eq none (some t) h = cc
opt_str_eq-eq (some s) none h = cc
opt_str_eq-eq (some s) (some t) h = ap some ((eq_iff s t).0 h)

approved_of_Checked :
    {input : CreateReleaseBatchInput} {b : ReleaseBatch}
    → Checked input b
    → b.approved_candidate_sha ≢ none
    → b.approved_candidate_sha ≡ b.candidate_sha
approved_of_Checked k c = elim k.approved [
  | inl none_given ↦ absurd (c none_given)
  | inr equal ↦ opt_str_eq-eq _ _ equal
]

-- A batch that `createReleaseBatch` accepts, with whatever statuses and commits are given,
-- satisfies the invariant.
pub create_release_batch-BatchInv :
    (input : CreateReleaseBatchInput) (b : ReleaseBatch)
    → create_release_batch input ≡ ok b
    → BatchInv b
create_release_batch-BatchInv input b h =
    let k : Checked input b = create_release_batch-Checked input b h in
    let (places, fresh, distinct) =
      check_items-facts input.id 0 nothing_seen (sort_by_position input.items) k.passed in
    record {
      positioned = rw k.listed places;
      distinct = rw k.listed distinct;
      candidate_merged = λ c. rw k.listed (all_merged-AllMerged (sorted_items input) (k.merged c));
      approved_candidate = approved_of_Checked k;
      completed_approved = k.ended;
    }

-- Nothing is released untested: whatever operations are tried on a batch that was created, in any
-- order, a batch that is completed has an end date and a candidate, the approved commit is that
-- candidate, and every item is merged.
pub completed_tested :
    (input : CreateReleaseBatchInput) (b : ReleaseBatch) (ops : List BatchOp)
    → create_release_batch input ≡ ok b
    → (apply_all ops b).status ≡ completed
    → ((apply_all ops b).completed_at ≢ none)
      × ((apply_all ops b).candidate_sha ≢ none)
      × ((apply_all ops b).approved_candidate_sha ≡ (apply_all ops b).candidate_sha)
      × AllMerged (apply_all ops b).items
completed_tested input b ops h c =
    let i : BatchInv (apply_all ops b) =
      apply_all-BatchInv ops b (create_release_batch-BatchInv input b h) in
    let (approved, dated) = i.completed_approved c in
    let equal = i.approved_candidate approved in
    let candidate : (apply_all ops b).candidate_sha ≢ none = λ e. approved (equal ∙ e) in
    (dated, candidate, equal, i.candidate_merged candidate)

-- The item at a position is merged by this commit.
abbrev pub MergedAt : ℕ → Option String → ReleaseBatch → Type 0
MergedAt p sha b =
    (item : ReleaseBatchItem) × (find_item p b.items ≡ some item)
    × (is_merged item ≡ true)
    × (item.merged_commit_sha ≡ sha)

Change-MergedAt :
    (p : ℕ) (sha : Option String) (op : BatchOp) (b b' : ReleaseBatch)
    → Change op b b'
    → MergedAt p sha b
    → MergedAt p sha b'
Change-MergedAt p sha op b b' (same e) (item, found, merged, commit) =
    (item, rw e found, merged, commit)
Change-MergedAt p sha op b b' (at q old new there ev e) (item, found, merged, commit) =
    let old_found = find_of_item_at b q old there in
    let place = ev.place ∙ find_item-position q b.items old old_found in
    let after = find_item-replace_item p q b.items old new old_found place in
    elim (Bool-cases (p == q)) [
      | inl here ↦
          let it : old ≡ item = ground (arith, old_found, found) in
          (
            new,
            rw e (rw (after, here)),
            (ev.irreversible (rw it merged)).0,
            (ev.irreversible (rw it merged)).1 ∙ rw it commit,
          )
      | inr elsewhere ↦ (item, rw e (rw (after, elsewhere) found), merged, commit)
    ]
Change-MergedAt p sha op b b' (appended nums e passed gone) (item, found, merged, commit) =
    (item, rw e (find_item-append p b.items _ item found), merged, commit)

keep-MergedAt :
    (p : ℕ) (sha : Option String) (op : BatchOp) (b : ReleaseBatch)
    → MergedAt p sha b
    → MergedAt p sha (keep b (apply op b))
keep-MergedAt p sha op b m = elim (Result-cases (apply op b)) [
  | inl (b', h) ↦ rw h (Change-MergedAt p sha op b b' (apply-Change op b b' h) m)
  | inr (e, h) ↦ rw h m
]

-- Merged is irreversible: an item that is merged by a commit stays merged by that commit, whatever
-- operations are tried on the batch.
pub merged_irreversible :
    (p : ℕ) (sha : Option String) (ops : List BatchOp) (b : ReleaseBatch)
    → MergedAt p sha b
    → MergedAt p sha (apply_all ops b)
unfolding apply_all
merged_irreversible p sha [] b m = m
merged_irreversible p sha (op ∷ ops) b m =
    merged_irreversible p sha ops (keep b (apply op b)) (keep-MergedAt p sha op b m)

keep_of_terminal :
    (op : BatchOp) (b : ReleaseBatch) → is_terminal b.status ≡ true → keep b (apply op b) ≡ b
unfolding apply
keep_of_terminal (cancel reason now) b h = ground arith
keep_of_terminal op b h = ground arith

-- A completed or cancelled batch never changes again.
pub apply_all_of_terminal :
    (ops : List BatchOp) (b : ReleaseBatch) → is_terminal b.status ≡ true → apply_all ops b ≡ b
unfolding apply_all
apply_all_of_terminal [] b h = refl
apply_all_of_terminal (op ∷ ops) b h = rw (keep_of_terminal op b h) (apply_all_of_terminal ops b h)
