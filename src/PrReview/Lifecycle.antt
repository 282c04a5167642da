-- ===== src/PrReview/Lifecycle.antt =====
-- What holds of a review comment through its states: packages/domain/src/pr-review.ts.
use automation.Prelude.{
  ℕ, ◌+◌, ◌≤◌, ◌≡◌, ◌≢◌, ◌⊎◌, refl, String, true, false, none, some, List, [], ◌∷◌, Result, ok, err,
  Result-cases, arith, inl, inr,
}
use automation.PrReview.{
  pending, replied, processed, blocked, fixed, no_fix, PrReviewComment, CommentStateError,
  CreatePrReviewCommentInput, create_pr_review_comment, ReplyInput, Verification, mark_replied,
  mark_processed, reset_for_retry, block_comment,
}

pub data CommentOp : Type 0 where
  reply : ReplyInput → ℕ → CommentOp
  process : Verification → ℕ → CommentOp
  retry : ℕ → ℕ → CommentOp
  block : String → ℕ → CommentOp

unfoldable pub apply : CommentOp → PrReviewComment → Result CommentStateError PrReviewComment
unfolding mark_replied mark_processed reset_for_retry block_comment
apply (reply input now) c = mark_replied c input now
apply (process v now) c = mark_processed c v now
apply (retry poll now) c = reset_for_retry c poll now
apply (block reason now) c = block_comment c reason now

abbrev pub keep : PrReviewComment → Result CommentStateError PrReviewComment → PrReviewComment
keep old (ok new) = new
keep old (err e) = old

unfoldable pub apply_all : List CommentOp → PrReviewComment → PrReviewComment
apply_all [] c = c
apply_all (op ∷ ops) c = apply_all ops (keep c (apply op c))

pub record CommentInv (c : PrReviewComment) : Type 0 where
  pub fresh :
      c.state ≡ pending
      → (c.outcome ≡ none) × (c.reply_id ≡ none) × (c.commit_sha ≡ none) × (c.blocked_reason ≡ none)
  pub unverified :
      (c.state ≡ pending) ⊎ (c.state ≡ replied)
      → (c.commit_verified ≡ false) × (c.reply_verified ≡ false) × (c.build_verified ≡ false)
  pub answered :
      (c.state ≡ replied) ⊎ (c.state ≡ processed)
      → (c.outcome ≢ none) × (c.reply_id ≢ none) × (1 ≤ c.attempts)
  pub verified : c.state ≡ processed → c.reply_verified ≡ true
  pub fix_verified :
      c.state ≡ processed
      → c.outcome ≡ some fixed
      → (c.commit_verified ≡ true) × (c.build_verified ≡ true)
  pub explained : c.state ≡ blocked → c.blocked_reason ≢ none

-- A new comment satisfies the invariant.
pub create-CommentInv :
    (input : CreatePrReviewCommentInput) → CommentInv (create_pr_review_comment input)
unfolding create_pr_review_comment
create-CommentInv input = ground arith

-- Every accepted operation keeps the invariant.
pub apply-CommentInv :
    (op : CommentOp) (c c' : PrReviewComment) → CommentInv c → apply op c ≡ ok c' → CommentInv c'
unfolding apply
apply-CommentInv (reply input now) c c' i h = ground arith
apply-CommentInv op c c' i h = ground arith

keep-CommentInv :
    (op : CommentOp) (c : PrReviewComment) → CommentInv c → CommentInv (keep c (apply op c))
keep-CommentInv op c i = elim (Result-cases (apply op c)) [
  | inl (c', h) ↦ rw h (apply-CommentInv op c c' i h)
  | inr (e, h) ↦ rw h i
]

apply_all-CommentInv :
    (ops : List CommentOp) (c : PrReviewComment) → CommentInv c → CommentInv (apply_all ops c)
unfolding apply_all
apply_all-CommentInv [] c i = i
apply_all-CommentInv (op ∷ ops) c i =
    apply_all-CommentInv ops (keep c (apply op c)) (keep-CommentInv op c i)

-- Whatever operations are tried on a new comment, a comment that is processed has a verified
-- reply, and if it was fixed then its commit and its build are verified too.
pub processed_verified :
    (input : CreatePrReviewCommentInput) (ops : List CommentOp)
    → (apply_all ops (create_pr_review_comment input)).state ≡ processed
    → ((apply_all ops (create_pr_review_comment input)).reply_verified ≡ true)
      × (((apply_all ops (create_pr_review_comment input)).outcome ≡ some no_fix)
          ⊎ (((apply_all ops (create_pr_review_comment input)).outcome ≡ some fixed)
              × ((apply_all ops (create_pr_review_comment input)).commit_verified ≡ true)
              × ((apply_all ops (create_pr_review_comment input)).build_verified ≡ true)))
processed_verified input ops p =
    let i = apply_all-CommentInv ops _ (create-CommentInv input) in ground (arith, i)

keep_of_closed :
    (op : CommentOp) (c : PrReviewComment)
    → (c.state ≡ processed) ⊎ (c.state ≡ blocked)
    → keep c (apply op c) ≡ c
unfolding apply
keep_of_closed (reply input now) c h = ground arith
keep_of_closed op c h = ground arith

-- A processed or blocked comment never changes again.
pub apply_all_of_closed :
    (ops : List CommentOp) (c : PrReviewComment)
    → (c.state ≡ processed) ⊎ (c.state ≡ blocked)
    → apply_all ops c ≡ c
unfolding apply_all
apply_all_of_closed [] c h = refl
apply_all_of_closed (op ∷ ops) c h = rw (keep_of_closed op c h) (apply_all_of_closed ops c h)

abbrev pub is_reply : CommentOp → ℕ
is_reply (reply input now) = 1
is_reply _ = 0

abbrev pub replies : List CommentOp → ℕ
replies [] = 0
replies (op ∷ ops) = is_reply op + replies ops

keep-attempts :
    (op : CommentOp) (c : PrReviewComment)
    → (c.attempts ≤ (keep c (apply op c)).attempts)
      × ((keep c (apply op c)).attempts ≤ c.attempts + is_reply op)
unfolding apply
keep-attempts (reply input now) c = ground arith
keep-attempts op c = ground arith

-- The attempts of a comment never fall, and grow by at most one for each reply that is tried: a
-- retry does not forget them.
pub attempts_bounded :
    (ops : List CommentOp) (c : PrReviewComment)
    → (c.attempts ≤ (apply_all ops c).attempts)
      × ((apply_all ops c).attempts ≤ c.attempts + replies ops)
unfolding apply_all
attempts_bounded [] c = omega arith
attempts_bounded (op ∷ ops) c =
    omega (arith, keep-attempts op c, attempts_bounded ops (keep c (apply op c)))
