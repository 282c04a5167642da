-- ===== src/PrReview/Tests.antt =====
-- A comment that is answered, tried again and fixed, and the theorems on comments there.
use automation.Prelude.{◌≡◌, refl, true, false, none, some, List, [], ◌∷◌, ◌⊎◌}
use automation.PrReview.{
  processed, fixed, no_fix, CreatePrReviewCommentInput, create_pr_review_comment, ReplyInput,
  Verification,
}
use automation.PrReview.Severity.{parse_severity, critical, high, low}
use automation.PrReview.Lifecycle.{
  CommentOp, reply, process, retry, apply, apply_all, processed_verified,
}

severities :
    (parse_severity "this is CRITICAL, P3" ≡ some critical)
    × (parse_severity "(p1)" ≡ some high)
    × (parse_severity "p10 is highly lowish" ≡ none)
    × (parse_severity "low" ≡ some low)
unfolding parse_severity
severities = (refl, refl, refl, refl)

abbrev input : CreatePrReviewCommentInput
input = record {
  run_id = "u1";
  pr_number = 3;
  comment_id = 9;
  path = "a.ts";
  line = 1;
  reviewer = "ann";
  body = "P1: fix this";
  now = 100;
}

abbrev answer : ReplyInput
answer = record { reply_id = 5; outcome = fixed; commit_sha = some "abc"; poll = 1 }

abbrev all_verified : Verification
all_verified = record { commit_verified = true; reply_verified = true; build_verified = true }

abbrev no_build : Verification
no_build = record { commit_verified = true; reply_verified = true; build_verified = false }

abbrev story : List CommentOp
story =
    reply answer 110
    ∷ process no_build 120
    ∷ retry 2 130
    ∷ reply answer 140
    ∷ process all_verified 150
    ∷ []

is_processed : (apply_all story (create_pr_review_comment input)).state ≡ processed
unfolding apply_all apply create_pr_review_comment parse_severity
is_processed = refl

processed_verified_example :
    let c = apply_all story (create_pr_review_comment input) in
    (c.reply_verified ≡ true)
    × ((c.outcome ≡ some no_fix)
        ⊎ ((c.outcome ≡ some fixed) × (c.commit_verified ≡ true) × (c.build_verified ≡ true)))
processed_verified_example = processed_verified input story is_processed
