-- ===== src/PrReview.antt =====
-- packages/domain/src/pr-review.ts: a review comment and its states. A `Date` is its number of
-- milliseconds, and what `new Date()` reads is an argument.
pub mod Severity
pub mod Lifecycle
mod Tests
use automation.Prelude.{
  ℕ, ◌+◌, String, Bool, true, false, not, ◌||◌, Option, none, some, Result, ok, err, ◌>>=◌, ◌>>◌,
  throw_if, or_else, if◌then◌else◌,
}
use Severity.{CommentSeverity, parse_severity}

pub data CommentState : Type 0 where
  pending replied processed blocked : CommentState

pub data CommentOutcome : Type 0 where
  fixed no_fix : CommentOutcome

pub record PrReviewComment : Type 0 where
  pub run_id : String
  pub pr_number : ℕ
  pub comment_id : ℕ
  pub path : String
  pub line : ℕ
  pub reviewer : String
  pub body : String
  pub state : CommentState
  pub severity : Option CommentSeverity
  pub attempts : ℕ
  pub outcome : Option CommentOutcome
  pub reply_id : Option ℕ
  pub commit_sha : Option String
  pub commit_verified : Bool
  pub reply_verified : Bool
  pub build_verified : Bool
  pub blocked_reason : Option String
  pub last_poll : ℕ
  pub created_at : ℕ
  pub updated_at : ℕ

pub data CommentStateError : Type 0 where
  unexpected_state : CommentState → CommentStateError
  reply_not_verified : CommentStateError
  verification_incomplete : Bool → Bool → Bool → CommentStateError

pub record CreatePrReviewCommentInput : Type 0 where
  pub run_id : String
  pub pr_number : ℕ
  pub comment_id : ℕ
  pub path : String
  pub line : ℕ
  pub reviewer : String
  pub body : String
  pub now : ℕ

unfoldable pub create_pr_review_comment : CreatePrReviewCommentInput → PrReviewComment
create_pr_review_comment input = record {
  run_id = input.run_id;
  pr_number = input.pr_number;
  comment_id = input.comment_id;
  path = input.path;
  line = input.line;
  reviewer = input.reviewer;
  body = input.body;
  state = pending;
  severity = parse_severity input.body;
  attempts = 0;
  outcome = none;
  reply_id = none;
  commit_sha = none;
  commit_verified = false;
  reply_verified = false;
  build_verified = false;
  blocked_reason = none;
  last_poll = 0;
  created_at = input.now;
  updated_at = input.now;
}

abbrev pub is_pending : CommentState → Bool
is_pending pending = true
is_pending _ = false

abbrev pub is_replied : CommentState → Bool
is_replied replied = true
is_replied _ = false

-- `c.outcome === 'no_fix'`.
abbrev pub is_no_fix : Option CommentOutcome → Bool
is_no_fix (some no_fix) = true
is_no_fix _ = false

unfoldable pub strip_optional_fields : PrReviewComment → PrReviewComment
strip_optional_fields c = record {
  run_id = c.run_id;
  pr_number = c.pr_number;
  comment_id = c.comment_id;
  path = c.path;
  line = c.line;
  reviewer = c.reviewer;
  body = c.body;
  state = c.state;
  severity = c.severity;
  attempts = c.attempts;
  outcome = none;
  reply_id = none;
  commit_sha = none;
  commit_verified = c.commit_verified;
  reply_verified = c.reply_verified;
  build_verified = c.build_verified;
  blocked_reason = none;
  last_poll = c.last_poll;
  created_at = c.created_at;
  updated_at = c.updated_at;
}

pub record ReplyInput : Type 0 where
  pub reply_id : ℕ
  pub outcome : CommentOutcome
  pub commit_sha : Option String
  pub poll : ℕ

unfoldable pub mark_replied :
    PrReviewComment → ReplyInput → ℕ → Result CommentStateError PrReviewComment
unfolding strip_optional_fields
mark_replied c input now = do
  throw_if (not (is_pending c.state)) (unexpected_state c.state)
  let bare = strip_optional_fields c
  ok (record bare {
    state = replied;
    reply_id = some input.reply_id;
    outcome = some input.outcome;
    commit_sha = or_else input.commit_sha bare.commit_sha;
    attempts = c.attempts + 1;
    last_poll = input.poll;
    updated_at = now;
  })

pub record Verification : Type 0 where
  pub commit_verified : Bool
  pub reply_verified : Bool
  pub build_verified : Bool

-- The checks of `markProcessed`, by the comment's outcome.
unfoldable pub check_verified :
    Option CommentOutcome → Verification → Result CommentStateError (Unit {0})
check_verified outcome v =
    if is_no_fix outcome
    then throw_if (not v.reply_verified) reply_not_verified
    else throw_if (not v.commit_verified || not v.reply_verified || not v.build_verified)
        (verification_incomplete v.commit_verified v.reply_verified v.build_verified)

unfoldable pub mark_processed :
    PrReviewComment → Verification → ℕ → Result CommentStateError PrReviewComment
unfolding check_verified
mark_processed c v now = do
  throw_if (not (is_replied c.state)) (unexpected_state c.state)
  check_verified c.outcome v
  ok (record c {
    state = processed;
    commit_verified = if is_no_fix c.outcome then c.commit_verified else true;
    reply_verified = true;
    build_verified = if is_no_fix c.outcome then c.build_verified else true;
    updated_at = now;
  })

unfoldable pub reset_for_retry : PrReviewComment → ℕ → ℕ → Result CommentStateError PrReviewComment
unfolding strip_optional_fields
reset_for_retry c poll now = do
  throw_if (not (is_replied c.state)) (unexpected_state c.state)
  let bare = strip_optional_fields c
  ok (record bare {
    state = pending;
    last_poll = poll;
    commit_verified = false;
    reply_verified = false;
    build_verified = false;
    updated_at = now;
  })

unfoldable pub block_comment :
    PrReviewComment → String → ℕ → Result CommentStateError PrReviewComment
block_comment c reason now = do
  throw_if (not (is_pending c.state || is_replied c.state)) (unexpected_state c.state)
  ok (record c { state = blocked; blocked_reason = some reason; updated_at = now })

unfoldable pub is_unresolved : PrReviewComment → Bool
is_unresolved c = is_pending c.state
