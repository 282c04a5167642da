-- ===== src/PrReview/Severity.antt =====
-- `parseSeverity` of packages/domain/src/pr-review.ts. Its patterns `/\b(A|B)\b/i` are written out:
-- a word of the body, between two boundaries, that is A or B but for the case of ASCII letters.
use Prim.Native.Char.{code}
use automation.Prelude.{
  ℕ, ◌+◌, ◌==◌, leb, String, Bool, true, false, not, ◌&&◌, ◌||◌, Option, none, some, List, [], ◌∷◌,
  if◌then◌else◌,
}

pub data CommentSeverity : Type 0 where
  critical high medium low : CommentSeverity

-- The code points of a text.
abbrev pub codes : String → List ℕ
codes String.[] = []
codes (String.◌∷◌ c s) = code c ∷ codes s

-- `\w`.
pub is_word : ℕ → Bool
is_word c =
    (leb b'0' c && leb c b'9')
    || (leb b'A' c && leb c b'Z')
    || (leb b'a' c && leb c b'z')
    || c == b'_'

pub lower : ℕ → ℕ
lower c = if leb b'A' c && leb c b'Z' then c + 32 else c

-- The text begins with the word (given in lower case), and a boundary follows.
pub begins_with_word : List ℕ → List ℕ → Bool
unfolding is_word lower
begins_with_word [] [] = true
begins_with_word [] (c ∷ s) = not (is_word c)
begins_with_word (w ∷ ws) [] = false
begins_with_word (w ∷ ws) (c ∷ s) = lower c == w && begins_with_word ws s

-- The word occurs in the text; `after_word` tells whether a word character stands before it.
pub contains_word : Bool → List ℕ → List ℕ → Bool
unfolding begins_with_word is_word
contains_word after_word w [] = false
contains_word after_word w (c ∷ s) =
    (not after_word && begins_with_word w (c ∷ s)) || contains_word (is_word c) w s

-- `/\b(a|b)\b/i.test(body)`.
pub mentions : List ℕ → String → String → Bool
unfolding contains_word
mentions body a b = contains_word false (codes a) body || contains_word false (codes b) body

unfoldable pub parse_severity : String → Option CommentSeverity
unfolding mentions
parse_severity body =
    let s = codes body in
    if mentions s "p0" "critical"
    then some critical
    else if mentions s "p1" "high"
    then some high
    else if mentions s "p2" "medium"
    then some medium
    else if mentions s "p3" "low"
    then some low
    else none
