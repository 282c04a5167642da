-- ===== src/Ledger.antt =====
-- packages/application/src/review-fix/finding-ledger.ts: the ledger of the findings of reviews. The hash
-- of a text and what the language does with texts are arguments.
pub mod Update
pub mod Ids
pub mod Kept
pub mod Stale
mod Tests
use automation.Prelude.{
  ℕ, zero, suc, ◌+◌, String, str_eq, Bool, true, false, not, ◌&&◌, Option, none, some, List, [],
  ◌∷◌, ◌++◌, if◌then◌else◌, includes, length, ltb, get_or,
}
use Prim.Native.String.{◌++◌ as ◌<>◌, count}

-- The first eight digits of the hash; `trim().toLowerCase()`; `toUpperCase() === 'FAIL'`; the evidence
-- with its white space made one blank each, trimmed and in lower case; `slice(0, 100)`; the sorted
-- texts joined by commas; the pattern of a hashed id; and a number in decimal.
pub record Texts : Type 0 where
  pub hash : String → String
  pub fold : String → String
  pub is_fail : String → Bool
  pub normalize_evidence : String → String
  pub first_hundred : String → String
  pub join_sorted : List String → String
  pub is_content_fingerprint : String → Bool
  pub show : ℕ → String

pub data FindingProvenanceSource : Type 0 where
  spec_review quality_review : FindingProvenanceSource

pub data FindingStatus : Type 0 where
  unresolved resolved : FindingStatus

pub record FindingLedgerEntry : Type 0 where
  pub id : String
  pub status : FindingStatus
  pub severity : String
  pub files : List String
  pub evidence : String
  pub rationale : String
  pub minimal_correction : String
  pub source_iteration : ℕ
  pub source : Option FindingProvenanceSource
  pub resolved_in_iteration : Option ℕ
  pub resolution_evidence : Option String
  pub is_acceptance_criterion_failure : Option Bool
  pub last_unresolved_evidence : Option String
  pub stale_repeat_count : Option ℕ

pub record FindingLedger : Type 0 where
  pub iteration_count : ℕ
  pub entries : List FindingLedgerEntry

pub record Finding : Type 0 where
  pub severity : Option String
  pub files : Option (List String)
  pub evidence : Option String
  pub rationale : Option String
  pub minimal_correction : Option String

unfoldable pub compute_finding_fingerprint : Texts → Finding → ℕ → String
compute_finding_fingerprint t f fallback_index =
    let raw =
      t.join_sorted (get_or f.files [])
      <> "|"
      <> t.fold (get_or f.rationale "")
      <> "|"
      <> t.fold (get_or f.minimal_correction "")
      <> "|"
      <> t.first_hundred (t.fold (get_or f.evidence "")) in
    if ltb 3 (count raw) then "F-" <> t.hash raw else "F-" <> t.show (fallback_index + 1)

abbrev pub with_suffix : Texts → String → ℕ → String
with_suffix t base suffix = base <> "-" <> t.show suffix

-- The ids with a suffix, from one on, until one is not seen; `none` if the fuel runs out.
unfoldable pub next_free : Texts → List String → String → ℕ → ℕ → Option String
next_free t seen base zero suffix =
    if includes seen (with_suffix t base suffix) then none else some (with_suffix t base suffix)
next_free t seen base (suc fuel) suffix =
    let later = next_free t seen base fuel (suc suffix) in
    if includes seen (with_suffix t base suffix) then later else some (with_suffix t base suffix)

-- An id that is not seen: the given one, or it with a suffix. Of one more id than are seen, one is free.
unfoldable pub free_id : Texts → List String → String → Option String
unfolding next_free
free_id t seen base =
    if includes seen base then next_free t seen base (length seen) 1 else some base

-- `o || d`.
abbrev pub or_default : Option String → String → String
or_default none other = other
or_default (some x) other = if str_eq x "" then other else x

abbrev pub new_entry : Finding → FindingProvenanceSource → ℕ → String → FindingLedgerEntry
new_entry f source iteration id = record {
  id = id;
  status = unresolved;
  severity = or_default f.severity "high";
  files = get_or f.files [];
  evidence = or_default f.evidence "";
  rationale = or_default f.rationale "";
  minimal_correction = or_default f.minimal_correction "";
  source_iteration = iteration;
  source = some source;
  resolved_in_iteration = none;
  resolution_evidence = none;
  is_acceptance_criterion_failure = some false;
  last_unresolved_evidence = none;
  stale_repeat_count = none;
}

-- The findings from the index on; the ids that are seen grow with them.
unfoldable pub append_from :
    Texts
    → FindingProvenanceSource
    → ℕ
    → ℕ
    → List String
    → List FindingLedgerEntry
    → List Finding
    → Option (List FindingLedgerEntry)
unfolding compute_finding_fingerprint free_id
append_from t source iteration index seen entries [] = some entries
append_from t source iteration index seen entries (f ∷ fs) =
    let base = compute_finding_fingerprint t f index in
    if t.is_content_fingerprint base && includes seen base
    then append_from t source iteration (suc index) seen entries fs
    else elim (free_id t seen base) [
      | none ↦ none
      | some id ↦
          append_from t source iteration (suc index) (id ∷ seen)
            (entries ++ new_entry f source iteration id ∷ []) fs
    ]

unfoldable pub append_findings_to_ledger :
    Texts
    → List FindingLedgerEntry
    → List Finding
    → FindingProvenanceSource
    → ℕ
    → List String
    → Option (List FindingLedgerEntry)
unfolding append_from
append_findings_to_ledger t entries findings source iteration seen =
    append_from t source iteration (length entries) seen entries findings
