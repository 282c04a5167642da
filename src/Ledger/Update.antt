-- ===== src/Ledger/Update.antt =====
-- The operations on a ledger: packages/application/src/review-fix/finding-ledger.ts.
use automation.Prelude.{
  ℕ, suc, ◌+◌, String, str_eq, Bool, true, false, ◌&&◌, Option, none, some, List, [], ◌∷◌,
  if◌then◌else◌, leb, get_or, opt_is_str, or_else,
}
use Prim.Native.String.{◌++◌ as ◌<>◌}
use automation.Ledger.{
  Texts, FindingProvenanceSource, spec_review, unresolved, resolved, FindingLedgerEntry,
  FindingLedger, Finding, append_findings_to_ledger, or_default, free_id,
}

pub record AcceptanceCriterion : Type 0 where
  pub criterion : Option String
  pub requirement : Option String
  pub result : Option String
  pub evidence : Option String

abbrev pub is_failing : Texts → AcceptanceCriterion → Bool
is_failing t c = elim c.result [ none ↦ false | some r ↦ t.is_fail r ]

abbrev pub criterion_entry : AcceptanceCriterion → String → FindingLedgerEntry
criterion_entry c id =
    let text = get_or (or_else c.criterion c.requirement) "" in
    record {
      id = id;
      status = unresolved;
      severity = "high";
      files = [];
      evidence = or_default c.evidence "Requirement not satisfied";
      rationale = "Failed requirement: " <> text;
      minimal_correction = "Implement requirement to satisfy: " <> text;
      source_iteration = 0;
      source = some spec_review;
      resolved_in_iteration = none;
      resolution_evidence = none;
      is_acceptance_criterion_failure = some true;
      last_unresolved_evidence = none;
      stale_repeat_count = none;
    }

-- The entries of the failing criteria, of which `index` are there, with the ids that are seen.
unfoldable pub criterion_entries :
    Texts
    → ℕ
    → List String
    → List AcceptanceCriterion
    → Option (List FindingLedgerEntry × List String)
unfolding free_id
criterion_entries t index seen [] = some ([], seen)
criterion_entries t index seen (c ∷ cs) =
    if is_failing t c
    then elim (free_id t seen ("AC-" <> t.show (index + 1))) [
      | none ↦ none
      | some id ↦ elim (criterion_entries t (suc index) (id ∷ seen) cs) [
        | none ↦ none
        | some (rest, seen') ↦ some (criterion_entry c id ∷ rest, seen')
      ]
    ]
    else criterion_entries t index seen cs

unfoldable pub create_finding_ledger :
    Texts → List Finding → List AcceptanceCriterion → FindingProvenanceSource → Option FindingLedger
unfolding criterion_entries append_findings_to_ledger
create_finding_ledger t findings criteria source = elim (criterion_entries t 0 [] criteria) [
  | none ↦ none
  | some (entries, seen) ↦ elim (append_findings_to_ledger t entries findings source 0 seen) [
    | none ↦ none
    | some all ↦ some (record { iteration_count = 0; entries = all })
  ]
]

abbrev pub ids_of : List FindingLedgerEntry → List String
ids_of [] = []
ids_of (e ∷ es) = e.id ∷ ids_of es

unfoldable pub append_finding_ledger_entries :
    Texts → FindingLedger → List Finding → FindingProvenanceSource → Option FindingLedger
unfolding append_findings_to_ledger
append_finding_ledger_entries t ledger findings source =
    elim (append_findings_to_ledger t ledger.entries findings source ledger.iteration_count
      (ids_of ledger.entries)) [ none ↦ none | some all ↦ some (record ledger { entries = all }) ]

pub record FollowUpFindingEvaluation : Type 0 where
  pub finding_id : String
  pub is_resolved : Bool
  pub evidence : String

-- `evalMap.get(id)`: the last evaluation of an id.
unfoldable pub evaluation_of :
    String → List FollowUpFindingEvaluation → Option FollowUpFindingEvaluation
evaluation_of id [] = none
evaluation_of id (ev ∷ evs) = elim (evaluation_of id evs) [
  | some later ↦ some later
  | none ↦ if str_eq ev.finding_id id then some ev else none
]

abbrev pub with_source : FindingLedgerEntry → FindingLedgerEntry
with_source e = record e { source = some (get_or e.source spec_review) }

abbrev pub resolve_entry : ℕ → String → FindingLedgerEntry → FindingLedgerEntry
resolve_entry iteration evidence e = record (with_source e) {
  status = resolved;
  resolved_in_iteration = some iteration;
  resolution_evidence = some evidence;
  last_unresolved_evidence = none;
  stale_repeat_count = none;
}

abbrev pub repeat_entry : String → FindingLedgerEntry → FindingLedgerEntry
repeat_entry evidence e = record (with_source e) {
  status = unresolved;
  last_unresolved_evidence = some evidence;
  stale_repeat_count = some (
      if opt_is_str e.last_unresolved_evidence evidence
      then get_or e.stale_repeat_count 1 + 1
      else 1);
}

unfoldable pub update_entry :
    Texts → List FollowUpFindingEvaluation → ℕ → FindingLedgerEntry → FindingLedgerEntry
unfolding evaluation_of
update_entry t evaluations iteration e = elim (evaluation_of e.id evaluations) [
  | none ↦ with_source e
  | some ev ↦
      if ev.is_resolved
      then resolve_entry iteration ev.evidence e
      else repeat_entry (t.normalize_evidence ev.evidence) e
]

abbrev pub update_entries :
    Texts → List FollowUpFindingEvaluation → ℕ → List FindingLedgerEntry → List FindingLedgerEntry
update_entries t evaluations iteration [] = []
update_entries t evaluations iteration (e ∷ es) =
    update_entry t evaluations iteration e ∷ update_entries t evaluations iteration es

unfoldable pub update_finding_ledger :
    Texts
    → FindingLedger
    → List FollowUpFindingEvaluation
    → List Finding
    → ℕ
    → FindingProvenanceSource
    → Option FindingLedger
unfolding update_entry append_findings_to_ledger
update_finding_ledger t ledger evaluations new_findings iteration source =
    elim (append_findings_to_ledger t (update_entries t evaluations iteration ledger.entries)
      new_findings source iteration (ids_of ledger.entries)) [
        | none ↦ none
        | some all ↦ some (record { iteration_count = iteration; entries = all })
      ]

abbrev pub is_unresolved : FindingLedgerEntry → Bool
is_unresolved e = elim e.status [ unresolved ↦ true | resolved ↦ false ]

abbrev some_unresolved : List FindingLedgerEntry → Bool
some_unresolved [] = false
some_unresolved (e ∷ es) = if is_unresolved e then true else some_unresolved es

unfoldable pub has_unresolved_blocking_findings : FindingLedger → Bool
has_unresolved_blocking_findings ledger = some_unresolved ledger.entries

abbrev pub is_stale : ℕ → FindingLedgerEntry → Bool
is_stale threshold e = is_unresolved e && leb threshold (get_or e.stale_repeat_count 0)

abbrev pub stale_entries : ℕ → List FindingLedgerEntry → List FindingLedgerEntry
stale_entries threshold [] = []
stale_entries threshold (e ∷ es) =
    let rest = stale_entries threshold es in if is_stale threshold e then e ∷ rest else rest

abbrev pub stale_repeat_threshold : ℕ
stale_repeat_threshold = 3

unfoldable pub get_stale_repeated_findings : FindingLedger → ℕ → List FindingLedgerEntry
get_stale_repeated_findings ledger threshold = stale_entries threshold ledger.entries
