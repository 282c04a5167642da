-- ===== src/Ledger/Tests.antt =====
-- A ledger of one finding, and the theorems on it there.
use automation.Prelude.{
  ℕ, zero, suc, ◌≡◌, refl, sym, ap, ◌∙◌, String, true, false, none, some, List, [], ◌∷◌, ◌++◌,
  arith,
}
use Prim.Native.String.{count, ◌++◌ as ◌<>◌}
use text.Mathlib.TextLemmas.{length-append}
use automation.Ledger.{
  Texts, spec_review, FindingLedgerEntry, FindingLedger, Finding, compute_finding_fingerprint,
  free_id, next_free, append_from, append_findings_to_ledger, new_entry,
}
use automation.Ledger.Update.{
  ids_of, FollowUpFindingEvaluation, evaluation_of, update_entry, update_entries,
  update_finding_ledger, is_stale, stale_repeat_threshold,
}
use automation.Ledger.Ids.{NumbersDiffer}
use automation.Ledger.Kept.{DistinctIds, update_finding_ledger-DistinctIds}
use automation.Ledger.Stale.{Iteration, update_all, update_all-is_stale}

-- Numbers as strokes.
abbrev unary : ℕ → String
unary zero = ""
unary (suc n) = "1" <> unary n

count-unary : (n : ℕ) → count (unary n) ≡ n
count-unary zero = refl
count-unary (suc n) = let added = length-append "1" (unary n) in omega (arith, added, count-unary n)

abbrev texts : Texts
texts = record {
  hash = λ x. x;
  fold = λ x. x;
  is_fail = λ x. true;
  normalize_evidence = λ x. x;
  first_hundred = λ x. x;
  join_sorted = λ xs. "";
  is_content_fingerprint = λ x. false;
  show = unary;
}

texts-NumbersDiffer : NumbersDiffer texts
texts-NumbersDiffer a b e = sym (count-unary a) ∙ ap count e ∙ count-unary b

abbrev empty_finding : Finding
empty_finding = record {
  severity = none;
  files = none;
  evidence = none;
  rationale = none;
  minimal_correction = none;
}

abbrev entry : FindingLedgerEntry
entry = new_entry empty_finding spec_review 0 "F-11"

abbrev ledger : FindingLedger
ledger = record { iteration_count = 0; entries = entry ∷ [] }

abbrev still_there : FollowUpFindingEvaluation
still_there = record { finding_id = "F-11"; is_resolved = false; evidence = "same" }

-- The id of the new finding is taken, and it has a suffix.
suffixed :
    update_finding_ledger texts ledger [] (empty_finding ∷ []) 1 spec_review
    ≡ some (record {
      iteration_count = 1;
      entries = entry ∷ new_entry empty_finding spec_review 1 "F-11-1" ∷ [];
    })
unfolding update_finding_ledger append_findings_to_ledger append_from compute_finding_fingerprint
    free_id next_free update_entry evaluation_of
suffixed = refl

update_finding_ledger-DistinctIds_example :
    (next : FindingLedger) × (more : List FindingLedgerEntry) × (update_finding_ledger texts ledger
        (still_there ∷ [])
        (empty_finding ∷ [])
        1
        spec_review
      ≡ some next)
    × (next.entries ≡ update_entries texts (still_there ∷ []) 1 ledger.entries ++ more)
    × DistinctIds (ids_of next.entries)
update_finding_ledger-DistinctIds_example =
    update_finding_ledger-DistinctIds texts ledger (still_there ∷ []) (empty_finding ∷ []) 1
      spec_review texts-NumbersDiffer (refl, tt)

abbrev more_rounds : List Iteration
more_rounds = ((still_there ∷ []), 2) ∷ ((still_there ∷ []), 3) ∷ []

update_all-is_stale_example :
    is_stale stale_repeat_threshold (update_all texts (((still_there ∷ []), 1) ∷ more_rounds) entry)
    ≡ true
unfolding evaluation_of
update_all-is_stale_example =
    update_all-is_stale texts "same" ((still_there ∷ []), 1) more_rounds entry
      stale_repeat_threshold
      (
        (still_there, refl, refl, refl),
        ((still_there, refl, refl, refl), ((still_there, refl, refl, refl), tt)),
      )
      refl
