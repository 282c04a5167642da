-- ===== src/Ledger/Stale.antt =====
-- Findings that a reviewer repeats: packages/application/src/review-fix/finding-ledger.ts.
use automation.Prelude.{
  ℕ, suc, ◌+◌, ◌≡◌, refl, ap, ◌∙◌, String, eq_iff, true, false, some, List, [], ◌∷◌, arith, All,
  length, leb, opt_is_str,
}
use automation.Ledger.{Texts, FindingLedgerEntry, FindingStatus}
use automation.Ledger.Update.{
  FollowUpFindingEvaluation, evaluation_of, update_entry, repeat_entry, is_stale,
}

-- The evaluations of an iteration, and its index.
abbrev pub Iteration : Type 0
Iteration = List FollowUpFindingEvaluation × ℕ

-- An entry after the updates of some iterations, one after the other.
unfoldable pub update_all : Texts → List Iteration → FindingLedgerEntry → FindingLedgerEntry
unfolding update_entry
update_all t [] e = e
update_all t ((evs, iteration) ∷ rest) e = update_all t rest (update_entry t evs iteration e)

-- The iteration finds the finding of the id unresolved, with the given normalized evidence.
abbrev pub Repeats : Texts → String → String → Iteration → Type 0
Repeats t id evidence (evs, iteration) =
    (ev : FollowUpFindingEvaluation) × (evaluation_of id evs ≡ some ev)
    × (ev.is_resolved ≡ false)
    × (t.normalize_evidence ev.evidence ≡ evidence)

update_entry-Repeats :
    (t : Texts) (evidence : String) (i : Iteration) (e : FindingLedgerEntry)
    → Repeats t e.id evidence i
    → update_entry t i.0 i.1 e ≡ repeat_entry evidence e
unfolding update_entry
update_entry-Repeats t evidence (evs, iteration) e (ev, found, unsolved, same) =
    rw (update_entry, found, unsolved, same) refl

update_all-counts :
    (t : Texts) (evidence : String) (is : List Iteration) (e : FindingLedgerEntry) (count : ℕ)
    → All (Repeats t e.id evidence) is
    → e.last_unresolved_evidence ≡ some evidence
    → e.stale_repeat_count ≡ some count
    → e.status ≡ FindingStatus.unresolved
    → ((update_all t is e).stale_repeat_count ≡ some (count + length is))
      × ((update_all t is e).status ≡ FindingStatus.unresolved)
unfolding update_all
update_all-counts t evidence [] e count repeats last counted status =
    (counted ∙ ap some (omega arith), status)
update_all-counts t evidence (i ∷ is) e count (first, rest) last counted status =
    let step = update_entry-Repeats t evidence i e first in
    let again : opt_is_str (some evidence) evidence ≡ true = (eq_iff evidence evidence).1 refl in
    let next : (repeat_entry evidence e).stale_repeat_count ≡ some (count + 1) =
      rw (last, again, counted) refl in
    let (later, kept) =
      update_all-counts t evidence is (repeat_entry evidence e) (count + 1) rest refl next refl in
    rw (update_all, step) (later ∙ ap some (omega arith), kept)

-- A finding that some iterations in a row find unresolved with the same evidence, which it did not have
-- before, is stale by a threshold exactly when there are at least as many of them.
pub update_all-is_stale :
    (t : Texts) (evidence : String) (i : Iteration) (is : List Iteration) (e : FindingLedgerEntry)
    (threshold : ℕ)
    → All (Repeats t e.id evidence) (i ∷ is)
    → opt_is_str e.last_unresolved_evidence evidence ≡ false
    → is_stale threshold (update_all t (i ∷ is) e) ≡ leb threshold (length (i ∷ is))
unfolding update_all
update_all-is_stale t evidence i is e threshold (first, rest) other =
    let step = update_entry-Repeats t evidence i e first in
    let next : (repeat_entry evidence e).stale_repeat_count ≡ some 1 = rw other refl in
    let (later, kept) =
      update_all-counts t evidence is (repeat_entry evidence e) 1 rest refl next refl in
    let same : 1 + length is ≡ suc (length is) = omega arith in
    rw (update_all, step, kept, later, same) refl
