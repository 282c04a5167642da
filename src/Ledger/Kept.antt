-- ===== src/Ledger/Kept.antt =====
-- A ledger keeps its findings, and their ids stay distinct:
-- packages/application/src/review-fix/finding-ledger.ts.
use automation.Prelude.{
  ℕ, suc, ◌≡◌, refl, sym, ap, ◌∙◌, String, str_eq, eq_iff, true, false, ◌&&◌, Option, some, List,
  [], ◌∷◌, ◌++◌, arith, Bool-cases, inl, inr, includes, includes-append, length,
}
use mathlib.Core.List.{append_assoc, append-nil}
use automation.Ledger.{
  Texts, FindingProvenanceSource, FindingLedgerEntry, FindingLedger, Finding,
  compute_finding_fingerprint, append_from, append_findings_to_ledger, new_entry,
}
use automation.Ledger.Update.{
  ids_of, FollowUpFindingEvaluation, update_entry, update_entries, update_finding_ledger,
}
use automation.Ledger.Ids.{NumbersDiffer, free_id-some}

abbrev pub DistinctIds : List String → Type 0
DistinctIds [] = Unit
DistinctIds (x ∷ xs) = (includes xs x ≡ false) × DistinctIds xs

DistinctIds-append :
    (xs : List String) (id : String)
    → DistinctIds xs
    → includes xs id ≡ false
    → DistinctIds (xs ++ id ∷ [])
DistinctIds-append [] id d n = (refl, tt)
DistinctIds-append (x ∷ xs) id (fresh, d) n =
    let differ : str_eq id x ≡ false = ground (arith, n, eq_iff id x, eq_iff x id) in
    (rw (includes-append xs id x, differ) fresh, DistinctIds-append xs id d (ground (arith, n)))

ids_of-append : (es more : List FindingLedgerEntry) → ids_of (es ++ more) ≡ ids_of es ++ ids_of more
ids_of-append [] more = refl
ids_of-append (e ∷ es) more = ap (λ ids. e.id ∷ ids) (ids_of-append es more)

-- What appending findings makes of entries: they come first, and the ids are distinct.
abbrev Appended : List FindingLedgerEntry → Option (List FindingLedgerEntry) → Type 0
Appended entries r =
    (more : List FindingLedgerEntry) × (r ≡ some (entries ++ more))
    × DistinctIds (ids_of (entries ++ more))

module _ (t : Texts) (differ : NumbersDiffer t) (source : FindingProvenanceSource)
    (iteration : ℕ) where
  append_from-Appended :
      (index : ℕ) (seen : List String) (entries : List FindingLedgerEntry) (fs : List Finding)
      → DistinctIds (ids_of entries)
      → ((y : String) → includes (ids_of entries) y ≡ true → includes seen y ≡ true)
      → Appended entries (append_from t source iteration index seen entries fs)
  unfolding append_from
  append_from-Appended index seen entries [] d sub =
      ([], ap some (sym (append-nil entries)), rw (append-nil entries) d)
  append_from-Appended index seen entries (f ∷ fs) d sub =
      let base = compute_finding_fingerprint t f index in
      elim (Bool-cases (t.is_content_fingerprint base && includes seen base)) [
        | inl known ↦
            let (more, e, d') = append_from-Appended (suc index) seen entries fs d sub in
            (more, rw (append_from, known) e, d')
        | inr unknown ↦
            let (id, free, fresh) = free_id-some t differ seen base in
            let entry = new_entry f source iteration id in
            let entries' = entries ++ entry ∷ [] in
            let ids : ids_of entries' ≡ ids_of entries ++ id ∷ [] =
              ids_of-append entries (entry ∷ []) in
            let unused : includes (ids_of entries) id ≡ false =
              elim (Bool-cases (includes (ids_of entries) id)) [
                | inl used ↦ absurd (ground (arith, sub id used, fresh))
                | inr unused ↦ unused
              ] in
            let d' : DistinctIds (ids_of entries') =
              rw ids (DistinctIds-append (ids_of entries) id d unused) in
            let sub' : (y : String)
                → includes (ids_of entries') y ≡ true
                → includes (id ∷ seen) y ≡ true =
              λ y h.
                let h' : includes (ids_of entries ++ id ∷ []) y ≡ true = rw (← ids) h in
                let h'' : includes (id ∷ ids_of entries) y ≡ true =
                  (rw (includes-append (ids_of entries) id y) at h') in
                elim (Bool-cases (str_eq id y)) [
                  | inl same ↦ rw same refl
                  | inr other ↦ let there = sub y (rw other at h'') in ground (arith, there)
                ] in
            let (more, e, d'') = append_from-Appended (suc index) (id ∷ seen) entries' fs d' sub' in
            let same : entries' ++ more ≡ entries ++ (entry ∷ more) =
              append_assoc entries (entry ∷ []) more in
            (entry ∷ more, rw (append_from, unknown, free) (e ∙ ap some same), rw (← same) d'')
      ]

update_entry-id :
    (t : Texts) (evs : List FollowUpFindingEvaluation) (iteration : ℕ) (e : FindingLedgerEntry)
    → (update_entry t evs iteration e).id ≡ e.id
unfolding update_entry
update_entry-id t evs iteration e = ground arith

update_entries-ids :
    (t : Texts) (evs : List FollowUpFindingEvaluation) (iteration : ℕ)
    (es : List FindingLedgerEntry)
    → ids_of (update_entries t evs iteration es) ≡ ids_of es
update_entries-ids t evs iteration [] = refl
update_entries-ids t evs iteration (e ∷ es) =
    rw (update_entry-id t evs iteration e, update_entries-ids t evs iteration es) refl

-- An update of a ledger whose ids are distinct ends, though it looks for free ids: the entries are the
-- old ones, updated and in their order, and then new ones, and the ids are distinct again. So if
-- different numbers have different texts.
pub update_finding_ledger-DistinctIds :
    (t : Texts) (ledger : FindingLedger) (evs : List FollowUpFindingEvaluation)
    (findings : List Finding) (iteration : ℕ) (source : FindingProvenanceSource)
    → NumbersDiffer t
    → DistinctIds (ids_of ledger.entries)
    → (next : FindingLedger) × (more : List FindingLedgerEntry) × (update_finding_ledger t ledger
          evs findings iteration source
        ≡ some next)
      × (next.entries ≡ update_entries t evs iteration ledger.entries ++ more)
      × DistinctIds (ids_of next.entries)
unfolding update_finding_ledger append_findings_to_ledger
update_finding_ledger-DistinctIds t ledger evs findings iteration source differ d =
    let entries = update_entries t evs iteration ledger.entries in
    let ids = update_entries-ids t evs iteration ledger.entries in
    let (more, e, d') =
      append_from-Appended t differ source iteration (length entries) (ids_of ledger.entries)
        entries findings (rw ids d) (λ y h. rw (← ids) h) in
    (
      record { iteration_count = iteration; entries = entries ++ more },
      more,
      rw (update_finding_ledger, append_findings_to_ledger, e) refl,
      refl,
      d',
    )
