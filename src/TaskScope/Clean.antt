-- ===== src/TaskScope/Clean.antt =====
-- What a check that reports nothing says of the committed files:
-- packages/application/src/task-file-boundaries.ts.
use automation.Prelude.{
  ◌≡◌, ◌≢◌, refl, ap, String, str_eq, eq_iff, Bool, true, false, not, ◌&&◌, ◌||◌, some, List, [],
  ◌∷◌, arith, inl, inr, ◌⊎◌, Bool-cases, includes, All, All-map, distinct,
}
use automation.TaskScope.{
  PathTexts, TaskRecord, normalize_task_path, normalized, normalized_path_set,
}
use automation.TaskScope.Classes.{sort_texts, insert_text}
use automation.TaskScope.Boundaries.{
  keep, candidates_of, some_scope_permits, all_reference_files, check_task_boundaries,
  TaskBoundaryClassification,
}

insert_text-holds : (t : PathTexts) (x : String) (ys : List String) → insert_text t x ys ≢ []
insert_text-holds t x [] e = ground (arith, e)
insert_text-holds t x (y ∷ ys) e = elim (Bool-cases (t.text_le x y)) [
  | inl first ↦ ground (arith, e, first)
  | inr later ↦ ground (arith, e, later)
]

sort_texts-empty : (t : PathTexts) (xs : List String) → sort_texts t xs ≡ [] → xs ≡ []
unfolding sort_texts
sort_texts-empty t [] h = refl
sort_texts-empty t (x ∷ xs) h = absurd (insert_text-holds t x (sort_texts t xs) h)

keep-none :
    (test : String → Bool) (xs : List String) (y : String)
    → keep test xs ≡ []
    → includes xs y ≡ true
    → test y ≡ false
keep-none test [] y e h = absurd (ground (arith, h))
keep-none test (x ∷ xs) y e h = elim (Bool-cases (test x)) [
  | inl kept ↦ absurd (ground (arith, e, kept))
  | inr dropped ↦ elim (Bool-cases (str_eq x y)) [
    | inl same ↦ rw (← (eq_iff x y).0 same) dropped
    | inr other ↦ keep-none test xs y (rw dropped at e) (rw other at h)
  ]
]

keep-includes :
    (test : String → Bool) (xs : List String) (y : String)
    → includes xs y ≡ true
    → test y ≡ true
    → includes (keep test xs) y ≡ true
keep-includes test [] y h k = absurd (ground (arith, h))
keep-includes test (x ∷ xs) y h k = elim (Bool-cases (str_eq x y)) [
  | inl same ↦ let kept : test x ≡ true = rw ((eq_iff x y).0 same) k in rw (kept, same) refl
  | inr other ↦ let rest = keep-includes test xs y (rw other at h) k in ground (arith, rest)
]

distinct-includes :
    (seen xs : List String) (y : String)
    → includes xs y ≡ true
    → (includes seen y ≡ true) ⊎ (includes (distinct seen xs) y ≡ true)
distinct-includes seen [] y h = absurd (ground (arith, h))
distinct-includes seen (x ∷ xs) y h = elim (Bool-cases (str_eq x y)) [
  | inl same ↦ elim (Bool-cases (includes seen x)) [
    | inl old ↦ inl (rw (← (eq_iff x y).0 same) old)
    | inr new ↦ inr (rw (new, same) refl)
  ]
  | inr other ↦ elim (Bool-cases (includes seen x)) [
    | inl old ↦ rw old (distinct-includes seen xs y (rw other at h))
    | inr new ↦ elim (distinct-includes (x ∷ seen) xs y (rw other at h)) [
      | inl before ↦ inl (ground (arith, before, other))
      | inr later ↦ inr (ground (arith, later, new))
    ]
  ]
]

normalized-cons :
    (t : PathTexts) (raw : String) (raws : List String) (y : String)
    → includes (normalized t raws) y ≡ true
    → includes (normalized t (raw ∷ raws)) y ≡ true
normalized-cons t raw raws y h = elim (Bool-cases (str_eq (normalize_task_path t raw) "")) [
  | inl blank ↦ rw blank h
  | inr named ↦ rw named (ground (arith, h))
]

normalized-head :
    (t : PathTexts) (raw : String) (raws : List String)
    → (str_eq (normalize_task_path t raw) "" ≡ true)
      ⊎ (includes (normalized t (raw ∷ raws)) (normalize_task_path t raw) ≡ true)
normalized-head t raw raws = elim (Bool-cases (str_eq (normalize_task_path t raw) "")) [
  | inl blank ↦ inl blank
  | inr named ↦
      let path = normalize_task_path t raw in
      let itself : str_eq path path ≡ true = (eq_iff path path).1 refl in
      inr (rw (named, itself) refl)
]

normalized-All :
    (t : PathTexts) (all raws : List String)
    → ((y : String) → includes (normalized t raws) y ≡ true → includes all y ≡ true)
    → All
        (λ raw.
          (str_eq (normalize_task_path t raw) "" ≡ true)
          ⊎ (includes all (normalize_task_path t raw) ≡ true))
        raws
normalized-All t all [] sub = tt
normalized-All t all (raw ∷ raws) sub = (
  elim (normalized-head t raw raws) [ inl blank ↦ inl blank | inr there ↦ inr (sub _ there) ],
  normalized-All t all raws (λ y h. sub y (normalized-cons t raw raws y h)),
)

split-none :
    (reference : String → Bool) (xs : List String) (y : String)
    → keep reference xs ≡ []
    → keep (λ x. not (reference x)) xs ≡ []
    → includes xs y ≡ true
    → ⊥
split-none reference xs y a b h =
    let no = keep-none reference xs y a h in
    let yes = keep-none (λ x. not (reference x)) xs y b h in ground (arith, no, yes)

-- A committed path is of no file, or of one that is exempt, an artifact, or permitted by a task.
abbrev pub is_allowed : PathTexts → List String → List TaskRecord → String → Bool
is_allowed t exempt tasks raw =
    let path = normalize_task_path t raw in
    str_eq path ""
    || includes exempt path
    || t.is_orchestrator_artifact path
    || some_scope_permits t path tasks

-- When the check of the boundaries of a manifest reports no file, every committed path is of no
-- file, or of one that is exempt, an artifact of the orchestrator, or permitted by the scope of a task.
pub check_task_boundaries-is_allowed :
    (t : PathTexts) (committed : List String) (tasks : List TaskRecord) (exempt_files : List String)
    → check_task_boundaries t committed (some tasks) exempt_files
      ≡ record { modified_reference_files = []; undeclared_files = [] }
    → All (λ raw. is_allowed t (normalized_path_set t exempt_files) tasks raw ≡ true) committed
unfolding check_task_boundaries
check_task_boundaries-is_allowed t committed tasks exempt_files e =
    let exempt = normalized_path_set t exempt_files in
    let candidates = candidates_of t committed exempt in
    let outside = keep (λ file. not (some_scope_permits t file tasks)) candidates in
    let reference : String → Bool = λ file. includes (all_reference_files t tasks) file in
    let no_reference : keep reference outside ≡ [] =
      sort_texts-empty t (keep reference outside)
        (ap (λ (c : TaskBoundaryClassification). c.modified_reference_files) e) in
    let no_other : keep (λ file. not (reference file)) outside ≡ [] =
      sort_texts-empty t (keep (λ file. not (reference file)) outside)
        (ap (λ (c : TaskBoundaryClassification). c.undeclared_files) e) in
    All-map
      (λ raw.
        (str_eq (normalize_task_path t raw) "" ≡ true)
        ⊎ (includes (normalized t committed) (normalize_task_path t raw) ≡ true))
      (λ raw. is_allowed t exempt tasks raw ≡ true)
      (λ raw h. elim h [
        | inl blank ↦ ground (arith, blank)
        | inr there ↦
            let path = normalize_task_path t raw in
            elim (distinct-includes [] (normalized t committed) path there) [
              | inl nowhere ↦ absurd (ground (arith, nowhere))
              | inr once ↦
                  elim (Bool-cases
                    (not (includes exempt path) && not (t.is_orchestrator_artifact path))) [
                      | inr excused ↦ ground (arith, excused)
                      | inl candidate ↦
                          let listed : includes candidates path ≡ true =
                            keep-includes
                              (λ file.
                                not (includes exempt file) && not (t.is_orchestrator_artifact file))
                              (normalized_path_set t committed) path once candidate in
                          elim (Bool-cases (some_scope_permits t path tasks)) [
                            | inl permits ↦ ground (arith, permits)
                            | inr forbids ↦ absurd (
                                split-none reference outside path no_reference no_other (
                                  keep-includes (λ file. not (some_scope_permits t file tasks))
                                    candidates path listed (rw forbids refl)))
                          ]
                    ]
            ]
      ])
      committed (normalized-All t (normalized t committed) committed (λ y h. h))
