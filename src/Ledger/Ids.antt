-- ===== src/Ledger/Ids.antt =====
-- There is always a free id: packages/application/src/review-fix/finding-ledger.ts.
use automation.Prelude.{
  ℕ, zero, suc, ◌≡◌, ◌<◌, ◌≤◌, refl, sym, ◌∙◌, String, str_eq, eq_iff, false, some, List, [], ◌∷◌,
  arith, Bool-cases, inl, inr, All, All-map, includes, length, unseen, unseen-falls, unseen-length,
}
use text.Mathlib.TextLemmas.{append_cancel_left}
use automation.Ledger.{Texts, with_suffix, next_free, free_id}

-- The texts of two numbers are the same only if the numbers are.
abbrev pub NumbersDiffer : Texts → Type 0
NumbersDiffer t = (a b : ℕ) → t.show a ≡ t.show b → a ≡ b

with_suffix-differ :
    (t : Texts) (base : String) (a b : ℕ)
    → NumbersDiffer t
    → with_suffix t base a ≡ with_suffix t base b
    → a ≡ b
with_suffix-differ t base a b differ e =
    differ a b (append_cancel_left "-" (t.show a) (t.show b) (append_cancel_left base _ _ e))

module _ (t : Texts) (differ : NumbersDiffer t) (seen : List String) (base : String) where
  -- The ids that were tried have suffixes below the given one.
  abbrev Tried : List String → ℕ → Type 0
  Tried tried k = All (λ y. (j : ℕ) × (y ≡ with_suffix t base j) × (j < k)) tried

  Tried-fresh :
      (tried : List String) (k : ℕ) → Tried tried k → includes tried (with_suffix t base k) ≡ false
  Tried-fresh [] k h = refl
  Tried-fresh (y ∷ ys) k ((j, e, below), rest) =
      elim (Bool-cases (str_eq y (with_suffix t base k))) [
        | inl same ↦
            let equal : j ≡ k =
              with_suffix-differ t base j k differ
                (sym e ∙ (eq_iff y (with_suffix t base k)).0 same) in
            absurd (omega (arith, equal, below))
        | inr other ↦ rw other (Tried-fresh ys k rest)
      ]

  next_free-some :
      (fuel k : ℕ) (tried : List String)
      → Tried tried k
      → unseen seen tried ≤ fuel
      → (id : String) × (next_free t seen base fuel k ≡ some id) × (includes seen id ≡ false)
  unfolding next_free
  next_free-some zero k tried h enough = elim (Bool-cases (includes seen (with_suffix t base k))) [
    | inr free ↦ (with_suffix t base k, rw free refl, free)
    | inl taken ↦ absurd (
        omega (
          arith,
          enough,
          unseen-falls seen tried (with_suffix t base k) taken (Tried-fresh tried k h),
        ))
  ]
  next_free-some (suc fuel) k tried h enough =
      elim (Bool-cases (includes seen (with_suffix t base k))) [
        | inr free ↦ (with_suffix t base k, rw free refl, free)
        | inl taken ↦
            let falls =
              unseen-falls seen tried (with_suffix t base k) taken (Tried-fresh tried k h) in
            let h' : Tried (with_suffix t base k ∷ tried) (suc k) = (
              (k, refl, omega arith),
              All-map (λ y. (j : ℕ) × (y ≡ with_suffix t base j) × (j < k))
                  (λ y. (j : ℕ) × (y ≡ with_suffix t base j) × (j < suc k))
                  (λ y (j, e, below). (j, e, omega (arith, below))) tried h,
            ) in
            let (id, e, free) =
              next_free-some fuel (suc k) (with_suffix t base k ∷ tried) h'
                (omega (arith, enough, falls)) in
            (id, rw taken e, free)
      ]

  pub free_id-some : (id : String) × (free_id t seen base ≡ some id) × (includes seen id ≡ false)
  unfolding free_id
  free_id-some = elim (Bool-cases (includes seen base)) [
    | inr free ↦ (base, rw free refl, free)
    | inl taken ↦
        let (id, e, free) = next_free-some (length seen) 1 [] tt (unseen-length seen []) in
        (id, rw taken e, free)
  ]
