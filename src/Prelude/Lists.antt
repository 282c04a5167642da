-- ===== src/Prelude/Lists.antt =====
-- Lists measured by native numbers, and predicates on them by recursion.
use Prim.Native.Nat.{ℕ, suc, ◌+◌}
use mathlib.Core.Path.{◌≡◌, refl}
use Prim.Native.String.{String}
use mathlib.Core.Bool.{Bool, false, ◌||◌}
use mathlib.Core.Option.{Option, none, some}
use mathlib.Core.List.{List, [], ◌∷◌, ◌++◌, Memᴰ}
use native.Mathlib.Omega.{arith}
use text.Mathlib.Text.{◌==◌ as str_eq}
use automation.Prelude.Tests.{◌==◌, if◌then◌else◌}

module _ {ℓ} {A : Type ℓ} where
  abbrev pub length : List A → ℕ
  length [] = 0
  length (x ∷ xs) = suc (length xs)

  -- `xs.find(p)`.
  abbrev pub find? : (A → Bool) → List A → Option A
  find? p [] = none
  find? p (x ∷ xs) = if p x then some x else find? p xs

  abbrev pub All {κ} : (A → Type κ) → List A → Type κ
  All P [] = Unit
  All P (x ∷ xs) = P x × All P xs

  pub length-append : (xs ys : List A) → length (xs ++ ys) ≡ length xs + length ys
  length-append [] ys = omega arith
  length-append (x ∷ xs) ys = omega (arith, length-append xs ys)

module _ {ℓ κ} {A : Type ℓ} (P : A → Type κ) where
  pub All-append : (xs ys : List A) → All P xs → All P ys → All P (xs ++ ys)
  All-append [] ys h k = k
  All-append (x ∷ xs) ys h k = (h.0, All-append xs ys h.1 k)

-- `xs.includes(x)` and `set.has(x)`, on texts and on numbers.
abbrev pub includes : List String → String → Bool
includes [] x = false
includes (y ∷ ys) x = str_eq y x || includes ys x

-- `xs.filter(Boolean)`.
abbrev pub non_empty : List String → List String
non_empty [] = []
non_empty (x ∷ xs) = let rest = non_empty xs in if str_eq x "" then rest else x ∷ rest

-- `[...new Set(xs)]`, for which `seen` are the texts that came before.
abbrev pub distinct : List String → List String → List String
distinct seen [] = []
distinct seen (x ∷ xs) =
    let rest = distinct (x ∷ seen) xs in
    let rest' = distinct seen xs in if includes seen x then rest' else x ∷ rest

abbrev pub includes_nat : List ℕ → ℕ → Bool
includes_nat [] x = false
includes_nat (y ∷ ys) x = y == x || includes_nat ys x

module _ {ℓ κ μ} {A : Type ℓ} (P : A → Type κ) (Q : A → Type μ) (f : (x : A) → P x → Q x) where
  pub All-map : (xs : List A) → All P xs → All Q xs
  All-map [] h = tt
  All-map (x ∷ xs) h = (f x h.0, All-map xs h.1)

-- Every element of a list is a member of it.
pub All-Memᴰ {ℓ} : {A : Type ℓ} (xs : List A) → All (λ x. Memᴰ x xs) xs
All-Memᴰ [] = tt
All-Memᴰ (x ∷ xs) = (
  Memᴰ.head refl,
  All-map (λ y. Memᴰ y xs) (λ y. Memᴰ y (x ∷ xs)) (λ y m. Memᴰ.tail m) xs (All-Memᴰ xs),
)
