-- ===== src/Prelude/Unseen.antt =====
-- Sets of texts as lists, and how many of a list of texts are not in such a set.
use Prim.Native.Nat.{ℕ, ◌+◌, ◌<◌, ◌≤◌}
use mathlib.Core.Path.{◌≡◌, refl, sym}
use mathlib.Core.Logic.{inl, inr}
use Prim.Native.String.{String}
use mathlib.Core.Bool.{true, false}
use mathlib.Core.List.{List, [], ◌∷◌, ◌++◌}
use native.Mathlib.Omega.{arith}
use text.Mathlib.Text.{◌==◌ as str_eq}
use text.Mathlib.TextEquality.{eq_iff}
use automation.Prelude.Tests.{if◌then◌else◌, Bool-cases}
use automation.Prelude.Lists.{includes, length}

abbrev pub unseen : List String → List String → ℕ
unseen [] seen = 0
unseen (x ∷ xs) seen = (if includes seen x then 0 else 1) + unseen xs seen

unseen-grown : (xs seen : List String) (id : String) → unseen xs (id ∷ seen) ≤ unseen xs seen
unseen-grown [] seen id = omega arith
unseen-grown (x ∷ xs) seen id = ground (arith, unseen-grown xs seen id)

-- One more text of the list that is seen is one less that is not.
pub unseen-falls :
    (xs seen : List String) (id : String)
    → includes xs id ≡ true
    → includes seen id ≡ false
    → unseen xs (id ∷ seen) < unseen xs seen
unseen-falls [] seen id h n = absurd (cc)
unseen-falls (x ∷ xs) seen id h n = elim (Bool-cases (str_eq x id)) [
  | inl same ↦
      let e : x ≡ id = (eq_iff x id).0 same in
      let there : str_eq id x ≡ true = (eq_iff id x).1 (sym e) in
      let new : includes seen x ≡ false = rw e n in
      let rest = unseen-grown xs seen id in ground (arith, there, new, rest)
  | inr other ↦ let rest = unseen-falls xs seen id (rw other at h) n in ground (arith, rest)
]

unseen-same :
    (xs seen seen' : List String)
    → ((y : String) → includes seen y ≡ includes seen' y)
    → unseen xs seen ≡ unseen xs seen'
unseen-same [] seen seen' same = refl
unseen-same (x ∷ xs) seen seen' same = rw (same x, unseen-same xs seen seen' same) refl

pub includes-append :
    (xs : List String) (x y : String) → includes (xs ++ x ∷ []) y ≡ includes (x ∷ xs) y
includes-append [] x y = refl
includes-append (z ∷ xs) x y = let rest = includes-append xs x y in ground (arith, rest)

pub unseen-append :
    (xs seen : List String) (id : String)
    → includes xs id ≡ true
    → includes seen id ≡ false
    → unseen xs (seen ++ id ∷ []) < unseen xs seen
unseen-append xs seen id h n =
    rw (unseen-same xs (seen ++ id ∷ []) (id ∷ seen) (includes-append seen id))
      (unseen-falls xs seen id h n)

pub unseen-length : (xs seen : List String) → unseen xs seen ≤ length xs
unseen-length [] seen = omega arith
unseen-length (x ∷ xs) seen = ground (arith, unseen-length xs seen)
