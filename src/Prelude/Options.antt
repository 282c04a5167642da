-- ===== src/Prelude/Options.antt =====
-- Optional properties (`x?: T`), and what the sources test of them: `=== undefined`, truthiness,
-- `??`, and the conditional spread `...(x !== undefined ? { x } : {})`.
use Prim.Native.Char.{code}
use Prim.Native.Nat.{ℕ}
use Prim.Native.String.{String}
use mathlib.Core.Bool.{Bool, true, false, not, ◌&&◌, ◌||◌}
use mathlib.Core.Option.{Option, none, some}
use text.Mathlib.Text.{◌==◌ as str_eq}
use automation.Prelude.Tests.{◌==◌, leb}

module _ {ℓ} {A : Type ℓ} where
  abbrev pub is_some : Option A → Bool
  is_some none = false
  is_some (some a) = true

  abbrev pub is_none : Option A → Bool
  is_none none = true
  is_none (some a) = false

  -- `new ?? old`, and the spread of `new` over a record that holds `old`.
  abbrev pub or_else : Option A → Option A → Option A
  or_else none old = old
  or_else (some a) old = some a

  -- `o ?? d`.
  abbrev pub get_or : Option A → A → A
  get_or none d = d
  get_or (some a) d = a

-- `a === b` on optional texts and on optional numbers.
abbrev pub opt_str_eq : Option String → Option String → Bool
opt_str_eq none none = true
opt_str_eq none (some b) = false
opt_str_eq (some a) none = false
opt_str_eq (some a) (some b) = str_eq a b

abbrev pub opt_is_str : Option String → String → Bool
opt_is_str none b = false
opt_is_str (some a) b = str_eq a b

abbrev pub opt_is_nat : Option ℕ → ℕ → Bool
opt_is_nat none b = false
opt_is_nat (some a) b = a == b

-- A text is truthy if it is not empty; `undefined` is not.
abbrev pub truthy : Option String → Bool
truthy none = false
truthy (some s) = not (str_eq s "")

-- The code points that `String.prototype.trim` removes.
pub is_space : ℕ → Bool
is_space c =
    (leb 9 c && leb c 13)
    || c == 32
    || c == 160
    || c == 0x1680
    || (leb 0x2000 c && leb c 0x200a)
    || c == 0x2028
    || c == 0x2029
    || c == 0x202f
    || c == 0x205f
    || c == 0x3000
    || c == 0xfeff

-- `s.trim().length === 0`.
unfoldable pub is_blank : String → Bool
unfolding is_space
is_blank String.[] = true
is_blank (String.◌∷◌ c s) = is_space (code c) && is_blank s
