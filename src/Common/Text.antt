-- ===== src/Common/Text.antt =====
-- Texts are compared whole. The test is shut: proofs use `str_eq_iff`, tests unfold it.
use Prim.Native.String.{String}
use mathlib.Core.Path.{◌≡◌, refl}
use mathlib.Core.Logic.{◌↔◌}
use mathlib.Core.Bool.{Bool, true, false, not}
use mathlib.Core.List.{List}
use mathlib.Core.Option.{Option, none, some}
use Prim.Native.String.{compare}
use text.Mathlib.Text.{◌==◌, is_le}
use text.Mathlib.TextEquality.{eq_iff}
use actioneer_pulse.Common.Lists.{any}

unfoldable pub str_eq : String → String → Bool
str_eq a b = a == b

pub str_eq_iff : (a b : String) → (str_eq a b ≡ true) ↔ (a ≡ b)
unfolding str_eq
str_eq_iff a b = eq_iff a b

pub str_eq_refl : (a : String) → str_eq a a ≡ true
str_eq_refl a = (str_eq_iff a a).1 refl

-- `a == b` where either may be None.
abbrev pub opt_eq : Option String → Option String → Bool
opt_eq none none = true
opt_eq none (some b) = false
opt_eq (some a) none = false
opt_eq (some a) (some b) = str_eq a b

-- `bool(s)`
abbrev pub truthy : String → Bool
truthy s = not (str_eq s "")

-- `s or None`: an empty text counts as absent.
abbrev pub truthy? : Option String → Option String
truthy? none = none
truthy? (some s) = elim (truthy s) [ true ↦ some s | false ↦ none ]

-- `s in xs`
abbrev pub elem : String → List String → Bool
elem s xs = any (str_eq s) xs

-- `a <= b`, by code points.
unfoldable pub str_le : String → String → Bool
str_le a b = is_le (compare a b)
