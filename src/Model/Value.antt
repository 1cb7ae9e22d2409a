-- ===== src/Model/Value.antt =====
-- The values of attribute dicts, and Python's conversions of them. A float is in ten-thousandths.
use actioneer_pulse.Common.{
  Bool, true, false, not, String, Option, none, some, List, ◌/◌, ◌*◌, truthy, nonempty,
}
use actioneer_pulse.Common.Int.{ℤ, pos, negsuc, ◌-ℤ◌, eqb_ℤ}
use actioneer_pulse.Common.Dict.{Dict}
use Prim.Native.Nat.{suc}

-- `items` is a list, by the texts that `str` makes of its elements; `fields` is a dict, likewise.
pub data Value : Type 0 where
  null : Value
  flag : Bool → Value
  int : ℤ → Value
  real : ℤ → Value
  text : String → Value
  items : List String → Value
  fields : Dict String → Value

-- What the language's conversions do to texts: `float(s)` and `int(s)`, `none` for a ValueError, and
-- `str(v)` of a value that is no text.
pub record Conversions : Type 0 where
  pub float_of_text : String → Option ℤ
  pub int_of_text : String → Option ℤ
  pub repr : Value → String

-- `bool(v)`
unfoldable pub truthy_value : Value → Bool
truthy_value Value.null = false
truthy_value (Value.flag b) = b
truthy_value (Value.int n) = not (eqb_ℤ n (pos 0))
truthy_value (Value.real x) = not (eqb_ℤ x (pos 0))
truthy_value (Value.text s) = truthy s
truthy_value (Value.items xs) = nonempty xs
truthy_value (Value.fields d) = nonempty d

-- `d.get(k)` gives None for a missing key and for a null alike.
abbrev pub present : Option Value → Option Value
present none = none
present (some Value.null) = none
present (some v) = some v

-- `a or b` of two values that may be None.
pub value_or : Option Value → Option Value → Option Value
unfolding truthy_value
value_or none b = b
value_or (some v) b = elim (truthy_value v) [ true ↦ some v | false ↦ b ]

-- ten_thousand n is a whole number in the grain of floats.
ten_thousand : ℤ → ℤ
ten_thousand (pos n) = pos (n * 10000)
ten_thousand (negsuc n) = pos 0 -ℤ pos (suc n * 10000)

-- `int(x)` of a float drops the fraction.
truncate : ℤ → ℤ
truncate (pos n) = pos (n / 10000)
truncate (negsuc n) = pos 0 -ℤ pos (suc n / 10000)

module _ ⦃c : Conversions⦄ where
  unfoldable pub str_of : Value → String
  str_of (Value.text s) = s
  str_of v = c.repr v

  -- The text of `d.get(k, default)`.
  abbrev pub text_or : Option Value → String → String
  text_or none default = default
  text_or (some v) default = str_of v

  -- `_f`: `float(v)`, None for a TypeError or a ValueError.
  unfoldable pub float_of : Option Value → Option ℤ
  unfolding ten_thousand
  float_of none = none
  float_of (some Value.null) = none
  float_of (some (Value.flag true)) = some (pos 10000)
  float_of (some (Value.flag false)) = some (pos 0)
  float_of (some (Value.int n)) = some (ten_thousand n)
  float_of (some (Value.real x)) = some x
  float_of (some (Value.text s)) = c.float_of_text s
  float_of (some (Value.items xs)) = none
  float_of (some (Value.fields d)) = none

  -- `_i`: `int(v)`, None for a TypeError or a ValueError.
  unfoldable pub int_of : Option Value → Option ℤ
  unfolding truncate
  int_of none = none
  int_of (some Value.null) = none
  int_of (some (Value.flag true)) = some (pos 1)
  int_of (some (Value.flag false)) = some (pos 0)
  int_of (some (Value.int n)) = some n
  int_of (some (Value.real x)) = some (truncate x)
  int_of (some (Value.text s)) = c.int_of_text s
  int_of (some (Value.items xs)) = none
  int_of (some (Value.fields d)) = none
