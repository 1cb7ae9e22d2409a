-- ===== src/Common/Strings.antt =====
-- Python's operations on texts that the program uses, by recursion on the characters.
use Prim.Native.Char.{code}
use Prim.Native.String.{String, ◌++◌ as append}
use Prim.Native.Nat.{ℕ, zero, suc, ◌-◌}
use mathlib.Core.Bool.{Bool, true, false, ◌&&◌, ◌||◌}
use mathlib.Core.List.{List, [], ◌∷◌}
use mathlib.Core.Option.{Option, none, some}
use actioneer_pulse.Common.Tests.{leb, ◌==◌, if◌then◌else◌}
use actioneer_pulse.Common.Text.{truthy}

-- `sep.join(xs)`
unfoldable pub join : String → List String → String
join sep [] = ""
join sep (x ∷ []) = x
join sep (x ∷ y ∷ xs) = append x (append sep (join sep (y ∷ xs)))

-- `s[:n]`
unfoldable pub take_text : ℕ → String → String
take_text zero s = ""
take_text (suc n) String.[] = ""
take_text (suc n) (String.◌∷◌ ch s) = String.◌∷◌ ch (take_text n s)

-- `ch.isspace()`
abbrev pub is_space : ℕ → Bool
is_space n =
    (leb 9 n && leb n 13)
    || (leb 28 n && leb n 32)
    || n == 133
    || n == 160
    || n == 5760
    || (leb 8192 n && leb n 8202)
    || n == 8232
    || n == 8233
    || n == 8239
    || n == 8287
    || n == 12288

unfoldable pub strip_left : String → String
strip_left String.[] = ""
strip_left (String.◌∷◌ ch s) = if is_space (code ch) then strip_left s else String.◌∷◌ ch s

unfoldable pub strip_right : String → String
strip_right String.[] = ""
strip_right (String.◌∷◌ ch s) =
    let rest = strip_right s in
    if truthy rest then String.◌∷◌ ch rest else if is_space (code ch) then "" else String.◌∷◌ ch ""

-- `s.strip()`
unfoldable pub strip : String → String
unfolding strip_left strip_right
strip s = strip_right (strip_left s)

-- `s[len(p):]` where `s.startswith(p)`.
unfoldable pub drop_prefix : String → String → Option String
drop_prefix String.[] s = some s
drop_prefix (String.◌∷◌ a p) String.[] = none
drop_prefix (String.◌∷◌ a p) (String.◌∷◌ b s) = if code a == code b then drop_prefix p s else none

-- `ch.upper()` of an ASCII letter.
abbrev upper : ℕ → ℕ
upper n = if leb 97 n && leb n 122 then n - 32 else n

-- `s.upper().startswith(p)`, for a p of capital ASCII letters that no other character's upper case
-- holds.
unfoldable starts_upper : String → String → Bool
starts_upper String.[] s = true
starts_upper (String.◌∷◌ a p) String.[] = false
starts_upper (String.◌∷◌ a p) (String.◌∷◌ b s) = code a == upper (code b) && starts_upper p s

-- `p in s.upper()`, likewise.
unfoldable pub holds_upper : String → String → Bool
unfolding starts_upper
holds_upper p String.[] = starts_upper p ""
holds_upper p (String.◌∷◌ ch s) = starts_upper p (String.◌∷◌ ch s) || holds_upper p s
