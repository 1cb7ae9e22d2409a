-- ===== src/Common/Int.antt =====
-- Signed integers over the native numbers (`negsuc n` is -(n + 1)), with the tests, extremes and
-- rounded quotients that the program uses.
use Prim.Native.Nat.{ℕ, suc, ◌+◌, ◌-◌, ◌*◌, ◌/◌, ◌%◌, ◌≤◌, ◌<◌}
use mathlib.Core.Path.{◌≡◌, refl, ap}
use mathlib.Core.Bool.{Bool}
use native.Mathlib.Omega.{arith}
use actioneer_pulse.Common.Tests.{ltb, leb, ◌==◌, if◌then◌else◌}

pub data ℤ : Type 0 where
  pos : ℕ → ℤ
  negsuc : ℕ → ℤ

-- The two parts stay shut, so that proofs compare integers without splitting on signs.
unfoldable pub pos_part : ℤ → ℕ
pos_part (pos n) = n
pos_part (negsuc n) = 0

unfoldable pub neg_part : ℤ → ℕ
neg_part (pos n) = 0
neg_part (negsuc n) = suc n

abbrev pub sub_ℕ : ℕ → ℕ → ℤ
sub_ℕ a b = if leb b a then pos (a - b) else negsuc (b - a - 1)

infixl 65 ◌+ℤ◌ ◌-ℤ◌
infix 50 ◌≤ℤ◌ ◌<ℤ◌
unfoldable pub ◌+ℤ◌ : ℤ → ℤ → ℤ
a +ℤ b = sub_ℕ (pos_part a + pos_part b) (neg_part a + neg_part b)

unfoldable pub ◌-ℤ◌ : ℤ → ℤ → ℤ
a -ℤ b = sub_ℕ (pos_part a + neg_part b) (neg_part a + pos_part b)

abbrev pub ◌≤ℤ◌ : ℤ → ℤ → Type 0
a ≤ℤ b = pos_part a + neg_part b ≤ pos_part b + neg_part a

abbrev pub ◌<ℤ◌ : ℤ → ℤ → Type 0
a <ℤ b = pos_part a + neg_part b < pos_part b + neg_part a

abbrev pub ltb_ℤ : ℤ → ℤ → Bool
ltb_ℤ a b = ltb (pos_part a + neg_part b) (pos_part b + neg_part a)

abbrev pub leb_ℤ : ℤ → ℤ → Bool
leb_ℤ a b = leb (pos_part a + neg_part b) (pos_part b + neg_part a)

abbrev pub eqb_ℤ : ℤ → ℤ → Bool
eqb_ℤ a b = pos_part a + neg_part b == pos_part b + neg_part a

-- `max(a, b)` and `min(a, b)`: the first of two equal values.
abbrev pub max_ℤ : ℤ → ℤ → ℤ
max_ℤ a b = if ltb_ℤ a b then b else a

abbrev pub min_ℤ : ℤ → ℤ → ℤ
min_ℤ a b = if ltb_ℤ b a then b else a

pub +ℤ_parts :
    (a b : ℤ)
    → pos_part (a +ℤ b) + neg_part a + neg_part b ≡ neg_part (a +ℤ b) + pos_part a + pos_part b
unfolding ◌+ℤ◌ pos_part neg_part
+ℤ_parts a b = ground arith

pub -ℤ_parts :
    (a b : ℤ)
    → pos_part (a -ℤ b) + neg_part a + pos_part b ≡ neg_part (a -ℤ b) + pos_part a + neg_part b
unfolding ◌-ℤ◌ pos_part neg_part
-ℤ_parts a b = ground arith

pub eq_of_parts : (a b : ℤ) → pos_part a + neg_part b ≡ pos_part b + neg_part a → a ≡ b
unfolding pos_part neg_part
eq_of_parts a b h = ground arith

pub parts-pos : (n : ℕ) → (pos_part (pos n) ≡ n) × (neg_part (pos n) ≡ 0)
unfolding pos_part neg_part
parts-pos n = (refl, refl)

pub ruleset int_laws = (arith, +ℤ_parts, -ℤ_parts, eq_of_parts, parts-pos)

-- `round(n / d)` of exact numbers: to the nearest, and a tie to the even neighbour. 0 for d = 0.
unfoldable pub round_quot : ℕ → ℕ → ℕ
round_quot n d =
    let q = n / d in
    let r = n % d in
    if ltb (2 * r) d then q else if ltb d (2 * r) then q + 1 else if q % 2 == 0 then q else q + 1

unfoldable pub round_quot_ℤ : ℤ → ℕ → ℤ
unfolding round_quot ◌-ℤ◌
round_quot_ℤ (pos n) d = pos (round_quot n d)
round_quot_ℤ (negsuc n) d = pos 0 -ℤ pos (round_quot (suc n) d)

-- An integer that is not negative is a number.
pub of_nonneg : (x : ℤ) → pos 0 ≤ℤ x → (k : ℕ) × (x ≡ pos k)
unfolding pos_part neg_part
of_nonneg (pos k) h = (k, refl)
of_nonneg (negsuc k) h = absurd (omega arith)

-- The later of two times is the earlier one and a number of instants.
pub later_by : (lo hi : ℤ) → lo ≤ℤ hi → (k : ℕ) × (hi ≡ lo +ℤ pos k)
later_by lo hi h =
    let (k, e) = of_nonneg (hi -ℤ lo) (omega int_laws) in
    (
      k,
      eq_of_parts hi (lo +ℤ pos k)
          (omega (int_laws, ap pos_part e, ap neg_part e, +ℤ_parts lo (pos k), -ℤ_parts hi lo)),
    )
