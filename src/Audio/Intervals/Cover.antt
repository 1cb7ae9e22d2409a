-- ===== src/Audio/Intervals/Cover.antt =====
-- Which instants a list of intervals covers, and what subtraction, intersection and complement do
-- to them. An interval is half open: it covers its start and not its end.
use actioneer_pulse.Common.{
  Bool, false, List, [], ◌∷◌, ◌&&◌, not, ◌≡◌, refl, any, any-append, All, arith,
}
use actioneer_pulse.Common.Int.{ℤ, ltb_ℤ, leb_ℤ, ◌≤ℤ◌, ◌<ℤ◌}
use actioneer_pulse.Audio.Intervals.{Interval, cut_one, cut_all, cut_each, subtract}

abbrev pub holds : ℤ → Interval → Bool
holds x i = leb_ℤ i.0 x && ltb_ℤ x i.1

abbrev pub covered : ℤ → List Interval → Bool
covered x ivs = any (holds x) ivs

covered-cut_one :
    (x : ℤ) (c b : Interval) → covered x (cut_one c b) ≡ (holds x b && not (holds x c))
unfolding cut_one
covered-cut_one x c b = ground arith

covered-cut_all :
    (x : ℤ) (c : Interval) (bs : List Interval)
    → covered x (cut_all c bs) ≡ (covered x bs && not (holds x c))
unfolding cut_all
covered-cut_all x c [] = refl
covered-cut_all x c (b ∷ bs) =
    rw (any-append (holds x) (cut_one c b) (cut_all c bs))
      (ground (arith, covered-cut_one x c b, covered-cut_all x c bs))

covered-cut_each :
    (x : ℤ) (cut bs : List Interval)
    → covered x (cut_each cut bs) ≡ (covered x bs && not (covered x cut))
unfolding cut_each
covered-cut_each x [] bs = ground arith
covered-cut_each x (c ∷ cut) bs =
    ground (arith, covered-cut_each x cut (cut_all c bs), covered-cut_all x c bs)

-- An instant is covered by the difference exactly when the base covers it and the cut does not.
pub covered-subtract :
    (x : ℤ) (base cut : List Interval)
    → covered x (subtract base cut) ≡ (covered x base && not (covered x cut))
unfolding subtract
covered-subtract x [] cut = refl
covered-subtract x (b ∷ base) cut =
    rw (any-append (holds x) (cut_each cut (b ∷ [])) (subtract base cut))
      (ground (arith, covered-cut_each x cut (b ∷ []), covered-subtract x base cut))

-- The starts do not fall, and the first is not before the time.
abbrev pub Rising : ℤ → List Interval → Type 0
Rising t [] = Unit
Rising t ((s, e) ∷ rest) = (t ≤ℤ s) × Rising s rest

-- No interval ends before it starts.
abbrev pub IsProper : List Interval → Type 0
IsProper ivs = All (λ i. i.0 ≤ℤ i.1) ivs

-- The next interval starts after the time, and each one after the end of the one before it.
abbrev pub SeparatedAfter : ℤ → List Interval → Type 0
SeparatedAfter t [] = Unit
SeparatedAfter t ((s, e) ∷ rest) = (t <ℤ s) × (s ≤ℤ e) × SeparatedAfter e rest

abbrev pub IsSeparated : List Interval → Type 0
IsSeparated [] = Unit
IsSeparated ((s, e) ∷ rest) = (s ≤ℤ e) × SeparatedAfter e rest

pub SeparatedAfter-IsSeparated :
    (t : ℤ) (ivs : List Interval) → SeparatedAfter t ivs → IsSeparated ivs
SeparatedAfter-IsSeparated t [] h = tt
SeparatedAfter-IsSeparated t ((s, e) ∷ rest) h = (h.1, h.2)

-- Nothing before the bound is covered.
pub covered_before :
    (x t : ℤ) (ivs : List Interval) → SeparatedAfter t ivs → x ≤ℤ t → covered x ivs ≡ false
covered_before x t [] h b = refl
covered_before x t ((s, e) ∷ rest) h b = ground (arith, covered_before x e rest h.2)
