-- ===== src/Audio/Intervals/Gaps.antt =====
-- What `intersect` and `complement` cover.
use actioneer_pulse.Common.{
  Bool, false, List, [], ◌∷◌, ◌&&◌, ◌||◌, not, ◌≡◌, refl, arith, Bool-cases, inl, inr, All,
}
use actioneer_pulse.Common.Int.{ℤ, pos, ltb_ℤ, leb_ℤ, max_ℤ, ◌≤ℤ◌, ◌<ℤ◌}
use actioneer_pulse.Audio.Intervals.{
  Interval, intersect, overlap_then, gaps_from, merge_from, merge_ordered, interval_le, merge,
  complement,
}
use actioneer_pulse.Common.Sort.{sort_by, All-sort_by}
use actioneer_pulse.Audio.Intervals.Cover.{
  holds, covered, IsProper, IsSeparated, covered_before, SeparatedAfter-IsSeparated,
}
use actioneer_pulse.Audio.Intervals.Merge.{covered-merge, merge-IsSeparated}

covered-overlap_then :
    (t : ℤ) (x y : Interval) (rest : List Interval)
    → covered t (overlap_then x y rest) ≡ ((holds t x && holds t y) || covered t rest)
unfolding overlap_then
covered-overlap_then t x y rest = ground arith

covered_drop_left :
    (t : ℤ) (x y : Interval) (xs ys : Bool)
    → x.1 <ℤ y.1
    → (t ≤ℤ x.1 → xs ≡ false)
    → (t ≤ℤ y.1 → ys ≡ false)
    → ((holds t x && holds t y) || (xs && (holds t y || ys)))
      ≡ ((holds t x || xs) && (holds t y || ys))
covered_drop_left t x y xs ys h p q = ground arith

covered_drop_right :
    (t : ℤ) (x y : Interval) (xs ys : Bool)
    → y.1 ≤ℤ x.1
    → (t ≤ℤ x.1 → xs ≡ false)
    → (t ≤ℤ y.1 → ys ≡ false)
    → ((holds t x && holds t y) || ((holds t x || xs) && ys))
      ≡ ((holds t x || xs) && (holds t y || ys))
covered_drop_right t x y xs ys h p q = ground arith

-- For two lists of intervals that are in order and apart, an instant is covered by the overlap
-- exactly when both lists cover it.
pub covered-intersect :
    (t : ℤ) (xs ys : List Interval)
    → IsSeparated xs
    → IsSeparated ys
    → covered t (intersect xs ys) ≡ (covered t xs && covered t ys)
unfolding intersect
covered-intersect t [] ys p q = refl
covered-intersect t (x ∷ xs) [] p q = ground arith
covered-intersect t (x ∷ xs) (y ∷ ys) p q = elim (Bool-cases (ltb_ℤ x.1 y.1)) [
  | inl lt ↦
      rw
        (
          lt,
          covered-overlap_then t x y,
          covered-intersect t xs (y ∷ ys) (SeparatedAfter-IsSeparated x.1 xs p.1) q,
        )
        (covered_drop_left t x y (covered t xs) (covered t ys) (ground arith)
          (covered_before t x.1 xs p.1) (covered_before t y.1 ys q.1))
  | inr ge ↦
      rw
        (
          ge,
          covered-overlap_then t x y,
          covered-intersect t (x ∷ xs) ys p (SeparatedAfter-IsSeparated y.1 ys q.1),
        )
        (covered_drop_right t x y (covered t xs) (covered t ys) (ground arith)
          (covered_before t x.1 xs p.1) (covered_before t y.1 ys q.1))
]

covered-gaps_from :
    (t cursor duration : ℤ) (ivs : List Interval)
    → IsSeparated ivs
    → All (λ i. i.1 ≤ℤ duration) ivs
    → covered t (gaps_from cursor duration ivs)
      ≡ (leb_ℤ cursor t && ltb_ℤ t duration && not (covered t ivs))
unfolding gaps_from
covered-gaps_from t cursor duration [] p b = ground arith
covered-gaps_from t cursor duration ((s, e) ∷ rest) p b = ground (
  arith,
  covered_before t e rest p.1,
  covered-gaps_from t (max_ℤ cursor e) duration rest (SeparatedAfter-IsSeparated e rest p.1) b.1,
)

-- Every interval ends by the time.
abbrev pub EndsBy : ℤ → List Interval → Type 0
EndsBy t ivs = All (λ i. i.1 ≤ℤ t) ivs

merge_from-EndsBy :
    (t ls le : ℤ) (rest : List Interval)
    → le ≤ℤ t
    → EndsBy t rest
    → EndsBy t (merge_from ls le rest)
unfolding merge_from
merge_from-EndsBy t ls le [] a h = (a, tt)
merge_from-EndsBy t ls le ((s, e) ∷ rest) a h =
    ground (arith, merge_from-EndsBy t ls (max_ℤ le e) rest, merge_from-EndsBy t s e rest)

merge_ordered-EndsBy : (t : ℤ) (ivs : List Interval) → EndsBy t ivs → EndsBy t (merge_ordered ivs)
unfolding merge_ordered
merge_ordered-EndsBy t [] h = tt
merge_ordered-EndsBy t ((s, e) ∷ rest) h = merge_from-EndsBy t s e rest h.0 h.1

pub merge-EndsBy : (t : ℤ) (ivs : List Interval) → EndsBy t ivs → EndsBy t (merge ivs)
unfolding merge
merge-EndsBy t ivs h =
    merge_ordered-EndsBy t (sort_by interval_le ivs) (All-sort_by interval_le _ ivs h)

-- For intervals that do not end before they start and that end within the duration, an instant is
-- in a gap exactly when it lies in [0, duration) and no interval covers it.
pub covered-complement :
    (t duration : ℤ) (ivs : List Interval)
    → IsProper ivs
    → EndsBy duration ivs
    → covered t (complement ivs duration)
      ≡ (leb_ℤ (pos 0) t && ltb_ℤ t duration && not (covered t ivs))
unfolding complement
covered-complement t duration ivs p b = rw (
  covered-gaps_from t (pos 0) duration (merge ivs) (merge-IsSeparated ivs p)
      (merge-EndsBy duration ivs b),
  covered-merge t ivs,
)
