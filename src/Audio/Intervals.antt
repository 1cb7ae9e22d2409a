-- ===== src/Audio/Intervals.antt =====
-- Interval arithmetic of src/voiceobs/core/audio/intervals.py. A time is a whole number of the
-- clock's grain, so that every instant of the timeline is an integer; see the header of Lib.
pub mod Cover
pub mod Merge
pub mod Measure
pub mod Gaps
use actioneer_pulse.Common.{
  Bool, true, false, List, [], ◌∷◌, ◌++◌, if◌then◌else◌, ◌&&◌, ◌||◌, ℕ, zero, suc, ◌+◌, length,
}
use actioneer_pulse.Common.Int.{ℤ, pos, ◌+ℤ◌, ◌-ℤ◌, ltb_ℤ, leb_ℤ, max_ℤ, min_ℤ}
use actioneer_pulse.Common.Sort.{sort_by}

-- `(start, end)`
abbrev pub Interval : Type 0
Interval = ℤ × ℤ

-- Tuples compare by their first part, then by their second.
abbrev pub interval_le : Interval → Interval → Bool
interval_le a b = ltb_ℤ a.0 b.0 || (leb_ℤ a.0 b.0 && leb_ℤ a.1 b.1)

-- The loop of `merge` over the ordered intervals, where `(ls, le)` is the last merged one.
pub merge_from : ℤ → ℤ → List Interval → List Interval
merge_from ls le [] = (ls, le) ∷ []
merge_from ls le ((s, e) ∷ rest) = elim (leb_ℤ s le) [
  | true ↦ merge_from ls (max_ℤ le e) rest
  | false ↦ (ls, le) ∷ merge_from s e rest
]

merge_ordered : List Interval → List Interval
unfolding merge_from
merge_ordered [] = []
merge_ordered ((s, e) ∷ rest) = merge_from s e rest

unfoldable pub merge : List Interval → List Interval
unfolding merge_ordered sort_by
merge ivs = merge_ordered (sort_by interval_le ivs)

-- The overlap of the two heads goes in front of what the later rounds find.
pub overlap_then : Interval → Interval → List Interval → List Interval
overlap_then x y rest =
    let lo = max_ℤ x.0 y.0 in
    let hi = min_ℤ x.1 y.1 in if ltb_ℤ lo hi then (lo, hi) ∷ rest else rest

-- `while i < len(a) and j < len(b)`: the lists are the parts that remain, and each round drops the
-- head of one of them.
unfoldable pub intersect : List Interval → List Interval → List Interval
unfolding overlap_then
intersect [] ys = []
intersect (x ∷ xs) [] = []
intersect (x ∷ xs) (y ∷ ys) =
    overlap_then x y
      (elim (ltb_ℤ x.1 y.1) [ true ↦ intersect xs (y ∷ ys) | false ↦ intersect (x ∷ xs) ys ])

-- What one cut leaves of one segment.
pub cut_one : Interval → Interval → List Interval
cut_one (cs, ce) (bs, be) =
    if leb_ℤ ce bs || leb_ℤ be cs
    then (bs, be) ∷ []
    else (if ltb_ℤ bs cs then (bs, cs) ∷ [] else []) ++ (if ltb_ℤ ce be then (ce, be) ∷ [] else [])

-- The loop over the segments, for one cut.
pub cut_all : Interval → List Interval → List Interval
unfolding cut_one
cut_all c [] = []
cut_all c (b ∷ bs) = cut_one c b ++ cut_all c bs

-- The loop over the cuts.
pub cut_each : List Interval → List Interval → List Interval
unfolding cut_all
cut_each [] segments = segments
cut_each (c ∷ cut) segments = cut_each cut (cut_all c segments)

unfoldable pub subtract : List Interval → List Interval → List Interval
unfolding cut_each
subtract [] cut = []
subtract (b ∷ base) cut = cut_each cut (b ∷ []) ++ subtract base cut

unfoldable pub total : List Interval → ℤ
total [] = pos 0
total ((s, e) ∷ rest) = (e -ℤ s) +ℤ total rest

-- The loop of `complement` over the merged intervals.
pub gaps_from : ℤ → ℤ → List Interval → List Interval
gaps_from cursor duration [] = if ltb_ℤ cursor duration then (cursor, duration) ∷ [] else []
gaps_from cursor duration ((s, e) ∷ rest) =
    let more = gaps_from (max_ℤ cursor e) duration rest in
    if ltb_ℤ cursor s then (cursor, s) ∷ more else more

unfoldable pub complement : List Interval → ℤ → List Interval
unfolding gaps_from merge
complement ivs duration = gaps_from (pos 0) duration (merge ivs)
