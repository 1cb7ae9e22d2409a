-- ===== src/Audio/Intervals/Merge.antt =====
-- `merge` covers what the list covers, by intervals that are apart.
use actioneer_pulse.Common.{true, false, List, [], ◌∷◌, ◌||◌, ◌≡◌, refl, arith}
use actioneer_pulse.Common.Int.{ℤ, pos, max_ℤ, ◌≤ℤ◌, ◌<ℤ◌, ◌-ℤ◌, int_laws}
use actioneer_pulse.Common.Sort.{
  sort_by, IsAscending, sort_by-IsAscending, any-sort_by, All-sort_by,
}
use actioneer_pulse.Audio.Intervals.{Interval, interval_le, merge_from, merge_ordered, merge}
use actioneer_pulse.Audio.Intervals.Cover.{
  holds, covered, Rising, IsProper, SeparatedAfter, IsSeparated, SeparatedAfter-IsSeparated,
}

Rising-mono : (s t : ℤ) (ivs : List Interval) → s ≤ℤ t → Rising t ivs → Rising s ivs
Rising-mono s t [] h r = tt
Rising-mono s t ((a, b) ∷ ivs) h r = (omega arith, r.1)

interval_le-total : (a b : Interval) → interval_le a b ≡ false → interval_le b a ≡ true
interval_le-total a b h = ground arith

IsAscending-Rising :
    (i : Interval) (ivs : List Interval) → IsAscending interval_le (i ∷ ivs) → Rising i.0 ivs
IsAscending-Rising i [] h = tt
IsAscending-Rising i (j ∷ ivs) h = ground (arith, IsAscending-Rising j ivs h.1)

covered-merge_from :
    (x ls le : ℤ) (rest : List Interval)
    → Rising ls rest
    → covered x (merge_from ls le rest) ≡ (holds x (ls, le) || covered x rest)
unfolding merge_from
covered-merge_from x ls le [] r = refl
covered-merge_from x ls le ((s, e) ∷ rest) r = ground (
  arith,
  covered-merge_from x ls (max_ℤ le e) rest (Rising-mono ls s rest r.0 r.1),
  covered-merge_from x s e rest r.1,
)

merge_from-SeparatedAfter :
    (t ls le : ℤ) (rest : List Interval)
    → t <ℤ ls
    → ls ≤ℤ le
    → IsProper rest
    → SeparatedAfter t (merge_from ls le rest)
unfolding merge_from
merge_from-SeparatedAfter t ls le [] a b p = (a, b, tt)
merge_from-SeparatedAfter t ls le ((s, e) ∷ rest) a b p = ground (
  arith,
  merge_from-SeparatedAfter t ls (max_ℤ le e) rest a,
  merge_from-SeparatedAfter le s e rest,
)

covered-merge_ordered :
    (x : ℤ) (ivs : List Interval)
    → IsAscending interval_le ivs
    → covered x (merge_ordered ivs) ≡ covered x ivs
unfolding merge_ordered
covered-merge_ordered x [] h = refl
covered-merge_ordered x ((s, e) ∷ rest) h =
    covered-merge_from x s e rest (IsAscending-Rising (s, e) rest h)

merge_ordered-IsSeparated : (ivs : List Interval) → IsProper ivs → IsSeparated (merge_ordered ivs)
unfolding merge_ordered
merge_ordered-IsSeparated [] p = tt
merge_ordered-IsSeparated ((s, e) ∷ rest) p =
    SeparatedAfter-IsSeparated (s -ℤ pos 1) _
      (merge_from-SeparatedAfter (s -ℤ pos 1) s e rest (omega int_laws) p.0 p.1)

-- An instant is covered after the merge exactly when it was covered before.
pub covered-merge : (x : ℤ) (ivs : List Interval) → covered x (merge ivs) ≡ covered x ivs
unfolding merge
covered-merge x ivs =
    rw
      (covered-merge_ordered x (sort_by interval_le ivs)
        (sort_by-IsAscending interval_le interval_le-total ivs))
      (any-sort_by interval_le (holds x) ivs)

-- For intervals that do not end before they start, in any order and however they overlap, the
-- merged intervals do not either, and each ends before the next one starts.
pub merge-IsSeparated : (ivs : List Interval) → IsProper ivs → IsSeparated (merge ivs)
unfolding merge
merge-IsSeparated ivs p =
    merge_ordered-IsSeparated (sort_by interval_le ivs)
      (All-sort_by interval_le (λ i. i.0 ≤ℤ i.1) ivs p)
