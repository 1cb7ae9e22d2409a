-- ===== src/Audio/Tests.antt =====
-- The audio theorems at concrete inputs.
use actioneer_pulse.Common.{Bool, true, false, not, ◌&&◌, List, [], ◌∷◌, ◌≡◌, length, arith}
use actioneer_pulse.Common.Int.{ℤ, pos, leb_ℤ, ltb_ℤ, pos_part, neg_part, ◌+ℤ◌}
use actioneer_pulse.Audio.Intervals.{Interval, merge, subtract, intersect, complement, total}
use actioneer_pulse.Audio.Intervals.Cover.{covered, covered-subtract, IsProper, IsSeparated}
use actioneer_pulse.Audio.Intervals.Merge.{covered-merge, merge-IsSeparated}
use actioneer_pulse.Audio.Intervals.Measure.{Inside, instants, total-merge}
use actioneer_pulse.Audio.Intervals.Gaps.{EndsBy, covered-intersect, covered-complement}
use actioneer_pulse.Audio.Vad.{regions}
use actioneer_pulse.Audio.Vad.Runs.{Apart, regions-Apart}

abbrev calls : List Interval
calls = (pos 5, pos 9) ∷ (pos 0, pos 3) ∷ (pos 2, pos 4) ∷ []

abbrev others : List Interval
others = (pos 1, pos 2) ∷ (pos 6, pos 8) ∷ []

abbrev flags : List Bool
flags = true ∷ false ∷ true ∷ false ∷ false ∷ false ∷ true ∷ []

calls-IsProper : IsProper calls
unfolding pos_part neg_part
calls-IsProper = (omega arith, (omega arith, (omega arith, tt)))

calls-Inside : Inside (pos 0) 10 calls
unfolding pos_part neg_part ◌+ℤ◌
calls-Inside =
    ((omega arith, omega arith), ((omega arith, omega arith), ((omega arith, omega arith), tt)))

calls-EndsBy : EndsBy (pos 12) calls
unfolding pos_part neg_part
calls-EndsBy = (omega arith, (omega arith, (omega arith, tt)))

others-IsSeparated : IsSeparated others
unfolding pos_part neg_part
others-IsSeparated = (omega arith, (omega arith, omega arith, tt))

one-IsSeparated : IsSeparated ((pos 7, pos 9) ∷ [])
unfolding pos_part neg_part
one-IsSeparated = (omega arith, tt)

covered-subtract_example :
    covered (pos 7) (subtract calls others)
    ≡ (covered (pos 7) calls && not (covered (pos 7) others))
covered-subtract_example = covered-subtract (pos 7) calls others

covered-merge_example : covered (pos 3) (merge calls) ≡ covered (pos 3) calls
covered-merge_example = covered-merge (pos 3) calls

merge-IsSeparated_example : IsSeparated (merge calls)
merge-IsSeparated_example = merge-IsSeparated calls calls-IsProper

total-merge_example : total (merge calls) ≡ pos (instants (pos 0) 10 (λ x. covered x calls))
total-merge_example = total-merge (pos 0) 10 calls calls-IsProper calls-Inside

covered-intersect_example :
    covered (pos 7) (intersect others ((pos 7, pos 9) ∷ []))
    ≡ (covered (pos 7) others && covered (pos 7) ((pos 7, pos 9) ∷ []))
covered-intersect_example =
    covered-intersect (pos 7) others ((pos 7, pos 9) ∷ []) others-IsSeparated one-IsSeparated

covered-complement_example :
    covered (pos 4) (complement calls (pos 12))
    ≡ (leb_ℤ (pos 0) (pos 4) && ltb_ℤ (pos 4) (pos 12) && not (covered (pos 4) calls))
covered-complement_example = covered-complement (pos 4) (pos 12) calls calls-IsProper calls-EndsBy

abbrev delays : List ℤ
delays = pos 30 ∷ pos 10 ∷ pos 20 ∷ []

regions-Apart_example : Apart 2 0 (length flags) (regions 2 flags)
regions-Apart_example = regions-Apart 2 flags
