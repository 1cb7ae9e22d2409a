-- ===== src/Calculator/Gap/Exact.antt =====
-- The unexplained part of a turn, as a count of instants.
use actioneer_pulse.Common.{
  false, not, Option, some, List, [], ◌∷◌, ◌++◌, filter_map, ◌≡◌, refl, ap, ℕ, suc, ◌+◌, arith,
}
use actioneer_pulse.Common.Int.{
  ℤ, pos, ◌+ℤ◌, ◌-ℤ◌, leb_ℤ, max_ℤ, ◌≤ℤ◌, ◌<ℤ◌, +ℤ_parts, -ℤ_parts, parts-pos, eq_of_parts,
}
use actioneer_pulse.Model.{Span}
use actioneer_pulse.Audio.Intervals.{Interval}
use actioneer_pulse.Audio.Intervals.Cover.{covered, IsProper}
use actioneer_pulse.Audio.Intervals.Measure.{
  instants, instants-not, Inside, total-merge, instants-congr_in,
}
use actioneer_pulse.Calculator.Gap.{clip, span_window, hold, uncovered_in, uncovered}

clip-Inside :
    (lo : ℤ) (n : ℕ) (segs : List Interval)
    → IsProper (filter_map (clip lo (lo +ℤ pos n)) segs)
      × Inside lo n (filter_map (clip lo (lo +ℤ pos n)) segs)
clip-Inside lo n [] = (tt, tt)
clip-Inside lo n (i ∷ segs) = ground (arith, clip-Inside lo n segs)

-- Inside the window the clipped segments cover what the segments cover.
covered-clip :
    (lo hi x : ℤ) (segs : List Interval)
    → lo ≤ℤ x
    → x <ℤ hi
    → covered x (filter_map (clip lo hi) segs) ≡ covered x segs
covered-clip lo hi x [] a b = refl
covered-clip lo hi x (i ∷ segs) a b = ground (arith, covered-clip lo hi x segs a b)

pub uncovered_in_exact :
    (lo : ℤ) (n : ℕ) (segs : List Interval)
    → uncovered_in lo (lo +ℤ pos n) segs ≡ pos (instants lo n (λ x. not (covered x segs)))
unfolding uncovered_in
uncovered_in_exact lo n segs =
    let clipped = filter_map (clip lo (lo +ℤ pos n)) segs in
    let inside = clip-Inside lo n segs in
    rw
      (
        total-merge lo n clipped inside.0 inside.1,
        instants-congr_in lo n (λ x. covered x clipped) (λ x. covered x segs)
            (λ x a b. covered-clip lo (lo +ℤ pos n) x segs a b),
      )
      (left (instants lo n (λ x. covered x segs)) (instants lo n (λ x. not (covered x segs)))
        (instants-not lo n (λ x. covered x segs)))
  where
    left : (c u : ℕ) → c + u ≡ n → max_ℤ (pos 0) ((lo +ℤ pos n) -ℤ lo -ℤ pos c) ≡ pos u
    left c u e = ground (
      arith,
      parts-pos 0,
      parts-pos n,
      parts-pos c,
      parts-pos u,
      +ℤ_parts lo (pos n),
      -ℤ_parts (lo +ℤ pos n) lo,
      -ℤ_parts ((lo +ℤ pos n) -ℤ lo) (pos c),
      eq_of_parts ((lo +ℤ pos n) -ℤ lo -ℤ pos c) (pos u),
      eq_of_parts (pos 0) (pos u),
    )

-- Of a turn whose agent is first heard n + 1 instants after the caller stops, the unattributed time
-- is the number of those instants that neither the endpointing hold nor the window of a span covers.
pub uncovered_exact :
    (lo : ℤ) (n : ℕ) (speech_end stt_start : Option ℤ) (spans : List Span) (offset : ℤ)
    → uncovered (some lo) (some (lo +ℤ pos (suc n))) speech_end stt_start spans offset
      ≡ some (
          pos (
            instants lo (suc n) (λ x.
              not
                (covered x (hold speech_end stt_start ++ filter_map (span_window offset) spans)))))
unfolding uncovered
uncovered_exact lo n speech_end stt_start spans offset =
    let later : leb_ℤ (lo +ℤ pos (suc n)) lo ≡ false =
      ground (arith, parts-pos (suc n), +ℤ_parts lo (pos (suc n))) in
    rw later (
      ap some (
        uncovered_in_exact lo (suc n)
          (hold speech_end stt_start ++ filter_map (span_window offset) spans)))
