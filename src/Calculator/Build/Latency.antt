-- ===== src/Calculator/Build/Latency.antt =====
-- What the latencies of a turn say of each other.
use actioneer_pulse.Common.{not, Option, none, some, List, ◌++◌, filter_map, ◌≡◌, arith}
use actioneer_pulse.Common.Int.{
  ℤ, pos, ◌-ℤ◌, ◌≤ℤ◌, -ℤ_parts, parts-pos, eq_of_parts, int_laws, later_by,
}
use actioneer_pulse.Model.{Span, Utterance}
use actioneer_pulse.Model.Value.{Conversions}
use actioneer_pulse.Audio.Intervals.Measure.{instants, instants-le}
use actioneer_pulse.Calculator.Read.{ms}
use actioneer_pulse.Calculator.Gap.{uncovered, uncovered_in, hold, span_window}
use actioneer_pulse.Calculator.Gap.Exact.{uncovered_in_exact}
use actioneer_pulse.Calculator.Build.{build_turn}
use actioneer_pulse.Audio.Intervals.{Interval}
use actioneer_pulse.Audio.Intervals.Cover.{covered}

-- A latency that is there is not negative.
abbrev pub NonNegative : Option ℤ → Type 0
NonNegative none = Unit
NonNegative (some x) = pos 0 ≤ℤ x

ms-NonNegative : (a b : Option ℤ) → NonNegative (ms a b)
unfolding ms
ms-NonNegative none b = tt
ms-NonNegative (some a) none = tt
ms-NonNegative (some a) (some b) = ground (arith, parts-pos 0, -ℤ_parts b a)

-- The unattributed time is there exactly when the latency is there and positive, and is at most it.
abbrev pub PartOf : Option ℤ → Option ℤ → Type 0
PartOf none none = Unit
PartOf none (some latency) = latency ≡ pos 0
PartOf (some part) none = ⊥
PartOf (some part) (some latency) = (pos 0 ≤ℤ part) × (part ≤ℤ latency)

uncovered_in_bounds :
    (lo hi : ℤ) (segs : List Interval)
    → lo ≤ℤ hi
    → (pos 0 ≤ℤ uncovered_in lo hi segs) × (uncovered_in lo hi segs ≤ℤ hi -ℤ lo)
uncovered_in_bounds lo hi segs h =
    let (k, e) = later_by lo hi h in
    rw (e, uncovered_in_exact lo k segs)
      (omega (
        int_laws,
        instants-le lo k (λ x. not (covered x segs)),
        parts-pos (instants lo k (λ x. not (covered x segs))),
        parts-pos k,
        parts-pos 0,
      ))

uncovered-PartOf :
    (stop out speech_end stt_start : Option ℤ) (spans : List Span) (offset : ℤ)
    → PartOf (uncovered stop out speech_end stt_start spans offset) (ms stop out)
unfolding uncovered ms
uncovered-PartOf none out se ss spans offset = tt
uncovered-PartOf (some lo) none se ss spans offset = tt
uncovered-PartOf (some lo) (some hi) se ss spans offset = ground (
  arith,
  parts-pos 0,
  -ℤ_parts hi lo,
  eq_of_parts (hi -ℤ lo) (pos 0),
  uncovered_in_bounds lo hi (hold se ss ++ filter_map (span_window offset) spans),
)

module _ ⦃c : Conversions⦄ where
  -- For any turn span, spans, utterances and offset: the response latency, the lag of the transcript,
  -- the assembly, the dispatch and the playout of the built turn are each absent or 0 or more, and the
  -- unattributed part is present exactly when the response latency is present and positive, and then
  -- lies between 0 and the latency.
  pub build_turn_latencies :
      (turn_span : Span) (spans : List Span) (utterances : List Utterance) (offset position : ℤ)
      → let t = build_turn turn_span spans utterances offset position in
        NonNegative t.response_latency_ms
        × NonNegative t.stt_lag_ms
        × NonNegative t.assembly_ms
        × NonNegative t.dispatch_ms
        × NonNegative t.playout_ms
        × PartOf t.unattributed_ms t.response_latency_ms
  unfolding build_turn
  build_turn_latencies turn_span spans utterances offset position = (
    ms-NonNegative _ _,
    ms-NonNegative _ _,
    ms-NonNegative _ _,
    ms-NonNegative _ _,
    ms-NonNegative _ _,
    uncovered-PartOf _ _ _ _ _ _,
  )
