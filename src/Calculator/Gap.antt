-- ===== src/Calculator/Gap.antt =====
-- The agent's speaking windows and the unexplained part of a turn: `_agent_intervals` and
-- `_uncovered` of src/voiceobs/core/calculator.py.
pub mod Exact
use actioneer_pulse.Common.{
  Bool, true, false, Option, none, some, List, [], ◌∷◌, ◌++◌, ◌&&◌, ◌||◌, map, filter, filter_map,
  is_some, if◌then◌else◌,
}
use actioneer_pulse.Common.Int.{ℤ, pos, ◌-ℤ◌, leb_ℤ, ltb_ℤ, max_ℤ, min_ℤ}
use actioneer_pulse.Model.{Stage, stage_eq, Span, Trace}
use actioneer_pulse.Audio.Intervals.{Interval, merge, total}
use actioneer_pulse.Calculator.Read.{to_audio}

-- A pair of times, if both are there.
abbrev pub both : Option ℤ → Option ℤ → Option Interval
both none b = none
both (some a) none = none
both (some a) (some b) = some (a, b)

abbrev pub span_window : ℤ → Span → Option Interval
span_window offset s = both (to_audio s.t_start offset) (to_audio s.t_end offset)

unfoldable pub agent_intervals : Trace → ℤ → List Interval
agent_intervals trace offset =
    let speaking =
      filter
        (λ s. (stage_eq s.stage Stage.tts || stage_eq s.stage Stage.playout) && is_some s.t_end)
        trace.spans in
    merge (filter_map (span_window offset) speaking)

-- `(max(lo, a), min(hi, b))`, if it is not empty.
abbrev pub clip : ℤ → ℤ → Interval → Option Interval
clip lo hi i =
    let a = max_ℤ lo i.0 in let b = min_ℤ hi i.1 in if ltb_ℤ a b then some (a, b) else none

-- The endpointing hold, which has no span.
abbrev pub hold : Option ℤ → Option ℤ → List Interval
hold speech_end stt_start = elim (both speech_end stt_start) [ none ↦ [] | some i ↦ i ∷ [] ]

-- What the window [lo, hi) has left when the segments are taken out.
unfoldable pub uncovered_in : ℤ → ℤ → List Interval → ℤ
uncovered_in lo hi segs = max_ℤ (pos 0) ((hi -ℤ lo) -ℤ total (merge (filter_map (clip lo hi) segs)))

unfoldable pub uncovered : Option ℤ → Option ℤ → Option ℤ → Option ℤ → List Span → ℤ → Option ℤ
uncovered caller_stop agent_out speech_end stt_start spans offset =
    elim (both caller_stop agent_out) [
      | none ↦ none
      | some (lo, hi) ↦
          if leb_ℤ hi lo
          then none
          else some (
              uncovered_in lo hi
                (hold speech_end stt_start ++ filter_map (span_window offset) spans))
    ]
