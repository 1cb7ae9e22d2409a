-- ===== src/Calculator/Tests.antt =====
-- The calculator's theorems at concrete inputs.
use actioneer_pulse.Common.{
  map, true, false, not, ◌&&◌, ◌++◌, String, List, [], ◌∷◌, Option, none, some, ◌≡◌, ℕ, count, any,
  elem, filter_map, is_some, nonempty, str_eq, if◌then◌else◌,
}
use actioneer_pulse.Common.Int.{pos, ◌+ℤ◌, ltb_ℤ}
use actioneer_pulse.Model.{Stage, SpanEvent, Span, CallHeader, Trace, AudioAnalysis, TrustReason}
use actioneer_pulse.Model.Value.{Value, Conversions}
use actioneer_pulse.Audio.Intervals.Cover.{covered}
use actioneer_pulse.Audio.Intervals.Measure.{instants}
use actioneer_pulse.Calculator.Turns.{turn_key, caller_side, turn_spans}
use actioneer_pulse.Calculator.Turns.OnePerTurn.{
  is_turn_of, turn_spans_once, turn_spans-caller_side,
}
use actioneer_pulse.Calculator.Gap.{uncovered, hold, span_window}
use actioneer_pulse.Calculator.Gap.Exact.{uncovered_exact}
use actioneer_pulse.Calculator.Build.{build_turn}
use actioneer_pulse.Calculator.Build.Latency.{NonNegative, PartOf, build_turn_latencies}
use actioneer_pulse.Calculator.Derive.{turns_from_events}
use actioneer_pulse.Calculator.Derive.Dense.{Numbered, turns_from_events-Numbered}
use actioneer_pulse.Calculator.Report.{
  MetricConfig, reasons_of, is_s2s, untimed, is_partial, coverage_of, dropped_events,
}
use actioneer_pulse.Calculator.Report.Reasons.{names, reasons_of_iff}
use actioneer_pulse.Calculator.Analyze.{analyze}
use actioneer_pulse.Calculator.Analyze.Derived.{disabled, analyze_disabled}

-- Conversions that read no text as a number.
abbrev no_numbers : Conversions
no_numbers = record { float_of_text = λ s. none; int_of_text = λ s. none; repr = λ v. "value" }

abbrev span : String → Option String → Stage → ℕ → ℕ → String → Span
span id parent stage from to turn = record {
  span_id = id;
  parent_span_id = parent;
  name = id;
  stage = stage;
  t_start = some (pos from);
  t_end = some (pos to);
  sequence = none;
  turn_id = some turn;
  error = false;
  attrs = [];
  content = [];
  events = [];
}

-- An exchange with a caller's and an agent's turn span, and a second one.
abbrev exchange : List Span
exchange =
    span "agent" none Stage.turn 40 90 "one"
    ∷ span "caller" none Stage.turn 10 60 "one"
    ∷ span "stt" (some "caller") Stage.stt 10 20 "one"
    ∷ span "tts" (some "agent") Stage.tts 40 80 "one"
    ∷ span "next" none Stage.turn 100 120 "two"
    ∷ []

abbrev no_labels : CallHeader
no_labels = record {
  call_id = "call";
  source = "phone";
  environment = "prod";
  started_at = none;
  engine = none;
  carrier = none;
  stt_provider = none;
  llm_provider = none;
  llm_model = none;
  tts_provider = none;
  voice = none;
  template_sha256 = none;
  ended_at = none;
  labels = [];
  counters = [];
}

abbrev traced : Trace
traced = record { header = no_labels; spans = exchange }

abbrev defaults : MetricConfig
defaults = record {
  vad_threshold_dbfs = pos 0;
  turn_gap_s = pos 5000;
  dead_air_min_s = pos 30000;
  echo_gain_min = pos 1000;
  peaks_per_second = 50;
  energy_frame_ms = pos 500000;
  clip_dbfs = pos 0;
  partial_coverage_threshold = pos 9000;
}

abbrev first_turn : Span
first_turn = span "agent" none Stage.turn 40 90 "one"

abbrev other_turn : Span
other_turn = span "caller" none Stage.turn 10 60 "one"

turn_spans_once_example :
    count (λ s. str_eq (turn_key s) "one") (turn_spans ⦃c = no_numbers⦄ exchange)
    ≡ (if any (is_turn_of "one") exchange then 1 else 0)
turn_spans_once_example = turn_spans_once ⦃c = no_numbers⦄ exchange "one"

turn_spans-caller_side_example :
    any
      (λ s. str_eq (turn_key s) "one" && elem s.span_id (caller_side exchange))
      (turn_spans ⦃c = no_numbers⦄ exchange)
    ≡ any (λ s. is_turn_of "one" s && elem s.span_id (caller_side exchange)) exchange
turn_spans-caller_side_example = turn_spans-caller_side ⦃c = no_numbers⦄ exchange "one"

uncovered_exact_example :
    uncovered
      (some (pos 20))
      (some (pos 20 +ℤ pos 25))
      (some (pos 20))
      (some (pos 22))
      exchange
      (pos 0)
    ≡ some (
        pos (
          instants (pos 20) 25 (λ x. not (
            covered x (
              hold (some (pos 20)) (some (pos 22)) ++ filter_map (span_window (pos 0)) exchange)))))
uncovered_exact_example =
    uncovered_exact (pos 20) 24 (some (pos 20)) (some (pos 22)) exchange (pos 0)

build_turn_latencies_example :
    let t = build_turn ⦃c = no_numbers⦄ other_turn exchange [] (pos 0) (pos 0) in
    NonNegative t.response_latency_ms
    × NonNegative t.stt_lag_ms
    × NonNegative t.assembly_ms
    × NonNegative t.dispatch_ms
    × NonNegative t.playout_ms
    × PartOf t.unattributed_ms t.response_latency_ms
build_turn_latencies_example =
    build_turn_latencies ⦃c = no_numbers⦄ other_turn exchange [] (pos 0) (pos 0)

abbrev event : String → ℕ → String → SpanEvent
event name t text = record {
  name = name;
  t = some (pos t);
  attrs = [];
  content = ("text", Value.text text) ∷ [];
}

-- A call without turn spans, whose events tell two exchanges.
abbrev evented : Trace
evented = record {
  header = no_labels;
  spans =
      record (span "call" none Stage.call 0 99 "") {
        events =
            event "stt.final" 10 "hello"
            ∷ event "llm.spoken" 20 "hi"
            ∷ event "stt.final" 30 "bye"
            ∷ [];
      }
      ∷ [];
}

turns_from_events-Numbered_example : Numbered 0 (turns_from_events ⦃c = no_numbers⦄ evented)
turns_from_events-Numbered_example = turns_from_events-Numbered ⦃c = no_numbers⦄ evented

reasons_of_iff_example :
    let r = reasons_of traced none defaults true false in
    (names TrustReason.audio_missing r ≡ (not (is_some {A = AudioAnalysis} none) && true))
    × (names TrustReason.audio_disabled r ≡ (not (is_some {A = AudioAnalysis} none) && not true))
    × (names TrustReason.trace_missing r ≡ (not (nonempty exchange) && not (is_s2s none)))
    × (names TrustReason.trace_not_applicable r ≡ (not (nonempty exchange) && is_s2s none))
    × (names TrustReason.timing_missing r ≡ (nonempty exchange && untimed exchange))
    × (names TrustReason.audio_partial r ≡ is_partial (coverage_of none) (pos 9000))
    × (names TrustReason.telemetry_truncated r ≡ ltb_ℤ (pos 0) (dropped_events no_labels))
    × (names TrustReason.turns_derived r ≡ false)
    × (names TrustReason.artifact_missing r ≡ false)
    × (names TrustReason.producer_schema_unsupported r ≡ false)
    × (names TrustReason.gate_timeout r ≡ false)
reasons_of_iff_example = reasons_of_iff traced none defaults true false

analyze_disabled_example :
    let off = analyze ⦃c = no_numbers⦄ 1 traced none defaults none false in
    let lost = analyze ⦃c = no_numbers⦄ 1 traced none defaults none true in
    (off ≡ record lost { trust = record lost.trust { reasons = map disabled lost.trust.reasons } })
    × (names TrustReason.audio_disabled off.trust.reasons ≡ true)
    × (names TrustReason.audio_missing off.trust.reasons ≡ false)
    × (names TrustReason.audio_missing lost.trust.reasons ≡ true)
    × (names TrustReason.audio_disabled lost.trust.reasons ≡ false)
analyze_disabled_example = analyze_disabled ⦃c = no_numbers⦄ 1 traced defaults none
