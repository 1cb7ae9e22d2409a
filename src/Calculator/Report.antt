-- ===== src/Calculator/Report.antt =====
-- The trust report: `_trust_report`, `_clock_residuals` and `_barge_in_agreement` of
-- src/voiceobs/core/calculator.py, with the thresholds of core/config.py.
pub mod Reasons
use actioneer_pulse.Common.{
  Bool, true, false, not, String, Option, none, some, List, [], ◌∷◌, ◌++◌, ◌&&◌, map, filter,
  filter_map, flat_map, count, all, any, length, is_some, nonempty, get_or, elem, str_eq,
  if◌then◌else◌, ◌==◌, min, max, ℕ, ◌+◌, ◌*◌,
}
use actioneer_pulse.Common.Int.{ℤ, pos, ◌-ℤ◌, leb_ℤ, ltb_ℤ, min_ℤ, round_quot, round_quot_ℤ}
use actioneer_pulse.Common.Dict.{Dict, lookup}
use actioneer_pulse.Model.{
  Stage, stage_eq, Span, SpanEvent, Trace, CallHeader, AudioAnalysis, Utterance, Turn, TrustReason,
  TrustReport,
}
use actioneer_pulse.Audio.Metrics.{barge_in_count, sum_ℤ}
use actioneer_pulse.Calculator.Gap.{agent_intervals}

-- Levels are in ten-thousandths of a dB, times in ten-thousandths of a second.
pub record MetricConfig : Type 0 where
  pub vad_threshold_dbfs : ℤ
  pub turn_gap_s : ℤ
  pub dead_air_min_s : ℤ
  pub echo_gain_min : ℤ
  pub peaks_per_second : ℕ
  pub energy_frame_ms : ℤ
  pub clip_dbfs : ℤ
  pub partial_coverage_threshold : ℤ

abbrev pub metric_version : ℕ
metric_version = 2

-- `_clock_residuals`
pub residual : Turn → Option ℤ
residual t = elim t.tts_first_audio_at [
  | none ↦ none
  | some said ↦ elim t.audio_out_start_s [ none ↦ none | some heard ↦ some (said -ℤ heard) ]
]

unfoldable pub clock_residuals : List Turn → List ℤ
unfolding residual
clock_residuals turns = filter_map residual turns

abbrev pub is_channel : String → Utterance → Bool
is_channel name u = str_eq u.channel name

-- `_barge_in_agreement`, in ten-thousandths.
unfoldable pub barge_in_agreement : Trace → Option AudioAnalysis → ℤ → Option ℤ
barge_in_agreement trace none offset = none
barge_in_agreement trace (some audio) offset =
    let caller = filter (is_channel "caller") audio.utterances in
    let agent_iv = agent_intervals trace offset in
    let heard = barge_in_count caller agent_iv in
    let told = count (λ e. str_eq e.name "bargein") (flat_map (λ s. s.events) trace.spans) in
    if not (nonempty caller && nonempty agent_iv)
    then none
    else if heard == 0 && told == 0
    then some (pos 10000)
    else some (pos (round_quot (min heard told * 10000) (max heard told)))

-- `round(sum(residuals) / len(residuals), 1) if residuals else None`
pub mean_residual : List ℤ → Option ℤ
mean_residual [] = none
mean_residual (x ∷ xs) = some (round_quot_ℤ (sum_ℤ (x ∷ xs)) (length (x ∷ xs)))

-- The texts that `lower` takes to "s2s".
abbrev pub is_s2s : Option String → Bool
is_s2s none = false
is_s2s (some e) = elem e ("s2s" ∷ "S2S" ∷ "S2s" ∷ "s2S" ∷ [])

-- No span and no event has a time.
unfoldable pub untimed : List Span → Bool
untimed spans =
    all (λ s. not (is_some s.t_start)) spans
    && all (λ s. all (λ e. not (is_some e.t)) s.events) spans

abbrev pub when : Bool → TrustReason → List TrustReason
when true r = r ∷ []
when false r = []

unfoldable pub audio_reasons : Option AudioAnalysis → Bool → List TrustReason
audio_reasons (some audio) enabled = []
audio_reasons none true = TrustReason.audio_missing ∷ []
audio_reasons none false = TrustReason.audio_disabled ∷ []

unfoldable pub trace_reasons : Trace → List TrustReason
trace_reasons trace =
    if nonempty trace.spans
    then when (untimed trace.spans) TrustReason.timing_missing
    else if is_s2s trace.header.engine
    then TrustReason.trace_not_applicable ∷ []
    else TrustReason.trace_missing ∷ []

-- `dict(audio.coverage) if audio else {}`
abbrev pub coverage_of : Option AudioAnalysis → Dict ℤ
coverage_of none = []
coverage_of (some audio) = audio.coverage

-- `coverage and min(coverage.values()) < threshold`: a channel lies below it.
unfoldable pub is_partial : Dict ℤ → ℤ → Bool
is_partial coverage threshold = any (λ c. ltb_ℤ c.1 threshold) coverage

abbrev pub dropped_events : CallHeader → ℤ
dropped_events h = get_or (lookup "span_dropped_events" h.counters) (pos 0)

unfoldable pub unattributed_spans : List Span → ℕ
unattributed_spans spans =
    count (λ s. not (is_some s.turn_id) && not (stage_eq s.stage Stage.call)) spans

unfoldable pub reasons_of :
    Trace → Option AudioAnalysis → MetricConfig → Bool → Bool → List TrustReason
unfolding audio_reasons trace_reasons
reasons_of trace audio cfg audio_enabled turns_derived =
    when turns_derived TrustReason.turns_derived
    ++ (audio_reasons audio audio_enabled
        ++ (trace_reasons trace
            ++ (when (is_partial (coverage_of audio) cfg.partial_coverage_threshold)
                  TrustReason.audio_partial
                ++ when (ltb_ℤ (pos 0) (dropped_events trace.header))
                    TrustReason.telemetry_truncated)))

-- `_trust_report`
unfoldable pub trust_report :
    Trace → Option AudioAnalysis → List Turn → ℤ → MetricConfig → Bool → Bool → TrustReport
unfolding mean_residual
trust_report trace audio turns offset cfg audio_enabled turns_derived =
    let residuals = clock_residuals turns in
    record {
      reasons = reasons_of trace audio cfg audio_enabled turns_derived;
      capture_coverage = coverage_of audio;
      clock_offset_s = if is_some audio then some offset else none;
      clock_residual_ms = mean_residual residuals;
      clock_residual_per_turn_ms = if nonempty residuals then some residuals else none;
      barge_in_agreement = barge_in_agreement trace audio offset;
      layers_run =
          (if is_some audio then "audio" ∷ [] else [])
          ++ (if nonempty trace.spans then "events" ∷ [] else []);
      span_dropped_events = dropped_events trace.header;
      unattributed_spans = unattributed_spans trace.spans;
    }
