-- ===== src/Calculator/Analyze.antt =====
-- The metrics of a call and the whole analysis: `_mv`, `_audio_metrics`, `audio_only_metrics`,
-- `_layer2_metrics` and `analyze` of src/voiceobs/core/calculator.py.
pub mod Derived
use Prim.Native.String.{◌++◌ as append}
use actioneer_pulse.Common.{
  Bool, true, false, not, String, Option, none, some, List, [], ◌∷◌, ◌++◌, ◌&&◌, map, filter,
  filter_map, length, is_some, nonempty, get_or, elem, str_eq, str_le, truthy, if◌then◌else◌, ℕ,
  zero, suc, ◌+◌, ◌*◌,
}
use actioneer_pulse.Common.Int.{ℤ, pos, ◌+ℤ◌, ◌-ℤ◌, leb_ℤ, eqb_ℤ, min_ℤ, max_ℤ, round_quot_ℤ}
use actioneer_pulse.Common.Dict.{Dict}
use actioneer_pulse.Common.Sort.{sort_by}
use actioneer_pulse.Model.{
  Span, Trace, AudioAnalysis, Utterance, Turn, Figure, MetricValue, Analysis,
}
use actioneer_pulse.Model.Value.{Value, Conversions}
use actioneer_pulse.Audio.Intervals.{Interval, merge}
use actioneer_pulse.Audio.Metrics.{
  window, TalkRatio, talk_ratio, barge_in_count, dead_air, sum_ℤ, maximum, TurnStats,
  caller_turn_stats, percentile, fraction,
}
use actioneer_pulse.Calculator.Turns.{turn_spans}
use actioneer_pulse.Calculator.Gap.{agent_intervals}
use actioneer_pulse.Calculator.Build.{build_turn}
use actioneer_pulse.Calculator.Derive.{turns_from_events}
use actioneer_pulse.Calculator.Report.{MetricConfig, metric_version, is_channel, trust_report}

-- `_mv`
unfoldable pub mv : String → Bool → Option Figure → Option (List Figure) → String → MetricValue
mv name ok value samples reason = record {
  name = name;
  value = if ok then value else none;
  samples = samples;
  available = ok;
  reason = if ok then none else some reason;
}

abbrev pub decimal? : Option ℤ → Option Figure
decimal? none = none
decimal? (some x) = some (Figure.decimal x)

abbrev pub tenths? : Option ℤ → Option Figure
tenths? none = none
tenths? (some x) = some (Figure.tenths x)

abbrev pub values : {V : Type 0} → Dict V → List V
values d = map (λ e. e.1) d

pub minimum : List ℤ → Option ℤ
minimum [] = none
minimum (x ∷ xs) = elim (minimum xs) [ none ↦ some x | some y ↦ some (min_ℤ x y) ]

unfoldable pub ratio_field : Option TalkRatio → (TalkRatio → ℤ) → Option Figure
ratio_field none f = none
ratio_field (some r) f = some (Figure.decimal (f r))

-- `_audio_metrics`
unfoldable pub audio_metrics : AudioAnalysis → List Interval → MetricConfig → List MetricValue
unfolding mv minimum ratio_field
audio_metrics audio agent_iv cfg =
    let caller = filter (is_channel "caller") audio.utterances in
    let ends = map (λ u. u.t_end) audio.utterances ++ map (λ i. i.1) agent_iv in
    let duration = maximum (pos 0) ends in
    let cov = values audio.coverage in
    let ok = nonempty agent_iv in
    let tr = talk_ratio caller agent_iv duration in
    mv "capture_coverage" (nonempty cov) (decimal? (minimum cov)) (some (map Figure.decimal cov))
      "no audio"
    ∷ mv "barge_in" ok (some (Figure.whole (pos (barge_in_count caller agent_iv)))) none
        "no agent spans"
    ∷ mv "dead_air_s" ok
        (some (Figure.decimal (dead_air caller agent_iv duration cfg.dead_air_min_s []))) none
        "no agent spans"
    ∷ mv "talk_ratio_caller" (is_some tr) (ratio_field tr (λ r. r.caller)) none "no audio"
    ∷ mv "talk_ratio_agent" ok (ratio_field tr (λ r. r.agent)) none "no agent spans"
    ∷ mv "overlap_ratio" ok (ratio_field tr (λ r. r.overlap)) none "no agent spans"
    ∷ mv "turn_count_caller" true (some (Figure.whole (pos ((caller_turn_stats caller).count))))
        none ""
    ∷ mv "turn_count_agent" ok (some (Figure.whole (pos (length agent_iv)))) none "no agent spans"
    ∷ []

-- `audio_only_metrics`
unfoldable pub audio_only_metrics : AudioAnalysis → MetricConfig → List MetricValue
audio_only_metrics audio cfg =
    audio_metrics audio (merge (map window (filter (is_channel "agent") audio.utterances))) cfg

-- One latency series and its 90th percentile.
unfoldable pub series_metric : String → List ℤ → MetricValue
unfolding mv
series_metric name s =
    mv name (nonempty s) (tenths? (percentile s 90)) (some (map Figure.tenths s))
      "no spans carried this segment"

-- `if t.x`, for a number that may be None or 0.
pub nonzero : Option ℤ → Option ℤ
nonzero none = none
nonzero (some x) = if eqb_ℤ x (pos 0) then none else some x

ten_times : ℤ → ℤ
ten_times x = let two = x +ℤ x in let four = two +ℤ two in four +ℤ four +ℤ two

-- The cut reasons that are not empty.
pub reason_text : Turn → Option String
reason_text t = elim t.cut_reason [
  | none ↦ none
  | some (Value.text s) ↦ if truthy s then some s else none
  | some other ↦ none
]

-- `sorted({…})`
pub distinct : List String → List String
distinct [] = []
distinct (s ∷ rest) = let more = distinct rest in if elem s more then more else s ∷ more

-- `",".join(xs)`
pub join_comma : List String → String
join_comma [] = ""
join_comma (x ∷ []) = x
join_comma (x ∷ y ∷ ys) = append x (append "," (join_comma (y ∷ ys)))

-- `_layer2_metrics`
unfoldable pub layer2_metrics : List Turn → List MetricValue
unfolding mv series_metric nonzero ten_times reason_text distinct join_comma
layer2_metrics turns =
    let toks = filter_map (λ t. t.tokens_out) turns in
    let chars = sum_ℤ (filter_map (λ t. nonzero t.tts_chars) turns) in
    let cut = sum_ℤ (filter_map (λ t. nonzero t.tts_chars_cut) turns) in
    let reasons = sort_by str_le (distinct (filter_map reason_text turns)) in
    series_metric "response_latency_ms" (filter_map (λ t. t.response_latency_ms) turns)
    ∷ series_metric "llm_ttft_ms" (filter_map (λ t. t.llm_ttft_ms) turns)
    ∷ series_metric "assembly_ms" (filter_map (λ t. t.assembly_ms) turns)
    ∷ series_metric "tts_ttfb_ms" (filter_map (λ t. t.tts_ttfb_ms) turns)
    ∷ series_metric "unattributed_ms" (filter_map (λ t. t.unattributed_ms) turns)
    ∷ series_metric "llm_ttft_reported_ms" (filter_map (λ t. t.llm_ttft_reported_ms) turns)
    ∷ series_metric "tts_ttfb_reported_ms" (filter_map (λ t. t.tts_ttfb_reported_ms) turns)
    ∷ mv "tokens_per_turn" (nonempty toks)
        (some (Figure.tenths (round_quot_ℤ (ten_times (sum_ℤ toks)) (length toks))))
        (some (map Figure.whole toks)) "vendor sent no usage"
    ∷ mv "truncation_rate" (not (eqb_ℤ chars (pos 0))) (some (Figure.decimal (fraction cut chars)))
        none "no tts chars"
    ∷ mv "cut_reason" (nonempty reasons) (some (Figure.label (join_comma reasons))) none
        "no truncated turns"
    ∷ []

module _ ⦃c : Conversions⦄ where
  -- `[self.build_turn(ts, …, position) for position, ts in enumerate(turn_spans)]`
  pub build_turns : ℕ → List Span → List Span → List Utterance → ℤ → List Turn
  build_turns position [] spans utterances offset = []
  build_turns position (ts ∷ rest) spans utterances offset =
      build_turn ts spans utterances offset (pos position)
      ∷ build_turns (position + 1) rest spans utterances offset

  -- `Calculator.analyze`
  unfoldable pub analyze :
      ℕ → Trace → Option AudioAnalysis → MetricConfig → Option ℤ → Bool → Analysis
  unfolding build_turns
  analyze adapter_version trace audio cfg t0_offset audio_enabled =
      let offset = get_or t0_offset (pos 0) in
      let utterances : List Utterance = elim audio [ none ↦ [] | some a ↦ a.utterances ] in
      let built = build_turns 0 (turn_spans trace.spans) trace.spans utterances offset in
      let derived = turns_from_events trace in
      let turns = if nonempty built then built else derived in
      let turns_derived = not (nonempty built) && nonempty derived in
      let agent_iv = agent_intervals trace offset in
      record {
        turns = turns;
        metrics =
            (elim audio [ none ↦ [] | some a ↦ audio_metrics a agent_iv cfg ])
            ++ (if nonempty trace.spans && nonempty turns then layer2_metrics turns else []);
        trust = trust_report trace audio turns offset cfg audio_enabled turns_derived;
        metric_version = metric_version;
        adapter_version = adapter_version;
      }
