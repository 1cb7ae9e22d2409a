-- ===== src/Calculator/Build.antt =====
-- The waterfall of one turn: the anchor hooks and `build_turn` of src/voiceobs/core/calculator.py.
pub mod Latency
use actioneer_pulse.Common.{
  Bool, true, false, String, Option, none, some, List, [], ◌∷◌, ◌++◌, ◌&&◌, ◌||◌, map, filter,
  filter_map, any, head?, nonempty, is_some, or_else, get_or, truthy?, opt_eq, str_eq,
  if◌then◌else◌,
}
use actioneer_pulse.Common.Int.{ℤ, pos, ◌-ℤ◌, ◌+ℤ◌, leb_ℤ, ltb_ℤ}
use actioneer_pulse.Common.Dict.{lookup}
use actioneer_pulse.Common.Sort.{sort_by}
use actioneer_pulse.Model.{Stage, Span, Utterance, Turn}
use actioneer_pulse.Model.Value.{
  Value, Conversions, present, truthy_value, value_or, str_of, float_of, int_of,
}
use actioneer_pulse.Calculator.Read.{
  to_audio, ms, earliest, latest, attr, filled, children, first_event_t, content, sec_to_ms,
  transcript,
}
use actioneer_pulse.Calculator.Turns.{turn_index}
use actioneer_pulse.Calculator.Gap.{uncovered}

-- `end_of_speech`
unfoldable pub end_of_speech : List Span → ℤ → Option ℤ
unfolding to_audio latest
end_of_speech speech offset = to_audio (latest (filter_map (λ s. s.t_end) speech)) offset

-- `first_token`: the event, else the LLM's start and the reported time to the first token.
unfoldable pub first_token : Option ℤ → Option ℤ → Option ℤ → ℤ → Option ℤ
unfolding to_audio
first_token (some t) llm_start reported offset = some t
first_token none none reported offset = none
first_token none (some start) none offset = none
first_token none (some start) (some ttft) offset = some ((start -ℤ offset) +ℤ ttft)

-- `tts_request_start`
unfoldable pub tts_request_start : List Span → ℤ → Option ℤ
unfolding to_audio earliest
tts_request_start tts offset =
    to_audio
      (earliest (
        filter_map (λ s. if is_some (present (lookup "tts.chars" s.attrs)) then s.t_start else none)
          tts))
      offset

-- `first_audio`: the event, else the TTS start and the reported time to the first byte, else the start.
unfoldable pub first_audio : Option ℤ → Option ℤ → Option ℤ → Option ℤ
first_audio (some t) start ttfb = some t
first_audio none (some start) (some ttfb) = some (start +ℤ ttfb)
first_audio none start none = start
first_audio none none ttfb = none

abbrev pub starts_le : Utterance → Utterance → Bool
starts_le a b = leb_ℤ a.t_start b.t_start

abbrev pub ends_le : Utterance → Utterance → Bool
ends_le a b = leb_ℤ a.t_end b.t_end

-- `x <= hi`, where no bound is infinity.
abbrev pub within : ℤ → Option ℤ → Bool
within x none = true
within x (some hi) = leb_ℤ x hi

-- The agent's first utterance that starts in the window.
unfoldable pub agent_onset : List Utterance → ℤ → Option ℤ → Option ℤ
unfolding sort_by
agent_onset utterances win_start win_end = head? (
    filter_map
      (λ u.
        if str_eq u.channel "agent" && (leb_ℤ win_start u.t_start && within u.t_start win_end)
        then some u.t_start
        else none)
      (sort_by starts_le utterances))

-- `caller_end` is overwritten by every later caller utterance: the last one stays.
pub last_end : Option ℤ → Option ℤ → List Utterance → Option ℤ
last_end bound found [] = found
last_end bound found (u ∷ us) =
    last_end bound
      (if str_eq u.channel "caller" && within u.t_end bound then some u.t_end else found) us

-- `_audio_endpoints`: the caller's end and the agent's onset.
unfoldable pub audio_endpoints : List Utterance → ℤ → Option ℤ → Option ℤ × Option ℤ
unfolding agent_onset last_end sort_by
audio_endpoints utterances win_start win_end =
    let onset = agent_onset utterances win_start win_end in
    (last_end (or_else onset win_end) none (sort_by ends_le utterances), onset)

abbrev pub text_of : Option String → Option Value
text_of none = none
text_of (some s) = some (Value.text s)

-- `stt[0].t_start if stt else None`
abbrev pub first_start : List Span → Option ℤ
first_start [] = none
first_start (s ∷ rest) = s.t_start

abbrev pub first_end : List Span → Option ℤ
first_end [] = none
first_end (s ∷ rest) = s.t_end

-- `llm[0].content.get(kind) if llm else None`
abbrev pub first_content : List Span → String → Option Value
first_content [] kind = none
first_content (s ∷ rest) kind = present (lookup kind s.content)

-- `bool(v)` of a value that may be None.
abbrev pub is_true : Option Value → Bool
is_true none = false
is_true (some v) = truthy_value v

-- A cut reason that the producer sent, else one for a cancelled synthesis.
unfoldable pub cut_reason_of : Option Value → Bool → Bool → Option Value
cut_reason_of (some v) cancelled interrupted = some v
cut_reason_of none false interrupted = none
cut_reason_of none true interrupted =
    some (Value.text (if interrupted then "barge_in" else "hangup"))

module _ ⦃c : Conversions⦄ where
  -- `endpointing_ms`
  unfoldable pub endpointing_ms : Option ℤ → Option ℤ → List Span → Option ℤ
  endpointing_ms speech_end stt_start related =
      or_else (ms speech_end stt_start) (sec_to_ms (attr related "endpointing.delay"))

  unfoldable pub build_turn : Span → List Span → List Utterance → ℤ → ℤ → Turn
  build_turn turn_span spans utterances offset position =
      let tid : String = get_or (truthy? turn_span.turn_id) turn_span.span_id in
      let speech = children spans (some tid) Stage.speech in
      let stt = children spans (some tid) Stage.stt in
      let llm = children spans (some tid) Stage.llm in
      let tts = children spans (some tid) Stage.tts in
      let related = filter (λ s. opt_eq s.turn_id (some tid)) spans in
      let speech_end = end_of_speech speech offset in
      let stt_start = to_audio (first_start stt) offset in
      let stt_final = to_audio (first_end stt) offset in
      let llm_start = first_start llm in
      let llm_first_token = to_audio (first_event_t spans "llm.first_token" (some tid)) offset in
      let tts_start = to_audio (earliest (filter_map (λ s. s.t_start) tts)) offset in
      let tts_req_start = tts_request_start tts offset in
      let tts_first_audio = to_audio (first_event_t spans "tts.first_audio" (some tid)) offset in
      let committed =
        or_else (to_audio (first_event_t spans "turn.committed" (some tid)) offset)
          (to_audio turn_span.t_start offset) in
      let win_start = get_or (to_audio turn_span.t_start offset) (pos 0) in
      let win_end = to_audio turn_span.t_end offset in
      let ends = audio_endpoints utterances win_start win_end in
      let llm_ttft_reported = sec_to_ms (attr llm "metrics.ttft") in
      let tts_ttfb_reported = sec_to_ms (attr tts "metrics.ttfb") in
      let llm_ttft = or_else (ms (to_audio llm_start offset) llm_first_token) llm_ttft_reported in
      let tts_ttfb = or_else (ms tts_start tts_first_audio) tts_ttfb_reported in
      let token = first_token llm_first_token llm_start llm_ttft_reported offset in
      let caller_stop = or_else speech_end stt_final in
      let agent_out = first_audio tts_first_audio tts_start tts_ttfb in
      let interrupted = is_true (attr related "turn.interrupted") in
      let cancelled = any (λ s. is_true (lookup "tts.cancelled" s.attrs)) tts in
      record {
        turn_index = turn_index turn_span position;
        turn_id = tid;
        trigger = elim (lookup "turn.trigger" turn_span.attrs) [
          | none ↦ "endpoint"
          | some v ↦ str_of v
        ];
        audio_start_s = ends.0;
        audio_end_s = ends.1;
        stt_final_at = stt_final;
        committed_at = committed;
        llm_first_token_at = llm_first_token;
        tts_start_at = tts_start;
        tts_first_audio_at = tts_first_audio;
        audio_out_start_s = ends.1;
        tts_span_present = nonempty tts;
        response_latency_ms = ms caller_stop agent_out;
        stt_lag_ms = ms stt_start stt_final;
        endpointing_ms = endpointing_ms speech_end stt_start related;
        llm_ttft_ms = llm_ttft;
        assembly_ms = ms token tts_start;
        dispatch_ms = ms token tts_req_start;
        tts_ttfb_ms = tts_ttfb;
        playout_ms = ms tts_first_audio ends.1;
        unattributed_ms =
            uncovered caller_stop agent_out speech_end stt_start (stt ++ (llm ++ tts)) offset;
        llm_ttft_reported_ms = llm_ttft_reported;
        tts_ttfb_reported_ms = tts_ttfb_reported;
        language = attr stt "stt.language";
        stt_confidence =
            float_of (value_or (attr stt "stt.confidence") (attr related "stt.confidence"));
        tokens_in = int_of (attr llm "gen_ai.usage.input_tokens");
        tokens_out = int_of (attr llm "gen_ai.usage.output_tokens");
        tokens_cached = int_of (
            value_or (attr llm "gen_ai.usage.cached_tokens")
              (attr llm "gen_ai.usage.cache_read.input_tokens"));
        finish_reason = attr llm "llm.finish_reason";
        tts_chars = int_of (attr tts "tts.chars");
        tts_chars_cut = int_of (attr tts "tts.chars_cut");
        tts_cancelled = cancelled;
        cut_reason = cut_reason_of (attr tts "tts.cut_reason") cancelled interrupted;
        interrupted = interrupted;
        interruption_probability = float_of (attr related "turn.interruption_probability");
        e2e_latency_ms = sec_to_ms (attr related "metrics.e2e_latency");
        abandoned = is_true (attr related "turn.abandoned");
        transcript = value_or (transcript stt) (content related "transcript");
        llm_raw = value_or (first_content llm "llm_raw") (content related "llm_raw");
        llm_spoken = value_or (first_content tts "llm_spoken") (content related "llm_spoken");
      }
