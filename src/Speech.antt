-- ===== src/Speech.antt =====
-- Speakers and words: src/voiceobs/diarize/roles.py, `Segment` and `Diarization` of
-- src/voiceobs/diarize/client.py, and src/voiceobs/worker/audio_stt.py.
pub mod Roles
pub mod Turns
mod Tests
use Prim.Native.Char.{code}
use Prim.Native.String.{◌++◌ as append}
use actioneer_pulse.Common.{
  Bool, true, false, not, String, Option, none, some, List, [], ◌∷◌, ◌++◌, ◌&&◌, map, filter, find,
  get_or, elem, truthy, str_eq, if◌then◌else◌, ℕ, ◌+◌, is_some,
}
use actioneer_pulse.Common.Int.{ℤ, pos, ◌+ℤ◌, leb_ℤ, ltb_ℤ}
use actioneer_pulse.Common.Dict.{Dict, lookup}
use actioneer_pulse.Common.Sort.{sort_by}
use actioneer_pulse.Model.{Utterance, Turn}
use actioneer_pulse.Model.Value.{Value, Conversions}
use actioneer_pulse.Calculator.Derive.{blank, is_space}

pub record Segment : Type 0 where
  pub start : ℤ
  pub end : ℤ
  pub speaker : String

-- Distinct labels in the order of their first appearance, after those seen.
unfoldable pub speakers_from : List String → List Segment → List String
speakers_from seen [] = seen
speakers_from seen (s ∷ segments) =
    speakers_from (if elem s.speaker seen then seen else seen ++ s.speaker ∷ []) segments

unfoldable pub speakers : List Segment → List String
speakers segments = speakers_from [] segments

-- `min(segments, key=start)`: the first of the earliest.
unfoldable pub earliest_segment : Segment → List Segment → Segment
earliest_segment best [] = best
earliest_segment best (s ∷ segments) =
    earliest_segment (if ltb_ℤ s.start best.start then s else best) segments

abbrev pub role_of : String → String → String
role_of agent speaker = if str_eq speaker agent then "agent" else "caller"

unfoldable pub assign_roles : List Segment → Option String → Dict String
assign_roles [] agent = []
assign_roles (s ∷ segments) agent =
    let chosen = get_or agent (earliest_segment s segments).speaker in
    map (λ sp. (sp, role_of chosen sp)) (speakers (s ∷ segments))

abbrev pub starts_before : Segment → Segment → Bool
starts_before a b = leb_ℤ a.start b.start

unfoldable pub to_utterances : List Segment → Dict String → List Utterance
to_utterances segments roles =
    map
      (λ s. record {
        channel = get_or (lookup s.speaker roles) "caller";
        t_start = s.start;
        t_end = s.end;
      })
      (filter (λ s. ltb_ℤ s.start s.end) (sort_by starts_before segments))

-- `_role_at`, where the moment is given by its double.
unfoldable pub role_at : List Segment → Dict String → ℤ → String
role_at segments roles t2 =
    elim (find (λ s. leb_ℤ (s.start +ℤ s.start) t2 && leb_ℤ t2 (s.end +ℤ s.end)) segments) [
      | none ↦ "caller"
      | some s ↦ get_or (lookup s.speaker roles) "caller"
    ]

pub record Word : Type 0 where
  pub text : String
  pub start : ℤ
  pub end : ℤ

-- The words of one track, by the role that speaks at their middle.
unfoldable pub split_words : List Segment → Dict String → List Word → Dict (List Word)
split_words segments roles words =
    let is_agent = λ (w : Word). str_eq (role_at segments roles (w.start +ℤ w.end)) "agent" in
    ("caller", filter (λ w. not (is_agent w)) words) ∷ ("agent", filter is_agent words) ∷ []

lstrip : String → String
lstrip String.[] = ""
lstrip (String.◌∷◌ ch s) = if is_space (code ch) then lstrip s else String.◌∷◌ ch s

rstrip : String → String
rstrip String.[] = ""
rstrip (String.◌∷◌ ch s) = if blank (String.◌∷◌ ch s) then "" else String.◌∷◌ ch (rstrip s)

strip : String → String
unfolding lstrip rstrip
strip s = lstrip (rstrip s)

join_space : List String → String
join_space [] = ""
join_space (x ∷ []) = x
join_space (x ∷ y ∷ xs) = append x (append " " (join_space (y ∷ xs)))

-- `_words_in`
unfoldable pub words_in : List Word → ℤ → ℤ → String
unfolding strip join_space
words_in words t0 t1 =
    let inside =
      λ (w : Word). leb_ℤ (t0 +ℤ t0) (w.start +ℤ w.end) && leb_ℤ (w.start +ℤ w.end) (t1 +ℤ t1) in
    strip (join_space (map (λ w. strip w.text) (filter inside words)))

-- What is said in the window of an utterance.
unfoldable pub said : Dict (List Word) → Utterance → String
said words u = words_in (get_or (lookup u.channel words) []) u.t_start u.t_end

abbrev pub utterance_le : Utterance → Utterance → Bool
utterance_le a b = leb_ℤ a.t_start b.t_start

module _ ⦃c : Conversions⦄ where
  -- The turn of a pending caller text with its end, and of an agent's text with its start.
  unfoldable pub spoken_turn : ℕ → Option (String × ℤ) → Option (String × ℤ) → Turn
  spoken_turn n caller agent = record {
    turn_index = pos n;
    turn_id = append "t" (c.repr (Value.int (pos n)));
    trigger = if is_some caller then "endpoint" else "opening";
    audio_start_s = elim caller [ none ↦ none | some (text, end) ↦ some end ];
    audio_end_s = none;
    stt_final_at = none;
    committed_at = none;
    llm_first_token_at = none;
    tts_start_at = none;
    tts_first_audio_at = none;
    audio_out_start_s = elim agent [ none ↦ none | some (text, start) ↦ some start ];
    tts_span_present = false;
    response_latency_ms = none;
    stt_lag_ms = none;
    endpointing_ms = none;
    llm_ttft_ms = none;
    assembly_ms = none;
    dispatch_ms = none;
    tts_ttfb_ms = none;
    playout_ms = none;
    unattributed_ms = none;
    llm_ttft_reported_ms = none;
    tts_ttfb_reported_ms = none;
    language = none;
    stt_confidence = none;
    tokens_in = none;
    tokens_out = none;
    tokens_cached = none;
    finish_reason = none;
    tts_chars = none;
    tts_chars_cut = none;
    tts_cancelled = false;
    cut_reason = none;
    interrupted = false;
    interruption_probability = none;
    e2e_latency_ms = none;
    abandoned = false;
    transcript = elim caller [ none ↦ none | some (text, end) ↦ some (Value.text text) ];
    llm_raw = none;
    llm_spoken = elim agent [ none ↦ none | some (text, start) ↦ some (Value.text text) ];
  }

  -- The loop, with the index and the pending caller's text, and the trailing turn after it.
  unfoldable pub turns_from :
      Dict (List Word) → ℕ → Option (String × ℤ) → List Utterance → List Turn
  turns_from words n none [] = []
  turns_from words n (some p) [] = spoken_turn n (some p) none ∷ []
  turns_from words n pending (u ∷ us) =
      let text = said words u in
      let skipped = turns_from words n pending us in
      let opened = turns_from words n (some (text, u.t_end)) us in
      let answered = turns_from words (n + 1) none us in
      if not (truthy text)
      then skipped
      else if str_eq u.channel "caller"
      then opened
      else if str_eq u.channel "agent"
      then spoken_turn n pending (some (text, u.t_start)) ∷ answered
      else skipped

  -- `build_turns`
  unfoldable pub build_turns : List Utterance → Dict (List Word) → List Turn
  build_turns utterances words = turns_from words 0 none (sort_by utterance_le utterances)
