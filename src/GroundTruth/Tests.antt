-- ===== src/GroundTruth/Tests.antt =====
-- Ground truth at concrete inputs.
use actioneer_pulse.Common.{
  true, false, String, Option, none, some, [], ◌∷◌, ◌≡◌, refl, ◌≤◌, length, str_eq,
}
use actioneer_pulse.Common.Int.{pos, pos_part, neg_part, ◌-ℤ◌, round_quot}
use actioneer_pulse.Common.Strings.{join, strip, strip_left, strip_right, take_text}
use actioneer_pulse.Model.{Turn}
use actioneer_pulse.Model.Value.{Value}
use actioneer_pulse.GroundTruth.{
  default_policy, material_of, reconcile, timing, timed, onset, magnitude, transcript_check,
  channel, heard, compared, caller_ref, agent_ref, rounded_wer,
}
use actioneer_pulse.GroundTruth.Words.{
  Word, word_eq, distance, wer, normalize, lower_text, scan_words, rows_from, next_row, fill_row,
  cost, range_from, last,
}
use actioneer_pulse.GroundTruth.Words.Edits.{Script, price, distance-Script}

abbrev turn : Turn
turn = record {
  turn_index = pos 1;
  turn_id = "t1";
  trigger = "endpoint";
  audio_start_s = none;
  audio_end_s = none;
  stt_final_at = none;
  committed_at = none;
  llm_first_token_at = none;
  tts_start_at = none;
  tts_first_audio_at = some (pos 10000);
  audio_out_start_s = some (pos 15000);
  tts_span_present = true;
  response_latency_ms = none;
  stt_lag_ms = none;
  endpointing_ms = none;
  llm_ttft_ms = none;
  assembly_ms = none;
  dispatch_ms = none;
  tts_ttfb_ms = none;
  playout_ms = none;
  unattributed_ms = none;
  llm_ttft_reported_ms = none;
  tts_ttfb_reported_ms = none;
  language = none;
  stt_confidence = none;
  tokens_in = none;
  tokens_out = none;
  tokens_cached = none;
  finish_reason = none;
  tts_chars = none;
  tts_chars_cut = none;
  tts_cancelled = false;
  cut_reason = none;
  interrupted = false;
  interruption_probability = none;
  e2e_latency_ms = none;
  abandoned = false;
  transcript = some (Value.text "Hello, world");
  llm_raw = none;
  llm_spoken = none;
}

abbrev stt : String → Option String
stt wav = some wav

-- Both checks find a delta outside the band.
surfaced :
    length (material_of (reconcile (turn ∷ []) (some "hello word") none (some stt) default_policy))
    ≡ 2
unfolding material_of reconcile timing timed onset magnitude pos_part neg_part ◌-ℤ◌ transcript_check
    channel heard compared caller_ref agent_ref rounded_wer round_quot wer normalize lower_text
    scan_words distance rows_from next_row fill_row cost range_from last join strip strip_left
    strip_right take_text str_eq
surfaced = refl

abbrev a : Word
a = 97 ∷ []

abbrev b : Word
b = 98 ∷ []

distance-Script_example :
    ((s : Script word_eq (a ∷ b ∷ []) (b ∷ [])) × (price word_eq s
        ≡ distance word_eq (a ∷ b ∷ []) (b ∷ [])))
    × ((t : Script word_eq (a ∷ b ∷ []) (b ∷ []))
        → distance word_eq (a ∷ b ∷ []) (b ∷ []) ≤ price word_eq t)
distance-Script_example = distance-Script word_eq (a ∷ b ∷ []) (b ∷ [])

counted : wer "Hello, brave world!" "hello world again" ≡ record { errors = 2; words = 3 }
unfolding wer normalize lower_text scan_words distance rows_from next_row fill_row cost range_from
    last
counted = refl
