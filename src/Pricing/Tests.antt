-- ===== src/Pricing/Tests.antt =====
-- The price of one call.
use actioneer_pulse.Common.{some}
use actioneer_pulse.Pricing.{Usage}

abbrev usage : Usage
usage = record {
  llm_model = some "gpt-4o";
  stt_model = some "nova-2";
  tts_model = some "unlisted";
  tokens_in = some 1000;
  tokens_out = some 200;
  tokens_cached = some 400;
  tts_chars = some 900;
  stt_seconds = some 1200000;
}
