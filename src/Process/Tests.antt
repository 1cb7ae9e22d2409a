-- ===== src/Process/Tests.antt =====
-- Processing at concrete inputs.
use actioneer_pulse.Common.{
  false, String, Option, none, some, [], ◌∷◌, ◌≡◌, ◌≢◌, refl, ◌≤◌, count, map, filter, str_eq,
  str_eq_iff, if◌then◌else◌, ℕ, arith,
}
use actioneer_pulse.Common.Int.{pos}
use actioneer_pulse.Common.Sort.{sort_by}
use actioneer_pulse.Calculator.Turns.{span_le}
use actioneer_pulse.Model.{Stage, Span, CallHeader, Trace, AudioAnalysis}
use actioneer_pulse.Model.Value.{Conversions}
use actioneer_pulse.Frameworks.Otlp.{OtlpSpan, Payload}
use actioneer_pulse.Ingest.{Codec}
use actioneer_pulse.Ingest.Shard.Partition.{exported}
use actioneer_pulse.Process.Assemble.{assemble}
use actioneer_pulse.Process.Assemble.Last.{has_id, last_of, sent, assemble-last}
use actioneer_pulse.Process.Rows.{event_rows}
use actioneer_pulse.Process.Rows.Dense.{IsDense, is_span, identity, identity_of, event_rows-IsDense}
use actioneer_pulse.Process.Rollup.{Call}
use actioneer_pulse.Process.Persist.{Tables, Listening}
use actioneer_pulse.Process.Persist.Again.{SameFor, written, write_rows-again}
use actioneer_pulse.Process.Listen.{Tools, ok, listen}

abbrev pub sent_span : String → Option ℕ → OtlpSpan
sent_span id ended = record {
  span_id = id;
  trace_id = some "t1";
  parent_span_id = none;
  name = "span";
  start_time = 0;
  end_time = ended;
  status_code = "";
  attributes = none;
  events = [];
}

abbrev first : Payload
first = record { resource = none; scope_spans = (sent_span "a" none ∷ []) ∷ [] } ∷ []

abbrev retried : Payload
retried =
    record {
      resource = none;
      scope_spans = (sent_span "b" none ∷ sent_span "a" (some 9) ∷ []) ∷ [];
    }
    ∷ []

abbrev codec : Codec
codec = record { pack = λ p. ""; unpack = λ t. some (if str_eq t "1" then first else retried) }

decoded : map codec.unpack ("1" ∷ "2" ∷ []) ≡ map some (first ∷ retried ∷ [])
unfolding str_eq
decoded = refl

assemble-last_example :
    (out : Payload) × (assemble codec ("1" ∷ "2" ∷ []) ≡ some out)
    × ((id : String)
        → (last_of id (exported out) ≡ last_of id (sent (first ∷ retried ∷ [])))
          × (count (has_id id) (exported out) ≤ 1))
assemble-last_example = assemble-last codec ("1" ∷ "2" ∷ []) (first ∷ retried ∷ []) decoded

abbrev span : String → Span
span id = record {
  span_id = id;
  parent_span_id = none;
  name = "turn";
  stage = Stage.turn;
  t_start = none;
  t_end = none;
  sequence = none;
  turn_id = none;
  error = false;
  attrs = [];
  content = [];
  events = record { name = "stt.final"; t = none; attrs = []; content = [] } ∷ [];
}

abbrev header : CallHeader
header = record {
  call_id = "c";
  source = "app";
  environment = "prod";
  started_at = none;
  engine = none;
  carrier = none;
  stt_provider = none;
  llm_provider = none;
  llm_model = none;
  tts_provider = none;
  voice = none;
  template_sha256 = none;
  ended_at = none;
  labels = [];
  counters = [];
}

abbrev trace : Trace
trace = record { header = header; spans = span "a" ∷ span "b" ∷ [] }

event_rows-IsDense_example :
    IsDense 0 (event_rows "c" trace)
    × (map identity_of (filter is_span (event_rows "c" trace))
        ≡ map identity (sort_by span_le trace.spans))
event_rows-IsDense_example = event_rows-IsDense "c" trace

abbrev pub tables : Tables
tables = record {
  turns = [];
  metrics = [];
  events = [];
  utterances = [];
  media =
      record {
        call_id = "c";
        kind = "audio";
        uri = some "s3://b/c.wav";
        peaks = none;
        sample_rate = none;
      }
      ∷ record {
        call_id = "d";
        kind = "peaks_caller";
        uri = none;
        peaks = some [];
        sample_rate = none;
      }
      ∷ [];
  discrepancies = [];
  runs = [];
}

abbrev audio : AudioAnalysis
audio = record {
  utterances = record { channel = "caller"; t_start = pos 0; t_end = pos 5 } ∷ [];
  peaks = ("caller", 1 ∷ []) ∷ [];
  energy = ("caller", 1 ∷ []) ∷ ("agent", []) ∷ [];
  coverage = [];
  quality = [];
}

distinct : ◌≢◌ {A = String} "c" "d"
unfolding str_eq
distinct e = ground (arith, (str_eq_iff "c" "d").1 e)

write_rows-again_example :
    (written "c" 2 [] [] trace
        (some audio)
        tables
        (written "c" 2 [] [] trace (some audio) tables tables)
      ≡ written "c" 2 [] [] trace (some audio) tables tables)
    × SameFor "d" (written "c" 2 [] [] trace (some audio) tables tables) tables
write_rows-again_example = write_rows-again "c" 2 [] [] trace (some audio) tables "d" distinct

abbrev pub no_numbers : Conversions
no_numbers = record { float_of_text = λ s. none; int_of_text = λ s. none; repr = λ v. "value" }

-- The store answers, and all is analysed.
abbrev tools : Tools
tools = record {
  fetch = λ uri. ok uri;
  combine = λ a b. ok a;
  layout = λ wav. ok "mono";
  analyze = λ wav rate separated. ok audio;
  metrics = λ a. ok [];
  diarize = λ wav. ok none;
  words = λ wav. ok [];
}

abbrev pub call : Call
call = record {
  id = "c";
  external_call_id = "x";
  agent_id = none;
  engine = none;
  stt_provider = none;
  llm_provider = none;
  tts_provider = none;
  tokens_in = none;
  tokens_out = none;
  tokens_cached = none;
  tts_chars = none;
  stt_seconds = none;
  cost = record { llm = none; stt = none; tts = none; total = none };
  cost_currency = none;
  unattributed_spans = none;
  span_dropped_events = none;
  metric_version = none;
  adapter_version = none;
  app_version = none;
  duration_s = none;
  status = "awaiting_media";
  analysis_mode = "audio-only";
  audio_layout = none;
  diarization_confidence = none;
  analysis_error = none;
  last_activity_at = none;
}

abbrev uncertain : Listening
uncertain = listen ⦃c = no_numbers⦄ tools false "c" tables.media
