-- ===== src/Process/Run/Tests.antt =====
-- A LiveKit call that is processed twice.
use actioneer_pulse.Common.{String, Option, none, some, false, [], ◌∷◌, refl}
use actioneer_pulse.Common.Int.{ℤ, pos, negsuc}
use actioneer_pulse.Frameworks.Otlp.{Payload}
use actioneer_pulse.Frameworks.Livekit.{Metrics}
use actioneer_pulse.Ingest.{Codec, RawFragment}
use actioneer_pulse.Process.Tests.{sent_span, call, tables, no_numbers}
use actioneer_pulse.Process.Run.{Given, process}
use actioneer_pulse.Process.Run.Settles.{Settles, process-again}

abbrev session : Payload
session =
    record {
      resource = none;
      scope_spans =
          (record (sent_span "s" (some 90000)) { name = "agent_session" }
            ∷ record (sent_span "u" (some 50000)) { name = "user_turn"; parent_span_id = some "s" }
            ∷ [])
          ∷ [];
    }
    ∷ []

abbrev gzip : Codec
gzip = record { pack = λ p. ""; unpack = λ t. some session }

abbrev arrived : RawFragment
arrived = record { call_id = some "c"; batch_id = "b"; seq = 0; received_at = 1; payload = "1" }

abbrev given : Given
given = record {
  pricing = [];
  header = λ t row. row;
  now = 7;
  config = record {
    vad_threshold_dbfs = negsuc 399999;
    turn_gap_s = pos 12000;
    dead_air_min_s = pos 30000;
    echo_gain_min = pos 3000;
    peaks_per_second = 20;
    energy_frame_ms = pos 200000;
    clip_dbfs = negsuc 999;
    partial_coverage_threshold = pos 9500;
  };
  audio_enabled = false;
  audio = none;
  t0_offset = none;
  report = λ a. none;
}

abbrev unread : String → Option Metrics
unread s = none

abbrev exact : ℤ → ℤ
exact t = t

process-again_example :
    Settles "c"
      (process ⦃c = no_numbers⦄ unread exact gzip given none (arrived ∷ []))
      (process ⦃c = no_numbers⦄ unread exact gzip given none (arrived ∷ []) (call, tables))
process-again_example =
    process-again ⦃c = no_numbers⦄ unread exact gzip given (λ t row. refl) none (arrived ∷ []) call
      tables
