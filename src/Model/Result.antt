-- ===== src/Model/Result.antt =====
-- `Turn`, `MetricValue`, `TrustReport` and `Analysis` of src/voiceobs/core/model.py.
use actioneer_pulse.Common.{Bool, String, Option, List, ℕ}
use actioneer_pulse.Common.Int.{ℤ}
use actioneer_pulse.Common.Dict.{Dict}
use actioneer_pulse.Model.Value.{Value}

pub data TrustReason : Type 0 where
  telemetry_truncated trace_missing trace_not_applicable audio_missing audio_disabled : TrustReason
  artifact_missing audio_partial producer_schema_unsupported gate_timeout : TrustReason
  timing_missing turns_derived : TrustReason

pub record Turn : Type 0 where
  pub turn_index : ℤ
  pub turn_id : String
  pub trigger : String
  pub audio_start_s : Option ℤ
  pub audio_end_s : Option ℤ
  pub stt_final_at : Option ℤ
  pub committed_at : Option ℤ
  pub llm_first_token_at : Option ℤ
  pub tts_start_at : Option ℤ
  pub tts_first_audio_at : Option ℤ
  pub audio_out_start_s : Option ℤ
  pub tts_span_present : Bool
  pub response_latency_ms : Option ℤ
  pub stt_lag_ms : Option ℤ
  pub endpointing_ms : Option ℤ
  pub llm_ttft_ms : Option ℤ
  pub assembly_ms : Option ℤ
  pub dispatch_ms : Option ℤ
  pub tts_ttfb_ms : Option ℤ
  pub playout_ms : Option ℤ
  pub unattributed_ms : Option ℤ
  pub llm_ttft_reported_ms : Option ℤ
  pub tts_ttfb_reported_ms : Option ℤ
  pub language : Option Value
  pub stt_confidence : Option ℤ
  pub tokens_in : Option ℤ
  pub tokens_out : Option ℤ
  pub tokens_cached : Option ℤ
  pub finish_reason : Option Value
  pub tts_chars : Option ℤ
  pub tts_chars_cut : Option ℤ
  pub tts_cancelled : Bool
  pub cut_reason : Option Value
  pub interrupted : Bool
  pub interruption_probability : Option ℤ
  pub e2e_latency_ms : Option ℤ
  pub abandoned : Bool
  pub transcript : Option Value
  pub llm_raw : Option Value
  pub llm_spoken : Option Value

-- The number of a metric: with one decimal (in tenths), with four (in ten-thousandths), or whole.
pub data Figure : Type 0 where
  tenths : ℤ → Figure
  decimal : ℤ → Figure
  whole : ℤ → Figure
  label : String → Figure

pub record MetricValue : Type 0 where
  pub name : String
  pub value : Option Figure
  pub samples : Option (List Figure)
  pub available : Bool
  pub reason : Option String

pub record TrustReport : Type 0 where
  pub reasons : List TrustReason
  pub capture_coverage : Dict ℤ
  pub clock_offset_s : Option ℤ
  pub clock_residual_ms : Option ℤ
  pub clock_residual_per_turn_ms : Option (List ℤ)
  pub barge_in_agreement : Option ℤ
  pub layers_run : List String
  pub span_dropped_events : ℤ
  pub unattributed_spans : ℕ

pub record Analysis : Type 0 where
  pub turns : List Turn
  pub metrics : List MetricValue
  pub trust : TrustReport
  pub metric_version : ℕ
  pub adapter_version : ℕ
