-- ===== src/Model/Spans.antt =====
-- `Stage`, `SpanEvent`, `Span`, `CallHeader` and `Trace` of src/voiceobs/core/model.py.
use actioneer_pulse.Common.{Bool, String, Option, List, ℕ, ◌==◌}
use actioneer_pulse.Common.Int.{ℤ}
use actioneer_pulse.Common.Dict.{Dict}
use actioneer_pulse.Model.Value.{Value}

pub data Stage : Type 0 where
  call turn speech stt llm tts playout tool net unknown : Stage

abbrev stage_code : Stage → ℕ
stage_code Stage.call = 0
stage_code Stage.turn = 1
stage_code Stage.speech = 2
stage_code Stage.stt = 3
stage_code Stage.llm = 4
stage_code Stage.tts = 5
stage_code Stage.playout = 6
stage_code Stage.tool = 7
stage_code Stage.net = 8
stage_code Stage.unknown = 9

-- `a is b`
unfoldable pub stage_eq : Stage → Stage → Bool
stage_eq a b = stage_code a == stage_code b

pub record SpanEvent : Type 0 where
  pub name : String
  pub t : Option ℤ
  pub attrs : Dict Value
  pub content : Dict Value

pub record Span : Type 0 where
  pub span_id : String
  pub parent_span_id : Option String
  pub name : String
  pub stage : Stage
  pub t_start : Option ℤ
  pub t_end : Option ℤ
  pub sequence : Option ℤ
  pub turn_id : Option String
  pub error : Bool
  pub attrs : Dict Value
  pub content : Dict Value
  pub events : List SpanEvent

-- Wall-clock moments are numbers of the same grain; counters are whole numbers.
pub record CallHeader : Type 0 where
  pub call_id : String
  pub source : String
  pub environment : String
  pub started_at : Option ℤ
  pub engine : Option String
  pub carrier : Option String
  pub stt_provider : Option String
  pub llm_provider : Option String
  pub llm_model : Option String
  pub tts_provider : Option String
  pub voice : Option String
  pub template_sha256 : Option String
  pub ended_at : Option ℤ
  pub labels : Dict Value
  pub counters : Dict ℤ

pub record Trace : Type 0 where
  pub header : CallHeader
  pub spans : List Span
