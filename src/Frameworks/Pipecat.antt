-- ===== src/Frameworks/Pipecat.antt =====
-- src/voiceobs/frameworks/pipecat/adapter.py.
use actioneer_pulse.Common.{
  Bool, true, not, String, none, some, [], ◌∷◌, ◌&&◌, any, is_some, str_eq, if◌then◌else◌,
}
use actioneer_pulse.Common.Dict.{Dict, lookup, insert, remove}
use actioneer_pulse.Model.{Stage, stage_eq}
use actioneer_pulse.Model.Value.{Value, Conversions}
use actioneer_pulse.Frameworks.Otlp.{Payload, iter_spans}
use actioneer_pulse.Frameworks.Generic.{Dialect}

abbrev pub pipecat_stages : Dict Stage
pipecat_stages =
    ("conversation", Stage.call)
    ∷ ("turn", Stage.turn)
    ∷ ("stt", Stage.stt)
    ∷ ("llm", Stage.llm)
    ∷ ("llm_setup", Stage.llm)
    ∷ ("llm_response", Stage.llm)
    ∷ ("llm_tool_call", Stage.tool)
    ∷ ("llm_tool_result", Stage.tool)
    ∷ ("tts", Stage.tts)
    ∷ []

abbrev pub pipecat_aliases : Dict String
pipecat_aliases =
    ("turn.number", "turn.index")
    ∷ ("turn.was_interrupted", "turn.interrupted")
    ∷ ("language", "stt.language")
    ∷ ("metrics.character_count", "tts.chars")
    ∷ ("gen_ai.usage.cache_read.input_tokens", "gen_ai.usage.cached_tokens")
    ∷ []

-- `derive`: on an LLM span the first response is the first token.
unfoldable pub pipecat_derive : Dict Value → Stage → Dict Value
unfolding stage_eq
pipecat_derive attrs stage = elim (lookup "metrics.ttfb" attrs) [
  | none ↦ attrs
  | some v ↦
      if stage_eq stage Stage.llm && not (is_some (lookup "metrics.ttft" attrs))
      then insert "metrics.ttft" v (remove "metrics.ttfb" attrs)
      else attrs
]

abbrev pub pipecat : Dialect
pipecat = record {
  name = "pipecat";
  service_name = none;
  stages = pipecat_stages;
  attr_aliases = pipecat_aliases;
  content_prefix = "voice.content.";
  content_keys = λ stage. [];
  content_attrs = ("transcript", "transcript") ∷ ("text", "llm_spoken") ∷ [];
  keep_prefixes = none;
  check_schema = λ resource. true;
  derive = pipecat_derive;
}

-- `matches`
unfoldable pub pipecat_matches : ⦃c : Conversions⦄ → Payload → Bool
unfolding iter_spans
pipecat_matches payload = any (λ row. str_eq row.1.name "conversation") (iter_spans payload)
