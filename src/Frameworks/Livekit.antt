-- ===== src/Frameworks/Livekit.antt =====
-- src/voiceobs/frameworks/livekit/adapter.py. `json.loads` of a metrics blob is an argument: the
-- object, with the model that its metadata names, or none for a ValueError.
pub mod Paired
use actioneer_pulse.Common.{
  Bool, true, false, String, Option, none, some, List, [], ◌∷◌, ◌&&◌, any, filter, map, elem,
  is_some, get_or, or_else, nonempty, truthy?, str_eq, if◌then◌else◌, ℕ, zero, suc, length,
}
use actioneer_pulse.Common.Int.{ℤ, pos, leb_ℤ}
use actioneer_pulse.Common.Dict.{Dict, lookup, insert, remove}
use actioneer_pulse.Common.Sort.{sort_by}
use actioneer_pulse.Model.{Stage, Span, Trace}
use actioneer_pulse.Model.Value.{Value, Conversions, present}
use actioneer_pulse.Frameworks.Otlp.{Payload, iter_spans}
use actioneer_pulse.Frameworks.Generic.{
  Dialect, by_id, parent_of, own_turn, propagate_turn_ids, to_trace,
}

abbrev pub llm_metrics : Dict String
llm_metrics =
    ("ttft", "metrics.ttft")
    ∷ ("completion_tokens", "gen_ai.usage.output_tokens")
    ∷ ("prompt_tokens", "gen_ai.usage.input_tokens")
    ∷ ("prompt_cached_tokens", "gen_ai.usage.cached_tokens")
    ∷ ("total_tokens", "llm.total_tokens")
    ∷ ("tokens_per_second", "llm.tokens_per_second")
    ∷ ("duration", "llm.duration_s")
    ∷ ("cancelled", "llm.cancelled")
    ∷ []

abbrev pub tts_metrics : Dict String
tts_metrics =
    ("ttfb", "metrics.ttfb")
    ∷ ("characters_count", "tts.chars")
    ∷ ("audio_duration", "tts.audio_duration_s")
    ∷ ("duration", "tts.duration_s")
    ∷ ("input_tokens", "tts.input_tokens")
    ∷ ("output_tokens", "tts.output_tokens")
    ∷ ("streamed", "tts.streamed")
    ∷ ("cancelled", "tts.cancelled")
    ∷ []

abbrev pub livekit_stages : Dict Stage
livekit_stages =
    ("agent_session", Stage.call)
    ∷ ("start_agent_activity", Stage.call)
    ∷ ("on_enter", Stage.call)
    ∷ ("on_exit", Stage.call)
    ∷ ("drain_agent_activity", Stage.call)
    ∷ ("user_turn", Stage.turn)
    ∷ ("agent_turn", Stage.turn)
    ∷ ("user_speaking", Stage.speech)
    ∷ ("agent_speaking", Stage.playout)
    ∷ ("eou_detection", Stage.stt)
    ∷ ("llm_request", Stage.llm)
    ∷ ("llm_request_run", Stage.llm)
    ∷ ("llm_node", Stage.llm)
    ∷ ("tts_node", Stage.tts)
    ∷ ("tts_request", Stage.tts)
    ∷ ("tts_request_run", Stage.tts)
    ∷ ("tts_stream_adapter", Stage.tts)
    ∷ ("function_tool", Stage.tool)
    ∷ []

abbrev pub livekit_aliases : Dict String
livekit_aliases =
    ("lk.interrupted", "turn.interrupted")
    ∷ ("lk.interruption.probability", "turn.interruption_probability")
    ∷ ("lk.response.ttft", "metrics.ttft")
    ∷ ("lk.response.ttfb", "metrics.ttfb")
    ∷ ("lk.e2e_latency", "metrics.e2e_latency")
    ∷ ("lk.end_of_turn_delay", "endpointing.delay")
    ∷ ("lk.transcript_confidence", "stt.confidence")
    ∷ ("gen_ai.request.model", "gen_ai.request.model")
    ∷ []

-- `attrs.get(k) is None`
abbrev pub missing : String → Dict Value → Bool
missing k attrs = elim (present (lookup k attrs)) [ none ↦ true | some v ↦ false ]

-- The loop over the mapping: a value that is there fills a key that is not.
unfoldable pub fill : Dict Value → Dict String → Dict Value → Dict Value
fill m [] attrs = attrs
fill m ((src, dst) ∷ mapping) attrs = fill m mapping (elim (present (lookup src m)) [
  | none ↦ attrs
  | some v ↦ if missing dst attrs then insert dst v attrs else attrs
])

-- An object of metrics, and the model's name in its metadata.
abbrev pub Metrics : Type 0
Metrics = Dict Value × Option String

module _ (loads : String → Option Metrics) where
  -- `_expand`
  unfoldable pub expand : String → Dict String → Dict Value → Dict Value
  unfolding fill
  expand key mapping attrs = elim (lookup key attrs) [
    | none ↦ attrs
    | some (Value.text raw) ↦ elim (loads raw) [
      | none ↦ insert key (Value.text raw) (remove key attrs)
      | some (m, model) ↦
          let filled = fill m mapping (remove key attrs) in
          elim (truthy? model) [
            | none ↦ filled
            | some name ↦
                if missing "gen_ai.request.model" filled
                then insert "gen_ai.request.model" (Value.text name) filled
                else filled
          ]
    ]
    | some v ↦ remove key attrs
  ]

  unfoldable pub livekit_derive : Dict Value → Stage → Dict Value
  unfolding expand
  livekit_derive attrs stage =
      expand "lk.tts_metrics" tts_metrics (expand "lk.llm_metrics" llm_metrics attrs)

  abbrev pub livekit : Dialect
  livekit = record {
    name = "livekit";
    service_name = none;
    stages = livekit_stages;
    attr_aliases = livekit_aliases;
    content_prefix = "voice.content.";
    content_keys = λ stage. [];
    content_attrs =
        ("lk.pii.user_transcript", "transcript") ∷ ("lk.pii.response.text", "llm_spoken") ∷ [];
    keep_prefixes = none;
    check_schema = λ resource. true;
    derive = livekit_derive;
  }

-- All spans of a trace of this adapter have a start.
abbrev pub start_of : Span → ℤ
start_of s = get_or s.t_start (pos 0)

abbrev pub starts_le : Span → Span → Bool
starts_le a b = leb_ℤ (start_of a) (start_of b)

unfoldable pub user_turns : List Span → List Span
unfolding sort_by
user_turns spans = sort_by starts_le (filter (λ s. str_eq s.name "user_turn") spans)

-- `prior[-1]` of a list that starts with u.
unfoldable pub last_turn : Span → List Span → Span
last_turn u [] = u
last_turn u (v ∷ turns) = last_turn v turns

-- `[u for u in user_turns if u.t_start <= t_start]`
abbrev pub prior : ℤ → List Span → List Span
prior t turns = filter (λ u. leb_ℤ (start_of u) t) turns

-- `preceding_turn_id`, for user turns that start with u.
unfoldable pub preceding_turn_id : ℤ → Span → List Span → String
unfolding last_turn
preceding_turn_id t u turns = elim (prior t (u ∷ turns)) [
  | [] ↦ own_turn (last_turn u turns)
  | v ∷ rest ↦ own_turn (last_turn v rest)
]

-- The loop of `agent_turn_of`, on fuel: `none` is a loop that has not ended.
unfoldable pub agent_turn_of :
    Dict Span → List String → ℕ → List String → Option Span → Option (Option Span)
agent_turn_of d roots fuel seen none = some none
agent_turn_of d roots zero seen (some cur) = none
agent_turn_of d roots (suc fuel) seen (some cur) =
    let rest = agent_turn_of d roots fuel (cur.span_id ∷ seen) (parent_of d cur) in
    if elem cur.span_id seen
    then some none
    else if elem cur.span_id roots
    then some (some cur)
    else rest

-- The ids of the agent's turns.
abbrev pub agent_roots : List Span → List String
agent_roots spans = map (λ s. s.span_id) (filter (λ s. str_eq s.name "agent_turn") spans)

-- The body of the last loop, for user turns that start with u.
unfoldable pub pair_one : List Span → Span → List Span → Span → Span
unfolding agent_turn_of by_id preceding_turn_id
pair_one spans u turns s =
    elim (agent_turn_of (by_id [] spans) (agent_roots spans) (suc (length spans)) [] (some s)) [
      | none ↦ s
      | some none ↦ s
      | some (some root) ↦ record s { turn_id = some (preceding_turn_id (start_of root) u turns) }
    ]

-- `_pair_agent_turns`
unfoldable pub pair_agent_turns : List Span → List Span
unfolding user_turns pair_one propagate_turn_ids
pair_agent_turns spans = elim (user_turns spans) [
  | [] ↦ spans
  | u ∷ turns ↦ propagate_turn_ids (map (pair_one spans u turns) spans)
]

module _ ⦃c : Conversions⦄ where
  -- `matches`
  unfoldable pub livekit_matches : Payload → Bool
  unfolding iter_spans
  livekit_matches payload = any (λ row. str_eq row.1.name "agent_session") (iter_spans payload)

  -- `to_trace`
  unfoldable pub livekit_trace : (String → Option Metrics) → (ℤ → ℤ) → Payload → Option Trace
  unfolding to_trace pair_agent_turns
  livekit_trace loads grain payload = elim (to_trace (livekit loads) grain payload) [
    | none ↦ none
    | some trace ↦ some (record trace { spans = pair_agent_turns trace.spans })
  ]
