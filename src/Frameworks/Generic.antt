-- ===== src/Frameworks/Generic.antt =====
-- src/voiceobs/frameworks/generic.py: `OTLPAdapter`, whose class attributes and overridden methods
-- are the record `Dialect`. How nanoseconds round to the grain of a span's times is an argument.
pub mod Ancestors
use actioneer_pulse.Common.{
  Bool, true, false, not, String, Option, none, some, List, [], ◌∷◌, ◌++◌, ◌&&◌, ◌||◌, map, any,
  find, is_some, get_or, or_else, truthy?, elem, str_eq, if◌then◌else◌, ℕ, zero, suc, length,
}
use actioneer_pulse.Common.Int.{ℤ, pos, ◌-ℤ◌, leb_ℤ}
use actioneer_pulse.Common.Dict.{Dict, lookup, insert}
use actioneer_pulse.Common.Sort.{sort_by}
use actioneer_pulse.Common.Strings.{drop_prefix, holds_upper}
use actioneer_pulse.Model.{Stage, stage_eq, Span, SpanEvent, CallHeader, Trace}
use actioneer_pulse.Model.Value.{Value, Conversions, present, str_of, text_or}
use actioneer_pulse.Frameworks.Otlp.{OtlpSpan, Payload, attrs_to_dict, iter_spans, span_events}

-- `_span_errored`
unfoldable pub span_errored : OtlpSpan → Dict Value → List (String × ℕ × Dict Value) → Bool
unfolding holds_upper
span_errored s raw events =
    holds_upper "ERROR" s.status_code
    || is_some (present (lookup "error.type" raw))
    || any (λ e. str_eq e.0 "exception") events

-- `{s.span_id: s for s in spans}`
unfoldable pub by_id : Dict Span → List Span → Dict Span
by_id d [] = d
by_id d (s ∷ spans) = by_id (insert s.span_id s d) spans

-- `by_id.get(cur.parent_span_id) if cur.parent_span_id else None`
unfoldable pub parent_of : Dict Span → Span → Option Span
parent_of d s = elim (truthy? s.parent_span_id) [ none ↦ none | some id ↦ lookup id d ]

-- `cur.turn_id or cur.span_id`
abbrev pub own_turn : Span → String
own_turn s = get_or (truthy? s.turn_id) s.span_id

-- The loop of `turn_of`, on fuel: `none` is a loop that has not ended.
unfoldable pub turn_of : Dict Span → ℕ → List String → Option Span → Option (Option String)
turn_of d fuel seen none = some none
turn_of d zero seen (some cur) = none
turn_of d (suc fuel) seen (some cur) =
    let rest = turn_of d fuel (cur.span_id ∷ seen) (parent_of d cur) in
    if elem cur.span_id seen
    then some none
    else if stage_eq cur.stage Stage.turn
    then some (some (own_turn cur))
    else rest

-- The fuel is one step for each span, and one.
unfoldable pub attach : List Span → Span → Span
unfolding by_id
attach spans s = elim s.turn_id [
  | some id ↦ s
  | none ↦ elim (turn_of (by_id [] spans) (suc (length spans)) [] (some s)) [
    | none ↦ s
    | some none ↦ s
    | some (some id) ↦ record s { turn_id = some id }
  ]
]

-- `_propagate_turn_ids`
unfoldable pub propagate_turn_ids : List Span → List Span
propagate_turn_ids spans = map (attach spans) spans

-- `service_name`, `stages`, `attr_aliases`, `content_prefix`, `content_keys`, `content_attrs`,
-- `keep_prefixes`, `check_schema` (false raises UnsupportedSchema) and `derive` of an adapter.
pub record Dialect : Type 0 where
  pub name : String
  pub service_name : Option String
  pub stages : Dict Stage
  pub attr_aliases : Dict String
  pub content_prefix : String
  pub content_keys : Stage → Dict String
  pub content_attrs : Dict String
  pub keep_prefixes : Option (List String)
  pub check_schema : Dict Value → Bool
  pub derive : Dict Value → Stage → Dict Value

-- `key.startswith(keep_prefixes)`, where no allowlist keeps all.
unfoldable pub allowed : Option (List String) → String → Bool
unfolding drop_prefix
allowed none key = true
allowed (some prefixes) key = any (λ p. is_some (drop_prefix p key)) prefixes

-- `_keep`
unfoldable pub keep : Dialect → String → Bool
unfolding drop_prefix
keep d key = not (is_some (drop_prefix d.content_prefix key)) && allowed d.keep_prefixes key

-- The body of the loop of `_classify`, on (attrs, content).
unfoldable pub classify_one :
    Dialect → Dict String → String × Value → Dict Value × Dict Value → Dict Value × Dict Value
unfolding keep
classify_one d rename (k, v) (attrs, content) = elim (drop_prefix d.content_prefix k) [
  | some suffix ↦ (attrs, insert (get_or (lookup suffix rename) suffix) v content)
  | none ↦ elim (lookup k d.content_attrs) [
    | some kind ↦ (attrs, insert kind v content)
    | none ↦
        if keep d k
        then (insert (get_or (lookup k d.attr_aliases) k) v attrs, content)
        else (attrs, content)
  ]
]

unfoldable pub classify_from :
    Dialect → Dict String → Dict Value → Dict Value × Dict Value → Dict Value × Dict Value
classify_from d rename [] split = split
classify_from d rename (kv ∷ flat) split =
    classify_from d rename flat (classify_one d rename kv split)

-- `_classify`
unfoldable pub classify : Dialect → Dict Value → Stage → Dict Value × Dict Value
unfolding classify_from
classify d flat stage =
    let (attrs, content) = classify_from d (d.content_keys stage) flat ([], []) in
    (d.derive attrs stage, content)

module _ ⦃c : Conversions⦄ (d : Dialect) (grain : ℤ → ℤ) where
  abbrev since : ℕ → ℕ → ℤ
  since t0 t = grain (pos t -ℤ pos t0)

  -- `_event`
  unfoldable pub event : ℕ → String × ℕ × Dict Value → SpanEvent
  unfolding classify
  event t0 (name, ts, flat) =
      let (attrs, content) = classify d flat Stage.unknown in
      record { name = name; t = some (since t0 ts); attrs = attrs; content = content }

  -- `_span`; a turn id is a text.
  unfoldable pub span : ℕ → OtlpSpan → Span
  unfolding classify span_errored event
  span t0 s =
      let stage = get_or (lookup s.name d.stages) Stage.unknown in
      let raw = attrs_to_dict s.attributes in
      let (attrs, content) = classify d raw stage in
      let events = span_events s in
      record {
        span_id = s.span_id;
        parent_span_id = truthy? s.parent_span_id;
        name = s.name;
        stage = stage;
        t_start = some (since t0 s.start_time);
        t_end = elim s.end_time [ none ↦ none | some t ↦ some (since t0 t) ];
        sequence = none;
        turn_id = elim (present (lookup "turn.id" attrs)) [
          | none ↦ none
          | some v ↦ some (str_of v)
        ];
        error = span_errored s raw events;
        attrs = attrs;
        content = content;
        events = map (event t0) events;
      }

  -- `header`
  unfoldable pub header : OtlpSpan → Dict Value → CallHeader
  header root resource = record {
    call_id = get_or root.trace_id "";
    source = text_or (lookup "service.name" resource) d.name;
    environment = text_or (lookup "deployment.environment" resource) "prod";
    started_at = some (grain (pos root.start_time));
    engine = none;
    carrier = none;
    stt_provider = none;
    llm_provider = none;
    llm_model = none;
    tts_provider = none;
    voice = none;
    template_sha256 = none;
    ended_at = elim root.end_time [ none ↦ none | some t ↦ some (grain (pos t)) ];
    labels = [];
    counters = [];
  }

  abbrev pub is_root : Dict Value × OtlpSpan → Bool
  is_root row = not (is_some (truthy? row.1.parent_span_id))

  -- All spans of `to_trace` have a start.
  abbrev starts_le : Span → Span → Bool
  starts_le a b = leb_ℤ (get_or a.t_start (pos 0)) (get_or b.t_start (pos 0))

  abbrev first_resource : List (Dict Value × OtlpSpan) → Dict Value
  first_resource [] = []
  first_resource (row ∷ rows) = row.0

  -- `to_trace`: no result is UnsupportedSchema.
  unfoldable pub to_trace : Payload → Option Trace
  unfolding iter_spans propagate_turn_ids span header sort_by
  to_trace payload =
      let rows = iter_spans payload in
      let resource = first_resource rows in
      if d.check_schema resource
      then elim (find is_root rows) [
        | none ↦ none
        | some (attrs, root) ↦ some (record {
          header = header root resource;
          spans =
              propagate_turn_ids (sort_by starts_le (map (λ row. span root.start_time row.1) rows));
        })
      ]
      else none

  abbrev is_text : String → Option Value → Bool
  is_text name (some (Value.text s)) = str_eq s name
  is_text name v = false

  -- `matches`
  unfoldable pub matches : Payload → Bool
  unfolding iter_spans
  matches payload = elim d.service_name [
    | none ↦ true
    | some name ↦ any (λ row. is_text name (lookup "service.name" row.0)) (iter_spans payload)
  ]
