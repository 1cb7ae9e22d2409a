-- ===== src/Calculator/Read.antt =====
-- The readers of src/voiceobs/core/calculator.py: one clock, latencies, attributes and content. With
-- times in ten-thousandths of a second the program's roundings to four decimals of a second and to
-- one decimal of a millisecond change nothing.
use actioneer_pulse.Common.{
  Bool, true, false, String, Option, none, some, List, [], ◌∷◌, ◌&&◌, ◌||◌, filter, filter_map,
  flat_map, first_some, if◌then◌else◌, str_eq, opt_eq,
}
use actioneer_pulse.Common.Int.{ℤ, ◌-ℤ◌, leb_ℤ, max_ℤ, min_ℤ}
use Prim.Native.String.{◌++◌ as append}
use actioneer_pulse.Common.Dict.{lookup}
use actioneer_pulse.Model.{Stage, stage_eq, Span, SpanEvent}
use actioneer_pulse.Model.Value.{Value, Conversions, present, truthy_value, str_of, float_of}

-- `_to_audio`
unfoldable pub to_audio : Option ℤ → ℤ → Option ℤ
to_audio none offset = none
to_audio (some t) offset = some (t -ℤ offset)

-- `_ms`
unfoldable pub ms : Option ℤ → Option ℤ → Option ℤ
ms none b = none
ms (some a) none = none
ms (some a) (some b) = if leb_ℤ a b then some (b -ℤ a) else none

-- `min(xs) if xs else None`, and `max`.
unfoldable pub earliest : List ℤ → Option ℤ
earliest [] = none
earliest (x ∷ xs) = elim (earliest xs) [ none ↦ some x | some y ↦ some (min_ℤ x y) ]

unfoldable pub latest : List ℤ → Option ℤ
latest [] = none
latest (x ∷ xs) = elim (latest xs) [ none ↦ some x | some y ↦ some (max_ℤ x y) ]

-- `_attr`: a null counts as absent.
unfoldable pub attr : List Span → String → Option Value
attr spans key = first_some (λ s. present (lookup key s.attrs)) spans

-- A content that is not empty.
pub filled : Option Value → Option Value
filled none = none
filled (some v) = elim (truthy_value v) [ true ↦ some v | false ↦ none ]

-- `_children`
unfoldable pub children : List Span → Option String → Stage → List Span
unfolding stage_eq
children spans turn_id stage =
    filter (λ s. opt_eq s.turn_id turn_id && stage_eq s.stage stage) spans

-- `e.attrs.get("turn.id") == turn_id`
pub names_turn : SpanEvent → Option String → Bool
names_turn e turn_id = elim (present (lookup "turn.id" e.attrs)) [
  | none ↦ opt_eq none turn_id
  | some (Value.text s) ↦ opt_eq (some s) turn_id
  | some other ↦ false
]

-- The time of the event, if it counts for this turn.
pub event_time : Span → String → Option String → SpanEvent → Option ℤ
unfolding names_turn
event_time s name turn_id e =
    if str_eq e.name name && (opt_eq s.turn_id turn_id || names_turn e turn_id) then e.t else none

-- `_first_event_t`
unfoldable pub first_event_t : List Span → String → Option String → Option ℤ
unfolding event_time earliest
first_event_t spans name turn_id =
    earliest (flat_map (λ s. filter_map (event_time s name turn_id) s.events) spans)

module _ ⦃c : Conversions⦄ where
  -- `_content`: a list is joined by blanks.
  pub content_text : Value → Value
  content_text (Value.items xs) = Value.text (join xs)
    where
      join : List String → String
      join [] = ""
      join (x ∷ []) = x
      join (x ∷ y ∷ ys) = append x (append " " (join (y ∷ ys)))
  content_text v = Value.text (str_of v)

  unfoldable pub content : List Span → String → Option Value
  unfolding filled content_text
  content spans kind = elim (first_some (λ s. filled (lookup kind s.content)) spans) [
    | none ↦ none
    | some v ↦ some (content_text v)
  ]

  -- `_sec_to_ms`: the grain of a second's fraction is the grain of a millisecond's.
  unfoldable pub sec_to_ms : Option Value → Option ℤ
  sec_to_ms v = float_of v

-- `_transcript`: `transcript or carried` of the first STT span.
unfoldable pub transcript : List Span → Option Value
unfolding filled
transcript [] = none
transcript (s ∷ rest) = elim (filled (lookup "transcript" s.content)) [
  | some v ↦ some v
  | none ↦ present (lookup "carried" s.content)
]
