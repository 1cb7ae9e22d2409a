-- ===== src/Calculator/Turns.antt =====
-- Which spans are turns, and in which order: `order_key`, `_turn_index` and `_turn_spans` of
-- src/voiceobs/core/calculator.py.
pub mod Order
pub mod OnePerTurn
use actioneer_pulse.Common.{
  Bool, true, false, not, String, Option, none, some, List, [], ◌∷◌, ◌&&◌, ◌||◌, map, filter,
  filter_map, if◌then◌else◌, same, elem, truthy?, get_or, ◌==◌, ltb, ℕ,
}
use actioneer_pulse.Common.Int.{ℤ, pos, leb_ℤ, ltb_ℤ, eqb_ℤ}
use actioneer_pulse.Common.Dict.{Dict, lookup, insert}
use actioneer_pulse.Common.Sort.{sort_by}
use actioneer_pulse.Model.{Stage, stage_eq, Span}
use actioneer_pulse.Model.Value.{Conversions, int_of}

-- `(0.0, t_start)`, or `(1.0, sequence)`, where no sequence is infinity.
pub data OrderKey : Type 0 where
  timed : ℤ → OrderKey
  untimed : Option ℤ → OrderKey

unfoldable pub order_key : Span → OrderKey
order_key s = elim s.t_start [ some t ↦ OrderKey.timed t | none ↦ OrderKey.untimed s.sequence ]

-- `<` on the tuples.
abbrev pub key_lt : OrderKey → OrderKey → Bool
key_lt (OrderKey.timed a) (OrderKey.timed b) = ltb_ℤ a b
key_lt (OrderKey.timed a) (OrderKey.untimed b) = true
key_lt (OrderKey.untimed a) (OrderKey.timed b) = false
key_lt (OrderKey.untimed none) (OrderKey.untimed b) = false
key_lt (OrderKey.untimed (some a)) (OrderKey.untimed none) = true
key_lt (OrderKey.untimed (some a)) (OrderKey.untimed (some b)) = ltb_ℤ a b

abbrev pub key_le : OrderKey → OrderKey → Bool
key_le a b = not (key_lt b a)

abbrev pub span_le : Span → Span → Bool
span_le a b = key_le (order_key a) (order_key b)

-- `s.turn_id or s.span_id`
abbrev pub turn_key : Span → String
turn_key s = get_or (truthy? s.turn_id) s.span_id

-- `caller_side`: the parents of the STT and SPEECH spans.
unfoldable pub caller_side : List Span → List String
unfolding stage_eq
caller_side spans =
    filter_map
      (λ s.
        if stage_eq s.stage Stage.stt || stage_eq s.stage Stage.speech
        then s.parent_span_id
        else none)
      spans

-- Whether the new span takes the place of the best one so far.
unfoldable pub takes_over : List String → Span → Span → Bool
takes_over side s cur =
    let primary = elem s.span_id side in
    let held = elem cur.span_id side in
    (primary && not held) || (same primary held && key_lt (order_key s) (order_key cur))

-- One round of the loop.
unfoldable pub keep_best : List String → Dict Span → Span → Dict Span
keep_best side best s = elim (lookup (turn_key s) best) [
  | none ↦ insert (turn_key s) s best
  | some cur ↦ if takes_over side s cur then insert (turn_key s) s best else best
]

-- The loop over the TURN spans.
unfoldable pub best_spans : List String → Dict Span → List Span → Dict Span
best_spans side best [] = best
best_spans side best (s ∷ spans) = best_spans side (keep_best side best s) spans

module _ ⦃c : Conversions⦄ where
  -- `_turn_index`
  unfoldable pub turn_index : Span → ℤ → ℤ
  unfolding int_of
  turn_index s default = get_or (int_of (lookup "turn.index" s.attrs)) default

  abbrev pub by_index : Span → Span → Bool
  by_index a b =
      let i = turn_index a (pos 1_000_000_000) in
      let j = turn_index b (pos 1_000_000_000) in ltb_ℤ i j || (eqb_ℤ i j && span_le a b)

  -- `_turn_spans`
  unfoldable pub turn_spans : List Span → List Span
  turn_spans spans =
      let turns = filter (λ s. stage_eq s.stage Stage.turn) spans in
      sort_by by_index (map (λ e. e.1) (best_spans (caller_side spans) [] turns))
