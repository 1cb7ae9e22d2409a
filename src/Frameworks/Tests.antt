-- ===== src/Frameworks/Tests.antt =====
-- The walk to a turn at concrete inputs.
use actioneer_pulse.Common.{
  false, String, Option, none, some, List, [], ◌∷◌, ◌≡◌, refl, suc, length, str_eq,
}
use actioneer_pulse.Common.Dict.{lookup, insert}
use actioneer_pulse.Common.Int.{pos, pos_part, neg_part}
use actioneer_pulse.Model.{Stage, Span, stage_eq}
use actioneer_pulse.Frameworks.Livekit.{preceding_turn_id, last_turn}
use actioneer_pulse.Frameworks.Generic.{by_id, turn_of, parent_of}
use actioneer_pulse.Frameworks.Generic.Ancestors.{Answers, turn_of-NearestTurn}

abbrev span : String → Option String → Stage → Span
span id parent stage = record {
  span_id = id;
  parent_span_id = parent;
  name = "span";
  stage = stage;
  t_start = some (pos 0);
  t_end = none;
  sequence = none;
  turn_id = none;
  error = false;
  attrs = [];
  content = [];
  events = [];
}

abbrev spans : List Span
spans =
    span "t" (some "r") Stage.turn
    ∷ span "c" (some "t") Stage.stt
    ∷ span "x" (some "y") Stage.llm
    ∷ span "y" (some "x") Stage.tts
    ∷ []

turn_of-NearestTurn_example :
    (a : Option String) × (turn_of
        (by_id [] spans)
        (suc (length spans))
        []
        (some (span "c" (some "t") Stage.stt))
      ≡ some a)
    × Answers (by_id [] spans) (span "c" (some "t") Stage.stt) a
unfolding str_eq
turn_of-NearestTurn_example = turn_of-NearestTurn spans (span "c" (some "t") Stage.stt) refl

-- A span under a turn, and two in a circle.
walked :
    (turn_of (by_id [] spans) 5 [] (some (span "c" (some "t") Stage.stt)) ≡ some (some "t"))
    × (turn_of (by_id [] spans) 5 [] (some (span "x" (some "y") Stage.llm)) ≡ some none)
unfolding turn_of by_id parent_of lookup insert str_eq stage_eq
walked = (refl, refl)

-- An agent's turn before every user turn is given the id of the last user turn.
greeting :
    preceding_turn_id
      (pos 1)
      (record (span "u1" none Stage.turn) { t_start = some (pos 10) })
      (record (span "u2" none Stage.turn) { t_start = some (pos 20) } ∷ [])
    ≡ "u2"
unfolding preceding_turn_id last_turn pos_part neg_part str_eq
greeting = refl
