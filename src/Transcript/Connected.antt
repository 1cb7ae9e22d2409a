-- ===== src/Transcript/Connected.antt =====
-- Which derived transcripts are connected calls.
use actioneer_pulse.Common.{
  Bool, true, false, String, Option, none, some, List, [], ◌∷◌, ◌||◌, any, any-append, flat_map,
  is_some, truthy, truthy?, str_eq, or_else, if◌then◌else◌, ◌≡◌, refl, ◌∙◌, arith, Bool-cases, inl,
  inr,
}
use actioneer_pulse.Common.Int.{ℤ}
use actioneer_pulse.Common.Sort.{sort_by, any-sort_by}
use actioneer_pulse.Transcript.{
  StoredTurn, index_le, line_of, turn_lines, derive_from_turns, resolve, CallOutcome,
  spoken_by_caller, caller_spoke, programmatic_disposition, is_connected,
}

abbrev pub caller_talks : StoredTurn → Bool
caller_talks t = is_some (truthy? t.caller_transcript)

caller_line :
    (index : ℤ) (text : Option String)
    → any spoken_by_caller (line_of index "caller" (truthy? text)) ≡ is_some (truthy? text)
unfolding str_eq
caller_line index none = refl
caller_line index (some text) = elim (Bool-cases (truthy text)) [
  | inl e ↦ ground (arith, e)
  | inr e ↦ ground (arith, e)
]

agent_line :
    (index : ℤ) (text : Option String) → any spoken_by_caller (line_of index "agent" text) ≡ false
unfolding str_eq
agent_line index none = refl
agent_line index (some text) = refl

any-turn_lines : (t : StoredTurn) → any spoken_by_caller (turn_lines t) ≡ caller_talks t
unfolding turn_lines
any-turn_lines t = ground (
  arith,
  any-append spoken_by_caller (line_of t.turn_index "caller" (truthy? t.caller_transcript))
      (line_of t.turn_index "agent" (or_else (truthy? t.llm_spoken) (truthy? t.llm_raw))),
  caller_line t.turn_index t.caller_transcript,
  agent_line t.turn_index (or_else (truthy? t.llm_spoken) (truthy? t.llm_raw)),
)

any-flat_map :
    (turns : List StoredTurn)
    → any spoken_by_caller (flat_map turn_lines turns) ≡ any caller_talks turns
any-flat_map [] = refl
any-flat_map (t ∷ turns) = ground (
  arith,
  any-append spoken_by_caller (turn_lines t) (flat_map turn_lines turns),
  any-turn_lines t,
  any-flat_map turns,
)

or_false : (b : Bool) → (b || false) ≡ b
or_false true = refl
or_false false = refl

known :
    (spoke never brief : Bool)
    → is_connected (
        if spoke
        then "connected"
        else if never
        then "no_answer"
        else if brief
        then "no_answer"
        else "unknown")
      ≡ spoke
unfolding is_connected str_eq
known true never brief = refl
known false true brief = refl
known false false true = refl
known false false false = refl

-- A call without an uploaded transcript, however it ended, is connected exactly when some stored
-- turn has a caller's text that is not empty.
pub programmatic_disposition-connected :
    (fetch : String → String) (call : CallOutcome) (turns : List StoredTurn)
    → is_connected (programmatic_disposition call (resolve fetch none turns))
      ≡ any caller_talks turns
unfolding programmatic_disposition caller_spoke resolve derive_from_turns
programmatic_disposition-connected fetch call turns =
    known _ _ _
    ∙ or_false _
    ∙ any-flat_map (sort_by index_le turns)
    ∙ any-sort_by index_le caller_talks turns
