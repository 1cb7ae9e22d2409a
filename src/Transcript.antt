-- ===== src/Transcript.antt =====
-- A call's transcript and its telephone disposition: src/voiceobs/transcript.py and
-- src/voiceobs/judge/disposition.py.
pub mod Connected
mod Tests
use actioneer_pulse.Common.{
  Bool, true, false, not, String, Option, none, some, List, [], ◌∷◌, ◌++◌, ◌&&◌, ◌||◌, any,
  flat_map, is_some, get_or, or_else, opt_eq, str_eq, truthy, truthy?, if◌then◌else◌,
}
use actioneer_pulse.Common.Int.{ℤ, leb_ℤ, eqb_ℤ, pos}
use actioneer_pulse.Common.Sort.{sort_by}

-- The columns of a stored turn that are read here.
pub record StoredTurn : Type 0 where
  pub turn_index : ℤ
  pub caller_transcript : Option String
  pub llm_spoken : Option String
  pub llm_raw : Option String

pub record Line : Type 0 where
  pub turn_index : ℤ
  pub role : String
  pub text : String

abbrev pub index_le : StoredTurn → StoredTurn → Bool
index_le a b = leb_ℤ a.turn_index b.turn_index

abbrev pub line_of : ℤ → String → Option String → List Line
line_of index role none = []
line_of index role (some text) = record { turn_index = index; role = role; text = text } ∷ []

-- The lines of one turn: an empty text counts as none.
unfoldable pub turn_lines : StoredTurn → List Line
turn_lines t =
    line_of t.turn_index "caller" (truthy? t.caller_transcript)
    ++ line_of t.turn_index "agent" (or_else (truthy? t.llm_spoken) (truthy? t.llm_raw))

unfoldable pub derive_from_turns : List StoredTurn → List Line
derive_from_turns turns = flat_map turn_lines (sort_by index_le turns)

-- An uploaded transcript.
pub record Upload : Type 0 where
  pub source : Option String
  pub format : Option String
  pub content : Option String
  pub uri : Option String

-- The dict that `resolve` returns: a key that is absent is `none`.
pub record Resolved : Type 0 where
  pub source : String
  pub format : String
  pub text : Option String
  pub lines : Option (List Line)

-- `text = byo.content`, or the fetched text where there is none.
unfoldable pub upload_text : (String → String) → Upload → Option String
upload_text fetch u = elim u.content [
  | some text ↦ some text
  | none ↦ elim (truthy? u.uri) [ none ↦ none | some uri ↦ some (fetch uri) ]
]

-- `resolve`, with what fetches and decodes a uri.
unfoldable pub resolve : (String → String) → Option Upload → List StoredTurn → Resolved
resolve fetch (some u) turns = record {
  source = get_or (truthy? u.source) "byo";
  format = get_or (truthy? u.format) "text";
  text = upload_text fetch u;
  lines = none;
}
resolve fetch none turns = record {
  source = "derived";
  format = "turns";
  text = none;
  lines = some (derive_from_turns turns);
}

-- The columns of a call that are read here.
pub record CallOutcome : Type 0 where
  pub hangup_by : Option String
  pub duration_s : Option ℤ
  pub status : String

abbrev pub spoken_by_caller : Line → Bool
spoken_by_caller l = str_eq l.role "caller" && truthy l.text

-- `_caller_spoke`
unfoldable pub caller_spoke : Resolved → Bool
caller_spoke r = any spoken_by_caller (get_or r.lines []) || is_some (truthy? r.text)

-- `not call.duration_s`
abbrev pub no_duration : Option ℤ → Bool
no_duration none = true
no_duration (some x) = eqb_ℤ x (pos 0)

unfoldable pub programmatic_disposition : CallOutcome → Resolved → String
programmatic_disposition call transcript =
    if caller_spoke transcript
    then "connected"
    else if (opt_eq call.hangup_by (some "remote") && no_duration call.duration_s)
        || str_eq call.status "failed"
    then "no_answer"
    else if no_duration call.duration_s
    then "no_answer"
    else "unknown"

unfoldable pub is_connected : String → Bool
is_connected disposition = str_eq disposition "connected"
