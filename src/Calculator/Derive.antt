-- ===== src/Calculator/Derive.antt =====
-- Turns inferred from events: `_turns_from_events` of src/voiceobs/core/calculator.py.
pub mod Dense
use Prim.Native.Char.{code}
use Prim.Native.String.{◌++◌ as append}
use actioneer_pulse.Common.{
  Bool, true, false, not, String, Option, none, some, List, [], ◌∷◌, ◌++◌, ◌&&◌, ◌||◌, filter,
  flat_map, first_some, is_some, or_else, elem, length, str_eq, truthy, if◌then◌else◌, leb, ◌==◌, ℕ,
}
use actioneer_pulse.Common.Int.{ℤ, pos, leb_ℤ}
use actioneer_pulse.Common.Dict.{Dict}
use actioneer_pulse.Common.Sort.{sort_by}
use actioneer_pulse.Model.{SpanEvent, Trace, Turn}
use actioneer_pulse.Model.Value.{Value, Conversions}
use actioneer_pulse.Calculator.Read.{ms}

-- What `strip` removes.
pub is_space : ℕ → Bool
is_space c =
    (leb 9 c && leb c 13)
    || (leb 28 c && leb c 32)
    || c == 0x85
    || c == 0xa0
    || c == 0x1680
    || (leb 0x2000 c && leb c 0x200a)
    || c == 0x2028
    || c == 0x2029
    || c == 0x202f
    || c == 0x205f
    || c == 0x3000

-- `not s.strip()`
pub blank : String → Bool
unfolding is_space
blank String.[] = true
blank (String.◌∷◌ ch s) = is_space (code ch) && blank s

-- `v if isinstance(v, str) and v.strip()`
pub spoken_text : String × Value → Option String
unfolding blank
spoken_text (k, Value.text s) = if blank s then none else some s
spoken_text (k, v) = none

-- `next((str(v) for v in e.content.values() if …), None)`
unfoldable pub event_text : SpanEvent → Option String
unfolding spoken_text
event_text e = first_some spoken_text e.content

-- The dict of an open group: a key that is absent is `none` or false.
pub record Group : Type 0 where
  pub stt_final : Option ℤ
  pub committed : Option ℤ
  pub llm_first : Option ℤ
  pub tts_first : Option ℤ
  pub transcript : Option String
  pub llm_raw : Option String
  pub llm_spoken : Option String
  pub interrupted : Bool
  pub agent_seen : Bool

abbrev pub no_group : Group
no_group = record {
  stt_final = none;
  committed = none;
  llm_first = none;
  tts_first = none;
  transcript = none;
  llm_raw = none;
  llm_spoken = none;
  interrupted = false;
  agent_seen = false;
}

-- `group.keys() & {"stt_final", "llm_spoken", "tts_first"}`
abbrev pub has_evidence : Group → Bool
has_evidence g = is_some g.stt_final || (is_some g.llm_spoken || is_some g.tts_first)

-- `(old or "") + (" " if old else "") + text`
pub join_text : Option String → String → String
join_text none text = text
join_text (some old) text = if truthy old then append old (append " " text) else text

-- What an event writes into its group, by its name; `setdefault` keeps what is there.
unfoldable pub write_event : SpanEvent → Group → Group
unfolding event_text join_text
write_event e g =
    if str_eq e.name "stt.final"
    then record g {
      stt_final = or_else g.stt_final e.t;
      transcript = elim (event_text e) [
        | none ↦ g.transcript
        | some text ↦ some (join_text g.transcript text)
      ];
    }
    else if str_eq e.name "turn.committed"
    then record g { committed = or_else g.committed e.t }
    else if str_eq e.name "llm.first_token"
    then record g { llm_first = or_else g.llm_first e.t }
    else if str_eq e.name "llm.raw"
    then record g { llm_raw = or_else g.llm_raw (event_text e) }
    else if str_eq e.name "llm.spoken"
    then record g { llm_spoken = or_else g.llm_spoken (event_text e) }
    else if str_eq e.name "tts.first_audio"
    then record g { tts_first = or_else g.tts_first e.t }
    else if str_eq e.name "bargein"
    then record g { interrupted = true }
    else g

-- `_EV_AGENT_SIDE`
abbrev pub agent_side : List String
agent_side = "llm.first_token" ∷ "llm.raw" ∷ "llm.spoken" ∷ "tts.first_audio" ∷ []

abbrev text_value : Option String → Option Value
text_value none = none
text_value (some s) = some (Value.text s)

-- Only events with a time are sorted.
abbrev pub time_le : Option ℤ → Option ℤ → Bool
time_le (some x) (some y) = leb_ℤ x y
time_le (some x) none = true
time_le none y = true

abbrev pub event_le : SpanEvent → SpanEvent → Bool
event_le a b = time_le a.t b.t

module _ ⦃c : Conversions⦄ where
  turn_of_group : ℕ → Group → Turn
  turn_of_group n g = record {
    turn_index = pos n;
    turn_id = append "ev:" (c.repr (Value.int (pos n)));
    trigger = "endpoint";
    audio_start_s = none;
    audio_end_s = none;
    stt_final_at = g.stt_final;
    committed_at = g.committed;
    llm_first_token_at = g.llm_first;
    tts_start_at = none;
    tts_first_audio_at = g.tts_first;
    audio_out_start_s = none;
    tts_span_present = false;
    response_latency_ms = ms g.stt_final g.tts_first;
    stt_lag_ms = none;
    endpointing_ms = none;
    llm_ttft_ms = ms g.committed g.llm_first;
    assembly_ms = none;
    dispatch_ms = none;
    tts_ttfb_ms = none;
    playout_ms = none;
    unattributed_ms = none;
    llm_ttft_reported_ms = none;
    tts_ttfb_reported_ms = none;
    language = none;
    stt_confidence = none;
    tokens_in = none;
    tokens_out = none;
    tokens_cached = none;
    finish_reason = none;
    tts_chars = none;
    tts_chars_cut = none;
    tts_cancelled = false;
    cut_reason = none;
    interrupted = g.interrupted;
    interruption_probability = none;
    e2e_latency_ms = none;
    abandoned = false;
    transcript = text_value g.transcript;
    llm_raw = text_value g.llm_raw;
    llm_spoken = text_value g.llm_spoken;
  }

  -- `close`
  unfoldable pub close : List Turn → Option Group → List Turn
  unfolding turn_of_group
  close turns none = turns
  close turns (some g) =
      if has_evidence g then turns ++ (turn_of_group (length turns) g ∷ []) else turns

  -- A caller's final transcript after the agent has responded ends the group.
  abbrev pub ends_group : SpanEvent → Option Group → Bool
  ends_group e none = false
  ends_group e (some g) = str_eq e.name "stt.final" && g.agent_seen

  -- `{}` where no group is open; then the event's writes.
  unfoldable pub absorb : SpanEvent → Option Group → Group
  unfolding write_event
  absorb e cur =
      let g = write_event e (elim cur [ none ↦ no_group | some g ↦ g ]) in
      if elem e.name agent_side then record g { agent_seen = true } else g

  -- The loop over the ordered events.
  unfoldable pub group_events : List Turn → Option Group → List SpanEvent → List Turn
  group_events turns cur [] = close turns cur
  group_events turns cur (e ∷ events) =
      let ends = ends_group e cur in
      group_events (if ends then close turns cur else turns)
        (some (absorb e (if ends then none else cur))) events

  unfoldable pub turns_from_events : Trace → List Turn
  turns_from_events trace =
      let events = filter (λ e. is_some e.t) (flat_map (λ s. s.events) trace.spans) in
      elim (sort_by event_le events) [ [] ↦ [] | e ∷ rest ↦ group_events [] none (e ∷ rest) ]
