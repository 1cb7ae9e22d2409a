-- ===== src/Process/Rows.antt =====
-- The rows of an analysis: turns, metrics, utterances, peaks and the timeline's events.
pub mod Dense
use Prim.Native.String.{◌++◌ as append}
use actioneer_pulse.Common.{
  Bool, true, false, String, Option, none, some, List, [], ◌∷◌, ◌++◌, map, filter, filter_map, find,
  nonempty, truthy?, truthy, get_or, if◌then◌else◌, ℕ, suc,
}
use actioneer_pulse.Common.Int.{ℤ, ◌-ℤ◌, leb_ℤ}
use actioneer_pulse.Common.Dict.{Dict, lookup}
use actioneer_pulse.Common.Sort.{sort_by}
use actioneer_pulse.Common.Strings.{join, take_text}
use actioneer_pulse.Model.{
  Stage, Span, SpanEvent, Trace, Utterance, AudioAnalysis, Turn, MetricValue, Figure, tenths,
  decimal, whole, label,
}
use actioneer_pulse.Model.Value.{Value, truthy_value}
use actioneer_pulse.Calculator.Turns.{span_le}

-- The columns of a turn are its fields, three of them under other names; `audio_end_s` has none.
pub record TurnRow : Type 0 where
  pub call_id : String
  pub metric_version : ℕ
  pub turn : Turn

unfoldable pub turn_row : String → ℕ → Turn → TurnRow
turn_row id version t = record {
  call_id = id;
  metric_version = version;
  turn = record t { audio_end_s = none };
}

pub record MetricRow : Type 0 where
  pub call_id : String
  pub name : String
  pub value_num : Option Figure
  pub value_text : Option String
  pub samples : Option (List Figure)
  pub available : Bool
  pub reason : Option String
  pub metric_version : ℕ

abbrev number_of : Option Figure → Option Figure
number_of (some (label s)) = none
number_of v = v

abbrev label_of : Option Figure → Option String
label_of (some (label s)) = some s
label_of v = none

-- `_metric_row`
unfoldable pub metric_row : String → ℕ → MetricValue → MetricRow
metric_row id version m = record {
  call_id = id;
  name = m.name;
  value_num = number_of m.value;
  value_text = label_of m.value;
  samples = m.samples;
  available = m.available;
  reason = m.reason;
  metric_version = version;
}

pub record UtteranceRow : Type 0 where
  pub call_id : String
  pub channel : String
  pub t_start_s : ℤ
  pub t_end_s : ℤ
  pub metric_version : ℕ

-- `_utterance_rows`
unfoldable pub utterance_rows : String → ℕ → AudioAnalysis → List UtteranceRow
utterance_rows id version audio =
    map
      (λ u. record {
        call_id = id;
        channel = u.channel;
        t_start_s = u.t_start;
        t_end_s = u.t_end;
        metric_version = version;
      })
      audio.utterances

-- The columns of a medium that this module reads or writes.
pub record MediaRow : Type 0 where
  pub call_id : String
  pub kind : String
  pub uri : Option String
  pub peaks : Option (List ℕ)
  pub sample_rate : Option ℕ

abbrev pub series_row : String → String → String × List ℕ → MediaRow
series_row id prefix (channel, series) = record {
  call_id = id;
  kind = append prefix channel;
  uri = none;
  peaks = some series;
  sample_rate = none;
}

-- `_peaks_rows`
unfoldable pub peaks_rows : String → AudioAnalysis → List MediaRow
peaks_rows id audio = map (series_row id "peaks_") audio.peaks

-- `_energy_rows`
unfoldable pub energy_rows : String → AudioAnalysis → List MediaRow
energy_rows id audio =
    map (series_row id "energy_") (filter (λ entry. nonempty entry.1) audio.energy)

pub record EventRow : Type 0 where
  pub call_id : String
  pub span_id : String
  pub parent_span_id : Option String
  pub turn_id : Option String
  pub t_offset_s : Option ℤ
  pub position : ℕ
  pub kind : String
  pub type : String
  pub name : String
  pub duration_s : Option ℤ
  pub error : Option Bool
  pub attrs : Dict Value
  pub content_text : Option Value
  pub content_kind : Option String

-- `stage.value`
abbrev pub stage_value : Stage → String
stage_value Stage.call = "call"
stage_value Stage.turn = "turn"
stage_value Stage.speech = "speech"
stage_value Stage.stt = "stt"
stage_value Stage.llm = "llm"
stage_value Stage.tts = "tts"
stage_value Stage.playout = "playout"
stage_value Stage.tool = "tool"
stage_value Stage.net = "net"
stage_value Stage.unknown = "unknown"

-- `d.get(k)` holds something.
unfoldable pub holds : Dict Value → String → Bool
unfolding truthy_value
holds d k = elim (lookup k d) [ none ↦ false | some v ↦ truthy_value v ]

abbrev primary_content : List String
primary_content = "transcript" ∷ "llm_raw" ∷ "llm_spoken" ∷ []

abbrev difference : Option ℤ → Option ℤ → Option ℤ
difference (some s) (some e) = some (e -ℤ s)
difference s e = none

-- The row of a span.
unfoldable pub span_row : String → ℕ → Span → EventRow
unfolding holds
span_row id position s =
    let kind = find (holds s.content) primary_content in
    record {
      call_id = id;
      span_id = s.span_id;
      parent_span_id = s.parent_span_id;
      turn_id = s.turn_id;
      t_offset_s = s.t_start;
      position = position;
      kind = "span";
      type = stage_value s.stage;
      name = s.name;
      duration_s = difference s.t_start s.t_end;
      error = if s.error then some true else none;
      attrs = s.attrs;
      content_text = elim kind [ none ↦ none | some k ↦ lookup k s.content ];
      content_kind = kind;
    }

-- `_text`
unfoldable pub text : Option Value → Option Value
unfolding join
text (some (Value.items xs)) = some (Value.text (join " " xs))
text v = v

-- `next(iter(content), None)`
abbrev first_key : Dict Value → Option String
first_key [] = none
first_key ((k, v) ∷ d) = some k

-- The row of an event of a span.
unfoldable pub event_row : String → ℕ → Span → SpanEvent → EventRow
unfolding text take_text
event_row id position s e =
    let kind = first_key e.content in
    record {
      call_id = id;
      span_id = s.span_id;
      parent_span_id = s.parent_span_id;
      turn_id = s.turn_id;
      t_offset_s = e.t;
      position = position;
      kind = "event";
      type = take_text 48 e.name;
      name = e.name;
      duration_s = none;
      error = none;
      attrs = e.attrs;
      content_text = elim (truthy? kind) [ none ↦ none | some k ↦ text (lookup k e.content) ];
      content_kind = kind;
    }

-- By time; no time is infinity.
abbrev pub sooner : SpanEvent → SpanEvent → Bool
sooner a b = elim b.t [ none ↦ true | some t ↦ elim a.t [ none ↦ false | some s ↦ leb_ℤ s t ] ]

-- The inner loop, from a position on.
unfoldable pub span_event_rows : String → ℕ → Span → List SpanEvent → List EventRow
unfolding event_row
span_event_rows id position s [] = []
span_event_rows id position s (e ∷ events) =
    event_row id position s e ∷ span_event_rows id (suc position) s events

-- The position after n further rows.
abbrev pub advance : ℕ → List SpanEvent → ℕ
advance position [] = position
advance position (e ∷ events) = advance (suc position) events

unfoldable pub event_rows_from : String → ℕ → List Span → List EventRow
unfolding span_row span_event_rows sort_by
event_rows_from id position [] = []
event_rows_from id position (s ∷ spans) =
    let events = sort_by sooner s.events in
    span_row id position s
    ∷ (span_event_rows id (suc position) s events
        ++ event_rows_from id (advance (suc position) events) spans)

-- `_event_rows`
unfoldable pub event_rows : String → Trace → List EventRow
unfolding event_rows_from sort_by
event_rows id trace = event_rows_from id 0 (sort_by span_le trace.spans)
