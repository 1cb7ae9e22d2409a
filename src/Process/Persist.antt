-- ===== src/Process/Persist.antt =====
-- What an analysis writes: `_persist`, `_reconcile`, `process_trace` and the path without spans,
-- `process_audio_only`. What fetches and analyses audio is an argument; a result that is missing is an
-- exception.
pub mod Rewrite
pub mod Again
use Prim.Native.String.{◌++◌ as append}
use actioneer_pulse.Common.{
  Bool, true, false, not, String, Option, none, some, List, [], ◌∷◌, ◌++◌, ◌&&◌, ◌||◌, map, filter,
  nonempty, is_some, str_eq, truthy, if◌then◌else◌, ℕ, suc, ◌*◌,
}
use actioneer_pulse.Common.Int.{ℤ, pos, negsuc, ◌-ℤ◌, max_ℤ, round_quot}
use actioneer_pulse.Common.Dict.{Dict}
use actioneer_pulse.Common.Strings.{drop_prefix, join}
use actioneer_pulse.Model.{
  AudioAnalysis, Utterance, Trace, Turn, MetricValue, Analysis, TrustReason, telemetry_truncated,
  trace_missing, trace_not_applicable, audio_missing, audio_disabled, artifact_missing,
  audio_partial, producer_schema_unsupported, gate_timeout, timing_missing, turns_derived,
}
use actioneer_pulse.Model.Value.{Conversions}
use actioneer_pulse.Pricing.{ModelPrice}
use actioneer_pulse.GroundTruth.{AudioReport, Discrepancy, material_of}
use actioneer_pulse.Calculator.Report.{metric_version}
use actioneer_pulse.Process.Rows.{
  TurnRow, MetricRow, UtteranceRow, MediaRow, EventRow, turn_row, metric_row, utterance_rows,
  peaks_rows, energy_rows, event_rows,
}
use actioneer_pulse.Process.Rollup.{Call, rollup, stamp, this_version}

pub record IngestRun : Type 0 where
  pub call_id : String
  pub status : String
  pub error : Option String
  pub finished_at : Option ℕ

-- The tables that hold rows of calls, and the runs.
pub record Tables : Type 0 where
  pub turns : List TurnRow
  pub metrics : List MetricRow
  pub events : List EventRow
  pub utterances : List UtteranceRow
  pub media : List MediaRow
  pub discrepancies : List (String × Discrepancy)
  pub runs : List IngestRun

-- DELETE under a condition, then the new rows.
unfoldable pub rewrite : {R : Type 0} → (R → Bool) → List R → List R → List R
rewrite mine new rows = filter (λ r. not (mine r)) rows ++ new

-- LIKE 'peaks_%': a `_` stands for any one character.
abbrev pub like : String → String → Bool
like prefix kind = elim (drop_prefix prefix kind) [ none ↦ false | some rest ↦ truthy rest ]

abbrev pub is_series : String → MediaRow → Bool
is_series id m = str_eq m.call_id id && (like "peaks" m.kind || like "energy" m.kind)

abbrev pub audio_utterances : String → ℕ → Option AudioAnalysis → List UtteranceRow
audio_utterances id version none = []
audio_utterances id version (some audio) = utterance_rows id version audio

abbrev pub audio_series : String → Option AudioAnalysis → List MediaRow
audio_series id none = []
audio_series id (some audio) = peaks_rows id audio ++ energy_rows id audio

-- The deletions and insertions of `_persist` and of `_persist_audio_only`.
unfoldable pub write_rows :
    String
    → ℕ
    → List Turn
    → List MetricValue
    → List EventRow
    → Option AudioAnalysis
    → Tables
    → Tables
unfolding rewrite utterance_rows peaks_rows energy_rows
write_rows id version turns metrics events audio db = record db {
  turns = rewrite (λ r. str_eq r.call_id id) (map (turn_row id version) turns) db.turns;
  metrics = rewrite (λ r. str_eq r.call_id id) (map (metric_row id version) metrics) db.metrics;
  events = rewrite (λ r. str_eq r.call_id id) events db.events;
  utterances = rewrite (λ r. str_eq r.call_id id) (audio_utterances id version audio) db.utterances;
  media = rewrite (is_series id) (audio_series id audio) db.media;
}

-- `_persist`; `header` is `_apply_header`, which copies the header's fields to the columns.
unfoldable pub persist :
    ⦃c : Conversions⦄
    → Dict ModelPrice
    → (Call → Call)
    → Trace
    → Analysis
    → ℕ
    → Option AudioAnalysis
    → Call × Tables
    → Call × Tables
unfolding write_rows rollup stamp
persist pricing header trace analysis adapter_version audio (call, db) = (
  stamp trace analysis adapter_version (rollup pricing trace analysis (header call)),
  write_rows call.id analysis.metric_version analysis.turns analysis.metrics
      (event_rows call.id trace) audio db,
)

-- `_reconcile`: no report is an exception, which is logged.
unfoldable pub reconcile_rows : String → Option AudioReport → Tables → Tables
unfolding rewrite material_of
reconcile_rows id none db = db
reconcile_rows id (some report) db = record db {
  discrepancies =
      rewrite (λ r. str_eq r.0 id) (map (λ d. (id, d)) (material_of report)) db.discrepancies;
}

-- `reason.value`
abbrev pub reason_value : TrustReason → String
reason_value telemetry_truncated = "telemetry_truncated"
reason_value trace_missing = "trace_missing"
reason_value trace_not_applicable = "trace_not_applicable"
reason_value audio_missing = "audio_missing"
reason_value audio_disabled = "audio_disabled"
reason_value artifact_missing = "artifact_missing"
reason_value audio_partial = "audio_partial"
reason_value producer_schema_unsupported = "producer_schema_unsupported"
reason_value gate_timeout = "gate_timeout"
reason_value timing_missing = "timing_missing"
reason_value turns_derived = "turns_derived_from_events"

-- `_audio_enabled`: the agent's configuration, else the tenant's, else the environment's.
unfoldable pub audio_enabled : Option Bool → Option (Option Bool) → Bool → Bool
audio_enabled (some enabled) tenant env = enabled
audio_enabled none (some (some enabled)) env = enabled
audio_enabled none (some none) env = env
audio_enabled none none env = env

-- The end of a run: partial where the trust report names a reason.
unfoldable pub finish_run : String → List TrustReason → ℕ → IngestRun
unfolding join
finish_run id reasons now = record {
  call_id = id;
  status = if nonempty reasons then "partial" else "ok";
  error = if nonempty reasons then some (join ", " (map reason_value reasons)) else none;
  finished_at = some now;
}

-- The row of a run, which is an object of the session.
abbrev pub add_run : IngestRun → Tables → Tables
add_run run db = record db { runs = db.runs ++ run ∷ [] }

-- `process_trace` after the analysis, and `process` likewise; the report is of `reconcile`.
unfoldable pub store_analysis :
    ⦃c : Conversions⦄
    → Dict ModelPrice
    → (Call → Call)
    → ℕ
    → Trace
    → Analysis
    → ℕ
    → Bool
    → Option AudioAnalysis
    → Option AudioReport
    → Call × Tables
    → IngestRun × Call × Tables
unfolding persist reconcile_rows finish_run
store_analysis pricing header now trace analysis adapter_version enabled audio report (call, db) =
    let (stored, rows) = persist pricing header trace analysis adapter_version audio (call, db) in
    let run = finish_run call.id analysis.trust.reasons now in
    (run, stored, add_run run (if enabled then reconcile_rows call.id report rows else rows))

-- What the audio-only path finds out before it writes: no recording, an analysis, or an exception
-- with its text.
pub record Heard : Type 0 where
  pub audio : AudioAnalysis
  pub metrics : List MetricValue
  pub layout : String
  pub mode : String
  pub confidence : Option ℤ
  pub turns : List Turn

pub data Listening : Type 0 where
  no_audio : Listening
  heard : Heard → Listening
  raised : String → Listening

-- `max([u.t_end for u in utterances], default=0.0)`
unfoldable pub last_end : List Utterance → ℤ
last_end [] = pos 0
last_end (u ∷ []) = u.t_end
last_end (u ∷ v ∷ us) = max_ℤ u.t_end (last_end (v ∷ us))

-- `round(x, 3)` of ten-thousandths.
unfoldable pub to_millis : ℤ → ℤ
unfolding round_quot ◌-ℤ◌
to_millis (pos n) = pos (round_quot n 10 * 10)
to_millis (negsuc n) = pos 0 -ℤ pos (round_quot (suc n) 10 * 10)

-- `_persist_audio_only`
unfoldable pub persist_audio_only : ℕ → Heard → String → Call × Tables → Call × Tables
unfolding write_rows last_end to_millis
persist_audio_only now h mode (call, db) = (
  record call {
    duration_s = elim call.duration_s [
      | none ↦ some (to_millis (last_end h.audio.utterances))
      | some d ↦ some d
    ];
    analysis_mode = mode;
    audio_layout = some h.layout;
    diarization_confidence = h.confidence;
    analysis_error = none;
    metric_version = some metric_version;
    app_version = some this_version;
    status = "ingested";
    last_activity_at = some now;
  },
  write_rows call.id metric_version h.turns h.metrics [] (some h.audio) db,
)

-- `_fail`
unfoldable pub fail : ℕ → String → Call × Tables → IngestRun × Call × Tables
fail now reason (call, db) =
    let run : IngestRun = record {
      call_id = call.id;
      status = "failed";
      error = some reason;
      finished_at = some now;
    } in
    (run, record call { status = "failed"; analysis_error = some reason }, add_run run db)

-- The deletions of `_persist_audio_only`.
unfoldable pub cleared : String → Tables → Tables
unfolding write_rows
cleared id db = write_rows id metric_version [] [] [] none db

-- `process_audio_only`. Where building the new rows raises, with a text, the deletions before it stay.
unfoldable pub process_audio_only :
    ℕ → Option String → Listening → Call × Tables → IngestRun × Call × Tables
unfolding persist_audio_only fail cleared
process_audio_only now writing no_audio state = fail now "no audio registered for call" state
process_audio_only now writing (raised error) state = fail now error state
process_audio_only now (some error) (heard h) (call, db) = fail now error (call, cleared call.id db)
process_audio_only now none (heard h) (call, db) =
    let mode = if nonempty h.turns then append h.mode "+stt" else h.mode in
    let (stored, rows) = persist_audio_only now h mode (call, db) in
    let run : IngestRun = record {
      call_id = call.id;
      status = "ok";
      error = none;
      finished_at = some now;
    } in
    (run, stored, add_run run rows)
