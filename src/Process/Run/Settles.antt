-- ===== src/Process/Run/Settles.antt =====
-- Processing a call again: what a run of `process` does on the state that a run left.
use actioneer_pulse.Common.{
  Bool, true, false, String, Option, none, some, List, ◌≡◌, refl, ap, ◌∙◌, str_eq, str_eq_refl, map,
  ℕ, All, [], ◌∷◌, Option-cases, inl, inr, if◌then◌else◌, ◌++◌,
}
use actioneer_pulse.Common.Int.{ℤ}
use actioneer_pulse.Model.{Trace, AudioAnalysis, Analysis, Turn, MetricValue}
use actioneer_pulse.Model.Value.{Conversions}
use actioneer_pulse.Calculator.Analyze.{analyze}
use actioneer_pulse.Frameworks.Otlp.{Payload}
use actioneer_pulse.Frameworks.Livekit.{Metrics}
use actioneer_pulse.GroundTruth.{AudioReport, Discrepancy, material_of}
use actioneer_pulse.Ingest.{Codec, RawFragment}
use actioneer_pulse.Process.Assemble.{assemble}
use actioneer_pulse.Process.Rollup.{Call, rollup, stamp}
use actioneer_pulse.Process.Rows.{turn_row, metric_row, event_rows}
use actioneer_pulse.Process.Persist.{
  IngestRun, Tables, is_series, audio_utterances, audio_series, write_rows, reconcile_rows, persist,
  store_analysis, add_run,
}
use actioneer_pulse.Process.Persist.Rewrite.{rewrite-again}
use actioneer_pulse.Process.Persist.Again.{
  turns_mine, metrics_mine, timeline_mine, utterances_mine, series_mine, write_rows-twice,
}
use actioneer_pulse.Process.Run.{
  Given, Mapping, heard_audio, process_trace, Ending, finished, unsupported, broken, running,
  payloads_of, trace_of, process,
}

discrepancies_mine :
    (id : String) (ds : List Discrepancy)
    → All
        (λ (r : String × Discrepancy). str_eq r.0 id ≡ true)
        (map (λ (d : Discrepancy). (id, d)) ds)
discrepancies_mine id [] = tt
discrepancies_mine id (d ∷ ds) = (str_eq_refl id, discrepancies_mine id ds)

module _ (id : String) (version : ℕ) (turns : List Turn) (metrics : List MetricValue)
    (trace : Trace) (audio : Option AudioAnalysis) where
  -- The rows of an analysis and of the reconciliation.
  abbrev rows_of : Bool → Option AudioReport → Tables → Tables
  rows_of enabled report db =
      let rows = write_rows id version turns metrics (event_rows id trace) audio db in
      if enabled then reconcile_rows id report rows else rows

  rows_of-again :
      (enabled : Bool) (report : Option AudioReport) (db : Tables)
      → rows_of enabled report (rows_of enabled report db) ≡ rows_of enabled report db
  unfolding write_rows reconcile_rows
  rows_of-again false report db = write_rows-twice id version turns metrics trace audio db
  rows_of-again true none db = write_rows-twice id version turns metrics trace audio db
  rows_of-again true (some report) db =
      rw
        (
          rewrite-again (λ r. str_eq r.call_id id) (map (turn_row id version) turns) db.turns
              (turns_mine id version turns),
          rewrite-again (λ r. str_eq r.call_id id) (map (metric_row id version) metrics) db.metrics
              (metrics_mine id version metrics),
          rewrite-again (λ r. str_eq r.call_id id) (event_rows id trace) db.events
              (timeline_mine id version trace),
          rewrite-again (λ r. str_eq r.call_id id) (audio_utterances id version audio) db.utterances
              (utterances_mine id version audio),
          rewrite-again (is_series id) (audio_series id audio) db.media
              (series_mine id version audio),
          rewrite-again (λ (r : String × Discrepancy). str_eq r.0 id)
              (map (λ (d : Discrepancy). (id, d)) (material_of report)) db.discrepancies
              (discrepancies_mine id (material_of report)),
        )
        refl

  rows_of-runs :
      (enabled : Bool) (report : Option AudioReport) (db : Tables) (runs : List IngestRun)
      → rows_of enabled report (record db { runs = runs })
        ≡ record (rows_of enabled report db) { runs = runs }
  unfolding write_rows reconcile_rows
  rows_of-runs false report db runs = refl
  rows_of-runs true none db runs = refl
  rows_of-runs true (some report) db runs = refl

  rows_of-added :
      (enabled : Bool) (report : Option AudioReport) (db : Tables) (run : IngestRun)
      → let left = add_run run (rows_of enabled report db) in rows_of enabled report left ≡ left
  rows_of-added enabled report db run =
      let rows = rows_of enabled report db in
      rows_of-runs enabled report rows (rows.runs ++ run ∷ [])
      ∙ ap (λ (t : Tables). record t { runs = rows.runs ++ run ∷ [] })
          (rows_of-again enabled report db)

module _ ⦃c : Conversions⦄ (g : Given) (trace : Trace) (version : ℕ) (call : Call)
    (db : Tables) where
  abbrev analysed : Analysis
  analysed = analyze version trace (heard_audio g) g.config g.t0_offset g.audio_enabled

  abbrev processed : IngestRun × Call × Tables
  processed = process_trace g trace version (call, db)

  process_trace-tables :
      processed.2
      ≡ add_run processed.0 (
          rows_of call.id analysed.metric_version analysed.turns analysed.metrics trace
            (heard_audio g)
            g.audio_enabled
            (g.report analysed)
            db)
  unfolding process_trace store_analysis persist
  process_trace-tables = refl

  process_trace-id :
      ((t : Trace) (k : Call) → (g.header t k).id ≡ k.id) → (processed.1).id ≡ call.id
  unfolding process_trace store_analysis persist rollup stamp
  process_trace-id kept = kept trace call

-- Running again on what a run left. Of the call's row only the key is said.
abbrev pub Settles : String → (Call × Tables → Ending) → Ending → Type 0
Settles id run_on (finished (run, call, db)) =
    (later : Call) × (later.id ≡ id) × (run_on (call, db) ≡ finished (run, later, add_run run db))
Settles id run_on (unsupported left) =
    (call : Call)
    → (db : Tables) → call.id ≡ id
    → run_on (call, db) ≡ unsupported (add_run (running id) db)
Settles id run_on broken = (call : Call) → (db : Tables) → call.id ≡ id → run_on (call, db) ≡ broken

module _ ⦃c : Conversions⦄ (g : Given) (trace : Trace) (version : ℕ) where
  process_trace-run :
      (call later : Call) (db rows : Tables)
      → later.id ≡ call.id
      → (process_trace g trace version (later, rows)).0
        ≡ (process_trace g trace version (call, db)).0
  unfolding process_trace store_analysis
  process_trace-run call later db rows e = rw (e) refl

  process_trace-again :
      (call later : Call) (db : Tables)
      → later.id ≡ call.id
      → let once = process_trace g trace version (call, db) in
        (process_trace g trace version (later, once.2)).2 ≡ add_run once.0 once.2
  process_trace-again call later db e =
      let once = process_trace g trace version (call, db) in
      rw
        (
          process_trace-tables g trace version later once.2,
          process_trace-run call later db once.2 e,
          process_trace-tables g trace version call db,
          e,
        )
        (ap (add_run once.0)
          (rows_of-added call.id _ _ _ trace (heard_audio g) g.audio_enabled _ db once.0))

module _ ⦃c : Conversions⦄ (loads : String → Option Metrics) (grain : ℤ → ℤ) (codec : Codec)
    (g : Given) (kept : (t : Trace) (k : Call) → (g.header t k).id ≡ k.id)
    (mapping : Option Mapping) (fragments : List RawFragment) where
  abbrev runs : Call × Tables → Ending
  runs = process loads grain codec g mapping fragments

  abbrev parts : String → Option Payload
  parts id = assemble codec (payloads_of id fragments)

  without_parts : (call : Call) (db : Tables) → parts call.id ≡ none → runs (call, db) ≡ broken
  unfolding process
  without_parts call db a = rw (process, a) refl

  without_trace :
      (call : Call) (db : Tables) (payload : Payload)
      → parts call.id ≡ some payload
      → trace_of loads grain mapping payload ≡ none
      → runs (call, db) ≡ unsupported (add_run (running call.id) db)
  unfolding process
  without_trace call db payload a t = rw (process, a, t) refl

  with_trace :
      (call : Call) (db : Tables) (payload : Payload) (trace : Trace) (version : ℕ)
      → parts call.id ≡ some payload
      → trace_of loads grain mapping payload ≡ some (trace, version)
      → runs (call, db) ≡ finished (process_trace g trace version (call, db))
  unfolding process
  with_trace call db payload trace version a t = rw (process, a, t) refl

  same_span_parts : (id other : String) → other ≡ id → parts other ≡ parts id
  same_span_parts id other e = rw (e) refl

  settled :
      (call : Call) (db : Tables) (payload : Payload) (trace : Trace) (version : ℕ)
      → parts call.id ≡ some payload
      → trace_of loads grain mapping payload ≡ some (trace, version)
      → Settles call.id runs (finished (process_trace g trace version (call, db)))
  settled call db payload trace version a t =
      let once = process_trace g trace version (call, db) in
      let e = process_trace-id g trace version call db kept in
      let again = process_trace g trace version (once.1, once.2) in
      (
        again.1,
        process_trace-id g trace version once.1 once.2 kept ∙ e,
        with_trace once.1 once.2 payload trace version (same_span_parts call.id once.1.id e ∙ a) t
            ∙ rw
                (
                  process_trace-run g trace version call once.1 db once.2 e,
                  process_trace-again g trace version call once.1 db e,
                )
                refl,
      )

  -- Processing a call again with the same arguments, where writing the header's columns keeps the
  -- call's key. If a run finishes, a run on the call and the tables it left finishes too, with a call
  -- under the same key, an equal record of the run, and the same tables but for this record, which is
  -- added to the table of runs once more. If a run ends as unsupported, so does every run on a call of
  -- this key, whatever the tables, and only the row of a run under way is added. If a run ends as
  -- broken, so does every run on a call of this key.
  pub process-again : (call : Call) (db : Tables) → Settles call.id runs (runs (call, db))
  process-again call db = elim (Option-cases (parts call.id)) [
    | inl a ↦
        rw (without_parts call db a)
          (λ later rows e. without_parts later rows (same_span_parts call.id later.id e ∙ a))
    | inr (payload, a) ↦ elim (Option-cases (trace_of loads grain mapping payload)) [
      | inl t ↦ rw (without_trace call db payload a t) (λ later rows e.
          without_trace later rows payload (same_span_parts call.id later.id e ∙ a) t
          ∙ ap (λ id. unsupported (add_run (running id) rows)) e)
      | inr ((trace, version), t) ↦
          rw (with_trace call db payload trace version a t)
            (settled call db payload trace version a t)
    ]
  ]
