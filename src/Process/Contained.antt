-- ===== src/Process/Contained.antt =====
-- Errors stay inside the audio-only path, and each has its cause.
use actioneer_pulse.Common.{Bool, String, Option, none, some, List, [], ◌≡◌, ◌⊎◌, ℕ, filter, str_eq}
use actioneer_pulse.Calculator.Report.{metric_version}
use actioneer_pulse.Common.Dict.{Dict}
use actioneer_pulse.Model.{MetricValue}
use actioneer_pulse.Model.Value.{Conversions}
use actioneer_pulse.Process.Rollup.{Call}
use actioneer_pulse.Process.Rows.{MediaRow}
use actioneer_pulse.Process.Persist.{
  IngestRun, Tables, Heard, Listening, no_audio, heard, raised, add_run, cleared, write_rows,
}
use actioneer_pulse.Process.Listen.{
  Tools, ok, error, kinds_from, audio_bytes, Analyzed, analyze_layout, stt_turns,
}

-- The media of a call by their kinds.
abbrev pub media_of : String → List MediaRow → Dict MediaRow
media_of id media = kinds_from [] (filter (λ m. str_eq m.call_id id) media)

module _ ⦃c : Conversions⦄ (t : Tools) (use_stt : Bool) where
  -- What hearing a recording comes to: the first step that raises, or what all steps give.
  pub data Hears (wav : String) (rate : ℕ) : Listening → Type 0 where
    no_layout : {e : String} → t.layout wav ≡ error e → Hears wav rate (raised e)
    no_analysis :
        (layout : String) {e : String}
        → t.layout wav ≡ ok layout
        → analyze_layout t wav rate layout ≡ error e
        → Hears wav rate (raised e)
    no_metrics :
        (layout : String) (a : Analyzed) {e : String}
        → t.layout wav ≡ ok layout
        → analyze_layout t wav rate layout ≡ ok a
        → t.metrics a.0 ≡ error e
        → Hears wav rate (raised e)
    no_turns :
        (layout : String) (a : Analyzed) (metrics : List MetricValue) {e : String}
        → t.layout wav ≡ ok layout
        → analyze_layout t wav rate layout ≡ ok a
        → t.metrics a.0 ≡ ok metrics
        → stt_turns t use_stt wav a.0 ≡ error e
        → Hears wav rate (raised e)
    in_full :
        (h : Heard)
        → t.layout wav ≡ ok h.layout
        → analyze_layout t wav rate h.layout ≡ ok (h.audio, h.mode, h.confidence)
        → t.metrics h.audio ≡ ok h.metrics
        → stt_turns t use_stt wav h.audio ≡ ok h.turns
        → Hears wav rate (heard h)

  -- What listening for a call comes to: no recording, or what hearing its recording comes to.
  pub data Listens (kinds : Dict MediaRow) : Listening → Type 0 where
    unread : {e : String} → audio_bytes t kinds ≡ error e → Listens kinds (raised e)
    silent : (rate : ℕ) → audio_bytes t kinds ≡ ok (none, rate) → Listens kinds no_audio
    listened :
        (wav : String) (rate : ℕ) {l : Listening}
        → audio_bytes t kinds ≡ ok (some wav, rate)
        → Hears wav rate l
        → Listens kinds l

-- The run and the call say that the analysis succeeded, and the rows are those of what was heard.
abbrev pub Succeeded : Listening → Tables → IngestRun × Call × Tables → Type 0
Succeeded l before (run, call, db) =
    (h : Heard) × (l ≡ heard h)
    × (run.status ≡ "ok")
    × (run.error ≡ none)
    × (call.status ≡ "ingested")
    × (call.analysis_error ≡ none)
    × (db
        ≡ add_run run
            (write_rows call.id metric_version h.turns h.metrics [] (some h.audio) before))

-- The cause of a failure with its reason, and the rows that are left.
abbrev pub Cause : Listening → Option String → String → String → Tables → Tables → Type 0
Cause l writing id reason before rows =
    ((l ≡ raised reason) × (rows ≡ before))
    ⊎ (((l ≡ no_audio) × (reason ≡ "no audio registered for call") × (rows ≡ before))
        ⊎ ((writing ≡ some reason) × (rows ≡ cleared id before)))

-- The run and the call name one reason for the failure, and it has a cause.
abbrev pub Failed : Listening → Option String → Tables → IngestRun × Call × Tables → Type 0
Failed l writing before (run, call, db) =
    (reason : String) × (rows : Tables) × (run.status ≡ "failed")
    × (run.error ≡ some reason)
    × (call.status ≡ "failed")
    × (call.analysis_error ≡ some reason)
    × (db ≡ add_run run rows)
    × Cause l writing call.id reason before rows

abbrev pub Ends : Listening → Option String → Tables → IngestRun × Call × Tables → Type 0
Ends l writing before end = Succeeded l before end ⊎ Failed l writing before end
