-- ===== src/Process/Run.antt =====
-- `process`, `process_trace` and `ensure_audio_call`: from a call's fragments to its rows, in one
-- transaction. The choice of a tenant's mapping, the audio that `_load_audio` gives and the report of
-- the reconciliation are arguments.
pub mod Settles
pub mod Tests
use actioneer_pulse.Common.{
  Bool, true, false, String, Option, none, some, List, [], ◌∷◌, ◌++◌, any, map, filter, find,
  opt_eq, str_eq, leb, if◌then◌else◌, ℕ,
}
use actioneer_pulse.Common.Int.{ℤ}
use actioneer_pulse.Common.Dict.{Dict}
use actioneer_pulse.Common.Sort.{sort_by}
use actioneer_pulse.Model.{Trace, AudioAnalysis, Analysis}
use actioneer_pulse.Model.Value.{Conversions}
use actioneer_pulse.Calculator.Report.{MetricConfig}
use actioneer_pulse.Calculator.Analyze.{analyze}
use actioneer_pulse.Frameworks.Otlp.{Payload}
use actioneer_pulse.Frameworks.Livekit.{Metrics}
use actioneer_pulse.Frameworks.Registry.{framework_for}
use actioneer_pulse.GroundTruth.{AudioReport}
use actioneer_pulse.Ingest.{Codec, RawFragment}
use actioneer_pulse.Pricing.{ModelPrice}
use actioneer_pulse.Process.Assemble.{assemble}
use actioneer_pulse.Process.Rollup.{Call}
use actioneer_pulse.Process.Persist.{IngestRun, Tables, add_run, store_analysis}

-- What a run is given besides the call: the prices, the header's columns, the clock, the audio
-- switch, the audio, its offset, and the report on what was analysed.
pub record Given : Type 0 where
  pub pricing : Dict ModelPrice
  pub header : Trace → Call → Call
  pub now : ℕ
  pub config : MetricConfig
  pub audio_enabled : Bool
  pub audio : Option AudioAnalysis
  pub t0_offset : Option ℤ
  pub report : Analysis → Option AudioReport

abbrev pub heard_audio : Given → Option AudioAnalysis
heard_audio g = if g.audio_enabled then g.audio else none

-- `process_trace`
unfoldable pub process_trace :
    ⦃c : Conversions⦄ → Given → Trace → ℕ → Call × Tables → IngestRun × Call × Tables
unfolding store_analysis
process_trace g trace adapter_version state =
    let audio = heard_audio g in
    let analysis : Analysis =
      analyze adapter_version trace audio g.config g.t0_offset g.audio_enabled in
    store_analysis g.pricing (g.header trace) g.now trace analysis adapter_version g.audio_enabled
      audio (g.report analysis) state

-- The row of a run that has not come to its end.
abbrev pub running : String → IngestRun
running id = record { call_id = id; status = "running"; error = none; finished_at = none }

-- How `process` ends. An UnsupportedSchema, which the callers catch and commit, leaves the row of its
-- run behind; any other exception rolls the transaction back.
pub data Ending : Type 0 where
  finished : IngestRun × Call × Tables → Ending
  unsupported : Tables → Ending
  broken : Ending

abbrev pub by_seq : RawFragment → RawFragment → Bool
by_seq a b = leb a.seq b.seq

-- `payloads`
unfoldable pub payloads_of : String → List RawFragment → List String
unfolding sort_by
payloads_of id fragments =
    map (λ f. f.payload) (sort_by by_seq (filter (λ f. opt_eq f.call_id (some id)) fragments))

-- A tenant's mapping to a trace, with its version.
abbrev pub Mapping : Type 0
Mapping = (Payload → Option Trace) × ℕ

module _ ⦃c : Conversions⦄ (loads : String → Option Metrics) (grain : ℤ → ℤ) where
  -- The adapter's trace and version: no result is an UnsupportedSchema.
  unfoldable pub trace_of : Option Mapping → Payload → Option (Trace × ℕ)
  unfolding framework_for
  trace_of (some (expr, version)) payload = elim (expr payload) [
    | none ↦ none
    | some trace ↦ some (trace, version)
  ]
  trace_of none payload = elim (framework_for loads grain payload) [
    | none ↦ none
    | some f ↦ elim (f.to_trace payload) [ none ↦ none | some trace ↦ some (trace, f.version) ]
  ]

  unfoldable pub process :
      Codec → Given → Option Mapping → List RawFragment → Call × Tables → Ending
  unfolding payloads_of assemble trace_of process_trace
  process codec g mapping fragments (call, db) =
      elim (assemble codec (payloads_of call.id fragments)) [
        | none ↦ broken
        | some payload ↦ elim (trace_of mapping payload) [
          | none ↦ unsupported (add_run (running call.id) db)
          | some (trace, version) ↦ finished (process_trace g trace version (call, db))
        ]
      ]

-- `ensure_audio_call`: the call of this id, and the table; `new` is the row that would be added.
unfoldable pub ensure_audio_call : String → Call → List Call → Call × List Call
ensure_audio_call external_call_id new calls =
    elim (find (λ row. str_eq row.external_call_id external_call_id) calls) [
      | some row ↦ (row, calls)
      | none ↦ (new, calls ++ new ∷ [])
    ]
