-- ===== src/Process/Listen.antt =====
-- What the audio paths read before they write: `_resolve_channel_map`, `_audio_bytes`,
-- `_analyze_layout`, `_stt_turns` and the body of `process_audio_only` up to the writing. Recordings
-- are texts that stand for their bytes. The audio code and the speech services are arguments.
use actioneer_pulse.Common.{
  Bool, true, false, String, Option, none, some, List, [], ◌∷◌, ◌==◌, ◌-◌, filter, nonempty,
  truthy?, str_eq, if◌then◌else◌, ℕ,
}
use actioneer_pulse.Common.Int.{ℤ}
use actioneer_pulse.Common.Dict.{Dict, lookup, insert}
use actioneer_pulse.Model.{AudioAnalysis, MetricValue, Turn}
use actioneer_pulse.Model.Value.{Conversions}
use actioneer_pulse.Speech.{Segment, Word, assign_roles, to_utterances, build_turns}
use actioneer_pulse.Process.Rows.{MediaRow}
use actioneer_pulse.Process.Persist.{Listening, no_audio, heard, raised}

-- What a call of other software gives: a value, or an exception with its text.
pub data Result (A : Type 0) : Type 0 where
  ok : A → Result A
  error : String → Result A

-- `{m.kind: m for m in …}`
unfoldable pub kinds_from : Dict MediaRow → List MediaRow → Dict MediaRow
kinds_from kinds [] = kinds
kinds_from kinds (m ∷ media) = kinds_from (insert m.kind m kinds) media

-- `_resolve_channel_map`: the explicit map, else the agent's channel by its noise floor.
unfoldable pub resolve_channel_map : List (ℕ × String) → Option ℕ → Bool → List (ℕ × String)
resolve_channel_map (entry ∷ channel_map) agent_channel from_mono_pair = entry ∷ channel_map
resolve_channel_map [] (some agent) false = (agent, "agent") ∷ (1 - agent, "caller") ∷ []
resolve_channel_map [] none false = (0, "caller") ∷ (1, "agent") ∷ []
resolve_channel_map [] agent_channel true = (0, "caller") ∷ (1, "agent") ∷ []

-- `m.uri` of a medium that is there, where it is not empty.
abbrev uri_of : Option MediaRow → Option String
uri_of none = none
uri_of (some m) = truthy? m.uri

-- `m.sample_rate or 8000`
abbrev rate_of : Option MediaRow → ℕ
rate_of none = 8000
rate_of (some m) = elim m.sample_rate [ none ↦ 8000 | some r ↦ if r == 0 then 8000 else r ]

pub record Diarization : Type 0 where
  pub segments : List Segment
  pub confidence : Option ℤ

-- The audio code and the services: what `fetch_bytes`, `combine_stereo`, `detect_layout`,
-- `analyze_audio` (with the sample rate and whether the channels are separated),
-- `audio_only_metrics`, `_run_diarization` and `transcribe_sides` give.
pub record Tools : Type 0 where
  pub fetch : String → Result String
  pub combine : String → String → Result String
  pub layout : String → Result String
  pub analyze : String → ℕ → Bool → Result AudioAnalysis
  pub metrics : AudioAnalysis → Result (List MetricValue)
  pub diarize : String → Result (Option Diarization)
  pub words : String → Result (Dict (List Word))

-- `_audio_bytes`: a recording and its rate.
unfoldable pub audio_bytes : Tools → Dict MediaRow → Result (Option String × ℕ)
unfolding lookup
audio_bytes t kinds =
    let stereo = lookup "audio" kinds in
    let caller = lookup "audio_caller" kinds in
    let agent = lookup "audio_agent" kinds in
    elim (uri_of stereo) [
      | some uri ↦ elim (t.fetch uri) [ error e ↦ error e | ok wav ↦ ok (some wav, rate_of stereo) ]
      | none ↦ elim (uri_of caller) [
        | none ↦ ok (none, 8000)
        | some u ↦ elim (uri_of agent) [
          | none ↦ ok (none, 8000)
          | some v ↦ elim (t.fetch u) [
            | error e ↦ error e
            | ok a ↦ elim (t.fetch v) [
              | error e ↦ error e
              | ok b ↦ elim (t.combine a b) [
                | error e ↦ error e
                | ok wav ↦ ok (some wav, rate_of caller)
              ]
            ]
          ]
        ]
      ]
    ]

abbrev pub Analyzed : Type 0
Analyzed = AudioAnalysis × String × Option ℤ

-- The end of `_analyze_layout` for a single track.
unfoldable pub with_speakers : AudioAnalysis → Option Diarization → Analyzed
unfolding assign_roles to_utterances
with_speakers base none = (base, "audio-only", none)
with_speakers base (some d) =
    if nonempty d.segments
    then (
      record base { utterances = to_utterances d.segments (assign_roles d.segments none) },
      "diarized",
      d.confidence,
    )
    else (base, "audio-only", none)

-- `_analyze_layout`
unfoldable pub analyze_layout : Tools → String → ℕ → String → Result Analyzed
unfolding with_speakers
analyze_layout t wav rate layout =
    if str_eq layout "separated"
    then elim (t.analyze wav rate true) [
      | error e ↦ error e
      | ok audio ↦ ok (audio, "audio-only", none)
    ]
    else elim (t.analyze wav rate false) [
      | error e ↦ error e
      | ok base ↦ elim (t.diarize wav) [ error e ↦ error e | ok d ↦ ok (with_speakers base d) ]
    ]

module _ ⦃c : Conversions⦄ where
  -- `_stt_turns` where it is asked for and a service is configured.
  unfoldable pub stt_turns : Tools → Bool → String → AudioAnalysis → Result (List Turn)
  unfolding build_turns
  stt_turns t false wav audio = ok []
  stt_turns t true wav audio = elim (t.words wav) [
    | error e ↦ error e
    | ok words ↦ ok (if nonempty words then build_turns audio.utterances words else [])
  ]

  -- From the layout on: `process_audio_only` with its recording.
  unfoldable pub listen_to : Tools → Bool → String → ℕ → Listening
  unfolding analyze_layout stt_turns
  listen_to t use_stt wav rate = elim (t.layout wav) [
    | error e ↦ raised e
    | ok layout ↦ elim (analyze_layout t wav rate layout) [
      | error e ↦ raised e
      | ok (audio, mode, confidence) ↦ elim (t.metrics audio) [
        | error e ↦ raised e
        | ok metrics ↦ elim (stt_turns t use_stt wav audio) [
          | error e ↦ raised e
          | ok turns ↦ heard (record {
            audio = audio;
            metrics = metrics;
            layout = layout;
            mode = mode;
            confidence = confidence;
            turns = turns;
          })
        ]
      ]
    ]
  ]

  unfoldable pub listen : Tools → Bool → String → List MediaRow → Listening
  unfolding kinds_from audio_bytes listen_to
  listen t use_stt id media =
      elim (audio_bytes t (kinds_from [] (filter (λ m. str_eq m.call_id id) media))) [
        | error e ↦ raised e
        | ok (none, rate) ↦ no_audio
        | ok (some wav, rate) ↦ listen_to t use_stt wav rate
      ]
