-- ===== src/GroundTruth.antt =====
-- What the producer reports against what the audio shows: src/voiceobs/groundtruth/report.py and
-- service.py. Times are in tenths of a millisecond. A recording is a text that stands for its bytes.
-- `transcribe` is an argument: `none` where no speech-to-text is configured.
pub mod Words
pub mod Bands
mod Tests
use actioneer_pulse.Common.{
  Bool, true, false, String, Option, none, some, List, [], ◌∷◌, ◌++◌, ◌*◌, ◌<◌, map, filter,
  filter_map, nonempty, get_or, or_else, truthy, truthy?, if◌then◌else◌, ltb, ℕ,
}
use actioneer_pulse.Common.Int.{ℤ, pos, ◌-ℤ◌, pos_part, neg_part, ltb_ℤ, round_quot}
use actioneer_pulse.Common.Strings.{join, strip, take_text}
use actioneer_pulse.Model.{Turn}
use actioneer_pulse.Model.Value.{Value}
use actioneer_pulse.GroundTruth.Words.{Rate, wer}

pub data Verdict : Type 0 where
  agree material unverifiable : Verdict

pub data Dimension : Type 0 where
  voice_to_voice endpointing interruption truncation transcript dead_air : Dimension

-- A reported or measured value: milliseconds in tenths, a rate in thousandths, or a text.
pub data Amount : Type 0 where
  tenths : ℤ → Amount
  thousandths : ℕ → Amount
  words : String → Amount

pub record Discrepancy : Type 0 where
  pub dimension : Dimension
  pub field : String
  pub turn_index : Option ℤ
  pub reported : Option Amount
  pub measured : Option Amount
  pub delta : Option Amount
  pub band : Option Amount
  pub verdict : Verdict
  pub note : Option String

pub record AudioReport : Type 0 where
  pub discrepancies : List Discrepancy
  pub layers_run : List String

abbrev pub is_material : Verdict → Bool
is_material Verdict.material = true
is_material v = false

-- `AudioReport.material`
unfoldable pub material_of : AudioReport → List Discrepancy
material_of r = filter (λ d. is_material d.verdict) r.discrepancies

-- The bands: tenths of a millisecond, and thousandths; no code reads min_coverage, in thousandths.
pub record TolerancePolicy : Type 0 where
  pub first_audio_band : ℕ
  pub transcript_wer_band : ℕ
  pub min_coverage : ℕ

abbrev pub default_policy : TolerancePolicy
default_policy = record { first_audio_band = 1500; transcript_wer_band = 200; min_coverage = 800 }

-- `abs(x)`
unfoldable pub magnitude : ℤ → ℕ
unfolding pos_part neg_part
magnitude x = if ltb_ℤ x (pos 0) then neg_part x else pos_part x

abbrev onset_note : ℤ → String
onset_note delta =
    if ltb_ℤ (pos 0) delta
    then "audio shows the agent spoke later than reported"
    else "audio shows the agent spoke earlier than reported"

-- The entry of a turn that has both values.
unfoldable pub onset : TolerancePolicy → Turn → ℤ → ℤ → Discrepancy
unfolding magnitude
onset policy t reported measured =
    let delta = measured -ℤ reported in
    let beyond = ltb policy.first_audio_band (magnitude delta) in
    record {
      dimension = Dimension.voice_to_voice;
      field = "first_audio_ms";
      turn_index = some t.turn_index;
      reported = some (tenths reported);
      measured = some (tenths measured);
      delta = some (tenths delta);
      band = some (tenths (pos policy.first_audio_band));
      verdict = if beyond then Verdict.material else Verdict.agree;
      note = if beyond then some (onset_note delta) else none;
    }

-- A turn that misses a value is passed over.
unfoldable pub timed : TolerancePolicy → Turn → Option Discrepancy
timed policy t = elim t.tts_first_audio_at [
  | none ↦ none
  | some reported ↦ elim t.audio_out_start_s [
    | none ↦ none
    | some measured ↦ some (onset policy t reported measured)
  ]
]

-- `_timing`
unfoldable pub timing : List Turn → TolerancePolicy → List Discrepancy
timing turns policy = filter_map (timed policy) turns

-- A turn's texts are texts or None.
abbrev text_of : Option Value → Option String
text_of (some (Value.text s)) = truthy? (some s)
text_of v = none

unfoldable pub caller_ref : List Turn → String
unfolding join
caller_ref turns = join " " (filter_map (λ t. text_of t.transcript) turns)

unfoldable pub agent_ref : List Turn → String
unfolding join strip
agent_ref turns =
    strip
      (join " " (map (λ t. get_or (or_else (text_of t.llm_spoken) (text_of t.llm_raw)) "") turns))

-- `round(wer(ref, text), 3)`
unfoldable pub rounded_wer : String → String → ℕ
unfolding wer round_quot
rounded_wer ref text = let r : Rate = wer ref text in round_quot (1000 * r.errors) r.words

-- The entry of a channel that was heard.
unfoldable pub compared : TolerancePolicy → String → String → String → Discrepancy
unfolding take_text
compared policy field ref text =
    let w = rounded_wer ref text in
    let beyond = ltb policy.transcript_wer_band w in
    record {
      dimension = Dimension.transcript;
      field = field;
      turn_index = none;
      reported = some (words (take_text 120 ref));
      measured = some (words (take_text 120 text));
      delta = some (thousandths w);
      band = some (thousandths policy.transcript_wer_band);
      verdict = if beyond then Verdict.material else Verdict.agree;
      note = if beyond then some "producer transcript diverges from the audio" else none;
    }

unfoldable pub unheard : String → Discrepancy
unheard field = record {
  dimension = Dimension.transcript;
  field = field;
  turn_index = none;
  reported = none;
  measured = none;
  delta = none;
  band = none;
  verdict = Verdict.unverifiable;
  note = some "STT unavailable";
}

-- The entry of a channel that has a reference and a recording.
unfoldable pub heard :
    (String → Option String) → TolerancePolicy → String → String → String → Discrepancy
unfolding compared unheard
heard transcribe policy field ref wav = elim (transcribe wav) [
  | none ↦ unheard field
  | some text ↦ compared policy field ref text
]

-- The body of the loop over the channels.
unfoldable pub channel :
    (String → Option String) → TolerancePolicy → String → String → Option String → List Discrepancy
channel transcribe policy field ref wav = elim (truthy? (some ref)) [
  | none ↦ []
  | some ref ↦ elim (truthy? wav) [
    | none ↦ []
    | some wav ↦ heard transcribe policy field ref wav ∷ []
  ]
]

-- `_transcript`; `out or None`.
unfoldable pub transcript_check :
    List Turn
    → Option String
    → Option String
    → Option (String → Option String)
    → TolerancePolicy
    → Option (List Discrepancy)
transcript_check turns caller_wav agent_wav none policy = none
transcript_check turns caller_wav agent_wav (some transcribe) policy =
    let out =
      channel transcribe policy "caller_wer" (caller_ref turns) caller_wav
      ++ channel transcribe policy "agent_wer" (agent_ref turns) agent_wav in
    if nonempty out then some out else none

unfoldable pub reconcile :
    List Turn
    → Option String
    → Option String
    → Option (String → Option String)
    → TolerancePolicy
    → AudioReport
unfolding timing transcript_check
reconcile turns caller_wav agent_wav stt policy =
    elim (transcript_check turns caller_wav agent_wav stt policy) [
      | none ↦ record { discrepancies = timing turns policy; layers_run = "timing" ∷ [] }
      | some d ↦ record {
        discrepancies = timing turns policy ++ d;
        layers_run = "timing" ∷ "transcript" ∷ [];
      }
    ]
