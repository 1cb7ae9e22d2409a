-- ===== src/Audio/Vad.antt =====
-- Energy VAD, src/voiceobs/core/audio/vad.py. The level of each frame comes from numpy, so it is an
-- argument: a function from the samples and the frame length.
pub mod Runs
use actioneer_pulse.Common.{
  Bool, true, false, not, String, Option, none, some, List, [], ◌∷◌, map, filter, if◌then◌else◌,
  ltb, ℕ, ◌+◌, ◌-◌, ◌*◌, ◌/◌, max,
}
use actioneer_pulse.Common.Int.{ℤ, pos, ltb_ℤ, leb_ℤ, ◌-ℤ◌, round_quot}
use actioneer_pulse.Model.{Utterance}

-- The variables of the loop: `start` and `gap`.
pub record Scan : Type 0 where
  pub start : Option ℕ
  pub gap : ℕ

-- A region of frames, from the first to behind the last.
abbrev pub Region : Type 0
Region = ℕ × ℕ

-- One round at frame i: the region that it closes, if any, and the variables after it.
pub scan_frame : ℕ → ℕ → Bool → Option ℕ → ℕ → Option Region × Scan
scan_frame hangover i true none gap = (none, record { start = some i; gap = 0 })
scan_frame hangover i true (some s) gap = (none, record { start = some s; gap = 0 })
scan_frame hangover i false none gap = (none, record { start = none; gap = gap })
scan_frame hangover i false (some s) gap =
    if ltb hangover (gap + 1)
    then (some (s, i - (gap + 1) + 1), record { start = none; gap = 0 })
    else (none, record { start = some s; gap = gap + 1 })

-- The loop from frame i, and the region that is open at its end.
pub regions_from : ℕ → ℕ → Option ℕ → ℕ → List Bool → List Region
unfolding scan_frame
regions_from hangover i none gap [] = []
regions_from hangover i (some s) gap [] = (s, i) ∷ []
regions_from hangover i start gap (b ∷ speech) =
    let (closed, next) = scan_frame hangover i b start gap in
    let rest = regions_from hangover (i + 1) next.start next.gap speech in
    elim closed [ none ↦ rest | some r ↦ r ∷ rest ]

unfoldable pub regions : ℕ → List Bool → List Region
unfolding regions_from
regions hangover speech = regions_from hangover 0 none 0 speech

-- `round(frame * frame_s, 4)`, where `frame_s` is `frame_len / sample_rate`.
pub frame_time : ℕ → ℕ → ℕ → ℤ
unfolding round_quot
frame_time frame_len sample_rate frame = pos (round_quot (frame * frame_len * 10000) sample_rate)

pub mk : String → ℕ → ℕ → Region → Utterance
unfolding frame_time
mk channel frame_len sample_rate r = record {
  channel = channel;
  t_start = frame_time frame_len sample_rate r.0;
  t_end = frame_time frame_len sample_rate r.1;
}

-- `frame_ms` is in whole milliseconds; the hangover and the shortest utterance are times.
unfoldable pub detect_utterances :
    (List ℤ → ℕ → List ℤ) → List ℤ → String → ℕ → ℤ → ℕ → ℕ → ℤ → List Utterance
unfolding mk regions round_quot
detect_utterances frame_dbfs samples channel sample_rate threshold frame_ms hangover min_utterance =
    let frame_len = max 1 (sample_rate * frame_ms / 1000) in
    let speech = map (λ level. ltb_ℤ threshold level) (frame_dbfs samples frame_len) in
    let hangover_frames = round_quot (hangover * sample_rate) (frame_len * 10000) in
    filter (λ u. leb_ℤ min_utterance (u.t_end -ℤ u.t_start))
      (map (mk channel frame_len sample_rate) (regions hangover_frames speech))
