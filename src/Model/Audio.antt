-- ===== src/Model/Audio.antt =====
-- `Utterance` and `AudioAnalysis` of src/voiceobs/core/model.py.
use actioneer_pulse.Common.{String, List, ℕ}
use actioneer_pulse.Common.Int.{ℤ}
use actioneer_pulse.Common.Dict.{Dict}
use actioneer_pulse.Model.Value.{Value}

pub record Utterance : Type 0 where
  pub channel : String
  pub t_start : ℤ
  pub t_end : ℤ

-- `coverage` is a fraction per channel, in ten-thousandths.
pub record AudioAnalysis : Type 0 where
  pub utterances : List Utterance
  pub peaks : Dict (List ℕ)
  pub energy : Dict (List ℕ)
  pub coverage : Dict ℤ
  pub quality : Dict (Dict Value)
