-- ===== src/Speech/Tests.antt =====
-- The theorems on speakers and turns at concrete inputs.
use actioneer_pulse.Common.{List, [], ◌∷◌, none, ◌≡◌, filter_map}
use actioneer_pulse.Common.Int.{pos}
use actioneer_pulse.Common.Dict.{Dict}
use actioneer_pulse.Model.{Utterance}
use actioneer_pulse.Model.Value.{Conversions}
use actioneer_pulse.Common.Sort.{sort_by}
use actioneer_pulse.Speech.{Segment, Word, utterance_le, build_turns}
use actioneer_pulse.Speech.Turns.{IsDialogue, answer, agent_texts, build_turns-IsDialogue}

abbrev no_numbers : Conversions
no_numbers = record { float_of_text = λ s. none; int_of_text = λ s. none; repr = λ v. "value" }

abbrev late : Segment
late = record { start = pos 20; end = pos 30; speaker = "S1" }

abbrev early : Segment
early = record { start = pos 5; end = pos 10; speaker = "S0" }

abbrev talk : List Utterance
talk =
    record { channel = "agent"; t_start = pos 10; t_end = pos 20 }
    ∷ record { channel = "caller"; t_start = pos 0; t_end = pos 9 }
    ∷ []

abbrev words : Dict (List Word)
words =
    ("caller", record { text = "hello"; start = pos 2; end = pos 4 } ∷ [])
    ∷ ("agent", record { text = " hi "; start = pos 12; end = pos 14 } ∷ [])
    ∷ []

build_turns-IsDialogue_example :
    IsDialogue 0 (build_turns ⦃c = no_numbers⦄ talk words)
    × (filter_map answer (build_turns ⦃c = no_numbers⦄ talk words)
        ≡ agent_texts words (sort_by utterance_le talk))
build_turns-IsDialogue_example = build_turns-IsDialogue ⦃c = no_numbers⦄ talk words
