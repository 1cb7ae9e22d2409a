-- ===== src/Transcript/Tests.antt =====
-- The disposition of one call.
use actioneer_pulse.Common.{List, [], ◌∷◌, none, some}
use actioneer_pulse.Common.Int.{pos}
use actioneer_pulse.Transcript.{StoredTurn, CallOutcome}

abbrev stored : List StoredTurn
stored =
    record {
      turn_index = pos 1;
      caller_transcript = some "hello";
      llm_spoken = none;
      llm_raw = some "hi";
    }
    ∷ record {
      turn_index = pos 0;
      caller_transcript = some "";
      llm_spoken = some "hi";
      llm_raw = none;
    }
    ∷ []

abbrev ended : CallOutcome
ended = record { hangup_by = some "remote"; duration_s = none; status = "ingested" }
