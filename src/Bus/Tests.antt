-- ===== src/Bus/Tests.antt =====
-- The bus at concrete inputs.
use actioneer_pulse.Common.{String, none, some, List, [], ◌∷◌, ◌≡◌, refl, str_eq}
use actioneer_pulse.Common.Dict.{lookup, insert}
use actioneer_pulse.Bus.{Headers, Record, records, send, poll}
use actioneer_pulse.Bus.Queue.{Act, sends, polls, run_bus, run_queue, run_bus-queue}

abbrev headers : Headers
headers = record {
  org = "acme";
  agent_id = "";
  shard_key = "k";
  trace_id = "t";
  batch_id = "b";
  seq = 0;
  received_at = 0;
  error = none;
}

abbrev acts : List Act
acts =
    sends "raw" none "1" headers
    ∷ sends "dlq" none "2" headers
    ∷ polls
    ∷ sends "raw" none "3" headers
    ∷ polls
    ∷ polls
    ∷ []

run_bus-queue_example : run_bus "raw" acts [] ≡ run_queue "raw" acts (records "raw" [])
run_bus-queue_example = run_bus-queue "raw" acts []

abbrev message : String → Record
message value = record { topic = "raw"; key = none; value = value; headers = headers }

polled : run_bus "raw" acts [] ≡ some (message "1") ∷ some (message "3") ∷ none ∷ []
unfolding run_bus send poll records lookup insert str_eq
polled = refl
