-- ===== src/Bus.antt =====
-- src/voiceobs/bus/: a record, and the in-memory bus of bus/memory.py, which keeps the contract of
-- the producers and the consumers.
pub mod Queue
mod Tests
use actioneer_pulse.Common.{
  Bool, String, Option, none, some, List, [], ◌∷◌, ◌++◌, get_or, str_eq, if◌then◌else◌, ℕ,
}
use actioneer_pulse.Common.Dict.{Dict, lookup, insert}

-- The headers of a record; `seq` is the number that its text denotes.
pub record Headers : Type 0 where
  pub org : String
  pub agent_id : String
  pub shard_key : String
  pub trace_id : String
  pub batch_id : String
  pub seq : ℕ
  pub received_at : ℕ
  pub error : Option String

-- The value is a text that stands for its bytes.
pub record Record : Type 0 where
  pub topic : String
  pub key : Option String
  pub value : String
  pub headers : Headers

-- `InMemoryBus.topics`
abbrev pub Topics : Type 0
Topics = Dict (List Record)

-- `self.topics.get(topic, [])`
unfoldable pub records : String → Topics → List Record
unfolding lookup
records topic bus = get_or (lookup topic bus) []

-- `setdefault(topic, []).append(…)`
unfoldable pub send : String → Option String → String → Headers → Topics → Topics
unfolding records insert
send topic key value headers bus =
    insert topic
      (records topic bus
        ++ record { topic = topic; key = key; value = value; headers = headers } ∷ [])
      bus

unfoldable pub drain : String → Topics → List Record × Topics
unfolding records insert
drain topic bus = (records topic bus, insert topic [] bus)

-- `MemoryConsumer.poll`: the first record of the first topic that has one.
unfoldable pub poll : List String → Topics → Option Record × Topics
unfolding records insert
poll [] bus = (none, bus)
poll (topic ∷ topics) bus = elim (records topic bus) [
  | [] ↦ poll topics bus
  | r ∷ rest ↦ (some r, insert topic rest bus)
]
