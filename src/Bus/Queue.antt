-- ===== src/Bus/Queue.antt =====
-- One consumer of one topic against an abstract queue.
use actioneer_pulse.Common.{
  String, Option, none, some, List, [], ◌∷◌, ◌++◌, ◌≡◌, refl, ap, arith, str_eq, if◌then◌else◌,
  Bool-cases, inl, inr, str_eq_refl, str_eq_iff, ◌⊎◌, ◌∙◌,
}
use actioneer_pulse.Common.Dict.{insert, lookup-insert}
use actioneer_pulse.Bus.{Headers, Record, Topics, records, send, poll}

-- What producers and the consumer do, in some order: a message sent to a topic, or a poll.
pub data Act : Type 0 where
  sends : String → Option String → String → Headers → Act
  polls : Act

abbrev message : String → Option String → String → Headers → Record
message topic key value headers = record {
  topic = topic;
  key = key;
  value = value;
  headers = headers;
}

-- The records that the polls of `mine` give.
unfoldable pub run_bus : String → List Act → Topics → List (Option Record)
run_bus mine [] bus = []
run_bus mine (sends topic key value headers ∷ acts) bus =
    run_bus mine acts (send topic key value headers bus)
run_bus mine (polls ∷ acts) bus = let (r, rest) = poll (mine ∷ []) bus in r ∷ run_bus mine acts rest

-- The same on a queue that holds the messages of `mine` alone.
unfoldable pub run_queue : String → List Act → List Record → List (Option Record)
run_queue mine [] queue = []
run_queue mine (sends topic key value headers ∷ acts) queue =
    run_queue mine acts
      (if str_eq topic mine then queue ++ message topic key value headers ∷ [] else queue)
run_queue mine (polls ∷ acts) [] = none ∷ run_queue mine acts []
run_queue mine (polls ∷ acts) (r ∷ queue) = some r ∷ run_queue mine acts queue

List-cases : {A : Type 0} (xs : List A) → (xs ≡ []) ⊎ ((x : A) × (rest : List A) × (xs ≡ x ∷ rest))
List-cases [] = inl refl
List-cases (x ∷ xs) = inr (x, xs, refl)

pub records-insert :
    (mine topic : String) (rs : List Record) (bus : Topics)
    → records mine (insert topic rs bus) ≡ (if str_eq topic mine then rs else records mine bus)
unfolding records
records-insert mine topic rs bus = ground (arith, lookup-insert topic mine rs bus)

records-send :
    (mine topic : String) (key : Option String) (value : String) (headers : Headers) (bus : Topics)
    → records mine (send topic key value headers bus) ≡ (
        if str_eq topic mine
        then records mine bus ++ message topic key value headers ∷ []
        else records mine bus)
unfolding send
records-send mine topic key value headers bus =
    records-insert mine topic (records topic bus ++ message topic key value headers ∷ []) bus
    ∙ own_queue (records mine bus) refl
  where
    own_queue :
        (rs : List Record)
        → rs ≡ records mine bus
        → (if str_eq topic mine
            then records topic bus ++ message topic key value headers ∷ []
            else rs)
          ≡ (if str_eq topic mine then rs ++ message topic key value headers ∷ [] else rs)
    own_queue rs h = elim (Bool-cases (str_eq topic mine)) [
      | inl e ↦ rw (e, ap (λ t. records t bus) ((str_eq_iff topic mine).0 e), h) refl
      | inr e ↦ rw e refl
    ]

-- A consumer of one topic gets the messages of this topic and no others, each once and in the order
-- in which they were sent, however sending and polling alternate, and a poll gives None only when
-- every message was taken.
pub run_bus-queue :
    (mine : String) (acts : List Act) (bus : Topics)
    → run_bus mine acts bus ≡ run_queue mine acts (records mine bus)
unfolding run_bus run_queue poll
run_bus-queue mine [] bus = refl
run_bus-queue mine (sends topic key value headers ∷ acts) bus =
    rw
      (
        run_bus-queue mine acts (send topic key value headers bus),
        records-send mine topic key value headers bus,
      )
      refl
run_bus-queue mine (polls ∷ acts) bus = elim (List-cases (records mine bus)) [
  | inl e ↦
      rw (poll, e) (ap (λ rs. none ∷ rs) (run_bus-queue mine acts bus ∙ ap (run_queue mine acts) e))
  | inr (r, rest, e) ↦
      rw (poll, e)
        (ap (λ rs. some r ∷ rs)
          (run_bus-queue mine acts (insert mine rest bus)
            ∙ ap (run_queue mine acts)
                (records-insert mine mine rest bus ∙ rw (str_eq_refl mine) refl)))
]
