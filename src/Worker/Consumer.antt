-- ===== src/Worker/Consumer.antt =====
-- The analysis consumer, src/voiceobs/worker/run.py. `process` is an argument that changes the columns
-- of its call; what one attempt to handle a record does is an argument of the retries.
pub mod Erased
pub mod Settled
mod Tests
use actioneer_pulse.Common.{
  Bool, true, false, not, String, Option, none, some, List, [], ◌∷◌, ◌++◌, ◌&&◌, ◌||◌, ◌==◌, filter,
  find, length, take, is_some, get_or, truthy?, str_eq, if◌then◌else◌, ltb, leb, ℕ, zero, suc, ◌+◌,
}
use actioneer_pulse.Common.Sort.{sort_by}
use actioneer_pulse.Model.Value.{Conversions}
use actioneer_pulse.Calculator.Report.{metric_version}
use actioneer_pulse.Bus.{Record, Headers}
use actioneer_pulse.Ingest.{
  Codec, Batch, Call, Tables, named, decode_record, identify, tombstoned, update_first, upsert_call,
  store_fragment,
}

-- How `process` ends: with a return, with an UnsupportedSchema, or with another exception. Of these
-- tables it changes the columns of its call, and never a key or a call id.
pub data Processed : Type 0 where
  analysed : (Call → Call) → Processed
  unsupported : (Call → Call) → Processed
  broken : Processed

abbrev pub assigned : (Call → Call) → Call → Call
assigned columns row = record (columns row) { id = row.id; external_call_id = row.external_call_id }

-- The call's row is an object of the session.
abbrev pub assign : (Call → Call) → Call → Tables → Tables
assign columns row db = record db {
  calls = update_first (named row.external_call_id) (assigned columns) db.calls;
}

-- `call.metric_version is None or call.metric_version != METRIC_VERSION`
abbrev stale : Call → Bool
stale row = elim row.metric_version [ none ↦ true | some v ↦ not (v == metric_version) ]

-- `_ready_now`
unfoldable pub ready_now : Call → Bool
ready_now row =
    row.spans_complete && row.media_ready && not (str_eq row.status "unsupported") && stale row

abbrev pub set_unsupported : Call → Call
set_unsupported row = record row { status = "unsupported" }

-- `if b.call_id is not None: upsert_call(db, b)`
abbrev pub upserted :
    ⦃c : Conversions⦄
    → (String → Option String)
    → ℕ
    → String
    → Batch
    → Option String
    → Tables
    → Tables
upserted script now id b none db = db
upserted script now id b (some call_id) db = record db {
  calls = upsert_call script now id b call_id db.calls;
}

module _ (process : Call → Tables → Processed) where
  -- `_analyse`: no result is an exception that it lets through.
  unfoldable pub analyse : Call → Tables → Option (Bool × Tables)
  unfolding update_first
  analyse row db = elim (process row db) [
    | analysed columns ↦ some (true, assign columns row db)
    | unsupported columns ↦ some (false, assign (λ found. set_unsupported (columns found)) row db)
    | broken ↦ none
  ]

  -- The end of `handle_record`: the call as it is after the fragment is stored.
  unfoldable pub analyse_ready : Option String → Tables → Option (Option String × Tables)
  unfolding ready_now analyse
  analyse_ready none db = some (none, db)
  analyse_ready (some call_id) db = elim (find (named call_id) db.calls) [
    | none ↦ some (none, db)
    | some row ↦ elim (ready_now row) [
      | false ↦ some (none, db)
      | true ↦ elim (analyse row db) [
        | none ↦ none
        | some (judge, after) ↦ some (if judge then some row.external_call_id else none, after)
      ]
    ]
  ]

  module _ ⦃c : Conversions⦄ (codec : Codec) (script : String → Option String) (now : ℕ)
      (id : String) where
    -- `handle_record` from the tombstones on.
    unfoldable pub handle_batch : Record → Batch → Tables → Option (Option String × Tables)
    unfolding analyse_ready
    handle_batch r b db =
        if tombstoned db b.call_id
        then some (none, db)
        else analyse_ready b.call_id (
            store_fragment codec now b r.headers.batch_id r.headers.seq
              (upserted script now id b b.call_id db))

    -- `handle_record` on the tables of the record's organisation.
    unfoldable pub handle_record : Record → Tables → Option (Option String × Tables)
    unfolding handle_batch
    handle_record r db = elim (decode_record codec r) [
      | none ↦ none
      | some (resource, spans) ↦
          handle_batch r (identify db.calls resource spans (truthy? (some r.headers.agent_id))) db
    ]

  -- The condition of the grace path; a call without a time is not before the cutoff.
  unfoldable pub due : ℕ → Call → Bool
  due cutoff row =
      row.spans_complete
      && not (str_eq row.status "unsupported")
      && (row.media_ready || elim row.last_activity_at [ none ↦ false | some t ↦ ltb t cutoff ])
      && stale row

  -- ORDER BY last_activity_at: rows without a time come last.
  abbrev quieter : Call → Call → Bool
  quieter a b = elim a.last_activity_at [
    | none ↦ not (is_some b.last_activity_at)
    | some s ↦ elim b.last_activity_at [ none ↦ true | some t ↦ leb s t ]
  ]

  -- The calls of one organisation, with the ids to judge: no result is an exception.
  unfoldable pub analyse_all : List Call → Tables → Option (List String × Tables)
  unfolding analyse
  analyse_all [] db = some ([], db)
  analyse_all (row ∷ rows) db = elim (analyse row db) [
    | none ↦ none
    | some (judge, after) ↦ elim (analyse_all rows after) [
      | none ↦ none
      | some (judged, last) ↦ some (if judge then row.external_call_id ∷ judged else judged, last)
    ]
  ]

  -- The body of the loop of `flush_due` over the organisations, with the number of calls analysed.
  unfoldable pub flush_org : ℕ → ℕ → Tables → Option (List String × ℕ × Tables)
  unfolding due sort_by analyse_all
  flush_org cutoff batch db =
      let rows = take batch (sort_by quieter (filter (due cutoff) db.calls)) in
      elim (analyse_all rows db) [
        | none ↦ none
        | some (judged, after) ↦ some (judged, length rows, after)
      ]

-- The database and the judge's queue.
pub record Work (W : Type 0) : Type 0 where
  pub world : W
  pub judge_queue : List (String × String)

-- What the consumer's loop leaves: the work, the dead letters, the offsets.
pub record Loop (W : Type 0) : Type 0 where
  pub work : Work W
  pub dead_letters : List Record
  pub committed : List Record

-- `_to_dlq`
abbrev pub dead : String → Record → Record
dead topic r = record r {
  topic = topic;
  headers = record r.headers { error = some "max retries exceeded" };
}

-- How the try block ends: with a return, or with an exception.
pub data Attempted (W : Type 0) : Type 0 where
  done : Work W → Attempted W
  failed : Work W → Attempted W

abbrev pub enqueued : Record → String → List (String × String) → List (String × String)
enqueued r call_id queue = queue ++ (get_or (truthy? (some r.headers.org)) "default", call_id) ∷ []

-- `handle` is `handle_record` in its transaction: no result is an exception, which rolls it back, and
-- a result is committed. `sends` is whether the producer takes the judge request of an attempt.
module _ {W : Type 0} (handle : ℕ → Record → W → Option (Option String × W))
    (sends : ℕ → String → Bool) where
  -- The try block of one attempt.
  unfoldable pub attempt : ℕ → Record → Work W → Attempted W
  attempt k r s = elim (handle k r s.world) [
    | none ↦ failed s
    | some (judge, after) ↦ elim (truthy? judge) [
      | none ↦ done (record s { world = after })
      | some call_id ↦
          if sends k call_id
          then done (record { world = after; judge_queue = enqueued r call_id s.judge_queue })
          else failed (record s { world = after })
    ]
  ]

  -- At most n attempts, from attempt k on.
  unfoldable pub attempts : ℕ → ℕ → Record → Work W → Attempted W
  unfolding attempt
  attempts zero k r s = failed s
  attempts (suc n) k r s = elim (attempt k r s) [
    | done t ↦ done t
    | failed t ↦ attempts n (suc k) r t
  ]

  -- `_consume_one`, and then `consumer.commit(record)`, for it returns true.
  unfoldable pub consume_one : String → ℕ → Record → Loop W → Loop W
  unfolding attempts
  consume_one dlq_topic max_retries r s = elim (attempts max_retries 0 r s.work) [
    | done t ↦ record s { work = t; committed = s.committed ++ r ∷ [] }
    | failed t ↦ record {
      work = t;
      dead_letters = s.dead_letters ++ dead dlq_topic r ∷ [];
      committed = s.committed ++ r ∷ [];
    }
  ]

  -- The loop of `main` over the records that are polled.
  unfoldable pub consume_all : String → ℕ → List Record → Loop W → Loop W
  consume_all dlq_topic max_retries [] s = s
  consume_all dlq_topic max_retries (r ∷ rs) s =
      consume_all dlq_topic max_retries rs (consume_one dlq_topic max_retries r s)
