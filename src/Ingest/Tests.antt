-- ===== src/Ingest/Tests.antt =====
-- Ingestion at concrete inputs: an export with the spans of two calls.
use actioneer_pulse.Common.{
  ◌++◌, ◌||◌, true, false, String, Option, none, some, List, [], ◌∷◌, ◌≡◌, refl, arith, any, filter,
  map, str_eq, if◌then◌else◌, ℕ,
}
use actioneer_pulse.Common.Dict.{lookup}
use actioneer_pulse.Model.Value.{Conversions}
use actioneer_pulse.Frameworks.Otlp.{OtlpSpan, Payload, attrs_to_dict}
use actioneer_pulse.Ingest.{
  Codec, Batch, Call, Tables, named, promoted, decode_record, upsert_call, call_pk, said, attr,
  trace_of,
}
use actioneer_pulse.Ingest.Shard.{
  Request, shard, produce, shard_key, shard_spans, shard_from, append_span,
}
use actioneer_pulse.Ingest.Shard.Partition.{spans_at, belongs, exported, shard-belongs}
use actioneer_pulse.Ingest.Shard.Wire.{Inverse, count_from, produce-decode_record}
use actioneer_pulse.Ingest.Once.{Delivery, deliver, deliver_all, store_fragment-redelivered}
use actioneer_pulse.Ingest.Calls.{IsUnique, key, upsert_call-IsUnique}

abbrev no_numbers : Conversions
no_numbers = record { float_of_text = λ s. none; int_of_text = λ s. none; repr = λ v. "value" }

abbrev span : String → String → OtlpSpan
span id trace = record {
  span_id = id;
  trace_id = some trace;
  parent_span_id = none;
  name = "span";
  start_time = 0;
  end_time = none;
  status_code = "";
  attributes = none;
  events = [];
}

abbrev payload : Payload
payload =
    record {
      resource = none;
      scope_spans = (span "a" "t1" ∷ span "b" "t2" ∷ []) ∷ (span "c" "t1" ∷ []) ∷ [];
    }
    ∷ []

shard-belongs_example :
    spans_at "t1" (shard ⦃c = no_numbers⦄ payload)
    ≡ filter (belongs ⦃c = no_numbers⦄ "t1") (exported payload)
shard-belongs_example = shard-belongs ⦃c = no_numbers⦄ payload "t1"

abbrev one : List OtlpSpan → Payload
one spans = record { resource = none; scope_spans = spans ∷ [] } ∷ []

-- A codec that knows the two slices by their trace.
abbrev codec : Codec
codec = record {
  pack = λ p. trace_of (exported p);
  unpack = λ t. some (
      if str_eq t "t1" then one (span "a" "t1" ∷ span "c" "t1" ∷ []) else one (span "b" "t2" ∷ []));
}

abbrev request : Request
request = record {
  topic = "raw-spans";
  org = "acme";
  agent_id = none;
  batch_id = "b1";
  received_at = 7;
}

codec-Inverse : Inverse codec (shard ⦃c = no_numbers⦄ payload)
unfolding shard shard_from shard_spans append_span shard_key attr said attrs_to_dict str_eq trace_of
    lookup
codec-Inverse = (refl, (refl, tt))

produce-decode_record_example :
    (map (decode_record codec) (produce ⦃c = no_numbers⦄ codec request payload)
      ≡ map (λ entry. some entry.1) (shard ⦃c = no_numbers⦄ payload))
    × (map (λ r. r.headers.seq) (produce ⦃c = no_numbers⦄ codec request payload)
        ≡ count_from 0 (shard ⦃c = no_numbers⦄ payload))
produce-decode_record_example =
    produce-decode_record ⦃c = no_numbers⦄ codec request payload codec-Inverse

abbrev call : Call
call = record {
  id = "1";
  external_call_id = "t1";
  trace_id = some "t1";
  source = "app";
  environment = "prod";
  schema_version = none;
  agent_id = none;
  prompt_id = none;
  status = "awaiting_media";
  spans_complete = false;
  media_ready = false;
  metric_version = none;
  last_activity_at = none;
}

abbrev tables : Tables
tables = record { calls = call ∷ []; fragments = []; tombstones = [] }

abbrev batch : Option String → Batch
batch id = record {
  call_id = id;
  trace_id = "t1";
  root = none;
  resource = none;
  attrs = [];
  spans = span "a" "t1" ∷ [];
  agent_id = none;
}

abbrev delivery : ℕ → Delivery
delivery now = record { now = now; batch = batch (some "t1"); batch_id = "b1"; seq = 0 }

abbrev other : Delivery
other = record { now = 8; batch = batch (some "t1"); batch_id = "b1"; seq = 1 }

known : call_pk tables.calls (some "t1") ≡ some "1"
unfolding call_pk str_eq
known = refl

store_fragment-redelivered_example :
    let after = deliver_all codec (other ∷ []) (deliver codec (delivery 7) tables) in
    deliver codec (delivery 9) after ≡ after
store_fragment-redelivered_example =
    store_fragment-redelivered codec (delivery 7) (delivery 9) (other ∷ []) "1" tables known refl
      refl refl

no_doubles : IsUnique (call ∷ [])
no_doubles e = ground arith

upsert_call-IsUnique_example :
    let after =
      upsert_call ⦃c = no_numbers⦄ (λ agent. none) 9 "2" (batch (some "x")) "x" (call ∷ []) in
    (any (named "x") after ≡ true)
    × IsUnique after
    × (map key after
        ≡ map key (call ∷ [])
          ++ (if any (named "x") (call ∷ []) || promoted (batch (some "x")) (call ∷ [])
              then []
              else "2" ∷ []))
upsert_call-IsUnique_example =
    upsert_call-IsUnique (λ agent. none) 9 (batch (some "x")) ⦃c = no_numbers⦄ "2" "x" (call ∷ [])
      no_doubles
