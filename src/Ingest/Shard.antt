-- ===== src/Ingest/Shard.antt =====
-- The producing side of src/voiceobs/ingestion.py: an export is cut into one record for each call.
pub mod Partition
pub mod Wire
use actioneer_pulse.Common.{
  String, Option, none, some, List, [], ◌∷◌, ◌++◌, or_else, get_or, truthy?, nonempty, str_eq,
  if◌then◌else◌, ℕ, suc,
}
use actioneer_pulse.Common.Dict.{Dict}
use actioneer_pulse.Model.Value.{Conversions}
use actioneer_pulse.Bus.{Record, Headers}
use actioneer_pulse.Frameworks.Otlp.{OtlpSpan, Resource, Payload, all_spans}
use actioneer_pulse.Ingest.{Codec, attr, call_id_hints, trace_of, slice_of}

-- A call's resource and spans.
abbrev pub Slice : Type 0
Slice = Option Resource × List OtlpSpan

-- `out.setdefault(key, (resource, []))[1].append(span)`
unfoldable pub append_span : String → Option Resource → OtlpSpan → Dict Slice → Dict Slice
append_span key resource s [] = (key, (resource, s ∷ [])) ∷ []
append_span key resource s ((k, (r, spans)) ∷ out) =
    if str_eq k key
    then (k, (r, spans ++ s ∷ [])) ∷ out
    else (k, (r, spans)) ∷ append_span key resource s out

module _ ⦃c : Conversions⦄ where
  -- `_attr(span, _CALL_ID_HINTS) or span.get("traceId") or ""`
  unfoldable pub shard_key : OtlpSpan → String
  shard_key s = get_or (or_else (truthy? (attr call_id_hints s)) (truthy? s.trace_id)) ""

  -- The loops over the scopes and the spans of one resource.
  unfoldable pub shard_spans : Option Resource → List OtlpSpan → Dict Slice → Dict Slice
  unfolding append_span
  shard_spans resource [] out = out
  shard_spans resource (s ∷ spans) out =
      shard_spans resource spans (append_span (shard_key s) resource s out)

  unfoldable pub shard_from : Payload → Dict Slice → Dict Slice
  unfolding shard_spans
  shard_from [] out = out
  shard_from (rs ∷ payload) out =
      shard_from payload (shard_spans rs.resource (all_spans rs.scope_spans) out)

  unfoldable pub shard : Payload → Dict Slice
  unfolding shard_from
  shard payload = shard_from payload []

-- What one request draws and is given: the batch's id, the clock, the topic, the organisation.
pub record Request : Type 0 where
  pub topic : String
  pub org : String
  pub agent_id : Option String
  pub batch_id : String
  pub received_at : ℕ

-- The record of one call.
unfoldable pub record_of : Codec → Request → ℕ → String → Slice → Record
record_of codec q seq key (resource, spans) =
    let trace_id = trace_of spans in
    record {
      topic = q.topic;
      key = some (get_or (or_else (truthy? (some key)) (truthy? (some trace_id))) q.batch_id);
      value = codec.pack (slice_of resource spans);
      headers = record {
        org = q.org;
        agent_id = get_or q.agent_id "";
        shard_key = key;
        trace_id = trace_id;
        batch_id = q.batch_id;
        seq = seq;
        received_at = q.received_at;
        error = none;
      };
    }

-- The loop of `produce`, with the records in the order in which they are sent.
unfoldable pub produce_from : Codec → Request → ℕ → Dict Slice → List Record
unfolding record_of
produce_from codec q seq [] = []
produce_from codec q seq ((key, slice) ∷ out) =
    let rest = produce_from codec q (suc seq) out in
    if nonempty slice.1 then record_of codec q seq key slice ∷ rest else rest

unfoldable pub produce : ⦃c : Conversions⦄ → Codec → Request → Payload → List Record
unfolding shard produce_from
produce codec q payload = produce_from codec q 0 (shard payload)
