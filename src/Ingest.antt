-- ===== src/Ingest.antt =====
-- src/voiceobs/ingestion.py: what the two services share. `Shard` is the producing side, this module
-- the consuming one. gzip and json are the record `Codec`; the clock, the row's key and the scripts'
-- table are arguments.
pub mod Shard
pub mod Once
pub mod Calls
mod Tests
use actioneer_pulse.Common.{
  Bool, true, false, not, String, Option, none, some, List, [], ◌∷◌, ◌++◌, ◌&&◌, ◌==◌, any, find,
  first_some, head?, is_some, get_or, or_else, opt_eq, truthy?, elem, str_eq, if◌then◌else◌, ℕ,
}
use actioneer_pulse.Common.Dict.{Dict, lookup}
use actioneer_pulse.Model.Value.{Value, Conversions, present, str_of, text_or, truthy_value}
use actioneer_pulse.Bus.{Record}
use actioneer_pulse.Frameworks.Otlp.{
  KeyValues, OtlpSpan, Resource, Payload, attrs_to_dict, resource_attributes, all_spans,
}

-- `gzip.compress(json.dumps(x).encode())` and its inverse, where `none` is an exception.
pub record Codec : Type 0 where
  pub pack : Payload → String
  pub unpack : String → Option Payload

abbrev pub call_id_hints : List String
call_id_hints = "voice.call_id" ∷ []

module _ ⦃c : Conversions⦄ where
  -- `str(attrs[k])` of a key that holds something.
  unfoldable pub said : Dict Value → String → Option String
  unfolding truthy_value
  said attrs k = elim (lookup k attrs) [
    | none ↦ none
    | some v ↦ if truthy_value v then some (str_of v) else none
  ]

  -- `_attr`
  unfoldable pub attr : List String → OtlpSpan → Option String
  attr keys s = first_some (said (attrs_to_dict s.attributes)) keys

  -- `_hint`
  unfoldable pub hint : Dict Value → List OtlpSpan → List String → Option String
  hint attrs spans keys =
      or_else (truthy? (first_some (said attrs) keys))
        (first_some (λ s. truthy? (attr keys s)) spans)

-- `_root`
unfoldable pub root : List OtlpSpan → Option OtlpSpan
root spans = find (λ s. not (is_some (truthy? s.parent_span_id))) spans

pub record Batch : Type 0 where
  pub call_id : Option String
  pub trace_id : String
  pub root : Option OtlpSpan
  pub resource : Option Resource
  pub attrs : Dict Value
  pub spans : List OtlpSpan
  pub agent_id : Option String

-- The columns of a call that ingestion reads or writes.
pub record Call : Type 0 where
  pub id : String
  pub external_call_id : String
  pub trace_id : Option String
  pub source : String
  pub environment : String
  pub schema_version : Option Value
  pub agent_id : Option String
  pub prompt_id : Option String
  pub status : String
  pub spans_complete : Bool
  pub media_ready : Bool
  pub metric_version : Option ℕ
  pub last_activity_at : Option ℕ

pub record RawFragment : Type 0 where
  pub call_id : Option String
  pub batch_id : String
  pub seq : ℕ
  pub received_at : ℕ
  pub payload : String

-- The tables of one organisation.
pub record Tables : Type 0 where
  pub calls : List Call
  pub fragments : List RawFragment
  pub tombstones : List String

abbrev pub named : String → Call → Bool
named call_id row = str_eq row.external_call_id call_id

abbrev pub traced : String → Call → Bool
traced trace_id row = opt_eq row.trace_id (some trace_id)

-- `next((s["traceId"] for s in spans if s.get("traceId")), "")`
unfoldable pub trace_of : List OtlpSpan → String
trace_of spans = get_or (first_some (λ s. truthy? s.trace_id) spans) ""

-- The call that a trace id is known to belong to.
unfoldable pub call_of_trace : String → List Call → Option String
call_of_trace trace_id calls = elim (truthy? (some trace_id)) [
  | none ↦ none
  | some t ↦ elim (find (traced t) calls) [ none ↦ none | some row ↦ some row.external_call_id ]
]

-- `[root, *spans] if root else spans`
abbrev root_first : Option OtlpSpan → List OtlpSpan → List OtlpSpan
root_first none spans = spans
root_first (some r) spans = r ∷ spans

unfoldable pub identify :
    ⦃c : Conversions⦄ → List Call → Option Resource → List OtlpSpan → Option String → Batch
unfolding root trace_of hint call_of_trace
identify calls resource spans agent_id =
    let attrs = attrs_to_dict (resource_attributes resource) in
    let trace_id = trace_of spans in
    let top = root spans in
    let hinted = hint attrs (root_first top spans) call_id_hints in
    let call_id = or_else hinted (call_of_trace trace_id calls) in
    record {
      call_id = or_else (truthy? call_id) (truthy? (some trace_id));
      trace_id = trace_id;
      root = top;
      resource = resource;
      attrs = attrs;
      spans = spans;
      agent_id = agent_id;
    }

-- The first `resourceSpans` entry: none is an IndexError.
unfoldable pub decode_record : Codec → Record → Option (Option Resource × List OtlpSpan)
decode_record codec r = elim (codec.unpack r.value) [
  | none ↦ none
  | some payload ↦ elim (head? payload) [
    | none ↦ none
    | some rs ↦ some (rs.resource, all_spans rs.scope_spans)
  ]
]

unfoldable pub tombstoned : Tables → Option String → Bool
tombstoned db none = false
tombstoned db (some call_id) = elem call_id db.tombstones

-- The row that a query gives is an object of the session: assignments change this row.
unfoldable pub update_first : (Call → Bool) → (Call → Call) → List Call → List Call
update_first p f [] = []
update_first p f (row ∷ rows) = if p row then f row ∷ rows else row ∷ update_first p f rows

-- The assignments at the end of `upsert_call`; `script` is `_active_script_prompt`.
unfoldable pub touched : (String → Option String) → ℕ → Batch → Call → Call
touched script now b row =
    let agent_id = or_else row.agent_id (truthy? b.agent_id) in
    record row {
      trace_id = or_else row.trace_id (truthy? (some b.trace_id));
      agent_id = agent_id;
      prompt_id = elim row.prompt_id [
        | some p ↦ some p
        | none ↦ elim (truthy? agent_id) [ none ↦ none | some a ↦ script a ]
      ];
      spans_complete = if is_some b.root then true else row.spans_complete;
      last_activity_at = some now;
    }

unfoldable pub new_call : ⦃c : Conversions⦄ → String → Batch → String → Call
new_call id b call_id = record {
  id = id;
  external_call_id = call_id;
  trace_id = truthy? (some b.trace_id);
  source = text_or (lookup "service.name" b.attrs) "unknown";
  environment = text_or (lookup "deployment.environment" b.attrs) "prod";
  schema_version = lookup "voice.schema_version" b.attrs;
  agent_id = b.agent_id;
  prompt_id = none;
  status = "awaiting_media";
  spans_complete = false;
  media_ready = false;
  metric_version = none;
  last_activity_at = none;
}

-- `_promote` finds the call of this trace and gives it the id.
abbrev pub renamed : String → Call → Call
renamed call_id row = record row { external_call_id = call_id }

-- The call of the batch's trace, where it has one.
unfoldable pub promoted : Batch → List Call → Bool
promoted b calls = elim (truthy? (some b.trace_id)) [ none ↦ false | some t ↦ any (traced t) calls ]

unfoldable pub upsert_call :
    ⦃c : Conversions⦄
    → (String → Option String)
    → ℕ
    → String
    → Batch
    → String
    → List Call
    → List Call
unfolding update_first touched new_call promoted
upsert_call script now id b call_id calls =
    if any (named call_id) calls
    then update_first (named call_id) (touched script now b) calls
    else if promoted b calls
    then update_first (traced b.trace_id) (λ row. touched script now b (renamed call_id row)) calls
    else calls ++ touched script now b (new_call id b call_id) ∷ []

-- `_call_pk`
unfoldable pub call_pk : List Call → Option String → Option String
call_pk calls none = none
call_pk calls (some call_id) = elim (find (named call_id) calls) [
  | none ↦ none
  | some row ↦ some row.id
]

-- The fragment of this call, batch and number.
abbrev pub is_fragment : String → String → ℕ → RawFragment → Bool
is_fragment pk batch_id seq f =
    opt_eq f.call_id (some pk) && str_eq f.batch_id batch_id && f.seq == seq

abbrev pub slice_of : Option Resource → List OtlpSpan → Payload
slice_of resource spans = record { resource = resource; scope_spans = spans ∷ [] } ∷ []

abbrev pub stored : Option String → String → ℕ → List RawFragment → Bool
stored none batch_id seq fragments = false
stored (some pk) batch_id seq fragments = any (is_fragment pk batch_id seq) fragments

-- The row that is added.
abbrev pub new_fragment : Codec → ℕ → Option String → Batch → String → ℕ → RawFragment
new_fragment codec now pk b batch_id seq = record {
  call_id = pk;
  batch_id = batch_id;
  seq = seq;
  received_at = now;
  payload = codec.pack (slice_of b.resource b.spans);
}

unfoldable pub store_fragment : Codec → ℕ → Batch → String → ℕ → Tables → Tables
unfolding call_pk
store_fragment codec now b batch_id seq db =
    let pk = call_pk db.calls b.call_id in
    if stored pk batch_id seq db.fragments
    then db
    else record db { fragments = db.fragments ++ new_fragment codec now pk b batch_id seq ∷ [] }
