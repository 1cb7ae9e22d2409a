-- ===== src/Ingest/Shard/Partition.antt =====
-- An export's spans and the records that carry them.
use mathlib.Core.List.{append-nil}
use actioneer_pulse.Common.{
  filter-append, Bool, String, Option, none, some, List, [], ◌∷◌, ◌++◌, ◌≡◌, refl, sym, ap, arith,
  filter, flat_map, str_eq, str_eq_iff, if◌then◌else◌,
}
use actioneer_pulse.Common.Dict.{Dict, lookup}
use actioneer_pulse.Model.Value.{Conversions}
use actioneer_pulse.Frameworks.Otlp.{OtlpSpan, Resource, Payload, all_spans}
use actioneer_pulse.Ingest.Shard.{Slice, append_span, shard_key, shard_spans, shard_from, shard}

abbrev spans_of : Option Slice → List OtlpSpan
spans_of none = []
spans_of (some slice) = slice.1

-- The spans that the shards hold under a key.
unfoldable pub spans_at : String → Dict Slice → List OtlpSpan
unfolding lookup
spans_at j out = spans_of (lookup j out)

spans_at-append_span :
    (j k : String) (r : Option Resource) (s : OtlpSpan) (out : Dict Slice)
    → spans_at j (append_span k r s out) ≡ spans_at j out ++ (if str_eq k j then s ∷ [] else [])
unfolding spans_at append_span lookup
spans_at-append_span j k r s [] = ground arith
spans_at-append_span j k r s ((i, slice) ∷ out) = ground (
  arith,
  str_eq_iff i k,
  str_eq_iff i j,
  str_eq_iff k j,
  spans_at-append_span j k r s out,
  append-nil (spans_of (lookup j out)),
  append-nil slice.1,
)

-- The spans of an export in their order.
abbrev pub exported : Payload → List OtlpSpan
exported payload = flat_map (λ rs. all_spans rs.scope_spans) payload

append_assoc : {A : Type 0} (xs ys zs : List A) → (xs ++ ys) ++ zs ≡ xs ++ (ys ++ zs)
append_assoc [] ys zs = refl
append_assoc (x ∷ xs) ys zs = ap (λ t. x ∷ t) (append_assoc xs ys zs)

module _ ⦃c : Conversions⦄ where
  abbrev pub belongs : String → OtlpSpan → Bool
  belongs j s = str_eq (shard_key s) j

  spans_at-shard_spans :
      (j : String) (r : Option Resource) (spans : List OtlpSpan) (out : Dict Slice)
      → spans_at j (shard_spans r spans out) ≡ spans_at j out ++ filter (belongs j) spans
  unfolding shard_spans
  spans_at-shard_spans j r [] out = sym (append-nil _)
  spans_at-shard_spans j r (s ∷ spans) out = ground (
    arith,
    spans_at-shard_spans j r spans (append_span (shard_key s) r s out),
    spans_at-append_span j (shard_key s) r s out,
    append_assoc (spans_at j out) (s ∷ []) (filter (belongs j) spans),
    append-nil (spans_at j out),
  )

  spans_at-shard_from :
      (j : String) (payload : Payload) (out : Dict Slice)
      → spans_at j (shard_from payload out)
        ≡ spans_at j out ++ filter (belongs j) (exported payload)
  unfolding shard_from
  spans_at-shard_from j [] out = sym (append-nil _)
  spans_at-shard_from j (rs ∷ payload) out =
      let spans = all_spans rs.scope_spans in
      rw
        (
          spans_at-shard_from j payload (shard_spans rs.resource spans out),
          spans_at-shard_spans j rs.resource spans out,
          filter-append (belongs j) spans (exported payload),
        )
        (append_assoc (spans_at j out) (filter (belongs j) spans)
          (filter (belongs j) (exported payload)))

  -- Under a call's key the shards hold all spans of the export with this key, in their order, and no
  -- other.
  pub shard-belongs :
      (payload : Payload) (j : String)
      → spans_at j (shard payload) ≡ filter (belongs j) (exported payload)
  unfolding shard spans_at lookup
  shard-belongs payload j = spans_at-shard_from j payload []
