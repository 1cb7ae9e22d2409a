-- ===== src/Process/Assemble.antt =====
-- `assemble`: the fragments of a call become one export.
pub mod Last
use actioneer_pulse.Common.{String, Option, none, some, List, [], ◌∷◌, map, or_else, if◌then◌else◌}
use actioneer_pulse.Common.Dict.{Dict, insert}
use actioneer_pulse.Frameworks.Otlp.{OtlpSpan, Resource, Payload, all_spans}
use actioneer_pulse.Ingest.{Codec, slice_of}

-- The loops over the scopes and the spans: `spans[span["spanId"]] = span`.
unfoldable pub put_spans : List OtlpSpan → Dict OtlpSpan → Dict OtlpSpan
put_spans [] spans = spans
put_spans (s ∷ more) spans = put_spans more (insert s.span_id s spans)

-- The loop over one fragment's resources: the first resource that is not empty is kept.
unfoldable pub put_payload :
    Payload → Option Resource × Dict OtlpSpan → Option Resource × Dict OtlpSpan
unfolding put_spans
put_payload [] state = state
put_payload (rs ∷ payload) (resource, spans) =
    put_payload payload (or_else resource rs.resource, put_spans (all_spans rs.scope_spans) spans)

-- The loop over the fragments: no result is an exception.
unfoldable pub put_fragments :
    Codec → List String → Option Resource × Dict OtlpSpan → Option (Option Resource × Dict OtlpSpan)
unfolding put_payload
put_fragments codec [] state = some state
put_fragments codec (blob ∷ blobs) state = elim (codec.unpack blob) [
  | none ↦ none
  | some payload ↦ put_fragments codec blobs (put_payload payload state)
]

unfoldable pub assemble : Codec → List String → Option Payload
unfolding put_fragments
assemble codec blobs = elim (put_fragments codec blobs (none, [])) [
  | none ↦ none
  | some (resource, spans) ↦ some (slice_of resource (map (λ entry. entry.1) spans))
]
