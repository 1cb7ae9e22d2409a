-- ===== src/Ingest/Shard/Wire.antt =====
-- What is produced is what the consumer decodes.
use mathlib.Core.List.{append-nil}
use actioneer_pulse.Common.{
  true, String, Option, some, List, [], ◌∷◌, ◌≡◌, refl, ap, arith, map, nonempty, ℕ, suc, All,
}
use actioneer_pulse.Common.Dict.{Dict}
use actioneer_pulse.Model.Value.{Conversions}
use actioneer_pulse.Frameworks.Otlp.{OtlpSpan, Resource, Payload, all_spans}
use actioneer_pulse.Ingest.{Codec, decode_record, slice_of}
use actioneer_pulse.Ingest.Shard.{
  Slice, Request, append_span, shard_key, shard_spans, shard_from, shard, record_of, produce_from,
  produce,
}

-- What is unpacked is what was packed, for one slice.
abbrev Restores : Codec → Slice → Type 0
Restores codec (resource, spans) =
    codec.unpack (codec.pack (slice_of resource spans)) ≡ some (slice_of resource spans)

-- The same for all slices.
abbrev pub Inverse : Codec → Dict Slice → Type 0
Inverse codec out = All (λ entry. Restores codec entry.1) out

decode-record_of :
    (codec : Codec) (q : Request) (seq : ℕ) (key : String) (slice : Slice)
    → Restores codec slice
    → decode_record codec (record_of codec q seq key slice) ≡ some slice
unfolding decode_record record_of
decode-record_of codec q seq key (resource, spans) inverse =
    rw (decode_record, inverse) (ap (λ ss. some (resource, ss)) (append-nil spans))

abbrev IsFilled : Dict Slice → Type 0
IsFilled out = All (λ entry. nonempty entry.1.1 ≡ true) out

append_span-IsFilled :
    (k : String) (r : Option Resource) (s : OtlpSpan) (out : Dict Slice)
    → IsFilled out
    → IsFilled (append_span k r s out)
unfolding append_span
append_span-IsFilled k r s [] h = (refl, tt)
append_span-IsFilled k r s ((i, (q, [])) ∷ out) h = ground arith
append_span-IsFilled k r s ((i, (q, t ∷ spans)) ∷ out) h =
    ground (arith, append_span-IsFilled k r s out)

-- The numbers from `seq` on, one for each entry.
pub count_from : ℕ → Dict Slice → List ℕ
count_from seq [] = []
count_from seq (entry ∷ out) = seq ∷ count_from (suc seq) out

produce_from-filled :
    (codec : Codec) (q : Request) (seq : ℕ) (out : Dict Slice)
    → Inverse codec out
    → IsFilled out
    → (map (decode_record codec) (produce_from codec q seq out) ≡ map (λ entry. some entry.1) out)
      × (map (λ r. r.headers.seq) (produce_from codec q seq out) ≡ count_from seq out)
unfolding produce_from count_from record_of
produce_from-filled codec q seq [] inverse h = (refl, refl)
produce_from-filled codec q seq ((key, slice) ∷ out) inverse h =
    let (a, b) = produce_from-filled codec q (suc seq) out inverse.1 h.1 in
    rw (h.0)
      (rw (decode-record_of codec q seq key slice inverse.0, a) refl, ap (λ seqs. seq ∷ seqs) b)

module _ ⦃c : Conversions⦄ where
  shard_spans-IsFilled :
      (r : Option Resource) (spans : List OtlpSpan) (out : Dict Slice)
      → IsFilled out
      → IsFilled (shard_spans r spans out)
  unfolding shard_spans
  shard_spans-IsFilled r [] out h = h
  shard_spans-IsFilled r (s ∷ spans) out h =
      shard_spans-IsFilled r spans (append_span (shard_key s) r s out)
        (append_span-IsFilled (shard_key s) r s out h)

  shard_from-IsFilled :
      (payload : Payload) (out : Dict Slice) → IsFilled out → IsFilled (shard_from payload out)
  unfolding shard_from
  shard_from-IsFilled [] out h = h
  shard_from-IsFilled (rs ∷ payload) out h =
      shard_from-IsFilled payload (shard_spans rs.resource (all_spans rs.scope_spans) out)
        (shard_spans-IsFilled rs.resource (all_spans rs.scope_spans) out h)

  -- With a codec that unpacks what it packed, the consumer decodes the records of an export to the
  -- resources and spans of its shards, one record for each shard, and the records carry the numbers
  -- 0, 1, 2 and so on.
  pub produce-decode_record :
      (codec : Codec) (q : Request) (payload : Payload)
      → Inverse codec (shard payload)
      → (map (decode_record codec) (produce codec q payload)
          ≡ map (λ entry. some entry.1) (shard payload))
        × (map (λ r. r.headers.seq) (produce codec q payload) ≡ count_from 0 (shard payload))
  unfolding produce shard
  produce-decode_record codec q payload inverse =
      produce_from-filled codec q 0 (shard_from payload []) inverse
        (shard_from-IsFilled payload [] tt)
