-- ===== src/Process/Assemble/Last.antt =====
-- Last write wins: what `assemble` keeps of resent spans.
use mathlib.Core.List.{append-nil}
use actioneer_pulse.Common.{
  Bool, String, Option, none, some, List, [], ◌∷◌, ◌++◌, ◌≡◌, refl, sym, ◌∙◌, arith, map, or_else,
  str_eq, str_eq_iff, if◌then◌else◌, flat_map, is_some, count, ◌≤◌,
}
use actioneer_pulse.Common.Dict.{Dict, lookup, insert, lookup-insert}
use actioneer_pulse.Frameworks.Otlp.{OtlpSpan, Resource, Payload, all_spans}
use actioneer_pulse.Ingest.{Codec, slice_of}
use actioneer_pulse.Ingest.Shard.Partition.{exported}
use actioneer_pulse.Process.Assemble.{put_spans, put_payload, put_fragments, assemble}

-- The last of the spans with this id.
abbrev pub last_of : String → List OtlpSpan → Option OtlpSpan
last_of id [] = none
last_of id (s ∷ spans) = or_else (last_of id spans) (if str_eq s.span_id id then some s else none)

or_else_assoc : {A : Type 0} (a b c : Option A) → or_else a (or_else b c) ≡ or_else (or_else a b) c
or_else_assoc none b c = refl
or_else_assoc (some x) b c = refl

lookup-put_spans :
    (id : String) (spans : List OtlpSpan) (d : Dict OtlpSpan)
    → lookup id (put_spans spans d) ≡ or_else (last_of id spans) (lookup id d)
unfolding put_spans
lookup-put_spans id [] d = refl
lookup-put_spans id (s ∷ spans) d =
    rw (lookup-put_spans id spans (insert s.span_id s d), lookup-insert s.span_id id s d)
      (ground arith)

-- Every entry stands under its span's id, and no id stands twice.
abbrev IsIndex : Dict OtlpSpan → Type 0
IsIndex [] = Unit
IsIndex ((k, s) ∷ d) = (s.span_id ≡ k) × (lookup k d ≡ none) × IsIndex d

abbrev no_entries : Dict OtlpSpan
no_entries = []

lookup-nil : (k : String) → lookup k no_entries ≡ none
unfolding lookup
lookup-nil k = refl

insert-IsIndex : (s : OtlpSpan) (d : Dict OtlpSpan) → IsIndex d → IsIndex (insert s.span_id s d)
unfolding insert
insert-IsIndex s [] h = (refl, lookup-nil s.span_id, tt)
insert-IsIndex s ((k, t) ∷ d) h = ground (
  arith,
  str_eq_iff k s.span_id,
  str_eq_iff s.span_id k,
  lookup-insert s.span_id k s d,
  insert-IsIndex s d,
)

put_spans-IsIndex :
    (spans : List OtlpSpan) (d : Dict OtlpSpan) → IsIndex d → IsIndex (put_spans spans d)
unfolding put_spans
put_spans-IsIndex [] d h = h
put_spans-IsIndex (s ∷ spans) d h =
    put_spans-IsIndex spans (insert s.span_id s d) (insert-IsIndex s d h)

abbrev pub has_id : String → OtlpSpan → Bool
has_id id s = str_eq s.span_id id

abbrev values : Dict OtlpSpan → List OtlpSpan
values d = map (λ entry. entry.1) d

values_once :
    (id : String) (d : Dict OtlpSpan)
    → IsIndex d
    → (last_of id (values d) ≡ lookup id d)
      × (count (has_id id) (values d) ≡ (if is_some (lookup id d) then 1 else 0))
unfolding lookup
values_once id [] h = (refl, refl)
values_once id ((k, s) ∷ d) h =
    ground (arith, str_eq_iff k id, str_eq_iff s.span_id id, values_once id d h.2)

or_none : (o : Option OtlpSpan) (id : String) → or_else o (lookup id no_entries) ≡ o
unfolding lookup
or_none none id = refl
or_none (some s) id = refl

last_of-append :
    (id : String) (xs ys : List OtlpSpan)
    → last_of id (xs ++ ys) ≡ or_else (last_of id ys) (last_of id xs)
unfolding lookup
last_of-append id [] ys = sym (or_none (last_of id ys) id)
last_of-append id (s ∷ xs) ys = rw (last_of-append id xs ys) (
    sym (
      or_else_assoc (last_of id ys) (last_of id xs) (if str_eq s.span_id id then some s else none)))

-- What the loops hold, against the spans that were read.
put_payload-last :
    (payload : Payload) (r : Option Resource) (d : Dict OtlpSpan)
    → IsIndex d
    → IsIndex (put_payload payload (r, d)).1
      × ((id : String)
          → lookup id (put_payload payload (r, d)).1
            ≡ or_else (last_of id (exported payload)) (lookup id d))
unfolding put_payload
put_payload-last [] r d h = (h, λ id. refl)
put_payload-last (rs ∷ payload) r d h =
    let spans = all_spans rs.scope_spans in
    let (index, found) =
      put_payload-last payload (or_else r rs.resource) (put_spans spans d)
        (put_spans-IsIndex spans d h) in
    (
      index,
      λ id.
          rw (found id, lookup-put_spans id spans d, last_of-append id spans (exported payload))
            (or_else_assoc (last_of id (exported payload)) (last_of id spans) (lookup id d)),
    )

-- The spans of all fragments in their order.
abbrev pub sent : List Payload → List OtlpSpan
sent payloads = flat_map exported payloads

put_fragments-last :
    (codec : Codec) (blobs : List String) (payloads : List Payload)
    (state : Option Resource × Dict OtlpSpan)
    → map codec.unpack blobs ≡ map some payloads
    → IsIndex state.1
    → (after : Option Resource × Dict OtlpSpan) × (put_fragments codec blobs state ≡ some after)
      × IsIndex after.1
      × ((id : String)
          → lookup id after.1 ≡ or_else (last_of id (sent payloads)) (lookup id state.1))
unfolding put_fragments
put_fragments-last codec [] [] state e h = (state, refl, h, λ id. refl)
put_fragments-last codec [] (p ∷ payloads) state e h = absurd (ground (arith, e))
put_fragments-last codec (blob ∷ blobs) [] state e h = absurd (ground (arith, e))
put_fragments-last codec (blob ∷ blobs) (p ∷ payloads) state e h =
    let head : codec.unpack blob ≡ some p = ground (arith, e) in
    let tail : map codec.unpack blobs ≡ map some payloads = ground (arith, e) in
    let (index, found) = put_payload-last p state.0 state.1 h in
    let (after, run, kept, last) =
      put_fragments-last codec blobs payloads (put_payload p state) tail index in
    (
      after,
      rw (put_fragments, head) run,
      kept,
      λ id.
          rw (last id, found id, last_of-append id (exported p) (sent payloads))
            (or_else_assoc (last_of id (sent payloads)) (last_of id (exported p))
              (lookup id state.1)),
    )

-- Where every fragment can be read, the assembled export holds of each span id the span that came
-- last among the fragments, in the order in which they are given, and holds no id twice.
pub assemble-last :
    (codec : Codec) (blobs : List String) (payloads : List Payload)
    → map codec.unpack blobs ≡ map some payloads
    → (out : Payload) × (assemble codec blobs ≡ some out)
      × ((id : String)
          → (last_of id (exported out) ≡ last_of id (sent payloads))
            × (count (has_id id) (exported out) ≤ 1))
unfolding assemble
assemble-last codec blobs payloads e =
    let ((r, d), run, index, found) = put_fragments-last codec blobs payloads (none, []) e tt in
    (
      slice_of r (values d),
      rw (assemble, run) refl,
      λ id.
          let (last, once) = values_once id d index in
          rw (append-nil (values d), append-nil (values d))
            (last ∙ found id ∙ or_none (last_of id (sent payloads)) id, ground (arith, once)),
    )
