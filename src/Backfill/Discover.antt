-- ===== src/Backfill/Discover.antt =====
-- What a backfill finds in a store: `discover` and `discover_otlp` of
-- src/voiceobs/worker/backfill.py. The store's listing and the descriptor's
-- expression belong to other software: an object is its uri, and the expression is the argument
-- `search`, from a key to the group that names the call.
use Prim.Native.Char.{code}
use actioneer_pulse.Common.{
  Bool, false, String, Option, none, some, List, [], ◌∷◌, ◌&&◌, get_or, truthy?, str_eq, str_eq_iff,
  sym, if◌then◌else◌, ◌==◌, ◌≡◌, refl, ap, ◌∙◌, arith, Bool-cases, inl, inr,
}
use actioneer_pulse.Common.Dict.{Dict, lookup, insert, lookup-insert}

-- `uri.rsplit("/", 1)[-1]`: what follows the last slash.
after_slash : String → Option String
after_slash String.[] = none
after_slash (String.◌∷◌ ch s) = elim (after_slash s) [
  | some t ↦ some t
  | none ↦ if code ch == 47 then some s else none
]

unfoldable pub file_name : String → String
unfolding after_slash
file_name uri = get_or (after_slash uri) uri

-- The descriptor's `file_map`, and the expression on the uri without the bucket's base.
pub record Descriptor : Type 0 where
  pub file_map : Dict String
  pub search : String → Option String

-- The kind of an object, and the call that its key names, where it has both.
unfoldable pub placed : Descriptor → String → Option (String × String)
placed d uri = elim (lookup (file_name uri) d.file_map) [
  | none ↦ none
  | some kind ↦ elim (truthy? (d.search uri)) [ none ↦ none | some call_id ↦ some (call_id, kind) ]
]

-- `out.setdefault(call_id, {})[kind] = uri`, for an object that is placed.
unfoldable pub put : Option (String × String) → String → Dict (Dict String) → Dict (Dict String)
put none uri out = out
put (some (call_id, kind)) uri out =
    insert call_id (insert kind uri (get_or (lookup call_id out) [])) out

unfoldable pub discover_from : Descriptor → Dict (Dict String) → List String → Dict (Dict String)
discover_from d out [] = out
discover_from d out (uri ∷ uris) = discover_from d (put (placed d uri) uri out) uris

-- `discover`
unfoldable pub discover : Descriptor → List String → Dict (Dict String)
discover d uris = discover_from d [] uris

-- `out[call_id] = uri`, for a trace.
unfoldable pub put_otlp : Option (String × String) → String → Dict String → Dict String
put_otlp none uri out = out
put_otlp (some (call_id, kind)) uri out = if str_eq kind "otlp" then insert call_id uri out else out

unfoldable pub discover_otlp_from : Descriptor → Dict String → List String → Dict String
discover_otlp_from d out [] = out
discover_otlp_from d out (uri ∷ uris) = discover_otlp_from d (put_otlp (placed d uri) uri out) uris

-- `discover_otlp`
unfoldable pub discover_otlp : Descriptor → List String → Dict String
discover_otlp d uris = discover_otlp_from d [] uris

-- Where a discovery has an object of a kind for a call.
abbrev pub object_of : String → String → Dict (Dict String) → Option String
object_of call_id kind out = elim (lookup call_id out) [
  | none ↦ none
  | some kinds ↦ lookup kind kinds
]

abbrev pub is_at : String → String → Option (String × String) → Bool
is_at call_id kind none = false
is_at call_id kind (some (c, k)) = str_eq c call_id && str_eq k kind

-- The last of the objects that p holds of, and the given one where there is none.
abbrev pub last_where : (String → Bool) → Option String → List String → Option String
last_where p start [] = start
last_where p start (uri ∷ uris) = last_where p (if p uri then some uri else start) uris

object_of-put :
    (call_id kind : String) (at : Option (String × String)) (uri : String)
    (out : Dict (Dict String))
    → object_of call_id kind (put at uri out)
      ≡ (if is_at call_id kind at then some uri else object_of call_id kind out)
unfolding put lookup
object_of-put call_id kind none uri out = refl
object_of-put call_id kind (some (c, k)) uri out = elim (Bool-cases (str_eq c call_id)) [
  | inl hit ↦ ground (
    arith,
    hit,
    lookup-insert c call_id (insert k uri (get_or (lookup c out) [])) out,
    lookup-insert k kind uri (get_or (lookup c out) []),
    ap (λ x. lookup x out) ((str_eq_iff c call_id).0 hit),
  )
  | inr miss ↦
      ground (arith, miss, lookup-insert c call_id (insert k uri (get_or (lookup c out) [])) out)
]

object_of-discover_from :
    (d : Descriptor) (call_id kind : String) (out : Dict (Dict String)) (uris : List String)
    → object_of call_id kind (discover_from d out uris)
      ≡ last_where (λ u. is_at call_id kind (placed d u)) (object_of call_id kind out) uris
unfolding discover_from
object_of-discover_from d call_id kind out [] = refl
object_of-discover_from d call_id kind out (uri ∷ uris) =
    object_of-discover_from d call_id kind (put (placed d uri) uri out) uris
    ∙ ap (λ o. last_where (λ u. is_at call_id kind (placed d u)) o uris)
        (object_of-put call_id kind (placed d uri) uri out)

-- For each call and kind, `discover` holds the last listed object that has this kind in the file map
-- and whose key names this call, and nothing when the store lists none.
pub object_of-discover :
    (d : Descriptor) (call_id kind : String) (uris : List String)
    → object_of call_id kind (discover d uris)
      ≡ last_where (λ u. is_at call_id kind (placed d u)) none uris
unfolding discover lookup
object_of-discover d call_id kind uris = object_of-discover_from d call_id kind [] uris

lookup-put_otlp :
    (call_id : String) (at : Option (String × String)) (uri : String) (out : Dict String)
    → lookup call_id (put_otlp at uri out)
      ≡ (if is_at call_id "otlp" at then some uri else lookup call_id out)
unfolding put_otlp
lookup-put_otlp call_id none uri out = refl
lookup-put_otlp call_id (some (c, k)) uri out = ground (arith, lookup-insert c call_id uri out)

lookup-discover_otlp_from :
    (d : Descriptor) (call_id : String) (out : Dict String) (uris : List String)
    → lookup call_id (discover_otlp_from d out uris)
      ≡ last_where (λ u. is_at call_id "otlp" (placed d u)) (lookup call_id out) uris
unfolding discover_otlp_from
lookup-discover_otlp_from d call_id out [] = refl
lookup-discover_otlp_from d call_id out (uri ∷ uris) =
    lookup-discover_otlp_from d call_id (put_otlp (placed d uri) uri out) uris
    ∙ ap (λ o. last_where (λ u. is_at call_id "otlp" (placed d u)) o uris)
        (lookup-put_otlp call_id (placed d uri) uri out)

-- `discover_otlp` agrees with `discover` on the traces: for each call it holds what the other
-- discovery holds under the kind "otlp".
pub discover_otlp-agrees :
    (d : Descriptor) (call_id : String) (uris : List String)
    → lookup call_id (discover_otlp d uris) ≡ object_of call_id "otlp" (discover d uris)
unfolding discover_otlp lookup
discover_otlp-agrees d call_id uris =
    lookup-discover_otlp_from d call_id [] uris ∙ sym (object_of-discover d call_id "otlp" uris)
