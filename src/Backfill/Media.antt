-- ===== src/Backfill/Media.antt =====
-- The media of a call: `_register_media` of src/voiceobs/worker/backfill.py.
use mathlib.Core.List.{append-nil}
use actioneer_pulse.Common.{
  Bool, true, false, String, List, [], ◌∷◌, ◌++◌, ◌&&◌, ◌||◌, nonempty, elem, str_eq, str_eq_refl,
  if◌then◌else◌, ◌≡◌, refl, ◌∙◌, arith,
}
use actioneer_pulse.Common.Dict.{Dict}

pub record Media : Type 0 where
  pub call_id : String
  pub kind : String
  pub uri : String

-- `have`, the kinds that a call has media of.
unfoldable pub kinds_of : String → List Media → List String
kinds_of call_id [] = []
kinds_of call_id (m ∷ media) =
    if str_eq m.call_id call_id then m.kind ∷ kinds_of call_id media else kinds_of call_id media

unfoldable pub new_media : String → List String → Dict String → List Media
new_media call_id have [] = []
new_media call_id have ((kind, uri) ∷ kinds) =
    if elem kind have
    then new_media call_id have kinds
    else record { call_id = call_id; kind = kind; uri = uri } ∷ new_media call_id have kinds

-- `_register_media`: the table, and the call's `media_ready`.
unfoldable pub register_media : String → Dict String → List Media × Bool → List Media × Bool
register_media call_id kinds (media, ready) =
    (media ++ new_media call_id (kinds_of call_id media) kinds, nonempty kinds || ready)

elem-kinds_of :
    (call_id kind : String) (xs ys : List Media)
    → elem kind (kinds_of call_id (xs ++ ys))
      ≡ (elem kind (kinds_of call_id xs) || elem kind (kinds_of call_id ys))
unfolding kinds_of
elem-kinds_of call_id kind [] ys = refl
elem-kinds_of call_id kind (m ∷ xs) ys = ground (arith, elem-kinds_of call_id kind xs ys)

-- Whether all the dict's kinds pass a test.
abbrev all_kinds : (String → Bool) → Dict String → Bool
all_kinds q [] = true
all_kinds q ((kind, uri) ∷ kinds) = q kind && all_kinds q kinds

all_kinds-le :
    (p q : String → Bool) (kinds : Dict String)
    → ((k : String) → p k ≡ true → q k ≡ true)
    → all_kinds p kinds ≡ true
    → all_kinds q kinds ≡ true
all_kinds-le p q [] le h = refl
all_kinds-le p q ((kind, uri) ∷ kinds) le h = ground (arith, h, le kind, all_kinds-le p q kinds le)

new_media-none :
    (call_id : String) (have : List String) (kinds : Dict String)
    → all_kinds (λ k. elem k have) kinds ≡ true
    → new_media call_id have kinds ≡ []
unfolding new_media
new_media-none call_id have [] h = refl
new_media-none call_id have ((kind, uri) ∷ kinds) h =
    ground (arith, h, new_media-none call_id have kinds)

abbrev now_has : String → List String → Dict String → String → Bool
now_has call_id have kinds k =
    elem k have || elem k (kinds_of call_id (new_media call_id have kinds))

now_has-cons :
    (call_id kind uri k : String) (have : List String) (kinds : Dict String)
    → now_has call_id have kinds k ≡ true
    → now_has call_id have ((kind, uri) ∷ kinds) k ≡ true
unfolding new_media kinds_of
now_has-cons call_id kind uri k have kinds h = ground (arith, h, str_eq_refl call_id)

now_has-head :
    (call_id kind uri : String) (have : List String) (kinds : Dict String)
    → now_has call_id have ((kind, uri) ∷ kinds) kind ≡ true
unfolding new_media kinds_of
now_has-head call_id kind uri have kinds = ground (arith, str_eq_refl call_id, str_eq_refl kind)

all_kinds-now_has :
    (call_id : String) (have : List String) (kinds : Dict String)
    → all_kinds (now_has call_id have kinds) kinds ≡ true
all_kinds-now_has call_id have [] = refl
all_kinds-now_has call_id have ((kind, uri) ∷ kinds) =
    rw (now_has-head call_id kind uri have kinds) (
      all_kinds-le (now_has call_id have kinds) (now_has call_id have ((kind, uri) ∷ kinds)) kinds
        (λ k. now_has-cons call_id kind uri k have kinds) (all_kinds-now_has call_id have kinds))

ready_again : (a b : Bool) → (a || (a || b)) ≡ (a || b)
ready_again true b = refl
ready_again false b = refl

-- Registering the same objects for a call again changes nothing, whatever media there were before.
pub register_media-idempotent :
    (call_id : String) (kinds : Dict String) (db : List Media × Bool)
    → register_media call_id kinds (register_media call_id kinds db)
      ≡ register_media call_id kinds db
unfolding register_media
register_media-idempotent call_id kinds (media, ready) =
    let have = kinds_of call_id media in
    let added = new_media call_id have kinds in
    let nothing = new_media-none call_id (kinds_of call_id (media ++ added)) kinds (
      all_kinds-le (now_has call_id have kinds) (λ k. elem k (kinds_of call_id (media ++ added)))
        kinds (λ k h. elem-kinds_of call_id k media added ∙ h)
        (all_kinds-now_has call_id have kinds)) in
    rw (nothing, append-nil (media ++ added), ready_again (nonempty kinds) ready) refl
