-- ===== src/Worker/Reconcile/Again.antt =====
-- A second sweep over the same listing registers nothing.
use actioneer_pulse.Common.{
  Bool, true, false, String, Option, none, some, List, [], ◌∷◌, ◌++◌, ◌&&◌, ◌||◌, all, count, ◌≤◌,
  ◌+◌, if◌then◌else◌, any-append, elem, str_eq, str_eq_refl, ltb, ◌≡◌, refl, ℕ, arith, Option-cases,
  inl, inr,
}
use actioneer_pulse.Backfill.Discover.{Descriptor, placed}
use actioneer_pulse.Backfill.Media.{Media}
use actioneer_pulse.Worker.Reconcile.{
  Call, Tables, find_call, has_media, mark_ready, register, Listed, reconcile_object,
  reconcile_from, reconcile_agent,
}

-- The key of the row that is found.
abbrev id_of : Option Call → Option String
id_of none = none
id_of (some c) = some c.id

-- Why nothing is registered: there is no call, it is deleted, or it has such media.
abbrev held_back : Option String → Bool → String → List Media → Bool
held_back none dead kind media = true
held_back (some id) dead kind media = dead || has_media id kind media

abbrev blocked : String → String → String → Tables → Bool
blocked agent call_id kind db =
    held_back (id_of (find_call agent call_id db.calls)) (elem call_id db.tombstones) kind db.media

find_call-mark_ready :
    (agent call_id id : String) (calls : List Call)
    → id_of (find_call agent call_id (mark_ready id calls)) ≡ id_of (find_call agent call_id calls)
unfolding find_call mark_ready
find_call-mark_ready agent call_id id [] = refl
find_call-mark_ready agent call_id id (c ∷ calls) =
    ground (arith, find_call-mark_ready agent call_id id calls)

held_back-append :
    (id : Option String) (dead : Bool) (kind : String) (media : List Media) (m : Media)
    → held_back id dead kind media ≡ true
    → held_back id dead kind (media ++ m ∷ []) ≡ true
unfolding has_media
held_back-append none dead kind media m h = refl
held_back-append (some id) dead kind media m h =
    ground (arith, h, any-append (λ x. str_eq x.call_id id && str_eq x.kind kind) media (m ∷ []))

has_media-append :
    (id kind uri : String) (media : List Media)
    → has_media id kind (media ++ record { call_id = id; kind = kind; uri = uri } ∷ []) ≡ true
unfolding has_media
has_media-append id kind uri media = ground (
  arith,
  str_eq_refl id,
  str_eq_refl kind,
  any-append (λ x. str_eq x.call_id id && str_eq x.kind kind) media
      (record { call_id = id; kind = kind; uri = uri } ∷ []),
)

-- What is blocked registers nothing.
register-blocked :
    (agent call_id uri kind : String) (db : Tables)
    → blocked agent call_id kind db ≡ true
    → register agent call_id uri kind db ≡ (false, db)
unfolding register
register-blocked agent call_id uri kind db h =
    elim (Option-cases (find_call agent call_id db.calls)) [
      | inl e ↦ ground (arith, e)
      | inr (c, e) ↦ ground (arith, e, h)
    ]

-- A registration blocks itself, and what was blocked stays so.
register-blocks :
    (agent call_id uri kind : String) (db : Tables)
    → blocked agent call_id kind (register agent call_id uri kind db).1 ≡ true
unfolding register
register-blocks agent call_id uri kind db = elim (Option-cases (find_call agent call_id db.calls)) [
  | inl e ↦ ground (arith, e)
  | inr (c, e) ↦ ground (
    arith,
    e,
    find_call-mark_ready agent call_id c.id db.calls,
    has_media-append c.id kind uri db.media,
  )
]

register-stays :
    (agent call_id uri kind other what : String) (db : Tables)
    → blocked agent other what db ≡ true
    → blocked agent other what (register agent call_id uri kind db).1 ≡ true
unfolding register
register-stays agent call_id uri kind other what db h =
    elim (Option-cases (find_call agent call_id db.calls)) [
      | inl e ↦ ground (arith, e, h)
      | inr (c, e) ↦ ground (
        arith,
        e,
        h,
        find_call-mark_ready agent other c.id db.calls,
        held_back-append (id_of (find_call agent other db.calls)) (elem other db.tombstones) what
            db.media (record { call_id = c.id; kind = kind; uri = uri }),
      )
    ]

abbrev placed_blocked : String → Option (String × String) → Tables → Bool
placed_blocked agent none db = true
placed_blocked agent (some (call_id, kind)) db = blocked agent call_id kind db

-- An object that another round does nothing with.
abbrev is_settled : String → Descriptor → ℕ → Tables → Listed → Bool
is_settled agent d cutoff db (uri, modified) =
    ltb cutoff modified || placed_blocked agent (placed d uri) db

reconcile_object-settled :
    (agent : String) (d : Descriptor) (cutoff n : ℕ) (o : Listed) (db : Tables)
    → is_settled agent d cutoff db o ≡ true
    → reconcile_object agent d cutoff o (n, db) ≡ (n, db)
unfolding reconcile_object
reconcile_object-settled agent d cutoff n (uri, modified) db h =
    elim (Option-cases (placed d uri)) [
      | inl e ↦ ground (arith, e)
      | inr ((call_id, kind), e) ↦ ground (arith, e, h, register-blocked agent call_id uri kind db)
    ]

reconcile_object-settles :
    (agent : String) (d : Descriptor) (cutoff n : ℕ) (o : Listed) (db : Tables)
    → is_settled agent d cutoff (reconcile_object agent d cutoff o (n, db)).1 o ≡ true
unfolding reconcile_object
reconcile_object-settles agent d cutoff n (uri, modified) db = elim (Option-cases (placed d uri)) [
  | inl e ↦ ground (arith, e)
  | inr ((call_id, kind), e) ↦ ground (arith, e, register-blocks agent call_id uri kind db)
]

placed_blocked-stays :
    (agent call_id uri kind : String) (at : Option (String × String)) (db : Tables)
    → placed_blocked agent at db ≡ true
    → placed_blocked agent at (register agent call_id uri kind db).1 ≡ true
placed_blocked-stays agent call_id uri kind none db h = refl
placed_blocked-stays agent call_id uri kind (some (c, k)) db h =
    register-stays agent call_id uri kind c k db h

reconcile_object-stays :
    (agent : String) (d : Descriptor) (cutoff later n : ℕ) (o p : Listed) (db : Tables)
    → is_settled agent d cutoff db p ≡ true
    → is_settled agent d cutoff (reconcile_object agent d later o (n, db)).1 p ≡ true
unfolding reconcile_object
reconcile_object-stays agent d cutoff later n (uri, modified) p db h =
    elim (Option-cases (placed d uri)) [
      | inl e ↦ ground (arith, e, h)
      | inr ((call_id, kind), e) ↦
          ground (arith, e, h, placed_blocked-stays agent call_id uri kind (placed d p.0) db)
    ]

all_stay :
    (agent : String) (d : Descriptor) (cutoff later n : ℕ) (o : Listed) (objects : List Listed)
    (db : Tables)
    → all (is_settled agent d cutoff db) objects ≡ true
    → all (is_settled agent d cutoff (reconcile_object agent d later o (n, db)).1) objects ≡ true
all_stay agent d cutoff later n o [] db h = refl
all_stay agent d cutoff later n o (p ∷ objects) db h =
    rw (reconcile_object-stays agent d cutoff later n o p db (ground (arith, h)))
      (all_stay agent d cutoff later n o objects db (ground (arith, h)))

reconcile_from-stays :
    (agent : String) (d : Descriptor) (cutoff n : ℕ) (objects : List Listed) (p : Listed)
    (db : Tables)
    → is_settled agent d cutoff db p ≡ true
    → is_settled agent d cutoff (reconcile_from agent d cutoff objects (n, db)).1 p ≡ true
unfolding reconcile_from
reconcile_from-stays agent d cutoff n [] p db h = h
reconcile_from-stays agent d cutoff n (o ∷ objects) p db h =
    let s = reconcile_object agent d cutoff o (n, db) in
    reconcile_from-stays agent d cutoff s.0 objects p s.1
      (reconcile_object-stays agent d cutoff cutoff n o p db h)

reconcile_from-settles :
    (agent : String) (d : Descriptor) (cutoff n : ℕ) (objects : List Listed) (db : Tables)
    → all (is_settled agent d cutoff (reconcile_from agent d cutoff objects (n, db)).1) objects
      ≡ true
unfolding reconcile_from
reconcile_from-settles agent d cutoff n [] db = refl
reconcile_from-settles agent d cutoff n (o ∷ objects) db =
    let s = reconcile_object agent d cutoff o (n, db) in
    rw
      (reconcile_from-stays agent d cutoff s.0 objects o s.1
        (reconcile_object-settles agent d cutoff n o db))
      (reconcile_from-settles agent d cutoff s.0 objects s.1)

reconcile_from-settled :
    (agent : String) (d : Descriptor) (cutoff n : ℕ) (objects : List Listed) (db : Tables)
    → all (is_settled agent d cutoff db) objects ≡ true
    → reconcile_from agent d cutoff objects (n, db) ≡ (n, db)
unfolding reconcile_from
reconcile_from-settled agent d cutoff n [] db h = refl
reconcile_from-settled agent d cutoff n (o ∷ objects) db h =
    rw (reconcile_object-settled agent d cutoff n o db (ground (arith, h)))
      (reconcile_from-settled agent d cutoff n objects db (ground (arith, h)))

-- An object that was too young at the cutoff.
abbrev is_young : ℕ → Listed → Bool
is_young cutoff (uri, modified) = ltb cutoff modified

abbrev pub young : ℕ → Option (List Listed) → ℕ
young cutoff none = 0
young cutoff (some objects) = count (is_young cutoff) objects

reconcile_object-young :
    (agent : String) (d : Descriptor) (cutoff later n : ℕ) (o : Listed) (db : Tables)
    → is_settled agent d cutoff db o ≡ true
    → (reconcile_object agent d later o (n, db)).0 ≤ n + (if is_young cutoff o then 1 else 0)
unfolding reconcile_object register
reconcile_object-young agent d cutoff later n (uri, modified) db h =
    elim (Option-cases (placed d uri)) [
      | inl e ↦ ground (arith, e, h)
      | inr ((call_id, kind), e) ↦ ground (arith, e, h, register-blocked agent call_id uri kind db)
    ]

reconcile_from-young :
    (agent : String) (d : Descriptor) (cutoff later n : ℕ) (objects : List Listed) (db : Tables)
    → all (is_settled agent d cutoff db) objects ≡ true
    → (reconcile_from agent d later objects (n, db)).0 ≤ n + count (is_young cutoff) objects
unfolding reconcile_from
reconcile_from-young agent d cutoff later n [] db h = omega arith
reconcile_from-young agent d cutoff later n (o ∷ objects) db h =
    let s = reconcile_object agent d later o (n, db) in
    ground (
      arith,
      reconcile_object-young agent d cutoff later n o db (ground (arith, h)),
      reconcile_from-young agent d cutoff later s.0 objects s.1
          (all_stay agent d cutoff later n o objects db (ground (arith, h))),
    )

-- A second sweep over the same listing and with the same cutoff registers nothing and leaves the
-- tables as the first has left them, whatever they were before. With any other cutoff, such as that
-- of a later time, it registers at most as many objects as were too young for the first.
pub reconcile_agent-again :
    (agent : String) (d : Descriptor) (cutoff later : ℕ) (objects : Option (List Listed))
    (db : Tables)
    → let first = reconcile_agent agent d cutoff objects db in
      (reconcile_agent agent d cutoff objects first.1 ≡ (0, first.1))
      × ((reconcile_agent agent d later objects first.1).0 ≤ young cutoff objects)
unfolding reconcile_agent
reconcile_agent-again agent d cutoff later none db = (refl, omega arith)
reconcile_agent-again agent d cutoff later (some objects) db =
    let done = (reconcile_from agent d cutoff objects (0, db)).1 in
    let settled = reconcile_from-settles agent d cutoff 0 objects db in
    (
      reconcile_from-settled agent d cutoff 0 objects done settled,
      omega (arith, reconcile_from-young agent d cutoff later 0 objects done settled),
    )
