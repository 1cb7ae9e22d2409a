-- ===== src/Ingest/Once.antt =====
-- Redelivered records: `store_fragment` under at-least-once delivery.
use actioneer_pulse.Common.{
  Bool, true, String, some, List, [], ◌∷◌, ◌≡◌, refl, arith, any, any-append, str_eq_refl, ℕ,
  Bool-cases, inl, inr,
}
use actioneer_pulse.Ingest.{
  Codec, Batch, Tables, call_pk, is_fragment, new_fragment, store_fragment,
}

-- One delivery: when it is handled, its batch and its numbers.
pub record Delivery : Type 0 where
  pub now : ℕ
  pub batch : Batch
  pub batch_id : String
  pub seq : ℕ

module _ (codec : Codec) where
  abbrev pub deliver : Delivery → Tables → Tables
  deliver d db = store_fragment codec d.now d.batch d.batch_id d.seq db

  abbrev pub deliver_all : List Delivery → Tables → Tables
  deliver_all [] db = db
  deliver_all (d ∷ ds) db = deliver_all ds (deliver d db)

  deliver-calls : (d : Delivery) (db : Tables) → (deliver d db).calls ≡ db.calls
  unfolding store_fragment
  deliver-calls d db = ground arith

  deliver_all-calls : (ds : List Delivery) (db : Tables) → (deliver_all ds db).calls ≡ db.calls
  deliver_all-calls [] db = refl
  deliver_all-calls (d ∷ ds) db = rw (deliver_all-calls ds (deliver d db)) (deliver-calls d db)

  module _ (pk batch_id : String) (seq : ℕ) where
    abbrev is_stored : Tables → Bool
    is_stored db = any (is_fragment pk batch_id seq) db.fragments

    deliver-kept :
        (d : Delivery) (db : Tables) → is_stored db ≡ true → is_stored (deliver d db) ≡ true
    unfolding store_fragment
    deliver-kept d db h = ground (
      arith,
      any-append (is_fragment pk batch_id seq) db.fragments (
          new_fragment codec d.now (call_pk db.calls d.batch.call_id) d.batch d.batch_id d.seq
          ∷ []),
    )

    deliver_all-kept :
        (ds : List Delivery) (db : Tables)
        → is_stored db ≡ true
        → is_stored (deliver_all ds db) ≡ true
    deliver_all-kept [] db h = h
    deliver_all-kept (d ∷ ds) db h = deliver_all-kept ds (deliver d db) (deliver-kept d db h)

  -- A fragment that is stored is stored once, and nothing else happens.
  deliver-stored :
      (d : Delivery) (pk : String) (db : Tables)
      → call_pk db.calls d.batch.call_id ≡ some pk
      → is_stored pk d.batch_id d.seq db ≡ true
      → deliver d db ≡ db
  unfolding store_fragment
  deliver-stored d pk db known h = rw (known, h) refl

  deliver-new :
      (d : Delivery) (pk : String) (db : Tables)
      → call_pk db.calls d.batch.call_id ≡ some pk
      → is_stored pk d.batch_id d.seq (deliver d db) ≡ true
  unfolding store_fragment
  deliver-new d pk db known = elim (Bool-cases (is_stored pk d.batch_id d.seq db)) [
    | inl h ↦ rw (known, h) h
    | inr h ↦
        rw (known, h)
          (ground (
            arith,
            any-append (is_fragment pk d.batch_id d.seq) db.fragments
                (new_fragment codec d.now (some pk) d.batch d.batch_id d.seq ∷ []),
            str_eq_refl pk,
            str_eq_refl d.batch_id,
          ))
  ]

  -- After a slice of a known call is stored and any others are, in any order and number, delivering it
  -- again, at whatever time and with whatever content, changes nothing.
  pub store_fragment-redelivered :
      (d again : Delivery) (ds : List Delivery) (pk : String) (db : Tables)
      → call_pk db.calls d.batch.call_id ≡ some pk
      → again.batch.call_id ≡ d.batch.call_id
      → again.batch_id ≡ d.batch_id
      → again.seq ≡ d.seq
      → deliver again (deliver_all ds (deliver d db)) ≡ deliver_all ds (deliver d db)
  store_fragment-redelivered d again ds pk db known same_call same_batch same_seq =
      let after = deliver_all ds (deliver d db) in
      deliver-stored again pk after
        (rw (deliver_all-calls ds (deliver d db), deliver-calls d db, same_call) known)
        (rw (same_batch, same_seq)
          (deliver_all-kept pk d.batch_id d.seq ds (deliver d db) (deliver-new d pk db known)))
