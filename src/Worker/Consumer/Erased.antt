-- ===== src/Worker/Consumer/Erased.antt =====
-- Tombstoned call ids: no call of the table has one.
use actioneer_pulse.Common.{false, String, Option, none, some, List, ◌≡◌, refl, elem, All, ℕ}
use actioneer_pulse.Model.Value.{Conversions}
use actioneer_pulse.Ingest.{Codec, Batch, Call, Tables}
use actioneer_pulse.Worker.Consumer.{Processed, upserted}

abbrev Spared : List String → Call → Type 0
Spared erased row = elem row.external_call_id erased ≡ false

-- No call of the table is tombstoned.
abbrev pub NoErased : Tables → Type 0
NoErased db = All (Spared db.tombstones) db.calls

-- What an analysis has to keep: the tombstones, and that no call is tombstoned.
abbrev pub Keeps : Tables → Tables → Type 0
Keeps db after = (after.tombstones ≡ db.tombstones) × (NoErased db → NoErased after)

module _ (process : Call → Tables → Processed) where
  module _ ⦃c : Conversions⦄ (codec : Codec) (script : String → Option String) (now : ℕ)
      (id : String) where
    upserted-tombstones :
        (b : Batch) (call_id : Option String) (db : Tables)
        → (upserted script now id b call_id db).tombstones ≡ db.tombstones
    upserted-tombstones b none db = refl
    upserted-tombstones b (some call_id) db = refl
