-- ===== src/Worker/Judge/Priority.antt =====
-- Realtime before backfill.
use actioneer_pulse.Common.{
  String, some, List, [], ◌∷◌, ◌≡◌, refl, ap, arith, str_eq_refl, length, map,
}
use actioneer_pulse.Common.Dict.{insert}
use actioneer_pulse.Bus.{Record, Topics, records, poll}
use actioneer_pulse.Bus.Queue.{records-insert}
use actioneer_pulse.Worker.Judge.{next_record, rounds}

module _ (realtime backfill : String) (r : Record) (rs : List Record) (bus : Topics)
    (e : records realtime bus ≡ r ∷ rs) where
  first_polled : poll (realtime ∷ []) bus ≡ (some r, insert realtime rs bus)
  unfolding poll
  first_polled = rw (poll, e) refl

  next_realtime : next_record realtime backfill bus ≡ (some r, insert realtime rs bus)
  unfolding next_record
  next_realtime = rw (next_record, first_polled) (ap (λ polled. (some r, polled.1)) first_polled)

-- As many rounds as the realtime topic has records poll exactly these, in their order, whatever the
-- backfill topic holds.
pub rounds-realtime :
    (realtime backfill : String) (rs : List Record) (bus : Topics)
    → records realtime bus ≡ rs
    → rounds realtime backfill (length rs) bus ≡ map some rs
unfolding rounds
rounds-realtime realtime backfill [] bus e = refl
rounds-realtime realtime backfill (r ∷ rs) bus e =
    rw (rounds, next_realtime realtime backfill r rs bus e)
      (ap (λ rest. some r ∷ rest)
        (rounds-realtime realtime backfill rs (insert realtime rs bus)
          (ground (arith, records-insert realtime realtime rs bus, str_eq_refl realtime))))
