-- ===== src/Worker/Poller/Settled.antt =====
-- A sweep without a failure leaves nothing to poll.
use actioneer_pulse.Common.{
  Bool, true, false, not, String, Option, none, some, List, [], ◌∷◌, any, filter, leb, is_some, ◌≡◌,
  refl, ◌∙◌, sym, ℕ, arith, Option-cases, inl, inr,
}
use actioneer_pulse.Common.Sort.{sort_by, any-sort_by}
use actioneer_pulse.Worker.Poller.{
  FoundCall, StoredObject, Sweep, advance, modified_le, ingest, ingest_all, poll_agent,
  group_objects, in_window, discover_windowed,
}
use actioneer_pulse.Worker.Poller.Watermark.{mark_le, mark_le_trans, ingest_all-mark}

abbrev above : Option ℕ → FoundCall → Bool
above m c = not (mark_le (some c.max_mtime) m)

advance-at : (a : Option ℕ) (t : ℕ) → mark_le (some t) (some (advance a t)) ≡ true
unfolding advance
advance-at none t = ground arith
advance-at (some x) t = ground arith

-- A call that was old enough for the cutoff.
abbrev pub ripe : ℕ → FoundCall → Bool
ripe cutoff c = leb c.max_mtime cutoff

none_ripe :
    (since m : Option ℕ) (cutoff later : ℕ) (calls : List FoundCall)
    → mark_le since m ≡ true
    → any (above m) (filter (in_window since cutoff) calls) ≡ false
    → any (ripe cutoff) (filter (in_window m later) calls) ≡ false
none_ripe since m cutoff later [] le h = refl
none_ripe none none cutoff later (c ∷ calls) le h =
    ground (arith, h, none_ripe none none cutoff later calls le)
none_ripe none (some y) cutoff later (c ∷ calls) le h =
    ground (arith, h, none_ripe none (some y) cutoff later calls le)
none_ripe (some x) none cutoff later (c ∷ calls) le h = ground (arith, le)
none_ripe (some x) (some y) cutoff later (c ∷ calls) le h =
    ground (arith, h, le, none_ripe (some x) (some y) cutoff later calls le)

module _ {W : Type 0} (process : FoundCall → W → Option (String × W)) where
  ingest-at :
      (c : FoundCall) (s : Sweep W)
      → is_some (process c s.world) ≡ true
      → mark_le (some c.max_mtime) (ingest process c s).high ≡ true
  unfolding ingest
  ingest-at c s ok = elim (Option-cases (process c s.world)) [
    | inl e ↦ ground (arith, e, ok)
    | inr ((status, world), e) ↦ ground (arith, e, advance-at s.high c.max_mtime)
  ]

  ingest_all-above :
      (calls : List FoundCall) (s : Sweep W)
      → ((c : FoundCall) (w : W) → is_some (process c w) ≡ true)
      → any (above (ingest_all process calls s).high) calls ≡ false
  unfolding ingest_all
  ingest_all-above [] s ok = refl
  ingest_all-above (c ∷ calls) s ok =
      let step = ingest process c s in
      let m = (ingest_all process calls step).high in
      ground (
        arith,
        ingest_all-above calls step ok,
        ingest-at c s (ok c s.world),
        (ingest_all-mark process calls step).0,
        mark_le_trans (some c.max_mtime) step.high m,
      )

  -- When the processing of no call raises, then after a sweep of what the windowed discovery finds up
  -- to a cutoff, a discovery of the same objects from the new watermark and up to any other cutoff
  -- finds only calls with an object younger than the first cutoff: no call that the first sweep could
  -- take is taken twice.
  pub poll_agent-settled :
      (first_match : String → Option (ℕ × Option String)) (objects : List StoredObject)
      (since : Option ℕ) (cutoff later : ℕ) (world : W)
      → ((c : FoundCall) (w : W) → is_some (process c w) ≡ true)
      → let s =
          poll_agent process (discover_windowed first_match objects since cutoff) world since in
        any (ripe cutoff) (discover_windowed first_match objects s.high later) ≡ false
  unfolding poll_agent discover_windowed
  poll_agent-settled first_match objects since cutoff later world ok =
      let grouped = group_objects first_match [] objects in
      let found = filter (in_window since cutoff) grouped in
      let start : Sweep W = record { world = world; high = since; ingested = 0; judged = [] } in
      let m = (ingest_all process (sort_by modified_le found) start).high in
      none_ripe since m cutoff later grouped
        ((ingest_all-mark process (sort_by modified_le found) start).0)
        (sym (any-sort_by modified_le (above m) found)
          ∙ ingest_all-above (sort_by modified_le found) start ok)
