-- ===== src/Worker/Poller/Watermark.antt =====
-- The watermark of a sweep.
use actioneer_pulse.Common.{
  Bool, true, false, String, Option, none, some, List, [], ◌∷◌, ◌||◌, length, length-append, any,
  leb, ◌==◌, ◌≡◌, refl, ◌⊎◌, inl, inr, Option-cases, ℕ, arith,
}
use actioneer_pulse.Common.Sort.{sort_by, any-sort_by}
use actioneer_pulse.Worker.Poller.{
  FoundCall, Sweep, advance, modified_le, ingest, ingest_all, poll_agent,
}

-- The one watermark is not above the other, where none is below all.
abbrev pub mark_le : Option ℕ → Option ℕ → Bool
mark_le none b = true
mark_le (some x) none = false
mark_le (some x) (some y) = leb x y

-- The watermark is the old one, or the time of one of the calls.
abbrev pub same_mark : Option ℕ → Option ℕ → Bool
same_mark none none = true
same_mark none (some y) = false
same_mark (some x) none = false
same_mark (some x) (some y) = x == y

abbrev pub mark_of : Option ℕ → Option ℕ → List FoundCall → Bool
mark_of new old calls = same_mark new old || any (λ c. same_mark new (some c.max_mtime)) calls

mark_le_refl : (a : Option ℕ) → mark_le a a ≡ true
mark_le_refl none = refl
mark_le_refl (some x) = ground arith

same_mark_refl : (a : Option ℕ) → same_mark a a ≡ true
same_mark_refl none = refl
same_mark_refl (some x) = ground arith

pub mark_le_trans :
    (a b c : Option ℕ) → mark_le a b ≡ true → mark_le b c ≡ true → mark_le a c ≡ true
mark_le_trans none b c h k = refl
mark_le_trans (some x) none c h k = ground (arith, h)
mark_le_trans (some x) (some y) none h k = ground (arith, k)
mark_le_trans (some x) (some y) (some z) h k = ground (arith, h, k)

pub advance-mark_le : (a : Option ℕ) (t : ℕ) → mark_le a (some (advance a t)) ≡ true
unfolding advance
advance-mark_le none t = refl
advance-mark_le (some x) t = ground arith

advance-mark_of :
    (a m : Option ℕ) (t : ℕ)
    → same_mark m (some (advance a t)) ≡ true
    → (same_mark m a || same_mark m (some t)) ≡ true
unfolding advance
advance-mark_of none m t h = ground (arith, h)
advance-mark_of (some x) none t h = ground (arith, h)
advance-mark_of (some x) (some y) t h = ground (arith, h)

module _ {W : Type 0} (process : FoundCall → W → Option (String × W)) where
  pub ingest-high :
      (c : FoundCall) (s : Sweep W)
      → ((ingest process c s).high ≡ s.high)
        ⊎ ((ingest process c s).high ≡ some (advance s.high c.max_mtime))
  unfolding ingest
  ingest-high c s = elim (Option-cases (process c s.world)) [
    | inl e ↦ inl (ground (arith, e))
    | inr ((status, world), e) ↦ inr (ground (arith, e))
  ]

  pub ingest_all-mark :
      (calls : List FoundCall) (s : Sweep W)
      → (mark_le s.high (ingest_all process calls s).high ≡ true)
        × (mark_of (ingest_all process calls s).high s.high calls ≡ true)
  unfolding ingest_all
  ingest_all-mark [] s = (mark_le_refl s.high, ground (arith, same_mark_refl s.high))
  ingest_all-mark (c ∷ calls) s =
      let rest = ingest_all-mark calls (ingest process c s) in
      let m = (ingest_all process calls (ingest process c s)).high in
      elim (ingest-high c s) [
        | inl e ↦ ground (arith, e, rest)
        | inr e ↦ ground (
          arith,
          e,
          rest,
          advance-mark_le s.high c.max_mtime,
          mark_le_trans s.high (some (advance s.high c.max_mtime)) m,
          advance-mark_of s.high m c.max_mtime,
        )
      ]

  ingest-count :
      (c : FoundCall) (s : Sweep W)
      → length s.judged ≡ s.ingested
      → length (ingest process c s).judged ≡ (ingest process c s).ingested
  unfolding ingest
  ingest-count c s h = elim (Option-cases (process c s.world)) [
    | inl e ↦ ground (arith, e, h)
    | inr ((status, world), e) ↦ ground (arith, e, h, length-append s.judged (c.call_id ∷ []))
  ]

  ingest_all-count :
      (calls : List FoundCall) (s : Sweep W)
      → length s.judged ≡ s.ingested
      → length (ingest_all process calls s).judged ≡ (ingest_all process calls s).ingested
  unfolding ingest_all
  ingest_all-count [] s h = h
  ingest_all-count (c ∷ calls) s h =
      ingest_all-count calls (ingest process c s) (ingest-count c s h)

  -- However the calls' processing behaves: a sweep never lowers the watermark, moves it at most to
  -- the time of one of the calls it found, and counts exactly the calls it sends to the judge.
  pub poll_agent-mark :
      (found : List FoundCall) (world : W) (high : Option ℕ)
      → let s = poll_agent process found world high in
        (mark_le high s.high ≡ true)
        × (mark_of s.high high found ≡ true)
        × (length s.judged ≡ s.ingested)
  unfolding poll_agent
  poll_agent-mark found world high =
      let start : Sweep W = record { world = world; high = high; ingested = 0; judged = [] } in
      let mark = ingest_all-mark (sort_by modified_le found) start in
      let m = (ingest_all process (sort_by modified_le found) start).high in
      (
        mark.0,
        ground (arith, mark.1, any-sort_by modified_le (λ c. same_mark m (some c.max_mtime)) found),
        ingest_all-count (sort_by modified_le found) start refl,
      )
