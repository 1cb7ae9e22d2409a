-- ===== src/Calculator/Derive/Dense.antt =====
-- The inferred turns are numbered densely, and none is made of nothing.
use actioneer_pulse.Common.{
  Bool, true, false, Option, none, some, List, [], ◌∷◌, ◌++◌, length, is_some, ◌||◌, if◌then◌else◌,
  ◌≡◌, refl, ℕ, ◌+◌, arith, Bool-cases, inl, inr,
}
use actioneer_pulse.Common.Int.{pos}
use actioneer_pulse.Common.Sort.{sort_by}
use actioneer_pulse.Model.{SpanEvent, Trace, Turn}
use actioneer_pulse.Model.Value.{Conversions}
use actioneer_pulse.Calculator.Derive.{
  Group, has_evidence, close, absorb, ends_group, group_events, turns_from_events, event_le,
}

-- From n on the turns are numbered one by one, and each has a caller's or an agent's evidence.
abbrev pub Numbered : ℕ → List Turn → Type 0
Numbered n [] = Unit
Numbered n (t ∷ ts) =
    (t.turn_index ≡ pos n)
    × ((is_some t.stt_final_at || (is_some t.llm_spoken || is_some t.tts_first_audio_at)) ≡ true)
    × Numbered (n + 1) ts

module _ ⦃c : Conversions⦄ where
  Numbered-append :
      (n m : ℕ) (xs ys : List Turn)
      → n + length xs ≡ m
      → Numbered n xs
      → Numbered m ys
      → Numbered n (xs ++ ys)
  Numbered-append n m [] ys e hx hy = let e' : n ≡ m = omega arith in rw e' hy
  Numbered-append n m (x ∷ xs) ys e hx hy =
      (hx.0, hx.1, Numbered-append (n + 1) m xs ys (omega arith) hx.2 hy)

  close-Numbered :
      (turns : List Turn) (g : Option Group) → Numbered 0 turns → Numbered 0 (close turns g)
  unfolding close
  close-Numbered turns none h = h
  close-Numbered turns (some g) h = elim (Bool-cases (has_evidence g)) [
    | inl has ↦
        rw has (Numbered-append 0 (length turns) turns _ (omega arith) h (refl, ground arith, tt))
    | inr no_evidence ↦ rw no_evidence h
  ]

  next_turns-Numbered :
      (ends : Bool) (turns : List Turn) (cur : Option Group)
      → Numbered 0 turns
      → Numbered 0 (if ends then close turns cur else turns)
  next_turns-Numbered true turns cur h = close-Numbered turns cur h
  next_turns-Numbered false turns cur h = h

  group_events-Numbered :
      (turns : List Turn) (cur : Option Group) (events : List SpanEvent)
      → Numbered 0 turns
      → Numbered 0 (group_events turns cur events)
  unfolding group_events
  group_events-Numbered turns cur [] h = close-Numbered turns cur h
  group_events-Numbered turns cur (e ∷ events) h =
      let ends = ends_group e cur in
      group_events-Numbered (if ends then close turns cur else turns)
        (some (absorb e (if ends then none else cur))) events (next_turns-Numbered ends turns cur h)

  listed-Numbered :
      (events : List SpanEvent)
      → Numbered 0 (elim events [ [] ↦ [] | e ∷ rest ↦ group_events [] none (e ∷ rest) ])
  listed-Numbered [] = tt
  listed-Numbered (e ∷ rest) = group_events-Numbered [] none (e ∷ rest) tt

  -- For any trace, the inferred turns carry the indices 0, 1, 2, … in this order, and each of them
  -- has a final transcript's time, an agent's text or a first audio's time.
  pub turns_from_events-Numbered : (trace : Trace) → Numbered 0 (turns_from_events trace)
  unfolding turns_from_events
  turns_from_events-Numbered trace = listed-Numbered (sort_by event_le _)
