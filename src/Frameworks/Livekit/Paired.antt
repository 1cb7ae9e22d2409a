-- ===== src/Frameworks/Livekit/Paired.antt =====
-- The walk to an agent's turn ends, and agent turns before any user turn.
use actioneer_pulse.Common.{
  true, String, Option, none, some, List, [], ◌∷◌, ◌≡◌, refl, arith, any, count, elem,
  count-le-length, Option-cases, Bool-cases, inl, inr, ℕ, zero, suc, length, ◌<◌,
}
use actioneer_pulse.Model.{Span}
use actioneer_pulse.Frameworks.Generic.{by_id, parent_of}
use actioneer_pulse.Frameworks.Generic.Ancestors.{has_id, unseen, fewer, parent_of-by_id}
use actioneer_pulse.Frameworks.Livekit.{agent_turn_of}

module _ (spans : List Span) (roots : List String) where
  agent_walk_ends :
      (fuel : ℕ) (seen : List String) (s : Span)
      → any (has_id s.span_id) spans ≡ true
      → count (unseen seen) spans < fuel
      → (a : Option Span) × (agent_turn_of (by_id [] spans) roots fuel seen (some s) ≡ some a)
  unfolding agent_turn_of
  agent_walk_ends zero seen s h lt = absurd (omega arith)
  agent_walk_ends (suc fuel) seen s h lt = elim (Bool-cases (elem s.span_id seen)) [
    | inl e ↦ (none, rw e refl)
    | inr e ↦ elim (Bool-cases (elem s.span_id roots)) [
      | inl t ↦ (some s, rw (e, t) refl)
      | inr t ↦ elim (Option-cases (parent_of (by_id [] spans) s)) [
        | inl n ↦ (none, rw (e, t, n) refl)
        | inr (p, f) ↦
            let (a, g) =
              agent_walk_ends fuel (s.span_id ∷ seen) p (parent_of-by_id spans s p f)
                (omega (arith, fewer s.span_id seen spans e h)) in
            (a, rw (e, t, f) g)
      ]
    ]
  ]

  -- The fuel of `pair_one` is enough for every span of the trace.
  agent_turn_of_ends :
      (s : Span)
      → any (has_id s.span_id) spans ≡ true
      → (a : Option Span) × (agent_turn_of (by_id [] spans) roots (suc (length spans)) [] (some s)
          ≡ some a)
  agent_turn_of_ends s h =
      agent_walk_ends (suc (length spans)) [] s h (omega (arith, count-le-length (unseen []) spans))
