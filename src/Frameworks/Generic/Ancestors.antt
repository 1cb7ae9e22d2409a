-- ===== src/Frameworks/Generic/Ancestors.antt =====
-- The walk from a span to the turn above it: it ends, and it finds the nearest turn.
use actioneer_pulse.Common.{
  Bool, true, false, not, String, Option, none, some, List, [], ◌∷◌, ◌≡◌, ◌≢◌, refl, arith, any,
  count, elem, str_eq, str_eq_iff, str_eq_refl, ℕ, zero, suc, length, ◌<◌, ◌≤◌, count-le-length,
  Option-cases, Bool-cases, inl, inr, truthy?, ◌⊎◌, ap, ◌∙◌,
}
use actioneer_pulse.Common.Dict.{Dict, lookup, insert, lookup-insert}
use actioneer_pulse.Model.{Stage, stage_eq, Span}
use actioneer_pulse.Frameworks.Generic.{by_id, parent_of, own_turn, turn_of}

abbrev pub has_id : String → Span → Bool
has_id id s = str_eq s.span_id id

-- A span that the index gives is one of the spans, under its own id.
lookup-by_id :
    (id : String) (d : Dict Span) (spans : List Span) (p : Span)
    → lookup id (by_id d spans) ≡ some p
    → ((lookup id d ≡ some p) ⊎ ((any (has_id id) spans ≡ true) × (p.span_id ≡ id)))
unfolding by_id
lookup-by_id id d [] p e = inl e
lookup-by_id id d (s ∷ spans) p e = elim (lookup-by_id id (insert s.span_id s d) spans p e) [
  | inr h ↦ ground (arith, h)
  | inl f ↦
      ground (arith, f, lookup-insert s.span_id id s d, str_eq_iff s.span_id id, str_eq_refl id)
]

lookup-nil : (id : String) (p : Span) → lookup id [] ≢ some p
unfolding lookup
lookup-nil id p e = ground (arith, e)

pub parent_of-by_id :
    (spans : List Span) (s p : Span)
    → parent_of (by_id [] spans) s ≡ some p
    → any (has_id p.span_id) spans ≡ true
unfolding parent_of
parent_of-by_id spans s p e = elim (Option-cases (truthy? s.parent_span_id)) [
  | inl n ↦ ground (arith, n)
  | inr (id, f) ↦
      let found : lookup id (by_id [] spans) ≡ some p = ground (arith, f) in
      ground (arith, lookup-by_id id [] spans p found, lookup-nil id p)
]

abbrev pub unseen : List String → Span → Bool
unseen seen s = not (elem s.span_id seen)

no_more :
    (id : String) (seen : List String) (spans : List Span)
    → count (unseen (id ∷ seen)) spans ≤ count (unseen seen) spans
no_more id seen [] = omega arith
no_more id seen (s ∷ spans) = ground (arith, no_more id seen spans)

-- Marking a new id leaves fewer spans unseen.
pub fewer :
    (id : String) (seen : List String) (spans : List Span)
    → elem id seen ≡ false
    → any (has_id id) spans ≡ true
    → count (unseen (id ∷ seen)) spans < count (unseen seen) spans
fewer id seen [] n h = ground arith
fewer id seen (s ∷ spans) n h = elim (Bool-cases (str_eq s.span_id id)) [
  | inl e ↦
      let same = (str_eq_iff s.span_id id).0 e in
      let new : elem s.span_id seen ≡ false = ap (λ x. elem x seen) same ∙ n in
      ground (arith, e, new, no_more id seen spans)
  | inr e ↦ ground (arith, e, no_more id seen spans, fewer id seen spans n)
]

-- From a span to one above it, past spans that are no turns.
pub data Chain (d : Dict Span) : Span → Span → Type 0 where
  here : {s : Span} → Chain d s s
  up :
      {s p t : Span}
      → stage_eq s.stage Stage.turn ≡ false
      → parent_of d s ≡ some p
      → Chain d p t
      → Chain d s t

-- The id of a turn span that stands on top of such a chain.
pub NearestTurn : Dict Span → Span → String → Type 0
NearestTurn d s id =
    (t : Span) × Chain d s t × (stage_eq t.stage Stage.turn ≡ true) × (own_turn t ≡ id)

abbrev pub Answers : Dict Span → Span → Option String → Type 0
Answers d s none = Unit
Answers d s (some id) = NearestTurn d s id

above :
    (d : Dict Span) (s p : Span) (a : Option String)
    → stage_eq s.stage Stage.turn ≡ false
    → parent_of d s ≡ some p
    → Answers d p a
    → Answers d s a
unfolding NearestTurn
above d s p none n e h = tt
above d s p (some id) n e (t, c, k, o) = (t, up n e c, k, o)

module _ (spans : List Span) where
  -- The loop gives an answer on this much fuel, from any span of the list.
  walk_ends :
      (fuel : ℕ) (seen : List String) (s : Span)
      → any (has_id s.span_id) spans ≡ true
      → count (unseen seen) spans < fuel
      → (a : Option String) × (turn_of (by_id [] spans) fuel seen (some s) ≡ some a)
        × Answers (by_id [] spans) s a
  unfolding turn_of NearestTurn
  walk_ends zero seen s h lt = absurd (omega arith)
  walk_ends (suc fuel) seen s h lt = elim (Bool-cases (elem s.span_id seen)) [
    | inl e ↦ (none, rw e refl, tt)
    | inr e ↦ elim (Bool-cases (stage_eq s.stage Stage.turn)) [
      | inl t ↦ (some (own_turn s), rw (e, t) refl, (s, here, t, refl))
      | inr t ↦ elim (Option-cases (parent_of (by_id [] spans) s)) [
        | inl n ↦ (none, rw (e, t, n) refl, tt)
        | inr (p, f) ↦
            let (a, g, k) =
              walk_ends fuel (s.span_id ∷ seen) p (parent_of-by_id spans s p f)
                (omega (arith, fewer s.span_id seen spans e h)) in
            (a, rw (e, t, f) g, above _ s p a t f k)
      ]
    ]
  ]

  -- The loop over the parents of a span ends within one step for each span of the trace, and one,
  -- even where the parents form a circle; the turn that it finds is the nearest one above the span.
  pub turn_of-NearestTurn :
      (s : Span)
      → any (has_id s.span_id) spans ≡ true
      → (a : Option String) × (turn_of (by_id [] spans) (suc (length spans)) [] (some s) ≡ some a)
        × Answers (by_id [] spans) s a
  turn_of-NearestTurn s h =
      walk_ends (suc (length spans)) [] s h (omega (arith, count-le-length (unseen []) spans))
