-- ===== src/Calculator/Turns/OnePerTurn.antt =====
-- `_turn_spans` keeps one TURN span of each exchange, on the caller's side where there is one.
use actioneer_pulse.Common.{
  Bool, false, not, String, none, some, List, [], ◌∷◌, ◌&&◌, ◌||◌, map, filter, any, count, All,
  is_some, if◌then◌else◌, elem, str_eq, str_eq_iff, str_eq_refl, subst, ◌≡◌, refl, ◌∙◌, ap, ℕ, suc,
  arith, Bool-cases, inl, inr,
}
use actioneer_pulse.Common.Dict.{Dict, lookup, insert, lookup-insert}
use actioneer_pulse.Common.Sort.{count-sort_by, any-sort_by}
use actioneer_pulse.Model.{Stage, stage_eq, Span}
use actioneer_pulse.Model.Value.{Conversions}
use actioneer_pulse.Calculator.Turns.{
  turn_key, caller_side, takes_over, keep_best, best_spans, by_index, turn_spans,
}

-- Entries of the dict under a key, and whether there is one.
abbrev entries : String → Dict Span → ℕ
entries k d = count (λ e. str_eq e.0 k) d

abbrev one_if : Bool → ℕ
one_if b = if b then 1 else 0

abbrev IsKeyed : Dict Span → Type 0
IsKeyed d = All (λ e. e.0 ≡ turn_key e.1) d

entries-insert_count :
    (k j : String) (v : Span) (d : Dict Span)
    → entries k (insert j v d)
      ≡ (if str_eq j k && not (is_some (lookup j d)) then suc (entries k d) else entries k d)
unfolding lookup insert
entries-insert_count k j v [] = ground arith
entries-insert_count k j v ((i, w) ∷ d) =
    ground (arith, str_eq_iff i j, str_eq_iff i k, str_eq_iff j k, entries-insert_count k j v d)

entries-insert :
    (k j : String) (v : Span) (d : Dict Span)
    → entries k d ≡ one_if (is_some (lookup k d))
    → entries k (insert j v d) ≡ one_if (is_some (lookup k (insert j v d)))
entries-insert k j v d h = elim (Bool-cases (str_eq j k)) [
  | inl hit ↦
      let e : j ≡ k = (str_eq_iff j k).0 hit in
      ground
        (arith, e, hit, ap (λ x. lookup x d) e, entries-insert_count k j v d, lookup-insert j k v d)
  | inr miss ↦ ground (arith, entries-insert_count k j v d, lookup-insert j k v d)
]

insert-IsKeyed : (s : Span) (d : Dict Span) → IsKeyed d → IsKeyed (insert (turn_key s) s d)
unfolding insert
insert-IsKeyed s [] h = (refl, tt)
insert-IsKeyed s ((i, w) ∷ d) h = ground (arith, str_eq_iff i (turn_key s), insert-IsKeyed s d h.1)

module _ (side : List String) where
  -- The entry under a key is on the caller's side.
  abbrev held : String → Dict Span → Bool
  held k d = elim (lookup k d) [ none ↦ false | some cur ↦ elem cur.span_id side ]

  keep_best-entries :
      (k : String) (best : Dict Span) (s : Span)
      → entries k best ≡ one_if (is_some (lookup k best))
      → entries k (keep_best side best s) ≡ one_if (is_some (lookup k (keep_best side best s)))
  unfolding keep_best
  keep_best-entries k best s h = ground (arith, entries-insert k (turn_key s) s best h)

  keep_best-IsKeyed : (best : Dict Span) (s : Span) → IsKeyed best → IsKeyed (keep_best side best s)
  unfolding keep_best
  keep_best-IsKeyed best s h = ground (arith, insert-IsKeyed s best h)

  lookup-keep_best :
      (k : String) (best : Dict Span) (s : Span)
      → is_some (lookup k (keep_best side best s))
        ≡ (is_some (lookup k best) || str_eq (turn_key s) k)
  unfolding keep_best
  lookup-keep_best k best s =
      ground (arith, lookup-insert (turn_key s) k s best, str_eq_iff (turn_key s) k)

  held-insert :
      (k j : String) (v : Span) (d : Dict Span)
      → held k (insert j v d) ≡ (if str_eq j k then elem v.span_id side else held k d)
  held-insert k j v d = elim (Bool-cases (str_eq j k)) [
    | inl hit ↦ rw (hit, held, lookup-insert j k v d, hit)
    | inr miss ↦ rw (miss, held, lookup-insert j k v d, miss)
  ]

  held-keep_best_self :
      (best : Dict Span) (s : Span)
      → held (turn_key s) (keep_best side best s) ≡ (held (turn_key s) best || elem s.span_id side)
  unfolding keep_best takes_over
  held-keep_best_self best s =
      ground
        (arith, held-insert (turn_key s) (turn_key s) s best, str_eq_iff (turn_key s) (turn_key s))

  held-keep_best :
      (k : String) (best : Dict Span) (s : Span)
      → held k (keep_best side best s)
        ≡ (held k best || (str_eq (turn_key s) k && elem s.span_id side))
  unfolding keep_best
  held-keep_best k best s = elim (Bool-cases (str_eq (turn_key s) k)) [
    | inl hit ↦
        subst
          (λ x.
            held x (keep_best side best s)
            ≡ (held x best || (str_eq (turn_key s) x && elem s.span_id side)))
          ((str_eq_iff (turn_key s) k).0 hit)
          (rw (str_eq_refl (turn_key s)) (held-keep_best_self best s))
    | inr miss ↦ ground (arith, held-insert k (turn_key s) s best)
  ]

  best_spans-entries :
      (k : String) (best : Dict Span) (spans : List Span)
      → entries k best ≡ one_if (is_some (lookup k best))
      → entries k (best_spans side best spans)
        ≡ one_if (is_some (lookup k best) || any (λ s. str_eq (turn_key s) k) spans)
  unfolding best_spans
  best_spans-entries k best [] h = ground (arith, h)
  best_spans-entries k best (s ∷ spans) h = ground (
    arith,
    best_spans-entries k (keep_best side best s) spans (keep_best-entries k best s h),
    lookup-keep_best k best s,
  )

  best_spans-IsKeyed :
      (best : Dict Span) (spans : List Span) → IsKeyed best → IsKeyed (best_spans side best spans)
  unfolding best_spans
  best_spans-IsKeyed best [] h = h
  best_spans-IsKeyed best (s ∷ spans) h =
      best_spans-IsKeyed (keep_best side best s) spans (keep_best-IsKeyed best s h)

  held-best_spans :
      (k : String) (best : Dict Span) (spans : List Span)
      → held k (best_spans side best spans)
        ≡ (held k best || any (λ s. str_eq (turn_key s) k && elem s.span_id side) spans)
  unfolding best_spans
  held-best_spans k best [] = ground arith
  held-best_spans k best (s ∷ spans) =
      rw (held-best_spans k (keep_best side best s) spans, held-keep_best k best s) (ground arith)

-- The spans of a keyed dict that belong to an exchange are the entries under its key.
count-values :
    (k : String) (d : Dict Span)
    → IsKeyed d
    → count (λ s. str_eq (turn_key s) k) (map (λ e. e.1) d) ≡ entries k d
count-values k [] h = refl
count-values k ((j, v) ∷ d) h = rw (h.0, count-values k d h.1)

any-filter :
    (p q : Span → Bool) (spans : List Span) → any q (filter p spans) ≡ any (λ s. p s && q s) spans
any-filter p q [] = refl
any-filter p q (s ∷ spans) = ground (arith, any-filter p q spans)

any-congr :
    (p q : Span → Bool) (spans : List Span) → ((s : Span) → p s ≡ q s) → any p spans ≡ any q spans
any-congr p q [] h = refl
any-congr p q (s ∷ spans) h = ground (arith, h s, any-congr p q spans h)

any_none :
    (side : List String) (k : String) (d : Dict Span)
    → IsKeyed d
    → entries k d ≡ 0
    → any (λ s. str_eq (turn_key s) k && elem s.span_id side) (map (λ e. e.1) d) ≡ false
any_none side k [] h e = refl
any_none side k ((j, v) ∷ d) h e = ground (arith, ap (λ x. str_eq x k) h.0, any_none side k d h.1)

any-values :
    (side : List String) (k : String) (d : Dict Span)
    → IsKeyed d
    → entries k d ≡ one_if (is_some (lookup k d))
    → any (λ s. str_eq (turn_key s) k && elem s.span_id side) (map (λ e. e.1) d) ≡ held side k d
unfolding lookup
any-values side k [] h e = refl
any-values side k ((j, v) ∷ d) h e =
    ground (arith, ap (λ x. str_eq x k) h.0, any_none side k d h.1, any-values side k d h.1)

best_spans-entries_some :
    (side : List String) (k : String) (best : Dict Span) (spans : List Span)
    → entries k best ≡ one_if (is_some (lookup k best))
    → entries k (best_spans side best spans)
      ≡ one_if (is_some (lookup k (best_spans side best spans)))
unfolding best_spans
best_spans-entries_some side k best [] h = h
best_spans-entries_some side k best (s ∷ spans) h =
    best_spans-entries_some side k (keep_best side best s) spans (keep_best-entries side k best s h)

-- `s.stage is Stage.TURN` and the span belongs to the exchange k.
abbrev pub is_turn_of : String → Span → Bool
is_turn_of k s = stage_eq s.stage Stage.turn && str_eq (turn_key s) k

module _ ⦃c : Conversions⦄ where
  -- Whatever the spans, of the exchange k exactly one span is kept if a TURN span belongs to it, and
  -- none otherwise.
  pub turn_spans_once :
      (spans : List Span) (k : String)
      → count (λ s. str_eq (turn_key s) k) (turn_spans spans)
        ≡ (if any (is_turn_of k) spans then 1 else 0)
  unfolding turn_spans lookup
  turn_spans_once spans k =
      let side = caller_side spans in
      let turns = filter (λ s. stage_eq s.stage Stage.turn) spans in
      let best = best_spans side [] turns in
      count-sort_by by_index (λ s. str_eq (turn_key s) k) (map (λ e. e.1) best)
      ∙ count-values k best (best_spans-IsKeyed side [] turns tt)
      ∙ best_spans-entries side k [] turns refl
      ∙ rw (any-filter (λ s. stage_eq s.stage Stage.turn) (λ s. str_eq (turn_key s) k) spans)

  -- Whatever the spans, the span kept of the exchange k parents an STT or SPEECH span if any TURN
  -- span of the exchange does, and otherwise it does not.
  pub turn_spans-caller_side :
      (spans : List Span) (k : String)
      → any (λ s. str_eq (turn_key s) k && elem s.span_id (caller_side spans)) (turn_spans spans)
        ≡ any (λ s. is_turn_of k s && elem s.span_id (caller_side spans)) spans
  unfolding turn_spans lookup
  turn_spans-caller_side spans k =
      let side = caller_side spans in
      let turns = filter (λ s. stage_eq s.stage Stage.turn) spans in
      let best = best_spans side [] turns in
      any-sort_by by_index (λ s. str_eq (turn_key s) k && elem s.span_id side) (map (λ e. e.1) best)
      ∙ any-values side k best (best_spans-IsKeyed side [] turns tt)
          (best_spans-entries_some side k [] turns refl)
      ∙ held-best_spans side k [] turns
      ∙ any-filter (λ s. stage_eq s.stage Stage.turn)
          (λ s. str_eq (turn_key s) k && elem s.span_id side) spans
      ∙ any-congr _ _ spans (λ s. ground arith)
