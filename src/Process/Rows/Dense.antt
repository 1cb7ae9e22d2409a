-- ===== src/Process/Rows/Dense.antt =====
-- The positions of the timeline's rows.
use actioneer_pulse.Common.{
  Bool, String, List, [], ◌∷◌, ◌++◌, ◌≡◌, refl, Option, map, filter, filter-append, str_eq, ℕ, suc,
}
use actioneer_pulse.Common.Int.{ℤ}
use actioneer_pulse.Common.Sort.{sort_by}
use actioneer_pulse.Model.{Span, SpanEvent, Trace}
use actioneer_pulse.Calculator.Turns.{span_le}
use actioneer_pulse.Process.Rows.{
  EventRow, span_row, event_row, span_event_rows, event_rows_from, event_rows, advance, sooner,
}

-- The rows stand at p, p + 1 and so on.
abbrev pub IsDense : ℕ → List EventRow → Type 0
IsDense p [] = Unit
IsDense p (row ∷ rows) = (row.position ≡ p) × IsDense (suc p) rows

abbrev pub is_span : EventRow → Bool
is_span row = str_eq row.kind "span"

-- What a span's row tells of the span.
abbrev Identity : Type 0
Identity = String × Option String × Option String × Option ℤ × String

abbrev pub identity : Span → Identity
identity s = (s.span_id, s.parent_span_id, s.turn_id, s.t_start, s.name)

abbrev pub identity_of : EventRow → Identity
identity_of r = (r.span_id, r.parent_span_id, r.turn_id, r.t_offset_s, r.name)

module _ (id : String) where
  span_event_rows-IsDense :
      (p : ℕ) (s : Span) (events : List SpanEvent) (rest : List EventRow)
      → IsDense (advance p events) rest
      → IsDense p (span_event_rows id p s events ++ rest)
  unfolding span_event_rows event_row
  span_event_rows-IsDense p s [] rest h = h
  span_event_rows-IsDense p s (e ∷ events) rest h =
      (refl, span_event_rows-IsDense (suc p) s events rest h)

  event_rows_from-IsDense : (p : ℕ) (spans : List Span) → IsDense p (event_rows_from id p spans)
  unfolding event_rows_from span_row
  event_rows_from-IsDense p [] = tt
  event_rows_from-IsDense p (s ∷ spans) =
      let events = sort_by sooner s.events in
      (
        refl,
        span_event_rows-IsDense (suc p) s events _
            (event_rows_from-IsDense (advance (suc p) events) spans),
      )

  no_span :
      (p : ℕ) (s : Span) (events : List SpanEvent)
      → filter is_span (span_event_rows id p s events) ≡ []
  unfolding span_event_rows event_row str_eq
  no_span p s [] = refl
  no_span p s (e ∷ events) = no_span (suc p) s events

  span_rows_from :
      (p : ℕ) (spans : List Span)
      → map identity_of (filter is_span (event_rows_from id p spans)) ≡ map identity spans
  unfolding event_rows_from span_row str_eq
  span_rows_from p [] = refl
  span_rows_from p (s ∷ spans) =
      let events = sort_by sooner s.events in
      rw
        (
          filter-append is_span (span_event_rows id (suc p) s events)
              (event_rows_from id (advance (suc p) events) spans),
          no_span (suc p) s events,
          span_rows_from (advance (suc p) events) spans,
        )
        refl

  -- The rows of a call's timeline are numbered 0, 1, 2 and so on without a gap, also where spans and
  -- events carry no time. The rows of kind "span" among them are, one for one, the spans of the trace
  -- in the order of time: each has the span's id, its parent's, its turn's, its start and its name.
  pub event_rows-IsDense :
      (trace : Trace)
      → IsDense 0 (event_rows id trace)
        × (map identity_of (filter is_span (event_rows id trace))
            ≡ map identity (sort_by span_le trace.spans))
  unfolding event_rows
  event_rows-IsDense trace = (
    event_rows_from-IsDense 0 (sort_by span_le trace.spans),
    span_rows_from 0 (sort_by span_le trace.spans),
  )
