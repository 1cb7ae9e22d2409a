-- ===== src/Process/Persist/Again.antt =====
-- Writing an analysis again, and the rows of other calls.
use text.Mathlib.TextLemmas.{cons-append}
use Prim.Native.Char.{Char}
use Prim.Native.String.{◌++◌ as append}
use actioneer_pulse.Common.{
  true, false, String, Option, none, some, List, [], ◌∷◌, ◌++◌, ◌≡◌, ◌≢◌, refl, sym, ◌∙◌, subst,
  arith, map, filter, All, All-append, str_eq, str_eq_refl, str_eq_iff, ℕ, suc, nonempty, truthy,
  Bool-cases, inl, inr,
}
use actioneer_pulse.Common.Strings.{drop_prefix}
use actioneer_pulse.Common.Sort.{sort_by}
use actioneer_pulse.Model.{AudioAnalysis, Turn, MetricValue, Trace, Span, SpanEvent}
use actioneer_pulse.Calculator.Turns.{span_le}
use actioneer_pulse.Process.Rows.{
  EventRow, MediaRow, turn_row, metric_row, utterance_rows, series_row, peaks_rows, energy_rows,
  event_rows, event_rows_from, span_event_rows, span_row, event_row, advance, sooner,
}
use actioneer_pulse.Process.Persist.Rewrite.{rewrite-again, rewrite-theirs}
use actioneer_pulse.Process.Persist.{
  Tables, is_series, like, audio_utterances, audio_series, write_rows,
}

All-map :
    {A B : Type 0} (P : B → Type 0) (f : A → B)
    → ((a : A) → P (f a))
    → (xs : List A) → All P (map f xs)
All-map P f h [] = tt
All-map P f h (x ∷ xs) = (h x, All-map P f h xs)

abbrev IsCons : String → Type 0
IsCons String.[] = ⊥
IsCons (String.◌∷◌ ch s) = Unit

module _ (id : String) (version : ℕ) where
  pub turns_mine :
      (turns : List Turn) → All (λ r. str_eq r.call_id id ≡ true) (map (turn_row id version) turns)
  unfolding turn_row
  turns_mine turns = All-map _ (turn_row id version) (λ t. str_eq_refl id) turns

  pub metrics_mine :
      (metrics : List MetricValue)
      → All (λ r. str_eq r.call_id id ≡ true) (map (metric_row id version) metrics)
  unfolding metric_row
  metrics_mine metrics = All-map _ (metric_row id version) (λ m. str_eq_refl id) metrics

  pub utterances_mine :
      (audio : Option AudioAnalysis)
      → All (λ r. str_eq r.call_id id ≡ true) (audio_utterances id version audio)
  unfolding utterance_rows
  utterances_mine none = tt
  utterances_mine (some audio) = All-map _ _ (λ u. str_eq_refl id) audio.utterances

  events_mine :
      (p : ℕ) (s : Span) (events : List SpanEvent) (rest : List EventRow)
      → All (λ r. str_eq r.call_id id ≡ true) rest
      → All (λ r. str_eq r.call_id id ≡ true) (span_event_rows id p s events ++ rest)
  unfolding span_event_rows event_row
  events_mine p s [] rest h = h
  events_mine p s (e ∷ events) rest h = (str_eq_refl id, events_mine (suc p) s events rest h)

  rows_mine :
      (p : ℕ) (spans : List Span)
      → All (λ r. str_eq r.call_id id ≡ true) (event_rows_from id p spans)
  unfolding event_rows_from span_row
  rows_mine p [] = tt
  rows_mine p (s ∷ spans) =
      let events = sort_by sooner s.events in
      (str_eq_refl id, events_mine (suc p) s events _ (rows_mine (advance (suc p) events) spans))

  pub timeline_mine : (trace : Trace) → All (λ r. str_eq r.call_id id ≡ true) (event_rows id trace)
  unfolding event_rows
  timeline_mine trace = rows_mine 0 (sort_by span_le trace.spans)

  truthy-cons : (ch : Char) (s : String) → truthy (String.◌∷◌ ch s) ≡ true
  truthy-cons ch s = elim (Bool-cases (str_eq (String.◌∷◌ ch s) "")) [
    | inl e ↦ absurd (subst IsCons ((str_eq_iff (String.◌∷◌ ch s) "").0 e) tt)
    | inr e ↦ rw e refl
  ]

  like-peaks : (channel : String) → like "peaks" (append "peaks_" channel) ≡ true
  unfolding drop_prefix
  like-peaks channel =
      rw
        (
          cons-append "p" "eaks_" channel,
          cons-append "e" "aks_" channel,
          cons-append "a" "ks_" channel,
          cons-append "k" "s_" channel,
          cons-append "s" "_" channel,
          cons-append "_" "" channel,
        )
        (truthy-cons "_" _)

  like-energy : (channel : String) → like "energy" (append "energy_" channel) ≡ true
  unfolding drop_prefix
  like-energy channel =
      rw
        (
          cons-append "e" "nergy_" channel,
          cons-append "n" "ergy_" channel,
          cons-append "e" "rgy_" channel,
          cons-append "r" "gy_" channel,
          cons-append "g" "y_" channel,
          cons-append "y" "_" channel,
          cons-append "_" "" channel,
        )
        (truthy-cons "_" _)

  pub series_mine :
      (audio : Option AudioAnalysis) → All (λ m. is_series id m ≡ true) (audio_series id audio)
  unfolding peaks_rows energy_rows
  series_mine none = tt
  series_mine (some audio) =
      All-append _ (peaks_rows id audio) (energy_rows id audio)
        (All-map _ (series_row id "peaks_") (λ entry. rw (str_eq_refl id, like-peaks entry.0) refl)
          audio.peaks)
        (All-map _ (series_row id "energy_")
          (λ entry. ground (arith, str_eq_refl id, like-energy entry.0))
          (filter (λ entry. nonempty entry.1) audio.energy))

-- The rows of another call, in every table.
abbrev pub SameFor : String → Tables → Tables → Type 0
SameFor other a b =
    (filter (λ r. str_eq r.call_id other) a.turns ≡ filter (λ r. str_eq r.call_id other) b.turns)
    × (filter (λ r. str_eq r.call_id other) a.metrics
        ≡ filter (λ r. str_eq r.call_id other) b.metrics)
    × (filter (λ r. str_eq r.call_id other) a.events
        ≡ filter (λ r. str_eq r.call_id other) b.events)
    × (filter (λ r. str_eq r.call_id other) a.utterances
        ≡ filter (λ r. str_eq r.call_id other) b.utterances)
    × (filter (λ r. str_eq r.call_id other) a.media ≡ filter (λ r. str_eq r.call_id other) b.media)

apart : (id other a : String) → id ≢ other → str_eq a id ≡ true → str_eq a other ≡ false
apart id other a n e = elim (Bool-cases (str_eq a other)) [
  | inr d ↦ d
  | inl d ↦ absurd (n (sym ((str_eq_iff a id).0 e) ∙ (str_eq_iff a other).0 d))
]

module _ (id : String) (version : ℕ) (turns : List Turn) (metrics : List MetricValue)
    (trace : Trace) (audio : Option AudioAnalysis) (db : Tables) where
  abbrev pub written : Tables → Tables
  written = write_rows id version turns metrics (event_rows id trace) audio

  pub write_rows-twice : written (written db) ≡ written db
  unfolding write_rows
  write_rows-twice =
      rw
        (
          rewrite-again (λ r. str_eq r.call_id id) (map (turn_row id version) turns) db.turns
              (turns_mine id version turns),
          rewrite-again (λ r. str_eq r.call_id id) (map (metric_row id version) metrics) db.metrics
              (metrics_mine id version metrics),
          rewrite-again (λ r. str_eq r.call_id id) (event_rows id trace) db.events
              (timeline_mine id version trace),
          rewrite-again (λ r. str_eq r.call_id id) (audio_utterances id version audio) db.utterances
              (utterances_mine id version audio),
          rewrite-again (is_series id) (audio_series id audio) db.media
              (series_mine id version audio),
        )
        refl

  is_series-apart :
      (other : String) (m : MediaRow)
      → id ≢ other
      → is_series id m ≡ true
      → str_eq m.call_id other ≡ false
  is_series-apart other m n h = apart id other m.call_id n (ground (arith, h))

  -- Analysing a call again leaves no row twice: writing the same analysis a second time gives the same
  -- tables as writing it once. The rows of every other call stay as they were.
  pub write_rows-again :
      (other : String)
      → id ≢ other
      → (written (written db) ≡ written db) × SameFor other (written db) db
  unfolding write_rows
  write_rows-again other n = (
    write_rows-twice,
    (
      rewrite-theirs _ _ (λ r. apart id other r.call_id n) _ db.turns (turns_mine id version turns),
      rewrite-theirs _ _ (λ r. apart id other r.call_id n) _ db.metrics
          (metrics_mine id version metrics),
      rewrite-theirs _ _ (λ r. apart id other r.call_id n) _ db.events
          (timeline_mine id version trace),
      rewrite-theirs _ _ (λ r. apart id other r.call_id n) _ db.utterances
          (utterances_mine id version audio),
      rewrite-theirs (is_series id) _ (λ m. is_series-apart other m n) _ db.media
          (series_mine id version audio),
    ),
  )
