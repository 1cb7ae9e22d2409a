-- ===== src/Audio/Metrics.antt =====
-- Layer-1 metrics, src/voiceobs/core/audio/metrics.py.
pub mod Rank
use actioneer_pulse.Common.{
  Bool, true, false, not, Option, none, some, List, [], ◌∷◌, ◌++◌, map, filter, any, count, length,
  head?, if◌then◌else◌, same, ◌&&◌, ℕ, ◌+◌, ◌-◌, ◌*◌, min, get_elem?, nonempty, find,
}
use actioneer_pulse.Common.Int.{
  ℤ, pos, ◌+ℤ◌, ◌-ℤ◌, ltb_ℤ, leb_ℤ, max_ℤ, round_quot, round_quot_ℤ, pos_part, neg_part,
}
use actioneer_pulse.Common.Sort.{sort_by}
use actioneer_pulse.Model.{Utterance}
use actioneer_pulse.Audio.Intervals.{Interval, merge, intersect, subtract, total, complement}

abbrev pub window : Utterance → Interval
window u = (u.t_start, u.t_end)

unfoldable pub utts_to_intervals : List Utterance → List Interval
utts_to_intervals utts = merge (map window utts)

-- `round(x / d, 4)` in ten-thousandths, for a d that is not 0.
unfoldable pub fraction : ℤ → ℤ → ℤ
fraction x d =
    let size = pos_part d + neg_part d in
    let up = pos (round_quot ((pos_part x + neg_part x) * 10000) size) in
    if same (ltb_ℤ x (pos 0)) (ltb_ℤ d (pos 0)) then up else pos 0 -ℤ up

pub record TalkRatio : Type 0 where
  pub caller : ℤ
  pub agent : ℤ
  pub overlap : ℤ

-- `none` is the empty dict.
unfoldable pub talk_ratio : List Utterance → List Interval → ℤ → Option TalkRatio
talk_ratio caller_utts agent_iv duration =
    let caller_iv = utts_to_intervals caller_utts in
    if leb_ℤ duration (pos 0)
    then none
    else some (record {
      caller = fraction (total caller_iv) duration;
      agent = fraction (total agent_iv) duration;
      overlap = fraction (total (intersect caller_iv agent_iv)) duration;
    })

-- `s < u.t_start < e`
abbrev pub begins_inside : Utterance → Interval → Bool
begins_inside u i = ltb_ℤ i.0 u.t_start && ltb_ℤ u.t_start i.1

unfoldable pub barge_in_count : List Utterance → List Interval → ℕ
barge_in_count caller_utts agent_iv = count (λ u. any (begins_inside u) agent_iv) caller_utts

abbrev pub starts_le : Utterance → Utterance → Bool
starts_le a b = leb_ℤ a.t_start b.t_start

-- `cu.t_end <= s < next_caller`, where no next caller is infinity.
abbrev pub answers : Utterance → Option Utterance → ℤ → Bool
answers cu none s = leb_ℤ cu.t_end s
answers cu (some next) s = leb_ℤ cu.t_end s && ltb_ℤ s next.t_start

-- The loop over the ordered caller utterances.
latencies_from : List ℤ → List Utterance → List ℤ
latencies_from starts [] = []
latencies_from starts (cu ∷ rest) =
    let more = latencies_from starts rest in
    elim (find (answers cu (head? rest)) starts) [ none ↦ more | some s ↦ (s -ℤ cu.t_end) ∷ more ]

unfoldable pub response_latencies : List Utterance → List Interval → List ℤ
unfolding latencies_from sort_by
response_latencies caller_utts agent_iv =
    latencies_from (sort_by leb_ℤ (map (λ i. i.0) agent_iv)) (sort_by starts_le caller_utts)

-- `sum(e - s for s, e in gaps if (e - s) >= min_gap_s)`
abbrev pub long_enough : ℤ → Interval → Bool
long_enough min_gap g = leb_ℤ min_gap (g.1 -ℤ g.0)

unfoldable pub dead_air : List Utterance → List Interval → ℤ → ℤ → List Interval → ℤ
dead_air caller_utts agent_iv duration min_gap padding =
    let speech = merge (utts_to_intervals caller_utts ++ agent_iv) in
    let gaps = complement speech duration in
    let heard = if nonempty padding then subtract gaps (merge padding) else gaps in
    if leb_ℤ duration (pos 0) then pos 0 else total (filter (long_enough min_gap) heard)

pub sum_ℤ : List ℤ → ℤ
sum_ℤ [] = pos 0
sum_ℤ (x ∷ xs) = x +ℤ sum_ℤ xs

-- `max(xs, default=d)`, which a caller uses on a list that is not empty or with the default.
pub maximum : ℤ → List ℤ → ℤ
maximum d [] = d
maximum d (x ∷ []) = x
maximum d (x ∷ y ∷ xs) = max_ℤ x (maximum d (y ∷ xs))

pub record TurnStats : Type 0 where
  pub count : ℕ
  pub mean_s : ℤ
  pub max_s : ℤ

unfoldable pub caller_turn_stats : List Utterance → TurnStats
unfolding sum_ℤ maximum
caller_turn_stats utts =
    let durs = map (λ u. u.t_end -ℤ u.t_start) utts in
    record {
      count = length durs;
      mean_s = if nonempty durs then round_quot_ℤ (sum_ℤ durs) (length durs) else pos 0;
      max_s = maximum (pos 0) durs;
    }

-- Nearest-rank, for a whole percentage.
unfoldable pub percentile : List ℤ → ℕ → Option ℤ
unfolding sort_by round_quot
percentile values pct =
    get_elem? (sort_by leb_ℤ values)
      (min (length values - 1) (round_quot (pct * (length values - 1)) 100))
