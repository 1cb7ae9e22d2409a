-- ===== src/GroundTruth/Bands.antt =====
-- What the reconciliation surfaces: the discrepancies beyond their band, and nothing for a channel
-- that could not be heard.
use actioneer_pulse.Common.{Bool, false, Option, some, ◌≡◌, ltb}
use actioneer_pulse.Common.Int.{pos, ◌-ℤ◌}
use actioneer_pulse.GroundTruth.{Amount, tenths, thousandths, Discrepancy, magnitude, is_material}

-- The delta lies outside the band.
abbrev outside : Option Amount → Option Amount → Bool
outside (some (tenths d)) (some (tenths (pos b))) = ltb b (magnitude d)
outside (some (thousandths w)) (some (thousandths b)) = ltb b w
outside d b = false

abbrev pub beyond : Discrepancy → Bool
beyond d = outside d.delta d.band

-- A delta of times is the measured less the reported one.
abbrev pub IsDelta : Option Amount → Option Amount → Option Amount → Type 0
IsDelta (some (tenths r)) (some (tenths m)) delta = delta ≡ some (tenths (m -ℤ r))
IsDelta r m delta = Unit

abbrev pub IsMeasured : Discrepancy → Type 0
IsMeasured d = IsDelta d.reported d.measured d.delta

abbrev IsJudged : Discrepancy → Type 0
IsJudged d = (is_material d.verdict ≡ beyond d) × IsMeasured d
