-- ===== src/Audio/Vad/Runs.antt =====
-- The regions that the VAD loop finds.
use actioneer_pulse.Common.{
  Bool, true, false, Option, none, some, List, [], ◌∷◌, any, length, get_elem?, ◌&&◌, ltb, leb, ℕ,
  zero, suc, ◌+◌, ◌-◌, ◌≤◌, ◌<◌, ◌≡◌, arith,
}
use actioneer_pulse.Audio.Vad.{Region, regions_from, regions}

-- The regions start at lo or later, are not empty and end by n, and behind each one more than
-- `hangover` frames stay free.
abbrev pub Apart : ℕ → ℕ → ℕ → List Region → Type 0
Apart hangover lo n [] = Unit
Apart hangover lo n ((s, e) ∷ rest) =
    (lo ≤ s) × (s < e) × (e ≤ n) × Apart hangover (e + hangover + 1) n rest

abbrev pub in_region : ℕ → List Region → Bool
in_region k regs = any (λ r. leb r.0 k && ltb k r.1) regs

-- What the loop keeps of its open region: it has started, and its silent tail is not too long.
abbrev Open : ℕ → ℕ → ℕ → Option ℕ → ℕ → Type 0
Open hangover lo i none gap = lo ≤ i
Open hangover lo i (some s) gap = (lo ≤ s) × (s + gap < i) × (gap ≤ hangover)

regions_from-Apart :
    (hangover lo n i : ℕ) (start : Option ℕ) (gap : ℕ) (speech : List Bool)
    → Open hangover lo i start gap
    → i + length speech ≡ n
    → Apart hangover lo n (regions_from hangover i start gap speech)
unfolding regions_from
regions_from-Apart h lo n i none gap [] o e = tt
regions_from-Apart h lo n i (some s) gap [] o e = ground arith
regions_from-Apart h lo n i none gap (true ∷ speech) o e =
    regions_from-Apart h lo n (i + 1) (some i) 0 speech (omega arith) (omega arith)
regions_from-Apart h lo n i none gap (false ∷ speech) o e =
    regions_from-Apart h lo n (i + 1) none gap speech (omega arith) (omega arith)
regions_from-Apart h lo n i (some s) gap (true ∷ speech) o e =
    regions_from-Apart h lo n (i + 1) (some s) 0 speech (omega arith) (omega arith)
regions_from-Apart h lo n i (some s) gap (false ∷ speech) o e = ground (
  arith,
  regions_from-Apart h lo n (i + 1) (some s) (gap + 1) speech,
  regions_from-Apart h (i - (gap + 1) + 1 + h + 1) n (i + 1) none 0 speech,
)

-- The frames of the open region are in a region in the end.
open_in_region :
    (hangover k i s gap : ℕ) (speech : List Bool)
    → s ≤ k
    → k + gap < i
    → in_region k (regions_from hangover i (some s) gap speech) ≡ true
unfolding regions_from
open_in_region h k i s gap [] a b = ground arith
open_in_region h k i s gap (true ∷ speech) a b =
    open_in_region h k (i + 1) s 0 speech a (omega arith)
open_in_region h k i s gap (false ∷ speech) a b =
    ground (arith, open_in_region h k (i + 1) s (gap + 1) speech)

in_region-regions_from :
    (hangover k i : ℕ) (start : Option ℕ) (gap : ℕ) (speech : List Bool) (j : ℕ)
    → get_elem? speech j ≡ some true
    → k ≡ i + j
    → Open hangover 0 i start gap
    → in_region k (regions_from hangover i start gap speech) ≡ true
unfolding regions_from
in_region-regions_from h k i start gap [] j e q o = ground arith
in_region-regions_from h k i none gap (true ∷ speech) zero e q o =
    open_in_region h k (i + 1) i 0 speech (omega arith) (omega arith)
in_region-regions_from h k i (some s) gap (true ∷ speech) zero e q o =
    open_in_region h k (i + 1) s 0 speech (omega arith) (omega arith)
in_region-regions_from h k i none gap (false ∷ speech) zero e q o = cc
in_region-regions_from h k i (some s) gap (false ∷ speech) zero e q o = cc
in_region-regions_from h k i none gap (true ∷ speech) (suc j) e q o =
    in_region-regions_from h k (i + 1) (some i) 0 speech j e (omega arith) (omega arith)
in_region-regions_from h k i none gap (false ∷ speech) (suc j) e q o =
    in_region-regions_from h k (i + 1) none gap speech j e (omega arith) (omega arith)
in_region-regions_from h k i (some s) gap (true ∷ speech) (suc j) e q o =
    in_region-regions_from h k (i + 1) (some s) 0 speech j e (omega arith) (omega arith)
in_region-regions_from h k i (some s) gap (false ∷ speech) (suc j) e q o = ground (
  arith,
  in_region-regions_from h k (i + 1) (some s) (gap + 1) speech j e,
  in_region-regions_from h k (i + 1) none 0 speech j e,
)

-- For any speech flags and hangover, the regions come in order, none is empty, none reaches past the
-- last frame, and between two of them lie more than `hangover` frames.
pub regions-Apart :
    (hangover : ℕ) (speech : List Bool) → Apart hangover 0 (length speech) (regions hangover speech)
unfolding regions
regions-Apart h speech =
    regions_from-Apart h 0 (length speech) 0 none 0 speech (omega arith) (omega arith)

-- Every frame that is flagged as speech lies in a region.
pub in_region-regions :
    (hangover : ℕ) (speech : List Bool) (k : ℕ)
    → get_elem? speech k ≡ some true
    → in_region k (regions hangover speech) ≡ true
unfolding regions
in_region-regions h speech k e =
    in_region-regions_from h k 0 none 0 speech k e (omega arith) (omega arith)
