-- ===== src/RateLimit.antt =====
-- Abuse protection, src/voiceobs/ratelimit.py. The counters are kept by Redis, which is an argument:
-- operations on a state W, where no result is an exception. No client stands for the open
-- development mode and for a deployment without Redis.
pub mod Window
mod Tests
use actioneer_pulse.Common.{
  Bool, true, false, String, Option, none, some, List, if◌then◌else◌, leb, ◌==◌, get_or, ℕ, zero,
  suc, ◌+◌,
}

pub record Redis (W : Type 0) : Type 0 where
  pub incr : String → W → Option (ℕ × W)
  pub expire : String → ℕ → W → Option W
  pub get : String → W → Option (Option ℕ)
  pub delete : String → W → Option W

module _ {W : Type 0} where
  -- What `run` does after `incr` has returned n.
  unfoldable pub after_incr : Redis W → String → ℕ → ℕ → ℕ → W → Bool × W
  after_incr c key limit window n w =
      if n == 1
      then elim (c.expire key window w) [ none ↦ (true, w) | some w1 ↦ (leb n limit, w1) ]
      else (leb n limit, w)

  -- `allow`
  unfoldable pub allow : Option (Redis W) → String → ℕ → ℕ → W → Bool × W
  allow none key limit window w = (true, w)
  allow (some c) key limit window w = elim (c.incr key w) [
    | none ↦ (true, w)
    | some (n, w1) ↦ after_incr c key limit window n w1
  ]

  -- `record_fail`
  unfoldable pub record_fail : Option (Redis W) → String → ℕ → W → W
  record_fail none key window w = w
  record_fail (some c) key window w = elim (c.incr key w) [
    | none ↦ w
    | some (n, w1) ↦ get_or (c.expire key window w1) w1
  ]

  -- `fail_count`
  unfoldable pub fail_count : Option (Redis W) → String → W → ℕ
  fail_count none key w = 0
  fail_count (some c) key w = get_or (get_or (c.get key w) none) 0

  -- `clear`
  unfoldable pub clear : Option (Redis W) → String → W → W
  clear none key w = w
  clear (some c) key w = get_or (c.delete key w) w
