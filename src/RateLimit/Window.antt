-- ===== src/RateLimit/Window.antt =====
-- How many requests of a window pass, and what the lockout counts.

use actioneer_pulse.Common.{
  String, Option, some, if◌then◌else◌, leb, ◌≡◌, get_or, ℕ, zero, suc, ◌+◌, ◌-◌, min, arith,
}
use actioneer_pulse.RateLimit.{Redis, after_incr, allow, record_fail, fail_count}

-- How many of n requests in a row are allowed.
unfoldable pub allowed : {W : Type 0} → Option (Redis W) → String → ℕ → ℕ → ℕ → W → ℕ
allowed c key limit window zero w = 0
allowed c key limit window (suc n) w =
    let r = allow c key limit window w in
    let rest = allowed c key limit window n r.1 in (if r.0 then suc rest else rest)

-- The failures recorded n times in a row.
unfoldable pub failed_times : {W : Type 0} → Option (Redis W) → String → ℕ → ℕ → W → W
failed_times c key window zero w = w
failed_times c key window (suc n) w = failed_times c key window n (record_fail c key window w)

-- What Redis documents of the two commands, on the value that w holds under the key: INCR adds one
-- and returns the sum, EXPIRE keeps the value while the window is open.
abbrev pub Adds : {W : Type 0} → Redis W → String → (W → ℕ) → Type 0
Adds {W} c key value =
    (w : W) → (u : W) × (c.incr key w ≡ some (suc (value w), u)) × (value u ≡ suc (value w))

abbrev pub Keeps : {W : Type 0} → Redis W → String → (W → ℕ) → Type 0
Keeps {W} c key value =
    (window : ℕ) (w : W) → (u : W) × (c.expire key window w ≡ some u) × (value u ≡ value w)

module _ {W : Type 0} (c : Redis W) (key : String) (value : W → ℕ) where
  after_incr-value :
      Keeps c key value
      → (limit window n : ℕ) (w : W)
      → ((after_incr c key limit window n w).0 ≡ leb n limit)
        × (value (after_incr c key limit window n w).1 ≡ value w)
  unfolding after_incr
  after_incr-value keeps limit window n w = let (u, e, v) = keeps window w in ground (arith, e, v)

  allow-value :
      Adds c key value
      → Keeps c key value
      → (limit window : ℕ) (w : W)
      → ((allow (some c) key limit window w).0 ≡ leb (suc (value w)) limit)
        × (value (allow (some c) key limit window w).1 ≡ suc (value w))
  unfolding allow
  allow-value adds keeps limit window w =
      let (u, e, v) = adds w in
      let after = after_incr-value keeps limit window (suc (value w)) u in
      ground (arith, e, v, after)

  -- Within one window, where INCR adds one and EXPIRE keeps the counter: of n requests in a row
  -- exactly as many are allowed as the limit has left, and all of them if it has enough left.
  pub allowed-limit :
      Adds c key value
      → Keeps c key value
      → (limit window n : ℕ) (w : W)
      → allowed (some c) key limit window n w ≡ min n (limit - value w)
  unfolding allowed
  allowed-limit adds keeps limit window zero w = ground arith
  allowed-limit adds keeps limit window (suc n) w =
      let r = allow (some c) key limit window w in
      ground
        (arith, allow-value adds keeps limit window w, allowed-limit adds keeps limit window n r.1)

-- GET returns the value, where a missing key stands for 0.
abbrev pub Reads : {W : Type 0} → Redis W → String → (W → ℕ) → Type 0
Reads {W} c key value = (w : W) → (o : Option ℕ) × (c.get key w ≡ some o) × (get_or o 0 ≡ value w)

module _ {W : Type 0} (c : Redis W) (key : String) (value : W → ℕ) where
  record_fail-value :
      Adds c key value
      → Keeps c key value
      → (window : ℕ) (w : W) → value (record_fail (some c) key window w) ≡ suc (value w)
  unfolding record_fail
  record_fail-value adds keeps window w =
      let (u, e, v) = adds w in let (t, f, x) = keeps window u in ground (arith, e, v, f, x)

  failed_times-value :
      Adds c key value
      → Keeps c key value
      → (window n : ℕ) (w : W) → value (failed_times (some c) key window n w) ≡ value w + n
  unfolding failed_times
  failed_times-value adds keeps window zero w = omega arith
  failed_times-value adds keeps window (suc n) w = omega (
    arith,
    record_fail-value adds keeps window w,
    failed_times-value adds keeps window n (record_fail (some c) key window w),
  )

  -- Within one window, where GET reads what INCR has counted: after n recorded failures the lockout
  -- sees n more than before.
  pub fail_count-failed_times :
      Adds c key value
      → Keeps c key value
      → Reads c key value
      → (window n : ℕ) (w : W)
      → fail_count (some c) key (failed_times (some c) key window n w)
        ≡ fail_count (some c) key w + n
  unfolding fail_count
  fail_count-failed_times adds keeps reads window n w =
      let after = failed_times (some c) key window n w in
      let (o, e, v) = reads after in
      let (p, f, x) = reads w in
      ground (arith, e, v, f, x, failed_times-value adds keeps window n w)
