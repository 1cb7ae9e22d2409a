-- ===== src/RateLimit/Tests.antt =====
-- A counter in a number.
use actioneer_pulse.Common.{some, ◌≡◌, refl, ℕ, suc, ◌-◌, min}
use actioneer_pulse.RateLimit.{Redis}
use actioneer_pulse.RateLimit.Window.{Adds, Keeps, Reads, allowed, allowed-limit}

abbrev one_key : Redis ℕ
one_key = record {
  incr = λ key w. some (suc w, suc w);
  expire = λ key window w. some w;
  get = λ key w. some (some w);
  delete = λ key w. some 0;
}

abbrev value : ℕ → ℕ
value w = w

one_key-Adds : Adds one_key "login" value
one_key-Adds w = (suc w, refl, refl)

one_key-Keeps : Keeps one_key "login" value
one_key-Keeps window w = (w, refl, refl)

one_key-Reads : Reads one_key "login" value
one_key-Reads w = (some w, refl, refl)

allowed-limit_example : allowed (some one_key) "login" 5 60 8 2 ≡ min 8 (5 - value 2)
allowed-limit_example = allowed-limit one_key "login" value one_key-Adds one_key-Keeps 5 60 8 2
