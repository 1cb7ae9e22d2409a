-- ===== src/Pricing.antt =====
-- The price of a call: src/voiceobs/core/pricing.py. A rate is in ten-thousandths of a dollar, a
-- cost in millionths, the seconds of audio in ten-thousandths.
pub mod Total
mod Tests
use actioneer_pulse.Common.{
  String, Option, none, some, List, [], ◌∷◌, map, filter_map, get_or, if◌then◌else◌, ◌==◌, ℕ, ◌+◌,
  ◌-◌, ◌*◌,
}
use actioneer_pulse.Common.Int.{round_quot}
use actioneer_pulse.Common.Dict.{Dict, lookup}

pub record ModelPrice : Type 0 where
  pub input_per_1m : ℕ
  pub output_per_1m : ℕ
  pub cached_per_1m : ℕ
  pub tts_per_1m_chars : ℕ
  pub stt_per_min : ℕ

abbrev pub llm_price : ℕ → ℕ → ℕ → ModelPrice
llm_price input output cached = record {
  input_per_1m = input;
  output_per_1m = output;
  cached_per_1m = cached;
  tts_per_1m_chars = 0;
  stt_per_min = 0;
}

abbrev pub stt_price : ℕ → ModelPrice
stt_price rate = record {
  input_per_1m = 0;
  output_per_1m = 0;
  cached_per_1m = 0;
  tts_per_1m_chars = 0;
  stt_per_min = rate;
}

abbrev pub tts_price : ℕ → ModelPrice
tts_price rate = record {
  input_per_1m = 0;
  output_per_1m = 0;
  cached_per_1m = 0;
  tts_per_1m_chars = rate;
  stt_per_min = 0;
}

-- `MODEL_PRICING`
abbrev pub model_pricing : Dict ModelPrice
model_pricing =
    ("gpt-4o", llm_price 25000 100000 12500)
    ∷ ("gpt-4o-mini", llm_price 1500 6000 750)
    ∷ ("gpt-4.1", llm_price 20000 80000 5000)
    ∷ ("gpt-4.1-mini", llm_price 4000 16000 1000)
    ∷ ("gpt-4o-transcribe", stt_price 60)
    ∷ ("gpt-4o-mini-transcribe", stt_price 30)
    ∷ ("whisper-1", stt_price 60)
    ∷ ("gpt-4o-mini-tts", tts_price 120000)
    ∷ ("tts-1", tts_price 150000)
    ∷ ("tts-1-hd", tts_price 300000)
    ∷ ("nova-2", stt_price 43)
    ∷ ("eleven_turbo_v2_5", tts_price 1000000)
    ∷ []

pub record CallCost : Type 0 where
  pub llm : Option ℕ
  pub stt : Option ℕ
  pub tts : Option ℕ
  pub total : Option ℕ

-- The models and the usage of a call.
pub record Usage : Type 0 where
  pub llm_model : Option String
  pub stt_model : Option String
  pub tts_model : Option String
  pub tokens_in : Option ℕ
  pub tokens_out : Option ℕ
  pub tokens_cached : Option ℕ
  pub tts_chars : Option ℕ
  pub stt_seconds : Option ℕ

abbrev pub price_of : Dict ModelPrice → Option String → Option ModelPrice
price_of pricing model = lookup (get_or model "") pricing

-- On ℕ the subtraction is `max(… - …, 0)`.
unfoldable pub llm_cost : Option ModelPrice → Usage → Option ℕ
llm_cost none u = none
llm_cost (some p) u =
    let billable_in = get_or u.tokens_in 0 - get_or u.tokens_cached 0 in
    some (
      round_quot
        (billable_in * p.input_per_1m
          + get_or u.tokens_out 0 * p.output_per_1m
          + get_or u.tokens_cached 0 * p.cached_per_1m)
        10000)

unfoldable pub tts_cost : Option ModelPrice → Usage → Option ℕ
tts_cost none u = none
tts_cost (some p) u =
    if p.tts_per_1m_chars == 0
    then none
    else some (round_quot (get_or u.tts_chars 0 * p.tts_per_1m_chars) 10000)

unfoldable pub stt_cost : Option ModelPrice → Usage → Option ℕ
stt_cost none u = none
stt_cost (some p) u =
    if p.stt_per_min == 0
    then none
    else some (round_quot (get_or u.stt_seconds 0 * p.stt_per_min) 6000)

sum : List ℕ → ℕ
sum [] = 0
sum (x ∷ xs) = x + sum xs

unfoldable pub total_cost : List ℕ → Option ℕ
unfolding sum
total_cost [] = none
total_cost (x ∷ xs) = some (sum (x ∷ xs))

unfoldable pub price_call : Dict ModelPrice → Usage → CallCost
price_call pricing u =
    let llm = llm_cost (price_of pricing u.llm_model) u in
    let stt = stt_cost (price_of pricing u.stt_model) u in
    let tts = tts_cost (price_of pricing u.tts_model) u in
    record {
      llm = llm;
      stt = stt;
      tts = tts;
      total = total_cost (filter_map (λ c. c) (llm ∷ stt ∷ tts ∷ []));
    }
