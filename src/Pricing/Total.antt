-- ===== src/Pricing/Total.antt =====
-- The total of a price is made of the sides that are priced.
use actioneer_pulse.Common.{
  Option, none, some, [], ◌∷◌, get_or, is_some, ◌||◌, ◌≡◌, refl, ◌∙◌, ℕ, ◌+◌, arith, Bool,
  filter_map, not, ◌==◌, false,
}
use actioneer_pulse.Common.Dict.{Dict}
use actioneer_pulse.Pricing.{
  ModelPrice, Usage, price_of, price_call, total_cost, llm_cost, stt_cost, tts_cost, sum,
}

total_cost-sides :
    (llm stt tts : Option ℕ)
    → let total = total_cost (filter_map (λ c. c) (llm ∷ stt ∷ tts ∷ [])) in
      (get_or total 0 ≡ get_or llm 0 + get_or stt 0 + get_or tts 0)
      × (is_some total ≡ (is_some llm || (is_some stt || is_some tts)))
unfolding total_cost sum
total_cost-sides none none none = (refl, refl)
total_cost-sides none none (some c) = (omega arith, refl)
total_cost-sides none (some b) none = (omega arith, refl)
total_cost-sides none (some b) (some c) = (omega arith, refl)
total_cost-sides (some a) none none = (omega arith, refl)
total_cost-sides (some a) none (some c) = (omega arith, refl)
total_cost-sides (some a) (some b) none = (omega arith, refl)
total_cost-sides (some a) (some b) (some c) = (omega arith, refl)

abbrev pub has_rate : (ModelPrice → ℕ) → Option ModelPrice → Bool
has_rate rate none = false
has_rate rate (some p) = not (rate p == 0)

llm_priced : (p : Option ModelPrice) (u : Usage) → is_some (llm_cost p u) ≡ is_some p
unfolding llm_cost
llm_priced none u = refl
llm_priced (some p) u = refl

stt_priced :
    (p : Option ModelPrice) (u : Usage) → is_some (stt_cost p u) ≡ has_rate (λ q. q.stt_per_min) p
unfolding stt_cost
stt_priced none u = refl
stt_priced (some p) u = ground arith

tts_priced :
    (p : Option ModelPrice) (u : Usage)
    → is_some (tts_cost p u) ≡ has_rate (λ q. q.tts_per_1m_chars) p
unfolding tts_cost
tts_priced none u = refl
tts_priced (some p) u = ground arith

sides_priced :
    (llm stt tts : Option ModelPrice) (u : Usage)
    → (is_some (llm_cost llm u) ≡ is_some llm)
      × (is_some (stt_cost stt u) ≡ has_rate (λ p. p.stt_per_min) stt)
      × (is_some (tts_cost tts u) ≡ has_rate (λ p. p.tts_per_1m_chars) tts)
sides_priced llm stt tts u = (llm_priced llm u, stt_priced stt u, tts_priced tts u)

-- For any price list and usage: the total is the sum of the sides that are priced, and there is a
-- total exactly when the language model is listed, or the transcriber is listed with a rate per
-- minute, or the voice is listed with a rate per character.
pub price_call-total :
    (pricing : Dict ModelPrice) (u : Usage)
    → let cost = price_call pricing u in
      (get_or cost.total 0 ≡ get_or cost.llm 0 + get_or cost.stt 0 + get_or cost.tts 0)
      × (is_some cost.total ≡ (
          is_some (price_of pricing u.llm_model)
          || (has_rate (λ p. p.stt_per_min) (price_of pricing u.stt_model)
              || has_rate (λ p. p.tts_per_1m_chars) (price_of pricing u.tts_model))))
unfolding price_call
price_call-total pricing u =
    let l = price_of pricing u.llm_model in
    let s = price_of pricing u.stt_model in
    let t = price_of pricing u.tts_model in
    let priced = sides_priced l s t u in
    let total = total_cost-sides (llm_cost l u) (stt_cost s u) (tts_cost t u) in
    (total.0, total.1 ∙ rw (priced.0, priced.1, priced.2) refl)
