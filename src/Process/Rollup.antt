-- ===== src/Process/Rollup.antt =====
-- The columns of the call itself: `_rollup`, and what `_persist` stamps.
use actioneer_pulse.Common.{
  Bool, String, Option, none, some, List, [], ◌∷◌, ◌||◌, ◌&&◌, not, any, count, first_some, is_some,
  or_else, get_or, if◌then◌else◌, ℕ,
}
use actioneer_pulse.Common.Int.{ℤ, pos, pos_part, ◌+ℤ◌, eqb_ℤ}
use actioneer_pulse.Common.Dict.{Dict, lookup}
use actioneer_pulse.Model.{Stage, stage_eq, Span, Trace, Turn, Analysis}
use actioneer_pulse.Model.Value.{Conversions, str_of, truthy_value}
use actioneer_pulse.Pricing.{ModelPrice, Usage, CallCost, price_call}

-- The columns of a call that processing reads or writes.
pub record Call : Type 0 where
  pub id : String
  pub external_call_id : String
  pub agent_id : Option String
  pub engine : Option String
  pub stt_provider : Option String
  pub llm_provider : Option String
  pub tts_provider : Option String
  pub tokens_in : Option ℤ
  pub tokens_out : Option ℤ
  pub tokens_cached : Option ℤ
  pub tts_chars : Option ℤ
  pub stt_seconds : Option ℕ
  pub cost : CallCost
  pub cost_currency : Option String
  pub unattributed_spans : Option ℕ
  pub span_dropped_events : Option ℤ
  pub metric_version : Option ℕ
  pub adapter_version : Option ℕ
  pub app_version : Option String
  pub duration_s : Option ℤ
  pub status : String
  pub analysis_mode : String
  pub audio_layout : Option String
  pub diarization_confidence : Option ℤ
  pub analysis_error : Option String
  pub last_activity_at : Option ℕ

module _ ⦃c : Conversions⦄ where
  -- The model that a span of this stage names.
  unfoldable pub model_named : Stage → Span → Option String
  unfolding stage_eq truthy_value
  model_named stage s =
      if stage_eq s.stage stage
      then elim (lookup "gen_ai.request.model" s.attrs) [
        | none ↦ none
        | some v ↦ if truthy_value v then some (str_of v) else none
      ]
      else none

  -- `model(stage)`
  unfoldable pub model : List Span → Stage → Option String
  unfolding model_named
  model spans stage = first_some (model_named stage) spans

abbrev pub has_stage : List Span → Stage → Bool
has_stage spans stage = any (λ s. stage_eq s.stage stage) spans

-- The sum over the turns of a count that may be missing.
unfoldable pub sum_of : (Turn → Option ℤ) → List Turn → ℤ
sum_of field [] = pos 0
sum_of field (t ∷ turns) = get_or (field t) (pos 0) +ℤ sum_of field turns

-- `total(attr)`: zero counts as unknown.
unfoldable pub total : (Turn → Option ℤ) → List Turn → Option ℤ
unfolding sum_of
total field turns = let n = sum_of field turns in if eqb_ℤ n (pos 0) then none else some n

-- Counts are not negative.
abbrev number : Option ℤ → Option ℕ
number none = none
number (some n) = some (pos_part n)

unfoldable pub engine_of : List Span → Option String → Option String
engine_of spans (some engine) = some engine
engine_of spans none =
    if has_stage spans Stage.llm
    then some (if has_stage spans Stage.stt || has_stage spans Stage.tts then "cascade" else "s2s")
    else none

-- `_rollup`
unfoldable pub rollup : ⦃c : Conversions⦄ → Dict ModelPrice → Trace → Analysis → Call → Call
unfolding model engine_of total
rollup pricing trace analysis call =
    let spans = trace.spans in
    let stt : Option String =
      or_else (model spans Stage.stt) (or_else (model spans Stage.turn) call.stt_provider) in
    let llm : Option String = or_else (model spans Stage.llm) call.llm_provider in
    let tts : Option String = or_else (model spans Stage.tts) call.tts_provider in
    let tokens_in = total (λ t. t.tokens_in) analysis.turns in
    let tokens_out = total (λ t. t.tokens_out) analysis.turns in
    let tokens_cached = total (λ t. t.tokens_cached) analysis.turns in
    let tts_chars = total (λ t. t.tts_chars) analysis.turns in
    let usage : Usage = record {
      llm_model = llm;
      stt_model = stt;
      tts_model = tts;
      tokens_in = number tokens_in;
      tokens_out = number tokens_out;
      tokens_cached = number tokens_cached;
      tts_chars = number tts_chars;
      stt_seconds = call.stt_seconds;
    } in
    let cost : CallCost = price_call pricing usage in
    record call {
      stt_provider = stt;
      llm_provider = llm;
      tts_provider = tts;
      engine = engine_of spans call.engine;
      tokens_in = tokens_in;
      tokens_out = tokens_out;
      tokens_cached = tokens_cached;
      tts_chars = tts_chars;
      cost = cost;
      cost_currency = if is_some cost.total then some "USD" else none;
    }

-- `s.turn_id is None and s.parent_span_id is not None and s.stage is not Stage.CALL`
abbrev pub unattributed : Span → Bool
unattributed s =
    not (is_some s.turn_id) && is_some s.parent_span_id && not (stage_eq s.stage Stage.call)

abbrev pub this_version : String
this_version = "0.0.1"

-- The assignments of `_persist` after the roll-up.
unfoldable pub stamp : Trace → Analysis → ℕ → Call → Call
unfolding stage_eq
stamp trace analysis adapter_version call = record call {
  unattributed_spans = some (count unattributed trace.spans);
  span_dropped_events = some analysis.trust.span_dropped_events;
  metric_version = some analysis.metric_version;
  adapter_version = some adapter_version;
  app_version = some this_version;
}
