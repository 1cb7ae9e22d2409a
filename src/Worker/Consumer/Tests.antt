-- ===== src/Worker/Consumer/Tests.antt =====
-- The consumer at concrete inputs.
use actioneer_pulse.Common.{
  Bool, not, String, Option, none, some, [], ◌∷◌, ◌≡◌, refl, length, str_eq, if◌then◌else◌, ◌==◌, ℕ,
  suc,
}
use actioneer_pulse.Model.Value.{Conversions}
use actioneer_pulse.Frameworks.Otlp.{OtlpSpan, Payload}
use actioneer_pulse.Bus.{Record}
use actioneer_pulse.Ingest.{Codec, Call, Tables}
use actioneer_pulse.Worker.Consumer.{
  Loop, Processed, analysed, unsupported, attempt, attempts, consume_one, consume_all,
}
use actioneer_pulse.Worker.Consumer.Settled.{Outcomes, consume_all-Outcomes}

abbrev no_numbers : Conversions
no_numbers = record { float_of_text = λ s. none; int_of_text = λ s. none; repr = λ v. "value" }

abbrev raw : Record
raw = record {
  topic = "raw-spans";
  key = some "t1";
  value = "bytes";
  headers = record {
    org = "acme";
    agent_id = "";
    shard_key = "t1";
    trace_id = "t1";
    batch_id = "b1";
    seq = 0;
    received_at = 0;
    error = none;
  };
}

-- The first attempt fails.
abbrev flaky : ℕ → Record → ℕ → Option (Option String × ℕ)
flaky attempt r world = if attempt == 0 then none else some (some "t1", suc world)

-- The producer refuses the request of the second attempt.
abbrev refusing : ℕ → String → Bool
refusing attempt call_id = not (attempt == 1)

abbrev start : Loop ℕ
start = record { work = record { world = 0; judge_queue = [] }; dead_letters = []; committed = [] }

consume_all-Outcomes_example :
    Outcomes flaky refusing "dlq" 3
      (raw ∷ raw ∷ [])
      start
      (consume_all flaky refusing "dlq" 3 (raw ∷ raw ∷ []) start)
consume_all-Outcomes_example = consume_all-Outcomes flaky refusing "dlq" 3 (raw ∷ raw ∷ []) start

-- The third attempt comes to its end, after one that was committed; two attempts are not enough.
consumed :
    let whole = consume_all flaky refusing "dlq" 3 (raw ∷ []) start in
    let lost = consume_all flaky refusing "dlq" 2 (raw ∷ []) start in
    (whole.work.world ≡ 2)
    × (length whole.work.judge_queue ≡ 1)
    × (length lost.dead_letters ≡ 1)
    × (lost.work.world ≡ 1)
unfolding consume_all consume_one attempts attempt str_eq
consumed = (refl, refl, refl, refl)

abbrev root_span : OtlpSpan
root_span = record {
  span_id = "a";
  trace_id = some "t1";
  parent_span_id = none;
  name = "span";
  start_time = 0;
  end_time = none;
  status_code = "";
  attributes = none;
  events = [];
}

abbrev slice : Payload
slice = record { resource = none; scope_spans = (root_span ∷ []) ∷ [] } ∷ []

abbrev codec : Codec
codec = record { pack = λ p. "bytes"; unpack = λ t. some slice }

abbrev organisation : Tables
organisation = record { calls = []; fragments = []; tombstones = "erased" ∷ [] }

-- An analysis that stamps its call, or finds its schema unsupported.
abbrev stamping : Call → Tables → Processed
stamping row db =
    if str_eq row.status "odd"
    then unsupported (λ found. found)
    else analysed (λ found. record found { metric_version = some 2 })
