-- ===== src/Worker/Judge.antt =====
-- src/voiceobs/worker/judge.py, and `decode_judge` of src/voiceobs/judge/queue.py, over the in-memory
-- bus. `json.loads` of a request and `judge_call` are arguments; no result of either is an exception.
pub mod Priority
use actioneer_pulse.Common.{
  Bool, true, String, Option, none, some, List, [], ◌∷◌, ◌++◌, str_eq, find, or_else, get_or,
  truthy?, ℕ, zero, suc,
}
use actioneer_pulse.Bus.{Record, Topics, poll}
use actioneer_pulse.Worker.Consumer.{dead}

-- The two polls of the loop: the backfill topic is asked when the realtime topic has no record.
unfoldable pub next_record : String → String → Topics → Option Record × Topics
unfolding poll
next_record realtime backfill bus =
    let (polled, rest) = poll (realtime ∷ []) bus in
    elim polled [ none ↦ poll (backfill ∷ []) rest | some r ↦ (some r, rest) ]

-- What so many rounds of the loop poll, when nothing is sent in the meantime.
unfoldable pub rounds : String → String → ℕ → Topics → List (Option Record)
unfolding next_record
rounds realtime backfill zero bus = []
rounds realtime backfill (suc n) bus =
    let (r, rest) = next_record realtime backfill bus in r ∷ rounds realtime backfill n rest

module _ {W C : Type 0} (loads : String → Option (Option String × Option String))
    (calls : String → W → List (String × C)) (judge_call : String → C → W → Option W) where
  -- `decode_judge`; a request without a call id is a KeyError.
  unfoldable pub decode_judge : Record → Option (String × String)
  decode_judge r = elim (loads r.value) [
    | none ↦ none
    | some (org, none) ↦ none
    | some (org, some call_id) ↦
        some (get_or (or_else (truthy? org) (truthy? (some r.headers.org))) "default", call_id)
  ]

  -- `handle_judge`; a call that is not there is skipped.
  unfoldable pub handle_judge : Record → W → Option W
  unfolding decode_judge
  handle_judge r world = elim (decode_judge r) [
    | none ↦ none
    | some (org, call_id) ↦ elim (find (λ row. str_eq row.0 call_id) (calls org world)) [
      | none ↦ some world
      | some (id, call) ↦ judge_call org call world
    ]
  ]

  -- The loop of `_consume_one`: an attempt that raises leaves the database as it was.
  unfoldable pub judged : ℕ → Record → W → Option W
  unfolding handle_judge
  judged zero r world = none
  judged (suc n) r world = elim (handle_judge r world) [
    | some done ↦ some done
    | none ↦ judged n r world
  ]

  -- `_consume_one`, with the dead letters.
  unfoldable pub consume_judge : String → ℕ → Record → W × List Record → W × List Record
  unfolding judged
  consume_judge dlq max_retries r (world, letters) = elim (judged max_retries r world) [
    | some done ↦ (done, letters)
    | none ↦ (world, letters ++ dead dlq r ∷ [])
  ]
