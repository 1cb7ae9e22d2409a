-- ===== src/Backfill.antt =====
-- Backfill jobs: src/voiceobs/worker/backfill.py, the table `backfill_job` of
-- src/voiceobs/db/models.py, and `cancel` of src/voiceobs/api/backfill.py. What a job does to the
-- rest of the database is a state W, which the calls' processing and the clustering change.
pub mod Discover
pub mod Media
pub mod Claim
pub mod Accounting
pub mod Judged
mod Tests
use Prim.Native.String.{◌++◌ as append}
use actioneer_pulse.Common.{
  Bool, true, false, not, String, Option, none, some, List, [], ◌∷◌, ◌++◌, ◌&&◌, ◌||◌, length, take,
  or_else, get_or, truthy, truthy?, str_eq, str_le, if◌then◌else◌, ℕ, zero, suc, ◌+◌, ◌-◌,
}
use actioneer_pulse.Common.Int.{ℤ, pos, negsuc}
use actioneer_pulse.Common.Sort.{sort_by}

pub data Status : Type 0 where
  queued scanning running clustering done failed cancelled : Status

-- The keys `stt` and `limit` of `options` are fields. Moments are numbers.
pub record BackfillJob : Type 0 where
  pub id : String
  pub org_id : Option String
  pub agent_id : Option String
  pub source : String
  pub stt : Bool
  pub limit : Option ℤ
  pub status : Status
  pub phase : Option String
  pub total : ℕ
  pub completed : ℕ
  pub failed : ℕ
  pub error : Option String
  pub created_at : ℕ
  pub updated_at : Option ℕ
  pub finished_at : Option ℕ

-- How the processing of one call ends: with its status and whether the call's analysis mode ends in
-- "+stt", or with an exception's text.
pub data Outcome : Type 0 where
  returned : String → Bool → Outcome
  raised : String → Outcome

-- The call ids that a discovery finds, or its exception's text.
pub data Discovery : Type 0 where
  found : List String → Discovery
  broke : String → Discovery

-- What a look-up of a configuration gives: it is there or not, or an exception.
pub data Lookup : Type 0 where
  present absent raises : Lookup

-- What `run_job` calls in other modules, and what it reads. A commit and the producer of judge requests
-- may raise (false), and so may the query for a cancellation (none).
pub record Services (W : Type 0) : Type 0 where
  pub storage : W → Lookup
  pub manifest : W → Lookup
  pub discovered : W → Discovery
  pub cancel_requested : W → Option Bool
  pub process : BackfillJob → String → W → Outcome × W
  pub recluster : W → W
  pub now : W → ℕ
  pub commits : BackfillJob → W → Bool
  pub sends : String → W → Bool

-- A job under way: its row, the rest of the database, and the calls sent to the judge's queue.
pub record Run (W : Type 0) : Type 0 where
  pub job : BackfillJob
  pub world : W
  pub judged : List String

-- How `run_job` or a part of it ends: it returns, or an exception escapes; then the job's row is as it
-- was last committed.
pub data Ran (W : Type 0) : Type 0 where
  returned : Run W → Ran W
  escaped : Run W → Ran W

-- `_finish`
unfoldable pub finish : Status → Option String → ℕ → BackfillJob → BackfillJob
finish status error now job = record job {
  status = status;
  phase = none;
  error = or_else (truthy? error) job.error;
  finished_at = some now;
  updated_at = some now;
}

-- `xs[:n]`
unfoldable pub slice_to {ℓ} : {A : Type ℓ} → ℤ → List A → List A
slice_to (pos n) xs = take n xs
slice_to (negsuc n) xs = take (length xs - suc n) xs

-- The ids to process: a limit that is absent or zero is none.
unfoldable pub chosen : Option ℤ → List String → List String
chosen none ids = sort_by str_le ids
chosen (some (pos zero)) ids = sort_by str_le ids
chosen (some n) ids = slice_to n (sort_by str_le ids)

-- Whether a call that ended so counts as completed, and whether it goes to the judge.
unfoldable pub counts_ok : BackfillJob → String → Bool
counts_ok job status =
    str_eq status "ok" || (str_eq job.source "manifest" && str_eq status "partial")

unfoldable pub judgeable : BackfillJob → String → Bool → Bool
judgeable job status transcribed =
    if str_eq job.source "manifest"
    then str_eq status "ok" || str_eq status "partial"
    else if str_eq job.source "otlp"
    then str_eq status "ok"
    else str_eq status "ok" && transcribed

-- The counters after one call.
unfoldable pub settle : String → Outcome → BackfillJob → BackfillJob
unfolding counts_ok
settle call_id (Outcome.returned status transcribed) job =
    if counts_ok job status
    then record job { completed = job.completed + 1 }
    else record job { failed = job.failed + 1 }
settle call_id (Outcome.raised text) job = record job {
  failed = job.failed + 1;
  error = or_else (truthy? job.error) (some (append call_id (append ": " text)));
}

unfoldable pub to_judge : String → Outcome → BackfillJob → List String
unfolding judgeable
to_judge call_id (Outcome.returned status transcribed) job =
    if judgeable job status transcribed && truthy call_id then call_id ∷ [] else []
to_judge call_id (Outcome.raised text) job = []

module _ {W : Type 0} (s : Services W) where
  -- A commit, and what follows it: an exception undoes what was not committed.
  unfoldable pub commit : Run W → Run W → (Run W → Ran W) → Ran W
  commit r before next = if s.commits r.job r.world then next r else escaped before

  -- The judge request of a call, after its commit.
  unfoldable pub request : List String → Run W → Ran W
  request [] r = returned r
  request (judge ∷ more) r =
      if s.sends judge r.world
      then returned (record r { judged = r.judged ++ judge ∷ [] })
      else escaped r

  -- The body of the loop, for a call that is not cancelled.
  unfoldable pub run_call : String → Run W → Ran W
  unfolding settle to_judge commit request
  run_call call_id r =
      let out = s.process r.job call_id r.world in
      let job = record (settle call_id out.0 r.job) { updated_at = some (s.now out.1) } in
      commit (record { job = job; world = out.1; judged = r.judged }) r
        (request (to_judge call_id out.0 r.job))

  -- `_finish` with its commit.
  unfoldable pub finished : Status → Option String → Run W → Ran W
  unfolding finish commit
  finished status error r =
      commit (record r { job = finish status error (s.now r.world) r.job }) r (λ t. returned t)

  -- The clustering, and the end of the job.
  unfoldable pub cluster : Run W → Ran W
  unfolding finished
  cluster r = finished Status.done none (record r { world = s.recluster r.world })

  -- The end of the job, after its last call.
  unfoldable pub close_job : Run W → Ran W
  unfolding cluster commit
  close_job r =
      let job = record r.job {
        status = Status.clustering;
        phase = some "clustering";
        updated_at = some (s.now r.world);
      } in
      commit (record r { job = job }) r cluster

  -- The loop over the calls, and what follows it.
  unfoldable pub run_calls : List String → Run W → Ran W
  unfolding run_call close_job finished
  run_calls [] r = close_job r
  run_calls (call_id ∷ ids) r = elim (s.cancel_requested r.world) [
    | none ↦ escaped r
    | some true ↦ finished Status.cancelled none r
    | some false ↦ elim (run_call call_id r) [
      | returned t ↦ run_calls ids t
      | escaped t ↦ escaped t
    ]
  ]

  -- The job after the discovery, on its way into the loop.
  unfoldable pub start_calls : List String → Run W → Run W
  start_calls ids r = record r {
    job = record r.job {
      total = length ids;
      status = Status.running;
      phase = some "analyzing";
      updated_at = some (s.now r.world);
    };
  }

  -- From the discovery on.
  unfoldable pub discover_calls : Run W → Ran W
  unfolding chosen run_calls start_calls finished commit
  discover_calls r = elim (s.discovered r.world) [
    | Discovery.broke text ↦ finished Status.failed (some (append "discover failed: " text)) r
    | Discovery.found ids ↦
        let picked = chosen r.job.limit ids in commit (start_calls picked r) r (run_calls picked)
  ]

  -- The manifest of a job that needs one.
  unfoldable pub registered : Run W → Lookup
  registered r = if str_eq r.job.source "manifest" then s.manifest r.world else present

  -- From the scanning on, after its commit.
  unfoldable pub scan_calls : Run W → Ran W
  unfolding discover_calls registered finished
  scan_calls r = elim (registered r) [
    | raises ↦ escaped r
    | absent ↦ finished Status.failed (some "no integration manifest registered") r
    | present ↦ discover_calls r
  ]

  unfoldable pub run_job : Run W → Ran W
  unfolding scan_calls finished commit
  run_job r =
      let scanning = record r.job { status = Status.scanning; updated_at = some (s.now r.world) } in
      elim (s.storage r.world) [
        | raises ↦ escaped r
        | absent ↦ finished Status.failed (some "storage not configured for agent") r
        | present ↦ commit (record r { job = scanning }) r scan_calls
      ]
