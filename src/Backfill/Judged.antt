-- ===== src/Backfill/Judged.antt =====
-- What a job sends to the judge.
use Prim.Native.String.{◌++◌ as append}
use actioneer_pulse.Common.{
  Bool, true, false, String, Option, none, some, List, [], ◌∷◌, ◌++◌, length, length-append,
  if◌then◌else◌, ◌+◌, ◌≤◌, arith, Option-cases, inl, inr,
}
use actioneer_pulse.Backfill.{
  Status, BackfillJob, Outcome, Services, Run, Ran, finish, chosen, counts_ok, judgeable, settle,
  to_judge, request, run_call, finished, cluster, close_job, run_calls, start_calls, discover_calls,
  registered, scan_calls, run_job,
}
use actioneer_pulse.Backfill.Accounting.{Discovery-cases, Lookup-cases, commit-either}

settle-completed :
    (call_id : String) (o : Outcome) (job : BackfillJob)
    → job.completed + length (to_judge call_id o job) ≤ (settle call_id o job).completed
unfolding settle to_judge judgeable counts_ok
settle-completed call_id (Outcome.returned status transcribed) job = ground arith
settle-completed call_id (Outcome.raised text) job = omega arith

-- No more calls were sent to the judge than are counted as completed.
abbrev IsJudged : {W : Type 0} → Ran W → Type 0
IsJudged (Ran.returned r) = length r.judged ≤ r.job.completed
IsJudged (Ran.escaped r) = length r.judged ≤ r.job.completed

module _ {W : Type 0} (s : Services W) where
  request-IsJudged :
      (ids : List String) (r : Run W)
      → length r.judged + length ids ≤ r.job.completed
      → IsJudged (request s ids r)
  unfolding request
  request-IsJudged [] r h = omega (arith, h)
  request-IsJudged (judge ∷ more) r h = pick (s.sends judge r.world)
    where
      pick :
          (b : Bool)
          → IsJudged (
              if b
              then Ran.returned (record r { judged = r.judged ++ judge ∷ [] })
              else Ran.escaped r)
      pick true = omega (arith, h, length-append r.judged (judge ∷ []))
      pick false = omega (arith, h)

  run_call-IsJudged :
      (call_id : String) (r : Run W)
      → length r.judged ≤ r.job.completed
      → IsJudged (run_call s call_id r)
  unfolding run_call
  run_call-IsJudged call_id r h =
      let o = (s.process r.job call_id r.world).0 in
      let ids = to_judge call_id o r.job in
      commit-either s IsJudged _ r (request s ids)
        (request-IsJudged ids _ (omega (arith, h, settle-completed call_id o r.job))) h

  finished-IsJudged :
      (status : Status) (error : Option String) (r : Run W)
      → length r.judged ≤ r.job.completed
      → IsJudged (finished s status error r)
  unfolding finished finish
  finished-IsJudged status error r h = commit-either s IsJudged _ r (λ t. Ran.returned t) h h

  after_call :
      (next : Run W → Ran W) (x : Ran W)
      → ((t : Run W) → length t.judged ≤ t.job.completed → IsJudged (next t))
      → IsJudged x
      → IsJudged (elim x [ Ran.returned t ↦ next t | Ran.escaped t ↦ Ran.escaped t ])
  after_call next (Ran.returned t) rest h = rest t h
  after_call next (Ran.escaped t) rest h = h

  run_calls-IsJudged :
      (ids : List String) (r : Run W)
      → length r.judged ≤ r.job.completed
      → IsJudged (run_calls s ids r)
  unfolding run_calls close_job cluster
  run_calls-IsJudged [] r h =
      commit-either s IsJudged _ r (cluster s) (finished-IsJudged Status.done none _ h) h
  run_calls-IsJudged (call_id ∷ ids) r h = elim (Option-cases (s.cancel_requested r.world)) [
    | inl e ↦ rw (run_calls, e) h
    | inr (true, e) ↦ rw (run_calls, e) (finished-IsJudged Status.cancelled none r h)
    | inr (false, e) ↦
        rw (run_calls, e)
          (after_call (run_calls s ids) (run_call s call_id r) (run_calls-IsJudged ids)
            (run_call-IsJudged call_id r h))
  ]

  discover_calls-IsJudged :
      (r : Run W) → length r.judged ≤ r.job.completed → IsJudged (discover_calls s r)
  unfolding discover_calls start_calls
  discover_calls-IsJudged r h = elim (Discovery-cases (s.discovered r.world)) [
    | inl (text, e) ↦
        rw (discover_calls, e)
          (finished-IsJudged Status.failed (some (append "discover failed: " text)) r h)
    | inr (ids, e) ↦
        let picked = chosen r.job.limit ids in
        rw (discover_calls, e)
          (commit-either s IsJudged _ r (run_calls s picked) (run_calls-IsJudged picked _ h) h)
  ]

  scan_calls-IsJudged : (r : Run W) → length r.judged ≤ r.job.completed → IsJudged (scan_calls s r)
  unfolding scan_calls
  scan_calls-IsJudged r h = elim (Lookup-cases (registered s r)) [
    | inl e ↦ rw (scan_calls, e) (discover_calls-IsJudged r h)
    | inr (inl e) ↦
        rw (scan_calls, e)
          (finished-IsJudged Status.failed (some "no integration manifest registered") r h)
    | inr (inr e) ↦ rw (scan_calls, e) h
  ]

  -- A job that starts with no more calls sent to the judge than are completed sends at most as many as
  -- it counts as completed, however it ends.
  pub run_job-IsJudged : (r : Run W) → length r.judged ≤ r.job.completed → IsJudged (run_job s r)
  unfolding run_job
  run_job-IsJudged r h = elim (Lookup-cases (s.storage r.world)) [
    | inl e ↦
        rw (run_job, e) (commit-either s IsJudged _ r (scan_calls s) (scan_calls-IsJudged _ h) h)
    | inr (inl e) ↦
        rw (run_job, e)
          (finished-IsJudged Status.failed (some "storage not configured for agent") r h)
    | inr (inr e) ↦ rw (run_job, e) h
  ]
