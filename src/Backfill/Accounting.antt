-- ===== src/Backfill/Accounting.antt =====
-- A job ends, and its counters account for its calls.
use actioneer_pulse.Common.{
  Bool, true, false, String, none, some, List, [], ◌∷◌, length, is_some, if◌then◌else◌, ◌≡◌, refl,
  sym, subst, ◌∙◌, suc, ◌++◌, ℕ, ◌+◌, ◌≤◌, ◌<◌, arith, Option-cases, Option, inl, inr, ◌⊎◌,
}
use actioneer_pulse.Backfill.{
  Status, BackfillJob, Outcome, Discovery, Services, Run, finish, chosen, counts_ok, settle,
  to_judge, Ran, commit, request, run_call, cluster, close_job, finished, run_calls, start_calls,
  discover_calls, registered, scan_calls, run_job, Lookup,
}

abbrev pub is_terminal : Status → Bool
is_terminal Status.done = true
is_terminal Status.failed = true
is_terminal Status.cancelled = true
is_terminal s = false

abbrev pub is_done : Status → Bool
is_done Status.done = true
is_done s = false

abbrev pub is_cancelled : Status → Bool
is_cancelled Status.cancelled = true
is_cancelled s = false

abbrev handled : BackfillJob → ℕ
handled job = job.completed + job.failed

-- The job has ended, and its counters fit the way it ended.
abbrev pub IsAccounted : BackfillJob → Type 0
IsAccounted job =
    (is_terminal job.status ≡ true)
    × (is_some job.finished_at ≡ true)
    × (is_some job.phase ≡ false)
    × (job.completed + job.failed ≤ job.total)
    × (is_done job.status ≡ true → job.completed + job.failed ≡ job.total)
    × (is_cancelled job.status ≡ true → job.completed + job.failed < job.total)

pub Discovery-cases :
    (d : Discovery)
    → ((text : String) × (d ≡ Discovery.broke text))
      ⊎ ((ids : List String) × (d ≡ Discovery.found ids))
Discovery-cases (Discovery.broke text) = inl (text, refl)
Discovery-cases (Discovery.found ids) = inr (ids, refl)

pub Lookup-cases : (l : Lookup) → (l ≡ Lookup.present) ⊎ ((l ≡ Lookup.absent) ⊎ (l ≡ Lookup.raises))
Lookup-cases Lookup.present = inl refl
Lookup-cases Lookup.absent = inr (inl refl)
Lookup-cases Lookup.raises = inr (inr refl)

-- How a job is left: ended and accounted, or, where an exception escapes, under way.
abbrev IsUnderWay : BackfillJob → Type 0
IsUnderWay job = (is_terminal job.status ≡ false) × (job.completed + job.failed ≤ job.total)

abbrev pub IsLeft : {W : Type 0} → Ran W → Type 0
IsLeft (Ran.returned r) = IsAccounted r.job
IsLeft (Ran.escaped r) = IsUnderWay r.job

settle-handled :
    (call_id : String) (o : Outcome) (job : BackfillJob)
    → (handled (settle call_id o job) ≡ handled job + 1)
      × ((settle call_id o job).total ≡ job.total)
unfolding settle
settle-handled call_id (Outcome.returned status transcribed) job = ground arith
settle-handled call_id (Outcome.raised text) job = (omega arith, refl)

settle-status :
    (call_id : String) (o : Outcome) (job : BackfillJob)
    → is_terminal (settle call_id o job).status ≡ is_terminal job.status
unfolding settle counts_ok
settle-status call_id (Outcome.returned status transcribed) job = ground arith
settle-status call_id (Outcome.raised text) job = refl

-- The sum of the counters, the total and the state after one call.
abbrev IsNext : BackfillJob → BackfillJob → Type 0
IsNext job next =
    (handled next ≡ handled job + 1)
    × (next.total ≡ job.total)
    × (is_terminal next.status ≡ is_terminal job.status)

module _ {W : Type 0} (s : Services W) where
  -- What holds after the commit and where it raises holds of both.
  pub commit-either :
      (P : Ran W → Type 0) (r before : Run W) (next : Run W → Ran W)
      → P (next r)
      → P (Ran.escaped before)
      → P (commit s r before next)
  unfolding commit
  commit-either P r before next done gone = pick (s.commits r.job r.world)
    where
      pick : (b : Bool) → P (if b then next r else Ran.escaped before)
      pick true = done
      pick false = gone

  -- One call is counted, or the exception of its commit leaves the row as it was.
  IsStep : Run W → Ran W → Type 0
  IsStep r (Ran.returned t) = IsNext r.job t.job
  IsStep r (Ran.escaped t) = (t.job ≡ r.job) ⊎ IsNext r.job t.job

  request-IsStep :
      (ids : List String) (r t : Run W) → IsNext r.job t.job → IsStep r (request s ids t)
  unfolding request IsStep
  request-IsStep [] r t h = h
  request-IsStep (judge ∷ more) r t h = pick (s.sends judge t.world)
    where
      pick :
          (b : Bool)
          → IsStep r (
              if b
              then Ran.returned (record t { judged = t.judged ++ judge ∷ [] })
              else Ran.escaped t)
      pick true = h
      pick false = inr h

  run_call-IsStep : (call_id : String) (r : Run W) → IsStep r (run_call s call_id r)
  unfolding run_call IsStep
  run_call-IsStep call_id r =
      let out = s.process r.job call_id r.world in
      let count = settle-handled call_id out.0 r.job in
      commit-either (IsStep r) _ r (request s (to_judge call_id out.0 r.job))
        (request-IsStep (to_judge call_id out.0 r.job) r _
          (count.0, count.1, settle-status call_id out.0 r.job))
        (inl refl)

  finished-IsLeft :
      (status : Status) (error : Option String) (r : Run W)
      → IsUnderWay r.job
      → IsAccounted (finish status error (s.now r.world) r.job)
      → IsLeft (finished s status error r)
  unfolding finished
  finished-IsLeft status error r h end = commit-either IsLeft _ r (λ t. Ran.returned t) end h

  cluster-IsLeft :
      (r : Run W)
      → handled r.job ≡ r.job.total
      → is_terminal r.job.status ≡ false
      → IsLeft (cluster s r)
  unfolding cluster finish
  cluster-IsLeft r h go =
      finished-IsLeft Status.done none _ (go, omega (arith, h))
        (refl, refl, refl, omega (arith, h), λ e. h, λ e. ground (arith, e))

  -- The loop after one call.
  after_call :
      (ids : List String) (r : Run W) (x : Ran W)
      → ((t : Run W)
          → handled t.job + length ids ≡ t.job.total
          → is_terminal t.job.status ≡ false
          → IsLeft (run_calls s ids t))
      → handled r.job + suc (length ids) ≡ r.job.total
      → is_terminal r.job.status ≡ false
      → IsStep r x
      → IsLeft (elim x [ Ran.returned t ↦ run_calls s ids t | Ran.escaped t ↦ Ran.escaped t ])
  unfolding IsStep
  after_call ids r (Ran.returned t) rest h go step =
      rest t (omega (arith, h, step.0, step.1)) (step.2 ∙ go)
  after_call ids r (Ran.escaped t) rest h go (inl same) =
      subst IsUnderWay (sym same) (go, omega (arith, h))
  after_call ids r (Ran.escaped t) rest h go (inr next) =
      (next.2 ∙ go, omega (arith, h, next.0, next.1))

  run_calls-IsLeft :
      (ids : List String) (r : Run W)
      → handled r.job + length ids ≡ r.job.total
      → is_terminal r.job.status ≡ false
      → IsLeft (run_calls s ids r)
  unfolding run_calls close_job finish
  run_calls-IsLeft [] r h go =
      commit-either IsLeft _ r (cluster s) (cluster-IsLeft _ (omega (arith, h)) refl)
        (go, omega (arith, h))
  run_calls-IsLeft (call_id ∷ ids) r h go = elim (Option-cases (s.cancel_requested r.world)) [
    | inl e ↦ rw (run_calls, e) (go, omega (arith, h))
    | inr (true, e) ↦
        rw (run_calls, e)
          (finished-IsLeft Status.cancelled none r (go, omega (arith, h))
            (refl, refl, refl, omega (arith, h), λ d. ground (arith, d), λ _. omega (arith, h)))
    | inr (false, e) ↦
        rw (run_calls, e)
          (after_call ids r (run_call s call_id r) (run_calls-IsLeft ids) h go
            (run_call-IsStep call_id r))
  ]

  -- A job whose counters stand at zero, before its calls.
  Fresh : BackfillJob → Type 0
  Fresh job =
      (is_terminal job.status ≡ false) × (job.total ≡ 0) × (job.completed ≡ 0) × (job.failed ≡ 0)

  failed-IsLeft :
      (text : String) (r : Run W) → Fresh r.job → IsLeft (finished s Status.failed (some text) r)
  unfolding finish Fresh
  failed-IsLeft text r (go, t, c, f) =
      finished-IsLeft Status.failed (some text) r (go, omega (arith, t, c, f))
        (refl, refl, refl, omega (arith, t, c, f), λ d. ground (arith, d), λ d. ground (arith, d))

  discover_calls-IsLeft : (r : Run W) → Fresh r.job → IsLeft (discover_calls s r)
  unfolding discover_calls start_calls Fresh
  discover_calls-IsLeft r h = elim (Discovery-cases (s.discovered r.world)) [
    | inl (text, e) ↦ rw (discover_calls, e) (failed-IsLeft _ r h)
    | inr (ids, e) ↦
        let picked = chosen r.job.limit ids in
        rw (discover_calls, e)
          (commit-either IsLeft _ r (run_calls s picked)
            (run_calls-IsLeft picked _ (omega (arith, h.1, h.2, h.3)) refl)
            (h.0, omega (arith, h.1, h.2, h.3)))
  ]

  scan_calls-IsLeft : (r : Run W) → Fresh r.job → IsLeft (scan_calls s r)
  unfolding scan_calls Fresh
  scan_calls-IsLeft r h = elim (Lookup-cases (registered s r)) [
    | inl e ↦ rw (scan_calls, e) (discover_calls-IsLeft r h)
    | inr (inl e) ↦ rw (scan_calls, e) (failed-IsLeft _ r h)
    | inr (inr e) ↦ rw (scan_calls, e) (h.0, omega (arith, h.1, h.2, h.3))
  ]

  -- However the services behave, a job that is under way with its three counters at zero comes to an
  -- end of `run_job`. Either this returns: then the job is done, failed or cancelled, with a finishing
  -- time and no phase, it counts no more calls than its total, one that is done counts every call
  -- once, as completed or as failed, and one that is cancelled leaves at least one call out. Or an
  -- exception escapes: then the job as last committed is still under way, and it also counts no more
  -- calls than its total.
  pub run_job-IsAccounted :
      (r : Run W)
      → is_terminal r.job.status ≡ false
      → r.job.total ≡ 0
      → r.job.completed ≡ 0
      → r.job.failed ≡ 0
      → IsLeft (run_job s r)
  unfolding run_job Fresh
  run_job-IsAccounted r go total completed failed =
      let h : Fresh r.job = (go, total, completed, failed) in
      elim (Lookup-cases (s.storage r.world)) [
        | inl e ↦
            rw (run_job, e)
              (commit-either IsLeft _ r (scan_calls s)
                (scan_calls-IsLeft _ (refl, total, completed, failed))
                (go, omega (arith, total, completed, failed)))
        | inr (inl e) ↦ rw (run_job, e) (failed-IsLeft _ r h)
        | inr (inr e) ↦ rw (run_job, e) (go, omega (arith, total, completed, failed))
      ]
