-- ===== src/Backfill/Tests.antt =====
-- The theorems on backfill jobs at concrete inputs.
use actioneer_pulse.Common.{
  Bool, ◌||◌, str_eq, str_le, true, false, String, List, [], ◌∷◌, none, some, ◌≡◌, refl, ℕ, suc,
  ◌==◌, leb, if◌then◌else◌,
}
use actioneer_pulse.Common.Dict.{Dict}
use actioneer_pulse.Common.Sort.{sort_by}
use actioneer_pulse.Backfill.{
  Status, BackfillJob, Outcome, Discovery, Lookup, Services, Run, Ran, run_job, scan_calls,
  registered, discover_calls, start_calls, run_calls, run_call, commit, request, settle, to_judge,
  finished, finish, chosen, counts_ok, judgeable,
}
use actioneer_pulse.Backfill.Accounting.{IsLeft, run_job-IsAccounted}
use actioneer_pulse.Backfill.Claim.{next_queued}
use actioneer_pulse.Backfill.Discover.{Descriptor}
use actioneer_pulse.Backfill.Media.{Media}

abbrev job : String → ℕ → BackfillJob
job id created = record {
  id = id;
  org_id = none;
  agent_id = none;
  source = "otlp";
  stt = false;
  limit = none;
  status = Status.queued;
  phase = none;
  total = 0;
  completed = 0;
  failed = 0;
  error = none;
  created_at = created;
  updated_at = none;
  finished_at = none;
}

-- Services on a count of processed calls: the second call raises, after three somebody cancels, and
-- the commit of the third call does not succeed where `stable` is false.
abbrev services : Bool → Services ℕ
services stable = record {
  storage = λ w. Lookup.present;
  manifest = λ w. Lookup.absent;
  discovered = λ w. Discovery.found ("c" ∷ "a" ∷ "b" ∷ "d" ∷ []);
  cancel_requested = λ w. some (leb 3 w);
  process =
      λ j id w. ((if w == 1 then Outcome.raised "broken" else Outcome.returned "ok" true), suc w);
  recluster = λ w. w;
  now = λ w. w;
  commits = λ j w. stable || leb w 2;
  sends = λ id w. true;
}

abbrev start : Run ℕ
start = record { job = job "j" 5; world = 0; judged = [] }

run_job-IsAccounted_example : IsLeft (run_job (services true) start)
run_job-IsAccounted_example = run_job-IsAccounted (services true) start refl refl refl refl

abbrev returns : Ran ℕ → Bool
returns (Ran.returned r) = true
returns (Ran.escaped r) = false

-- The one job is cancelled, and an exception escapes from the other.
both_ends :
    (returns (run_job (services true) start) ≡ true)
    × (returns (run_job (services false) start) ≡ false)
unfolding run_job scan_calls registered discover_calls start_calls run_calls run_call commit request
    settle to_judge finished finish chosen counts_ok judgeable sort_by str_eq str_le
both_ends = (refl, refl)

abbrev queue : List BackfillJob
queue = job "late" 9 ∷ job "early" 2 ∷ []

early_next : next_queued queue ≡ some (job "early" 2)
unfolding next_queued sort_by
early_next = refl

abbrev descriptor : Descriptor
descriptor = record {
  file_map = ("a.wav", "audio") ∷ ("t.json", "otlp") ∷ [];
  search = λ uri. some "call";
}

abbrev objects : List String
objects = "s3://b/1/a.wav" ∷ "s3://b/1/t.json" ∷ "s3://b/2/t.json" ∷ "s3://b/1/x.txt" ∷ []

abbrev kinds : Dict String
kinds = ("audio", "s3://b/1/a.wav") ∷ ("otlp", "s3://b/2/t.json") ∷ []

abbrev stored : List Media × Bool
stored = (record { call_id = "call"; kind = "audio"; uri = "s3://b/0/a.wav" } ∷ [], false)
