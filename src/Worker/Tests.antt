-- ===== src/Worker/Tests.antt =====
-- The workers' theorems at concrete inputs.
use actioneer_pulse.Common.{
  true, false, any, ◌≤◌, String, Option, none, some, List, [], ◌∷◌, ◌≡◌, refl, ℕ, suc, length,
  str_eq, if◌then◌else◌,
}
use actioneer_pulse.Backfill.Discover.{Descriptor}
use actioneer_pulse.Worker.Poller.{FoundCall, StoredObject, poll_agent, discover_windowed}
use actioneer_pulse.Worker.Poller.Watermark.{mark_le, mark_of, poll_agent-mark}
use actioneer_pulse.Worker.Poller.Settled.{ripe, poll_agent-settled}
use actioneer_pulse.Worker.Reconcile.{Tables, Listed, reconcile_agent}
use actioneer_pulse.Worker.Reconcile.Again.{young, reconcile_agent-again}

abbrev process : FoundCall → ℕ → Option (String × ℕ)
process c w = some ("ok", suc w)

abbrev broken : FoundCall → ℕ → Option (String × ℕ)
broken c w = if str_eq c.call_id "b" then none else some ("ok", suc w)

abbrev waiting : List FoundCall
waiting =
    record { call_id = "a"; items = []; max_mtime = 9 }
    ∷ record { call_id = "b"; items = []; max_mtime = 7 }
    ∷ []

poll_agent-mark_example :
    let s = poll_agent broken waiting 0 (some 5) in
    (mark_le (some 5) s.high ≡ true)
    × (mark_of s.high (some 5) waiting ≡ true)
    × (length s.judged ≡ s.ingested)
poll_agent-mark_example = poll_agent-mark broken waiting 0 (some 5)

abbrev first_match : String → Option (ℕ × Option String)
first_match uri = some (0, some uri)

abbrev objects : List StoredObject
objects =
    record { uri = "a"; modified = 3 }
    ∷ record { uri = "b"; modified = 8 }
    ∷ record { uri = "a"; modified = 6 }
    ∷ []

poll_agent-settled_example :
    let s = poll_agent process (discover_windowed first_match objects (some 2) 7) 0 (some 2) in
    any (ripe 7) (discover_windowed first_match objects s.high 9) ≡ false
poll_agent-settled_example =
    poll_agent-settled process first_match objects (some 2) 7 9 0 (λ c w. refl)

abbrev descriptor : Descriptor
descriptor = record { file_map = ("a.wav", "audio") ∷ []; search = λ uri. some "call" }

abbrev listing : Option (List Listed)
listing = some (("s3://b/1/a.wav", 3) ∷ ("s3://b/2/a.wav", 4) ∷ [])

abbrev tables : Tables
tables = record {
  calls =
      record {
        id = "1";
        agent_id = some "agent";
        external_call_id = "call";
        spans_complete = true;
        media_ready = false;
        status = "awaiting_media";
      }
      ∷ [];
  media = [];
  tombstones = [];
}

reconcile_agent-again_example :
    let first = reconcile_agent "agent" descriptor 3 listing tables in
    (reconcile_agent "agent" descriptor 3 listing first.1 ≡ (0, first.1))
    × ((reconcile_agent "agent" descriptor 9 listing first.1).0 ≤ young 3 listing)
reconcile_agent-again_example = reconcile_agent-again "agent" descriptor 3 9 listing tables
