-- ===== src/Worker/Poller.antt =====
-- One agent's sweep: `_poll_agent` of src/voiceobs/worker/poller.py, and `discover_manifest_windowed`
-- of src/voiceobs/integration/runtime.py. The manifest's expressions are an argument, and the
-- processing of a call changes a state W, the database.
pub mod Watermark
pub mod Settled
use actioneer_pulse.Common.{
  Bool, true, false, String, Option, none, some, List, [], ◌∷◌, ◌++◌, ◌||◌, ◌&&◌, filter, truthy?,
  str_eq, leb, ltb, if◌then◌else◌, max, ℕ, ◌+◌,
}
use actioneer_pulse.Common.Sort.{sort_by}

-- A call that the discovery finds: its objects, each with the number of its rule, and the time of
-- the newest.
pub record FoundCall : Type 0 where
  pub call_id : String
  pub items : List (ℕ × String)
  pub max_mtime : ℕ

-- An object of the store, with the time of its last change.
pub record StoredObject : Type 0 where
  pub uri : String
  pub modified : ℕ

-- `grouped[call_id] = (items + [(rule, uri)], max(prev, mt))`
unfoldable pub add_object : String → ℕ → StoredObject → List FoundCall → List FoundCall
add_object call_id rule o [] =
    record { call_id = call_id; items = (rule, o.uri) ∷ []; max_mtime = o.modified } ∷ []
add_object call_id rule o (c ∷ calls) =
    if str_eq c.call_id call_id
    then record c { items = c.items ++ (rule, o.uri) ∷ []; max_mtime = max c.max_mtime o.modified }
      ∷ calls
    else c ∷ add_object call_id rule o calls

-- The first rule that matches an object, with the call id that its group holds: an empty id leaves
-- the object out.
unfoldable pub group_objects :
    (String → Option (ℕ × Option String)) → List FoundCall → List StoredObject → List FoundCall
group_objects first_match grouped [] = grouped
group_objects first_match grouped (o ∷ objects) =
    group_objects first_match
      (elim (first_match o.uri) [
        | none ↦ grouped
        | some (rule, call_id) ↦ elim (truthy? call_id) [
          | none ↦ grouped
          | some id ↦ add_object id rule o grouped
        ]
      ])
      objects

-- `since is None or mx > since`
abbrev pub newer : Option ℕ → ℕ → Bool
newer none t = true
newer (some since) t = ltb since t

abbrev pub in_window : Option ℕ → ℕ → FoundCall → Bool
in_window since cutoff c = leb c.max_mtime cutoff && newer since c.max_mtime

unfoldable pub discover_windowed :
    (String → Option (ℕ × Option String)) → List StoredObject → Option ℕ → ℕ → List FoundCall
discover_windowed first_match objects since cutoff =
    filter (in_window since cutoff) (group_objects first_match [] objects)

-- The database, `last_polled_modified`, the count n, and the calls sent to the judge.
pub record Sweep (W : Type 0) : Type 0 where
  pub world : W
  pub high : Option ℕ
  pub ingested : ℕ
  pub judged : List String

-- `max_mtime if high is None else max(high, max_mtime)`
unfoldable pub advance : Option ℕ → ℕ → ℕ
advance none t = t
advance (some h) t = max h t

abbrev pub modified_le : FoundCall → FoundCall → Bool
modified_le a b = leb a.max_mtime b.max_mtime

unfoldable pub transcribed : String → Bool
transcribed status = str_eq status "ok" || str_eq status "partial"

module _ {W : Type 0} (process : FoundCall → W → Option (String × W)) where
  -- The body of the loop: no result is an exception, after which the transaction is rolled back.
  unfoldable pub ingest : FoundCall → Sweep W → Sweep W
  unfolding advance
  ingest c s = elim (process c s.world) [
    | none ↦ s
    | some (status, world) ↦
        let high = some (advance s.high c.max_mtime) in
        if transcribed status
        then record {
          world = world;
          high = high;
          ingested = s.ingested + 1;
          judged = s.judged ++ c.call_id ∷ [];
        }
        else record { world = world; high = high; ingested = s.ingested; judged = s.judged }
  ]

  unfoldable pub ingest_all : List FoundCall → Sweep W → Sweep W
  ingest_all [] s = s
  ingest_all (c ∷ cs) s = ingest_all cs (ingest c s)

  -- `_poll_agent`
  unfoldable pub poll_agent : List FoundCall → W → Option ℕ → Sweep W
  poll_agent found world high =
      ingest_all (sort_by modified_le found)
        (record { world = world; high = high; ingested = 0; judged = [] })
