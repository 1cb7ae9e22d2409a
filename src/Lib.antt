-- ===== src/Lib.antt =====
-- A verification library of Pulse, the observability service for voice calls. A call reaches the
-- service as spans with events and as a recording. The calculator joins both on one clock into turns,
-- metrics and a trust report; workers fill the database from an object store; sessions guard the API.
-- Spans arrive as OpenTelemetry exports: Ingest cuts an export into one record for each call, the Bus
-- carries the records, the Worker's consumer stores them as fragments through Ingest and, when a call
-- is complete, calls Process, which assembles the fragments, lets Frameworks read them as a trace,
-- analyses the trace with Calculator and Audio, checks it against the audio with GroundTruth and
-- writes the rows.
--
-- Files and what they model (paths from the repository's root):
--   Common      lists over native numbers, integers, text comparison, dicts, a stable sort
--   Model       src/voiceobs/core/model.py and the thresholds of core/config.py: Stage, Span, Trace,
--               Utterance, Turn, MetricValue, TrustReport; Model/Value has the values of attributes
--   Audio       src/voiceobs/core/audio: Intervals (merge, intersect, subtract, total, complement),
--               Metrics (talk_ratio, dead_air_s, response_latencies, percentile, …), and Vad
--               (detect_utterances). Their child modules prove what the names say: Cover, Merge,
--               Measure, Gaps, Rank, Runs
--   Calculator  src/voiceobs/core/calculator.py: Read (the small readers of spans), Turns (order_key,
--               _turn_spans), Gap (_agent_intervals, _uncovered), Build (the anchor hooks and
--               build_turn), Derive (_turns_from_events), Report (_trust_report), Analyze (the
--               metrics, and analyze, which composes all of them)
--   Auth        src/voiceobs/auth/refresh.py over the table refresh_token: Refresh has the
--               operations, Family, Replay and Mint their proofs; Tokens: auth/tokens.py; Access:
--               auth/deps.py
--   Bus         src/voiceobs/bus/memory.py, with Queue, the abstract queue; a record's headers
--   Ingest      src/voiceobs/ingestion.py: Shard is the producing side, with Partition and Wire; Ingest
--               itself the consuming side, with Once (redelivery) and Calls (the rows of calls)
--   Frameworks  src/voiceobs/frameworks: Otlp (attribute values and spans), Generic (OTLPAdapter), with
--               Ancestors, the walk to a turn, Livekit and Pipecat (the two dialects; Paired is the
--               walk to an agent's turn) and Registry (framework_for)
--   Process     src/voiceobs/worker/process.py: Assemble (assemble), Rows (the rows of an analysis),
--               Rollup (_rollup), Persist (_persist, _reconcile, process_audio_only), Listen (what the
--               audio paths read), Run (process, process_trace, ensure_audio_call); Last, Dense,
--               Rewrite, Again, Contained and Settles have proofs
--   GroundTruth src/voiceobs/groundtruth: Words (text.py) with Edits, the edit scripts; GroundTruth
--               itself report.py and service.py, with Bands
--   Backfill    src/voiceobs/worker/backfill.py over the table backfill_job, and cancel of
--               src/voiceobs/api/backfill.py: the job's run, with Accounting and Judged,
--               Claim, Discover and Media
--   Speech      src/voiceobs/diarize/roles.py and src/voiceobs/worker/audio_stt.py
--   Pricing     src/voiceobs/core/pricing.py
--   Worker      Poller: _poll_agent of src/voiceobs/worker/poller.py and discover_manifest_windowed of
--               src/voiceobs/integration/runtime.py. Reconcile: src/voiceobs/worker/reconcile.py. Consumer:
--               src/voiceobs/worker/run.py, with Settled and Erased. Judge:
--               src/voiceobs/worker/judge.py, with Priority, the order of the two topics
--   RateLimit   src/voiceobs/ratelimit.py
--   Transcript  src/voiceobs/transcript.py and src/voiceobs/judge/disposition.py
-- A Tests module beside them applies each theorem at a concrete input.
--
-- How state and operations correspond: a table is the list of its rows in the order of insertion,
-- and an operation takes the table and returns the new one with its answer. An exception is a value
-- (Outcome, Discovery, Ran, Attempted). A backfill job runs on a state of an arbitrary type, the rest of the
-- database, which the services it calls may change in any way. `sorted` is a stable insertion sort, a
-- dict is an association list in the order of insertion, and a loop is recursion on the list it walks
-- through. Only the walks of Frameworks/Generic and Frameworks/Livekit from a span over its parents run
-- on fuel, one step for each span of the trace and one; each step marks a span id that was not marked,
-- so this is enough, as Ancestors and Paired prove.
-- The consumer's retries run down `kafka_max_retries`, as in the code.
--
-- Numbers: a time is a whole number of ten-thousandths of a second, the grain to which the code
-- rounds, so that `round(x, 4)` of a difference of times is exact; a latency has the same grain, tenths
-- of a millisecond; a ratio is in ten-thousandths. `round` of a quotient is to the nearest, ties to
-- even, of the exact quotient. A cost is in millionths of a dollar. Binary floating point itself is
-- not modelled. A percentile is a whole number.
--
-- Arguments that stand for other software: `float`, `int` and `str` of values (Conversions), the
-- hasher and the random draws of the refresh tokens, the commands of Redis, the levels of audio
-- frames, the regular expressions of a store's descriptor and of a manifest, the fetching of an
-- uploaded transcript, and the processing of one call by a worker; gzip and json (Codec), the
-- speech-to-text and diarization services, the object store and the audio code in Process/Listen, the
-- rounding of nanoseconds to the grain of a span's times in Frameworks/Generic, json.loads of a
-- metrics blob in Frameworks/Livekit, a tenant's mapping, the loaded audio and the report on it in
-- Process/Run, json.loads of a request and the judging of a call in Worker/Judge, what one
-- attempt to handle a record does and whether the producer takes a judge request in the consumer's
-- retries, and which commits and requests of a backfill job raise.
--
-- Not modelled: validation by pydantic, overrides of the calculator's hooks, numeric work on
-- samples, wire formats, language models, clustering, the HTTP routers and the user interface; Kafka
-- itself and the JSONata package; the copying of a header's fields to the columns of a call
-- (_apply_header), which is an argument of Process/Persist and Process/Run; failures of the producer
-- of dead letters, of the commits of offsets and, outside Backfill, of the commits of the database;
-- the gate by min_coverage of groundtruth/report.py, which no code applies.
pub mod Common
pub mod Model
pub mod Audio
pub mod Calculator
pub mod Auth
pub mod Backfill
pub mod Speech
pub mod Pricing
pub mod Worker
pub mod Transcript
pub mod RateLimit
pub mod GroundTruth
pub mod Frameworks
pub mod Bus
pub mod Ingest
pub mod Process
