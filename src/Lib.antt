-- ===== src/Lib.antt =====
-- Verification of getarp, a honeypot's event pipeline: sensors write JSON lines; the pipeline tails
-- the files, normalizes each record, stores it in Postgres and publishes it to Redis; the enrichment
-- worker asks feeds and reputation services about new sources; the analytics engine correlates the
-- events of a source into findings; the API serves the dashboard.
--
-- The files and the code that they model:
--   Base/         numbers, texts, lists, dicts and results that the components share.
--   Json/         JSON values as Python holds them, and `_strip_nulls` (pipeline/ingestor.py,
--                 enrichment/base.py).
--   Retry         `is_transient`, `delay` and `oneline` (pipeline/retry.py, of which enrichment/ and
--                 analytics/ have copies). An exception is its class, its text and its cause.
--   Ingest/       pipeline/ingestor.py. Event is the canonical event of `_base`, Normalize the three
--                 normalizers, Source the private networks, Redact the redaction of passwords, Store
--                 the tables and streams with the SQL of `_handle` and `_upsert_ip`, Handle the
--                 functions `_handle` and `_consume_one`, Checkpoint the state file and the position
--                 that a restart resumes at, Tail the loop of `_tail_once`.
--   Enrich/       Record is `Enrichment` of enrichment/base.py; Merge and Tiered are
--                 `merge_enrichments` and `TieredProvider` of enrichment/providers.py. Multi is
--                 `MultiProvider`, and the providers are Budget (`AbuseIPDBProvider`), Greynoise,
--                 Virustotal, Ipinfo, Crowdsec and Abusech, with the bounded cache of each in Memory,
--                 the treatment of an HTTP response in Http and the block list of abuse.ch in
--                 Blocklist. Worker is `enrich_one` and `handle_message` of enrichment/worker.py,
--                 Stream its loops `consume` and `reclaim_loop`, Refresh its `refresh_loop`. Feeds is
--                 `_store` of enrichment/feeds.py; the feeds of that file are Index (what those with
--                 an index in memory share, and Feodo), Threatfox, Lapi and Geo (GeoLite2 and IPinfo
--                 Lite).
--   Analytics/    Event is `Finding` of analytics/correlation/base.py and the events read off the
--                 bus; Scan, Attack and Dedupe are the detectors of analytics/correlation/; Evict and
--                 Windows are the sliding windows of analytics/engine.py, Rank what it writes to
--                 `ips`; Profile is analytics/behavioral/profiler.py; Snapshot is the snapshot of a
--                 profile and the row that `persist_profile` merges it into, Flush the profiles in
--                 memory with `flush_profiles`, `_evict_profiles` and `gc_state`. Findings is what
--                 the engine holds and `persist_finding`, Engine the whole of `handle_event`,
--                 `load_detectors`, `gc_state` and the batches of `consume`.
--   Api/          ClientIp is api/ratelimit.py, Login the lockout of api/main.py, Access the tokens
--                 of api/auth.py and the logout, Settings `put_setting` of api/routers/admin.py,
--                 Evidence the views that api/routers/data.py gives of evidence and of CSV rows,
--                 Socket the tickets and the sockets of `ws_ticket` and `ws_status` of api/main.py.
--   Decoy/        honeypot/extra-services/services.py: Http, Mysql, Ftp and Redis are its handlers
--                 over what a client sends, Session is `log_event`, Serve the wiring of
--                 `make_server`, Latin the texts that bytes are decoded to.
--   Flight        the calls of Enrich.Budget, Enrich.Virustotal and Api.Login that wait together.
--   Heartbeat     heartbeat.py of the three workers and pipeline/healthcheck.py.
--   Examples/     the definitions run on concrete inputs.
--
-- How they meet: what Decoy.Serve.serve logs is what Ingest.Normalize reads; Ingest.Handle.payload is
-- what the engine reads as Analytics.Event.Ev; the addresses that Ingest.Handle.publish queues are
-- the entries of Enrich.Worker; every retry asks Retry.
--
-- State is explicit. `handle` takes the tables and streams (Ingest.Store.Store) and returns them with
-- what the call returned or raised, so what was written before a failure stays written; a call to the
-- outside is a fault of Ingest.Handle.Attempt or Enrich.Worker.Circumstances: it may fail, and then
-- has no effect. The tail's state is Ingest.Tail.Tail; the file system chooses the rounds of its
-- loop. A provider's state is its record, as Enrich.Budget.Budget, the engine's the dicts of
-- Analytics.Windows, Analytics.Dedupe and Analytics.Flush, that of the lockout the counters of
-- Api.Login.Fails.
--
-- Interleaving: the loops of the enrichment worker over the stream (Enrich.Stream.Op), the flush of the
-- profiles beside the events (Analytics.Flush.Op), the sockets of the API (Api.Socket), the calls of
-- AbuseIPDB and VirusTotal (Enrich.Budget.Op, Enrich.Virustotal.Op) and the requests of the login
-- (Api.Login.Op) are steps, and a run is a list of them in any order; a step is what a coroutine does
-- between two awaits, or while it holds a lock. In Enrich.Stream the whole of a message is one step.
-- Everything else runs from its call to its return with nothing of another coroutine in between: so
-- `handle`, `handle_message`, `handle_event` and the other providers' `enrich`, although they await
-- Postgres, Redis or HTTP. What two of these calls that run at once do to each other is not modelled.
--
-- What is a parameter: the parsers of addresses, times, numbers and JSON, `str`, the derived and
-- random ids (Ingest.Handle.Runtime), the draw of `random.uniform`, the client libraries that an
-- image ships, the answers of HTTP services, the regular expressions of the profiler, the decoding of
-- tokens.
--
-- Numbers: times are natural numbers in one unit (in Virustotal, tenths of a second, in which its
-- pause of 15.5 seconds is whole; in Heartbeat, milliseconds); confidence is in hundredths, threat
-- scores in the engine are in tenths, elsewhere whole.
--
-- Loops and fuel: the attempts of `_consume_one` are a recursion on how many are left, started with
-- the bound of the code's `range`, and so are the rounds of the FTP and Redis decoys; decimal digits
-- are computed on fuel one larger than the number, which has at most as many digits. Everything else is
-- structural.
--
-- Not modelled: log messages, waiting, the trimming of streams, connection set-up; the archives that
-- `GeoLiteFeed` downloads, `feed_refresh_loop` of enrichment/; the loops around the steps of
-- pipeline/; the SQL aggregates of analytics/engine.py and of api/routers/, the sockets of honeypot/
-- and the fixed packets that its decoys send. Python's sets have no order that code may rely on:
-- texts joined from one stand in the order met.
pub mod Base
pub mod Json
pub mod Retry
pub mod Ingest
pub mod Enrich
pub mod Analytics
pub mod Api
pub mod Decoy
pub mod Heartbeat
pub mod Examples
pub mod Flight
