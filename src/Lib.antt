-- ===== src/Lib.antt =====
-- A verification library for timberdoodle, the building-data service of this repository: it watches
-- readings that come over MQTT, opens and closes faults, tells webhooks of them, and computes derived
-- points. Paths below are from the repository's root.
--
-- The parts and their files:
--   Base            lists, Boolean tests, integers and dicts that the parts share.
--   Values          JSON values and instants (microseconds since the epoch).
--   Faults          src/timberdoodle/faults.py, the `faults` table: rows with the BIGSERIAL counter;
--                   open_fault, close_fault, ack_fault, snooze_fault and list_faults are one step each.
--   Health          the two health tables (webhook_health of faults.py, and
--                   src/timberdoodle/derivation_health.py), one model over the type of their key.
--   Webhooks        src/timberdoodle/webhooks.py: validate_url, matches_filter, deliver.
--   JsonStore       src/timberdoodle/json_store.py: load and the mtime cache; Records has the changes
--                   that the services make to a file.
--   FaultDetector   src/timberdoodle/fault_detector.py: the rules' cache with its Brick roster, the
--                   cur-mode handler of a message, the his-mode sweep, and the deliveries they start.
--   TimeSeries      src/timberdoodle/timeseries.py: point_history and its upsert and reads; Many has
--                   the reads of several points, the rollups and the deletion.
--   TripleStore     src/timberdoodle/store.py: the graph as a set of triples.
--   DerivationEngine  src/timberdoodle/derivation_engine.py: Order has _topological_order, Evaluate the
--                   work on one target, Sweep the loops of formulas, rollups, passes and messages,
--                   Ticks the due times of the main loop.
--   Ingest          src/timberdoodle/ingest.py: readings, tags, links of points and equipment.
--   Mapping         src/timberdoodle/mapping.py: classify_point, its fallback, reclassify.
--   BrickVocab      src/timberdoodle/brick_vocab.py: Vocab, its indexes and its lookups.
--   HisQuery        src/timberdoodle/hisquery.py: the filter grammar on tokens; Interval and Span the
--                   rollup intervals and spans, Calls the parser of hisRead and hisRollup, Vocab and
--                   Compile the compiler to SPARQL, Describe and Run what run_query does with it.
--   FaultApi        src/timberdoodle/fault_api.py behind src/timberdoodle/gateway_auth.py: Routes has
--                   the paths, the module itself the handlers.
--   Auth            src/timberdoodle/auth.py, and in Auth.Api the handlers of auth_api.py.
--
-- How they interact: a reading or a sweep (FaultDetector.Cur, FaultDetector.His) opens or closes rows of
-- Faults and starts deliveries, which Webhooks carries out and Health counts; FaultDetector.Watch runs
-- any sequence of them. Ingest and DerivationEngine write TimeSeries and TripleStore, Mapping the latter;
-- DerivationEngine reads Faults and counts in Health. HisQuery reads TripleStore (through SPARQL),
-- BrickVocab and TimeSeries; FaultApi changes the files that FaultDetector reads through JsonStore, and
-- acknowledges, snoozes and lists Faults.
--
-- Exceptions are results: `none`, or a Boolean beside the state that was reached. A database statement
-- is atomic, so it is one step. What is not under src/ is a parameter: `fnmatch`, the network
-- (urlparse, getaddrinfo, requests.post), the SPARQL engine (what it answers to a query), the Python
-- interpreter of a derivation's function, the cycle that graphlib reports, the language model, PyJWT,
-- PBKDF2 and hex, difflib, the replacement of codepoint escapes in a query, and the midnights and month
-- starts of a time zone.
--
-- Fuel: `prune` gets the number of nodes, since each pass but the last takes a node away;
-- `topological_order` gets one more than the number of nodes, since each CycleError takes one away;
-- `hand_out` gets the number of nodes, each of which is handed out once.
-- The worklists of `descendants` and `expand` get one unit for each name that they start from and one
-- for each that a visit may push, of which each round takes one; `compute_effective_tags` gets one more
-- than the number of classes, since a call that goes deeper has seen one more; `parse_calls` gets the
-- number of tokens, of which each call takes some.
-- `parse_filter` gets four units for each token and four more, which HisQuery.RoundTrip shows to be
-- enough for whatever a filter prints as.
--
-- Not modelled: HMAC and JSON bytes, argument parsing, the connections and sleeps of the main loops,
-- tracing spans, the tokenizer of hisquery.py and the text of the SPARQL that its compiler prints, the
-- regular expressions over the ontology file, the aggregates of Postgres on the values of a bucket, and
-- the parts of the service that are not named above.
pub mod Base
pub mod Values
pub mod Faults
pub mod Health
pub mod Webhooks
pub mod JsonStore
pub mod FaultDetector
pub mod TimeSeries
pub mod TripleStore
pub mod DerivationEngine
pub mod Ingest
pub mod Mapping
pub mod BrickVocab
pub mod HisQuery
pub mod Auth
pub mod FaultApi
