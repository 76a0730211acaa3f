-- ===== src/Lib.antt =====
-- The core of logmon, a broker that keeps the logs and spans of running programs and answers
-- questions about them: the stores, filters, triggers, cursors and sessions of crates/core/src, and
-- the processing of a log record that composes them.
--
-- A record that arrives is filtered (filter/parser.rs, filter/matcher.rs), kept in the log ring
-- (store/memory.rs) or in the pre-trigger buffer (engine/pre_buffer.rs), whose contents a trigger
-- (engine/trigger.rs) flushes into the ring later, out of order. A client reads the ring by count,
-- by seq, by trace or through a cursor, which is a bookmark (store/bookmarks.rs) that each read
-- moves. The epoch log (engine/epoch.rs) records which filters decided what was stored, for the
-- verdict on a range read. Each session (daemon/session.rs) is bound to a domain and has its own
-- filters and triggers. A domain's stores are its pipeline (engine/pipeline.rs), into which
-- daemon/log_processor.rs processes record after record, asking the sessions bound to the domain.
-- Spans have a ring of their own (span/store.rs) on the same seq counter, which
-- daemon/span_processor.rs fills. throttle.rs and
-- engine/seq_counter.rs serve all of these.
--
-- The files:
--   Common     numbers, tests, lists and u64 arithmetic that the others share
--   Entry      gelf/message.rs and span/types.rs: `LogEntry` and `SpanEntry`
--   Filter     filter/parser.rs: the filter types, `resolved_seq_range`, `evicted_before_window`;
--              Filter/Split `split_on_commas`, Filter/Parser `parse_filter` and what it calls,
--              Filter/Matcher filter/matcher.rs. Filter/SplitTrip and Filter/Parsed are proofs
--   Ring       store/memory.rs: `InMemoryStore` as `Store`; Ring/Write the writers `append`,
--              `insert_sorted` (`merge_locked`) and `from_records`, Ring/Read the readers,
--              Ring/Cursor `cursor_read` and `advance_for`, Ring/Scans
--              `cursor_read_trace` and `for_each_matching`. The proofs: Ring/Order, Merge, Index,
--              Late, Steps, Room, Numbers and Merging follow `merge_locked` part by part,
--              Ring/Append follows `append`, Ring/History sequences of writes, the Kept files what
--              they do to late numbers, and the other Cursor files cursor reads
--   PreBuffer  engine/pre_buffer.rs: `Inner` as `Buffer`
--   Epoch      engine/epoch.rs: `FilterPolicy`, `EpochLog`, `evidence_verdict`
--   Bookmarks  store/bookmarks.rs: `BookmarkStore` and `CursorCommit::commit`;
--              Bookmarks/Resolver filter/bookmark_resolver.rs
--   Triggers   engine/trigger.rs: `TriggerManager`
--   Throttle   throttle.rs: `Throttle::hit_at`; engine/seq_counter.rs: `SeqCounter::next`
--   Sessions   daemon/session.rs: `SessionRegistry` as `Registry`; Sessions/Id the ids and the map,
--              Sessions/Lifecycle from creation to disposal, names and domains, Sessions/Work
--              filters, triggers, windows and queues, Sessions/Scan the scans of a domain
--   Pipeline   engine/pipeline.rs: `LogPipeline`; Pipeline/Process daemon/log_processor.rs:
--              `process_entry_for_domain`. Pipeline/Stage, Paced, Visits, Rounds, Visited and
--              Storage follow it part by part, Pipeline/Outcome states what it comes to
--   Spans      span/store.rs: `SpanStore`; Spans/Process daemon/span_processor.rs:
--              `process_span_for_domain`; Spans/Apart the arrivals of both kinds at one domain
--
-- State is passed explicitly. A method that holds a lock for its whole body is one step; a cursor's
-- commit, which is taken later, is a step of its own. Loops are structural recursions on the list
-- that they walk or on a count that they lower, so no fuel is needed. A u64 that the code saturates
-- or wraps does so here; counters of events (late numbers, match counts) are unbounded, as 2^64
-- events are not reached. A `HashMap` with u128 keys is a function, one with string keys a list of
-- entries, a `BTreeMap` a list in key order, a `VecDeque` a list with its front first.
--
-- Parameters: Unicode lowercasing, the regex engine and the order of f64 (`TextEngine`); trimming,
-- changing case, the acceptance of a regex and the parsing of an f64 (`ParseEngine`); which name
-- leaves the full set of evicted cursors (`victim` of `sweep`); the text of an f64 (`display`); fresh
-- UUIDs and the time. The operations of Triggers and Sessions that parse a filter take
-- `parse_filter` as a parameter.
--
-- Not modelled: the registry of domains, receivers, RPC handlers, collectors, cases and the wire
-- protocol, which are I/O, serialization and request decoding around these components; of the ring,
-- `context_by_time` and the statistics; of the span ring,
-- `slow_spans`, `duration_by_name`, `recent_traces` and the statistics, which are read-only;
-- of the sessions, what restores and lists them.
pub mod Common
pub mod Entry
pub mod Filter
pub mod Ring
pub mod PreBuffer
pub mod Epoch
pub mod Bookmarks
pub mod Triggers
pub mod Throttle
pub mod Sessions
pub mod Pipeline
pub mod Spans
