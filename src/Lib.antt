-- ===== src/Lib.antt =====
-- A model of obs, a library for typed events in Rust: an event is built at a callsite, passes a
-- filter and a sampler, takes ids and labels from the scopes that are open, and goes as a protobuf
-- payload in an envelope to sinks, which redact it, project it or spool it.
--
-- Emit models the way of an event through crates/obs-core/src. Severity and Envelope hold the data
-- that the path reads, and Severity.Names its texts. Filter is filter.rs: `add` is the part of
-- `Filter::add_directive` behind the parse, `callsite_interest` and `event_allowed` are the methods
-- of these names; Longest, Agreement and Dynamics are about them. Filter.Split is
-- `split_directives`, Filter.Grammar the `mod grammar`, on the combinators of the third-party
-- winnow, which the record `Winnow` holds with their documented laws, and Filter.Parse is
-- `Filter::parse`; Grammar.Printed prints directives, which the source does not. CallsiteRegistry
-- is registry/callsite_registry.rs: the third-party hash is a parameter, with 32 bytes as its
-- documented result, and `insert_if_absent` takes the map as its lookup and as its entry find it.
-- Callsite is callsite.rs with the gate of `emit_one` in emit.rs: `permit` asks the cache or the
-- observer, and `Step` relates the states of one observer and one callsite, with the two steps of
-- `StandardObserver::reload_config` on the filter apart. Sampling is sampling.rs, with the state of
-- its generator and the clock as arguments; an f64 rate is `n / 2 ^ k` or a special value. Scope is
-- scope/mod.rs, scope/frame.rs and scope/guard.rs: a stack lists its frames from the innermost one,
-- and `drop_guard` returns what the guard flushes, with the scopes behind the emission of it, which
-- is an argument. Pipeline is `run_emit_pipeline` of observer/standard.rs, one definition for each
-- of its numbered steps.
--
-- Wire models the payloads. Varint has the varint code of registry/payload_decode.rs and of
-- registry/scrubber.rs, Payload the four projections of registry/payload_decode.rs over a table of
-- fields (`walk` is the loop that they share, Payload.Project their actions), Scrubber is
-- registry/scrubber.rs, Frame is wire/envelope_codec.rs. The tag codec of the third-party crate
-- buffa is the record `Buffa` with its documented laws in `IsProtobuf`, which Protobuf fills; the
-- generated codec of an envelope is the record `Message` with its laws in `IsCodec`. `Reads` in
-- Payload.Reads says what fields a payload holds, one `decode_field_value` behind the other, apart
-- from the loops.
--
-- Emit.Worker is observer/workers.rs, one tier's worker behind its bounded channel, with the task
-- in one of its phases and `shutdown` as the steps that it takes, and Emit.Dispatch what
-- observer/standard.rs does with an envelope behind the pipeline: `dispatch_async`,
-- `dispatch_audit`, where a list of rounds stands for the bounded wait, and `recover_audit_spool`.
-- A sink is the list of what it was given. Emit.Observer is `emit_envelope`, which joins the
-- pipeline to the dispatch.
--
-- Batch models crates/obs-sink-batch/src. Spool is spool.rs: the bytes of a spool file, reading it
-- back, and the eviction of the oldest files, where `DirAnswers` says how the file operations turn
-- out. Ingress is `BatchingSink::deliver`. Worker is the rest of sink.rs: State has the worker with
-- its partitions, and the `World` that answers it (the clock, the backend, the file operations)
-- while it handles one event; Flush, Admit and Reship have the handlers, and Run joins them. `left`
-- is a history that no code reads: which envelopes left which partition, and how. The capped f64
-- product of the back-off is the parameter `computed_ms`, taken to be below the largest u64; the
-- duration of an upload and the new path of an escalated file are left out of the self-events. The
-- partitions are a list of records with distinct keys, in no order that the code asks for. Audit
-- models crates/obs-core/src/audit_spool.rs: Crc, Append (the writer; a file is what was written
-- and what of it is durable, and an `Io` says how the file operations of a call turn out) and
-- Recover (the reader, for any consumer).
--
-- Prom models crates/obs-prom/src: Series is series.rs, Registry the table of registry.rs with the
-- recordings on it, where `rivals` are the series that other threads insert between the look at the
-- table and the entry, Names and Deliver are sink.rs, Render the lines of one series in render.rs.
-- An f64 is of any type, with its order and its sum as arguments; the calls of the generated
-- `project_metrics` are data. Sink models crates/obs-core/src/sink/writer.rs: Date is
-- `ymd_from_secs`, and Rolling the writer of rolled files, where a directory lists its files in the
-- order of their last change and a `World` says how the file operations of a write turn out.
--
-- Propagator is propagator.rs of crates/obs-core/src: `extract_w3c` and `inject_w3c` on a header
-- map that the third-party http crate gives (the record `Http`, with its documented laws in
-- `IsHeaderMap`), and `fresh` and `child_of` with the bytes of the random source as arguments.
--
-- Texts and payloads are lists of bytes, in Prom the texts of names and labels and in
-- Emit.Filter.Grammar the text of a filter lists of characters. Numbers are natural; the wrap of
-- u32 and u64 is written out where the source can reach it. Loops that Rust does not bound run on
-- fuel, the length of the input, and theorems named `_ends` show that this is enough; `none` is
-- then the fuel that ran out, and no result of the source. A number is printed with 20 digits at
-- most, which a u64 does not exceed. A map is an association list, since no code here asks for its
-- order, except that the JSON map of the projections keeps the order of its keys.
--
-- Not modelled: the headers of a scrape, the sinks that split, copy, keep or queue their output,
-- the OTLP, ClickHouse and Parquet sinks, the live tail, the tower middleware and the tracing
-- bridge, which stand apart from the parts above; directory walks, configuration files, clocks and
-- other input and output, which have no result to state; generated code and its helpers, the
-- command line and the macros.
pub mod Prelude
pub mod Wire
pub mod Batch
pub mod Audit
pub mod Emit
pub mod Propagator
pub mod Sink
pub mod Prom
