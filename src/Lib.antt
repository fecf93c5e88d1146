-- ===== src/Lib.antt =====
-- A verification library for ingraind, the agent that collects measurements from a machine,
-- changes and aggregates them, and sends them to backends.
--
-- The program is a set of actors. A grain (src/grains) makes measurements and sends messages to the
-- recipients of the pipelines that its probe names. A pipeline is a chain of aggregation steps
-- (src/aggregations), each an actor that handles a message and sends it on, with a backend
-- (src/backends) at its end. src/config.rs and src/main.rs build the chains from the configuration.
-- Here each actor is a record of its fields with one function per handler, which gives the new
-- state and what the actor sends or asks of actix as a list; a panic is an error of its own, since
-- the hook of src/main.rs ends the process with it.
--
-- Which file models what:
--   Prelude, Prelude/*: Booleans, lists, results (`?` is the bind), texts as lists of code points,
--     `HashMap` as an association list that holds each key once (its order stands for the
--     unspecified one), decimal numbers, `trim`.
--   Float: `f64` as an interface; `IsExact` is what doubles do up to 2 ^ 53.
--   Metrics, Metrics/TagList, Metrics/Kind, Metrics/Units: src/metrics/mod.rs.
--   Aggregations/Buffer: src/aggregations/buffer.rs. The file itself has the tables and `record`,
--     Flush has `flush`, Schedule has the actor; Counters, Totals, Order, Series, Flush/Panics, Flush/Sent,
--     Schedule/Timer and Schedule/Handling have the proofs.
--   Aggregations/Whitelist, Regex, SystemDetails, Container, Exec: the file of src/aggregations of
--     that name; Exec/Spawned has the proof about the commands that are run.
--   Backends: src/backends/mod.rs; Backends/Http, Statsd, Encoders, Console, S3: the file of src/backends of that
--     name. Http/Requests and Http/Parts have the proofs about what is sent.
--   Grains/Recipients: `SendToManyRecipients` of src/grains/mod.rs.
--   Grains/Statsd: the parser of src/grains/statsd.rs; Grammar describes its lines, Sound has the
--     converse and Values the meaning of their values; Delivery has the decoder and the
--     handler, Served the grain with the datagrams that arrive.
--   Grains/Osquery: src/grains/osquery.rs, the configuration, schedule and command line; Rows reads
--     the output, Running is a run; Accepted, Results, Runs and Scheduled have the
--     proofs.
--   Grains/TestProbe: src/grains/test.rs.
--   Grains/Packet: the readers of headers in src/grains/mod.rs, src/grains/protocol/ip.rs and
--     src/grains/tls.rs.
--   Grains/SocketIo: the loops of src/grains/ebpf_io.rs and the handler of src/grains/ebpf.rs; Polled has
--     the streams and the actor behind them, Kept and Readers have the proofs.
--   Grains/Ebpf: the attaching of programs and the making of streams in src/grains/ebpf.rs, Attached
--     loads a module and attaches each grain; Sockets has the proof about the two passes.
--   Grains/Tls: the messages of src/grains/tls.rs; Filtered and Trimmed have the proofs about the frames
--     that the filter in the kernel passes.
--   Grains/CString: `to_string` of src/grains/mod.rs. Grains/Network, Files, Dns, Syscalls:
--     src/grains/network.rs, file.rs, dns.rs and syscalls.rs, their proofs in the modules below them.
--   Probes/Network, File, Dns, Syscalls, TlsFilter: the programs of ingraind-probes/src, which run in
--     the kernel; Probes/Bpf is what they use of the maps in the kernel. A hook is a function of the
--     registers, the thread, the clock and the kernel's memory, and gives what it sends to the grain
--     and the map behind it; Network/Threads runs the hooks of many threads one after the other, and
--     Network/Calls the hooks of whole calls. File/Lineage tells of a file's ancestors as a relation.
--   Pipeline, Pipeline/Chain: the aggregators, pipelines and probes of src/config.rs and how src/main.rs
--     puts them together. Pipeline/Start: the backends and the logging of src/config.rs and the `main` of
--     src/main.rs; Start/Reached, Start/Started and Start/Missing have the proofs. Pipeline/Delivery passes messages from
--     the handler of each stage to the next, and Delivery/Whitelisted has the proof about whitelists.
--     Pipeline/Mailboxes is the same with a mailbox for each stage and the stages taking turns in any
--     order, and buffers flushing: the steps are those of actix as it documents its mailboxes, which keep
--     the order of what is sent, and the handlers are those of the source. Mailboxes/Sequential and
--     Mailboxes/Progress relate the two, Mailboxes/Described says what the stages make
--     of a message, Mailboxes/Arrived and Mailboxes/Finished have the proofs about what reaches the
--     backend, and Mailboxes/Guarded the one about whitelists.
--   Tests: the unit tests of the sources, and the theorems at concrete inputs.
--
-- Code outside the repository is a parameter: `f64`, the hasher and hdrhistogram (Buffer), the crate
-- regex (Regex, Exec), `from_utf8`, the files of /proc (Container), serde_json and processes
-- (Osquery), the bytes that the encoders write (Encoders), hyper's readers of addresses and headers
-- and rayon's `chunks` (Http), the environment and the sockets (Statsd, Pipeline/Start), the arguments, the reader of TOML and
-- the loggers (Pipeline/Start), the readiness of streams (SocketIo), the loading of eBPF programs
-- (Pipeline, Ebpf), the maps and
-- the memory of the kernel and the bindings of its headers (Probes), rustls (Tls), dns_parser and
-- metrohash (Dns), `from_utf8_lossy` (CString), the layout of the structures that the programs share
-- (Network). The clock is an argument, read once for a flush and once for a poll.
--
-- Bounds: a `u64` that is parsed is at most 2 ^ 64 - 1; the period of the buffer wraps at 2 ^ 64 as a
-- release build computes it; ports and lengths in packets are made of bytes. A map in the kernel keeps
-- what is set as long as it has room, which is the hypothesis `HasRoom`: 10240 keys for the maps of
-- sockets, files and watched inodes. The walk from a file to the root has eight rounds, as in the
-- source. Recursion is structural
-- but for `delays`, whose fuel is the number of
-- runs looked at, and `show_onto`, whose fuel is the number of digits.
--
-- Not modelled: closed mailboxes (`do_send(..).unwrap()`), what is written to the log, what becomes of
-- requests to HTTP servers and S3, the bytes that serde_json and capnp write; what redbpf does to a
-- module of eBPF programs; the registering of streams with the reactor beyond whether it succeeds;
-- the shutdown of the actors; the programs for aarch64; build.rs and the benchmark.
pub mod Aggregations
pub mod Backends
pub mod Float
pub mod Grains
pub mod Metrics
pub mod Pipeline
pub mod Prelude
pub mod Probes
mod Tests
