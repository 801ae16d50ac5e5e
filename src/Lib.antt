-- ===== src/Lib.antt =====
-- Pikawire streams the changes of a PikiwiDB master to sinks. The receiver decodes binlog entries
-- (Binlog, Resp), the gate decides whether an entry is dropped, emitted or buffered while the dump of
-- the database is read (Gate), the disk buffer keeps what waits (DiskBuffer), the sequence ring finds
-- the longest delivered prefix behind an asynchronous sink (Ring), and the store keeps the delivered
-- position (Store). Positions order all of it (Position), and the runner ties receiver, gate, disk
-- buffer and event channel together (Runner, with the events of Envelope). The sinks are Kafka, over
-- the ring, and the row pipelines: Sql maps events to rows and commits them, Doris loads such rows in
-- batches. The dump pass (Dump) feeds the runner, and the configuration (Settings) chooses the sink.
--
-- Position models internal/envelope/position.go (`Position`, `After`, `IsZero`) and `offsetAfter` of
-- internal/replica/handshake.go; Position/Order has its laws.
-- Gate models internal/replica/gate.go: `GateCtl` is the record of the same name, `Drop` is `drops`,
-- `Release` is `release_gate`. Gate/Handoff has the decisions of the handoff.
-- Store models internal/store/store.go: `Open` is `open_store`, every setter has its name in snake
-- case, and `Flush` is `flush`, with the call that fails as an argument. The file system is the
-- checkpoint file and the temporary file; `encoding/json` is a parameter. Store/Checkpoint is about
-- runs of deliveries, Store/Durable about the file.
-- Ring models internal/sink/ring.go: `Next`, `Done`, `Advance` and `Close` are `claim`, `finish`,
-- `advance` and `close_ring`. Ring/Prefix is about one call of `Advance`, Ring/History about any
-- sequence of calls, which the step relation `Reach` describes.
-- Resp models internal/resp/resp.go and internal/resp/serialize.go. A result is a value, an error or
-- a panic. Resp/RoundTrip has the round trip, Resp/Panic the inputs on which the parser panics.
-- Binlog models internal/binlog/item.go; Binlog/Layout has the layout of an entry.
-- DiskBuffer models internal/replica/diskbuffer.go. Record has the codec of a record, Buffer the
-- operations, and below Buffer: View the queue of records that a buffer stands for, Append `append`,
-- Drain `nextLocked`, Kept what a drain leaves of the other fields, Resume the adoption of an old
-- directory, Tail the scan of it. The files of the segments are lists of bytes; an operation is one
-- step, as the mutex makes it. The answers of the operating system are the record `Os`.
-- Envelope models the event of internal/envelope/envelope.go, internal/envelope/classify.go and
-- internal/event/command_type.go; Envelope/Json has `MarshalJSON`, with `jsonEscape` read back in
-- Envelope/Json/Escape by the reader of JSON strings of Envelope/Json/Reader.
-- Runner models internal/replica/runner.go: `consume` up to its unlock, the append and the send that
-- follow, and the steps of `Release`, which the flusher runs beside the receiver. Runner/Steps has
-- the runs of a session as a step relation, with every interleaving of receiver, flusher and dump;
-- Runner/Invariant tells where each entry stands, Runner/Receive, Release and Drain that the steps
-- keep this, and Runner/Order what follows for the channel. Runner/Emit has `emitLoop` and
-- `markEmitted`, and Runner/Emit/Checkpoint what they leave in the store and its file. Runner/Acks has
-- the acks of a session, `startOffset` and the attempts of `establish`.
-- Sql models internal/sqlsink: Pattern the key patterns of mapping.go, Rows its `RowForEvent`, Order
-- its `sortStrings`, Batches `Coalesce` and the committer of sink.go, Statements the SQL text of
-- dialect.go and `execRow`. Sql/Batches/Collapse takes the index out of `Coalesce`, Keyed compares a
-- coalesced batch with the rows one by one under a key of `Coalesce`, and Store does so on a row of
-- the database, named by its table and primary key as `execRow` names it; Keys is about the keys, Once counts
-- the statements for a row.
-- Doris models internal/dorissink/sink.go: Sequence the version column, Load a stream load, Sink the
-- queue with `Emit`, `flush` and `Close`. Doris/Sink/Room has the step relation of the goroutines that
-- share the sink: the parts of a flush outside of the lock (a token given back, a load, an error, the
-- notifier) are steps of their own, and Doris/Sink/Flushes puts a flush together from them;
-- Doris/Sink/Loads has what these parts leave alone, Doris/Sink/Delivery what a flush reports. It uses
-- the rows and `Coalesce` of Sql.
-- Kafka models internal/sink/kafka.go over Ring: Routing the choice of partition and queue, Producer
-- `Emit`, the workers, `drainPrefix` and `Close`. Kafka/Producer/Order has the step relation; the
-- messages passed to `WriteMessages` and those of its calls without an error are two lists.
-- Dump models the pass over a dump of internal/dbsync/engine.go, Settings the defaults and checks of
-- internal/app/config.go and the choice of `buildSink` in internal/app/run.go.
-- Info models `extractNumbers` of internal/info/replication.go; Info/Numbers reads printed numbers
-- back.
-- Prelude has the shared names, lists over the native numbers, little-endian words, the decimal print
-- and results. Examples applies the theorems at concrete inputs.
--
-- Loops run on fuel where the source has no counter: `advance_loop` on the ordinals handed out and
-- not consumed, `next_loop` on the records asked for and the segments, `tail_loop` on the bytes of the
-- segments. Each is enough because a round takes an ordinal, a record or a segment away; the theorems
-- about these loops would fail if they stopped early. The loop of the Doris sink's `Close` and
-- `drain_prefix` take their fuel as an argument; two rounds are enough.
-- Machine integers that are only counters (ordinals, byte counts) are unbounded; the sum that can
-- overflow in the parser wraps around, and the fields of positions and records have their widths.
--
-- Not modelled: the network session with its timers, the file sink, the dump transfer and the
-- dump reader, the phases of a run in internal/app/run.go, the rest of the parser of INFO, metrics, the
-- tools and the generated code. The Kafka client, the HTTP exchange of a stream load, database/sql,
-- encoding/json, base64 and the UTF-8 test are parameters.
pub mod Prelude
pub mod Position
pub mod Gate
pub mod Store
pub mod Ring
pub mod Resp
pub mod Binlog
pub mod DiskBuffer
pub mod Sql
pub mod Doris
pub mod Kafka
pub mod Dump
pub mod Settings
pub mod Info
pub mod Envelope
pub mod Runner
pub mod Examples
