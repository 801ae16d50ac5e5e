-- ===== src/Examples.antt =====
-- The theorems at concrete inputs: `Checkpoints` has the positions, the gate, the store and the ring,
-- `Codecs` the byte formats, `Backlog` the disk buffer, `Sessions` and `Emits` the runner, `Pipeline` the
-- row sinks, `Streams` the Kafka sink, the dump pass, the configuration and the JSON text.
pub mod Checkpoints
pub mod Codecs
pub mod Backlog
pub mod Sessions
pub mod Emits
pub mod Pipeline
pub mod Streams
