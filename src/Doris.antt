-- ===== src/Doris.antt =====
-- The Doris sink: internal/dorissink/sink.go. `Sequence` has the version column, `Load` one stream
-- load, `Sink` the queue with `Emit`, `flush` and `Close`.
pub mod Sequence
pub mod Load
pub mod Sink
