-- ===== src/DiskBuffer.antt =====
-- The backlog of the dump phase: internal/replica/diskbuffer.go.
--
-- `Record` has the records and their frames, `Buffer` the state and the operations. What is proved
-- about them stands in `RoundTrip` (records), `View` (the queue that a buffer stands for), `Append`
-- and `Drain` (the two ends of the queue) and `Resume` (an adopted backlog).
pub mod Record
pub mod Buffer
