-- ===== src/Kafka.antt =====
-- The asynchronous Kafka sink: internal/sink/kafka.go, over the sequence ring. `Routing` has the choice of
-- the partition and the queue, `Producer` the queues, the workers and the delivery notifications.
pub mod Routing
pub mod Producer
