-- ===== src/Kafka/Routing/Bounds.antt =====
-- The routing of a key stays within the partitions and the queues.
