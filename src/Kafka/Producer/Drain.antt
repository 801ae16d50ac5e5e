-- ===== src/Kafka/Producer/Drain.antt =====
-- `drainPrefix` of the Kafka sink comes to its end.
