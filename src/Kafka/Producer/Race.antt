-- ===== src/Kafka/Producer/Race.antt =====
-- Two workers of one queue, as `NewKafkaSink` starts them, can produce its messages in the wrong order.
use pikawire.Prelude.{ℕ, List, [], ◌∷◌, ◌++◌}
use pikawire.Kafka.Producer.{KafkaItem, KafkaSink, set_at}

-- The sink after a worker has taken the head of its queue.
abbrev taken : ℕ → ℕ → KafkaItem → List KafkaItem → KafkaSink → KafkaSink
taken i w it q s = record s {
  queues = set_at i q s.queues;
  batches = set_at i (set_at w (s.batches i w ++ (it ∷ [])) (s.batches i)) s.batches;
}
