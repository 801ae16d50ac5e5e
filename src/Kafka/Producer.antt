-- ===== src/Kafka/Producer.antt =====
-- The producer of internal/sink/kafka.go: `Emit`, `worker`, `flush`, `drainPrefix`, `Close`. The JSON encoder, the Kafka
-- writer and the notifier are parameters; an error is a number. `NewKafkaSink` starts `workers` goroutines for each queue,
-- which share it: a worker is named by its queue and its number there.
pub mod Order
pub mod Race
pub mod Drain
use pikawire.Prelude.{
  ℕ, zero, suc, ◌+◌, ◌*◌, Bool, true, false, not, ◌&&◌, Option, none, some, List, [], ◌∷◌, ◌++◌,
  Bytes, length, map, ltb, leb, ◌==◌, if◌then◌else◌,
}
use pikawire.Envelope.{Event, kafka_key}
use pikawire.Position.{Position, zero_position, is_zero}
use pikawire.Ring.{SeqRing, Progress, new_ring, claim, finish, advance, close_ring}
use pikawire.Sql.Batches.{is_heartbeat}
use pikawire.Kafka.Routing.{part_of, queue_of, part_of_queue}

-- `kafka.Message`, as far as the sink sets it.
pub record Message : Type 0 where
  pub partition : ℕ
  pub key : Bytes
  pub value : Bytes

-- `kafkaItem`
pub record KafkaItem : Type 0 where
  pub msg : Message
  pub ord : ℕ
  pub pos : Position

-- `KafkaSink` with its workers' batches. `attempted` lists the messages in the order of the calls of `WriteMessages`,
-- with the queue that they come from, `written` those of the calls that returned no error; `notified` the notifier's arguments.
pub record KafkaSink : Type 0 where
  pub parts : ℕ
  pub workers : ℕ
  pub batch_size : ℕ
  pub queue_depth : ℕ
  pub include_hb : Bool
  pub ring : SeqRing
  pub failure : Option ℕ
  pub stopped : Bool
  pub poked : Bool
  pub queues : ℕ → List KafkaItem
  pub batches : ℕ → ℕ → List KafkaItem
  pub attempted : List (ℕ × KafkaItem)
  pub written : List (ℕ × KafkaItem)
  pub notified : List Position

abbrev pub set_at {ℓ} : {A : Type ℓ} → ℕ → A → (ℕ → A) → ℕ → A
set_at i v f k = if k == i then v else f k

-- The defaults of `NewKafkaSink`; 0 stands for the numbers that are not positive.
abbrev or_default : ℕ → ℕ → ℕ
or_default d n = if n == 0 then d else n

unfoldable pub fresh_sink : ℕ → ℕ → ℕ → ℕ → KafkaSink
fresh_sink parts workers batch_size queue_depth = record {
  parts = parts;
  workers = or_default 2 workers;
  batch_size = or_default 256 batch_size;
  queue_depth = or_default 512 queue_depth;
  include_hb = false;
  ring = new_ring;
  failure = none;
  stopped = false;
  poked = false;
  queues = λ i. [];
  batches = λ i w. [];
  attempted = [];
  written = [];
  notified = [];
}

-- `NewKafkaSink`, for the number of partitions that the broker reports; `none` is an error.
unfoldable pub new_kafka_sink : ℕ → ℕ → ℕ → ℕ → Option KafkaSink
new_kafka_sink parts workers batch_size queue_depth =
    if parts == 0 then none else some (fresh_sink parts workers batch_size queue_depth)

-- The position of an item, which the zero position leaves out.
abbrev pub item_position : Event → Position
item_position ev =
    if not (ev.source.filenum == 0 && ev.source.offset == 0)
    then record { filenum = ev.source.filenum; offset = ev.source.offset }
    else zero_position

-- `Emit` in front of its select: done, an error, or an item for a queue. Its ordinal is claimed.
pub data Prepared : Type 0 where
  done : Prepared
  failed : ℕ → Prepared
  to_queue : ℕ → KafkaItem → Prepared

unfoldable pub prepare : (Event → Option Bytes) → ℕ → Event → KafkaSink → KafkaSink × Prepared
prepare marshal marshal_error ev s = elim s.failure [
  | some e ↦ (s, failed e)
  | none ↦ if not s.include_hb && is_heartbeat ev.phase then (s, done) else elim (marshal ev) [
    | none ↦ (s, failed marshal_error)
    | some b ↦
        let key = kafka_key ev in
        let (ring, ord) = claim s.ring in
        let msg : Message = record { partition = part_of s.parts key; key = key; value = b } in
        (
          record s { ring = ring },
          to_queue (queue_of s.parts s.workers key)
              (record { msg = msg; ord = ord; pos = item_position ev }),
        )
  ]
]

-- `case q <- item`; `none` when the queue is full.
unfoldable pub enqueue : ℕ → KafkaItem → KafkaSink → Option KafkaSink
enqueue i it s =
    if ltb (length (s.queues i)) s.queue_depth
    then some (record s { queues = set_at i (s.queues i ++ (it ∷ [])) s.queues })
    else none

-- `case it := <-q` of a worker: the head of the queue goes to the end of its batch.
unfoldable pub receive : ℕ → ℕ → KafkaSink → Option KafkaSink
receive i w s = elim (s.queues i) [
  | [] ↦ none
  | it ∷ q ↦ some (record s {
    queues = set_at i q s.queues;
    batches = set_at i (set_at w (s.batches i w ++ (it ∷ [])) (s.batches i)) s.batches;
  })
]

-- `s.ring.Done` for each item.
unfoldable pub finish_all : List KafkaItem → Option ℕ → SeqRing → SeqRing
finish_all [] e r = r
finish_all (it ∷ batch) e r = finish_all batch e (finish r it.ord it.pos e)

abbrev pub first_error : Option ℕ → Option ℕ → Option ℕ
first_error (some e) new = some e
first_error none new = new

abbrev pub is_nil {ℓ} : {A : Type ℓ} → List A → Bool
is_nil [] = true
is_nil (x ∷ xs) = false

-- What is written by a call that returns this error.
abbrev pub accepted {ℓ} : {A : Type ℓ} → Option ℕ → List A → List A
accepted none items = items
accepted (some e) items = []

-- `flush` of a worker's batch, which it empties then. The parameter is what `WriteMessages` returns.
unfoldable pub flush : (List Message → Option ℕ) → ℕ → ℕ → KafkaSink → KafkaSink
flush write i w s =
    if is_nil (s.batches i w)
    then s
    else let e = write (map (λ it. it.msg) (s.batches i w)) in
      record s {
        failure = first_error s.failure e;
        ring = finish_all (s.batches i w) e s.ring;
        poked = true;
        attempted = s.attempted ++ map (λ it. (i, it)) (s.batches i w);
        written = s.written ++ accepted e (map (λ it. (i, it)) (s.batches i w));
        batches = set_at i (set_at w [] (s.batches i)) s.batches;
      }

-- The first case of the worker's select.
unfoldable pub work : (List Message → Option ℕ) → ℕ → ℕ → KafkaSink → Option KafkaSink
work write i w s = elim (receive i w s) [
  | none ↦ none
  | some t ↦ some (if leb t.batch_size (length (t.batches i w)) then flush write i w t else t)
]

-- The loop of a worker after `stop`; one round takes one item, so a round for each queued item and one more end it.
unfoldable pub empty_queue : (List Message → Option ℕ) → ℕ → ℕ → ℕ → KafkaSink → Option KafkaSink
empty_queue write zero i w s = none
empty_queue write (suc fuel) i w s = elim (work write i w s) [
  | none ↦ some (flush write i w s)
  | some t ↦ empty_queue write fuel i w t
]

-- `fn(pos)`, whose error is thrown away.
abbrev pub report : Bool → Position → List Position → List Position
report has_notifier pos l = if has_notifier && not (is_zero pos) then l ++ (pos ∷ []) else l

-- `drainPrefix`; `none` when the fuel is spent.
unfoldable pub drain_prefix : Bool → ℕ → KafkaSink → Option KafkaSink
drain_prefix has_notifier zero s = none
drain_prefix has_notifier (suc fuel) s =
    let p = advance s.ring in
    let t = record s { ring = p.ring; notified = report has_notifier p.last_pos s.notified } in
    let rest = drain_prefix has_notifier fuel t in
    if not p.advanced
    then some (record s { ring = p.ring })
    else elim p.first_err [ none ↦ rest | some e ↦ some t ]

-- `close(s.stop)`, and the end of `Close` with the error it returns.
unfoldable pub stop : KafkaSink → KafkaSink
stop s = record s { stopped = true }

unfoldable pub close : Option ℕ → KafkaSink → KafkaSink × Option ℕ
close writer_error s = (record s { ring = close_ring s.ring }, first_error s.failure writer_error)
