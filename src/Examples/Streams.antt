-- ===== src/Examples/Streams.antt =====
-- The Kafka sink, the session, the dump pass, the configuration and the JSON text at concrete inputs.
use pikawire.Prelude.{
  Result, refl, same, ℕ, ◌≡◌, ◌⊎◌, true, false, Option, none, some, List, [], ◌∷◌, ◌++◌, Bytes,
  codes, length, ok, arith,
}
use pikawire.Position.{Position, zero_position, is_zero}
use pikawire.Envelope.{Event}
use pikawire.Envelope.Json.{json_escape}
use pikawire.Envelope.Json.Escape.{read_string-json_escape}
use pikawire.Envelope.Json.Reader.{lead, valid_from, valid_utf8, plain, read_string}
use pikawire.Kafka.Producer.{
  Message, KafkaItem, KafkaSink, fresh_sink, new_kafka_sink, enqueue, set_at, flush, work, receive,
}
use pikawire.Kafka.Producer.Order.{
  of_queue, Run, begins, enqueues, works, times_out, Subsequence, Run-InOrder,
}
use pikawire.Dump.{Reading, a_record, EngineConfig, finished, emit_dump}
use pikawire.Dump.Ordinals.{Numbered, emit_dump-Numbered}
use pikawire.Runner.{new_runner}
use pikawire.Runner.Acks.{SyncReply, synced, SessionError, establish_loop}
use pikawire.Runner.Acks.Ranges.{
  Move, receives, acks, sent_ranges, expected_ranges, sent_ranges-expected, establish-returns,
}
use pikawire.Settings.{
  Config, sinks, build_sink, load_config, rooted, apply_defaults, validate, check_source,
  check_modes, check_count, check_sections, check_kafka,
}
use pikawire.Settings.Usable.{HasParts, load_config-HasParts}
use pikawire.Sql.Rows.{is_empty}

-- A quote, a control byte, and a code point of each of the other lengths.
abbrev mixed : Bytes
mixed = b'"' ∷ 7 ∷ 195 ∷ 169 ∷ 226 ∷ 130 ∷ 172 ∷ 240 ∷ 159 ∷ 152 ∷ 128 ∷ []

mixed-valid : valid_utf8 mixed ≡ true
unfolding valid_from lead
mixed-valid = refl

read_string-json_escape_example :
    read_string plain (json_escape mixed ++ (b'"' ∷ b'}' ∷ [])) ≡ some (mixed, b'}' ∷ [])
read_string-json_escape_example = read_string-json_escape mixed (b'}' ∷ []) mixed-valid

abbrev item : ℕ → KafkaItem
item ord = record {
  msg = record { partition = 0; key = codes "k"; value = [] };
  ord = ord;
  pos = zero_position;
}

abbrev accepts : List Message → Option ℕ
accepts msgs = none

abbrev no_text : Event → Option Bytes
no_text ev = none

abbrev idle : ℕ → KafkaSink
unfolding fresh_sink
idle workers = fresh_sink 1 workers 5 5

-- Two messages in the queue.
abbrev queued : ℕ → KafkaSink
queued workers = record (idle workers) {
  queues = set_at 0 (item 0 ∷ item 1 ∷ []) (set_at 0 (item 0 ∷ []) (λ i. []));
}

one_worker-made : new_kafka_sink 1 1 5 5 ≡ some (idle 1)
unfolding new_kafka_sink fresh_sink
one_worker-made = refl

-- The first message is received, and its call fails; the second waits.
abbrev refuses : List Message → Option ℕ
refuses msgs = some 7

abbrev one_received : KafkaSink
one_received = record (queued 1) {
  queues = set_at 0 (item 1 ∷ []) (queued 1).queues;
  batches = set_at 0 (set_at 0 (item 0 ∷ []) (λ w. [])) (λ i w. []);
}

abbrev failed_once : KafkaSink
failed_once = flush refuses 0 0 one_received

failed_once-Run : Run no_text 0 refuses (idle 1) ((0, item 0) ∷ (0, item 1) ∷ []) failed_once
unfolding enqueue fresh_sink work receive
failed_once-Run =
    times_out 0 0 (omega arith)
      (works 0 0 (omega arith) refl (enqueues 0 (item 1) refl (enqueues 0 (item 0) refl begins)))

Run-InOrder_example :
    let s = failed_once in
    (of_queue 0 s.attempted ++ (s.batches 0 0 ++ s.queues 0)
      ≡ of_queue 0 ((0, item 0) ∷ (0, item 1) ∷ []))
    × Subsequence s.written s.attempted
    × (((e : ℕ) × (s.failure ≡ some e)) ⊎ (s.written ≡ s.attempted))
Run-InOrder_example =
    Run-InOrder no_text 0 refuses 1 5 5 (idle 1) failed_once ((0, item 0) ∷ (0, item 1) ∷ []) 0
      one_worker-made failed_once-Run

abbrev engine : EngineConfig
engine = record { db_name = codes "db0"; source_id = codes "m:1"; now = λ n. 0 }

abbrev anchor : Position
anchor = record { filenum = 3; offset = 100 }

abbrev readings : List Reading
readings =
    a_record (record {
      data_type = codes "string";
      key = codes "k";
      raw_resp = codes "*1\r\n$4\r\nPING\r\n";
    })
    ∷ []

emit_dump-Numbered_example :
    let p = emit_dump engine anchor 1000 (λ n. none) (λ ev. none) readings in
    (length p.events ≡ p.count)
    × (Numbered anchor 0 p.events × (p.outcome ≡ finished → p.count ≡ 1))
emit_dump-Numbered_example = emit_dump-Numbered engine anchor 1000 (λ n. none) (λ ev. none) readings

abbrev settings : Config
settings = record {
  source = record { host = codes "m"; port = 9221; db = []; local_ip = [] };
  kafka = some (record { brokers = codes "b" ∷ []; topic = codes "t" });
  file = none;
  pipeline = none;
  checkpoint = [];
  ack_every = 0;
  dump_root = [];
  snapshot_bgsave = [];
  buffer_dir = [];
  buffer_fsync = [];
}

abbrev beside : Bytes → Bytes
beside checkpoint = codes "pikawire-buffer"

abbrev complete : Config
complete = record settings {
  source = record { host = codes "m"; port = 9221; db = codes "db0"; local_ip = codes "m" };
  checkpoint = codes "pikawire.checkpoint.json";
  ack_every = 1000000000;
  dump_root = codes "pikawire-dump";
  snapshot_bgsave = codes "auto";
  buffer_dir = codes "pikawire-buffer";
  buffer_fsync = codes "none";
}

settings_accepted : load_config beside true settings ≡ ok complete
unfolding load_config validate check_source apply_defaults check_modes same check_count sinks
    check_sections check_kafka rooted
settings_accepted = refl

load_config-HasParts_example :
    (is_empty complete.source.host ≡ false)
    × ((is_empty complete.checkpoint ≡ false)
        × ((is_empty complete.dump_root ≡ false)
            × ((sinks complete ≡ 1) × HasParts (build_sink complete))))
load_config-HasParts_example = load_config-HasParts beside true settings complete settings_accepted

abbrev session_moves : List Move
session_moves =
    receives (record { filenum = 3; offset = 100 })
    ∷ receives (record { filenum = 3; offset = 155 })
    ∷ acks false
    ∷ acks true
    ∷ acks true
    ∷ []

fresh_runner-unacked : is_zero (new_runner none).first_unacked ≡ true
unfolding new_runner is_zero
fresh_runner-unacked = refl

sent_ranges-expected_example :
    sent_ranges session_moves (new_runner none) ≡ expected_ranges session_moves []
sent_ranges-expected_example =
    sent_ranges-expected session_moves [] (new_runner none) fresh_runner-unacked

abbrev master_at : Position → ℕ → Position → SyncReply
master_at tip attempt start = synced false tip

establish-returns_example :
    (res : Result SessionError Position) × (establish_loop 2
        (master_at anchor)
        false
        0
        zero_position
      ≡ some res)
    × (false ≡ true → (p : Position) → res ≡ ok p → p ≡ zero_position)
establish-returns_example = establish-returns 0 (master_at anchor) false zero_position
