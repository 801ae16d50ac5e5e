-- ===== src/Settings.antt =====
-- The configuration: internal/app/config.go. YAML decoding is not modelled; a missing section is `none`. `filepath` and
-- `dbsync.ReaderAvailable` are parameters, a duration is a number.
pub mod Usable
use pikawire.Prelude.{
  ℕ, ◌+◌, Bool, true, false, not, ◌&&◌, ◌||◌, Option, none, some, List, [], ◌∷◌, ◌++◌, Bytes, codes,
  same, ◌==◌, ltb, if◌then◌else◌, Result, ok, err, panic, ◌>>=◌, ◌>>◌, refuse,
}
use pikawire.Prelude.Decimal.{format}
use pikawire.Sql.Rows.{RuleConfig, is_empty}

pub record SourceConfig : Type 0 where
  pub host : Bytes
  pub port : ℕ
  pub db : Bytes
  pub local_ip : Bytes

pub record KafkaSinkConfig : Type 0 where
  pub brokers : List Bytes
  pub topic : Bytes

pub record FileSinkConfig : Type 0 where
  pub path : Bytes

pub record PipelineConfig : Type 0 where
  pub driver : Bytes
  pub dsn : Bytes
  pub fenodes : List Bytes
  pub rules : List RuleConfig

-- `Config`, as far as the defaults and the validation read it.
pub record Config : Type 0 where
  pub source : SourceConfig
  pub kafka : Option KafkaSinkConfig
  pub file : Option FileSinkConfig
  pub pipeline : Option PipelineConfig
  pub checkpoint : Bytes
  pub ack_every : ℕ
  pub dump_root : Bytes
  pub snapshot_bgsave : Bytes
  pub buffer_dir : Bytes
  pub buffer_fsync : Bytes

abbrev default_to : Bytes → Bytes → Bytes
default_to d s = if is_empty s then d else s

-- `applyDefaults`; `buffer_in` is the buffer's directory beside a checkpoint file.
unfoldable pub apply_defaults : (Bytes → Bytes) → Config → Config
apply_defaults buffer_in c =
    let checkpoint = default_to (codes "pikawire.checkpoint.json") c.checkpoint in
    record c {
      source = record c.source {
        db = default_to (codes "db0") c.source.db;
        local_ip = default_to c.source.host c.source.local_ip;
      };
      checkpoint = checkpoint;
      ack_every = if c.ack_every == 0 then 1000000000 else c.ack_every;
      buffer_dir = default_to (buffer_in checkpoint) c.buffer_dir;
      buffer_fsync = default_to (codes "none") c.buffer_fsync;
      snapshot_bgsave = default_to (codes "auto") c.snapshot_bgsave;
    }

pub data ConfigError : Type 0 where
  host_port_required bad_snapshot_bgsave bad_buffer_fsync no_reader sink_required one_sink
        driver_rules_required fenodes_required dsn_required brokers_topic_required path_required :
      ConfigError

abbrev pub count_of {ℓ} : {A : Type ℓ} → Option A → ℕ
count_of none = 0
count_of (some x) = 1

unfoldable pub sinks : Config → ℕ
sinks c = count_of c.kafka + count_of c.file + count_of c.pipeline

-- The checks of a pipeline.
unfoldable pub check_pipeline : PipelineConfig → Result ConfigError (Unit {0})
check_pipeline p =
    refuse (is_empty p.driver || is_empty p.rules) driver_rules_required
    >> (if same p.driver (codes "doris")
        then refuse (is_empty p.fenodes) fenodes_required
        else refuse (is_empty p.dsn) dsn_required)

abbrev pub check {ℓ} :
    {A : Type ℓ} → (A → Result ConfigError (Unit {0})) → Option A → Result ConfigError (Unit {0})
check f none = ok tt
check f (some x) = f x

unfoldable pub check_kafka : KafkaSinkConfig → Result ConfigError (Unit {0})
check_kafka k = refuse (is_empty k.brokers || is_empty k.topic) brokers_topic_required

unfoldable pub check_file : FileSinkConfig → Result ConfigError (Unit {0})
check_file f = refuse (is_empty f.path) path_required

-- The checks of `validate`, in their order.
unfoldable pub check_source : Config → Result ConfigError (Unit {0})
check_source c = refuse (is_empty c.source.host || c.source.port == 0) host_port_required

unfoldable pub check_modes : Config → Result ConfigError (Unit {0})
check_modes c =
    refuse (not (same c.snapshot_bgsave (codes "auto") || same c.snapshot_bgsave (codes "force")))
      bad_snapshot_bgsave
    >> refuse (not (same c.buffer_fsync (codes "none") || same c.buffer_fsync (codes "durable")))
        bad_buffer_fsync

unfoldable pub check_count : Config → Result ConfigError (Unit {0})
check_count c = refuse (sinks c == 0) sink_required >> refuse (ltb 1 (sinks c)) one_sink

unfoldable pub check_sections : Config → Result ConfigError (Unit {0})
check_sections c =
    check check_pipeline c.pipeline >> (check check_kafka c.kafka >> check check_file c.file)

unfoldable pub rooted : Config → Config
rooted c = record c { dump_root = default_to (codes "pikawire-dump") c.dump_root }

-- `validate`, with the configuration it leaves.
unfoldable pub validate : Bool → Config → Result ConfigError Config
validate reader_available c =
    check_source c
    >> (check_modes c
        >> (refuse (not reader_available) no_reader
            >> (check_count c >> (check_sections c >> ok (rooted c)))))

-- The rest of `LoadConfig`, behind the decoding.
unfoldable pub load_config : (Bytes → Bytes) → Bool → Config → Result ConfigError Config
load_config buffer_in reader_available c = validate reader_available (apply_defaults buffer_in c)

-- `SourceID`
unfoldable pub source_id : Config → Bytes
source_id c = c.source.host ++ (b':' ∷ format c.source.port)

-- What `buildSink` of internal/app/run.go builds.
pub data SinkKind : Type 0 where
  a_doris_sink a_sql_sink : PipelineConfig → SinkKind
  a_kafka_sink : KafkaSinkConfig → SinkKind
  a_file_sink : FileSinkConfig → SinkKind

-- `buildSink`; `none` is the nil dereference without any section.
unfoldable pub build_sink : Config → Option SinkKind
build_sink c = elim c.pipeline [
  | some p ↦ some (if same p.driver (codes "doris") then a_doris_sink p else a_sql_sink p)
  | none ↦ elim c.kafka [
    | some k ↦ some (a_kafka_sink k)
    | none ↦ elim c.file [ some f ↦ some (a_file_sink f) | none ↦ none ]
  ]
]
