-- ===== src/Envelope.antt =====
-- The event contract: internal/envelope/envelope.go, `Classify` of internal/envelope/classify.go and
-- internal/event/command_type.go. `strings.ToUpper` and `strings.ToLower` are written out for the
-- letters whose image is an ASCII letter; no comparison here sees the others.
pub mod Json
use pikawire.Prelude.{
  ℕ, ◌+◌, ◌-◌, Bool, true, false, ◌&&◌, ◌||◌, List, [], ◌∷◌, ◌++◌, Bytes, among, codes, leb, ◌==◌,
  if◌then◌else◌,
}

pub data Phase : Type 0 where
  phase_snapshot phase_incremental phase_heartbeat : Phase

pub data Op : Type 0 where
  op_read op_create op_update op_delete op_other op_heartbeat : Op

pub record Source : Type 0 where
  pub id : Bytes
  pub db : Bytes
  pub filenum : ℕ
  pub offset : ℕ
  pub seq : ℕ
  pub exec_time_sec : ℕ

-- `ArgsEncoding` is left out: only `MarshalJSON` would set it, and computes its own.
pub record Event : Type 0 where
  pub schema_version : ℕ
  pub phase : Phase
  pub op : Op
  pub db : Bytes
  pub data_type : Bytes
  pub key : Bytes
  pub command : Bytes
  pub args : List Bytes
  pub heartbeat : Bool
  pub source : Source

abbrev pub schema_version_now : ℕ
schema_version_now = 1

unfoldable pub kafka_key : Event → Bytes
kafka_key e = e.db ++ (b':' ∷ e.key)

abbrev upper_byte : ℕ → ℕ
upper_byte c = if leb b'a' c && leb c b'z' then c - 32 else c

abbrev lower_byte : ℕ → ℕ
lower_byte c = if leb b'A' c && leb c b'Z' then c + 32 else c

-- U+017F and U+0131 have the upper case letters S and I.
unfoldable pub to_upper : Bytes → Bytes
to_upper [] = []
to_upper (c ∷ []) = upper_byte c ∷ []
to_upper (c ∷ d ∷ s) = elim (c == 197 && d == 191) [
  | true ↦ b'S' ∷ to_upper s
  | false ↦ elim (c == 196 && d == 177) [
    | true ↦ b'I' ∷ to_upper s
    | false ↦ upper_byte c ∷ to_upper (d ∷ s)
  ]
]

-- U+0130 and U+212A have the lower case letters i and k.
unfoldable pub to_lower : Bytes → Bytes
to_lower [] = []
to_lower (c ∷ []) = lower_byte c ∷ []
to_lower (c ∷ d ∷ []) = elim (c == 196 && d == 176) [
  | true ↦ b'i' ∷ []
  | false ↦ lower_byte c ∷ to_lower (d ∷ [])
]
to_lower (c ∷ d ∷ e ∷ s) = elim (c == 196 && d == 176) [
  | true ↦ b'i' ∷ to_lower (e ∷ s)
  | false ↦ elim (c == 226 && d == 132 && e == 170) [
    | true ↦ b'k' ∷ to_lower s
    | false ↦ lower_byte c ∷ to_lower (d ∷ e ∷ s)
  ]
]

-- `Classify`
unfoldable pub classify : Bytes → Op
classify command =
    if among (to_upper command)
      (codes "DEL" ∷ codes "UNLINK" ∷ codes "FLUSHDB" ∷ codes "FLUSHALL" ∷ [])
    then op_delete
    else op_update

abbrev string_commands : List Bytes
string_commands =
    codes "set"
    ∷ codes "setex"
    ∷ codes "psetex"
    ∷ codes "setnx"
    ∷ codes "append"
    ∷ codes "incr"
    ∷ codes "decr"
    ∷ codes "mset"
    ∷ codes "msetnx"
    ∷ codes "incrby"
    ∷ codes "decrby"
    ∷ codes "getset"
    ∷ []

abbrev hash_commands : List Bytes
hash_commands =
    codes "hset" ∷ codes "hmset" ∷ codes "hdel" ∷ codes "hincrby" ∷ codes "hincrbyfloat" ∷ []

abbrev list_commands : List Bytes
list_commands =
    codes "lpush"
    ∷ codes "rpush"
    ∷ codes "lpop"
    ∷ codes "rpop"
    ∷ codes "ltrim"
    ∷ codes "lset"
    ∷ codes "linsert"
    ∷ codes "rpoplpush"
    ∷ []

abbrev set_commands : List Bytes
set_commands =
    codes "sadd"
    ∷ codes "srem"
    ∷ codes "spop"
    ∷ codes "sinterstore"
    ∷ codes "sunionstore"
    ∷ codes "sdiffstore"
    ∷ []

abbrev zset_commands : List Bytes
zset_commands =
    codes "zadd"
    ∷ codes "zrem"
    ∷ codes "zincrby"
    ∷ codes "zremrangebyrank"
    ∷ codes "zremrangebyscore"
    ∷ []

-- `CommandDataType`
unfoldable pub command_data_type : Bytes → Bytes
command_data_type cmd =
    let op = to_lower cmd in
    if among op string_commands
    then codes "string"
    else if among op hash_commands
    then codes "hash"
    else if among op list_commands
    then codes "list"
    else if among op set_commands
    then codes "set"
    else if among op zset_commands
    then codes "zset"
    else codes "unknown"
