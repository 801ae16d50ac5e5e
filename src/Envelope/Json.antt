-- ===== src/Envelope/Json.antt =====
-- The JSON text of an event: `MarshalJSON`, `EventID`, `jsonEscape` and what they call in
-- internal/envelope/envelope.go, and `DecodeArg` of internal/envelope/classify.go. `unicode/utf8` and `encoding/base64` are
-- parameters.
pub mod Escape
pub mod Reader
use pikawire.Prelude.{
  ℕ, ◌+◌, ◌-◌, ◌/◌, ◌%◌, Bool, true, false, not, ◌&&◌, Option, none, some, List, [], ◌∷◌, ◌++◌,
  Bytes, codes, ltb, ◌==◌, if◌then◌else◌, same,
}
use pikawire.Prelude.Decimal.{format}
use pikawire.Envelope.{
  Event, Source, Phase, phase_snapshot, phase_incremental, phase_heartbeat, Op, op_read, op_create,
  op_update, op_delete, op_other, op_heartbeat, schema_version_now,
}

abbrev pub hex_digit : ℕ → ℕ
hex_digit d = if ltb d 10 then b'0' + d else (b'a' - 10) + d

-- `hex`
unfoldable pub hex : ℕ → Bytes
hex c = hex_digit (c / 16) ∷ hex_digit (c % 16) ∷ []

-- The switch of `jsonEscape`; `none` is `continue`.
unfoldable pub escape_of : ℕ → Option Bytes
escape_of c =
    if c == b'"'
    then some (b'\\' ∷ b'"' ∷ [])
    else if c == b'\\'
    then some (b'\\' ∷ b'\\' ∷ [])
    else if c == b'\n'
    then some (b'\\' ∷ b'n' ∷ [])
    else if c == b'\r'
    then some (b'\\' ∷ b'r' ∷ [])
    else if c == b'\t'
    then some (b'\\' ∷ b't' ∷ [])
    else if ltb c 32
    then some (b'\\' ∷ b'u' ∷ b'0' ∷ b'0' ∷ hex c)
    else none

abbrev or_nil : Option Bytes → Bytes
or_nil none = []
or_nil (some out) = out

-- The loop of `jsonEscape`: `seg` is `s[start:i]`, `out` is `none` while it is nil.
unfoldable pub escape_loop : Bytes → Option Bytes → Bytes → Option Bytes × Bytes
escape_loop [] out seg = (out, seg)
escape_loop (c ∷ s) out seg = elim (escape_of c) [
  | none ↦ escape_loop s out (seg ++ (c ∷ []))
  | some esc ↦ escape_loop s (some (or_nil out ++ (seg ++ esc))) []
]

-- `jsonEscape`
unfoldable pub json_escape : Bytes → Bytes
json_escape s =
    let (out, seg) = escape_loop s none [] in elim out [ none ↦ s | some text ↦ text ++ seg ]

abbrev phase_name : Phase → Bytes
phase_name phase_snapshot = codes "snapshot"
phase_name phase_incremental = codes "incremental"
phase_name phase_heartbeat = codes "heartbeat"

abbrev op_name : Op → Bytes
op_name op_read = codes "r"
op_name op_create = codes "c"
op_name op_update = codes "u"
op_name op_delete = codes "d"
op_name op_other = codes "x"
op_name op_heartbeat = codes "h"

abbrev is_incremental : Phase → Bool
is_incremental phase_incremental = true
is_incremental _ = false

-- `EventID`
unfoldable pub event_id : Event → Bytes
event_id e =
    if is_incremental e.phase
    then codes "inc:"
      ++ (e.source.id
          ++ (b':'
              ∷ (format e.source.filenum
                  ++ (b':' ∷ (format e.source.offset ++ (b':' ∷ format e.source.seq))))))
    else phase_name e.phase
      ++ (b':'
          ∷ (e.source.id
              ++ (b':'
                  ∷ (e.db ++ (b':' ∷ (e.data_type ++ (b':' ∷ (e.key ++ (b':' ∷ e.command)))))))))

-- `utf8.Valid` and `base64.StdEncoding`
pub record Encodings : Type 0 where
  pub valid_utf8 : Bytes → Bool
  pub base64 : Bytes → Bytes
  pub from_base64 : Bytes → Option Bytes

-- `allValidUTF8`
unfoldable pub all_valid_utf8 : Encodings → List Bytes → Bool
all_valid_utf8 enc [] = true
all_valid_utf8 enc (a ∷ args) = if not (enc.valid_utf8 a) then false else all_valid_utf8 enc args

-- `writeRawJSONStr`
unfoldable pub raw_json_str : Bytes → Bytes
raw_json_str val = b'"' ∷ (json_escape val ++ (b'"' ∷ []))

-- `writeJSONStr`
unfoldable pub json_str : Bytes → Bytes → Bytes
json_str key val = b',' ∷ b'"' ∷ (key ++ (b'"' ∷ b':' ∷ raw_json_str val))

-- An element of the arguments.
unfoldable pub json_arg : Encodings → Bool → Bytes → Bytes
json_arg enc utf8 a = if utf8 then raw_json_str a else b'"' ∷ (enc.base64 a ++ (b'"' ∷ []))

-- The loop over the arguments.
unfoldable pub json_args : Encodings → Bool → List Bytes → Bytes
json_args enc utf8 [] = []
json_args enc utf8 (a ∷ []) = json_arg enc utf8 a
json_args enc utf8 (a ∷ b ∷ args) = json_arg enc utf8 a ++ (b',' ∷ json_args enc utf8 (b ∷ args))

unfoldable pub json_source : Source → Bytes
json_source src =
    codes ",\"source\":{\"id\":"
    ++ (raw_json_str src.id
        ++ (codes ",\"db\":"
            ++ (raw_json_str src.db
                ++ (codes ",\"filenum\":"
                    ++ (format src.filenum
                        ++ (codes ",\"offset\":"
                            ++ (format src.offset
                                ++ (codes ",\"seq\":"
                                    ++ (format src.seq
                                        ++ ((if ltb 0 src.exec_time_sec
                                              then codes ",\"exec_time_s\":"
                                                ++ format src.exec_time_sec
                                              else [])
                                            ++ codes "}}"))))))))))

-- `MarshalJSON`
unfoldable pub marshal_json : Encodings → Event → Bytes
marshal_json enc e =
    let utf8 = all_valid_utf8 enc e.args in
    codes "{\"schema_version\":"
    ++ (format schema_version_now
        ++ (json_str (codes "phase") (phase_name e.phase)
            ++ (json_str (codes "op") (op_name e.op)
                ++ (json_str (codes "db") e.db
                    ++ (json_str (codes "data_type") e.data_type
                        ++ (json_str (codes "key") e.key
                            ++ (json_str (codes "command") e.command
                                ++ (codes ",\"args\":["
                                    ++ (json_args enc utf8 e.args
                                        ++ (b']'
                                            ∷ (json_str (codes "args_encoding")
                                                  (if utf8 then codes "utf8" else codes "base64")
                                                ++ (json_str (codes "event_id") (event_id e)
                                                    ++ json_source e.source))))))))))))

-- `DecodeArg`; `none` is an error.
unfoldable pub decode_arg : Encodings → Bytes → Bytes → Option Bytes
decode_arg enc encoding value =
    if not (same encoding (codes "base64")) then some value else enc.from_base64 value
