-- ===== src/Dump.antt =====
-- The dump pass: internal/dbsync/engine.go. The iterator is the list of what its `Next` returns, `emit` and the context
-- are parameters, an error is a number.
pub mod Ordinals
use pikawire.Prelude.{
  ℕ, zero, suc, ◌+◌, Bool, true, false, not, Option, none, some, List, [], ◌∷◌, ◌++◌, Bytes, codes,
  among, if◌then◌else◌, Result, ok, err, panic,
}
use pikawire.Position.{Position}
use pikawire.Envelope.{Event, Op, op_update, op_read, phase_snapshot, schema_version_now, to_upper}
use pikawire.Resp.{parse_array}

-- `Record`
pub record DumpRecord : Type 0 where
  pub data_type : Bytes
  pub key : Bytes
  pub raw_resp : Bytes

-- What `Next` returns before the end.
pub data Reading : Type 0 where
  read_error : ℕ → Reading
  a_record : DumpRecord → Reading

pub record EngineConfig : Type 0 where
  pub db_name : Bytes
  pub source_id : Bytes
  pub now : ℕ → ℕ

-- `opForCommand`
unfoldable pub op_for_command : Bytes → Op
op_for_command cmd =
    if among (to_upper cmd) (codes "EXPIRE" ∷ codes "PEXPIRE" ∷ []) then op_update else op_read

-- The event of a record, behind `n` others.
unfoldable pub dump_event : EngineConfig → Position → ℕ → DumpRecord → Bytes → List Bytes → Event
dump_event cfg pos n rec cmd argv = record {
  schema_version = schema_version_now;
  phase = phase_snapshot;
  op = op_for_command cmd;
  db = cfg.db_name;
  data_type = rec.data_type;
  key = rec.key;
  command = cmd;
  args = argv;
  heartbeat = false;
  source = record {
    id = cfg.source_id;
    db = cfg.db_name;
    filenum = pos.filenum;
    offset = pos.offset;
    seq = n + 1;
    exec_time_sec = cfg.now n;
  };
}

-- How `Emit` ends.
pub data Outcome : Type 0 where
  finished : Outcome
  cancelled : ℕ → Outcome
  unreadable : ℕ → Outcome
  malformed : Bytes → Outcome
  refused : ℕ → Outcome
  crashed : Outcome

-- The result of `Emit`: the count, the end, and the events that `emit` took.
pub record Pass : Type 0 where
  pub count : ℕ
  pub outcome : Outcome
  pub events : List Event

module _ (cfg : EngineConfig) (pos : Position) (max_cap : ℕ) (cancel : ℕ → Option ℕ)
    (emit : Event → Option ℕ) where
  abbrev stop : ℕ → List Event → Outcome → Pass
  stop n events outcome = record { count = n; outcome = outcome; events = events }

  -- The loop of `Emit`, behind `n` events.
  unfoldable pub emit_loop : List Reading → ℕ → List Event → Pass
  emit_loop [] n events = elim (cancel n) [
    | some e ↦ stop n events (cancelled e)
    | none ↦ stop n events finished
  ]
  emit_loop (read_error x ∷ reads) n events = elim (cancel n) [
    | some e ↦ stop n events (cancelled e)
    | none ↦ stop n events (unreadable x)
  ]
  emit_loop (a_record rec ∷ reads) n events = elim (cancel n) [
    | some e ↦ stop n events (cancelled e)
    | none ↦ elim (parse_array max_cap rec.raw_resp) [
      | err e ↦ stop n events (malformed rec.key)
      | panic ↦ stop n events crashed
      | ok [] ↦ stop n events (malformed rec.key)
      | ok (cmd ∷ argv) ↦
          let ev = dump_event cfg pos n rec cmd (cmd ∷ argv) in
          elim (emit ev) [
            | some e ↦ stop n events (refused e)
            | none ↦ emit_loop reads (suc n) (events ++ (ev ∷ []))
          ]
    ]
  ]

  -- `Emit`
  unfoldable pub emit_dump : List Reading → Pass
  emit_dump reads = emit_loop reads 0 []
