-- ===== src/Runner.antt =====
-- The replication runner: `consume`, `Release`, `RequestOpenAt`, `Inject` and `entryEvent` of
-- internal/replica/runner.go. The receiver and the flusher are goroutines: their local state stands
-- beside the state that the mutex guards, and every function here is one step of one of them.
pub mod Steps
pub mod Invariant
pub mod Receive
pub mod Release
pub mod Drain
pub mod Emit
pub mod Order
pub mod Acks
use pikawire.Prelude.{
  ℕ, ◌+◌, ◌-◌, ◌*◌, ◌^◌, Bool, true, false, ◌&&◌, Option, none, some, List, [], ◌∷◌, ◌++◌, Bytes,
  Result, ok, err, panic, ◌==◌, if◌then◌else◌,
}
use pikawire.Position.{Position, zero_position, is_zero}
use pikawire.Envelope.{Event, phase_incremental, classify, command_data_type, schema_version_now}
use pikawire.Gate.{GateCtl, drops, should_emit_now, request_open_at, release_gate}
use pikawire.Resp.{parse_array}
use pikawire.Binlog.{Item, decode_type_first}
use pikawire.DiskBuffer.Record.{BufferRecord, BufferError}
use pikawire.DiskBuffer.Buffer.{
  Buffer, Attempt, stored, failed, waits, new_disk_buffer, try_append, Batch, next, nothing_pending,
}

-- `envelopeOrErr`
pub record Outgoing : Type 0 where
  pub ev : Event
  pub pos : Position
  pub is_ping : Bool

-- The parts of `Config` that the entries depend on. `max_cap` is the largest slice that the runtime
-- can allocate.
pub record Config : Type 0 where
  pub db_name : Bytes
  pub source_id : Bytes
  pub high : ℕ
  pub reserve : ℕ
  pub durable : Bool
  pub max_cap : ℕ

-- Why an entry is skipped with a warning.
pub data Skip : Type 0 where
  undecodable unparseable : Skip

-- The command of an entry, its first argument or the empty string, and all of it.
pub record Command : Type 0 where
  pub cmd : Bytes
  pub key : Bytes
  pub argv : List Bytes

unfoldable pub command_of : List Bytes → Result Skip Command
command_of [] = err unparseable
command_of (cmd ∷ []) = ok (record { cmd = cmd; key = []; argv = cmd ∷ [] })
command_of (cmd ∷ key ∷ args) = ok (record { cmd = cmd; key = key; argv = cmd ∷ key ∷ args })

-- The decoding of an entry, the same in `consume` and in `Release`.
unfoldable pub read_entry : Config → Bytes → Result Skip (Item × Command)
read_entry cfg raw = elim (decode_type_first raw) [
  | err e ↦ err undecodable
  | panic ↦ panic
  | ok item ↦ elim (parse_array cfg.max_cap item.content) [
    | err e ↦ err unparseable
    | panic ↦ panic
    | ok argv ↦ elim (command_of argv) [ err e ↦ err e | panic ↦ panic | ok c ↦ ok (item, c) ]
  ]
]

-- `entryEvent`, with the data type that its callers compute.
unfoldable pub entry_event : Config → Position → ℕ → Command → Event
entry_event cfg item_pos exec_sec c = record {
  schema_version = schema_version_now;
  phase = phase_incremental;
  op = classify c.cmd;
  db = cfg.db_name;
  data_type = command_data_type c.cmd;
  key = c.key;
  command = c.cmd;
  args = c.argv;
  heartbeat = false;
  source = record {
    id = cfg.source_id;
    db = cfg.db_name;
    filenum = item_pos.filenum;
    offset = item_pos.offset;
    seq = 0;
    exec_time_sec = exec_sec;
  };
}

-- What the receiver is doing between two messages: waiting, in a call of `append`, or in a send on
-- `emitCh`.
pub data Receiver : Type 0 where
  idle : Receiver
  appending : BufferRecord → Receiver
  sending : Outgoing → Receiver

-- Where `Release` stands: in front of its test, in front of `next`, in its loop over a batch, or
-- behind its return.
pub data Flusher : Type 0 where
  testing : Flusher
  fetching : Flusher
  flushing : List BufferRecord → Flusher
  released : Flusher

-- `emit_ch` has every event that was put in the channel, in order.
pub record Runner : Type 0 where
  pub gate : Option GateCtl
  pub buf : Option Buffer
  pub inflight : ℕ
  pub last_pos : Position
  pub has_pos : Bool
  pub accepted : ℕ
  pub first_unacked : Position
  pub emit_ch : List Outgoing
  pub receiver : Receiver
  pub flusher : Flusher

-- `NewRunner`, and the gate that `AttachGate` sets.
unfoldable pub new_runner : Option GateCtl → Runner
new_runner g = record {
  gate = g;
  buf = none;
  inflight = 0;
  last_pos = zero_position;
  has_pos = false;
  accepted = 0;
  first_unacked = zero_position;
  emit_ch = [];
  receiver = idle;
  flusher = testing;
}

-- The limits of `newBufferLocked`, and the buffer of a directory that holds `files`.
unfoldable pub new_buffer : Config → Option (List Bytes) → Result BufferError Buffer
new_buffer cfg files =
    let high = if cfg.high == 0 then 8 * 2 ^ 30 else cfg.high in
    let reserve = if cfg.reserve == 0 then 4 * 2 ^ 30 else cfg.reserve in
    new_disk_buffer (64 * 2 ^ 20) high reserve cfg.durable cfg.durable files

-- The three actions of `consume`.
pub data Action : Type 0 where
  drop_entry emit_entry buffer_entry : Action

unfoldable pub action : Option GateCtl → Position → Action
action none pos = emit_entry
action (some g) pos =
    if drops g pos then drop_entry else if should_emit_now g pos then emit_entry else buffer_entry

-- The record of an entry: its `pos` is the PB-level end, or the start where that is missing.
unfoldable pub record_of : Item → Position → Bytes → BufferRecord
record_of item pb_off raw =
    let item_pos : Position = record { filenum = item.filenum; offset = item.offset } in
    record {
      pb_end = if is_zero pb_off then item_pos else pb_off;
      item_pos = item_pos;
      exec_time = item.exec_time;
      raw = raw;
    }

-- The fields that `consume` sets for every entry that it decoded.
unfoldable pub note_entry : Runner → Position → Runner
note_entry r pos = record r {
  last_pos = pos;
  has_pos = true;
  accepted = r.accepted + 1;
  first_unacked = if is_zero r.first_unacked then pos else r.first_unacked;
}

-- The slot that `consume` claims for an append; the buffer is made on first use.
unfoldable pub claim_slot :
    Config → Option (List Bytes) → Runner → BufferRecord → Result BufferError Runner
claim_slot cfg files r rec = elim r.buf [
  | some b ↦ ok (record r { inflight = r.inflight + 1; receiver = appending rec })
  | none ↦ elim (new_buffer cfg files) [
    | ok b ↦ ok (record r { buf = some b; inflight = r.inflight + 1; receiver = appending rec })
    | err e ↦ err e
    | panic ↦ panic
  ]
]

unfoldable pub outgoing : Config → BufferRecord → Command → Outgoing
outgoing cfg rec c = record {
  ev = entry_event cfg rec.item_pos rec.exec_time c;
  pos = rec.pb_end;
  is_ping = false;
}

-- `consume` behind the decoding, up to the end of its locked part.
unfoldable pub take_entry :
    Config → Option (List Bytes) → Runner → BufferRecord → Command → Result BufferError Runner
take_entry cfg files r rec c =
    let noted = note_entry r rec.pb_end in
    elim (action r.gate rec.pb_end) [
      | drop_entry ↦ ok noted
      | emit_entry ↦ ok (record noted { receiver = sending (outgoing cfg rec c) })
      | buffer_entry ↦ claim_slot cfg files noted rec
    ]

-- `consume`, up to the end of its locked part: what is skipped changes nothing.
unfoldable pub consume :
    Config → Option (List Bytes) → Runner → Bytes → Position → Result BufferError Runner
consume cfg files r [] pb_off = ok r
consume cfg files r (byte ∷ rest) pb_off = elim (read_entry cfg (byte ∷ rest)) [
  | err e ↦ ok r
  | panic ↦ panic
  | ok x ↦ take_entry cfg files r (record_of x.0 pb_off (byte ∷ rest)) x.1
]

-- A round of the `append` that the receiver is in: a record that is stored gives its slot back.
unfoldable pub append_round_done : Runner → Buffer × Attempt → Runner
append_round_done r (b, stored) = record r {
  buf = some b;
  inflight = r.inflight - 1;
  receiver = idle;
}
append_round_done r (b, failed e) = record r {
  buf = some b;
  inflight = r.inflight - 1;
  receiver = idle;
}
append_round_done r (b, waits) = record r { buf = some b }

-- The send of `consume` goes through.
unfoldable pub send : Runner → Outgoing → Runner
send r o = record r { emit_ch = r.emit_ch ++ (o ∷ []); receiver = idle }

-- `RequestOpenAt`
unfoldable pub request_anchor : Runner → Position → Runner
request_anchor r h = elim r.gate [
  | none ↦ r
  | some g ↦ record r { gate = some (request_open_at g h) }
]

-- `Inject`
unfoldable pub inject : Runner → Event → Runner
inject r ev = record r {
  emit_ch = r.emit_ch ++ (record { ev = ev; pos = zero_position; is_ping = false } ∷ []);
}

-- `cnt <= 0`; there is no backlog without a buffer.
unfoldable pub backlog_empty : Option Buffer → Bool
backlog_empty none = true
backlog_empty (some b) = nothing_pending b

unfoldable pub open_gate : Option GateCtl → Option GateCtl
open_gate none = none
open_gate (some g) = some (release_gate g)

-- The test at the head of the loop of `Release`. Nothing uses the buffer once the gate is open, so
-- that `discard` and the assignment of nil belong to this step.
unfoldable pub test_backlog : Runner → Runner
test_backlog r =
    if backlog_empty r.buf && r.inflight == 0
    then record r { gate = open_gate r.gate; buf = none; flusher = released }
    else elim r.buf [ none ↦ r | some b ↦ record r { flusher = fetching } ]

-- `buf.next(256)` in `Release`; an empty batch goes back to the test, and an error ends `Release`.
unfoldable pub fetch_batch : Runner → Buffer → Result BufferError Runner
fetch_batch r b =
    let batch = next 256 b in
    elim batch.problem [
      | some e ↦ err e
      | none ↦ elim batch.records [
        | [] ↦ ok (record r { buf = some batch.buffer; flusher = testing })
        | x ∷ xs ↦ ok (record r { buf = some batch.buffer; flusher = flushing (x ∷ xs) })
      ]
    ]

unfoldable pub drops_at : Option GateCtl → Position → Bool
drops_at none pos = false
drops_at (some g) pos = drops g pos

-- What `Release` puts in the channel for one record of a batch, if anything.
unfoldable pub drain_record : Config → Option GateCtl → BufferRecord → Result Skip (List Outgoing)
drain_record cfg gate rec =
    if drops_at gate rec.pb_end then ok [] else elim (read_entry cfg rec.raw) [
      | err e ↦ ok []
      | panic ↦ panic
      | ok x ↦ ok (outgoing cfg rec x.1 ∷ [])
    ]

-- One round of the loop over the batch; at its end `Release` tests again.
unfoldable pub flush_record : Runner → List BufferRecord → List Outgoing → Runner
flush_record r rest out = record r {
  emit_ch = r.emit_ch ++ out;
  flusher = elim rest [ [] ↦ testing | x ∷ xs ↦ flushing (x ∷ xs) ];
}
