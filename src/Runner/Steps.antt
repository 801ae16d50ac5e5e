-- ===== src/Runner/Steps.antt =====
-- The runs of a session with a gate, as sequences of steps of the receiver, the flusher and the dump.
use pikawire.Prelude.{◌≡◌, true, false, some, List, [], ◌∷◌, ◌++◌, Bytes, ok, err, panic}
use pikawire.Position.{Position, after}
use pikawire.Envelope.{Event, phase_snapshot, phase_incremental, phase_heartbeat}
use pikawire.Gate.{GateCtl, new_gate_ctl}
use pikawire.Binlog.{Item}
use pikawire.DiskBuffer.Record.{BufferRecord}
use pikawire.DiskBuffer.Record.RoundTrip.{IsRecord}
use pikawire.DiskBuffer.Buffer.{Buffer, Os, stored, waits, try_append}
use pikawire.Runner.{
  Outgoing, Config, Skip, read_entry, Command, outgoing, Runner, new_runner, record_of, consume,
  idle, appending, sending, append_round_done, send, request_anchor, inject, test_backlog,
  fetch_batch, drain_record, flush_record, testing, fetching, flushing,
}

-- The runner of a configuration, with the entries that it has decoded so far, in order. The receiver
-- takes its next message only when it is idle, the anchor is set once and before `Release`, the
-- dump injects snapshot events at any time, and a fresh directory holds no segments. A call that
-- fails ends the session, so that nothing follows it.
pub data Reach (cfg : Config) : Runner → List BufferRecord → Type 0 where
  start : Reach cfg (new_runner (some new_gate_ctl)) []
  receive :
      {r r' : Runner} {rs : List BufferRecord} (raw : Bytes) (pb_off : Position) (item : Item)
      (c : Command)
      → Reach cfg r rs
      → r.receiver ≡ idle
      → read_entry cfg raw ≡ ok (item, c)
      → IsRecord (record_of item pb_off raw)
      → consume cfg (some []) r raw pb_off ≡ ok r'
      → Reach cfg r' (rs ++ (record_of item pb_off raw ∷ []))
  skip :
      {r r' : Runner} {rs : List BufferRecord} (raw : Bytes) (pb_off : Position) (why : Skip)
      → Reach cfg r rs
      → r.receiver ≡ idle
      → read_entry cfg raw ≡ err why
      → consume cfg (some []) r raw pb_off ≡ ok r'
      → Reach cfg r' rs
  append :
      {r : Runner} {rs : List BufferRecord} (os : Os) (b : Buffer) (rec : BufferRecord)
      → Reach cfg r rs
      → r.receiver ≡ appending rec
      → r.buf ≡ some b
      → (try_append os b rec).1 ≡ stored
      → Reach cfg (append_round_done r (try_append os b rec)) rs
  wait :
      {r : Runner} {rs : List BufferRecord} (os : Os) (b : Buffer) (rec : BufferRecord)
      → Reach cfg r rs
      → r.receiver ≡ appending rec
      → r.buf ≡ some b
      → (try_append os b rec).1 ≡ waits
      → Reach cfg (append_round_done r (try_append os b rec)) rs
  put :
      {r : Runner} {rs : List BufferRecord} (o : Outgoing)
      → Reach cfg r rs
      → r.receiver ≡ sending o
      → Reach cfg (send r o) rs
  anchor :
      {r : Runner} {rs : List BufferRecord} (h : Position) (g : GateCtl)
      → Reach cfg r rs
      → r.gate ≡ some g
      → g.h_set ≡ false
      → Reach cfg (request_anchor r h) rs
  image :
      {r : Runner} {rs : List BufferRecord} (ev : Event)
      → Reach cfg r rs
      → ev.phase ≡ phase_snapshot
      → Reach cfg (inject r ev) rs
  test :
      {r : Runner} {rs : List BufferRecord} (g : GateCtl)
      → Reach cfg r rs
      → r.flusher ≡ testing
      → r.gate ≡ some g
      → g.h_set ≡ true
      → Reach cfg (test_backlog r) rs
  fetch :
      {r r' : Runner} {rs : List BufferRecord} (b : Buffer)
      → Reach cfg r rs
      → r.flusher ≡ fetching
      → r.buf ≡ some b
      → fetch_batch r b ≡ ok r'
      → Reach cfg r' rs
  flush :
      {r : Runner} {rs : List BufferRecord} (rec : BufferRecord) (rest : List BufferRecord)
      (out : List Outgoing)
      → Reach cfg r rs
      → r.flusher ≡ flushing (rec ∷ rest)
      → drain_record cfg r.gate rec ≡ ok out
      → Reach cfg (flush_record r rest out) rs

-- The event of an entry, if it decodes.
abbrev pub event_of : Config → BufferRecord → List Outgoing
event_of cfg rec = elim (read_entry cfg rec.raw) [
  | err e ↦ []
  | panic ↦ []
  | ok x ↦ outgoing cfg rec x.1 ∷ []
]

-- The events of the entries behind the position `h`, in order.
abbrev pub wanted : Config → Position → List BufferRecord → List Outgoing
wanted cfg h [] = []
wanted cfg h (rec ∷ rs) = elim (after rec.pb_end h) [
  | true ↦ event_of cfg rec ++ wanted cfg h rs
  | false ↦ wanted cfg h rs
]

-- The entry events of the channel: the images of the dump are left out.
abbrev pub entries : List Outgoing → List Outgoing
entries [] = []
entries (o ∷ os) = elim o.ev.phase [
  | phase_snapshot ↦ entries os
  | phase_incremental ↦ o ∷ entries os
  | phase_heartbeat ↦ o ∷ entries os
]
