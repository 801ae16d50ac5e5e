-- ===== src/Runner/Invariant.antt =====
-- The invariant of the handoff: where every entry that was received stands.
use pikawire.Prelude.{
  ◌≡◌, refl, sym, ap, ◌∙◌, Bool, true, false, Option, none, some, List, [], ◌∷◌, ◌++◌, append_assoc,
  append-nil, length, All, Result, ok, err, panic, arith,
}
use pikawire.Position.{Position, after, offset_after}
use pikawire.Envelope.{Phase, phase_snapshot, phase_incremental, phase_heartbeat}
use pikawire.Gate.{GateCtl, buffering, open_state, drops, should_emit_now}
use pikawire.DiskBuffer.Record.{BufferRecord}
use pikawire.DiskBuffer.Record.RoundTrip.{IsRecord}
use pikawire.DiskBuffer.Buffer.{Buffer}
use pikawire.DiskBuffer.Buffer.View.{Holds}
use pikawire.Binlog.{Item}
use pikawire.Runner.{
  Outgoing, Config, Command, Skip, read_entry, outgoing, entry_event, Runner, Receiver, idle,
  appending, sending, Flusher, testing, fetching, flushing, released, action, drop_entry,
  emit_entry, buffer_entry,
}
use pikawire.Runner.Steps.{event_of, wanted, entries}

-- The record that the receiver is appending, the event that it is sending, and the records of the
-- batch that the flusher has fetched.
abbrev pub pend : Receiver → List BufferRecord
pend idle = []
pend (appending rec) = rec ∷ []
pend (sending o) = []

abbrev pub in_send : Receiver → List Outgoing
in_send idle = []
in_send (appending rec) = []
in_send (sending o) = o ∷ []

abbrev pub batch : Flusher → List BufferRecord
batch testing = []
batch fetching = []
batch (flushing rs) = rs
batch released = []

abbrev pub Backlog : Option Buffer → List BufferRecord → Type 0
Backlog none q = q ≡ []
Backlog (some b) q = Holds 0 b q

-- The three stages of a session, for the queue of the buffer, the channel, and the two goroutines:
-- everything is buffered; the flusher is the only one to send; the receiver is.
pub data Stage (cfg : Config) (g : GateCtl) (q : List BufferRecord) (ch : List Outgoing)
    (rc : Receiver) (fl : Flusher) (rs : List BufferRecord) : Type 0 where
  unanchored :
      g.state ≡ buffering
      → g.h_set ≡ false
      → entries ch ≡ []
      → rs ≡ q ++ pend rc
      → fl ≡ testing
      → in_send rc ≡ []
      → Stage cfg g q ch rc fl rs
  draining :
      g.state ≡ buffering
      → g.h_set ≡ true
      → entries ch ++ wanted cfg g.h (batch fl ++ (q ++ pend rc)) ≡ wanted cfg g.h rs
      → in_send rc ≡ []
      → Stage cfg g q ch rc fl rs
  live :
      g.state ≡ open_state
      → g.h_set ≡ true
      → entries ch ++ in_send rc ≡ wanted cfg g.h rs
      → entries (in_send rc) ≡ in_send rc
      → pend rc ≡ []
      → fl ≡ released
      → Stage cfg g q ch rc fl rs

pub record Inv (cfg : Config) (r : Runner) (rs : List BufferRecord) : Type 0 where
  pub g : GateCtl
  pub attached : r.gate ≡ some g
  pub slots : r.inflight ≡ length (pend r.receiver)
  pub queue : List BufferRecord
  pub backlog : Backlog r.buf queue
  pub fits : All IsRecord (pend r.receiver)
  pub stage : Stage cfg g queue r.emit_ch r.receiver r.flusher rs

pub entries-append : (a b : List Outgoing) → entries (a ++ b) ≡ entries a ++ entries b
entries-append [] b = refl
entries-append (o ∷ a) b = by_phase o.ev.phase (entries-append a b)
  where
    by_phase :
        (p : Phase)
        → entries (a ++ b) ≡ entries a ++ entries b
        → elim p [
          | phase_snapshot ↦ entries (a ++ b)
          | phase_incremental ↦ o ∷ entries (a ++ b)
          | phase_heartbeat ↦ o ∷ entries (a ++ b)
        ]
          ≡ elim p [
            | phase_snapshot ↦ entries a
            | phase_incremental ↦ o ∷ entries a
            | phase_heartbeat ↦ o ∷ entries a
          ]
            ++ entries b
    by_phase phase_snapshot e = e
    by_phase phase_incremental e = ap (λ l. o ∷ l) e
    by_phase phase_heartbeat e = ap (λ l. o ∷ l) e

pub wanted-append :
    (cfg : Config) (h : Position) (a b : List BufferRecord)
    → wanted cfg h (a ++ b) ≡ wanted cfg h a ++ wanted cfg h b
wanted-append cfg h [] b = refl
wanted-append cfg h (rec ∷ a) b = by_test (after rec.pb_end h) (wanted-append cfg h a b)
  where
    by_test :
        (t : Bool)
        → wanted cfg h (a ++ b) ≡ wanted cfg h a ++ wanted cfg h b
        → elim t [
          | true ↦ event_of cfg rec ++ wanted cfg h (a ++ b)
          | false ↦ wanted cfg h (a ++ b)
        ]
          ≡ elim t [ true ↦ event_of cfg rec ++ wanted cfg h a | false ↦ wanted cfg h a ]
            ++ wanted cfg h b
    by_test true e =
        ap (λ l. event_of cfg rec ++ l) e
        ∙ sym (append_assoc (event_of cfg rec) (wanted cfg h a) (wanted cfg h b))
    by_test false e = e

-- One more entry, behind the anchor or not.
pub wanted_more :
    (cfg : Config) (h : Position) (rs : List BufferRecord) (rec : BufferRecord)
    → after rec.pb_end h ≡ true
    → wanted cfg h (rs ++ (rec ∷ [])) ≡ wanted cfg h rs ++ event_of cfg rec
wanted_more cfg h rs rec later =
    wanted-append cfg h rs (rec ∷ [])
    ∙ ap (λ l. wanted cfg h rs ++ l) (rw (wanted, later) (append-nil (event_of cfg rec)))

pub wanted_same :
    (cfg : Config) (h : Position) (rs : List BufferRecord) (rec : BufferRecord)
    → after rec.pb_end h ≡ false
    → wanted cfg h (rs ++ (rec ∷ [])) ≡ wanted cfg h rs
wanted_same cfg h rs rec early =
    wanted-append cfg h rs (rec ∷ [])
    ∙ ap (λ l. wanted cfg h rs ++ l) (rw (wanted, early) refl)
    ∙ append-nil (wanted cfg h rs)

-- The event that `consume` sends and the one that `Release` rebuilds from the disk are the same.
pub event_of-outgoing :
    (cfg : Config) (rec : BufferRecord) (item : Item) (c : Command)
    → read_entry cfg rec.raw ≡ ok (item, c)
    → event_of cfg rec ≡ outgoing cfg rec c ∷ []
event_of-outgoing cfg rec item c e = by_read (read_entry cfg rec.raw) e
  where
    by_read :
        (d : Result Skip (Item × Command))
        → d ≡ ok (item, c)
        → elim d [ err e ↦ [] | panic ↦ [] | ok x ↦ outgoing cfg rec x.1 ∷ [] ]
          ≡ outgoing cfg rec c ∷ []
    by_read (ok x) e = ground (arith, e)
    by_read (err s) e = absurd (cc)
    by_read panic e = absurd (cc)

pub entries-outgoing :
    (cfg : Config) (rec : BufferRecord) (c : Command)
    → entries (outgoing cfg rec c ∷ []) ≡ outgoing cfg rec c ∷ []
unfolding outgoing entry_event
entries-outgoing cfg rec c = refl

-- What each action of the gate says of the position.
pub action_drop :
    (g : GateCtl) (pos : Position)
    → action (some g) pos ≡ drop_entry
    → (g.h_set ≡ true) × (after pos g.h ≡ false)
unfolding action drops should_emit_now after offset_after
action_drop g pos h = ground arith

pub action_emit :
    (g : GateCtl) (pos : Position)
    → action (some g) pos ≡ emit_entry
    → (g.state ≡ open_state) × (after pos g.h ≡ true)
unfolding action drops should_emit_now after offset_after
action_emit g pos h = ground arith

pub action_buffer :
    (g : GateCtl) (pos : Position)
    → action (some g) pos ≡ buffer_entry
    → (g.h_set ≡ true → (g.state ≡ buffering) × (after pos g.h ≡ true))
unfolding action drops should_emit_now after offset_after
action_buffer g pos h = ground arith
