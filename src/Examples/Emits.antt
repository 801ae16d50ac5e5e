-- ===== src/Examples/Emits.antt =====
-- The emit loop at a concrete input: the sink takes the first of two events and refuses the second.
use pikawire.Prelude.{ℕ, ◌≡◌, ◌⊎◌, Bool, false, some, List, [], ◌∷◌, ◌==◌, if◌then◌else◌}
use pikawire.Position.{zero_position}
use pikawire.Envelope.{Event, phase_incremental, op_update}
use pikawire.Store.{State, Json, missing, initial_state, rename_fault, no_fault, Fault}
use pikawire.Runner.{Outgoing}
use pikawire.Runner.Emit.{Emitter, emit_loop}
use pikawire.Runner.Emit.Checkpoint.{accepted, reached, Reflects, emit_loop_checkpoint}

abbrev event : ℕ → Event
event offset = record {
  schema_version = 1;
  phase = phase_incremental;
  op = op_update;
  db = [];
  data_type = [];
  key = [];
  command = [];
  args = [];
  heartbeat = false;
  source = record { id = []; db = []; filenum = 3; offset = offset; seq = 0; exec_time_sec = 0 };
}

abbrev message : ℕ → Outgoing
message offset = record {
  ev = event offset;
  pos = record { filenum = 3; offset = offset };
  is_ping = false;
}

abbrev messages : List Outgoing
messages = message 100 ∷ message 155 ∷ []

abbrev takes_first : Outgoing → Bool
takes_first o = o.pos.offset == 100

abbrev as_is : Json
as_is = record { Text = State; marshal = λ s. some s; unmarshal = λ i s. some s }

abbrev first_fault : ℕ → Fault
first_fault n = if n == 0 then no_fault else rename_fault

abbrev emitter : Emitter State
emitter = record {
  store = record { state = initial_state []; dirty = false };
  disk = record { main = missing; tmp = missing };
  delivered = zero_position;
  has_del = false;
  delivered_cnt = 0;
  sink_failed = false;
}

emit_loop_checkpoint_example :
    let t = emit_loop as_is false missing first_fault takes_first emitter messages in
    (t.store.state ≡ reached emitter.store (accepted takes_first messages))
    × ((t.disk.main ≡ missing)
        ⊎ Reflects as_is emitter.store (accepted takes_first messages) t.disk.main)
emit_loop_checkpoint_example =
    emit_loop_checkpoint as_is missing first_fault takes_first messages emitter
