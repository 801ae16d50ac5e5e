-- ===== src/Gate.antt =====
-- The snapshot gate: internal/replica/gate.go.
pub mod Handoff
use pikawire.Prelude.{Bool, true, false, ◌&&◌, not}
use pikawire.Position.{Position, zero_position, offset_after}

pub data GateState : Type 0 where
  buffering open_state : GateState

-- `h` is the dump anchor and `h_set` tells whether it is known.
pub record GateCtl : Type 0 where
  pub state : GateState
  pub h : Position
  pub h_set : Bool

abbrev pub is_open : GateState → Bool
is_open buffering = false
is_open open_state = true

-- `NewGateCtl`
unfoldable pub new_gate_ctl : GateCtl
new_gate_ctl = record { state = buffering; h = zero_position; h_set = false }

unfoldable pub should_emit_now : GateCtl → Position → Bool
should_emit_now g pos = is_open g.state && offset_after pos g.h

-- `Drop`
unfoldable pub drops : GateCtl → Position → Bool
drops g pos = g.h_set && not (offset_after pos g.h)

unfoldable pub request_open_at : GateCtl → Position → GateCtl
request_open_at g h = record g { h = h; h_set = true }

-- `Release`
unfoldable pub release_gate : GateCtl → GateCtl
release_gate g = record g { state = open_state }
