-- ===== src/Gate/Handoff.antt =====
-- What the gate decides about an entry before, at and after the handoff.
use pikawire.Prelude.{◌≡◌, false, ◌&&◌, not, arith}
use pikawire.Position.{Position, after, offset_after}
use pikawire.Gate.{GateCtl, new_gate_ctl, should_emit_now, drops, request_open_at, release_gate}

-- A fresh gate neither drops nor emits any entry, so everything is buffered. Once the anchor `h` is
-- set on a buffering gate, an entry is dropped exactly when it is not after `h`, and still nothing is
-- emitted directly. Behind the release an entry is emitted exactly when it is after `h`, and dropped
-- exactly when it is not: no entry is treated as both or as neither.
pub handoff :
    (h pos : Position)
    → let set = request_open_at new_gate_ctl h in
      ((drops new_gate_ctl pos ≡ false) × (should_emit_now new_gate_ctl pos ≡ false))
      × ((drops set pos ≡ not (after pos h)) × (should_emit_now set pos ≡ false))
      × ((drops (release_gate set) pos ≡ not (after pos h))
          × (should_emit_now (release_gate set) pos ≡ after pos h))
unfolding drops should_emit_now request_open_at new_gate_ctl release_gate after offset_after
handoff h pos = ground arith

-- Whatever calls led to a gate, it never both drops and emits an entry.
drops-excludes-emit :
    (g : GateCtl) (pos : Position) → (drops g pos && should_emit_now g pos) ≡ false
unfolding drops should_emit_now
drops-excludes-emit g pos = ground arith
