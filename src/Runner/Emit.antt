-- ===== src/Runner/Emit.antt =====
-- `emitLoop` and `markEmitted`: the sink, the checkpoint and its file.
pub mod Checkpoint
use pikawire.Prelude.{ℕ, ◌+◌, ◌%◌, Bool, true, false, ◌&&◌, not, List, [], ◌∷◌, ◌==◌, if◌then◌else◌}
use pikawire.Position.{Position, is_zero}
use pikawire.Store.{Store, Json, Found, Disk, Fault, set_delivered, flush}
use pikawire.Runner.{Outgoing}

-- The fields of the runner and its store that the emit loop changes.
pub record Emitter (T : Type 0) : Type 0 where
  pub store : Store
  pub disk : Disk T
  pub delivered : Position
  pub has_del : Bool
  pub delivered_cnt : ℕ
  pub sink_failed : Bool

-- `is_async` is `sinkIsAsync`, `accepts` tells whether `Emit` takes an event, and `fault` what goes
-- wrong in the flush at a count.
module _ (json : Json) (is_async : Bool) (part : Found json.Text) (fault : ℕ → Fault)
    (accepts : Outgoing → Bool) where
  -- The delivered position of `markEmitted`.
  unfoldable pub note_delivered : Emitter json.Text → Outgoing → Emitter json.Text
  note_delivered e o =
      if not (is_zero o.pos) && not is_async
      then record e {
        store = set_delivered e.store o.pos.filenum o.pos.offset;
        delivered = o.pos;
        has_del = true;
        delivered_cnt = e.delivered_cnt + 1;
      }
      else record e { delivered_cnt = e.delivered_cnt + 1 }

  unfoldable pub flush_checkpoint : Emitter json.Text → Fault → Emitter json.Text
  flush_checkpoint e f =
      let done = flush json part f e.store e.disk in record e { store = done.0; disk = done.1 }

  -- `markEmitted`
  unfoldable pub mark_emitted : Emitter json.Text → Outgoing → Emitter json.Text
  mark_emitted e o =
      if not o.is_ping && e.delivered_cnt % 200 == 0
      then flush_checkpoint (note_delivered e o) (fault e.delivered_cnt)
      else note_delivered e o

  -- `emitLoop` on the events of the channel, up to the first that the sink refuses.
  unfoldable pub emit_loop : Emitter json.Text → List Outgoing → Emitter json.Text
  emit_loop e [] = e
  emit_loop e (o ∷ os) = elim (accepts o) [
    | true ↦ emit_loop (mark_emitted e o) os
    | false ↦ record e { sink_failed = true }
  ]
