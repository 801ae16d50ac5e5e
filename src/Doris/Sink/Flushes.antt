-- ===== src/Doris/Sink/Flushes.antt =====
-- A flush with nothing between its steps is one of the orders of the step relation.
use pikawire.Prelude.{
  ℕ, zero, suc, ◌≤◌, Bool, true, false, Option, none, some, List, [], ◌∷◌, Bytes, length, if_both,
  arith,
}
use pikawire.Position.{Position, zero_position}
use pikawire.Sql.Rows.{is_empty}
use pikawire.Sql.Batches.{PendingRow}
use pikawire.Doris.Load.{Request, Reply, LoadError}
use pikawire.Doris.Sink.{
  Sink, Entry, load_failed, GroupKey, groups_of, stream_load, set_err, load_all, after_loads,
  load_batch, max_position, flush, take_batch, give_back, give_all,
}
use pikawire.Doris.Sink.Room.{
  Reachable, then_step, takes_batch, gives_back, loads, keeps_error, reports,
}

module _ (http : Request → Reply) (now : ℕ) (notify : Option (Position → Option Bytes)) where
  give_all-Reachable :
      (n : ℕ) (s t : Sink)
      → n ≤ t.giving
      → Reachable http now notify s t
      → Reachable http now notify s (give_all n t)
  unfolding give_all give_back
  give_all-Reachable zero s t below path = path
  give_all-Reachable (suc n) s t below path =
      give_all-Reachable n s (give_back t) (omega (arith, below))
        (then_step path (gives_back (omega (arith, below))))

  load_all-Reachable :
      (groups : List (GroupKey × List PendingRow)) (s t : Sink)
      → Reachable http now notify s t
      → Reachable http now notify s (load_all http now notify groups t).0
  unfolding load_all
  load_all-Reachable [] s t path = path
  load_all-Reachable ((k, rows) ∷ groups) s t path =
      by_err (stream_load http now notify k.table rows t).1
        (load_all-Reachable groups s loaded (then_step path (loads k.table rows)))
    where
      loaded : Sink
      loaded = (stream_load http now notify k.table rows t).0

      by_err :
          (o : Option LoadError)
          → Reachable http now notify s (load_all http now notify groups loaded).0
          → Reachable http now notify s (
              let r : Sink × Bool = elim o [
                | some x ↦ (set_err (load_failed x) loaded, false)
                | none ↦ load_all http now notify groups loaded
              ] in
              r.0)
      by_err none rest = rest
      by_err (some x) rest =
          then_step (then_step path (loads k.table rows)) (keeps_error (load_failed x))

  load_batch-Reachable :
      (batch : List Entry) (s t : Sink)
      → Reachable http now notify s t
      → Reachable http now notify s (load_batch http now notify batch t)
  unfolding load_batch after_loads
  load_batch-Reachable batch s t path =
      by_loads (load_all http now notify (groups_of batch) t)
        (load_all-Reachable (groups_of batch) s t path)
    where
      by_loads :
          (r : Sink × Bool)
          → Reachable http now notify s r.0
          → Reachable http now notify s (after_loads http now notify batch r)
      by_loads (u, true) done = then_step done (reports (max_position batch zero_position))
      by_loads (u, false) done = done

  pub flush-Reachable :
      (s t : Sink)
      → Reachable http now notify s t
      → Reachable http now notify s (flush http now notify t)
  unfolding flush take_batch
  flush-Reachable s t path =
      if_both (Reachable http now notify s) (is_empty t.queue) _ _ (λ _. path)
        (λ _. load_batch-Reachable t.queue s _ (
          give_all-Reachable (length t.queue) s (take_batch t) (omega arith)
            (then_step path takes_batch)))
