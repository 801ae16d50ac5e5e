-- ===== src/Sql/Batches.antt =====
-- The committer of internal/sqlsink/sink.go: `Coalesce`, `flushBatch`, `commit`, `Emit` and `Close`. A
-- completion channel is named by a number. The database is a parameter: a transaction is a function
-- from the rows to be executed to an error or none.
pub mod Collapse
pub mod Keyed
pub mod Keys
pub mod Once
pub mod Store
use pikawire.Prelude.{
  ℕ, zero, suc, ◌+◌, Bool, true, false, not, Option, none, some, List, [], ◌∷◌, ◌++◌, Bytes, map,
  length, join, keys, Dict, lookup, insert, merge, if◌then◌else◌, leb, ◌<◌, Result, ok, err, panic,
}
use pikawire.Envelope.{Event, Phase, phase_heartbeat}
use pikawire.Sql.Order.{sort_strings}
use pikawire.Sql.Rows.{
  Row, RuleConfig, RowError, no_match, JsonReader, row_for_event, value_at, is_empty,
}

pub record PendingRow : Type 0 where
  pub row : Row
  pub done : ℕ

-- `pkKey`
unfoldable pub pk_key : Row → List Bytes
pk_key r = map (value_at r.pk) (sort_strings (keys r.pk))

-- The key under which `Coalesce` files a row.
unfoldable pub row_key : Row → Bytes
row_key r = r.table ++ (0 ∷ join (0 ∷ []) (pk_key r))

-- The columns of two upserts of one row.
unfoldable pub merged : Row → Row → Row
merged old new = record {
  table = new.table;
  pk = new.pk;
  cols = merge (merge [] old.cols) new.cols;
  del = false;
  source = new.source;
}

-- What takes the place of `old` when `p` has its key.
unfoldable pub combine : PendingRow → PendingRow → PendingRow
combine old p =
    if p.row.del
    then p
    else if not old.row.del
    then record { row = merged old.row p.row; done = old.done }
    else p

-- `out[i] = f(out[i])`
unfoldable pub modify {ℓ} : {A : Type ℓ} → ℕ → (A → A) → List A → List A
modify i f [] = []
modify zero f (x ∷ xs) = f x ∷ xs
modify (suc i) f (x ∷ xs) = x ∷ modify i f xs

-- The loop of `Coalesce`.
unfoldable pub coalesce_loop : List PendingRow → Dict ℕ → List PendingRow → List PendingRow
coalesce_loop [] index out = out
coalesce_loop (p ∷ batch) index out = elim (lookup (row_key p.row) index) [
  | some prev ↦ coalesce_loop batch index (modify prev (λ old. combine old p) out)
  | none ↦ coalesce_loop batch (insert (row_key p.row) (length out) index) (out ++ (p ∷ []))
]

-- `Coalesce`
unfoldable pub coalesce : List PendingRow → List PendingRow
coalesce batch = coalesce_loop batch [] []

-- `Sink`: the queue, whether the committer has been woken, and whether the sink is closed. `answers` lists what went
-- into the completion channels, each with the error of its transaction.
pub record Sink : Type 0 where
  pub max_batch_rows : ℕ
  pub queue : List PendingRow
  pub woken : Bool
  pub closed : Bool
  pub next_done : ℕ
  pub answers : List (ℕ × Option Bytes)

pub data EmitError : Type 0 where
  mapping : RowError → EmitError
  sink_closed : EmitError

-- What `Emit` goes on with: nothing, an error, the wait for its channel, or a panic.
pub data Emitted : Type 0 where
  skipped : Emitted
  failed : EmitError → Emitted
  waits_for : ℕ → Emitted
  crashed : Emitted

-- The part of `Emit` under the lock, and the signal.
unfoldable pub enqueue : Row → Sink → Sink × Emitted
enqueue row s = if s.closed then (s, failed sink_closed) else (
  record s {
    queue = s.queue ++ (record { row = row; done = s.next_done } ∷ []);
    next_done = suc s.next_done;
    woken = if leb s.max_batch_rows (length s.queue) then true else s.woken;
  },
  waits_for s.next_done,
)

abbrev pub is_heartbeat : Phase → Bool
is_heartbeat phase_heartbeat = true
is_heartbeat _ = false

-- `Emit`, up to its wait.
unfoldable pub emit : JsonReader → List RuleConfig → Event → Sink → Sink × Emitted
emit json rules ev s =
    if is_heartbeat ev.phase then (s, skipped) else elim (row_for_event json rules ev) [
      | ok row ↦ enqueue row s
      | err no_match ↦ (s, skipped)
      | err e ↦ (s, failed (mapping e))
      | panic ↦ (s, crashed)
    ]

-- `commit`: the rows of the batch in one transaction.
unfoldable pub commit : (List Row → Option Bytes) → List PendingRow → Option Bytes
commit transaction batch = transaction (map (λ p. p.row) batch)

-- `flushBatch`
unfoldable pub flush_batch : (List Row → Option Bytes) → Sink → Sink
flush_batch transaction s =
    if is_empty s.queue
    then s
    else let batch = coalesce s.queue in
      let e = commit transaction batch in
      record s { queue = []; answers = s.answers ++ map (λ p. (p.done, e)) batch }

-- `Close`
unfoldable pub close : (List Row → Option Bytes) → Sink → Sink
close transaction s = if s.closed then s else flush_batch transaction (record s { closed = true })
