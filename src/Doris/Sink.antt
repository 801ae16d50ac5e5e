-- ===== src/Doris/Sink.antt =====
-- The queue of internal/dorissink/sink.go: `Emit`, `flush`, `Close` and the state they share. `Emit` is two
-- steps, since it waits for room before it takes the lock; `flush` takes the batch under the lock and gives its
-- tokens back, loads and reports without it.
pub mod Delivery
pub mod Flushes
pub mod Loads
pub mod Room
use pikawire.Prelude.{
  ℕ, zero, suc, ◌+◌, ◌-◌, Bool, true, false, not, ◌&&◌, ◌||◌, Option, none, some, List, [], ◌∷◌,
  ◌++◌, Bytes, length, map, insert, same, less, ltb, leb, if◌then◌else◌, ◌%◌, Result, ok, err,
  panic,
}
use pikawire.Envelope.{Event, Source}
use pikawire.Position.{Position, after, zero_position, is_zero}
use pikawire.Sql.Rows.{Row, RowError, RuleConfig, no_match, JsonReader, row_for_event, is_empty}
use pikawire.Sql.Batches.{PendingRow, coalesce, is_heartbeat}
use pikawire.Doris.Load.{Request, Reply, LoadError, judge, request_of, row_shape}
use pikawire.Doris.Sequence.{sequence, format_int}

-- `entry`
pub record Entry : Type 0 where
  pub pr : PendingRow
  pub pos : Position

pub data SinkError : Type 0 where
  load_failed : LoadError → SinkError
  notifier_failed : Bytes → SinkError

-- `Config` and `Sink`. `room` counts the tokens in the channel, `waiting` the calls of `Emit` that hold one and have
-- not taken the lock yet, `giving` the tokens of rows that left the queue and are not given back yet; `delivered` lists the notifier's arguments.
pub record Sink : Type 0 where
  pub fenodes : List Bytes
  pub max_batch_rows : ℕ
  pub max_queue_rows : ℕ
  pub sequence_column : Bytes
  pub queue : List Entry
  pub room : ℕ
  pub waiting : ℕ
  pub giving : ℕ
  pub woken : Bool
  pub term_err : Option SinkError
  pub closed : Bool
  pub label_seq : ℕ
  pub next_table : ℕ
  pub delivered : List Position

pub data EmitError : Type 0 where
  mapping : RowError → EmitError
  sink_closed : EmitError
  terminal : SinkError → EmitError

-- The mapping in front of `Emit`: nothing to do, an error, a panic, or a row.
pub data Mapped : Type 0 where
  skipped : Mapped
  failed : EmitError → Mapped
  crashed : Mapped
  mapped : Row → Mapped

unfoldable pub map_event : JsonReader → List RuleConfig → Event → Mapped
map_event json rules ev =
    if is_heartbeat ev.phase then skipped else elim (row_for_event json rules ev) [
      | ok row ↦ mapped row
      | err no_match ↦ skipped
      | err e ↦ failed (mapping e)
      | panic ↦ crashed
    ]

-- `case s.room <- struct{}{}`; `none` blocks.
unfoldable pub take_room : Sink → Option Sink
take_room s =
    if ltb s.room s.max_queue_rows
    then some (record s { room = suc s.room; waiting = suc s.waiting })
    else none

abbrev pub position_of : Source → Position
position_of src = record { filenum = src.filenum; offset = src.offset }

unfoldable pub with_sequence : Bytes → Position → Row → Row
with_sequence column pos row =
    if is_empty column
    then row
    else record row { cols = insert column (format_int (sequence pos)) row.cols }

-- The rest of `Emit`, with its token.
unfoldable pub enqueue : Event → Row → Sink → Sink × Option EmitError
enqueue ev row s =
    let pos = position_of ev.source in
    let back = record s { room = s.room - 1; waiting = s.waiting - 1 } in
    if s.closed then (back, some sink_closed) else elim s.term_err [
      | some e ↦ (back, some (terminal e))
      | none ↦ (
        record s {
          waiting = s.waiting - 1;
          queue =
              s.queue
              ++ (record {
                pr = record { row = with_sequence s.sequence_column pos row; done = 0 };
                pos = pos;
              }
                  ∷ []);
          woken = if leb s.max_batch_rows (length s.queue) then true else s.woken;
        },
        none,
      )
    ]

-- `groupKey`
pub record GroupKey : Type 0 where
  pub table : Bytes
  pub shape : Bytes

abbrev pub key_of : Row → GroupKey
key_of r = record { table = r.table; shape = row_shape r }

abbrev pub same_key : GroupKey → GroupKey → Bool
same_key a b = same a.table b.table && same a.shape b.shape

-- `groups[gk] = append(groups[gk], p)`
unfoldable pub add_row :
    PendingRow → List (GroupKey × List PendingRow) → List (GroupKey × List PendingRow)
add_row p [] = (key_of p.row, p ∷ []) ∷ []
add_row p ((k, rows) ∷ groups) =
    if same_key (key_of p.row) k
    then (k, rows ++ (p ∷ [])) ∷ groups
    else (k, rows) ∷ add_row p groups

unfoldable pub group_rows :
    List PendingRow → List (GroupKey × List PendingRow) → List (GroupKey × List PendingRow)
group_rows [] groups = groups
group_rows (p ∷ rows) groups = group_rows rows (add_row p groups)

-- The order of the loads.
unfoldable pub before : GroupKey → GroupKey → Bool
before a b = if not (same a.table b.table) then less a.table b.table else less a.shape b.shape

-- `sort.Slice` by `before`; no two groups have one key.
unfoldable pub insert_group :
    GroupKey × List PendingRow
    → List (GroupKey × List PendingRow)
    → List (GroupKey × List PendingRow)
insert_group g [] = g ∷ []
insert_group g (h ∷ groups) = if before h.0 g.0 then h ∷ insert_group g groups else g ∷ h ∷ groups

unfoldable pub sort_groups : List (GroupKey × List PendingRow) → List (GroupKey × List PendingRow)
sort_groups [] = []
sort_groups (g ∷ groups) = insert_group g (sort_groups groups)

-- The groups that a batch is loaded in, in the order of the loads.
unfoldable pub groups_of : List Entry → List (GroupKey × List PendingRow)
groups_of batch = sort_groups (group_rows (coalesce (map (λ e. e.pr) batch)) [])

-- `s.cfg.Fenodes[i]`, for an `i` in range.
abbrev pub entry_at : ℕ → List Bytes → Bytes
entry_at i [] = []
entry_at zero (fe ∷ fes) = fe
entry_at (suc i) (fe ∷ fes) = entry_at i fes

-- `nextFe`; `New` refuses an empty list of front ends.
unfoldable pub next_fe : Sink → Bytes × Sink
next_fe s = (
  entry_at (s.next_table % length s.fenodes) s.fenodes,
  record s { next_table = suc s.next_table },
)

-- `batch := s.queue; s.queue = nil`, under the lock.
unfoldable pub take_batch : Sink → Sink
take_batch s = record s { queue = []; giving = s.giving + length s.queue }

-- `<-s.room`, or nothing where the channel is empty.
unfoldable pub give_back : Sink → Sink
give_back s = record s { room = s.room - 1; giving = s.giving - 1 }

-- `for range batch`
unfoldable pub give_all : ℕ → Sink → Sink
give_all zero s = s
give_all (suc n) s = give_all n (give_back s)

-- `if s.termErr == nil { s.termErr = err }`
unfoldable pub set_err : SinkError → Sink → Sink
set_err e s = elim s.term_err [ none ↦ record s { term_err = some e } | some first ↦ s ]

-- The greatest position of a batch.
unfoldable pub max_position : List Entry → Position → Position
max_position [] mx = mx
max_position (e ∷ batch) mx = max_position batch (if after e.pos mx then e.pos else mx)

module _ (http : Request → Reply) (now : ℕ) (notify : Option (Position → Option Bytes)) where
  -- `streamLoad`
  unfoldable pub stream_load : Bytes → List PendingRow → Sink → Sink × Option LoadError
  stream_load table rows s =
      let (fe, t) = next_fe s in
      let req = request_of t.sequence_column fe now (suc t.label_seq) table rows in
      (record t { label_seq = suc t.label_seq }, judge req.label (http req))

  -- The loads of a flush, and whether all of them went through.
  unfoldable pub load_all : List (GroupKey × List PendingRow) → Sink → Sink × Bool
  load_all [] s = (s, true)
  load_all ((k, rows) ∷ groups) s =
      let (t, e) = stream_load k.table rows s in
      elim e [ some x ↦ (set_err (load_failed x) t, false) | none ↦ load_all groups t ]

  -- The call of the notifier.
  unfoldable pub deliver : Position → Sink → Sink
  deliver mx s = if is_zero mx then s else elim notify [
    | none ↦ s
    | some fn ↦ elim (fn mx) [
      | none ↦ record s { delivered = s.delivered ++ (mx ∷ []) }
      | some e ↦ set_err (notifier_failed e) (record s { delivered = s.delivered ++ (mx ∷ []) })
    ]
  ]

  -- What follows the loads.
  unfoldable pub after_loads : List Entry → Sink × Bool → Sink
  after_loads batch (t, true) = deliver (max_position batch zero_position) t
  after_loads batch (t, false) = t

  -- The loads and the delivery of a batch that has left the queue.
  unfoldable pub load_batch : List Entry → Sink → Sink
  load_batch batch s = after_loads batch (load_all (groups_of batch) s)

  -- `flush`
  unfoldable pub flush : Sink → Sink
  flush s =
      if is_empty s.queue then s else load_batch s.queue (give_all (length s.queue) (take_batch s))

  -- The loop of `Close`; `none` when the fuel is spent.
  unfoldable pub drain : ℕ → Sink → Option Sink
  drain zero s = none
  drain (suc fuel) s = if is_empty s.queue then some s else drain fuel (flush s)

  -- `Close`, and the error it returns.
  unfoldable pub close : ℕ → Sink → Option (Sink × Option SinkError)
  close fuel s =
      if s.closed then some (s, none) else elim (drain fuel (record s { closed = true })) [
        | none ↦ none
        | some t ↦ some (t, t.term_err)
      ]
