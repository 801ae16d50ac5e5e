-- ===== src/Examples/Pipeline.antt =====
-- The row sinks at concrete inputs.
use mathlib.Core.List.{Permᴰ}
use pikawire.Prelude.{
  ◌++◌, refl, ℕ, suc, ◌≡◌, ◌↔◌, ◌<◌, ◌≤◌, ◌^◌, ◌+◌, true, false, Option, none, some, List, [], ◌∷◌,
  Bytes, codes, length, All, ok, arith, same, among, has_prefix, lookup, insert,
}
use pikawire.Position.{Position, after}
use pikawire.Envelope.{Event, Source, phase_incremental, op_update}
use pikawire.Sql.Pattern.{PatternSeg, lit, field, extract_key, extract_loop, strip}
use pikawire.Sql.Pattern.Extract.{render, value_of, extract-render}
use pikawire.Sql.Rows.{
  RuleConfig, Row, JsonReader, row_for_event, try_rule, fill_pk, pk_value, rule_row, is_delete,
  hash_row, hash_cols, pairs,
}
use pikawire.Sql.Rows.Mapping.{IsRowFor, row_for_event-IsRowFor}
use pikawire.Sql.Order.{sort_strings, sort_loop, back_to_front, sink}
use pikawire.Sql.Batches.{PendingRow, coalesce}
use pikawire.Sql.Batches.Store.{
  Target, IsTarget, IsPlain, addressed, same_list, row_at, NoRecreate, row_at-coalesce,
}
use pikawire.Sql.Batches.Once.{statements_for, coalesce_once}
use pikawire.Sql.Order.Canonical.{Ascending, sort_strings_canonical}
use pikawire.Sql.Statements.{backticked}
use pikawire.Sql.Statements.Quoting.{read_name, backticked_breaks_out}
use pikawire.Doris.Load.{Request, Reply, answered}
use pikawire.Doris.Sequence.{sequence}
use pikawire.Doris.Sequence.Monotone.{sequence-after}
use pikawire.Doris.Sink.{Sink, notifier_failed, flush, close, Entry, take_room, enqueue, take_batch}
use pikawire.Doris.Sink.Delivery.{flush_ignores_term_err}
use pikawire.Doris.Sink.Flushes.{flush-Reachable}
use pikawire.Doris.Sink.Room.{
  Reachable, start, then_step, takes_room, enters, takes_batch, Reachable-length_queue,
  close-returns,
}

abbrev source_at : ℕ → Source
source_at offset = record {
  id = [];
  db = [];
  filenum = 3;
  offset = offset;
  seq = 0;
  exec_time_sec = 0;
}

abbrev hset : Event
hset = record {
  schema_version = 1;
  phase = phase_incremental;
  op = op_update;
  db = [];
  data_type = codes "hash";
  key = codes "u:7";
  command = codes "HSET";
  args = codes "HSET" ∷ codes "u:7" ∷ codes "n" ∷ codes "x" ∷ [];
  heartbeat = false;
  source = source_at 100;
}

abbrev user_key : List PatternSeg
user_key = lit (codes "u:") ∷ field (codes "i") ∷ []

abbrev users : RuleConfig
users = record {
  data_types = codes "hash" ∷ [];
  key_glob = codes "u:{i}";
  table = codes "t";
  primary_key = codes "i" ∷ [];
  field_columns = [];
  value_column = [];
  value_json = false;
  json_columns = [];
  delete = codes "row";
  parts = user_key;
}

abbrev no_json : JsonReader
no_json = record { read_object = λ s. none; read_string = λ s. none }

abbrev row_of : Bytes → Row
row_of name = record {
  table = codes "t";
  pk = (codes "i", codes "7") ∷ [];
  cols = (codes "n", name) ∷ [];
  del = false;
  source = source_at 100;
}

hset_mapped : row_for_event no_json (users ∷ []) hset ≡ ok (row_of (codes "x"))
unfolding row_for_event try_rule among same extract_key extract_loop strip has_prefix fill_pk
    pk_value lookup insert rule_row is_delete hash_row hash_cols pairs
hset_mapped = refl

row_for_event-IsRowFor_example : IsRowFor (users ∷ []) hset (row_of (codes "x"))
row_for_event-IsRowFor_example =
    row_for_event-IsRowFor no_json (users ∷ []) hset (row_of (codes "x")) hset_mapped

extracted : extract_key user_key (codes "u:7") ≡ some ((codes "i", codes "7") ∷ [])
unfolding extract_key extract_loop strip has_prefix insert
extracted = refl

extract-render_example : codes "u:7" ≡ render (value_of ((codes "i", codes "7") ∷ [])) user_key
extract-render_example =
    extract-render (lit (codes "u:")) (field (codes "i") ∷ []) (codes "u:7")
      ((codes "i", codes "7") ∷ []) (tt, tt) extracted

abbrev pending : Bytes → ℕ → PendingRow
pending name done = record { row = row_of name; done = done }

-- Another row of the table, between two mutations of the row `7`.
abbrev batch_with_delete : List PendingRow
batch_with_delete =
    pending (codes "x") 0
    ∷ record { row = record (row_of []) { pk = (codes "i", codes "8") ∷ []; del = true }; done = 1 }
    ∷ pending (codes "y") 2
    ∷ []

abbrev row_seven : Target
row_seven = record { table = codes "t"; pk_cols = codes "i" ∷ []; pk_vals = codes "7" ∷ [] }

row_seven-IsTarget : IsTarget row_seven
row_seven-IsTarget = record { table = (refl, tt); values = ((refl, tt), tt); columns = refl }

batch-IsPlain : All (IsPlain row_seven) batch_with_delete
unfolding sort_strings sort_loop back_to_front sink lookup same
batch-IsPlain = (
  record { table = (refl, tt); values = ((refl, tt), tt); columns = λ e. refl },
  (
    record { table = (refl, tt); values = ((refl, tt), tt); columns = λ e. refl },
    (record { table = (refl, tt); values = ((refl, tt), tt); columns = λ e. refl }, tt),
  ),
)

batch-NoRecreate : NoRecreate row_seven false batch_with_delete
unfolding addressed same_list same sort_strings sort_loop back_to_front sink lookup
batch-NoRecreate = (λ _ h. h, (λ _ h. refl, (λ _ h. h, tt)))

row_at-coalesce_example :
    row_at row_seven (coalesce batch_with_delete) none ≡ row_at row_seven batch_with_delete none
row_at-coalesce_example =
    row_at-coalesce row_seven row_seven-IsTarget batch_with_delete none batch-IsPlain
      batch-NoRecreate

coalesce_once_example : statements_for row_seven (coalesce batch_with_delete) ≤ 1
coalesce_once_example = coalesce_once row_seven batch_with_delete row_seven-IsTarget batch-IsPlain

abbrev names_ba : List Bytes
names_ba = codes "b" ∷ codes "a" ∷ []

abbrev names_ab : List Bytes
names_ab = codes "a" ∷ codes "b" ∷ []

sort_strings_canonical_example :
    Ascending (sort_strings names_ba)
    × Permᴰ (sort_strings names_ba) names_ba
    × (sort_strings names_ba ≡ sort_strings names_ab)
sort_strings_canonical_example = sort_strings_canonical names_ba names_ab (Permᴰ.swap refl refl)

backticked_breaks_out_example :
    (tail : Bytes) × (backticked (codes "a" ++ (b'`' ∷ b')' ∷ codes ";")) ≡ b'`' ∷ tail)
    × (read_name b'`' tail ≡ some (codes "a", b')' ∷ (codes ";" ++ (b'`' ∷ []))))
backticked_breaks_out_example =
    backticked_breaks_out (codes "a") (codes ";") b')' (λ h. omega (arith, h), tt)
      (λ h. omega (arith, h))

sequence-after_example :
    (sequence (record { filenum = 3; offset = 100 }) < 2 ^ 63)
    × ((after (record { filenum = 4; offset = 0 }) (record { filenum = 3; offset = 100 }) ≡ true)
        ↔ (sequence (record { filenum = 3; offset = 100 })
            < sequence (record { filenum = 4; offset = 0 })))
sequence-after_example =
    sequence-after (record { filenum = 3; offset = 100 }) (record { filenum = 4; offset = 0 })
      (omega arith) (omega arith) (omega arith) (omega arith)

abbrev idle : Sink
idle = record {
  fenodes = codes "fe" ∷ [];
  max_batch_rows = 10;
  max_queue_rows = 40;
  sequence_column = [];
  queue = [];
  room = 0;
  waiting = 0;
  giving = 0;
  woken = false;
  term_err = none;
  closed = false;
  label_seq = 0;
  next_table = 0;
  delivered = [];
}

abbrev first_entry : Entry
first_entry = record { pr = pending (codes "x") 0; pos = record { filenum = 3; offset = 100 } }

abbrev busy : Sink
busy = record idle { queue = first_entry ∷ []; room = 1 }

abbrev accepts : Request → Reply
accepts req = answered (codes "Success") [] []

abbrev takes_note : Option (Position → Option Bytes)
takes_note = some (λ p. none)

flush_ignores_term_err_example :
    (flush accepts 0 takes_note (record busy { term_err = some (notifier_failed []) })).delivered
    ≡ (flush accepts 0 takes_note (record busy { term_err = none })).delivered
flush_ignores_term_err_example =
    flush_ignores_term_err accepts 0 takes_note busy (some (notifier_failed [])) none

close-returns_example :
    (t : Sink) × (close accepts 0 takes_note 2 busy ≡ some (t, t.term_err))
    × (t.queue ≡ [])
    × (t.closed ≡ true)
close-returns_example = close-returns accepts 0 takes_note 0 busy refl

-- A batch of one row has left the queue, its token is still out, and a second call of `Emit` puts a row behind it.
abbrev put_one : Sink → Sink
put_one s =
    (enqueue hset (row_of (codes "x")) (record s { room = suc s.room; waiting = suc s.waiting })).0

abbrev between : Sink
between = put_one (take_batch (put_one idle))

between-Reachable : Reachable accepts 0 takes_note idle between
unfolding take_room enqueue take_batch
between-Reachable =
    then_step
      (then_step
        (then_step
          (then_step (then_step start (takes_room refl))
            (enters hset (row_of (codes "x")) (omega arith)))
          takes_batch)
        (takes_room refl))
      (enters hset (row_of (codes "x")) (omega arith))

Reachable-length_queue_example :
    let t = flush accepts 0 takes_note between in
    (t.room ≡ length t.queue + t.waiting + t.giving) × (length t.queue ≤ t.max_queue_rows)
Reachable-length_queue_example =
    Reachable-length_queue accepts 0 takes_note idle (flush accepts 0 takes_note between) refl refl
      refl refl (flush-Reachable accepts 0 takes_note idle between between-Reachable)
