-- ===== src/Doris/Load.antt =====
-- One stream load of internal/dorissink/sink.go: `streamLoad` and what it calls. The HTTP exchange is a
-- parameter, a function from the request; so is the clock. The body is the list of its objects.
use pikawire.Prelude.{
  ℕ, zero, suc, Bool, false, ◌||◌, Option, none, some, List, [], ◌∷◌, ◌++◌, Bytes, codes, drop,
  take, length, map, keys, Dict, insert, same, among, has_prefix, join, ltb, ◌==◌, if◌then◌else◌,
}
use pikawire.Prelude.Decimal.{format}
use pikawire.Sql.Order.{sort_strings}
use pikawire.Sql.Rows.{Row, is_empty}
use pikawire.Sql.Batches.{PendingRow}

-- `strings.LastIndexByte`
unfoldable pub last_index : ℕ → Bytes → Option ℕ
last_index b [] = none
last_index b (c ∷ s) = elim (last_index b s) [
  | some i ↦ some (suc i)
  | none ↦ if c == b then some 0 else none
]

-- `splitTable`: a dot in front does not split.
unfoldable pub split_table : Bytes → Bytes × Bytes
split_table t = elim (last_index b'.' t) [
  | some (suc i) ↦ (take (suc i) t, drop (suc (suc i)) t)
  | some zero ↦ (codes "information_schema", t)
  | none ↦ (codes "information_schema", t)
]

-- `truncate`
unfoldable pub truncate : Bytes → ℕ → Bytes
truncate s n = if ltb n (length s) then take n s ++ codes "..." else s

-- `isLoopback`
unfoldable pub is_loopback : Bytes → Bool
is_loopback host =
    same host (codes "127.0.0.1")
    || same host (codes "localhost")
    || same host (codes "::1")
    || has_prefix host (codes "127.")

abbrev pub delete_sign : Bytes
delete_sign = codes "__DORIS_DELETE_SIGN__"

-- `rowShape`
unfoldable pub row_shape : Row → Bytes
row_shape r =
    join (b',' ∷ [])
      (sort_strings (keys r.pk ++ (keys r.cols ++ (if r.del then delete_sign ∷ [] else []))))

-- A set of names with one more.
unfoldable pub with_name : List Bytes → Bytes → List Bytes
with_name set c = if among c set then set else c ∷ set

unfoldable pub with_names : List Bytes → List Bytes → List Bytes
with_names set [] = set
with_names set (c ∷ cs) = with_names (with_name set c) cs

-- The names of the rows' columns: of the primary keys, and of the others.
unfoldable pub pk_names : List PendingRow → List Bytes
pk_names [] = []
pk_names (p ∷ rows) = with_names (pk_names rows) (keys p.row.pk)

unfoldable pub present_names : List PendingRow → List Bytes
present_names [] = []
present_names (p ∷ rows) = with_names (present_names rows) (keys p.row.cols)

-- The names that are not empty and no primary key column.
unfoldable pub others : List Bytes → List Bytes → List Bytes
others pks [] = []
others pks (c ∷ cs) = if is_empty c || among c pks then others pks cs else c ∷ others pks cs

unfoldable pub has_delete : List PendingRow → Bool
has_delete [] = false
has_delete (p ∷ rows) = p.row.del || has_delete rows

-- The columns that a load declares.
unfoldable pub load_columns : List PendingRow → List Bytes
load_columns rows = sort_strings (
    pk_names rows
    ++ (others (pk_names rows) (present_names rows)
        ++ (if has_delete rows then delete_sign ∷ [] else [])))

pub data Value : Type 0 where
  text : Bytes → Value
  one : Value

unfoldable pub set_all : Dict Bytes → Dict Value → Dict Value
set_all [] obj = obj
set_all ((c, v) ∷ m) obj = set_all m (insert c (text v) obj)

-- The object of a row.
unfoldable pub object_of : Row → Dict Value
object_of r =
    let obj = set_all r.cols (set_all r.pk []) in if r.del then insert delete_sign one obj else obj

pub record Request : Type 0 where
  pub fe : Bytes
  pub db : Bytes
  pub tbl : Bytes
  pub label : Bytes
  pub columns : Bytes
  pub sequence_col : Option Bytes
  pub body : List (Dict Value)

-- What the exchange gives: a failure of the transport, a body that is no JSON object, or the object's fields.
pub data Reply : Type 0 where
  transport_error : Reply
  bad_body : ℕ → Bytes → Reply
  answered : Bytes → Bytes → Bytes → Reply

pub data LoadError : Type 0 where
  transport : Bytes → LoadError
  bad_response : ℕ → Bytes → LoadError
  refused_load : Bytes → Bytes → Bytes → Bytes → LoadError

-- The end of `streamLoad`.
unfoldable pub judge : Bytes → Reply → Option LoadError
judge label transport_error = some (transport label)
judge label (bad_body code raw) = some (bad_response code (truncate raw 300))
judge label (answered status message url) =
    if same status (codes "Success") || same status (codes "Label Already Exists")
    then none
    else some (refused_load label status message url)

-- `strings.ReplaceAll(db, ".", "_")`
unfoldable pub underscored : Bytes → Bytes
underscored [] = []
underscored (c ∷ s) = (if c == b'.' then b'_' else c) ∷ underscored s

-- The label; `seq` is the counter's new value.
unfoldable pub label_of : Bytes → Bytes → ℕ → ℕ → Bytes
label_of db tbl now seq =
    codes "pikawire-"
    ++ (underscored db ++ (b'-' ∷ (tbl ++ (b'-' ∷ (format now ++ (b'-' ∷ format seq))))))

-- The request of one load, to the front end `fe`.
unfoldable pub request_of : Bytes → Bytes → ℕ → ℕ → Bytes → List PendingRow → Request
request_of sequence_column fe now seq table rows =
    let (db, tbl) = split_table table in
    record {
      fe = fe;
      db = db;
      tbl = tbl;
      label = label_of db tbl now seq;
      columns = join (b',' ∷ []) (load_columns rows);
      sequence_col = if is_empty sequence_column then none else some sequence_column;
      body = map (λ p. object_of p.row) rows;
    }
