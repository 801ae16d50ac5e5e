-- ===== src/Sql/Rows.antt =====
-- Rules and rows of internal/sqlsink/mapping.go: `Compile`, `RowForEvent` and what they call. A map is
-- visited in the order of its list, which stands for any order. `encoding/json` is a parameter.
pub mod Mapping
use pikawire.Prelude.{
  ℕ, Bool, true, false, ◌&&◌, ◌||◌, not, Option, none, some, List, [], ◌∷◌, ◌++◌, Bytes, codes,
  drop, Result, ok, err, panic, ◌>>=◌, ◌>>◌, refuse, same, among, map, Dict, lookup, insert, erase,
  keys, if◌then◌else◌,
}
use pikawire.Envelope.{Event, Source, Op, op_delete}
use pikawire.Sql.Pattern.{PatternSeg, PatternError, compile_key, extract_key}
use pikawire.Sql.Order.{sort_strings}

-- `RuleConfig`; `parts` are the compiled segments of `key_glob`.
pub record RuleConfig : Type 0 where
  pub data_types : List Bytes
  pub key_glob : Bytes
  pub table : Bytes
  pub primary_key : List Bytes
  pub field_columns : Dict Bytes
  pub value_column : Bytes
  pub value_json : Bool
  pub json_columns : List Bytes
  pub delete : Bytes
  pub parts : List PatternSeg

pub data RuleError : Type 0 where
  table_and_pk_required : RuleError
  bad_pattern : PatternError → RuleError

abbrev pub is_empty {ℓ} : {A : Type ℓ} → List A → Bool
is_empty [] = true
is_empty (x ∷ xs) = false

-- The defaults of `Compile`.
unfoldable pub with_defaults : RuleConfig → RuleConfig
with_defaults r = record r {
  data_types = if is_empty r.data_types then codes "hash" ∷ codes "string" ∷ [] else r.data_types;
  delete = if is_empty r.delete then codes "row" else r.delete;
}

-- `Compile`
unfoldable pub compile_rule : RuleConfig → Result RuleError RuleConfig
compile_rule r =
    if is_empty r.table || is_empty r.primary_key
    then err table_and_pk_required
    else if is_empty r.key_glob
    then ok (with_defaults r)
    else elim (compile_key r.key_glob) [
      | ok segs ↦ ok (record (with_defaults r) { parts = segs })
      | err e ↦ err (bad_pattern e)
      | panic ↦ panic
    ]

pub record Row : Type 0 where
  pub table : Bytes
  pub pk : Dict Bytes
  pub cols : Dict Bytes
  pub del : Bool
  pub source : Source

-- `PKValues`: an absent column gives the empty string.
abbrev pub value_at : Dict Bytes → Bytes → Bytes
value_at m c = elim (lookup c m) [ none ↦ [] | some v ↦ v ]

unfoldable pub pk_values : Row → List Bytes → List Bytes
pk_values r order = map (value_at r.pk) order

-- `ColNames`
unfoldable pub col_names : Row → List Bytes
col_names r = sort_strings (keys r.cols)

pub data RowError : Type 0 where
  no_match : RowError
  pk_missing : Bytes → Bytes → RowError
  not_json : RowError

-- `json.Unmarshal` of an object, its values kept raw, and of a string.
pub record JsonReader : Type 0 where
  pub read_object : Bytes → Option (Dict Bytes)
  pub read_string : Bytes → Option Bytes

-- The pairs `args[i], args[i+1]` of a loop by steps of two.
unfoldable pub pairs : List Bytes → List (Bytes × Bytes)
pairs [] = []
pairs (f ∷ []) = []
pairs (f ∷ v ∷ args) = (f, v) ∷ pairs args

unfoldable pub first_value : Bytes → List (Bytes × Bytes) → Option Bytes
first_value field [] = none
first_value field ((f, v) ∷ ps) = if same f field then some v else first_value field ps

-- `hashField`
unfoldable pub hash_field : Event → Bytes → Option Bytes
hash_field ev field =
    if not (same ev.data_type (codes "hash"))
    then none
    else first_value field (pairs (drop 2 ev.args))

-- A primary key column, from the key or from a hash field.
unfoldable pub pk_value : Dict Bytes → Event → Bytes → Option Bytes
pk_value caps ev col = elim (lookup col caps) [ some v ↦ some v | none ↦ hash_field ev col ]

-- The loop that fills the primary key.
unfoldable pub fill_pk :
    RuleConfig → Dict Bytes → Event → List Bytes → Dict Bytes → Result RowError (Dict Bytes)
fill_pk r caps ev [] pk = ok pk
fill_pk r caps ev (col ∷ cols) pk = elim (pk_value caps ev col) [
  | none ↦ err (pk_missing r.table col)
  | some v ↦ fill_pk r caps ev cols (insert col v pk)
]

-- The columns of HSET and HMSET: without a list of fields every field is a column.
unfoldable pub hash_cols : Dict Bytes → List (Bytes × Bytes) → Dict Bytes → Dict Bytes
hash_cols wanted [] cols = cols
hash_cols wanted ((f, v) ∷ ps) cols = hash_cols wanted ps (elim (lookup f wanted) [
  | some col ↦ insert col v cols
  | none ↦ if is_empty wanted then insert f v cols else cols
])

-- The columns of HDEL, which get the empty string.
unfoldable pub hdel_cols : Dict Bytes → List Bytes → Dict Bytes → Dict Bytes
hdel_cols wanted [] cols = cols
hdel_cols wanted (f ∷ fs) cols =
    hdel_cols wanted fs (elim (lookup f wanted) [ some col ↦ insert col [] cols | none ↦ cols ])

unfoldable pub hash_row : RuleConfig → Event → Row → Result RowError Row
hash_row r ev row =
    let set = hash_cols r.field_columns (pairs (drop 2 ev.args)) [] in
    let cols =
      if same ev.command (codes "HDEL")
      then hdel_cols r.field_columns (drop 2 ev.args) set
      else set in
    if is_empty cols then err no_match else ok (record row { cols = cols })

-- `colAllowed`
unfoldable pub col_allowed : List Bytes → Bytes → Bool
col_allowed [] name = true
col_allowed (c ∷ cs) name = among name (c ∷ cs)

-- The allowed fields of a JSON object: strings are taken out of their quotes.
unfoldable pub json_cols : JsonReader → List Bytes → Dict Bytes → Dict Bytes → Dict Bytes
json_cols json allowed [] cols = cols
json_cols json allowed ((k, raw) ∷ m) cols = json_cols json allowed m (
    if not (col_allowed allowed k)
    then cols
    else elim (json.read_string raw) [ none ↦ insert k raw cols | some s ↦ insert k s cols ])

-- The columns of the primary key that are empty so far and that the object has move there.
unfoldable pub move_pk : List Bytes → Row → Row
move_pk [] row = row
move_pk (c ∷ cs) row = move_pk cs (
    if not (is_empty (value_at row.pk c)) then row else elim (lookup c row.cols) [
      | none ↦ row
      | some v ↦ record row { pk = insert c v row.pk; cols = erase c row.cols }
    ])

-- The value of a string command: its third argument.
unfoldable pub string_row : JsonReader → RuleConfig → Row → List Bytes → Result RowError Row
string_row json r row (cmd ∷ key ∷ val ∷ args) =
    if r.value_json
    then elim (json.read_object val) [
      | none ↦ err not_json
      | some m ↦
          ok
            (move_pk r.primary_key (record row { cols = json_cols json r.json_columns m row.cols }))
    ]
    else ok (record row {
      cols =
          insert (if is_empty r.value_column then codes "value" else r.value_column) val row.cols;
    })
string_row json r row _ = err no_match

-- `isDelete`
unfoldable pub is_delete : Op → Bool
is_delete op_delete = true
is_delete _ = false

-- The switch of `RowForEvent`; `none` is `continue`.
unfoldable pub rule_row : JsonReader → RuleConfig → Event → Row → Option (Result RowError Row)
rule_row json r ev row =
    if is_delete ev.op
    then some
        (if same r.delete (codes "ignore") then err no_match else ok (record row { del = true }))
    else if same ev.data_type (codes "hash")
    then some (hash_row r ev row)
    else if same ev.data_type (codes "string")
    then if same ev.command (codes "DEL") then none else some (string_row json r row ev.args)
    else none

-- A rule whose type and key pattern match, or `none` to go on with the next one.
unfoldable pub try_rule : JsonReader → RuleConfig → Event → Option (Result RowError Row)
try_rule json r ev =
    if not (among ev.data_type r.data_types) && not (is_delete ev.op)
    then none
    else elim (extract_key r.parts ev.key) [
      | none ↦ none
      | some caps ↦ elim (fill_pk r caps ev r.primary_key []) [
        | err e ↦ some (err e)
        | panic ↦ some panic
        | ok pk ↦
            rule_row json r ev
              (record { table = r.table; pk = pk; cols = []; del = false; source = ev.source })
      ]
    ]

-- `RowForEvent`
unfoldable pub row_for_event : JsonReader → List RuleConfig → Event → Result RowError Row
row_for_event json [] ev = err no_match
row_for_event json (r ∷ rules) ev = elim (try_rule json r ev) [
  | some done ↦ done
  | none ↦ row_for_event json rules ev
]
