-- ===== src/Sql/Statements.antt =====
-- The statements of internal/sqlsink/dialect.go, and `execRow` of internal/sqlsink/sink.go, which gives each
-- its arguments.
pub mod Quoting
pub mod Arguments
use pikawire.Prelude.{
  ℕ, zero, suc, ◌+◌, Bool, true, false, Option, none, some, List, [], ◌∷◌, ◌++◌, Bytes, codes, map,
  length, keys, join, same, among, ◌==◌, ◌||◌, if◌then◌else◌,
}
use pikawire.Prelude.Decimal.{format}
use pikawire.Sql.Order.{sort_strings}
use pikawire.Sql.Rows.{Row, value_at, col_names}

pub data Dialect : Type 0 where
  pg_dialect my_dialect : Dialect

-- `NewDialect`
unfoldable pub new_dialect : Bytes → Option Dialect
new_dialect driver =
    if same driver (codes "postgres") || same driver (codes "pgx")
    then some pg_dialect
    else if same driver (codes "mysql")
    then some my_dialect
    else none

-- `strings.ReplaceAll` of a byte by itself twice.
unfoldable pub doubled : ℕ → Bytes → Bytes
doubled q [] = []
doubled q (c ∷ s) = if c == q then c ∷ c ∷ doubled q s else c ∷ doubled q s

-- `quote`
unfoldable pub quote : Bytes → Bytes
quote id = b'"' ∷ (doubled b'"' id ++ (b'"' ∷ []))

-- The name of a column for MySQL.
unfoldable pub backticked : Bytes → Bytes
backticked id = b'`' ∷ (id ++ (b'`' ∷ []))

abbrev comma : Bytes
comma = codes ", "

-- `joinQuoted`
unfoldable pub join_quoted : List Bytes → Bytes
join_quoted cols = join comma (map quote cols)

-- `joinBackticked`
unfoldable pub join_backticked : List Bytes → Bytes
join_backticked cols = join comma (map backticked cols)

-- `dedupe`, after the names that it has seen.
unfoldable pub dedupe_loop : List Bytes → List Bytes → List Bytes
dedupe_loop seen [] = []
dedupe_loop seen (c ∷ cs) =
    if among c seen then dedupe_loop seen cs else c ∷ dedupe_loop (c ∷ seen) cs

unfoldable pub dedupe : List Bytes → List Bytes
dedupe cols = dedupe_loop [] cols

-- `$i`, `$i+1` and so on, for each name of a list.
unfoldable pub numbered : ℕ → List Bytes → List Bytes
numbered i [] = []
numbered i (c ∷ cs) = (b'$' ∷ format i) ∷ numbered (suc i) cs

-- `"c" = $i`, for each name of a list.
unfoldable pub conditions : ℕ → List Bytes → List Bytes
conditions i [] = []
conditions i (c ∷ cs) = (quote c ++ (codes " = $" ++ format i)) ∷ conditions (suc i) cs

unfoldable pub excluded : Bytes → Bytes
excluded c = quote c ++ (codes " = EXCLUDED." ++ quote c)

unfoldable pub values_of : Bytes → Bytes
values_of c = backticked c ++ (codes " = VALUES(" ++ (backticked c ++ codes ")"))

-- `Upsert`, with the number of arguments.
unfoldable pub upsert : Dialect → Bytes → List Bytes → List Bytes → Bytes × ℕ
upsert pg_dialect table pk cols =
    let set = dedupe cols in
    (
      codes "INSERT INTO "
          ++ (table
              ++ (codes " ("
                  ++ (join_quoted (pk ++ set)
                      ++ (codes ") VALUES ("
                          ++ (join comma (numbered 1 (pk ++ set))
                              ++ (codes ") ON CONFLICT ("
                                  ++ (join_quoted pk
                                      ++ (codes ") DO UPDATE SET "
                                          ++ join comma (map excluded set))))))))),
      length pk + length set,
    )
upsert my_dialect table pk cols =
    let set = dedupe cols in
    (
      codes "INSERT INTO "
          ++ (table
              ++ (codes " ("
                  ++ (join_backticked (pk ++ set)
                      ++ (codes ") VALUES ("
                          ++ (join comma (map (λ c. codes "?") (pk ++ set))
                              ++ (codes ") ON DUPLICATE KEY UPDATE "
                                  ++ join comma (map values_of set))))))),
      length pk + length set,
    )

-- `Delete`, with the number of arguments.
unfoldable pub delete_statement : Dialect → Bytes → List Bytes → Bytes × ℕ
delete_statement pg_dialect table pk = (
  codes "DELETE FROM " ++ (table ++ (codes " WHERE " ++ join (codes " AND ") (conditions 1 pk))),
  length pk,
)
delete_statement my_dialect table pk = (
  codes "DELETE FROM "
      ++ (table
          ++ (codes " WHERE "
              ++ join (codes " AND ") (map (λ c. backticked c ++ codes " = ?") pk))),
  length pk,
)

-- What `execRow` executes: the text, the announced number of arguments, and the arguments.
pub record Statement : Type 0 where
  pub text : Bytes
  pub announced : ℕ
  pub args : List Bytes

-- The two branches of `execRow`.
unfoldable pub exec_delete : Dialect → Row → List Bytes → Statement
exec_delete d r pk_cols =
    let (q, n) = delete_statement d r.table pk_cols in
    record { text = q; announced = n; args = map (value_at r.pk) pk_cols }

unfoldable pub exec_upsert : Dialect → Row → List Bytes → List Bytes → Statement
exec_upsert d r pk_cols cols =
    let (q, n) = upsert d r.table pk_cols cols in
    record {
      text = q;
      announced = n;
      args = map (value_at r.pk) pk_cols ++ map (value_at r.cols) cols;
    }

-- `execRow`
unfoldable pub exec_row : Dialect → Row → Statement
exec_row d r =
    let pk_cols = sort_strings (keys r.pk) in
    if r.del then exec_delete d r pk_cols else exec_upsert d r pk_cols (col_names r)
