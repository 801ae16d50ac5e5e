-- ===== src/Sql/Batches/Store.antt =====
-- The rows of the database after a batch: `Coalesce` against the rows executed one by one, each on the row of the table that
-- `execRow` of internal/sqlsink/sink.go names by its table and the values of its primary key.
use mathlib.Core.Path.{subst}
use pikawire.Prelude.{
  ◌≡◌, refl, sym, ap, ◌∙◌, Bool, true, false, not, ◌&&◌, List, [], ◌∷◌, ◌++◌, Bytes, All, map, keys,
  length, join, same, same_iff, same_self, if◌then◌else◌, if_both, arith,
}
use pikawire.Sql.Order.{sort_strings}
use pikawire.Sql.Rows.{Row, value_at}
use pikawire.Sql.Batches.{PendingRow, row_key, pk_key, merged, combine, coalesce}
use pikawire.Sql.Batches.Collapse.{place, place_all, place_all-coalesce}
use pikawire.Sql.Batches.Keyed.{Line, apply_row, keyed_at, NoRecreateUnder, keyed_at-coalesce}
use pikawire.Sql.Batches.Keys.{NoNul, nul_ends, join_inj}

-- A row of a table of the database: the table, the columns of its primary key in ascending order, and their values.
pub record Target : Type 0 where
  pub table : Bytes
  pub pk_cols : List Bytes
  pub pk_vals : List Bytes

unfoldable pub same_list : List Bytes → List Bytes → Bool
same_list [] [] = true
same_list [] (y ∷ ys) = false
same_list (x ∷ xs) [] = false
same_list (x ∷ xs) (y ∷ ys) = let rest = same_list xs ys in same x y && rest

-- The columns and the arguments of `execRow` that name the row.
abbrev pub columns_of : Row → List Bytes
columns_of r = sort_strings (keys r.pk)

abbrev pub values_of : Row → List Bytes
values_of r = map (value_at r.pk) (sort_strings (keys r.pk))

-- Whether the statement of a row is about this row of the database.
unfoldable pub addressed : Target → Row → Bool
addressed t r =
    same t.table r.table
    && (same_list t.pk_cols (columns_of r) && same_list t.pk_vals (values_of r))

-- A row of the database after the rows of a batch one by one: those that name it change it.
unfoldable pub row_at : Target → List PendingRow → Line → Line
row_at t [] s = s
row_at t (p ∷ batch) s = row_at t batch (if addressed t p.row then apply_row p.row s else s)

-- No upsert of this row of the database follows a delete of it; `deleted` is what came before.
abbrev pub NoRecreate : Target → Bool → List PendingRow → Type 0
NoRecreate t deleted [] = Unit
NoRecreate t deleted (p ∷ batch) =
    (addressed t p.row ≡ true → deleted ≡ true → p.row.del ≡ true)
    × NoRecreate t (if addressed t p.row then p.row.del else deleted) batch

-- A row of the batch: no zero byte in its table and its primary key, and the primary key of its table has these columns.
pub record IsPlain (t : Target) (p : PendingRow) : Type 0 where
  pub table : NoNul p.row.table
  pub values : All NoNul (values_of p.row)
  pub columns : t.table ≡ p.row.table → t.pk_cols ≡ columns_of p.row

pub record IsTarget (t : Target) : Type 0 where
  pub table : NoNul t.table
  pub values : All NoNul t.pk_vals
  pub columns : length t.pk_cols ≡ length t.pk_vals

same_list_self : (l : List Bytes) → same_list l l ≡ true
unfolding same_list
same_list_self [] = refl
same_list_self (x ∷ xs) = rw (same_self x) (same_list_self xs)

same_list→eq : (l m : List Bytes) → same_list l m ≡ true → l ≡ m
unfolding same_list
same_list→eq [] [] h = refl
same_list→eq [] (y ∷ m) h = absurd (cc h)
same_list→eq (x ∷ l) [] h = absurd (cc h)
same_list→eq (x ∷ l) (y ∷ m) h = by_head (same x y) refl h (same_list→eq l m)
  where
    by_head :
        (b : Bool)
        → same x y ≡ b
        → (b && same_list l m) ≡ true
        → (same_list l m ≡ true → l ≡ m)
        → x ∷ l ≡ y ∷ m
    by_head true e h ih = ap (λ z. z ∷ l) ((same_iff x y).0 e) ∙ ap (λ r. y ∷ r) (ih h)
    by_head false e h ih = absurd (cc h)

-- The key under which `Coalesce` files the rows that name this row of the database.
abbrev pub key_of : Target → Bytes
key_of t = t.table ++ (0 ∷ join (0 ∷ []) t.pk_vals)

length-map : {A B : Type 0} (f : A → B) (l : List A) → length (map f l) ≡ length l
length-map f [] = refl
length-map f (x ∷ l) = omega (arith, length-map f l)

module _ (t : Target) (is : IsTarget t) where
  addressed→key : (r : Row) → addressed t r ≡ true → key_of t ≡ row_key r
  unfolding addressed row_key pk_key
  addressed→key r h =
      by_tests (same t.table r.table) (same_list t.pk_cols (columns_of r))
        (same_list t.pk_vals (values_of r)) refl refl h
    where
      by_tests :
          (a b c : Bool)
          → same t.table r.table ≡ a
          → same_list t.pk_vals (values_of r) ≡ c
          → (a && (b && c)) ≡ true
          → key_of t ≡ row_key r
      by_tests true true true ta va h =
          ap (λ x. x ++ (0 ∷ join (0 ∷ []) t.pk_vals)) ((same_iff t.table r.table).0 ta)
          ∙ ap (λ l. r.table ++ (0 ∷ join (0 ∷ []) l)) (same_list→eq t.pk_vals (values_of r) va)
      by_tests true true false ta va h = absurd (cc h)
      by_tests true false c ta va h = absurd (cc h)
      by_tests false b c ta va h = absurd (cc h)

  key→addressed :
      (p : PendingRow) → IsPlain t p → key_of t ≡ row_key p.row → addressed t p.row ≡ true
  unfolding addressed row_key pk_key
  key→addressed p h e =
      let (tables, joined) =
        nul_ends t.table p.row.table (join (0 ∷ []) t.pk_vals) (join (0 ∷ []) (values_of p.row))
          is.table h.table e in
      let cols = h.columns tables in
      let n : length t.pk_vals ≡ length (values_of p.row) =
        sym is.columns ∙ ap length cols ∙ sym (length-map (value_at p.row.pk) (columns_of p.row)) in
      let vals = join_inj t.pk_vals (values_of p.row) n is.values h.values joined in
      let ta : same t.table p.row.table ≡ true = (same_iff t.table p.row.table).1 tables in
      let ca : same_list t.pk_cols (columns_of p.row) ≡ true =
        ap (same_list t.pk_cols) (sym cols) ∙ same_list_self t.pk_cols in
      let va : same_list t.pk_vals (values_of p.row) ≡ true =
        ap (same_list t.pk_vals) (sym vals) ∙ same_list_self t.pk_vals in
      rw ta (rw ca va)

  -- `Coalesce` files two plain rows under one key exactly when they name the same row of the database.
  pub addressed-key :
      (p : PendingRow) → IsPlain t p → addressed t p.row ≡ same (key_of t) (row_key p.row)
  addressed-key p h =
      by_tests (addressed t p.row) (same (key_of t) (row_key p.row))
        (λ a. (same_iff (key_of t) (row_key p.row)).1 (addressed→key p.row a))
        (λ k. key→addressed p h ((same_iff (key_of t) (row_key p.row)).0 k))
    where
      by_tests : (a b : Bool) → (a ≡ true → b ≡ true) → (b ≡ true → a ≡ true) → a ≡ b
      by_tests true b there back = sym (there refl)
      by_tests false true there back = back refl
      by_tests false false there back = refl

  IsPlain-combine : (old p : PendingRow) → IsPlain t p → IsPlain t (combine old p)
  unfolding combine merged
  IsPlain-combine old p h =
      if_both (IsPlain t) p.row.del _ _ (λ _. h)
        (λ _.
          if_both (IsPlain t) (not old.row.del) _ _
            (λ _. record { table = h.table; values = h.values; columns = h.columns }) (λ _. h))

  IsPlain-place :
      (p : PendingRow) (out : List PendingRow)
      → IsPlain t p
      → All (IsPlain t) out
      → All (IsPlain t) (place p out)
  unfolding place
  IsPlain-place p [] h all = (h, tt)
  IsPlain-place p (old ∷ out) h (first, all) =
      if_both (All (IsPlain t)) (same (row_key p.row) (row_key old.row)) _ _
        (λ _. (IsPlain-combine old p h, all)) (λ _. (first, IsPlain-place p out h all))

  pub IsPlain-place_all :
      (batch out : List PendingRow)
      → All (IsPlain t) batch
      → All (IsPlain t) out
      → All (IsPlain t) (place_all batch out)
  unfolding place_all
  IsPlain-place_all [] out plain all = all
  IsPlain-place_all (p ∷ batch) out (h, plain) all =
      IsPlain-place_all batch (place p out) plain (IsPlain-place p out h all)

  row_at-keyed_at :
      (batch : List PendingRow) (s : Line)
      → All (IsPlain t) batch
      → row_at t batch s ≡ keyed_at (key_of t) batch s
  unfolding row_at keyed_at
  row_at-keyed_at [] s plain = refl
  row_at-keyed_at (p ∷ batch) s (h, plain) = rw (addressed-key p h) (
      row_at-keyed_at batch (if same (key_of t) (row_key p.row) then apply_row p.row s else s)
        plain)

  NoRecreate-keyed :
      (batch : List PendingRow) (deleted : Bool)
      → All (IsPlain t) batch
      → NoRecreate t deleted batch
      → NoRecreateUnder (key_of t) deleted batch
  NoRecreate-keyed [] deleted plain calm = tt
  NoRecreate-keyed (p ∷ batch) deleted (h, plain) (now, later) =
      let e = addressed-key p h in
      (
        λ k d. now (e ∙ k) d,
        subst (λ b. NoRecreateUnder (key_of t) (if b then p.row.del else deleted) batch) e
            (NoRecreate-keyed batch (if addressed t p.row then p.row.del else deleted) plain later),
      )

  -- A row of the database, named by its table and the values of its primary key, one for each column, without a zero byte in these names and in those of
  -- the batch, and with one set of primary key columns for the table: when no upsert of it follows a delete of it in the batch,
  -- the coalesced batch leaves it as the whole batch leaves it, executed one by one, whatever it was before.
  pub row_at-coalesce :
      (batch : List PendingRow) (s : Line)
      → All (IsPlain t) batch
      → NoRecreate t false batch
      → row_at t (coalesce batch) s ≡ row_at t batch s
  row_at-coalesce batch s plain calm =
      row_at-keyed_at (coalesce batch) s
        (rw (place_all-coalesce batch) (IsPlain-place_all batch [] plain tt))
      ∙ keyed_at-coalesce (key_of t) s batch (NoRecreate-keyed batch false plain calm)
      ∙ sym (row_at-keyed_at batch s plain)
