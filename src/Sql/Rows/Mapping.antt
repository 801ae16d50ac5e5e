-- ===== src/Sql/Rows/Mapping.antt =====
-- What `RowForEvent` promises of a row, and two commands that it maps wrongly.
use mathlib.Core.List.{Mem, mem-cons_self, mem-cons_of_mem}
use pikawire.Prelude.{
  ◌≡◌, refl, sym, ap, ◌∙◌, inl, inr, Bool, true, false, not, ◌&&◌, Option, none, some, List, [],
  ◌∷◌, Bytes, codes, drop, All, Result, ok, err, panic, same, same_iff, among, Dict, lookup, insert,
  erase, lookup-insert, if_both, if◌then◌else◌, arith, Bool-cases,
}
use pikawire.Envelope.{Event}
use pikawire.Sql.Pattern.{extract_key}
use pikawire.Sql.Rows.{
  RuleConfig, Row, RowError, no_match, pk_missing, not_json, JsonReader, fill_pk, pk_value,
  hash_field, hash_row, string_row, move_pk, is_delete, rule_row, try_rule, row_for_event, is_empty,
  value_at, hash_cols, hdel_cols, pairs, json_cols,
}

-- Every column has an entry.
abbrev pub Filled : List Bytes → Dict Bytes → Type 0
Filled cols m = All (λ c. (v : Bytes) × (lookup c m ≡ some v)) cols

abbrev KeepsFilled : Dict Bytes → Dict Bytes → Type 0
KeepsFilled m m' = (c v : Bytes) → lookup c m ≡ some v → (w : Bytes) × (lookup c m' ≡ some w)

insert-KeepsFilled : (k x : Bytes) (m : Dict Bytes) → KeepsFilled m (insert k x m)
insert-KeepsFilled k x m c v at = elim (Bool-cases (same c k)) [
  | inl here ↦ (x, lookup-insert c k x m ∙ rw here refl)
  | inr there ↦ (v, lookup-insert c k x m ∙ rw there at)
]

KeepsFilled-Filled :
    (cols : List Bytes) (m m' : Dict Bytes) → KeepsFilled m m' → Filled cols m → Filled cols m'
KeepsFilled-Filled [] m m' keeps h = tt
KeepsFilled-Filled (c ∷ cols) m m' keeps ((v, at), h) =
    (keeps c v at, KeepsFilled-Filled cols m m' keeps h)

fill_pk-Filled :
    (r : RuleConfig) (caps : Dict Bytes) (ev : Event) (cols : List Bytes) (pk pk' : Dict Bytes)
    → fill_pk r caps ev cols pk ≡ ok pk'
    → Filled cols pk' × KeepsFilled pk pk'
unfolding fill_pk
fill_pk-Filled r caps ev [] pk pk' h =
    (tt, λ c v at. (v, let e : pk ≡ pk' = ground (arith, h) in rw⁻¹ e at))
fill_pk-Filled r caps ev (col ∷ cols) pk pk' h =
    by_value (pk_value caps ev col) (λ v. fill_pk-Filled r caps ev cols (insert col v pk) pk') h
  where
    by_value :
        (o : Option Bytes)
        → ((v : Bytes)
            → fill_pk r caps ev cols (insert col v pk) ≡ ok pk'
            → Filled cols pk' × KeepsFilled (insert col v pk) pk')
        → elim o [
          | none ↦ err (pk_missing r.table col)
          | some v ↦ fill_pk r caps ev cols (insert col v pk)
        ]
          ≡ ok pk'
        → Filled (col ∷ cols) pk' × KeepsFilled pk pk'
    by_value none ih h = absurd (cc h)
    by_value (some v) ih h =
        let (filled, keeps) = ih v h in
        (
          (keeps col v (lookup-insert col col v pk ∙ ground (arith, same_iff col col)), filled),
          λ c w at. let (w', at') = insert-KeepsFilled col v pk c w at in keeps c w' at',
        )

-- What a branch of `RowForEvent` may change of the row it begins with.
record Extends (row row' : Row) : Type 0 where
  table : row'.table ≡ row.table
  source : row'.source ≡ row.source
  del : row'.del ≡ row.del
  pk : KeepsFilled row.pk row'.pk

Extends-cols : (row : Row) (cols : Dict Bytes) → Extends row (record row { cols = cols })
Extends-cols row cols = record { table = refl; source = refl; del = refl; pk = λ c v at. (v, at) }

move_pk-Extends : (cs : List Bytes) (row : Row) → Extends row (move_pk cs row)
unfolding move_pk
move_pk-Extends [] row = record { table = refl; source = refl; del = refl; pk = λ c v at. (v, at) }
move_pk-Extends (c ∷ cs) row =
    if_both (λ x. Extends row (move_pk cs x)) (not (is_empty (value_at row.pk c))) _ _
      (λ _. move_pk-Extends cs row)
      (λ _.
        by_value (lookup c row.cols) (move_pk-Extends cs row) (λ v. move_pk-Extends cs (moved v)))
  where
    moved : Bytes → Row
    moved v = record row { pk = insert c v row.pk; cols = erase c row.cols }

    by_value :
        (o : Option Bytes)
        → Extends row (move_pk cs row)
        → ((v : Bytes) → Extends (moved v) (move_pk cs (moved v)))
        → Extends row (move_pk cs (elim o [ none ↦ row | some v ↦ moved v ]))
    by_value none same_row with_value = same_row
    by_value (some v) same_row with_value =
        let t = with_value v in
        record {
          table = t.table;
          source = t.source;
          del = t.del;
          pk = λ k w at. let (w', at') = insert-KeepsFilled c v row.pk k w at in t.pk k w' at';
        }

-- What a result owes to the row that it began with.
abbrev Gives : Row → Result RowError Row → Type 0
Gives row (ok row') = Extends row row'
Gives row (err e) = Unit
Gives row panic = Unit

hash_row-Gives : (r : RuleConfig) (ev : Event) (row : Row) → Gives row (hash_row r ev row)
unfolding hash_row
hash_row-Gives r ev row = by_cols (
    if same ev.command (codes "HDEL")
    then hdel_cols r.field_columns (drop 2 ev.args)
        (hash_cols r.field_columns (pairs (drop 2 ev.args)) [])
    else hash_cols r.field_columns (pairs (drop 2 ev.args)) [])
  where
    by_cols :
        (cols : Dict Bytes)
        → Gives row (if is_empty cols then err no_match else ok (record row { cols = cols }))
    by_cols [] = tt
    by_cols (e ∷ cols) = Extends-cols row (e ∷ cols)

string_row-Gives :
    (json : JsonReader) (r : RuleConfig) (row : Row) (args : List Bytes)
    → Gives row (string_row json r row args)
unfolding string_row
string_row-Gives json r row [] = tt
string_row-Gives json r row (cmd ∷ []) = tt
string_row-Gives json r row (cmd ∷ key ∷ []) = tt
string_row-Gives json r row (cmd ∷ key ∷ val ∷ args) =
    if_both (Gives row) r.value_json _ _ (λ _. by_object (json.read_object val))
      (λ _. Extends-cols row _)
  where
    by_object :
        (o : Option (Dict Bytes))
        → Gives row (elim o [
          | none ↦ err not_json
          | some m ↦ ok (
              move_pk r.primary_key
                (record row { cols = json_cols json r.json_columns m row.cols }))
        ])
    by_object none = tt
    by_object (some m) =
        let t =
          move_pk-Extends r.primary_key
            (record row { cols = json_cols json r.json_columns m row.cols }) in
        record { table = t.table; source = t.source; del = t.del; pk = t.pk }

-- What a row owes to its event and the rules.
abbrev pub IsRowFor : List RuleConfig → Event → Row → Type 0
IsRowFor rules ev row =
    (r : RuleConfig) × Mem r rules
    × (row.table ≡ r.table)
    × (row.source ≡ ev.source)
    × (row.del ≡ is_delete ev.op)
    × Filled r.primary_key row.pk

module _ (json : JsonReader) (r : RuleConfig) (ev : Event) where
  -- The row with its primary key filled, in front of the switch.
  abbrev begun : Dict Bytes → Row
  begun pk = record { table = r.table; pk = pk; cols = []; del = false; source = ev.source }

  abbrev Finished : Dict Bytes → Option (Result RowError Row) → Type 0
  Finished pk o =
      (row : Row)
      → o ≡ some (ok row)
      → (row.table ≡ r.table)
        × (row.source ≡ ev.source)
        × (row.del ≡ is_delete ev.op)
        × KeepsFilled pk row.pk

  of_Gives :
      (pk : Dict Bytes) (res : Result RowError Row)
      → is_delete ev.op ≡ false
      → Gives (begun pk) res
      → Finished pk (some res)
  of_Gives pk (ok row') kept gives row h =
      let e : row' ≡ row = ground (arith, h) in
      rw⁻¹ e (gives.table, gives.source, gives.del ∙ sym kept, gives.pk)
  of_Gives pk (err x) kept gives row h = absurd (cc h)
  of_Gives pk panic kept gives row h = absurd (cc h)

  rule_row-Finished : (pk : Dict Bytes) → Finished pk (rule_row json r ev (begun pk))
  unfolding rule_row
  rule_row-Finished pk =
      if_both (Finished pk) (is_delete ev.op) _ _
        (λ yes_delete.
          if_both (λ x. Finished pk (some x)) (same r.delete (codes "ignore")) _ _
            (λ _ row h. absurd (cc h))
            (λ _ row h.
              let e : record (begun pk) { del = true } ≡ row = ground (arith, h) in
              rw⁻¹ e (refl, refl, sym yes_delete, λ c v at. (v, at))))
        (λ kept.
          if_both (Finished pk) (same ev.data_type (codes "hash")) _ _
            (λ _. of_Gives pk _ kept (hash_row-Gives r ev (begun pk)))
            (λ _.
              if_both (Finished pk) (same ev.data_type (codes "string")) _ _
                (λ _.
                  if_both (Finished pk) (same ev.command (codes "DEL")) _ _
                    (λ _ row h. absurd (cc h))
                    (λ _. of_Gives pk _ kept (string_row-Gives json r (begun pk) ev.args)))
                (λ _ row h. absurd (cc h))))

  -- A row of this rule.
  abbrev Made : Row → Type 0
  Made row =
      (row.table ≡ r.table)
      × (row.source ≡ ev.source)
      × (row.del ≡ is_delete ev.op)
      × Filled r.primary_key row.pk

  try_rule-Finished : (row : Row) → try_rule json r ev ≡ some (ok row) → Made row
  unfolding try_rule
  try_rule-Finished row =
      if_both (λ o. o ≡ some (ok row) → Made row)
        (not (among ev.data_type r.data_types) && not (is_delete ev.op)) _ _ (λ _ h. absurd (cc h))
        (λ _. by_key (extract_key r.parts ev.key))
    where
      by_fill :
          (f : Result RowError (Dict Bytes))
          → ((pk : Dict Bytes) → f ≡ ok pk → Filled r.primary_key pk)
          → elim f [
            | err e ↦ some (err e)
            | panic ↦ some panic
            | ok pk ↦ rule_row json r ev (begun pk)
          ]
            ≡ some (ok row)
          → Made row
      by_fill (err e) filled h = absurd (cc h)
      by_fill panic filled h = absurd (cc h)
      by_fill (ok pk) filled h =
          let (table, source, del, keeps) = rule_row-Finished pk row h in
          (table, source, del, KeepsFilled-Filled r.primary_key pk row.pk keeps (filled pk refl))

      by_key :
          (o : Option (Dict Bytes))
          → elim o [
            | none ↦ none
            | some caps ↦ elim (fill_pk r caps ev r.primary_key []) [
              | err e ↦ some (err e)
              | panic ↦ some panic
              | ok pk ↦ rule_row json r ev (begun pk)
            ]
          ]
            ≡ some (ok row)
          → Made row
      by_key none h = absurd (cc h)
      by_key (some caps) h =
          by_fill (fill_pk r caps ev r.primary_key [])
            (λ pk e. (fill_pk-Filled r caps ev r.primary_key [] pk e).0) h

-- A row that `RowForEvent` returns comes from one of the rules: it has the rule's table and an entry
-- for every column of its primary key, carries the source of the event, and is a delete exactly when
-- the event is one.
pub row_for_event-IsRowFor :
    (json : JsonReader) (rules : List RuleConfig) (ev : Event) (row : Row)
    → row_for_event json rules ev ≡ ok row
    → IsRowFor rules ev row
unfolding row_for_event
row_for_event-IsRowFor json [] ev row h = absurd (cc h)
row_for_event-IsRowFor json (r ∷ rules) ev row h =
    by_rule (try_rule json r ev) (try_rule-Finished json r ev row)
      (row_for_event-IsRowFor json rules ev row) h
  where
    by_rule :
        (o : Option (Result RowError Row))
        → (o ≡ some (ok row) → Made json r ev row)
        → (row_for_event json rules ev ≡ ok row → IsRowFor rules ev row)
        → elim o [ some done ↦ done | none ↦ row_for_event json rules ev ] ≡ ok row
        → IsRowFor (r ∷ rules) ev row
    by_rule (some done) mine others h =
        let (table, source, del, filled) = mine (ap some h) in
        (r, mem-cons_self, table, source, del, filled)
    by_rule none mine others h =
        let (r', at, table, source, del, filled) = others h in
        (r', mem-cons_of_mem r at, table, source, del, filled)

-- For a rule without a list of fields, an HDEL of two fields gives a row that sets the column of the
-- first field to the name of the second.
hash_row_hdel_sets_field :
    (r : RuleConfig) (ev : Event) (row : Row) (cmd key f1 f2 : Bytes)
    → r.field_columns ≡ []
    → ev.command ≡ codes "HDEL"
    → ev.args ≡ cmd ∷ key ∷ f1 ∷ f2 ∷ []
    → hash_row r ev row ≡ ok (record row { cols = (f1, f2) ∷ [] })
unfolding hash_row hash_cols hdel_cols pairs lookup insert same
hash_row_hdel_sets_field r ev row cmd key f1 f2 none_listed command args =
    simp (none_listed, command, args)

pk_value_absent :
    (caps : Dict Bytes) (ev : Event) (col : Bytes)
    → same ev.data_type (codes "hash") ≡ false
    → lookup col caps ≡ none
    → pk_value caps ev col ≡ none
unfolding pk_value hash_field
pk_value_absent caps ev col not_hash absent = by_cap (lookup col caps) absent
  where
    by_cap :
        (o : Option Bytes) → o ≡ none → elim o [ some v ↦ some v | none ↦ hash_field ev col ] ≡ none
    by_cap none e = rw not_hash refl
    by_cap (some v) e = absurd (cc e)

fill_pk_absent :
    (r : RuleConfig) (caps : Dict Bytes) (ev : Event) (col : Bytes) (cols : List Bytes)
    → pk_value caps ev col ≡ none
    → fill_pk r caps ev (col ∷ cols) [] ≡ err (pk_missing r.table col)
unfolding fill_pk
fill_pk_absent r caps ev col cols no_value = by_value (pk_value caps ev col) no_value
  where
    by_value :
        (o : Option Bytes)
        → o ≡ none
        → elim o [
          | none ↦ err (pk_missing r.table col)
          | some v ↦ fill_pk r caps ev cols (insert col v [])
        ]
          ≡ err (pk_missing r.table col)
    by_value none e = refl
    by_value (some v) e = absurd (cc e)

-- A delete of a key whose type is not `hash` is an error, for a first rule whose pattern matches the
-- key but does not capture the first column of its primary key.
row_for_event_delete_error :
    (json : JsonReader) (r : RuleConfig) (rules : List RuleConfig) (ev : Event) (caps : Dict Bytes)
    (col : Bytes) (cols : List Bytes)
    → is_delete ev.op ≡ true
    → same ev.data_type (codes "hash") ≡ false
    → extract_key r.parts ev.key ≡ some caps
    → r.primary_key ≡ col ∷ cols
    → lookup col caps ≡ none
    → row_for_event json (r ∷ rules) ev ≡ err (pk_missing r.table col)
unfolding row_for_event try_rule
row_for_event_delete_error json r rules ev caps col cols deletes not_hash matches pk absent =
    by_rule (try_rule json r ev) tried
  where
    no_value : pk_value caps ev col ≡ none
    no_value = pk_value_absent caps ev col not_hash absent

    tried : try_rule json r ev ≡ some (err (pk_missing r.table col))
    tried = by_type (among ev.data_type r.data_types)
      where
        filled : fill_pk r caps ev r.primary_key [] ≡ err (pk_missing r.table col)
        filled = ap (λ l. fill_pk r caps ev l []) pk ∙ fill_pk_absent r caps ev col cols no_value

        made : Result RowError (Dict Bytes) → Option (Result RowError Row)
        made f = elim f [
          | err e ↦ some (err e)
          | panic ↦ some panic
          | ok pk ↦
              rule_row json r ev
                (record { table = r.table; pk = pk; cols = []; del = false; source = ev.source })
        ]

        by_type :
            (b : Bool)
            → (if not b && not (is_delete ev.op) then none else elim (extract_key r.parts ev.key) [
              | none ↦ none
              | some caps ↦ made (fill_pk r caps ev r.primary_key [])
            ])
              ≡ some (err (pk_missing r.table col))
        by_type true = rw matches (rw filled refl)
        by_type false = rw deletes (rw matches (rw filled refl))

    by_rule :
        (o : Option (Result RowError Row))
        → o ≡ some (err (pk_missing r.table col))
        → elim o [ some done ↦ done | none ↦ row_for_event json rules ev ]
          ≡ err (pk_missing r.table col)
    by_rule o e = rw e refl
