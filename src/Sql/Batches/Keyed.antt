-- ===== src/Sql/Batches/Keyed.antt =====
-- The rows of a batch by the keys of `Coalesce`: what a coalesced batch keeps of the row under each key, and what it loses.
use mathlib.Core.Path.{fun_ext, subst}
use pikawire.Prelude.{
  ℕ, suc, ◌≡◌, refl, sym, ap, ◌∙◌, Bool, true, false, Option, none, some, List, [], ◌∷◌, Bytes,
  length, length-append, lookup, merge, lookup-merge, same, same_iff, same_self, if◌then◌else◌,
  arith,
}
use pikawire.Sql.Rows.{Row}
use pikawire.Sql.Batches.{PendingRow, Sink, flush_batch, commit, row_key, merged, combine, coalesce}
use pikawire.Sql.Batches.Collapse.{
  find, found_at, place, place_all, position, find-place, row_key-combine, place_all-coalesce,
}

-- A row of a table: absent, or its columns.
abbrev pub Line : Type 0
Line = Option (Bytes → Option Bytes)

abbrev pub column : Line → Bytes → Option Bytes
column none c = none
column (some f) c = f c

abbrev over : Option Bytes → Option Bytes → Option Bytes
over (some v) old = some v
over none old = old

-- A delete, or an upsert of the columns that the row has.
unfoldable pub apply_row : Row → Line → Line
apply_row r s = if r.del then none else some (λ c. over (lookup c r.cols) (column s c))

-- The row under a key, after the rows of a batch one by one.
unfoldable pub keyed_at : Bytes → List PendingRow → Line → Line
keyed_at k [] s = s
keyed_at k (p ∷ batch) s =
    keyed_at k batch (if same k (row_key p.row) then apply_row p.row s else s)

-- Under this key no upsert follows a delete; `deleted` is what came before.
abbrev pub NoRecreateUnder : Bytes → Bool → List PendingRow → Type 0
NoRecreateUnder k deleted [] = Unit
NoRecreateUnder k deleted (p ∷ batch) =
    (same k (row_key p.row) ≡ true → deleted ≡ true → p.row.del ≡ true)
    × NoRecreateUnder k (if same k (row_key p.row) then p.row.del else deleted) batch

-- No two rows have one key.
abbrev pub Distinct : List PendingRow → Type 0
Distinct [] = Unit
Distinct (p ∷ out) = (find (row_key p.row) out ≡ none) × Distinct out

unfoldable pub del_at : Bytes → List PendingRow → Bool
del_at k [] = false
del_at k (p ∷ out) = if same k (row_key p.row) then p.row.del else del_at k out

apply_row-combine :
    (old p : PendingRow) (s : Line)
    → (old.row.del ≡ true → p.row.del ≡ true)
    → apply_row (combine old p).row s ≡ apply_row p.row (apply_row old.row s)
unfolding apply_row combine merged merge lookup
apply_row-combine old p s h = by_del p.row.del old.row.del refl refl h
  where
    columns :
        (c : Bytes)
        → over (lookup c (merge (merge [] old.row.cols) p.row.cols)) (column s c)
          ≡ over (lookup c p.row.cols) (over (lookup c old.row.cols) (column s c))
    columns c =
        ap (λ o. over o (column s c)) (lookup-merge c (merge [] old.row.cols) p.row.cols ∙ inner)
        ∙ assoc (lookup c p.row.cols) (lookup c old.row.cols)
      where
        assoc : (a b : Option Bytes) → over (over a b) (column s c) ≡ over a (over b (column s c))
        assoc (some v) b = refl
        assoc none b = refl

        plain : (o : Option Bytes) → over o none ≡ o
        plain none = refl
        plain (some v) = refl

        as_over : (a b : Option Bytes) → elim a [ some v ↦ some v | none ↦ b ] ≡ over a b
        as_over (some v) b = refl
        as_over none b = refl

        inner :
            elim (lookup c p.row.cols) [ some v ↦ some v | none ↦ lookup c (merge [] old.row.cols) ]
            ≡ over (lookup c p.row.cols) (lookup c old.row.cols)
        inner =
            as_over (lookup c p.row.cols) (lookup c (merge [] old.row.cols))
            ∙ ap (over (lookup c p.row.cols)) (
                lookup-merge c [] old.row.cols
                ∙ as_over (lookup c old.row.cols) none
                ∙ plain (lookup c old.row.cols))

    by_del :
        (d e : Bool)
        → p.row.del ≡ d
        → old.row.del ≡ e
        → (old.row.del ≡ true → p.row.del ≡ true)
        → apply_row (combine old p).row s ≡ apply_row p.row (apply_row old.row s)
    by_del true e pd od h = simp (pd)
    by_del false true pd od h = absurd (let x : p.row.del ≡ true = h od in cc (x, pd))
    by_del false false pd od h = simp (pd, od) (ap some (fun_ext columns))

keyed_at_absent :
    (k : Bytes) (out : List PendingRow) (s : Line) → find k out ≡ none → keyed_at k out s ≡ s
unfolding keyed_at find
keyed_at_absent k [] s h = refl
keyed_at_absent k (p ∷ out) s h =
    by_key (same k (row_key p.row)) (find k out) h (keyed_at_absent k out s)
  where
    by_key :
        (b : Bool) (o : Option ℕ)
        → found_at b o ≡ none
        → (o ≡ none → keyed_at k out s ≡ s)
        → keyed_at k out (if b then apply_row p.row s else s) ≡ s
    by_key true o e ih = absurd (cc e)
    by_key false none e ih = ih refl
    by_key false (some i) e ih = absurd (cc e)

del-combine : (old p : PendingRow) → (combine old p).row.del ≡ p.row.del
unfolding combine merged
del-combine old p = by_del p.row.del old.row.del refl refl
  where
    by_del : (d e : Bool) → p.row.del ≡ d → old.row.del ≡ e → (combine old p).row.del ≡ p.row.del
    by_del true e pd od = simp (pd)
    by_del false true pd od = simp (pd, od)
    by_del false false pd od = simp (pd, od)

-- A key is not that of two rows whose keys differ.
same_one : (k x y : Bytes) → same x y ≡ false → same k x ≡ true → same k y ≡ false
same_one k x y differ kx = ground (arith, same_iff k x, same_iff k y, same_iff x y)

del_at-place :
    (k : Bytes) (p : PendingRow) (out : List PendingRow)
    → del_at k (place p out) ≡ (if same k (row_key p.row) then p.row.del else del_at k out)
unfolding del_at place
del_at-place k p [] = refl
del_at-place k p (old ∷ out) =
    by_key (same (row_key p.row) (row_key old.row)) refl (del_at-place k p out)
  where
    found :
        (b : Bool)
        → (if b then p.row.del else del_at k out)
          ≡ (if b then p.row.del else if b then old.row.del else del_at k out)
    found true = refl
    found false = refl

    kept :
        (b c : Bool)
        → (b ≡ true → c ≡ false)
        → del_at k (place p out) ≡ (if b then p.row.del else del_at k out)
        → (if c then old.row.del else del_at k (place p out))
          ≡ (if b then p.row.del else if c then old.row.del else del_at k out)
    kept true c one ih = rw (one refl) ih
    kept false true one ih = refl
    kept false false one ih = ih

    by_key :
        (b : Bool)
        → same (row_key p.row) (row_key old.row) ≡ b
        → del_at k (place p out) ≡ (if same k (row_key p.row) then p.row.del else del_at k out)
        → del_at k (if b then combine old p ∷ out else old ∷ place p out)
          ≡ (if same k (row_key p.row) then p.row.del else del_at k (old ∷ out))
    by_key true here ih =
        let e : row_key p.row ≡ row_key old.row =
          (same_iff (row_key p.row) (row_key old.row)).0 here in
        rw (row_key-combine old p)
          (rw (del-combine old p) (rw⁻¹ e (found (same k (row_key p.row)))))
    by_key false there ih =
        kept (same k (row_key p.row)) (same k (row_key old.row))
          (same_one k (row_key p.row) (row_key old.row) there) ih

Distinct-place : (p : PendingRow) (out : List PendingRow) → Distinct out → Distinct (place p out)
unfolding place find
Distinct-place p [] h = (refl, tt)
Distinct-place p (old ∷ out) (fresh, h) =
    by_key (same (row_key p.row) (row_key old.row)) refl (Distinct-place p out h)
  where
    by_key :
        (b : Bool)
        → same (row_key p.row) (row_key old.row) ≡ b
        → Distinct (place p out)
        → Distinct (if b then combine old p ∷ out else old ∷ place p out)
    by_key true here ih =
        let e : row_key (combine old p).row ≡ row_key old.row =
          row_key-combine old p ∙ (same_iff (row_key p.row) (row_key old.row)).0 here in
        (ap (λ k. find k out) e ∙ fresh, h)
    by_key false there ih = (
      find-place (row_key old.row) p out ∙ absent (same (row_key old.row) (row_key p.row)) refl,
      ih,
    )
      where
        absent :
            (c : Bool)
            → same (row_key old.row) (row_key p.row) ≡ c
            → position c (find (row_key p.row) out) (length out) (find (row_key old.row) out) ≡ none
        absent true e = absurd (
            ground (
              arith,
              e,
              there,
              same_iff (row_key old.row) (row_key p.row),
              same_iff (row_key p.row) (row_key old.row),
            ))
        absent false e = by_find (find (row_key p.row) out)
          where
            by_find :
                (f : Option ℕ) → position false f (length out) (find (row_key old.row) out) ≡ none
            by_find none = fresh
            by_find (some i) = fresh

module _ (k : Bytes) (p : PendingRow) where
  abbrev then_row : Line → Line
  then_row s = if same k (row_key p.row) then apply_row p.row s else s

  keyed_at-combine :
      (old : PendingRow) (out : List PendingRow) (s : Line)
      → same (row_key p.row) (row_key old.row) ≡ true
      → find (row_key old.row) out ≡ none
      → (same k (row_key p.row) ≡ true → old.row.del ≡ true → p.row.del ≡ true)
      → keyed_at k (combine old p ∷ out) s ≡ then_row (keyed_at k (old ∷ out) s)
  unfolding keyed_at
  keyed_at-combine old out s here fresh calm =
      ap (λ x. keyed_at k out (if same k x then apply_row (combine old p).row s else s))
        (row_key-combine old p)
      ∙ in_place (same k (row_key p.row)) refl calm
      ∙ ap (λ x. then_row (keyed_at k out (if same k x then apply_row old.row s else s))) e
    where
      e : row_key p.row ≡ row_key old.row
      e = (same_iff (row_key p.row) (row_key old.row)).0 here

      in_place :
          (b : Bool)
          → same k (row_key p.row) ≡ b
          → (b ≡ true → old.row.del ≡ true → p.row.del ≡ true)
          → keyed_at k out (if b then apply_row (combine old p).row s else s) ≡ (
              let t = keyed_at k out (if b then apply_row old.row s else s) in
              if b then apply_row p.row t else t)
      in_place true kp ok_del =
          let gone : find k out ≡ none =
            ap (λ x. find x out) ((same_iff k (row_key p.row)).0 kp ∙ e) ∙ fresh in
          keyed_at_absent k out (apply_row (combine old p).row s) gone
          ∙ apply_row-combine old p s (ok_del refl)
          ∙ ap (apply_row p.row) (sym (keyed_at_absent k out (apply_row old.row s) gone))
      in_place false kp ok_del = refl

  -- A row in its place does what it does behind all the others.
  keyed_at-place :
      (out : List PendingRow) (s : Line)
      → Distinct out
      → (same k (row_key p.row) ≡ true → del_at k out ≡ true → p.row.del ≡ true)
      → keyed_at k (place p out) s ≡ then_row (keyed_at k out s)
  unfolding keyed_at place del_at
  keyed_at-place [] s h calm = refl
  keyed_at-place (old ∷ out) s (fresh, h) calm =
      by_key (same (row_key p.row) (row_key old.row)) refl
        (keyed_at-place out (if same k (row_key old.row) then apply_row old.row s else s) h)
    where
      by_key :
          (b : Bool)
          → same (row_key p.row) (row_key old.row) ≡ b
          → ((same k (row_key p.row) ≡ true → del_at k out ≡ true → p.row.del ≡ true)
              → keyed_at k
                  (place p out)
                  (if same k (row_key old.row) then apply_row old.row s else s)
                ≡ then_row
                    (keyed_at k out (if same k (row_key old.row) then apply_row old.row s else s)))
          → keyed_at k (if b then combine old p ∷ out else old ∷ place p out) s
            ≡ then_row (keyed_at k (old ∷ out) s)
      by_key true here ih = keyed_at-combine old out s here fresh (λ kp od.
          let e : row_key p.row ≡ row_key old.row =
            (same_iff (row_key p.row) (row_key old.row)).0 here in
          let ko : same k (row_key old.row) ≡ true = ap (same k) (sym e) ∙ kp in
          calm kp (simp (ko) od))
      by_key false there ih = ih (λ kp d.
          let ko : same k (row_key old.row) ≡ false =
            same_one k (row_key p.row) (row_key old.row) there kp in
          calm kp (simp (ko) d))

module _ (k : Bytes) (s : Line) where
  keyed_at-place_all :
      (batch out : List PendingRow)
      → Distinct out
      → NoRecreateUnder k (del_at k out) batch
      → keyed_at k (place_all batch out) s ≡ keyed_at k batch (keyed_at k out s)
  unfolding keyed_at place_all
  keyed_at-place_all [] out h calm = refl
  keyed_at-place_all (p ∷ batch) out h (now, later) =
      keyed_at-place_all batch (place p out) (Distinct-place p out h) (
        let e : (if same k (row_key p.row) then p.row.del else del_at k out)
            ≡ del_at k (place p out) =
          sym (del_at-place k p out) in
        subst (λ d. NoRecreateUnder k d batch) e later)
      ∙ ap (keyed_at k batch) (keyed_at-place k p out s h now)

  -- A coalesced batch leaves the row under such a key that the whole batch leaves.
  pub keyed_at-coalesce :
      (batch : List PendingRow)
      → NoRecreateUnder k false batch
      → keyed_at k (coalesce batch) s ≡ keyed_at k batch s
  unfolding keyed_at del_at
  keyed_at-coalesce batch calm =
      ap (λ l. keyed_at k l s) (place_all-coalesce batch) ∙ keyed_at-place_all batch [] tt calm

Distinct-place_all : (batch out : List PendingRow) → Distinct out → Distinct (place_all batch out)
unfolding place_all
Distinct-place_all [] out h = h
Distinct-place_all (p ∷ batch) out h =
    Distinct-place_all batch (place p out) (Distinct-place p out h)

-- A coalesced batch has one row for each key.
pub coalesce-Distinct : (batch : List PendingRow) → Distinct (coalesce batch)
coalesce-Distinct batch = rw (place_all-coalesce batch) (Distinct-place_all batch [] tt)

coalesce_two :
    (p q : PendingRow)
    → same (row_key q.row) (row_key p.row) ≡ true
    → coalesce (p ∷ q ∷ []) ≡ combine p q ∷ []
unfolding place_all place
coalesce_two p q e = place_all-coalesce (p ∷ q ∷ []) ∙ simp (e)

-- When an upsert follows a delete of the same key in one batch, a column that the upsert does not have
-- is gone after the two rows, but keeps its old value after the coalesced batch.
coalesce_recreate_keeps_column :
    (p q : PendingRow) (f : Bytes → Option Bytes) (c : Bytes)
    → same (row_key q.row) (row_key p.row) ≡ true
    → p.row.del ≡ true
    → q.row.del ≡ false
    → lookup c q.row.cols ≡ none
    → (column (keyed_at (row_key q.row) (coalesce (p ∷ q ∷ [])) (some f)) c ≡ f c)
      × (column (keyed_at (row_key q.row) (p ∷ q ∷ []) (some f)) c ≡ none)
unfolding keyed_at apply_row combine
coalesce_recreate_keeps_column p q f c e pd qd absent = (
  ap (λ l. column (keyed_at (row_key q.row) l (some f)) c) (coalesce_two p q e)
      ∙ simp (pd, qd, same_self (row_key q.row), absent),
  simp (pd, qd, e, same_self (row_key q.row), absent),
)

-- When a flush finds two rows of one key in the queue, it answers the completion channel of one of
-- them only, and empties the queue.
flush_batch_loses_completion :
    (transaction : List Row → Option Bytes) (s : Sink) (p q : PendingRow)
    → s.queue ≡ p ∷ q ∷ []
    → same (row_key q.row) (row_key p.row) ≡ true
    → (length (flush_batch transaction s).answers ≡ suc (length s.answers))
      × ((flush_batch transaction s).queue ≡ [])
unfolding flush_batch
flush_batch_loses_completion transaction s p q queued e =
    simp (queued, coalesce_two p q e)
      (
        omega (
          arith,
          length-append s.answers
              (((combine p q).done, commit transaction (combine p q ∷ [])) ∷ []),
        ),
        refl,
      )
