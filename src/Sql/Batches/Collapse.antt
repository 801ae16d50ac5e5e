-- ===== src/Sql/Batches/Collapse.antt =====
-- What `Coalesce` does of each row, without its index: a row goes to the end, or into the place of the
-- row with its key.
use pikawire.Prelude.{
  ℕ, suc, ◌≡◌, refl, sym, ap, ◌∙◌, Bool, true, false, not, Option, none, some, List, [], ◌∷◌, ◌++◌,
  Bytes, length, Dict, lookup, insert, lookup-insert, same, same_iff, if◌then◌else◌, if_both,
}
use pikawire.Sql.Batches.{
  PendingRow, row_key, pk_key, merged, combine, modify, coalesce_loop, coalesce,
}

abbrev pub found_at : Bool → Option ℕ → Option ℕ
found_at true rest = some 0
found_at false none = none
found_at false (some i) = some (suc i)

-- The position of the first row with a key.
unfoldable pub find : Bytes → List PendingRow → Option ℕ
find k [] = none
find k (p ∷ out) = found_at (same k (row_key p.row)) (find k out)

unfoldable pub place : PendingRow → List PendingRow → List PendingRow
place p [] = p ∷ []
place p (old ∷ out) =
    if same (row_key p.row) (row_key old.row) then combine old p ∷ out else old ∷ place p out

unfoldable pub place_all : List PendingRow → List PendingRow → List PendingRow
place_all [] out = out
place_all (p ∷ batch) out = place_all batch (place p out)

pub row_key-combine : (old p : PendingRow) → row_key (combine old p).row ≡ row_key p.row
unfolding combine merged row_key pk_key
row_key-combine old p =
    if_both (λ (q : PendingRow). row_key q.row ≡ row_key p.row) p.row.del _ _ (λ _. refl)
      (λ _.
        if_both (λ (q : PendingRow). row_key q.row ≡ row_key p.row) (not old.row.del) _ _
          (λ _. refl) (λ _. refl))

-- `out` with `p` in it, by the position of its key.
abbrev put : PendingRow → List PendingRow → Option ℕ → List PendingRow
put p out none = out ++ (p ∷ [])
put p out (some i) = modify i (λ old. combine old p) out

place_found :
    (p : PendingRow) (out : List PendingRow) → place p out ≡ put p out (find (row_key p.row) out)
unfolding place find modify
place_found p [] = refl
place_found p (old ∷ out) =
    by_key (same (row_key p.row) (row_key old.row)) (find (row_key p.row) out) (place_found p out)
  where
    by_key :
        (b : Bool) (o : Option ℕ)
        → place p out ≡ put p out o
        → (if b then combine old p ∷ out else old ∷ place p out) ≡ put p (old ∷ out) (found_at b o)
    by_key true o ih = refl
    by_key false none ih = ap (λ l. old ∷ l) ih
    by_key false (some i) ih = ap (λ l. old ∷ l) ih

abbrev pub or_at : ℕ → Option ℕ → Option ℕ
or_at n none = some n
or_at n (some i) = some i

-- The position of `k` with a row in it: `mine` tells whether `k` is its key, `f` where that stood.
abbrev pub position : Bool → Option ℕ → ℕ → Option ℕ → Option ℕ
position mine (some i) n o = o
position true none n o = or_at n o
position false none n o = o

-- A new key is found at the end; a key that is there keeps every position.
pub find-place :
    (k : Bytes) (p : PendingRow) (out : List PendingRow)
    → find k (place p out)
      ≡ position (same k (row_key p.row)) (find (row_key p.row) out) (length out) (find k out)
unfolding find place
find-place k p [] = by_key (same k (row_key p.row))
  where
    by_key : (b : Bool) → found_at b none ≡ position b none 0 none
    by_key true = refl
    by_key false = refl
find-place k p (old ∷ out) =
    by_key (same (row_key p.row) (row_key old.row)) refl (find (row_key p.row) out)
      (find-place k p out)
  where
    shifted :
        (b c : Bool) (o : Option ℕ)
        → found_at c (position b none (length out) o)
          ≡ position b none (suc (length out)) (found_at c o)
    shifted true true o = refl
    shifted true false none = refl
    shifted true false (some i) = refl
    shifted false c o = refl

    by_key :
        (b : Bool)
        → same (row_key p.row) (row_key old.row) ≡ b
        → (f : Option ℕ)
        → find k (place p out) ≡ position (same k (row_key p.row)) f (length out) (find k out)
        → find k (if b then combine old p ∷ out else old ∷ place p out)
          ≡ position (same k (row_key p.row)) (found_at b f) (suc (length out)) (find k (old ∷ out))
    by_key true here f ih =
        let e : row_key (combine old p).row ≡ row_key old.row =
          row_key-combine old p ∙ (same_iff (row_key p.row) (row_key old.row)).0 here in
        ap (λ x. found_at (same k x) (find k out)) e
    by_key false there (some i) ih = ap (λ o. found_at (same k (row_key old.row)) o) ih
    by_key false there none ih =
        ap (λ o. found_at (same k (row_key old.row)) o) ih
        ∙ shifted (same k (row_key p.row)) (same k (row_key old.row)) (find k out)

-- The index has the position of every key.
abbrev Indexed : Dict ℕ → List PendingRow → Type 0
Indexed index out = (k : Bytes) → lookup k index ≡ find k out

-- The index with `p` in it keeps that property.
Indexed-insert :
    (p : PendingRow) (index : Dict ℕ) (out : List PendingRow)
    → Indexed index out
    → find (row_key p.row) out ≡ none
    → Indexed (insert (row_key p.row) (length out) index) (place p out)
Indexed-insert p index out h absent k =
    lookup-insert k (row_key p.row) (length out) index
    ∙ new (same k (row_key p.row)) refl
    ∙ sym (
        find-place k p out
        ∙ ap (λ f. position (same k (row_key p.row)) f (length out) (find k out)) absent)
  where
    new :
        (b : Bool)
        → same k (row_key p.row) ≡ b
        → (if b then some (length out) else lookup k index)
          ≡ position b none (length out) (find k out)
    new true here =
        let gone : find k out ≡ none =
          ap (λ x. find x out) ((same_iff k (row_key p.row)).0 here) ∙ absent in
        rw gone refl
    new false there = h k

Indexed-kept :
    (p : PendingRow) (index : Dict ℕ) (out : List PendingRow) (i : ℕ)
    → Indexed index out
    → find (row_key p.row) out ≡ some i
    → Indexed index (place p out)
Indexed-kept p index out i h present k =
    h k
    ∙ sym (
        find-place k p out
        ∙ ap (λ f. position (same k (row_key p.row)) f (length out) (find k out)) present)

place_all-coalesce_loop :
    (batch : List PendingRow) (index : Dict ℕ) (out : List PendingRow)
    → Indexed index out
    → coalesce_loop batch index out ≡ place_all batch out
unfolding coalesce_loop place_all
place_all-coalesce_loop [] index out h = refl
place_all-coalesce_loop (p ∷ batch) index out h =
    by_index (lookup (row_key p.row) index) (h (row_key p.row)) (place_all-coalesce_loop batch)
  where
    by_index :
        (o : Option ℕ)
        → o ≡ find (row_key p.row) out
        → ((index : Dict ℕ) (out : List PendingRow)
            → Indexed index out
            → coalesce_loop batch index out ≡ place_all batch out)
        → elim o [
          | some prev ↦ coalesce_loop batch index (modify prev (λ old. combine old p) out)
          | none ↦ coalesce_loop batch (insert (row_key p.row) (length out) index) (out ++ (p ∷ []))
        ]
          ≡ place_all batch (place p out)
    by_index (some i) e ih =
        let placed : place p out ≡ put p out (some i) =
          place_found p out ∙ ap (put p out) (sym e) in
        ap (λ l. coalesce_loop batch index l) (sym placed)
        ∙ ih index (place p out) (Indexed-kept p index out i h (sym e))
    by_index none e ih =
        let placed : place p out ≡ put p out none = place_found p out ∙ ap (put p out) (sym e) in
        ap (λ l. coalesce_loop batch (insert (row_key p.row) (length out) index) l) (sym placed)
        ∙ ih (insert (row_key p.row) (length out) index) (place p out)
            (Indexed-insert p index out h (sym e))

-- The loop with its index does what `place_all` does.
pub place_all-coalesce : (batch : List PendingRow) → coalesce batch ≡ place_all batch []
unfolding coalesce lookup find
place_all-coalesce batch = place_all-coalesce_loop batch [] [] (λ k. refl)
