-- ===== src/Sql/Batches/Once.antt =====
-- A coalesced batch has one statement at most for a row of the database.
use pikawire.Prelude.{
  ℕ, suc, ◌≤◌, ◌≡◌, refl, ap, ◌∙◌, Bool, true, false, Option, none, some, List, [], ◌∷◌, Bytes, All,
  same, same_iff, if◌then◌else◌, arith,
}
use pikawire.Sql.Batches.{PendingRow, row_key, coalesce}
use pikawire.Sql.Batches.Collapse.{find, found_at, place_all-coalesce}
use pikawire.Sql.Batches.Keyed.{Distinct, coalesce-Distinct}
use pikawire.Sql.Batches.Store.{
  Target, IsTarget, IsPlain, addressed, key_of, addressed-key, IsPlain-place_all,
}

-- How many of the rows have this key.
unfoldable count_under : Bytes → List PendingRow → ℕ
count_under k [] = 0
count_under k (p ∷ batch) =
    let rest = count_under k batch in if same k (row_key p.row) then suc rest else rest

-- How many statements of a batch are about this row of the database.
unfoldable pub statements_for : Target → List PendingRow → ℕ
statements_for t [] = 0
statements_for t (p ∷ batch) =
    let rest = statements_for t batch in if addressed t p.row then suc rest else rest

count_under-none : (k : Bytes) (out : List PendingRow) → find k out ≡ none → count_under k out ≡ 0
unfolding count_under find
count_under-none k [] h = refl
count_under-none k (p ∷ out) h =
    by_key (same k (row_key p.row)) (find k out) h (count_under-none k out)
  where
    by_key :
        (b : Bool) (o : Option ℕ)
        → found_at b o ≡ none
        → (o ≡ none → count_under k out ≡ 0)
        → (if b then suc (count_under k out) else count_under k out) ≡ 0
    by_key true o e ih = absurd (cc e)
    by_key false none e ih = ih refl
    by_key false (some i) e ih = absurd (cc e)

count_under_le : (k : Bytes) (out : List PendingRow) → Distinct out → count_under k out ≤ 1
unfolding count_under
count_under_le k [] h = omega arith
count_under_le k (p ∷ out) (fresh, h) =
    by_key (same k (row_key p.row)) refl (count_under_le k out h)
  where
    by_key :
        (b : Bool)
        → same k (row_key p.row) ≡ b
        → count_under k out ≤ 1
        → (if b then suc (count_under k out) else count_under k out) ≤ 1
    by_key true here ih =
        let gone : count_under k out ≡ 0 =
          count_under-none k out
            (ap (λ x. find x out) ((same_iff k (row_key p.row)).0 here) ∙ fresh) in
        omega (arith, gone)
    by_key false there ih = ih

statements_for-under :
    (t : Target)
    → IsTarget t
    → (batch : List PendingRow) → All (IsPlain t) batch
    → statements_for t batch ≡ count_under (key_of t) batch
unfolding statements_for count_under
statements_for-under t is [] plain = refl
statements_for-under t is (p ∷ batch) (h, plain) =
    rw (addressed-key t is p h) (rw (statements_for-under t is batch plain) refl)

-- For a row of the database without a zero byte in its table and the values of its primary key, and a batch whose rows have none
-- there either and one set of primary key columns for that table: the coalesced batch executes one statement at most on it.
pub coalesce_once :
    (t : Target) (batch : List PendingRow)
    → IsTarget t
    → All (IsPlain t) batch
    → statements_for t (coalesce batch) ≤ 1
coalesce_once t batch is plain =
    let under =
      statements_for-under t is (coalesce batch)
        (rw (place_all-coalesce batch) (IsPlain-place_all t is batch [] plain tt)) in
    let few = count_under_le (key_of t) (coalesce batch) (coalesce-Distinct batch) in
    omega (arith, under, few)
