-- ===== src/Sql/Statements/Arguments.antt =====
-- Every statement gets as many arguments as it announces.
use mathlib.Core.List.Permᴰ
use mathlib.Core.List.{Permᴰ}
use mathlib.Core.Path.{ap₂, subst}
use pikawire.Prelude.{
  suc, ◌+◌, ◌≡◌, refl, sym, ap, ◌∙◌, Bool, true, false, ◌||◌, List, [], ◌∷◌, Bytes, All, length,
  length-append, map, keys, same, same_iff, among, if_both, arith,
}
use pikawire.Sql.Order.{sort_strings}
use pikawire.Sql.Order.Canonical.{sort_strings_canonical}
use pikawire.Sql.Rows.{Row, value_at, col_names}
use pikawire.Sql.Statements.{
  Dialect, pg_dialect, my_dialect, Statement, dedupe, dedupe_loop, upsert, delete_statement,
  exec_delete, exec_upsert, exec_row,
}

length-map {ℓ κ} :
    {A : Type ℓ} {B : Type κ} (f : A → B) (xs : List A) → length (map f xs) ≡ length xs
length-map f [] = refl
length-map f (x ∷ xs) = ap suc (length-map f xs)

-- No name stands twice in the list, as in the keys of a map.
abbrev pub Unique : List Bytes → Type 0
Unique [] = Unit
Unique (x ∷ xs) = (among x xs ≡ false) × Unique xs

among-Permᴰ : {xs ys : List Bytes} → Permᴰ xs ys → (c : Bytes) → among c xs ≡ among c ys
unfolding among
among-Permᴰ Permᴰ.nil c = refl
among-Permᴰ (Permᴰ.cons {a} {b} {l₁} {l₂} e p) c = rw e (ap (λ x. same c b || x) (among-Permᴰ p c))
among-Permᴰ (Permᴰ.swap {a} {b} {a'} {b'} {l} e f) c =
    rw (e, f) (swapped (same c b') (same c a') (among c l))
  where
    swapped : (x y z : Bool) → (x || (y || z)) ≡ (y || (x || z))
    swapped true true z = refl
    swapped true false z = refl
    swapped false y z = refl
among-Permᴰ (Permᴰ.trans p q) c = among-Permᴰ p c ∙ among-Permᴰ q c

Unique-Permᴰ : {xs ys : List Bytes} → Permᴰ xs ys → Unique xs → Unique ys
unfolding among
Unique-Permᴰ Permᴰ.nil u = u
Unique-Permᴰ (Permᴰ.cons {a} {b} {l₁} {l₂} e p) (fresh, u) =
    (rw⁻¹ e (sym (among-Permᴰ p a) ∙ fresh), Unique-Permᴰ p u)
Unique-Permᴰ (Permᴰ.swap {a} {b} {a'} {b'} {l} e f) (fresh_a, (fresh_b, u)) =
    subst (λ y. Unique (a' ∷ y ∷ l)) e
      (subst (λ x. Unique (x ∷ a ∷ l)) f (exchange fresh_a fresh_b))
  where
    exchange :
        (same a b || among a l) ≡ false
        → among b l ≡ false
        → ((same b a || among b l) ≡ false) × ((among a l ≡ false) × Unique l)
    exchange x y = (ground (arith, x, y, same_iff a b, same_iff b a), (ground (arith, x), u))
Unique-Permᴰ (Permᴰ.trans p q) u = Unique-Permᴰ q (Unique-Permᴰ p u)

-- A name that has been seen does not come again.
abbrev Fresh : List Bytes → List Bytes → Type 0
Fresh seen cs = All (λ c. among c seen ≡ false) cs

Fresh-cons :
    (seen cs : List Bytes) (c : Bytes) → among c cs ≡ false → Fresh seen cs → Fresh (c ∷ seen) cs
unfolding among
Fresh-cons seen [] c absent h = tt
Fresh-cons seen (d ∷ cs) c absent (fresh, h) = (
  ground (arith, absent, fresh, same_iff c d, same_iff d c),
  Fresh-cons seen cs c (ground (arith, absent)) h,
)

dedupe_loop-Unique : (seen cs : List Bytes) → Unique cs → Fresh seen cs → dedupe_loop seen cs ≡ cs
unfolding dedupe_loop
dedupe_loop-Unique seen [] u h = refl
dedupe_loop-Unique seen (c ∷ cs) (absent, u) (fresh, h) =
    rw fresh (ap (λ l. c ∷ l) (dedupe_loop-Unique (c ∷ seen) cs u (Fresh-cons seen cs c absent h)))

Fresh-nil : (cs : List Bytes) → Fresh [] cs
unfolding among
Fresh-nil [] = tt
Fresh-nil (c ∷ cs) = (refl, Fresh-nil cs)

announced-upsert :
    (d : Dialect) (table : Bytes) (pk cols : List Bytes)
    → Unique cols
    → (upsert d table pk cols).1 ≡ length pk + length cols
unfolding upsert dedupe
announced-upsert pg_dialect table pk cols u =
    ap (λ l. length pk + length l) (dedupe_loop-Unique [] cols u (Fresh-nil cols))
announced-upsert my_dialect table pk cols u =
    ap (λ l. length pk + length l) (dedupe_loop-Unique [] cols u (Fresh-nil cols))

announced-delete :
    (d : Dialect) (table : Bytes) (pk : List Bytes) → (delete_statement d table pk).1 ≡ length pk
unfolding delete_statement
announced-delete pg_dialect table pk = refl
announced-delete my_dialect table pk = refl

-- In both dialects, for an upsert and for a delete, `execRow` passes as many arguments as the dialect announces for the
-- statement, when the columns of the row have different names.
exec_row-args :
    (d : Dialect) (r : Row)
    → Unique (keys r.cols)
    → length (exec_row d r).args ≡ (exec_row d r).announced
unfolding exec_row exec_delete exec_upsert col_names
exec_row-args d r u =
    if_both (λ (s : Statement). length s.args ≡ s.announced) r.del _ _
      (λ _. length-map (value_at r.pk) pk_cols ∙ sym (announced-delete d r.table pk_cols))
      (λ _.
        length-append (map (value_at r.pk) pk_cols) (map (value_at r.cols) cols)
        ∙ ap₂ ◌+◌ (length-map (value_at r.pk) pk_cols) (length-map (value_at r.cols) cols)
        ∙ sym (
            announced-upsert d r.table pk_cols cols (
              Unique-Permᴰ
                (Permᴰ.symm
                  (sort_strings_canonical (keys r.cols) (keys r.cols) (Permᴰ.refl (keys r.cols))).1)
                u)))
  where
    pk_cols : List Bytes
    pk_cols = sort_strings (keys r.pk)

    cols : List Bytes
    cols = sort_strings (keys r.cols)
