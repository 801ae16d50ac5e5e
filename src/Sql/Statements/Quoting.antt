-- ===== src/Sql/Statements/Quoting.antt =====
-- Names in a statement: PostgreSQL's are read back whatever they hold, MySQL's can end early.
use pikawire.Prelude.{
  ℕ, ◌≡◌, ◌≢◌, refl, sym, ap, Bool, true, false, Option, none, some, [], ◌∷◌, ◌++◌, append_assoc,
  Bytes, All, ◌==◌, ==_iff, if◌then◌else◌, arith,
}
use pikawire.Sql.Statements.{doubled, quote, backticked}

abbrev front : ℕ → Option (Bytes × Bytes) → Option (Bytes × Bytes)
front c none = none
front c (some (id, rest)) = some (c ∷ id, rest)

-- How a database reads a name behind its opening quote `q`: two quotes stand for one, one ends the name. The
-- result is the name and what follows it.
unfoldable pub read_name : ℕ → Bytes → Option (Bytes × Bytes)
read_name q [] = none
read_name q (c ∷ []) = if c == q then some ([], []) else none
read_name q (c ∷ d ∷ s) =
    let rest = front q (read_name q s) in
    let more = front c (read_name q (d ∷ s)) in
    if c == q then (if d == q then rest else some ([], d ∷ s)) else more

-- What follows the name does not go on with a quote.
abbrev pub Ends : ℕ → Bytes → Type 0
Ends q [] = Unit
Ends q (c ∷ s) = c ≢ q

read_name-end : (q : ℕ) (rest : Bytes) → Ends q rest → read_name q (q ∷ rest) ≡ some ([], rest)
unfolding read_name
read_name-end q [] h = let e : (q == q) ≡ true = (==_iff q q).1 refl in rw e refl
read_name-end q (d ∷ s) h = ground (arith, h)

read_name-doubled :
    (q : ℕ) (id rest : Bytes)
    → Ends q rest
    → read_name q (doubled q id ++ (q ∷ rest)) ≡ some (id, rest)
unfolding doubled read_name
read_name-doubled q [] rest h = read_name-end q rest h
read_name-doubled q (c ∷ id) rest h = by_quote (c == q) refl (read_name-doubled q id rest h)
  where
    by_next :
        (t : Bytes)
        → (c == q) ≡ false
        → read_name q t ≡ some (id, rest)
        → read_name q (c ∷ t) ≡ some (c ∷ id, rest)
    by_next [] other ih = absurd (cc ih)
    by_next (d ∷ t) other ih = rw other (ap (front c) ih)

    by_quote :
        (b : Bool)
        → (c == q) ≡ b
        → read_name q (doubled q id ++ (q ∷ rest)) ≡ some (id, rest)
        → read_name q ((if b then c ∷ c ∷ doubled q id else c ∷ doubled q id) ++ (q ∷ rest))
          ≡ some (c ∷ id, rest)
    by_quote true here ih =
        let e : c ≡ q = (==_iff c q).0 here in
        rw here (rw ih (ap (λ k. some (k ∷ id, rest)) (sym e)))
    by_quote false there ih = by_next (doubled q id ++ (q ∷ rest)) there ih

-- PostgreSQL reads a quoted name back as it was, whatever bytes it holds, and goes on behind it.
read_name-quote :
    (id rest : Bytes)
    → Ends b'"' rest
    → quote id ++ rest ≡ b'"' ∷ (doubled b'"' id ++ (b'"' ∷ rest))
      × (read_name b'"' (doubled b'"' id ++ (b'"' ∷ rest)) ≡ some (id, rest))
unfolding quote
read_name-quote id rest h = (
  ap (λ l. b'"' ∷ l) (append_assoc (doubled b'"' id) (b'"' ∷ []) rest),
  read_name-doubled b'"' id rest h,
)

-- A MySQL column name that holds a backtick, the first one not in front of another, ends there for MySQL: what stands behind the
-- backtick in the name is read as SQL text.
pub backticked_breaks_out :
    (before after : Bytes) (c : ℕ)
    → All (λ d. d ≢ b'`') before
    → c ≢ b'`'
    → (tail : Bytes) × (backticked (before ++ (b'`' ∷ c ∷ after)) ≡ b'`' ∷ tail)
      × (read_name b'`' tail ≡ some (before, c ∷ (after ++ (b'`' ∷ []))))
unfolding backticked read_name
backticked_breaks_out before after c plain other = (
  before ++ (b'`' ∷ c ∷ (after ++ (b'`' ∷ []))),
  ap (λ l. b'`' ∷ l) (append_assoc before (b'`' ∷ c ∷ after) (b'`' ∷ [])),
  read before plain,
)
  where
    step :
        (d : ℕ) (id t rest : Bytes)
        → d ≢ b'`'
        → read_name b'`' t ≡ some (id, rest)
        → read_name b'`' (d ∷ t) ≡ some (d ∷ id, rest)
    step d id [] rest differs ih = absurd (cc ih)
    step d id (e ∷ t) rest differs ih =
        let off : (d == b'`') ≡ false = ground (arith, differs) in rw off (ap (front d) ih)

    read :
        (before : Bytes)
        → All (λ d. d ≢ b'`') before
        → read_name b'`' (before ++ (b'`' ∷ c ∷ (after ++ (b'`' ∷ []))))
          ≡ some (before, c ∷ (after ++ (b'`' ∷ [])))
    read [] h = read_name-end b'`' (c ∷ (after ++ (b'`' ∷ []))) other
    read (d ∷ before) (differs, h) = step d before _ _ differs (read before h)
