-- ===== src/Sql/Batches/Keys.antt =====
-- The keys of `Coalesce` in internal/sqlsink/sink.go, parts joined by zero bytes: parts without a zero byte can be read
-- off them.
use pikawire.Prelude.{
  ◌≡◌, refl, ap, ◌∙◌, false, List, [], ◌∷◌, ◌++◌, Bytes, All, length, join, ◌==◌, arith,
}

-- A string without a zero byte.
abbrev pub NoNul : Bytes → Type 0
NoNul s = All (λ c. (c == 0) ≡ false) s

-- A zero byte ends a string without one.
pub nul_ends :
    (a b x y : Bytes) → NoNul a → NoNul b → a ++ (0 ∷ x) ≡ b ++ (0 ∷ y) → (a ≡ b) × (x ≡ y)
nul_ends [] [] x y na nb e = (refl, ground (arith, e))
nul_ends [] (d ∷ b) x y na (nd, nb) e = absurd (ground (arith, e, nd))
nul_ends (c ∷ a) [] x y (nc, na) nb e = absurd (ground (arith, e, nc))
nul_ends (c ∷ a) (d ∷ b) x y (nc, na) (nd, nb) e =
    let (heads, tails) = parts e in
    let (same_rest, same_end) = nul_ends a b x y na nb tails in
    (ap (λ z. z ∷ a) heads ∙ ap (λ l. d ∷ l) same_rest, same_end)
  where
    parts : c ∷ (a ++ (0 ∷ x)) ≡ d ∷ (b ++ (0 ∷ y)) → (c ≡ d) × (a ++ (0 ∷ x) ≡ b ++ (0 ∷ y))
    parts e = (cc e, cc e)

join-cons :
    (s t : Bytes) (ts : List Bytes) → join (0 ∷ []) (s ∷ t ∷ ts) ≡ s ++ (0 ∷ join (0 ∷ []) (t ∷ ts))
unfolding join
join-cons s t ts = refl

-- The parts of a key, when their number is known.
pub join_inj :
    (l m : List Bytes)
    → length l ≡ length m
    → All NoNul l
    → All NoNul m
    → join (0 ∷ []) l ≡ join (0 ∷ []) m
    → l ≡ m
unfolding join
join_inj [] [] n p q e = refl
join_inj [] (b ∷ m) n p q e = absurd (omega (arith, n))
join_inj (a ∷ l) [] n p q e = absurd (omega (arith, n))
join_inj (a ∷ []) (b ∷ []) n p q e = ap (λ x. x ∷ []) e
join_inj (a ∷ []) (b ∷ y ∷ m) n p q e = absurd (omega (arith, n))
join_inj (a ∷ x ∷ l) (b ∷ []) n p q e = absurd (omega (arith, n))
join_inj (a ∷ x ∷ l) (b ∷ y ∷ m) n (pa, p) (qb, q) e =
    let (heads, tails) = nul_ends a b (join (0 ∷ []) (x ∷ l)) (join (0 ∷ []) (y ∷ m)) pa qb e in
    let rest = join_inj (x ∷ l) (y ∷ m) (omega (arith, n)) p q tails in
    ap (λ z. z ∷ x ∷ l) heads ∙ ap (λ r. b ∷ r) rest
