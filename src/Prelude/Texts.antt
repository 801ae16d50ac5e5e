-- ===== src/Prelude/Texts.antt =====
-- Go strings as lists of bytes: equality, order, prefixes, search and joining.
use Prim.Native.Nat.{ℕ, suc}
use mathlib.Core.Path.{◌≡◌, refl}
use mathlib.Core.Logic.{◌↔◌, ◌≢◌}
use mathlib.Core.Bool.{Bool, true, false, ◌&&◌, ◌||◌}
use mathlib.Core.Option.{Option, none, some}
use mathlib.Core.List.{List, [], ◌∷◌, ◌++◌}
use native.Mathlib.Omega.{arith}
use pikawire.Prelude.Tests.{ltb, ◌==◌, if◌then◌else◌}
use pikawire.Prelude.Lists.{Bytes, drop, length, All}

-- `==` on strings
unfoldable pub same : Bytes → Bytes → Bool
same [] [] = true
same (x ∷ xs) (y ∷ ys) = x == y && same xs ys
same _ _ = false

pub same→eq : (x y : Bytes) → same x y ≡ true → x ≡ y
unfolding same
same→eq [] [] h = refl
same→eq [] (d ∷ y) h = absurd (cc h)
same→eq (c ∷ x) [] h = absurd (cc h)
same→eq (c ∷ x) (d ∷ y) h = ground (arith, same→eq x y)

pub same_self : (x : Bytes) → same x x ≡ true
unfolding same
same_self [] = refl
same_self (c ∷ x) = ground (arith, same_self x)

pub same_iff : (x y : Bytes) → (same x y ≡ true) ↔ (x ≡ y)
same_iff x y = (same→eq x y, λ e. rw e (same_self y))

-- `slices.Contains`
unfoldable pub among : Bytes → List Bytes → Bool
among s [] = false
among s (t ∷ ts) = same s t || among s ts

-- `<` on strings
unfoldable pub less : Bytes → Bytes → Bool
less [] [] = false
less [] (d ∷ y) = true
less (c ∷ x) [] = false
less (c ∷ x) (d ∷ y) = ltb c d || (c == d && less x y)

-- `strings.HasPrefix`
unfoldable pub has_prefix : Bytes → Bytes → Bool
has_prefix s [] = true
has_prefix [] (c ∷ p) = false
has_prefix (d ∷ s) (c ∷ p) = d == c && has_prefix s p

-- `strings.Index`
unfoldable pub index : Bytes → Bytes → Option ℕ
index [] sep = if has_prefix [] sep then some 0 else none
index (c ∷ s) sep =
    let rest = index s sep in
    if has_prefix (c ∷ s) sep then some 0 else elim rest [ none ↦ none | some i ↦ some (suc i) ]

-- `strings.Join`
unfoldable pub join : Bytes → List Bytes → Bytes
join sep [] = []
join sep (s ∷ []) = s
join sep (s ∷ t ∷ ts) = s ++ (sep ++ join sep (t ∷ ts))

pub has_prefix-drop : (s p : Bytes) → has_prefix s p ≡ true → s ≡ p ++ drop (length p) s
unfolding has_prefix
has_prefix-drop s [] h = refl
has_prefix-drop [] (c ∷ p) h = absurd (cc h)
has_prefix-drop (d ∷ s) (c ∷ p) h = ground (arith, has_prefix-drop s p)

pub has_prefix-append : (p s : Bytes) → has_prefix (p ++ s) p ≡ true
unfolding has_prefix
has_prefix-append [] s = refl
has_prefix-append (c ∷ p) s = ground (arith, has_prefix-append p s)

-- Where the search succeeds, the separator stands there.
pub index-has_prefix :
    (s sep : Bytes) (i : ℕ) → index s sep ≡ some i → has_prefix (drop i s) sep ≡ true
unfolding index
index-has_prefix [] sep i h = by_test (has_prefix [] sep) refl h
  where
    by_test :
        (b : Bool)
        → has_prefix [] sep ≡ b
        → (if b then some 0 else none) ≡ some i
        → has_prefix (drop i []) sep ≡ true
    by_test true here h = let e : 0 ≡ i = ground (arith, h) in rw⁻¹ e here
    by_test false here h = absurd (cc h)
index-has_prefix (c ∷ s) sep i h =
    by_test (has_prefix (c ∷ s) sep) refl (index s sep) (λ k. index-has_prefix s sep k) h
  where
    by_test :
        (b : Bool)
        → has_prefix (c ∷ s) sep ≡ b
        → (r : Option ℕ) → ((k : ℕ) → r ≡ some k → has_prefix (drop k s) sep ≡ true)
        → (if b then some 0 else elim r [ none ↦ none | some i ↦ some (suc i) ]) ≡ some i
        → has_prefix (drop i (c ∷ s)) sep ≡ true
    by_test true here r ih h = let e : 0 ≡ i = ground (arith, h) in rw⁻¹ e here
    by_test false here none ih h = absurd (cc h)
    by_test false here (some k) ih h = let e : suc k ≡ i = ground (arith, h) in rw⁻¹ e (ih k refl)

-- The first byte of the separator does not occur in front, so the search stops behind it.
pub index-append :
    (v sep rest : Bytes) (c : ℕ)
    → All (λ d. d ≢ c) v
    → index (v ++ ((c ∷ sep) ++ rest)) (c ∷ sep) ≡ some (length v)
unfolding index has_prefix
index-append [] sep rest c h = ground (arith, has_prefix-append sep rest)
index-append (d ∷ v) sep rest c (first, others) = ground (arith, index-append v sep rest c others)
