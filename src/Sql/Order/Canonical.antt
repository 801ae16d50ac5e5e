-- ===== src/Sql/Order/Canonical.antt =====
-- The sorted list does not depend on the order of the input, which for the keys of a map is random.
use mathlib.Core.Path.{subst}
use mathlib.Core.List.Permᴰ
use mathlib.Core.List.{Permᴰ}
use pikawire.Prelude.{
  ◌≡◌, refl, sym, ap, ◌∙◌, Bool, true, false, List, [], ◌∷◌, ◌++◌, append-nil, Bytes, less, arith,
}
use pikawire.Sql.Order.{sink, sort_loop, back_to_front, sort_strings}

pub less_trans : (x y z : Bytes) → less x y ≡ true → less y z ≡ true → less x z ≡ true
unfolding less
less_trans [] [] [] h k = absurd (cc h)
less_trans [] (d ∷ y) [] h k = absurd (cc k)
less_trans [] y (e ∷ z) h k = refl
less_trans (c ∷ x) [] z h k = absurd (cc h)
less_trans (c ∷ x) (d ∷ y) [] h k = absurd (cc k)
less_trans (c ∷ x) (d ∷ y) (e ∷ z) h k = ground (arith, less_trans x y z)

-- Two strings neither of which is less are the same.
pub less_antisymm : (x y : Bytes) → less x y ≡ false → less y x ≡ false → x ≡ y
unfolding less
less_antisymm [] [] h k = refl
less_antisymm [] (d ∷ y) h k = absurd (cc h)
less_antisymm (c ∷ x) [] h k = absurd (cc k)
less_antisymm (c ∷ x) (d ∷ y) h k = ground (arith, less_antisymm x y)

pub less_asymm : (x y : Bytes) → less x y ≡ true → less y x ≡ false
unfolding less
less_asymm [] [] h = absurd (cc h)
less_asymm [] (d ∷ y) h = refl
less_asymm (c ∷ x) [] h = absurd (cc h)
less_asymm (c ∷ x) (d ∷ y) h = ground (arith, less_asymm x y)

sink_comm : (x y : Bytes) (front : List Bytes) → sink x (sink y front) ≡ sink y (sink x front)
unfolding sink
sink_comm x y [] = ground (arith, less_antisymm x y, less_asymm x y, less_asymm y x)
sink_comm x y (z ∷ front) = ground (
  arith,
  sink_comm x y front,
  less_antisymm x y,
  less_asymm x y,
  less_asymm y x,
  less_trans x y z,
  less_trans y x z,
)

-- The loop with one more string in the front, put there before or behind the others.
sort_loop-sink :
    (rest : List Bytes) (x : Bytes) (front : List Bytes)
    → sort_loop (sink x front) rest ≡ sink x (sort_loop front rest)
unfolding sort_loop
sort_loop-sink [] x front = refl
sort_loop-sink (y ∷ rest) x front =
    ap (λ l. sort_loop l rest) (sink_comm y x front) ∙ sort_loop-sink rest x (sink y front)

sort_loop-Permᴰ :
    {xs ys : List Bytes}
    → Permᴰ xs ys
    → (front : List Bytes) → sort_loop front xs ≡ sort_loop front ys
unfolding sort_loop
sort_loop-Permᴰ Permᴰ.nil front = refl
sort_loop-Permᴰ (Permᴰ.cons {a} {b} {l₁} {l₂} e p) front =
    ap (λ x. sort_loop (sink x front) l₁) e ∙ sort_loop-Permᴰ p (sink b front)
sort_loop-Permᴰ (Permᴰ.swap {a} {b} {a'} {b'} {l} e f) front =
    ap (λ x. sort_loop (sink b (sink x front)) l) e
    ∙ ap (λ x. sort_loop (sink x (sink b' front)) l) f
    ∙ ap (λ s. sort_loop s l) (sink_comm a' b' front)
sort_loop-Permᴰ (Permᴰ.trans p q) front = sort_loop-Permᴰ p front ∙ sort_loop-Permᴰ q front

sink-Permᴰ : (x : Bytes) (front : List Bytes) → Permᴰ (sink x front) (x ∷ front)
unfolding sink
sink-Permᴰ x [] = Permᴰ.refl (x ∷ [])
sink-Permᴰ x (y ∷ front) = by_test (less x y) (sink-Permᴰ x front)
  where
    by_test :
        (b : Bool)
        → Permᴰ (sink x front) (x ∷ front)
        → Permᴰ (elim b [ true ↦ y ∷ sink x front | false ↦ x ∷ y ∷ front ]) (x ∷ y ∷ front)
    by_test true p = Permᴰ.trans (Permᴰ.cons refl p) (Permᴰ.swap refl refl)
    by_test false p = Permᴰ.refl (x ∷ y ∷ front)

sort_loop_all : (rest front : List Bytes) → Permᴰ (sort_loop front rest) (rest ++ front)
unfolding sort_loop
sort_loop_all [] front = Permᴰ.refl front
sort_loop_all (x ∷ rest) front =
    subst (λ l. Permᴰ l (x ∷ (rest ++ front))) (sym (sort_loop-sink rest x front))
      (Permᴰ.trans (sink-Permᴰ x (sort_loop front rest))
        (Permᴰ.cons refl (sort_loop_all rest front)))

back_to_front-Permᴰ : (xs out : List Bytes) → Permᴰ (back_to_front xs out) (xs ++ out)
unfolding back_to_front
back_to_front-Permᴰ [] out = Permᴰ.refl out
back_to_front-Permᴰ (x ∷ xs) out =
    Permᴰ.trans (back_to_front-Permᴰ xs (x ∷ out)) (Permᴰ.middle x xs out)

-- The strings come in ascending order.
abbrev pub Ascending : List Bytes → Type 0
Ascending [] = Unit
Ascending (x ∷ []) = Unit
Ascending (x ∷ y ∷ l) = (less y x ≡ false) × Ascending (y ∷ l)

-- From the end, the strings come in descending order.
abbrev Descending : List Bytes → Type 0
Descending [] = Unit
Descending (x ∷ []) = Unit
Descending (x ∷ y ∷ l) = (less x y ≡ false) × Descending (y ∷ l)

sink-Descending : (x : Bytes) (front : List Bytes) → Descending front → Descending (sink x front)
unfolding sink
sink-Descending x [] h = tt
sink-Descending x (y ∷ []) h = by_test (less x y) refl
  where
    by_test :
        (b : Bool) → less x y ≡ b → Descending (elim b [ true ↦ y ∷ x ∷ [] | false ↦ x ∷ y ∷ [] ])
    by_test true lt = (less_asymm x y lt, tt)
    by_test false ge = (ge, tt)
sink-Descending x (y ∷ z ∷ front) (ge, h) =
    by_test (less x y) refl (less x z) (sink-Descending x (z ∷ front) h)
  where
    by_test :
        (b : Bool)
        → less x y ≡ b
        → (c : Bool) → Descending (elim c [ true ↦ z ∷ sink x front | false ↦ x ∷ z ∷ front ])
        → Descending (elim b [
          | true ↦ y ∷ elim c [ true ↦ z ∷ sink x front | false ↦ x ∷ z ∷ front ]
          | false ↦ x ∷ y ∷ z ∷ front
        ])
    by_test true lt true d = (ge, d)
    by_test true lt false d = (less_asymm x y lt, d)
    by_test false above c d = (above, (ge, h))

sort_loop-Descending :
    (rest front : List Bytes) → Descending front → Descending (sort_loop front rest)
unfolding sort_loop
sort_loop-Descending [] front h = h
sort_loop-Descending (x ∷ rest) front h =
    sort_loop-Descending rest (sink x front) (sink-Descending x front h)

-- The two lists meet in order.
abbrev Meet : List Bytes → List Bytes → Type 0
Meet [] out = Unit
Meet (x ∷ xs) [] = Unit
Meet (x ∷ xs) (y ∷ out) = less y x ≡ false

back_to_front-Ascending :
    (xs out : List Bytes)
    → Descending xs
    → Ascending out
    → Meet xs out
    → Ascending (back_to_front xs out)
unfolding back_to_front
back_to_front-Ascending [] out d a m = a
back_to_front-Ascending (x ∷ []) [] d a m = tt
back_to_front-Ascending (x ∷ []) (y ∷ out) d a m = (m, a)
back_to_front-Ascending (x ∷ z ∷ xs) [] (ge, d) a m =
    back_to_front-Ascending (z ∷ xs) (x ∷ []) d tt ge
back_to_front-Ascending (x ∷ z ∷ xs) (y ∷ out) (ge, d) a m =
    back_to_front-Ascending (z ∷ xs) (x ∷ y ∷ out) d (m, a) ge

-- `sortStrings` puts the strings in ascending order, keeps each as often as it came, and gives the
-- same list for every order of the input.
pub sort_strings_canonical :
    (xs ys : List Bytes)
    → Permᴰ xs ys
    → Ascending (sort_strings xs) × Permᴰ (sort_strings xs) xs × (sort_strings xs ≡ sort_strings ys)
unfolding sort_strings
sort_strings_canonical xs ys p = (
  back_to_front-Ascending (sort_loop [] xs) [] (sort_loop-Descending xs [] tt) tt
      (no_meet (sort_loop [] xs)),
  Permᴰ.trans (all (sort_loop [] xs))
      (subst (λ l. Permᴰ (sort_loop [] xs) l) (append-nil xs) (sort_loop_all xs [])),
  ap (λ l. back_to_front l []) (sort_loop-Permᴰ p []),
)
  where
    no_meet : (l : List Bytes) → Meet l []
    no_meet [] = tt
    no_meet (x ∷ l) = tt

    all : (l : List Bytes) → Permᴰ (back_to_front l []) l
    all l = subst (λ m. Permᴰ (back_to_front l []) m) (append-nil l) (back_to_front-Permᴰ l [])
