-- ===== src/Prelude/Dicts.antt =====
-- Go maps with string keys, as association lists.
use mathlib.Core.Path.{◌≡◌, refl, ◌∙◌}
use mathlib.Core.Bool.{Bool, true, false}
use mathlib.Core.Option.{Option, none, some}
use mathlib.Core.List.{List, [], ◌∷◌, map}
use native.Mathlib.Omega.{arith}
use pikawire.Prelude.Tests.{if◌then◌else◌}
use pikawire.Prelude.Lists.{Bytes}
use pikawire.Prelude.Texts.{same, same_iff}

abbrev pub Dict {ℓ} : Type ℓ → Type ℓ
Dict V = List (Bytes × V)

module _ {ℓ} {V : Type ℓ} where
  -- `m[k]`
  unfoldable pub lookup : Bytes → Dict V → Option V
  lookup k [] = none
  lookup k ((j, v) ∷ m) = if same k j then some v else lookup k m

  -- `m[k] = v`
  unfoldable pub insert : Bytes → V → Dict V → Dict V
  insert k v [] = (k, v) ∷ []
  insert k v ((j, w) ∷ m) = if same k j then (k, v) ∷ m else (j, w) ∷ insert k v m

  -- `delete(m, k)`
  unfoldable pub erase : Bytes → Dict V → Dict V
  erase k [] = []
  erase k ((j, w) ∷ m) = if same k j then m else (j, w) ∷ erase k m

  -- The entries of the second map, written over the first from the last to the first (`range` fixes
  -- no order).
  unfoldable pub merge : Dict V → Dict V → Dict V
  merge m [] = m
  merge m ((k, v) ∷ n) = insert k v (merge m n)

  -- The keys that `range` visits, in some order.
  abbrev pub keys : Dict V → List Bytes
  keys m = map (λ e. e.0) m

  pub lookup-insert :
      (j k : Bytes) (v : V) (m : Dict V)
      → lookup j (insert k v m) ≡ (if same j k then some v else lookup j m)
  unfolding lookup insert
  lookup-insert j k v [] = refl
  lookup-insert j k v ((i, w) ∷ m) =
      ground (arith, same_iff j k, same_iff k i, same_iff j i, lookup-insert j k v m)

  pub lookup-merge :
      (j : Bytes) (m n : Dict V)
      → lookup j (merge m n) ≡ elim (lookup j n) [ some v ↦ some v | none ↦ lookup j m ]
  unfolding merge lookup
  lookup-merge j m [] = refl
  lookup-merge j m ((k, v) ∷ n) =
      lookup-insert j k v (merge m n) ∙ by_key (same j k) (lookup-merge j m n)
    where
      by_key :
          (b : Bool)
          → lookup j (merge m n) ≡ elim (lookup j n) [ some w ↦ some w | none ↦ lookup j m ]
          → (if b then some v else lookup j (merge m n))
            ≡ elim (if b then some v else lookup j n) [ some w ↦ some w | none ↦ lookup j m ]
      by_key true ih = refl
      by_key false ih = ih
