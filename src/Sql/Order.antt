-- ===== src/Sql/Order.antt =====
-- `sortStrings` of internal/sqlsink/mapping.go: an insertion sort.
pub mod Canonical
use pikawire.Prelude.{Bool, true, false, List, [], ◌∷◌, Bytes, less}

-- The inner loop: `s[i]` moves in front of the greater strings before it, which stand here from the
-- last to the first.
unfoldable pub sink : Bytes → List Bytes → List Bytes
sink x [] = x ∷ []
sink x (y ∷ front) = elim (less x y) [ true ↦ y ∷ sink x front | false ↦ x ∷ y ∷ front ]

-- The outer loop: the sorted front, from its end, and the rest. The result is from the end as well.
unfoldable pub sort_loop : List Bytes → List Bytes → List Bytes
sort_loop front [] = front
sort_loop front (x ∷ rest) = sort_loop (sink x front) rest

unfoldable pub back_to_front : List Bytes → List Bytes → List Bytes
back_to_front [] out = out
back_to_front (x ∷ xs) out = back_to_front xs (x ∷ out)

-- `sortStrings`
unfoldable pub sort_strings : List Bytes → List Bytes
sort_strings s = back_to_front (sort_loop [] s) []
