-- ===== src/Info.antt =====
-- `extractNumbers` of internal/info/replication.go.
pub mod Numbers
use pikawire.Prelude.{
  ℕ, ◌+◌, ◌-◌, ◌*◌, ◌%◌, ◌^◌, Bool, true, false, ◌&&◌, List, [], ◌∷◌, Bytes, leb,
}

abbrev pub digit : ℕ → Bool
digit ch = leb b'0' ch && leb ch b'9'

-- The loop: `current` is a uint64 and wraps around.
unfoldable pub extract_loop : Bytes → ℕ → Bool → List ℕ
extract_loop [] current true = current ∷ []
extract_loop [] current false = []
extract_loop (ch ∷ value) current in_number = elim (digit ch) [
  | true ↦ extract_loop value ((current * 10 + (ch - b'0')) % 2 ^ 64) true
  | false ↦ elim in_number [
    | true ↦ current ∷ extract_loop value 0 false
    | false ↦ extract_loop value current false
  ]
]

-- `extractNumbers`
unfoldable pub extract_numbers : Bytes → List ℕ
extract_numbers value = extract_loop value 0 false
