-- ===== src/Sql/Pattern.antt =====
-- Key patterns of internal/sqlsink/mapping.go: `compileKey` and `extractKey`.
pub mod Extract
use pikawire.Prelude.{
  ℕ, zero, suc, ◌+◌, Bool, true, false, ◌&&◌, not, Option, none, some, List, [], ◌∷◌, ◌++◌, Bytes,
  Result, ok, err, panic, ◌>>=◌, ◌>>◌, refuse, ◌==◌, if◌then◌else◌, length, take, drop, has_prefix,
  index, Dict, insert,
}

-- `patternSeg`: a literal or the column that is captured.
pub data PatternSeg : Type 0 where
  lit : Bytes → PatternSeg
  field : Bytes → PatternSeg

pub data PatternError : Type 0 where
  unbalanced empty_capture adjacent_captures : PatternError

-- The text in front of the next `}` and the text behind it.
unfoldable pub split_close : Bytes → Option (Bytes × Bytes)
split_close [] = none
split_close (c ∷ s) =
    let rest = split_close s in
    if c == b'}'
    then some ([], s)
    else elim rest [ none ↦ none | some (name, after) ↦ some (c ∷ name, after) ]

-- What was written to `cur`, as a literal if there is any.
unfoldable pub flush_lit : Bytes → List PatternSeg → List PatternSeg
flush_lit [] segs = segs
flush_lit (c ∷ cur) segs = segs ++ (lit (c ∷ cur) ∷ [])

-- The loop of `compileKey`. A round takes at least one byte of the pattern, so its length is fuel
-- enough.
unfoldable pub compile_loop :
    ℕ → Bytes → Bytes → List PatternSeg → Result PatternError (List PatternSeg)
compile_loop zero pat cur segs = ok (flush_lit cur segs)
compile_loop (suc fuel) [] cur segs = ok (flush_lit cur segs)
compile_loop (suc fuel) (c ∷ pat) cur segs = elim (c == b'{') [
  | false ↦ compile_loop fuel pat (cur ++ (c ∷ [])) segs
  | true ↦ elim (split_close pat) [
    | none ↦ err unbalanced
    | some ([], after) ↦ err empty_capture
    | some (d ∷ name, after) ↦
        compile_loop fuel after [] (flush_lit cur segs ++ (field (d ∷ name) ∷ []))
  ]
]

-- The test for two captures in a row.
unfoldable pub adjacent : List PatternSeg → Bool
adjacent [] = false
adjacent (lit l ∷ segs) = adjacent segs
adjacent (field f ∷ []) = false
adjacent (field f ∷ lit l ∷ segs) = adjacent segs
adjacent (field f ∷ field g ∷ segs) = true

-- `compileKey`: the segments; its key columns are their captures.
unfoldable pub compile_key : Bytes → Result PatternError (List PatternSeg)
compile_key pat = do
  segs ← compile_loop (length pat) pat [] []
  refuse (adjacent segs) adjacent_captures
  ok segs

-- The rest of the key behind the literal `l`.
unfoldable pub strip : Bytes → Bytes → Option Bytes
strip l s = if has_prefix s l then some (drop (length l) s) else none

-- The loop of `extractKey`, with the captures so far. A literal of no bytes, which `compileKey` never
-- makes, would stand for a capture.
unfoldable pub extract_loop : List PatternSeg → Bytes → Dict Bytes → Option (Dict Bytes)
extract_loop [] [] out = some out
extract_loop [] (c ∷ s) out = none
extract_loop (lit l ∷ parts) s out = elim (strip l s) [
  | none ↦ none
  | some rest ↦ extract_loop parts rest out
]
extract_loop (field f ∷ []) s out = some (insert f s out)
extract_loop (field f ∷ field g ∷ parts) s out = none
extract_loop (field f ∷ lit next ∷ parts) s out = elim (index s next) [
  | none ↦ none
  | some i ↦ extract_loop (lit next ∷ parts) (drop i s) (insert f (take i s) out)
]

-- `extractKey`: a rule without a pattern matches any key, and captures nothing.
unfoldable pub extract_key : List PatternSeg → Bytes → Option (Dict Bytes)
extract_key [] key = some []
extract_key (p ∷ parts) key = extract_loop (p ∷ parts) key []
