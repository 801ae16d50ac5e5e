-- ===== src/Envelope/Json/Reader.antt =====
-- A reader of JSON strings as RFC 8259 has them, for the text that internal/envelope/envelope.go writes: raw bytes are
-- UTF-8 (RFC 3629). Of the code points behind `\u` it knows those of one byte, the only ones that
-- `jsonEscape` writes.
use pikawire.Prelude.{
  ℕ, ◌+◌, ◌-◌, ◌*◌, Bool, true, false, Option, none, some, [], ◌∷◌, Bytes, ltb, leb, ◌==◌, ◌&&◌,
  if◌then◌else◌,
}

-- What a byte begins: a code point of one byte, one with a number of bytes to come, the next of them within bounds, or none.
pub data Lead : Type 0 where
  one_byte : Lead
  followed : ℕ → ℕ → ℕ → Lead
  no_lead : Lead

unfoldable pub lead : ℕ → Lead
lead c =
    if ltb c 128
    then one_byte
    else if ltb c 194
    then no_lead
    else if ltb c 224
    then followed 1 128 191
    else if c == 224
    then followed 2 160 191
    else if c == 237
    then followed 2 128 159
    else if ltb c 240
    then followed 2 128 191
    else if c == 240
    then followed 3 144 191
    else if ltb c 244
    then followed 3 128 191
    else if c == 244
    then followed 3 128 143
    else no_lead

-- A place in UTF-8 text: between two code points, or within one.
pub data Place : Type 0 where
  boundary : Place
  within : ℕ → ℕ → ℕ → Place

-- Whether the bytes go on with UTF-8 text from a place.
unfoldable pub valid_from : Place → Bytes → Bool
valid_from boundary [] = true
valid_from (within k lo hi) [] = false
valid_from boundary (c ∷ s) = elim (lead c) [
  | one_byte ↦ valid_from boundary s
  | followed k lo hi ↦ valid_from (within k lo hi) s
  | no_lead ↦ false
]
valid_from (within k lo hi) (c ∷ s) =
    let last = valid_from boundary s in
    let more = valid_from (within (k - 1) 128 191) s in
    if leb lo c && leb c hi then if k == 1 then last else more else false

abbrev pub valid_utf8 : Bytes → Bool
valid_utf8 s = valid_from boundary s

-- A reader's place in a string: outside of an escape, behind a backslash, with digits of `\u` to come, behind the value so
-- far, or within a code point.
pub data Mode : Type 0 where
  plain backslash : Mode
  unicode : ℕ → ℕ → Mode
  continues : ℕ → ℕ → ℕ → Mode

abbrev pub short : ℕ → Option ℕ
short c =
    if c == b'"'
    then some b'"'
    else if c == b'\\'
    then some b'\\'
    else if c == b'n'
    then some b'\n'
    else if c == b'r'
    then some b'\r'
    else if c == b't'
    then some b'\t'
    else if c == b'/'
    then some b'/'
    else if c == b'b'
    then some 8
    else if c == b'f'
    then some 12
    else none

abbrev pub digit_value : ℕ → Option ℕ
digit_value c =
    if leb b'0' c && leb c b'9'
    then some (c - b'0')
    else if leb b'a' c && leb c b'f'
    then some (c - (b'a' - 10))
    else if leb b'A' c && leb c b'F'
    then some (c - (b'A' - 10))
    else none

abbrev pub front : ℕ → Option (Bytes × Bytes) → Option (Bytes × Bytes)
front c none = none
front c (some (s, rest)) = some (c ∷ s, rest)

-- How a JSON reader reads a string behind its opening quote: the bytes of the string, and what follows the closing
-- quote; `none` refuses the text.
unfoldable pub read_string : Mode → Bytes → Option (Bytes × Bytes)
read_string mode [] = none
read_string plain (c ∷ s) =
    let rest : Option (Bytes × Bytes) = elim (lead c) [
      | one_byte ↦ front c (read_string plain s)
      | followed k lo hi ↦ front c (read_string (continues k lo hi) s)
      | no_lead ↦ none
    ] in
    let escape = read_string backslash s in
    if c == b'"'
    then some ([], s)
    else if c == b'\\'
    then escape
    else if ltb c 32
    then none
    else rest
read_string backslash (c ∷ s) =
    let rest = read_string plain s in
    let digits = read_string (unicode 3 0) s in
    if c == b'u' then digits else elim (short c) [ none ↦ none | some d ↦ front d rest ]
read_string (unicode k v) (c ∷ s) = elim (digit_value c) [
  | none ↦ none
  | some d ↦
      let last = read_string plain s in
      let more = read_string (unicode (k - 1) (v * 16 + d)) s in
      if k == 0 then if ltb (v * 16 + d) 128 then front (v * 16 + d) last else none else more
]
read_string (continues k lo hi) (c ∷ s) =
    let last = read_string plain s in
    let more = read_string (continues (k - 1) 128 191) s in
    if leb lo c && leb c hi then front c (if k == 1 then last else more) else none
