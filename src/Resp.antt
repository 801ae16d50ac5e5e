-- ===== src/Resp.antt =====
-- The RESP codec: internal/resp/resp.go and internal/resp/serialize.go. An index into the content is
-- modelled by the bytes from that index on: `pos >= len(content)` is the test for an empty rest.
pub mod RoundTrip
pub mod Panic
use pikawire.Prelude.{
  ℕ, zero, suc, ◌+◌, ◌-◌, ◌*◌, ◌/◌, ◌^◌, Bool, true, false, ◌&&◌, ◌||◌, not, List, [], ◌∷◌, ◌++◌,
  Bytes, length, take, drop, Result, ok, err, panic, ◌>>=◌, ◌>>◌, refuse, ltb, leb, ◌==◌,
  if◌then◌else◌,
}
use pikawire.Prelude.Decimal.{format}

-- The texts behind `ErrInvalidRESP`.
pub data RespError : Type 0 where
  missing_array_prefix negative_array_length missing_bulk_prefix negative_bulk_length : RespError
  bulk_truncated bulk_missing_crlf trailing_bytes : RespError
  missing_integer invalid_integer integer_overflow missing_crlf : RespError

abbrev pub Parsed : Type 0 → Type 0
Parsed A = Result RespError A

abbrev pub max_int64 : ℕ
max_int64 = 2 ^ 63 - 1

-- An int64: `pos n` is n and `negsuc n` is -(n + 1).
pub data ℤ : Type 0 where
  pos : ℕ → ℤ
  negsuc : ℕ → ℤ

-- `if neg { v = -v }`
unfoldable pub signed : Bool → ℕ → ℤ
signed false v = pos v
signed true zero = pos zero
signed true (suc v) = negsuc v

abbrev pub is_digit : ℕ → Bool
is_digit c = leb b'0' c && leb c b'9'

-- The digit loop of `parseIntLine`: the value and the bytes behind the digits.
unfoldable pub scan_digits : Bytes → ℕ → Parsed (ℕ × Bytes)
scan_digits [] v = ok (v, [])
scan_digits (c ∷ s) v =
    let d = c - b'0' in
    if is_digit c
    then if ltb ((max_int64 - d) / 10) v then err integer_overflow else scan_digits s (v * 10 + d)
    else ok (v, c ∷ s)

-- The line end that `parseIntLine` wants behind the digits.
unfoldable pub expect_crlf : RespError → Bytes → Parsed Bytes
expect_crlf e (c ∷ d ∷ s) = if c == b'\r' && d == b'\n' then ok s else err e
expect_crlf e _ = err e

-- The part of `parseIntLine` behind the sign.
unfoldable pub parse_digits : Bool → Bytes → Parsed (ℤ × Bytes)
parse_digits neg [] = err invalid_integer
parse_digits neg (c ∷ s) = do
  refuse (not (is_digit c)) invalid_integer
  (v, rest) ← scan_digits (c ∷ s) 0
  rest' ← expect_crlf missing_crlf rest
  ok (signed neg v, rest')

-- `parseIntLine`
unfoldable pub parse_int_line : Bytes → Parsed (ℤ × Bytes)
parse_int_line [] = err missing_integer
parse_int_line (c ∷ s) = if c == b'-' then parse_digits true s else parse_digits false (c ∷ s)

-- `if n < 0 { return err }`
unfoldable pub non_negative : RespError → ℤ → Parsed ℕ
non_negative e (pos n) = ok n
non_negative e (negsuc n) = err e

-- `int64(len(content)-pos) < blen+2`: the sum wraps around to a negative number from 2 ^ 63 on.
unfoldable pub too_short : ℕ → Bytes → Bool
too_short blen rest = ltb (blen + 2) (2 ^ 63) && ltb (length rest) (blen + 2)

-- `content[pos : pos+int(blen)]`: Go panics where the end lies behind the content.
unfoldable pub slice_front : ℕ → Bytes → Parsed (Bytes × Bytes)
slice_front blen rest =
    if leb blen (length rest) then ok (take blen rest, drop blen rest) else panic

-- `content[pos]` and `content[pos+1]` behind the argument: Go panics where they do not exist.
unfoldable pub bulk_end : Bytes → Parsed Bytes
bulk_end (c ∷ d ∷ s) = if c == b'\r' && d == b'\n' then ok s else err bulk_missing_crlf
bulk_end (c ∷ []) = if c == b'\r' then panic else err bulk_missing_crlf
bulk_end [] = panic

-- The part of a round of `ParseArray` behind the length of the argument.
unfoldable pub take_bulk : ℤ → Bytes → Parsed (Bytes × Bytes)
take_bulk n rest = do
  blen ← non_negative negative_bulk_length n
  refuse (too_short blen rest) bulk_truncated
  (arg, behind) ← slice_front blen rest
  next ← bulk_end behind
  ok (arg, next)

-- One round of the loop of `ParseArray`: an argument and what follows it.
unfoldable pub parse_bulk : Bytes → Parsed (Bytes × Bytes)
parse_bulk [] = err missing_bulk_prefix
parse_bulk (c ∷ s) = do
  refuse (not (c == b'$')) missing_bulk_prefix
  (n, rest) ← parse_int_line s
  take_bulk n rest

-- The loop, with the rounds that are left.
unfoldable pub parse_bulks : ℕ → Bytes → Parsed (List Bytes × Bytes)
parse_bulks zero s = ok ([], s)
parse_bulks (suc n) s = do
  (arg, rest) ← parse_bulk s
  (argv, rest') ← parse_bulks n rest
  ok (arg ∷ argv, rest')

-- `if pos != len(content)`
unfoldable pub expect_end : Bytes → Parsed (Unit {0})
expect_end [] = ok tt
expect_end (c ∷ s) = err trailing_bytes

-- `ParseArray`. `make([][]byte, 0, n)` panics where `n` is above what the runtime can allocate, which
-- is the parameter `max_cap`.
unfoldable pub parse_array : ℕ → Bytes → Parsed (List Bytes)
parse_array max_cap [] = err missing_array_prefix
parse_array max_cap (c ∷ s) = do
  refuse (not (c == b'*')) missing_array_prefix
  (len, rest) ← parse_int_line s
  n ← non_negative negative_array_length len
  if ltb max_cap n then panic else ok tt
  (argv, rest') ← parse_bulks n rest
  expect_end rest'
  ok argv

abbrev pub crlf : Bytes
crlf = b'\r' ∷ b'\n' ∷ []

-- What one round of `SerializeArray` appends.
unfoldable pub bulk : Bytes → Bytes
bulk arg = b'$' ∷ (format (length arg) ++ (crlf ++ (arg ++ crlf)))

unfoldable pub bulks : List Bytes → Bytes
bulks [] = []
bulks (arg ∷ argv) = bulk arg ++ bulks argv

-- `SerializeArray`
unfoldable pub serialize_array : List Bytes → Bytes
serialize_array argv = b'*' ∷ (format (length argv) ++ (crlf ++ bulks argv))
