-- ===== src/Resp/RoundTrip.antt =====
-- `ParseArray` reads back what `SerializeArray` writes.
use pikawire.Prelude.{
  ℕ, zero, suc, ◌+◌, ◌-◌, ◌*◌, ◌/◌, ◌%◌, ◌≤◌, ◌<◌, ◌≡◌, refl, sym, ap, ◌∙◌, Bool, true, false, List,
  [], ◌∷◌, ◌++◌, append_assoc, append-nil, Bytes, length, take-append_left, drop-append_left,
  length-append, All, ltb, leb, ◌==◌, ltb→lt, ok, arith,
}
use pikawire.Prelude.Decimal.{digits, format, StartsWithDigit, digits-StartsWithDigit}
use pikawire.Resp.{
  pos, max_int64, crlf, signed, scan_digits, expect_crlf, parse_digits, parse_int_line,
  non_negative, too_short, slice_front, bulk_end, take_bulk, parse_bulk, parse_bulks, expect_end,
  parse_array, bulk, bulks, serialize_array, is_digit,
}

-- One digit, where the value stays in range.
scan_digit :
    (d v : ℕ) (s : Bytes)
    → d < 10
    → v * 10 + d ≤ max_int64
    → scan_digits ((b'0' + d) ∷ s) v ≡ scan_digits s (v * 10 + d)
unfolding scan_digits
scan_digit d v s hd fits = ground arith

-- The last digit of `n` behind the others.
last_digit :
    (n : ℕ) (s : Bytes)
    → n ≤ max_int64
    → scan_digits ((b'0' + n % 10) ∷ s) (n / 10) ≡ scan_digits s n
last_digit n s fits =
    scan_digit (n % 10) (n / 10) s (omega arith) (omega arith)
    ∙ ap (scan_digits s) (let e : n / 10 * 10 + n % 10 ≡ n = omega arith in e)

small_digit : (n : ℕ) (s : Bytes) → n < 10 → scan_digits ((b'0' + n) ∷ s) 0 ≡ scan_digits s n
small_digit n s h =
    scan_digit n 0 s h (omega arith)
    ∙ ap (scan_digits s) (let e : 0 * 10 + n ≡ n = omega arith in e)

-- Scanning the digits of `n` in front of `out` leaves `n` and goes on with `out`.
scan-digits :
    (f n : ℕ) (out rest : Bytes)
    → n ≤ f
    → n ≤ max_int64
    → scan_digits (digits f n out ++ rest) 0 ≡ scan_digits (out ++ rest) n
unfolding digits
scan-digits zero n out rest h fits =
    let e : n ≡ n % 10 = omega arith in
    small_digit (n % 10) (out ++ rest) (omega arith) ∙ ap (scan_digits (out ++ rest)) (sym e)
scan-digits (suc f) n out rest h fits =
    by_size (ltb n 10) refl
      (λ le. scan-digits f (n / 10) ((b'0' + n % 10) ∷ out) rest le (omega arith))
  where
    by_size :
        (b : Bool)
        → ltb n 10 ≡ b
        → (n / 10 ≤ f
            → scan_digits (digits f (n / 10) ((b'0' + n % 10) ∷ out) ++ rest) 0
              ≡ scan_digits (((b'0' + n % 10) ∷ out) ++ rest) (n / 10))
        → scan_digits
            (elim b [ true ↦ (b'0' + n) ∷ out | false ↦ digits f (n / 10) ((b'0' + n % 10) ∷ out) ]
              ++ rest)
            0
          ≡ scan_digits (out ++ rest) n
    by_size true small ih = small_digit n (out ++ rest) (ltb→lt _ _ small)
    by_size false big ih = ih (ground arith) ∙ last_digit n (out ++ rest) fits

scan-format :
    (n : ℕ) (rest : Bytes) → n ≤ max_int64 → scan_digits (format n ++ rest) 0 ≡ scan_digits rest n
unfolding format
scan-format n rest fits = scan-digits n n [] rest (omega arith) fits

not_minus : (c : ℕ) → b'0' ≤ c → c ≤ b'9' → (c == b'-') ≡ false
not_minus c lo hi = ground arith

digit_passes : (c : ℕ) → b'0' ≤ c → c ≤ b'9' → is_digit c ≡ true
digit_passes c lo hi = ground arith

-- A decimal print behind which a line ends is read back.
pub parse_int_line-format :
    (n : ℕ) (rest : Bytes)
    → n ≤ max_int64
    → parse_int_line (format n ++ (crlf ++ rest)) ≡ ok (pos n, rest)
parse_int_line-format n rest fits =
    read (format n) (unfold format in digits-StartsWithDigit n n [])
      (scan-format n (crlf ++ rest) fits ∙ stop)
  where
    stop : scan_digits (crlf ++ rest) n ≡ ok (n, crlf ++ rest)
    stop = unfold scan_digits in refl

    read :
        (s : Bytes)
        → StartsWithDigit s
        → scan_digits (s ++ (crlf ++ rest)) 0 ≡ ok (n, crlf ++ rest)
        → parse_int_line (s ++ (crlf ++ rest)) ≡ ok (pos n, rest)
    read [] h e = absurd h
    read (c ∷ s) h e =
        unfold parse_int_line parse_digits expect_crlf signed in
        rw (not_minus c h.0 h.1, digit_passes c h.0 h.1, e) refl

room : (arg s : Bytes) → leb (length arg) (length (arg ++ s)) ≡ true
room arg s = ground (arith, length-append arg s)

-- An argument whose length leaves room for a line end below 2 ^ 63 is not refused.
long_enough :
    (arg s : Bytes)
    → length arg ≤ max_int64 - 2
    → too_short (length arg) (arg ++ (crlf ++ s)) ≡ false
unfolding too_short
long_enough arg s fits = ground (arith, length-append arg (crlf ++ s))

slice_front-append : (arg s : Bytes) → slice_front (length arg) (arg ++ s) ≡ ok (arg, s)
unfolding slice_front
slice_front-append arg s = rw (room, take-append_left, drop-append_left) refl

-- The bulk of one argument is read back, and what follows it is left.
pub parse_bulk-bulk :
    (arg rest : Bytes) → length arg ≤ max_int64 - 2 → parse_bulk (bulk arg ++ rest) ≡ ok (arg, rest)
unfolding parse_bulk take_bulk bulk non_negative bulk_end
parse_bulk-bulk arg rest fits =
    rw
      (
        append_assoc (format (length arg)) (crlf ++ (arg ++ crlf)) rest,
        parse_int_line-format (length arg) ((arg ++ crlf) ++ rest) (omega arith),
        append_assoc arg crlf rest,
        long_enough arg rest fits,
        slice_front-append arg (crlf ++ rest),
      )
      refl

parse_bulks-bulks :
    (argv : List Bytes) (rest : Bytes)
    → All (λ arg. length arg ≤ max_int64 - 2) argv
    → parse_bulks (length argv) (bulks argv ++ rest) ≡ ok (argv, rest)
unfolding parse_bulks bulks
parse_bulks-bulks [] rest _ = refl
parse_bulks-bulks (arg ∷ argv) rest (fits, all_fit) =
    rw
      (
        append_assoc (bulk arg) (bulks argv) rest,
        parse_bulk-bulk arg (bulks argv ++ rest) fits,
        parse_bulks-bulks argv rest all_fit,
      )
      refl

-- Every argument vector whose lengths fit int64 is read back from its serialization, if the runtime
-- can allocate a slice of its length: whatever bytes the arguments hold.
pub parse-serialize :
    (max_cap : ℕ) (argv : List Bytes)
    → length argv ≤ max_cap
    → length argv ≤ max_int64
    → All (λ arg. length arg ≤ max_int64 - 2) argv
    → parse_array max_cap (serialize_array argv) ≡ ok argv
unfolding parse_array serialize_array non_negative expect_end
parse-serialize max_cap argv can fits all_fit =
    rw
      (
        parse_int_line-format (length argv) (bulks argv) fits,
        not_above max_cap (length argv) can,
        read,
      )
      refl
  where
    not_above : (m n : ℕ) → n ≤ m → ltb m n ≡ false
    not_above m n h = ground arith

    read : parse_bulks (length argv) (bulks argv) ≡ ok (argv, [])
    read = rw append-nil at (parse_bulks-bulks argv [] all_fit)
