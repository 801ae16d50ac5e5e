-- ===== src/Resp/Panic.antt =====
-- When `ParseArray` panics on a length that the content announces.
use pikawire.Prelude.{
  ℕ, ◌+◌, ◌-◌, ◌^◌, ◌≤◌, ◌<◌, ◌≡◌, refl, Bool, true, false, not, [], ◌∷◌, ◌++◌, Bytes, length,
  length-drop, drop, ltb, >>=-ne-panic, refuse-ne-panic, Bool-cases, inl, inr, ltb→lt, ◌≢◌, ◌*◌, ok,
  err, panic, arith, refuse, ◌>>=◌,
}
use pikawire.Prelude.Decimal.{format}
use pikawire.Resp.{
  Parsed, ℤ, pos, negsuc, max_int64, crlf, parse_int_line, non_negative, too_short, slice_front,
  bulk_end, take_bulk, parse_bulk, bulk_truncated, scan_digits, expect_crlf, parse_digits,
  RespError, is_digit, invalid_integer, missing_crlf,
}
use pikawire.Resp.RoundTrip.{parse_int_line-format}

-- The announcement of an argument of `b` bytes, in front of `s`.
abbrev pub announced : ℕ → Bytes → Bytes
announced b s = b'$' ∷ (format b ++ (crlf ++ s))

-- A length of at least 2 ^ 63 - 2 passes the test for truncated data, and the slice then panics.
pub huge_bulk :
    (b : ℕ) (s : Bytes)
    → max_int64 - 1 ≤ b
    → b ≤ max_int64
    → length s < b
    → parse_bulk (announced b s) ≡ panic
unfolding parse_bulk take_bulk non_negative
huge_bulk b s huge fits short =
    rw (parse_int_line-format b s fits, passes b s huge, beyond b s short) refl
  where
    passes : (b : ℕ) (s : Bytes) → max_int64 - 1 ≤ b → too_short b s ≡ false
    passes b s h = unfold too_short in ground arith

    beyond : (b : ℕ) (s : Bytes) → length s < b → slice_front b s ≡ panic
    beyond b s h = unfold slice_front in ground arith

bulk_end-ne-panic : (s : Bytes) → 2 ≤ length s → bulk_end s ≢ panic
unfolding bulk_end
bulk_end-ne-panic [] h = absurd (omega arith)
bulk_end-ne-panic (c ∷ []) h = absurd (omega arith)
bulk_end-ne-panic (c ∷ d ∷ s) h = ground arith

-- Behind a length that passes the test without overflow, the slice and the two reads are in range.
module _ (b : ℕ) (rest : Bytes) (small : b + 2 < 2 ^ 63) (admitted : too_short b rest ≡ false) where
  in_range : b + 2 ≤ length rest
  unfolding too_short
  in_range = ground arith

  slice_front-ne-panic : slice_front b rest ≢ panic
  unfolding slice_front
  slice_front-ne-panic h = ground (arith, in_range)

  slice_front-rest : (x : Bytes × Bytes) → slice_front b rest ≡ ok x → x.1 ≡ drop b rest
  unfolding slice_front
  slice_front-rest x h = ground arith

  take_bulk-ne-panic : take_bulk (pos b) rest ≢ panic
  unfolding take_bulk non_negative
  take_bulk-ne-panic =
      >>=-ne-panic (refuse (too_short b rest) bulk_truncated) _ (refuse-ne-panic _ _) λ _ _.
        >>=-ne-panic (slice_front b rest) _ slice_front-ne-panic λ x h.
          >>=-ne-panic (bulk_end x.1) _
            (bulk_end-ne-panic x.1
              (rw (slice_front-rest x h) (omega (arith, length-drop b rest, in_range))))
            (λ next k p. cc)

take_bulk_panics_only :
    (n : ℤ) (rest : Bytes) → take_bulk n rest ≡ panic → (b : ℕ) × (n ≡ pos b) × (max_int64 - 1 ≤ b)
take_bulk_panics_only (negsuc n) rest e = absurd (unfold take_bulk non_negative in cc e)
take_bulk_panics_only (pos b) rest e = (b, refl, bound)
  where
    bound : max_int64 - 1 ≤ b
    bound = elim (Bool-cases (ltb (b + 2) (2 ^ 63))) [
      | inl small ↦ elim (Bool-cases (too_short b rest)) [
        | inl refused ↦ absurd (unfold take_bulk non_negative in cc (rw refused at e))
        | inr admitted ↦ absurd (take_bulk-ne-panic b rest (ltb→lt _ _ small) admitted e)
      ]
      | inr huge ↦ ground arith
    ]

expect_crlf-ne-panic : (e : RespError) (s : Bytes) → expect_crlf e s ≢ panic
unfolding expect_crlf
expect_crlf-ne-panic e (c ∷ d ∷ s) = ground arith
expect_crlf-ne-panic e _ = ground arith

scan_digits-ne-panic : (s : Bytes) (v : ℕ) → scan_digits s v ≢ panic
unfolding scan_digits
scan_digits-ne-panic [] v = ground arith
scan_digits-ne-panic (c ∷ s) v = ground (arith, scan_digits-ne-panic s (v * 10 + (c - b'0')))

parse_digits-ne-panic : (neg : Bool) (s : Bytes) → parse_digits neg s ≢ panic
unfolding parse_digits
parse_digits-ne-panic neg [] = ground arith
parse_digits-ne-panic neg (c ∷ s) =
    >>=-ne-panic (refuse (not (is_digit c)) invalid_integer) _ (refuse-ne-panic _ _) λ _ _.
      >>=-ne-panic (scan_digits (c ∷ s) 0) _ (scan_digits-ne-panic (c ∷ s) 0) λ x _.
        >>=-ne-panic (expect_crlf missing_crlf x.1) _ (expect_crlf-ne-panic missing_crlf x.1)
          (λ next k p. cc)

parse_int_line-ne-panic : (s : Bytes) → parse_int_line s ≢ panic
unfolding parse_int_line
parse_int_line-ne-panic [] = ground arith
parse_int_line-ne-panic (c ∷ s) =
    ground (arith, parse_digits-ne-panic true s, parse_digits-ne-panic false (c ∷ s))

-- Conversely a round panics only where the announced length is at least 2 ^ 63 - 2.
pub parse_bulk_panics_only :
    (s : Bytes)
    → parse_bulk (b'$' ∷ s) ≡ panic
    → (b : ℕ) × (rest : Bytes) × (parse_int_line s ≡ ok (pos b, rest)) × (max_int64 - 1 ≤ b)
unfolding parse_bulk
parse_bulk_panics_only s = by_line (parse_int_line s) refl
  where
    by_line :
        (r : Parsed (ℤ × Bytes))
        → parse_int_line s ≡ r
        → (r >>= λ x. take_bulk x.0 x.1) ≡ panic
        → (b : ℕ) × (rest : Bytes) × (parse_int_line s ≡ ok (pos b, rest)) × (max_int64 - 1 ≤ b)
    by_line (ok (n, rest)) line e =
        let (b, is_pos, huge) = take_bulk_panics_only n rest e in
        (b, rest, rw (← is_pos) line, huge)
    by_line (err x) line e = absurd (cc)
    by_line panic line e = absurd (parse_int_line-ne-panic s line)
