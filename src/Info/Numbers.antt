-- ===== src/Info/Numbers.antt =====
-- What `extractNumbers` reads back from printed numbers.
use pikawire.Prelude.{
  ℕ, zero, suc, ◌+◌, ◌*◌, ◌/◌, ◌%◌, ◌^◌, ◌≤◌, ◌<◌, ◌≡◌, refl, sym, ap, ◌∙◌, Bool, true, false, [],
  ◌∷◌, ◌++◌, append-nil, Bytes, ltb, arith,
}
use pikawire.Prelude.Decimal.{digits, format}
use pikawire.Info.{digit, extract_loop, extract_numbers}

one_digit :
    (d v : ℕ) (started : Bool) (s : Bytes)
    → d < 10
    → v * 10 + d < 2 ^ 64
    → extract_loop ((b'0' + d) ∷ s) v started ≡ extract_loop s (v * 10 + d) true
unfolding extract_loop
one_digit d v started s hd fits = ground (arith, fits)

-- The digits of `n` in front of `out`.
loop-digits :
    (f n : ℕ) (started : Bool) (out rest : Bytes)
    → n ≤ f
    → n < 2 ^ 64
    → extract_loop (digits f n out ++ rest) 0 started ≡ extract_loop (out ++ rest) n true
unfolding digits
loop-digits zero n started out rest h fits =
    one_digit (n % 10) 0 started (out ++ rest) (omega arith) (omega arith)
    ∙ ap (λ x. extract_loop (out ++ rest) x true) (let e : 0 * 10 + n % 10 ≡ n = omega arith in e)
loop-digits (suc f) n started out rest h fits =
    by_size (ltb n 10) refl
      (λ le. loop-digits f (n / 10) started ((b'0' + n % 10) ∷ out) rest le (omega arith))
  where
    by_size :
        (b : Bool)
        → ltb n 10 ≡ b
        → (n / 10 ≤ f
            → extract_loop (digits f (n / 10) ((b'0' + n % 10) ∷ out) ++ rest) 0 started
              ≡ extract_loop (((b'0' + n % 10) ∷ out) ++ rest) (n / 10) true)
        → extract_loop
            (elim b [ true ↦ (b'0' + n) ∷ out | false ↦ digits f (n / 10) ((b'0' + n % 10) ∷ out) ]
              ++ rest)
            0
            started
          ≡ extract_loop (out ++ rest) n true
    by_size true small ih =
        one_digit n 0 started (out ++ rest) (ground arith) (omega arith)
        ∙ ap (λ x. extract_loop (out ++ rest) x true) (let e : 0 * 10 + n ≡ n = omega arith in e)
    by_size false large ih =
        ih (ground arith)
        ∙ one_digit (n % 10) (n / 10) true (out ++ rest) (omega arith) (omega arith)
        ∙ ap (λ x. extract_loop (out ++ rest) x true)
            (let e : n / 10 * 10 + n % 10 ≡ n = omega arith in e)

-- A number printed in front of a byte that is no digit is the first number read, and reading goes on
-- behind that byte.
pub extract_first :
    (n sep : ℕ) (rest : Bytes)
    → n < 2 ^ 64
    → digit sep ≡ false
    → extract_numbers (format n ++ (sep ∷ rest)) ≡ n ∷ extract_numbers rest
unfolding extract_numbers format extract_loop
extract_first n sep rest fits apart =
    loop-digits n n false [] (sep ∷ rest) (omega arith) fits ∙ rw (extract_loop, apart) refl

-- A file number and an offset printed with one byte between them that is no digit, the form of
-- `binlog_offset`, are read back as the list of both, without a wrap-around below 2 ^ 64.
pub extract_pair :
    (filenum offset sep : ℕ)
    → filenum < 2 ^ 64
    → offset < 2 ^ 64
    → digit sep ≡ false
    → extract_numbers (format filenum ++ (sep ∷ format offset)) ≡ filenum ∷ offset ∷ []
extract_pair filenum offset sep low fits apart =
    extract_first filenum sep (format offset) low apart ∙ ap (λ l. filenum ∷ l) last_one
  where
    last_one : extract_numbers (format offset) ≡ offset ∷ []
    last_one =
        unfold extract_numbers format extract_loop in
        (ap (λ s. extract_loop s 0 false) (sym (append-nil (digits offset offset [])))
          ∙ loop-digits offset offset false [] [] (omega arith) fits)
