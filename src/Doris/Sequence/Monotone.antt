-- ===== src/Doris/Sequence/Monotone.antt =====
-- The bounds within which the sequence column grows with the position.
use native.Mathlib.Nat.{pow-suc}
use pikawire.Prelude.{ℕ, zero, suc, ◌+◌, ◌*◌, ◌/◌, ◌%◌, ◌^◌, ◌<◌, ◌≡◌, ◌↔◌, ap, ◌∙◌, true, arith}
use pikawire.Position.{Position, after}
use pikawire.Doris.Sequence.{bit_or, sequence}

bit_or-zero : (w a : ℕ) → a < 2 ^ w → bit_or w a 0 ≡ a
unfolding bit_or
bit_or-zero zero a h = omega arith
bit_or-zero (suc w) a h = ground (arith, bit_or-zero w (a / 2), pow-suc 2 w)

-- A shifted number and one below the shift have no bit in common.
bit_or_add :
    (k w a b : ℕ) → b < 2 ^ k → a * 2 ^ k + b < 2 ^ w → bit_or w (a * 2 ^ k) b ≡ a * 2 ^ k + b
unfolding bit_or
bit_or_add zero w a b hb h =
    let none_left : b ≡ 0 = omega arith in
    let whole : a * 2 ^ 0 ≡ a = omega arith in
    rw (none_left, whole) (bit_or-zero w a (omega arith) ∙ omega arith)
bit_or_add (suc k) zero a b hb h = omega arith
bit_or_add (suc k) (suc w) a b hb h =
    let half : a * 2 ^ suc k ≡ 2 * (a * 2 ^ k) = ap (λ x. a * x) (pow-suc 2 k) ∙ omega arith in
    rw half (ground (arith, bit_or_add k w a (b / 2), pow-suc 2 k, pow-suc 2 w))

-- With an offset below 2^40 and a file number below 2^23 the sequence column is not negative, and it
-- grows exactly with the position.
pub sequence-after :
    (p q : Position)
    → p.filenum < 2 ^ 23
    → p.offset < 2 ^ 40
    → q.filenum < 2 ^ 23
    → q.offset < 2 ^ 40
    → (sequence p < 2 ^ 63) × ((after q p ≡ true) ↔ (sequence p < sequence q))
unfolding sequence after
sequence-after p q pf po qf qo =
    let p_sum : bit_or 64 (p.filenum * 2 ^ 40 % 2 ^ 64) p.offset ≡ p.filenum * 2 ^ 40 + p.offset =
      sum p pf po in
    let q_sum : bit_or 64 (q.filenum * 2 ^ 40 % 2 ^ 64) q.offset ≡ q.filenum * 2 ^ 40 + q.offset =
      sum q qf qo in
    (omega arith, ground arith)
  where
    sum :
        (r : Position)
        → r.filenum < 2 ^ 23
        → r.offset < 2 ^ 40
        → bit_or 64 (r.filenum * 2 ^ 40 % 2 ^ 64) r.offset ≡ r.filenum * 2 ^ 40 + r.offset
    sum r rf ro =
        let fits : r.filenum * 2 ^ 40 % 2 ^ 64 ≡ r.filenum * 2 ^ 40 = omega arith in
        rw fits (bit_or_add 40 64 r.filenum r.offset ro (omega arith))
