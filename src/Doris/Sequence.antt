-- ===== src/Doris/Sequence.antt =====
-- The sequence column of `Emit` in internal/dorissink/sink.go: `int64(filenum)<<40 | int64(offset)`, in
-- base ten. An int64 is the number below 2^64 with the same bits.
pub mod Monotone
use pikawire.Prelude.{
  ℕ, zero, suc, ◌+◌, ◌-◌, ◌*◌, ◌/◌, ◌%◌, ◌^◌, Bytes, ◌∷◌, ltb, ◌==◌, ◌||◌, if◌then◌else◌,
}
use pikawire.Prelude.Decimal.{format}
use pikawire.Position.{Position}

-- `|` on numbers of `w` bits
unfoldable pub bit_or : ℕ → ℕ → ℕ → ℕ
bit_or zero a b = 0
bit_or (suc w) a b = (if a % 2 == 1 || b % 2 == 1 then 1 else 0) + 2 * bit_or w (a / 2) (b / 2)

unfoldable pub sequence : Position → ℕ
sequence p = bit_or 64 (p.filenum * 2 ^ 40 % 2 ^ 64) p.offset

-- `strconv.FormatInt` in base ten
unfoldable pub format_int : ℕ → Bytes
format_int v = if ltb v (2 ^ 63) then format v else b'-' ∷ format (2 ^ 64 - v)
