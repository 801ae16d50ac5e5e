-- ===== src/Position/Order.antt =====
-- `after` is the strict total order that every later stage relies on.
use pikawire.Prelude.{ℕ, ◌≡◌, ◌↔◌, ◌⊎◌, ◌<◌, ◌+◌, ◌*◌, ◌^◌, true, false, arith}
use pikawire.Position.{Position, IsPosition, after, offset_after, is_zero}

-- The file number above 64 bits of offset, as one number.
abbrev pub rank : Position → ℕ
rank p = p.filenum * 2 ^ 64 + p.offset

-- On positions whose offset fits 64 bits, `after` is the order of the single numbers
-- `filenum * 2 ^ 64 + offset`.
after-rank : (a b : Position) → IsPosition a → IsPosition b → (after a b ≡ true) ↔ (rank b < rank a)
unfolding after
after-rank a b ha hb = ground arith

pub after_trans : (a b c : Position) → after a b ≡ true → after b c ≡ true → after a c ≡ true
unfolding after
after_trans a b c h k = ground arith

pub after_irrefl : (a : Position) → after a a ≡ false
unfolding after
after_irrefl a = ground arith

pub after_total : (a b : Position) → (after a b ≡ true) ⊎ ((a ≡ b) ⊎ (after b a ≡ true))
unfolding after
after_total a b = ground arith

-- Not after, then after by what is after the other.
pub after_of_not_after :
    (a b c : Position) → after a b ≡ true → after c b ≡ false → after a c ≡ true
unfolding after
after_of_not_after a b c h k = ground arith

pub after-ne-zero : (a b : Position) → after a b ≡ true → is_zero a ≡ false
unfolding after is_zero
after-ne-zero a b h = ground arith

pub offset_after-after : (a b : Position) → offset_after a b ≡ after a b
unfolding offset_after after
offset_after-after a b = ground arith
