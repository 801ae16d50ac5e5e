-- ===== src/Position.antt =====
-- Binlog positions: internal/envelope/position.go, and `offsetAfter` of internal/replica/handshake.go,
-- whose `Offset` is the same type.
pub mod Order
use pikawire.Prelude.{ℕ, ◌<◌, ◌^◌, Bool, ◌&&◌, ◌||◌, ltb, ◌==◌}

-- `Filenum` is a uint32 and `Offset` a uint64.
pub record Position : Type 0 where
  pub filenum : ℕ
  pub offset : ℕ

abbrev pub zero_position : Position
zero_position = record { filenum = 0; offset = 0 }

-- The fields fit their Go types.
pub record IsPosition (p : Position) : Type 0 where
  pub filenum_fits : p.filenum < 2 ^ 32
  pub offset_fits : p.offset < 2 ^ 64

-- `a.After(b)`
unfoldable pub after : Position → Position → Bool
after a b = ltb b.filenum a.filenum || (a.filenum == b.filenum && ltb b.offset a.offset)

-- `offsetAfter(a, b)`
unfoldable pub offset_after : Position → Position → Bool
offset_after a b = ltb b.filenum a.filenum || (a.filenum == b.filenum && ltb b.offset a.offset)

unfoldable pub is_zero : Position → Bool
is_zero a = a.filenum == 0 && a.offset == 0
