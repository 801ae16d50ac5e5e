-- ===== src/Binlog.antt =====
-- The binlog entry layout: internal/binlog/item.go.
pub mod Layout
use pikawire.Prelude.{
  ℕ, ◌+◌, ◌-◌, ◌≡◌, ◌<◌, ◌^◌, not, List, ◌++◌, Bytes, length, drop, slice, Result, ok, err, ◌>>=◌,
  ◌>>◌, refuse, ltb, ◌==◌,
}
use pikawire.Prelude.Words.{le_value}

-- `TypeFirst`
abbrev pub type_first : ℕ
type_first = 1

-- `Type` is a uint16, `LogicID` and `Offset` are uint64, the other numbers uint32.
pub record Item : Type 0 where
  pub item_type : ℕ
  pub exec_time : ℕ
  pub term_id : ℕ
  pub logic_id : ℕ
  pub filenum : ℕ
  pub offset : ℕ
  pub content : Bytes

-- The texts behind `ErrInvalidBinlog`.
pub data BinlogError : Type 0 where
  too_short : BinlogError
  unexpected_type : ℕ → BinlogError
  length_mismatch : ℕ → ℕ → BinlogError

abbrev pub header_size : ℕ
header_size = 34

-- The fields that `DecodeTypeFirst` reads at their fixed places.
unfoldable pub read_item : Bytes → Item
read_item binlog = record {
  item_type = le_value (slice binlog 0 2);
  exec_time = le_value (slice binlog 2 6);
  term_id = le_value (slice binlog 6 10);
  logic_id = le_value (slice binlog 10 18);
  filenum = le_value (slice binlog 18 22);
  offset = le_value (slice binlog 22 30);
  content = drop header_size binlog;
}

-- `DecodeTypeFirst`; `int` has 64 bits, so that the length field is compared as it stands.
unfoldable pub decode_type_first : Bytes → Result BinlogError Item
decode_type_first binlog = do
  refuse (ltb (length binlog) header_size) too_short
  let t = le_value (slice binlog 0 2)
  refuse (not (t == type_first)) (unexpected_type t)
  let content_len = le_value (slice binlog 30 34)
  refuse (not (length binlog - header_size == content_len))
      (length_mismatch content_len (length binlog - header_size))
  ok (read_item binlog)
