-- ===== src/Examples/Codecs.antt =====
-- The byte formats at concrete inputs.
use pikawire.Prelude.{
  refl, ℕ, ◌≡◌, ◌↔◌, ◌≤◌, ◌-◌, ◌++◌, List, [], ◌∷◌, Bytes, ok, panic, All, IsByte, arith,
}
use pikawire.Prelude.Decimal.{format}
use pikawire.Info.{extract_numbers}
use pikawire.Info.Numbers.{extract_pair}
use pikawire.Resp.{pos, crlf, max_int64, parse_array, parse_bulk, serialize_array, parse_int_line}
use pikawire.Resp.RoundTrip.{parse-serialize}
use pikawire.Resp.Panic.{huge_bulk, parse_bulk_panics_only}
use pikawire.Binlog.{Item, decode_type_first}
use pikawire.Binlog.Layout.{IsItem, entry_bytes, decode_iff}
use pikawire.DiskBuffer.Record.{BufferRecord, encode, decode_record}
use pikawire.DiskBuffer.Record.RoundTrip.{IsRecord, length-encode, decode_record_iff}

-- `SET k` with an empty value.
abbrev set_command : List Bytes
set_command = (b'S' ∷ b'E' ∷ b'T' ∷ []) ∷ (b'k' ∷ []) ∷ [] ∷ []

parse-serialize_example : parse_array 1000 (serialize_array set_command) ≡ ok set_command
parse-serialize_example =
    parse-serialize 1000 set_command (omega arith) (omega arith)
      (omega arith, (omega arith, (omega arith, tt)))

-- The length line of an argument of `max_int64` bytes.
abbrev huge_line : Bytes
huge_line = format max_int64 ++ (crlf ++ (b'x' ∷ []))

huge_line-panic : parse_bulk (b'$' ∷ huge_line) ≡ panic
huge_line-panic = huge_bulk max_int64 (b'x' ∷ []) (omega arith) (omega arith) (omega arith)

parse_bulk_panics_only_example :
    (b : ℕ) × (rest : Bytes) × (parse_int_line huge_line ≡ ok (pos b, rest)) × (max_int64 - 1 ≤ b)
parse_bulk_panics_only_example = parse_bulk_panics_only huge_line huge_line-panic

abbrev item : Item
item = record {
  item_type = 1;
  exec_time = 1700000000;
  term_id = 0;
  logic_id = 42;
  filenum = 3;
  offset = 100;
  content = b'o' ∷ b'k' ∷ [];
}

-- Its 36 bytes.
abbrev item_bytes : Bytes
unfolding entry_bytes
item_bytes = entry_bytes item

item_bytes-IsByte : All IsByte item_bytes
unfolding entry_bytes
item_bytes-IsByte = omega arith

decode_iff_example :
    (decode_type_first item_bytes ≡ ok item) ↔ ((entry_bytes item ≡ item_bytes) × IsItem item)
decode_iff_example = decode_iff item_bytes item item_bytes-IsByte

abbrev buffered : BufferRecord
buffered = record {
  pb_end = record { filenum = 3; offset = 150 };
  item_pos = record { filenum = 3; offset = 100 };
  exec_time = 1700000000;
  raw = b'o' ∷ b'k' ∷ [];
}

buffered-IsByte : All IsByte (encode buffered)
unfolding encode
buffered-IsByte = omega arith

decode_record_iff_example :
    (decode_record (encode buffered) ≡ ok buffered)
    ↔ ((encode buffered ≡ encode buffered) × IsRecord buffered)
decode_record_iff_example =
    decode_record_iff (encode buffered) buffered buffered-IsByte
      (omega (arith, length-encode buffered))

extract_pair_example : extract_numbers (format 3 ++ (b' ' ∷ format 155)) ≡ 3 ∷ 155 ∷ []
extract_pair_example = extract_pair 3 155 b' ' (omega arith) (omega arith) refl
