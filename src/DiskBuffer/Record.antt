-- ===== src/DiskBuffer/Record.antt =====
-- `bufferRecord`, `encode`, `decodeRecord` and the frame that `append` writes.
pub mod RoundTrip
use pikawire.Prelude.{
  ℕ, ◌+◌, ◌<◌, ◌^◌, Bytes, List, ◌++◌, length, drop, slice, Result, ok, err, ◌>>◌, ◌>>=◌, refuse,
  ltb,
}
use pikawire.Prelude.Words.{le_bytes, le_value}
use pikawire.Position.{Position}

pub record BufferRecord : Type 0 where
  pub pb_end : Position
  pub item_pos : Position
  pub exec_time : ℕ
  pub raw : Bytes

-- `payloadLen`
abbrev pub payload_len : BufferRecord → ℕ
payload_len r = 28 + length r.raw

-- `encode(dst)` behind `dst`
unfoldable pub encode : BufferRecord → Bytes
encode r =
    le_bytes 4 r.pb_end.filenum
    ++ (le_bytes 8 r.pb_end.offset
        ++ (le_bytes 4 r.item_pos.filenum
            ++ (le_bytes 8 r.item_pos.offset ++ (le_bytes 4 r.exec_time ++ r.raw))))

-- The `frame` of `append`: the payload length as a uint32, and the payload.
unfoldable pub frame : BufferRecord → Bytes
frame r = le_bytes 4 (payload_len r) ++ encode r

-- The errors of the buffer, by the texts of the code.
pub data BufferError : Type 0 where
  short_record buffer_closed corrupt_length read_len read_payload write_failed fsync_failed :
      BufferError
  create_failed list_failed : BufferError

unfoldable pub read_record : Bytes → BufferRecord
read_record buf = record {
  pb_end = record { filenum = le_value (slice buf 0 4); offset = le_value (slice buf 4 12) };
  item_pos = record { filenum = le_value (slice buf 12 16); offset = le_value (slice buf 16 24) };
  exec_time = le_value (slice buf 24 28);
  raw = drop 28 buf;
}

-- `decodeRecord`
unfoldable pub decode_record : Bytes → Result BufferError BufferRecord
decode_record buf = do refuse (ltb (length buf) 28) short_record; ok (read_record buf)
