-- ===== src/DiskBuffer/Record/RoundTrip.antt =====
-- Records survive the disk.
use pikawire.Prelude.{
  ◌<◌, ◌≤◌, ◌^◌, ◌≡◌, ◌↔◌, ap, ◌∙◌, Bytes, IsByte, All, ◌++◌, length, length-drop, slice, ok, arith,
}
use pikawire.Prelude.Words.{le_bytes, le_value, le_value-le_bytes, le_word, le_word-lt}
use pikawire.Position.{IsPosition}
use pikawire.DiskBuffer.Record.{BufferRecord, payload_len, encode, read_record, decode_record}

-- The fields fit their widths, and the payload its length field.
pub record IsRecord (r : BufferRecord) : Type 0 where
  pub pb_end_fits : IsPosition r.pb_end
  pub item_pos_fits : IsPosition r.item_pos
  pub exec_fits : r.exec_time < 2 ^ 32
  pub payload_fits : payload_len r < 2 ^ 32

read-encode : (r : BufferRecord) → IsRecord r → read_record (encode r) ≡ r
unfolding encode read_record
read-encode r v = λ j. record {
  pb_end = record {
    filenum = le_value-le_bytes 4 r.pb_end.filenum v.pb_end_fits.filenum_fits j;
    offset = le_value-le_bytes 8 r.pb_end.offset v.pb_end_fits.offset_fits j;
  };
  item_pos = record {
    filenum = le_value-le_bytes 4 r.item_pos.filenum v.item_pos_fits.filenum_fits j;
    offset = le_value-le_bytes 8 r.item_pos.offset v.item_pos_fits.offset_fits j;
  };
  exec_time = le_value-le_bytes 4 r.exec_time v.exec_fits j;
  raw = r.raw;
}

decode_long : (buf : Bytes) → 28 ≤ length buf → decode_record buf ≡ ok (read_record buf)
unfolding decode_record
decode_long buf h = ground arith

pub length-encode : (r : BufferRecord) → length (encode r) ≡ payload_len r
unfolding encode
length-encode r = omega arith

pub decode-encode : (r : BufferRecord) → IsRecord r → decode_record (encode r) ≡ ok r
decode-encode r v =
    decode_long (encode r) (omega (arith, length-encode r)) ∙ ap ok (read-encode r v)

module _ (b : Bytes) (bytes : All IsByte b) (long : 28 ≤ length b) where
  encode-read : encode (read_record b) ≡ b
  unfolding encode read_record
  encode-read =
      let e₂₄ = le_word 24 4 b long bytes in
      let e₁₆ =
        ap (λ s. le_bytes 8 (le_value (slice b 16 24)) ++ s) e₂₄
        ∙ le_word 16 8 b (omega arith) bytes in
      let e₁₂ =
        ap (λ s. le_bytes 4 (le_value (slice b 12 16)) ++ s) e₁₆
        ∙ le_word 12 4 b (omega arith) bytes in
      let e₄ =
        ap (λ s. le_bytes 8 (le_value (slice b 4 12)) ++ s) e₁₂
        ∙ le_word 4 8 b (omega arith) bytes in
      ap (λ s. le_bytes 4 (le_value (slice b 0 4)) ++ s) e₄ ∙ le_word 0 4 b (omega arith) bytes

  read-IsRecord : length b < 2 ^ 32 → IsRecord (read_record b)
  unfolding read_record
  read-IsRecord small = record {
    pb_end_fits = record {
      filenum_fits = le_word-lt 0 4 b (omega arith) bytes;
      offset_fits = le_word-lt 4 8 b (omega arith) bytes;
    };
    item_pos_fits = record {
      filenum_fits = le_word-lt 12 4 b (omega arith) bytes;
      offset_fits = le_word-lt 16 8 b (omega arith) bytes;
    };
    exec_fits = le_word-lt 24 4 b long bytes;
    payload_fits = omega (arith, length-drop 28 b);
  }

-- `decodeRecord` returns the record `r` on a payload that fits its length field if and only if the
-- payload is what `encode` writes for `r` and the fields of `r` fit their widths.
pub decode_record_iff :
    (b : Bytes) (r : BufferRecord)
    → All IsByte b
    → length b < 2 ^ 32
    → (decode_record b ≡ ok r) ↔ ((encode r ≡ b) × IsRecord r)
decode_record_iff b r bytes small = (
  λ h.
      let (long, e) = sound h in
      (ap encode e ∙ encode-read b bytes long, rw e (read-IsRecord b bytes long small)),
  λ p. rw (← p.0) (decode-encode r p.1),
)
  where
    sound : decode_record b ≡ ok r → (28 ≤ length b) × (r ≡ read_record b)
    sound h = unfold decode_record in ground arith
