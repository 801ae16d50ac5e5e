-- ===== src/Binlog/Layout.antt =====
-- The layout that `DecodeTypeFirst` accepts, written out as an encoder: the master's side of it.
use pikawire.Prelude.{
  ℕ, ◌-◌, ◌^◌, ◌≡◌, ◌↔◌, ◌≤◌, ◌<◌, refl, sym, ap, ==_iff, ◌∙◌, true, false, ◌++◌, Bytes, IsByte,
  All, length, length-drop, drop, slice, ok, ltb, ◌==◌, arith,
}
use pikawire.Prelude.Words.{le_bytes, le_value, le_value-le_bytes, le_word, le_word-lt}
use pikawire.Binlog.{Item, type_first, read_item, decode_type_first}

-- The fields fit their widths, and the content its length field.
pub record IsItem (i : Item) : Type 0 where
  pub type_ok : i.item_type ≡ type_first
  pub exec_fits : i.exec_time < 256 ^ 4
  pub term_fits : i.term_id < 256 ^ 4
  pub logic_fits : i.logic_id < 256 ^ 8
  pub filenum_fits : i.filenum < 256 ^ 4
  pub offset_fits : i.offset < 256 ^ 8
  pub content_fits : length i.content < 256 ^ 4

-- An entry as the master writes it.
unfoldable pub entry_bytes : Item → Bytes
entry_bytes i =
    le_bytes 2 i.item_type
    ++ (le_bytes 4 i.exec_time
        ++ (le_bytes 4 i.term_id
            ++ (le_bytes 8 i.logic_id
                ++ (le_bytes 4 i.filenum
                    ++ (le_bytes 8 i.offset ++ (le_bytes 4 (length i.content) ++ i.content))))))

read-entry_bytes : (i : Item) → IsItem i → read_item (entry_bytes i) ≡ i
unfolding entry_bytes read_item
read-entry_bytes i v = λ j. record {
  item_type = le_value-le_bytes 2 i.item_type (omega (arith, v.type_ok)) j;
  exec_time = le_value-le_bytes 4 i.exec_time v.exec_fits j;
  term_id = le_value-le_bytes 4 i.term_id v.term_fits j;
  logic_id = le_value-le_bytes 8 i.logic_id v.logic_fits j;
  filenum = le_value-le_bytes 4 i.filenum v.filenum_fits j;
  offset = le_value-le_bytes 8 i.offset v.offset_fits j;
  content = i.content;
}

-- The three tests of `DecodeTypeFirst` pass.
abbrev pub Accepted : Bytes → Type 0
Accepted b =
    (34 ≤ length b)
    × (le_value (slice b 0 2) ≡ type_first)
    × (length b - 34 ≡ le_value (slice b 30 34))

decode-Accepted : (b : Bytes) → Accepted b → decode_type_first b ≡ ok (read_item b)
unfolding decode_type_first
decode-Accepted b (long, first, whole) =
    rw
      (
        (let e : ltb (length b) 34 ≡ false = ground arith in e),
        (let e : (le_value (slice b 0 2) == 1) ≡ true = (==_iff _ _).1 first in e),
        (let e : (length b - 34 == le_value (slice b 30 34)) ≡ true = (==_iff _ _).1 whole in e),
      )
      refl

decode_sound : (b : Bytes) {i : Item} → decode_type_first b ≡ ok i → Accepted b × (i ≡ read_item b)
unfolding decode_type_first
decode_sound b h = ground arith

entry_bytes-Accepted : (i : Item) → IsItem i → Accepted (entry_bytes i)
unfolding entry_bytes
entry_bytes-Accepted i v = (
  omega arith,
  le_value-le_bytes 2 i.item_type (omega (arith, v.type_ok)) ∙ v.type_ok,
  sub34 (length i.content) ∙ sym (le_value-le_bytes 4 (length i.content) v.content_fits),
)
  where
    sub34 : (n : ℕ) → length (entry_bytes i) - 34 ≡ length i.content
    sub34 n = omega arith

decode-entry_bytes : (i : Item) → IsItem i → decode_type_first (entry_bytes i) ≡ ok i
decode-entry_bytes i v =
    decode-Accepted (entry_bytes i) (entry_bytes-Accepted i v) ∙ ap ok (read-entry_bytes i v)

module _ (b : Bytes) (bytes : All IsByte b) (accepted : Accepted b) where
  -- The content length field, as the length of what is read as content.
  content_length : length (drop 34 b) ≡ le_value (slice b 30 34)
  content_length = length-drop 34 b ∙ accepted.2

  entry_bytes-read : entry_bytes (read_item b) ≡ b
  unfolding entry_bytes read_item
  entry_bytes-read =
      let long = accepted.0 in
      let e₃₀ = ap (λ n. le_bytes 4 n ++ drop 34 b) content_length ∙ le_word 30 4 b long bytes in
      let e₂₂ =
        ap (λ s. le_bytes 8 (le_value (slice b 22 30)) ++ s) e₃₀
        ∙ le_word 22 8 b (omega arith) bytes in
      let e₁₈ =
        ap (λ s. le_bytes 4 (le_value (slice b 18 22)) ++ s) e₂₂
        ∙ le_word 18 4 b (omega arith) bytes in
      let e₁₀ =
        ap (λ s. le_bytes 8 (le_value (slice b 10 18)) ++ s) e₁₈
        ∙ le_word 10 8 b (omega arith) bytes in
      let e₆ =
        ap (λ s. le_bytes 4 (le_value (slice b 6 10)) ++ s) e₁₀
        ∙ le_word 6 4 b (omega arith) bytes in
      let e₂ =
        ap (λ s. le_bytes 4 (le_value (slice b 2 6)) ++ s) e₆ ∙ le_word 2 4 b (omega arith) bytes in
      ap (λ s. le_bytes 2 (le_value (slice b 0 2)) ++ s) e₂ ∙ le_word 0 2 b (omega arith) bytes

  read-IsItem : IsItem (read_item b)
  unfolding read_item
  read-IsItem =
      let long = accepted.0 in
      record {
        type_ok = accepted.1;
        exec_fits = le_word-lt 2 4 b (omega arith) bytes;
        term_fits = le_word-lt 6 4 b (omega arith) bytes;
        logic_fits = le_word-lt 10 8 b (omega arith) bytes;
        filenum_fits = le_word-lt 18 4 b (omega arith) bytes;
        offset_fits = le_word-lt 22 8 b (omega arith) bytes;
        content_fits = rw content_length (le_word-lt 30 4 b long bytes);
      }

-- `DecodeTypeFirst` accepts exactly the entries in this layout: it returns the item `i` if and only
-- if the bytes are those of `i` and the fields of `i` fit their widths, the type being 1.
pub decode_iff :
    (b : Bytes) (i : Item)
    → All IsByte b
    → (decode_type_first b ≡ ok i) ↔ ((entry_bytes i ≡ b) × IsItem i)
decode_iff b i bytes = (
  λ h.
      let (accepted, e) = decode_sound b h in
      (ap entry_bytes e ∙ entry_bytes-read b bytes accepted, rw e (read-IsItem b bytes accepted)),
  λ p. rw (← p.0) (decode-entry_bytes i p.1),
)
