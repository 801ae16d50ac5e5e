-- ===== src/Envelope/Json/Escape.antt =====
-- The escaping of JSON strings: the loop with its slices writes each byte by itself, and a JSON reader gets
-- the string back.
use pikawire.Prelude.{
  ℕ, ◌+◌, ◌-◌, ◌*◌, ◌/◌, ◌%◌, ◌<◌, ◌≤◌, ◌≡◌, ◌≢◌, refl, sym, ap, ◌∙◌, Bool, true, false, Option,
  none, some, [], ◌∷◌, ◌++◌, append_assoc, append-nil, Bytes, ltb, leb, ◌==◌, ◌&&◌, ==_iff,
  if◌then◌else◌, arith, if_both, ltb→lt,
}
use pikawire.Envelope.Json.Reader.{
  Lead, one_byte, followed, no_lead, lead, Place, boundary, within, valid_from, valid_utf8, Mode,
  plain, unicode, continues, digit_value, front, read_string,
}
use pikawire.Envelope.Json.{hex, escape_of, escape_loop, or_nil, json_escape, hex_digit}

-- Each byte by itself.
abbrev written : ℕ → Option Bytes → Bytes
written c none = c ∷ []
written c (some esc) = esc

unfoldable pub escaped : Bytes → Bytes
escaped [] = []
escaped (c ∷ s) = written c (escape_of c) ++ escaped s

abbrev text_of : Option Bytes × Bytes → Bytes
text_of (out, seg) = or_nil out ++ seg

text-escape_loop :
    (s : Bytes) (out : Option Bytes) (seg : Bytes)
    → text_of (escape_loop s out seg) ≡ or_nil out ++ (seg ++ escaped s)
unfolding escape_loop escaped
text-escape_loop [] out seg = ap (λ l. or_nil out ++ l) (sym (append-nil seg))
text-escape_loop (c ∷ s) out seg = by_escape (escape_of c) (λ o l. text-escape_loop s o l)
  where
    by_escape :
        (e : Option Bytes)
        → ((o : Option Bytes) (l : Bytes)
            → text_of (escape_loop s o l) ≡ or_nil o ++ (l ++ escaped s))
        → text_of (elim e [
          | none ↦ escape_loop s out (seg ++ (c ∷ []))
          | some esc ↦ escape_loop s (some (or_nil out ++ (seg ++ esc))) []
        ])
          ≡ or_nil out ++ (seg ++ (written c e ++ escaped s))
    by_escape none ih =
        ih out (seg ++ (c ∷ [])) ∙ ap (λ l. or_nil out ++ l) (append_assoc seg (c ∷ []) (escaped s))
    by_escape (some esc) ih =
        ih (some (or_nil out ++ (seg ++ esc))) []
        ∙ append_assoc (or_nil out) (seg ++ esc) (escaped s)
        ∙ ap (λ l. or_nil out ++ l) (append_assoc seg esc (escaped s))

some-escape_loop : (s text seg : Bytes) → (escape_loop s (some text) seg).0 ≢ none
unfolding escape_loop
some-escape_loop [] text seg = λ h. cc
some-escape_loop (c ∷ s) text seg = by_escape (escape_of c) (λ o l. some-escape_loop s o l)
  where
    by_escape :
        (e : Option Bytes)
        → ((o l : Bytes) → (escape_loop s (some o) l).0 ≢ none)
        → (let r : Option Bytes × Bytes = elim e [
          | none ↦ escape_loop s (some text) (seg ++ (c ∷ []))
          | some esc ↦ escape_loop s (some (text ++ (seg ++ esc))) []
        ] in
            r.0 ≢ none)
    by_escape none ih = ih text (seg ++ (c ∷ []))
    by_escape (some esc) ih = ih (text ++ (seg ++ esc)) []

-- While nothing needs an escape, `seg` is what has been read.
none-escape_loop :
    (s seg : Bytes) → (escape_loop s none seg).0 ≡ none → (escape_loop s none seg).1 ≡ seg ++ s
unfolding escape_loop
none-escape_loop [] seg h = sym (append-nil seg)
none-escape_loop (c ∷ s) seg h = by_escape (escape_of c) (λ l. none-escape_loop s l) h
  where
    by_escape :
        (e : Option Bytes)
        → ((l : Bytes) → (escape_loop s none l).0 ≡ none → (escape_loop s none l).1 ≡ l ++ s)
        → (let r : Option Bytes × Bytes = elim e [
          | none ↦ escape_loop s none (seg ++ (c ∷ []))
          | some esc ↦ escape_loop s (some (seg ++ esc)) []
        ] in
            r.0 ≡ none → r.1 ≡ seg ++ (c ∷ s))
    by_escape none ih h = ih (seg ++ (c ∷ [])) h ∙ append_assoc seg (c ∷ []) s
    by_escape (some esc) ih h = absurd (some-escape_loop s (seg ++ esc) [] h)

-- `jsonEscape` writes each byte by itself.
escaped-json_escape : (s : Bytes) → json_escape s ≡ escaped s
unfolding json_escape
escaped-json_escape s =
    by_out (escape_loop s none []) (none-escape_loop s []) (text-escape_loop s none [])
  where
    by_out :
        (r : Option Bytes × Bytes)
        → (r.0 ≡ none → r.1 ≡ s)
        → text_of r ≡ escaped s
        → (let l : Bytes = elim r.0 [ none ↦ s | some text ↦ text ++ r.1 ] in l ≡ escaped s)
    by_out (none, seg) same_text e = sym (same_text refl) ∙ e
    by_out (some text, seg) same_text e = e

digit_value-hex_digit : (d : ℕ) → d < 16 → digit_value (hex_digit d) ≡ some d
digit_value-hex_digit d h = ground arith

read_digit :
    (k v d : ℕ) (s : Bytes)
    → d < 16
    → read_string (unicode k v) (hex_digit d ∷ s) ≡ (
        if k == 0
        then if ltb (v * 16 + d) 128 then front (v * 16 + d) (read_string plain s) else none
        else read_string (unicode (k - 1) (v * 16 + d)) s)
unfolding read_string
read_digit k v d s h = by_digit (digit_value (hex_digit d)) (digit_value-hex_digit d h)
  where
    by_digit :
        (o : Option ℕ)
        → o ≡ some d
        → (let r : Option (Bytes × Bytes) = elim o [
          | none ↦ none
          | some d ↦
              let last = read_string plain s in
              let more = read_string (unicode (k - 1) (v * 16 + d)) s in
              if k == 0
              then if ltb (v * 16 + d) 128 then front (v * 16 + d) last else none
              else more
        ] in
            r ≡ (
              if k == 0
              then if ltb (v * 16 + d) 128 then front (v * 16 + d) (read_string plain s) else none
              else read_string (unicode (k - 1) (v * 16 + d)) s))
    by_digit none e = absurd (cc e)
    by_digit (some x) e = let xd : x ≡ d = ground (arith, e) in rw xd refl

-- A control byte as `\u00XX` is read back.
read_control :
    (c : ℕ) (t : Bytes)
    → c < 32
    → read_string plain (b'\\' ∷ b'u' ∷ b'0' ∷ b'0' ∷ (hex c ++ t)) ≡ front c (read_string plain t)
unfolding hex read_string
read_control c t h =
    read_digit 1 0 (c / 16) (hex_digit (c % 16) ∷ t) (omega arith)
    ∙ ap (λ v. read_string (unicode 0 v) (hex_digit (c % 16) ∷ t))
        (let e : 0 * 16 + c / 16 ≡ c / 16 = omega arith in e)
    ∙ read_digit 0 (c / 16) (c % 16) t (omega arith)
    ∙ whole
  where
    value : c / 16 * 16 + c % 16 ≡ c
    value = omega arith

    whole :
        (if ltb (c / 16 * 16 + c % 16) 128
          then front (c / 16 * 16 + c % 16) (read_string plain t)
          else none)
        ≡ front c (read_string plain t)
    whole = rw value (let small : ltb c 128 ≡ true = ground (arith, h) in rw small refl)

-- A code point of one byte is read back.
read_string-written :
    (c : ℕ) (t : Bytes)
    → lead c ≡ one_byte
    → read_string plain (written c (escape_of c) ++ t) ≡ front c (read_string plain t)
unfolding escape_of read_string
read_string-written c t one =
    if_both P (c == b'"') _ _ (λ e. is_byte b'"' (some (b'\\' ∷ b'"' ∷ [])) e refl)
      (λ no_quote.
        if_both P (c == b'\\') _ _ (λ e. is_byte b'\\' (some (b'\\' ∷ b'\\' ∷ [])) e refl)
          (λ no_backslash.
            if_both P (c == b'\n') _ _ (λ e. is_byte b'\n' (some (b'\\' ∷ b'n' ∷ [])) e refl)
              (λ _.
                if_both P (c == b'\r') _ _ (λ e. is_byte b'\r' (some (b'\\' ∷ b'r' ∷ [])) e refl)
                  (λ _.
                    if_both P (c == b'\t') _ _
                      (λ e. is_byte b'\t' (some (b'\\' ∷ b't' ∷ [])) e refl)
                      (λ _.
                        if_both P (ltb c 32) _ _ (λ low. read_control c t (ltb→lt c 32 low))
                          (λ high. rw no_quote (rw no_backslash (rw high (rw one refl)))))))))
  where
    P : Option Bytes → Type 0
    P e = read_string plain (written c e ++ t) ≡ front c (read_string plain t)

    is_byte :
        (d : ℕ) (e : Option Bytes)
        → (c == d) ≡ true
        → read_string plain (written c e ++ t) ≡ front d (read_string plain t)
        → P e
    is_byte d e same_byte h =
        h ∙ ap (λ k. front k (read_string plain t)) (sym ((==_iff c d).0 same_byte))

-- The bytes above 127 are written as they are.
escape_of-high : (c : ℕ) → 128 ≤ c → escape_of c ≡ none
unfolding escape_of
escape_of-high c h = ground (arith, h)

-- The first byte of a code point of several bytes is above 127, and so is what may follow.
lead-followed : (c k lo hi : ℕ) → lead c ≡ followed k lo hi → (128 ≤ c) × (128 ≤ lo)
unfolding lead
lead-followed c k lo hi h = ground (arith, h)

-- The reader's mode at a place between the bytes of the string.
abbrev mode_at : Place → Mode
mode_at boundary = plain
mode_at (within k lo hi) = continues k lo hi

abbrev High : Place → Type 0
High boundary = Unit
High (within k lo hi) = 128 ≤ lo

read_lead :
    (c k lo hi : ℕ) (t : Bytes)
    → 128 ≤ c
    → lead c ≡ followed k lo hi
    → read_string plain (c ∷ t) ≡ front c (read_string (continues k lo hi) t)
unfolding read_string
read_lead c k lo hi t high h =
    let no_quote : (c == b'"') ≡ false = ground (arith, high) in
    let no_backslash : (c == b'\\') ≡ false = ground (arith, high) in
    let no_control : ltb c 32 ≡ false = ground (arith, high) in
    rw no_quote (rw no_backslash (rw no_control (rw h refl)))

-- The bytes of a string are read back from a place between them.
abbrev ReadsBack : Bytes → Bytes → Place → Type 0
ReadsBack s rest p =
    High p
    → valid_from p s ≡ true
    → read_string (mode_at p) (escaped s ++ (b'"' ∷ rest)) ≡ some (s, rest)

read_string-escaped : (s rest : Bytes) (p : Place) → ReadsBack s rest p
unfolding escaped read_string valid_from
read_string-escaped [] rest boundary high h = refl
read_string-escaped [] rest (within k lo hi) high h = absurd (cc h)
read_string-escaped (c ∷ s) rest boundary high h =
    by_lead (lead c) refl (λ q. read_string-escaped s rest q) h
  where
    by_lead :
        (l : Lead)
        → lead c ≡ l
        → ((q : Place) → ReadsBack s rest q)
        → elim l [
          | one_byte ↦ valid_from boundary s
          | followed k lo hi ↦ valid_from (within k lo hi) s
          | no_lead ↦ false
        ]
          ≡ true
        → read_string plain (escaped (c ∷ s) ++ (b'"' ∷ rest)) ≡ some (c ∷ s, rest)
    by_lead one_byte e ih h =
        ap (read_string plain) (append_assoc (written c (escape_of c)) (escaped s) (b'"' ∷ rest))
        ∙ read_string-written c (escaped s ++ (b'"' ∷ rest)) e
        ∙ ap (front c) (ih boundary tt h)
    by_lead (followed k lo hi) e ih h =
        let (above, after) = lead-followed c k lo hi e in
        ap (λ o. read_string plain ((written c o ++ escaped s) ++ (b'"' ∷ rest)))
          (escape_of-high c above)
        ∙ read_lead c k lo hi (escaped s ++ (b'"' ∷ rest)) above e
        ∙ ap (front c) (ih (within k lo hi) after h)
    by_lead no_lead e ih h = absurd (cc h)
read_string-escaped (c ∷ s) rest (within k lo hi) high h =
    by_bounds (leb lo c && leb c hi) refl (λ q. read_string-escaped s rest q) h
  where
    last : Option (Bytes × Bytes)
    last = read_string plain (escaped s ++ (b'"' ∷ rest))

    more : Option (Bytes × Bytes)
    more = read_string (continues (k - 1) 128 191) (escaped s ++ (b'"' ∷ rest))

    by_last :
        (b : Bool)
        → (if b then valid_from boundary s else valid_from (within (k - 1) 128 191) s) ≡ true
        → ((q : Place) → ReadsBack s rest q)
        → (if b then last else more) ≡ some (s, rest)
    by_last true h ih = ih boundary tt h
    by_last false h ih = ih (within (k - 1) 128 191) (omega arith) h

    by_bounds :
        (b : Bool)
        → (leb lo c && leb c hi) ≡ b
        → ((q : Place) → ReadsBack s rest q)
        → (if b
            then if k == 1 then valid_from boundary s else valid_from (within (k - 1) 128 191) s
            else false)
          ≡ true
        → read_string (continues k lo hi) (escaped (c ∷ s) ++ (b'"' ∷ rest)) ≡ some (c ∷ s, rest)
    by_bounds true e ih h =
        let above : 128 ≤ c = ground (arith, e, high) in
        ap (λ o. read_string (continues k lo hi) ((written c o ++ escaped s) ++ (b'"' ∷ rest)))
          (escape_of-high c above)
        ∙ rw e (ap (front c) (by_last (k == 1) h ih))
    by_bounds false e ih h = absurd (cc h)

-- A reader of JSON that refuses what is not UTF-8 gets back a string of valid UTF-8 that `jsonEscape` was given, and ends it at
-- the closing quote behind it.
pub read_string-json_escape :
    (s rest : Bytes)
    → valid_utf8 s ≡ true
    → read_string plain (json_escape s ++ (b'"' ∷ rest)) ≡ some (s, rest)
read_string-json_escape s rest valid =
    ap (λ l. read_string plain (l ++ (b'"' ∷ rest))) (escaped-json_escape s)
    ∙ read_string-escaped s rest boundary tt valid
