-- ===== src/DiskBuffer/Buffer/Drain.antt =====
-- `nextLocked` takes records from the front of the queue.
use mathlib.Core.Path.{subst}
use pikawire.Prelude.{
  ℕ, zero, suc, ◌+◌, ◌-◌, ◌≤◌, ◌<◌, ◌≡◌, refl, sym, ap, ◌∙◌, false, Option, none, some, List, [],
  ◌∷◌, ◌++◌, append_assoc, append-nil, Bytes, length, length-append, length-drop, take, drop, slice,
  drop-drop, take-append_left, drop-append_left, ltb, leb, ◌==◌, ◌||◌, if_both, arith,
}
use pikawire.Prelude.Words.{le_value, le_value-le_bytes}
use pikawire.DiskBuffer.Record.{BufferRecord, BufferError, payload_len, frame, encode}
use pikawire.DiskBuffer.Record.RoundTrip.{IsRecord, length-encode, decode-encode}
use pikawire.DiskBuffer.Buffer.{
  Buffer, Fetch, drained, next_segment, fetched, broken, fetch, fetch_at, fetch_record,
  fetch_payload, leave_segment, Batch, next_loop, next_locked,
}
use pikawire.DiskBuffer.Buffer.View.{frames, length-frame, Spells, Behind, Holds}

-- The buffer behind the record at its front.
abbrev advance_cursor : Buffer → ℕ → Buffer
advance_cursor b plen = record b {
  ro = b.ro + (4 + plen);
  drained_b = b.drained_b + (4 + plen);
  drained_c = b.drained_c + 1;
}

-- The cursor stands at the frame of `r` in the segment `s`, and `after` follows.
module _ (b : Buffer) (s : Bytes) (r : BufferRecord) (after : Bytes) (fits : IsRecord r)
    (low : b.ro ≤ length s) (here : drop b.ro s ≡ frame r ++ after) where
  size : length s ≡ b.ro + (4 + payload_len r) + length after
  size =
      omega
        (arith, ap length here, length-drop b.ro s, length-append (frame r) after, length-frame r)

  header : le_value (slice s b.ro (b.ro + 4)) ≡ payload_len r
  header =
      ap (λ n. le_value (take n (drop b.ro s))) (let e : b.ro + 4 - b.ro ≡ 4 = omega arith in e)
      ∙ ap (λ x. le_value (take 4 x)) here
      ∙ (unfold frame in le_value-le_bytes 4 (payload_len r) fits.payload_fits)

  behind_header : drop (b.ro + 4) s ≡ encode r ++ after
  behind_header = sym (drop-drop b.ro 4 s) ∙ ap (drop 4) here ∙ (unfold frame in refl)

  payload : slice s (b.ro + 4) (b.ro + 4 + payload_len r) ≡ encode r
  payload =
      ap (λ n. take n (drop (b.ro + 4) s))
        (let e : b.ro + 4 + payload_len r - (b.ro + 4) ≡ length (encode r) =
            omega (arith, length-encode r) in
          e)
      ∙ ap (take (length (encode r))) behind_header
      ∙ take-append_left (encode r) after

  behind_record : drop (b.ro + (4 + payload_len r)) s ≡ after
  behind_record =
      sym (drop-drop b.ro (4 + payload_len r) s)
      ∙ ap (drop (4 + payload_len r)) here
      ∙ ap (λ n. drop n (frame r ++ after)) (sym (length-frame r))
      ∙ drop-append_left (frame r) after

  fetch_payload-frame :
      fetch_payload b s (payload_len r) ≡ fetched r (advance_cursor b (payload_len r))
  unfolding fetch_payload
  fetch_payload-frame =
      rw
        (
          (let e : (payload_len r == 0 || ltb (length s) (payload_len r + b.ro)) ≡ false =
                ground (arith, size) in
              e),
          (let e : ltb (length s) (b.ro + 4 + payload_len r) ≡ false = ground (arith, size) in e),
          payload,
          decode-encode r fits,
        )
        refl

  fetch_record-frame : fetch_record b s ≡ fetched r (advance_cursor b (payload_len r))
  unfolding fetch_record
  fetch_record-frame =
      rw ((let e : ltb (length s) (b.ro + 4) ≡ false = ground (arith, size) in e), header)
        fetch_payload-frame

-- What the loop may find on a buffer that stands for `rs`.
abbrev pub Fits : ℕ → Buffer → List BufferRecord → Fetch → Type 0
Fits k b rs drained = rs ≡ []
Fits k b rs (next_segment b') = Holds k b' rs × (length b.segs ≡ suc (length b'.segs))
Fits k b rs (fetched r b') =
    (rest : List BufferRecord) × (rs ≡ r ∷ rest) × Holds k b' rest × (b'.segs ≡ b.segs)
Fits k b rs (broken e) = ⊥

-- The cursor of the first segment has records before it, or it has none.
module _ (b : Buffer) (s : Bytes) (segs : List Bytes) (rs : List BufferRecord) where
  -- A segment read to its end holds none of the records.
  at_end : b.ro ≤ length s → Spells (drop b.ro s ∷ segs) rs → length s ≤ b.ro → Spells segs rs
  at_end low ([], others, split, spelled, _, rest) done = rw split rest
  at_end low (r ∷ mine, others, split, spelled, all_fit, rest) done = absurd (
      omega (
        arith,
        ap length spelled,
        length-drop b.ro s,
        length-append (frame r) (frames mine),
        length-frame r,
      ))

  at_record :
      b.ro ≤ length s
      → Spells (drop b.ro s ∷ segs) rs
      → b.ro < length s
      → (r : BufferRecord) × (rest : List BufferRecord) × (rs ≡ r ∷ rest)
        × (fetch_record b s ≡ fetched r (advance_cursor b (payload_len r)))
        × (b.ro + (4 + payload_len r) ≤ length s)
        × Spells (drop (b.ro + (4 + payload_len r)) s ∷ segs) rest
  at_record low ([], others, split, spelled, _, rest) more =
      absurd (omega (arith, ap length spelled, length-drop b.ro s))
  at_record low (r ∷ mine, others, split, spelled, (fits, all_fit), rest) more = (
    r,
    mine ++ others,
    split,
    fetch_record-frame b s r (frames mine) fits low spelled,
    omega (arith, size b s r (frames mine) fits low spelled),
    (mine, others, refl, behind_record b s r (frames mine) fits low spelled, all_fit, rest),
  )

leave_segment-Holds :
    {k : ℕ} (b : Buffer) (s : Bytes) (segs : List Bytes) (rs : List BufferRecord)
    → Holds k b rs
    → Behind segs 0 rs
    → Holds k (leave_segment b s segs) rs
unfolding leave_segment
leave_segment-Holds {k} b s segs rs h rest = record {
  healthy = h.healthy;
  contents = rest;
  bytes_counted = h.bytes_counted;
  records_counted = h.records_counted;
}

advance_cursor-Holds :
    {k : ℕ} (b : Buffer) (r : BufferRecord) (rest rs : List BufferRecord)
    → Holds k b rs
    → rs ≡ r ∷ rest
    → Behind b.segs (b.ro + (4 + payload_len r)) rest
    → Holds k (advance_cursor b (payload_len r)) rest
advance_cursor-Holds {k} b r rest rs h split contents = record {
  healthy = h.healthy;
  contents = contents;
  bytes_counted = omega (
    arith,
    h.bytes_counted,
    ap (λ x. length (frames x)) split,
    length-append (frame r) (frames rest),
    length-frame r,
  );
  records_counted = omega (arith, h.records_counted, ap (λ x. length x) split);
}

module _ {k : ℕ} (b : Buffer) (rs : List BufferRecord) (h : Holds k b rs) where
  record-Fits :
      (s : Bytes) (segs : List Bytes)
      → b.segs ≡ s ∷ segs
      → Behind (s ∷ segs) b.ro rs
      → b.ro < length s
      → Fits k b rs (fetch_record b s)
  record-Fits s segs is (low, spelled) more =
      let (r, rest, split, found, fit, behind) = at_record b s segs rs low spelled more in
      rw found (
        rest,
        split,
        advance_cursor-Holds b r rest rs h split
            (subst (λ l. Behind l (b.ro + (4 + payload_len r)) rest) (sym is) (fit, behind)),
        refl,
      )

  fetch_at-Fits :
      (segs : List Bytes) → b.segs ≡ segs → Behind segs b.ro rs → Fits k b rs (fetch_at b segs)
  unfolding fetch_at leave_segment
  fetch_at-Fits [] is (start, nothing) = nothing
  fetch_at-Fits (s ∷ []) is (low, spelled) =
      if_both (Fits k b rs) (leb (length s) b.ro) _ _
        (λ done.
          let empty : rs ≡ [] = at_end b s [] rs low spelled (ground arith) in
          if_both (Fits k b rs) (length s == 0) _ _
            (λ _. (leave_segment-Holds b s [] rs h (refl, empty), ap (λ x. length x) is))
            (λ _. empty))
        (λ more. record-Fits s [] is (low, spelled) (ground arith))
  fetch_at-Fits (s ∷ t ∷ segs) is (low, spelled) =
      if_both (Fits k b rs) (leb (length s) b.ro) _ _
        (λ done. (
          leave_segment-Holds b s (t ∷ segs) rs h
              (omega arith, at_end b s (t ∷ segs) rs low spelled (ground arith)),
          ap (λ x. length x) is,
        ))
        (λ more. record-Fits s (t ∷ segs) is (low, spelled) (ground arith))

pub fetch-Fits :
    {k : ℕ} (b : Buffer) (rs : List BufferRecord) → Holds k b rs → Fits k b rs (fetch b)
unfolding fetch
fetch-Fits b rs h = fetch_at-Fits b rs h b.segs refl h.contents

-- What a batch of at most `n` records, behind `out`, owes to the queue `rs`.
pub record Takes (k n : ℕ) (rs out : List BufferRecord) (batch : Batch) : Type 0 where
  pub no_problem : batch.problem ≡ none
  pub front : batch.records ≡ out ++ take n rs
  pub rest_held : Holds k batch.buffer (drop n rs)

next_loop-Takes :
    {k : ℕ} (fuel n : ℕ) (b : Buffer) (out rs : List BufferRecord)
    → Holds k b rs
    → n + length b.segs < fuel
    → Takes k n rs out (next_loop fuel n b out)
unfolding next_loop
next_loop-Takes {k} zero n b out rs h enough = absurd (omega arith)
next_loop-Takes {k} (suc fuel) zero b out rs h enough = record {
  no_problem = refl;
  front = sym (append-nil out);
  rest_held = h;
}
next_loop-Takes {k} (suc fuel) (suc n) b out rs h enough =
    by_fetch (fetch b) (fetch-Fits b rs h)
      (λ b' h' shorter. next_loop-Takes fuel (suc n) b' out rs h' (omega arith))
      (λ r b' rest h' same.
        next_loop-Takes fuel n b' (out ++ (r ∷ [])) rest h'
          (omega (arith, ap (λ x. length x) same)))
  where
    by_fetch :
        (f : Fetch)
        → Fits k b rs f
        → ((b' : Buffer)
            → Holds k b' rs
            → length b.segs ≡ suc (length b'.segs)
            → Takes k (suc n) rs out (next_loop fuel (suc n) b' out))
        → ((r : BufferRecord) (b' : Buffer) (rest : List BufferRecord)
            → Holds k b' rest
            → b'.segs ≡ b.segs
            → Takes k n rest (out ++ (r ∷ [])) (next_loop fuel n b' (out ++ (r ∷ []))))
        → Takes k (suc n) rs out (elim f [
          | drained ↦ record { buffer = b; records = out; problem = none }
          | next_segment b' ↦ next_loop fuel (suc n) b' out
          | fetched r b' ↦ next_loop fuel n b' (out ++ (r ∷ []))
          | broken e ↦ record {
            buffer = record b { failure = some e };
            records = out;
            problem = some e;
          }
        ])
    by_fetch drained empty left took = record {
      no_problem = refl;
      front = rw empty (sym (append-nil out));
      rest_held = rw empty (rw empty at h);
    }
    by_fetch (next_segment b') (h', shorter) left took = left b' h' shorter
    by_fetch (fetched r b') (rest, split, h', same) left took =
        let t = took r b' rest h' same in
        record {
          no_problem = t.no_problem;
          front = t.front ∙ append_assoc out (r ∷ []) (take n rest) ∙ rw split refl;
          rest_held = rw split t.rest_held;
        }
    by_fetch (broken e) wrong left took = absurd wrong

-- On a buffer that stands for the queue `rs`, `nextLocked n` reports no error, returns the first `n`
-- records of `rs` in order (all of them if there are fewer), and leaves a buffer that stands for the
-- others.
pub next_locked-take :
    {k : ℕ} (n : ℕ) (b : Buffer) (rs : List BufferRecord)
    → Holds k b rs
    → Takes k n rs [] (next_locked n b)
unfolding next_locked
next_locked-take {k} n b rs h = by_failure b.failure h.healthy
  where
    by_failure :
        (f : Option BufferError)
        → f ≡ none
        → Takes k n rs [] (elim f [
          | some e ↦ record { buffer = b; records = []; problem = some e }
          | none ↦ next_loop (n + length b.segs + 1) n b []
        ])
    by_failure none _ = next_loop-Takes (n + length b.segs + 1) n b [] rs h (omega arith)
    by_failure (some x) e = absurd (cc)
