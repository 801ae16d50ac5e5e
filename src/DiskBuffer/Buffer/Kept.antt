-- ===== src/DiskBuffer/Buffer/Kept.antt =====
-- What the rounds of `nextLocked` leave of the buffer, read to its end or not.
use pikawire.Prelude.{
  ℕ, zero, suc, ◌+◌, ◌≤◌, ◌<◌, ◌≡◌, refl, sym, ap, ◌∙◌, Option, none, some, List, [], ◌∷◌, ◌++◌,
  append_assoc, Bytes, length, if_both, leb, ltb, slice, ◌||◌, Result, ok, err, panic, ◌==◌, arith,
}
use pikawire.Prelude.Words.{le_value}
use pikawire.DiskBuffer.Record.{BufferRecord, BufferError, short_record, decode_record}
use pikawire.DiskBuffer.Buffer.{
  Buffer, Fetch, drained, next_segment, fetched, broken, fetch, fetch_at, fetch_record,
  fetch_payload, leave_segment, next_loop, next_locked, Batch,
}
use pikawire.DiskBuffer.Buffer.View.{Holds}
use pikawire.DiskBuffer.Buffer.Drain.{Fits, fetch-Fits}

-- What a round keeps: the counters of what was written, and the segments but for some at the front.
pub record Kept (b b' : Buffer) : Type 0 where
  pub written : b'.written ≡ b.written
  pub appended : b'.appended ≡ b.appended
  pub adopted : b'.adopted ≡ b.adopted
  pub left : (gone : List Bytes) × (b.segs ≡ gone ++ b'.segs)

pub Kept-refl : (b : Buffer) → Kept b b
Kept-refl b = record { written = refl; appended = refl; adopted = refl; left = ([], refl) }

pub Kept-trans : (a b c : Buffer) → Kept a b → Kept b c → Kept a c
Kept-trans a b c h k = record {
  written = k.written ∙ h.written;
  appended = k.appended ∙ h.appended;
  adopted = k.adopted ∙ h.adopted;
  left = (
    h.left.0 ++ k.left.0,
    h.left.1 ∙ ap (λ l. h.left.0 ++ l) k.left.1 ∙ sym (append_assoc h.left.0 k.left.0 c.segs),
  );
}

-- A round that finds nothing stands at the open segment or at none.
abbrev Keeps : Buffer → Fetch → Type 0
Keeps b drained = length b.segs ≤ 1
Keeps b (next_segment b') = Kept b b'
Keeps b (fetched r b') = Kept b b'
Keeps b (broken e) = Unit {0}

fetch_record-Keeps : (b : Buffer) (s : Bytes) → Keeps b (fetch_record b s)
unfolding fetch_record fetch_payload
fetch_record-Keeps b s =
    if_both (Keeps b) (ltb (length s) (b.ro + 4)) _ _ (λ _. tt)
      λ _. at_payload (le_value (slice s b.ro (b.ro + 4)))
  where
    decoded :
        (plen : ℕ) (d : Result BufferError BufferRecord)
        → Keeps b (elim d [
          | err e ↦ broken e
          | panic ↦ broken short_record
          | ok r ↦ fetched r (record b {
            ro = b.ro + (4 + plen);
            drained_b = b.drained_b + (4 + plen);
            drained_c = b.drained_c + 1;
          })
        ])
    decoded plen (err e) = tt
    decoded plen panic = tt
    decoded plen (ok r) = record {
      written = refl;
      appended = refl;
      adopted = refl;
      left = ([], refl);
    }

    at_payload : (plen : ℕ) → Keeps b (fetch_payload b s plen)
    at_payload plen =
        if_both (Keeps b) (plen == 0 || ltb (length s) (plen + b.ro)) _ _ (λ _. tt)
          λ _.
            if_both (Keeps b) (ltb (length s) (b.ro + 4 + plen)) _ _ (λ _. tt)
              (λ _. decoded plen (decode_record (slice s (b.ro + 4) (b.ro + 4 + plen))))

fetch-Keeps : (b : Buffer) → Keeps b (fetch b)
unfolding fetch fetch_at leave_segment
fetch-Keeps b = at_segs b.segs refl
  where
    leave : (s : Bytes) (segs : List Bytes) → b.segs ≡ s ∷ segs → Kept b (leave_segment b s segs)
    leave s segs is = record {
      written = refl;
      appended = refl;
      adopted = refl;
      left = (s ∷ [], is);
    }

    at_segs : (segs : List Bytes) → b.segs ≡ segs → Keeps b (fetch_at b segs)
    at_segs [] is = omega (arith, ap (λ l. length l) is)
    at_segs (s ∷ []) is =
        if_both (Keeps b) (leb (length s) b.ro) _ _
          (λ _.
            if_both (Keeps b) (length s == 0) _ _ (λ _. leave s [] is)
              (λ _. omega (arith, ap (λ l. length l) is)))
          (λ _. fetch_record-Keeps b s)
    at_segs (s ∷ t ∷ segs) is =
        if_both (Keeps b) (leb (length s) b.ro) _ _ (λ _. leave s (t ∷ segs) is)
          (λ _. fetch_record-Keeps b s)

next_loop-Kept :
    (fuel n : ℕ) (b : Buffer) (out : List BufferRecord) → Kept b (next_loop fuel n b out).buffer
unfolding next_loop
next_loop-Kept zero n b out = Kept-refl b
next_loop-Kept (suc fuel) zero b out = Kept-refl b
next_loop-Kept (suc fuel) (suc n) b out =
    by_fetch (fetch b) (fetch-Keeps b) (next_loop-Kept fuel (suc n))
      (λ b' out'. next_loop-Kept fuel n b' out')
  where
    by_fetch :
        (f : Fetch)
        → Keeps b f
        → ((b' : Buffer) (o : List BufferRecord) → Kept b' (next_loop fuel (suc n) b' o).buffer)
        → ((b' : Buffer) (o : List BufferRecord) → Kept b' (next_loop fuel n b' o).buffer)
        → Kept b (
            let t : Batch = elim f [
              | drained ↦ record { buffer = b; records = out; problem = none }
              | next_segment b' ↦ next_loop fuel (suc n) b' out
              | fetched r b' ↦ next_loop fuel n b' (out ++ (r ∷ []))
              | broken e ↦ record {
                buffer = record b { failure = some e };
                records = out;
                problem = some e;
              }
            ] in
            t.buffer)
    by_fetch drained k left took = Kept-refl b
    by_fetch (next_segment b') k left took = Kept-trans b b' _ k (left b' out)
    by_fetch (fetched r b') k left took = Kept-trans b b' _ k (took b' (out ++ (r ∷ [])))
    by_fetch (broken e) k left took = record {
      written = refl;
      appended = refl;
      adopted = refl;
      left = ([], refl);
    }

-- With an empty queue the loop leaves every segment but the open one.
next_loop-open :
    {k : ℕ} (fuel n : ℕ) (b : Buffer) (out : List BufferRecord)
    → Holds k b []
    → suc n + length b.segs < fuel
    → length (next_loop fuel (suc n) b out).buffer.segs ≤ 1
unfolding next_loop
next_loop-open zero n b out h enough = absurd (omega arith)
next_loop-open {k} (suc fuel) n b out h enough =
    by_fetch (fetch b) (fetch-Keeps b) (fetch-Fits b [] h)
      (λ b' h' shorter. next_loop-open fuel n b' out h' (omega arith))
  where
    by_fetch :
        (f : Fetch)
        → Keeps b f
        → Fits k b [] f
        → ((b' : Buffer)
            → Holds k b' []
            → length b.segs ≡ suc (length b'.segs)
            → length (next_loop fuel (suc n) b' out).buffer.segs ≤ 1)
        → length (
            let t : Batch = elim f [
              | drained ↦ record { buffer = b; records = out; problem = none }
              | next_segment b' ↦ next_loop fuel (suc n) b' out
              | fetched r b' ↦ next_loop fuel n b' (out ++ (r ∷ []))
              | broken e ↦ record {
                buffer = record b { failure = some e };
                records = out;
                problem = some e;
              }
            ] in
            t.buffer.segs)
          ≤ 1
    by_fetch drained short fits left = short
    by_fetch (next_segment b') kept (h', shorter) left = left b' h' shorter
    by_fetch (fetched r b') kept (rest, split, _, _) left = absurd (cc split)
    by_fetch (broken e) kept wrong left = absurd wrong

-- Both of `nextLocked`.
pub next_locked-Kept : (n : ℕ) (b : Buffer) → Kept b (next_locked n b).buffer
unfolding next_locked
next_locked-Kept n b = by_failure b.failure
  where
    by_failure :
        (f : Option BufferError)
        → Kept b (
            let t : Batch = elim f [
              | some e ↦ record { buffer = b; records = []; problem = some e }
              | none ↦ next_loop (n + length b.segs + 1) n b []
            ] in
            t.buffer)
    by_failure none = next_loop-Kept (n + length b.segs + 1) n b []
    by_failure (some e) = Kept-refl b

pub next_locked-open :
    {k : ℕ} (n : ℕ) (b : Buffer) → Holds k b [] → length (next_locked (suc n) b).buffer.segs ≤ 1
unfolding next_locked
next_locked-open n b h = by_failure b.failure h.healthy
  where
    by_failure :
        (f : Option BufferError)
        → f ≡ none
        → length (
            let t : Batch = elim f [
              | some e ↦ record { buffer = b; records = []; problem = some e }
              | none ↦ next_loop (suc n + length b.segs + 1) (suc n) b []
            ] in
            t.buffer.segs)
          ≤ 1
    by_failure none _ = next_loop-open (suc n + length b.segs + 1) n b [] h (omega arith)
    by_failure (some x) e = absurd (cc)
