-- ===== src/DiskBuffer/Buffer/Append.antt =====
-- `append` puts a record at the end of the queue, or waits, or fails and says so.
use pikawire.Prelude.{
  ℕ, ◌+◌, ◌≡◌, ◌≢◌, refl, sym, ap, ◌∙◌, ◌⊎◌, inl, inr, Bool, true, false, ◌&&◌, not, Option, none,
  some, List, [], ◌∷◌, ◌++◌, append_assoc, append-nil, Bytes, length, length-append, drop,
  drop-append_le, All-append, ok, err, panic, if◌then◌else◌, if_both, arith,
}
use pikawire.DiskBuffer.Record.{BufferRecord, BufferError, frame, create_failed}
use pikawire.DiskBuffer.Record.RoundTrip.{IsRecord}
use pikawire.DiskBuffer.Buffer.{
  Buffer, Os, Attempt, stored, failed, waits, finished, write_last, rotate, must_rotate, put_frame,
  sync_due, write_frame, write_locked, fs_has_room, over_watermark, append_round, try_append,
}
use pikawire.DiskBuffer.Buffer.View.{frames, frames-append, Spells, Behind, Holds}

frames_one :
    (rs : List BufferRecord) (r : BufferRecord) → frames (rs ++ (r ∷ [])) ≡ frames rs ++ frame r
frames_one rs r = frames-append rs (r ∷ []) ∙ ap (λ s. frames rs ++ s) (append-nil (frame r))

-- A frame at the end of the last segment.
write_last-Spells :
    (s : Bytes) (segs : List Bytes) (rs : List BufferRecord) (r : BufferRecord)
    → IsRecord r
    → Spells (s ∷ segs) rs
    → Spells (write_last (s ∷ segs) (frame r)) (rs ++ (r ∷ []))
unfolding write_last
write_last-Spells s [] rs r fits (mine, others, split, spelled, all_fit, none_left) = (
  mine ++ (r ∷ []),
  [],
  ap (λ x. x ++ (r ∷ [])) (split ∙ ap (λ o. mine ++ o) none_left ∙ append-nil mine)
      ∙ sym (append-nil (mine ++ (r ∷ []))),
  ap (λ x. x ++ frame r) spelled ∙ sym (frames_one mine r),
  All-append IsRecord mine (r ∷ []) all_fit (fits, tt),
  refl,
)
write_last-Spells s (t ∷ segs) rs r fits (mine, others, split, spelled, all_fit, rest) = (
  mine,
  others ++ (r ∷ []),
  ap (λ x. x ++ (r ∷ [])) split ∙ append_assoc mine others (r ∷ []),
  spelled,
  all_fit,
  write_last-Spells t segs others r fits rest,
)

write_last-Behind :
    (segs : List Bytes) (ro : ℕ) (rs : List BufferRecord) (r : BufferRecord)
    → IsRecord r
    → length segs ≢ 0
    → Behind segs ro rs
    → Behind (write_last segs (frame r)) ro (rs ++ (r ∷ []))
unfolding write_last
write_last-Behind [] ro rs r fits some_seg h = absurd (some_seg refl)
write_last-Behind (s ∷ []) ro rs r fits some_seg (low, h) = (
  omega (arith, length-append s (frame r)),
  rw (drop-append_le ro s (frame r) low) (write_last-Spells (drop ro s) [] rs r fits h),
)
write_last-Behind (s ∷ t ∷ segs) ro rs r fits some_seg (low, h) =
    (low, write_last-Spells (drop ro s) (t ∷ segs) rs r fits h)

-- A new empty segment changes nothing.
rotate-Spells :
    (segs : List Bytes) (rs : List BufferRecord) → Spells segs rs → Spells (segs ++ ([] ∷ [])) rs
rotate-Spells [] rs h = ([], [], h, refl, tt, refl)
rotate-Spells (s ∷ segs) rs (mine, others, split, spelled, all_fit, rest) =
    (mine, others, split, spelled, all_fit, rotate-Spells segs others rest)

rotate-Behind :
    (segs : List Bytes) (ro : ℕ) (rs : List BufferRecord)
    → Behind segs ro rs
    → Behind (segs ++ ([] ∷ [])) ro rs
rotate-Behind [] ro rs (start, nothing) = (omega arith, ([], [], nothing, rw start refl, tt, refl))
rotate-Behind (s ∷ segs) ro rs (low, h) = (low, rotate-Spells (drop ro s ∷ segs) rs h)

length_more :
    (d : ℕ) (rs : List BufferRecord) (r : BufferRecord) (w : ℕ)
    → w ≡ d + length (frames rs)
    → w + length (frame r) ≡ d + length (frames (rs ++ (r ∷ [])))
length_more d rs r w h = rw (frames_one rs r, length-append) (omega arith)

-- What an attempt to append `r` to the queue `rs` leaves behind.
abbrev pub Outcome : ℕ → List BufferRecord → BufferRecord → Buffer → Attempt → Type 0
Outcome k rs r b stored = Holds k b (rs ++ (r ∷ []))
Outcome k rs r b waits = Holds k b rs
Outcome k rs r b (failed e) = Holds k b rs ⊎ (b.failure ≡ some e)

-- The same of a pair of a buffer and an error.
abbrev Settles : ℕ → List BufferRecord → BufferRecord → Buffer × Option BufferError → Type 0
Settles k rs r w = Outcome k rs r w.0 (finished w.1)

put_frame-Holds :
    {k : ℕ} (sync : Bool) (b : Buffer) (rs : List BufferRecord) (r : BufferRecord)
    → IsRecord r
    → length b.segs ≢ 0
    → Holds k b rs
    → Holds k (put_frame sync b (frame r)) (rs ++ (r ∷ []))
unfolding put_frame
put_frame-Holds {k} sync b rs r fits some_seg h = record {
  healthy = h.healthy;
  contents = write_last-Behind b.segs b.ro rs r fits some_seg h.contents;
  bytes_counted = length_more b.drained_b rs r b.written h.bytes_counted;
  records_counted = omega (arith, h.records_counted, length-append rs (r ∷ []));
}

write_frame-Settles :
    {k : ℕ} (os : Os) (b : Buffer) (rs : List BufferRecord) (r : BufferRecord)
    → IsRecord r
    → length b.segs ≢ 0
    → Holds k b rs
    → Settles k rs r (write_frame os b (frame r))
unfolding write_frame
write_frame-Settles {k} os b rs r fits some_seg h =
    if_both (Settles k rs r) (not os.write_ok) _ _ (λ _. inr refl)
      (λ _.
        if_both (Settles k rs r) (sync_due b (frame r) && not os.sync_ok) _ _ (λ _. inr refl)
          (λ _. put_frame-Holds (sync_due b (frame r)) b rs r fits some_seg h))

-- A buffer that differs in no field that the queue depends on.
rotated-Holds :
    {k : ℕ} (b : Buffer) (rs : List BufferRecord)
    → Holds k b rs
    → Holds k (record b { created = b.created + 1; segs = b.segs ++ ([] ∷ []) }) rs
rotated-Holds {k} b rs h = record {
  healthy = h.healthy;
  contents = rotate-Behind b.segs b.ro rs h.contents;
  bytes_counted = h.bytes_counted;
  records_counted = h.records_counted;
}

nonempty : (segs : List Bytes) → length (segs ++ ([] ∷ [])) ≢ 0
nonempty segs e = omega (arith, length-append segs ([] ∷ []))

no_rotation : (b : Buffer) (bytes : Bytes) → must_rotate b bytes ≡ false → length b.segs ≢ 0
unfolding must_rotate
no_rotation b bytes h e = ground arith

write_locked-Settles :
    {k : ℕ} (os : Os) (b : Buffer) (rs : List BufferRecord) (r : BufferRecord)
    → IsRecord r
    → Holds k b rs
    → Settles k rs r (write_locked os b (frame r))
unfolding write_locked rotate
write_locked-Settles {k} os b rs r fits h =
    if_both (Settles k rs r) (must_rotate b (frame r)) _ _ (λ _. by_file os.create_ok)
      (λ stays. write_frame-Settles os b rs r fits (no_rotation b (frame r) stays) h)
  where
    new_b : Buffer
    new_b = record b { created = b.created + 1; segs = b.segs ++ ([] ∷ []) }

    by_file :
        (created : Bool)
        → Settles k rs r (elim (if created then ok new_b else err create_failed) [
          | ok b' ↦ write_frame os b' (frame r)
          | err e ↦ (record b { created = b.created + 1 }, some e)
          | panic ↦ (b, none)
        ])
    by_file true = write_frame-Settles os new_b rs r fits (nonempty b.segs) (rotated-Holds b rs h)
    by_file false = inl (record {
      healthy = h.healthy;
      contents = h.contents;
      bytes_counted = h.bytes_counted;
      records_counted = h.records_counted;
    })

blocked-Holds :
    {k : ℕ} (b : Buffer) (rs : List BufferRecord) (x : Bool)
    → Holds k b rs
    → Holds k (record b { blocked = x }) rs
blocked-Holds {k} b rs x h = record {
  healthy = h.healthy;
  contents = h.contents;
  bytes_counted = h.bytes_counted;
  records_counted = h.records_counted;
}

append_round-Outcome :
    {k : ℕ} (os : Os) (b : Buffer) (rs : List BufferRecord) (r : BufferRecord)
    → IsRecord r
    → Holds k b rs
    → Outcome k rs r (append_round os b r).0 (append_round os b r).1
unfolding append_round
append_round-Outcome {k} os b rs r fits h =
    if_both Settled b.closed _ _ (λ _. inl h)
      λ _.
        if_both Settled (over_watermark b) _ _ (λ _. blocked-Holds b rs true h)
          λ _.
            if_both Settled (not (fs_has_room os (record b { blocked = false }))) _ _
              (λ _. blocked-Holds b rs false h)
              (λ _. write_locked-Settles os _ rs r fits (blocked-Holds b rs false h))
  where
    Settled : Buffer × Attempt → Type 0
    Settled t = Outcome k rs r t.0 t.1

-- A round of `append` on a buffer that stands for the queue `rs`, whatever the operating system
-- answers: if the record was stored the buffer stands for `rs` with the record at its end, if the
-- round waits it still stands for `rs`, and if the call fails it stands for `rs` or has recorded the
-- error.
pub try_append-Outcome :
    {k : ℕ} (os : Os) (b : Buffer) (rs : List BufferRecord) (r : BufferRecord)
    → IsRecord r
    → Holds k b rs
    → Outcome k rs r (try_append os b r).0 (try_append os b r).1
unfolding try_append
try_append-Outcome {k} os b rs r fits h = by_failure b.failure h.healthy
  where
    by_failure :
        (f : Option BufferError)
        → f ≡ none
        → Outcome k rs r
            (let t : Buffer × Attempt = elim f [
              | some e ↦ (b, failed e)
              | none ↦ append_round os b r
            ] in
              t.0)
            (let t : Buffer × Attempt = elim f [
              | some e ↦ (b, failed e)
              | none ↦ append_round os b r
            ] in
              t.1)
    by_failure none e = append_round-Outcome os b rs r fits h
    by_failure (some x) e = absurd (cc)
