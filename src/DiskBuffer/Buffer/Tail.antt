-- ===== src/DiskBuffer/Buffer/Tail.antt =====
-- The scan of an adopted backlog for its last position: `tail`.
use mathlib.Core.Path.{subst}
use pikawire.Prelude.{
  ℕ, zero, suc, ◌+◌, ◌≤◌, ◌<◌, ◌≡◌, refl, sym, ap, ◌∙◌, Bool, true, false, Option, none, some, List,
  [], ◌∷◌, ◌++◌, append_assoc, Bytes, length, length-append, length-drop, take, drop, if_both,
  take-append-drop, arith,
}
use pikawire.Position.{Position, zero_position}
use pikawire.DiskBuffer.Record.{frame, BufferRecord, BufferError}
use pikawire.DiskBuffer.Buffer.{
  Buffer, fresh_buffer, adopt, adopt_file, total, next_locked, Batch, Scan, last_pos, tail_loop,
  rewind, tail,
}
use pikawire.DiskBuffer.Buffer.View.{frames, length-frame, Spells, Holds}
use pikawire.DiskBuffer.Buffer.Drain.{Takes, next_locked-take}
use pikawire.DiskBuffer.Buffer.Resume.{total-Spells, adopt_fields, resumed, resumed-Holds}
use pikawire.DiskBuffer.Buffer.Kept.{Kept, Kept-trans, next_locked-Kept, next_locked-open}

take-nil : (n : ℕ) (rs : List BufferRecord) → take (suc n) rs ≡ [] → rs ≡ []
take-nil n [] h = refl
take-nil n (r ∷ rs) h = absurd (cc)

last_pos-append :
    (p : Position) (rs ts : List BufferRecord) → last_pos p (rs ++ ts) ≡ last_pos (last_pos p rs) ts
unfolding last_pos
last_pos-append p [] ts = refl
last_pos-append p (r ∷ rs) ts = last_pos-append r.pb_end rs ts

-- What the scan of `tail` reports of the queue `rs`, and how it leaves the buffer.
record Scanned (k : ℕ) (b : Buffer) (last : Position) (found : ℕ) (rs : List BufferRecord)
    (s : Scan) : Type 0 where
  no_problem : s.problem ≡ none
  last_read : s.last ≡ last_pos last rs
  all_found : s.found ≡ found + length rs
  kept : Kept b s.buffer
  emptied : Holds k s.buffer []
  open_left : length s.buffer.segs ≤ 1

tail_loop-Scanned :
    {k : ℕ} (fuel : ℕ) (b : Buffer) (last : Position) (found : ℕ) (rs : List BufferRecord)
    → Holds k b rs
    → length rs < fuel
    → Scanned k b last found rs (tail_loop fuel b last found)
unfolding tail_loop
tail_loop-Scanned zero b last found rs h enough = absurd (omega arith)
tail_loop-Scanned {k} (suc fuel) b last found rs h enough =
    by_batch batch.problem batch.records t.no_problem refl (λ l f shorter.
      tail_loop-Scanned fuel batch.buffer l f (drop 512 rs) t.rest_held
        (omega (arith, length-drop 512 rs)))
  where
    batch : Batch
    batch = next_locked 512 b

    t : Takes k 512 rs [] (next_locked 512 b)
    t = next_locked-take 512 b rs h

    by_batch :
        (problem : Option BufferError) (records : List BufferRecord)
        → problem ≡ none
        → (next_locked 512 b).records ≡ records
        → ((l : Position) (f : ℕ)
            → 0 < length rs
            → Scanned k
                (next_locked 512 b).buffer
                l
                f
                (drop 512 rs)
                (tail_loop fuel (next_locked 512 b).buffer l f))
        → Scanned k b last found rs (elim problem [
          | some e ↦ record {
            buffer = (next_locked 512 b).buffer;
            last = last;
            found = found;
            problem = some e;
          }
          | none ↦ elim records [
            | [] ↦ record {
              buffer = (next_locked 512 b).buffer;
              last = last;
              found = found;
              problem = none;
            }
            | r ∷ more ↦
                tail_loop fuel
                  (next_locked 512 b).buffer
                  (last_pos last (r ∷ more))
                  (found + length (r ∷ more))
          ]
        ])
    by_batch (some e) records h' is rest = absurd (cc)
    by_batch none [] _ is rest =
        let empty : rs ≡ [] = take-nil 511 rs (sym t.front ∙ is) in
        record {
          no_problem = refl;
          last_read = rw empty (unfold last_pos in refl);
          all_found = rw empty (omega arith);
          kept = next_locked-Kept 512 b;
          emptied = rw empty at t.rest_held;
          open_left = next_locked-open 511 b (rw empty at h);
        }
    by_batch none (r ∷ more) _ is rest =
        let whole : (r ∷ more) ++ drop 512 rs ≡ rs =
          ap (λ l. l ++ drop 512 rs) (sym is ∙ t.front) ∙ take-append-drop 512 rs in
        let s =
          rest (last_pos last (r ∷ more)) (found + length (r ∷ more))
            (omega (arith, ap (λ l. length l) whole)) in
        record {
          no_problem = s.no_problem;
          last_read =
              s.last_read
              ∙ sym (last_pos-append last (r ∷ more) (drop 512 rs))
              ∙ ap (last_pos last) whole;
          all_found = omega (
            arith,
            s.all_found,
            ap (λ l. length l) whole,
            length-append (r ∷ more) (drop 512 rs),
          );
          kept = Kept-trans b _ _ (next_locked-Kept 512 b) s.kept;
          emptied = s.emptied;
          open_left = s.open_left;
        }

length-frames : (rs : List BufferRecord) → length rs ≤ length (frames rs)
length-frames [] = omega arith
length-frames (r ∷ rs) =
    omega (arith, length-frames rs, length-append (frame r) (frames rs), length-frame r)

-- The segments behind a number of them at the front hold what is left behind their records.
Spells-append :
    (gone segs : List Bytes) (rs : List BufferRecord)
    → Spells (gone ++ segs) rs
    → (lost : List BufferRecord) × (mine : List BufferRecord) × (rs ≡ lost ++ mine)
      × Spells gone lost
      × Spells segs mine
Spells-append [] segs rs h = ([], rs, refl, refl, h)
Spells-append (s ∷ gone) segs rs (mine, others, split, spelled, fit, rest) =
    let (lost, left, split', gone_spelled, left_spelled) = Spells-append gone segs others rest in
    (
      mine ++ lost,
      left,
      split ∙ ap (λ l. mine ++ l) split' ∙ sym (append_assoc mine lost left),
      (mine, lost, refl, spelled, fit, gone_spelled),
      left_spelled,
    )

Spells-nonempty :
    (s : Bytes) (segs : List Bytes) (rs : List BufferRecord)
    → Spells (s ∷ segs) rs
    → 0 < length s
    → 0 < length rs
Spells-nonempty s segs [] h some_byte = absurd (omega (arith, total-Spells (s ∷ segs) [] h))
Spells-nonempty s segs (r ∷ rs) h some_byte = omega arith

elim_none :
    {A B : Type 0} (f : A → B) {x : B} (o : Option A)
    → o ≡ none
    → elim o [ some e ↦ f e | none ↦ x ] ≡ x
elim_none f none h = refl
elim_none f (some e) h = absurd (cc)

adopt_adopted :
    (b : Buffer) (files : List Bytes) → b.adopted ≡ true → (adopt b files).adopted ≡ true
unfolding adopt adopt_file
adopt_adopted b [] h = h
adopt_adopted b (file ∷ files) h = adopt_adopted (adopt_file b file) files refl

-- What `tail` owes to an adopted backlog of the records `rs`.
pub record Reports (files : List Bytes) (rs : List BufferRecord) (s : Scan) : Type 0 where
  pub no_problem : s.problem ≡ none
  pub last_read : s.last ≡ last_pos zero_position rs
  pub all_found : s.found ≡ length rs
  pub counted : s.buffer.appended ≡ length rs
  pub nothing_drained : s.buffer.drained_c ≡ 0
  pub left : (gone : List Bytes) × (files ≡ gone ++ s.buffer.segs)
  pub open_left : length s.buffer.segs ≤ 1

module _ (seg_bytes high reserve : ℕ) (durable : Bool) where
  uncredited :
      (files : List Bytes) (rs : List BufferRecord)
      → Spells files rs
      → (resumed seg_bytes high reserve durable files).adopted ≡ false
      → length rs ≡ 0
  unfolding adopt adopt_file
  uncredited [] rs spelled h = ap (λ l. length l) spelled
  uncredited (file ∷ files) rs spelled h = absurd (
      cc (
        h,
        adopt_adopted (adopt_file (fresh_buffer seg_bytes high reserve durable true) file) files
            refl,
      ))

  counts_once :
      (files : List Bytes) (rs : List BufferRecord) (s : Scan)
      → Spells files rs
      → Scanned (length rs) (resumed seg_bytes high reserve durable files) zero_position 0 rs s
      → Reports files rs (rewind s)
  unfolding rewind fresh_buffer
  counts_once files rs s spelled scanned =
      let (segs, _, _, _, (appended, _, _)) =
        adopt_fields (fresh_buffer seg_bytes high reserve durable true) files in
      subst (Reports files rs) (sym (elim_none _ s.problem scanned.no_problem)) record {
        no_problem = scanned.no_problem;
        last_read = scanned.last_read;
        all_found = omega (arith, scanned.all_found);
        counted =
            if_both (λ n. n ≡ length rs) s.buffer.adopted _ _
              (λ _. omega (arith, scanned.kept.appended, appended, scanned.all_found))
              (λ no. omega (
                arith,
                scanned.kept.appended,
                appended,
                uncredited files rs spelled (sym scanned.kept.adopted ∙ no),
              ));
        nothing_drained = refl;
        left = (scanned.kept.left.0, sym segs ∙ scanned.kept.left.1);
        open_left = scanned.open_left;
      }

  -- `tail` on an adopted backlog reports no error, the end position of its last record and the
  -- number of its records, and counts them once. The segments that are left are the last of
  -- the files, at most one of them.
  pub tail-Reports :
      (files : List Bytes) (rs : List BufferRecord)
      → Spells files rs
      → Reports files rs (tail (resumed seg_bytes high reserve durable files))
  unfolding tail fresh_buffer
  tail-Reports files rs spelled =
      let (segs, _, _, failure, _) =
        adopt_fields (fresh_buffer seg_bytes high reserve durable true) files in
      subst (Reports files rs)
        (sym (elim_none _ (resumed seg_bytes high reserve durable files).failure failure))
        (counts_once files rs _ spelled (
          tail_loop-Scanned (total (resumed seg_bytes high reserve durable files).segs + 1) _
            zero_position 0 rs (resumed-Holds seg_bytes high reserve durable files rs spelled)
            (omega (arith, ap total segs, total-Spells files rs spelled, length-frames rs))))

  -- If the adopted files are two or more and the first has a record, `tail` loses records: the
  -- segments that are left hold the records behind some at the front, at least one, and the counter
  -- of what is to be drained still includes those.
  pub tail_loses :
      (s t : Bytes) (files : List Bytes) (rs : List BufferRecord)
      → Spells (s ∷ t ∷ files) rs
      → 0 < length s
      → let b = (tail (resumed seg_bytes high reserve durable (s ∷ t ∷ files))).buffer in
        (lost : List BufferRecord) × (mine : List BufferRecord) × (rs ≡ lost ++ mine)
        × (0 < length lost)
        × Spells b.segs mine
        × (b.appended ≡ b.drained_c + length lost + length mine)
  tail_loses s t files rs spelled some_record =
      let reports = tail-Reports (s ∷ t ∷ files) rs spelled in
      at_gone reports.left.0 reports.left.1 reports
    where
      b : Buffer
      b = (tail (resumed seg_bytes high reserve durable (s ∷ t ∷ files))).buffer

      first_length : List Bytes → ℕ
      first_length [] = 0
      first_length (x ∷ xs) = length x

      at_gone :
          (gone : List Bytes)
          → s ∷ t ∷ files ≡ gone ++ b.segs
          → Reports
              (s ∷ t ∷ files)
              rs
              (tail (resumed seg_bytes high reserve durable (s ∷ t ∷ files)))
          → (lost : List BufferRecord) × (mine : List BufferRecord) × (rs ≡ lost ++ mine)
            × (0 < length lost)
            × Spells b.segs mine
            × (b.appended ≡ b.drained_c + length lost + length mine)
      at_gone [] is reports = absurd (omega (arith, reports.open_left, ap (λ l. length l) is))
      at_gone (g ∷ gone) is reports =
          let (lost, mine, split, gone_spelled, left_spelled) =
            Spells-append (g ∷ gone) b.segs rs (subst (λ l. Spells l rs) is spelled) in
          (
            lost,
            mine,
            split,
            Spells-nonempty g gone lost gone_spelled
                (omega (arith, some_record, ap first_length is)),
            left_spelled,
            omega (
              arith,
              reports.counted,
              reports.nothing_drained,
              ap (λ l. length l) split,
              length-append lost mine,
            ),
          )
