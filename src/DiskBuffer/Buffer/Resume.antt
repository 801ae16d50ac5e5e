-- ===== src/DiskBuffer/Buffer/Resume.antt =====
-- A backlog that a restarted process adopts: `adopt` and `tail`.
use mathlib.Core.Path.{subst₂}
use pikawire.Prelude.{
  ℕ, ◌+◌, ◌≡◌, refl, sym, ap, ◌∙◌, Bool, true, List, [], ◌∷◌, ◌++◌, append_assoc, append-nil, Bytes,
  length, length-append, arith,
}
use pikawire.DiskBuffer.Record.{BufferRecord}
use pikawire.DiskBuffer.Buffer.{Buffer, fresh_buffer, adopt, adopt_file, total, nothing_pending}
use pikawire.DiskBuffer.Buffer.View.{frames, frames-append, Spells, Behind, Holds}

pub total-Spells :
    (segs : List Bytes) (rs : List BufferRecord) → Spells segs rs → total segs ≡ length (frames rs)
total-Spells [] rs h = sym (ap (λ x. length (frames x)) h)
total-Spells (s ∷ segs) rs (mine, others, split, spelled, _, rest) = omega (
  arith,
  ap length spelled,
  total-Spells segs others rest,
  ap (λ x. length (frames x)) split,
  ap (λ x. length x) (frames-append mine others),
  length-append (frames mine) (frames others),
)

-- The fields that `adopt` changes, and those that matter and stay.
pub adopt_fields :
    (b : Buffer) (files : List Bytes)
    → let a = adopt b files in
      (a.segs ≡ b.segs ++ files)
      × (a.written ≡ b.written + total files)
      × (a.ro ≡ b.ro)
      × (a.failure ≡ b.failure)
      × ((a.appended ≡ b.appended) × (a.drained_b ≡ b.drained_b) × (a.drained_c ≡ b.drained_c))
unfolding adopt adopt_file
adopt_fields b [] = (sym (append-nil b.segs), omega arith, refl, refl, (refl, refl, refl))
adopt_fields b (file ∷ files) =
    let (segs, written, ro, failure, counts) = adopt_fields (adopt_file b file) files in
    (segs ∙ append_assoc b.segs (file ∷ []) files, omega (arith, written), ro, failure, counts)

-- The cursor at the start of the first segment.
at_start : (segs : List Bytes) (rs : List BufferRecord) → Spells segs rs → Behind segs 0 rs
at_start [] rs h = (refl, h)
at_start (s ∷ segs) rs h = (omega arith, h)

module _ (seg_bytes high reserve : ℕ) (durable : Bool) where
  abbrev pub resumed : List Bytes → Buffer
  resumed files = adopt (fresh_buffer seg_bytes high reserve durable true) files

  -- An adopted backlog stands for the records in its files, none of which is counted.
  pub resumed-Holds :
      (files : List Bytes) (rs : List BufferRecord)
      → Spells files rs
      → Holds (length rs) (resumed files) rs
  unfolding fresh_buffer
  resumed-Holds files rs spelled =
      let (segs, written, ro, failure, (appended, drained_b, drained_c)) =
        adopt_fields (fresh_buffer seg_bytes high reserve durable true) files in
      record {
        healthy = failure;
        contents = subst₂ (λ l n. Behind l n rs) (sym segs) (sym ro) (at_start files rs spelled);
        bytes_counted = omega (arith, written, drained_b, total-Spells files rs spelled);
        records_counted = omega (arith, appended, drained_c);
      }

  -- An adopted backlog that `tail` has not scanned stands for the records of its files, and the
  -- counters that `Release` reads show none of them, however many there are.
  pub resumed-uncounted :
      (files : List Bytes) (rs : List BufferRecord)
      → Spells files rs
      → Holds (length rs) (resumed files) rs × (nothing_pending (resumed files) ≡ true)
  unfolding nothing_pending fresh_buffer
  resumed-uncounted files rs spelled =
      let (_, _, _, _, (appended, _, drained_c)) =
        adopt_fields (fresh_buffer seg_bytes high reserve durable true) files in
      (resumed-Holds files rs spelled, ground (arith, appended, drained_c))
