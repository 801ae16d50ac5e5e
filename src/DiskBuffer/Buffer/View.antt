-- ===== src/DiskBuffer/Buffer/View.antt =====
-- The queue of records that a buffer stands for.
use pikawire.Prelude.{
  ℕ, ◌+◌, ◌≤◌, ◌≡◌, ◌↔◌, true, refl, sym, ap, ◌∙◌, none, List, [], ◌∷◌, ◌++◌, append_assoc, Bytes,
  length, drop, All, arith,
}
use pikawire.DiskBuffer.Record.{BufferRecord, payload_len, frame}
use pikawire.DiskBuffer.Record.RoundTrip.{IsRecord, length-encode}
use pikawire.DiskBuffer.Buffer.{Buffer, nothing_pending}

abbrev pub frames : List BufferRecord → Bytes
frames [] = []
frames (r ∷ rs) = frame r ++ frames rs

pub frames-append : (rs ts : List BufferRecord) → frames (rs ++ ts) ≡ frames rs ++ frames ts
frames-append [] ts = refl
frames-append (r ∷ rs) ts =
    ap (λ s. frame r ++ s) (frames-append rs ts)
    ∙ sym (append_assoc (frame r) (frames rs) (frames ts))

pub length-frame : (r : BufferRecord) → length (frame r) ≡ 4 + payload_len r
unfolding frame
length-frame r = omega (arith, length-encode r)

-- The segments hold the frames of the records, each record whole in one segment.
abbrev pub Spells : List Bytes → List BufferRecord → Type 0
Spells [] rs = rs ≡ []
Spells (s ∷ segs) rs =
    (mine : List BufferRecord) × (others : List BufferRecord) × (rs ≡ mine ++ others)
    × (s ≡ frames mine)
    × All IsRecord mine
    × Spells segs others

-- What is left behind the cursor `ro` of the first segment.
abbrev pub Behind : List Bytes → ℕ → List BufferRecord → Type 0
Behind [] ro rs = (ro ≡ 0) × (rs ≡ [])
Behind (s ∷ segs) ro rs = (ro ≤ length s) × Spells (drop ro s ∷ segs) rs

-- The buffer stands for the queue `rs`: those are the records that were appended and not drained.
-- The counters say so but for `k` records, those of an adopted backlog that nothing has counted yet.
pub record Holds (k : ℕ) (b : Buffer) (rs : List BufferRecord) : Type 0 where
  pub healthy : b.failure ≡ none
  pub contents : Behind b.segs b.ro rs
  pub bytes_counted : b.written ≡ b.drained_b + length (frames rs)
  pub records_counted : b.appended + k ≡ b.drained_c + length rs

-- With every record counted, `Release` sees an empty backlog exactly when the queue is empty.
pub nothing_pending_iff :
    (b : Buffer) (rs : List BufferRecord) → Holds 0 b rs → (nothing_pending b ≡ true) ↔ (rs ≡ [])
unfolding nothing_pending
nothing_pending_iff b [] h = (λ _. refl, λ _. ground (arith, h.records_counted))
nothing_pending_iff b (r ∷ rs) h =
    (λ e. absurd (ground (arith, h.records_counted)), λ e. absurd (cc))
