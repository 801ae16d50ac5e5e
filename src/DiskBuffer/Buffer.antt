-- ===== src/DiskBuffer/Buffer.antt =====
-- The state and the operations of `diskBuffer`. A segment is the bytes written to its file, so its
-- `size` is their number. The reader index `rs` of the code is left out: every assignment to it
-- stores 0. The mutex makes each operation one step.
pub mod View
pub mod Append
pub mod Drain
pub mod Resume
pub mod Kept
pub mod Tail
use pikawire.Prelude.{
  ℕ, zero, suc, ◌+◌, ◌-◌, ◌*◌, ◌/◌, ◌^◌, Bool, true, false, ◌&&◌, ◌||◌, not, Option, none, some,
  List, [], ◌∷◌, ◌++◌, Bytes, length, slice, Result, ok, err, panic, ltb, leb, ◌==◌, if◌then◌else◌,
}
use pikawire.Prelude.Words.{le_value}
use pikawire.Position.{Position, zero_position}
use pikawire.DiskBuffer.Record.{
  BufferRecord, BufferError, frame, decode_record, buffer_closed, corrupt_length, read_len,
  read_payload, write_failed, fsync_failed, create_failed, list_failed, short_record,
}

-- `on_disk` is what is left of the drained segments when `keep` retains their files.
pub record Buffer : Type 0 where
  pub seg_bytes : ℕ
  pub high : ℕ
  pub low : ℕ
  pub reserve : ℕ
  pub durable : Bool
  pub keep : Bool
  pub adopted : Bool
  pub segs : List Bytes
  pub on_disk : List Bytes
  pub written : ℕ
  pub drained_b : ℕ
  pub appended : ℕ
  pub drained_c : ℕ
  pub ro : ℕ
  pub fs_accum : ℕ
  pub created : ℕ
  pub closed : Bool
  pub blocked : Bool
  pub failure : Option BufferError

abbrev pub fsync_interval : ℕ
fsync_interval = 4 * 2 ^ 20

-- What the operating system answers to the calls of one operation.
pub record Os : Type 0 where
  pub create_ok : Bool
  pub write_ok : Bool
  pub sync_ok : Bool
  -- `fsFreeBytes`, where it is known
  pub free : Option ℕ

-- The buffer of `newDiskBuffer` before it adopts anything: `segBytes` and `high` have defaults.
unfoldable pub fresh_buffer : ℕ → ℕ → ℕ → Bool → Bool → Buffer
fresh_buffer seg_bytes high reserve durable keep =
    let seg_bytes' = if seg_bytes == 0 then 64 * 2 ^ 20 else seg_bytes in
    let high' = if high == 0 then 8 * 2 ^ 30 else high in
    record {
      seg_bytes = seg_bytes';
      high = high';
      low = high' / 2;
      reserve = reserve;
      durable = durable;
      keep = keep;
      adopted = false;
      segs = [];
      on_disk = [];
      written = 0;
      drained_b = 0;
      appended = 0;
      drained_c = 0;
      ro = 0;
      fs_accum = 0;
      created = 0;
      closed = false;
      blocked = false;
      failure = none;
    }

-- One file of the directory, in the loop of `adopt`.
unfoldable pub adopt_file : Buffer → Bytes → Buffer
adopt_file b file = record b {
  segs = b.segs ++ (file ∷ []);
  written = b.written + length file;
  created = b.created + 1;
  adopted = true;
}

-- `adopt`, given the files named `pending-*.log` in the order of their names.
unfoldable pub adopt : Buffer → List Bytes → Buffer
adopt b [] = b
adopt b (file ∷ files) = adopt (adopt_file b file) files

-- `newDiskBuffer`: the old files are removed without `keep` and adopted with it. `none` is a
-- directory that cannot be made or read.
unfoldable pub new_disk_buffer :
    ℕ → ℕ → ℕ → Bool → Bool → Option (List Bytes) → Result BufferError Buffer
new_disk_buffer seg_bytes high reserve durable keep none = err list_failed
new_disk_buffer seg_bytes high reserve durable keep (some files) =
    let b = fresh_buffer seg_bytes high reserve durable keep in
    if keep then ok (adopt b files) else ok b

-- `bufferedBytes`
abbrev pub buffered_bytes : Buffer → ℕ
buffered_bytes b = b.written - b.drained_b

-- The bytes of the last segment, and a write at its end.
unfoldable pub last_seg : List Bytes → Bytes
last_seg [] = []
last_seg (s ∷ []) = s
last_seg (s ∷ t ∷ segs) = last_seg (t ∷ segs)

unfoldable pub write_last : List Bytes → Bytes → List Bytes
write_last [] bytes = []
write_last (s ∷ []) bytes = (s ++ bytes) ∷ []
write_last (s ∷ t ∷ segs) bytes = s ∷ write_last (t ∷ segs) bytes

-- `rotateLocked`
unfoldable pub rotate : Os → Buffer → Result BufferError Buffer
rotate os b =
    if os.create_ok
    then ok (record b { created = b.created + 1; segs = b.segs ++ ([] ∷ []) })
    else err create_failed

-- The test of `writeLocked` for a new segment.
unfoldable pub must_rotate : Buffer → Bytes → Bool
must_rotate b bytes = elim b.segs [
  | [] ↦ true
  | s ∷ segs ↦
      let size = length (last_seg (s ∷ segs)) in ltb 0 size && ltb b.seg_bytes (size + length bytes)
]

-- The update of `writeLocked` for a frame that was written; `sync` tells that an fsync is due.
unfoldable pub put_frame : Bool → Buffer → Bytes → Buffer
put_frame sync b bytes = record b {
  segs = write_last b.segs bytes;
  written = b.written + length bytes;
  appended = b.appended + 1;
  fs_accum = if sync then 0 else b.fs_accum + length bytes;
}

unfoldable pub sync_due : Buffer → Bytes → Bool
sync_due b bytes = b.durable && leb fsync_interval (b.fs_accum + length bytes)

-- The part of `writeLocked` behind the rotation; no error is a nil error.
unfoldable pub write_frame : Os → Buffer → Bytes → Buffer × Option BufferError
write_frame os b bytes =
    let sync = sync_due b bytes in
    let b' = put_frame sync b bytes in
    if not os.write_ok
    then (record b { failure = some write_failed }, some write_failed)
    else if sync && not os.sync_ok
    then (record b' { failure = some fsync_failed }, some fsync_failed)
    else (b', none)

-- `writeLocked`: a segment that cannot be made fails the call (its number is used up), and not the
-- buffer.
unfoldable pub write_locked : Os → Buffer → Bytes → Buffer × Option BufferError
write_locked os b bytes =
    if must_rotate b bytes
    then elim (rotate os b) [
      | ok b' ↦ write_frame os b' bytes
      | err e ↦ (record b { created = b.created + 1 }, some e)
      | panic ↦ (b, none)
    ]
    else write_frame os b bytes

-- `fsHasRoomLocked`
unfoldable pub fs_has_room : Os → Buffer → Bool
fs_has_room os b = elim os.free [ none ↦ true | some free ↦ leb b.reserve free ]

-- How one round of the loop of `append` ends: the record is written, the call fails, or it waits.
pub data Attempt : Type 0 where
  stored : Attempt
  failed : BufferError → Attempt
  waits : Attempt

abbrev pub finished : Option BufferError → Attempt
finished none = stored
finished (some e) = failed e

-- The high watermark is reached, or it was and the buffer is not yet below the low one.
unfoldable pub over_watermark : Buffer → Bool
over_watermark b = leb b.high (buffered_bytes b) || (b.blocked && leb b.low (buffered_bytes b))

-- One round of the loop of `append` on a buffer with no recorded failure.
unfoldable pub append_round : Os → Buffer → BufferRecord → Buffer × Attempt
append_round os b r =
    let open_b = record b { blocked = false } in
    if b.closed
    then (b, failed buffer_closed)
    else if over_watermark b
    then (record b { blocked = true }, waits)
    else if not (fs_has_room os open_b)
    then (open_b, waits)
    else let w = write_locked os open_b (frame r) in (w.0, finished w.1)

-- One round of the loop of `append`, under the lock. A round that waits is tried again.
unfoldable pub try_append : Os → Buffer → BufferRecord → Buffer × Attempt
try_append os b r = elim b.failure [ some e ↦ (b, failed e) | none ↦ append_round os b r ]

-- What one round of the loop of `nextLocked` does at the cursor.
pub data Fetch : Type 0 where
  drained : Fetch
  next_segment : Buffer → Fetch
  fetched : BufferRecord → Buffer → Fetch
  broken : BufferError → Fetch

-- The record of `plen` bytes behind the length at the cursor of segment `s`.
unfoldable pub fetch_payload : Buffer → Bytes → ℕ → Fetch
fetch_payload b s plen =
    if plen == 0 || ltb (length s) (plen + b.ro)
    then broken corrupt_length
    else if ltb (length s) (b.ro + 4 + plen)
    then broken read_payload
    else elim (decode_record (slice s (b.ro + 4) (b.ro + 4 + plen))) [
      | err e ↦ broken e
      | panic ↦ broken short_record
      | ok r ↦ fetched r (record b {
        ro = b.ro + (4 + plen);
        drained_b = b.drained_b + (4 + plen);
        drained_c = b.drained_c + 1;
      })
    ]

-- The record at the cursor of segment `s`. `size` and the file agree, so that a read up to `size`
-- succeeds and a read behind it fails.
unfoldable pub fetch_record : Buffer → Bytes → Fetch
fetch_record b s =
    if ltb (length s) (b.ro + 4)
    then broken read_len
    else fetch_payload b s (le_value (slice s b.ro (b.ro + 4)))

-- The segment at the front is read to its end: it is closed and, without `keep`, removed.
unfoldable pub leave_segment : Buffer → Bytes → List Bytes → Buffer
leave_segment b s segs = record b {
  segs = segs;
  ro = 0;
  on_disk = if b.keep then b.on_disk ++ (s ∷ []) else b.on_disk;
}

-- One round at the given segments of the buffer: only the open segment, the last, stays when it is
-- read to its end, and only if it is not empty.
unfoldable pub fetch_at : Buffer → List Bytes → Fetch
fetch_at b [] = drained
fetch_at b (s ∷ []) =
    if leb (length s) b.ro
    then if length s == 0 then next_segment (leave_segment b s []) else drained
    else fetch_record b s
fetch_at b (s ∷ t ∷ segs) =
    if leb (length s) b.ro then next_segment (leave_segment b s (t ∷ segs)) else fetch_record b s

unfoldable pub fetch : Buffer → Fetch
fetch b = fetch_at b b.segs

-- The records that a call read, and its error.
pub record Batch : Type 0 where
  pub buffer : Buffer
  pub records : List BufferRecord
  pub problem : Option BufferError

-- The loop of `nextLocked`. Every round reads one of the `n` records or leaves a segment, so that
-- `n` and the number of segments, plus one, are fuel enough.
unfoldable pub next_loop : ℕ → ℕ → Buffer → List BufferRecord → Batch
next_loop zero n b out = record { buffer = b; records = out; problem = none }
next_loop (suc fuel) zero b out = record { buffer = b; records = out; problem = none }
next_loop (suc fuel) (suc n) b out = elim (fetch b) [
  | drained ↦ record { buffer = b; records = out; problem = none }
  | next_segment b' ↦ next_loop fuel (suc n) b' out
  | fetched r b' ↦ next_loop fuel n b' (out ++ (r ∷ []))
  | broken e ↦ record { buffer = record b { failure = some e }; records = out; problem = some e }
]

-- `nextLocked`
unfoldable pub next_locked : ℕ → Buffer → Batch
next_locked n b = elim b.failure [
  | some e ↦ record { buffer = b; records = []; problem = some e }
  | none ↦ next_loop (n + length b.segs + 1) n b []
]

-- `next`
unfoldable pub next : ℕ → Buffer → Batch
next n b = if n == 0 then next_locked 256 b else next_locked n b

-- `next` until it finds nothing, in `tail`: the last position and the number of records.
pub record Scan : Type 0 where
  pub buffer : Buffer
  pub last : Position
  pub found : ℕ
  pub problem : Option BufferError

unfoldable pub last_pos : Position → List BufferRecord → Position
last_pos p [] = p
last_pos p (r ∷ rs) = last_pos r.pb_end rs

unfoldable pub tail_loop : ℕ → Buffer → Position → ℕ → Scan
tail_loop zero b last found = record { buffer = b; last = last; found = found; problem = none }
tail_loop (suc fuel) b last found =
    let batch = next_locked 512 b in
    elim batch.problem [
      | some e ↦ record { buffer = batch.buffer; last = last; found = found; problem = some e }
      | none ↦ elim batch.records [
        | [] ↦ record { buffer = batch.buffer; last = last; found = found; problem = none }
        | r ∷ rs ↦ tail_loop fuel batch.buffer (last_pos last (r ∷ rs)) (found + length (r ∷ rs))
      ]
    ]

-- The total size of the segments: no scan reads more records.
abbrev pub total : List Bytes → ℕ
total [] = 0
total (s ∷ segs) = length s + total segs

-- The part of `tail` behind its loop: the records of an adopted backlog are credited once, and the
-- cursor goes back to the start of the first segment that is left.
unfoldable pub rewind : Scan → Scan
rewind s = elim s.problem [
  | some e ↦ s
  | none ↦
      let b = s.buffer in
      record s {
        buffer = record b {
          appended = if b.adopted then b.appended + s.found else b.appended;
          adopted = false;
          ro = 0;
          drained_b = 0;
          drained_c = 0;
        };
      }
]

-- `tail`
unfoldable pub tail : Buffer → Scan
tail b = elim b.failure [
  | some e ↦ record { buffer = b; last = zero_position; found = 0; problem = some e }
  | none ↦ rewind (tail_loop (total b.segs + 1) b zero_position 0)
]

-- `cnt <= 0` for the first result of `pending`, which is signed: nothing more is counted than was
-- drained.
unfoldable pub nothing_pending : Buffer → Bool
nothing_pending b = leb b.appended b.drained_c

-- `close`
unfoldable pub close : Buffer → Buffer
close b =
    if b.closed
    then b
    else record b { closed = true; segs = []; on_disk = if b.keep then b.on_disk ++ b.segs else [] }

-- `discard`
unfoldable pub discard : Buffer → Buffer
discard b = record (close b) { on_disk = [] }
