-- ===== src/Examples/Backlog.antt =====
-- The disk buffer at concrete inputs.
use pikawire.Prelude.{
  ◌≡◌, ◌<◌, ◌+◌, ◌^◌, ◌∷◌, [], ◌++◌, List, Bytes, true, false, none, refl, length, arith,
}
use pikawire.DiskBuffer.Record.{BufferRecord, frame, encode}
use pikawire.DiskBuffer.Record.RoundTrip.{IsRecord}
use pikawire.DiskBuffer.Buffer.{Buffer, Os, try_append, next_locked, nothing_pending, tail}
use pikawire.DiskBuffer.Buffer.View.{frames, Spells, Holds}
use pikawire.DiskBuffer.Buffer.Append.{Outcome, try_append-Outcome}
use pikawire.DiskBuffer.Buffer.Drain.{Takes, next_locked-take}
use pikawire.DiskBuffer.Buffer.Resume.{resumed, resumed-uncounted}
use pikawire.DiskBuffer.Buffer.Tail.{Reports, tail-Reports, tail_loses}

abbrev first : BufferRecord
first = record {
  pb_end = record { filenum = 3; offset = 150 };
  item_pos = record { filenum = 3; offset = 100 };
  exec_time = 1700000000;
  raw = b'o' ∷ b'k' ∷ [];
}

abbrev second : BufferRecord
second = record first { pb_end = record { filenum = 3; offset = 200 }; raw = b'x' ∷ [] }

first-IsRecord : IsRecord first
first-IsRecord = record {
  pb_end_fits = record { filenum_fits = omega arith; offset_fits = omega arith };
  item_pos_fits = record { filenum_fits = omega arith; offset_fits = omega arith };
  exec_fits = omega arith;
  payload_fits = omega arith;
}

second-IsRecord : IsRecord second
second-IsRecord = record {
  pb_end_fits = record { filenum_fits = omega arith; offset_fits = omega arith };
  item_pos_fits = record { filenum_fits = omega arith; offset_fits = omega arith };
  exec_fits = omega arith;
  payload_fits = omega arith;
}

abbrev queue : List BufferRecord
queue = first ∷ second ∷ []

-- One record in each of two files.
abbrev first_file : Bytes
first_file = frames (first ∷ [])

abbrev second_file : Bytes
second_file = frames (second ∷ [])

abbrev files : List Bytes
files = first_file ∷ second_file ∷ []

files-Spells : Spells files queue
files-Spells = (
  first ∷ [],
  second ∷ [],
  refl,
  refl,
  (first-IsRecord, tt),
  (second ∷ [], [], refl, refl, (second-IsRecord, tt), refl),
)

-- A buffer that wrote both, and drained neither.
abbrev two_waiting : Buffer
two_waiting = record {
  seg_bytes = 30;
  high = 2 ^ 20;
  low = 2 ^ 19;
  reserve = 0;
  durable = true;
  keep = false;
  adopted = false;
  segs = files;
  on_disk = [];
  written = length (frames queue);
  drained_b = 0;
  appended = 2;
  drained_c = 0;
  ro = 0;
  fs_accum = 0;
  created = 2;
  closed = false;
  blocked = false;
  failure = none;
}

two_waiting-Holds : Holds 0 two_waiting queue
two_waiting-Holds = record {
  healthy = refl;
  contents = (omega arith, files-Spells);
  bytes_counted = omega arith;
  records_counted = refl;
}

abbrev working : Os
working = record { create_ok = true; write_ok = true; sync_ok = true; free = none }

try_append-Outcome_example :
    Outcome 0 queue first
      (try_append working two_waiting first).0
      (try_append working two_waiting first).1
try_append-Outcome_example =
    try_append-Outcome working two_waiting queue first first-IsRecord two_waiting-Holds

next_locked-take_example : Takes 0 1 queue [] (next_locked 1 two_waiting)
next_locked-take_example = next_locked-take 1 two_waiting queue two_waiting-Holds

resumed-uncounted_example :
    Holds 2 (resumed 30 0 0 true files) queue × (nothing_pending (resumed 30 0 0 true files) ≡ true)
resumed-uncounted_example = resumed-uncounted 30 0 0 true files queue files-Spells

tail-Reports_example : Reports files queue (tail (resumed 30 0 0 true files))
tail-Reports_example = tail-Reports 30 0 0 true files queue files-Spells

first_file_some : 0 < length first_file
unfolding frame encode
first_file_some = omega arith

tail_loses_example :
    let b = (tail (resumed 30 0 0 true files)).buffer in
    (lost : List BufferRecord) × (mine : List BufferRecord) × (queue ≡ lost ++ mine)
    × (0 < length lost)
    × Spells b.segs mine
    × (b.appended ≡ b.drained_c + length lost + length mine)
tail_loses_example =
    tail_loses 30 0 0 true first_file second_file [] queue files-Spells first_file_some
