-- ===== src/Examples/Sessions.antt =====
-- A session of the runner: an entry is buffered, the anchor is set below it, and the release drains
-- it and opens the gate.
use pikawire.Prelude.{
  ◌≡◌, refl, true, false, none, some, List, [], ◌∷◌, ◌++◌, Bytes, Result, ok, err, panic, ◌^◌, ◌*◌,
  arith,
}
use pikawire.Position.{Position, is_zero, offset_after}
use pikawire.Gate.{GateCtl, new_gate_ctl, request_open_at, release_gate, drops, should_emit_now}
use pikawire.Resp.{
  serialize_array, bulks, bulk, parse_array, parse_int_line, parse_digits, scan_digits, expect_crlf,
  non_negative, signed, parse_bulks, parse_bulk, take_bulk, too_short, slice_front, bulk_end,
  expect_end,
}
use pikawire.Prelude.Decimal.{digits, format}
use pikawire.Binlog.{Item, decode_type_first, read_item}
use pikawire.Binlog.Layout.{entry_bytes}
use pikawire.DiskBuffer.Record.{
  BufferRecord, BufferError, frame, encode, decode_record, read_record,
}
use pikawire.DiskBuffer.Record.RoundTrip.{IsRecord}
use pikawire.DiskBuffer.Buffer
use pikawire.DiskBuffer.Buffer.{
  over_watermark, fs_has_room, write_locked, must_rotate, rotate, write_frame, sync_due, put_frame,
  write_last, last_seg, append_round, nothing_pending, next, next_locked, next_loop, fetch_at,
  fetch_record, fetch_payload, leave_segment, adopt, Buffer, Os, try_append, fresh_buffer,
  new_disk_buffer,
}
use pikawire.Runner.{
  outgoing, backlog_empty, open_gate, drops_at, Config, Command, Outgoing, Runner, new_runner,
  read_entry, command_of, take_entry, action, note_entry, claim_slot, new_buffer, record_of,
  consume, append_round_done, request_anchor, test_backlog, fetch_batch, flush_record, drain_record,
}
use pikawire.Runner.Steps.{
  Reach, start, receive, append, anchor, test, fetch, flush, entries, wanted,
}
use pikawire.Runner.Order.{in_order, open_complete, unanchored_silent}

abbrev cfg : Config
cfg = record {
  db_name = b'd' ∷ [];
  source_id = b's' ∷ [];
  high = 0;
  reserve = 0;
  durable = false;
  max_cap = 1000;
}

abbrev argv : List Bytes
argv = (b'D' ∷ b'E' ∷ b'L' ∷ []) ∷ (b'k' ∷ []) ∷ []

abbrev command : Command
command = record { cmd = b'D' ∷ b'E' ∷ b'L' ∷ []; key = b'k' ∷ []; argv = argv }

abbrev entry : Item
entry = record {
  item_type = 1;
  exec_time = 1700000000;
  term_id = 0;
  logic_id = 42;
  filenum = 3;
  offset = 100;
  content = serialize_array argv;
}

abbrev entry_end : Position
entry_end = record { filenum = 3; offset = 155 }

abbrev rec : BufferRecord
unfolding record_of is_zero
rec = record_of entry entry_end (entry_bytes entry)

reads : read_entry cfg (entry_bytes entry) ≡ ok (entry, command)
unfolding read_entry decode_type_first entry_bytes serialize_array format bulks bulk parse_array
    read_item parse_int_line parse_digits scan_digits expect_crlf non_negative signed parse_bulks
    parse_bulk take_bulk too_short slice_front bulk_end digits expect_end command_of
reads = refl

rec-IsRecord : IsRecord (record_of entry entry_end (entry_bytes entry))
unfolding record_of is_zero entry_bytes serialize_array bulks bulk format digits
rec-IsRecord = record {
  pb_end_fits = record { filenum_fits = omega arith; offset_fits = omega arith };
  item_pos_fits = record { filenum_fits = omega arith; offset_fits = omega arith };
  exec_fits = omega arith;
  payload_fits = omega arith;
}

-- The value of a result, or the runner as it was.
abbrev value : Result BufferError Runner → Runner → Runner
value (ok r) old = r
value (err e) old = old
value panic old = old

abbrev quiet : Os
quiet = record { create_ok = true; write_ok = true; sync_ok = true; free = none }

abbrev r₀ : Runner
r₀ = new_runner (some new_gate_ctl)

abbrev r₁ : Runner
r₁ = value (consume cfg (some []) r₀ (entry_bytes entry) entry_end) r₀

abbrev buf₁ : Buffer
buf₁ = fresh_buffer (64 * 2 ^ 20) (8 * 2 ^ 30) (4 * 2 ^ 30) false false

received : Reach cfg r₁ (rec ∷ [])
unfolding new_runner read_entry decode_type_first entry_bytes serialize_array format bulks bulk
    parse_array read_item parse_int_line parse_digits scan_digits expect_crlf non_negative signed
    parse_bulks parse_bulk take_bulk too_short slice_front bulk_end digits expect_end command_of
    consume take_entry action drops should_emit_now new_gate_ctl note_entry claim_slot new_buffer
    new_disk_buffer record_of is_zero
received = receive (entry_bytes entry) entry_end entry command start refl reads rec-IsRecord refl

abbrev r₂ : Runner
r₂ = append_round_done r₁ (try_append quiet buf₁ rec)

abbrev anchor_pos : Position
anchor_pos = record { filenum = 3; offset = 100 }

abbrev r₃ : Runner
r₃ = request_anchor r₂ anchor_pos

abbrev anchored_gate : GateCtl
anchored_gate = request_open_at new_gate_ctl anchor_pos

abbrev buf₂ : Buffer
buf₂ = (try_append quiet buf₁ rec).0

abbrev r₄ : Runner
r₄ = test_backlog r₃

abbrev r₅ : Runner
r₅ = value (fetch_batch r₄ buf₂) r₄

abbrev sent : List Outgoing
sent = outgoing cfg rec command ∷ []

abbrev r₆ : Runner
r₆ = test_backlog (flush_record r₅ [] sent)

buffered : Reach cfg r₂ (rec ∷ [])
unfolding new_runner read_entry decode_type_first entry_bytes serialize_array format bulks bulk
    parse_array read_item parse_int_line parse_digits scan_digits expect_crlf non_negative signed
    parse_bulks parse_bulk take_bulk too_short slice_front bulk_end digits expect_end command_of
    consume take_entry action drops should_emit_now new_gate_ctl note_entry claim_slot new_buffer
    new_disk_buffer record_of is_zero over_watermark fs_has_room write_locked must_rotate rotate
    write_frame sync_due put_frame write_last last_seg frame encode try_append append_round
    append_round_done request_anchor request_open_at test_backlog backlog_empty nothing_pending
    open_gate release_gate fetch_batch next next_locked next_loop Buffer.fetch fetch_at fetch_record
    fetch_payload decode_record read_record leave_segment flush_record drain_record drops_at
    offset_after outgoing fresh_buffer adopt
buffered = append quiet buf₁ rec received refl refl refl

anchored : Reach cfg r₃ (rec ∷ [])
unfolding new_runner read_entry decode_type_first entry_bytes serialize_array format bulks bulk
    parse_array read_item parse_int_line parse_digits scan_digits expect_crlf non_negative signed
    parse_bulks parse_bulk take_bulk too_short slice_front bulk_end digits expect_end command_of
    consume take_entry action drops should_emit_now new_gate_ctl note_entry claim_slot new_buffer
    new_disk_buffer record_of is_zero over_watermark fs_has_room write_locked must_rotate rotate
    write_frame sync_due put_frame write_last last_seg frame encode try_append append_round
    append_round_done request_anchor request_open_at test_backlog backlog_empty nothing_pending
    open_gate release_gate fetch_batch next next_locked next_loop Buffer.fetch fetch_at fetch_record
    fetch_payload decode_record read_record leave_segment flush_record drain_record drops_at
    offset_after outgoing fresh_buffer adopt
anchored = anchor anchor_pos new_gate_ctl buffered refl refl

fetched_batch : Reach cfg r₅ (rec ∷ [])
unfolding new_runner read_entry decode_type_first entry_bytes serialize_array format bulks bulk
    parse_array read_item parse_int_line parse_digits scan_digits expect_crlf non_negative signed
    parse_bulks parse_bulk take_bulk too_short slice_front bulk_end digits expect_end command_of
    consume take_entry action drops should_emit_now new_gate_ctl note_entry claim_slot new_buffer
    new_disk_buffer record_of is_zero over_watermark fs_has_room write_locked must_rotate rotate
    write_frame sync_due put_frame write_last last_seg frame encode try_append append_round
    append_round_done request_anchor request_open_at test_backlog backlog_empty nothing_pending
    open_gate release_gate fetch_batch next next_locked next_loop Buffer.fetch fetch_at fetch_record
    fetch_payload decode_record read_record leave_segment flush_record drain_record drops_at
    offset_after outgoing fresh_buffer adopt
fetched_batch = fetch buf₂ (test anchored_gate anchored refl refl refl) refl refl refl

finished : Reach cfg r₆ (rec ∷ [])
unfolding new_runner read_entry decode_type_first entry_bytes serialize_array format bulks bulk
    parse_array read_item parse_int_line parse_digits scan_digits expect_crlf non_negative signed
    parse_bulks parse_bulk take_bulk too_short slice_front bulk_end digits expect_end command_of
    consume take_entry action drops should_emit_now new_gate_ctl note_entry claim_slot new_buffer
    new_disk_buffer record_of is_zero over_watermark fs_has_room write_locked must_rotate rotate
    write_frame sync_due put_frame write_last last_seg frame encode try_append append_round
    append_round_done request_anchor request_open_at test_backlog backlog_empty nothing_pending
    open_gate release_gate fetch_batch next next_locked next_loop Buffer.fetch fetch_at fetch_record
    fetch_payload decode_record read_record leave_segment flush_record drain_record drops_at
    offset_after outgoing fresh_buffer adopt
finished = test anchored_gate (flush rec [] sent fetched_batch refl refl) refl refl refl

in_order_example :
    (later : List Outgoing) × (entries r₃.emit_ch ++ later ≡ wanted cfg anchored_gate.h (rec ∷ []))
unfolding new_runner read_entry decode_type_first entry_bytes serialize_array format bulks bulk
    parse_array read_item parse_int_line parse_digits scan_digits expect_crlf non_negative signed
    parse_bulks parse_bulk take_bulk too_short slice_front bulk_end digits expect_end command_of
    consume take_entry action drops should_emit_now new_gate_ctl note_entry claim_slot new_buffer
    new_disk_buffer record_of is_zero over_watermark fs_has_room write_locked must_rotate rotate
    write_frame sync_due put_frame write_last last_seg frame encode try_append append_round
    append_round_done request_anchor request_open_at test_backlog backlog_empty nothing_pending
    open_gate release_gate fetch_batch next next_locked next_loop Buffer.fetch fetch_at fetch_record
    fetch_payload decode_record read_record leave_segment flush_record drain_record drops_at
    offset_after outgoing fresh_buffer adopt
in_order_example = in_order anchored_gate anchored refl refl

open_complete_example : entries r₆.emit_ch ≡ wanted cfg (release_gate anchored_gate).h (rec ∷ [])
unfolding new_runner read_entry decode_type_first entry_bytes serialize_array format bulks bulk
    parse_array read_item parse_int_line parse_digits scan_digits expect_crlf non_negative signed
    parse_bulks parse_bulk take_bulk too_short slice_front bulk_end digits expect_end command_of
    consume take_entry action drops should_emit_now new_gate_ctl note_entry claim_slot new_buffer
    new_disk_buffer record_of is_zero over_watermark fs_has_room write_locked must_rotate rotate
    write_frame sync_due put_frame write_last last_seg frame encode try_append append_round
    append_round_done request_anchor request_open_at test_backlog backlog_empty nothing_pending
    open_gate release_gate fetch_batch next next_locked next_loop Buffer.fetch fetch_at fetch_record
    fetch_payload decode_record read_record leave_segment flush_record drain_record drops_at
    offset_after outgoing fresh_buffer adopt
open_complete_example = open_complete (release_gate anchored_gate) finished refl refl refl

unanchored_silent_example : entries r₂.emit_ch ≡ []
unfolding new_runner read_entry decode_type_first entry_bytes serialize_array format bulks bulk
    parse_array read_item parse_int_line parse_digits scan_digits expect_crlf non_negative signed
    parse_bulks parse_bulk take_bulk too_short slice_front bulk_end digits expect_end command_of
    consume take_entry action drops should_emit_now new_gate_ctl note_entry claim_slot new_buffer
    new_disk_buffer record_of is_zero over_watermark fs_has_room write_locked must_rotate rotate
    write_frame sync_due put_frame write_last last_seg frame encode try_append append_round
    append_round_done request_anchor request_open_at test_backlog backlog_empty nothing_pending
    open_gate release_gate fetch_batch next next_locked next_loop Buffer.fetch fetch_at fetch_record
    fetch_payload decode_record read_record leave_segment flush_record drain_record drops_at
    offset_after outgoing fresh_buffer adopt
unanchored_silent_example = unanchored_silent new_gate_ctl buffered refl refl
