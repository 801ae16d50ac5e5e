-- ===== src/Runner/Acks.antt =====
-- The session side of internal/replica/runner.go: `maybeAckRange`, `masterAhead`, `startOffset`, and the attempts of
-- `establish`. What the master answers is a parameter.
pub mod Ranges
use pikawire.Prelude.{
  ℕ, zero, suc, ◌+◌, Bool, true, false, not, ◌&&◌, ◌||◌, Option, none, some, List, [], ◌∷◌, ◌++◌,
  Result, ok, err, panic, ltb, ◌==◌, if◌then◌else◌,
}
use pikawire.Position.{Position, zero_position, is_zero}
use pikawire.Store.{State}
use pikawire.Runner.{Runner, note_entry}

-- The range of an ack; the zero range is a ping.
pub record AckRange : Type 0 where
  pub from : Position
  pub to : Position

abbrev pub ping : AckRange
ping = record { from = zero_position; to = zero_position }

-- `maybeAckRange`: the range it sends, and the runner after a send that succeeds or not.
unfoldable pub maybe_ack_range : Bool → Runner → Runner × AckRange
maybe_ack_range sent r = if is_zero r.first_unacked then (r, ping) else (
  if sent then record r { first_unacked = zero_position } else r,
  record { from = r.first_unacked; to = r.last_pos },
)

-- What `startOffset` and `masterAhead` read of `INFO replication`.
pub record MasterTip : Type 0 where
  pub has_binlog_offset : Bool
  pub tip : Position

abbrev stall_epsilon : ℕ
stall_epsilon = 4096

-- `masterAhead`, behind the fetch.
unfoldable pub master_ahead : MasterTip → Runner → Bool
master_ahead ri r =
    ri.has_binlog_offset
    && r.has_pos
    && (ltb r.last_pos.filenum ri.tip.filenum
        || (ri.tip.filenum == r.last_pos.filenum
            && ltb (r.last_pos.offset + stall_epsilon) ri.tip.offset))

-- `startOffset`; `none` is a failed fetch.
unfoldable pub start_offset : Position → State → Option MasterTip → Option Position
start_offset start_at st fetched =
    if not (is_zero start_at)
    then some start_at
    else if st.has_pos
    then some (record { filenum = st.filenum; offset = st.offset })
    else elim fetched [ none ↦ none | some ri ↦ some ri.tip ]

-- What the master answers to an attempt: no connection or no answer, a position that it has purged, a code that is not
-- known, or a session with its producer position; `larger` tells whether the request lies beyond that.
pub data SyncReply : Type 0 where
  unreachable purged : SyncReply
  rejected : ℕ → SyncReply
  synced : Bool → Position → SyncReply

pub data SessionError : Type 0 where
  no_session err_purged : SessionError
  bad_code : ℕ → SessionError

abbrev pub same_position : Position → Position → Bool
same_position a b = a.filenum == b.filenum && a.offset == b.offset

-- The loop of `establish`; the result is the position of the session. `anchored` is `anchorFromCheckpoint`.
unfoldable pub establish_loop :
    ℕ → (ℕ → Position → SyncReply) → Bool → ℕ → Position → Option (Result SessionError Position)
establish_loop zero master anchored attempt start = none
establish_loop (suc fuel) master anchored attempt start = elim (master attempt start) [
  | unreachable ↦ some (err no_session)
  | purged ↦ some (err err_purged)
  | rejected code ↦ some (err (bad_code code))
  | synced larger tip ↦
      let again = establish_loop fuel master anchored (suc attempt) tip in
      if attempt == 0
        && not anchored
        && not (is_zero tip)
        && (larger || not (same_position tip start))
      then again
      else some (ok start)
]

-- `establish`
unfoldable pub establish :
    ℕ
    → (ℕ → Position → SyncReply)
    → Position
    → State
    → Position
    → Option (Result SessionError Position)
establish fuel master start_at st start =
    establish_loop fuel master (not (is_zero start_at) || st.has_pos) 0 start
