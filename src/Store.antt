-- ===== src/Store.antt =====
-- The delivery checkpoint: internal/store/store.go. `encoding/json` and the two strings of the file
-- system (path and directory) are parameters; the mutex makes every method one step.
pub mod Checkpoint
pub mod Durable
use pikawire.Prelude.{
  ℕ, ◌≡◌, Bool, true, false, ◌&&◌, ◌||◌, not, Option, none, some, Result, ok, err, Bytes, ltb, leb,
  ◌==◌, if◌then◌else◌,
}
use pikawire.Position.{Position}

-- `PhaseNone`, `PhaseRunning`, `PhaseDone`
pub data SnapshotPhase : Type 0 where
  phase_none phase_running phase_done : SnapshotPhase

pub record SnapshotResume : Type 0 where
  pub anchor_filenum : ℕ
  pub anchor_offset : ℕ
  pub type_name : Bytes
  pub key : Bytes
  pub dump_done : Bool
  pub dump_dir : Bytes

pub record State : Type 0 where
  pub version : ℕ
  pub source_id : Bytes
  pub has_pos : Bool
  pub filenum : ℕ
  pub offset : ℕ
  pub snapshot : SnapshotPhase
  pub resume : Option SnapshotResume

-- The state and the `dirty` mark; the path is that of the `Disk` below.
pub record Store : Type 0 where
  pub state : State
  pub dirty : Bool

unfoldable pub initial_state : Bytes → State
initial_state source_id = record {
  version = 1;
  source_id = source_id;
  has_pos = false;
  filenum = 0;
  offset = 0;
  snapshot = phase_none;
  resume = none;
}

unfoldable pub set_delivered : Store → ℕ → ℕ → Store
set_delivered s filenum offset =
    if s.state.has_pos
      && (ltb filenum s.state.filenum || (filenum == s.state.filenum && leb offset s.state.offset))
    then s
    else record {
      state = record s.state { filenum = filenum; offset = offset; has_pos = true };
      dirty = true;
    }

unfoldable pub set_snapshot : Store → SnapshotPhase → Store
set_snapshot s p = record { state = record s.state { snapshot = p }; dirty = true }

unfoldable pub reset_for_rescan : Store → Store
reset_for_rescan s = record {
  state = record s.state {
    filenum = 0;
    offset = 0;
    has_pos = false;
    snapshot = phase_running;
    resume = none;
  };
  dirty = true;
}

unfoldable pub set_resume : Store → Option SnapshotResume → Store
set_resume s r = record { state = record s.state { resume = r }; dirty = true }

unfoldable pub clear_resume : Store → Store
clear_resume s = elim s.state.resume [
  | none ↦ s
  | some r ↦ record { state = record s.state { resume = none }; dirty = true }
]

-- `json.MarshalIndent` and `json.Unmarshal`. The second is given the state that it fills in, since
-- absent fields keep what they held.
pub record Json : Type 1 where
  pub Text : Type 0
  pub marshal : State → Option Text
  pub unmarshal : State → Text → Option State

pub data OpenError : Type 0 where
  read_failed parse_failed source_mismatch : OpenError

-- What `os.ReadFile` finds.
pub data Found (T : Type 0) : Type 0 where
  missing : Found T
  unreadable : Found T
  content : T → Found T

module _ (json : Json) (same_id : Bytes → Bytes → Bool) where
  open json use {Text, marshal, unmarshal}

  -- `Open`; `same_id` is Go's `==` on strings.
  unfoldable pub open_store : Found Text → Bytes → Result OpenError Store
  open_store missing source_id = ok (record { state = initial_state source_id; dirty = false })
  open_store unreadable source_id = err read_failed
  open_store (content b) source_id = elim (unmarshal (initial_state source_id) b) [
    | none ↦ err parse_failed
    | some st ↦
        if same_id st.source_id source_id
        then ok (record { state = st; dirty = false })
        else err source_mismatch
  ]

-- The checkpoint file and the temporary file beside it.
pub record Disk (T : Type 0) : Type 0 where
  pub main : Found T
  pub tmp : Found T

-- Which call of `Flush` the operating system refuses, if any.
pub data Fault : Type 0 where
  no_fault open_fault write_fault sync_fault close_fault mkdir_fault rename_fault : Fault

pub data FlushError : Type 0 where
  marshal_failed io_failed : FlushError

module _ (json : Json) where
  open json use {Text, marshal, unmarshal}

  -- The part of `Flush` behind the marshalling: the files and whether it succeeded. A write that
  -- fails may leave any part of the text in the temporary file, here `part`.
  unfoldable pub replace_file : Text → Found Text → Fault → Disk Text → Disk Text × Bool
  replace_file b part no_fault d = (record { main = content b; tmp = missing }, true)
  replace_file b part open_fault d = (d, false)
  replace_file b part write_fault d = (record d { tmp = part }, false)
  replace_file b part sync_fault d = (record d { tmp = content b }, false)
  replace_file b part close_fault d = (record d { tmp = content b }, false)
  replace_file b part mkdir_fault d = (record d { tmp = content b }, false)
  replace_file b part rename_fault d = (record d { tmp = content b }, false)

  -- `s.dirty = false` behind a rename that went through, and the error otherwise.
  settle : Store → Disk Text × Bool → Store × Disk Text × Option FlushError
  settle s (d, done) =
      if done then (record s { dirty = false }, d, none) else (s, d, some io_failed)

  -- `Flush`
  unfoldable pub flush :
      Found Text → Fault → Store → Disk Text → Store × Disk Text × Option FlushError
  unfolding replace_file settle
  flush part fault s d = if not s.dirty then (s, d, none) else elim (marshal s.state) [
    | none ↦ (s, d, some marshal_failed)
    | some b ↦ settle s (replace_file b part fault d)
  ]
