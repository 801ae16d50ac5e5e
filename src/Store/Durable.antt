-- ===== src/Store/Durable.antt =====
-- `Flush`: the checkpoint file when one of its calls fails.
use pikawire.Prelude.{
  ◌≡◌, refl, ◌⊎◌, inl, inr, Bool, true, false, Option, none, some, not, if◌then◌else◌, ◌≢◌,
}
use pikawire.Store.{
  Store, Json, Found, content, Disk, Fault, no_fault, open_fault, write_fault, FlushError,
  io_failed, marshal_failed, missing, settle, replace_file, flush,
}

-- The checkpoint file holds the whole text of the state.
abbrev pub Written : (json : Json) → Store → Disk json.Text → Type 0
Written json s d = (b : json.Text) × (json.marshal s.state ≡ some b) × (d.main ≡ content b)

-- What a result of `Flush` owes to the store `s` and the disk `d` that it began with.
abbrev pub Atomic :
    (json : Json) → Store → Disk json.Text → Store × Disk json.Text × Option FlushError → Type 0
Atomic json s d r =
    (r.0.state ≡ s.state)
    × ((r.1.main ≡ d.main) ⊎ Written json s r.1)
    × (r.2 ≢ none → (r.0 ≡ s) × (r.1.main ≡ d.main))
    × (r.2 ≡ none → (r.0.dirty ≡ false) × (s.dirty ≡ true → Written json s r.1))

module _ (json : Json) (s : Store) (d : Disk json.Text) where
  -- An error that leaves the store and the checkpoint file alone.
  refused :
      (d' : Disk json.Text) (e : FlushError) → d'.main ≡ d.main → Atomic json s d (s, d', some e)
  refused d' e kept = (refl, inl kept, λ _. (refl, kept), λ h. cc)

  skipped : s.dirty ≡ false → Atomic json s d (s, d, none)
  skipped clean = (refl, inl refl, λ _. (refl, refl), λ _. (clean, λ dirty. cc))

  replaced :
      (b : json.Text)
      → json.marshal s.state ≡ some b
      → Atomic json s d
          (record s { dirty = false }, record { main = content b; tmp = missing }, none)
  replaced b text =
      (refl, inr (b, text, refl), λ h. absurd (h refl), λ _. (refl, λ _. (b, text, refl)))

-- Whatever call fails, the checkpoint file afterwards is the old one or the whole new one, and the
-- state in memory is unchanged. On an error the file is the old one and the store as it was, so that
-- the next flush tries again. Without an error nothing is dirty, and if the store was dirty the file
-- holds the whole text of its state.
pub flush-Atomic :
    (json : Json) (part : Found json.Text) (fault : Fault) (s : Store) (d : Disk json.Text)
    → Atomic json s d (flush json part fault s d)
unfolding flush
flush-Atomic json part fault s d = cases s.dirty (json.marshal s.state) refl refl
  where
    attempt :
        (b : json.Text)
        → json.marshal s.state ≡ some b
        → (f : Fault) → Atomic json s d (settle json s (replace_file json b part f d))
    attempt b text no_fault = replaced json s d b text
    attempt b text open_fault = refused json s d d io_failed refl
    attempt b text write_fault = refused json s d (record d { tmp = part }) io_failed refl
    attempt b text _ = refused json s d (record d { tmp = content b }) io_failed refl

    cases :
        (dirty : Bool) (text : Option json.Text)
        → s.dirty ≡ dirty
        → json.marshal s.state ≡ text
        → Atomic json s d (
            if not dirty then (s, d, none) else elim text [
              | none ↦ (s, d, some marshal_failed)
              | some b ↦ settle json s (replace_file json b part fault d)
            ])
    cases false text clean _ = skipped json s d clean
    cases true none _ fails = refused json s d d marshal_failed refl
    cases true (some b) _ text = attempt b text fault
