-- ===== src/Runner/Drain.antt =====
-- A batch of `Release` keeps the invariant: from the disk, and into the channel.
use mathlib.Core.Path.{subst}
use pikawire.Prelude.{
  ◌≡◌, refl, sym, ap, ◌∙◌, Bool, true, false, not, Option, none, some, List, [], ◌∷◌, ◌++◌,
  append_assoc, take, drop, take-append-drop, Result, ok, err, panic, arith, if◌then◌else◌,
}
use pikawire.Position.{Position, after, offset_after}
use pikawire.Gate.{GateCtl, drops}
use pikawire.Binlog.{Item}
use pikawire.DiskBuffer.Record.{BufferRecord, BufferError}
use pikawire.DiskBuffer.Buffer.{Buffer, next}
use pikawire.DiskBuffer.Buffer.View.{Holds}
use pikawire.DiskBuffer.Buffer.Drain.{Takes, next_locked-take}
use pikawire.Runner.{
  Outgoing, Config, Command, Skip, read_entry, outgoing, Runner, Flusher, testing, fetching,
  flushing, fetch_batch, drops_at, drain_record, flush_record,
}
use pikawire.Runner.Steps.{wanted, entries}
use pikawire.Runner.Invariant.{
  pend, batch, Backlog, Stage, unanchored, draining, live, Inv, entries-append, entries-outgoing,
}

ok_inj : {E A : Type 0} {x y : A} → ◌≡◌ {A = Result E A} (ok x) (ok y) → x ≡ y
ok_inj e = ground (arith, e)

-- `next(256)` is `nextLocked(256)`.
next-Takes : (b : Buffer) (q : List BufferRecord) → Holds 0 b q → Takes 0 256 q [] (next 256 b)
unfolding next
next-Takes b q held = next_locked-take 256 b q held

module _ (cfg : Config) (r : Runner) (rs : List BufferRecord) (v : Inv cfg r rs) where
  -- The fetched records stand in front of the others, as they did in the queue.
  fetched-Stage :
      (fl : Flusher) (q : List BufferRecord)
      → r.flusher ≡ fetching
      → v.queue ≡ batch fl ++ q
      → Stage cfg v.g q r.emit_ch r.receiver fl rs
  fetched-Stage fl q at split = elim v.stage [
    | unanchored s u e is f n ↦ absurd (cc (f, at))
    | draining s h e n ↦
        draining s h
          (ap (λ x. entries r.emit_ch ++ wanted cfg v.g.h x)
              (sym (append_assoc (batch fl) q (pend r.receiver))
                ∙ ap (λ x. x ++ pend r.receiver) (sym split)
                ∙ ap (λ x. batch x ++ (v.queue ++ pend r.receiver)) (sym at))
            ∙ e)
          n
    | live s h e l p f ↦ absurd (cc (f, at))
  ]

  fetched-Inv :
      (b : Buffer) (fl : Flusher) (q : List BufferRecord)
      → r.flusher ≡ fetching
      → v.queue ≡ batch fl ++ q
      → Holds 0 b q
      → Inv cfg (record r { buf = some b; flusher = fl }) rs
  fetched-Inv b fl q at split held = record {
    g = v.g;
    attached = v.attached;
    slots = v.slots;
    queue = q;
    backlog = held;
    fits = v.fits;
    stage = fetched-Stage fl q at split;
  }

  pub fetch-Inv :
      (b : Buffer) (r' : Runner)
      → r.flusher ≡ fetching
      → r.buf ≡ some b
      → fetch_batch r b ≡ ok r'
      → Inv cfg r' rs
  unfolding fetch_batch
  fetch-Inv b r' at is e = by_problem (next 256 b).problem (next 256 b).records takes.front e
    where
      takes : Takes 0 256 v.queue [] (next 256 b)
      takes = next-Takes b v.queue (subst (λ x. Backlog x v.queue) is v.backlog)

      whole :
          (records : List BufferRecord)
          → records ≡ take 256 v.queue
          → v.queue ≡ records ++ drop 256 v.queue
      whole records front =
          sym (take-append-drop 256 v.queue) ∙ ap (λ x. x ++ drop 256 v.queue) (sym front)

      by_problem :
          (problem : Option BufferError) (records : List BufferRecord)
          → records ≡ take 256 v.queue
          → ◌≡◌ {A = Result BufferError Runner}
              (elim problem [
                | some e ↦ err e
                | none ↦ elim records [
                  | [] ↦ ok (record r { buf = some (next 256 b).buffer; flusher = testing })
                  | x ∷ xs ↦
                      ok (record r { buf = some (next 256 b).buffer; flusher = flushing (x ∷ xs) })
                ]
              ])
              (ok r')
          → Inv cfg r' rs
      by_problem (some x) records front e = absurd (cc e)
      by_problem none [] front e =
          subst (λ x. Inv cfg x rs) (ok_inj e)
            (fetched-Inv (next 256 b).buffer testing (drop 256 v.queue) at (whole [] front)
              takes.rest_held)
      by_problem none (x ∷ xs) front e =
          subst (λ x. Inv cfg x rs) (ok_inj e)
            (fetched-Inv (next 256 b).buffer (flushing (x ∷ xs)) (drop 256 v.queue) at
              (whole (x ∷ xs) front) takes.rest_held)

drops-after : (g : GateCtl) (pos : Position) → g.h_set ≡ true → drops g pos ≡ not (after pos g.h)
unfolding drops after offset_after
drops-after g pos known = ground (arith, known)

-- What the drain puts in the channel for a record is its event, if it is behind the anchor.
drain_record-wanted :
    (cfg : Config) (g : GateCtl) (rec : BufferRecord) (out : List Outgoing)
    (others : List BufferRecord)
    → g.h_set ≡ true
    → drain_record cfg (some g) rec ≡ ok out
    → (entries out ≡ out) × (out ++ wanted cfg g.h others ≡ wanted cfg g.h (rec ∷ others))
unfolding drain_record drops_at
drain_record-wanted cfg g rec out others known e =
    by_test (after rec.pb_end g.h) (drops g rec.pb_end) (drops-after g rec.pb_end known)
      (read_entry cfg rec.raw) e
  where
    by_test :
        (later drop_it : Bool)
        → drop_it ≡ not later
        → (read : Result Skip (Item × Command))
        → ◌≡◌ {A = Result Skip (List Outgoing)}
            (if drop_it then ok [] else elim read [
              | err x ↦ ok []
              | panic ↦ panic
              | ok x ↦ ok (outgoing cfg rec x.1 ∷ [])
            ])
            (ok out)
        → (entries out ≡ out)
          × (out ++ wanted cfg g.h others ≡ elim later [
            | true ↦
                elim read [ err x ↦ [] | panic ↦ [] | ok x ↦ outgoing cfg rec x.1 ∷ [] ]
                ++ wanted cfg g.h others
            | false ↦ wanted cfg g.h others
          ])
    by_test false true h read e = rw⁻¹ (ok_inj e) (refl, refl)
    by_test true false h (err x) e = rw⁻¹ (ok_inj e) (refl, refl)
    by_test true false h (ok x) e = rw⁻¹ (ok_inj e) (entries-outgoing cfg rec x.1, refl)
    by_test true false h panic e = absurd (cc e)
    by_test true true h read e = absurd (cc h)
    by_test false false h read e = absurd (cc h)

module _ (cfg : Config) (r : Runner) (rs : List BufferRecord) (v : Inv cfg r rs) where
  flushed-Stage :
      (rec : BufferRecord) (rest : List BufferRecord) (out : List Outgoing) (fl : Flusher)
      → r.flusher ≡ flushing (rec ∷ rest)
      → drain_record cfg (some v.g) rec ≡ ok out
      → batch fl ≡ rest
      → Stage cfg v.g v.queue (r.emit_ch ++ out) r.receiver fl rs
  flushed-Stage rec rest out fl at e left = elim v.stage [
    | unanchored s u x is f n ↦ absurd (cc (f, at))
    | draining s h x n ↦ draining s h (moved h x) n
    | live s h x l p f ↦ absurd (cc (f, at))
  ]
    where
      moved :
          v.g.h_set ≡ true
          → entries r.emit_ch ++ wanted cfg v.g.h (batch r.flusher ++ (v.queue ++ pend r.receiver))
            ≡ wanted cfg v.g.h rs
          → entries (r.emit_ch ++ out)
              ++ wanted cfg v.g.h (batch fl ++ (v.queue ++ pend r.receiver))
            ≡ wanted cfg v.g.h rs
      moved h x =
          let others = rest ++ (v.queue ++ pend r.receiver) in
          let (whole, front) = drain_record-wanted cfg v.g rec out others h e in
          ap
            (λ l.
              entries (r.emit_ch ++ out) ++ wanted cfg v.g.h (l ++ (v.queue ++ pend r.receiver)))
            left
          ∙ ap (λ l. l ++ wanted cfg v.g.h others) (entries-append r.emit_ch out)
          ∙ append_assoc (entries r.emit_ch) (entries out) (wanted cfg v.g.h others)
          ∙ ap (λ l. entries r.emit_ch ++ (l ++ wanted cfg v.g.h others)) whole
          ∙ ap (λ l. entries r.emit_ch ++ l) front
          ∙ ap
              (λ l. entries r.emit_ch ++ wanted cfg v.g.h (batch l ++ (v.queue ++ pend r.receiver)))
              (sym at)
          ∙ x

  pub flush-Inv :
      (rec : BufferRecord) (rest : List BufferRecord) (out : List Outgoing)
      → r.flusher ≡ flushing (rec ∷ rest)
      → drain_record cfg r.gate rec ≡ ok out
      → Inv cfg (flush_record r rest out) rs
  unfolding flush_record
  flush-Inv rec rest out at e = record {
    g = v.g;
    attached = v.attached;
    slots = v.slots;
    queue = v.queue;
    backlog = v.backlog;
    fits = v.fits;
    stage =
        flushed-Stage rec rest out _ at (ap (λ x. drain_record cfg x rec) (sym v.attached) ∙ e)
          (by_rest rest);
  }
    where
      by_rest :
          (l : List BufferRecord) → batch (elim l [ [] ↦ testing | x ∷ xs ↦ flushing (x ∷ xs) ]) ≡ l
      by_rest [] = refl
      by_rest (x ∷ xs) = refl
