-- ===== src/Runner/Receive.antt =====
-- The receiver's steps keep the invariant.
use mathlib.Core.Path.{subst}
use pikawire.Prelude.{
  ◌+◌, ◌*◌, ◌^◌, ◌≡◌, refl, sym, ap, ◌∙◌, Bool, true, false, Option, none, some, List, [], ◌∷◌,
  ◌++◌, append_assoc, append-nil, Bytes, length, All, Result, ok, err, panic, arith, if◌then◌else◌,
  ◌==◌,
}
use pikawire.Position.{Position, after}
use pikawire.Binlog.{Item, decode_type_first}
use pikawire.DiskBuffer.Record.{BufferRecord, BufferError}
use pikawire.DiskBuffer.Record.RoundTrip.{IsRecord}
use pikawire.DiskBuffer.Buffer.{
  Buffer, Os, Attempt, stored, failed, waits, try_append, new_disk_buffer, fresh_buffer, adopt,
}
use pikawire.DiskBuffer.Buffer.View.{Holds}
use pikawire.DiskBuffer.Buffer.Append.{Outcome, try_append-Outcome}
use pikawire.Runner.{
  Outgoing, Config, Command, Skip, read_entry, outgoing, Runner, idle, appending, sending, Action,
  action, drop_entry, emit_entry, buffer_entry, record_of, note_entry, new_buffer, claim_slot,
  take_entry, consume, append_round_done, send,
}
use pikawire.Runner.Steps.{event_of, wanted, entries}
use pikawire.Runner.Invariant.{
  pend, batch, Backlog, Stage, unanchored, draining, live, Inv, entries-append, wanted_more,
  wanted_same, event_of-outgoing, entries-outgoing, action_drop, action_emit, action_buffer,
}

ok_inj : {E A : Type 0} {x y : A} → ◌≡◌ {A = Result E A} (ok x) (ok y) → x ≡ y
ok_inj e = ground (arith, e)

-- A buffer made in an empty directory.
new_buffer-Holds : (cfg : Config) (b : Buffer) → new_buffer cfg (some []) ≡ ok b → Holds 0 b []
unfolding new_buffer new_disk_buffer adopt fresh_buffer
new_buffer-Holds cfg b e = by_keep cfg.durable e
  where
    fresh : Buffer
    fresh =
        fresh_buffer (64 * 2 ^ 20) (if cfg.high == 0 then 8 * 2 ^ 30 else cfg.high)
          (if cfg.reserve == 0 then 4 * 2 ^ 30 else cfg.reserve) cfg.durable cfg.durable

    fresh-Holds : Holds 0 fresh []
    fresh-Holds = record {
      healthy = refl;
      contents = (refl, refl);
      bytes_counted = refl;
      records_counted = refl;
    }

    by_keep :
        (keep : Bool)
        → ◌≡◌ {A = Result BufferError Buffer}
            (if keep then ok (adopt fresh []) else ok fresh)
            (ok b)
        → Holds 0 b []
    by_keep true e = subst (λ x. Holds 0 x []) (ok_inj e) fresh-Holds
    by_keep false e = subst (λ x. Holds 0 x []) (ok_inj e) fresh-Holds

module _ (cfg : Config) (r : Runner) (rs : List BufferRecord) (v : Inv cfg r rs)
    (free : r.receiver ≡ idle) where
  stage : Stage cfg v.g v.queue r.emit_ch idle r.flusher rs
  stage = subst (λ x. Stage cfg v.g v.queue r.emit_ch x r.flusher rs) free v.stage

  no_slots : r.inflight ≡ 0
  no_slots = v.slots ∙ ap (λ x. length (pend x)) free

  module _ (rec : BufferRecord) (c : Command) (item : Item)
      (reads : read_entry cfg rec.raw ≡ ok (item, c)) (fit : IsRecord rec) where
    dropped-Stage :
        action (some v.g) rec.pb_end ≡ drop_entry
        → Stage cfg v.g v.queue r.emit_ch idle r.flusher (rs ++ (rec ∷ []))
    dropped-Stage chosen =
        let (known, early) = action_drop v.g rec.pb_end chosen in
        elim stage [
          | unanchored s h e is f n ↦ absurd (cc (known, h))
          | draining s h e n ↦ draining s h (e ∙ sym (wanted_same cfg v.g.h rs rec early)) n
          | live s h e l p f ↦ live s h (e ∙ sym (wanted_same cfg v.g.h rs rec early)) l p f
        ]

    emitted-Stage :
        action (some v.g) rec.pb_end ≡ emit_entry
        → Stage cfg v.g v.queue r.emit_ch
            (sending (outgoing cfg rec c))
            r.flusher
            (rs ++ (rec ∷ []))
    emitted-Stage chosen =
        let (opened, later) = action_emit v.g rec.pb_end chosen in
        elim stage [
          | unanchored s h e is f n ↦ absurd (cc (opened, s))
          | draining s h e n ↦ absurd (cc (opened, s))
          | live s h e l p f ↦
              live s h
                (ap (λ x. x ++ (outgoing cfg rec c ∷ [])) (sym (append-nil (entries r.emit_ch)) ∙ e)
                  ∙ ap (λ x. wanted cfg v.g.h rs ++ x)
                      (sym (event_of-outgoing cfg rec item c reads))
                  ∙ sym (wanted_more cfg v.g.h rs rec later))
                (entries-outgoing cfg rec c) refl f
        ]

    buffered-Stage :
        action (some v.g) rec.pb_end ≡ buffer_entry
        → Stage cfg v.g v.queue r.emit_ch (appending rec) r.flusher (rs ++ (rec ∷ []))
    buffered-Stage chosen =
        let anchored = action_buffer v.g rec.pb_end chosen in
        elim stage [
          | unanchored s h e is f n ↦
              unanchored s h e (ap (λ x. x ++ (rec ∷ [])) (is ∙ append-nil v.queue)) f refl
          | draining s h e n ↦ draining s h (one_more (anchored h).1 e) refl
          | live s h e l p f ↦ absurd (cc ((anchored h).0, s))
        ]
      where
        one_more :
            after rec.pb_end v.g.h ≡ true
            → entries r.emit_ch ++ wanted cfg v.g.h (batch r.flusher ++ (v.queue ++ []))
              ≡ wanted cfg v.g.h rs
            → entries r.emit_ch ++ wanted cfg v.g.h (batch r.flusher ++ (v.queue ++ (rec ∷ [])))
              ≡ wanted cfg v.g.h (rs ++ (rec ∷ []))
        one_more later e =
            ap (λ x. entries r.emit_ch ++ x)
              (ap (wanted cfg v.g.h) (sym (append_assoc (batch r.flusher) v.queue (rec ∷ [])))
                ∙ wanted_more cfg v.g.h (batch r.flusher ++ v.queue) rec later)
            ∙ sym (
                append_assoc (entries r.emit_ch) (wanted cfg v.g.h (batch r.flusher ++ v.queue))
                  (event_of cfg rec))
            ∙ ap (λ x. x ++ event_of cfg rec)
                (ap (λ x. entries r.emit_ch ++ wanted cfg v.g.h (batch r.flusher ++ x))
                    (sym (append-nil v.queue))
                  ∙ e)
            ∙ sym (wanted_more cfg v.g.h rs rec later)

    -- The fields that `consume` notes are not in the invariant.
    claimed :
        (buf : Option Buffer) (r' : Runner)
        → Backlog buf v.queue
        → action (some v.g) rec.pb_end ≡ buffer_entry
        → r' ≡ record (note_entry r rec.pb_end) {
          buf = buf;
          inflight = r.inflight + 1;
          receiver = appending rec;
        }
        → Inv cfg r' (rs ++ (rec ∷ []))
    unfolding note_entry
    claimed buf r' held chosen is =
        subst (λ x. Inv cfg x (rs ++ (rec ∷ []))) (sym is)
          record {
            g = v.g;
            attached = v.attached;
            slots = omega (arith, no_slots);
            queue = v.queue;
            backlog = held;
            fits = (fit, tt);
            stage = buffered-Stage chosen;
          }

    claim_slot-Inv :
        (buf : Option Buffer) (r' : Runner)
        → r.buf ≡ buf
        → action (some v.g) rec.pb_end ≡ buffer_entry
        → ◌≡◌ {A = Result BufferError Runner}
            (elim buf [
              | some b ↦ ok (record (note_entry r rec.pb_end) {
                inflight = r.inflight + 1;
                receiver = appending rec;
              })
              | none ↦ elim (new_buffer cfg (some [])) [
                | ok b ↦ ok (record (note_entry r rec.pb_end) {
                  buf = some b;
                  inflight = r.inflight + 1;
                  receiver = appending rec;
                })
                | err e ↦ err e
                | panic ↦ panic
              ]
            ])
            (ok r')
        → Inv cfg r' (rs ++ (rec ∷ []))
    unfolding note_entry
    claim_slot-Inv (some b) r' is chosen e = claimed r.buf r' v.backlog chosen (sym (ok_inj e))
    claim_slot-Inv none r' is chosen e = by_new (new_buffer cfg (some [])) refl e
      where
        by_new :
            (n : Result BufferError Buffer)
            → new_buffer cfg (some []) ≡ n
            → ◌≡◌ {A = Result BufferError Runner}
                (elim n [
                  | ok b ↦ ok (record (note_entry r rec.pb_end) {
                    buf = some b;
                    inflight = r.inflight + 1;
                    receiver = appending rec;
                  })
                  | err e ↦ err e
                  | panic ↦ panic
                ])
                (ok r')
            → Inv cfg r' (rs ++ (rec ∷ []))
        by_new (ok b) made e =
            let empty : v.queue ≡ [] = subst (λ x. Backlog x v.queue) is v.backlog in
            claimed (some b) r' (subst (Holds 0 b) (sym empty) (new_buffer-Holds cfg b made)) chosen
              (sym (ok_inj e))
        by_new (err x) made e = absurd (cc)
        by_new panic made e = absurd (cc)

    take_entry-Inv :
        (r' : Runner) → take_entry cfg (some []) r rec c ≡ ok r' → Inv cfg r' (rs ++ (rec ∷ []))
    unfolding take_entry claim_slot note_entry
    take_entry-Inv r' e =
        by_action (action r.gate rec.pb_end) (ap (λ x. action x rec.pb_end) (sym v.attached)) e
      where
        by_action :
            (a : Action)
            → action (some v.g) rec.pb_end ≡ a
            → ◌≡◌ {A = Result BufferError Runner}
                (elim a [
                  | drop_entry ↦ ok (note_entry r rec.pb_end)
                  | emit_entry ↦
                      ok (record (note_entry r rec.pb_end) {
                        receiver = sending (outgoing cfg rec c);
                      })
                  | buffer_entry ↦ claim_slot cfg (some []) (note_entry r rec.pb_end) rec
                ])
                (ok r')
            → Inv cfg r' (rs ++ (rec ∷ []))
        by_action drop_entry chosen e =
            subst (λ x. Inv cfg x (rs ++ (rec ∷ []))) (ok_inj e)
              record {
                g = v.g;
                attached = v.attached;
                slots = v.slots;
                queue = v.queue;
                backlog = v.backlog;
                fits = v.fits;
                stage =
                    subst (λ x. Stage cfg v.g v.queue r.emit_ch x r.flusher (rs ++ (rec ∷ [])))
                      (sym free) (dropped-Stage chosen);
              }
        by_action emit_entry chosen e =
            subst (λ x. Inv cfg x (rs ++ (rec ∷ []))) (ok_inj e)
              record {
                g = v.g;
                attached = v.attached;
                slots = no_slots;
                queue = v.queue;
                backlog = v.backlog;
                fits = tt;
                stage = emitted-Stage chosen;
              }
        by_action buffer_entry chosen e = claim_slot-Inv r.buf r' refl chosen e

-- `consume` on an entry that it can read.
consume-take :
    (cfg : Config) (r : Runner) (raw : Bytes) (pb_off : Position) (item : Item) (c : Command)
    → read_entry cfg raw ≡ ok (item, c)
    → consume cfg (some []) r raw pb_off ≡ take_entry cfg (some []) r (record_of item pb_off raw) c
unfolding consume
consume-take cfg r [] pb_off item c reads = absurd (unfold read_entry decode_type_first in cc reads)
consume-take cfg r (byte ∷ rest) pb_off item c reads = rw (consume, reads) refl

consume-skip :
    (cfg : Config) (r : Runner) (raw : Bytes) (pb_off : Position) (why : Skip)
    → read_entry cfg raw ≡ err why
    → consume cfg (some []) r raw pb_off ≡ ok r
unfolding consume
consume-skip cfg r [] pb_off why fails = refl
consume-skip cfg r (byte ∷ rest) pb_off why fails = rw (consume, fails) refl

pub receive-Inv :
    (cfg : Config) (r r' : Runner) (rs : List BufferRecord) (raw : Bytes) (pb_off : Position)
    (item : Item) (c : Command)
    → Inv cfg r rs
    → r.receiver ≡ idle
    → read_entry cfg raw ≡ ok (item, c)
    → IsRecord (record_of item pb_off raw)
    → consume cfg (some []) r raw pb_off ≡ ok r'
    → Inv cfg r' (rs ++ (record_of item pb_off raw ∷ []))
unfolding record_of
receive-Inv cfg r r' rs raw pb_off item c v free reads fit e =
    take_entry-Inv cfg r rs v free (record_of item pb_off raw) c item reads fit r'
      (sym (consume-take cfg r raw pb_off item c reads) ∙ e)

pub skip-Inv :
    (cfg : Config) (r r' : Runner) (rs : List BufferRecord) (raw : Bytes) (pb_off : Position)
    (why : Skip)
    → Inv cfg r rs
    → read_entry cfg raw ≡ err why
    → consume cfg (some []) r raw pb_off ≡ ok r'
    → Inv cfg r' rs
skip-Inv cfg r r' rs raw pb_off why v fails e =
    subst (λ x. Inv cfg x rs) (ok_inj (sym (consume-skip cfg r raw pb_off why fails) ∙ e)) v

module _ (cfg : Config) (r : Runner) (rs : List BufferRecord) (v : Inv cfg r rs) where
  -- The record at the end of the queue and no longer in the receiver's hands.
  pub append-Inv :
      (os : Os) (b : Buffer) (rec : BufferRecord)
      → r.receiver ≡ appending rec
      → r.buf ≡ some b
      → (try_append os b rec).1 ≡ stored
      → Inv cfg (append_round_done r (try_append os b rec)) rs
  unfolding append_round_done
  append-Inv os b rec busy is done = by_attempt (try_append os b rec) done (
      try_append-Outcome os b v.queue rec (subst (λ x. All IsRecord (pend x)) busy v.fits).0
        (subst (λ x. Backlog x v.queue) is v.backlog))
    where
      stage : Stage cfg v.g v.queue r.emit_ch (appending rec) r.flusher rs
      stage = subst (λ x. Stage cfg v.g v.queue r.emit_ch x r.flusher rs) busy v.stage

      stored-Stage : Stage cfg v.g (v.queue ++ (rec ∷ [])) r.emit_ch idle r.flusher rs
      stored-Stage = elim stage [
        | unanchored s h e is f n ↦
            unanchored s h e (is ∙ sym (append-nil (v.queue ++ (rec ∷ [])))) f refl
        | draining s h e n ↦
            draining s h
              (ap (λ x. entries r.emit_ch ++ wanted cfg v.g.h (batch r.flusher ++ x))
                  (append-nil (v.queue ++ (rec ∷ [])))
                ∙ e)
              refl
        | live s h e l p f ↦ absurd (cc p)
      ]

      by_attempt :
          (t : Buffer × Attempt)
          → t.1 ≡ stored
          → Outcome 0 v.queue rec t.0 t.1
          → Inv cfg (append_round_done r t) rs
      by_attempt (b', stored) done held = record {
        g = v.g;
        attached = v.attached;
        slots = omega (arith, v.slots, ap (λ x. length (pend x)) busy);
        queue = v.queue ++ (rec ∷ []);
        backlog = held;
        fits = tt;
        stage = stored-Stage;
      }
      by_attempt (b', waits) done held = absurd (cc)
      by_attempt (b', failed e) done held = absurd (cc)

  pub wait-Inv :
      (os : Os) (b : Buffer) (rec : BufferRecord)
      → r.receiver ≡ appending rec
      → r.buf ≡ some b
      → (try_append os b rec).1 ≡ waits
      → Inv cfg (append_round_done r (try_append os b rec)) rs
  unfolding append_round_done
  wait-Inv os b rec busy is done = by_attempt (try_append os b rec) done (
      try_append-Outcome os b v.queue rec (subst (λ x. All IsRecord (pend x)) busy v.fits).0
        (subst (λ x. Backlog x v.queue) is v.backlog))
    where
      by_attempt :
          (t : Buffer × Attempt)
          → t.1 ≡ waits
          → Outcome 0 v.queue rec t.0 t.1
          → Inv cfg (append_round_done r t) rs
      by_attempt (b', waits) done held = record {
        g = v.g;
        attached = v.attached;
        slots = v.slots;
        queue = v.queue;
        backlog = held;
        fits = v.fits;
        stage = v.stage;
      }
      by_attempt (b', stored) done held = absurd (cc)
      by_attempt (b', failed e) done held = absurd (cc)

  pub put-Inv : (o : Outgoing) → r.receiver ≡ sending o → Inv cfg (send r o) rs
  unfolding send
  put-Inv o busy = record {
    g = v.g;
    attached = v.attached;
    slots = v.slots ∙ ap (λ x. length (pend x)) busy;
    queue = v.queue;
    backlog = v.backlog;
    fits = tt;
    stage = elim (subst (λ x. Stage cfg v.g v.queue r.emit_ch x r.flusher rs) busy v.stage) [
      | unanchored s h e is f n ↦ absurd (cc n)
      | draining s h e n ↦ absurd (cc n)
      | live s h e l p f ↦
          live s h
            (append-nil (entries (r.emit_ch ++ (o ∷ [])))
              ∙ entries-append r.emit_ch (o ∷ [])
              ∙ ap (λ x. entries r.emit_ch ++ x) l
              ∙ e)
            refl refl f
    ];
  }
