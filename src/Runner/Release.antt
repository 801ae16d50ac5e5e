-- ===== src/Runner/Release.antt =====
-- The steps of the flusher and of the dump keep the invariant.
use mathlib.Core.Path.{subst}
use pikawire.Prelude.{
  ◌≡◌, refl, sym, ap, ◌∙◌, true, false, ◌&&◌, Option, none, some, List, [], ◌++◌, append-nil,
  length, arith, if_both, ◌==◌,
}
use pikawire.Position.{Position}
use pikawire.Envelope.{Event, phase_snapshot}
use pikawire.Gate.{GateCtl, request_open_at, release_gate}
use pikawire.DiskBuffer.Record.{BufferRecord}
use pikawire.DiskBuffer.Buffer.{Buffer}
use pikawire.DiskBuffer.Buffer.View.{nothing_pending_iff}
use pikawire.Runner.{
  Config, Runner, Receiver, idle, appending, sending, testing, fetching, released, request_anchor,
  inject, backlog_empty, open_gate, test_backlog,
}
use pikawire.Runner.Steps.{wanted, entries}
use pikawire.Runner.Invariant.{
  pend, in_send, batch, Backlog, Stage, unanchored, draining, live, Inv, entries-append,
}

no_pend : (rc : Receiver) → length (pend rc) ≡ 0 → pend rc ≡ []
no_pend idle h = refl
no_pend (appending rec) h = absurd (omega arith)
no_pend (sending o) h = refl

empty-Backlog :
    (buf : Option Buffer) (q : List BufferRecord)
    → Backlog buf q
    → backlog_empty buf ≡ true
    → q ≡ []
unfolding backlog_empty
empty-Backlog none q held empty = held
empty-Backlog (some b) q held empty = (nothing_pending_iff b q held).0 empty

module _ (cfg : Config) (r : Runner) (rs : List BufferRecord) (v : Inv cfg r rs) where
  pub anchor-Inv :
      (h : Position) (g : GateCtl)
      → r.gate ≡ some g
      → g.h_set ≡ false
      → Inv cfg (request_anchor r h) rs
  unfolding request_anchor request_open_at
  anchor-Inv h g is fresh = by_gate r.gate v.attached
    where
      same : v.g ≡ g
      same = ground (arith, sym v.attached ∙ is)

      set-Stage : Stage cfg (request_open_at v.g h) v.queue r.emit_ch r.receiver r.flusher rs
      set-Stage = elim v.stage [
        | unanchored s u e is f n ↦
            draining s refl
              (rw e (
                ap (λ x. wanted cfg h (batch x ++ (v.queue ++ pend r.receiver))) f
                ∙ ap (wanted cfg h) (sym is)))
              n
        | draining s set e n ↦ absurd (cc (set, same, fresh))
        | live s set e l p f ↦ absurd (cc (set, same, fresh))
      ]

      by_gate :
          (gate : Option GateCtl)
          → gate ≡ some v.g
          → Inv cfg
              (elim gate [ none ↦ r | some g ↦ record r { gate = some (request_open_at g h) } ])
              rs
      by_gate none e = absurd (cc)
      by_gate (some g') e = record {
        g = request_open_at v.g h;
        attached =
            ap (λ x. some (request_open_at x h)) (let e' : g' ≡ v.g = ground (arith, e) in e');
        slots = v.slots;
        queue = v.queue;
        backlog = v.backlog;
        fits = v.fits;
        stage = set-Stage;
      }

  -- Images do not count among the entries.
  image_apart :
      (ev : Event) → ev.phase ≡ phase_snapshot → entries (inject r ev).emit_ch ≡ entries r.emit_ch
  unfolding inject
  image_apart ev image =
      entries-append r.emit_ch _
      ∙ ap (λ x. entries r.emit_ch ++ x) (rw (entries, image) refl)
      ∙ append-nil (entries r.emit_ch)

  pub image-Inv : (ev : Event) → ev.phase ≡ phase_snapshot → Inv cfg (inject r ev) rs
  unfolding inject
  image-Inv ev image =
      let same = image_apart ev image in
      record {
        g = v.g;
        attached = v.attached;
        slots = v.slots;
        queue = v.queue;
        backlog = v.backlog;
        fits = v.fits;
        stage = elim v.stage [
          | unanchored s h e is f n ↦ unanchored s h (same ∙ e) is f n
          | draining s h e n ↦
              draining s h
                (ap (λ x. x ++ wanted cfg v.g.h (batch r.flusher ++ (v.queue ++ pend r.receiver)))
                    same
                  ∙ e)
                n
          | live s h e l p f ↦ live s h (ap (λ x. x ++ in_send r.receiver) same ∙ e) l p f
        ];
      }

  -- The gate opens only when every entry behind the anchor is in the channel.
  opened-Stage :
      r.flusher ≡ testing
      → v.g.h_set ≡ true
      → v.queue ≡ []
      → pend r.receiver ≡ []
      → Stage cfg (release_gate v.g) [] r.emit_ch r.receiver released rs
  unfolding release_gate
  opened-Stage at known empty none_pend = elim v.stage [
    | unanchored s u e is f n ↦ absurd (cc (known, u))
    | draining s h e n ↦ live refl h (nothing_left n e) (rw n refl) none_pend refl
    | live s h e l p f ↦ absurd (cc (f, at))
  ]
    where
      nothing_left :
          in_send r.receiver ≡ []
          → entries r.emit_ch ++ wanted cfg v.g.h (batch r.flusher ++ (v.queue ++ pend r.receiver))
            ≡ wanted cfg v.g.h rs
          → entries r.emit_ch ++ in_send r.receiver ≡ wanted cfg v.g.h rs
      nothing_left n e =
          ap (λ x. entries r.emit_ch ++ x)
            (n
              ∙ ap (wanted cfg v.g.h) (
                  ap (λ x. batch x ++ ([] ++ [])) (sym at)
                  ∙ ap (λ x. batch r.flusher ++ (x ++ [])) (sym empty)
                  ∙ ap (λ x. batch r.flusher ++ (v.queue ++ x)) (sym none_pend)))
          ∙ e

  fetching-Inv :
      r.flusher ≡ testing → v.g.h_set ≡ true → Inv cfg (record r { flusher = fetching }) rs
  fetching-Inv at known = record {
    g = v.g;
    attached = v.attached;
    slots = v.slots;
    queue = v.queue;
    backlog = v.backlog;
    fits = v.fits;
    stage = elim v.stage [
      | unanchored s u e is f n ↦ absurd (cc (known, u))
      | draining s h e n ↦
          draining s h
            (subst
              (λ x.
                entries r.emit_ch ++ wanted cfg v.g.h (batch x ++ (v.queue ++ pend r.receiver))
                ≡ wanted cfg v.g.h rs)
              at e)
            n
      | live s h e l p f ↦ absurd (cc (f, at))
    ];
  }

  pub test-Inv :
      (g : GateCtl)
      → r.flusher ≡ testing
      → r.gate ≡ some g
      → g.h_set ≡ true
      → Inv cfg (test_backlog r) rs
  unfolding test_backlog open_gate
  test-Inv g at is known =
      if_both (λ x. Inv cfg x rs) (backlog_empty r.buf && r.inflight == 0) _ _
        (λ done.
          let empty : v.queue ≡ [] = empty-Backlog r.buf v.queue v.backlog (ground arith) in
          let none_pend : pend r.receiver ≡ [] = no_pend r.receiver (ground (arith, v.slots)) in
          record {
            g = release_gate v.g;
            attached = ap open_gate v.attached;
            slots = v.slots;
            queue = [];
            backlog = refl;
            fits = v.fits;
            stage = opened-Stage at set empty none_pend;
          })
        (λ _. by_buf r.buf)
    where
      set : v.g.h_set ≡ true
      set = let same : v.g ≡ g = ground (arith, sym v.attached ∙ is) in cc (same, known)

      by_buf :
          (buf : Option Buffer)
          → Inv cfg (elim buf [ none ↦ r | some b ↦ record r { flusher = fetching } ]) rs
      by_buf none = v
      by_buf (some b) = fetching-Inv at set
