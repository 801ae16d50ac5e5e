-- ===== src/Runner/Order.antt =====
-- The order of the events across the handoff from the dump to the live stream.
use pikawire.Prelude.{arith, false, ◌≡◌, refl, sym, ap, ◌∙◌, true, some, List, [], ◌++◌, append-nil}
use pikawire.Gate.{GateCtl, new_gate_ctl, open_state}
use pikawire.DiskBuffer.Record.{BufferRecord}
use pikawire.Runner.{Outgoing, Config, Runner, new_runner, idle}
use pikawire.Runner.Steps.{
  Reach, start, receive, skip, append, wait, put, anchor, image, test, fetch, flush, wanted,
  entries,
}
use pikawire.Runner.Invariant.{pend, in_send, batch, unanchored, draining, live, Inv}
use pikawire.Runner.Receive.{receive-Inv, skip-Inv, append-Inv, wait-Inv, put-Inv}
use pikawire.Runner.Release.{anchor-Inv, image-Inv, test-Inv}
use pikawire.Runner.Drain.{fetch-Inv, flush-Inv}

start-Inv : (cfg : Config) → Inv cfg (new_runner (some new_gate_ctl)) []
unfolding new_runner new_gate_ctl
start-Inv cfg = record {
  g = new_gate_ctl;
  attached = refl;
  slots = refl;
  queue = [];
  backlog = refl;
  fits = tt;
  stage = unanchored refl refl refl refl refl refl;
}

pub Reach-Inv : {cfg : Config} {r : Runner} {rs : List BufferRecord} → Reach cfg r rs → Inv cfg r rs
Reach-Inv {cfg} start = start-Inv cfg
Reach-Inv {cfg} {r = r'} (receive {r = r} {rs = rs} raw pb_off item c h free reads fit e) =
    receive-Inv cfg r r' rs raw pb_off item c (Reach-Inv h) free reads fit e
Reach-Inv {cfg} {r = r'} (skip {r = r} {rs = rs} raw pb_off why h free fails e) =
    skip-Inv cfg r r' rs raw pb_off why (Reach-Inv h) fails e
Reach-Inv {cfg} (append {r = r} {rs = rs} os b rec h busy is done) =
    append-Inv cfg r rs (Reach-Inv h) os b rec busy is done
Reach-Inv {cfg} (wait {r = r} {rs = rs} os b rec h busy is done) =
    wait-Inv cfg r rs (Reach-Inv h) os b rec busy is done
Reach-Inv {cfg} (put {r = r} {rs = rs} o h busy) = put-Inv cfg r rs (Reach-Inv h) o busy
Reach-Inv {cfg} (anchor {r = r} {rs = rs} p g h is fresh) =
    anchor-Inv cfg r rs (Reach-Inv h) p g is fresh
Reach-Inv {cfg} (image {r = r} {rs = rs} ev h is) = image-Inv cfg r rs (Reach-Inv h) ev is
Reach-Inv {cfg} (test {r = r} {rs = rs} g h at is known) =
    test-Inv cfg r rs (Reach-Inv h) g at is known
Reach-Inv {cfg} {r = r'} (fetch {r = r} {rs = rs} b h at is e) =
    fetch-Inv cfg r rs (Reach-Inv h) b r' at is e
Reach-Inv {cfg} (flush {r = r} {rs = rs} rec rest out h at e) =
    flush-Inv cfg r rs (Reach-Inv h) rec rest out at e

-- In every reachable state with an anchor `h`, whatever the interleaving of receiver, flusher and
-- dump: the events of entries in the channel are a prefix of the events of the entries behind `h`
-- that were received, in the order in which they were received. Nothing behind the anchor is passed
-- over, doubled or reordered, and nothing at or below it is emitted.
pub in_order :
    {cfg : Config} {r : Runner} {rs : List BufferRecord} (g : GateCtl)
    → Reach cfg r rs
    → r.gate ≡ some g
    → g.h_set ≡ true
    → (later : List Outgoing) × (entries r.emit_ch ++ later ≡ wanted cfg g.h rs)
in_order {cfg} {r} {rs} g h is known =
    let v = Reach-Inv h in
    let same : v.g ≡ g = ground (arith, sym v.attached ∙ is) in
    rw⁻¹ same (elim v.stage [
      | unanchored s u e x f n ↦ absurd (cc (same, known, u))
      | draining s k e n ↦ (wanted cfg v.g.h (batch r.flusher ++ (v.queue ++ pend r.receiver)), e)
      | live s k e l p f ↦ (in_send r.receiver, e)
    ])

-- Once the gate is open and the receiver waits for a message, the channel has the events of all the
-- entries behind the anchor that were received, in order: the backlog was drained completely, and
-- live entries follow it.
pub open_complete :
    {cfg : Config} {r : Runner} {rs : List BufferRecord} (g : GateCtl)
    → Reach cfg r rs
    → r.gate ≡ some g
    → g.state ≡ open_state
    → r.receiver ≡ idle
    → entries r.emit_ch ≡ wanted cfg g.h rs
open_complete {cfg} {r} {rs} g h is opened free =
    let v = Reach-Inv h in
    let same : v.g ≡ g = ground (arith, sym v.attached ∙ is) in
    rw⁻¹ same (elim v.stage [
      | unanchored s u e x f n ↦ absurd (cc (same, opened, s))
      | draining s k e n ↦ absurd (cc (same, opened, s))
      | live s k e l p f ↦
          sym (append-nil (entries r.emit_ch))
          ∙ ap (λ x. entries r.emit_ch ++ in_send x) (sym free)
          ∙ e
    ])

-- Before the anchor is set, no event of an entry is in the channel.
pub unanchored_silent :
    {cfg : Config} {r : Runner} {rs : List BufferRecord} (g : GateCtl)
    → Reach cfg r rs
    → r.gate ≡ some g
    → g.h_set ≡ false
    → entries r.emit_ch ≡ []
unanchored_silent {cfg} {r} {rs} g h is fresh =
    let v = Reach-Inv h in
    let same : v.g ≡ g = ground (arith, sym v.attached ∙ is) in
    elim v.stage [
      | unanchored s u e x f n ↦ e
      | draining s k e n ↦ absurd (cc (same, fresh, k))
      | live s k e l p f ↦ absurd (cc (same, fresh, k))
    ]
