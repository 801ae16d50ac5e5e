-- ===== src/Doris/Sink/Loads.antt =====
-- What the parts of a flush leave alone, and a flush that nothing comes between.
use pikawire.Prelude.{
  ℕ, zero, suc, ◌+◌, ◌-◌, ◌≡◌, refl, ap, ◌∙◌, Bool, true, false, Option, none, some, List, [], ◌∷◌,
  ◌++◌, Bytes, length, if◌then◌else◌, if_both, arith,
}
use pikawire.Position.{Position, is_zero}
use pikawire.Sql.Rows.{is_empty}
use pikawire.Sql.Batches.{PendingRow}
use pikawire.Doris.Load.{Request, Reply, LoadError}
use pikawire.Doris.Sink.{
  Sink, Entry, SinkError, GroupKey, next_fe, stream_load, set_err, after_loads, groups_of, load_all,
  deliver, load_batch, flush, take_batch, give_back, give_all,
}

-- The fields that the loads and the notifier leave alone.
pub record Keeps (s t : Sink) : Type 0 where
  pub queue : t.queue ≡ s.queue
  pub room : t.room ≡ s.room
  pub waiting : t.waiting ≡ s.waiting
  pub giving : t.giving ≡ s.giving
  pub max_queue_rows : t.max_queue_rows ≡ s.max_queue_rows
  pub closed : t.closed ≡ s.closed

pub Keeps-refl : (s : Sink) → Keeps s s
Keeps-refl s = record {
  queue = refl;
  room = refl;
  waiting = refl;
  giving = refl;
  max_queue_rows = refl;
  closed = refl;
}

pub Keeps-set_err : (e : SinkError) (s t : Sink) → Keeps s t → Keeps s (set_err e t)
unfolding set_err
Keeps-set_err e s t h = by_err t.term_err
  where
    by_err :
        (o : Option SinkError)
        → Keeps s (elim o [ none ↦ record t { term_err = some e } | some first ↦ t ])
    by_err none = record {
      queue = h.queue;
      room = h.room;
      waiting = h.waiting;
      giving = h.giving;
      max_queue_rows = h.max_queue_rows;
      closed = h.closed;
    }
    by_err (some first) = h

module _ (http : Request → Reply) (now : ℕ) (notify : Option (Position → Option Bytes)) where
  Keeps-load_all :
      (groups : List (GroupKey × List PendingRow)) (s t : Sink)
      → Keeps s t
      → Keeps s (load_all http now notify groups t).0
  unfolding load_all stream_load next_fe
  Keeps-load_all [] s t h = h
  Keeps-load_all ((k, rows) ∷ groups) s t h =
      by_err (stream_load http now notify k.table rows t).1 (
        Keeps-load_all groups s ((stream_load http now notify k.table rows t).0) (record {
          queue = h.queue;
          room = h.room;
          waiting = h.waiting;
          giving = h.giving;
          max_queue_rows = h.max_queue_rows;
          closed = h.closed;
        }))
    where
      loaded : Sink
      loaded = (stream_load http now notify k.table rows t).0

      kept : Keeps s loaded
      kept = record {
        queue = h.queue;
        room = h.room;
        waiting = h.waiting;
        giving = h.giving;
        max_queue_rows = h.max_queue_rows;
        closed = h.closed;
      }

      by_err :
          (o : Option LoadError)
          → Keeps s (load_all http now notify groups loaded).0
          → Keeps s (
              let r : Sink × Bool = elim o [
                | some x ↦ (set_err (SinkError.load_failed x) loaded, false)
                | none ↦ load_all http now notify groups loaded
              ] in
              r.0)
      by_err none ih = ih
      by_err (some x) ih = Keeps-set_err (SinkError.load_failed x) s loaded kept

  pub Keeps-deliver :
      (mx : Position) (s t : Sink) → Keeps s t → Keeps s (deliver http now notify mx t)
  unfolding deliver
  Keeps-deliver mx s t h = if_both (Keeps s) (is_zero mx) _ _ (λ _. h) (λ _. by_notifier notify)
    where
      sent : Sink
      sent = record t { delivered = t.delivered ++ (mx ∷ []) }

      kept : Keeps s sent
      kept = record {
        queue = h.queue;
        room = h.room;
        waiting = h.waiting;
        giving = h.giving;
        max_queue_rows = h.max_queue_rows;
        closed = h.closed;
      }

      by_err :
          (o : Option Bytes)
          → Keeps s (elim o [ none ↦ sent | some e ↦ set_err (SinkError.notifier_failed e) sent ])
      by_err none = kept
      by_err (some e) = Keeps-set_err (SinkError.notifier_failed e) s sent kept

      by_notifier :
          (o : Option (Position → Option Bytes))
          → Keeps s (elim o [
            | none ↦ t
            | some fn ↦ elim (fn mx) [
              | none ↦ sent
              | some e ↦ set_err (SinkError.notifier_failed e) sent
            ]
          ])
      by_notifier none = h
      by_notifier (some fn) = by_err (fn mx)

  pub Keeps-load_batch :
      (batch : List Entry) (s : Sink) → Keeps s (load_batch http now notify batch s)
  unfolding load_batch after_loads
  Keeps-load_batch batch s =
      by_loads (load_all http now notify (groups_of batch) s)
        (Keeps-load_all (groups_of batch) s s (Keeps-refl s))
    where
      by_loads : (r : Sink × Bool) → Keeps s r.0 → Keeps s (after_loads http now notify batch r)
      by_loads (t, true) h = Keeps-deliver _ s t h
      by_loads (t, false) h = h

  pub Keeps-stream_load :
      (table : Bytes) (rows : List PendingRow) (s : Sink)
      → Keeps s (stream_load http now notify table rows s).0
  unfolding stream_load next_fe
  Keeps-stream_load table rows s = record {
    queue = refl;
    room = refl;
    waiting = refl;
    giving = refl;
    max_queue_rows = refl;
    closed = refl;
  }

  give_all-room :
      (n : ℕ) (s : Sink) → give_all n s ≡ record s { room = s.room - n; giving = s.giving - n }
  unfolding give_all give_back
  give_all-room zero s =
      let r : s.room ≡ s.room - 0 = omega arith in
      let g : s.giving ≡ s.giving - 0 = omega arith in
      ap (λ (x : ℕ × ℕ). record s { room = x.0; giving = x.1 }) (cc (r, g))
  give_all-room (suc n) s =
      let r : (s.room - 1) - n ≡ s.room - suc n = omega arith in
      let g : (s.giving - 1) - n ≡ s.giving - suc n = omega arith in
      give_all-room n (give_back s)
      ∙ ap (λ (x : ℕ × ℕ). record s { room = x.0; giving = x.1 }) (cc (r, g))

  give_all-take_batch :
      (s : Sink)
      → give_all (length s.queue) (take_batch s)
        ≡ record s { queue = []; room = s.room - length s.queue }
  unfolding take_batch
  give_all-take_batch s =
      let g : (s.giving + length s.queue) - length s.queue ≡ s.giving = omega arith in
      give_all-room (length s.queue) (take_batch s)
      ∙ ap (λ g. record s { queue = []; room = s.room - length s.queue; giving = g }) g

  -- A flush with nothing between the lock and the tokens.
  pub flush_at_once :
      (s : Sink)
      → flush http now notify s ≡ (
          if is_empty s.queue
          then s
          else load_batch http now notify s.queue
              (record s { queue = []; room = s.room - length s.queue }))
  unfolding flush
  flush_at_once s = rw (give_all-take_batch s) refl
