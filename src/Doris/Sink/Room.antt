-- ===== src/Doris/Sink/Room.antt =====
-- The backpressure of the Doris sink: the tokens in `room` over all the orders of the sink's steps, and the
-- end of `Close`.
use pikawire.Prelude.{
  ℕ, suc, ◌+◌, ◌-◌, ◌≤◌, ◌<◌, ◌≡◌, refl, ap, ◌∙◌, Bool, true, false, Option, none, some, List, [],
  ◌∷◌, ◌++◌, Bytes, length, length-append, if◌then◌else◌, if_both, arith, ltb, ltb→lt, leb,
}
use pikawire.Envelope.{Event}
use pikawire.Position.{Position}
use pikawire.Sql.Rows.{Row}
use pikawire.Sql.Batches.{PendingRow}
use pikawire.Doris.Load.{Request, Reply}
use pikawire.Doris.Sink.{
  Sink, Entry, SinkError, take_room, enqueue, stream_load, set_err, deliver, load_batch, EmitError,
  with_sequence, position_of, drain, close, take_batch, give_back,
}
use pikawire.Doris.Sink.Loads.{
  Keeps, Keeps-refl, Keeps-set_err, Keeps-deliver, Keeps-stream_load, Keeps-load_batch,
  flush_at_once,
}

module _ (http : Request → Reply) (now : ℕ) (notify : Option (Position → Option Bytes)) where
  -- The steps of the goroutines that share the sink. `Emit`: a call gets room, it goes on with its token,
  -- and one that was refused gives the token back later. `flush`, in the committer and in `Close`: it takes the batch,
  -- gives back one token, does one load, keeps an error, reports. `Close`: it sets its flag.
  pub data Step : Sink → Sink → Type 0 where
    takes_room : {s t : Sink} → take_room s ≡ some t → Step s t
    enters : {s : Sink} (ev : Event) (row : Row) → 0 < s.waiting → Step s (enqueue ev row s).0
    leaves :
        {s : Sink}
        → 0 < s.waiting
        → Step s (record s { room = s.room - 1; waiting = s.waiting - 1 })
    takes_batch : {s : Sink} → Step s (take_batch s)
    gives_back : {s : Sink} → 0 < s.giving → Step s (give_back s)
    loads :
        {s : Sink} (table : Bytes) (rows : List PendingRow)
        → Step s (stream_load http now notify table rows s).0
    keeps_error : {s : Sink} (e : SinkError) → Step s (set_err e s)
    reports : {s : Sink} (mx : Position) → Step s (deliver http now notify mx s)
    closes : {s : Sink} → Step s (record s { closed = true })

  pub data Reachable (s : Sink) : Sink → Type 0 where
    start : Reachable s s
    then_step : {t u : Sink} → Reachable s t → Step t u → Reachable s u

  -- There is a token for each queued row, for each call of `Emit` on its way to the queue and for each row
  -- that has left the queue with its token still out, and no more than the channel holds.
  record IsRoomy (s : Sink) : Type 0 where
    tokens : s.room ≡ length s.queue + s.waiting + s.giving
    bounded : s.room ≤ s.max_queue_rows

  IsRoomy-Keeps : (s t : Sink) → Keeps s t → IsRoomy s → IsRoomy t
  IsRoomy-Keeps s t k h =
      let q = ap length k.queue in
      record {
        tokens = omega (arith, h.tokens, k.room, k.waiting, k.giving, q);
        bounded = omega (arith, h.bounded, k.room, k.max_queue_rows);
      }

  IsRoomy-enqueue :
      (s : Sink) (ev : Event) (row : Row) → 0 < s.waiting → IsRoomy s → IsRoomy (enqueue ev row s).0
  unfolding enqueue
  IsRoomy-enqueue s ev row w h =
      if_both (λ (r : Sink × Option EmitError). IsRoomy r.0) s.closed _ _ (λ _. given_back)
        (λ _. by_err s.term_err)
    where
      given_back : IsRoomy (record s { room = s.room - 1; waiting = s.waiting - 1 })
      given_back = record { tokens = omega (arith, h.tokens); bounded = omega (arith, h.bounded) }

      entry : Entry
      entry = record {
        pr = record { row = with_sequence s.sequence_column (position_of ev.source) row; done = 0 };
        pos = position_of ev.source;
      }

      queued : Sink
      queued = record s {
        waiting = s.waiting - 1;
        queue = s.queue ++ (entry ∷ []);
        woken = if leb s.max_batch_rows (length s.queue) then true else s.woken;
      }

      by_err :
          (o : Option SinkError)
          → (let r : Sink × Option EmitError = elim o [
            | some e ↦ (
              record s { room = s.room - 1; waiting = s.waiting - 1 },
              some (EmitError.terminal e),
            )
            | none ↦ (queued, none)
          ] in
              IsRoomy r.0)
      by_err (some e) = given_back
      by_err none = record {
        tokens = let l = length-append s.queue (entry ∷ []) in omega (arith, h.tokens, l);
        bounded = h.bounded;
      }

  IsRoomy-Step : (s t : Sink) → Step s t → IsRoomy s → IsRoomy t
  unfolding take_room enqueue take_batch give_back
  IsRoomy-Step s t (takes_room e) h = by_room (ltb s.room s.max_queue_rows) refl e
    where
      by_room :
          (b : Bool)
          → ltb s.room s.max_queue_rows ≡ b
          → (if b then some (record s { room = suc s.room; waiting = suc s.waiting }) else none)
            ≡ some t
          → IsRoomy t
      by_room true below e =
          let same_sink : record s { room = suc s.room; waiting = suc s.waiting } ≡ t =
            ground (arith, e) in
          rw⁻¹ same_sink (record {
            tokens = omega (arith, h.tokens);
            bounded = omega (arith, ltb→lt s.room s.max_queue_rows below);
          })
      by_room false full e = absurd (cc e)
  IsRoomy-Step s t (enters ev row w) h = IsRoomy-enqueue s ev row w h
  IsRoomy-Step s t (leaves w) h = record {
    tokens = omega (arith, h.tokens);
    bounded = omega (arith, h.bounded);
  }
  IsRoomy-Step s t takes_batch h = record { tokens = omega (arith, h.tokens); bounded = h.bounded }
  IsRoomy-Step s t (gives_back g) h = record {
    tokens = omega (arith, h.tokens);
    bounded = omega (arith, h.bounded);
  }
  IsRoomy-Step s t (loads table rows) h =
      IsRoomy-Keeps s _ (Keeps-stream_load http now notify table rows s) h
  IsRoomy-Step s t (keeps_error e) h = IsRoomy-Keeps s _ (Keeps-set_err e s s (Keeps-refl s)) h
  IsRoomy-Step s t (reports mx) h =
      IsRoomy-Keeps s _ (Keeps-deliver http now notify mx s s (Keeps-refl s)) h
  IsRoomy-Step s t closes h = record { tokens = h.tokens; bounded = h.bounded }

  -- From a sink with an empty queue and all its room free, whatever the order of the steps, those inside a flush included: the
  -- room taken is that of the queued
  -- rows, of the calls on their way to the queue and of the rows that left it and whose tokens are not given back yet, and
  -- the queue never has more rows than `MaxQueueRows`.
  pub Reachable-length_queue :
      (s t : Sink)
      → s.queue ≡ []
      → s.room ≡ 0
      → s.waiting ≡ 0
      → s.giving ≡ 0
      → Reachable s t
      → (t.room ≡ length t.queue + t.waiting + t.giving) × (length t.queue ≤ t.max_queue_rows)
  Reachable-length_queue s t q r w g path =
      let h = roomy t path in (h.tokens, omega (arith, h.tokens, h.bounded))
    where
      roomy : (t : Sink) → Reachable s t → IsRoomy t
      roomy t start =
          let e : length s.queue ≡ 0 = ap length q in
          record { tokens = omega arith; bounded = omega arith }
      roomy t (then_step path last) = IsRoomy-Step _ t last (roomy _ path)

  drain-empty : (fuel : ℕ) (s : Sink) → s.queue ≡ [] → drain http now notify (suc fuel) s ≡ some s
  unfolding drain
  drain-empty fuel s e = simp (e)

  drain-cons :
      (fuel : ℕ) (s : Sink) (x : Entry) (q : List Entry)
      → s.queue ≡ x ∷ q
      → drain http now notify (suc fuel) s
        ≡ drain http now notify fuel (
            load_batch http now notify
              (x ∷ q)
              (record s { queue = []; room = s.room - length (x ∷ q) }))
  unfolding drain
  drain-cons fuel s x q e = simp (e, flush_at_once http now notify s)

  close_drained :
      (fuel : ℕ) (s t : Sink)
      → s.closed ≡ false
      → drain http now notify fuel (record s { closed = true }) ≡ some t
      → close http now notify fuel s ≡ some (t, t.term_err)
  unfolding close
  close_drained fuel s t open_yet e =
      by_drain (drain http now notify fuel (record s { closed = true })) e
    where
      by_drain :
          (o : Option Sink)
          → o ≡ some t
          → (let r : Option (Sink × Option SinkError) =
                if s.closed
                then some (s, none)
                else elim o [ none ↦ none | some u ↦ some (u, u.term_err) ] in
              r ≡ some (t, t.term_err))
      by_drain none x = absurd (cc x)
      by_drain (some u) x =
          let ut : u ≡ t = ground (arith, x) in
          let answer : some (u, u.term_err) ≡ some (t, t.term_err) =
            ap (λ (v : Sink). some (v, v.term_err)) ut in
          rw open_yet answer

  -- A sink that is not closed yet is closed with two rounds of the loop of `Close`: its queue is then empty,
  -- and what `Close` returns is the sink's terminal error.
  pub close-returns :
      (fuel : ℕ) (s : Sink)
      → s.closed ≡ false
      → (t : Sink) × (close http now notify (suc (suc fuel)) s ≡ some (t, t.term_err))
        × (t.queue ≡ [])
        × (t.closed ≡ true)
  close-returns fuel s open_yet = by_queue s.queue refl
    where
      flagged : Sink
      flagged = record s { closed = true }

      by_queue :
          (q : List Entry)
          → s.queue ≡ q
          → (t : Sink) × (close http now notify (suc (suc fuel)) s ≡ some (t, t.term_err))
            × (t.queue ≡ [])
            × (t.closed ≡ true)
      by_queue [] e = (
        flagged,
        close_drained (suc (suc fuel)) s flagged open_yet (drain-empty (suc fuel) flagged e),
        e,
        refl,
      )
      by_queue (x ∷ q) e =
          let k =
            Keeps-load_batch http now notify (x ∷ q)
              (record flagged { queue = []; room = s.room - length (x ∷ q) }) in
          let t : Sink =
            load_batch http now notify (x ∷ q)
              (record flagged { queue = []; room = s.room - length (x ∷ q) }) in
          (
            t,
            close_drained (suc (suc fuel)) s t open_yet
                (drain-cons (suc fuel) flagged x q e ∙ drain-empty fuel t k.queue),
            k.queue,
            k.closed,
          )
