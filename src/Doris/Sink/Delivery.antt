-- ===== src/Doris/Sink/Delivery.antt =====
-- What the Doris sink reports as delivered, and that a terminal error does not stop it.
use pikawire.Prelude.{
  ℕ, ◌-◌, ◌≡◌, refl, sym, ap, ◌∙◌, Bool, true, false, Option, none, some, List, [], ◌∷◌, ◌++◌,
  Bytes, length, if◌then◌else◌,
}
use pikawire.Position.{Position, after, is_zero, zero_position}
use pikawire.Sql.Rows.{is_empty}
use pikawire.Sql.Batches.{PendingRow}
use pikawire.Doris.Load.{Request, Reply, LoadError}
use pikawire.Doris.Sink.{
  Sink, SinkError, load_failed, notifier_failed, GroupKey, groups_of, next_fe, stream_load, set_err,
  max_position, load_all, deliver, after_loads, load_batch, flush,
}
use pikawire.Doris.Sink.Loads.{flush_at_once}

delivered-set_err : (e : SinkError) (s : Sink) → (set_err e s).delivered ≡ s.delivered
unfolding set_err
delivered-set_err e s = by_err s.term_err
  where
    by_err :
        (o : Option SinkError)
        → (let t : Sink = elim o [ none ↦ record s { term_err = some e } | some first ↦ s ] in
            t.delivered ≡ s.delivered)
    by_err none = refl
    by_err (some first) = refl

module _ (http : Request → Reply) (now : ℕ) (notify : Option (Position → Option Bytes)) where
  delivered-load_all :
      (groups : List (GroupKey × List PendingRow)) (s : Sink)
      → (load_all http now notify groups s).0.delivered ≡ s.delivered
  unfolding load_all stream_load next_fe
  delivered-load_all [] s = refl
  delivered-load_all ((k, rows) ∷ groups) s =
      by_err (stream_load http now notify k.table rows s).1
        (delivered-load_all groups ((stream_load http now notify k.table rows s).0))
    where
      loaded : Sink
      loaded = (stream_load http now notify k.table rows s).0

      by_err :
          (o : Option LoadError)
          → (load_all http now notify groups loaded).0.delivered ≡ s.delivered
          → (let r : Sink × Bool = elim o [
            | some x ↦ (set_err (load_failed x) loaded, false)
            | none ↦ load_all http now notify groups loaded
          ] in
              r.0.delivered ≡ s.delivered)
      by_err none ih = ih
      by_err (some x) ih = delivered-set_err (load_failed x) loaded

  -- The sink as `flush` leaves the lock with the batch.
  abbrev taken : Sink → Sink
  taken s = record s { queue = []; room = s.room - length s.queue }

  -- Whether the loads go through does not depend on the terminal error.
  success-load_all :
      (groups : List (GroupKey × List PendingRow)) (s : Sink) (o o' : Option SinkError)
      → (load_all http now notify groups (record s { term_err = o })).1
        ≡ (load_all http now notify groups (record s { term_err = o' })).1
  unfolding load_all stream_load next_fe
  success-load_all [] s o o' = refl
  success-load_all ((k, rows) ∷ groups) s o o' =
      by_err (stream_load http now notify k.table rows s).1
        (success-load_all groups ((stream_load http now notify k.table rows s).0) o o')
    where
      loaded : Option SinkError → Sink
      loaded o = record ((stream_load http now notify k.table rows s).0) { term_err = o }

      next : Option LoadError → Option SinkError → Sink × Bool
      next e o = elim e [
        | some x ↦ (set_err (load_failed x) (loaded o), false)
        | none ↦ load_all http now notify groups (loaded o)
      ]

      by_err :
          (e : Option LoadError)
          → (load_all http now notify groups (loaded o)).1
            ≡ (load_all http now notify groups (loaded o')).1
          → (next e o).1 ≡ (next e o').1
      by_err none ih = ih
      by_err (some x) ih = refl

  -- What the notifier gets, by the positions reported so far.
  abbrev reported : Position → List Position → List Position
  reported mx l = if is_zero mx then l else elim notify [ none ↦ l | some fn ↦ l ++ (mx ∷ []) ]

  reported-deliver :
      (mx : Position) (s : Sink)
      → (deliver http now notify mx s).delivered ≡ reported mx s.delivered
  unfolding deliver
  reported-deliver mx s = by_zero (is_zero mx) notify
    where
      sent : Sink
      sent = record s { delivered = s.delivered ++ (mx ∷ []) }

      answer : Option Bytes → Sink
      answer o = elim o [ none ↦ sent | some e ↦ set_err (notifier_failed e) sent ]

      by_err : (o : Option Bytes) → (answer o).delivered ≡ s.delivered ++ (mx ∷ [])
      by_err none = refl
      by_err (some e) = delivered-set_err (notifier_failed e) sent

      by_zero :
          (b : Bool) (o : Option (Position → Option Bytes))
          → (let t : Sink = if b then s else elim o [ none ↦ s | some fn ↦ answer (fn mx) ] in
              let l : List Position =
                if b
                then s.delivered
                else elim o [ none ↦ s.delivered | some fn ↦ s.delivered ++ (mx ∷ []) ] in
              t.delivered ≡ l)
      by_zero true o = refl
      by_zero false none = refl
      by_zero false (some fn) = by_err (fn mx)

  -- A flush reports the same positions whatever terminal error the sink has: after a batch has failed, the next
  -- one that is loaded is reported all the same.
  pub flush_ignores_term_err :
      (s : Sink) (o o' : Option SinkError)
      → (flush http now notify (record s { term_err = o })).delivered
        ≡ (flush http now notify (record s { term_err = o' })).delivered
  unfolding load_batch after_loads
  flush_ignores_term_err s o o' =
      rw
        (
          flush_at_once http now notify (record s { term_err = o }),
          flush_at_once http now notify (record s { term_err = o' }),
        )
        (by_empty (is_empty s.queue))
    where
      result : Option SinkError → Sink × Bool
      result o = load_all http now notify (groups_of s.queue) (record (taken s) { term_err = o })

      by_success :
          (r r' : Sink × Bool)
          → r.1 ≡ r'.1
          → r.0.delivered ≡ r'.0.delivered
          → (after_loads http now notify s.queue r).delivered
            ≡ (after_loads http now notify s.queue r').delivered
      by_success (t, true) (t', true) e d =
          reported-deliver _ t
          ∙ ap (reported (max_position s.queue zero_position)) d
          ∙ sym (reported-deliver _ t')
      by_success (t, true) (t', false) e d = absurd (cc e)
      by_success (t, false) (t', true) e d = absurd (cc e)
      by_success (t, false) (t', false) e d = d

      after : Bool → Option SinkError → Sink
      after b o =
          if b then record s { term_err = o } else after_loads http now notify s.queue (result o)

      by_empty : (b : Bool) → (after b o).delivered ≡ (after b o').delivered
      by_empty true = refl
      by_empty false =
          by_success (result o) (result o') (success-load_all (groups_of s.queue) (taken s) o o') (
            delivered-load_all (groups_of s.queue) _
            ∙ sym (delivered-load_all (groups_of s.queue) _))
