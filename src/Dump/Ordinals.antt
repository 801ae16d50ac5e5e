-- ===== src/Dump/Ordinals.antt =====
-- The events of a dump pass carry the anchor and their ordinals.
use pikawire.Prelude.{
  ℕ, suc, ◌+◌, ◌≡◌, refl, ◌∙◌, ◌≢◌, Option, none, some, List, [], ◌∷◌, ◌++◌, Bytes, length,
  length-append, Result, ok, err, panic, arith,
}
use pikawire.Position.{Position}
use pikawire.Envelope.{Event}
use pikawire.Resp.{parse_array, RespError}
use pikawire.Dump.{
  Reading, read_error, a_record, EngineConfig, dump_event, Outcome, finished, cancelled, unreadable,
  malformed, refused, crashed, Pass, emit_loop, emit_dump,
}

-- The ordinals and positions of events behind `n` others.
abbrev pub Numbered : Position → ℕ → List Event → Type 0
Numbered pos n [] = Unit
Numbered pos n (ev ∷ events) =
    (ev.source.seq ≡ n + 1)
    × ((ev.source.filenum ≡ pos.filenum)
        × ((ev.source.offset ≡ pos.offset) × Numbered pos (suc n) events))

Numbered-snoc :
    (pos : Position) (n k : ℕ) (events : List Event) (ev : Event)
    → length events + k ≡ n
    → Numbered pos k events
    → ev.source.seq ≡ n + 1
    → ev.source.filenum ≡ pos.filenum
    → ev.source.offset ≡ pos.offset
    → Numbered pos k (events ++ (ev ∷ []))
Numbered-snoc pos n k [] ev e h s f o = (omega (arith, e, s), (f, (o, tt)))
Numbered-snoc pos n k (x ∷ events) ev e (a, (b, (c, h))) s f o =
    (a, (b, (c, Numbered-snoc pos n (suc k) events ev (omega (arith, e)) h s f o)))

-- What a pass owes to the readings behind `n` events.
record IsPass (pos : Position) (left : ℕ) (n : ℕ) (p : Pass) : Type 0 where
  counted : length p.events ≡ p.count
  numbered : Numbered pos 0 p.events
  complete : p.outcome ≡ finished → p.count ≡ n + left

module _ (cfg : EngineConfig) (pos : Position) (max_cap : ℕ) (cancel : ℕ → Option ℕ)
    (emit : Event → Option ℕ) where
  abbrev Owed : ℕ → ℕ → Pass → Type 0
  Owed left n p = IsPass pos left n p

  stopped :
      (left n : ℕ) (events : List Event) (o : Outcome)
      → length events ≡ n
      → Numbered pos 0 events
      → (o ≡ finished → left ≡ 0)
      → Owed left n (record { count = n; outcome = o; events = events })
  stopped left n events o len num fin = record {
    counted = len;
    numbered = num;
    complete = λ e. omega (arith, fin e);
  }

  by_cancel :
      (left n : ℕ) (events : List Event) (next : Pass)
      → length events ≡ n
      → Numbered pos 0 events
      → Owed left n next
      → (c : Option ℕ)
      → Owed left n (elim c [
        | some e ↦ record { count = n; outcome = cancelled e; events = events }
        | none ↦ next
      ])
  by_cancel left n events next len num goes_on none = goes_on
  by_cancel left n events next len num goes_on (some e) =
      stopped left n events (cancelled e) len num (λ x. absurd (cc x))

  emit_loop-IsPass :
      (reads : List Reading) (n : ℕ) (events : List Event)
      → length events ≡ n
      → Numbered pos 0 events
      → Owed (length reads) n (emit_loop cfg pos max_cap cancel emit reads n events)
  unfolding emit_loop dump_event
  emit_loop-IsPass [] n events len num =
      by_cancel 0 n events _ len num (stopped 0 n events finished len num (λ _. refl)) (cancel n)
  emit_loop-IsPass (read_error x ∷ reads) n events len num =
      by_cancel (suc (length reads)) n events _ len num
        (stopped (suc (length reads)) n events (unreadable x) len num (λ e. absurd (cc e)))
        (cancel n)
  emit_loop-IsPass (a_record rec ∷ reads) n events len num =
      by_cancel (suc (length reads)) n events _ len num
        (by_array (parse_array max_cap rec.raw_resp) (λ ev s f o.
          emit_loop-IsPass reads (suc n) (events ++ (ev ∷ []))
            (length-append events (ev ∷ []) ∙ omega (arith, len))
            (Numbered-snoc pos n 0 events ev (omega (arith, len)) num s f o)))
        (cancel n)
    where
      halt :
          (o : Outcome)
          → o ≢ finished
          → Owed (suc (length reads)) n (record { count = n; outcome = o; events = events })
      halt o h = stopped (suc (length reads)) n events o len num (λ e. absurd (h e))

      Later : Event → Pass
      Later ev = emit_loop cfg pos max_cap cancel emit reads (suc n) (events ++ (ev ∷ []))

      one_more :
          (ev : Event)
          → Owed (length reads) (suc n) (Later ev)
          → Owed (suc (length reads)) n (Later ev)
      one_more ev p = record {
        counted = p.counted;
        numbered = p.numbered;
        complete = λ e. p.complete e ∙ omega arith;
      }

      by_emit :
          (ev : Event)
          → Owed (length reads) (suc n) (Later ev)
          → (o : Option ℕ)
          → Owed (suc (length reads)) n (elim o [
            | some e ↦ record { count = n; outcome = refused e; events = events }
            | none ↦ Later ev
          ])
      by_emit ev later none = one_more ev later
      by_emit ev later (some e) = halt (refused e) (λ x. cc)

      by_array :
          (r : Result RespError (List Bytes))
          → ((ev : Event)
              → ev.source.seq ≡ n + 1
              → ev.source.filenum ≡ pos.filenum
              → ev.source.offset ≡ pos.offset
              → Owed (length reads) (suc n) (Later ev))
          → Owed (suc (length reads)) n (elim r [
            | err e ↦ record { count = n; outcome = malformed rec.key; events = events }
            | panic ↦ record { count = n; outcome = crashed; events = events }
            | ok [] ↦ record { count = n; outcome = malformed rec.key; events = events }
            | ok (cmd ∷ argv) ↦ elim (emit (dump_event cfg pos n rec cmd (cmd ∷ argv))) [
              | some e ↦ record { count = n; outcome = refused e; events = events }
              | none ↦ Later (dump_event cfg pos n rec cmd (cmd ∷ argv))
            ]
          ])
      by_array (err e) later = halt (malformed rec.key) (λ x. cc)
      by_array panic later = halt crashed (λ x. cc)
      by_array (ok []) later = halt (malformed rec.key) (λ x. cc)
      by_array (ok (cmd ∷ argv)) later =
          by_emit (dump_event cfg pos n rec cmd (cmd ∷ argv))
            (later (dump_event cfg pos n rec cmd (cmd ∷ argv)) refl refl refl)
            (emit (dump_event cfg pos n rec cmd (cmd ∷ argv)))

  -- However a pass ends, the events that `emit` took are as many as the count it returns, carry the ordinals from one on and the
  -- anchor as their position; a pass that finishes has emitted an event for every record.
  pub emit_dump-Numbered :
      (reads : List Reading)
      → let p = emit_dump cfg pos max_cap cancel emit reads in
        (length p.events ≡ p.count)
        × (Numbered pos 0 p.events × (p.outcome ≡ finished → p.count ≡ length reads))
  unfolding emit_dump
  emit_dump-Numbered reads =
      let p = emit_loop-IsPass reads 0 [] refl tt in
      (p.counted, (p.numbered, λ e. p.complete e ∙ omega arith))
