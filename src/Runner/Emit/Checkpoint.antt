-- ===== src/Runner/Emit/Checkpoint.antt =====
-- The checkpoint never runs ahead of the sink, in memory and on disk.
use pikawire.Prelude.{
  ℕ, ◌+◌, ◌%◌, ◌≡◌, refl, sym, ap, ◌∙◌, ◌⊎◌, inl, inr, Bool, true, false, ◌&&◌, not, some, List, [],
  ◌∷◌, ◌++◌, ◌==◌, if◌then◌else◌, if_both, ltb, leb, ◌||◌,
}
use pikawire.Position.{Position, is_zero}
use pikawire.Store.{Store, State, Json, Found, content, Fault, set_delivered}
use pikawire.Store.Checkpoint.{deliver_all}
use pikawire.Store.Durable.{flush-Atomic}
use pikawire.Runner.{Outgoing}
use pikawire.Runner.Emit.{Emitter, note_delivered, flush_checkpoint, mark_emitted, emit_loop}

-- The events up to the first that the sink refuses.
abbrev pub accepted : (Outgoing → Bool) → List Outgoing → List Outgoing
accepted accepts [] = []
accepted accepts (o ∷ os) = elim (accepts o) [ true ↦ o ∷ accepted accepts os | false ↦ [] ]

-- The positions that they carry.
abbrev pub positions : List Outgoing → List Position
positions [] = []
positions (o ∷ os) = elim (is_zero o.pos) [ true ↦ positions os | false ↦ o.pos ∷ positions os ]

-- The checkpoint in memory behind the deliveries of `os`.
abbrev pub reached : Store → List Outgoing → State
reached s os = (deliver_all s (positions os)).state

set_delivered-state :
    (s t : Store) (filenum offset : ℕ)
    → s.state ≡ t.state
    → (set_delivered s filenum offset).state ≡ (set_delivered t filenum offset).state
unfolding set_delivered
set_delivered-state s t filenum offset e = of_state s ∙ ap next_state e ∙ sym (of_state t)
  where
    passed : State → Bool
    passed st =
        st.has_pos && (ltb filenum st.filenum || (filenum == st.filenum && leb offset st.offset))

    next_state : State → State
    next_state st =
        if passed st then st else record st { filenum = filenum; offset = offset; has_pos = true }

    by_test :
        (b : Bool) (u : Store)
        → let x : Store = if b then u else record {
          state = record u.state { filenum = filenum; offset = offset; has_pos = true };
          dirty = true;
        } in
          x.state ≡ (
            if b
            then u.state
            else record u.state { filenum = filenum; offset = offset; has_pos = true })
    by_test true u = refl
    by_test false u = refl

    of_state : (u : Store) → (set_delivered u filenum offset).state ≡ next_state u.state
    of_state u = by_test (passed u.state) u

deliver_all-state :
    (ps : List Position) (s t : Store)
    → s.state ≡ t.state
    → (deliver_all s ps).state ≡ (deliver_all t ps).state
deliver_all-state [] s t e = e
deliver_all-state (p ∷ ps) s t e =
    deliver_all-state ps (set_delivered s p.filenum p.offset) (set_delivered t p.filenum p.offset)
      (set_delivered-state s t p.filenum p.offset e)

-- The checkpoint file holds the state behind some of the deliveries, those at the front.
abbrev pub Reflects : (json : Json) → Store → List Outgoing → Found json.Text → Type 0
Reflects json s os file =
    (front : List Outgoing) × (back : List Outgoing) × (os ≡ front ++ back)
    × (b : json.Text) × (json.marshal (reached s front) ≡ some b)
    × (file ≡ content b)

module _ (json : Json) (part : Found json.Text) (fault : ℕ → Fault)
    (accepts : Outgoing → Bool) where
  noted-state :
      (e : Emitter json.Text) (o : Outgoing)
      → ((note_delivered json false part fault accepts e o).store.state ≡ reached e.store (o ∷ []))
        × ((note_delivered json false part fault accepts e o).disk ≡ e.disk)
  unfolding note_delivered
  noted-state e o = by_zero (is_zero o.pos)
    where
      by_zero :
          (z : Bool)
          → let t : Emitter json.Text =
              if not z && true
              then record e {
                store = set_delivered e.store o.pos.filenum o.pos.offset;
                delivered = o.pos;
                has_del = true;
                delivered_cnt = e.delivered_cnt + 1;
              }
              else record e { delivered_cnt = e.delivered_cnt + 1 } in
            (t.store.state
              ≡ (deliver_all e.store (elim z [ true ↦ [] | false ↦ o.pos ∷ [] ])).state)
            × (t.disk ≡ e.disk)
      by_zero true = (refl, refl)
      by_zero false = (refl, refl)

  abbrev Marked : Emitter json.Text → Outgoing → Emitter json.Text → Type 0
  Marked e o t =
      (t.store.state ≡ reached e.store (o ∷ []))
      × ((t.disk.main ≡ e.disk.main)
          ⊎ ((b : json.Text) × (json.marshal (reached e.store (o ∷ [])) ≡ some b)
              × (t.disk.main ≡ content b)))

  mark_emitted-Marked :
      (e : Emitter json.Text) (o : Outgoing)
      → Marked e o (mark_emitted json false part fault accepts e o)
  unfolding mark_emitted flush_checkpoint
  mark_emitted-Marked e o =
      if_both (Marked e o) (not o.is_ping && e.delivered_cnt % 200 == 0) _ _
        (λ _.
          let (kept, file, _, _) =
            flush-Atomic json part (fault e.delivered_cnt) noted.store noted.disk in
          (
            kept ∙ same.0,
            elim file [
              | inl old ↦ inl (old ∙ ap (λ x. x.main) same.1)
              | inr (b, text, is) ↦ inr (b, ap json.marshal (sym same.0) ∙ text, is)
            ],
          ))
        (λ _. (same.0, inl (ap (λ x. x.main) same.1)))
    where
      noted : Emitter json.Text
      noted = note_delivered json false part fault accepts e o

      same : (noted.store.state ≡ reached e.store (o ∷ [])) × (noted.disk ≡ e.disk)
      same = noted-state e o

  -- One more delivery in front.
  reached-cons :
      (e t : Emitter json.Text) (o : Outgoing) (os : List Outgoing)
      → t.store.state ≡ reached e.store (o ∷ [])
      → reached t.store os ≡ reached e.store (o ∷ os)
  reached-cons e t o os same = by_zero (is_zero o.pos) same
    where
      by_zero :
          (z : Bool)
          → t.store.state ≡ (deliver_all e.store (elim z [ true ↦ [] | false ↦ o.pos ∷ [] ])).state
          → reached t.store os
            ≡ (deliver_all e.store
                (elim z [ true ↦ positions os | false ↦ o.pos ∷ positions os ])).state
      by_zero true same = deliver_all-state (positions os) t.store e.store same
      by_zero false same =
          deliver_all-state (positions os) t.store
            (set_delivered e.store o.pos.filenum o.pos.offset) same

  -- With a sink that confirms each event in `Emit`: behind the emit loop the checkpoint in memory is
  -- that of the deliveries of the accepted events, in order, and the checkpoint file is the old one
  -- or holds the state behind the deliveries of some of them at the front, whichever flushes failed.
  -- An event that the sink has not accepted is in neither.
  pub emit_loop_checkpoint :
      (os : List Outgoing) (e : Emitter json.Text)
      → let t = emit_loop json false part fault accepts e os in
        (t.store.state ≡ reached e.store (accepted accepts os))
        × ((t.disk.main ≡ e.disk.main) ⊎ Reflects json e.store (accepted accepts os) t.disk.main)
  unfolding emit_loop
  emit_loop_checkpoint [] e = (refl, inl refl)
  emit_loop_checkpoint (o ∷ os) e =
      by_sink (accepts o) (emit_loop_checkpoint os (mark_emitted json false part fault accepts e o))
    where
      next_e : Emitter json.Text
      next_e = mark_emitted json false part fault accepts e o

      mark : Marked e o next_e
      mark = mark_emitted-Marked e o

      shift :
          (file : Found json.Text)
          → (file ≡ next_e.disk.main) ⊎ Reflects json next_e.store (accepted accepts os) file
          → (file ≡ e.disk.main) ⊎ Reflects json e.store (o ∷ accepted accepts os) file
      shift file (inl old) = elim mark.1 [
        | inl older ↦ inl (old ∙ older)
        | inr (b, text, is) ↦ inr (o ∷ [], accepted accepts os, refl, b, text, old ∙ is)
      ]
      shift file (inr (front, back, split, b, text, is)) = inr (
        o ∷ front,
        back,
        ap (λ l. o ∷ l) split,
        b,
        ap json.marshal (sym (reached-cons e next_e o front mark.0)) ∙ text,
        is,
      )

      by_sink :
          (takes : Bool)
          → (let t = emit_loop json false part fault accepts next_e os in
              (t.store.state ≡ reached next_e.store (accepted accepts os))
              × ((t.disk.main ≡ next_e.disk.main)
                  ⊎ Reflects json next_e.store (accepted accepts os) t.disk.main))
          → let t : Emitter json.Text = elim takes [
            | true ↦ emit_loop json false part fault accepts next_e os
            | false ↦ record e { sink_failed = true }
          ] in
            let all : List Outgoing = elim takes [ true ↦ o ∷ accepted accepts os | false ↦ [] ] in
            (t.store.state ≡ reached e.store all)
            × ((t.disk.main ≡ e.disk.main) ⊎ Reflects json e.store all t.disk.main)
      by_sink true (state, file) =
          (state ∙ reached-cons e next_e o (accepted accepts os) mark.0, shift _ file)
      by_sink false ih = (refl, inl refl)
