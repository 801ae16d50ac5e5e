-- ===== src/Store/Checkpoint.antt =====
-- `SetDelivered` over any run of deliveries.
use pikawire.Prelude.{◌≡◌, refl, ap, ◌∙◌, ◌⊎◌, inl, inr, true, false, List, [], ◌∷◌, All, arith}
use pikawire.Position.{Position, after}
use pikawire.Store.{Store, set_delivered}

abbrev pub delivered : Store → Position
delivered s = record { filenum = s.state.filenum; offset = s.state.offset }

-- The calls of `SetDelivered` for a list of positions, first to last.
abbrev pub deliver_all : Store → List Position → Store
deliver_all s [] = s
deliver_all s (p ∷ ps) = deliver_all (set_delivered s p.filenum p.offset) ps

-- The position stands in the list.
abbrev pub OneOf : Position → List Position → Type 0
OneOf p [] = ⊥
OneOf p (q ∷ qs) = (p ≡ q) ⊎ OneOf p qs

-- What every later state owes to an earlier one: the position only moves forward and is never unset.
abbrev pub NotBefore : Store → Store → Type 0
NotBefore s t =
    s.state.has_pos ≡ true → (t.state.has_pos ≡ true) × (after (delivered s) (delivered t) ≡ false)

one_call :
    (s : Store) (p : Position)
    → let t = set_delivered s p.filenum p.offset in
      (t.state.has_pos ≡ true) × (after p (delivered t) ≡ false) × ((delivered t ≡ p) ⊎ (t ≡ s))
unfolding set_delivered after
one_call s p = ground arith

one_call-NotBefore : (s : Store) (p : Position) → NotBefore s (set_delivered s p.filenum p.offset)
unfolding set_delivered after
one_call-NotBefore s p h = ground arith

not_after_trans : (a b c : Position) → after a b ≡ false → after b c ≡ false → after a c ≡ false
unfolding after
not_after_trans a b c h k = ground arith

deliver_all-NotBefore : (ps : List Position) (s : Store) → NotBefore s (deliver_all s ps)
unfolding after
deliver_all-NotBefore [] s h = (h, ground arith)
deliver_all-NotBefore (p ∷ ps) s h =
    let (has, kept) = one_call-NotBefore s p h in
    let (has', kept') = deliver_all-NotBefore ps (set_delivered s p.filenum p.offset) has in
    let t = set_delivered s p.filenum p.offset in
    (has', not_after_trans (delivered s) (delivered t) (delivered (deliver_all t ps)) kept kept')

deliver_all_upper :
    (ps : List Position) (s : Store) → All (λ p. after p (delivered (deliver_all s ps)) ≡ false) ps
deliver_all_upper [] s = tt
deliver_all_upper (p ∷ ps) s =
    let t = set_delivered s p.filenum p.offset in
    let (has, top, _) = one_call s p in
    let last = delivered (deliver_all t ps) in
    (
      not_after_trans p (delivered t) last top (deliver_all-NotBefore ps t has).1,
      deliver_all_upper ps t,
    )

deliver_all_attained :
    (ps : List Position) (s : Store)
    → OneOf (delivered (deliver_all s ps)) ps ⊎ (deliver_all s ps ≡ s)
deliver_all_attained [] s = inr refl
deliver_all_attained (p ∷ ps) s =
    elim (deliver_all_attained ps (set_delivered s p.filenum p.offset)) [
      | inl in_rest ↦ inl (inr in_rest)
      | inr same ↦ elim (one_call s p).2 [
        | inl e ↦ inl (inl (ap delivered same ∙ e))
        | inr e ↦ inr (same ∙ e)
      ]
    ]

-- After any run of deliveries the checkpoint is the latest of them: no delivered position is after
-- it, it is one of them unless the run left the whole store as it was, and where a position was
-- stored before, that one is not after it either and the store still has one.
pub deliver_all_latest :
    (ps : List Position) (s : Store)
    → let t = deliver_all s ps in
      All (λ p. after p (delivered t) ≡ false) ps
      × (OneOf (delivered t) ps ⊎ (t ≡ s))
      × NotBefore s t
deliver_all_latest ps s =
    (deliver_all_upper ps s, deliver_all_attained ps s, deliver_all-NotBefore ps s)
