-- ===== src/Ring/Prefix.antt =====
-- `Advance` consumes exactly the longest contiguous prefix of successful ordinals.
use pikawire.Prelude.{
  ℕ, zero, suc, ◌+◌, ◌-◌, ◌≤◌, ◌<◌, ◌≡◌, refl, sym, ◌∙◌, ◌⊎◌, inl, inr, true, false, Option, none,
  some, ltb, ◌||◌, arith, Bool-cases,
}
use pikawire.Position.{Position, zero_position, is_zero}
use pikawire.Ring.{RingItem, SeqRing, Progress, put_item, consume_item, advance_loop, advance}

-- Results are recorded only for ordinals that were handed out, and the base has not passed them.
pub record IsRing (r : SeqRing) : Type 0 where
  pub base_le : r.base ≤ r.next_ordinal
  pub handed_out : (n : ℕ) (it : RingItem) → r.items n ≡ some it → n < r.next_ordinal

-- The delivery of ordinal `n` succeeded.
abbrev pub Acked : SeqRing → ℕ → Type 0
Acked r n = (it : RingItem) × (r.items n ≡ some it) × (it.failure ≡ none)

-- The prefix ends at `n`: there is no result yet, or it is a failure, which is what is reported.
abbrev pub StopsAt : SeqRing → ℕ → Option ℕ → Type 0
StopsAt r n e =
    ((r.items n ≡ none) × (e ≡ none))
    ⊎ ((it : RingItem) × (r.items n ≡ some it) × (x : ℕ) × (it.failure ≡ some x) × (e ≡ some x))

-- Whatever is recorded for ordinal `n` carries no position.
abbrev pub NoPos : SeqRing → ℕ → Type 0
NoPos r n = (it : RingItem) → r.items n ≡ some it → is_zero it.pos ≡ true

-- `pos` is the position of the last ordinal from `from` up to `to` that carries one.
abbrev pub LastPos : SeqRing → ℕ → ℕ → Position → Type 0
LastPos r from to pos =
    (n : ℕ) × (from ≤ n)
    × (n < to)
    × ((it : RingItem) × (r.items n ≡ some it) × (it.pos ≡ pos) × (is_zero pos ≡ false))
    × ((m : ℕ) → n < m → m < to → NoPos r m)

-- What the loop of `Advance` does from `p` to `q`.
pub record Consumes (p q : Progress) : Type 0 where
  pub forward : p.ring.base ≤ q.ring.base
  pub acked : (n : ℕ) → p.ring.base ≤ n → n < q.ring.base → Acked p.ring n
  pub stops : StopsAt p.ring q.ring.base q.first_err
  pub counted : q.ring.consumed + p.ring.base ≡ p.ring.consumed + q.ring.base
  pub deleted : (n : ℕ) → p.ring.base ≤ n → n < q.ring.base → q.ring.items n ≡ none
  pub below : (n : ℕ) → n < p.ring.base → q.ring.items n ≡ p.ring.items n
  pub kept : (n : ℕ) → q.ring.base ≤ n → q.ring.items n ≡ p.ring.items n
  pub handed : q.ring.next_ordinal ≡ p.ring.next_ordinal
  pub reports : q.advanced ≡ (ltb p.ring.base q.ring.base || p.advanced)
  pub position :
      ((q.last_pos ≡ p.last_pos) × ((n : ℕ) → p.ring.base ≤ n → n < q.ring.base → NoPos p.ring n))
      ⊎ LastPos p.ring p.ring.base q.ring.base q.last_pos

put_item_ne :
    (items : ℕ → Option RingItem) (n k : ℕ) (it : Option RingItem)
    → n < k
    → put_item items n it k ≡ items k
put_item_ne items n k it h = ground arith

put_item_below :
    (items : ℕ → Option RingItem) (n k : ℕ) (it : Option RingItem)
    → k < n
    → put_item items n it k ≡ items k
put_item_below items n k it h = ground arith

put_item_self :
    (items : ℕ → Option RingItem) (n : ℕ) (it : Option RingItem) → put_item items n it n ≡ it
put_item_self items n it = ground arith

-- The loop ends at once where the next ordinal has no result or a failure.
stopped :
    (p : Progress) (e : Option ℕ)
    → StopsAt p.ring p.ring.base e
    → Consumes p (record p { first_err = e })
stopped p e stop = record {
  forward = omega arith;
  acked = λ n lo hi. absurd (omega arith);
  stops = stop;
  counted = omega arith;
  deleted = λ n lo hi. absurd (omega arith);
  below = λ n lo. refl;
  kept = λ n lo. refl;
  handed = refl;
  reports = ground arith;
  position = inl (refl, λ n lo hi. absurd (omega arith));
}

pub first_or_later : (a n : ℕ) → a ≤ n → (a ≡ n) ⊎ (a < n)
first_or_later a n h = ground arith

-- One successful ordinal in front of what the rest of the loop consumes.
module _ (p q : Progress) (it : RingItem) (found : p.ring.items p.ring.base ≡ some it)
    (good : it.failure ≡ none) (c : Consumes (consume_item p it) q) where
  abbrev items : ℕ → Option RingItem
  items = p.ring.items

  above : (n : ℕ) → p.ring.base < n → put_item items p.ring.base none n ≡ items n
  above n h = put_item_ne items p.ring.base n none h

  one_more-Acked : (n : ℕ) → p.ring.base ≤ n → n < q.ring.base → Acked p.ring n
  unfolding consume_item
  one_more-Acked n lo hi = elim (first_or_later p.ring.base n lo) [
    | inl e ↦ (it, rw (← e) found, good)
    | inr later ↦
        let (x, at, fine) = c.acked n (omega arith) hi in (x, sym (above n later) ∙ at, fine)
  ]

  one_more-stops : StopsAt p.ring q.ring.base q.first_err
  unfolding consume_item
  one_more-stops = elim c.stops [
    | inl (nothing, e) ↦ inl (sym (above q.ring.base (omega (arith, c.forward))) ∙ nothing, e)
    | inr (x, at, y, fails, e) ↦
        inr (x, sym (above q.ring.base (omega (arith, c.forward))) ∙ at, y, fails, e)
  ]

  one_more-deleted : (n : ℕ) → p.ring.base ≤ n → n < q.ring.base → q.ring.items n ≡ none
  unfolding consume_item
  one_more-deleted n lo hi = elim (first_or_later p.ring.base n lo) [
    | inl e ↦ c.below n (omega arith) ∙ rw (← e) (put_item_self items p.ring.base none)
    | inr later ↦ c.deleted n (omega arith) hi
  ]

  one_more-kept : (n : ℕ) → q.ring.base ≤ n → q.ring.items n ≡ items n
  unfolding consume_item
  one_more-kept n lo = c.kept n lo ∙ above n (omega (arith, c.forward))

  one_more-NoPos : (n : ℕ) → p.ring.base < n → NoPos (consume_item p it).ring n → NoPos p.ring n
  unfolding consume_item
  one_more-NoPos n h nopos x at = nopos x (above n h ∙ at)

  one_more-first : (n : ℕ) → p.ring.base ≡ n → is_zero it.pos ≡ true → NoPos p.ring n
  one_more-first n e zero_pos x at = cc (found, at, e, zero_pos)

  -- The first ordinal carries no position, or one that no later ordinal replaces, or is replaced.
  one_more-position :
      ((q.last_pos ≡ p.last_pos) × ((n : ℕ) → p.ring.base ≤ n → n < q.ring.base → NoPos p.ring n))
      ⊎ LastPos p.ring p.ring.base q.ring.base q.last_pos
  unfolding consume_item
  one_more-position = elim c.position [
    | inl (same, rest) ↦ elim (Bool-cases (is_zero it.pos)) [
      | inl zero_pos ↦ inl (
        same ∙ rw zero_pos,
        λ n lo hi. elim (first_or_later p.ring.base n lo) [
          | inl e ↦ one_more-first n e zero_pos
          | inr later ↦ one_more-NoPos n later (rest n (omega arith) hi)
        ],
      )
      | inr nonzero ↦ inr (
        p.ring.base,
        omega arith,
        omega (arith, c.forward),
        (it, found, sym (same ∙ rw nonzero), rw (same, nonzero) nonzero),
        λ m lo hi. one_more-NoPos m lo (rest m (omega arith) hi),
      )
    ]
    | inr (n, lo, hi, (x, at, here, nonzero), rest) ↦
        let over : p.ring.base < n = omega (arith, lo) in
        inr (
          n,
          omega arith,
          hi,
          (x, sym (above n over) ∙ at, here, nonzero),
          λ m l h. one_more-NoPos m (omega arith) (rest m l h),
        )
  ]

  one_more : Consumes p q
  unfolding consume_item
  one_more = record {
    forward = omega (arith, c.forward);
    acked = one_more-Acked;
    stops = one_more-stops;
    counted = omega (arith, c.counted);
    deleted = one_more-deleted;
    below = λ n lo. c.below n (omega arith) ∙ put_item_below items p.ring.base n none lo;
    kept = one_more-kept;
    handed = c.handed;
    reports = ground (arith, c.reports, c.forward);
    position = one_more-position;
  }

consume_item-IsRing :
    (p : Progress) (it : RingItem)
    → IsRing p.ring
    → p.ring.items p.ring.base ≡ some it
    → IsRing (consume_item p it).ring
unfolding consume_item
consume_item-IsRing p it w found = record {
  base_le = omega (arith, w.handed_out p.ring.base it found);
  handed_out = λ n x at. ground (arith, w.handed_out n x);
}

loop-Consumes :
    (fuel : ℕ) (p : Progress)
    → IsRing p.ring
    → p.first_err ≡ none
    → p.ring.next_ordinal < fuel + p.ring.base
    → Consumes p (advance_loop fuel p)
unfolding advance_loop consume_item
loop-Consumes zero p w clean enough = absurd (omega (arith, w.base_le))
loop-Consumes (suc fuel) p w clean enough = by_item (p.ring.items p.ring.base) refl (λ it found.
    loop-Consumes fuel (consume_item p it) (consume_item-IsRing p it w found) clean (omega arith))
  where
    by_failure :
        (it : RingItem) (f : Option ℕ)
        → p.ring.items p.ring.base ≡ some it
        → it.failure ≡ f
        → Consumes (consume_item p it) (advance_loop fuel (consume_item p it))
        → Consumes p (elim f [
          | some e ↦ record p { first_err = some e }
          | none ↦ advance_loop fuel (consume_item p it)
        ])
    by_failure it (some e) found fails rest = stopped p (some e) (inr (it, found, e, fails, refl))
    by_failure it none found good rest = one_more p _ it found good rest

    by_item :
        (o : Option RingItem)
        → p.ring.items p.ring.base ≡ o
        → ((it : RingItem)
            → p.ring.items p.ring.base ≡ some it
            → Consumes (consume_item p it) (advance_loop fuel (consume_item p it)))
        → Consumes p (elim o [
          | none ↦ p
          | some it ↦ elim it.failure [
            | some e ↦ record p { first_err = some e }
            | none ↦ advance_loop fuel (consume_item p it)
          ]
        ])
    by_item none nothing rest = stopped p p.first_err (inl (nothing, clean))
    by_item (some it) found rest = by_failure it it.failure found refl (rest it found)

abbrev pub begin : SeqRing → Progress
begin r = record { ring = r; last_pos = zero_position; first_err = none; advanced = false }

-- On a well-formed ring `Advance` consumes the longest run of ordinals from the base whose deliveries
-- succeeded: every consumed ordinal was acknowledged, and the next one has no result or is the
-- failure that is reported. The consumed results are deleted and all others kept, the counters and
-- the `advanced` flag tell how far it went, and the position is that of the last consumed ordinal
-- that carries one, or zero if none does.
pub advance_prefix : (r : SeqRing) → IsRing r → Consumes (begin r) (advance r)
unfolding advance
advance_prefix r w = loop-Consumes (r.next_ordinal - r.base + 1) _ w refl (omega (arith, w.base_le))
