-- ===== src/Ring.antt =====
-- The sequence ring of the asynchronous sinks: internal/sink/ring.go. An error is a number; the
-- mutex makes every method one step.
pub mod Prefix
pub mod History
use pikawire.Prelude.{
  ℕ, zero, suc, ◌+◌, ◌-◌, Bool, true, false, Option, none, some, ◌==◌, if◌then◌else◌,
}
use pikawire.Position.{Position, zero_position, is_zero}

-- Its field `done` is true in every item that the code stores, and nothing reads it.
pub record RingItem : Type 0 where
  pub pos : Position
  pub failure : Option ℕ

-- The ordinals are uint64 counters from 0; `items` is the map from ordinals to results.
pub record SeqRing : Type 0 where
  pub next_ordinal : ℕ
  pub base : ℕ
  pub consumed : ℕ
  pub items : ℕ → Option RingItem
  pub closed : Bool

unfoldable pub new_ring : SeqRing
new_ring = record { next_ordinal = 0; base = 0; consumed = 0; items = λ _. none; closed = false }

-- `Next`
unfoldable pub claim : SeqRing → SeqRing × ℕ
claim r = (record r { next_ordinal = r.next_ordinal + 1 }, r.next_ordinal)

abbrev pub put_item : (ℕ → Option RingItem) → ℕ → Option RingItem → ℕ → Option RingItem
put_item items n it k = if k == n then it else items k

-- `Done`
unfoldable pub finish : SeqRing → ℕ → Position → Option ℕ → SeqRing
finish r n pos failure =
    if r.closed
    then r
    else record r { items = put_item r.items n (some (record { pos = pos; failure = failure })) }

-- What the loop of `Advance` carries beside the ring.
pub record Progress : Type 0 where
  pub ring : SeqRing
  pub last_pos : Position
  pub first_err : Option ℕ
  pub advanced : Bool

-- One consumed item: `delete`, the two counters, and the position if it is not zero.
unfoldable pub consume_item : Progress → RingItem → Progress
consume_item p it = record p {
  ring = record p.ring {
    items = put_item p.ring.items p.ring.base none;
    base = p.ring.base + 1;
    consumed = p.ring.consumed + 1;
  };
  last_pos = if is_zero it.pos then p.last_pos else it.pos;
  advanced = true;
}

-- The `for` loop. It takes an item off the map in every round but the last, so the number of
-- ordinals that were handed out and not consumed, plus one, is fuel enough.
unfoldable pub advance_loop : ℕ → Progress → Progress
advance_loop zero p = p
advance_loop (suc fuel) p = elim (p.ring.items p.ring.base) [
  | none ↦ p
  | some it ↦ elim it.failure [
    | some e ↦ record p { first_err = some e }
    | none ↦ advance_loop fuel (consume_item p it)
  ]
]

-- `Advance`: the position is zero if no item of the prefix had one.
unfoldable pub advance : SeqRing → Progress
unfolding advance_loop
advance r =
    advance_loop (r.next_ordinal - r.base + 1)
      (record { ring = r; last_pos = zero_position; first_err = none; advanced = false })

-- `Close`
unfoldable pub close_ring : SeqRing → SeqRing
close_ring r = record r { closed = true }
