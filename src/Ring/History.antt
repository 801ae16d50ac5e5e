-- ===== src/Ring/History.antt =====
-- The ring under any sequence of calls: what the checkpoint can conclude from the base.
use pikawire.Prelude.{
  ℕ, ◌-◌, ◌≤◌, ◌<◌, ◌≡◌, refl, sym, ◌∙◌, ◌⊎◌, inl, inr, Bool, true, false, Option, none, some, List,
  [], ◌∷◌, ◌==◌, arith, Bool-cases, ltb, ltb→lt, ==_iff, if◌then◌else◌,
}
use pikawire.Position.{Position}
use pikawire.Ring.{RingItem, SeqRing, new_ring, claim, finish, advance, close_ring, put_item}
use pikawire.Ring.Prefix.{IsRing, Consumes, advance_prefix, begin, first_or_later}

abbrev pub In : ℕ → List ℕ → Type 0
In n [] = ⊥
In n (m ∷ ms) = (n ≡ m) ⊎ In n ms

-- The calls that the emitters and the notifier make, in any order. `Done` is called with an ordinal
-- that `Next` returned; the list collects the ordinals that were reported without an error.
pub data Reach : SeqRing → List ℕ → Type 0 where
  start : Reach new_ring []
  next : {r : SeqRing} {acks : List ℕ} → Reach r acks → Reach (claim r).0 acks
  succeed :
      {r : SeqRing} {acks : List ℕ} (n : ℕ) (pos : Position)
      → Reach r acks
      → n < r.next_ordinal
      → Reach (finish r n pos none) (n ∷ acks)
  fail :
      {r : SeqRing} {acks : List ℕ} (n : ℕ) (pos : Position) (e : ℕ)
      → Reach r acks
      → n < r.next_ordinal
      → Reach (finish r n pos (some e)) acks
  collect : {r : SeqRing} {acks : List ℕ} → Reach r acks → Reach (advance r).ring acks
  close : {r : SeqRing} {acks : List ℕ} → Reach r acks → Reach (close_ring r) acks

record Holds (r : SeqRing) (acks : List ℕ) : Type 0 where
  well : IsRing r
  counted : r.consumed ≡ r.base
  past : (n : ℕ) → n < r.base → In n acks
  waiting : (n : ℕ) (it : RingItem) → r.items n ≡ some it → it.failure ≡ none → In n acks

start-Holds : Holds new_ring []
unfolding new_ring
start-Holds = record {
  well = record { base_le = omega arith; handed_out = λ n it at. absurd (cc) };
  counted = refl;
  past = λ n h. absurd (omega arith);
  waiting = λ n it at good. absurd (cc);
}

next-Holds : (r : SeqRing) (acks : List ℕ) → Holds r acks → Holds (claim r).0 acks
unfolding claim
next-Holds r acks v = record {
  well = record {
    base_le = omega (arith, v.well.base_le);
    handed_out = λ n it at. omega (arith, v.well.handed_out n it at);
  };
  counted = v.counted;
  past = v.past;
  waiting = v.waiting;
}

finish-Holds :
    (r : SeqRing) (acks more : List ℕ) (n : ℕ) (pos : Position) (f : Option ℕ)
    → ((k : ℕ) → In k acks → In k more)
    → (f ≡ none → In n more)
    → n < r.next_ordinal
    → Holds r acks
    → Holds (finish r n pos f) more
unfolding finish
finish-Holds r acks more n pos f wider new_ack handed v = by_closed r.closed refl
  where
    stored : ℕ → Option RingItem
    stored = put_item r.items n (some (record { pos = pos; failure = f }))

    known :
        (k : ℕ) (it : RingItem)
        → stored k ≡ some it
        → (k < r.next_ordinal) × (it.failure ≡ none → In k more)
    known k it at = elim (Bool-cases (k == n)) [
      | inl same ↦
          let e : k ≡ n = (==_iff k n).0 same in
          let hit : some (record { pos = pos; failure = f }) ≡ some it = rw same at at in
          (omega (arith, e), λ good. rw e (new_ack (ground arith)))
      | inr other ↦
          let hit : r.items k ≡ some it = rw other at at in
          (v.well.handed_out k it hit, λ good. wider k (v.waiting k it hit good))
    ]

    by_closed :
        (b : Bool) → r.closed ≡ b → Holds (if b then r else record r { items = stored }) more
    by_closed true _ = record {
      well = v.well;
      counted = v.counted;
      past = λ k h. wider k (v.past k h);
      waiting = λ k it at good. wider k (v.waiting k it at good);
    }
    by_closed false _ = record {
      well = record { base_le = v.well.base_le; handed_out = λ k it at. (known k it at).0 };
      counted = v.counted;
      past = λ k h. wider k (v.past k h);
      waiting = λ k it at. (known k it at).1;
    }

module _ (r : SeqRing) (acks : List ℕ) (v : Holds r acks) where
  consumes : Consumes (begin r) (advance r)
  consumes = advance_prefix r v.well

  -- The results that are left are old ones.
  left_over : (n : ℕ) (it : RingItem) → (advance r).ring.items n ≡ some it → r.items n ≡ some it
  left_over n it at = elim (Bool-cases (ltb n r.base)) [
    | inl low ↦ sym (consumes.below n (ltb→lt _ _ low)) ∙ at
    | inr high ↦ elim (Bool-cases (ltb n (advance r).ring.base)) [
      | inl taken ↦ cc (consumes.deleted n (ground arith) (ltb→lt _ _ taken))
      | inr beyond ↦ sym (consumes.kept n (ground arith)) ∙ at
    ]
  ]

  collect-base : (advance r).ring.base ≤ r.next_ordinal
  collect-base = elim (first_or_later r.base (advance r).ring.base consumes.forward) [
    | inl e ↦ omega (arith, v.well.base_le)
    | inr later ↦
        let last = (advance r).ring.base - 1 in
        let (x, at, _) = consumes.acked last (omega arith) (omega arith) in
        omega (arith, v.well.handed_out last x at)
  ]

  collect-past : (n : ℕ) → n < (advance r).ring.base → In n acks
  collect-past n h = elim (Bool-cases (ltb n r.base)) [
    | inl old ↦ v.past n (ltb→lt _ _ old)
    | inr new ↦ let (x, at, good) = consumes.acked n (ground arith) h in v.waiting n x at good
  ]

  collect-Holds : Holds (advance r).ring acks
  collect-Holds = record {
    well = record {
      base_le = omega (arith, collect-base, consumes.handed);
      handed_out =
          λ n it at. omega (arith, v.well.handed_out n it (left_over n it at), consumes.handed);
    };
    counted = omega (arith, consumes.counted, v.counted);
    past = collect-past;
    waiting = λ n it at. v.waiting n it (left_over n it at);
  }

close-Holds : (r : SeqRing) (acks : List ℕ) → Holds r acks → Holds (close_ring r) acks
unfolding close_ring
close-Holds r acks v = record {
  well = record { base_le = v.well.base_le; handed_out = v.well.handed_out };
  counted = v.counted;
  past = v.past;
  waiting = v.waiting;
}

Reach-Holds : {r : SeqRing} {acks : List ℕ} → Reach r acks → Holds r acks
Reach-Holds start = start-Holds
Reach-Holds (next {r = r} {acks = acks} h) = next-Holds r acks (Reach-Holds h)
Reach-Holds (succeed {r = r} {acks = acks} n pos h lt) =
    finish-Holds r acks (n ∷ acks) n pos none (λ k m. inr m) (λ _. inl refl) lt (Reach-Holds h)
Reach-Holds (fail {r = r} {acks = acks} n pos e h lt) =
    finish-Holds r acks acks n pos (some e) (λ k m. m) (λ bad. cc) lt (Reach-Holds h)
Reach-Holds (collect {r = r} {acks = acks} h) = collect-Holds r acks (Reach-Holds h)
Reach-Holds (close {r = r} {acks = acks} h) = close-Holds r acks (Reach-Holds h)

-- Any sequence of calls leads to a well-formed ring.
pub Reach-IsRing : {r : SeqRing} {acks : List ℕ} → Reach r acks → IsRing r
Reach-IsRing h = (Reach-Holds h).well

-- Whatever the order in which emitters and notifier call the ring, every ordinal below the base was
-- reported delivered without an error, the base never passes the ordinals handed out, and the number
-- of consumed ordinals is the base: the checkpoint skips no undelivered event.
pub base_delivered :
    {r : SeqRing} {acks : List ℕ}
    → Reach r acks
    → ((n : ℕ) → n < r.base → In n acks) × (r.base ≤ r.next_ordinal) × (r.consumed ≡ r.base)
base_delivered h = let v = Reach-Holds h in (v.past, v.well.base_le, v.counted)
