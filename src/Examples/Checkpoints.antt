-- ===== src/Examples/Checkpoints.antt =====
-- Positions, the gate, the store, the ring and the end of the Kafka sink at concrete inputs.
use pikawire.Prelude.{
  ℕ, ◌≡◌, ◌<◌, ◌≤◌, ◌⊎◌, true, false, not, none, some, List, [], ◌∷◌, All, arith,
}
use pikawire.Position.{Position, after}
use pikawire.Gate.{new_gate_ctl, request_open_at, release_gate, drops, should_emit_now}
use pikawire.Gate.Handoff.{handoff}
use pikawire.Store.{
  Store, State, Json, missing, Disk, rename_fault, initial_state, flush, phase_done,
}
use pikawire.Store.Checkpoint.{deliver_all, delivered, OneOf, NotBefore, deliver_all_latest}
use pikawire.Store.Durable.{flush-Atomic, Atomic}
use pikawire.Kafka.Producer.{KafkaSink, fresh_sink}
use pikawire.Ring.{SeqRing, new_ring, claim, finish, advance}
use pikawire.Ring.Prefix.{Consumes, begin, advance_prefix}
use pikawire.Ring.History.{
  Reach, start, next, succeed, fail, collect, In, base_delivered, Reach-IsRing,
}

abbrev early : Position
early = record { filenum = 3; offset = 100 }

abbrev late : Position
late = record { filenum = 4; offset = 7 }

handoff_example :
    let set = request_open_at new_gate_ctl early in
    ((drops new_gate_ctl late ≡ false) × (should_emit_now new_gate_ctl late ≡ false))
    × ((drops set late ≡ not (after late early)) × (should_emit_now set late ≡ false))
    × ((drops (release_gate set) late ≡ not (after late early))
        × (should_emit_now (release_gate set) late ≡ after late early))
handoff_example = handoff early late

abbrev stored : State
stored = record (initial_state (b'a' ∷ [])) {
  filenum = 3;
  offset = 100;
  has_pos = true;
  snapshot = phase_done;
}

abbrev dirty_store : Store
dirty_store = record { state = stored; dirty = true }

abbrev run : List Position
run = late ∷ early ∷ []

deliver_all_latest_example :
    let t = deliver_all dirty_store run in
    All (λ p. after p (delivered t) ≡ false) run
    × (OneOf (delivered t) run ⊎ (t ≡ dirty_store))
    × NotBefore dirty_store t
deliver_all_latest_example = deliver_all_latest run dirty_store

-- A format that keeps the state as it is.
abbrev plain : Json
plain = record { Text = State; marshal = λ s. some s; unmarshal = λ i s. some s }

abbrev empty_disk : Disk State
empty_disk = record { main = missing; tmp = missing }

flush-Atomic_example :
    Atomic plain dirty_store empty_disk (flush plain missing rename_fault dirty_store empty_disk)
flush-Atomic_example = flush-Atomic plain missing rename_fault dirty_store empty_disk

-- Two ordinals are claimed; the first is delivered and the second fails.
abbrev two_claims : SeqRing
two_claims = (claim (claim new_ring).0).0

abbrev mixed : SeqRing
mixed = finish (finish two_claims 0 early none) 1 late (some 9)

two_claims-handed : (1 < two_claims.next_ordinal) × (0 < two_claims.next_ordinal)
unfolding new_ring claim
two_claims-handed = (omega arith, omega arith)

mixed-Reach : Reach mixed (0 ∷ [])
unfolding finish new_ring claim
mixed-Reach =
    fail 1 late 9 (succeed 0 early (next (next start)) two_claims-handed.1) two_claims-handed.0

advance_prefix_example : Consumes (begin mixed) (advance mixed)
advance_prefix_example = advance_prefix mixed (Reach-IsRing mixed-Reach)

base_delivered_example :
    let r = (advance mixed).ring in
    ((n : ℕ) → n < r.base → In n (0 ∷ [])) × (r.base ≤ r.next_ordinal) × (r.consumed ≡ r.base)
base_delivered_example = base_delivered (collect mixed-Reach)

-- A Kafka sink whose ring has a delivered and a failed message.
abbrev half_delivered : KafkaSink
half_delivered = record (fresh_sink 1 1 5 5) { ring = mixed }
