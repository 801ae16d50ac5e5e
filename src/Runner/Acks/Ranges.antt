-- ===== src/Runner/Acks/Ranges.antt =====
-- The ranges that are acked, by the entries that wait for an ack, and the attempts of `establish`.
use mathlib.Core.Path.{ap₂}
use pikawire.Prelude.{
  ℕ, suc, ◌≡◌, refl, sym, ap, ◌∙◌, Bool, true, false, not, ◌&&◌, ◌||◌, Option, some, List, [], ◌∷◌,
  ◌++◌, Result, ok, err, ◌==◌, if◌then◌else◌, arith,
}
use pikawire.Position.{Position, zero_position, is_zero}
use pikawire.Runner.{Runner, note_entry}
use pikawire.Runner.Acks.{
  AckRange, ping, maybe_ack_range, SyncReply, unreachable, purged, rejected, synced, SessionError,
  no_session, err_purged, bad_code, establish_loop, same_position,
}

-- What the receiver does: it notes an entry, or it acks, and the send succeeds or not.
pub data Move : Type 0 where
  receives : Position → Move
  acks : Bool → Move

-- The ranges that a sequence of moves sends.
unfoldable pub sent_ranges : List Move → Runner → List AckRange
sent_ranges [] r = []
sent_ranges (receives pos ∷ moves) r = sent_ranges moves (note_entry r pos)
sent_ranges (acks sent ∷ moves) r =
    let (t, range) = maybe_ack_range sent r in range ∷ sent_ranges moves t

abbrev pub last_of : Position → List Position → Position
last_of p [] = p
last_of p (q ∷ ps) = last_of q ps

-- The first and the last of the entries that no ack has covered yet.
abbrev pub range_of : List Position → AckRange
range_of [] = ping
range_of (p ∷ ps) = record { from = p; to = last_of p ps }

-- The entries that wait for an ack behind one more. One at the zero position does not begin a range.
abbrev pub behind : Position → List Position → List Position
behind pos [] = if is_zero pos then [] else pos ∷ []
behind pos (p ∷ ps) = p ∷ (ps ++ (pos ∷ []))

-- The ranges by the entries that wait for an ack.
unfoldable pub expected_ranges : List Move → List Position → List AckRange
expected_ranges [] waiting = []
expected_ranges (receives pos ∷ moves) waiting = expected_ranges moves (behind pos waiting)
expected_ranges (acks sent ∷ moves) waiting =
    range_of waiting ∷ expected_ranges moves (if sent then [] else waiting)

-- The runner's fields are the ends of what waits.
abbrev pub Holds : List Position → Runner → Type 0
Holds [] r = is_zero r.first_unacked ≡ true
Holds (p ∷ ps) r = (is_zero p ≡ false) × ((r.first_unacked ≡ p) × (r.last_pos ≡ last_of p ps))

last_of-snoc : (p q : Position) (ps : List Position) → last_of p (ps ++ (q ∷ [])) ≡ q
last_of-snoc p q [] = refl
last_of-snoc p q (x ∷ ps) = last_of-snoc x q ps

Holds-note_entry :
    (waiting : List Position) (r : Runner) (pos : Position)
    → Holds waiting r
    → Holds (behind pos waiting) (note_entry r pos)
unfolding note_entry
Holds-note_entry [] r pos h = by_zero (is_zero pos) refl
  where
    noted : Runner
    noted = note_entry r pos

    noted-first_unacked : noted.first_unacked ≡ pos
    noted-first_unacked = rw h refl

    by_zero : (b : Bool) → is_zero pos ≡ b → Holds (if b then [] else pos ∷ []) noted
    by_zero true z = ap is_zero noted-first_unacked ∙ z
    by_zero false z = (z, (noted-first_unacked, refl))
Holds-note_entry (p ∷ ps) r pos (pz, (f, l)) =
    let first : is_zero r.first_unacked ≡ false = ap is_zero f ∙ pz in
    (pz, (rw first f, sym (last_of-snoc p pos ps)))

ack_ping :
    (sent : Bool) (r : Runner) → is_zero r.first_unacked ≡ true → maybe_ack_range sent r ≡ (r, ping)
unfolding maybe_ack_range
ack_ping sent r h = rw h refl

ack_range :
    (sent : Bool) (r : Runner) (p q : Position)
    → is_zero p ≡ false
    → r.first_unacked ≡ p
    → r.last_pos ≡ q
    → (let answer : Runner × AckRange = (
      if sent then record r { first_unacked = zero_position } else r,
      record { from = p; to = q },
    ) in
        maybe_ack_range sent r ≡ answer)
unfolding maybe_ack_range
ack_range sent r p q pz f l =
    let e : is_zero r.first_unacked ≡ false = ap is_zero f ∙ pz in
    rw e (ap₂ (λ x y. answer x y) f l)
  where
    answer : Position → Position → Runner × AckRange
    answer x y = (
      if sent then record r { first_unacked = zero_position } else r,
      record { from = x; to = y },
    )

-- From a runner whose fields are the ends of the entries that wait, whatever the order of entries and acks, and whichever sends
-- fail: each ack sends the range from the first entry with a non-zero position since the last ack that succeeded to the last entry
-- received, and the zero range when no such entry was received since then.
pub sent_ranges-expected :
    (moves : List Move) (waiting : List Position) (r : Runner)
    → Holds waiting r
    → sent_ranges moves r ≡ expected_ranges moves waiting
unfolding sent_ranges expected_ranges maybe_ack_range is_zero
sent_ranges-expected [] waiting r h = refl
sent_ranges-expected (receives pos ∷ moves) waiting r h =
    sent_ranges-expected moves (behind pos waiting) (note_entry r pos)
      (Holds-note_entry waiting r pos h)
sent_ranges-expected (acks sent ∷ moves) [] r h =
    ap (λ (x : Runner × AckRange). x.1 ∷ sent_ranges moves x.0) (ack_ping sent r h)
    ∙ ap (λ l. ping ∷ l) (sent_ranges-expected moves [] r h ∙ nothing_left sent)
  where
    nothing_left :
        (b : Bool) → expected_ranges moves [] ≡ expected_ranges moves (if b then [] else [])
    nothing_left true = refl
    nothing_left false = refl
sent_ranges-expected (acks true ∷ moves) (p ∷ ps) r (pz, (f, l)) =
    ap (λ (x : Runner × AckRange). x.1 ∷ sent_ranges moves x.0)
      (ack_range true r p (last_of p ps) pz f l)
    ∙ ap (λ t. record { from = p; to = last_of p ps } ∷ t)
        (sent_ranges-expected moves [] (record r { first_unacked = zero_position }) refl)
sent_ranges-expected (acks false ∷ moves) (p ∷ ps) r (pz, (f, l)) =
    ap (λ (x : Runner × AckRange). x.1 ∷ sent_ranges moves x.0)
      (ack_range false r p (last_of p ps) pz f l)
    ∙ ap (λ t. record { from = p; to = last_of p ps } ∷ t)
        (sent_ranges-expected moves (p ∷ ps) r (pz, (f, l)))

-- An attempt behind the first always decides.
second_attempt :
    (fuel : ℕ) (master : ℕ → Position → SyncReply) (anchored : Bool) (attempt : ℕ)
    (start : Position)
    → (res : Result SessionError Position) × (establish_loop
          (suc fuel)
          master
          anchored
          (suc attempt)
          start
        ≡ some res)
unfolding establish_loop
second_attempt fuel master anchored attempt start = by_reply (master (suc attempt) start)
  where
    next : SyncReply → Option (Result SessionError Position)
    next rep = elim rep [
      | unreachable ↦ some (err no_session)
      | purged ↦ some (err err_purged)
      | rejected code ↦ some (err (bad_code code))
      | synced larger tip ↦
          let again = establish_loop fuel master anchored (suc (suc attempt)) tip in
          if suc attempt == 0
            && not anchored
            && not (is_zero tip)
            && (larger || not (same_position tip start))
          then again
          else some (ok start)
    ]

    by_reply : (rep : SyncReply) → (res : Result SessionError Position) × (next rep ≡ some res)
    by_reply unreachable = (err no_session, refl)
    by_reply purged = (err err_purged, refl)
    by_reply (rejected code) = (err (bad_code code), refl)
    by_reply (synced larger tip) =
        (ok start, let later : (suc attempt == 0) ≡ false = ground arith in rw later refl)

-- `establish` returns after at most two attempts. A session that a checkpoint or an explicit position anchors begins at the
-- requested position.
pub establish-returns :
    (fuel : ℕ) (master : ℕ → Position → SyncReply) (anchored : Bool) (start : Position)
    → (res : Result SessionError Position) × (establish_loop
          (suc (suc fuel))
          master
          anchored
          0
          start
        ≡ some res)
      × (anchored ≡ true → (p : Position) → res ≡ ok p → p ≡ start)
unfolding establish_loop
establish-returns fuel master anchored start = by_reply (master 0 start)
  where
    Returned : Option (Result SessionError Position) → Type 0
    Returned o =
        (res : Result SessionError Position) × (o ≡ some res)
        × (anchored ≡ true → (p : Position) → res ≡ ok p → p ≡ start)

    next : SyncReply → Option (Result SessionError Position)
    next rep = elim rep [
      | unreachable ↦ some (err no_session)
      | purged ↦ some (err err_purged)
      | rejected code ↦ some (err (bad_code code))
      | synced larger tip ↦
          let again = establish_loop (suc fuel) master anchored 1 tip in
          if 0 == 0
            && not anchored
            && not (is_zero tip)
            && (larger || not (same_position tip start))
          then again
          else some (ok start)
    ]

    by_reply : (rep : SyncReply) → Returned (next rep)
    by_reply unreachable = (err no_session, refl, λ a p e. absurd (cc e))
    by_reply purged = (err err_purged, refl, λ a p e. absurd (cc e))
    by_reply (rejected code) = (err (bad_code code), refl, λ a p e. absurd (cc e))
    by_reply (synced larger tip) =
        by_test anchored refl (not (is_zero tip)) (larger || not (same_position tip start))
      where
        kept : Returned (some (ok start))
        kept = (ok start, refl, λ a p e. ground (arith, e))

        by_test :
            (a : Bool)
            → anchored ≡ a
            → (b c : Bool)
            → Returned (
                if not a && b && c
                then establish_loop (suc fuel) master anchored 1 tip
                else some (ok start))
        by_test true e b c = kept
        by_test false e false c = kept
        by_test false e true false = kept
        by_test false e true true =
            let (res, returns) = second_attempt fuel master anchored 0 tip in
            (res, returns, λ a p x. absurd (cc (a, e)))
