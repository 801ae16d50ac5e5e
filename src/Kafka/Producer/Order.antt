-- ===== src/Kafka/Producer/Order.antt =====
-- The order of the messages of one queue, in every run of the sink.
use mathlib.Core.Path.{subst}
use pikawire.Ring.{SeqRing, claim}
use pikawire.Sql.Batches.{is_heartbeat}
use pikawire.Kafka.Routing.{part_of, queue_of}
use pikawire.Prelude.{
  ℕ, ◌<◌, ◌≡◌, refl, sym, ap, ◌∙◌, ◌⊎◌, inl, inr, Bool, true, false, not, ◌&&◌, Option, none, some,
  List, [], ◌∷◌, ◌++◌, append_assoc, append-nil, map, Bytes, length, ltb, leb, ◌==◌, ==_iff,
  if◌then◌else◌, if_both, arith,
}
use pikawire.Envelope.{Event, kafka_key}
use pikawire.Kafka.Producer.{
  Message, KafkaItem, KafkaSink, new_kafka_sink, fresh_sink, set_at, prepare, enqueue, receive,
  flush, Prepared, item_position, work, is_nil, accepted, first_error,
}

abbrev pub of_queue : ℕ → List (ℕ × KafkaItem) → List KafkaItem
of_queue i [] = []
of_queue i ((j, it) ∷ l) = let rest = of_queue i l in if i == j then it ∷ rest else rest

of_queue-append :
    (i : ℕ) (l m : List (ℕ × KafkaItem)) → of_queue i (l ++ m) ≡ of_queue i l ++ of_queue i m
of_queue-append i [] m = refl
of_queue-append i ((j, it) ∷ l) m = by_index (i == j) (of_queue-append i l m)
  where
    by_index :
        (b : Bool)
        → of_queue i (l ++ m) ≡ of_queue i l ++ of_queue i m
        → (if b then it ∷ of_queue i (l ++ m) else of_queue i (l ++ m))
          ≡ (if b then it ∷ of_queue i l else of_queue i l) ++ of_queue i m
    by_index true ih = ap (λ x. it ∷ x) ih
    by_index false ih = ih

of_queue-map :
    (j i : ℕ) (batch : List KafkaItem)
    → of_queue j (map (λ it. (i, it)) batch) ≡ (if j == i then batch else [])
of_queue-map j i [] = by_index (j == i)
  where
    by_index : (b : Bool) → (let l : List KafkaItem = if b then [] else [] in [] ≡ l)
    by_index true = refl
    by_index false = refl
of_queue-map j i (it ∷ batch) = by_index (j == i) (of_queue-map j i batch)
  where
    by_index :
        (b : Bool)
        → of_queue j (map (λ it. (i, it)) batch) ≡ (if b then batch else [])
        → (if b
            then it ∷ of_queue j (map (λ it. (i, it)) batch)
            else of_queue j (map (λ it. (i, it)) batch))
          ≡ (if b then it ∷ batch else [])
    by_index true ih = ap (λ x. it ∷ x) ih
    by_index false ih = ih

-- The first list is the second without some of its elements.
pub data Subsequence {A : Type 0} : List A → List A → Type 0 where
  nothing : Subsequence [] []
  keep : {x : A} {l m : List A} → Subsequence l m → Subsequence (x ∷ l) (x ∷ m)
  drop : {x : A} {l m : List A} → Subsequence l m → Subsequence l (x ∷ m)

Subsequence-self : {A : Type 0} (l : List A) → Subsequence l l
Subsequence-self [] = nothing
Subsequence-self (x ∷ l) = keep (Subsequence-self l)

Subsequence-none : {A : Type 0} (l : List A) → Subsequence [] l
Subsequence-none [] = nothing
Subsequence-none (x ∷ l) = drop (Subsequence-none l)

Subsequence-append :
    {A : Type 0} {l m n o : List A}
    → Subsequence l m
    → Subsequence n o
    → Subsequence (l ++ n) (m ++ o)
Subsequence-append nothing q = q
Subsequence-append (keep p) q = keep (Subsequence-append p q)
Subsequence-append (drop p) q = drop (Subsequence-append p q)

Subsequence-accepted :
    {A : Type 0} {l m : List A} (n : List A) (o : Option ℕ)
    → Subsequence l m
    → Subsequence (l ++ accepted o n) (m ++ n)
Subsequence-accepted n none p = Subsequence-append p (Subsequence-self n)
Subsequence-accepted n (some e) p = Subsequence-append p (Subsequence-none n)

module _ (marshal : Event → Option Bytes) (marshal_error : ℕ)
    (write : List Message → Option ℕ) where
  -- The states of a sink, with what has been put into its queues, in order. A worker's batch is flushed when it is full and when
  -- its timer runs out.
  pub data Run (start : KafkaSink) : List (ℕ × KafkaItem) → KafkaSink → Type 0 where
    begins : Run start [] start
    prepares :
        {hist : List (ℕ × KafkaItem)} {s : KafkaSink} (ev : Event)
        → Run start hist s
        → Run start hist (prepare marshal marshal_error ev s).0
    enqueues :
        {hist : List (ℕ × KafkaItem)} {s t : KafkaSink} (i : ℕ) (it : KafkaItem)
        → enqueue i it s ≡ some t
        → Run start hist s
        → Run start (hist ++ ((i, it) ∷ [])) t
    works :
        {hist : List (ℕ × KafkaItem)} {s t : KafkaSink} (i w : ℕ)
        → w < s.workers
        → work write i w s ≡ some t
        → Run start hist s
        → Run start hist t
    times_out :
        {hist : List (ℕ × KafkaItem)} {s : KafkaSink} (i w : ℕ)
        → w < s.workers
        → Run start hist s
        → Run start hist (flush write i w s)

  -- What was put into a queue has been passed to `WriteMessages`, is in the batch of its only worker, or waits, in this order.
  record InOrder (hist : List (ℕ × KafkaItem)) (s : KafkaSink) : Type 0 where
    one_worker : s.workers ≡ 1
    line : (j : ℕ) → of_queue j s.attempted ++ (s.batches j 0 ++ s.queues j) ≡ of_queue j hist
    skips : Subsequence s.written s.attempted
    complete : ((e : ℕ) × (s.failure ≡ some e)) ⊎ (s.written ≡ s.attempted)

  InOrder-prepare :
      (hist : List (ℕ × KafkaItem)) (ev : Event) (s : KafkaSink)
      → InOrder hist s
      → InOrder hist (prepare marshal marshal_error ev s).0
  unfolding prepare
  InOrder-prepare hist ev s h = by_failure s.failure
    where
      same_lines : (r : SeqRing) → InOrder hist (record s { ring = r })
      same_lines r = record {
        one_worker = h.one_worker;
        line = h.line;
        skips = h.skips;
        complete = h.complete;
      }

      item : Bytes → KafkaItem
      item b = record {
        msg = record { partition = part_of s.parts (kafka_key ev); key = kafka_key ev; value = b };
        ord = (claim s.ring).1;
        pos = item_position ev;
      }

      by_failure :
          (o : Option ℕ)
          → (let r : KafkaSink × Prepared = elim o [
            | some e ↦ (s, Prepared.failed e)
            | none ↦
                if not s.include_hb && is_heartbeat ev.phase
                then (s, Prepared.done)
                else elim (marshal ev) [
                  | none ↦ (s, Prepared.failed marshal_error)
                  | some b ↦ (
                    record s { ring = (claim s.ring).0 },
                    Prepared.to_queue (queue_of s.parts s.workers (kafka_key ev)) (item b),
                  )
                ]
          ] in
              InOrder hist r.0)
      by_failure (some e) = h
      by_failure none =
          if_both (λ (r : KafkaSink × Prepared). InOrder hist r.0)
            (not s.include_hb && is_heartbeat ev.phase) _ _ (λ _. h) (λ _. by_json (marshal ev))
        where
          by_json :
              (o : Option Bytes)
              → (let r : KafkaSink × Prepared = elim o [
                | none ↦ (s, Prepared.failed marshal_error)
                | some b ↦ (
                  record s { ring = (claim s.ring).0 },
                  Prepared.to_queue (queue_of s.parts s.workers (kafka_key ev)) (item b),
                )
              ] in
                  InOrder hist r.0)
          by_json none = h
          by_json (some b) = same_lines (claim s.ring).0

  flush_only :
      (hist : List (ℕ × KafkaItem)) (i : ℕ) (s : KafkaSink)
      → InOrder hist s
      → InOrder hist (flush write i 0 s)
  unfolding flush
  flush_only hist i s h =
      if_both (InOrder hist) (is_nil (s.batches i 0)) _ _ (λ _. h)
        (λ _. record {
          one_worker = h.one_worker;
          line = λ j.
              ap (λ l. l ++ (set_at i (set_at 0 [] (s.batches i)) s.batches j 0 ++ s.queues j))
                (of_queue-append j s.attempted (map (λ it. (i, it)) (s.batches i 0))
                  ∙ ap (λ l. of_queue j s.attempted ++ l) (of_queue-map j i (s.batches i 0)))
              ∙ moved j (j == i) refl
              ∙ h.line j;
          skips = Subsequence-accepted sent (write (map (λ it. it.msg) (s.batches i 0))) h.skips;
          complete = by_answer (write (map (λ it. it.msg) (s.batches i 0))) s.failure h.complete;
        })
    where
      sent : List (ℕ × KafkaItem)
      sent = map (λ it. (i, it)) (s.batches i 0)

      by_answer :
          (o f : Option ℕ)
          → ((e : ℕ) × (f ≡ some e)) ⊎ (s.written ≡ s.attempted)
          → ((e : ℕ) × (first_error f o ≡ some e))
            ⊎ (s.written ++ accepted o sent ≡ s.attempted ++ sent)
      by_answer o (some e) c = inl (e, refl)
      by_answer (some e) none c = inl (e, refl)
      by_answer none none (inl (e, c)) = inl (e, c)
      by_answer none none (inr c) = inr (ap (λ l. l ++ sent) c)

      moved :
          (j : ℕ) (b : Bool)
          → (j == i) ≡ b
          → (of_queue j s.attempted ++ (if b then s.batches i 0 else []))
              ++ ((if b then set_at 0 [] (s.batches i) else s.batches j) 0 ++ s.queues j)
            ≡ of_queue j s.attempted ++ (s.batches j 0 ++ s.queues j)
      moved j true here =
          append_assoc (of_queue j s.attempted) (s.batches i 0) (s.queues j)
          ∙ ap (λ k. of_queue j s.attempted ++ (s.batches k 0 ++ s.queues j))
              (sym ((==_iff j i).0 here))
      moved j false there =
          ap (λ l. l ++ (s.batches j 0 ++ s.queues j)) (append-nil (of_queue j s.attempted))

  InOrder-flush :
      (hist : List (ℕ × KafkaItem)) (i w : ℕ) (s : KafkaSink)
      → w < s.workers
      → InOrder hist s
      → InOrder hist (flush write i w s)
  InOrder-flush hist i w s lt h =
      let only : 0 ≡ w = omega (arith, h.one_worker) in
      subst (λ k. InOrder hist (flush write i k s)) only (flush_only hist i s h)

  InOrder-enqueue :
      (hist : List (ℕ × KafkaItem)) (i : ℕ) (it : KafkaItem) (s t : KafkaSink)
      → enqueue i it s ≡ some t
      → InOrder hist s
      → InOrder (hist ++ ((i, it) ∷ [])) t
  unfolding enqueue
  InOrder-enqueue hist i it s t e h = by_room (ltb (length (s.queues i)) s.queue_depth) e
    where
      put : KafkaSink
      put = record s { queues = set_at i (s.queues i ++ (it ∷ [])) s.queues }

      put-InOrder : InOrder (hist ++ ((i, it) ∷ [])) put
      put-InOrder = record {
        one_worker = h.one_worker;
        line = λ j. moved j (j == i) refl ∙ sym (of_queue-append j hist ((i, it) ∷ []));
        skips = h.skips;
        complete = h.complete;
      }
        where
          moved :
              (j : ℕ) (b : Bool)
              → (j == i) ≡ b
              → of_queue j s.attempted
                  ++ (s.batches j 0 ++ (if b then s.queues i ++ (it ∷ []) else s.queues j))
                ≡ of_queue j hist ++ (if b then it ∷ [] else [])
          moved j true here =
              ap (λ k. of_queue j s.attempted ++ (s.batches j 0 ++ (s.queues k ++ (it ∷ []))))
                (sym ((==_iff j i).0 here))
              ∙ ap (λ l. of_queue j s.attempted ++ l)
                  (sym (append_assoc (s.batches j 0) (s.queues j) (it ∷ [])))
              ∙ sym (append_assoc (of_queue j s.attempted) (s.batches j 0 ++ s.queues j) (it ∷ []))
              ∙ ap (λ l. l ++ (it ∷ [])) (h.line j)
          moved j false there = h.line j ∙ sym (append-nil (of_queue j hist))

      by_room :
          (b : Bool) → (if b then some put else none) ≡ some t → InOrder (hist ++ ((i, it) ∷ [])) t
      by_room true e =
          let same_sink : put ≡ t = ground (arith, e) in
          subst (InOrder (hist ++ ((i, it) ∷ []))) same_sink put-InOrder
      by_room false e = absurd (cc e)

  receive_only :
      (hist : List (ℕ × KafkaItem)) (i : ℕ) (s t : KafkaSink)
      → receive i 0 s ≡ some t
      → InOrder hist s
      → InOrder hist t
  unfolding receive
  receive_only hist i s t e h = by_queue (s.queues i) refl e
    where
      taken : KafkaItem → List KafkaItem → KafkaSink
      taken it q = record s {
        queues = set_at i q s.queues;
        batches = set_at i (set_at 0 (s.batches i 0 ++ (it ∷ [])) (s.batches i)) s.batches;
      }

      taken-InOrder :
          (it : KafkaItem) (q : List KafkaItem) → s.queues i ≡ it ∷ q → InOrder hist (taken it q)
      taken-InOrder it q full = record {
        one_worker = h.one_worker;
        line = λ j. moved j (j == i) refl ∙ h.line j;
        skips = h.skips;
        complete = h.complete;
      }
        where
          moved :
              (j : ℕ) (b : Bool)
              → (j == i) ≡ b
              → of_queue j s.attempted
                  ++ ((if b
                          then set_at 0 (s.batches i 0 ++ (it ∷ [])) (s.batches i)
                          else s.batches j)
                        0
                      ++ (if b then q else s.queues j))
                ≡ of_queue j s.attempted ++ (s.batches j 0 ++ s.queues j)
          moved j true here =
              ap (λ l. of_queue j s.attempted ++ l)
                (append_assoc (s.batches i 0) (it ∷ []) q
                  ∙ ap (λ l. s.batches i 0 ++ l) (sym full)
                  ∙ ap (λ k. s.batches k 0 ++ s.queues k) (sym ((==_iff j i).0 here)))
          moved j false there = refl

      by_queue :
          (l : List KafkaItem)
          → s.queues i ≡ l
          → (let o : Option KafkaSink = elim l [ [] ↦ none | it ∷ q ↦ some (taken it q) ] in
              o ≡ some t)
          → InOrder hist t
      by_queue [] full e = absurd (cc e)
      by_queue (it ∷ q) full e =
          let same_sink : taken it q ≡ t = ground (arith, e) in
          subst (InOrder hist) same_sink (taken-InOrder it q full)

  InOrder-receive :
      (hist : List (ℕ × KafkaItem)) (i w : ℕ) (s t : KafkaSink)
      → w < s.workers
      → receive i w s ≡ some t
      → InOrder hist s
      → InOrder hist t
  InOrder-receive hist i w s t lt e h =
      let only : w ≡ 0 = omega (arith, h.one_worker, lt) in
      receive_only hist i s t (ap (λ k. receive i k s) (sym only) ∙ e) h

  InOrder-work :
      (hist : List (ℕ × KafkaItem)) (i w : ℕ) (s t : KafkaSink)
      → w < s.workers
      → work write i w s ≡ some t
      → InOrder hist s
      → InOrder hist t
  unfolding work
  InOrder-work hist i w s t lt e h = by_item (receive i w s) refl e
    where
      by_item :
          (o : Option KafkaSink)
          → receive i w s ≡ o
          → elim o [
            | none ↦ none
            | some u ↦
                some (if leb u.batch_size (length (u.batches i w)) then flush write i w u else u)
          ]
            ≡ some t
          → InOrder hist t
      by_item none taken e = absurd (cc e)
      by_item (some u) taken e =
          let held : InOrder hist u = InOrder-receive hist i w s u lt taken h in
          let result : (if leb u.batch_size (length (u.batches i w)) then flush write i w u else u)
              ≡ t =
            ground (arith, e) in
          subst (InOrder hist) result (
            if_both (InOrder hist) (leb u.batch_size (length (u.batches i w))) _ _
              (λ _.
                InOrder-flush hist i w u (omega (arith, held.one_worker, h.one_worker, lt)) held)
              (λ _. held))

  -- With one worker for each queue, in every state that a sink can come to: what has been passed to
  -- `WriteMessages` from a queue is a beginning of what was put into it, in the same order, and the rest is in the worker's
  -- batch and in the queue; the messages of the calls that returned no error are, in the same order, some of those passed to
  -- it, and all of them unless the sink has an error.
  pub Run-InOrder :
      (parts batch_size depth : ℕ) (start s : KafkaSink) (hist : List (ℕ × KafkaItem)) (i : ℕ)
      → new_kafka_sink parts 1 batch_size depth ≡ some start
      → Run start hist s
      → (of_queue i s.attempted ++ (s.batches i 0 ++ s.queues i) ≡ of_queue i hist)
        × Subsequence s.written s.attempted
        × (((e : ℕ) × (s.failure ≡ some e)) ⊎ (s.written ≡ s.attempted))
  unfolding new_kafka_sink fresh_sink
  Run-InOrder parts batch_size depth start s hist i made run =
      let h = ordered run in (h.line i, h.skips, h.complete)
    where
      begun : InOrder [] start
      begun = by_parts (parts == 0) made
        where
          by_parts :
              (b : Bool)
              → (if b then none else some (fresh_sink parts 1 batch_size depth)) ≡ some start
              → InOrder [] start
          by_parts true e = absurd (cc e)
          by_parts false e =
              let fresh : fresh_sink parts 1 batch_size depth ≡ start = ground (arith, e) in
              subst (InOrder []) fresh (record {
                one_worker = refl;
                line = λ j. refl;
                skips = nothing;
                complete = inr refl;
              })

      ordered : {hist : List (ℕ × KafkaItem)} {s : KafkaSink} → Run start hist s → InOrder hist s
      ordered begins = begun
      ordered (prepares ev run) = InOrder-prepare _ ev _ (ordered run)
      ordered (enqueues i it e run) = InOrder-enqueue _ i it _ _ e (ordered run)
      ordered (works i w lt e run) = InOrder-work _ i w _ _ lt e (ordered run)
      ordered (times_out i w lt run) = InOrder-flush _ i w _ lt (ordered run)
