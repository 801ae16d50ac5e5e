-- ===== src/Kafka/Routing.antt =====
-- Where `Emit` of internal/sink/kafka.go sends a key: `hashKey` (`hash/fnv`, 32 bit FNV-1a), the partition and
-- the queue. `uint32(s.parts)` and the hash are numbers below 2^32.
pub mod Bounds
use pikawire.Prelude.{
  ℕ, zero, suc, ◌+◌, ◌*◌, ◌/◌, ◌%◌, ◌^◌, Bytes, List, [], ◌∷◌, ◌==◌, if◌then◌else◌,
}

-- `^` on numbers of `w` bits
unfoldable pub bit_xor : ℕ → ℕ → ℕ → ℕ
bit_xor zero a b = 0
bit_xor (suc w) a b = (if a % 2 == b % 2 then 0 else 1) + 2 * bit_xor w (a / 2) (b / 2)

unfoldable pub fnv_loop : Bytes → ℕ → ℕ
fnv_loop [] h = h
fnv_loop (c ∷ k) h = fnv_loop k (bit_xor 32 h c * 16777619 % 2 ^ 32)

-- `hashKey`
unfoldable pub hash_key : Bytes → ℕ
hash_key k = fnv_loop k 2166136261

-- The partition of a key.
unfoldable pub part_of : ℕ → Bytes → ℕ
part_of parts key = hash_key key % parts

-- The index of the queue.
unfoldable pub queue_of : ℕ → ℕ → Bytes → ℕ
queue_of parts workers key = part_of parts key * workers + hash_key key / 2 % workers

-- The partition whose workers read a queue, in `NewKafkaSink`.
unfoldable pub part_of_queue : ℕ → ℕ → ℕ
part_of_queue workers i = i / workers
