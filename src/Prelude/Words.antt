-- ===== src/Prelude/Words.antt =====
-- Fixed-width little-endian numbers: `binary.LittleEndian.AppendUint32`, `Uint64` and the like.
use Prim.Native.Nat.{ℕ, zero, suc, ◌+◌, ◌*◌, ◌/◌, ◌%◌, ◌^◌, ◌<◌}
use mathlib.Core.Path.{◌≡◌, refl, sym, ap, ap₂, ◌∙◌}
use native.Mathlib.Nat.{pow-suc}
use mathlib.Core.List.{[], ◌∷◌}
use native.Mathlib.Omega.{arith}
use Prim.Native.Nat.{◌≤◌}
use mathlib.Core.List.{◌++◌}
use pikawire.Prelude.Lists.{
  take, drop, length-take, length-drop, drop-drop, take-append-drop, All-take, All-drop, Bytes,
  length, All, IsByte,
}

-- The `k` low bytes of `n`, lowest first.
abbrev pub le_bytes : ℕ → ℕ → Bytes
le_bytes zero n = []
le_bytes (suc k) n = (n % 256) ∷ le_bytes k (n / 256)

abbrev pub le_value : Bytes → ℕ
le_value [] = 0
le_value (b ∷ bs) = b + 256 * le_value bs

pub le_value-le_bytes : (k n : ℕ) → n < 256 ^ k → le_value (le_bytes k n) ≡ n
le_value-le_bytes zero n h = omega arith
le_value-le_bytes (suc k) n h = omega (arith, le_value-le_bytes k (n / 256) (omega arith))

pub le_bytes-le_value : (bs : Bytes) → All IsByte bs → le_bytes (length bs) (le_value bs) ≡ bs
le_bytes-le_value [] _ = refl
le_bytes-le_value (b ∷ bs) (hb, hbs) =
    ap₂ ◌∷◌ low (ap (le_bytes (length bs)) high ∙ le_bytes-le_value bs hbs)
  where
    low : (b + 256 * le_value bs) % 256 ≡ b
    low = omega arith

    high : (b + 256 * le_value bs) / 256 ≡ le_value bs
    high = omega arith

pub le_value-lt : (bs : Bytes) → All IsByte bs → le_value bs < 256 ^ length bs
le_value-lt [] _ = omega arith
le_value-lt (b ∷ bs) (hb, hbs) = omega (arith, le_value-lt bs hbs, pow-suc 256 (length bs))

pub length-le_bytes : (k n : ℕ) → length (le_bytes k n) ≡ k
length-le_bytes zero n = refl
length-le_bytes (suc k) n = omega (arith, length-le_bytes k (n / 256))

pub le_bytes-IsByte : (k n : ℕ) → All IsByte (le_bytes k n)
le_bytes-IsByte zero n = tt
le_bytes-IsByte (suc k) n = (omega arith, le_bytes-IsByte k (n / 256))

module _ (n k : ℕ) (b : Bytes) (fits : n + k ≤ length b) (bytes : All IsByte b) where
  length-word : length (take k (drop n b)) ≡ k
  length-word = omega (arith, length-take k (drop n b), length-drop n b)

  word-IsByte : All IsByte (take k (drop n b))
  word-IsByte = All-take IsByte k (drop n b) (All-drop IsByte n b bytes)

  -- A word of `k` bytes at the place `n` is written back as it was read.
  pub le_word : le_bytes k (le_value (take k (drop n b))) ++ drop (n + k) b ≡ drop n b
  le_word =
      ap₂ ◌++◌
        (ap (λ m. le_bytes m (le_value (take k (drop n b)))) (sym length-word)
          ∙ le_bytes-le_value (take k (drop n b)) word-IsByte)
        (sym (drop-drop n k b))
      ∙ take-append-drop k (drop n b)

  pub le_word-lt : le_value (take k (drop n b)) < 256 ^ k
  le_word-lt = rw length-word at (le_value-lt (take k (drop n b)) word-IsByte)
