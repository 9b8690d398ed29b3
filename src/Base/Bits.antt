-- ===== src/Base/Bits.antt =====
-- The bits of a byte array: `(data[i / 8] >> (i % 8)) & 1`, and setting one by `|=`.
mod Step
use Prim.Native.Nat.{ℕ, zero, suc, ◌+◌, ◌-◌, ◌*◌, ◌/◌, ◌%◌, ◌^◌, ◌≤◌, ◌<◌, max, bit_or}
use mathlib.Core.Path.{◌≡◌, refl, sym, ap, ap₂, ◌∙◌}
use mathlib.Core.Logic.{◌≢◌, ◌⊎◌, inl, inr}
use mathlib.Core.Bool.{Bool, true, false, ◌||◌}
use mathlib.Core.List.{List, [], ◌∷◌, ◌++◌}
use native.Mathlib.Nat.{
  pow-succ', div-div-eq-div-mul, zero-div, one-mul, zero-mul, zero-add, add-zero, suc-add,
}
use native.Mathlib.Decide.{ℕ_discrete}
use native.Mathlib.Omega.{arith}
pub use Step.{bit_or_step, zero-bit_or}
use package.jtag_remote_server.Base.Tests.{◌==◌, if◌then◌else◌, to_bit, Bool-cases}
use package.jtag_remote_server.Base.Lists.{
  length, get_or, get_or-append, set, length-set, get_or-set_self, get_or-set_ne,
}

-- Bit `k` of a word.
abbrev pub test_bit : ℕ → ℕ → Bool
test_bit x k = x / 2 ^ k % 2 == 1

-- Bit `i` of an array of bytes. Reading past the array is undefined in C; here it gives 0.
unfoldable pub bit_at : List ℕ → ℕ → Bool
bit_at bytes i = test_bit (get_or bytes (i / 8) 0) (i % 8)

-- `bytes[i / 8] |= b << (i % 8)`
unfoldable pub or_bit : List ℕ → ℕ → Bool → List ℕ
or_bit bytes i b = set bytes (i / 8) (bit_or (get_or bytes (i / 8) 0) (to_bit b * 2 ^ (i % 8)))

pub length-or_bit : (bytes : List ℕ) (i : ℕ) (b : Bool) → length (or_bit bytes i b) ≡ length bytes
unfolding or_bit
length-or_bit bytes i b = length-set bytes (i / 8) _

div-pow-suc : (x k : ℕ) → x / 2 ^ suc k ≡ x / 2 / 2 ^ k
div-pow-suc x k = rw (div-div-eq-div-mul x 2 (2 ^ k), pow-succ' 2 k)

-- Each bit of an `or` is the larger of the two bits.
bit_or_bit : (k a b : ℕ) → bit_or a b / 2 ^ k % 2 ≡ max (a / 2 ^ k % 2) (b / 2 ^ k % 2)
bit_or_bit zero a b = omega (arith, bit_or_step a b)
bit_or_bit (suc k) a b =
    rw (div-pow-suc (bit_or a b) k, div-pow-suc a k, div-pow-suc b k, halved)
      (bit_or_bit k (a / 2) (b / 2))
  where
    halved : bit_or a b / 2 ≡ bit_or (a / 2) (b / 2)
    halved = omega (arith, bit_or_step a b)

power_bit : (i j : ℕ) → 2 ^ i / 2 ^ j % 2 ≡ (if i == j then 1 else 0)
power_bit zero zero = refl
power_bit zero (suc j) = rw (div-pow-suc 1 j) (ground (arith, zero-div (2 ^ j)))
power_bit (suc i) zero = ground (arith, pow-succ' 2 i)
power_bit (suc i) (suc j) = rw (div-pow-suc (2 ^ suc i) j, halved) (ground (arith, power_bit i j))
  where
    halved : 2 ^ suc i / 2 ≡ 2 ^ i
    halved = omega (arith, pow-succ' 2 i)

shifted_bit : (b : Bool) (i j : ℕ) → to_bit b * 2 ^ i / 2 ^ j % 2 ≡ (if i == j then to_bit b else 0)
shifted_bit true i j = rw (one-mul (2 ^ i)) (power_bit i j)
shifted_bit false i j = rw (zero-mul (2 ^ i), zero-div (2 ^ j)) (ground arith)

-- Bit `j` of `x | (b << i)`.
test_bit-bit_or :
    (x i j : ℕ) (b : Bool)
    → test_bit (bit_or x (to_bit b * 2 ^ i)) j
      ≡ (if i == j then test_bit x j || b else test_bit x j)
test_bit-bit_or x i j true = rw (bit_or_bit j x (1 * 2 ^ i), shifted_bit true i j) (ground arith)
test_bit-bit_or x i j false = rw (bit_or_bit j x (0 * 2 ^ i), shifted_bit false i j) (ground arith)

-- `|=` of a bit inside the array sets that bit and leaves every other as it was.
pub bit_at-or_bit :
    (bytes : List ℕ) (i j : ℕ) (b : Bool)
    → i / 8 < length bytes
    → bit_at (or_bit bytes i b) j ≡ (if i == j then bit_at bytes j || b else bit_at bytes j)
unfolding bit_at or_bit
bit_at-or_bit bytes i j b h = elim (ℕ_discrete (i / 8) (j / 8)) [
  | yes same ↦
      rw
        (
          ← same,
          get_or-set_self bytes (i / 8) (bit_or (get_or bytes (i / 8) 0) (to_bit b * 2 ^ (i % 8))) 0
              h,
        )
        (ground (arith, test_bit-bit_or (get_or bytes (i / 8) 0) (i % 8) (j % 8) b))
  | no other ↦
      rw
        (get_or-set_ne bytes (i / 8) (j / 8)
          (bit_or (get_or bytes (i / 8) 0) (to_bit b * 2 ^ (i % 8))) 0 other)
        (ground arith)
]

-- The bits `[i, i + n)` of an array, in order.
unfoldable pub bits_from : List ℕ → ℕ → ℕ → List Bool
bits_from bytes i zero = []
bits_from bytes i (suc n) = bit_at bytes i ∷ bits_from bytes (i + 1) n

pub length-bits_from : (bytes : List ℕ) (i n : ℕ) → length (bits_from bytes i n) ≡ n
unfolding bits_from
length-bits_from bytes i zero = refl
length-bits_from bytes i (suc n) = ap suc (length-bits_from bytes (i + 1) n)

-- Two runs of bits that meet make one.
pub bits_from-add :
    (bytes : List ℕ) (i m n : ℕ)
    → bits_from bytes i (m + n) ≡ bits_from bytes i m ++ bits_from bytes (i + m) n
unfolding bits_from
bits_from-add bytes i zero n = rw (zero-add n, add-zero i)
bits_from-add bytes i (suc m) n =
    rw suc-add (ap (λ t. bit_at bytes i ∷ t) (rw shift (bits_from-add bytes (i + 1) m n)))
  where
    shift : i + suc m ≡ i + 1 + m
    shift = omega arith

-- Runs that agree bit by bit are equal.
pub bits_from_ext :
    (xs ys : List ℕ) (i j n : ℕ)
    → ((k : ℕ) → k < n → bit_at xs (i + k) ≡ bit_at ys (j + k))
    → bits_from xs i n ≡ bits_from ys j n
unfolding bits_from
bits_from_ext xs ys i j zero same = refl
bits_from_ext xs ys i j (suc n) same =
    ap₂ ◌∷◌ (rw (add-zero i, add-zero j) at (same 0 (omega arith))) (
      bits_from_ext xs ys (i + 1) (j + 1) n
        (λ k h. rw (later i k, later j k) (same (suc k) (omega arith))))
  where
    later : (i k : ℕ) → i + 1 + k ≡ i + suc k
    later i k = omega arith

-- The bits of the bytes in front.
pub bits_from-append :
    (xs ys : List ℕ) (n : ℕ) → n ≤ 8 * length xs → bits_from (xs ++ ys) 0 n ≡ bits_from xs 0 n
unfolding bit_at
bits_from-append xs ys n inside = bits_from_ext (xs ++ ys) xs 0 0 n λ k below.
    ap (λ b. test_bit b ((0 + k) % 8)) (get_or-append xs ys ((0 + k) / 8) 0 (omega arith))
