-- ===== src/Bitbang/Copy.antt =====
-- The loop by which src/rbb.cpp and src/xvc.cpp cut the bits of a region out of an array:
-- `out[off / 8] |= bit << (off % 8)` for each bit `begin + off` of the input.
use native.Mathlib.Nat.{zero-add, zero-div}
use jtag_remote_server.Base.{
  ℕ, zero, suc, ◌+◌, ◌*◌, ◌/◌, ◌≤◌, ◌<◌, ◌≡◌, refl, ap, ◌∙◌, false, List, arith, if◌then◌else◌,
  ◌||◌, ltb, length, replicate, length-replicate, get_or-replicate, bit_at, or_bit, length-or_bit,
  bit_at-or_bit, bits_from, bits_from_ext, ◌^◌, ◌%◌,
}

unfoldable pub copy_bits : List ℕ → ℕ → ℕ → ℕ → List ℕ → List ℕ
copy_bits bytes begin off zero out = out
copy_bits bytes begin off (suc left) out =
    copy_bits bytes begin (off + 1) left (or_bit out off (bit_at bytes (begin + off)))

-- `uint8_t buffer[BUFFER_SIZE] = {}`, filled with `n` bits from `begin` on.
abbrev pub buffer_size : ℕ
buffer_size = 4096

unfoldable pub cut_bits : List ℕ → ℕ → ℕ → List ℕ
unfolding copy_bits
cut_bits bytes begin n = copy_bits bytes begin 0 n (replicate buffer_size 0)

length-copy_bits :
    (bytes : List ℕ) (begin off left : ℕ) (out : List ℕ)
    → length (copy_bits bytes begin off left out) ≡ length out
unfolding copy_bits
length-copy_bits bytes begin off zero out = refl
length-copy_bits bytes begin off (suc left) out =
    length-copy_bits bytes begin (off + 1) left (or_bit out off (bit_at bytes (begin + off)))
    ∙ length-or_bit out off (bit_at bytes (begin + off))

-- Each bit of the run is that of the input, or'ed to what was there; the others stay.
bit_at-copy_bits :
    (bytes : List ℕ) (begin off left : ℕ) (out : List ℕ) (j : ℕ)
    → off + left ≤ 8 * length out
    → bit_at (copy_bits bytes begin off left out) j ≡ (
        if ltb j off
        then bit_at out j
        else if ltb j (off + left)
        then bit_at out j || bit_at bytes (begin + j)
        else bit_at out j)
unfolding copy_bits
bit_at-copy_bits bytes begin off zero out j room = ground arith
bit_at-copy_bits bytes begin off (suc left) out j room =
    bit_at-copy_bits bytes begin (off + 1) left (or_bit out off (bit_at bytes (begin + off))) j
      (omega (arith, length-or_bit out off (bit_at bytes (begin + off))))
    ∙ rw (bit_at-or_bit out off j (bit_at bytes (begin + off)) (omega arith)) (ground arith)

pub zeros-bit_at : (n j : ℕ) → bit_at (replicate n 0) j ≡ false
unfolding bit_at
zeros-bit_at n j = rw (get_or-replicate {A = ℕ} n (j / 8) 0, zero-div (2 ^ (j % 8)))

pub bit_at-cut_bits :
    (bytes : List ℕ) (begin n k : ℕ)
    → n ≤ 8 * buffer_size
    → k < n
    → bit_at (cut_bits bytes begin n) k ≡ bit_at bytes (begin + k)
unfolding cut_bits
bit_at-cut_bits bytes begin n k fits below =
    bit_at-copy_bits bytes begin 0 n (replicate buffer_size 0) k
      (omega (arith, length-replicate {A = ℕ} buffer_size 0))
    ∙ ground (arith, zeros-bit_at buffer_size k)

-- The buffer that the bits of a region are cut into holds exactly those bits, if they fit.
pub bits_from-cut_bits :
    (bytes : List ℕ) (begin n : ℕ)
    → n ≤ 8 * buffer_size
    → bits_from (cut_bits bytes begin n) 0 n ≡ bits_from bytes begin n
bits_from-cut_bits bytes begin n fits =
    bits_from_ext (cut_bits bytes begin n) bytes 0 begin n λ k below.
      ap (λ i. bit_at (cut_bits bytes begin n) i) (zero-add k)
      ∙ bit_at-cut_bits bytes begin n k fits below

pub length-cut_bits : (bytes : List ℕ) (begin n : ℕ) → length (cut_bits bytes begin n) ≡ buffer_size
unfolding cut_bits
length-cut_bits bytes begin n =
    length-copy_bits bytes begin 0 n (replicate buffer_size 0)
    ∙ length-replicate {A = ℕ} buffer_size 0
