-- ===== src/Xvc/Paste.antt =====
-- Putting the bits of a region back where they were cut out.
use jtag_remote_server.Base.{
  ℕ, zero, suc, ◌+◌, ◌-◌, ◌*◌, ◌≤◌, ◌≡◌, refl, ap, ◌∙◌, true, Bool-cases, inl, inr, ◌==◌, ◌&&◌,
  ◌||◌, List, arith, if◌then◌else◌, ltb, leb, length, replicate, length-replicate, bit_at, or_bit,
  length-or_bit, bit_at-or_bit, bits_from, bits_from_ext,
}
use jtag_remote_server.Bitbang.Copy.{buffer_size, cut_bits, bit_at-cut_bits, zeros-bit_at}
use jtag_remote_server.Xvc.Answers.{paste_bits}

pub length-paste_bits :
    (bytes : List ℕ) (begin off left : ℕ) (out : List ℕ)
    → length (paste_bits bytes begin off left out) ≡ length out
unfolding paste_bits
length-paste_bits bytes begin off zero out = refl
length-paste_bits bytes begin off (suc left) out =
    length-paste_bits bytes begin (off + 1) left (or_bit out (begin + off) (bit_at bytes off))
    ∙ length-or_bit out (begin + off) (bit_at bytes off)

-- Each bit of the region is that of the input, or'ed to what was there; the others stay.
pub bit_at-paste_bits :
    (bytes : List ℕ) (begin off left : ℕ) (out : List ℕ) (j : ℕ)
    → begin + off + left ≤ 8 * length out
    → bit_at (paste_bits bytes begin off left out) j ≡ (
        if leb (begin + off) j && ltb j (begin + off + left)
        then bit_at out j || bit_at bytes (j - begin)
        else bit_at out j)
unfolding paste_bits
bit_at-paste_bits bytes begin off zero out j room = ground arith
bit_at-paste_bits bytes begin off (suc left) out j room =
    bit_at-paste_bits bytes begin (off + 1) left (or_bit out (begin + off) (bit_at bytes off)) j
      (omega (arith, length-or_bit out (begin + off) (bit_at bytes off)))
    ∙ rw (bit_at-or_bit out (begin + off) j (bit_at bytes off) (omega arith))
        (elim (Bool-cases (begin + off == j)) [
          | inl e ↦ ground (arith, ap (bit_at bytes) (here e))
          | inr e ↦ ground arith
        ])
  where
    here : (begin + off == j) ≡ true → off ≡ j - begin
    here e = ground arith

-- The bits of a region that are cut out and put back into a cleared array stand where they stood: what a
-- chain gives back unchanged is answered unchanged.
pub paste_bits-cut_bits :
    (bytes : List ℕ) (begin n size : ℕ)
    → n ≤ 8 * buffer_size
    → begin + n ≤ 8 * size
    → bits_from (paste_bits (cut_bits bytes begin n) begin 0 n (replicate size 0)) begin n
      ≡ bits_from bytes begin n
paste_bits-cut_bits bytes begin n size fits room =
    bits_from_ext (paste_bits (cut_bits bytes begin n) begin 0 n (replicate size 0)) bytes begin
      begin n
      λ k below.
        bit_at-paste_bits (cut_bits bytes begin n) begin 0 n (replicate size 0) (begin + k)
          (omega (arith, room, length-replicate {A = ℕ} size 0))
        ∙ ground (
          arith,
          below,
          zeros-bit_at size (begin + k),
          ap (bit_at (cut_bits bytes begin n)) (back k)
              ∙ bit_at-cut_bits bytes begin n k fits below,
        )
  where
    back : (k : ℕ) → begin + k - begin ≡ k
    back k = omega arith
