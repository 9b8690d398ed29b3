-- ===== src/Jtagd/Header.antt =====
-- The header of a packet, written and read.
use native.Mathlib.Nat.{pow-succ', mul-one, mul_comm, mul_assoc}
use jtag_remote_server.Base.{
  ℕ, zero, suc, ◌+◌, ◌-◌, ◌*◌, ◌/◌, ◌%◌, ◌^◌, ◌≤◌, ◌<◌, ◌≡◌, sym, Bool-cases, true, inl, inr, ◌==◌,
  ap, ap₂, ◌∙◌, arith, bit_or, bit_or_step, u16, zero-bit_or,
}
use jtag_remote_server.Jtagd.{mux_of, length_of}
use jtag_remote_server.Jtagd.Sending.{compute_header}

bit_or-zero : (n x : ℕ) → x ≤ n → bit_or x 0 ≡ x
bit_or-zero zero x h = ap (λ k. bit_or k 0) (none_left x h) ∙ zero-bit_or 0 ∙ omega arith
  where
    none_left : (x : ℕ) → x ≤ 0 → x ≡ 0
    none_left x h = omega arith
bit_or-zero (suc n) x h = elim (Bool-cases (x == 0)) [
  | inl e ↦ ap (λ k. bit_or k 0) (zero_of e) ∙ zero-bit_or 0 ∙ ground arith
  | inr e ↦ bit_or_step x 0 ∙ omega (arith, bit_or-zero n (x / 2) (ground arith))
]
  where
    zero_of : (x == 0) ≡ true → x ≡ 0
    zero_of e = ground arith

-- The `or` of parts that do not overlap is their sum.
bit_or-disjoint : (k x y : ℕ) → y < 2 ^ k → bit_or (x * 2 ^ k) y ≡ x * 2 ^ k + y
bit_or-disjoint zero x y h =
    ap₂ bit_or (mul-one x) (none_of y h) ∙ bit_or-zero x x (omega arith) ∙ omega arith
  where
    none_of : (y : ℕ) → y < 2 ^ 0 → y ≡ 0
    none_of y h = omega arith
bit_or-disjoint (suc k) x y h =
    bit_or_step (x * 2 ^ suc k) y
    ∙ rw (halved, even)
        (omega (
          arith,
          bit_or-disjoint k x (y / 2) (omega (arith, pow-succ' 2 k)),
          pow-succ' 2 k,
          doubled,
        ))
  where
    doubled : x * 2 ^ suc k ≡ x * 2 ^ k * 2
    doubled = ap (λ n. x * n) (pow-succ' 2 k ∙ mul_comm 2 (2 ^ k)) ∙ sym (mul_assoc x (2 ^ k) 2)

    halved : x * 2 ^ suc k / 2 ≡ x * 2 ^ k
    halved = omega (arith, doubled)

    even : x * 2 ^ suc k % 2 ≡ 0
    even = omega (arith, doubled)

pub compute_header-sum :
    (length mux : ℕ)
    → 0 < length
    → length ≤ 4096
    → mux < 16
    → compute_header length mux ≡ mux * 2 ^ 12 + (length - 1)
unfolding compute_header
compute_header-sum length mux some_bytes fits small =
    ap₂ bit_or high low ∙ bit_or-disjoint 12 mux (length - 1) (omega arith)
  where
    high : u16 (mux * 2 ^ 12) ≡ mux * 2 ^ 12
    high = omega arith

    low : u16 (length + 2 ^ 16 - 1) ≡ length - 1
    low = omega arith

-- A header gives back the mux and the length that it was made of, if they fit: a mux of 4 bits, and 1 to
-- 4096 bytes.
pub header_read_back :
    (length mux : ℕ)
    → 0 < length
    → length ≤ 4096
    → mux < 16
    → (mux_of (compute_header length mux) ≡ mux) × (length_of (compute_header length mux) ≡ length)
unfolding mux_of length_of
header_read_back length mux some_bytes fits small = (
  omega (arith, compute_header-sum length mux some_bytes fits small),
  omega (arith, compute_header-sum length mux some_bytes fits small),
)
