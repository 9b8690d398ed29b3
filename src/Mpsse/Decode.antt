-- ===== src/Mpsse/Decode.antt =====
-- The streams of the MPSSE adapter, read back by the engine: the clock cycles that they stand for.
use jtag_remote_server.Base.{
  append-nil, leb, ℕ, zero, suc, ◌+◌, ◌-◌, ◌*◌, ◌/◌, ◌%◌, ◌≤◌, ◌<◌, min, ◌≡◌, refl, sym, ap, ◌∙◌,
  Bool, true, false, some, List, [], ◌∷◌, arith, if◌then◌else◌, take, get_or, u8, bit_at, test_bit,
  bits_from, bits_from_ext,
}
use native.Mathlib.Nat.{zero-add}
use jtag_remote_server.Header.{Header}
use jtag_remote_server.Mpsse.Driver.{tms_command, bytes_command, bits_command, last_command}
use jtag_remote_server.Mpsse.Engine.{IsDocumented, tms_pulses, step, Decodes, done, next}
use jtag_remote_server.Mpsse.Stream.{tms_stream}

-- The command bytes are the engine's.
pub commands :
    (h : Header) (do_read : Bool)
    → IsDocumented h
    → (u8 (tms_command h) ≡ 0x4b)
      × (bytes_command h do_read ≡ (if do_read then 0x39 else 0x19))
      × (bits_command h do_read ≡ (if do_read then 0x3b else 0x1b))
      × (last_command h do_read ≡ (if do_read then 0x6b else 0x4b))
unfolding tms_command bytes_command bits_command last_command
commands h true doc = rw doc (refl, refl, refl, refl)
commands h false doc = rw doc (refl, refl, refl, refl)

-- Bits of one byte, alone and in its array.
bit_at_byte :
    (bytes : List ℕ) (q k : ℕ) → k < 8 → bit_at (get_or bytes q 0 ∷ []) k ≡ bit_at bytes (q * 8 + k)
unfolding bit_at
bit_at_byte bytes q k h = rw (first, byte, low, bit)
  where
    first : k / 8 ≡ 0
    first = omega arith

    byte : (q * 8 + k) / 8 ≡ q
    byte = omega arith

    low : k % 8 ≡ k
    low = omega arith

    bit : (q * 8 + k) % 8 ≡ k
    bit = omega arith

get_or-take : (n i : ℕ) (xs : List ℕ) → i < n → get_or (take n xs) i 0 ≡ get_or xs i 0
get_or-take zero i xs h = absurd (omega arith)
get_or-take (suc n) i [] h = refl
get_or-take (suc n) zero (x ∷ xs) h = refl
get_or-take (suc n) (suc i) (x ∷ xs) h = get_or-take n i xs (omega arith)

bit_at-take : (n i : ℕ) (bytes : List ℕ) → i < 8 * n → bit_at (take n bytes) i ≡ bit_at bytes i
unfolding bit_at
bit_at-take n i bytes h = rw (get_or-take n (i / 8) bytes (omega arith))

pub bits_of_byte :
    (bytes : List ℕ) (q n : ℕ)
    → n ≤ 8
    → bits_from (get_or bytes q 0 ∷ []) 0 n ≡ bits_from bytes (q * 8) n
bits_of_byte bytes q n le =
    bits_from_ext (get_or bytes q 0 ∷ []) bytes 0 (q * 8) n
      (λ k h. rw (zero-add k) (bit_at_byte bytes q k (omega arith)))

pub bits_of_take :
    (n : ℕ) (bytes : List ℕ) → bits_from (take n bytes) 0 (8 * n) ≡ bits_from bytes 0 (8 * n)
bits_of_take n bytes =
    bits_from_ext (take n bytes) bytes 0 0 (8 * n)
      (λ k h. rw (zero-add k) (bit_at-take n k bytes h))

module _ (h : Header) (doc : IsDocumented h) where
  tms_command-step :
      (line : Bool) (n d : ℕ) (rest : List ℕ)
      → n ≤ 6
      → step line (u8 (tms_command h) ∷ n ∷ d ∷ rest)
        ≡ some (tms_pulses false d (bits_from (d ∷ []) 0 (n + 1)), test_bit d n, rest)
  unfolding step
  tms_command-step line n d rest few = rw ((commands h false doc).0, short) refl
    where
      short : leb n 6 ≡ true
      short = ground (arith, few)

  -- The command of a short TMS sequence clocks out the TMS bits that it was given, in order, with
  -- TDI at bit 7 of the byte.
  pub tms_stream-Decodes :
      (bytes : List ℕ) (num_bits : ℕ) (line : Bool)
      → num_bits ≤ 7
      → (last : Bool) × Decodes line
          (tms_stream h bytes num_bits 0 ((num_bits + 7) / 8))
          (tms_pulses false (get_or bytes 0 0) (bits_from bytes 0 num_bits))
          last
  unfolding bits_from
  tms_stream-Decodes bytes zero line few = (line, done)
  tms_stream-Decodes bytes (suc n) line few = rw (one) (
    test_bit d len,
    next (tms_command-step line len d [] (omega arith)) done
        (ap (tms_pulses false d) (sym pulses) ∙ sym (append-nil _)),
  )
    where
      d : ℕ
      d = get_or bytes 0 0

      len : ℕ
      len = u8 (u8 (min 8 (suc n - 0 * 8)) - 1)

      one : (suc n + 7) / 8 ≡ 1
      one = omega arith

      size : len + 1 ≡ suc n
      size = omega arith

      pulses : bits_from (d ∷ []) 0 (len + 1) ≡ bits_from bytes 0 (suc n)
      pulses = ap (bits_from (d ∷ []) 0) size ∙ bits_of_byte bytes 0 (suc n) (omega arith)
