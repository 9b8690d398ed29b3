-- ===== src/Mpsse/Scan.antt =====
-- The stream of `mpsse_jtag_scan_chain_send`, read back by the engine.
use mathlib.Core.List.{map-append}
use jtag_remote_server.Base.{
  ℕ, zero, suc, ◌+◌, ◌-◌, ◌*◌, ◌/◌, ◌%◌, ◌^◌, ◌≤◌, ◌<◌, bit_or, ◌≡◌, inl, inr, refl, sym, ap, subst,
  ◌∙◌, Bool, true, false, some, List, [], ◌∷◌, ◌++◌, arith, if◌then◌else◌, ◌==◌, ==_iff, leb,
  Bool-cases, length, length-append, length-take, take, drop, get_or, append_assoc, append-nil, u8,
  to_bit, bit_at, bits_from, bits_from-add,
}
use jtag_remote_server.Header.{Header}
use jtag_remote_server.Mpsse.Driver.{bytes_command, bits_command, last_command}
use jtag_remote_server.Mpsse.Engine.{
  IsDocumented, Pulse, shift_pulses, data_step, step, Decodes, done, next,
}
use jtag_remote_server.Mpsse.Stream.{bytes_stream, bits_stream, scan_stream}
use jtag_remote_server.Mpsse.Decode.{commands, bits_of_byte, bits_of_take}

-- The clock cycles of one scan: the data on TDI with TMS low, and with `flip_tms` the last bit with
-- TMS high. TDO is sampled in each, or in none.
abbrev pub scan_pulses : List ℕ → ℕ → Bool → Bool → List Pulse
scan_pulses bytes num_bits flip_tms do_read =
    if flip_tms
    then shift_pulses false do_read (bits_from bytes 0 (num_bits - 1))
      ++ record { tms = true; tdi = bit_at bytes (num_bits - 1); read = do_read } ∷ []
    else shift_pulses false do_read (bits_from bytes 0 num_bits)

take-append_self : (n : ℕ) (xs ys : List ℕ) → n ≤ length xs → take n (take n xs ++ ys) ≡ take n xs
take-append_self zero xs ys h = refl
take-append_self (suc n) [] ys h = absurd (omega arith)
take-append_self (suc n) (x ∷ xs) ys h = ap (λ t. x ∷ t) (take-append_self n xs ys (omega arith))

drop-append_self : (n : ℕ) (xs ys : List ℕ) → n ≤ length xs → drop n (take n xs ++ ys) ≡ ys
drop-append_self zero xs ys h = refl
drop-append_self (suc n) [] ys h = absurd (omega arith)
drop-append_self (suc n) (x ∷ xs) ys h = drop-append_self n xs ys (omega arith)

le→leb : (a b : ℕ) → a ≤ b → leb a b ≡ true
le→leb a b h = ground arith

whole_length : (n : ℕ) → 0 < n → n ≤ 65536 → u8 (n - 1) + 256 * u8 ((n - 1) / 2 ^ 8) + 1 ≡ n
whole_length n some_bytes small = omega arith

data_step-take :
    (line read : Bool) (n : ℕ) (bytes rest : List ℕ)
    → n ≤ length bytes
    → data_step line read n (take n bytes ++ rest)
      ≡ some (shift_pulses line read (bits_from bytes 0 (8 * n)), line, rest)
unfolding data_step
data_step-take line read n bytes rest enough = rw (
  le→leb n (length (take n bytes ++ rest))
      (omega (arith, length-append (take n bytes) rest, length-take n bytes)),
  take-append_self n bytes rest enough,
  drop-append_self n bytes rest enough,
  bits_of_take n bytes,
)

module _ (h : Header) (doc : IsDocumented h) where
  bytes_command-step :
      (line do_read : Bool) (n : ℕ) (bytes rest : List ℕ)
      → 0 < n
      → n ≤ 65536
      → n ≤ length bytes
      → step line
          (bytes_command h do_read ∷ u8 (n - 1) ∷ u8 ((n - 1) / 2 ^ 8) ∷ take n bytes ++ rest)
        ≡ some (shift_pulses line do_read (bits_from bytes 0 (8 * n)), line, rest)
  unfolding step
  bytes_command-step line true n bytes rest some_bytes small enough = rw ((commands h true doc).1) (
      ap (λ k. data_step line true k (take n bytes ++ rest)) (whole_length n some_bytes small)
      ∙ data_step-take line true n bytes rest enough)
  bytes_command-step line false n bytes rest some_bytes small enough =
      rw ((commands h false doc).1) (
        ap (λ k. data_step line false k (take n bytes ++ rest)) (whole_length n some_bytes small)
        ∙ data_step-take line false n bytes rest enough)

  bits_command-step :
      (line do_read : Bool) (n d : ℕ) (rest : List ℕ)
      → step line (bits_command h do_read ∷ n ∷ d ∷ rest)
        ≡ some (shift_pulses line do_read (bits_from (d ∷ []) 0 (n + 1)), line, rest)
  unfolding step
  bits_command-step line true n d rest = rw ((commands h true doc).2)
  bits_command-step line false n d rest = rw ((commands h false doc).2)

  last_command-step :
      (line do_read b : Bool)
      → step line (last_command h do_read ∷ 0x00 ∷ u8 (bit_or 0x01 (to_bit b * 2 ^ 7)) ∷ [])
        ≡ some (record { tms = true; tdi = b; read = do_read } ∷ [], true, [])
  unfolding step bits_from bit_at
  last_command-step line true true = rw ((commands h true doc).3)
  last_command-step line true false = rw ((commands h true doc).3)
  last_command-step line false true = rw ((commands h false doc).3)
  last_command-step line false false = rw ((commands h false doc).3)

  -- The three parts, each in front of what follows it.
  bytes_stream-Decodes :
      (do_read last : Bool) (bytes : List ℕ) (bulk_bits : ℕ) (rest : List ℕ) (qs : List Pulse)
      → bulk_bits ≤ 524288
      → bulk_bits / 8 ≤ length bytes
      → Decodes false rest qs last
      → Decodes false
          (bytes_stream h bytes (bulk_bits / 8) do_read ++ rest)
          (shift_pulses false do_read (bits_from bytes 0 (8 * (bulk_bits / 8))) ++ qs)
          last
  unfolding bits_from
  bytes_stream-Decodes do_read last bytes bulk_bits rest qs small enough tail =
      elim (Bool-cases (bulk_bits / 8 == 0)) [
        | inl e ↦ rw (e, (==_iff (bulk_bits / 8) 0).0 e) tail
        | inr e ↦ rw e (
            next
              (bytes_command-step false do_read (bulk_bits / 8) bytes rest (ground arith)
                (omega arith) enough)
              tail refl)
      ]

  bits_stream-Decodes :
      (do_read last : Bool) (bytes : List ℕ) (bulk_bits : ℕ) (rest : List ℕ) (qs : List Pulse)
      → Decodes false rest qs last
      → Decodes false
          (bits_stream h bytes bulk_bits do_read ++ rest)
          (shift_pulses false do_read (bits_from bytes (bulk_bits / 8 * 8) (bulk_bits % 8)) ++ qs)
          last
  unfolding bits_from
  bits_stream-Decodes do_read last bytes bulk_bits rest qs tail =
      elim (Bool-cases (bulk_bits % 8 == 0)) [
        | inl e ↦ rw (e, (==_iff (bulk_bits % 8) 0).0 e) tail
        | inr e ↦ rw e (
            next
              (bits_command-step false do_read (u8 (bulk_bits % 8 - 1))
                (get_or bytes (bulk_bits / 8) 0) rest)
              tail (ap (λ x. shift_pulses false do_read x ++ qs) (sym (part (ground arith)))))
      ]
    where
      part :
          0 < bulk_bits % 8
          → bits_from (get_or bytes (bulk_bits / 8) 0 ∷ []) 0 (u8 (bulk_bits % 8 - 1) + 1)
            ≡ bits_from bytes (bulk_bits / 8 * 8) (bulk_bits % 8)
      part some_bits =
          ap (λ k. bits_from (get_or bytes (bulk_bits / 8) 0 ∷ []) 0 k) len
          ∙ bits_of_byte bytes (bulk_bits / 8) (bulk_bits % 8) (omega arith)
        where
          len : u8 (bulk_bits % 8 - 1) + 1 ≡ bulk_bits % 8
          len = omega arith

  -- Whole bytes and left-over bits together are the bits in bulk.
  bulk_pulses :
      (do_read : Bool) (bytes : List ℕ) (bulk_bits : ℕ) (qs : List Pulse)
      → shift_pulses false do_read (bits_from bytes 0 (8 * (bulk_bits / 8)))
          ++ (shift_pulses false do_read (bits_from bytes (bulk_bits / 8 * 8) (bulk_bits % 8))
              ++ qs)
        ≡ shift_pulses false do_read (bits_from bytes 0 bulk_bits) ++ qs
  bulk_pulses do_read bytes bulk_bits qs =
      sym (append_assoc (shift_pulses false do_read whole) (shift_pulses false do_read part) qs)
      ∙ ap (λ x. x ++ qs)
          (sym (map-append (λ b. record { tms = false; tdi = b; read = do_read }) whole part))
      ∙ ap (λ x. shift_pulses false do_read x ++ qs) (sym split)
    where
      whole : List Bool
      whole = bits_from bytes 0 (8 * (bulk_bits / 8))

      part : List Bool
      part = bits_from bytes (bulk_bits / 8 * 8) (bulk_bits % 8)

      size : bulk_bits ≡ 8 * (bulk_bits / 8) + bulk_bits % 8
      size = omega arith

      start : 0 + 8 * (bulk_bits / 8) ≡ bulk_bits / 8 * 8
      start = omega arith

      split : bits_from bytes 0 bulk_bits ≡ whole ++ part
      split =
          ap (λ k. bits_from bytes 0 k) size
          ∙ bits_from-add bytes 0 (8 * (bulk_bits / 8)) (bulk_bits % 8)
          ∙ ap (λ k. whole ++ bits_from bytes k (bulk_bits % 8)) start

  -- With TMS low before, the commands of a scan make exactly the clock cycles of `scan_pulses`.
  pub scan_stream-Decodes :
      (bytes : List ℕ) (num_bits : ℕ) (flip_tms do_read : Bool)
      → 0 < num_bits
      → num_bits ≤ 8 * length bytes
      → num_bits < 65504
      → Decodes false
          (scan_stream h bytes num_bits flip_tms do_read)
          (scan_pulses bytes num_bits flip_tms do_read)
          flip_tms
  unfolding scan_stream
  scan_stream-Decodes bytes num_bits true do_read some_bits enough fits =
      subst (λ ps. Decodes false (scan_stream h bytes num_bits true do_read) ps true)
        (bulk_pulses do_read bytes (num_bits - 1)
          (record { tms = true; tdi = bit_at bytes (num_bits - 1); read = do_read } ∷ []))
        (bytes_stream-Decodes do_read true bytes (num_bits - 1) _ _ (omega arith) (omega arith) (
          bits_stream-Decodes do_read true bytes (num_bits - 1) _ _
            (next (last_command-step false do_read (bit_at bytes (num_bits - 1))) done refl)))
  scan_stream-Decodes bytes num_bits false do_read some_bits enough fits =
      subst (λ ps. Decodes false (scan_stream h bytes num_bits false do_read) ps false)
        (bulk_pulses do_read bytes num_bits [] ∙ append-nil _)
        (bytes_stream-Decodes do_read false bytes num_bits _ _ (omega arith) (omega arith)
          (bits_stream-Decodes do_read false bytes num_bits _ _ done))
