-- ===== src/Blaster/Packets.antt =====
-- The whole bytes of a USB Blaster scan, and the bits that are left over.
use native.Mathlib.Nat.{zero-add}
use jtag_remote_server.Base.{
  ℕ, zero, suc, ◌+◌, ◌-◌, ◌*◌, ◌/◌, ◌%◌, ◌≤◌, min, ◌≡◌, refl, sym, ap, ◌∙◌, Bool, true, false, some,
  List, ◌∷◌, ◌++◌, arith, if◌then◌else◌, ◌==◌, leb, ltb, length, take, drop, length-take,
  length-drop, bits_from, bits_from-add, Bool-cases, inl, inr, append-nil,
}
use jtag_remote_server.World.{World, M, ◌>>=◌}
use jtag_remote_server.Mpsse.Engine.{shift_pulses}
use jtag_remote_server.Blaster.{max_packet_size, shift_command, send_packets, rest_bytes, send_rest}
use jtag_remote_server.Blaster.Decode.{shift_pulses-append, packet-Drives, rest_bytes-Drives}
use jtag_remote_server.Blaster.Clocked.{
  Clocks, stay, no_bits, Clocks-nil, Clocks-or_fail, read_Clocks, write_Clocks, Clocks-cast,
}

-- All bytes are sent.
no_packets-Clocks :
    (m : M Bool) (bytes : List ℕ) (i len : ℕ) (do_read : Bool)
    → ltb i len ≡ false
    → ((w : World) → m w ≡ some (true, w))
    → Clocks m
        (shift_pulses false do_read (bits_from bytes (i * 8) ((len - i) * 8)))
        false
        false
        (if do_read then len - i else 0)
        stay
no_packets-Clocks m bytes i len do_read e stops =
    Clocks-cast stops
      (sym (
        ap (shift_pulses false do_read)
          (ap (bits_from bytes (i * 8)) over ∙ no_bits bytes (i * 8))))
      (ground arith) (Clocks-nil false)
  where
    over : (len - i) * 8 ≡ 0
    over = ground arith

pub send_packets-Clocks :
    (rounds : ℕ) (bytes : List ℕ) (i len : ℕ) (do_read : Bool)
    → i ≤ len
    → len ≤ i + rounds
    → len ≤ length bytes
    → Clocks
        (send_packets rounds bytes i len do_read)
        (shift_pulses false do_read (bits_from bytes (i * 8) ((len - i) * 8)))
        false
        false
        (if do_read then len - i else 0)
        stay
unfolding send_packets
send_packets-Clocks zero bytes i len do_read below enough fits =
    no_packets-Clocks (send_packets zero bytes i len do_read) bytes i len do_read over
      (λ w. rw over refl)
  where
    over : ltb i len ≡ false
    over = ground arith
send_packets-Clocks (suc rounds) bytes i len do_read below enough fits =
    elim (Bool-cases (ltb i len)) [
      | inl e ↦
          Clocks-cast (λ w. rw (e, inside e, ◌>>=◌) refl) pulses (counts e)
            (Clocks-or_fail
              (write_Clocks (shift_command do_read trans ∷ take trans (drop i bytes)) (trans + 1) _
                false false (size e)
                (packet-Drives false do_read trans i bytes (omega arith) (omega arith)))
              (Clocks-or_fail (read_Clocks do_read trans false) (
                send_packets-Clocks rounds bytes (i + trans) len do_read (omega arith)
                  (ground arith) fits)))
      | inr e ↦
          no_packets-Clocks (send_packets (suc rounds) bytes i len do_read) bytes i len do_read e
            (λ w. rw e refl)
    ]
  where
    trans : ℕ
    trans = min (len - i) max_packet_size

    inside : ltb i len ≡ true → leb (i + trans) (length bytes) ≡ true
    inside e = ground arith

    size :
        ltb i len ≡ true
        → length (shift_command do_read trans ∷ take trans (drop i bytes)) ≡ trans + 1
    size e = omega (arith, length-take trans (drop i bytes), length-drop i bytes)

    counts :
        ltb i len ≡ true
        → 0 + ((if do_read then trans else 0) + (if do_read then len - (i + trans) else 0))
          ≡ (if do_read then len - i else 0)
    counts e = ground arith

    pulses :
        shift_pulses false do_read (bits_from bytes (i * 8) (trans * 8))
          ++ shift_pulses false do_read
              (bits_from bytes ((i + trans) * 8) ((len - (i + trans)) * 8))
        ≡ shift_pulses false do_read (bits_from bytes (i * 8) ((len - i) * 8))
    pulses =
        sym (shift_pulses-append false do_read (bits_from bytes (i * 8) (trans * 8)) _)
        ∙ ap (shift_pulses false do_read) (
            ap
              (λ k.
                bits_from bytes (i * 8) (trans * 8) ++ bits_from bytes k ((len - (i + trans)) * 8))
              next
            ∙ sym (bits_from-add bytes (i * 8) (trans * 8) ((len - (i + trans)) * 8))
            ∙ ap (bits_from bytes (i * 8)) whole)
      where
        next : (i + trans) * 8 ≡ i * 8 + trans * 8
        next = omega arith

        whole : trans * 8 + (len - (i + trans)) * 8 ≡ (len - i) * 8
        whole = omega arith

length-rest_bytes :
    (bytes : List ℕ) (i left : ℕ) (do_read : Bool)
    → length (rest_bytes bytes i left do_read) ≡ 2 * left
unfolding rest_bytes
length-rest_bytes bytes i zero do_read = refl
length-rest_bytes bytes i (suc left) do_read =
    omega (arith, length-rest_bytes bytes (i + 1) left do_read)

pub send_rest-Clocks :
    (bytes : List ℕ) (bulk_bits : ℕ) (do_read : Bool)
    → Clocks
        (send_rest bytes bulk_bits do_read)
        (shift_pulses false do_read (bits_from bytes (bulk_bits / 8 * 8) (bulk_bits % 8)))
        false
        false
        (if do_read then bulk_bits % 8 else 0)
        stay
unfolding send_rest
send_rest-Clocks bytes bulk_bits do_read = elim (Bool-cases (bulk_bits % 8 == 0)) [
  | inl e ↦
      Clocks-cast (λ w. rw e refl)
        (sym (
          ap (shift_pulses false do_read) (
            ap (bits_from bytes (bulk_bits / 8 * 8)) (over e) ∙ no_bits bytes (bulk_bits / 8 * 8))))
        (ground arith) (Clocks-nil false)
  | inr e ↦
      Clocks-cast (λ w. rw e refl) (append-nil _) (zero-add _)
        (Clocks-or_fail
          (write_Clocks (rest_bytes bytes (bulk_bits / 8 * 8) (bulk_bits % 8) do_read) _ _ false
            false refl (rest_bytes-Drives bytes (bulk_bits / 8 * 8) (bulk_bits % 8) do_read))
          (read_Clocks do_read (bulk_bits % 8) false))
]
  where
    over : (bulk_bits % 8 == 0) ≡ true → bulk_bits % 8 ≡ 0
    over e = ground arith
