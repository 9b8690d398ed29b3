-- ===== src/Blaster/Bulk.antt =====
-- The three parts of a USB Blaster scan in a row.
use native.Mathlib.Nat.{zero-add}
use jtag_remote_server.Base.{
  ℕ, ◌+◌, ◌-◌, ◌*◌, ◌/◌, ◌%◌, ◌≤◌, ◌<◌, ◌≡◌, refl, sym, ap, ap₂, ◌∙◌, Bool, true, false, Option,
  none, some, List, [], ◌∷◌, ◌++◌, arith, if◌then◌else◌, length, bit_at, bits_from, bits_from-add,
  append-nil, append_assoc,
}
use jtag_remote_server.Tap.{JtagState, next_state}
use jtag_remote_server.World.{World, M, pure, or_fail}
use jtag_remote_server.Ftdi.{ftdi_write_retry}
use jtag_remote_server.Mpsse.Engine.{Pulse, shift_pulses}
use jtag_remote_server.Mpsse.Scan.{scan_pulses}
use jtag_remote_server.Blaster.{read_immediately, send_packets, send_rest, last_bytes, send_flip}
use jtag_remote_server.Blaster.Decode.{shift_pulses-append, last_bytes-Drives}
use jtag_remote_server.Blaster.Yields.{Yields}
use jtag_remote_server.Blaster.Clocked.{
  Clocks, stay, Clocks-nil, Clocks-or_fail, read_Clocks, write_Clocks, Clocks-cast,
}
use jtag_remote_server.Blaster.Packets.{send_packets-Clocks, send_rest-Clocks}

-- What is said of the device and of `recv_buffer` does not depend on the state at the start.
Yields-moved :
    (bytes : List ℕ) (n : ℕ) (t s : JtagState) (w : World) (r : Option (Bool × World))
    → Yields bytes n t (record w { state = s }) r
    → Yields bytes n t w r
Yields-moved bytes n t s w none y = y
Yields-moved bytes n t s w (some (ok, w')) y = record {
  sent = y.sent;
  received = y.received;
  arrived = y.arrived;
  same_device = y.same_device;
}

send_flip-Clocks :
    (bytes : List ℕ) (num_bits : ℕ) (do_read : Bool)
    → Clocks
        (send_flip bytes num_bits do_read)
        (record { tms = true; tdi = bit_at bytes (num_bits - 1); read = do_read } ∷ [])
        false
        true
        (if do_read then 1 else 0)
        (λ s. next_state s true)
unfolding send_flip stay
send_flip-Clocks bytes num_bits do_read = record {
  stream = c.stream;
  drives = c.drives;
  yields = λ w honest room.
      moved w (c.yields (record w { state = next_state w.state true }) honest room);
}
  where
    bits : List ℕ
    bits = last_bytes (bit_at bytes (num_bits - 1)) do_read

    rest : M Bool
    rest = or_fail (ftdi_write_retry bits 3) (read_immediately do_read 1)

    c :
        Clocks rest
          (record { tms = true; tdi = bit_at bytes (num_bits - 1); read = do_read } ∷ [])
          false
          true
          (if do_read then 1 else 0)
          stay
    c =
        Clocks-cast (λ w. refl) refl (zero-add _)
          (Clocks-or_fail
            (write_Clocks bits 3 _ false true refl
              (last_bytes-Drives (bit_at bytes (num_bits - 1)) do_read))
            (read_Clocks do_read 1 true))

    moved :
        (w : World)
        → Yields c.stream
            (if do_read then 1 else 0)
            (next_state w.state true)
            (record w { state = next_state w.state true })
            (rest (record w { state = next_state w.state true }))
        → Yields c.stream
            (if do_read then 1 else 0)
            (next_state w.state true)
            w
            (send_flip bytes num_bits do_read w)
    moved w y = Yields-moved c.stream _ _ (next_state w.state true) w _ y

-- Whole bytes and the bits left over make all bits.
bulk_pulses :
    (bytes : List ℕ) (bulk_bits n : ℕ) (do_read : Bool) (tail : List Pulse)
    → bulk_bits ≡ n
    → shift_pulses false do_read (bits_from bytes (0 * 8) ((bulk_bits / 8 - 0) * 8))
        ++ (shift_pulses false do_read (bits_from bytes (bulk_bits / 8 * 8) (bulk_bits % 8))
            ++ tail)
      ≡ shift_pulses false do_read (bits_from bytes 0 n) ++ tail
bulk_pulses bytes bulk_bits n do_read tail e =
    sym (
      append_assoc (shift_pulses false do_read (bits_from bytes (0 * 8) ((bulk_bits / 8 - 0) * 8)))
        _ tail)
    ∙ ap (λ ps. ps ++ tail)
        (sym (
            shift_pulses-append false do_read (bits_from bytes (0 * 8) ((bulk_bits / 8 - 0) * 8)) _)
          ∙ ap (shift_pulses false do_read) (
              ap₂ (λ j k. bits_from bytes 0 j ++ bits_from bytes k (bulk_bits % 8)) size start
              ∙ sym (bits_from-add bytes 0 (bulk_bits / 8 * 8) (bulk_bits % 8))
              ∙ ap (bits_from bytes 0) whole))
  where
    size : (bulk_bits / 8 - 0) * 8 ≡ bulk_bits / 8 * 8
    size = omega arith

    start : bulk_bits / 8 * 8 ≡ 0 + bulk_bits / 8 * 8
    start = omega arith

    whole : bulk_bits / 8 * 8 + bulk_bits % 8 ≡ n
    whole = omega (arith, e)

-- The three parts of a scan.
pub parts-Clocks :
    (bytes : List ℕ) (num_bits bulk_bits : ℕ) (flip_tms do_read : Bool)
    → bulk_bits ≡ (if flip_tms then num_bits - 1 else num_bits)
    → 0 < num_bits
    → num_bits ≤ 8 * length bytes
    → Clocks
        (or_fail (send_packets (bulk_bits / 8) bytes 0 (bulk_bits / 8) do_read) (
          or_fail
            (send_rest bytes bulk_bits do_read)
            (if flip_tms then send_flip bytes num_bits do_read else pure true)))
        (scan_pulses bytes num_bits flip_tms do_read)
        false
        flip_tms
        (if do_read then bulk_bits / 8 + bulk_bits % 8 + (if flip_tms then 1 else 0) else 0)
        (λ s. if flip_tms then next_state s true else s)
unfolding stay
parts-Clocks bytes num_bits bulk_bits true do_read e some_bits enough =
    Clocks-cast (λ w. refl) (bulk_pulses bytes bulk_bits (num_bits - 1) do_read _ e) (ground arith)
      (Clocks-or_fail
        (send_packets-Clocks (bulk_bits / 8) bytes 0 (bulk_bits / 8) do_read (omega arith)
          (omega arith) (omega (arith, e)))
        (Clocks-or_fail (send_rest-Clocks bytes bulk_bits do_read)
          (send_flip-Clocks bytes num_bits do_read)))
parts-Clocks bytes num_bits bulk_bits false do_read e some_bits enough =
    Clocks-cast (λ w. refl) (bulk_pulses bytes bulk_bits num_bits do_read [] e ∙ append-nil _)
      (ground arith)
      (Clocks-or_fail
        (send_packets-Clocks (bulk_bits / 8) bytes 0 (bulk_bits / 8) do_read (omega arith)
          (omega arith) (omega (arith, e)))
        (Clocks-or_fail (send_rest-Clocks bytes bulk_bits do_read) (Clocks-nil false)))
