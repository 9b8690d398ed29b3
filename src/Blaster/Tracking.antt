-- ===== src/Blaster/Tracking.antt =====
-- The USB Blaster driver moves the tracked TAP state where it should, and nowhere else.
use jtag_remote_server.Base.{
  ℕ, zero, suc, ◌+◌, ◌-◌, ◌*◌, ◌/◌, ◌%◌, ◌^◌, min, refl, subst, Bool, true, false, not, ◌||◌, none,
  some, List, [], ◌∷◌, ◌++◌, if◌then◌else◌, ◌==◌, leb, ltb, length, take, drop, u64, bit_at,
}
use jtag_remote_server.Tap.{next_state}
use jtag_remote_server.World.{World, M, pure, check, or_fail, modify, ◌>>◌}
use jtag_remote_server.World.Keeps.{
  KeepsState, Ends, Reaches-fails, Ends-if, KeepsState->>=, KeepsState->>, KeepsState-pure,
  KeepsState-check, KeepsState-if, KeepsState-or_fail, KeepsState-run, Reaches, Reaches-of_Ends,
  Reaches-or_fail, Reaches-run, View, outside, view,
}
use jtag_remote_server.Ftdi.{ftdi_write_retry, ftdi_read_retry}
use jtag_remote_server.Jtag.Law.{IsTracking, IsQuiet}
use jtag_remote_server.Jtag.Views.{Views, IsTracking-of_Views, IsQuiet-of_Views}
use jtag_remote_server.Blaster.{
  max_packet_size, recv_length, usb_blaster_jtag_tms_seq, shift_command, read_immediately,
  send_packets, rest_bytes, send_rest, last_bytes, send_flip, unpack,
  usb_blaster_jtag_scan_chain_send, usb_blaster_jtag_scan_chain_recv, usb_blaster_driver,
}

write_retry-KeepsState : (bytes : List ℕ) (n : ℕ) → KeepsState (ftdi_write_retry bytes n)
unfolding ftdi_write_retry
write_retry-KeepsState bytes n w = refl

stored-KeepsState :
    (ok : Bool) (got : List ℕ)
    → KeepsState (
        if ok
        then (modify (λ v. record v { recv_buffer = v.recv_buffer ++ got }) >> pure true)
        else pure false)
stored-KeepsState true got w = refl
stored-KeepsState false got w = refl

read_immediately-KeepsState :
    (do_read : Bool) (trans : ℕ) → KeepsState (read_immediately do_read trans)
unfolding read_immediately ftdi_read_retry
read_immediately-KeepsState false trans w = refl
read_immediately-KeepsState true trans w =
    KeepsState->> (check (leb (length w.recv_buffer + trans) recv_length)) _ (KeepsState-check _)
      (KeepsState->>= (ftdi_read_retry trans) _ (λ v. refl) (λ (ok, got). stored-KeepsState ok got))
      w

send_packets-KeepsState :
    (rounds : ℕ) (bytes : List ℕ) (i len : ℕ) (do_read : Bool)
    → KeepsState (send_packets rounds bytes i len do_read)
unfolding send_packets
send_packets-KeepsState zero bytes i len do_read w =
    Ends-if (view w) (ltb i len) none (some (true, w)) tt refl
send_packets-KeepsState (suc rounds) bytes i len do_read w =
    Ends-if (view w) (ltb i len) _ (some (true, w))
      (KeepsState->> (check (leb (i + trans) (length bytes))) _ (KeepsState-check _)
        (KeepsState-or_fail _ _
          (write_retry-KeepsState (shift_command do_read trans ∷ take trans (drop i bytes))
            (trans + 1))
          (KeepsState-or_fail _ _ (read_immediately-KeepsState do_read trans)
            (send_packets-KeepsState rounds bytes (i + trans) len do_read)))
        w)
      refl
  where
    trans : ℕ
    trans = min (len - i) max_packet_size

send_rest-KeepsState :
    (bytes : List ℕ) (bulk_bits : ℕ) (do_read : Bool)
    → KeepsState (send_rest bytes bulk_bits do_read)
unfolding send_rest
send_rest-KeepsState bytes bulk_bits do_read =
    KeepsState-if (bulk_bits % 8 == 0) (pure true) _ (KeepsState-pure true) (
      KeepsState-or_fail _ _
        (write_retry-KeepsState (rest_bytes bytes (bulk_bits / 8 * 8) (bulk_bits % 8) do_read) _)
        (read_immediately-KeepsState do_read (bulk_bits % 8)))

last_part :
    (bytes : List ℕ) (num_bits : ℕ) (flip_tms do_read : Bool) (w : World)
    → Reaches
        (view w)
        ((if flip_tms then next_state w.state true else w.state), outside w)
        ((if flip_tms then send_flip bytes num_bits do_read else pure true) w)
unfolding send_flip
last_part bytes num_bits true do_read w =
    Reaches-of_Ends (view w) (next_state w.state true, outside w) _
      (KeepsState-or_fail _ _
        (write_retry-KeepsState (last_bytes (bit_at bytes (num_bits - 1)) do_read) 3)
        (read_immediately-KeepsState do_read 1) (record w { state = next_state w.state true }))
last_part bytes num_bits false do_read w = refl

Reaches-check :
    (b : Bool) (k : M Bool) (s t : View) (w : World)
    → Reaches s t (k w)
    → Reaches s t ((check b >> k) w)
Reaches-check true k s t w r = r
Reaches-check false k s t w r = tt

send-Reaches :
    (bytes : List ℕ) (num_bits bulk_bits : ℕ) (flip_tms do_read : Bool) (w : World)
    → Reaches
        (view w)
        ((if flip_tms then next_state w.state true else w.state), outside w)
        ((check (length w.recv_buffer == 0)
            >> or_fail (send_packets (bulk_bits / 8) bytes 0 (bulk_bits / 8) do_read) (
                or_fail
                  (send_rest bytes bulk_bits do_read)
                  (if flip_tms then send_flip bytes num_bits do_read else pure true)))
          w)
send-Reaches bytes num_bits bulk_bits flip_tms do_read w =
    Reaches-check (length w.recv_buffer == 0) (or_fail packets (or_fail rest last)) (view w) end w (
      Reaches-or_fail packets (or_fail rest last) (view w) end w
        (send_packets-KeepsState (bulk_bits / 8) bytes 0 (bulk_bits / 8) do_read w)
        λ w' e.
          Reaches-or_fail rest last (view w) end w'
            (subst (λ s. Ends s (rest w')) e (send_rest-KeepsState bytes bulk_bits do_read w'))
            λ w'' f.
              subst
                (λ s.
                  Reaches s ((if flip_tms then next_state s.0 true else s.0), s.1)
                    ((if flip_tms then send_flip bytes num_bits do_read else pure true) w''))
                f (last_part bytes num_bits flip_tms do_read w''))
  where
    packets : M Bool
    packets = send_packets (bulk_bits / 8) bytes 0 (bulk_bits / 8) do_read

    rest : M Bool
    rest = send_rest bytes bulk_bits do_read

    last : M Bool
    last = if flip_tms then send_flip bytes num_bits do_read else pure true

    end : View
    end = ((if flip_tms then next_state w.state true else w.state), outside w)

checked-KeepsState :
    (a b c : Bool) (result : Bool × List ℕ)
    → KeepsState (
        check a
        >> (check b >> (check c >> (modify (λ v. record v { recv_buffer = [] }) >> pure result))))
checked-KeepsState true true true result w = refl
checked-KeepsState true true false result w = tt
checked-KeepsState true false c result w = tt
checked-KeepsState false b c result w = tt

recv-KeepsState :
    (recv : List ℕ) (num_bits : ℕ) (flip_tms : Bool)
    → KeepsState (usb_blaster_jtag_scan_chain_recv recv num_bits flip_tms)
unfolding usb_blaster_jtag_scan_chain_recv
recv-KeepsState recv num_bits flip_tms w =
    checked-KeepsState (leb ((bulk_bits + 7) / 8) (length recv))
      (not flip_tms || leb ((num_bits + 7) / 8) (length recv))
      (bulk_bits / 8 + bulk_bits % 8 + (if flip_tms then 1 else 0) == length w.recv_buffer)
      (true, unpack w.recv_buffer recv num_bits bulk_bits flip_tms) w
  where
    bulk_bits : ℕ
    bulk_bits = if flip_tms then u64 (num_bits + 2 ^ 64 - 1) else num_bits

usb_blaster_driver-Views :
    (junk : Bool) (tries : ℕ) (opened : Bool) → Views (usb_blaster_driver junk tries opened)
unfolding usb_blaster_driver usb_blaster_jtag_tms_seq usb_blaster_jtag_scan_chain_send
    usb_blaster_jtag_scan_chain_recv
usb_blaster_driver-Views junk tries opened = record {
  set_tck_freq = λ freq_mhz w w' ok e. KeepsState-run (pure true) w w' ok (KeepsState-pure true) e;
  tms_seq = λ bytes num_bits w w' ok e.
      KeepsState-run (usb_blaster_jtag_tms_seq junk bytes num_bits) w w' ok
        (KeepsState->> (check (leb num_bits (8 * length bytes))) _ (KeepsState-check _)
          (write_retry-KeepsState _ _))
        e;
  send = λ bytes num_bits flip_tms do_read w w' e.
      Reaches-run (usb_blaster_jtag_scan_chain_send bytes num_bits flip_tms do_read) w w' _ _
        (send-Reaches bytes num_bits (if flip_tms then u64 (num_bits + 2 ^ 64 - 1) else num_bits)
          flip_tms do_read w)
        e;
  send_fails = λ bytes num_bits flip_tms do_read w w' e.
      Reaches-fails (usb_blaster_jtag_scan_chain_send bytes num_bits flip_tms do_read) w w' _ _
        (send-Reaches bytes num_bits (if flip_tms then u64 (num_bits + 2 ^ 64 - 1) else num_bits)
          flip_tms do_read w)
        e;
  recv = λ recv num_bits flip_tms w w' result e.
      KeepsState-run (usb_blaster_jtag_scan_chain_recv recv num_bits flip_tms) w w' result
        (recv-KeepsState recv num_bits flip_tms) e;
  clock_tck = λ times w w' ok e. KeepsState-run (pure true) w w' ok (KeepsState-pure true) e;
}

-- TMS sequences, reads and runs of the clock of the USB Blaster driver leave the tracked TAP state as it
-- is, if they return; a scan that succeeds has moved it along TMS = 1 with `flip_tms`, and left it as it
-- is without; one that fails has left it, or moved it as a success would.
pub usb_blaster_driver-IsTracking :
    (junk : Bool) (tries : ℕ) (opened : Bool) → IsTracking (usb_blaster_driver junk tries opened)
usb_blaster_driver-IsTracking junk tries opened =
    IsTracking-of_Views (usb_blaster_driver junk tries opened)
      (usb_blaster_driver-Views junk tries opened)

-- TMS sequences, reads, runs of the clock, and scans that succeed, leave the socket and its buffer alone.
pub usb_blaster_driver-IsQuiet :
    (junk : Bool) (tries : ℕ) (opened : Bool) → IsQuiet (usb_blaster_driver junk tries opened)
usb_blaster_driver-IsQuiet junk tries opened =
    IsQuiet-of_Views (usb_blaster_driver junk tries opened)
      (usb_blaster_driver-Views junk tries opened)
