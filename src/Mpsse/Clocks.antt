-- ===== src/Mpsse/Clocks.antt =====
-- What the MPSSE adapter does on the pins: its operations, through the buffer and the engine.
use jtag_remote_server.Base.{
  ℕ, ◌+◌, ◌*◌, ◌/◌, ◌≤◌, ◌<◌, Bool, true, false, List, get_or, if◌then◌else◌, length, bits_from,
  arith,
}
use jtag_remote_server.Header.{Header}
use jtag_remote_server.Tap.{next_state}
use jtag_remote_server.World.{World}
use jtag_remote_server.Ftdi.Retry.{IsHonest}
use jtag_remote_server.Mpsse.Driver.{mpsse_jtag_tms_seq, mpsse_jtag_scan_chain_send}
use jtag_remote_server.Mpsse.Ensures.{Ensures}
use jtag_remote_server.Mpsse.Stream.{
  tms_stream, tms_chunks-Ensures, scan_stream, scan_chain_send-Ensures,
}
use jtag_remote_server.Mpsse.Engine.{IsDocumented, Decodes, tms_pulses}
use jtag_remote_server.Mpsse.Decode.{tms_stream-Decodes}
use jtag_remote_server.Mpsse.Scan.{scan_pulses, scan_stream-Decodes}

module _ (h : Header) (doc : IsDocumented h) where
  -- `mpsse_jtag_tms_seq` of at most 7 bits that the array holds returns without overrunning its buffer.
  -- On success it has appended commands which the engine turns into one clock cycle for each bit, with
  -- that bit on TMS and TDI at bit 7 of the byte, and the state is as before; it succeeds if the buffer
  -- was within its array and the device takes at least 82 bytes of each write, or all of it.
  pub tms_seq_clocks :
      (bytes : List ℕ) (num_bits : ℕ) (line : Bool) (w : World)
      → IsHonest w.ftdi
      → num_bits ≤ 7
      → num_bits ≤ 8 * length bytes
      → (commands : List ℕ) × (last : Bool) × Decodes line commands
          (tms_pulses false (get_or bytes 0 0) (bits_from bytes 0 num_bits))
          last
        × Ensures commands w.state w (mpsse_jtag_tms_seq h bytes num_bits w)
  unfolding mpsse_jtag_tms_seq
  tms_seq_clocks bytes num_bits line w honest few enough =
      let (last, decodes) = tms_stream-Decodes h doc bytes num_bits line few in
      (
        tms_stream h bytes num_bits 0 ((num_bits + 7) / 8),
        last,
        decodes,
        tms_chunks-Ensures h bytes num_bits 0 ((num_bits + 7) / 8) w honest (omega (arith, enough)),
      )

  -- `mpsse_jtag_scan_chain_send` of 1 to 65503 bits that the array holds returns without overrunning
  -- its buffer. On success it has appended commands which, with TMS low before, the engine turns
  -- into one clock cycle for each bit, with that bit on TDI and TDO sampled as asked; TMS is low
  -- but at the last bit, where it is `flip_tms`. The state moves along TMS = 1 with `flip_tms`, and
  -- is as before without.
  pub scan_chain_send_clocks :
      (bytes : List ℕ) (num_bits : ℕ) (flip_tms do_read : Bool) (w : World)
      → IsHonest w.ftdi
      → 0 < num_bits
      → num_bits ≤ 8 * length bytes
      → num_bits < 65504
      → (commands : List ℕ) × Decodes false commands
          (scan_pulses bytes num_bits flip_tms do_read)
          flip_tms
        × Ensures commands
            (if flip_tms then next_state w.state true else w.state)
            w
            (mpsse_jtag_scan_chain_send h bytes num_bits flip_tms do_read w)
  scan_chain_send_clocks bytes num_bits flip_tms do_read w honest some_bits enough fits = (
    scan_stream h bytes num_bits flip_tms do_read,
    scan_stream-Decodes h doc bytes num_bits flip_tms do_read some_bits enough fits,
    scan_chain_send-Ensures h bytes num_bits flip_tms do_read w honest some_bits enough fits,
  )
