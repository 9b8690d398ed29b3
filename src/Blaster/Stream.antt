-- ===== src/Blaster/Stream.antt =====
-- The operations of the USB Blaster driver, through what they write, to the clock cycles on the pins.
use jtag_remote_server.Base.{
  leb, ℕ, ◌+◌, ◌-◌, ◌*◌, ◌/◌, ◌%◌, ◌≤◌, ◌≡◌, refl, Bool, true, false, List, map, arith, length,
  bits_from,
}
use jtag_remote_server.World.{World, ◌>>=◌}
use jtag_remote_server.Ftdi.Retry.{IsHonest}
use jtag_remote_server.Blaster.{tms_bytes, usb_blaster_jtag_tms_seq}
use jtag_remote_server.Blaster.Pins.{Drives}
use jtag_remote_server.Blaster.Decode.{tms_bytes-Drives}
use jtag_remote_server.Blaster.Yields.{Yields, write-Yields}

-- How many bytes a scan gives back: one for each whole byte, and one for each bit besides.
abbrev pub answers : ℕ → Bool → ℕ
answers num_bits true = (num_bits - 1) / 8 + (num_bits - 1) % 8 + 1
answers num_bits false = num_bits / 8 + num_bits % 8

-- A TMS sequence that the array holds returns. On success it has written bytes that the device turns into one clock cycle for
-- each bit, with that bit on TMS and TDI low, whatever was on the pins before; the state is as before.
pub tms_seq-Drives :
    (junk tms : Bool) (bytes : List ℕ) (num_bits : ℕ) (w : World)
    → IsHonest w.ftdi
    → num_bits ≤ 8 * length bytes
    → (stream : List ℕ) × (last : Bool) × Drives tms stream
        (map (λ b. record { tms = b; tdi = false; read = false }) (bits_from bytes 0 num_bits))
        last
      × Yields stream 0 w.state w (usb_blaster_jtag_tms_seq junk bytes num_bits w)
unfolding usb_blaster_jtag_tms_seq
tms_seq-Drives junk tms bytes num_bits w honest enough =
    let (last, drives) = tms_bytes-Drives bytes 0 num_bits junk tms in
    (
      tms_bytes bytes 0 num_bits junk,
      last,
      drives,
      rw (within, ◌>>=◌) (write-Yields (tms_bytes bytes 0 num_bits junk) _ w honest refl),
    )
  where
    within : leb num_bits (8 * length bytes) ≡ true
    within = ground (arith, enough)
