-- ===== src/Blaster.antt =====
-- src/usb_blaster.cpp: the USB Blaster adapter. The device is driven by bytes, each of which sets the
-- pins or announces bytes to shift.
pub mod Pins
pub mod Decode
pub mod Yields
pub mod Clocked
pub mod Packets
pub mod Bulk
pub mod Stream
pub mod Tracking
use jtag_remote_server.Base.{
  ℕ, zero, suc, ◌+◌, ◌-◌, ◌*◌, ◌/◌, ◌%◌, ◌^◌, min, bit_or, bit_and, Bool, true, false, not, ◌||◌,
  Option, none, some, List, [], ◌∷◌, ◌++◌, if◌then◌else◌, ◌==◌, leb, ltb, length, take, drop,
  replicate, get_or, u8, u64, bit_at, or_bit, test_bit,
}
use jtag_remote_server.Tap.{next_state}
use jtag_remote_server.World.{Ftdi, World, M, pure, check, modify, or_fail, ◌>>=◌, ◌>>◌}
use jtag_remote_server.Ftdi.{ftdi_write_retry, ftdi_read_retry}
use jtag_remote_server.Jtag.{AdapterTypes, Driver}

-- The room of `recv_buffer`.
abbrev pub recv_length : ℕ
recv_length = 4096

-- `if (b) command |= mask`
abbrev pub set_if : Bool → ℕ → ℕ → ℕ
set_if b mask command = if b then bit_or command mask else command

unfoldable pub build_command : Bool → Bool → Bool → Bool → ℕ
build_command tms tdi tck read =
    set_if read 64 (bit_or (set_if tdi 16 (bit_or (bit_or (set_if tms 2 (set_if tck 1 0)) 4) 8)) 32)

-- The loop of `usb_blaster_jtag_tms_seq` and the byte behind it; `bit` is its local of that name,
-- and all bits are within the array.
unfoldable pub tms_bytes : List ℕ → ℕ → ℕ → Bool → List ℕ
unfolding build_command
tms_bytes bytes i zero bit = build_command bit false false false ∷ []
tms_bytes bytes i (suc left) bit =
    build_command (bit_at bytes i) false false false
    ∷ build_command (bit_at bytes i) false true false
    ∷ tms_bytes bytes (i + 1) left (bit_at bytes i)

-- `junk` is what stands in `bit` before it is set. A bit behind the array has no result.
unfoldable pub usb_blaster_jtag_tms_seq : Bool → List ℕ → ℕ → M Bool
unfolding tms_bytes
usb_blaster_jtag_tms_seq junk bytes num_bits =
    check (leb num_bits (8 * length bytes))
    >> ftdi_write_retry (tms_bytes bytes 0 num_bits junk) (length (tms_bytes bytes 0 num_bits junk))

-- `if (do_read)`: read `trans` bytes behind those in `recv_buffer`.
unfoldable pub read_immediately : Bool → ℕ → M Bool
read_immediately do_read trans =
    if do_read
    then (λ w.
        (do
          check (leb (length w.recv_buffer + trans) recv_length)
          (ok, got) ← ftdi_read_retry trans
          if ok
              then (do modify (λ v. record v { recv_buffer = v.recv_buffer ++ got }); pure true)
              else pure false)
          w)
    else pure true

-- `(1 << 7) | do_read_flag | trans`
unfoldable pub shift_command : Bool → ℕ → ℕ
shift_command do_read trans = u8 (bit_or (bit_or 128 (if do_read then 64 else 0)) trans)

abbrev pub max_packet_size : ℕ
max_packet_size = 32

-- The loop over the whole bytes, from byte `i` on; `rounds` bounds its rounds, each of which moves on.
unfoldable pub send_packets : ℕ → List ℕ → ℕ → ℕ → Bool → M Bool
unfolding read_immediately shift_command
send_packets zero bytes i length_in_bytes do_read w =
    if ltb i length_in_bytes then none else some (true, w)
send_packets (suc rounds) bytes i length_in_bytes do_read w =
    let trans = min (length_in_bytes - i) max_packet_size in
    let rest = send_packets rounds bytes (i + trans) length_in_bytes do_read in
    let round =
      (do
        check (leb (i + trans) (length bytes))
        or_fail
            (ftdi_write_retry (shift_command do_read trans ∷ take trans (drop i bytes)) (trans + 1))
            (or_fail (read_immediately do_read trans) rest))
        w in
    if ltb i length_in_bytes then round else some (true, w)

-- The bits left over, each with TCK low and then high.
unfoldable pub rest_bytes : List ℕ → ℕ → ℕ → Bool → List ℕ
unfolding build_command
rest_bytes bytes i zero do_read = []
rest_bytes bytes i (suc left) do_read =
    build_command false (bit_at bytes i) false false
    ∷ build_command false (bit_at bytes i) true do_read
    ∷ rest_bytes bytes (i + 1) left do_read

unfoldable pub send_rest : List ℕ → ℕ → Bool → M Bool
unfolding rest_bytes read_immediately
send_rest bytes bulk_bits do_read =
    if bulk_bits % 8 == 0
    then pure true
    else or_fail
        (ftdi_write_retry (rest_bytes bytes (bulk_bits / 8 * 8) (bulk_bits % 8) do_read)
          (length (rest_bytes bytes (bulk_bits / 8 * 8) (bulk_bits % 8) do_read)))
        (read_immediately do_read (bulk_bits % 8))

-- The last bit along TMS = 1.
unfoldable pub last_bytes : Bool → Bool → List ℕ
unfolding build_command
last_bytes bit do_read =
    build_command true bit false false
    ∷ build_command true bit true do_read
    ∷ build_command true bit false false
    ∷ []

unfoldable pub send_flip : List ℕ → ℕ → Bool → M Bool
unfolding last_bytes read_immediately
send_flip bytes num_bits do_read = do
  modify (λ w. record w { state = next_state w.state true })
  or_fail (ftdi_write_retry (last_bytes (bit_at bytes (num_bits - 1)) do_read) 3)
      (read_immediately do_read 1)

-- `bulk_bits -= 1` wraps at 0, which makes a length that no buffer has.
unfoldable pub usb_blaster_jtag_scan_chain_send : List ℕ → ℕ → Bool → Bool → M Bool
unfolding send_packets send_rest send_flip
usb_blaster_jtag_scan_chain_send bytes num_bits flip_tms do_read w =
    let bulk_bits = if flip_tms then u64 (num_bits + 2 ^ 64 - 1) else num_bits in
    (do
      check (length w.recv_buffer == 0)
      or_fail (send_packets (bulk_bits / 8) bytes 0 (bulk_bits / 8) do_read) (
          or_fail (send_rest bytes bulk_bits do_read)
            (if flip_tms then send_flip bytes num_bits do_read else pure true)))
      w

-- The loop over the bits left over: byte `offset + i` of `recv_buffer` holds one.
unfoldable pub unpack_bits : List ℕ → ℕ → ℕ → ℕ → List ℕ → List ℕ
unpack_bits got offset bit zero recv = recv
unpack_bits got offset bit (suc left) recv =
    unpack_bits got (offset + 1) (bit + 1) left (or_bit recv bit (test_bit (get_or got offset 0) 0))

-- The array that the scan is read into, from what `recv_buffer` holds.
unfoldable pub unpack : List ℕ → List ℕ → ℕ → ℕ → Bool → List ℕ
unfolding unpack_bits
unpack got recv num_bits bulk_bits flip_tms =
    let cleared = replicate ((bulk_bits + 7) / 8) 0 ++ drop ((bulk_bits + 7) / 8) recv in
    let whole = take (bulk_bits / 8) got ++ drop (bulk_bits / 8) cleared in
    let filled = unpack_bits got (bulk_bits / 8) (bulk_bits / 8 * 8) (bulk_bits % 8) whole in
    if flip_tms
    then or_bit filled (num_bits - 1) (test_bit (get_or got (bulk_bits / 8 + bulk_bits % 8) 0) 0)
    else filled

-- Reading behind the received bytes comes with a failed assertion at the end.
unfoldable pub usb_blaster_jtag_scan_chain_recv : List ℕ → ℕ → Bool → M (Bool × List ℕ)
unfolding unpack
usb_blaster_jtag_scan_chain_recv recv num_bits flip_tms w =
    let bulk_bits = if flip_tms then u64 (num_bits + 2 ^ 64 - 1) else num_bits in
    (do
      check (leb ((bulk_bits + 7) / 8) (length recv))
      check (not flip_tms || leb ((num_bits + 7) / 8) (length recv))
      check (bulk_bits / 8 + bulk_bits % 8 + (if flip_tms then 1 else 0) == length w.recv_buffer)
      modify (λ v. record v { recv_buffer = [] })
      pure (true, unpack w.recv_buffer recv num_bits bulk_bits flip_tms))
      w

module _ (junk : Bool) where
  -- `while (ftdi_read_data(ftdi, &data, 1) > 0);`, with a bound on its rounds.
  unfoldable pub drain : ℕ → M (Unit {0})
  drain zero w = none
  drain (suc tries) w =
      let rest = drain tries (record w { ftdi = record (w.ftdi) { calls = w.ftdi.calls + 1 } }) in
      let stopped = some (tt, record w { ftdi = record (w.ftdi) { calls = w.ftdi.calls + 1 } }) in
      elim (w.ftdi.read_data w.ftdi.calls 1) [
        | none ↦ stopped
        | some bytes ↦ if length bytes == 0 then stopped else rest
      ]

  -- `buffer[i] = build_command(0, 0, i % 2, false)`
  unfoldable pub idle_clocks : ℕ → ℕ → List ℕ
  unfolding build_command
  idle_clocks i zero = []
  idle_clocks i (suc left) = build_command false false (i % 2 == 1) false ∷ idle_clocks (i + 1) left

  -- Behind the opening of the device, which `opened` says has worked.
  unfoldable pub usb_blaster_init : ℕ → Bool → AdapterTypes → M Bool
  unfolding drain idle_clocks usb_blaster_jtag_tms_seq
  usb_blaster_init tries opened adapter_type =
      if opened
      then or_fail (ftdi_write_retry (idle_clocks 0 4096) 4096)
          (do drain tries; sent ← usb_blaster_jtag_tms_seq junk (0xff ∷ []) 5; pure true)
      else pure false

  unfoldable pub usb_blaster_driver : ℕ → Bool → Driver
  usb_blaster_driver tries opened = record {
    init = usb_blaster_init tries opened;
    deinit = pure true;
    set_tck_freq = λ freq_mhz. pure true;
    jtag_tms_seq = usb_blaster_jtag_tms_seq junk;
    jtag_scan_chain_send = usb_blaster_jtag_scan_chain_send;
    jtag_scan_chain_recv = usb_blaster_jtag_scan_chain_recv;
    jtag_clock_tck = λ times. pure true;
  }
