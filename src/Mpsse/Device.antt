-- ===== src/Mpsse/Device.antt =====
-- src/mpsse.cpp: reading TDO back, the clock, and the driver as a whole.
use jtag_remote_server.Base.{
  ℕ, zero, suc, ◌+◌, ◌-◌, ◌/◌, ◌%◌, ◌^◌, bit_and, Bool, true, false, not, ◌||◌, Option, none, some,
  List, [], ◌∷◌, ◌++◌, if◌then◌else◌, ◌==◌, leb, ltb, length, drop, get_or, set, replicate, u8, u64,
  or_bit, test_bit,
}
use jtag_remote_server.Header.{Header}
use jtag_remote_server.World.{M, pure, check, or_fail, ◌>>=◌, ◌>>◌}
use jtag_remote_server.Ftdi.{ftdi_write_retry}
use jtag_remote_server.Jtag.{AdapterTypes, xilinx, digilent_hs2, digilent_hs3, Driver}
use jtag_remote_server.Mpsse.Buffer.{
  mpsse_buffer_init, mpsse_buffer_is_empty, mpsse_buffer_flush, mpsse_buffer_ensure_space,
  mpsse_buffer_append_byte,
}
use jtag_remote_server.Mpsse.Driver.{mpsse_jtag_tms_seq, mpsse_jtag_scan_chain_send}

-- One call of `ftdi_read_data(ftdi, buf, count)`.
unfoldable pub read_data : ℕ → M (Option (List ℕ))
read_data count w = some (
  w.ftdi.read_data w.ftdi.calls count,
  record w { ftdi = record (w.ftdi) { calls = w.ftdi.calls + 1 } },
)

-- Bytes written over the start of an array.
abbrev pub overlay : List ℕ → List ℕ → List ℕ
overlay bytes array = bytes ++ drop (length bytes) array

-- `while (len > offset)` of `mpsse_jtag_scan_chain_recv`; the first `offset` bytes are `got`. The
-- loop has no bound in the source: `none` if it still runs after `tries` reads.
unfoldable pub read_bulk : ℕ → ℕ → List ℕ → M (Bool × List ℕ)
read_bulk zero len got w = if ltb (length got) len then none else some ((true, got), w)
read_bulk (suc tries) len got w =
    let again =
      (read_data (len - length got) >>= λ r. elim r [
        | none ↦ pure (false, got)
        | some bytes ↦ read_bulk tries len (got ++ bytes)
      ])
        w in
    if ltb (length got) len then again else some ((true, got), w)

-- `while (ftdi_read_data(ftdi, &last_bit, 1) != 1);`
unfoldable pub read_last : ℕ → M ℕ
read_last zero w = none
read_last (suc tries) w =
    (read_data 1 >>= λ r. elim r [
      | none ↦ read_last tries
      | some bytes ↦ elim bytes [
        | [] ↦ read_last tries
        | b ∷ bs ↦ elim bs [ [] ↦ pure b | _ ↦ read_last tries ]
      ]
    ])
      w

-- The partial byte arrives in the high bits: `recv[bulk_bits / 8] >>= 8 - (bulk_bits % 8)`.
unfoldable pub align_bits : ℕ → List ℕ → List ℕ
align_bits bulk_bits recv =
    if bulk_bits % 8 == 0
    then recv
    else set recv (bulk_bits / 8) (get_or recv (bulk_bits / 8) 0 / 2 ^ (8 - bulk_bits % 8))

module _ (h : Header) where
  -- Send what is still in the buffer, with SEND_IMMEDIATE behind it.
  unfoldable pub send_pending : M Bool
  send_pending w =
      if mpsse_buffer_is_empty w
      then pure true w
      else or_fail (mpsse_buffer_ensure_space 1)
          (do mpsse_buffer_append_byte h.send_immediate; mpsse_buffer_flush) w

  -- The bits in bulk, then with `flip_tms` the last one, which is read at bit 7.
  unfoldable pub recv_bits : ℕ → List ℕ → ℕ → ℕ → Bool → M (Bool × List ℕ)
  unfolding align_bits
  recv_bits tries recv num_bits bulk_bits flip_tms = do
    let len = (bulk_bits + 7) / 8
    check (leb len (length recv))
    check (not flip_tms || leb ((num_bits + 7) / 8) (length recv))
    let cleared = overlay (replicate len 0) recv
    (ok, got) ← read_bulk tries len []
    let filled = align_bits bulk_bits (overlay got cleared)
    if ok
        then (if flip_tms
            then (read_last tries >>= λ last_bit.
                pure (true, or_bit filled (num_bits - 1) (test_bit last_bit 7)))
            else pure (true, filled))
        else pure (false, overlay got cleared)

  unfoldable pub mpsse_jtag_scan_chain_recv : ℕ → List ℕ → ℕ → Bool → M (Bool × List ℕ)
  unfolding send_pending recv_bits
  mpsse_jtag_scan_chain_recv tries recv num_bits flip_tms = do
    sent ← send_pending
    if sent
        then recv_bits tries recv num_bits
            (if flip_tms then u64 (num_bits + 2 ^ 64 - 1) else num_bits) flip_tms
        else pure (false, recv)

  -- Both divisions are undefined at 0. The sum and the difference are of `uint64_t`, so the quotient
  -- is 0 where the sum wraps.
  unfoldable pub mpsse_set_tck_freq : ℕ → M Bool
  mpsse_set_tck_freq freq_mhz = or_fail mpsse_buffer_flush (do
    check (not (freq_mhz == 0))
    let quotient = u64 (30 + freq_mhz - 1) / freq_mhz
    check (not (quotient == 0))
    let divisor = quotient - 1
    ftdi_write_retry (h.tck_divisor ∷ u8 divisor ∷ 0x00 ∷ h.dis_div_5 ∷ []) 4)

  unfoldable pub mpsse_jtag_clock_tck : ℕ → M Bool
  mpsse_jtag_clock_tck times =
      let times_8 = times / 8 in
      or_fail mpsse_buffer_flush (
        or_fail
          (if times_8 == 0
            then pure true
            else ftdi_write_retry (0x8f ∷ u8 (times_8 - 1) ∷ u8 ((times_8 - 1) / 2 ^ 8) ∷ []) 3)
          (if times % 8 == 0
            then pure true
            else ftdi_write_retry (0x8e ∷ u8 (times % 8 - 1) ∷ []) 2))

  -- The pins of `mpsse_init`: initial output and direction.
  unfoldable pub pin_setup : AdapterTypes → ℕ × ℕ
  pin_setup xilinx = (0x0088, 0x008b)
  pin_setup digilent_hs2 = (0x00e8, 0x60eb)
  pin_setup digilent_hs3 = (0x0088, 0x008b)

  -- `mpsse_init` behind the opening of the device, which `opened` says has worked.
  unfoldable pub mpsse_init : Bool → AdapterTypes → M Bool
  unfolding pin_setup mpsse_set_tck_freq
  mpsse_init opened adapter_type =
      let (initial_output, direction) = pin_setup adapter_type in
      if opened
      then or_fail
          (ftdi_write_retry
            (h.set_bits_low
              ∷ u8 (bit_and initial_output 0xff)
              ∷ u8 (bit_and direction 0xff)
              ∷ h.set_bits_high
              ∷ u8 (initial_output / 2 ^ 8)
              ∷ u8 (direction / 2 ^ 8)
              ∷ h.send_immediate
              ∷ [])
            7)
          (do mpsse_buffer_init; (λ w. mpsse_set_tck_freq w.freq_mhz w))
      else pure false

  unfoldable pub mpsse_driver : ℕ → Bool → Driver
  mpsse_driver tries opened = record {
    init = mpsse_init opened;
    deinit = pure true;
    set_tck_freq = mpsse_set_tck_freq;
    jtag_tms_seq = mpsse_jtag_tms_seq h;
    jtag_scan_chain_send = mpsse_jtag_scan_chain_send h;
    jtag_scan_chain_recv = mpsse_jtag_scan_chain_recv tries;
    jtag_clock_tck = mpsse_jtag_clock_tck;
  }
