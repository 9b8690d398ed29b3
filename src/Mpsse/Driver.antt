-- ===== src/Mpsse/Driver.antt =====
-- src/mpsse.cpp: the JTAG operations as MPSSE commands.
use jtag_remote_server.Base.{
  ℕ, zero, suc, ◌+◌, ◌-◌, ◌*◌, ◌/◌, ◌%◌, ◌^◌, min, bit_or, Bool, true, List, if◌then◌else◌, ◌==◌,
  get_or, u8, u64, to_bit, bit_at, ltb, length,
}
use jtag_remote_server.Header.{Header}
use jtag_remote_server.Tap.{next_state}
use jtag_remote_server.World.{M, pure, check, modify, or_fail, ◌>>◌}
use jtag_remote_server.Mpsse.Buffer.{
  mpsse_buffer_ensure_space, mpsse_buffer_append_byte, mpsse_buffer_append,
}

module _ (h : Header) where
  -- The command bytes.
  unfoldable pub tms_command : ℕ
  tms_command =
      bit_or (bit_or (bit_or h.mpsse_write_tms h.mpsse_lsb) h.mpsse_bitmode) h.mpsse_write_neg

  unfoldable pub read_flag : Bool → ℕ
  read_flag do_read = if do_read then h.mpsse_do_read else 0

  unfoldable pub bytes_command : Bool → ℕ
  unfolding read_flag
  bytes_command do_read =
      u8 (
        bit_or (bit_or (bit_or (read_flag do_read) h.mpsse_do_write) h.mpsse_lsb) h.mpsse_write_neg)

  unfoldable pub bits_command : Bool → ℕ
  unfolding read_flag
  bits_command do_read = u8 (
      bit_or
        (bit_or (bit_or (bit_or (read_flag do_read) h.mpsse_do_write) h.mpsse_lsb)
          h.mpsse_write_neg)
        h.mpsse_bitmode)

  unfoldable pub last_command : Bool → ℕ
  unfolding read_flag
  last_command do_read = u8 (
      bit_or
        (bit_or (bit_or (bit_or (read_flag do_read) h.mpsse_write_tms) h.mpsse_lsb) h.mpsse_bitmode)
        h.mpsse_write_neg)

  -- The loop of `mpsse_jtag_tms_seq`: one command for each byte of TMS bits. A byte behind the array
  -- has no result.
  unfoldable pub tms_chunks : List ℕ → ℕ → ℕ → ℕ → M Bool
  tms_chunks bytes num_bits i zero = pure true
  tms_chunks bytes num_bits i (suc left) =
      let cur_bits = u8 (min 8 (num_bits - i * 8)) in
      let rest = tms_chunks bytes num_bits (i + 1) left in
      or_fail (mpsse_buffer_ensure_space 3) (do
        check (ltb i (length bytes))
        mpsse_buffer_append_byte (u8 tms_command)
        mpsse_buffer_append_byte (u8 (cur_bits - 1))
        mpsse_buffer_append_byte (get_or bytes i 0)
        rest)

  unfoldable pub mpsse_jtag_tms_seq : List ℕ → ℕ → M Bool
  mpsse_jtag_tms_seq bytes num_bits = tms_chunks bytes num_bits 0 ((num_bits + 7) / 8)

  -- The three parts of `mpsse_jtag_scan_chain_send`: whole bytes, the bits left over, and the last
  -- bit with TMS = 1.
  unfoldable pub send_bytes : List ℕ → ℕ → Bool → M Bool
  send_bytes bytes bulk_bits do_read =
      let length_in_bytes = bulk_bits / 8 in
      if length_in_bytes == 0
      then pure true
      else or_fail (mpsse_buffer_ensure_space (3 + length_in_bytes)) (do
        mpsse_buffer_append_byte (bytes_command do_read)
        mpsse_buffer_append_byte (u8 (length_in_bytes - 1))
        mpsse_buffer_append_byte (u8 ((length_in_bytes - 1) / 2 ^ 8))
        mpsse_buffer_append bytes length_in_bytes
        pure true)

  unfoldable pub send_bits : List ℕ → ℕ → Bool → M Bool
  send_bits bytes bulk_bits do_read =
      if bulk_bits % 8 == 0
      then pure true
      else or_fail (mpsse_buffer_ensure_space 3) (do
        mpsse_buffer_append_byte (bits_command do_read)
        mpsse_buffer_append_byte (u8 (bulk_bits % 8 - 1))
        mpsse_buffer_append_byte (get_or bytes (bulk_bits / 8) 0)
        pure true)

  unfoldable pub send_last : List ℕ → ℕ → Bool → M Bool
  send_last bytes num_bits do_read =
      let bit = to_bit (bit_at bytes (num_bits - 1)) in
      do
        modify (λ w. record w { state = next_state w.state true })
        or_fail (mpsse_buffer_ensure_space 3) (do
          mpsse_buffer_append_byte (last_command do_read)
          mpsse_buffer_append_byte 0x00
          mpsse_buffer_append_byte (u8 (bit_or 0x01 (bit * 2 ^ 7)))
          pure true)

  -- `bulk_bits -= 1` wraps at 0, which makes a length that no buffer has.
  unfoldable pub mpsse_jtag_scan_chain_send : List ℕ → ℕ → Bool → Bool → M Bool
  unfolding send_bytes send_bits send_last
  mpsse_jtag_scan_chain_send bytes num_bits flip_tms do_read =
      let bulk_bits = if flip_tms then u64 (num_bits + 2 ^ 64 - 1) else num_bits in
      or_fail (send_bytes bytes bulk_bits do_read) (
        or_fail (send_bits bytes bulk_bits do_read)
          (if flip_tms then send_last bytes num_bits do_read else pure true))
