-- ===== src/Mpsse/Stream.antt =====
-- The commands that the operations of the MPSSE adapter append to the stream.
use jtag_remote_server.Base.{
  ltb, ℕ, zero, suc, ◌+◌, ◌-◌, ◌*◌, ◌/◌, ◌%◌, ◌^◌, ◌≤◌, ◌<◌, min, bit_or, ◌≡◌, inl, inr, refl, sym,
  ◌∙◌, Bool, true, false, List, [], ◌∷◌, ◌++◌, arith, if◌then◌else◌, ◌==◌, Bool-cases, length,
  length-append, length-take, take, get_or, u8, u64, to_bit, bit_at,
}
use jtag_remote_server.Header.{Header}
use jtag_remote_server.Tap.{next_state}
use jtag_remote_server.World.{World, pure, or_fail, ◌>>◌}
use jtag_remote_server.Ftdi.Retry.{IsHonest}
use jtag_remote_server.Mpsse.Buffer.{buffer_length, mpsse_buffer_append}
use jtag_remote_server.Mpsse.Driver.{
  tms_command, bytes_command, bits_command, last_command, tms_chunks, send_bytes, send_bits,
  send_last, mpsse_jtag_scan_chain_send,
}
use jtag_remote_server.Mpsse.Ensures.{Sent-nil, Ensures, Ensures-or_fail, Sent-append}
use jtag_remote_server.Mpsse.Appends.{
  put, append_bytes, in_room, three_bytes, IsHonest-after, Ensures-of_state,
}

module _ (h : Header) where
  -- What `tms_chunks` appends.
  abbrev pub tms_stream : List ℕ → ℕ → ℕ → ℕ → List ℕ
  tms_stream bytes num_bits i zero = []
  tms_stream bytes num_bits i (suc left) =
      u8 (tms_command h)
      ∷ u8 (u8 (min 8 (num_bits - i * 8)) - 1)
      ∷ get_or bytes i 0
      ∷ tms_stream bytes num_bits (i + 1) left

  pub tms_chunks-Ensures :
      (bytes : List ℕ) (num_bits i left : ℕ) (w : World)
      → IsHonest w.ftdi
      → i + left ≤ length bytes
      → Ensures (tms_stream bytes num_bits i left) w.state w (tms_chunks h bytes num_bits i left w)
  unfolding tms_chunks
  tms_chunks-Ensures bytes num_bits i zero w honest enough = Sent-nil w
  tms_chunks-Ensures bytes num_bits i (suc left) w honest enough =
      in_room 3 _ _ _ w honest (omega arith) λ w' sent room. rw there (
        three_bytes _ _ _ _ _ _ w' room (
          rw (← sent.arrived refl) (
            tms_chunks-Ensures bytes num_bits (i + 1) left (put _ w') (IsHonest-after sent honest)
              (omega (arith, enough)))))
    where
      there : ltb i (length bytes) ≡ true
      there = ground (arith, enough)

  -- What the three parts of `mpsse_jtag_scan_chain_send` append.
  abbrev pub bytes_stream : List ℕ → ℕ → Bool → List ℕ
  bytes_stream bytes n do_read =
      if n == 0
      then []
      else bytes_command h do_read ∷ u8 (n - 1) ∷ u8 ((n - 1) / 2 ^ 8) ∷ take n bytes

  abbrev pub bits_stream : List ℕ → ℕ → Bool → List ℕ
  bits_stream bytes bulk_bits do_read =
      if bulk_bits % 8 == 0
      then []
      else bits_command h do_read ∷ u8 (bulk_bits % 8 - 1) ∷ get_or bytes (bulk_bits / 8) 0 ∷ []

  abbrev pub last_stream : List ℕ → ℕ → Bool → List ℕ
  last_stream bytes num_bits do_read =
      last_command h do_read
      ∷ 0x00
      ∷ u8 (bit_or 0x01 (to_bit (bit_at bytes (num_bits - 1)) * 2 ^ 7))
      ∷ []

  send_bytes-Ensures :
      (bytes : List ℕ) (bulk_bits : ℕ) (do_read : Bool) (w : World)
      → IsHonest w.ftdi
      → bulk_bits / 8 ≤ length bytes
      → 3 + bulk_bits / 8 < buffer_length
      → Ensures
          (bytes_stream bytes (bulk_bits / 8) do_read)
          w.state
          w
          (send_bytes h bytes bulk_bits do_read w)
  unfolding send_bytes
  send_bytes-Ensures bytes bulk_bits do_read w honest enough fits =
      elim (Bool-cases (bulk_bits / 8 == 0)) [
        | inl e ↦ rw e (Sent-nil w)
        | inr e ↦ rw e (
            in_room (3 + bulk_bits / 8) _ _ _ w honest fits λ w' sent room.
              three_bytes _ _ _ _ _ _ w' (omega arith) (
                rw (← sent.arrived refl)
                  (bulk (put _ w') (omega (arith, length-append w'.mpsse_buffer)))))
      ]
    where
      bulk :
          (v : World)
          → length v.mpsse_buffer + bulk_bits / 8 ≤ buffer_length
          → Ensures
              (take (bulk_bits / 8) bytes)
              v.state
              v
              ((mpsse_buffer_append bytes (bulk_bits / 8) >> pure true) v)
      bulk v room = rw (append_bytes bytes (bulk_bits / 8) (pure true) v enough room) (
          Sent-append (take (bulk_bits / 8) bytes) v
            (omega (arith, length-take (bulk_bits / 8) bytes)))

  send_bits-Ensures :
      (bytes : List ℕ) (bulk_bits : ℕ) (do_read : Bool) (w : World)
      → IsHonest w.ftdi
      → Ensures
          (bits_stream bytes bulk_bits do_read)
          w.state
          w
          (send_bits h bytes bulk_bits do_read w)
  unfolding send_bits
  send_bits-Ensures bytes bulk_bits do_read w honest = elim (Bool-cases (bulk_bits % 8 == 0)) [
    | inl e ↦ rw e (Sent-nil w)
    | inr e ↦ rw e (
        in_room 3 _ _ _ w honest (omega arith) λ w' sent room.
          three_bytes _ _ _ [] _ _ w' room (rw (← sent.arrived refl) (Sent-nil (put _ w'))))
  ]

  send_last-Ensures :
      (bytes : List ℕ) (num_bits : ℕ) (do_read : Bool) (w : World)
      → IsHonest w.ftdi
      → Ensures
          (last_stream bytes num_bits do_read)
          (next_state w.state true)
          w
          (send_last h bytes num_bits do_read w)
  unfolding send_last
  send_last-Ensures bytes num_bits do_read w honest =
      Ensures-of_state _ _ (next_state w.state true) w _ (
        in_room 3 _ _ _ (record w { state = next_state w.state true }) honest (omega arith)
          λ w' sent room.
            three_bytes _ _ _ [] _ _ w' room (rw (← sent.arrived refl) (Sent-nil (put _ w'))))

  -- `mpsse_jtag_scan_chain_send` as a whole, for a length that the buffer holds.
  unfoldable pub scan_stream : List ℕ → ℕ → Bool → Bool → List ℕ
  scan_stream bytes num_bits flip_tms do_read =
      let bulk_bits = if flip_tms then num_bits - 1 else num_bits in
      bytes_stream bytes (bulk_bits / 8) do_read
      ++ (bits_stream bytes bulk_bits do_read
          ++ (if flip_tms then last_stream bytes num_bits do_read else []))

  -- The three parts in a row, for any number of bits in bulk.
  parts-Ensures :
      (bytes : List ℕ) (num_bits bulk_bits : ℕ) (flip_tms do_read : Bool) (w : World)
      → IsHonest w.ftdi
      → bulk_bits / 8 ≤ length bytes
      → 3 + bulk_bits / 8 < buffer_length
      → Ensures
          (bytes_stream bytes (bulk_bits / 8) do_read
            ++ (bits_stream bytes bulk_bits do_read
                ++ (if flip_tms then last_stream bytes num_bits do_read else [])))
          (if flip_tms then next_state w.state true else w.state)
          w
          (or_fail
            (send_bytes h bytes bulk_bits do_read)
            (or_fail
              (send_bits h bytes bulk_bits do_read)
              (if flip_tms then send_last h bytes num_bits do_read else pure true))
            w)
  parts-Ensures bytes num_bits bulk_bits flip_tms do_read w honest enough fits =
      Ensures-or_fail _ _ w.state _ (send_bytes h bytes bulk_bits do_read) _ w
        (send_bytes-Ensures bytes bulk_bits do_read w honest enough fits)
        λ w' s.
          Ensures-or_fail _ _ w'.state _ (send_bits h bytes bulk_bits do_read) _ w'
            (send_bits-Ensures bytes bulk_bits do_read w' (IsHonest-after s honest))
            λ w'' r.
              last flip_tms w'' (sym (s.arrived refl) ∙ sym (r.arrived refl))
                (IsHonest-after r (IsHonest-after s honest))
    where
      last :
          (flip : Bool) (v : World)
          → w.state ≡ v.state
          → IsHonest v.ftdi
          → Ensures
              (if flip then last_stream bytes num_bits do_read else [])
              (if flip then next_state w.state true else w.state)
              v
              ((if flip then send_last h bytes num_bits do_read else pure true) v)
      last true v e honest' = rw e (send_last-Ensures bytes num_bits do_read v honest')
      last false v e honest' = rw e (Sent-nil v)

  -- Sending `num_bits` bits appends the commands of `scan_stream`; with `flip_tms` the controller
  -- then makes one step with TMS = 1, else it stays where it is.
  pub scan_chain_send-Ensures :
      (bytes : List ℕ) (num_bits : ℕ) (flip_tms do_read : Bool) (w : World)
      → IsHonest w.ftdi
      → 0 < num_bits
      → num_bits ≤ 8 * length bytes
      → num_bits < 65504
      → Ensures
          (scan_stream bytes num_bits flip_tms do_read)
          (if flip_tms then next_state w.state true else w.state)
          w
          (mpsse_jtag_scan_chain_send h bytes num_bits flip_tms do_read w)
  unfolding mpsse_jtag_scan_chain_send scan_stream
  scan_chain_send-Ensures bytes num_bits true do_read w honest some_bits enough fits = rw wraps (
      parts-Ensures bytes num_bits (num_bits - 1) true do_read w honest (omega arith) (omega arith))
    where
      wraps : u64 (num_bits + 2 ^ 64 - 1) ≡ num_bits - 1
      wraps = omega arith
  scan_chain_send-Ensures bytes num_bits false do_read w honest some_bits enough fits =
      parts-Ensures bytes num_bits num_bits false do_read w honest (omega arith) (omega arith)
