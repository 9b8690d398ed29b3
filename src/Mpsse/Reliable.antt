-- ===== src/Mpsse/Reliable.antt =====
-- The MPSSE driver works on a device that takes and gives what it is asked for.
use jtag_remote_server.Base.{
  ℕ, suc, ◌+◌, ◌-◌, ◌*◌, ◌/◌, ◌%◌, ◌^◌, ◌≤◌, ◌<◌, ◌≡◌, refl, ap, ◌∙◌, Bool, true, false, some, List,
  [], ◌∷◌, ◌++◌, arith, if◌then◌else◌, ◌==◌, leb, ltb, length, length-append, replicate, u8, u64,
  or_bit, test_bit, Bool-cases, inl, inr,
}
use jtag_remote_server.Header.{Header}
use jtag_remote_server.Tap.{next_state}
use jtag_remote_server.World.{World, M, pure, or_fail, ◌>>=◌}
use jtag_remote_server.Ftdi.{ftdi_write_retry}
use jtag_remote_server.Jtag.Law.{IsReliable}
use jtag_remote_server.Mpsse.Buffer.{
  buffer_length, mpsse_buffer_is_empty, mpsse_buffer_flush, mpsse_buffer_append_byte,
}
use jtag_remote_server.Mpsse.Ensures.{ensure_space_makes_room}
use jtag_remote_server.Mpsse.Stream.{
  tms_stream, tms_chunks-Ensures, scan_stream, scan_chain_send-Ensures,
}
use jtag_remote_server.Mpsse.Driver.{mpsse_jtag_tms_seq, mpsse_jtag_scan_chain_send}
use jtag_remote_server.Mpsse.Device.{
  send_pending, recv_bits, align_bits, overlay, mpsse_jtag_scan_chain_recv, mpsse_jtag_clock_tck,
  mpsse_driver,
}
use jtag_remote_server.Mpsse.Healthy.{
  Healthy, Healthy-Sent, Works, Works-Ensures, Works-or_fail, flush-Works, write_unless-Works,
}
use jtag_remote_server.Mpsse.Reading.{read_bulk_works, read_last_works}

appended :
    (w : World) (b : ℕ)
    → Healthy w
    → length w.mpsse_buffer + 1 ≤ buffer_length
    → Healthy (record w { mpsse_buffer = w.mpsse_buffer ++ b ∷ [] })
appended w b p room = record {
  honest = p.honest;
  steady = p.steady;
  serving = p.serving;
  in_bounds = omega (arith, length-append w.mpsse_buffer (b ∷ []));
}

less : (n : ℕ) → n + 1 ≤ buffer_length → ltb n buffer_length ≡ true
less n room = ground arith

module _ (h : Header) where
  send_pending-Works : (w : World) → Healthy w → Works (send_pending h) w
  unfolding send_pending mpsse_buffer_append_byte
  send_pending-Works w p = elim (Bool-cases (mpsse_buffer_is_empty w)) [
    | inl e ↦ (w, rw e refl, p)
    | inr e ↦
        let (ok, w', f, s, room) = ensure_space_makes_room 1 w p.honest (omega arith) in
        let f' = f ∙ ap (λ b. some (b, w')) (s.succeeds p.steady p.in_bounds) in
        let (w'', g, p'') =
          flush-Works (record w' { mpsse_buffer = w'.mpsse_buffer ++ h.send_immediate ∷ [] })
            (appended w' h.send_immediate (Healthy-Sent p s)
              (room (s.succeeds p.steady p.in_bounds))) in
        (w'', rw (e, ◌>>=◌, f', less _ (room (s.succeeds p.steady p.in_bounds))) g, p'')
  ]

  -- Nothing is pending, and the bits that were asked for are read.
  recv_bits_works :
      (tries : ℕ) (recv : List ℕ) (num_bits bulk_bits : ℕ) (flip_tms : Bool) (w : World)
      → Healthy w
      → (bulk_bits + 7) / 8 ≤ length recv
      → num_bits ≤ 8 * length recv
      → (recv' : List ℕ) × (w' : World) × (recv_bits h
            (suc tries)
            recv
            num_bits
            bulk_bits
            flip_tms
            w
          ≡ some ((true, recv'), w'))
        × Healthy w'
  unfolding recv_bits
  recv_bits_works tries recv num_bits bulk_bits true w p room last =
      let (got, w', e, p', size) = read_bulk_works tries ((bulk_bits + 7) / 8) w p in
      let (b, w'', f, p'') = read_last_works tries w' p' in
      (
        or_bit (filled got) (num_bits - 1) (test_bit b 7),
        w'',
        rw (◌>>=◌, fits, last_fits, e, f) refl,
        p'',
      )
    where
      filled : List ℕ → List ℕ
      filled got =
          align_bits bulk_bits (overlay got (overlay (replicate ((bulk_bits + 7) / 8) 0) recv))

      fits : leb ((bulk_bits + 7) / 8) (length recv) ≡ true
      fits = ground arith

      last_fits : leb ((num_bits + 7) / 8) (length recv) ≡ true
      last_fits = ground arith
  recv_bits_works tries recv num_bits bulk_bits false w p room last =
      let (got, w', e, p', size) = read_bulk_works tries ((bulk_bits + 7) / 8) w p in
      (filled got, w', rw (◌>>=◌, fits, e) refl, p')
    where
      filled : List ℕ → List ℕ
      filled got =
          align_bits bulk_bits (overlay got (overlay (replicate ((bulk_bits + 7) / 8) 0) recv))

      fits : leb ((bulk_bits + 7) / 8) (length recv) ≡ true
      fits = ground arith

  recv_works :
      (tries : ℕ) (recv : List ℕ) (num_bits : ℕ) (flip_tms : Bool) (w : World)
      → Healthy w
      → 0 < num_bits
      → num_bits ≤ 8 * length recv
      → num_bits < 65504
      → (recv' : List ℕ) × (w' : World) × (mpsse_jtag_scan_chain_recv h
            (suc tries)
            recv
            num_bits
            flip_tms
            w
          ≡ some ((true, recv'), w'))
        × Healthy w'
  unfolding mpsse_jtag_scan_chain_recv
  recv_works tries recv num_bits flip_tms w p some_bits room small =
      let (w', e, p') = send_pending-Works w p in
      let (recv', w'', f, p'') =
        recv_bits_works tries recv num_bits
          (if flip_tms then u64 (num_bits + 2 ^ 64 - 1) else num_bits) flip_tms w' p'
          (bulk flip_tms) room in
      (recv', w'', rw (◌>>=◌, e) f, p'')
    where
      bulk :
          (flip_tms : Bool)
          → ((if flip_tms then u64 (num_bits + 2 ^ 64 - 1) else num_bits) + 7) / 8 ≤ length recv
      bulk true = omega arith
      bulk false = omega arith

  clock-Works : (times : ℕ) (w : World) → Healthy w → Works (mpsse_jtag_clock_tck h times) w
  unfolding mpsse_jtag_clock_tck
  clock-Works times w p =
      Works-or_fail mpsse_buffer_flush (or_fail whole rest) w (flush-Works w p) λ w' p'.
        Works-or_fail whole rest w'
          (write_unless-Works (times / 8 == 0) whole_bytes 3 w' p' (omega arith))
          λ w'' p''. write_unless-Works (times % 8 == 0) rest_bytes 2 w'' p'' (omega arith)
    where
      whole_bytes : List ℕ
      whole_bytes = 0x8f ∷ u8 (times / 8 - 1) ∷ u8 ((times / 8 - 1) / 2 ^ 8) ∷ []

      rest_bytes : List ℕ
      rest_bytes = 0x8e ∷ u8 (times % 8 - 1) ∷ []

      whole : M Bool
      whole = if times / 8 == 0 then pure true else ftdi_write_retry whole_bytes 3

      rest : M Bool
      rest = if times % 8 == 0 then pure true else ftdi_write_retry rest_bytes 2

  -- Over an FTDI device that takes no more than it is given, at least 82 bytes of it or all, and
  -- gives as many as it is asked for, with the command buffer within its array, these operations of
  -- the MPSSE driver return, report success, and keep the buffer so: TMS sequences that the array
  -- holds, scans and reads of 1 to 65503 bits that the array holds, and runs of the clock.
  pub mpsse_driver-IsReliable :
      (tries : ℕ) (opened : Bool) → IsReliable (mpsse_driver h (suc tries) opened) Healthy
  unfolding mpsse_driver mpsse_jtag_tms_seq
  mpsse_driver-IsReliable tries opened = record {
    frame = λ w w' p dev buffer recv. record {
      honest = rw dev p.honest;
      steady = rw dev p.steady;
      serving = rw dev p.serving;
      in_bounds = rw buffer p.in_bounds;
    };
    tms_seq_works = λ bytes num_bits w p enough.
        Works-Ensures (tms_stream h bytes num_bits 0 ((num_bits + 7) / 8)) w.state w
          (mpsse_jtag_tms_seq h bytes num_bits) p
          (tms_chunks-Ensures h bytes num_bits 0 ((num_bits + 7) / 8) w p.honest
            (omega (arith, enough)));
    send_works = λ bytes num_bits flip_tms do_read w p some_bits enough small.
        Works-Ensures (scan_stream h bytes num_bits flip_tms do_read)
          (if flip_tms then next_state w.state true else w.state) w
          (mpsse_jtag_scan_chain_send h bytes num_bits flip_tms do_read) p
          (scan_chain_send-Ensures h bytes num_bits flip_tms do_read w p.honest some_bits enough
            small);
    clock_works = clock-Works;
    recv_works = recv_works tries;
  }
