-- ===== src/Mpsse/Tracking.antt =====
-- The MPSSE driver moves the tracked TAP state where it should, and nowhere else.
use jtag_remote_server.Base.{
  ltb, not, ◌||◌, ℕ, zero, suc, ◌+◌, ◌-◌, ◌/◌, ◌%◌, ◌^◌, refl, subst, Bool, true, false, some, List,
  [], ◌∷◌, if◌then◌else◌, ◌==◌, leb, length, u8, u64,
}
use jtag_remote_server.Header.{Header}
use jtag_remote_server.Tap.{next_state}
use jtag_remote_server.World.{World, pure, check, or_fail}
use jtag_remote_server.World.Keeps.{
  Ends, Reaches-fails, KeepsState, Ends-if, KeepsState->>=, KeepsState->>, KeepsState-pure,
  KeepsState-check, KeepsState-if, KeepsState-or_fail, KeepsState-run, Reaches, Reaches-of_Ends,
  Reaches-or_fail, Reaches-run, outside, view,
}
use jtag_remote_server.Jtag.Law.{IsTracking, IsQuiet}
use jtag_remote_server.Jtag.Views.{Views, IsTracking-of_Views, IsQuiet-of_Views}
use jtag_remote_server.Mpsse.Buffer.{
  mpsse_buffer_is_empty, mpsse_buffer_flush, mpsse_buffer_ensure_space,
}
use jtag_remote_server.Mpsse.Driver.{
  tms_chunks, mpsse_jtag_tms_seq, send_bytes, send_bits, send_last, mpsse_jtag_scan_chain_send,
}
use jtag_remote_server.Mpsse.Device.{
  read_bulk, read_last, send_pending, recv_bits, mpsse_jtag_scan_chain_recv, mpsse_set_tck_freq,
  mpsse_jtag_clock_tck, mpsse_driver,
}
use jtag_remote_server.Mpsse.Keeping.{
  write_retry-KeepsState, flush-KeepsState, ensure_space-KeepsState, append_byte-KeepsState,
  append-KeepsState, command-KeepsState, read_bulk-KeepsState, read_bulk-KeepsState,
  read_last-KeepsState, read_last-KeepsState, write_unless-KeepsState,
}

module _ (h : Header) where
  tms_chunks-KeepsState :
      (bytes : List ℕ) (num_bits i left : ℕ) → KeepsState (tms_chunks h bytes num_bits i left)
  unfolding tms_chunks
  tms_chunks-KeepsState bytes num_bits i zero = KeepsState-pure true
  tms_chunks-KeepsState bytes num_bits i (suc left) =
      KeepsState-or_fail _ _ (ensure_space-KeepsState 3) (
        KeepsState->> (check (ltb i (length bytes))) _ (KeepsState-check _)
          (command-KeepsState _ _ _ _ (tms_chunks-KeepsState bytes num_bits (i + 1) left)))

  send_bytes-KeepsState :
      (bytes : List ℕ) (bulk_bits : ℕ) (do_read : Bool)
      → KeepsState (send_bytes h bytes bulk_bits do_read)
  unfolding send_bytes
  send_bytes-KeepsState bytes bulk_bits do_read =
      KeepsState-if (bulk_bits / 8 == 0) (pure true) _ (KeepsState-pure true) (
        KeepsState-or_fail _ _ (ensure_space-KeepsState (3 + bulk_bits / 8)) (
          command-KeepsState _ _ _ _
            (KeepsState->> _ _ (append-KeepsState bytes (bulk_bits / 8)) (KeepsState-pure true))))

  send_bits-KeepsState :
      (bytes : List ℕ) (bulk_bits : ℕ) (do_read : Bool)
      → KeepsState (send_bits h bytes bulk_bits do_read)
  unfolding send_bits
  send_bits-KeepsState bytes bulk_bits do_read =
      KeepsState-if (bulk_bits % 8 == 0) (pure true) _ (KeepsState-pure true) (
        KeepsState-or_fail _ _ (ensure_space-KeepsState 3)
          (command-KeepsState _ _ _ _ (KeepsState-pure true)))

  send_pending-KeepsState : KeepsState (send_pending h)
  unfolding send_pending
  send_pending-KeepsState w = Ends-if (view w) (mpsse_buffer_is_empty w) (some (true, w)) _ refl (
      KeepsState-or_fail _ _ (ensure_space-KeepsState 1)
        (KeepsState->> _ _ (append_byte-KeepsState h.send_immediate) flush-KeepsState) w)

  clock_tck-KeepsState : (times : ℕ) → KeepsState (mpsse_jtag_clock_tck h times)
  unfolding mpsse_jtag_clock_tck
  clock_tck-KeepsState times = KeepsState-or_fail mpsse_buffer_flush _ flush-KeepsState (
      KeepsState-or_fail _ _
        (write_unless-KeepsState (times / 8 == 0)
          (0x8f ∷ u8 (times / 8 - 1) ∷ u8 ((times / 8 - 1) / 2 ^ 8) ∷ []) 3)
        (write_unless-KeepsState (times % 8 == 0) (0x8e ∷ u8 (times % 8 - 1) ∷ []) 2))

  recv_bits-KeepsState :
      (tries : ℕ) (recv : List ℕ) (num_bits bulk_bits : ℕ) (flip_tms : Bool)
      → KeepsState (recv_bits h tries recv num_bits bulk_bits flip_tms)
  unfolding recv_bits
  recv_bits-KeepsState tries recv num_bits bulk_bits flip_tms =
      KeepsState->> (check (leb ((bulk_bits + 7) / 8) (length recv))) _ (KeepsState-check _) (
        KeepsState->> (check (not flip_tms || leb ((num_bits + 7) / 8) (length recv))) _
          (KeepsState-check _)
          (KeepsState->>= (read_bulk tries ((bulk_bits + 7) / 8) []) _
            (read_bulk-KeepsState tries ((bulk_bits + 7) / 8) [])
            (λ (ok, got).
              KeepsState-if ok _ _
                (KeepsState-if flip_tms _ _
                  (KeepsState->>= (read_last tries) _ (read_last-KeepsState tries) (λ b v. refl))
                  (λ v. refl))
                (λ v. refl))))

  last_part :
      (bytes : List ℕ) (num_bits : ℕ) (flip_tms do_read : Bool) (w : World)
      → Reaches
          (view w)
          ((if flip_tms then next_state w.state true else w.state), outside w)
          ((if flip_tms then send_last h bytes num_bits do_read else pure true) w)
  unfolding send_last
  last_part bytes num_bits true do_read w =
      Reaches-of_Ends (view w) (next_state w.state true, outside w) _
        (KeepsState-or_fail (mpsse_buffer_ensure_space 3) _ (ensure_space-KeepsState 3)
          (command-KeepsState _ _ _ _ (KeepsState-pure true))
          (record w { state = next_state w.state true }))
  last_part bytes num_bits false do_read w = refl

  send-Reaches :
      (bytes : List ℕ) (num_bits bulk_bits : ℕ) (flip_tms do_read : Bool) (w : World)
      → Reaches
          (view w)
          ((if flip_tms then next_state w.state true else w.state), outside w)
          (or_fail
            (send_bytes h bytes bulk_bits do_read)
            (or_fail
              (send_bits h bytes bulk_bits do_read)
              (if flip_tms then send_last h bytes num_bits do_read else pure true))
            w)
  send-Reaches bytes num_bits bulk_bits flip_tms do_read w =
      Reaches-or_fail (send_bytes h bytes bulk_bits do_read) _ (view w) _ w
        (send_bytes-KeepsState bytes bulk_bits do_read w)
        λ w' e.
          Reaches-or_fail (send_bits h bytes bulk_bits do_read) _ (view w) _ w'
            (subst (λ s. Ends s (send_bits h bytes bulk_bits do_read w')) e
              (send_bits-KeepsState bytes bulk_bits do_read w'))
            λ w'' f.
              subst
                (λ s.
                  Reaches s ((if flip_tms then next_state s.0 true else s.0), s.1)
                    ((if flip_tms then send_last h bytes num_bits do_read else pure true) w''))
                f (last_part bytes num_bits flip_tms do_read w'')

  set_tck_freq-KeepsState : (freq_mhz : ℕ) → KeepsState (mpsse_set_tck_freq h freq_mhz)
  unfolding mpsse_set_tck_freq
  set_tck_freq-KeepsState freq_mhz = KeepsState-or_fail mpsse_buffer_flush _ flush-KeepsState (
      KeepsState->> (check (not (freq_mhz == 0))) _ (KeepsState-check _) (
        KeepsState->> (check (not (u64 (30 + freq_mhz - 1) / freq_mhz == 0))) _ (KeepsState-check _)
          (write_retry-KeepsState _ 4)))

  pub mpsse_driver-Views : (tries : ℕ) (opened : Bool) → Views (mpsse_driver h tries opened)
  unfolding mpsse_driver mpsse_jtag_tms_seq mpsse_jtag_scan_chain_send mpsse_jtag_scan_chain_recv
  mpsse_driver-Views tries opened = record {
    set_tck_freq = λ freq_mhz w w' ok e.
        KeepsState-run (mpsse_set_tck_freq h freq_mhz) w w' ok (set_tck_freq-KeepsState freq_mhz) e;
    tms_seq = λ bytes num_bits w w' ok e.
        KeepsState-run (mpsse_jtag_tms_seq h bytes num_bits) w w' ok
          (tms_chunks-KeepsState bytes num_bits 0 ((num_bits + 7) / 8)) e;
    send = λ bytes num_bits flip_tms do_read w w' e.
        Reaches-run (mpsse_jtag_scan_chain_send h bytes num_bits flip_tms do_read) w w' _ _
          (send-Reaches bytes num_bits (if flip_tms then u64 (num_bits + 2 ^ 64 - 1) else num_bits)
            flip_tms do_read w)
          e;
    send_fails = λ bytes num_bits flip_tms do_read w w' e.
        Reaches-fails (mpsse_jtag_scan_chain_send h bytes num_bits flip_tms do_read) w w' _ _
          (send-Reaches bytes num_bits (if flip_tms then u64 (num_bits + 2 ^ 64 - 1) else num_bits)
            flip_tms do_read w)
          e;
    recv = λ recv num_bits flip_tms w w' result e.
        KeepsState-run (mpsse_jtag_scan_chain_recv h tries recv num_bits flip_tms) w w' result
          (KeepsState->>= (send_pending h) _ send_pending-KeepsState (λ sent.
            KeepsState-if sent _ _ (recv_bits-KeepsState tries recv num_bits _ flip_tms)
              (λ v. refl)))
          e;
    clock_tck = λ times w w' ok e.
        KeepsState-run (mpsse_jtag_clock_tck h times) w w' ok (clock_tck-KeepsState times) e;
  }

  -- TMS sequences, reads and runs of the clock of the MPSSE driver leave the tracked TAP state as it
  -- is, if they return; a scan that succeeds has moved it along TMS = 1 with `flip_tms`, and left it as
  -- it is without; one that fails has left it, or moved it as a success would.
  pub mpsse_driver-IsTracking :
      (tries : ℕ) (opened : Bool) → IsTracking (mpsse_driver h tries opened)
  mpsse_driver-IsTracking tries opened =
      IsTracking-of_Views (mpsse_driver h tries opened) (mpsse_driver-Views tries opened)

  -- TMS sequences, reads, runs and tunings of the clock, and scans that succeed, leave the socket and
  -- its buffer alone.
  pub mpsse_driver-IsQuiet : (tries : ℕ) (opened : Bool) → IsQuiet (mpsse_driver h tries opened)
  mpsse_driver-IsQuiet tries opened =
      IsQuiet-of_Views (mpsse_driver h tries opened) (mpsse_driver-Views tries opened)
