-- ===== src/Jtag/Works.antt =====
-- The JTAG operations over a driver that tracks the TAP state and works.
use jtag_remote_server.Base.{
  ℕ, ◌+◌, ◌*◌, ◌≤◌, ◌<◌, ◌≡◌, refl, ◌∙◌, Bool, true, false, some, List, length, leb, arith,
  if◌then◌else◌, u64,
}
use jtag_remote_server.Tap.{next_state, walk_bits}
use jtag_remote_server.World.{World, ◌>>=◌}
use jtag_remote_server.Jtag.{
  Driver, jtag_tms_seq, jtag_scan_chain_send, jtag_scan_chain, jtag_clock_tck,
}
use jtag_remote_server.Jtag.Law.{IsTracking, IsWorking}

module _ (d : Driver) (P : World → Type 0) (track : IsTracking d) (works : IsWorking d P) where
  pub tms_seq_works :
      (bytes : List ℕ) (num_bits : ℕ) (w : World)
      → P w
      → num_bits ≤ 8 * length bytes
      → (w' : World) × (jtag_tms_seq d bytes num_bits w ≡ some (true, w'))
        × P w'
        × (w'.state ≡ walk_bits bytes 0 num_bits w.state)
  unfolding jtag_tms_seq
  tms_seq_works bytes num_bits w p enough =
      let (w', e, p') =
        works.tms_seq_works bytes num_bits begun (works.frame w begun p refl refl refl refl)
          enough in
      (w', rw (within, ◌>>=◌) e, p', track.tms_seq bytes num_bits begun w' true e)
    where
      within : leb num_bits (8 * length bytes) ≡ true
      within = ground (arith, enough)

      begun : World
      begun = record w {
        bits_send = u64 (w.bits_send + num_bits);
        state = walk_bits bytes 0 num_bits w.state;
      }

  pub send_works :
      (bytes : List ℕ) (num_bits : ℕ) (flip_tms do_read : Bool) (w : World)
      → P w
      → 0 < num_bits
      → num_bits ≤ 8 * length bytes
      → num_bits < 65504
      → (w' : World) × (jtag_scan_chain_send d bytes num_bits flip_tms do_read w ≡ some (true, w'))
        × P w'
        × (w'.state ≡ (if flip_tms then next_state w.state true else w.state))
  unfolding jtag_scan_chain_send
  send_works bytes num_bits flip_tms do_read w p some_bits enough fits =
      let (w', e, p') =
        works.send_works bytes num_bits flip_tms do_read begun
          (works.frame w begun p refl refl refl refl) some_bits enough fits in
      (w', e, p', track.send bytes num_bits flip_tms do_read begun w' e)
    where
      begun : World
      begun = record w { bits_send = u64 (w.bits_send + num_bits) }

  pub scan_chain_works :
      (bytes recv : List ℕ) (num_bits : ℕ) (flip_tms do_read : Bool) (w : World)
      → P w
      → 0 < num_bits
      → num_bits ≤ 8 * length bytes
      → num_bits ≤ 8 * length recv
      → num_bits < 65504
      → (recv' : List ℕ) × (w' : World) × (jtag_scan_chain d bytes recv num_bits flip_tms do_read w
          ≡ some ((true, recv'), w'))
        × P w'
        × (w'.state ≡ (if flip_tms then next_state w.state true else w.state))
  unfolding jtag_scan_chain
  scan_chain_works bytes recv num_bits flip_tms true w p some_bits enough room fits =
      let (w', e, p', s) = send_works bytes num_bits flip_tms true w p some_bits enough fits in
      let (recv', w'', f, p'') =
        works.recv_works recv num_bits flip_tms w' p' some_bits room fits in
      (
        recv',
        w'',
        rw (e, ◌>>=◌) f,
        p'',
        track.recv recv num_bits flip_tms w' w'' (true, recv') f ∙ s,
      )
  scan_chain_works bytes recv num_bits flip_tms false w p some_bits enough room fits =
      let (w', e, p', s) = send_works bytes num_bits flip_tms false w p some_bits enough fits in
      (recv, w', rw (e, ◌>>=◌), p', s)

  pub clock_works :
      (times : ℕ) (w : World)
      → P w
      → (w' : World) × (jtag_clock_tck d times w ≡ some (true, w')) × P w' × (w'.state ≡ w.state)
  unfolding jtag_clock_tck
  clock_works times w p =
      let (w', e, p') = works.clock_works times begun (works.frame w begun p refl refl refl refl) in
      (w', e, p', track.clock_tck times begun w' true e)
    where
      begun : World
      begun = record w { bits_send = u64 (w.bits_send + times) }
