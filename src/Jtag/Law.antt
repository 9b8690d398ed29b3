-- ===== src/Jtag/Law.antt =====
-- What the rest of the program relies on in a driver: who moves the tracked TAP state, and when.
use jtag_remote_server.Base.{
  ℕ, ◌≤◌, ◌<◌, ◌*◌, ◌⊎◌, Bool, true, false, some, List, ◌≡◌, ◌∙◌, length, if◌then◌else◌,
}
use jtag_remote_server.Tap.{next_state}
use jtag_remote_server.World.{World}
use jtag_remote_server.World.Keeps.{Outside, outside}
use jtag_remote_server.Jtag.{Driver}

-- `jtag_tms_seq`, `jtag_scan_chain_recv` and `jtag_clock_tck` leave the tracked state to their
-- callers; a scan that succeeds has made the step with TMS = 1 if asked to, and one that fails has
-- made it or not.
pub record IsTracking (d : Driver) : Type 0 where
  pub tms_seq :
      (bytes : List ℕ) (num_bits : ℕ) (w w' : World) (ok : Bool)
      → d.jtag_tms_seq bytes num_bits w ≡ some (ok, w')
      → w'.state ≡ w.state
  pub send :
      (bytes : List ℕ) (num_bits : ℕ) (flip_tms do_read : Bool) (w w' : World)
      → d.jtag_scan_chain_send bytes num_bits flip_tms do_read w ≡ some (true, w')
      → w'.state ≡ (if flip_tms then next_state w.state true else w.state)
  pub send_fails :
      (bytes : List ℕ) (num_bits : ℕ) (flip_tms do_read : Bool) (w w' : World)
      → d.jtag_scan_chain_send bytes num_bits flip_tms do_read w ≡ some (false, w')
      → (w'.state ≡ w.state) ⊎ (w'.state ≡ (if flip_tms then next_state w.state true else w.state))
  pub recv :
      (bytes : List ℕ) (num_bits : ℕ) (flip_tms : Bool) (w w' : World) (result : Bool × List ℕ)
      → d.jtag_scan_chain_recv bytes num_bits flip_tms w ≡ some (result, w')
      → w'.state ≡ w.state
  pub clock_tck :
      (times : ℕ) (w w' : World) (ok : Bool)
      → d.jtag_clock_tck times w ≡ some (ok, w')
      → w'.state ≡ w.state

-- A driver that leaves the socket and its buffer alone.
pub record IsQuiet (d : Driver) : Type 0 where
  pub set_tck_freq :
      (freq_mhz : ℕ) (w w' : World) (ok : Bool)
      → d.set_tck_freq freq_mhz w ≡ some (ok, w')
      → outside w' ≡ outside w
  pub tms_seq :
      (bytes : List ℕ) (num_bits : ℕ) (w w' : World) (ok : Bool)
      → d.jtag_tms_seq bytes num_bits w ≡ some (ok, w')
      → outside w' ≡ outside w
  pub send :
      (bytes : List ℕ) (num_bits : ℕ) (flip_tms do_read : Bool) (w w' : World)
      → d.jtag_scan_chain_send bytes num_bits flip_tms do_read w ≡ some (true, w')
      → outside w' ≡ outside w
  pub recv :
      (bytes : List ℕ) (num_bits : ℕ) (flip_tms : Bool) (w w' : World) (result : Bool × List ℕ)
      → d.jtag_scan_chain_recv bytes num_bits flip_tms w ≡ some (result, w')
      → outside w' ≡ outside w
  pub clock_tck :
      (times : ℕ) (w w' : World) (ok : Bool)
      → d.jtag_clock_tck times w ≡ some (ok, w')
      → outside w' ≡ outside w

-- A driver that works, in the worlds of `P`: its operations return, report success, and lead back
-- into `P`; the bookkeeping of the JTAG operations does not leave `P`.
pub record IsWorking (d : Driver) (P : World → Type 0) : Type 0 where
  pub frame :
      (w w' : World)
      → P w
      → w'.ftdi ≡ w.ftdi
      → w'.mpsse_buffer ≡ w.mpsse_buffer
      → w'.recv_buffer ≡ w.recv_buffer
      → outside w' ≡ outside w
      → P w'
  pub tms_seq_works :
      (bytes : List ℕ) (num_bits : ℕ) (w : World)
      → P w
      → num_bits ≤ 8 * length bytes
      → (w' : World) × (d.jtag_tms_seq bytes num_bits w ≡ some (true, w')) × P w'
  pub send_works :
      (bytes : List ℕ) (num_bits : ℕ) (flip_tms do_read : Bool) (w : World)
      → P w
      → 0 < num_bits
      → num_bits ≤ 8 * length bytes
      → num_bits < 65504
      → (w' : World) × (d.jtag_scan_chain_send bytes num_bits flip_tms do_read w ≡ some (true, w'))
        × P w'
  pub clock_works :
      (times : ℕ) (w : World)
      → P w
      → (w' : World) × (d.jtag_clock_tck times w ≡ some (true, w')) × P w'
  pub recv_works :
      (recv : List ℕ) (num_bits : ℕ) (flip_tms : Bool) (w : World)
      → P w
      → 0 < num_bits
      → num_bits ≤ 8 * length recv
      → num_bits < 65504
      → (recv' : List ℕ) × (w' : World) × (d.jtag_scan_chain_recv recv num_bits flip_tms w
          ≡ some ((true, recv'), w'))
        × P w'

-- The same, where neither the clients' use of the socket leaves `P`.
pub record IsReliable (d : Driver) (P : World → Type 0) : Type 0 where
  pub frame :
      (w w' : World)
      → P w
      → w'.ftdi ≡ w.ftdi
      → w'.mpsse_buffer ≡ w.mpsse_buffer
      → w'.recv_buffer ≡ w.recv_buffer
      → P w'
  pub tms_seq_works :
      (bytes : List ℕ) (num_bits : ℕ) (w : World)
      → P w
      → num_bits ≤ 8 * length bytes
      → (w' : World) × (d.jtag_tms_seq bytes num_bits w ≡ some (true, w')) × P w'
  pub send_works :
      (bytes : List ℕ) (num_bits : ℕ) (flip_tms do_read : Bool) (w : World)
      → P w
      → 0 < num_bits
      → num_bits ≤ 8 * length bytes
      → num_bits < 65504
      → (w' : World) × (d.jtag_scan_chain_send bytes num_bits flip_tms do_read w ≡ some (true, w'))
        × P w'
  pub clock_works :
      (times : ℕ) (w : World)
      → P w
      → (w' : World) × (d.jtag_clock_tck times w ≡ some (true, w')) × P w'
  pub recv_works :
      (recv : List ℕ) (num_bits : ℕ) (flip_tms : Bool) (w : World)
      → P w
      → 0 < num_bits
      → num_bits ≤ 8 * length recv
      → num_bits < 65504
      → (recv' : List ℕ) × (w' : World) × (d.jtag_scan_chain_recv recv num_bits flip_tms w
          ≡ some ((true, recv'), w'))
        × P w'

pub IsWorking-of_IsReliable : (d : Driver) (P : World → Type 0) → IsReliable d P → IsWorking d P
IsWorking-of_IsReliable d P r = record {
  frame = λ w w' p dev buffer recv same. r.frame w w' p dev buffer recv;
  tms_seq_works = r.tms_seq_works;
  send_works = r.send_works;
  clock_works = r.clock_works;
  recv_works = r.recv_works;
}

-- A quiet driver works with the socket fixed.
pub IsWorking-fixed :
    (d : Driver) (P : World → Type 0) (o : Outside)
    → IsQuiet d
    → IsWorking d P
    → IsWorking d (λ w. P w × (outside w ≡ o))
IsWorking-fixed d P o quiet works = record {
  frame = λ w w' p dev buffer recv same. (works.frame w w' p.0 dev buffer recv same, same ∙ p.1);
  tms_seq_works = λ bytes num_bits w p enough.
      let (w', e, q) = works.tms_seq_works bytes num_bits w p.0 enough in
      (w', e, (q, quiet.tms_seq bytes num_bits w w' true e ∙ p.1));
  send_works = λ bytes num_bits flip_tms do_read w p some_bits enough fits.
      let (w', e, q) =
        works.send_works bytes num_bits flip_tms do_read w p.0 some_bits enough fits in
      (w', e, (q, quiet.send bytes num_bits flip_tms do_read w w' e ∙ p.1));
  clock_works = λ times w p.
      let (w', e, q) = works.clock_works times w p.0 in
      (w', e, (q, quiet.clock_tck times w w' true e ∙ p.1));
  recv_works = λ recv num_bits flip_tms w p some_bits enough fits.
      let (recv', w', e, q) = works.recv_works recv num_bits flip_tms w p.0 some_bits enough fits in
      (recv', w', e, (q, quiet.recv recv num_bits flip_tms w w' (true, recv') e ∙ p.1));
}

-- The clock can be set, to any whole number of MHz up to 4000.
pub record IsTunable (d : Driver) (P : World → Type 0) : Type 0 where
  pub tck_works :
      (freq_mhz : ℕ) (w : World)
      → P w
      → 0 < freq_mhz
      → freq_mhz ≤ 4000
      → (w' : World) × (d.set_tck_freq freq_mhz w ≡ some (true, w')) × P w' × (w'.state ≡ w.state)
