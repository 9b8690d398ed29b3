-- ===== src/Jtag/Views.antt =====
-- Both laws of Jtag/Law at once: what a driver does to the tracked state and to the socket.
use jtag_remote_server.Base.{
  ℕ, ◌⊎◌, inl, inr, Bool, true, false, some, List, ◌≡◌, ap, if◌then◌else◌,
}
use jtag_remote_server.Tap.{next_state}
use jtag_remote_server.World.{World}
use jtag_remote_server.World.Keeps.{outside, view}
use jtag_remote_server.Jtag.{Driver}
use jtag_remote_server.Jtag.Law.{IsTracking, IsQuiet}

pub record Views (d : Driver) : Type 0 where
  pub set_tck_freq :
      (freq_mhz : ℕ) (w w' : World) (ok : Bool)
      → d.set_tck_freq freq_mhz w ≡ some (ok, w')
      → view w' ≡ view w
  pub tms_seq :
      (bytes : List ℕ) (num_bits : ℕ) (w w' : World) (ok : Bool)
      → d.jtag_tms_seq bytes num_bits w ≡ some (ok, w')
      → view w' ≡ view w
  pub send :
      (bytes : List ℕ) (num_bits : ℕ) (flip_tms do_read : Bool) (w w' : World)
      → d.jtag_scan_chain_send bytes num_bits flip_tms do_read w ≡ some (true, w')
      → view w' ≡ ((if flip_tms then next_state w.state true else w.state), outside w)
  pub send_fails :
      (bytes : List ℕ) (num_bits : ℕ) (flip_tms do_read : Bool) (w w' : World)
      → d.jtag_scan_chain_send bytes num_bits flip_tms do_read w ≡ some (false, w')
      → (view w' ≡ view w)
        ⊎ (view w' ≡ ((if flip_tms then next_state w.state true else w.state), outside w))
  pub recv :
      (bytes : List ℕ) (num_bits : ℕ) (flip_tms : Bool) (w w' : World) (result : Bool × List ℕ)
      → d.jtag_scan_chain_recv bytes num_bits flip_tms w ≡ some (result, w')
      → view w' ≡ view w
  pub clock_tck :
      (times : ℕ) (w w' : World) (ok : Bool)
      → d.jtag_clock_tck times w ≡ some (ok, w')
      → view w' ≡ view w

pub IsTracking-of_Views : (d : Driver) → Views d → IsTracking d
IsTracking-of_Views d v = record {
  tms_seq = λ bytes num_bits w w' ok e. ap (λ u. u.0) (v.tms_seq bytes num_bits w w' ok e);
  send = λ bytes num_bits flip_tms do_read w w' e.
      ap (λ u. u.0) (v.send bytes num_bits flip_tms do_read w w' e);
  send_fails = λ bytes num_bits flip_tms do_read w w' e.
      elim (v.send_fails bytes num_bits flip_tms do_read w w' e) [
        | inl same ↦ inl (ap (λ u. u.0) same)
        | inr moved ↦ inr (ap (λ u. u.0) moved)
      ];
  recv = λ bytes num_bits flip_tms w w' result e.
      ap (λ u. u.0) (v.recv bytes num_bits flip_tms w w' result e);
  clock_tck = λ times w w' ok e. ap (λ u. u.0) (v.clock_tck times w w' ok e);
}

pub IsQuiet-of_Views : (d : Driver) → Views d → IsQuiet d
IsQuiet-of_Views d v = record {
  set_tck_freq = λ freq_mhz w w' ok e. ap (λ u. u.1) (v.set_tck_freq freq_mhz w w' ok e);
  tms_seq = λ bytes num_bits w w' ok e. ap (λ u. u.1) (v.tms_seq bytes num_bits w w' ok e);
  send = λ bytes num_bits flip_tms do_read w w' e.
      ap (λ u. u.1) (v.send bytes num_bits flip_tms do_read w w' e);
  recv = λ bytes num_bits flip_tms w w' result e.
      ap (λ u. u.1) (v.recv bytes num_bits flip_tms w w' result e);
  clock_tck = λ times w w' ok e. ap (λ u. u.1) (v.clock_tck times w w' ok e);
}
