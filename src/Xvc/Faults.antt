-- ===== src/Xvc/Faults.antt =====
-- Commands that an XVC client can send and that the server does not survive.
use native.Mathlib.Nat.{div-eq_of_lt}
use jtag_remote_server.Base.{
  ℕ, ◌+◌, ◌-◌, ◌*◌, ◌/◌, ◌^◌, ◌≤◌, ◌<◌, ◌≡◌, refl, ap, Bool, true, false, none, some, List, [], ◌∷◌,
  ◌++◌, arith, leb, ◌==◌, u32,
}
use jtag_remote_server.Words.{word_at, le_bytes}
use jtag_remote_server.Header.{Header}
use jtag_remote_server.World.{World, Run, pure, ◌>>=◌}
use jtag_remote_server.Jtag.{Driver}
use jtag_remote_server.Bitbang.Copy.{buffer_size}
use jtag_remote_server.Socket.Stands.{Stands}
use jtag_remote_server.Mpsse.Buffer.{mpsse_buffer_flush, mpsse_buffer_is_empty}
use jtag_remote_server.Mpsse.Device.{mpsse_set_tck_freq, mpsse_driver}
use jtag_remote_server.Xvc.Commands.{
  Session, starts_with, getinfo, settck, shift, consume, period_to_mhz, run_settck,
  run_shift_command, run_command,
}
use jtag_remote_server.Xvc.Encode.{at_command_seen, at_command_other, word_behind}

then_none :
    (m : Run Session (Unit {0})) (s : Session) → m s ≡ none → (m >>= λ u. pure true) s ≡ none
then_none m s e = rw (◌>>=◌, e) refl

module _ (d : Driver) (junk : Bool) where
  command_overruns :
      (s : Session) (bits bytes total_len : ℕ)
      → leb bits (8 * buffer_size) ≡ false
      → run_shift_command d junk bits bytes total_len s ≡ none
  unfolding run_shift_command
  command_overruns s bits bytes total_len e = rw (◌>>=◌, e) refl

  -- A shift of 2^32 - 7 bits or more is taken for one without any bytes, and read far behind the arrays:
  -- the rounding up of its length wraps around.
  pub long_shift_overruns :
      (s : Session) (bits : ℕ) (rest stale : List ℕ)
      → Stands s.world (shift ++ (le_bytes (bits ∷ []) ++ rest)) stale
      → 2 ^ 32 - 7 ≤ bits
      → bits < 2 ^ 32
      → run_command d junk s ≡ none
  unfolding run_command starts_with le_bytes
  long_shift_overruns s bits rest stale st long word =
      rw
        (
          at_command_other s.world getinfo _ stale 8 st refl,
          at_command_other s.world settck _ stale 11 st refl,
          at_command_seen s.world shift _ stale 10 st (omega arith),
          word_behind s.world shift rest stale bits 6 st word refl,
          no_bytes,
          there,
        )
        (then_none (run_shift_command d junk bits 0 10) s (command_overruns s bits 0 10 over))
    where
      no_bytes : u32 (bits + 7) / 8 ≡ 0
      no_bytes = omega arith

      there : leb (s.world.buffer_begin + 10) s.world.buffer_end ≡ true
      there = ground (arith, st.end)

      over : leb bits (8 * buffer_size) ≡ false
      over = ground arith

rounds_to_zero : (tck : ℕ) → 2000 < tck → period_to_mhz tck ≡ some 0
unfolding period_to_mhz
rounds_to_zero tck slow = rw not_zero (ap some (div-eq_of_lt (omega (arith, slow))))
  where
    not_zero : (tck == 0) ≡ false
    not_zero = ground (arith, slow)

settck_fails :
    (d : Driver) (w : World) (freq_mhz : ℕ)
    → period_to_mhz (word_at w.buffer (w.buffer_begin + 7)) ≡ some freq_mhz
    → d.set_tck_freq freq_mhz (consume 11 w) ≡ none
    → run_settck d w ≡ none
unfolding run_settck
settck_fails d w freq_mhz period e = rw (◌>>=◌, period, e) refl

zero_fails : (h : Header) (w : World) → w.mpsse_buffer ≡ [] → mpsse_set_tck_freq h 0 w ≡ none
unfolding mpsse_set_tck_freq mpsse_buffer_flush mpsse_buffer_is_empty
zero_fails h w empty = rw (◌>>=◌, empty) refl

-- A period of more than 2000 ns is rounded to 0 MHz, which the MPSSE driver divides by.
pub slow_settck_divides_by_zero :
    (h : Header) (tries : ℕ) (opened : Bool) (w : World)
    → 2000 < word_at w.buffer (w.buffer_begin + 7)
    → w.mpsse_buffer ≡ []
    → run_settck (mpsse_driver h tries opened) w ≡ none
unfolding mpsse_driver consume
slow_settck_divides_by_zero h tries opened w slow empty =
    settck_fails (mpsse_driver h tries opened) w 0 (rounds_to_zero _ slow)
      (zero_fails h (consume 11 w) empty)
