-- ===== src/Tests/Xvcs.antt =====
-- The theorems about src/xvc.cpp at work.
use jtag_remote_server.Base.{
  ℕ, ◌+◌, ◌*◌, ◌≤◌, ◌<◌, ◌≡◌, refl, true, false, some, none, List, ◌∷◌, [], ◌++◌, arith, bits_from,
  replicate,
}
use jtag_remote_server.Words.{word_at, le_bytes}
use jtag_remote_server.World.{World}
use jtag_remote_server.Jtag.{Driver}
use jtag_remote_server.Ftdi.{ftdi_write_retry}
use jtag_remote_server.Mpsse.Engine.{documented}
use jtag_remote_server.Mpsse.Device.{mpsse_driver, mpsse_set_tck_freq}
use jtag_remote_server.Mpsse.Tracking.{mpsse_driver-IsTracking, mpsse_driver-IsQuiet}
use jtag_remote_server.Mpsse.Healthy.{Healthy}
use jtag_remote_server.Mpsse.Reliable.{mpsse_driver-IsReliable}
use jtag_remote_server.Mpsse.Tunable.{mpsse_driver-IsTunable, set_tck_freq_divisor}
use jtag_remote_server.Bitbang.Copy.{buffer_size, cut_bits}
use jtag_remote_server.Socket.Buffer.{InOrder}
use jtag_remote_server.Socket.Stands.{Stands}
use jtag_remote_server.Xvc.Commands.{
  ShiftCommand, Session, shift, run_command, run_commands, run_settck,
}
use jtag_remote_server.Xvc.Answers.{paste_bits, send_all_back}
use jtag_remote_server.Xvc.Encode.{Command, get_info, set_tck, shift_bits, encode_all}
use jtag_remote_server.Xvc.Stream.{Served, run_commands_works}
use jtag_remote_server.Xvc.Replies.{Replies}
use jtag_remote_server.Xvc.Readback.{send_all_back_works}
use jtag_remote_server.Xvc.Paste.{paste_bits-cut_bits}
use jtag_remote_server.Xvc.Faults.{long_shift_overruns, slow_settck_divides_by_zero}
use jtag_remote_server.Tests.Samples.{world, world-Healthy}
use jtag_remote_server.Tests.Servers.{received, session, socket-IsGreedy}

abbrev driver : Driver
driver = mpsse_driver documented 1 true

abbrev commands : List Command
commands = get_info ∷ set_tck 100 ∷ shift_bits 12 (0x11 ∷ 0 ∷ []) (0xff ∷ 0x0a ∷ []) ∷ []

abbrev sample : Session
sample = session (encode_all commands ++ (b's' ∷ b'h' ∷ []))

sample-Healthy : Healthy (sample.world)
sample-Healthy = record {
  honest = world-Healthy.honest;
  steady = world-Healthy.steady;
  serving = world-Healthy.serving;
  in_bounds = omega arith;
}

sample-InOrder : InOrder (sample.world)
unfolding le_bytes
sample-InOrder = record { size = refl; forward = omega arith; within = omega arith }

run_commands_works_example :
    (s' : Session) × (run_commands driver false buffer_size sample ≡ some (tt, s'))
    × Served Healthy commands (b's' ∷ b'h' ∷ []) sample s'
unfolding le_bytes
run_commands_works_example =
    run_commands_works driver Healthy (mpsse_driver-IsTracking documented 1 true)
      (mpsse_driver-IsReliable documented 0 true) (mpsse_driver-IsQuiet documented 1 true)
      (mpsse_driver-IsTunable documented 1 true) false commands (b's' ∷ b'h' ∷ []) sample
      sample-Healthy socket-IsGreedy sample-InOrder refl
      (tt, ((omega arith, omega arith), ((refl, refl, omega arith), tt))) (omega arith) tt

abbrev shifts : List ShiftCommand
shifts =
    record {
      bits = 12;
      bytes = 2;
      regions =
          record { is_tms = true; flip_tms = false; begin = 0; end = 3 }
          ∷ record { is_tms = false; flip_tms = true; begin = 3; end = 12 }
          ∷ [];
    }
    ∷ []

send_all_back_works_example :
    (out : List ℕ) × (w' : World) × (bytes : List ℕ) × (send_all_back driver shifts
        (replicate 4096 0)
        world
      ≡ some (out, w'))
    × Healthy w'
    × Replies driver shifts world bytes w'
    × (w'.net.sent ≡ world.net.sent ++ bytes)
send_all_back_works_example =
    send_all_back_works driver Healthy (mpsse_driver-IsReliable documented 0 true)
      (mpsse_driver-IsQuiet documented 1 true) shifts (replicate 4096 0) world world-Healthy
      socket-IsGreedy ((refl, omega arith, (refl, omega arith, refl)), omega arith, omega arith, tt)

paste_bits-cut_bits_example :
    bits_from (paste_bits (cut_bits (0xa5 ∷ 0x3c ∷ []) 3 9) 3 0 9 (replicate 2 0)) 3 9
    ≡ bits_from (0xa5 ∷ 0x3c ∷ []) 3 9
paste_bits-cut_bits_example =
    paste_bits-cut_bits (0xa5 ∷ 0x3c ∷ []) 3 9 2 (omega arith) (omega arith)

-- Ten bytes that ask for 2^32 - 1 bits.
abbrev long_shift : Session
long_shift = session (shift ++ (0xff ∷ 0xff ∷ 0xff ∷ 0xff ∷ []))

long_shift-Stands :
    Stands (long_shift.world) (shift ++ (le_bytes (0xffffffff ∷ []) ++ [])) (replicate 4086 0)
unfolding le_bytes
long_shift-Stands = record { size = refl; at = refl; end = refl; within = omega arith }

long_shift_overruns_example : run_command driver false long_shift ≡ none
long_shift_overruns_example =
    long_shift_overruns driver false long_shift 0xffffffff [] (replicate 4086 0) long_shift-Stands
      (omega arith) (omega arith)

slow_settck_divides_by_zero_example :
    run_settck driver
      (received (b's' ∷ b'e' ∷ b't' ∷ b't' ∷ b'c' ∷ b'k' ∷ b':' ∷ 0 ∷ 16 ∷ 0 ∷ 0 ∷ []))
    ≡ none
unfolding word_at
slow_settck_divides_by_zero_example =
    slow_settck_divides_by_zero documented 1 true
      (received (b's' ∷ b'e' ∷ b't' ∷ b't' ∷ b'c' ∷ b'k' ∷ b':' ∷ 0 ∷ 16 ∷ 0 ∷ 0 ∷ [])) slow refl
  where
    slow :
        2000
        < word_at
            ((received
              (b's' ∷ b'e' ∷ b't' ∷ b't' ∷ b'c' ∷ b'k' ∷ b':' ∷ 0 ∷ 16 ∷ 0 ∷ 0 ∷ [])).buffer)
            7
    slow = omega arith

set_tck_freq_divisor_example :
    (divisor : ℕ) × (mpsse_set_tck_freq documented 7 world
      ≡ ftdi_write_retry
          (documented.tck_divisor ∷ divisor ∷ 0x00 ∷ documented.dis_div_5 ∷ [])
          4
          world)
    × (30 ≤ 7 * (divisor + 1))
    × (7 * divisor < 30)
set_tck_freq_divisor_example =
    set_tck_freq_divisor documented 7 world (omega arith) (omega arith) refl
