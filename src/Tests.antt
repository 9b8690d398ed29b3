-- ===== src/Tests.antt =====
-- The theorems at work on concrete inputs: a device and a socket that take and give what they are
-- asked for, and the MPSSE adapter over them.
mod Samples
mod Servers
mod Jtagds
mod Xvcs
mod Mains
use jtag_remote_server.Base.{
  ℕ, ◌+◌, ◌≡◌, ◌≤◌, ◌<◌, map, ◌∷◌, [], refl, Bool, true, false, Option, none, some, List, ◌++◌,
  arith, length, bits_from, bit_at, get_or, set, or_bit, replicate, if◌then◌else◌, ◌==◌,
}
use jtag_remote_server.Header.{Header}
use jtag_remote_server.Tap.{
  JtagState, shift_dr, shift_ir, test_logic_reset, exit1_dr, run_test_idle, next_state, enum_value,
  state_eq, walk_bits, get_tms_seq,
}
use jtag_remote_server.Tap.Laws.{walk}
use jtag_remote_server.Tap.Route.{get_tms_seq_shortest}
use jtag_remote_server.World.{World, Ftdi, Net}
use jtag_remote_server.Bitbang.{
  Region, enters_shift, leaves_shift, close_scan, scan_bit, scan_bits, analyze_bitbang,
}
use jtag_remote_server.Bitbang.Segments.{Segments}
use jtag_remote_server.Bitbang.Scanned.{analyze_bitbang-Segments}
use jtag_remote_server.Bitbang.Replay.{all_bits, analyze_bitbang_lossless}
use jtag_remote_server.Bitbang.Copy.{cut_bits, bits_from-cut_bits}
use jtag_remote_server.Ftdi.{ftdi_write_retry}
use jtag_remote_server.Ftdi.Retry.{Delivery, ftdi_write_retry_delivers}
use jtag_remote_server.Socket.{write_full}
use jtag_remote_server.Socket.Laws.{Sends, write_full-Sends}
use jtag_remote_server.Jtag.{Driver, jtag_goto_tlr, jtag_tms_seq_to}
use jtag_remote_server.Jtag.Law.{IsTracking, IsReliable, IsWorking, IsWorking-of_IsReliable}
use jtag_remote_server.Jtag.Goto.{goto_tlr_works, tms_seq_to_works}
use jtag_remote_server.Jtag.Probe.{jtag_probe_devices}
use jtag_remote_server.Jtag.Probed.{probe_devices_works}
use jtag_remote_server.Mpsse.Driver.{mpsse_jtag_tms_seq, mpsse_jtag_scan_chain_send}
use jtag_remote_server.Mpsse.Engine.{documented, Pulse, Decodes, tms_pulses}
use jtag_remote_server.Mpsse.Ensures.{Ensures}
use jtag_remote_server.Mpsse.Scan.{scan_pulses}
use jtag_remote_server.Mpsse.Clocks.{tms_seq_clocks, scan_chain_send_clocks}
use jtag_remote_server.Mpsse.Device.{mpsse_driver}
use jtag_remote_server.Mpsse.Tracking.{mpsse_driver-IsTracking}
use jtag_remote_server.Mpsse.Healthy.{Healthy}
use jtag_remote_server.Mpsse.Reliable.{mpsse_driver-IsReliable}
use jtag_remote_server.Blaster.{usb_blaster_jtag_tms_seq, usb_blaster_driver}
use jtag_remote_server.Blaster.Pins.{Drives}
use jtag_remote_server.Blaster.Yields.{Yields}
use jtag_remote_server.Blaster.Stream.{tms_seq-Drives}
use jtag_remote_server.Blaster.Tracking.{usb_blaster_driver-IsTracking}
use jtag_remote_server.Socket.{read_socket}
use jtag_remote_server.Socket.Buffer.{
  Filled, InOrder, pending, read_socket-Filled, read_socket_fresh,
}
use jtag_remote_server.Words.{word_at}
use jtag_remote_server.Vpi.{cmd_size, cmd_of, nb_bits, take_in, dispatch}
use jtag_remote_server.Vpi.Framing.{concat, commands_of, left_over, AllWhole, commands_lossless}
use jtag_remote_server.Vpi.Dispatch.{leads_to, is_known, dispatch_works}
use jtag_remote_server.Xvc.{run_shift}
use jtag_remote_server.Xvc.Shifted.{run_shift_works}
use jtag_remote_server.Rbb.{Batch, set_pins, parse_command, parse_commands, parse, run_batch}
use jtag_remote_server.Rbb.Edges.{edges, tms_pin, tdi_pin, reads, asks}
use jtag_remote_server.Rbb.Parse.{parse_collects}
use jtag_remote_server.Rbb.Batches.{run_batch_works}
use Samples.{
  talking, device, socket, world, device-IsHonest, device-IsSteady, device-IsServing, world-Healthy,
}

abbrev cable : Driver
cable = mpsse_driver documented 1 true

cable-IsTracking : IsTracking cable
cable-IsTracking = mpsse_driver-IsTracking documented 1 true

cable-IsReliable : IsReliable cable Healthy
cable-IsReliable = mpsse_driver-IsReliable documented 0 true

cable-IsWorking : IsWorking cable Healthy
cable-IsWorking = IsWorking-of_IsReliable cable Healthy cable-IsReliable

-- TMS 1, 0, 0, then two bits of data that are read.
abbrev commands : List ℕ
commands = b'6' ∷ b'4' ∷ b'4' ∷ b'R' ∷ b'5' ∷ b'R' ∷ b'7' ∷ []

scan_chain_send_clocks_example :
    (stream : List ℕ) × Decodes false stream (scan_pulses (0xa5 ∷ 0x01 ∷ []) 10 true true) true
    × Ensures stream
        (next_state run_test_idle true)
        world
        (mpsse_jtag_scan_chain_send documented (0xa5 ∷ 0x01 ∷ []) 10 true true world)
scan_chain_send_clocks_example =
    scan_chain_send_clocks documented refl (0xa5 ∷ 0x01 ∷ []) 10 true true world device-IsHonest
      (omega arith) (omega arith) (omega arith)

tms_seq_clocks_example :
    (commands : List ℕ) × (last : Bool) × Decodes false commands
      (tms_pulses false 0x5f (bits_from (0x5f ∷ []) 0 7))
      last
    × Ensures commands run_test_idle world (mpsse_jtag_tms_seq documented (0x5f ∷ []) 7 world)
tms_seq_clocks_example =
    tms_seq_clocks documented refl (0x5f ∷ []) 7 false world device-IsHonest (omega arith)
      (omega arith)

analyze_bitbang-Segments_example :
    Segments
      (0x11 ∷ [])
      run_test_idle
      0
      (analyze_bitbang false (0x11 ∷ []) 5 run_test_idle).0
      (analyze_bitbang false (0x11 ∷ []) 5 run_test_idle).1
      5
analyze_bitbang-Segments_example = analyze_bitbang-Segments (0x11 ∷ []) false 5 run_test_idle

analyze_bitbang_lossless_example :
    (all_bits (0x11 ∷ []) (analyze_bitbang false (0x11 ∷ []) 5 run_test_idle).0
      ≡ bits_from (0x11 ∷ []) 0 5)
    × ((analyze_bitbang false (0x11 ∷ []) 5 run_test_idle).1
        ≡ walk_bits (0x11 ∷ []) 0 5 run_test_idle)
analyze_bitbang_lossless_example = analyze_bitbang_lossless false (0x11 ∷ []) 5 run_test_idle

run_batch_works_example :
    (w' : World) × (run_batch cable false commands world ≡ some (tt, w'))
    × Healthy w'
    × (w'.state ≡ walk run_test_idle (edges tms_pin commands))
unfolding parse parse_commands parse_command set_pins or_bit analyze_bitbang scan_bits scan_bit
    close_scan enters_shift leaves_shift state_eq enum_value next_state bit_at bits_from
run_batch_works_example =
    run_batch_works cable Healthy cable-IsTracking cable-IsReliable false commands world
      world-Healthy (omega arith)
      (false, 2, λ h. ground arith, (true, 0, λ h. refl, refl, refl), refl)

ftdi_write_retry_delivers_example :
    Delivery (1 ∷ 2 ∷ 3 ∷ []) 3 world (ftdi_write_retry (1 ∷ 2 ∷ 3 ∷ []) 3 world)
ftdi_write_retry_delivers_example =
    ftdi_write_retry_delivers (1 ∷ 2 ∷ 3 ∷ []) 3 world device-IsHonest

mpsse_driver-IsReliable_example : IsReliable cable Healthy
mpsse_driver-IsReliable_example = mpsse_driver-IsReliable documented 0 true

mpsse_driver-IsTracking_example : IsTracking cable
mpsse_driver-IsTracking_example = mpsse_driver-IsTracking documented 1 true

parse_collects_example :
    (bits_from (parse commands).tms_input 0 (parse commands).bits ≡ edges tms_pin commands)
    × (bits_from (parse commands).tdi_input 0 (parse commands).bits ≡ edges tdi_pin commands)
    × ((j : ℕ) → bit_at (parse commands).read_input j ≡ asks j commands)
    × ((parse commands).read_bits ≡ reads commands)
    × ((parse commands).bits ≤ length commands)
parse_collects_example = parse_collects commands

probe_devices_works_example :
    (ids : List ℕ) × (w' : World) × (jtag_probe_devices cable (0 ∷ []) (replicate 32 0) world
      ≡ some (ids, w'))
    × Healthy w'
    × (length ids < 8)
    × (w'.state ≡ (if length ids == 0 then exit1_dr else test_logic_reset))
probe_devices_works_example =
    probe_devices_works cable Healthy cable-IsTracking cable-IsWorking (0 ∷ []) (replicate 32 0)
      world world-Healthy refl refl

goto_tlr_works_example :
    (w' : World) × (jtag_goto_tlr cable world ≡ some (true, w'))
    × Healthy w'
    × (w'.state ≡ test_logic_reset)
goto_tlr_works_example =
    goto_tlr_works cable Healthy cable-IsTracking cable-IsWorking world world-Healthy

tms_seq_to_works_example :
    (w' : World) × (jtag_tms_seq_to cable shift_ir world ≡ some (true, w'))
    × Healthy w'
    × (w'.state ≡ shift_ir)
unfolding get_tms_seq state_eq enum_value
tms_seq_to_works_example =
    tms_seq_to_works cable Healthy cable-IsTracking cable-IsWorking shift_ir 0x3 4 world
      world-Healthy refl

get_tms_seq_shortest_example :
    (walk_bits (0x06 ∷ []) 0 5 test_logic_reset ≡ shift_ir)
    × (5 ≤ 5)
    × ((bs : List Bool) → walk test_logic_reset bs ≡ shift_ir → 5 ≤ length bs)
unfolding get_tms_seq state_eq enum_value
get_tms_seq_shortest_example = get_tms_seq_shortest test_logic_reset shift_ir 0x06 5 refl

write_full-Sends_example : Sends (7 ∷ 8 ∷ 9 ∷ []) 0 3 world (write_full (7 ∷ 8 ∷ 9 ∷ []) 3 world)
write_full-Sends_example = write_full-Sends (7 ∷ 8 ∷ 9 ∷ []) 3 world

bits_from-cut_bits_example :
    bits_from (cut_bits (0xa5 ∷ 0x03 ∷ []) 3 6) 0 6 ≡ bits_from (0xa5 ∷ 0x03 ∷ []) 3 6
bits_from-cut_bits_example = bits_from-cut_bits (0xa5 ∷ 0x03 ∷ []) 3 6 (omega arith)

tms_seq-Drives_example :
    (stream : List ℕ) × (last : Bool) × Drives true stream
      (map (λ b. record { tms = b; tdi = false; read = false }) (bits_from (0x1f ∷ []) 0 5))
      last
    × Yields stream 0 run_test_idle world (usb_blaster_jtag_tms_seq false (0x1f ∷ []) 5 world)
tms_seq-Drives_example = tms_seq-Drives false true (0x1f ∷ []) 5 world device-IsHonest (omega arith)

usb_blaster_driver-IsTracking_example : IsTracking (usb_blaster_driver false 1 true)
usb_blaster_driver-IsTracking_example = usb_blaster_driver-IsTracking false 1 true

read_socket-Filled_example : Filled (read_socket world)
read_socket-Filled_example =
    read_socket-Filled world (λ k n bytes e. ground arith)
      (record { size = refl; forward = omega arith; within = omega arith })

read_socket_fresh_example :
    (w' : World) × (read_socket talking ≡ some (true, w')) × (pending w' ≡ 1 ∷ 2 ∷ 3 ∷ [])
read_socket_fresh_example = read_socket_fresh talking (1 ∷ 2 ∷ 3 ∷ []) refl refl (omega arith)

commands_lossless_example :
    (concat (commands_of [] ((1 ∷ 2 ∷ []) ∷ (3 ∷ []) ∷ []))
        ++ left_over [] ((1 ∷ 2 ∷ []) ∷ (3 ∷ []) ∷ [])
      ≡ 1 ∷ 2 ∷ 3 ∷ [])
    × AllWhole (commands_of [] ((1 ∷ 2 ∷ []) ∷ (3 ∷ []) ∷ []))
    × (length (left_over [] ((1 ∷ 2 ∷ []) ∷ (3 ∷ []) ∷ [])) < cmd_size)
unfolding take_in
commands_lossless_example =
    commands_lossless [] ((1 ∷ 2 ∷ []) ∷ (3 ∷ []) ∷ []) (omega arith)
      (omega arith, (omega arith, tt))

-- A scan of ten bits.
abbrev scan_command : List ℕ
scan_command = 3 ∷ 0 ∷ 0 ∷ 0 ∷ (replicate 1024 0xa5 ++ (0 ∷ 0 ∷ 0 ∷ 0 ∷ 10 ∷ 0 ∷ 0 ∷ 0 ∷ []))

dispatch_works_example :
    (w' : World) × (dispatch cable scan_command world ≡ some (tt, w'))
    × Healthy w'
    × (w'.state ≡ leads_to scan_command run_test_idle)
    × (is_known scan_command ≡ false → w' ≡ world)
unfolding nb_bits word_at
dispatch_works_example =
    dispatch_works cable Healthy cable-IsTracking cable-IsReliable scan_command world world-Healthy
      refl (omega arith) (omega arith)

run_shift_works_example :
    (w' : World) × (run_shift cable false (0x11 ∷ []) (0xff ∷ []) 5 world
      ≡ some ((analyze_bitbang false (0x11 ∷ []) 5 run_test_idle).0, w'))
    × Healthy w'
    × (w'.state ≡ walk_bits (0x11 ∷ []) 0 5 run_test_idle)
run_shift_works_example =
    run_shift_works cable Healthy cable-IsTracking cable-IsWorking false (0x11 ∷ []) (0xff ∷ []) 5
      world world-Healthy (omega arith)
