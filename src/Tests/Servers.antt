-- ===== src/Tests/Servers.antt =====
-- Servers and sessions for the tests of src/jtagd.cpp and src/xvc.cpp.
use jtag_remote_server.Base.{
  ℕ, ◌-◌, refl, true, some, none, List, ◌∷◌, [], ◌++◌, arith, length, map, replicate, if◌then◌else◌,
}
use jtag_remote_server.Tap.{next_state}
use jtag_remote_server.World.{World, pure}
use jtag_remote_server.Jtag.{Driver}
use jtag_remote_server.Socket.Buffer.{InOrder}
use jtag_remote_server.Socket.Greedy.{IsGreedy}
use jtag_remote_server.Jtagd.{Output, Message, Server}
use jtag_remote_server.Jtagd.Gathered.{Holds}
use jtag_remote_server.Jtagd.Packets.{encode_packets}
use jtag_remote_server.Xvc.Commands.{Session}
use jtag_remote_server.Tests.Samples.{world, socket}

-- A chain that answers every bit with the same byte.
abbrev pub chain : Driver
chain = record {
  init = λ adapter_type. pure true;
  deinit = pure true;
  set_tck_freq = λ freq_mhz. pure true;
  jtag_tms_seq = λ bytes num_bits. pure true;
  jtag_scan_chain_send = λ bytes num_bits flip_tms do_read w.
      some (true, record w { state = if flip_tms then next_state w.state true else w.state });
  jtag_scan_chain_recv = λ recv num_bits flip_tms. pure (true, map (λ b. 0x02) recv);
  jtag_clock_tck = λ times. pure true;
}

pub socket-IsGreedy : IsGreedy socket
socket-IsGreedy k n = refl

abbrev pub empty_output : Output
empty_output = record { send_buffer = replicate 4096 0; send_buffer_size = 2; last_response = none }

pub empty_output-Holds : Holds empty_output none []
empty_output-Holds = record {
  high = 0;
  low = 0;
  stale = replicate 4094 0;
  shape = refl;
  size = refl;
  used = refl;
  fits = omega arith;
  opened = refl;
}

-- A world with these bytes in the buffer.
abbrev pub received : List ℕ → World
received bytes = record world {
  buffer = bytes ++ replicate (4096 - length bytes) 0;
  buffer_end = length bytes;
}

abbrev pub version_request : Message
version_request = record { command = 0x83; body = [] }

abbrev pub strange_request : Message
strange_request = record { command = 0x11; body = 1 ∷ 2 ∷ [] }

-- Two packets, and the first byte of another.
abbrev pub packets : List (List Message)
packets = (version_request ∷ strange_request ∷ []) ∷ (strange_request ∷ []) ∷ []

abbrev pub server : Server
server = record {
  output = empty_output;
  devices = [];
  messages = version_request ∷ strange_request ∷ [];
  fifos = λ k. [];
  world = received (encode_packets packets ++ (0x00 ∷ []));
}

pub server-InOrder : InOrder (server.world)
server-InOrder = record { size = refl; forward = omega arith; within = omega arith }

abbrev pub session : List ℕ → Session
session bytes = record {
  tms = replicate 4096 0;
  tdi = replicate 4096 0;
  tdo = replicate 4096 0;
  shift_commands = [];
  world = received bytes;
}
