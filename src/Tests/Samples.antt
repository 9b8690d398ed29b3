-- ===== src/Tests/Samples.antt =====
-- The device, the socket and the world of the tests.
use jtag_remote_server.Base.{◌∷◌, [], refl, none, some, arith, replicate, length-replicate}
use jtag_remote_server.Tap.{run_test_idle}
use jtag_remote_server.World.{World, Ftdi, Net}
use jtag_remote_server.Ftdi.Retry.{IsHonest, IsSteady}
use jtag_remote_server.Mpsse.Healthy.{IsServing, Healthy}

abbrev pub device : Ftdi
device = record {
  write_data = λ k n. some n;
  read_data = λ k n. some (replicate n 0x80);
  calls = 0;
  wire = [];
}

abbrev pub socket : Net
socket = record {
  accepts = λ k. none;
  reads = λ k n. some [];
  writes = λ k n. some n;
  calls = 0;
  sent = [];
  client_fd = some 4;
}

abbrev pub world : World
world = record {
  state = run_test_idle;
  bits_send = 0;
  freq_mhz = 15;
  ftdi = device;
  mpsse_buffer = [];
  recv_buffer = [];
  net = socket;
  buffer = replicate 4096 0;
  buffer_begin = 0;
  buffer_end = 0;
}

-- A client that sends three bytes.
abbrev pub talking : World
talking = record world { net = record socket { reads = λ k n. some (1 ∷ 2 ∷ 3 ∷ []) } }

pub device-IsHonest : IsHonest device
device-IsHonest k n m e = ground arith

pub device-IsSteady : IsSteady 82 device
device-IsSteady k n = (n, refl, omega arith)

pub device-IsServing : IsServing device
device-IsServing k n = (replicate n 0x80, refl, length-replicate n 0x80)

pub world-Healthy : Healthy world
world-Healthy = record {
  honest = device-IsHonest;
  steady = device-IsSteady;
  serving = device-IsServing;
  in_bounds = omega arith;
}
