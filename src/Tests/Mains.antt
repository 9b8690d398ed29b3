-- ===== src/Tests/Mains.antt =====
-- Command lines for the tests of src/main.cpp.
use jtag_remote_server.Base.{
  ℕ, ◌≡◌, ◌-◌, ◌&&◌, Option, some, none, List, [], ◌∷◌, if◌then◌else◌, leb,
}
use jtag_remote_server.Jtag.{digilent_hs2}
use jtag_remote_server.Main.{
  Opt, use_xvc, adapter_name, freq, pid, bus_addr, Scanf, default_settings, start_up, xvc, hs2_name,
}
use jtag_remote_server.Main.Described.{is_accepted, settled}
use jtag_remote_server.Main.Options.{start_up_settles}
use jtag_remote_server.Tests.Samples.{world}
use jtag_remote_server.Tests.Servers.{chain}

-- Numbers of one digit.
abbrev digit : List ℕ → Option ℕ
digit (d ∷ []) = if leb b'0' d && leb d b'9' then some (d - b'0') else none
digit _ = none

abbrev one_digit : Scanf
one_digit = record { hex = digit; uint8 = digit; uint64 = digit }

-- -x -a hs2 -f 5 -f 2
abbrev command_line : List Opt
command_line = use_xvc ∷ adapter_name hs2_name ∷ freq (b'5' ∷ []) ∷ freq (b'2' ∷ []) ∷ []

start_up_settles_example :
    start_up one_digit chain chain command_line (default_settings 1) world
    ≡ some (
      some (record (default_settings 1) {
        proto = xvc;
        adapter_type = digilent_hs2;
        ftdi_pid = 0x6014;
        freq_mhz = 2;
      }),
      record world { freq_mhz = 2 },
    )
unfolding is_accepted default_settings settled
start_up_settles_example =
    start_up_settles one_digit chain chain command_line (default_settings 1) world

-- -p 1 -B 1
both_ways :
    start_up one_digit chain chain
      (pid (b'1' ∷ []) ∷ bus_addr (b'1' ∷ []) ∷ [])
      (default_settings 1)
      world
    ≡ some (none, world)
unfolding is_accepted default_settings
both_ways = start_up_settles one_digit chain chain _ (default_settings 1) world
