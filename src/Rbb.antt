-- ===== src/Rbb.antt =====
-- src/rbb.cpp: the remote bitbang protocol.
pub mod Edges
pub mod Parse
pub mod Regions
pub mod Batches
use jtag_remote_server.Base.{
  ℕ, zero, suc, ◌+◌, ◌-◌, ◌*◌, ◌/◌, ◌%◌, ◌^◌, ◌≤◌, Bool, true, false, not, ◌&&◌, ◌||◌, Option, none,
  some, List, [], ◌∷◌, ◌++◌, map, if◌then◌else◌, ◌==◌, leb, ltb, length, take, drop, replicate, u32,
  to_bit, bit_at, or_bit, bits_from,
}
use jtag_remote_server.Tap.{JtagState, state_eq}
use jtag_remote_server.World.{World, Net, M, pure, check, modify, ◌>>=◌, ◌>>◌}
use jtag_remote_server.Jtag.{Driver, jtag_tms_seq, jtag_scan_chain}
use jtag_remote_server.Bitbang.{Region, region_length, analyze_bitbang}
use jtag_remote_server.Bitbang.Copy.{buffer_size, cut_bits}
use jtag_remote_server.Socket.{write_full, try_accept, read_client, close_client}

-- The locals that the commands of one read are gathered in.
pub record Batch : Type 0 where
  pub tms_input : List ℕ
  pub tdi_input : List ℕ
  pub read_input : List ℕ
  pub bits : ℕ
  pub read_bits : ℕ

-- A rising edge of TCK takes the levels of TMS and TDI.
unfoldable pub set_pins : ℕ → Batch → Batch
set_pins offset b =
    if offset / 2 ^ 2 % 2 == 1
    then record b {
      tms_input = or_bit b.tms_input b.bits (offset / 2 ^ 1 % 2 == 1);
      tdi_input = or_bit b.tdi_input b.bits (offset % 2 == 1);
      bits = b.bits + 1;
    }
    else b

-- One command; the reset commands and anything else are ignored.
unfoldable pub parse_command : ℕ → Batch → Batch
unfolding set_pins
parse_command command b =
    if leb b'0' command && leb command b'7'
    then set_pins (command - b'0') b
    else if command == b'R'
    then record b { read_input = or_bit b.read_input b.bits true; read_bits = b.read_bits + 1 }
    else b

unfoldable pub parse_commands : List ℕ → Batch → Batch
parse_commands [] b = b
parse_commands (c ∷ cs) b = parse_commands cs (parse_command c b)

-- The arrays are cleared for the commands at hand.
unfoldable pub parse : List ℕ → Batch
unfolding parse_commands
parse commands =
    let zeros = replicate ((length commands + 7) / 8) 0 in
    parse_commands commands
      (record { tms_input = zeros; tdi_input = zeros; read_input = zeros; bits = 0; read_bits = 0 })

-- The loop over a data region that finds `do_read`; `none` where `assert(do_read == read_bit)` fails.
unfoldable pub agree_read : List ℕ → ℕ → ℕ → Bool → Option Bool
agree_read read_input i zero do_read = some do_read
agree_read read_input i (suc left) do_read =
    let read_bit = bit_at read_input i in
    let seen = do_read || read_bit in
    let rest = agree_read read_input (i + 1) left seen in
    if (seen && read_bit) || (not seen && not read_bit) then rest else none

-- A bit as the character that answers a read.
abbrev pub answer : Bool → ℕ
answer b = if b then b'1' else b'0'

module _ (adapter : Driver) where
  -- A data region: shift, and answer the bits if they are to be read. The result is the number of
  -- bits read.
  unfoldable pub shift_region : Batch → Region → Bool → M ℕ
  shift_region b r do_read = do
    let tdi_buffer = cut_bits b.tdi_input r.begin (region_length r)
    (ok, tdo_buffer) ←
        jtag_scan_chain adapter tdi_buffer (replicate buffer_size 0) (region_length r) r.flip_tms
          do_read
    if do_read
        then (do
          sent ←
              write_full (map answer (bits_from tdo_buffer 0 (region_length r))) (region_length r)
          pure (region_length r))
        else pure 0

  unfoldable pub run_region : Batch → Region → M ℕ
  unfolding shift_region
  run_region b r = do
    check (ltb r.begin r.end && leb r.end b.bits)
    if r.is_tms
        then (do
          ok ←
              jtag_tms_seq adapter (cut_bits b.tms_input r.begin (region_length r))
                (region_length r)
          pure 0)
        else (λ w. elim (agree_read b.read_input r.begin (region_length r) false) [
          | none ↦ none
          | some do_read ↦ shift_region b r do_read w
        ])

  -- The loop over the regions, with `actual_read_bits`.
  unfoldable pub run_regions : Batch → List Region → ℕ → M ℕ
  run_regions b [] actual_read_bits = pure actual_read_bits
  run_regions b (r ∷ rs) actual_read_bits = do
    n ← run_region b r
    run_regions b rs (u32 (actual_read_bits + n))

  -- What follows a successful read, up to the assertions behind the loop.
  unfoldable pub run_batch : Bool → List ℕ → M (Unit {0})
  unfolding parse run_region run_regions
  run_batch junk commands w =
      let b = parse commands in
      let (regions, cur_state) = analyze_bitbang junk b.tms_input b.bits w.state in
      (do
        actual_read_bits ← run_regions b regions 0
        (λ v. check (state_eq cur_state v.state) v)
        check (b.read_bits == actual_read_bits))
        w

  unfoldable pub jtag_rbb_tick : Bool → M (Unit {0})
  unfolding run_batch
  jtag_rbb_tick junk w = elim w.net.client_fd [
    | none ↦ (try_accept >>= λ ok. pure tt) w
    | some fd ↦
        (read_client buffer_size >>= λ r. elim r [
          | none ↦ close_client
          | some bytes ↦ if length bytes == 0 then close_client else run_batch junk bytes
        ])
          w
  ]
