-- ===== src/Xvc.antt =====
-- src/xvc.cpp: the Xilinx virtual cable protocol; here the loop that carries out one `shift:` command.
pub mod Shifted
pub mod Commands
pub mod Answers
pub mod Encode
pub mod Step
pub mod ShiftStep
pub mod Stream
pub mod Paste
pub mod Replies
pub mod Recalled
pub mod Readback
pub mod Faults
use jtag_remote_server.Base.{
  ℕ, zero, suc, ◌+◌, ◌-◌, Bool, true, false, not, ◌&&◌, Option, none, some, List, [], ◌∷◌,
  if◌then◌else◌, leb, ltb, bit_at,
}
use jtag_remote_server.Tap.{JtagState, run_test_idle, state_eq}
use jtag_remote_server.World.{World, M, pure, check, ◌>>=◌, ◌>>◌}
use jtag_remote_server.Jtag.{Driver, jtag_tms_seq, jtag_scan_chain_send, jtag_clock_tck}
use jtag_remote_server.Bitbang.{Region, region_length, analyze_bitbang}
use jtag_remote_server.Bitbang.Copy.{cut_bits}

-- The loop over a TMS region that clears `clock_only` at a one.
unfoldable pub keeps_clock_only : List ℕ → ℕ → ℕ → Bool → Bool
keeps_clock_only tms i zero clock_only = clock_only
keeps_clock_only tms i (suc left) clock_only =
    keeps_clock_only tms (i + 1) left (if bit_at tms i then false else clock_only)

module _ (adapter : Driver) where
  -- "optimize runtest with a large number of cycles"
  unfoldable pub send_tms_region : List ℕ → Region → M (Unit {0})
  unfolding keeps_clock_only
  send_tms_region tms r w =
      let tms_buffer = cut_bits tms r.begin (region_length r) in
      (if keeps_clock_only tms r.begin (region_length r) (state_eq w.state run_test_idle)
          then (do
            first ← jtag_tms_seq adapter tms_buffer 1
            rest ← jtag_clock_tck adapter (region_length r - 1)
            pure tt)
          else (jtag_tms_seq adapter tms_buffer (region_length r) >>= λ ok. pure tt))
        w

  unfoldable pub send_region : List ℕ → List ℕ → ℕ → Region → M (Unit {0})
  unfolding send_tms_region
  send_region tms tdi bits r = do
    check (ltb r.begin r.end && leb r.end bits)
    if r.is_tms
        then send_tms_region tms r
        else (jtag_scan_chain_send adapter (cut_bits tdi r.begin (region_length r))
              (region_length r) r.flip_tms true
            >>= λ ok. pure tt)

  unfoldable pub send_regions : List ℕ → List ℕ → ℕ → List Region → M (Unit {0})
  unfolding send_region
  send_regions tms tdi bits [] = pure tt
  send_regions tms tdi bits (r ∷ rs) = send_region tms tdi bits r >> send_regions tms tdi bits rs

  -- A `shift:` command, up to `assert(cur_state == state)`; the result is the regions to read back.
  unfoldable pub run_shift : Bool → List ℕ → List ℕ → ℕ → M (List Region)
  unfolding send_regions
  run_shift junk tms tdi bits w =
      let (regions, cur_state) = analyze_bitbang junk tms bits w.state in
      (do
        send_regions tms tdi bits regions
        (λ v. check (state_eq cur_state v.state) v)
        pure regions)
        w
