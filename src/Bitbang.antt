-- ===== src/Bitbang.antt =====
-- `Region` of src/common.h and `analyze_bitbang` of src/common.cpp.
pub mod Segments
pub mod Round
pub mod Scanned
pub mod Replay
pub mod Copy
use jtag_remote_server.Base.{
  ℕ, zero, suc, ◌+◌, ◌-◌, Bool, true, false, not, ◌&&◌, ◌||◌, List, [], ◌∷◌, ◌++◌, if◌then◌else◌,
  ◌==◌, bit_at,
}
use jtag_remote_server.Tap.{JtagState, shift_dr, shift_ir, next_state, state_eq}

-- A run of clock cycles `[begin, end)`: one to send as TMS, or one to shift as data.
pub record Region : Type 0 where
  pub is_tms : Bool
  pub flip_tms : Bool
  pub begin : ℕ
  pub end : ℕ

-- `Region::length`, behind its assertion.
abbrev pub region_length : Region → ℕ
region_length r = r.end - r.begin

-- The locals of the loop of `analyze_bitbang`.
pub record Scan : Type 0 where
  pub shift_pos : ℕ
  pub regions : List Region
  pub cur_state : JtagState

-- "a shift state is entered", and "a shift state is left"
unfoldable pub enters_shift : JtagState → JtagState → Bool
enters_shift cur new =
    (not (state_eq cur shift_dr) && state_eq new shift_dr)
    || (not (state_eq cur shift_ir) && state_eq new shift_ir)

unfoldable pub leaves_shift : JtagState → JtagState → Bool
leaves_shift cur new =
    (state_eq cur shift_dr && not (state_eq new shift_dr))
    || (state_eq cur shift_ir && not (state_eq new shift_ir))

-- The region behind the loop, if bits are left over.
unfoldable pub close_scan : ℕ → Scan → List Region
close_scan bits s =
    if s.shift_pos == bits
    then s.regions
    else s.regions
      ++ record {
        is_tms = not (state_eq s.cur_state shift_dr) && not (state_eq s.cur_state shift_ir);
        flip_tms = false;
        begin = s.shift_pos;
        end = bits;
      }
        ∷ []

-- The code leaves `flip_tms` of the TMS region that enters a shift state unset: `junk` is the value
-- that happens to stand there.
module _ (junk : Bool) (tms : List ℕ) where
  -- One round of the loop.
  unfoldable pub scan_bit : ℕ → Scan → Scan
  scan_bit i s =
      let new_state = next_state s.cur_state (bit_at tms i) in
      if enters_shift s.cur_state new_state
      then record {
        shift_pos = i + 1;
        regions =
            s.regions
            ++ record { is_tms = true; flip_tms = junk; begin = s.shift_pos; end = i + 1 } ∷ [];
        cur_state = new_state;
      }
      else if leaves_shift s.cur_state new_state
      then record {
        shift_pos = i + 1;
        regions =
            s.regions
            ++ record { is_tms = false; flip_tms = true; begin = s.shift_pos; end = i + 1 } ∷ [];
        cur_state = new_state;
      }
      else record s { cur_state = new_state }

  -- `for (i = 0; i < bits; i++)`, with the number of rounds left.
  unfoldable pub scan_bits : ℕ → ℕ → Scan → Scan
  scan_bits i zero s = s
  scan_bits i (suc left) s = scan_bits (i + 1) left (scan_bit i s)

  -- The regions, and what `cur_state` is set to.
  unfoldable pub analyze_bitbang : ℕ → JtagState → List Region × JtagState
  unfolding scan_bits close_scan
  analyze_bitbang bits state =
      let s = scan_bits 0 bits (record { shift_pos = 0; regions = []; cur_state = state }) in
      (close_scan bits s, s.cur_state)
