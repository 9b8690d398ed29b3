-- ===== src/Tap.antt =====
-- The TAP controller of src/common.cpp: `enum JtagState`, `next_state`, the state loop of
-- `jtag_tms_seq`, and the table of `jtag_get_tms_seq`.
pub mod Laws
pub mod Route
use jtag_remote_server.Base.{
  ℕ, zero, suc, ◌+◌, Bool, true, false, ◌||◌, Option, none, some, List, [], ◌∷◌, if◌then◌else◌,
  ◌==◌, bit_at,
}

pub data JtagState : Type 0 where
  test_logic_reset run_test_idle select_dr_scan capture_dr shift_dr exit1_dr pause_dr exit2_dr
        update_dr select_ir_scan capture_ir shift_ir exit1_ir pause_ir exit2_ir update_ir :
      JtagState

-- The `default` of the `switch` is not reached: the enumerators are all there.
unfoldable pub next_state : JtagState → Bool → JtagState
next_state test_logic_reset bit = if bit then test_logic_reset else run_test_idle
next_state run_test_idle bit = if bit then select_dr_scan else run_test_idle
next_state select_dr_scan bit = if bit then select_ir_scan else capture_dr
next_state capture_dr bit = if bit then exit1_dr else shift_dr
next_state shift_dr bit = if bit then exit1_dr else shift_dr
next_state exit1_dr bit = if bit then update_dr else pause_dr
next_state pause_dr bit = if bit then exit2_dr else pause_dr
next_state exit2_dr bit = if bit then update_dr else shift_dr
next_state update_dr bit = if bit then select_dr_scan else run_test_idle
next_state select_ir_scan bit = if bit then test_logic_reset else capture_ir
next_state capture_ir bit = if bit then exit1_ir else shift_ir
next_state shift_ir bit = if bit then exit1_ir else shift_ir
next_state exit1_ir bit = if bit then update_ir else pause_ir
next_state pause_ir bit = if bit then exit2_ir else pause_ir
next_state exit2_ir bit = if bit then update_ir else shift_ir
next_state update_ir bit = if bit then select_dr_scan else run_test_idle

-- The value of an enumerator, by which C++ compares states.
unfoldable pub enum_value : JtagState → ℕ
enum_value test_logic_reset = 0
enum_value run_test_idle = 1
enum_value select_dr_scan = 2
enum_value capture_dr = 3
enum_value shift_dr = 4
enum_value exit1_dr = 5
enum_value pause_dr = 6
enum_value exit2_dr = 7
enum_value update_dr = 8
enum_value select_ir_scan = 9
enum_value capture_ir = 10
enum_value shift_ir = 11
enum_value exit1_ir = 12
enum_value pause_ir = 13
enum_value exit2_ir = 14
enum_value update_ir = 15

-- `a == b` on states
unfoldable pub state_eq : JtagState → JtagState → Bool
unfolding enum_value
state_eq a b = enum_value a == enum_value b

-- The loop of `jtag_tms_seq` over the bits `[i, i + left)` of `data`, which are within the array.
unfoldable pub walk_bits : List ℕ → ℕ → ℕ → JtagState → JtagState
walk_bits bytes i zero new_state = new_state
walk_bits bytes i (suc left) new_state =
    walk_bits bytes (i + 1) left (next_state new_state (bit_at bytes i))

-- `jtag_get_tms_seq`: the bits and their number. `none` is the `assert(false)` behind the table.
unfoldable pub get_tms_seq : JtagState → JtagState → Option (ℕ × ℕ)
unfolding state_eq
get_tms_seq from to =
    if state_eq from to
    then some (0, 0)
    else if state_eq from test_logic_reset
    then (if state_eq to shift_ir
        then some (0x06, 5)
        else if state_eq to shift_dr
        then some (0x02, 4)
        else none)
    else if state_eq from run_test_idle
    then (if state_eq to shift_ir
        then some (0x3, 4)
        else if state_eq to shift_dr
        then some (0x1, 3)
        else none)
    else if state_eq from exit1_ir
    then (if state_eq to shift_dr
        then some (0x3, 4)
        else if state_eq to run_test_idle
        then some (0x1, 2)
        else none)
    else if state_eq from exit1_dr
    then (if state_eq to run_test_idle then some (0x1, 2) else none)
    else none
