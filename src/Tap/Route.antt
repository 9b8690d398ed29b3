-- ===== src/Tap/Route.antt =====
-- The sequences of `jtag_get_tms_seq` lead where they are meant to, and are the shortest.
use jtag_remote_server.Base.{
  ℕ, suc, ◌+◌, ◌≤◌, ◌≡◌, ap, ◌∙◌, subst, Bool, Option, none, some, List, [], ◌∷◌, arith, length,
  bit_at,
}
use jtag_remote_server.Tap.{
  JtagState, test_logic_reset, run_test_idle, select_dr_scan, capture_dr, shift_dr, exit1_dr,
  pause_dr, exit2_dr, update_dr, select_ir_scan, capture_ir, shift_ir, exit1_ir, pause_ir, exit2_ir,
  update_ir, enum_value, next_state, state_eq, walk_bits, get_tms_seq,
}
use jtag_remote_server.Tap.Laws.{walk}

-- How many clock cycles it takes to a state of the diagram.
abbrev to_dr : JtagState → ℕ
to_dr test_logic_reset = 4
to_dr run_test_idle = 3
to_dr select_dr_scan = 2
to_dr capture_dr = 1
to_dr shift_dr = 0
to_dr exit1_dr = 3
to_dr pause_dr = 2
to_dr exit2_dr = 1
to_dr update_dr = 3
to_dr select_ir_scan = 5
to_dr capture_ir = 5
to_dr shift_ir = 5
to_dr exit1_ir = 4
to_dr pause_ir = 5
to_dr exit2_ir = 4
to_dr update_ir = 3

abbrev to_ir : JtagState → ℕ
to_ir test_logic_reset = 5
to_ir run_test_idle = 4
to_ir select_dr_scan = 3
to_ir capture_dr = 6
to_ir shift_dr = 6
to_ir exit1_dr = 5
to_ir pause_dr = 6
to_ir exit2_dr = 5
to_ir update_dr = 4
to_ir select_ir_scan = 2
to_ir capture_ir = 1
to_ir shift_ir = 0
to_ir exit1_ir = 3
to_ir pause_ir = 2
to_ir exit2_ir = 1
to_ir update_ir = 4

abbrev to_idle : JtagState → ℕ
to_idle test_logic_reset = 1
to_idle run_test_idle = 0
to_idle select_dr_scan = 3
to_idle capture_dr = 3
to_idle shift_dr = 3
to_idle exit1_dr = 2
to_idle pause_dr = 3
to_idle exit2_dr = 2
to_idle update_dr = 1
to_idle select_ir_scan = 2
to_idle capture_ir = 3
to_idle shift_ir = 3
to_idle exit1_ir = 2
to_idle pause_ir = 3
to_idle exit2_ir = 2
to_idle update_ir = 1

abbrev distance : JtagState → JtagState → ℕ
distance shift_dr s = to_dr s
distance shift_ir s = to_ir s
distance run_test_idle s = to_idle s
distance _ s = 0

-- A clock cycle leads closer by one at most.
distance_step : (to s : JtagState) (b : Bool) → distance to s ≤ suc (distance to (next_state s b))
unfolding next_state
distance_step shift_dr s b = ground arith
distance_step shift_ir s b = ground arith
distance_step run_test_idle s b = ground arith
distance_step _ s b = omega arith

distance_self : (to : JtagState) → distance to to ≡ 0
distance_self to = ground arith

distance-walk :
    (to s : JtagState) (bs : List Bool) → distance to s ≤ length bs + distance to (walk s bs)
distance-walk to s [] = omega arith
distance-walk to s (b ∷ bs) =
    omega (arith, distance_step to s b, distance-walk to (next_state s b) bs)

no_shorter : (to s : JtagState) (bs : List Bool) → walk s bs ≡ to → distance to s ≤ length bs
no_shorter to s bs e = omega (arith, distance-walk to s bs, ap (distance to) e ∙ distance_self to)

Leads : JtagState → JtagState → Option (ℕ × ℕ) → Type 0
Leads from to none = Unit
Leads from to (some (tms, num_bits)) =
    (walk_bits (tms ∷ []) 0 num_bits from ≡ to) × (num_bits ≤ 5) × (num_bits ≤ distance to from)

get_tms_seq-Leads : (from to : JtagState) → Leads from to (get_tms_seq from to)
unfolding get_tms_seq state_eq enum_value walk_bits next_state bit_at Leads
get_tms_seq-Leads from to = ground arith

-- A sequence of the table leads from `from` to `to`, in at most 5 clock cycles, and no sequence of
-- TMS bits that does so is shorter.
pub get_tms_seq_shortest :
    (from to : JtagState) (tms num_bits : ℕ)
    → get_tms_seq from to ≡ some (tms, num_bits)
    → (walk_bits (tms ∷ []) 0 num_bits from ≡ to)
      × (num_bits ≤ 5)
      × ((bs : List Bool) → walk from bs ≡ to → num_bits ≤ length bs)
unfolding Leads
get_tms_seq_shortest from to tms num_bits e =
    let (leads, few, near) = subst (Leads from to) e (get_tms_seq-Leads from to) in
    (leads, few, λ bs f. omega (arith, near, no_shorter to from bs f))
