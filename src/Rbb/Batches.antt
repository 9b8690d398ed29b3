-- ===== src/Rbb/Batches.antt =====
-- One read of commands, through `analyze_bitbang`, to the assertions behind the region loop.
use native.Mathlib.Nat.{zero-add}
use jtag_remote_server.Base.{
  ℕ, ◌+◌, ◌≤◌, ◌≡◌, refl, ap, ◌∙◌, Bool, true, some, List, arith, ◌==◌, ==_iff, length,
}
use jtag_remote_server.Tap.{JtagState, state_eq, enum_value}
use jtag_remote_server.Tap.Laws.{walk, walk_bits-eq-walk}
use jtag_remote_server.World.{World, check, ◌>>=◌, ◌>>◌}
use jtag_remote_server.Jtag.{Driver}
use jtag_remote_server.Jtag.Law.{IsTracking, IsReliable}
use jtag_remote_server.Bitbang.{analyze_bitbang}
use jtag_remote_server.Bitbang.Scanned.{analyze_bitbang-Segments}
use jtag_remote_server.Bitbang.Replay.{analyze_bitbang_lossless}
use jtag_remote_server.Bitbang.Copy.{buffer_size}
use jtag_remote_server.Rbb.{parse, run_batch}
use jtag_remote_server.Rbb.Edges.{edges, tms_pin, reads, reads_le}
use jtag_remote_server.Rbb.Parse.{parse_collects}
use jtag_remote_server.Rbb.Regions.{ReadsAre, run_regions_works}

equal_self : (n : ℕ) → (n == n) ≡ true
equal_self n = (==_iff n n).1 refl

pub state_eq_self : (s : JtagState) → state_eq s s ≡ true
unfolding state_eq
state_eq_self s = equal_self (enum_value s)

-- The two assertions behind the loop.
assertions_met :
    (cur_state : JtagState) (read_bits n : ℕ) (w : World)
    → w.state ≡ cur_state
    → read_bits ≡ n
    → ((λ v. check (state_eq cur_state v.state) v) >> check (read_bits == 0 + n)) w ≡ some (tt, w)
assertions_met cur_state read_bits n w at count =
    rw (← at, ◌>>=◌, state_eq_self w.state, count, zero-add n, equal_self n) refl

module _ (d : Driver) (P : World → Type 0) (track : IsTracking d) (works : IsReliable d P) where
  -- Over a driver that tracks the TAP state and works, a read of at most 4096 commands in which each
  -- data region is read whole or not at all, and once, is carried out with both assertions behind
  -- the loop met; the state moves along TMS at the rising edges.
  pub run_batch_works :
      (junk : Bool) (commands : List ℕ) (w : World)
      → P w
      → length commands ≤ buffer_size
      → ReadsAre
          (parse commands)
          (analyze_bitbang junk (parse commands).tms_input (parse commands).bits w.state).0
          (reads commands)
      → (w' : World) × (run_batch d junk commands w ≡ some (tt, w'))
        × P w'
        × (w'.state ≡ walk w.state (edges tms_pin commands))
  unfolding run_batch
  run_batch_works junk commands w p fits same =
      let b = parse commands in
      let (regions, cur_state) = analyze_bitbang junk b.tms_input b.bits w.state in
      let (tms, tdi, marks, count, few) = parse_collects commands in
      let (w', e, p', s) =
        run_regions_works d P track works b regions w.state cur_state 0 (reads commands) 0 w p refl
          (analyze_bitbang-Segments b.tms_input junk b.bits w.state) (omega (arith, few, fits)) same
          (omega (arith, reads_le commands, fits)) in
      (
        w',
        rw (e, ◌>>=◌) (assertions_met cur_state b.read_bits (reads commands) w' s count),
        p',
        s
            ∙ (analyze_bitbang_lossless junk b.tms_input b.bits w.state).1
            ∙ walk_bits-eq-walk b.tms_input 0 b.bits w.state
            ∙ ap (walk w.state) tms,
      )
