-- ===== src/Jtag.antt =====
-- The JTAG operations of src/common.cpp over an adapter driver (`struct driver`, src/common.h).
-- Debug output is left out.
pub mod Law
pub mod Views
pub mod Works
pub mod Goto
pub mod Probe
pub mod Probed
use jtag_remote_server.Base.{
  ℕ, zero, suc, ◌+◌, ◌-◌, ◌*◌, ◌/◌, Bool, true, false, Option, none, some, List, [], ◌∷◌, ◌++◌,
  if◌then◌else◌, ◌==◌, u8, u64, replicate, length, leb,
}
use jtag_remote_server.Tap.{JtagState, walk_bits, get_tms_seq}
use jtag_remote_server.World.{World, M, pure, check, modify, or_fail, ◌>>=◌, ◌>>◌}

pub data AdapterTypes : Type 0 where
  xilinx digilent_hs2 digilent_hs3 : AdapterTypes

-- `jtag_scan_chain_recv` is given the array to fill, and gives back its new content.
pub record Driver : Type 0 where
  pub init : AdapterTypes → M Bool
  pub deinit : M Bool
  pub set_tck_freq : ℕ → M Bool
  pub jtag_tms_seq : List ℕ → ℕ → M Bool
  pub jtag_scan_chain_send : List ℕ → ℕ → Bool → Bool → M Bool
  pub jtag_scan_chain_recv : List ℕ → ℕ → Bool → M (Bool × List ℕ)
  pub jtag_clock_tck : ℕ → M Bool

module _ (adapter : Driver) where
  -- The bits are walked along before the adapter is called; a bit behind the array has no result.
  unfoldable pub jtag_tms_seq : List ℕ → ℕ → M Bool
  jtag_tms_seq bytes num_bits = do
    check (leb num_bits (8 * length bytes))
    modify (λ w. record w { bits_send = u64 (w.bits_send + num_bits) })
    modify (λ w. record w { state = walk_bits bytes 0 num_bits w.state })
    adapter.jtag_tms_seq bytes num_bits

  -- 11111: Goto Test-Logic-Reset
  unfoldable pub jtag_goto_tlr : M Bool
  unfolding jtag_tms_seq
  jtag_goto_tlr = jtag_tms_seq (0x1f ∷ []) 5

  unfoldable pub jtag_scan_chain_send : List ℕ → ℕ → Bool → Bool → M Bool
  jtag_scan_chain_send bytes num_bits flip_tms do_read = do
    modify (λ w. record w { bits_send = u64 (w.bits_send + num_bits) })
    adapter.jtag_scan_chain_send bytes num_bits flip_tms do_read

  unfoldable pub jtag_scan_chain_recv : List ℕ → ℕ → Bool → M (Bool × List ℕ)
  jtag_scan_chain_recv recv num_bits flip_tms = adapter.jtag_scan_chain_recv recv num_bits flip_tms

  -- The result, and the content of `recv` afterwards.
  unfoldable pub jtag_scan_chain : List ℕ → List ℕ → ℕ → Bool → Bool → M (Bool × List ℕ)
  unfolding jtag_scan_chain_send jtag_scan_chain_recv
  jtag_scan_chain bytes recv num_bits flip_tms do_read = do
    sent ← jtag_scan_chain_send bytes num_bits flip_tms do_read
    if sent
        then (if do_read then jtag_scan_chain_recv recv num_bits flip_tms else pure (true, recv))
        else pure (false, recv)

  unfoldable pub jtag_clock_tck : ℕ → M Bool
  jtag_clock_tck times = do
    modify (λ w. record w { bits_send = u64 (w.bits_send + times) })
    adapter.jtag_clock_tck times

  -- `none` where `jtag_get_tms_seq` has no sequence: its assertion fails.
  unfoldable pub jtag_tms_seq_to : JtagState → M Bool
  unfolding jtag_tms_seq
  jtag_tms_seq_to to w = elim (get_tms_seq w.state to) [
    | none ↦ none
    | some (tms, num_bits) ↦
        (if num_bits == 0 then pure true else jtag_tms_seq (tms ∷ []) num_bits) w
  ]
