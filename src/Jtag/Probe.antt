-- ===== src/Jtag/Probe.antt =====
-- `jtag_probe_devices` of src/common.cpp: count the devices of the chain, and read their IDCODEs.
use jtag_remote_server.Base.{
  ℕ, zero, suc, ◌+◌, ◌*◌, ◌/◌, ◌^◌, bit_or, true, false, List, [], ◌∷◌, if◌then◌else◌, ◌==◌, u32,
  get_or, replicate, bit_at,
}
use jtag_remote_server.Tap.{shift_ir, shift_dr}
use jtag_remote_server.World.{M, pure, ◌>>=◌}
use jtag_remote_server.Jtag.{
  Driver, jtag_tms_seq, jtag_goto_tlr, jtag_scan_chain_send, jtag_scan_chain, jtag_tms_seq_to,
}

abbrev pub max_taps : ℕ
max_taps = 8

abbrev pub max_ir : ℕ
max_ir = 16

-- The loop that looks for the first one, from bit `i` on; 0 if there is none.
unfoldable pub first_one : List ℕ → ℕ → ℕ → ℕ
first_one read_buffer i zero = 0
first_one read_buffer i (suc left) =
    let rest = first_one read_buffer (i + 1) left in if bit_at read_buffer i then i else rest

unfoldable pub idcode_at : List ℕ → ℕ → ℕ
idcode_at bytes i = u32 (
    bit_or
      (bit_or (bit_or (get_or bytes (i * 4) 0) (get_or bytes (i * 4 + 1) 0 * 2 ^ 8))
        (get_or bytes (i * 4 + 2) 0 * 2 ^ 16))
      (get_or bytes (i * 4 + 3) 0 * 2 ^ 24))

-- `for (i = 0; i < num_devices; i++) res.push_back(idcode)`
unfoldable pub idcodes : List ℕ → ℕ → ℕ → List ℕ
unfolding idcode_at
idcodes bytes i zero = []
idcodes bytes i (suc left) = idcode_at bytes i ∷ idcodes bytes (i + 1) left

module _ (adapter : Driver) where
  -- Steps 1 to 6: the number of devices. `junk` is what the array that is read into holds before.
  unfoldable pub count_devices : List ℕ → M ℕ
  unfolding first_one
  count_devices junk = do
    at_reset ← jtag_goto_tlr adapter
    at_ir ← jtag_tms_seq_to adapter shift_ir
    ir ←
        jtag_scan_chain_send adapter (replicate (max_taps * max_ir / 8) 0xff) (max_taps * max_ir)
          true false
    at_dr ← jtag_tms_seq_to adapter shift_dr
    dr ← jtag_scan_chain_send adapter (replicate (max_taps / 8) 0) max_taps false false
    (ok, read_buffer) ←
        jtag_scan_chain adapter (replicate (max_taps / 8) 0xff) junk max_taps true true
    pure (first_one read_buffer 0 max_taps)

  -- Steps 7 to 9: the IDCODEs of the devices.
  unfoldable pub read_idcodes : List ℕ → ℕ → M (List ℕ)
  unfolding idcodes
  read_idcodes junk num_devices = do
    at_reset ← jtag_goto_tlr adapter
    at_dr ← jtag_tms_seq adapter (0x02 ∷ []) 4
    (ok, read_buffer) ←
        jtag_scan_chain adapter (replicate (max_taps * 32 / 8) 0) junk (max_taps * 32) true true
    back ← jtag_goto_tlr adapter
    pure (idcodes read_buffer 0 num_devices)

  unfoldable pub jtag_probe_devices : List ℕ → List ℕ → M (List ℕ)
  unfolding count_devices read_idcodes
  jtag_probe_devices junk junk2 = do
    num_devices ← count_devices junk
    if num_devices == 0 then pure [] else read_idcodes junk2 num_devices
