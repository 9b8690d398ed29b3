-- ===== src/Jtag/Probed.antt =====
-- `jtag_probe_devices` walks where its steps say, and ends.
use jtag_remote_server.Base.{
  ℕ, zero, suc, ◌+◌, ◌≤◌, ◌<◌, ◌≡◌, refl, ap, ◌∙◌, true, false, some, List, [], ◌∷◌, arith,
  if◌then◌else◌, ◌==◌, Bool-cases, inl, inr, length, replicate,
}
use jtag_remote_server.Tap.{
  test_logic_reset, shift_ir, shift_dr, exit1_dr, next_state, enum_value, state_eq, get_tms_seq,
}
use jtag_remote_server.World.{World, ◌>>=◌}
use jtag_remote_server.Jtag.{
  Driver, jtag_tms_seq, jtag_goto_tlr, jtag_scan_chain_send, jtag_scan_chain, jtag_tms_seq_to,
}
use jtag_remote_server.Jtag.Law.{IsTracking, IsWorking}
use jtag_remote_server.Jtag.Works.{tms_seq_works, send_works, scan_chain_works}
use jtag_remote_server.Jtag.Goto.{goto_tlr_works, tms_seq_to_works}
use jtag_remote_server.Jtag.Probe.{
  max_taps, first_one, idcodes, count_devices, read_idcodes, jtag_probe_devices,
}

-- The position of the first one is below the end, or 0.
first_one_below :
    (bytes : List ℕ) (i left n : ℕ) → i + left ≤ n → 0 < n → first_one bytes i left < n
unfolding first_one
first_one_below bytes i zero n fits some_bits = some_bits
first_one_below bytes i (suc left) n fits some_bits =
    ground (arith, first_one_below bytes (i + 1) left n (omega arith) some_bits)

length-idcodes : (bytes : List ℕ) (i n : ℕ) → length (idcodes bytes i n) ≡ n
unfolding idcodes
length-idcodes bytes i zero = refl
length-idcodes bytes i (suc n) = ap suc (length-idcodes bytes (i + 1) n)

-- The runs as wholes, from those of their steps.
count_devices_run :
    (d : Driver) (junk : List ℕ) (w w1 w2 w3 w4 w5 w6 : World) (tdo : List ℕ)
    → jtag_goto_tlr d w ≡ some (true, w1)
    → jtag_tms_seq_to d shift_ir w1 ≡ some (true, w2)
    → jtag_scan_chain_send d (replicate 16 0xff) 128 true false w2 ≡ some (true, w3)
    → jtag_tms_seq_to d shift_dr w3 ≡ some (true, w4)
    → jtag_scan_chain_send d (replicate 1 0) 8 false false w4 ≡ some (true, w5)
    → jtag_scan_chain d (replicate 1 0xff) junk 8 true true w5 ≡ some ((true, tdo), w6)
    → count_devices d junk w ≡ some (first_one tdo 0 max_taps, w6)
unfolding count_devices
count_devices_run d junk w w1 w2 w3 w4 w5 w6 tdo e1 e2 e3 e4 e5 e6 =
    rw (◌>>=◌, e1, e2, e3, e4, e5, e6) refl

read_idcodes_run :
    (d : Driver) (junk : List ℕ) (n : ℕ) (w w1 w2 w3 w4 : World) (tdo : List ℕ)
    → jtag_goto_tlr d w ≡ some (true, w1)
    → jtag_tms_seq d (0x02 ∷ []) 4 w1 ≡ some (true, w2)
    → jtag_scan_chain d (replicate 32 0) junk 256 true true w2 ≡ some ((true, tdo), w3)
    → jtag_goto_tlr d w3 ≡ some (true, w4)
    → read_idcodes d junk n w ≡ some (idcodes tdo 0 n, w4)
unfolding read_idcodes
read_idcodes_run d junk n w w1 w2 w3 w4 tdo e1 e2 e3 e4 = rw (◌>>=◌, e1, e2, e3, e4) refl

module _ (d : Driver) (P : World → Type 0) (track : IsTracking d) (works : IsWorking d P) where
  count_devices_works :
      (junk : List ℕ) (w : World)
      → P w
      → length junk ≡ 1
      → (n : ℕ) × (w' : World) × (count_devices d junk w ≡ some (n, w'))
        × P w'
        × (n < max_taps)
        × (w'.state ≡ exit1_dr)
  unfolding count_devices get_tms_seq state_eq enum_value next_state
  count_devices_works junk w p room =
      let (w1, e1, p1, s1) = goto_tlr_works d P track works w p in
      let (w2, e2, p2, s2) = tms_seq_to_works d P track works shift_ir 0x06 5 w1 p1 (rw s1 refl) in
      let (w3, e3, p3, s3) =
        send_works d P track works (replicate 16 0xff) 128 true false w2 p2 (omega arith)
          (omega arith) (omega arith) in
      let (w4, e4, p4, s4) =
        tms_seq_to_works d P track works shift_dr 0x3 4 w3 p3 (rw (s3, s2) refl) in
      let (w5, e5, p5, s5) =
        send_works d P track works (replicate 1 0) 8 false false w4 p4 (omega arith) (omega arith)
          (omega arith) in
      let (tdo, w6, e6, p6, s6) =
        scan_chain_works d P track works (replicate 1 0xff) junk 8 true true w5 p5 (omega arith)
          (omega arith) (omega arith) (omega arith) in
      (
        first_one tdo 0 max_taps,
        w6,
        count_devices_run d junk w w1 w2 w3 w4 w5 w6 tdo e1 e2 e3 e4 e5 e6,
        p6,
        first_one_below tdo 0 max_taps max_taps (omega arith) (omega arith),
        s6 ∙ ap (λ s. next_state s true) (s5 ∙ s4),
      )

  read_idcodes_works :
      (junk : List ℕ) (n : ℕ) (w : World)
      → P w
      → length junk ≡ 32
      → (ids : List ℕ) × (w' : World) × (read_idcodes d junk n w ≡ some (ids, w'))
        × P w'
        × (length ids ≡ n)
        × (w'.state ≡ test_logic_reset)
  unfolding read_idcodes
  read_idcodes_works junk n w p room =
      let (w1, e1, p1, s1) = goto_tlr_works d P track works w p in
      let (w2, e2, p2, s2) = tms_seq_works d P track works (0x02 ∷ []) 4 w1 p1 (omega arith) in
      let (tdo, w3, e3, p3, s3) =
        scan_chain_works d P track works (replicate 32 0) junk 256 true true w2 p2 (omega arith)
          (omega arith) (omega arith) (omega arith) in
      let (w4, e4, p4, s4) = goto_tlr_works d P track works w3 p3 in
      (
        idcodes tdo 0 n,
        w4,
        read_idcodes_run d junk n w w1 w2 w3 w4 tdo e1 e2 e3 e4,
        p4,
        length-idcodes tdo 0 n,
        s4,
      )

  -- From every state, `jtag_probe_devices` ends without a failed assertion and gives at most 7
  -- IDCODEs. It leaves the controller in Test-Logic-Reset if it gives any, else in Exit1-DR.
  pub probe_devices_works :
      (junk junk2 : List ℕ) (w : World)
      → P w
      → length junk ≡ 1
      → length junk2 ≡ 32
      → (ids : List ℕ) × (w' : World) × (jtag_probe_devices d junk junk2 w ≡ some (ids, w'))
        × P w'
        × (length ids < 8)
        × (w'.state ≡ (if length ids == 0 then exit1_dr else test_logic_reset))
  unfolding jtag_probe_devices
  probe_devices_works junk junk2 w p room room2 =
      let (n, w1, e1, p1, few, s1) = count_devices_works junk w p room in
      elim (Bool-cases (n == 0)) [
        | inl z ↦ ([], w1, rw (◌>>=◌, e1, z) refl, p1, omega arith, s1)
        | inr z ↦
            let (ids, w2, e2, p2, size, s2) = read_idcodes_works junk2 n w1 p1 room2 in
            (ids, w2, rw (◌>>=◌, e1, z) e2, p2, omega (arith, size, few), s2 ∙ rw (size, z) refl)
      ]
