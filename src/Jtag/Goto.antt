-- ===== src/Jtag/Goto.antt =====
-- `jtag_goto_tlr` and `jtag_tms_seq_to` over a driver that tracks the TAP state and works.
use jtag_remote_server.Base.{
  ℕ, ◌≡◌, refl, sym, ap, ◌∙◌, true, some, [], ◌∷◌, ◌==◌, ==_iff, Bool-cases, inl, inr, bits_from,
  bit_at, arith,
}
use jtag_remote_server.Tap.{JtagState, test_logic_reset, walk_bits, get_tms_seq}
use jtag_remote_server.Tap.Laws.{walk_bits-eq-walk, walk_ones}
use jtag_remote_server.Tap.Route.{get_tms_seq_shortest}
use jtag_remote_server.World.{World}
use jtag_remote_server.Jtag.{Driver, jtag_goto_tlr, jtag_tms_seq_to}
use jtag_remote_server.Jtag.Law.{IsTracking, IsWorking}
use jtag_remote_server.Jtag.Works.{tms_seq_works}

module _ (d : Driver) (P : World → Type 0) (track : IsTracking d) (works : IsWorking d P) where
  -- From every state, `jtag_goto_tlr` succeeds and leads to Test-Logic-Reset.
  pub goto_tlr_works :
      (w : World)
      → P w
      → (w' : World) × (jtag_goto_tlr d w ≡ some (true, w')) × P w' × (w'.state ≡ test_logic_reset)
  unfolding jtag_goto_tlr bits_from bit_at
  goto_tlr_works w p =
      let (w', e, p', s) = tms_seq_works d P track works (0x1f ∷ []) 5 w p (omega arith) in
      (w', e, p', s ∙ walk_bits-eq-walk (0x1f ∷ []) 0 5 w.state ∙ walk_ones w.state)

  -- Where the table has a sequence, `jtag_tms_seq_to` succeeds and leads to the state asked for.
  pub tms_seq_to_works :
      (to : JtagState) (tms num_bits : ℕ) (w : World)
      → P w
      → get_tms_seq w.state to ≡ some (tms, num_bits)
      → (w' : World) × (jtag_tms_seq_to d to w ≡ some (true, w')) × P w' × (w'.state ≡ to)
  unfolding jtag_tms_seq_to walk_bits
  tms_seq_to_works to tms num_bits w p e = elim (Bool-cases (num_bits == 0)) [
    | inl z ↦
        let none_left =
          ap (λ k. walk_bits (tms ∷ []) 0 k w.state) (sym ((==_iff num_bits 0).0 z)) in
        (
          w,
          rw (jtag_tms_seq_to, e, z) refl,
          p,
          none_left ∙ (get_tms_seq_shortest w.state to tms num_bits e).0,
        )
    | inr z ↦
        let (w', f, p', s) =
          tms_seq_works d P track works (tms ∷ []) num_bits w p
            (omega (arith, (get_tms_seq_shortest w.state to tms num_bits e).1)) in
        (
          w',
          rw (jtag_tms_seq_to, e, z) f,
          p',
          s ∙ (get_tms_seq_shortest w.state to tms num_bits e).0,
        )
  ]
