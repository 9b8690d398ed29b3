-- ===== src/Vpi/Dispatch.antt =====
-- What a jtag_vpi command does, over a driver that tracks the TAP state and works.
use jtag_remote_server.Base.{
  ℕ, ◌≤◌, ◌<◌, ◌≡◌, refl, ◌∙◌, Bool, true, false, ◌||◌, some, List, arith, if◌then◌else◌, ◌==◌,
  Bool-cases, inl, inr, length, length-take, length-drop, drop, replicate,
}
use jtag_remote_server.Tap.{JtagState, test_logic_reset, next_state, walk_bits}
use jtag_remote_server.World.{World, ◌>>=◌}
use jtag_remote_server.Jtag.{Driver}
use jtag_remote_server.Jtag.Law.{IsTracking, IsReliable, IsWorking-of_IsReliable}
use jtag_remote_server.Jtag.Works.{tms_seq_works, scan_chain_works}
use jtag_remote_server.Jtag.Goto.{goto_tlr_works}
use jtag_remote_server.Socket.Laws.{write_full-Sends}
use jtag_remote_server.Vpi.{
  cmd_size, cmd_reset, cmd_tms_seq, cmd_scan_chain, cmd_scan_chain_flip_tms, cmd_of, buffer_out,
  nb_bits, reply, scan_and_reply, dispatch,
}

-- Where a command leads from a state.
abbrev pub leads_to : List ℕ → JtagState → JtagState
leads_to cmd s =
    if cmd_of cmd == cmd_reset
    then test_logic_reset
    else if cmd_of cmd == cmd_tms_seq
    then walk_bits (buffer_out cmd) 0 (nb_bits cmd) s
    else if cmd_of cmd == cmd_scan_chain
    then s
    else if cmd_of cmd == cmd_scan_chain_flip_tms
    then next_state s true
    else s

abbrev pub is_known : List ℕ → Bool
is_known cmd =
    cmd_of cmd == cmd_reset
    || cmd_of cmd == cmd_tms_seq
    || cmd_of cmd == cmd_scan_chain
    || cmd_of cmd == cmd_scan_chain_flip_tms

module _ (d : Driver) (P : World → Type 0) (track : IsTracking d) (works : IsReliable d P) where
  scan_and_reply_works :
      (cmd : List ℕ) (flip_tms : Bool) (w : World)
      → P w
      → length cmd ≡ cmd_size
      → 0 < nb_bits cmd
      → nb_bits cmd ≤ 4096
      → (w' : World) × (scan_and_reply d cmd flip_tms w ≡ some (tt, w'))
        × P w'
        × (w'.state ≡ (if flip_tms then next_state w.state true else w.state))
  unfolding scan_and_reply buffer_out
  scan_and_reply_works cmd flip_tms w p size some_bits few =
      let (buffer_in, w1, e, p1, s) =
        scan_chain_works d P track (IsWorking-of_IsReliable d P works) (buffer_out cmd)
          (replicate 512 0) (nb_bits cmd) flip_tms true w p some_bits
          (omega (arith, length-take 512 (drop 4 cmd), length-drop 4 cmd, size, few)) few
          (omega (arith, few)) in
      let sends = write_full-Sends (reply cmd buffer_in) cmd_size w1 in
      (
        record w1 { net = sends.net },
        rw (◌>>=◌, e, sends.returns) refl,
        works.frame w1 _ p1 refl refl refl,
        s,
      )

  -- A whole command of 1 to 4096 bits, which is what its arrays hold, is carried out: the call returns,
  -- and the state is where the command leads; an unknown one changes nothing at all.
  pub dispatch_works :
      (cmd : List ℕ) (w : World)
      → P w
      → length cmd ≡ cmd_size
      → 0 < nb_bits cmd
      → nb_bits cmd ≤ 4096
      → (w' : World) × (dispatch d cmd w ≡ some (tt, w'))
        × P w'
        × (w'.state ≡ leads_to cmd w.state)
        × (is_known cmd ≡ false → w' ≡ w)
  unfolding dispatch buffer_out
  dispatch_works cmd w p size some_bits few = elim (Bool-cases (cmd_of cmd == cmd_reset)) [
    | inl e ↦
        let (w', f, p', s) = goto_tlr_works d P track (IsWorking-of_IsReliable d P works) w p in
        (w', rw (e, ◌>>=◌, f) refl, p', s ∙ rw e refl, λ k. absurd (ground (arith, k)))
    | inr e ↦ elim (Bool-cases (cmd_of cmd == cmd_tms_seq)) [
      | inl e2 ↦
          let (w', f, p', s) =
            tms_seq_works d P track (IsWorking-of_IsReliable d P works) (buffer_out cmd)
              (nb_bits cmd) w p
              (omega (arith, length-take 512 (drop 4 cmd), length-drop 4 cmd, size, few)) in
          (w', rw (e, e2, ◌>>=◌, f) refl, p', s ∙ rw (e, e2) refl, λ k. absurd (ground (arith, k)))
      | inr e2 ↦ elim (Bool-cases (cmd_of cmd == cmd_scan_chain)) [
        | inl e3 ↦
            let (w', f, p', s) = scan_and_reply_works cmd false w p size some_bits few in
            (w', rw (e, e2, e3) f, p', s ∙ rw (e, e2, e3) refl, λ k. absurd (ground (arith, k)))
        | inr e3 ↦ elim (Bool-cases (cmd_of cmd == cmd_scan_chain_flip_tms)) [
          | inl e4 ↦
              let (w', f, p', s) = scan_and_reply_works cmd true w p size some_bits few in
              (
                w',
                rw (e, e2, e3, e4) f,
                p',
                s ∙ rw (e, e2, e3, e4) refl,
                λ k. absurd (ground (arith, k)),
              )
          | inr e4 ↦ (w, rw (e, e2, e3, e4) refl, p, rw (e, e2, e3, e4) refl, λ k. refl)
        ]
      ]
    ]
  ]
