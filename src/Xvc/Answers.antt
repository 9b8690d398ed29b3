-- ===== src/Xvc/Answers.antt =====
-- src/xvc.cpp: reading TDO back, and `jtag_xvc_tick`.
use jtag_remote_server.Base.{
  ℕ, zero, suc, ◌+◌, Bool, none, some, List, [], ◌∷◌, ◌++◌, if◌then◌else◌, drop, replicate, bit_at,
  or_bit,
}
use jtag_remote_server.World.{M, Run, pure, modify, ◌>>=◌, ◌>>◌}
use jtag_remote_server.Jtag.{Driver, jtag_scan_chain_recv}
use jtag_remote_server.Bitbang.{Region, region_length}
use jtag_remote_server.Bitbang.Copy.{buffer_size}
use jtag_remote_server.Socket.{try_accept, read_socket}
use jtag_remote_server.Xvc.Commands.{ShiftCommand, Session, globally, must_write, run_commands}

-- `tdo[i / 8] |= tdo_bit << (i % 8)` for the bits of a region, from `off` on.
unfoldable pub paste_bits : List ℕ → ℕ → ℕ → ℕ → List ℕ → List ℕ
paste_bits bytes begin off zero out = out
paste_bits bytes begin off (suc left) out =
    paste_bits bytes begin (off + 1) left (or_bit out (begin + off) (bit_at bytes off))

module _ (adapter : Driver) where
  unfoldable pub recv_region : Region → List ℕ → M (List ℕ)
  unfolding paste_bits
  recv_region r tdo = if r.is_tms then pure tdo else (do
    (ok, tdo_buffer) ←
        jtag_scan_chain_recv adapter (replicate buffer_size 0) (region_length r) r.flip_tms
    pure (paste_bits tdo_buffer r.begin 0 (region_length r) tdo))

  unfoldable pub recv_regions : List Region → List ℕ → M (List ℕ)
  unfolding recv_region
  recv_regions [] tdo = pure tdo
  recv_regions (r ∷ rs) tdo = recv_region r tdo >>= λ out. recv_regions rs out

  -- One command: the content of `tdo` afterwards.
  unfoldable pub send_back : ShiftCommand → List ℕ → M (List ℕ)
  unfolding recv_regions
  send_back c tdo = do
    out ← recv_regions c.regions (replicate c.bytes 0 ++ drop c.bytes tdo)
    must_write out c.bytes
    pure out

  unfoldable pub send_all_back : List ShiftCommand → List ℕ → M (List ℕ)
  unfolding send_back
  send_all_back [] tdo = pure tdo
  send_all_back (c ∷ cs) tdo = send_back c tdo >>= λ out. send_all_back cs out

  unfoldable pub jtag_xvc_tick : Bool → Run Session (Unit {0})
  unfolding send_all_back
  jtag_xvc_tick junk s = elim s.world.net.client_fd [
    | none ↦ (globally try_accept >>= λ ok. pure tt) s
    | some fd ↦
        (globally read_socket >>= λ ok.
        if ok
        then (do
          modify (λ t. record t { shift_commands = [] })
          run_commands adapter junk buffer_size
          (λ t.
              (globally (send_all_back t.shift_commands t.tdo) >>= λ tdo.
              modify (λ v. record v { tdo = tdo }))
                t))
        else pure tt)
          s
  ]
