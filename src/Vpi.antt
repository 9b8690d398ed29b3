-- ===== src/Vpi.antt =====
-- src/vpi.cpp: the jtag_vpi protocol.
pub mod Framing
pub mod Dispatch
use jtag_remote_server.Base.{
  ℕ, zero, suc, ◌+◌, ◌-◌, ◌*◌, ◌^◌, Bool, true, false, Option, none, some, List, [], ◌∷◌, ◌++◌,
  if◌then◌else◌, ◌==◌, length, take, drop, get_or, replicate,
}
use jtag_remote_server.Words.{word_at}
use jtag_remote_server.World.{World, M, pure, ◌>>=◌, ◌>>◌}
use jtag_remote_server.Jtag.{Driver, jtag_goto_tlr, jtag_tms_seq, jtag_scan_chain}
use jtag_remote_server.Socket.{read_client, close_client, try_accept, write_full}

-- `sizeof(struct jtag_vpi_cmd)`
abbrev pub cmd_size : ℕ
cmd_size = 1036

abbrev pub cmd_reset : ℕ
cmd_reset = 0

abbrev pub cmd_tms_seq : ℕ
cmd_tms_seq = 1

abbrev pub cmd_scan_chain : ℕ
cmd_scan_chain = 2

abbrev pub cmd_scan_chain_flip_tms : ℕ
cmd_scan_chain_flip_tms = 3

-- The fields of `struct jtag_vpi_cmd`.
unfoldable pub cmd_of : List ℕ → ℕ
unfolding word_at
cmd_of cmd = word_at cmd 0

unfoldable pub buffer_out : List ℕ → List ℕ
buffer_out cmd = take 512 (drop 4 cmd)

unfoldable pub nb_bits : List ℕ → ℕ
unfolding word_at
nb_bits cmd = word_at cmd 1032

-- The command with `buffer_in` filled in, as it is sent back.
unfoldable pub reply : List ℕ → List ℕ → List ℕ
reply cmd buffer_in = take 516 cmd ++ (buffer_in ++ drop 1028 cmd)

-- `jtag_vpi_recv += num_read`, and what is to be done if the command is complete: the bytes received
-- and not yet used, and the command.
unfoldable pub take_in : List ℕ → List ℕ → List ℕ × Option (List ℕ)
take_in received bytes =
    if length (received ++ bytes) == cmd_size
    then ([], some (received ++ bytes))
    else (received ++ bytes, none)

module _ (adapter : Driver) where
  unfoldable pub scan_and_reply : List ℕ → Bool → M (Unit {0})
  unfolding buffer_out nb_bits reply
  scan_and_reply cmd flip_tms = do
    (ok, buffer_in) ←
        jtag_scan_chain adapter (buffer_out cmd) (replicate 512 0) (nb_bits cmd) flip_tms true
    sent ← write_full (reply cmd buffer_in) cmd_size
    pure tt

  unfoldable pub dispatch : List ℕ → M (Unit {0})
  unfolding cmd_of scan_and_reply
  dispatch cmd =
      if cmd_of cmd == cmd_reset
      then (jtag_goto_tlr adapter >>= λ ok. pure tt)
      else if cmd_of cmd == cmd_tms_seq
      then (jtag_tms_seq adapter (buffer_out cmd) (nb_bits cmd) >>= λ ok. pure tt)
      else if cmd_of cmd == cmd_scan_chain
      then scan_and_reply cmd false
      else if cmd_of cmd == cmd_scan_chain_flip_tms
      then scan_and_reply cmd true
      else pure tt

  -- `received` is the first `jtag_vpi_recv` bytes of `jtag_vpi_buffer`; the result is what it is
  -- afterwards.
  unfoldable pub complete : List ℕ × Option (List ℕ) → M (List ℕ)
  unfolding dispatch
  complete (received, none) = pure received
  complete (received, some cmd) = dispatch cmd >>= λ u. pure received

  unfoldable pub jtag_vpi_tick : List ℕ → M (List ℕ)
  unfolding take_in complete
  jtag_vpi_tick received w = elim w.net.client_fd [
    | none ↦ (try_accept >>= λ ok. pure received) w
    | some fd ↦
        (read_client (cmd_size - length received) >>= λ r. elim r [
          | none ↦ complete (take_in received [])
          | some bytes ↦
              if length bytes == 0
              then (close_client >>= λ u. adapter.deinit >>= λ ok. complete (take_in received []))
              else complete (take_in received bytes)
        ])
          w
  ]
