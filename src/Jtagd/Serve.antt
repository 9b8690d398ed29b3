-- ===== src/Jtagd/Serve.antt =====
-- src/jtagd.cpp: the messages in turn, and `jtag_jtagd_tick`.
use jtag_remote_server.Base.{ℕ, Bool, true, none, some, List, [], ◌∷◌, if◌then◌else◌, ltb, ◌==◌}
use jtag_remote_server.World.{Run, pure, modify, ◌>>=◌, ◌>>◌}
use jtag_remote_server.Jtag.{Driver}
use jtag_remote_server.Bitbang.Copy.{buffer_size}
use jtag_remote_server.Socket.{try_accept, read_socket}
use jtag_remote_server.Jtagd.{Message, Server, shared, replying, read_packets}
use jtag_remote_server.Jtagd.Sending.{add_string, add_int, do_send}
use jtag_remote_server.Jtagd.Handlers.{
  respond, respond_int, get_hardware, get_version_info, get_defined_devices, open_device,
  read_chain, access_ir, access_dr, go_idle,
}

-- The handler has run, and the message can be popped.
abbrev pub handled : Run Server (Unit {0}) → Run Server Bool
handled m = m >>= λ u. pure true

-- What has not been sent yet.
unfoldable pub send_gathered : Run Server (Unit {0})
send_gathered s = (if ltb 2 s.output.send_buffer_size then do_send 0 else pure tt) s

-- The signature, the version of the server, and no authentication.
unfoldable pub hello : Run Server (Unit {0})
unfolding add_string add_int do_send
hello = do
  replying (do
    add_string (
        b'J' ∷ b'T' ∷ b'A' ∷ b'G' ∷ b' ' ∷ b'S' ∷ b'e' ∷ b'r' ∷ b'v' ∷ b'e' ∷ b'r' ∷ b'\r' ∷ b'\n'
        ∷ [])
    add_int 13
    add_int 0)
  do_send 0

module _ (adapter : Driver) (junk junk2 : List ℕ) where
  -- One message: false where the loop is left by `break`. 126 is `AJI_UNIMPLEMENTED`.
  unfoldable pub handle : Message → Run Server Bool
  unfolding respond
  handle msg =
      if msg.command == 0x80
      then handled get_hardware
      else if msg.command == 0x83
      then handled (replying get_version_info)
      else if msg.command == 0x84
      then handled (replying get_defined_devices)
      else if msg.command == 0xa2
      then handled (replying (respond 0))
      else if msg.command == 0xa3
      then handled (replying (respond 0))
      else if msg.command == 0xa5
      then handled (read_chain adapter junk junk2)
      else if msg.command == 0xa8
      then handled open_device
      else if msg.command == 0xaa
      then handled (replying (respond 0))
      else if msg.command == 0xab
      then handled (replying (respond_int 0))
      else if msg.command == 0xc0
      then handled (replying (respond 0))
      else if msg.command == 0xc1
      then handled (replying (respond 0) >> do_send 0)
      else if msg.command == 0xc2
      then handled (replying (respond 0))
      else if msg.command == 0xc6
      then handled (access_ir adapter msg.body)
      else if msg.command == 0xc8
      then access_dr adapter msg.body
      else if msg.command == 0xca
      then handled (go_idle adapter)
      else if msg.command == 0xfe
      then handled (replying (respond_int 1))
      else handled (replying (respond 126))

  -- `while (!messages.empty())`, over the messages that are there; no handler adds any.
  unfoldable pub handle_each : List Message → Run Server (Unit {0})
  unfolding handle
  handle_each [] = pure tt
  handle_each (msg ∷ rest) = do
    done ← handle msg
    if done then (do modify (λ s. record s { messages = rest }); handle_each rest) else pure tt

  unfoldable pub handle_messages : Run Server (Unit {0})
  unfolding handle_each
  handle_messages s = handle_each s.messages s

  -- "leave space for header"
  unfoldable pub jtag_jtagd_tick : Run Server (Unit {0})
  unfolding handle_messages send_gathered hello
  jtag_jtagd_tick = do
    replying (modify (λ o. record o { send_buffer_size = 2 }))
    (λ s. elim s.world.net.client_fd [
      | none ↦
          (do
            modify (λ t. record t { messages = [] })
            accepted ← shared try_accept
            if accepted then hello else pure tt)
            s
      | some fd ↦
          (do
            ok ← shared read_socket
            if ok then (do read_packets buffer_size; handle_messages; send_gathered) else pure tt)
            s
    ])
