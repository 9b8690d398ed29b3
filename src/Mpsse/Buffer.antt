-- ===== src/Mpsse/Buffer.antt =====
-- src/mpsse_buffer.cpp: commands are gathered in an array and sent when it fills up.
use jtag_remote_server.Base.{
  ℕ, ◌+◌, Bool, true, false, List, [], ◌∷◌, ◌++◌, if◌then◌else◌, ◌==◌, leb, ltb, length, take,
}
use jtag_remote_server.World.{World, M, pure, check, modify, ◌>>=◌, ◌>>◌}
use jtag_remote_server.Ftdi.{ftdi_write_retry}

abbrev pub buffer_length : ℕ
buffer_length = 8192

abbrev pub max_transfer_length : ℕ
max_transfer_length = 2048

unfoldable pub mpsse_buffer_init : M (Unit {0})
mpsse_buffer_init = modify (λ w. record w { mpsse_buffer = [] })

unfoldable pub mpsse_buffer_is_empty : World → Bool
mpsse_buffer_is_empty w = length w.mpsse_buffer == 0

-- Either way the buffer is empty afterwards.
unfoldable pub mpsse_buffer_flush : M Bool
unfolding mpsse_buffer_is_empty
mpsse_buffer_flush w =
    if mpsse_buffer_is_empty w
    then pure true w
    else (do
      ok ← ftdi_write_retry w.mpsse_buffer (length w.mpsse_buffer)
      modify (λ v. record v { mpsse_buffer = [] })
      pure ok)
        w

unfoldable pub mpsse_buffer_ensure_space : ℕ → M Bool
mpsse_buffer_ensure_space num_bytes w =
    if leb buffer_length num_bytes
    then pure false w
    else if leb max_transfer_length (length w.mpsse_buffer + num_bytes)
    then mpsse_buffer_flush w
    else pure true w

-- A write behind the end of the array is undefined.
unfoldable pub mpsse_buffer_append_byte : ℕ → M (Unit {0})
mpsse_buffer_append_byte byte w =
    (do
      check (ltb (length w.mpsse_buffer) buffer_length)
      modify (λ v. record v { mpsse_buffer = v.mpsse_buffer ++ byte ∷ [] }))
      w

-- `memcpy`: undefined where it reads behind the source or writes behind the array.
unfoldable pub mpsse_buffer_append : List ℕ → ℕ → M (Unit {0})
mpsse_buffer_append bytes num_bytes w =
    (do
      check (leb num_bytes (length bytes))
      check (leb (length w.mpsse_buffer + num_bytes) buffer_length)
      modify (λ v. record v { mpsse_buffer = v.mpsse_buffer ++ take num_bytes bytes }))
      w
