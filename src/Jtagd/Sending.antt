-- ===== src/Jtagd/Sending.antt =====
-- src/jtagd.cpp: the buffer that replies are gathered in, and sending it.
use jtag_remote_server.Base.{
  ℕ, ◌+◌, ◌-◌, ◌*◌, ◌/◌, ◌^◌, Bool, true, false, Option, none, some, List, [], ◌∷◌, ◌++◌, bit_or,
  leb, u8, u16, length, set, take, drop,
}
use jtag_remote_server.World.{Run, pure, check, modify, ◌>>=◌, ◌>>◌}
use jtag_remote_server.Bitbang.Copy.{buffer_size}
use jtag_remote_server.Socket.{write_full}
use jtag_remote_server.Jtagd.{Output, Server, shared, replying}

-- `send_buffer[send_buffer_size++] = v`
unfoldable pub put_byte : ℕ → Output → Output
put_byte v o = record o {
  send_buffer = set o.send_buffer o.send_buffer_size (u8 v);
  send_buffer_size = u8 (o.send_buffer_size + 1);
}

-- `memcpy(&send_buffer[send_buffer_size], data, length); send_buffer_size += length;`
unfoldable pub put_bytes : List ℕ → Output → Output
put_bytes bytes o = record o {
  send_buffer =
      take o.send_buffer_size o.send_buffer
      ++ (bytes ++ drop (o.send_buffer_size + length bytes) o.send_buffer);
  send_buffer_size = u8 (o.send_buffer_size + length bytes);
}

unfoldable pub add_string : List ℕ → Run Output (Unit {0})
unfolding put_byte put_bytes
add_string bytes = do
  check (leb (length bytes) 0xff)
  (λ o. check (leb (o.send_buffer_size + 1 + length bytes) buffer_size) o)
  modify (put_byte (length bytes))
  modify (put_bytes bytes)

-- The bytes of `htonl(value)` in memory.
unfoldable pub be_bytes : ℕ → List ℕ
be_bytes value = u8 (value / 2 ^ 24) ∷ u8 (value / 2 ^ 16) ∷ u8 (value / 2 ^ 8) ∷ u8 value ∷ []

unfoldable pub add_int : ℕ → Run Output (Unit {0})
unfolding be_bytes put_bytes
add_int value = do
  (λ o. check (leb (o.send_buffer_size + 4) buffer_size) o)
  modify (put_bytes (be_bytes value))

-- The first `len` bytes of the array `bytes`.
unfoldable pub add_array : List ℕ → ℕ → Run Output (Unit {0})
unfolding put_bytes
add_array bytes len = do
  (λ o. check (leb (o.send_buffer_size + len) buffer_size) o)
  modify (put_bytes (take len bytes))

abbrev is_unset : Option ℕ → Bool
is_unset none = true
is_unset (some n) = false

-- The length is filled in by `end_response`.
unfoldable pub add_response : ℕ → Run Output (Unit {0})
unfolding put_byte
add_response resp = do
  (λ o. check (is_unset o.last_response) o)
  (λ o. check (leb (o.send_buffer_size + 4) buffer_size) o)
  modify (λ o. record o { last_response = some o.send_buffer_size })
  modify (put_byte resp)
  modify (put_byte 0)
  modify (put_byte 0)
  modify (put_byte 0)

-- The two bytes of a 16-bit value, at `i`.
unfoldable pub set_half : ℕ → ℕ → List ℕ → List ℕ
set_half i value bytes = set (set bytes i (value / 2 ^ 8)) (i + 1) (u8 value)

unfoldable pub end_response : Run Output (Unit {0})
unfolding set_half
end_response o = elim o.last_response [
  | none ↦ none
  | some last ↦ some (
    tt,
    record o {
      send_buffer = set_half (last + 2) (u16 (o.send_buffer_size + 2 ^ 16 - last)) o.send_buffer;
      last_response = none;
    },
  )
]

unfoldable pub compute_header : ℕ → ℕ → ℕ
compute_header length mux = bit_or (u16 (mux * 2 ^ 12)) (u16 (length + 2 ^ 16 - 1))

unfoldable pub fill_header : ℕ → Output → Output
unfolding compute_header set_half
fill_header mux o =
    let actual_length = u16 (o.send_buffer_size + 2 ^ 16 - 2) in
    record o { send_buffer = set_half 0 (compute_header actual_length mux) o.send_buffer }

unfoldable pub do_send : ℕ → Run Server (Unit {0})
unfolding fill_header
do_send mux = do
  replying (modify (fill_header mux))
  (λ s. shared (write_full s.output.send_buffer s.output.send_buffer_size) s) >>= λ ok. pure tt
  replying (modify (λ o. record o { send_buffer_size = 2 }))
