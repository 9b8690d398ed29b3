-- ===== src/Socket.antt =====
-- The socket layer of src/common.cpp: `write_full`, `try_accept` and `read_socket`.
pub mod Laws
pub mod Buffer
pub mod Stands
pub mod Greedy
use jtag_remote_server.Base.{
  ◌&&◌, ℕ, zero, suc, ◌+◌, ◌-◌, Bool, true, false, Option, none, some, List, [], ◌∷◌, ◌++◌,
  if◌then◌else◌, ◌==◌, ltb, length, take, drop,
}
use jtag_remote_server.Bitbang.Copy.{buffer_size}
use jtag_remote_server.World.{World, Net, M, pure, modify, ◌>>=◌, ◌>>◌}

-- `write(fd, bytes, count)`
unfoldable pub write_client : List ℕ → ℕ → M (Option ℕ)
write_client bytes count w =
    let res = w.net.writes w.net.calls count in
    some (
      res,
      record w { net = record (w.net) { calls = w.net.calls + 1; sent = w.net.sent ++ taken res } },
    )
  where
    taken : Option ℕ → List ℕ
    taken none = []
    taken (some n) = take n bytes

-- `while (num_sent < count)`; `none` if it still runs after `rounds` rounds. Each round sends a byte
-- at least, so `count` rounds are enough.
unfoldable pub write_rounds : ℕ → List ℕ → ℕ → ℕ → M Bool
write_rounds zero bytes count num_sent w = if ltb num_sent count then none else some (true, w)
write_rounds (suc rounds) bytes count num_sent w = elim (ltb num_sent count) [
  | true ↦
      (write_client (drop num_sent bytes) (count - num_sent) >>= λ r. elim r [
        | none ↦ pure false
        | some res ↦
            if res == 0 then pure false else write_rounds rounds bytes count (num_sent + res)
      ])
        w
  | false ↦ some (true, w)
]

unfoldable pub write_full : List ℕ → ℕ → M Bool
unfolding write_rounds
write_full bytes count = write_rounds count bytes count 0

-- `read(client_fd, buf, count)`
unfoldable pub read_client : ℕ → M (Option (List ℕ))
read_client count w =
    some
      (w.net.reads w.net.calls count, record w { net = record (w.net) { calls = w.net.calls + 1 } })

-- `close(client_fd); client_fd = -1;`
unfoldable pub close_client : M (Unit {0})
close_client = modify (λ w. record w { net = record (w.net) { client_fd = none } })

-- `client_fd` is set to whatever `accept` returns, and tested for being above 0.
unfoldable pub try_accept : M Bool
try_accept w = elim (w.net.accepts w.net.calls) [
  | none ↦ some (false, record w { net = record (w.net) { calls = w.net.calls + 1 } })
  | some fd ↦
      some
        (attached fd, record w { net = record (w.net) { calls = w.net.calls + 1; client_fd = fd } })
]
  where
    attached : Option ℕ → Bool
    attached none = false
    attached (some n) = ltb 0 n

-- `memmove(buffer, &buffer[buffer_begin], buffer_end - buffer_begin)`, or a fresh start where nothing is
-- left.
unfoldable pub make_room : World → World
make_room w =
    if ltb 0 w.buffer_begin && w.buffer_end == buffer_size
    then record w {
      buffer =
          take (w.buffer_end - w.buffer_begin) (drop w.buffer_begin w.buffer)
          ++ drop (w.buffer_end - w.buffer_begin) w.buffer;
      buffer_begin = 0;
      buffer_end = w.buffer_end - w.buffer_begin;
    }
    else if w.buffer_begin == w.buffer_end
    then record w { buffer_begin = 0; buffer_end = 0 }
    else w

-- The bytes are put at `buffer_begin`, as in the source.
unfoldable pub fill_buffer : List ℕ → World → World
fill_buffer bytes w = record w {
  buffer = take w.buffer_begin w.buffer ++ (bytes ++ drop (w.buffer_begin + length bytes) w.buffer);
  buffer_end = w.buffer_end + length bytes;
}

-- `if (buffer_end < BUFFER_SIZE)`: "buffer is not full, read something".
unfoldable pub read_more : M Bool
unfolding fill_buffer read_client close_client
read_more w =
    let more =
      (read_client (buffer_size - w.buffer_end) >>= λ r. elim r [
        | none ↦ pure true
        | some bytes ↦
            if length bytes == 0
            then (do
              close_client
              modify (λ v. record v { buffer_begin = 0; buffer_end = 0 })
              pure false)
            else (do modify (fill_buffer bytes); pure true)
      ])
        w in
    if ltb w.buffer_end buffer_size then more else some (true, w)

unfoldable pub read_socket : M Bool
unfolding make_room read_more
read_socket = do modify make_room; read_more
