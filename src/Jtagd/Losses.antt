-- ===== src/Jtagd/Losses.antt =====
-- Where bytes are lost: a fifo packet of a client, and a long array in a reply.
use jtag_remote_server.Base.{
  ℕ, ◌+◌, ◌≤◌, ◌≡◌, ◌↔◌, refl, true, false, Option, some, List, [], arith, leb, ◌==◌, length, take,
  length-take,
}
use jtag_remote_server.World.{◌>>=◌}
use jtag_remote_server.Bitbang.Copy.{buffer_size}
use jtag_remote_server.Jtagd.{Output, Server, take_packet, add_fifo}
use jtag_remote_server.Jtagd.Sending.{put_bytes, add_array}
use jtag_remote_server.Jtagd.Gathered.{Holds}

-- What is in the fifos after a fifo packet does not depend on the bytes that the client has sent.
pub fifo_packet_bytes_lost :
    (mux len : ℕ) (s : Server) (bytes : List ℕ)
    → 4 ≤ mux
    → (s1 s2 : Server) × (take_packet mux len s ≡ some (tt, s1))
      × (take_packet mux len (record s { world = record (s.world) { buffer = bytes } })
          ≡ some (tt, s2))
      × (s1.fifos ≡ s2.fifos)
unfolding take_packet add_fifo
fifo_packet_bytes_lost mux len s bytes fifo = (
  add_fifo mux s.world.buffer_begin len s,
  add_fifo mux s.world.buffer_begin len (record s { world = record (s.world) { buffer = bytes } }),
  rw (not_zero, four) refl,
  rw (not_zero, four) refl,
  refl,
)
  where
    not_zero : (mux == 0) ≡ false
    not_zero = ground (arith, fifo)

    four : leb 4 mux ≡ true
    four = ground (arith, fifo)

-- An array that is added to an empty reply is counted whole exactly if it has at most 253 bytes: the
-- count of the reply is a byte.
pub add_array_counted :
    (o : Output) (last : Option ℕ) (bytes : List ℕ) (n : ℕ)
    → Holds o last []
    → n ≤ length bytes
    → 2 + n ≤ buffer_size
    → (o' : Output) × (add_array bytes n o ≡ some (tt, o'))
      × ((o'.send_buffer_size ≡ 2 + n) ↔ (n ≤ 253))
unfolding add_array put_bytes
add_array_counted o last bytes n h whole fits = (
  put_bytes (take n bytes) o,
  rw (◌>>=◌, within) refl,
  ((λ e. omega (arith, e, count, h.used)), (λ few. omega (arith, few, count, h.used))),
)
  where
    count : length (take n bytes) ≡ n
    count = omega (arith, length-take n bytes, whole)

    within : leb (o.send_buffer_size + n) buffer_size ≡ true
    within = ground (arith, h.used, fits)
