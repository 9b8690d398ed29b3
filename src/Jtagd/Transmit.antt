-- ===== src/Jtagd/Transmit.antt =====
-- Sending what has been gathered, over a socket that takes what it is given.
use jtag_remote_server.Base.{
  ℕ, ◌+◌, ◌-◌, ◌*◌, ◌/◌, ◌%◌, ◌^◌, ◌<◌, ◌≡◌, refl, sym, ap, ap₂, ◌∙◌, Option, some, List, [], ◌∷◌,
  ◌++◌, arith, u16, length, take, take-append,
}
use jtag_remote_server.World.{◌>>=◌}
use jtag_remote_server.Socket.Greedy.{IsGreedy, sent_more, write_full_greedy}
use jtag_remote_server.Jtagd.{Output, Server}
use jtag_remote_server.Jtagd.Sending.{set_half, compute_header, fill_header, do_send}
use jtag_remote_server.Jtagd.Header.{compute_header-sum}
use jtag_remote_server.Jtagd.Gathered.{Holds}

-- A packet: the mux and the length of the body less one, and the body.
abbrev pub packet : ℕ → List ℕ → List ℕ
packet mux content =
    ((mux * 2 ^ 12 + (length content - 1)) / 2 ^ 8)
    ∷ ((mux * 2 ^ 12 + (length content - 1)) % 2 ^ 8)
    ∷ content

header_filled :
    (mux : ℕ) (o : Output) (last : Option ℕ) (content : List ℕ)
    → (h : Holds o last content) → 0 < length content
    → mux < 16
    → (fill_header mux o).send_buffer ≡ packet mux content ++ h.stale
unfolding fill_header set_half
header_filled mux o last content h some_bytes small = ap₂ (set_half 0) header_is h.shape
  where
    actual : u16 (o.send_buffer_size + 2 ^ 16 - 2) ≡ length content
    actual = omega (arith, h.used, h.fits)

    header_is :
        compute_header (u16 (o.send_buffer_size + 2 ^ 16 - 2)) mux
        ≡ mux * 2 ^ 12 + (length content - 1)
    header_is =
        ap (λ n. compute_header n mux) actual
        ∙ compute_header-sum (length content) mux some_bytes (omega (arith, h.fits)) small

-- What is gathered, of 1 to 253 bytes, goes out as one packet, over a socket that takes what it is
-- given, for a mux of 4 bits; and the buffer is empty again.
pub do_send-packet :
    (mux : ℕ) (s : Server) (last : Option ℕ) (content : List ℕ)
    → IsGreedy s.world.net
    → Holds s.output last content
    → 0 < length content
    → mux < 16
    → (o' : Output) × (do_send mux s
        ≡ some (tt, record s { output = o'; world = sent_more (packet mux content) s.world }))
      × Holds o' last []
unfolding do_send
do_send-packet mux s last content greedy h some_bytes small = (
  record filled { send_buffer_size = 2 },
  rw
      (
        ◌>>=◌,
        write_full_greedy filled.send_buffer filled.send_buffer_size s.world greedy
            (omega (arith, h.used)),
        taken,
      )
      refl,
  record {
    high = (mux * 2 ^ 12 + (length content - 1)) / 2 ^ 8;
    low = (mux * 2 ^ 12 + (length content - 1)) % 2 ^ 8;
    stale = content ++ h.stale;
    shape = header_filled mux s.output last content h some_bytes small;
    size =
        ap length (header_filled mux s.output last content h some_bytes small)
        ∙ sym (ap length h.shape)
        ∙ h.size;
    used = omega arith;
    fits = omega arith;
    opened = h.opened;
  },
)
  where
    filled : Output
    filled = fill_header mux s.output

    taken : take filled.send_buffer_size filled.send_buffer ≡ packet mux content
    taken =
        ap₂ take count (header_filled mux s.output last content h some_bytes small)
        ∙ take-append (packet mux content) h.stale
      where
        count : filled.send_buffer_size ≡ length (packet mux content)
        count = omega (arith, h.used)
