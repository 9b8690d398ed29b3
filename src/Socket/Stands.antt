-- ===== src/Socket/Stands.antt =====
-- The bytes in the buffer of `read_socket` at `buffer_begin`, as the protocols read them.
use jtag_remote_server.Base.{
  ℕ, ◌+◌, ◌-◌, ◌≤◌, ◌≡◌, sym, ap, ap₂, ◌∙◌, List, ◌++◌, arith, length, length-append, get_or, take,
  drop, append_assoc, drop-append, drop-drop, get_or-drop, take-append, length-drop, length-take,
  take-append-drop,
}
use jtag_remote_server.World.{World}
use jtag_remote_server.Bitbang.Copy.{buffer_size}
use jtag_remote_server.Socket.Buffer.{InOrder, pending}

-- What stands at `buffer_begin`: `bytes` up to `buffer_end`.
pub record Stands (w : World) (bytes stale : List ℕ) : Type 0 where
  pub size : length w.buffer ≡ buffer_size
  pub at : drop w.buffer_begin w.buffer ≡ bytes ++ stale
  pub end : w.buffer_end ≡ w.buffer_begin + length bytes
  pub within : w.buffer_end ≤ buffer_size

-- What stands there is what is pending.
pub Stands-pending :
    (w : World) (bytes : List ℕ)
    → InOrder w
    → pending w ≡ bytes
    → Stands w bytes (drop (w.buffer_end - w.buffer_begin) (drop w.buffer_begin w.buffer))
Stands-pending w bytes p holds = record {
  size = p.size;
  at =
      sym (take-append-drop (w.buffer_end - w.buffer_begin) (drop w.buffer_begin w.buffer))
      ∙ ap (λ t. t ++ drop (w.buffer_end - w.buffer_begin) (drop w.buffer_begin w.buffer)) holds;
  end = omega (
    arith,
    ap length (sym holds),
    length-take (w.buffer_end - w.buffer_begin) (drop w.buffer_begin w.buffer),
    length-drop w.buffer_begin w.buffer,
    p.size,
    p.forward,
    p.within,
  );
  within = p.within;
}

pub pending-Stands : (w : World) (bytes stale : List ℕ) → Stands w bytes stale → pending w ≡ bytes
pending-Stands w bytes stale st = ap₂ take count st.at ∙ take-append bytes stale
  where
    count : w.buffer_end - w.buffer_begin ≡ length bytes
    count = omega (arith, st.end)

-- The byte at an offset.
pub byte_at :
    (w : World) (bytes stale : List ℕ) (i : ℕ)
    → Stands w bytes stale
    → get_or w.buffer (w.buffer_begin + i) 0 ≡ get_or (bytes ++ stale) i 0
byte_at w bytes stale i st =
    sym (get_or-drop w.buffer_begin i w.buffer 0) ∙ ap (λ xs. get_or xs i 0) st.at

-- What is left when the first bytes are consumed.
pub Stands-behind :
    (w w' : World) (first rest stale : List ℕ)
    → Stands w (first ++ rest) stale
    → w'.buffer ≡ w.buffer
    → w'.buffer_end ≡ w.buffer_end
    → w'.buffer_begin ≡ w.buffer_begin + length first
    → Stands w' rest stale
Stands-behind w w' first rest stale st same end begin = record {
  size = ap length same ∙ st.size;
  at =
      ap₂ drop begin same
      ∙ sym (drop-drop w.buffer_begin (length first) w.buffer)
      ∙ ap (drop (length first)) (st.at ∙ append_assoc first rest stale)
      ∙ drop-append first (rest ++ stale);
  end = omega (arith, st.end, end, begin, length-append first rest);
  within = omega (arith, st.within, end);
}
