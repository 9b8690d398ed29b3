-- ===== src/Jtagd/Packets.antt =====
-- The packets of commands: how a client encodes them, and how they are read.
use jtag_remote_server.Base.{
  ℕ, zero, suc, ◌+◌, ◌-◌, ◌*◌, ◌/◌, ◌%◌, ◌^◌, ◌≤◌, ◌<◌, ◌≡◌, refl, sym, ap, ap₂, subst, ◌∙◌, true,
  false, Bool-cases, inl, inr, some, List, [], ◌∷◌, ◌++◌, arith, leb, length, length-append, get_or,
  drop, append_assoc, append-nil, drop-append, drop-drop, get_or-drop,
}
use native.Mathlib.Nat.{add-zero}
use jtag_remote_server.World.{World, ◌>>=◌}
use jtag_remote_server.Socket.Buffer.{InOrder, pending}
use jtag_remote_server.Socket.Stands.{Stands, Stands-pending, pending-Stands}
use jtag_remote_server.Jtagd.{
  Message, all_read, Server, half_at, mux_of, length_of, read_messages, advance, take_packet,
  read_packets,
}
use jtag_remote_server.Jtagd.Messages.{encode_messages, read_messages-encode}

-- A packet of commands as it is sent: mux 0, and the length of the body less one, big endian.
abbrev pub encode_packet : List Message → List ℕ
encode_packet ms =
    ((length (encode_messages ms) - 1) / 2 ^ 8)
    ∷ ((length (encode_messages ms) - 1) % 2 ^ 8)
    ∷ encode_messages ms

abbrev pub encode_packets : List (List Message) → List ℕ
encode_packets [] = []
encode_packets (ms ∷ packets) = encode_packet ms ++ encode_packets packets

-- Each packet has a message at least.
abbrev pub AllFilled : List (List Message) → Type 0
AllFilled [] = Unit
AllFilled (ms ∷ packets) = (0 < length ms) × AllFilled packets

abbrev pub all_messages : List (List Message) → List Message
all_messages [] = []
all_messages (ms ∷ packets) = ms ++ all_messages packets

-- The beginning of a packet.
abbrev pub IsIncomplete : List ℕ → Type 0
IsIncomplete [] = Unit
IsIncomplete (hi ∷ []) = Unit
IsIncomplete (hi ∷ lo ∷ body) = length body < length_of (hi * 2 ^ 8 + lo)

head_of_packet :
    (w : World) (hi lo : ℕ) (body stale : List ℕ)
    → Stands w (hi ∷ lo ∷ body) stale
    → half_at w.buffer w.buffer_begin ≡ hi * 2 ^ 8 + lo
unfolding half_at
head_of_packet w hi lo body stale st =
    ap₂ (λ a b. a * 2 ^ 8 + b)
      (ap (λ i. get_or w.buffer i 0) (sym (add-zero w.buffer_begin)) ∙ byte_at 0) (byte_at 1)
  where
    byte_at :
        (i : ℕ) → get_or w.buffer (w.buffer_begin + i) 0 ≡ get_or ((hi ∷ lo ∷ body) ++ stale) i 0
    byte_at i = sym (get_or-drop w.buffer_begin i w.buffer 0) ∙ ap (λ xs. get_or xs i 0) st.at

-- The loop stops at the beginning of a packet.
stops :
    (rounds : ℕ) (s : Server) (tail stale : List ℕ)
    → Stands s.world tail stale
    → IsIncomplete tail
    → length tail ≤ rounds
    → read_packets rounds s ≡ some (tt, s)
unfolding read_packets
stops rounds s tail stale st less enough =
    elim (Bool-cases (leb (s.world.buffer_begin + 2) s.world.buffer_end)) [
      | inl e ↦ cut tail rounds st less enough e
      | inr e ↦ none_left rounds e
    ]
  where
    none_left :
        (rounds : ℕ)
        → leb (s.world.buffer_begin + 2) s.world.buffer_end ≡ false
        → read_packets rounds s ≡ some (tt, s)
    none_left zero e = rw e refl
    none_left (suc rounds) e = rw e refl

    cut :
        (tail : List ℕ) (rounds : ℕ)
        → Stands s.world tail stale
        → IsIncomplete tail
        → length tail ≤ rounds
        → leb (s.world.buffer_begin + 2) s.world.buffer_end ≡ true
        → read_packets rounds s ≡ some (tt, s)
    cut [] rounds st less enough e = absurd (ground (arith, st.end))
    cut (hi ∷ []) rounds st less enough e = absurd (ground (arith, st.end))
    cut (hi ∷ lo ∷ body) zero st less enough e = absurd (omega (arith, enough))
    cut (hi ∷ lo ∷ body) (suc rounds) st less enough e = rw (e, short) refl
      where
        short :
            leb
              (s.world.buffer_begin + 2 + length_of (half_at s.world.buffer s.world.buffer_begin))
              s.world.buffer_end
            ≡ false
        short =
            ap (λ h. leb (s.world.buffer_begin + 2 + length_of h) s.world.buffer_end)
              (head_of_packet s.world hi lo body stale st)
            ∙ ground (arith, st.end, less)

abbrev moved : List Message → Server → Server
moved ms s = record s {
  messages = s.messages ++ ms;
  world = record (s.world) {
    buffer_begin = s.world.buffer_begin + 2 + length (encode_messages ms);
  };
}

pub encode-positive : (ms : List Message) → 0 < length ms → 0 < length (encode_messages ms)
encode-positive [] h = absurd (omega arith)
encode-positive (m ∷ ms) h = omega arith

take_commands :
    (s : Server) (len : ℕ) (ms : List Message)
    → read_messages len s.world.buffer s.world.buffer_begin (s.world.buffer_begin + len)
      ≡ all_read ms
    → take_packet 0 len s ≡ some (tt, record s { messages = s.messages ++ ms })
unfolding take_packet
take_commands s len ms e = rw e refl

step :
    (rounds : ℕ) (s : Server) (ms : List Message) (rest stale : List ℕ)
    → Stands s.world (encode_packet ms ++ rest) stale
    → 0 < length ms
    → read_packets (suc rounds) s ≡ read_packets rounds (moved ms s)
unfolding read_packets advance
step rounds s ms rest stale st some_ms =
    rw (head, is_command, is_length, two, whole, ◌>>=◌, take_commands (advance 2 s) len ms messages)
      (ap
        (λ n.
          read_packets rounds (advance n (record (advance 2 s) { messages = s.messages ++ ms })))
        (ap length_of head ∙ is_length))
  where
    len : ℕ
    len = length (encode_messages ms)

    positive : 0 < len
    positive = encode-positive ms some_ms

    head : half_at s.world.buffer s.world.buffer_begin ≡ len - 1
    head =
        head_of_packet s.world ((len - 1) / 2 ^ 8) ((len - 1) % 2 ^ 8) (encode_messages ms ++ rest)
          stale st
        ∙ omega arith

    room : s.world.buffer_begin + 2 + len ≤ s.world.buffer_end
    room = omega (arith, st.end, length-append (encode_messages ms) rest)

    is_command : mux_of (len - 1) ≡ 0
    is_command = omega (arith, room, st.within)

    is_length : length_of (len - 1) ≡ len
    is_length = omega (arith, room, st.within, positive)

    two : leb (s.world.buffer_begin + 2) s.world.buffer_end ≡ true
    two = ground (arith, room)

    whole : leb (s.world.buffer_begin + 2 + len) s.world.buffer_end ≡ true
    whole = ground (arith, room)

    body : drop (s.world.buffer_begin + 2) s.world.buffer ≡ encode_messages ms ++ (rest ++ stale)
    body =
        sym (drop-drop s.world.buffer_begin 2 s.world.buffer)
        ∙ ap (drop 2) st.at
        ∙ append_assoc (encode_messages ms) rest stale

    messages :
        read_messages len s.world.buffer (s.world.buffer_begin + 2) (s.world.buffer_begin + 2 + len)
        ≡ all_read ms
    messages =
        read_messages-encode ms s.world.buffer (rest ++ stale) (s.world.buffer_begin + 2) len
          st.size body (omega arith)

Stands-after :
    (s : Server) (ms : List Message) (rest stale : List ℕ)
    → Stands s.world (encode_packet ms ++ rest) stale
    → Stands (moved ms s).world rest stale
Stands-after s ms rest stale st = record {
  size = st.size;
  at =
      sym (drop-drop (s.world.buffer_begin + 2) (length (encode_messages ms)) s.world.buffer)
      ∙ ap (drop (length (encode_messages ms)))
          (sym (drop-drop s.world.buffer_begin 2 s.world.buffer) ∙ ap (drop 2) st.at)
      ∙ ap (drop (length (encode_messages ms))) (append_assoc (encode_messages ms) rest stale)
      ∙ drop-append (encode_messages ms) (rest ++ stale);
  end = omega (arith, st.end, length-append (encode_messages ms) rest);
  within = st.within;
}

-- The packets of commands that a client has sent are taken, however many are in the buffer: their
-- messages are queued in order, and the beginning of a packet, if one is left, stays pending.
pub read_packets-encode :
    (packets : List (List Message)) (tail : List ℕ) (rounds : ℕ) (s : Server)
    → InOrder s.world
    → pending s.world ≡ encode_packets packets ++ tail
    → AllFilled packets
    → IsIncomplete tail
    → length (pending s.world) ≤ rounds
    → (s' : Server) × (read_packets rounds s ≡ some (tt, s'))
      × (s'.messages ≡ s.messages ++ all_messages packets)
      × (pending s'.world ≡ tail)
read_packets-encode packets tail rounds s p holds filled less enough =
    go packets rounds s (Stands-pending s.world _ p holds) filled
      (omega (arith, enough, ap length holds))
  where
    stale : List ℕ
    stale =
        drop (s.world.buffer_end - s.world.buffer_begin) (drop s.world.buffer_begin s.world.buffer)

    go :
        (packets : List (List Message)) (rounds : ℕ) (s : Server)
        → Stands s.world (encode_packets packets ++ tail) stale
        → AllFilled packets
        → length (encode_packets packets ++ tail) ≤ rounds
        → (s' : Server) × (read_packets rounds s ≡ some (tt, s'))
          × (s'.messages ≡ s.messages ++ all_messages packets)
          × (pending s'.world ≡ tail)
    go [] rounds s st filled enough = (
      s,
      stops rounds s tail stale st less enough,
      sym (append-nil s.messages),
      pending-Stands s.world tail stale st,
    )
    go (ms ∷ packets) zero s st filled enough = absurd (omega (arith, enough))
    go (ms ∷ packets) (suc rounds) s st (some_ms, filled) enough =
        let (s', e, queued, waits) =
          go packets rounds (moved ms s) (Stands-after s ms _ stale first) filled (
            omega (
              arith,
              enough,
              ap length same,
              length-append (encode_messages ms) (encode_packets packets ++ tail),
            )) in
        (
          s',
          step rounds s ms _ stale first some_ms ∙ e,
          queued ∙ append_assoc s.messages ms (all_messages packets),
          waits,
        )
      where
        same :
            encode_packets (ms ∷ packets) ++ tail
            ≡ encode_packet ms ++ (encode_packets packets ++ tail)
        same = append_assoc (encode_packet ms) (encode_packets packets) tail

        first : Stands s.world (encode_packet ms ++ (encode_packets packets ++ tail)) stale
        first = subst (λ bytes. Stands s.world bytes stale) same st
