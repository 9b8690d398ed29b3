-- ===== src/Jtagd/Rounds.antt =====
-- The loops over packets and over messages come to an end, whatever the client sends.
use jtag_remote_server.Base.{
  ℕ, zero, suc, ◌+◌, ◌≤◌, ◌<◌, ◌≡◌, ◌≢◌, ◌⊎◌, refl, sym, subst, true, false, Bool-cases, inl, inr,
  some, Option, List, [], ◌∷◌, ◌++◌, arith, ltb, leb, ◌==◌, ==_iff, none,
}
use jtag_remote_server.World.{World, ◌>>=◌}
use jtag_remote_server.Bitbang.Copy.{buffer_size}
use jtag_remote_server.Jtagd.{
  Message, Outcome, overrun, unfinished, all_read, prepended, Server, half_at, mux_of, length_of,
  message_at, read_messages, add_fifo, advance, take_packet, read_packets,
}

all_read_ends : (ms : List Message) → all_read ms ≢ unfinished
all_read_ends ms = λ e. cc

overrun_ends : overrun ≢ unfinished
overrun_ends = λ e. cc

prepended-ends : (m : Message) (o : Outcome) → o ≢ unfinished → prepended m o ≢ unfinished
prepended-ends m overrun h = h
prepended-ends m unfinished h = h
prepended-ends m (all_read ms) h = all_read_ends (m ∷ ms)

-- A round per byte is enough for the messages.
read_messages-ends :
    (rounds : ℕ) (buffer : List ℕ) (p end : ℕ)
    → end ≤ p + rounds
    → read_messages rounds buffer p end ≢ unfinished
unfolding read_messages
read_messages-ends zero buffer p end enough = rw past (all_read_ends [])
  where
    past : ltb p end ≡ false
    past = ground (arith, enough)
read_messages-ends (suc rounds) buffer p end enough = elim (Bool-cases (ltb p end)) [
  | inr e ↦ rw e (all_read_ends [])
  | inl e ↦ elim (Bool-cases (leb (p + 4) buffer_size)) [
    | inr f ↦ rw (e, f) overrun_ends
    | inl f ↦ elim (Bool-cases (ltb (half_at buffer (p + 2)) 4)) [
      | inl g ↦ rw (e, f, g) (all_read_ends [])
      | inr g ↦ elim (Bool-cases (leb (p + half_at buffer (p + 2)) buffer_size)) [
        | inr h ↦ rw (e, f, g, h) overrun_ends
        | inl h ↦
            rw (e, f, g, h)
              (prepended-ends (message_at buffer p (half_at buffer (p + 2))) _ (
                read_messages-ends rounds buffer (p + half_at buffer (p + 2)) end
                  (ground (arith, enough))))
      ]
    ]
  ]
]

abbrev Lost : ℕ → ℕ → Server → Type 0
Lost mux len s =
    (mux ≡ 0)
    × (read_messages len s.world.buffer s.world.buffer_begin (s.world.buffer_begin + len) ≡ overrun)
    × (take_packet mux len s ≡ none)

-- A packet is taken, and the buffer is as before; or one of its messages overruns the array.
take_packet-cases :
    (mux len : ℕ) (s : Server)
    → ((ms : List Message) × (fs : ℕ → List ℕ) × (take_packet mux len s
          ≡ some (tt, record s { messages = ms; fifos = fs })))
      ⊎ Lost mux len s
unfolding take_packet add_fifo
take_packet-cases mux len s = elim (Bool-cases (mux == 0)) [
  | inl e ↦
      outcome (read_messages len s.world.buffer s.world.buffer_begin (s.world.buffer_begin + len))
        refl e
  | inr e ↦ elim (Bool-cases (leb 4 mux)) [
    | inl f ↦ inl (s.messages, (add_fifo mux s.world.buffer_begin len s).fifos, rw (e, f) refl)
    | inr f ↦ inl (s.messages, s.fifos, rw (e, f) refl)
  ]
]
  where
    outcome :
        (o : Outcome)
        → read_messages len s.world.buffer s.world.buffer_begin (s.world.buffer_begin + len) ≡ o
        → (mux == 0) ≡ true
        → ((ms : List Message) × (fs : ℕ → List ℕ) × (take_packet mux len s
              ≡ some (tt, record s { messages = ms; fifos = fs })))
          ⊎ Lost mux len s
    outcome overrun h e = inr ((==_iff mux 0).0 e, h, rw (e, h) refl)
    outcome unfinished h e = absurd (
        read_messages-ends len s.world.buffer s.world.buffer_begin (s.world.buffer_begin + len)
          (omega arith) h)
    outcome (all_read ms) h e = inl (s.messages ++ ms, s.fifos, rw (e, h) refl)

run_packet :
    (rounds : ℕ) (s s1 : Server)
    → leb (s.world.buffer_begin + 2) s.world.buffer_end ≡ true
    → leb
        (s.world.buffer_begin + 2 + length_of (half_at s.world.buffer s.world.buffer_begin))
        s.world.buffer_end
      ≡ true
    → take_packet
        (mux_of (half_at s.world.buffer s.world.buffer_begin))
        (length_of (half_at s.world.buffer s.world.buffer_begin))
        (advance 2 s)
      ≡ some (tt, s1)
    → read_packets (suc rounds) s
      ≡ read_packets rounds (advance (length_of (half_at s.world.buffer s.world.buffer_begin)) s1)
unfolding read_packets
run_packet rounds s s1 e f h = rw (e, f, ◌>>=◌, h) refl

lost_packet :
    (rounds : ℕ) (s : Server)
    → leb (s.world.buffer_begin + 2) s.world.buffer_end ≡ true
    → leb
        (s.world.buffer_begin + 2 + length_of (half_at s.world.buffer s.world.buffer_begin))
        s.world.buffer_end
      ≡ true
    → take_packet
        (mux_of (half_at s.world.buffer s.world.buffer_begin))
        (length_of (half_at s.world.buffer s.world.buffer_begin))
        (advance 2 s)
      ≡ none
    → read_packets (suc rounds) s ≡ none
unfolding read_packets
lost_packet rounds s e f h = rw (e, f, ◌>>=◌, h) refl

-- Less than a packet is pending.
abbrev pub Waits : World → Type 0
Waits w =
    (w.buffer_end < w.buffer_begin + 2)
    ⊎ (w.buffer_end < w.buffer_begin + 2 + length_of (half_at w.buffer w.buffer_begin))

-- Whole packets, one behind the other, lead to `q`.
pub data IsBoundary (buffer : List ℕ) (q : ℕ) : ℕ → Type 0 where
  reached : IsBoundary buffer q q
  behind :
      {p : ℕ} → IsBoundary buffer q (p + 2 + length_of (half_at buffer p)) → IsBoundary buffer q p

-- The packet at `p` is whole, is one of commands, and has a message that overruns the array.
abbrev pub Overruns : World → ℕ → Type 0
Overruns w p =
    (p + 2 + length_of (half_at w.buffer p) ≤ w.buffer_end)
    × (mux_of (half_at w.buffer p) ≡ 0)
    × (read_messages (length_of (half_at w.buffer p)) w.buffer (p + 2)
          (p + 2 + length_of (half_at w.buffer p))
        ≡ overrun)

-- The loop returns between two packets with less than a packet pending, or it has come to a packet with
-- a message that overruns the array, and has no result.
abbrev pub Ends : Option (Unit {0} × Server) → World → Type 0
Ends result w =
    ((s' : Server) × (result ≡ some (tt, s'))
      × IsBoundary w.buffer s'.world.buffer_begin w.buffer_begin
      × (s'.world.buffer_begin ≤ s'.world.buffer_end)
      × (s'.world.buffer_end ≡ w.buffer_end)
      × Waits s'.world)
    ⊎ ((p : ℕ) × (result ≡ none) × IsBoundary w.buffer p w.buffer_begin × Overruns w p)

-- A round that takes a packet.
Ends-behind :
    (result : Option (Unit {0} × Server)) (w : World)
    → Ends result (record w {
      buffer_begin = w.buffer_begin + 2 + length_of (half_at w.buffer w.buffer_begin);
    })
    → Ends result w
Ends-behind result w (inl (s', e, at, order, kept, waits)) =
    inl (s', e, behind at, order, kept, waits)
Ends-behind result w (inr (p, e, at, over)) = inr (p, e, behind at, over)

-- A round per byte is enough for the packets, whatever they hold: the loop returns at the end of a
-- packet, or where it began, with less than a packet pending; or it has no result, and one of the whole
-- packets that it comes to is of commands, with a message that overruns the array.
pub read_packets-Ends :
    (rounds : ℕ) (s : Server)
    → s.world.buffer_begin ≤ s.world.buffer_end
    → s.world.buffer_end ≤ s.world.buffer_begin + rounds
    → Ends (read_packets rounds s) s.world
unfolding read_packets advance
read_packets-Ends zero s order enough =
    inl (s, rw past refl, reached, order, refl, inl (ground (arith, enough)))
  where
    past : leb (s.world.buffer_begin + 2) s.world.buffer_end ≡ false
    past = ground (arith, enough)
read_packets-Ends (suc rounds) s order enough =
    elim (Bool-cases (leb (s.world.buffer_begin + 2) s.world.buffer_end)) [
      | inr e ↦ inl (s, rw e refl, reached, order, refl, inl (ground arith))
      | inl e ↦ elim (Bool-cases (leb (s.world.buffer_begin + 2 + len) s.world.buffer_end)) [
        | inr f ↦ inl (s, rw (e, f) refl, reached, order, refl, inr (ground arith))
        | inl f ↦ elim (take_packet-cases (mux_of header) len (advance 2 s)) [
          | inr (z, h, lost) ↦
              inr
                (s.world.buffer_begin, lost_packet rounds s e f lost, reached, (ground arith, z, h))
          | inl (ms, fs, h) ↦
              subst (λ r. Ends r s.world) (sym (run_packet rounds s _ e f h))
                (Ends-behind _ s.world (
                  read_packets-Ends rounds
                    (advance len (record (advance 2 s) { messages = ms; fifos = fs }))
                    (ground arith) (ground (arith, enough))))
        ]
      ]
    ]
  where
    header : ℕ
    header = half_at s.world.buffer s.world.buffer_begin

    len : ℕ
    len = length_of header
