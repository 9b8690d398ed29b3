-- ===== src/Jtagd.antt =====
-- src/jtagd.cpp: the server of Intel's jtagd protocol. Its globals, and the packets and messages that
-- a client sends.
pub mod Sending
pub mod Header
pub mod Gathered
pub mod Responses
pub mod Transmit
pub mod Answers
pub mod Turn
pub mod Chain
pub mod Losses
pub mod Messages
pub mod Packets
pub mod Rounds
pub mod Handlers
pub mod Serve
use jtag_remote_server.Base.{
  ℕ, zero, suc, ◌+◌, ◌-◌, ◌*◌, ◌/◌, ◌%◌, ◌^◌, Option, none, some, List, [], ◌∷◌, ◌++◌,
  if◌then◌else◌, ltb, leb, ◌==◌, u8, u16, u32, get_or, take, drop, replicate,
}
use jtag_remote_server.World.{World, M, Run, pure, modify, ◌>>=◌, ◌>>◌}
use jtag_remote_server.Bitbang.Copy.{buffer_size}

-- The buffer that replies are gathered in; `last_response` is `none` where the source has -1.
pub record Output : Type 0 where
  pub send_buffer : List ℕ  -- of 4096 bytes
  pub send_buffer_size : ℕ  -- uint8
  pub last_response : Option ℕ

pub record Message : Type 0 where
  pub command : ℕ
  pub body : List ℕ

-- The globals of the file, and those that it shares. A fifo holds `uint32_t`s; a missing one is empty.
pub record Server : Type 0 where
  pub output : Output
  pub devices : List ℕ
  pub messages : List Message
  pub fifos : ℕ → List ℕ
  pub world : World

-- A call that only touches the shared globals, or only the reply.
abbrev pub shared : {A : Type 0} → M A → Run Server A
shared m s = elim (m s.world) [ none ↦ none | some (a, w) ↦ some (a, record s { world = w }) ]

abbrev pub replying : {A : Type 0} → Run Output A → Run Server A
replying m s = elim (m s.output) [ none ↦ none | some (a, o) ↦ some (a, record s { output = o }) ]

-- `ntohs` of two bytes of an array.
unfoldable pub half_at : List ℕ → ℕ → ℕ
half_at bytes i = get_or bytes i 0 * 2 ^ 8 + get_or bytes (i + 1) 0

-- The fields of a packet's header.
unfoldable pub mux_of : ℕ → ℕ
mux_of header = header / 2 ^ 12

unfoldable pub length_of : ℕ → ℕ
length_of header = header % 2 ^ 12 + 1

-- The message of `header_len` bytes at `p`.
unfoldable pub message_at : List ℕ → ℕ → ℕ → Message
message_at buffer p header_len = record {
  command = get_or buffer p 0;
  body = take (header_len - 4) (drop (p + 4) buffer);
}

-- What comes of the loop over the messages of a packet: the array is overrun, the rounds do not
-- suffice, or the messages.
pub data Outcome : Type 0 where
  overrun unfinished : Outcome
  all_read : List Message → Outcome

abbrev pub prepended : Message → Outcome → Outcome
prepended m overrun = overrun
prepended m unfinished = unfinished
prepended m (all_read ms) = all_read (m ∷ ms)

-- `while (p < end)`; each round takes 4 bytes at least. The array holds 4096 bytes.
unfoldable pub read_messages : ℕ → List ℕ → ℕ → ℕ → Outcome
unfolding half_at message_at
read_messages zero buffer p end = if ltb p end then unfinished else all_read []
read_messages (suc rounds) buffer p end =
    let header_len = half_at buffer (p + 2) in
    let rest =
      prepended (message_at buffer p header_len)
        (read_messages rounds buffer (p + header_len) end) in
    if ltb p end
    then (if leb (p + 4) buffer_size
        then (if ltb header_len 4
            then all_read []
            else if leb (p + header_len) buffer_size
            then rest
            else overrun)
        else overrun)
    else all_read []

-- `fifos[mux].insert(fifos[mux].end(), buffer_begin, buffer_begin + length)`: with two integers of the
-- same type this is the overload that appends the second, as many times as the first says.
unfoldable pub add_fifo : ℕ → ℕ → ℕ → Server → Server
add_fifo mux buffer_begin length s = record s {
  fifos = λ k.
      if k == mux
      then s.fifos k ++ replicate buffer_begin (u32 (buffer_begin + length))
      else s.fifos k;
}

-- `buffer_begin += n`
unfoldable pub advance : ℕ → Server → Server
advance n s = record s { world = record (s.world) { buffer_begin = s.world.buffer_begin + n } }

-- What is done with the body of a packet, which `buffer_begin` is at.
unfoldable pub take_packet : ℕ → ℕ → Run Server (Unit {0})
unfolding read_messages add_fifo
take_packet mux length s =
    if mux == 0
    then (elim (read_messages length s.world.buffer s.world.buffer_begin
        (s.world.buffer_begin + length)) [
          | overrun ↦ none
          | unfinished ↦ none
          | all_read ms ↦ some (tt, record s { messages = s.messages ++ ms })
        ])
    else if leb 4 mux
    then some (tt, add_fifo mux s.world.buffer_begin length s)
    else some (tt, s)

-- The loop over the packets; `none` too if it still runs after `rounds` rounds. Each round takes 3
-- bytes at least.
unfoldable pub read_packets : ℕ → Run Server (Unit {0})
unfolding half_at mux_of length_of take_packet advance
read_packets zero s =
    if leb (s.world.buffer_begin + 2) s.world.buffer_end then none else some (tt, s)
read_packets (suc rounds) s =
    let header = half_at s.world.buffer s.world.buffer_begin in
    let mux = mux_of header in
    let length = length_of header in
    let more =
      (do modify (advance 2); take_packet mux length; modify (advance length); read_packets rounds)
        s in
    if leb (s.world.buffer_begin + 2) s.world.buffer_end
    then (if leb (s.world.buffer_begin + 2 + length) s.world.buffer_end then more else some (tt, s))
    else some (tt, s)
