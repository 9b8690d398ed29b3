-- ===== src/Jtagd/Messages.antt =====
-- The messages of a packet: how a client encodes them, and how they are read.
use native.Mathlib.Nat.{add_assoc, add-zero}
use jtag_remote_server.Base.{
  ℕ, zero, suc, ◌+◌, ◌-◌, ◌*◌, ◌/◌, ◌%◌, ◌^◌, ◌≤◌, ◌<◌, ◌≡◌, refl, sym, ap, ap₂, ◌∙◌, true, false,
  List, [], ◌∷◌, ◌++◌, arith, ltb, leb, length, length-append, get_or, take, drop, append_assoc,
  take-append, drop-append, drop-drop, get_or-drop, length-drop,
}
use jtag_remote_server.Bitbang.Copy.{buffer_size}
use jtag_remote_server.Jtagd.{Message, all_read, prepended, half_at, message_at, read_messages}

-- A message as it is sent: its command, a zero, and its length with this header, big endian.
abbrev pub encode_message : Message → List ℕ
encode_message m =
    m.command ∷ 0 ∷ ((length m.body + 4) / 2 ^ 8) ∷ ((length m.body + 4) % 2 ^ 8) ∷ m.body

abbrev pub encode_messages : List Message → List ℕ
encode_messages [] = []
encode_messages (m ∷ ms) = encode_message m ++ encode_messages ms

abbrev message : ℕ → List ℕ → Message
message c b = record { command = c; body = b }

module _ (buffer rest : List ℕ) (p : ℕ) (m : Message)
    (at : drop p buffer ≡ encode_message m ++ rest) where
  byte_at : (i : ℕ) → get_or buffer (p + i) 0 ≡ get_or (encode_message m ++ rest) i 0
  byte_at i = sym (get_or-drop p i buffer 0) ∙ ap (λ xs. get_or xs i 0) at

  half_at_lem : half_at buffer (p + 2) ≡ length m.body + 4
  unfolding half_at
  half_at_lem =
      ap (λ i. get_or buffer (p + 2) 0 * 2 ^ 8 + get_or buffer i 0) (add_assoc p 2 1)
      ∙ rw (byte_at 2, byte_at 3) (omega arith)

  message_at_lem : message_at buffer p (half_at buffer (p + 2)) ≡ m
  unfolding message_at
  message_at_lem = ap₂ message (ap (λ i. get_or buffer i 0) (sym (add-zero p)) ∙ byte_at 0) body_at
    where
      same : half_at buffer (p + 2) - 4 ≡ length m.body
      same = omega (arith, half_at_lem)

      body_at : take (half_at buffer (p + 2) - 4) (drop (p + 4) buffer) ≡ m.body
      body_at =
          ap₂ take same (sym (drop-drop p 4 buffer) ∙ ap (drop 4) at) ∙ take-append m.body rest

  fits : length buffer ≡ buffer_size → p + (length m.body + 4) ≤ buffer_size
  fits size = omega (
    arith,
    sym (length-drop p buffer) ∙ ap length at,
    length-append (encode_message m) rest,
    size,
  )

  pub read_message :
      (rounds end : ℕ)
      → length buffer ≡ buffer_size
      → p < end
      → read_messages (suc rounds) buffer p end
        ≡ prepended m (read_messages rounds buffer (p + (length m.body + 4)) end)
  unfolding read_messages
  read_message rounds end size more =
      rw (before, header_in, long, body_in, message_at_lem, half_at_lem) refl
    where
      before : ltb p end ≡ true
      before = ground (arith, more)

      header_in : leb (p + 4) buffer_size ≡ true
      header_in = ground (arith, fits size)

      long : ltb (half_at buffer (p + 2)) 4 ≡ false
      long = ground (arith, half_at_lem)

      body_in : leb (p + half_at buffer (p + 2)) buffer_size ≡ true
      body_in = ground (arith, half_at_lem, fits size)

not_before : (p : ℕ) → ltb p (p + 0) ≡ false
not_before p = ground arith

-- What a client has encoded is read, message for message.
pub read_messages-encode :
    (ms : List Message) (buffer rest : List ℕ) (p rounds : ℕ)
    → length buffer ≡ buffer_size
    → drop p buffer ≡ encode_messages ms ++ rest
    → length (encode_messages ms) ≤ rounds
    → read_messages rounds buffer p (p + length (encode_messages ms)) ≡ all_read ms
unfolding read_messages
read_messages-encode [] buffer rest p zero size at enough = rw (not_before p) refl
read_messages-encode [] buffer rest p (suc rounds) size at enough = rw (not_before p) refl
read_messages-encode (m ∷ ms) buffer rest p zero size at enough = absurd (omega (arith, enough))
read_messages-encode (m ∷ ms) buffer rest p (suc rounds) size at enough =
    read_message buffer (encode_messages ms ++ rest) p m first rounds end size
      (omega (arith, whole))
    ∙ ap (prepended m) (
        ap (read_messages rounds buffer next) (omega (arith, whole))
        ∙ read_messages-encode ms buffer rest next rounds size later (omega (arith, whole, enough)))
  where
    next : ℕ
    next = p + (length m.body + 4)

    end : ℕ
    end = p + length (encode_messages (m ∷ ms))

    own : length m.body + 4 ≡ length (encode_message m)
    own = omega arith

    whole : length (encode_messages (m ∷ ms)) ≡ (length m.body + 4) + length (encode_messages ms)
    whole = length-append (encode_message m) (encode_messages ms) ∙ omega arith

    first : drop p buffer ≡ encode_message m ++ (encode_messages ms ++ rest)
    first = at ∙ append_assoc (encode_message m) (encode_messages ms) rest

    later : drop next buffer ≡ encode_messages ms ++ rest
    later =
        sym (drop-drop p (length m.body + 4) buffer)
        ∙ ap (drop (length m.body + 4)) first
        ∙ ap (λ n. drop n (encode_message m ++ (encode_messages ms ++ rest))) own
        ∙ drop-append (encode_message m) (encode_messages ms ++ rest)
