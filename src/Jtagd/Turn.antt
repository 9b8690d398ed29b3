-- ===== src/Jtagd/Turn.antt =====
-- A turn over plain messages: all the answers go out as one packet.
use native.Mathlib.Nat.{zero-add}
use jtag_remote_server.Base.{
  ℕ, ◌+◌, ◌-◌, ◌/◌, ◌%◌, ◌≤◌, ◌<◌, ◌≡◌, refl, sym, ap, subst, ◌∙◌, true, none, some, List, [], ◌∷◌,
  ◌++◌, ◌^◌, arith, ltb, length, length-append, append_assoc, append-nil,
}
use jtag_remote_server.World.{◌>>=◌, ◌>>◌}
use jtag_remote_server.Jtag.{Driver}
use jtag_remote_server.Jtagd.{Output, Message, Server}
use jtag_remote_server.Jtagd.Messages.{encode_message, encode_messages}
use jtag_remote_server.Jtagd.Packets.{encode_packet, encode-positive}
use jtag_remote_server.Jtagd.Gathered.{Holds}
use jtag_remote_server.Socket.Greedy.{IsGreedy, sent_more}
use jtag_remote_server.Jtagd.Transmit.{packet, do_send-packet}
use jtag_remote_server.Jtagd.Answers.{is_plain, plain_answer, handle-Answers}
use jtag_remote_server.Jtagd.Serve.{handle_each, handle_messages, send_gathered}

abbrev pub AllPlain : List Message → Type 0
AllPlain [] = Unit
AllPlain (m ∷ ms) = (is_plain m.command ≡ true) × AllPlain ms

abbrev pub answers_to : List Message → List Message
answers_to [] = []
answers_to (m ∷ ms) = plain_answer m.command ∷ answers_to ms

answers-positive : (ms : List Message) → 0 < length ms → 0 < length (answers_to ms)
answers-positive [] h = absurd (omega arith)
answers-positive (m ∷ ms) h = omega arith

module _ (d : Driver) (junk junk2 : List ℕ) where
  handle_each-Answers :
      (ms : List Message) (s : Server) (content : List ℕ)
      → AllPlain ms
      → s.messages ≡ ms
      → Holds s.output none content
      → 2 + length content + length (encode_messages (answers_to ms)) < 2 ^ 8
      → (o' : Output) × (handle_each d junk junk2 ms s
          ≡ some (tt, record s { output = o'; messages = [] }))
        × Holds o' none (content ++ encode_messages (answers_to ms))
  unfolding handle_each
  handle_each-Answers [] s content plain queue h room = (
    s.output,
    ap (λ q. some (tt, record s { messages = q })) queue,
    subst (Holds s.output none) (sym (append-nil content)) h,
  )
  handle_each-Answers (m ∷ ms) s content (p, plain) queue h room =
      let (o1, e, h1) =
        handle-Answers d junk junk2 m p s content h (omega (arith, room, lengths)) in
      let (o2, f, h2) =
        handle_each-Answers ms (record s { output = o1; messages = ms })
          (content ++ encode_message (plain_answer m.command)) plain refl h1
          (omega (
            arith,
            room,
            lengths,
            length-append content (encode_message (plain_answer m.command)),
          )) in
      (
        o2,
        rw (◌>>=◌, e) f,
        subst (Holds o2 none)
            (append_assoc content (encode_message (plain_answer m.command))
              (encode_messages (answers_to ms)))
            h2,
      )
    where
      lengths :
          length (encode_messages (answers_to (m ∷ ms)))
          ≡ length (plain_answer m.command).body + 4 + length (encode_messages (answers_to ms))
      lengths =
          length-append (encode_message (plain_answer m.command)) (encode_messages (answers_to ms))
          ∙ omega arith

  -- If only messages are queued that need neither the chain nor a packet of their own, and their answers
  -- fit 253 bytes, then a turn handles them all, and sends the answers in order as one packet.
  pub turn_answers :
      (s : Server)
      → AllPlain s.messages
      → 0 < length s.messages
      → IsGreedy s.world.net
      → Holds s.output none []
      → length (encode_messages (answers_to s.messages)) ≤ 253
      → (o' : Output) × ((handle_messages d junk junk2 >> send_gathered) s
          ≡ some (
            tt,
            record s {
              output = o';
              messages = [];
              world = sent_more (encode_packet (answers_to s.messages)) s.world;
            },
          ))
        × Holds o' none []
  unfolding handle_messages send_gathered
  turn_answers s plain some_messages greedy h room =
      let (o1, e, h1) = handle_each-Answers s.messages s [] plain refl h (omega (arith, room)) in
      let (o2, f, h2) =
        do_send-packet 0 (record s { output = o1; messages = [] }) none
          (encode_messages (answers_to s.messages)) greedy h1 positive (omega arith) in
      (
        o2,
        rw (◌>>=◌, e, some_content o1 h1) f
            ∙ ap
                (λ bytes.
                  some
                    (tt, record s { output = o2; messages = []; world = sent_more bytes s.world }))
                same,
        h2,
      )
    where
      positive : 0 < length (encode_messages (answers_to s.messages))
      positive = encode-positive (answers_to s.messages) (answers-positive s.messages some_messages)

      same :
          packet 0 (encode_messages (answers_to s.messages)) ≡ encode_packet (answers_to s.messages)
      same =
          ap (λ n. (n / 2 ^ 8) ∷ (n % 2 ^ 8) ∷ encode_messages (answers_to s.messages))
            (zero-add (length (encode_messages (answers_to s.messages)) - 1))

      some_content :
          (o1 : Output)
          → Holds o1 none (encode_messages (answers_to s.messages))
          → ltb 2 o1.send_buffer_size ≡ true
      some_content o1 h1 = ground (arith, h1.used, positive)
