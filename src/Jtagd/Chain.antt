-- ===== src/Jtagd/Chain.antt =====
-- READ_CHAIN: the probed devices, described in a packet as long as the response says.
use jtag_remote_server.Base.{
  ℕ, ◌+◌, ◌*◌, ◌<◌, ◌≡◌, refl, sym, ap, subst, ◌∙◌, none, some, List, [], ◌∷◌, ◌++◌, arith, drop,
  length, append-nil,
}
use jtag_remote_server.World.{World, ◌>>=◌, ◌>>◌}
use jtag_remote_server.Jtag.{Driver}
use jtag_remote_server.Jtag.Probe.{jtag_probe_devices}
use jtag_remote_server.Jtagd.{Output, Message, Server}
use jtag_remote_server.Jtagd.Messages.{encode_message}
use jtag_remote_server.Jtagd.Responses.{
  response, Replies, append-Ends, end_response-Ends, add_response-Replies,
}
use jtag_remote_server.Socket.Greedy.{IsGreedy, sent_more}
use jtag_remote_server.Jtagd.Transmit.{packet, do_send-packet}
use jtag_remote_server.Jtagd.Sending.{add_int, add_string, be_bytes, add_response, end_response}
use jtag_remote_server.Jtagd.Gathered.{
  Holds, Appends, add_int-Appends, add_string-Appends, then-Appends,
}
use jtag_remote_server.Jtagd.Handlers.{fifo_min, device_name, describe_devices, read_chain}

-- The identification, the length of the instruction register, three zeros, and the name.
abbrev pub descriptions : List ℕ → List ℕ
descriptions [] = []
descriptions (id ∷ ids) =
    be_bytes id
    ++ (be_bytes 10
        ++ (be_bytes 0 ++ (be_bytes 0 ++ (be_bytes 0 ++ ((7 ∷ device_name) ++ descriptions ids)))))

-- The response: the tag of the chain, the number of devices, and the length of the packet that follows.
abbrev pub chain_response : List ℕ → Message
chain_response ids =
    response 0 (be_bytes 1 ++ (be_bytes (length ids) ++ (be_bytes (length ids * 28) ++ [])))

pub length-descriptions : (ids : List ℕ) → length (descriptions ids) ≡ 28 * length ids
unfolding be_bytes
length-descriptions [] = omega arith
length-descriptions (id ∷ ids) = omega (arith, length-descriptions ids)

pub describe_devices-Appends : (ids : List ℕ) → Appends (describe_devices ids) (descriptions ids)
unfolding describe_devices
describe_devices-Appends [] =
    λ o last content h room. (o, refl, subst (Holds o last) (sym (append-nil content)) h)
describe_devices-Appends (id ∷ ids) =
    then-Appends (add_int id) _ (be_bytes id) _ (add_int-Appends id) (
      then-Appends (add_int 10) _ (be_bytes 10) _ (add_int-Appends 10) (
        then-Appends (add_int 0) _ (be_bytes 0) _ (add_int-Appends 0) (
          then-Appends (add_int 0) _ (be_bytes 0) _ (add_int-Appends 0) (
            then-Appends (add_int 0) _ (be_bytes 0) _ (add_int-Appends 0) (
              then-Appends (add_string device_name) _ (7 ∷ device_name) _
                (add_string-Appends device_name) (describe_devices-Appends ids))))))

chain_response-Replies :
    (ids : List ℕ)
    → Replies
        (do
          add_response 0
          add_int 1
          add_int (length ids)
          add_int (length ids * (4 + 4 + 4 + 4 + 4 + 1 + length device_name))
          end_response)
        (chain_response ids)
chain_response-Replies ids = add_response-Replies 0 _ (chain_response ids).body (omega arith) (
    append-Ends (add_int 1) _ (be_bytes 1) _ (add_int-Appends 1) (
      append-Ends (add_int (length ids)) _ (be_bytes (length ids)) _ (add_int-Appends (length ids))
        (append-Ends (add_int (length ids * 28)) end_response (be_bytes (length ids * 28)) []
          (add_int-Appends (length ids * 28)) end_response-Ends)))

module _ (d : Driver) (junk junk2 : List ℕ) where
  -- The answer to READ_CHAIN, where probing gives 1 to 7 devices, no answer is gathered before, and the
  -- socket takes what it is given: a response with their number and the length of what follows, and then
  -- a packet of the fifo that has this length, with their descriptions.
  pub read_chain_answers :
      (s : Server) (ids : List ℕ) (w1 : World)
      → jtag_probe_devices d junk junk2 s.world ≡ some (ids, w1)
      → 0 < length ids
      → length ids < 8
      → IsGreedy w1.net
      → Holds s.output none []
      → (o' : Output) × (read_chain d junk junk2 s
          ≡ some (
            tt,
            record s {
              output = o';
              devices = ids;
              world =
                  sent_more
                    (packet fifo_min (descriptions ids))
                    (sent_more (packet 0 (encode_message (chain_response ids))) w1);
            },
          ))
        × Holds o' none []
        × (drop 8 (chain_response ids).body ≡ be_bytes (length (descriptions ids)))
  unfolding read_chain
  read_chain_answers s ids w1 probed some_ids few greedy h =
      let (o1, e1, h1) = chain_response-Replies ids s.output [] h (omega arith) in
      let (o2, e2, h2) =
        do_send-packet 0 (record s { output = o1; devices = ids; world = w1 }) none
          (encode_message (chain_response ids)) greedy h1 (omega arith) (omega arith) in
      let (o3, e3, h3) =
        describe_devices-Appends ids o2 none [] h2 (omega (arith, length-descriptions ids, few)) in
      let (o4, e4, h4) =
        do_send-packet fifo_min
          (record s {
            output = o3;
            devices = ids;
            world = sent_more (packet 0 (encode_message (chain_response ids))) w1;
          })
          none (descriptions ids) greedy h3 (omega (arith, length-descriptions ids, some_ids))
          (omega arith) in
      (o4, rw (◌>>=◌, probed, e1, e2, e3) e4, h4, announced)
    where
      announced : be_bytes (length ids * 28) ++ [] ≡ be_bytes (length (descriptions ids))
      announced =
          append-nil (be_bytes (length ids * 28))
          ∙ ap be_bytes (omega (arith, length-descriptions ids))
