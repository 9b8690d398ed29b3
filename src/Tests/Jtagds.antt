-- ===== src/Tests/Jtagds.antt =====
-- The theorems about src/jtagd.cpp at work.
use jtag_remote_server.Base.{
  ◌≤◌, ◌≡◌, ◌↔◌, refl, true, some, none, ◌∷◌, [], ◌++◌, arith, length, drop, replicate, bit_at,
}
use jtag_remote_server.World.{World, ◌>>◌}
use jtag_remote_server.Socket.Buffer.{pending}
use jtag_remote_server.Socket.Greedy.{sent_more}
use jtag_remote_server.Jtag.{jtag_goto_tlr, jtag_tms_seq_to, jtag_scan_chain_send, jtag_scan_chain}
use jtag_remote_server.Tap.{get_tms_seq, walk_bits, next_state}
use jtag_remote_server.Jtag.Probe.{jtag_probe_devices}
use jtag_remote_server.Jtagd.{Output, Server, length_of, mux_of, read_packets, take_packet}
use jtag_remote_server.Jtagd.Sending.{add_array, be_bytes, compute_header, do_send}
use jtag_remote_server.Jtagd.Handlers.{fifo_min, read_chain}
use jtag_remote_server.Jtagd.Serve.{handle, handle_messages, send_gathered}
use jtag_remote_server.Jtagd.Gathered.{Holds}
use jtag_remote_server.Jtagd.Header.{header_read_back}
use jtag_remote_server.Jtagd.Messages.{encode_message}
use jtag_remote_server.Jtagd.Packets.{all_messages, encode_packet, read_packets-encode}
use jtag_remote_server.Jtagd.Rounds.{Ends, read_packets-Ends}
use jtag_remote_server.Jtagd.Answers.{handle_unknown}
use jtag_remote_server.Jtagd.Turn.{answers_to, turn_answers}
use jtag_remote_server.Jtagd.Transmit.{packet, do_send-packet}
use jtag_remote_server.Jtagd.Chain.{chain_response, descriptions, read_chain_answers}
use jtag_remote_server.Jtagd.Losses.{add_array_counted, fifo_packet_bytes_lost}
use jtag_remote_server.Tests.Servers.{
  chain, socket-IsGreedy, empty_output, empty_output-Holds, packets, server, server-InOrder,
  strange_request,
}

turn_answers_example :
    (o' : Output) × ((handle_messages chain [] [] >> send_gathered) server
      ≡ some (
        tt,
        record server {
          output = o';
          messages = [];
          world = sent_more (encode_packet (answers_to (server.messages))) (server.world);
        },
      ))
    × Holds o' none []
turn_answers_example =
    turn_answers chain [] [] server (refl, (refl, tt)) (omega arith) socket-IsGreedy
      empty_output-Holds (omega arith)

read_packets-encode_example :
    (s' : Server) × (read_packets 4096 server ≡ some (tt, s'))
    × (s'.messages ≡ server.messages ++ all_messages packets)
    × (pending s'.world ≡ 0x00 ∷ [])
read_packets-encode_example =
    read_packets-encode packets (0x00 ∷ []) 4096 server server-InOrder refl
      (omega arith, (omega arith, tt)) tt (omega arith)

read_packets-Ends_example : Ends (read_packets 4096 server) server.world
read_packets-Ends_example = read_packets-Ends 4096 server (omega arith) (omega arith)

header_read_back_example :
    (mux_of (compute_header 300 4) ≡ 4) × (length_of (compute_header 300 4) ≡ 300)
header_read_back_example = header_read_back 300 4 (omega arith) (omega arith) (omega arith)

handle_unknown_example :
    (o' : Output) × (handle chain [] [] strange_request server
      ≡ some (true, record server { output = o' }))
    × Holds o' none (126 ∷ 0 ∷ 0 ∷ 4 ∷ [])
handle_unknown_example =
    handle_unknown chain [] [] strange_request server [] refl empty_output-Holds (omega arith)

do_send-packet_example :
    (o' : Output) × (do_send 4
        (record server { output = record empty_output { send_buffer_size = 3 } })
      ≡ some
          (tt, record server { output = o'; world = sent_more (packet 4 (0 ∷ [])) (server.world) }))
    × Holds o' none []
do_send-packet_example =
    do_send-packet 4 (record server { output = record empty_output { send_buffer_size = 3 } }) none
      (0 ∷ []) socket-IsGreedy
      (record {
        high = 0;
        low = 0;
        stale = replicate 4093 0;
        shape = refl;
        size = refl;
        used = refl;
        fits = omega arith;
        opened = refl;
      })
      (omega arith) (omega arith)

add_array_counted_example :
    (o' : Output) × (add_array (replicate 300 7) 300 empty_output ≡ some (tt, o'))
    × ((o'.send_buffer_size ≡ 302) ↔ (300 ≤ 253))
add_array_counted_example =
    add_array_counted empty_output none (replicate 300 7) 300 empty_output-Holds (omega arith)
      (omega arith)

fifo_packet_bytes_lost_example :
    (s1 s2 : Server) × (take_packet 4 2 server ≡ some (tt, s1))
    × (take_packet 4 2
          (record server { world = record (server.world) { buffer = replicate 4096 9 } })
        ≡ some (tt, s2))
    × (s1.fifos ≡ s2.fifos)
fifo_packet_bytes_lost_example = fifo_packet_bytes_lost 4 2 server (replicate 4096 9) (omega arith)

-- What the probed chain gives.
abbrev probed : World
probed = elim (jtag_probe_devices chain (0 ∷ []) (replicate 32 0) (server.world)) [
  | none ↦ server.world
  | some (ids, w) ↦ w
]

read_chain_answers_example :
    (o' : Output) × (read_chain chain (0 ∷ []) (replicate 32 0) server
      ≡ some (
        tt,
        record server {
          output = o';
          devices = 0x02020202 ∷ [];
          world =
              sent_more
                (packet fifo_min (descriptions (0x02020202 ∷ [])))
                (sent_more (packet 0 (encode_message (chain_response (0x02020202 ∷ [])))) probed);
        },
      ))
    × Holds o' none []
    × (drop 8 (chain_response (0x02020202 ∷ [])).body
        ≡ be_bytes (length (descriptions (0x02020202 ∷ []))))
unfolding jtag_probe_devices jtag_goto_tlr jtag_tms_seq_to get_tms_seq walk_bits next_state bit_at
    jtag_scan_chain_send jtag_scan_chain
read_chain_answers_example =
    read_chain_answers chain (0 ∷ []) (replicate 32 0) server (0x02020202 ∷ []) probed refl
      (omega arith) (omega arith) socket-IsGreedy empty_output-Holds
