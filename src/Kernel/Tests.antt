-- ===== src/Kernel/Tests.antt =====
-- Datagrams, hashes and dispatch at concrete values.
use tju_tcp.Common.{
  ℕ, ◌+◌, ◌<◌, ◌≡◌, ◌⊎◌, refl, List, [], ◌∷◌, none, some, true, false, arith, Memory, pos, negsuc,
  of_list, slice,
}
use tju_tcp.Packet.{
  Header, create_packet_buf, create_packet, packet_to_buf, header_in_char, get_plen, get_src,
  get_dst,
}
use tju_tcp.Packet.RoundTrip.{header_of}
use tju_tcp.Kernel.{
  max_sock, server_ip, client_ip, client, cal_hash, put_at, empty_tables, handled_by, on_tcp_pocket,
  send_to_layer3, receive_round, receive_thread,
}
use tju_tcp.Kernel.Bounds.{
  InTable, IsBelow, cal_hash-InTable, cal_hash-IsBelow, on_tcp_pocket-handled_by,
}
use tju_tcp.Kernel.Start.{Answers, Backend, Cleared, start_simulation, start_simulation-Cleared}
use tju_tcp.Kernel.Delivery.{IsWhole, receive_thread-short, on_wire, send_to_layer3-receive_round}

abbrev fields1 : Header
fields1 = record {
  source_port = 1234;
  destination_port = 5678;
  seq_num = 464;
  ack_num = 0;
  hlen = 20;
  plen = 23;
  flags = 0;
  advertised_window = 1;
  ext = 0;
}

abbrev heap1 : Memory
heap1 = λ _. 7

abbrev payload1 : Memory
payload1 = λ i. 65 + i

-- The index of a listening socket is below the table.
cal_hash-listen : cal_hash server_ip 1234 0 0 ≡ negsuc 10
unfolding cal_hash
cal_hash-listen = refl

cal_hash-InTable_example :
    InTable (cal_hash server_ip 1234 client_ip 5678)
    × (cal_hash client_ip 5678 server_ip 1234 ≡ cal_hash server_ip 1234 client_ip 5678)
cal_hash-InTable_example = cal_hash-InTable 1234 5678 (omega arith) (omega arith)

cal_hash-IsBelow_example : IsBelow (cal_hash server_ip 1234 0 0)
cal_hash-IsBelow_example = cal_hash-IsBelow 1234 (omega arith) (λ e. omega arith)

-- A packet from port 1234 to port 5678 goes to the socket that is connected from 5646 to 1234 + 64.
on_tcp_pocket-handled_by_example :
    on_tcp_pocket
      (record empty_tables {
        established_socks =
            put_at empty_tables.established_socks (cal_hash server_ip 5646 client_ip 1298) (some 3);
      })
      server_ip
      client_ip
      (create_packet_buf heap1 fields1 payload1 3)
    ≡ handled_by 3
unfolding create_packet_buf create_packet packet_to_buf header_in_char get_src get_dst
on_tcp_pocket-handled_by_example =
    on_tcp_pocket-handled_by empty_tables 5646 1298 3 (create_packet_buf heap1 fields1 payload1 3)
      (omega arith) (omega arith) (omega arith) (omega arith) refl

abbrev datagram1 : List ℕ
datagram1 = on_wire heap1 fields1 payload1

datagram1-IsWhole : IsWhole heap1 datagram1
unfolding create_packet_buf create_packet packet_to_buf header_in_char get_plen slice of_list
datagram1-IsWhole = record { header = omega arith; plen = refl }

receive_thread-short_example : receive_thread 9 heap1 ((1 ∷ 2 ∷ []) ∷ datagram1 ∷ []) ≡ []
receive_thread-short_example =
    receive_thread-short 9 heap1 (1 ∷ 2 ∷ []) (datagram1 ∷ []) (omega arith)

send_to_layer3-receive_round_example :
    (send_to_layer3 client (create_packet_buf heap1 fields1 payload1 3) 23
      ≡ some (record { target = server_ip; bytes = datagram1 } ∷ []))
    × (receive_round (λ _. 0) (datagram1 ∷ []) ≡ some (some datagram1, []))
    × (header_of (of_list datagram1 (λ _. 0)) ≡ fields1)
    × ((t : ℕ) → t < 3 → of_list datagram1 (λ _. 0) (20 + t) ≡ payload1 t)
send_to_layer3-receive_round_example =
    send_to_layer3-receive_round heap1 (λ _. 0) fields1 payload1
      (record {
        source_port = omega arith;
        destination_port = omega arith;
        seq_num = omega arith;
        ack_num = omega arith;
        hlen = omega arith;
        plen = omega arith;
        flags = omega arith;
        advertised_window = omega arith;
        ext = omega arith;
      })
      refl (omega arith) [] (omega arith)

-- `pthread_create` has failed with EAGAIN.
abbrev answers1 : Answers
answers1 = record { socket = pos 3; bind = pos 0; pthread_create = pos 11 }

start_simulation-Cleared_example :
    ((false ≡ true) × (start_simulation answers1 empty_tables ≡ none))
    ⊎ ((false ≡ false)
        × (b : Backend) × (start_simulation answers1 empty_tables ≡ some b)
        × Cleared empty_tables max_sock b.tables)
start_simulation-Cleared_example = start_simulation-Cleared answers1 empty_tables
