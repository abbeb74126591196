-- ===== src/Transfer/Tests.antt =====
-- Three bytes are written, sent, and arrive.
use tju_tcp.Common.{◌+◌, ◌≡◌, refl, some, [], ◌∷◌, ◌++◌, arith, Memory}
use tju_tcp.Global.{Receiver}
use tju_tcp.Packet.{
  create_packet_buf, create_packet, packet_to_buf, header_in_char, get_seq, get_hlen, get_plen,
}
use tju_tcp.Send.{
  Pass, copied, tju_send_round, keep_nextseq, may_send, send_end, send_round, sending_thread,
  send_loop, data_packet,
}
use tju_tcp.Receive.{handle_data, data_len}
use tju_tcp.Receive.Window.{Carries, Keeps, handle_data-Keeps}
use tju_tcp.Handle.{ack_packet}
use tju_tcp.Connection.{tju_socket}
use tju_tcp.Connection.Fresh.{tju_socket-Fresh}
use tju_tcp.Transfer.{begin, Ends, Reach, here, next, writes_data, sends_data, data_arrives}
use tju_tcp.Samples.{heap0, stream0, now0, timer0, client_sock, server_sock}

abbrev buffer0 : Memory
buffer0 = λ i. 1 + i

abbrev begin0 : Ends
begin0 = begin heap0 client_sock timer0

abbrev written0 : Ends
written0 = record begin0 { sender = copied begin0.sender buffer0 3; written = 4 }

written0-Reach : Reach heap0 5678 1234 server_sock stream0 4 begin0 written0
unfolding tju_socket tju_send_round
written0-Reach = next here (
    writes_data (copied begin0.sender buffer0 3) buffer0 3 (omega arith) (omega arith) (omega arith)
      (λ t lt. refl) refl)

abbrev pass0 : Pass
pass0 = keep_nextseq (
    send_round heap0 5678 1234 now0 1 3
      (record { sender = written0.sender; seq = 1; timer = timer0; packets = [] }))

abbrev sent0 : Ends
sent0 = record written0 { sender = pass0.sender; timer = pass0.timer; sent = [] ++ pass0.packets }

sent0-Reach : Reach heap0 5678 1234 server_sock stream0 4 begin0 sent0
unfolding tju_socket sending_thread send_loop may_send send_end send_round
sent0-Reach = next written0-Reach (sends_data now0 pass0 refl)

-- The packet that was sent.
abbrev packet0 : Memory
packet0 = data_packet heap0 5678 1234 written0.sender.sending_buf 0 1 3

packet0-Carries : Carries stream0 4 packet0
unfolding data_packet create_packet_buf create_packet packet_to_buf header_in_char get_seq get_hlen
    get_plen data_len tju_socket
packet0-Carries = record { whole = omega arith; end = omega arith; payload = λ t lt. ground arith }

received0 :
    (r : Receiver) × (handle_data heap0 sent0.receiver packet0 ≡ some r)
    × Keeps stream0 4 sent0.receiver r
received0 =
    handle_data-Keeps stream0 4 (omega arith) heap0 sent0.receiver packet0
      (tju_socket-Fresh stream0 4 heap0 client_sock (omega arith)).0 packet0-Carries

abbrev arrived0 : Ends
arrived0 = record sent0 {
  receiver = received0.0;
  acks = ack_packet heap0 (record server_sock { receiver = received0.0 }) ∷ [];
}

arrived0-Reach : Reach heap0 5678 1234 server_sock stream0 4 begin0 arrived0
unfolding tju_socket send_round
arrived0-Reach = next sent0-Reach (data_arrives [] [] packet0 received0.0 refl received0.1)
