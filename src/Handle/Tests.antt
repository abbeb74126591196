-- ===== src/Handle/Tests.antt =====
-- A FIN comes to an established connection.
use tju_tcp.Common.{◌≡◌, refl, some, Memory}
use tju_tcp.Global.{established, fin_seq}
use tju_tcp.Packet.{
  fin_flag_mask, get_flags, create_packet_buf, create_packet, packet_to_buf, header_in_char,
}
use tju_tcp.Handle.{control_packet, handle_fin, handle_established, tju_handle_packet}
use tju_tcp.Handle.States.{Change, tju_handle_packet-Change}
use tju_tcp.Samples.{heap0, now0, timer0, server_sock}

abbrev fin0 : Memory
fin0 = control_packet heap0 5678 1234 fin_seq 0 fin_flag_mask 1

handled_fin :
    tju_handle_packet heap0 timer0 now0 server_sock fin0
    ≡ some (handle_fin heap0 timer0 server_sock fin0)
unfolding tju_handle_packet handle_established control_packet create_packet_buf create_packet
    packet_to_buf header_in_char get_flags
handled_fin = refl

tju_handle_packet-Change_example :
    Change fin0 established (handle_fin heap0 timer0 server_sock fin0).sock.state
tju_handle_packet-Change_example =
    tju_handle_packet-Change heap0 timer0 now0 fin0 server_sock
      (handle_fin heap0 timer0 server_sock fin0) handled_fin
