-- ===== src/Session/Tests.antt =====
-- The client's socket 0 connects to the server's socket 2.
use mathlib.Core.Option
use tju_tcp.Common.{ℕ, ◌+◌, ◌≤◌, ◌≡◌, refl, ap, none, List, [], ◌∷◌, arith, Memory, slice}
use tju_tcp.Global.{established, Sender, Timeval}
use tju_tcp.Packet.{
  create_packet_buf, create_packet, packet_to_buf, header_in_char, get_src, get_dst,
}
use tju_tcp.Kernel.{empty_tables, server_ip, client_ip}
use tju_tcp.Send.{copied, data_packet, tju_send_round}
use tju_tcp.Handle.{Handled}
use tju_tcp.Syn.{Queues}
use tju_tcp.Connection.{Process, put_sock, tju_socket, tju_bind, connect_end}
use tju_tcp.Connection.Handshake.{Shakes, three_way_handshake}
use tju_tcp.Duplex.{Host, Link, with_sender, Reach, here, next, left_acts, writes_data}
use tju_tcp.Duplex.Complete.{Completes}
use tju_tcp.Session.{connection, handshake-exchanged}
use tju_tcp.Session.Dispatch.{answered, is_listening}
use tju_tcp.Session.Arrivals.{on_packets, handle_all, handshake-on_packets}
use tju_tcp.Samples.{heap0, stream0, now0, timer0, client_sock, server_addr}

abbrev queues0 : Queues
queues0 = record {
  syn_queue = λ _. record { sock = none; last_ack_time = 0; remands = 0; packet_syn_ack = none };
  syn_num = 0;
  accept_queue = λ _. none;
  accept_num = 0;
}

abbrev client0 : Process
client0 = record {
  socks = λ _. tju_socket heap0 client_sock;
  next = 3;
  tables = empty_tables;
  queues = queues0;
}

abbrev server0 : Process
server0 = tju_bind client0 2 server_addr

shaken0 : Shakes heap0 100 now0 timer0 server0 client0 2 0 server_addr
unfolding tju_bind
shaken0 = three_way_handshake heap0 100 now0 timer0 server0 client0 2 0 1234 (omega arith) refl

-- The application of the client has written three bytes.
abbrev begin0 : Link
begin0 = connection shaken0 timer0

abbrev buffer0 : Memory
buffer0 = λ i. 1 + i

abbrev client1 : Host
client1 =
    record (with_sender begin0.left (copied begin0.left.sock.sender buffer0 3) begin0.left.timer) {
      written = 4;
    }

abbrev written0 : Link
written0 = record { left = client1; right = begin0.right }

empty0 : shaken0.handled.sock.sender.sending_len ≡ 0
unfolding tju_socket
empty0 = ap (λ (s : Sender). s.sending_len) shaken0.sender

written0-Reach : Reach heap0 stream0 4 stream0 3 begin0 written0
unfolding tju_send_round connect_end
written0-Reach = next here (
    left_acts client1 begin0.right (
      writes_data (copied begin0.left.sock.sender buffer0 3) buffer0 3 (omega (arith, empty0))
        (omega (arith, empty0)) (omega arith) (λ t lt. refl) (ground (arith, empty0))))

handshake-exchanged_example :
    ((n : ℕ) × (written0.right.delivered ≡ slice stream0 1 n) × (1 + n ≤ written0.left.written))
    × ((n : ℕ) × (written0.left.delivered ≡ slice stream0 1 n) × (1 + n ≤ written0.right.written))
    × (written0.left.sock.state ≡ established)
    × (written0.right.sock.state ≡ established)
    × Completes heap0 stream0 4 stream0 3 written0
unfolding tju_bind
handshake-exchanged_example =
    handshake-exchanged heap0 stream0 4 stream0 3 (omega arith) (omega arith) (omega arith)
      (omega arith) 100 now0 timer0 timer0 server0 client0 2 0 1234 client_sock client_sock written0
      (omega arith) refl refl shaken0 written0-Reach

-- A data packet each way.
abbrev to_server : Memory
to_server = data_packet heap0 5678 1234 buffer0 0 1 3

abbrev to_client : Memory
to_client = data_packet heap0 1234 5678 buffer0 0 1 3

ports :
    (get_dst to_server ≡ 1234)
    × (get_src to_server ≡ 5678)
    × (get_dst to_client ≡ 5678)
    × (get_src to_client ≡ 1234)
unfolding data_packet create_packet_buf create_packet packet_to_buf header_in_char get_src get_dst
ports = (refl, refl, refl, refl)

-- The sockets as the handshake has left them.
abbrev at_server : Handled
at_server = record { sock = shaken0.accepts.process.socks 3; timer = timer0; effects = [] }

abbrev at_client : Handled
at_client = record { sock = shaken0.handled.sock; timer = timer0; effects = [] }

abbrev twice : Memory → List (Timeval × Memory)
twice pkt = (now0, pkt) ∷ (now0, pkt) ∷ []

handshake-on_packets_example :
    let server' = shaken0.accepts.process in
    let client' = connect_end (put_sock shaken0.client' 0 shaken0.handled.sock) 0 server_addr in
    (on_packets heap0 100 server_ip client_ip (answered server' 3 at_server) (twice to_server)
      ≡ Option.map (answered server' 3) (handle_all heap0 at_server (twice to_server)))
    × (on_packets heap0 100 client_ip server_ip (answered client' 0 at_client) (twice to_client)
        ≡ Option.map (answered client' 0) (handle_all heap0 at_client (twice to_client)))
unfolding tju_bind
handshake-on_packets_example =
    handshake-on_packets heap0 100 now0 timer0 server0 client0 2 0 1234 shaken0 at_server at_client
      (ap is_listening shaken0.accepts.state) (ap is_listening shaken0.connected) (twice to_server)
      (twice to_client) ((ports.0, ports.1), ((ports.0, ports.1), tt))
      ((ports.2, ports.3), ((ports.2, ports.3), tt))
