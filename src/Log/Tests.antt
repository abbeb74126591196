-- ===== src/Log/Tests.antt =====
-- Lines of the log, as the traces under test/ have them.
use tju_tcp.Common.{◌≡◌, refl, true, some, List, [], ◌∷◌, ◌++◌, arith, map, pos, negsuc}
use tju_tcp.Global.{Timeval}
use tju_tcp.Packet.{Header, create_packet_buf}
use tju_tcp.Kernel.{client}
use tju_tcp.Log.{
  codes, as_int, digits, print_nat, print_int, fprintf, get_current_time, LogEvent, send, cwnd,
  delv, event_format, event_line, send_log, Logs,
}
use tju_tcp.Log.Lines.{read_line, send_log-create_packet_buf}
use tju_tcp.Log.Files.{timed_event, log_all, log_all-read_line}
use tju_tcp.Retransmit.{Resent, retrans_thread}
use tju_tcp.Duplex.{Link, with_sender, gets, local_port, remote_port}
use tju_tcp.Duplex.Delivery.{Reach-Runs}
use tju_tcp.Duplex.Tests.{link3, link3-Reach}
use tju_tcp.Samples.{
  heap0, now0, stream0, timer0, client_addr, server_addr, client_sock, server_sock,
}

-- The number of a FIN, below 2 ^ 31, and one above.
as_int_test : (as_int 5 ≡ pos 5) × (as_int 0xffff_ffff ≡ negsuc 0)
unfolding as_int
as_int_test = (refl, refl)

line_test :
    event_line now0 (send (pos 1) (negsuc 4) (pos 0) (pos 1375))
    ≡ codes "[10030000] [SEND] [seq:1 ack:-5 flag:0 length:1375]\n"
unfolding event_line event_format fprintf print_int print_nat digits get_current_time
line_test = refl

abbrev header0 : Header
header0 = record {
  source_port = 1234;
  destination_port = 5678;
  seq_num = 0xffff_fffe;
  ack_num = 7;
  hlen = 20;
  plen = 23;
  flags = 0;
  advertised_window = 1;
  ext = 0;
}

send_log-create_packet_buf_example :
    read_line (event_line now0 (send_log (create_packet_buf heap0 header0 heap0 3)))
    ≡ some (pos 10030000, send (negsuc 1) (pos 7) (pos 0) (pos 3))
unfolding get_current_time as_int
send_log-create_packet_buf_example =
    send_log-create_packet_buf heap0 now0 header0 heap0 3
      (record {
        source_port = omega arith;
        destination_port = omega arith;
        seq_num = omega arith;
        ack_num = omega arith;
        hlen = omega arith;
        plen = omega arith;
        flags = omega arith;
        advertised_window = omega arith;
        ext = omega arith;
      })
      (omega arith) (omega arith)

abbrev logs0 : Logs
logs0 = record { server_event_log = []; client_event_log = []; opened = true }

abbrev run0 : List (Timeval × LogEvent)
run0 = (now0, delv (pos 1) (pos 1375)) ∷ (now0, cwnd (pos 0) (pos 2750)) ∷ []

log_all-read_line_example :
    (l' : Logs) × (log_all client run0 logs0 ≡ some l')
    × (map read_line l'.client_event_log ≡ [] ++ map timed_event run0)
    × (l'.server_event_log ≡ [])
    × (l'.opened ≡ true)
log_all-read_line_example = log_all-read_line client run0 logs0 (cc) refl

-- The timer has run out at the client, and `retrans_thread` has its round.
resent0 :
    (r : Resent) × (retrans_thread heap0
        (local_port link3.left)
        (remote_port link3.left)
        link3.left.sock.sender
        link3.left.timer
      ≡ some r)
resent0 =
    (Reach-Runs heap0 stream0 4 stream0 3 (omega arith) (omega arith) client_addr server_addr
      (omega arith) (omega arith) client_sock server_sock timer0 timer0 (omega arith) (omega arith)
      link3 link3-Reach).0.2

abbrev link4 : Link
link4 = record {
  left = with_sender link3.left resent0.0.sender resent0.0.timer;
  right = gets link3.right resent0.0.packets;
}

abbrev at_now0 : List LogEvent → List (Timeval × LogEvent)
at_now0 es = map (λ e. (now0, e)) es
