-- ===== src/Connection/Tests.antt =====
-- A server on port 1234 and a client.
use tju_tcp.Common.{◌≡◌, refl, none, some, List, [], ◌∷◌, arith, Memory}
use tju_tcp.Global.{closed, last_ack, closing, close_wait, time_wait, Sock}
use tju_tcp.Packet.{get_ack}
use tju_tcp.Kernel.{empty_tables}
use tju_tcp.Syn.{Queues}
use tju_tcp.Handle.{Effect, sends, enters, sleeps, starts_close, reply, fin_packet}
use tju_tcp.Connection.{Process, put_sock, tju_socket, tju_bind}
use tju_tcp.Connection.Handshake.{Shakes, three_way_handshake}
use tju_tcp.Connection.Close.{first_fin, closing_sock, close_begin}
use tju_tcp.Connection.Close.FourWay.{AreConnected, handle_all, four_way_close, lost_ack}
use tju_tcp.Samples.{heap0, now0, timer0, client_sock, server_sock, server_addr}

abbrev queues0 : Queues
queues0 = record {
  syn_queue = λ _. record { sock = none; last_ack_time = 0; remands = 0; packet_syn_ack = none };
  syn_num = 7;
  accept_queue = λ _. some 9;
  accept_num = 7;
}

-- A process whose sockets are fresh, and a server's, socket 2 of which is bound.
abbrev process0 : Process
process0 = record {
  socks = λ _. tju_socket heap0 client_sock;
  next = 3;
  tables = empty_tables;
  queues = queues0;
}

abbrev server0 : Process
server0 = tju_bind process0 2 server_addr

three_way_handshake_example : Shakes heap0 100 now0 timer0 server0 process0 2 0 server_addr
unfolding tju_bind
three_way_handshake_example =
    three_way_handshake heap0 100 now0 timer0 server0 process0 2 0 1234 (omega arith) refl

-- The client's socket 0 is connected to the server's.
abbrev client0 : Process
client0 = record process0 { socks = λ _. client_sock }

connected0 : AreConnected client_sock server_sock
connected0 = record {
  local = refl;
  remote = refl;
  local_fits = omega arith;
  remote_fits = omega arith;
  client_state = refl;
  server_state = refl;
}

abbrev fin0 : Memory
fin0 = first_fin heap0 client_sock

abbrev ack0 : Memory
ack0 = reply heap0 fin0 (get_ack fin0)

abbrev fin_ack0 : Memory
fin_ack0 = fin_packet heap0 server_sock fin0

abbrev last0 : Memory
last0 = reply heap0 fin_ack0 (get_ack fin_ack0)

abbrev early0 : Memory
early0 = reply heap0 fin_ack0 1

abbrev waiting0 : Sock
waiting0 = record server_sock { state = last_ack; packet_fin = some fin_ack0 }

abbrev answers0 : List Effect
answers0 = sends ack0 ∷ enters close_wait ∷ sleeps 1 ∷ sends fin_ack0 ∷ starts_close ∷ []

four_way_close_example :
    (close_begin heap0 client0 0
      ≡ some (put_sock client0 0 (closing_sock heap0 client_sock), fin0 ∷ []))
    × (handle_all heap0 now0 timer0 server_sock (fin0 ∷ []) ≡ some (waiting0, answers0))
    × (handle_all heap0 now0 timer0 (closing_sock heap0 client_sock) (ack0 ∷ fin_ack0 ∷ [])
        ≡ some (
          record (closing_sock heap0 client_sock) { state = closed },
          sends last0 ∷ enters time_wait ∷ sleeps 3 ∷ [],
        ))
    × (handle_all heap0 now0 timer0 server_sock (fin0 ∷ last0 ∷ [])
        ≡ some (record waiting0 { state = closed }, answers0))
four_way_close_example = four_way_close heap0 now0 timer0 timer0 client0 0 server_sock connected0

lost_ack_example :
    (handle_all heap0 now0 timer0 (closing_sock heap0 client_sock) (fin_ack0 ∷ [])
      ≡ some (record (closing_sock heap0 client_sock) { state = closing }, sends early0 ∷ []))
    × (handle_all heap0 now0 timer0 server_sock (fin0 ∷ early0 ∷ [])
        ≡ some (record waiting0 { state = closed }, answers0))
    × ((pkts : List Memory)
        → handle_all heap0 now0 timer0 (record waiting0 { state = closed }) pkts
          ≡ some (record waiting0 { state = closed }, []))
lost_ack_example = lost_ack heap0 now0 timer0 timer0 client0 0 server_sock connected0
