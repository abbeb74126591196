-- ===== src/Duplex/Tests.antt =====
-- The client writes three bytes and sends them, the server writes two, and the packet arrives.
use tju_tcp.Common.{ℕ, ◌+◌, ◌≤◌, ◌≡◌, refl, some, [], ◌∷◌, arith, Memory, slice}
use tju_tcp.Global.{established, Itimerval}
use tju_tcp.Send.{
  Pass, copied, tju_send_round, keep_nextseq, may_send, send_end, send_round, sending_thread,
  send_loop, data_packet,
}
use tju_tcp.Handle.{Handled, tju_handle_packet}
use tju_tcp.Connection.{tju_socket}
use tju_tcp.Duplex.{
  Host, Link, begin_host, with_sender, gets, sent_by, Reach, here, next, left_acts, right_acts,
  writes_data, sends_data, packet_arrives, timer_fires,
}
use tju_tcp.Timer.{sigalrm, start_timer, set_itimer}
use tju_tcp.Duplex.Pipes.{Pipes, Service, empty_pipes, left_side, right_side, writes, silent}
use tju_tcp.Duplex.Queues.{Queued, trace-Service}
use tju_tcp.Duplex.Delivery.{Runs, Reach-exchanged, Reach-Runs}
use tju_tcp.Samples.{
  heap0, stream0, now0, timer0, client_addr, server_addr, client_sock, server_sock,
}

abbrev buffer0 : Memory
buffer0 = λ i. 1 + i

abbrev client0 : Host
client0 = begin_host heap0 client_sock timer0 client_addr server_addr

abbrev server0 : Host
server0 = begin_host heap0 server_sock timer0 server_addr client_addr

abbrev pub link0 : Link
link0 = record { left = client0; right = server0 }

abbrev client1 : Host
client1 = record (with_sender client0 (copied client0.sock.sender buffer0 3) timer0) { written = 4 }

abbrev server1 : Host
server1 = record (with_sender server0 (copied server0.sock.sender buffer0 2) timer0) { written = 3 }

both_wrote : Reach heap0 stream0 4 stream0 3 link0 (record { left = client1; right = server1 })
unfolding tju_socket tju_send_round
both_wrote =
    next
      (next here (
        left_acts client1 server0 (
          writes_data (copied client0.sock.sender buffer0 3) buffer0 3 (omega arith) (omega arith)
            (omega arith) (λ t lt. refl) refl)))
      (right_acts server1 client1 (
        writes_data (copied server0.sock.sender buffer0 2) buffer0 2 (omega arith) (omega arith)
          (omega arith) (λ t lt. refl) refl))

abbrev pass0 : Pass
pass0 = keep_nextseq (
    send_round heap0 5678 1234 now0 1 3
      (record { sender = client1.sock.sender; seq = 1; timer = timer0; packets = [] }))

abbrev pub link1 : Link
link1 = record {
  left = with_sender client1 pass0.sender pass0.timer;
  right = gets server1 pass0.packets;
}

link1-Reach : Reach heap0 stream0 4 stream0 3 link0 link1
unfolding tju_socket sending_thread send_loop may_send send_end send_round
link1-Reach = next both_wrote (left_acts _ _ (sends_data now0 pass0 refl))

runs1 : Runs heap0 link1.left × Runs heap0 link1.right
runs1 =
    Reach-Runs heap0 stream0 4 stream0 3 (omega arith) (omega arith) client_addr server_addr
      (omega arith) (omega arith) client_sock server_sock timer0 timer0 (omega arith) (omega arith)
      link1 link1-Reach

-- The packet that was sent, and what becomes of it at the server.
abbrev packet0 : Memory
packet0 = data_packet heap0 5678 1234 client1.sock.sender.sending_buf 0 1 3

received0 : (r : Handled) × (tju_handle_packet heap0 timer0 now0 server1.sock packet0 ≡ some r)
unfolding send_round tju_socket
received0 = runs1.1.0 now0 [] [] packet0 refl

abbrev link2 : Link
link2 = record {
  left = gets link1.left (sent_by received0.0.effects);
  right = record link1.right { sock = received0.0.sock; timer = received0.0.timer };
}

link2-Reach : Reach heap0 stream0 4 stream0 3 link0 link2
unfolding send_round tju_socket
link2-Reach =
    next link1-Reach
      (right_acts _ _ (packet_arrives now0 [] [] packet0 received0.0 refl received0.1))

Reach-exchanged_example :
    ((n : ℕ) × (link2.right.delivered ≡ slice stream0 1 n) × (1 + n ≤ link2.left.written))
    × ((n : ℕ) × (link2.left.delivered ≡ slice stream0 1 n) × (1 + n ≤ link2.right.written))
    × (link2.left.sock.state ≡ established)
    × (link2.right.sock.state ≡ established)
Reach-exchanged_example =
    Reach-exchanged heap0 stream0 4 stream0 3 (omega arith) (omega arith) client_addr server_addr
      (omega arith) (omega arith) client_sock server_sock timer0 timer0 (omega arith) (omega arith)
      link2 link2-Reach

Reach-Runs_example : Runs heap0 link2.left × Runs heap0 link2.right
Reach-Runs_example =
    Reach-Runs heap0 stream0 4 stream0 3 (omega arith) (omega arith) client_addr server_addr
      (omega arith) (omega arith) client_sock server_sock timer0 timer0 (omega arith) (omega arith)
      link2 link2-Reach

-- The packet is lost, and the timer fires.
abbrev interval0 : Itimerval
interval0 = client0.sock.sender.timeout

abbrev pub link3 : Link
link3 = record link1 { left = record link1.left { timer = sigalrm interval0 link1.left.timer } }

pub link3-Reach : Reach heap0 stream0 4 stream0 3 link0 link3
unfolding tju_socket send_round start_timer set_itimer
link3-Reach = next link1-Reach (left_acts _ _ (timer_fires interval0 refl))

trace-Service_example :
    (q : Pipes) × Service empty_pipes
      ((left_side, writes (1 ∷ 2 ∷ 3 ∷ []))
        ∷ (right_side, writes (1 ∷ 2 ∷ []))
        ∷ (left_side, silent)
        ∷ (right_side, silent)
        ∷ [])
      q
    × (Queued stream0 link2.left link2.right q.to_right
        × Queued stream0 link2.right link2.left q.to_left)
unfolding slice both_wrote link1-Reach link2-Reach
trace-Service_example =
    trace-Service heap0 stream0 4 stream0 3 (omega arith) (omega arith) client_addr server_addr
      (omega arith) (omega arith) client_sock server_sock timer0 timer0 (omega arith) (omega arith)
      link2 link2-Reach
