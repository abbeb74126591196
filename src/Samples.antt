-- ===== src/Samples.antt =====
-- Concrete sockets and packets for the tests: the numbers of the bytes of a stream are the bytes.
use tju_tcp.Common.{ℕ, ◌+◌, ◌/◌, false, true, none, Memory}
use tju_tcp.Global.{
  established, max_dlen, max_rwindow_size, max_swindow_size, tcp_rto_min, slow_start, Timeval,
  SenderWindow, Sender, Receiver, SockAddr, Sock,
}
use tju_tcp.Packet.{ack_flag_mask}
use tju_tcp.Kernel.{server_ip, client_ip}
use tju_tcp.Timer.{Timer}
use tju_tcp.Handle.{control_packet}

abbrev pub heap0 : Memory
heap0 = λ _. 0

abbrev pub stream0 : ℕ → ℕ
stream0 = λ q. q

abbrev pub now0 : Timeval
now0 = record { tv_sec = 10; tv_usec = 30000 }

abbrev pub timer0 : Timer
timer0 = record { retrans = false; timeout_flag = false; armed = none }

abbrev pub window0 : SenderWindow
window0 = record {
  window_size = max_dlen;
  ack_cnt = 0;
  base = 1;
  nextseq = 1;
  same_ack_cnt = 0;
  estmated_rtt = tcp_rto_min;
  dev_rtt = 0;
  is_estimating_rtt = false;
  rtt_expect_ack = 0;
  send_time = record { tv_sec = 10; tv_usec = 0 };
  timeout = record {
    it_interval = record { tv_sec = 0; tv_usec = 0 };
    it_value = record { tv_sec = 0; tv_usec = 500000 };
  };
  rwnd = max_rwindow_size;
  window_status = slow_start;
  cwnd = max_dlen;
  ssthresh = max_swindow_size / 2;
}

-- Five bytes to send.
abbrev pub sender0 : Sender
sender0 = record {
  wnd_send = window0;
  sending_buf = λ i. 1 + i;
  sending_len = 5;
  have_send_len = 0;
  is_retransing = false;
}

-- The five bytes have been sent and wait for their ACK.
abbrev pub sender5 : Sender
sender5 = record sender0 {
  wnd_send = record window0 { nextseq = 6 };
  have_send_len = 5;
  is_retransing = true;
}

abbrev pub receiver0 : Receiver
receiver0 = record {
  wnd_recv = record {
    remain_size = max_rwindow_size;
    recv_buf = heap0;
    mark = heap0;
    expect_seq = 1;
  };
  received_buf = heap0;
  received_len = 0;
}

abbrev pub server_addr : SockAddr
server_addr = record { ip = server_ip; port = 1234 }

abbrev pub client_addr : SockAddr
client_addr = record { ip = client_ip; port = 5678 }

abbrev pub client_sock : Sock
client_sock = record {
  state = established;
  bind_addr = client_addr;
  established_local_addr = client_addr;
  established_remote_addr = server_addr;
  sender = sender0;
  receiver = receiver0;
  packet_fin = none;
}

abbrev pub server_sock : Sock
server_sock = record client_sock {
  bind_addr = server_addr;
  established_local_addr = server_addr;
  established_remote_addr = client_addr;
}

-- An ACK of the server.
abbrev pub ack_of : ℕ → Memory
ack_of ack = control_packet heap0 1234 5678 1 ack ack_flag_mask 3000
