-- ===== src/Connection.antt =====
-- The calls of tju_tcp.c that make and end connections, over the sockets of one process:
-- `tju_socket`, `tju_bind`, `tju_listen`, `tju_accept`, `tju_connect`, and the LISTEN branch of
-- `tju_handle_packet`; the module Close has `tju_close`.
-- A call that blocks is cut where it waits: what it does before, a round of its waiting loop, and
-- what it does behind the loop. `heap` is what fresh memory holds and `clock` what `clock()` gives.
-- The copy that LISTEN makes of the listening socket is a copy of its buffers and windows here; in C
-- both point to the same ones, for which see Aliasing.
pub mod Backlog
pub mod Server
pub mod Close
pub mod Fresh
pub mod Handshake
mod Tests
use tju_tcp.Common.{
  ℕ, suc, ◌+◌, ◌-◌, ◌/◌, Bool, true, false, Option, none, some, List, [], ◌∷◌, ◌&&◌, Memory, memset,
  u32, leb, ◌==◌, if◌then◌else◌,
}
use tju_tcp.Global.{
  State, closed, listen, syn_sent, syn_recv, established, fin_wait_1, last_ack, max_dlen,
  max_rwindow_size, max_swindow_size, tcp_rto_min, client_isn, server_isn, fin_seq, slow_start,
  Timeval, SenderWindow, Sender, Receiver, SockAddr, Sock,
}
use tju_tcp.Packet.{
  syn_flag_mask, ack_flag_mask, fin_flag_mask, syn_ack_flags, get_src, get_dst, get_seq, get_ack,
  get_flags,
}
use tju_tcp.Timer.{Timer, zero_time}
use tju_tcp.Kernel.{client_ip, cal_hash, put_at, Tables}
use tju_tcp.Syn.{
  Queues, hash_of, init_queue, en_syn_queue, en_accept_queue, get_from_syn, get_from_accept,
}
use tju_tcp.Handle.{control_packet}

-- The sockets by their pointers, the next pointer of `malloc`, and the kernel's tables.
pub record Process : Type 0 where
  pub socks : ℕ → Sock
  pub next : ℕ
  pub tables : Tables
  pub queues : Queues

abbrev pub put_sock : Process → ℕ → Sock → Process
put_sock p i s = record p { socks = λ j. if i == j then s else p.socks j }

-- `tju_socket`; the addresses and `send_time` are as `malloc` left them in `junk`.
unfoldable pub tju_socket : Memory → Sock → Sock
tju_socket heap junk = record {
  state = closed;
  bind_addr = junk.bind_addr;
  established_local_addr = junk.established_local_addr;
  established_remote_addr = junk.established_remote_addr;
  sender = record {
    wnd_send = record {
      window_size = max_dlen;
      ack_cnt = 0;
      base = 1;
      nextseq = 1;
      same_ack_cnt = 0;
      estmated_rtt = tcp_rto_min;
      dev_rtt = 0;
      is_estimating_rtt = false;
      rtt_expect_ack = 0;
      send_time = junk.sender.send_time;
      timeout = record {
        it_interval = zero_time;
        it_value = record { tv_sec = 0; tv_usec = 500000 };
      };
      rwnd = max_rwindow_size;
      window_status = slow_start;
      cwnd = max_dlen;
      ssthresh = max_swindow_size / 2;
    };
    sending_buf = heap;
    sending_len = 0;
    have_send_len = 0;
    is_retransing = false;
  };
  receiver = record {
    wnd_recv = record {
      remain_size = max_rwindow_size;
      recv_buf = heap;
      mark = memset heap 0 0 max_rwindow_size;
      expect_seq = 1;
    };
    received_buf = heap;
    received_len = 0;
  };
  packet_fin = none;
}

unfoldable pub tju_bind : Process → ℕ → SockAddr → Process
tju_bind p i addr = put_sock p i (record (p.socks i) { bind_addr = addr })

unfoldable pub tju_listen : Process → ℕ → Process
tju_listen p i =
    let s = p.socks i in
    record (put_sock p i (record s { state = listen })) {
      queues = init_queue p.queues;
      tables = record p.tables {
        listen_socks =
            put_at p.tables.listen_socks (cal_hash s.bind_addr.ip s.bind_addr.port 0 0) (some i);
      };
    }

-- `SYN_ACK` to the sender of the packet.
abbrev pub syn_ack_packet : Memory → Memory → Memory
syn_ack_packet heap pkt =
    control_packet heap (get_dst pkt) (get_src pkt) server_isn (u32 (get_seq pkt + 1)) syn_ack_flags
      1

-- The socket of a connection that is half open.
abbrev pub half_open : Sock → Memory → Sock
half_open s pkt = record s {
  state = syn_recv;
  established_local_addr = s.bind_addr;
  established_remote_addr = record { ip = client_ip; port = get_src pkt };
}

-- A SYN: the SYN_ACK goes out, and the copy of the socket enters the first queue if its cell is free.
unfoldable pub listen_syn : Memory → ℕ → Process → ℕ → Memory → Process × List Memory
listen_syn heap clock p i pkt =
    let s = half_open (p.socks i) pkt in
    (
      record (put_sock p p.next s) {
        next = suc p.next;
        queues =
            en_syn_queue clock p.queues (hash_of s.established_local_addr s.established_remote_addr)
              p.next (syn_ack_packet heap pkt);
      },
      syn_ack_packet heap pkt ∷ [],
    )

abbrev pub accepted : Process → Option ℕ × Queues → Process
accepted p (none, q) = record p { queues = q }
accepted p (some i, q) =
    let s = p.socks i in
    record (put_sock p i (record s { state = established })) {
      queues = en_accept_queue q (hash_of s.established_local_addr s.established_remote_addr) i;
    }

-- The ACK of the SYN_ACK: the socket goes from the first queue to the second one.
unfoldable pub listen_ack : Process → Memory → Process
listen_ack p pkt = accepted p (get_from_syn p.queues pkt)

-- The LISTEN branch of `tju_handle_packet`, with the packets that it sends.
unfoldable pub handle_listen : Memory → ℕ → Process → ℕ → Memory → Process × List Memory
unfolding listen_syn listen_ack
handle_listen heap clock p i pkt =
    if get_flags pkt == syn_flag_mask
    then listen_syn heap clock p i pkt
    else (if get_flags pkt == ack_flag_mask && get_ack pkt == server_isn + 1
        then (listen_ack p pkt, [])
        else (p, []))

-- What a call that may wait or end the program has come to.
pub data Outcome : Type 0 where
  waits : Outcome
  exits : Outcome
  gives : Process → ℕ → Outcome

-- The table entry that `tju_accept` makes for the socket.
abbrev pub registered : Process → Queues → ℕ → Process
registered p q i =
    let s = p.socks i in
    record p {
      queues = q;
      tables = record p.tables {
        established_socks =
            put_at p.tables.established_socks
              (hash_of s.established_local_addr s.established_remote_addr) (some i);
      };
    }

abbrev pub established_at : Process → Option ℕ × Queues → Outcome
established_at p (none, q) = exits
established_at p (some i, q) = gives (registered p q i) i

abbrev pub accept_outcome : Process → Option (Option ℕ × Queues) → Outcome
accept_outcome p none = waits
accept_outcome p (some r) = established_at p r

-- `tju_accept`, up to the start of the sending and the retransmitting thread of the socket.
unfoldable pub tju_accept : Process → Outcome
tju_accept p = accept_outcome p (get_from_accept p.queues)

abbrev pub connect_addr : SockAddr
connect_addr = record { ip = client_ip; port = 5678 }

abbrev pub syn_packet : Memory → SockAddr → Memory
syn_packet heap target =
    control_packet heap connect_addr.port target.port client_isn 0 syn_flag_mask 1

-- `tju_connect` before it waits: the SYN that it sends.
unfoldable pub connect_begin : Memory → Process → ℕ → SockAddr → Process × List Memory
connect_begin heap p i target = (
  record (put_sock p i
      (record (p.socks i) { established_local_addr = connect_addr; state = syn_sent })) {
        tables = record p.tables {
          established_socks =
              put_at p.tables.established_socks (hash_of connect_addr target) (some i);
        };
      },
  syn_packet heap target ∷ [],
)

abbrev pub is_established : State → Bool
is_established established = true
is_established _ = false

-- A round of its waiting loop. `none`: the loop is over, and the call goes on to `connect_end`;
-- otherwise the new `time_point` and what is sent.
unfoldable pub connect_wait : Process → ℕ → Memory → ℕ → ℕ → Option (ℕ × List Memory)
connect_wait p i packet_syn clock time_point =
    if is_established (p.socks i).state
    then none
    else (if leb 6000000 (clock - time_point)
        then some (clock, packet_syn ∷ [])
        else some (time_point, []))

-- `tju_connect` behind the loop, up to the start of its two threads.
unfoldable pub connect_end : Process → ℕ → SockAddr → Process
connect_end p i target = put_sock p i (record (p.socks i) { established_remote_addr = target })
