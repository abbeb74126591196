-- ===== src/Global.antt =====
-- inc/global.h: the constants, and the structures that the other parts share.
-- A structure's `pthread` locks and condition variables hold no data of the protocol and are left
-- out; `timer.c` runs each critical section of a lock as one step.
use tju_tcp.Common.{ℕ, ◌*◌, Bool, Option, Memory}

abbrev pub max_dlen : ℕ
max_dlen = 1375

abbrev pub max_len : ℕ
max_len = 1400

abbrev pub max_swindow_size : ℕ
max_swindow_size = 32 * max_dlen

abbrev pub max_rwindow_size : ℕ
max_rwindow_size = 32 * max_dlen

abbrev pub max_sock_buf_size : ℕ
max_sock_buf_size = 6000 * max_len

abbrev pub server_isn : ℕ
server_isn = 0

abbrev pub client_isn : ℕ
client_isn = 0

abbrev pub fin_seq : ℕ
fin_seq = 0

abbrev pub tcp_rto_min : ℕ
tcp_rto_min = 200000

abbrev pub no_flag : ℕ
no_flag = 0

-- The connection states.
pub data State : Type 0 where
  closed listen syn_sent syn_recv established : State
  fin_wait_1 fin_wait_2 close_wait closing last_ack time_wait : State

-- The states of congestion control.
pub data WindowStatus : Type 0 where
  slow_start congestion_avoidance fast_recovery timeout : WindowStatus

-- `struct timeval`
pub record Timeval : Type 0 where
  pub tv_sec : ℕ
  pub tv_usec : ℕ

-- `struct itimerval`
pub record Itimerval : Type 0 where
  pub it_interval : Timeval
  pub it_value : Timeval

-- `sender_window_t`
pub record SenderWindow : Type 0 where
  pub window_size : ℕ
  pub ack_cnt : ℕ
  pub base : ℕ
  pub nextseq : ℕ
  pub same_ack_cnt : ℕ
  pub estmated_rtt : ℕ
  pub dev_rtt : ℕ
  pub is_estimating_rtt : Bool
  pub rtt_expect_ack : ℕ
  pub send_time : Timeval
  pub timeout : Itimerval
  pub rwnd : ℕ
  pub window_status : WindowStatus
  pub cwnd : ℕ
  pub ssthresh : ℕ

-- `receiver_window_t`: `recv_buf` and `mark` have `max_rwindow_size` bytes each.
pub record ReceiverWindow : Type 0 where
  pub remain_size : ℕ
  pub recv_buf : Memory
  pub mark : Memory
  pub expect_seq : ℕ

-- `tju_sock_addr`
pub record SockAddr : Type 0 where
  pub ip : ℕ
  pub port : ℕ

-- The fields of `tju_tcp_t` that sending uses.
pub record Sender : Type 0 where
  pub wnd_send : SenderWindow
  pub open wnd_send use *
  pub sending_buf : Memory
  pub sending_len : ℕ
  pub have_send_len : ℕ
  pub is_retransing : Bool

-- The fields of `tju_tcp_t` that receiving uses.
pub record Receiver : Type 0 where
  pub wnd_recv : ReceiverWindow
  pub open wnd_recv use *
  pub received_buf : Memory
  pub received_len : ℕ

-- `tju_tcp_t`, its fields grouped by the part that uses them. `packet_fin` is null or a packet.
pub record Sock : Type 0 where
  pub state : State
  pub bind_addr : SockAddr
  pub established_local_addr : SockAddr
  pub established_remote_addr : SockAddr
  pub sender : Sender
  pub receiver : Receiver
  pub packet_fin : Option Memory
