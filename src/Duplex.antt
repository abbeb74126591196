-- ===== src/Duplex.antt =====
-- An established connection that carries data both ways: two processes, each with the socket of its
-- end and its timer, and a network that loses, repeats and reorders packets. Every packet that arrives
-- goes through `tju_handle_packet`, which may answer it.
-- A step is a critical section, a handler, or a call of the application, of one of the two.
pub mod Handling
pub mod Invariant
pub mod Base
pub mod Live
pub mod Watched
pub mod Threads
pub mod Resending
pub mod Acts
pub mod Arrivals
pub mod Steps
pub mod Delivery
pub mod Progress
pub mod Ways
pub mod Rounds
pub mod Complete
pub mod Pipes
pub mod Queues
pub mod Tests
use tju_tcp.Common.{ℕ, ◌+◌, ◌-◌, ◌<◌, ◌≤◌, ◌≡◌, some, List, [], ◌∷◌, ◌++◌, Memory}
use tju_tcp.Global.{
  established, max_sock_buf_size, Timeval, Itimerval, Sender, Receiver, SockAddr, Sock,
}
use tju_tcp.Timer.{Timer, sigalrm}
use tju_tcp.Send.{Pass, sending_thread, returned, tju_send_round}
use tju_tcp.Retransmit.{Resent, retrans_thread}
use tju_tcp.Receive.{tju_recv}
use tju_tcp.Handle.{Effect, sends, enters, sleeps, starts_close, Handled, tju_handle_packet}
use tju_tcp.Connection.{tju_socket}

-- `inbox` has every packet that the peer has sent; `written` is the number of the next byte for
-- `tju_send`, and `delivered` what `tju_recv` has given.
pub record Host : Type 0 where
  pub sock : Sock
  pub timer : Timer
  pub inbox : List Memory
  pub written : ℕ
  pub delivered : List ℕ

pub record Link : Type 0 where
  pub left : Host
  pub right : Host

-- The packets that a handler has handed to `sendToLayer3`.
abbrev pub sent_by : List Effect → List Memory
sent_by [] = []
sent_by (sends pkt ∷ es) = pkt ∷ sent_by es
sent_by (enters _ ∷ es) = sent_by es
sent_by (sleeps _ ∷ es) = sent_by es
sent_by (starts_close ∷ es) = sent_by es

abbrev pub local_port : Host → ℕ
local_port h = h.sock.established_local_addr.port

abbrev pub remote_port : Host → ℕ
remote_port h = h.sock.established_remote_addr.port

abbrev pub with_sender : Host → Sender → Timer → Host
with_sender h s t = record h { sock = record h.sock { sender = s }; timer = t }

abbrev pub gets : Host → List Memory → Host
gets h packets = record h { inbox = h.inbox ++ packets }

-- A step of `me`, whose application writes the bytes of `stream`, those before `total`. The peer gets
-- what is sent.
-- A call of `tju_send` is a step if the sending buffer has room for all its bytes, which it then appends
-- in one pass; the pass for a call with more bytes (tju_tcp.c, lines 239 to 245) repeats some of them, as
-- Send.Buffer shows, and is no step. A signal comes only from a timer that is armed.
module _ (heap : Memory) (stream : ℕ → ℕ) (total : ℕ) where
  pub data Act (me peer : Host) : Host → Host → Type 0 where
    writes_data :
        (s : Sender) (buffer : Memory) (len : ℕ)
        → me.sock.sender.sending_len < max_sock_buf_size
        → len ≤ max_sock_buf_size - me.sock.sender.sending_len
        → me.written + len ≤ total
        → ((t : ℕ) → t < len → buffer t ≡ stream (me.written + t))
        → tju_send_round me.sock.sender buffer len ≡ returned s
        → Act me peer (record (with_sender me s me.timer) { written = me.written + len }) peer
    sends_data :
        (now : Timeval) (p : Pass)
        → sending_thread heap (local_port me) (remote_port me) now me.sock.sender me.timer ≡ some p
        → Act me peer (with_sender me p.sender p.timer) (gets peer p.packets)
    resends_data :
        (r : Resent)
        → retrans_thread heap (local_port me) (remote_port me) me.sock.sender me.timer ≡ some r
        → Act me peer (with_sender me r.sender r.timer) (gets peer r.packets)
    timer_fires :
        (v : Itimerval)
        → me.timer.armed ≡ some v
        → Act me peer (record me { timer = sigalrm v me.timer }) peer
    packet_arrives :
        (now : Timeval) (before after : List Memory) (pkt : Memory) (r : Handled)
        → me.inbox ≡ before ++ pkt ∷ after
        → tju_handle_packet heap me.timer now me.sock pkt ≡ some r
        → Act me peer (record me { sock = r.sock; timer = r.timer }) (gets peer (sent_by r.effects))
    reads_data :
        (len : ℕ) (out : List ℕ) (r : Receiver)
        → tju_recv heap me.sock.receiver len ≡ some (out, r)
        → Act me peer
            (record me { sock = record me.sock { receiver = r }; delivered = me.delivered ++ out })
            peer

-- An end as `tju_socket` and the handshake leave it.
abbrev pub begin_host : Memory → Sock → Timer → SockAddr → SockAddr → Host
begin_host heap junk t local_addr remote_addr = record {
  sock = record (tju_socket heap junk) {
    state = established;
    established_local_addr = local_addr;
    established_remote_addr = remote_addr;
  };
  timer = t;
  inbox = [];
  written = 1;
  delivered = [];
}

-- Each side has the stream that it writes, and how many of its bytes.
module _ (heap : Memory) (stream_l : ℕ → ℕ) (total_l : ℕ) (stream_r : ℕ → ℕ) (total_r : ℕ) where
  pub data Step (k : Link) : Link → Type 0 where
    left_acts :
        (me peer : Host)
        → Act heap stream_l total_l k.left k.right me peer
        → Step k (record { left = me; right = peer })
    right_acts :
        (me peer : Host)
        → Act heap stream_r total_r k.right k.left me peer
        → Step k (record { left = peer; right = me })

  pub data Reach (k : Link) : Link → Type 0 where
    here : Reach k k
    next : {m n : Link} → Reach k m → Step m n → Reach k n

  pub Reach-trans : {k m n : Link} → Reach k m → Reach m n → Reach k n
  Reach-trans r here = r
  Reach-trans r (next q st) = next (Reach-trans r q) st
