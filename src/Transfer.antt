-- ===== src/Transfer.antt =====
-- The two ends of a connection that carries data one way, with the network between them: the
-- functions of the other modules as steps of one system.
-- A step is a critical section or a handler. Packets that were sent may arrive at any time, in any
-- order, never, or again.
pub mod Packets
pub mod Resends
pub mod Invariant
pub mod Steps
pub mod Delivery
mod Tests
use tju_tcp.Common.{ℕ, ◌+◌, ◌-◌, ◌<◌, ◌≤◌, ◌≡◌, some, List, [], ◌∷◌, ◌++◌, Memory}
use tju_tcp.Global.{max_sock_buf_size, Timeval, Itimerval, Sender, Receiver, Sock}
use tju_tcp.Timer.{Timer, sigalrm}
use tju_tcp.Send.{Pass, sending_thread, returned, tju_send_round}
use tju_tcp.Retransmit.{Resent, retrans_thread}
use tju_tcp.Receive.{handle_data, tju_recv}
use tju_tcp.Ack.{handle_ack}
use tju_tcp.Handle.{ack_packet}
use tju_tcp.Connection.{tju_socket}

-- `sent` and `acks` are all packets that the two ends have sent; `written` is the number of the next
-- byte for `tju_send`, and `delivered` what `tju_recv` has given.
pub record Ends : Type 0 where
  pub sender : Sender
  pub timer : Timer
  pub receiver : Receiver
  pub sent : List Memory
  pub acks : List Memory
  pub written : ℕ
  pub delivered : List ℕ

-- Both ends as `tju_socket` leaves them.
abbrev pub begin : Memory → Sock → Timer → Ends
begin heap junk t = record {
  sender = (tju_socket heap junk).sender;
  timer = t;
  receiver = (tju_socket heap junk).receiver;
  sent = [];
  acks = [];
  written = 1;
  delivered = [];
}

-- The sender's ports are `src` and `dst`; `peer` has the other fields of the receiving socket. The
-- application writes the bytes of `stream`, those before `total`.
-- A call of `tju_send` is a step if the sending buffer has room for all its bytes, which it then appends
-- in one pass; the pass for a call with more bytes (tju_tcp.c, lines 239 to 245) repeats some of them, as
-- Send.Buffer shows, and is no step. A signal comes only from a timer that is armed.
module _ (heap : Memory) (src dst : ℕ) (peer : Sock) (stream : ℕ → ℕ) (total : ℕ) where
  pub data Step (e : Ends) : Ends → Type 0 where
    writes_data :
        (s : Sender) (buffer : Memory) (len : ℕ)
        → e.sender.sending_len < max_sock_buf_size
        → len ≤ max_sock_buf_size - e.sender.sending_len
        → e.written + len ≤ total
        → ((t : ℕ) → t < len → buffer t ≡ stream (e.written + t))
        → tju_send_round e.sender buffer len ≡ returned s
        → Step e (record e { sender = s; written = e.written + len })
    sends_data :
        (now : Timeval) (p : Pass)
        → sending_thread heap src dst now e.sender e.timer ≡ some p
        → Step e (record e { sender = p.sender; timer = p.timer; sent = e.sent ++ p.packets })
    resends_data :
        (r : Resent)
        → retrans_thread heap src dst e.sender e.timer ≡ some r
        → Step e (record e { sender = r.sender; timer = r.timer; sent = e.sent ++ r.packets })
    timer_fires :
        (v : Itimerval) → e.timer.armed ≡ some v → Step e (record e { timer = sigalrm v e.timer })
    data_arrives :
        (before after : List Memory) (pkt : Memory) (r : Receiver)
        → e.sent ≡ before ++ pkt ∷ after
        → handle_data heap e.receiver pkt ≡ some r
        → Step e (record e {
          receiver = r;
          acks = ack_packet heap (record peer { receiver = r }) ∷ e.acks;
        })
    ack_arrives :
        (now : Timeval) (before after : List Memory) (pkt : Memory) (s : Sender) (t : Timer)
        → e.acks ≡ before ++ pkt ∷ after
        → handle_ack heap now e.sender e.timer pkt ≡ some (s, t)
        → Step e (record e { sender = s; timer = t })
    reads_data :
        (len : ℕ) (out : List ℕ) (r : Receiver)
        → tju_recv heap e.receiver len ≡ some (out, r)
        → Step e (record e { receiver = r; delivered = e.delivered ++ out })

  pub data Reach (e : Ends) : Ends → Type 0 where
    here : Reach e e
    next : {d f : Ends} → Reach e d → Step d f → Reach e f
