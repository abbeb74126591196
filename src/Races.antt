-- ===== src/Races.antt =====
-- What the threads see of each other inside a step of the other modules. `sending_thread` reads the
-- window before it takes `send_lock`, `retrans_thread` reads it under the lock, and the handler of an
-- ACK writes it without the lock. Here these reads and writes are steps of their own.
pub mod Reads
pub mod Interference
pub mod Timerless
pub mod Torn
mod Tests
use mathlib.Core.Option
use tju_tcp.Common.{
  ℕ, suc, ◌+◌, ◌-◌, ◌^◌, ◌≤◌, ◌<◌, ◌≡◌, Option, none, some, [], Memory, u32, sub32, ltb, ◌==◌,
  if◌then◌else◌,
}
use tju_tcp.Global.{max_sock_buf_size, Timeval, Sender, SenderWindow, Itimerval}
use tju_tcp.Packet.{get_ack}
use tju_tcp.Timer.{Timer, sigalrm}
use tju_tcp.Send.{Pass, returned, tju_send_round, min_c, may_send, send_loop, keep_nextseq}
use tju_tcp.Retransmit.{Cursor, Resent, retrans_thread}
use tju_tcp.Ack.{handle_ack}

-- What `sending_thread` reads before it locks.
pub record Snapshot : Type 0 where
  pub wnd_size : ℕ
  pub wnd_ack_cnt : ℕ
  pub wnd_base : ℕ
  pub wnd_nextseq : ℕ

-- The condition of the thread and its four reads.
unfoldable pub look : Sender → Option Snapshot
look s =
    if may_send s
    then some (record {
      wnd_size = s.window_size;
      wnd_ack_cnt = s.ack_cnt;
      wnd_base = s.base;
      wnd_nextseq = s.nextseq;
    })
    else none

-- `min(sock->sending_len,wnd_ack_cnt+wnd_size)`
abbrev pub tmp_len : Snapshot → Sender → ℕ
tmp_len n s = min_c s.sending_len (u32 (n.wnd_ack_cnt + n.wnd_size))

-- The part of the thread under the lock, with what it has read before; the socket may have changed.
unfoldable pub send_locked : Memory → ℕ → ℕ → Timeval → Snapshot → Sender → Timer → Option Pass
send_locked heap src dst now n s t = Option.map keep_nextseq (
    send_loop heap src dst (suc (tmp_len n s - s.have_send_len)) now n.wnd_base (tmp_len n s)
      (record { sender = s; seq = n.wnd_nextseq; timer = t; packets = [] }))

-- What other threads may do between the reads and the lock: an ACK of something sent is handled, the
-- application writes more of the stream, the timer fires, or `retrans_thread` has its round. `written`
-- is the number of the next byte of the application.
module _ (heap : Memory) (src dst : ℕ) (stream : ℕ → ℕ) (total : ℕ) where
  pub data Between (s : Sender) (t : Timer) (written : ℕ) : Sender → Timer → ℕ → Type 0 where
    nothing : Between s t written s t written
    acked :
        {s1 s2 : Sender} {t1 t2 : Timer} {w : ℕ} (now : Timeval) (pkt : Memory)
        → Between s t written s1 t1 w
        → get_ack pkt ≤ s1.nextseq
        → handle_ack heap now s1 t1 pkt ≡ some (s2, t2)
        → Between s t written s2 t2 w
    wrote :
        {s1 s2 : Sender} {t1 : Timer} {w : ℕ} (buffer : Memory) (len : ℕ)
        → Between s t written s1 t1 w
        → s1.sending_len < max_sock_buf_size
        → len ≤ max_sock_buf_size - s1.sending_len
        → w + len ≤ total
        → ((i : ℕ) → i < len → buffer i ≡ stream (w + i))
        → tju_send_round s1 buffer len ≡ returned s2
        → Between s t written s2 t1 (w + len)
    fired :
        {s1 : Sender} {t1 : Timer} {w : ℕ} (v : Itimerval)
        → Between s t written s1 t1 w
        → t1.armed ≡ some v
        → Between s t written s1 (sigalrm v t1) w
    resent :
        {s1 : Sender} {t1 : Timer} {w : ℕ} (r : Resent)
        → Between s t written s1 t1 w
        → retrans_thread heap src dst s1 t1 ≡ some r
        → Between s t written r.sender r.timer w

-- The two writes of the handler that slide the window.
abbrev pub add_ack_cnt : ℕ → SenderWindow → SenderWindow
add_ack_cnt ack w = record w { ack_cnt = u32 (w.ack_cnt + sub32 ack w.base) }

abbrev pub set_base : ℕ → SenderWindow → SenderWindow
set_base ack w = record w { base = ack }

-- The copies that `retrans_thread` makes under the lock, when `ack_cnt` and `have_send_len` are read
-- from one state and `base` from a later one.
abbrev pub read_cursor : Sender → Sender → Timer → Cursor
read_cursor s later t = record {
  wnd_ack_cnt = s.ack_cnt;
  wnd_base = later.base;
  resent = record { sender = later; timer = t; packets = [] };
}
