-- ===== src/Connection/Fresh.antt =====
-- A new socket and the invariants of its parts.
use tju_tcp.Common.{ℕ, ◌≤◌, arith, Memory}
use tju_tcp.Global.{Sock}
use tju_tcp.Timer.Rto.{IsTimely}
use tju_tcp.Send.Stream.{Sends}
use tju_tcp.Receive.Window.{Holds}
use tju_tcp.Ack.Congestion.{IsRunning}
use tju_tcp.Connection.{tju_socket}

-- A socket fresh from `tju_socket` is a sender with nothing to send and a receiver with nothing
-- received of any stream that begins with byte 1, and its timer interval and its congestion control
-- are in order, whatever `malloc` left in it.
pub tju_socket-Fresh :
    (stream : ℕ → ℕ) (limit : ℕ) (heap : Memory) (junk : Sock)
    → 1 ≤ limit
    → let s = tju_socket heap junk in
      Holds stream limit s.receiver
      × Sends stream 1 s.sender
      × IsTimely s.sender.wnd_send
      × IsRunning s.sender
unfolding tju_socket
tju_socket-Fresh stream limit heap junk more = (
  record {
    low = ground arith;
    reach = ground arith;
    room = ground arith;
    left_low = ground arith;
    left_high = ground arith;
    last = ground arith;
    within = λ i lt marked. absurd (marked (ground arith));
    marked = λ i lt marked. absurd (marked (ground arith));
    received = λ i lt. absurd (ground arith);
  },
  record {
    acked = ground arith;
    sent = ground arith;
    room = ground arith;
    base = ground arith;
    next = ground arith;
    content = λ i lt. absurd (ground arith);
  },
  record {
    estmated = ground arith;
    dev = ground arith;
    interval = ground arith;
    value = ground arith;
  },
  record { status = cc; cwnd = ground arith; same = ground arith },
)
