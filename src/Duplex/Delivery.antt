-- ===== src/Duplex/Delivery.antt =====
-- Reliable delivery both ways at once.
use tju_tcp.Common.{ℕ, ◌+◌, ◌^◌, ◌≤◌, ◌<◌, ◌≡◌, refl, some, List, ◌∷◌, ◌++◌, arith, Memory, slice}
use tju_tcp.Global.{established, Timeval, SockAddr, Sock}
use tju_tcp.Timer.{Timer}
use tju_tcp.Send.{Pass, sending_thread}
use tju_tcp.Send.Loop.{sending_thread-Covers}
use tju_tcp.Retransmit.{Resent, retrans_thread}
use tju_tcp.Receive.Window.{NoWrap}
use tju_tcp.Handle.{Handled, tju_handle_packet}
use tju_tcp.Transfer.Resends.{retrans_thread-returns}
use tju_tcp.Transfer.Invariant.{fresh-IsReliable, IsReliable-delivered}
use tju_tcp.Duplex.{Host, Link, begin_host, Reach, local_port, remote_port}
use tju_tcp.Connection.{tju_socket}
use tju_tcp.Duplex.Watched.{tju_socket-IsWatched}
use tju_tcp.Duplex.Live.{tju_socket-IsLive}
use tju_tcp.Duplex.Steps.{arrival-at, Reach-IsDuplex}
use tju_tcp.Duplex.Invariant.{IsDuplex, IsDuplex-swap, ends}

-- What a host can do does not fail: every packet in its inbox is handled when it arrives, and a round
-- of each of its threads returns.
abbrev pub Runs : Memory → Host → Type 0
Runs heap h =
    ((now : Timeval) (before after : List Memory) (pkt : Memory)
      → h.inbox ≡ before ++ pkt ∷ after
      → (r : Handled) × (tju_handle_packet heap h.timer now h.sock pkt ≡ some r))
    × ((now : Timeval)
        → (p : Pass) × (sending_thread heap (local_port h) (remote_port h) now h.sock.sender h.timer
            ≡ some p))
    × ((r : Resent) × (retrans_thread heap (local_port h) (remote_port h) h.sock.sender h.timer
          ≡ some r))

IsDuplex-Runs :
    (heap : Memory) (stream_a : ℕ → ℕ) (total_a : ℕ) (stream_b : ℕ → ℕ) (total_b : ℕ)
    (small_a : NoWrap total_a) (small_b : NoWrap total_b) (a b : Host)
    → IsDuplex stream_a total_a stream_b total_b a b
    → Runs heap a
IsDuplex-Runs heap stream_a total_a stream_b total_b small_a small_b a b h = (
  λ now before after pkt at.
      let (r, found, _) =
        arrival-at heap stream_a total_a stream_b total_b small_a small_b a b now before after pkt h
          at in
      (r, found),
  λ now.
      let (p, found, _, _, _, _) =
        sending_thread-Covers stream_a heap (local_port a) (remote_port a) h.open_a.local
          h.open_a.remote now h.forth.origin a.sock.sender a.timer h.forth.sends
          (omega (arith, h.forth.end, h.forth.within, small_a)) in
      (p, found),
  retrans_thread-returns stream_a heap (local_port a) (remote_port a) h.open_a.local h.open_a.remote
      h.forth.origin a.sock.sender a.timer h.forth.sends
      (omega (arith, h.forth.end, h.forth.within, small_a)),
)

-- The left side writes `stream_l` and the right side `stream_r`.
module _ (heap : Memory) (stream_l : ℕ → ℕ) (total_l : ℕ) (stream_r : ℕ → ℕ) (total_r : ℕ)
    (small_l : NoWrap total_l) (small_r : NoWrap total_r) (addr_l addr_r : SockAddr)
    (port_l : addr_l.port < 2 ^ 16) (port_r : addr_r.port < 2 ^ 16) where
  module _ (junk_l junk_r : Sock) (timer_l timer_r : Timer) (some_l : 1 ≤ total_l)
      (some_r : 1 ≤ total_r) where
    abbrev pub begin : Link
    begin = record {
      left = begin_host heap junk_l timer_l addr_l addr_r;
      right = begin_host heap junk_r timer_r addr_r addr_l;
    }

    pub begin-IsDuplex : IsDuplex stream_l total_l stream_r total_r begin.left begin.right
    unfolding tju_socket
    begin-IsDuplex = record {
      open_a = record { state = refl; local = port_l; remote = port_r };
      open_b = record { state = refl; local = port_r; remote = port_l };
      forth = fresh-IsReliable heap stream_l total_l junk_l junk_r timer_l some_l;
      back = fresh-IsReliable heap stream_r total_r junk_r junk_l timer_r some_r;
      to_b = tt;
      to_a = tt;
      acked_a = omega arith;
      acked_b = omega arith;
      live_a = tju_socket-IsLive heap junk_l;
      live_b = tju_socket-IsLive heap junk_r;
      watched_a = tju_socket-IsWatched heap junk_l timer_l;
      watched_b = tju_socket-IsWatched heap junk_r timer_r;
    }

    -- Two established sockets that `tju_socket` has made, at two ends, whose applications both
    -- write, each a stream shorter than 2 ^ 32 less a window and in calls of `tju_send` that find
    -- room for all their bytes in the sending buffer, and both read; between them a network that
    -- loses, repeats and reorders packets, data and ACKs alike, and every packet that arrives goes
    -- through `tju_handle_packet`. Whatever has happened: what each application has read is the
    -- beginning of what the other has written, in order, with no byte missing, repeated or changed,
    -- and both sockets are still ESTABLISHED.
    pub Reach-exchanged :
        (k : Link)
        → Reach heap stream_l total_l stream_r total_r begin k
        → ((n : ℕ) × (k.right.delivered ≡ slice stream_l 1 n) × (1 + n ≤ k.left.written))
          × ((n : ℕ) × (k.left.delivered ≡ slice stream_r 1 n) × (1 + n ≤ k.right.written))
          × (k.left.sock.state ≡ established)
          × (k.right.sock.state ≡ established)
    Reach-exchanged k reach =
        let h =
          Reach-IsDuplex heap stream_l total_l stream_r total_r small_l small_r begin begin-IsDuplex
            k reach in
        (
          IsReliable-delivered stream_l total_l (ends k.left k.right) h.forth,
          IsReliable-delivered stream_r total_r (ends k.right k.left) h.back,
          h.open_a.state,
          h.open_b.state,
        )

    -- In every such run no step of either side fails: any packet that was sent to it, data or ACK, is
    -- handled by `tju_handle_packet` when it arrives, and a round of `sending_thread` and one of
    -- `retrans_thread` return, all without an access outside a buffer.
    pub Reach-Runs :
        (k : Link)
        → Reach heap stream_l total_l stream_r total_r begin k
        → Runs heap k.left × Runs heap k.right
    Reach-Runs k reach =
        let h =
          Reach-IsDuplex heap stream_l total_l stream_r total_r small_l small_r begin begin-IsDuplex
            k reach in
        (
          IsDuplex-Runs heap stream_l total_l stream_r total_r small_l small_r k.left k.right h,
          IsDuplex-Runs heap stream_r total_r stream_l total_l small_r small_l k.right k.left
              (IsDuplex-swap _ _ _ _ k.left k.right h),
        )
