-- ===== src/Session.antt =====
-- A whole session, from `tju_connect` and `tju_listen` to the bytes that both applications read.
pub mod Dispatch
pub mod Arrivals
mod Tests
use tju_tcp.Common.{
  ℕ, ◌+◌, ◌^◌, ◌≤◌, ◌<◌, ◌≡◌, refl, ◌∙◌, sym, ap, subst, List, [], arith, Memory, slice,
}
use tju_tcp.Global.{established, Timeval, Sender, Receiver, SockAddr, Sock}
use tju_tcp.Kernel.{server_ip}
use tju_tcp.Timer.{Timer}
use tju_tcp.Receive.Window.{NoWrap}
use tju_tcp.Transfer.Invariant.{IsReliable, fresh-IsReliable, IsReliable-delivered}
use tju_tcp.Connection.{Process, put_sock, tju_socket, connect_addr, connect_end}
use tju_tcp.Connection.Server.{Accepts}
use tju_tcp.Connection.Handshake.{Shakes, three_way_handshake}
use tju_tcp.Duplex.{Host, Link, Reach, local_port, remote_port}
use tju_tcp.Ack.Opening.{IsLive}
use tju_tcp.Duplex.Watched.{IsWatched, tju_socket-IsWatched}
use tju_tcp.Duplex.Live.{tju_socket-IsLive}
use tju_tcp.Duplex.Invariant.{IsDuplex, IsOpen, ends}
use tju_tcp.Duplex.Complete.{Completes, IsDuplex-Completes}
use tju_tcp.Duplex.Steps.{Reach-IsDuplex}

-- A process with one connected socket, before anything is sent.
abbrev pub host : Sock → Timer → Host
host s t = record { sock = s; timer = t; inbox = []; written = 1; delivered = [] }

-- The client's socket, once `tju_connect` returns.
abbrev pub connected_sock : Process → ℕ → Sock → SockAddr → Sock
connected_sock p j s target = (connect_end (put_sock p j s) j target).socks j

base-le-expect_seq :
    (heap : Memory) (junk junk' : Sock) (s : Sender) (r : Receiver)
    → s ≡ (tju_socket heap junk).sender
    → r ≡ (tju_socket heap junk').receiver
    → s.base ≤ r.expect_seq
unfolding tju_socket
base-le-expect_seq heap junk junk' s r es er =
    omega (arith, ap (λ (s : Sender). s.base) es, ap (λ (r : Receiver). r.expect_seq) er)

-- Two sockets that send and receive as two that `tju_socket` has made.
fresh-IsDuplex :
    (heap : Memory) (stream_a : ℕ → ℕ) (total_a : ℕ) (stream_b : ℕ → ℕ) (total_b : ℕ)
    (junk_a junk_b a b : Sock) (t t' : Timer)
    → 1 ≤ total_a
    → 1 ≤ total_b
    → IsOpen (host a t)
    → IsOpen (host b t')
    → a.sender ≡ (tju_socket heap junk_a).sender
    → a.receiver ≡ (tju_socket heap junk_a).receiver
    → b.sender ≡ (tju_socket heap junk_b).sender
    → b.receiver ≡ (tju_socket heap junk_b).receiver
    → IsDuplex stream_a total_a stream_b total_b (host a t) (host b t')
fresh-IsDuplex heap stream_a total_a stream_b total_b junk_a junk_b a b t t' one one' op op' sa ra
      sb rb =
    record {
      open_a = op;
      open_b = op';
      forth = from stream_a total_a junk_a junk_b t _ _ one (sym sa) (sym rb);
      back = from stream_b total_b junk_b junk_a t' _ _ one' (sym sb) (sym ra);
      to_b = tt;
      to_a = tt;
      acked_a = base-le-expect_seq heap _ _ a.sender b.receiver sa rb;
      acked_b = base-le-expect_seq heap _ _ b.sender a.receiver sb ra;
      live_a = subst IsLive (sym sa) (tju_socket-IsLive heap junk_a);
      live_b = subst IsLive (sym sb) (tju_socket-IsLive heap junk_b);
      watched_a = subst (λ s. IsWatched s t) (sym sa) (tju_socket-IsWatched heap junk_a t);
      watched_b = subst (λ s. IsWatched s t') (sym sb) (tju_socket-IsWatched heap junk_b t');
    }
  where
    from :
        (stream : ℕ → ℕ) (total : ℕ) (junk junk' : Sock) (t : Timer) (s : Sender) (r : Receiver)
        → 1 ≤ total
        → (tju_socket heap junk).sender ≡ s
        → (tju_socket heap junk').receiver ≡ r
        → IsReliable stream total (record {
          sender = s;
          timer = t;
          receiver = r;
          sent = [];
          acks = [];
          written = 1;
          delivered = [];
        })
    from stream total junk junk' t s r one es er =
        subst
          (λ (x : Sender × Receiver). IsReliable stream total (record {
            sender = x.0;
            timer = t;
            receiver = x.1;
            sent = [];
            acks = [];
            written = 1;
            delivered = [];
          }))
          (λ i. (es i, er i)) (fresh-IsReliable heap stream total junk junk' t one)

connected_sock_eq :
    (p : Process) (j : ℕ) (s : Sock) (target : SockAddr)
    → connected_sock p j s target ≡ record s { established_remote_addr = target }
unfolding connect_end
connected_sock_eq p j s target = ground arith

-- The two ends when `tju_connect` and `tju_accept` have returned.
abbrev pub connection :
    {heap : Memory} {clock : ℕ} {now : Timeval} {t : Timer} {server client : Process} {i j : ℕ}
    {addr : SockAddr}
    → Shakes heap clock now t server client i j addr
    → Timer
    → Link
connection {server = server} {j = j} {addr = addr} h t' = record {
  left = host (connected_sock h.client' j h.handled.sock addr) h.handled.timer;
  right = host (h.accepts.process.socks server.next) t';
}

module _ (heap : Memory) (stream_c : ℕ → ℕ) (total_c : ℕ) (stream_s : ℕ → ℕ) (total_s : ℕ)
    (small_c : NoWrap total_c) (small_s : NoWrap total_s) (some_c : 1 ≤ total_c)
    (some_s : 1 ≤ total_s) where
  -- A server listens with a socket that `tju_socket` has made and `tju_bind` has bound to its
  -- address and a port, and a client connects to it with a socket that `tju_socket` has made. They
  -- have exchanged SYN, SYN_ACK and ACK, and `tju_connect` and `tju_accept` have returned. From
  -- then on both applications write, in calls of `tju_send` that find room for all their bytes in
  -- the sending buffer, and read, over a network that loses, repeats and reorders packets. Whatever
  -- has happened: what each has read is the beginning of what the other has written, in order, with
  -- no byte missing, repeated or changed, and both sockets are ESTABLISHED; and there is a way on
  -- to a state in which each has read all that the other had written, or to one where the interval
  -- of a side is a second or more, or zero, so that `setitimer` starts no timer with it. The
  -- streams are shorter than 2 ^ 32 less a window.
  pub handshake-exchanged :
      (clock : ℕ) (now : Timeval) (t t' : Timer) (server client : Process) (i j b : ℕ)
      (junk_s junk_c : Sock) (k : Link)
      → b < 2 ^ 16
      → server.socks i
        ≡ record (tju_socket heap junk_s) { bind_addr = record { ip = server_ip; port = b } }
      → client.socks j ≡ tju_socket heap junk_c
      → (h : Shakes heap clock now t server client i j (record { ip = server_ip; port = b }))
      → Reach heap stream_c total_c stream_s total_s (connection h t') k
      → ((n : ℕ) × (k.right.delivered ≡ slice stream_c 1 n) × (1 + n ≤ k.left.written))
        × ((n : ℕ) × (k.left.delivered ≡ slice stream_s 1 n) × (1 + n ≤ k.right.written))
        × (k.left.sock.state ≡ established)
        × (k.right.sock.state ≡ established)
        × Completes heap stream_c total_c stream_s total_s k
  handshake-exchanged clock now t t' server client i j b junk_s junk_c k lt bound fresh h reach =
      let a = connected_sock_eq h.client' j h.handled.sock (record { ip = server_ip; port = b }) in
      let begun =
        fresh-IsDuplex heap stream_c total_c stream_s total_s junk_c junk_s
          (connection h t').left.sock (connection h t').right.sock h.handled.timer t' some_c some_s
          (record {
            state = ap (λ (s : Sock). s.state) a ∙ h.connected;
            local =
                rw
                  (
                    ap (λ (s : Sock). s.established_local_addr.port) a,
                    ap (λ (l : SockAddr). l.port) h.local,
                  )
                  (omega arith);
            remote = rw (ap (λ (s : Sock). s.established_remote_addr.port) a) lt;
          })
          (record {
            state = h.accepts.state;
            local = rw (ap (λ (l : SockAddr). l.port) h.accepts.local) lt;
            remote = rw (ap (λ (l : SockAddr). l.port) h.accepts.remote) (omega arith);
          })
          (ap (λ (s : Sock). s.sender) a ∙ h.sender ∙ ap (λ (s : Sock). s.sender) fresh)
          (ap (λ (s : Sock). s.receiver) a ∙ h.receiver ∙ ap (λ (s : Sock). s.receiver) fresh)
          (h.accepts.sender ∙ ap (λ (s : Sock). s.sender) bound)
          (h.accepts.receiver ∙ ap (λ (s : Sock). s.receiver) bound) in
      let d =
        Reach-IsDuplex heap stream_c total_c stream_s total_s small_c small_s (connection h t')
          begun k reach in
      (
        IsReliable-delivered stream_c total_c (ends k.left k.right) d.forth,
        IsReliable-delivered stream_s total_s (ends k.right k.left) d.back,
        d.open_a.state,
        d.open_b.state,
        IsDuplex-Completes heap stream_c total_c stream_s total_s small_c small_s k now d,
      )
