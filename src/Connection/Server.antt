-- ===== src/Connection/Server.antt =====
-- The server's part of the three-way handshake, up to `tju_accept`.
use tju_tcp.Common.{ℕ, ◌^◌, ◌<◌, ◌≡◌, refl, ap, some, arith, Memory, pos}
use tju_tcp.Global.{Sock, established, SockAddr}
use tju_tcp.Packet.{get_src, get_dst}
use tju_tcp.Kernel.{server_ip, client_ip, cal_hash, max_sock}
use tju_tcp.Syn.{Queues, hash_of, get_from_syn, get_from_accept}
use tju_tcp.Connection.{
  Process, tju_listen, listen_syn, listen_ack, tju_accept, Outcome, gives, registered, accepted,
  half_open, syn_ack_packet,
}
use tju_tcp.Connection.Backlog.{
  after_syn, after_both, get_from_syn-after_syn, get_from_accept-after_both,
}

-- The outcome of `tju_accept` is the socket `i` of the connection between `l` and `r`, which sends and
-- receives as the listening socket `s` would.
pub record Accepts (o : Outcome) (i : ℕ) (l r : SockAddr) (s : Sock) : Type 0 where
  pub process : Process
  pub returned : o ≡ gives process i
  pub state : (process.socks i).state ≡ established
  pub local : (process.socks i).established_local_addr ≡ l
  pub remote : (process.socks i).established_remote_addr ≡ r
  pub sender : (process.socks i).sender ≡ s.sender
  pub receiver : (process.socks i).receiver ≡ s.receiver
  pub entered : process.tables.established_socks (hash_of l r) ≡ some i

-- The server's queues and sockets when the SYN has come, and when the ACK of the SYN_ACK has.
module _ (clock : ℕ) (p : Process) (i : ℕ) (heap syn : Memory) where
  abbrev pub from_syn : Process
  from_syn = (listen_syn heap clock (tju_listen p i) i syn).0

  abbrev pub peer : SockAddr
  peer = record { ip = client_ip; port = get_src syn }

  sock-from_syn : from_syn.socks p.next ≡ half_open (p.socks i) syn
  unfolding listen_syn tju_listen
  sock-from_syn = ground arith

module _ (clock : ℕ) (p : Process) (i : ℕ) (heap syn ack : Memory) (k : ℕ) (lt : k < max_sock)
    (e : hash_of (p.socks i).bind_addr (peer clock p i heap syn) ≡ pos k)
    (e' : cal_hash server_ip (get_dst ack) client_ip (get_src ack) ≡ pos k) where
  queues-from_syn :
      (from_syn clock p i heap syn).queues
      ≡ after_syn clock p.queues k p.next lt (syn_ack_packet heap syn) ack
  unfolding listen_syn tju_listen
  queues-from_syn = ground (arith, e)

  taken_from_syn : (get_from_syn (from_syn clock p i heap syn).queues ack).0 ≡ some p.next
  taken_from_syn =
      rw queues-from_syn
        (get_from_syn-after_syn clock p.queues k p.next lt (syn_ack_packet heap syn) ack e')

  abbrev pub from_ack : Process
  from_ack = listen_ack (from_syn clock p i heap syn) ack

  from_ack_eq :
      from_ack
      ≡ accepted
          (from_syn clock p i heap syn)
          (some p.next, (get_from_syn (from_syn clock p i heap syn).queues ack).1)
  unfolding listen_ack
  from_ack_eq =
      ap
        (λ x.
          accepted (from_syn clock p i heap syn)
            (x, (get_from_syn (from_syn clock p i heap syn).queues ack).1))
        taken_from_syn

  queues-from_ack :
      from_ack.queues ≡ after_both clock p.queues k p.next lt (syn_ack_packet heap syn) ack
  queues-from_ack = rw (from_ack_eq, (sock-from_syn clock p i heap syn), queues-from_syn, e) refl

  sock-from_ack : from_ack.socks p.next ≡ record (half_open (p.socks i) syn) { state = established }
  sock-from_ack = rw (from_ack_eq, (sock-from_syn clock p i heap syn)) (ground arith)

  pub tju_accept-from_ack :
      get_dst ack < 2 ^ 16
      → get_src ack < 2 ^ 16
      → Accepts
          (tju_accept from_ack)
          p.next
          (p.socks i).bind_addr
          (peer clock p i heap syn)
          (p.socks i)
  unfolding tju_accept
  tju_accept-from_ack hd hs = record {
    process = registered from_ack found.0 p.next;
    returned = rw found.1 refl;
    state = ap (λ (s : Sock). s.state) sock-from_ack;
    local = ap (λ (s : Sock). s.established_local_addr) sock-from_ack;
    remote = ap (λ (s : Sock). s.established_remote_addr) sock-from_ack;
    sender = ap (λ (s : Sock). s.sender) sock-from_ack;
    receiver = ap (λ (s : Sock). s.receiver) sock-from_ack;
    entered = rw (sock-from_ack, e) (ground arith);
  }
    where
      found : (rest : Queues) × (get_from_accept from_ack.queues ≡ some (some p.next, rest))
      found = rw queues-from_ack (
          get_from_accept-after_both clock p.queues k p.next lt (syn_ack_packet heap syn) ack hd hs)
