-- ===== src/Connection/Handshake.antt =====
-- The three-way handshake, from `tju_connect` to `tju_accept`.
use tju_tcp.Common.{
  ℕ, ◌+◌, ◌^◌, ◌<◌, ◌≡◌, refl, ap, subst, ◌∙◌, some, [], ◌∷◌, arith, Memory, ℤ, pos, negsuc, u32,
}
use tju_tcp.Global.{Sock, syn_sent, established, SockAddr, Timeval}
use tju_tcp.Packet.{get_src, get_dst, get_seq, get_ack, syn_ack_flags, ack_flag_mask, syn_flag_mask}
use tju_tcp.Kernel.{server_ip, client_ip, cal_hash, max_sock}
use tju_tcp.Kernel.Bounds.{InTable, cal_hash-InTable}
use tju_tcp.Timer.{Timer}
use tju_tcp.Handle.{Handled, sends, reply, tju_handle_packet, handle_syn_sent}
use tju_tcp.Handle.Control.{Reads, control_packet-Reads, reply-Reads}
use tju_tcp.Connection.{
  Process, tju_listen, handle_listen, listen_syn, listen_ack, tju_accept, Outcome, connect_begin,
  connect_addr, syn_packet, syn_ack_packet,
}
use tju_tcp.Connection.Server.{Accepts, tju_accept-from_ack, from_syn}

syn_ack_packet-Reads :
    (heap pkt : Memory) (src dst seq ack flags : ℕ)
    → src < 2 ^ 16
    → dst < 2 ^ 16
    → Reads pkt src dst seq ack flags
    → Reads (syn_ack_packet heap pkt) dst src 0 (u32 (seq + 1)) syn_ack_flags
syn_ack_packet-Reads heap pkt src dst seq ack flags hs hd r = record {
  of_src = k.of_src ∙ r.of_dst;
  of_dst = k.of_dst ∙ r.of_src;
  of_seq = k.of_seq;
  of_ack = k.of_ack ∙ ap (λ q. u32 (q + 1)) r.of_seq;
  of_flags = k.of_flags;
}
  where
    k :
        Reads
          (syn_ack_packet heap pkt)
          (get_dst pkt)
          (get_src pkt)
          0
          (u32 (get_seq pkt + 1))
          syn_ack_flags
    k =
        control_packet-Reads heap (get_dst pkt) (get_src pkt) 0 (u32 (get_seq pkt + 1))
          syn_ack_flags 1 (omega (arith, r.of_dst)) (omega (arith, r.of_src)) (omega arith)
          (omega arith) (omega arith) (omega arith)

syn_packet-Reads :
    (heap : Memory) (b : ℕ)
    → b < 2 ^ 16
    → Reads
        (syn_packet heap (record { ip = server_ip; port = b }))
        connect_addr.port
        b
        0
        0
        syn_flag_mask
syn_packet-Reads heap b lt =
    control_packet-Reads heap 5678 b 0 0 syn_flag_mask 1 (omega arith) lt (omega arith)
      (omega arith) (omega arith) (omega arith)

-- A run of the handshake: the client's socket `j` connects to the server's socket `i`.
pub record Shakes (heap : Memory) (clock : ℕ) (now : Timeval) (t : Timer) (server client : Process)
    (i j : ℕ) (addr : SockAddr) : Type 0 where
  pub client' : Process
  pub server' : Process
  pub server'' : Process
  pub syn : Memory
  pub syn_ack : Memory
  pub ack : Memory
  pub handled : Handled
  -- The client sends SYN, and waits in SYN_SENT;
  pub first : connect_begin heap client j addr ≡ (client', syn ∷ [])
  -- the server that listens answers with SYN_ACK,
  pub second : handle_listen heap clock (tju_listen server i) i syn ≡ (server', syn_ack ∷ [])
  -- the client that gets it is connected and sends ACK,
  pub third : tju_handle_packet heap t now (client'.socks j) syn_ack ≡ some handled
  pub connected : handled.sock.state ≡ established
  pub local : handled.sock.established_local_addr ≡ connect_addr
  pub sender : handled.sock.sender ≡ (client.socks j).sender
  pub receiver : handled.sock.receiver ≡ (client.socks j).receiver
  pub third_sends : handled.effects ≡ sends ack ∷ []
  -- and the server that gets that one has a connection for `tju_accept`.
  pub fourth : handle_listen heap clock server' i ack ≡ (server'', [])
  pub accepts : Accepts (tju_accept server'') server.next addr connect_addr (server.socks i)

socks-connect_begin :
    (heap : Memory) (p : Process) (j : ℕ) (addr : SockAddr)
    → (connect_begin heap p j addr).0.socks j
      ≡ record (p.socks j) { established_local_addr = connect_addr; state = syn_sent }
unfolding connect_begin
socks-connect_begin heap p j addr = ground arith

connect_begin_eq :
    (heap : Memory) (p : Process) (j : ℕ) (addr : SockAddr)
    → connect_begin heap p j addr ≡ ((connect_begin heap p j addr).0, syn_packet heap addr ∷ [])
unfolding connect_begin
connect_begin_eq heap p j addr = refl

InTable-pos : (x : ℤ) → InTable x → (k : ℕ) × (k < max_sock) × (x ≡ pos k)
InTable-pos (pos k) lt = (k, lt, refl)
InTable-pos (negsuc k) h = absurd h

-- The server listens with socket `i`, which is bound to its address and a port. Then a client that
-- connects to it and the server exchange SYN, SYN_ACK and ACK, after which the client's socket is
-- ESTABLISHED, and `tju_accept` at the server gives, without waiting, a new ESTABLISHED socket for the
-- client's address, registered under the index of the connection. The client's socket sends and
-- receives as before, and the new one as the listening socket would.
pub three_way_handshake :
    (heap : Memory) (clock : ℕ) (now : Timeval) (t : Timer) (server client : Process) (i j b : ℕ)
    → b < 2 ^ 16
    → (server.socks i).bind_addr ≡ record { ip = server_ip; port = b }
    → Shakes heap clock now t server client i j (record { ip = server_ip; port = b })
unfolding handle_listen listen_syn tju_handle_packet handle_syn_sent
three_way_handshake heap clock now t server client i j b lt bound = record {
  client' = (connect_begin heap client j addr).0;
  server' = from_syn clock server i heap syn;
  server'' = listen_ack (from_syn clock server i heap syn) ack;
  syn = syn;
  syn_ack = syn_ack;
  ack = ack;
  handled = record {
    sock = record client_sock { state = established };
    timer = t;
    effects = sends ack ∷ [];
  };
  first = connect_begin_eq heap client j addr;
  second = rw reads_syn.of_flags refl;
  third = rw (socks-connect_begin heap client j addr, reads_syn_ack.of_ack) refl;
  connected = refl;
  local = refl;
  sender = refl;
  receiver = refl;
  third_sends = refl;
  fourth = rw (reads_ack.of_flags, reads_ack.of_ack) refl;
  accepts =
      subst (λ a. Accepts outcome server.next a connect_addr (server.socks i)) bound
        (subst
          (λ c.
            Accepts outcome server.next (server.socks i).bind_addr
              (record { ip = client_ip; port = c }) (server.socks i))
          reads_syn.of_src
          (tju_accept-from_ack clock server i heap syn ack cell.0 cell.1
            (rw (bound, reads_syn.of_src) cell.2) (rw (reads_ack.of_dst, reads_ack.of_src) cell.2)
            (omega (arith, lt, reads_ack.of_dst)) (omega (arith, reads_ack.of_src))));
}
  where
    addr : SockAddr
    addr = record { ip = server_ip; port = b }

    client_sock : Sock
    client_sock = record (client.socks j) {
      established_local_addr = connect_addr;
      state = syn_sent;
    }

    cell : (k : ℕ) × (k < max_sock) × (cal_hash server_ip b client_ip 5678 ≡ pos k)
    cell = InTable-pos _ (cal_hash-InTable b 5678 lt (omega arith)).0

    syn : Memory
    syn = syn_packet heap addr

    syn_ack : Memory
    syn_ack = syn_ack_packet heap syn

    ack : Memory
    ack = reply heap syn_ack (get_ack syn_ack)

    outcome : Outcome
    outcome = tju_accept (listen_ack (from_syn clock server i heap syn) ack)

    reads_syn : Reads syn 5678 b 0 0 syn_flag_mask
    reads_syn = syn_packet-Reads heap b lt

    reads_syn_ack : Reads syn_ack b 5678 0 1 syn_ack_flags
    reads_syn_ack =
        syn_ack_packet-Reads heap syn 5678 b 0 0 syn_flag_mask (omega arith) lt reads_syn

    reads_ack : Reads ack 5678 b 1 1 ack_flag_mask
    reads_ack = rw reads_syn_ack.of_ack (
        reply-Reads heap syn_ack b 5678 0 1 syn_ack_flags 1 lt (omega arith) (omega arith)
          reads_syn_ack)
