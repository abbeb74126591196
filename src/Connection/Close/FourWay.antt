-- ===== src/Connection/Close/FourWay.antt =====
-- The four packets that close a connection, and what becomes of it when the first answer is lost.
use mathlib.Core.Option
use tju_tcp.Common.{
  ℕ, ◌+◌, ◌^◌, ◌<◌, ◌≡◌, ap, refl, Option, List, ◌++◌, some, [], ◌∷◌, arith, Memory,
}
use tju_tcp.Global.{
  closed, established, fin_wait_2, close_wait, closing, last_ack, time_wait, fin_seq, Sock, Timeval,
}
use tju_tcp.Packet.{get_ack, ack_flag_mask, fin_flag_mask, fin_ack_flags}
use tju_tcp.Timer.{Timer}
use tju_tcp.Handle.{
  unchanged, handle_in, Effect, sends, enters, sleeps, starts_close, reply, fin_packet,
  tju_handle_packet, handle_established, handle_fin, handle_fin_wait_1, handle_fin_wait_2,
  handle_last_ack,
}
use tju_tcp.Handle.Control.{Reads, control_packet-Reads, reply-Reads}
use tju_tcp.Connection.{Process, put_sock}
use tju_tcp.Connection.Close.{first_fin, closing_sock, close_begin}

-- The two sockets name each other's ports, and are ESTABLISHED.
pub record AreConnected (client server : Sock) : Type 0 where
  pub local : server.established_remote_addr.port ≡ client.established_local_addr.port
  pub remote : server.established_local_addr.port ≡ client.established_remote_addr.port
  pub local_fits : client.established_local_addr.port < 2 ^ 16
  pub remote_fits : client.established_remote_addr.port < 2 ^ 16
  pub client_state : client.state ≡ established
  pub server_state : server.state ≡ established

-- A socket is given packets, one after the other: the socket at the end, and all effects.
pub handle_all : Memory → Timeval → Timer → Sock → List Memory → Option (Sock × List Effect)
handle_all heap now t s [] = some (s, [])
handle_all heap now t s (pkt ∷ rest) =
    Option.bind (tju_handle_packet heap t now s pkt)
      (λ h. Option.map (λ r. (r.0, h.effects ++ r.1)) (handle_all heap now h.timer h.sock rest))

-- A CLOSED socket answers nothing.
handle-closed :
    (heap : Memory) (now : Timeval) (t : Timer) (s : Sock) (pkt : Memory)
    → s.state ≡ closed
    → tju_handle_packet heap t now s pkt ≡ some (unchanged s t)
unfolding tju_handle_packet
handle-closed heap now t s pkt e = ap (λ x. handle_in heap t x now s pkt) e

handle_all-closed :
    (heap : Memory) (now : Timeval) (t : Timer) (s : Sock)
    → s.state ≡ closed
    → (pkts : List Memory) → handle_all heap now t s pkts ≡ some (s, [])
unfolding handle_all Option.bind
handle_all-closed heap now t s e [] = refl
handle_all-closed heap now t s e (pkt ∷ rest) =
    rw (handle-closed heap now t s pkt e, handle_all-closed heap now t s e rest) refl

-- The closing of socket `i` of a process; the packets of it.
module _ (heap : Memory) (now : Timeval) (t u : Timer) (p : Process) (i : ℕ) (server : Sock)
    (c : AreConnected (p.socks i) server) where
  abbrev client : Sock
  client = p.socks i

  abbrev a : ℕ
  a = client.established_local_addr.port

  abbrev b : ℕ
  b = client.established_remote_addr.port

  abbrev fin : Memory
  fin = first_fin heap client

  fin-Reads : Reads fin a b fin_seq 0 fin_flag_mask
  fin-Reads =
      control_packet-Reads heap a b fin_seq 0 fin_flag_mask 1 c.local_fits c.remote_fits
        (omega arith) (omega arith) (omega arith) (omega arith)

  -- The server's ACK of it, and the server's FIN.
  abbrev ack : Memory
  ack = reply heap fin (get_ack fin)

  ack-Reads : Reads ack b a 0 1 ack_flag_mask
  ack-Reads = rw fin-Reads.of_ack (
      reply-Reads heap fin a b fin_seq 0 fin_flag_mask 0 c.local_fits c.remote_fits (omega arith)
        fin-Reads)

  abbrev fin_ack : Memory
  fin_ack = fin_packet heap server fin

  fin_ack-Reads : Reads fin_ack b a fin_seq 1 fin_ack_flags
  fin_ack-Reads =
      rw (c.remote, c.local, fin-Reads.of_seq)
        (control_packet-Reads heap b a fin_seq 1 fin_ack_flags 1 c.remote_fits c.local_fits
          (omega arith) (omega arith) (omega arith) (omega arith))

  -- The client's answer to that one, in FIN_WAIT_2 and in FIN_WAIT_1.
  abbrev last : Memory
  last = reply heap fin_ack (get_ack fin_ack)

  last-Reads : Reads last a b 1 1 ack_flag_mask
  last-Reads = rw fin_ack-Reads.of_ack (
      reply-Reads heap fin_ack b a fin_seq 1 fin_ack_flags 1 c.remote_fits c.local_fits
        (omega arith) fin_ack-Reads)

  abbrev early : Memory
  early = reply heap fin_ack (fin_seq + 1)

  early-Reads : Reads early a b 1 1 ack_flag_mask
  early-Reads =
      reply-Reads heap fin_ack b a fin_seq 1 fin_ack_flags 1 c.remote_fits c.local_fits
        (omega arith) fin_ack-Reads

  abbrev waiting : Sock
  waiting = record server { state = last_ack; packet_fin = some fin_ack }

  server-fin :
      tju_handle_packet heap u now server fin
      ≡ some (record {
        sock = waiting;
        timer = u;
        effects = sends ack ∷ enters close_wait ∷ sleeps 1 ∷ sends fin_ack ∷ starts_close ∷ [];
      })
  unfolding tju_handle_packet handle_established handle_fin
  server-fin = rw (c.server_state, fin-Reads.of_flags) refl

  client-ack :
      tju_handle_packet heap t now (closing_sock heap client) ack
      ≡ some (record {
        sock = record (closing_sock heap client) { state = fin_wait_2 };
        timer = t;
        effects = [];
      })
  unfolding tju_handle_packet handle_fin_wait_1
  client-ack = rw (ack-Reads.of_flags, ack-Reads.of_ack) refl

  client-fin_ack :
      tju_handle_packet heap t now
        (record (closing_sock heap client) { state = fin_wait_2 })
        fin_ack
      ≡ some (record {
        sock = record (closing_sock heap client) { state = closed };
        timer = t;
        effects = sends last ∷ enters time_wait ∷ sleeps 3 ∷ [];
      })
  unfolding tju_handle_packet handle_fin_wait_2
  client-fin_ack = rw (fin_ack-Reads.of_flags) refl

  client-early :
      tju_handle_packet heap t now (closing_sock heap client) fin_ack
      ≡ some (record {
        sock = record (closing_sock heap client) { state = closing };
        timer = t;
        effects = sends early ∷ [];
      })
  unfolding tju_handle_packet handle_fin_wait_1
  client-early = rw (fin_ack-Reads.of_flags) refl

  server-ack :
      (pkt : Memory)
      → Reads pkt a b 1 1 ack_flag_mask
      → tju_handle_packet heap u now waiting pkt
        ≡ some (record { sock = record waiting { state = closed }; timer = u; effects = [] })
  unfolding tju_handle_packet handle_last_ack
  server-ack pkt r = rw (r.of_flags, r.of_ack) refl

  abbrev answers : List Effect
  answers = sends ack ∷ enters close_wait ∷ sleeps 1 ∷ sends fin_ack ∷ starts_close ∷ []

  -- A process closes an ESTABLISHED socket, whose peer is ESTABLISHED too. It sends FIN and waits. The
  -- peer answers with ACK and, a second later, with its own FIN, and waits for the last ACK. The two in
  -- this order take the closing socket through FIN_WAIT_2 and TIME_WAIT to CLOSED and make it send the
  -- last ACK, and that one takes the peer to CLOSED.
  pub four_way_close :
      (close_begin heap p i ≡ some (put_sock p i (closing_sock heap client), fin ∷ []))
      × (handle_all heap now u server (fin ∷ []) ≡ some (waiting, answers))
      × (handle_all heap now t (closing_sock heap client) (ack ∷ fin_ack ∷ [])
          ≡ some (
            record (closing_sock heap client) { state = closed },
            sends last ∷ enters time_wait ∷ sleeps 3 ∷ [],
          ))
      × (handle_all heap now u server (fin ∷ last ∷ [])
          ≡ some (record waiting { state = closed }, answers))
  unfolding close_begin handle_all Option.bind
  four_way_close = (
    rw c.client_state refl,
    rw server-fin refl,
    rw (client-ack, client-fin_ack) refl,
    rw (server-fin, server-ack last last-Reads) refl,
  )

  -- If the peer's ACK of the FIN is lost, its FIN takes the closing socket to CLOSING, and the ACK
  -- that it then sends takes the peer to CLOSED, where no sequence of packets makes the peer send
  -- anything.
  pub lost_ack :
      (handle_all heap now t (closing_sock heap client) (fin_ack ∷ [])
        ≡ some (record (closing_sock heap client) { state = closing }, sends early ∷ []))
      × (handle_all heap now u server (fin ∷ early ∷ [])
          ≡ some (record waiting { state = closed }, answers))
      × ((pkts : List Memory)
          → handle_all heap now u (record waiting { state = closed }) pkts
            ≡ some (record waiting { state = closed }, []))
  unfolding handle_all Option.bind
  lost_ack = (
    rw client-early refl,
    rw (server-fin, server-ack early early-Reads) refl,
    handle_all-closed heap now u (record waiting { state = closed }) refl,
  )
