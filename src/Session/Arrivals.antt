-- ===== src/Session/Arrivals.antt =====
-- Packets that come to a process one after the other (`receive_thread` and `onTCPPocket`, kernel.c).
use mathlib.Core.Option
use mathlib.Core.Option.{some-injective}
use mathlib.Core.Path.{ap₂, fun_ext}
use tju_tcp.Common.{
  ℕ, ◌≡◌, ◌∙◌, refl, sym, ap, Option, none, some, List, [], ◌∷◌, ◌++◌, arith, Memory, false, ◌==◌,
  if◌then◌else◌,
}
use tju_tcp.Global.{State, Timeval, SockAddr, Sock}
use tju_tcp.Packet.{get_src, get_dst}
use tju_tcp.Kernel.{server_ip, client_ip}
use tju_tcp.Kernel.Delivery.{All}
use tju_tcp.Timer.{Timer}
use tju_tcp.Syn.{hash_of}
use tju_tcp.Handle.{Effect, Handled, sends, enters, sleeps, starts_close, tju_handle_packet}
use tju_tcp.Handle.States.{
  Change, keeps, opens, ends, waits, crosses, finishes, is_acked, tju_handle_packet-Change,
}
use tju_tcp.Connection.{Process, put_sock, connect_addr, connect_end}
use tju_tcp.Connection.Handshake.{Shakes}
use tju_tcp.Duplex.{sent_by}
use tju_tcp.Session.Dispatch.{
  Answered, is_listening, answered, on_packet, on_packet-entered, entered-connect_begin,
}

-- The process handles the packets, each when it comes.
unfoldable pub on_packets :
    Memory → ℕ → ℕ → ℕ → Answered → List (Timeval × Memory) → Option Answered
on_packets heap clock local_ip remote_ip a [] = some a
on_packets heap clock local_ip remote_ip a ((now, pkt) ∷ rest) =
    Option.bind (on_packet heap clock now a.timer local_ip remote_ip a.process pkt) (λ a'.
      on_packets heap clock local_ip remote_ip (record a' { packets = a.packets ++ a'.packets })
        rest)

-- `b` behind what was done before.
abbrev behind : Handled → Handled → Handled
behind a b = record b { effects = a.effects ++ b.effects }

-- One socket handles them.
unfoldable pub handle_all : Memory → Handled → List (Timeval × Memory) → Option Handled
handle_all heap r [] = some r
handle_all heap r ((now, pkt) ∷ rest) =
    Option.bind (tju_handle_packet heap r.timer now r.sock pkt)
      (λ r'. handle_all heap (behind r r') rest)

-- The packet goes from `r` to `l`.
abbrev pub BetweenPorts : ℕ → ℕ → Timeval × Memory → Type 0
BetweenPorts l r (_, pkt) = (get_dst pkt ≡ l) × (get_src pkt ≡ r)

sent_by-append : (es fs : List Effect) → sent_by (es ++ fs) ≡ sent_by es ++ sent_by fs
sent_by-append [] fs = refl
sent_by-append (sends pkt ∷ es) fs = ap (λ ps. pkt ∷ ps) (sent_by-append es fs)
sent_by-append (enters _ ∷ es) fs = sent_by-append es fs
sent_by-append (sleeps _ ∷ es) fs = sent_by-append es fs
sent_by-append (starts_close ∷ es) fs = sent_by-append es fs

-- No packet makes a socket listen.
Change-listening :
    (pkt : Memory) (s s' : State)
    → Change pkt s s'
    → is_listening s ≡ false
    → is_listening s' ≡ false
Change-listening pkt s s' (keeps e) off = ap is_listening e ∙ off
Change-listening pkt s s' (opens _ _ e) off = ap is_listening e
Change-listening pkt s s' (ends _ _ e) off = ap is_listening e
Change-listening pkt s s' (waits _ _ _ e) off = ap is_listening e
Change-listening pkt s s' (crosses _ _ e) off = ap is_listening e
Change-listening pkt s s' (finishes _ _ e) off = ap is_listening e
Change-listening pkt s s' (is_acked _ _ _ e) off = ap is_listening e

put_sock-same : (p : Process) (i : ℕ) (s : Sock) → (put_sock p i s).socks i ≡ s
put_sock-same p i s = ground arith

put_sock-again :
    (p : Process) (i : ℕ) (s s' : Sock) → put_sock (put_sock p i s) i s' ≡ put_sock p i s'
put_sock-again p i s s' = ap (λ f. record p { socks = f }) (fun_ext each)
  where
    each :
        (j : ℕ)
        → (if i == j then s' else (if i == j then s else p.socks j))
          ≡ (if i == j then s' else p.socks j)
    each j = ground arith

module _ (heap : Memory) (clock : ℕ) where
  -- What a handler leaves, behind what was done before.
  answered-behind :
      (p : Process) (i : ℕ) (h r : Handled)
      → record (answered (put_sock p i h.sock) i r) {
        packets = sent_by h.effects ++ sent_by r.effects;
      }
        ≡ answered p i (behind h r)
  answered-behind p i h r =
      ap₂ (λ q ps. record { process = q; timer = r.timer; packets = ps })
        (put_sock-again p i h.sock r.sock) (sym (sent_by-append h.effects r.effects))

  after_packet :
      (l r : SockAddr) (p : Process) (i : ℕ) (h : Handled) (rest : List (Timeval × Memory))
      (o : Option Handled)
      → ((h' : Handled)
          → o ≡ some h'
          → on_packets heap clock l.ip r.ip (answered p i (behind h h')) rest
            ≡ Option.map (answered p i) (handle_all heap (behind h h') rest))
      → Option.bind (Option.map (answered (put_sock p i h.sock) i) o) (λ a'.
        on_packets heap clock l.ip r.ip
          (record a' { packets = sent_by h.effects ++ a'.packets })
          rest)
        ≡ Option.map (answered p i) (Option.bind o (λ h'. handle_all heap (behind h h') rest))
  unfolding Option.bind
  after_packet l r p i h rest none further = refl
  after_packet l r p i h rest (some h') further =
      ap (λ a. on_packets heap clock l.ip r.ip a rest) (answered-behind p i h h') ∙ further h' refl

  -- A socket that is entered in the table and does not listen handles the packets that come to it.
  on_packets-handle_all :
      (l r : SockAddr) (p : Process) (i : ℕ)
      → p.tables.established_socks (hash_of l r) ≡ some i
      → (pkts : List (Timeval × Memory)) (h : Handled) → is_listening h.sock.state ≡ false
      → All (BetweenPorts l.port r.port) pkts
      → on_packets heap clock l.ip r.ip (answered p i h) pkts
        ≡ Option.map (answered p i) (handle_all heap h pkts)
  unfolding on_packets handle_all
  on_packets-handle_all l r p i entered [] h off fits = refl
  on_packets-handle_all l r p i entered ((now, pkt) ∷ rest) h off ((to, from), fits) =
      ap
        (λ o. Option.bind o (λ a'.
          on_packets heap clock l.ip r.ip (record a' { packets = sent_by h.effects ++ a'.packets })
            rest))
        (on_packet-entered heap clock now h.timer (put_sock p i h.sock) i l r pkt entered
            (ap (λ (x : Sock). is_listening x.state) (put_sock-same p i h.sock) ∙ off) to from
          ∙ ap
              (λ s.
                Option.map (answered (put_sock p i h.sock) i)
                  (tju_handle_packet heap h.timer now s pkt))
              (put_sock-same p i h.sock))
      ∙ after_packet l r p i h rest (tju_handle_packet heap h.timer now h.sock pkt) (λ h' e.
        on_packets-handle_all l r p i entered rest (behind h h')
          (Change-listening pkt h.sock.state h'.sock.state
            (tju_handle_packet-Change heap h.timer now pkt h.sock h' e) off)
          fits)

  -- The client and the server have shaken hands, and `tju_connect` and `tju_accept` have returned. The
  -- application and the threads may then have made of the sockets of the connection and of the timers
  -- what they like, but that one listens, and the entries in the tables are still there, which only
  -- `tju_close` takes out. Then any number of packets between the ports of the connection, whatever they
  -- carry, have at either process the effect that they have when `tju_handle_packet` handles them all
  -- at one socket: at the server the one that `tju_accept` has given and not the one that listens, at the
  -- client the one that `tju_connect` was called with. That holds through every change of state that they
  -- cause, and no other socket of the process changes.
  pub handshake-on_packets :
      (now : Timeval) (t : Timer) (server client : Process) (i j b : ℕ)
      (h : Shakes heap clock now t server client i j (record { ip = server_ip; port = b }))
      (at_server at_client : Handled)
      → is_listening at_server.sock.state ≡ false
      → is_listening at_client.sock.state ≡ false
      → (pkts pkts' : List (Timeval × Memory)) → All (BetweenPorts b 5678) pkts
      → All (BetweenPorts 5678 b) pkts'
      → let addr : SockAddr = record { ip = server_ip; port = b } in
        let server' = h.accepts.process in
        let client' = connect_end (put_sock h.client' j h.handled.sock) j addr in
        (on_packets heap clock server_ip client_ip (answered server' server.next at_server) pkts
          ≡ Option.map (answered server' server.next) (handle_all heap at_server pkts))
        × (on_packets heap clock client_ip server_ip (answered client' j at_client) pkts'
            ≡ Option.map (answered client' j) (handle_all heap at_client pkts'))
  unfolding connect_end
  handshake-on_packets now t server client i j b h at_server at_client off off' pkts pkts' fits
        fits' =
      (
        on_packets-handle_all addr connect_addr h.accepts.process server.next h.accepts.entered pkts
            at_server off fits,
        on_packets-handle_all connect_addr addr client' j entered pkts' at_client off' fits',
      )
    where
      addr : SockAddr
      addr = record { ip = server_ip; port = b }

      client' : Process
      client' = connect_end (put_sock h.client' j h.handled.sock) j addr

      entered : client'.tables.established_socks (hash_of connect_addr addr) ≡ some j
      entered =
          ap
            (λ (x : Process × List Memory).
              x.0.tables.established_socks (hash_of connect_addr addr))
            (sym h.first)
          ∙ entered-connect_begin heap client j addr
