-- ===== src/Session/Dispatch.antt =====
-- From `onTCPPocket` (kernel.c) to the socket: the whole way of a packet inside a process.
use mathlib.Core.Option
use tju_tcp.Common.{
  ℕ, ◌≡◌, refl, Option, some, List, [], arith, Memory, Bool, true, false, ℤ, pos, negsuc, eq_ℤ,
  if◌then◌else◌,
}
use tju_tcp.Global.{State, listen, Timeval, SockAddr}
use tju_tcp.Packet.{get_src, get_dst}
use tju_tcp.Kernel.{Dispatch, handled_by, discarded, on_tcp_pocket}
use tju_tcp.Timer.{Timer}
use tju_tcp.Syn.{hash_of}
use tju_tcp.Handle.{Handled, tju_handle_packet}
use tju_tcp.Connection.{Process, put_sock, handle_listen, connect_addr, connect_begin}
use tju_tcp.Duplex.{sent_by}

-- What a process is once a packet has been handled, and the packets that it has sent.
pub record Answered : Type 0 where
  pub process : Process
  pub timer : Timer
  pub packets : List Memory

abbrev pub is_listening : State → Bool
is_listening listen = true
is_listening _ = false

abbrev pub answered : Process → ℕ → Handled → Answered
answered p i r = record {
  process = put_sock p i r.sock;
  timer = r.timer;
  packets = sent_by r.effects;
}

eq_ℤ-same : (x : ℤ) → eq_ℤ x x ≡ true
eq_ℤ-same (pos n) = ground arith
eq_ℤ-same (negsuc n) = ground arith

pub entered-connect_begin :
    (heap : Memory) (p : Process) (j : ℕ) (addr : SockAddr)
    → (connect_begin heap p j addr).0.tables.established_socks (hash_of connect_addr addr) ≡ some j
unfolding connect_begin
entered-connect_begin heap p j addr = rw (eq_ℤ-same (hash_of connect_addr addr)) refl

module _ (heap : Memory) (clock : ℕ) (now : Timeval) (t : Timer) where
  -- `tju_handle_packet`, for a socket in whatever state.
  unfoldable pub handle_at : Process → ℕ → Memory → Option Answered
  handle_at p i pkt =
      let (p', out) = handle_listen heap clock p i pkt in
      if is_listening (p.socks i).state
      then some (record { process = p'; timer = t; packets = out })
      else Option.map (answered p i) (tju_handle_packet heap t now (p.socks i) pkt)

  abbrev handle_found : Process → Memory → Dispatch → Option Answered
  handle_found p pkt (handled_by i) = handle_at p i pkt
  handle_found p pkt discarded = some (record { process = p; timer = t; packets = [] })

  -- `onTCPPocket` with the call that it makes.
  unfoldable pub on_packet : ℕ → ℕ → Process → Memory → Option Answered
  on_packet local_ip remote_ip p pkt =
      handle_found p pkt (on_tcp_pocket p.tables local_ip remote_ip pkt)

  -- A socket that is entered in the table and not listening gets the packets of its connection.
  pub on_packet-entered :
      (p : Process) (i : ℕ) (l r : SockAddr) (pkt : Memory)
      → p.tables.established_socks (hash_of l r) ≡ some i
      → is_listening (p.socks i).state ≡ false
      → get_dst pkt ≡ l.port
      → get_src pkt ≡ r.port
      → on_packet l.ip r.ip p pkt
        ≡ Option.map (answered p i) (tju_handle_packet heap t now (p.socks i) pkt)
  unfolding on_packet on_tcp_pocket handle_at
  on_packet-entered p i l r pkt entered on to from = rw (to, from, entered, on) refl
