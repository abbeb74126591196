-- ===== src/Duplex/Handling.antt =====
-- What `tju_handle_packet` does with the packets of an established connection.
use mathlib.Core.Option
use tju_tcp.Common.{ℕ, ◌^◌, ◌≤◌, ◌<◌, ◌≡◌, ◌⊎◌, refl, arith, Memory, u16}
use tju_tcp.Global.{established, no_flag, max_rwindow_size, Timeval, Sock}
use tju_tcp.Packet.{ack_flag_mask, get_ack, get_flags}
use tju_tcp.Timer.{Timer}
use tju_tcp.Receive.{handle_data}
use tju_tcp.Receive.Window.{Carries}
use tju_tcp.Ack.{handle_ack}
use tju_tcp.Handle.{ack_packet, after_data, after_ack, handle_established, tju_handle_packet}
use tju_tcp.Handle.Control.{control_packet-Reads, get_advertised_window-control_packet}
use tju_tcp.Ack.Opening.{Advertises}

-- A data packet of the peer's stream, sent up to `limit`, or an ACK up to `top` at most, whose window
-- is not 0.
abbrev pub FromPeer : (ℕ → ℕ) → ℕ → ℕ → Memory → Type 0
FromPeer stream limit top pkt =
    ((get_flags pkt ≡ no_flag) × Carries stream limit pkt)
    ⊎ ((get_flags pkt ≡ ack_flag_mask) × (get_ack pkt ≤ top) × Advertises pkt)

module _ (heap : Memory) (t : Timer) (now : Timeval) (s : Sock) (on : s.state ≡ established) where
  pub tju_handle_packet-data :
      (pkt : Memory)
      → get_flags pkt ≡ no_flag
      → tju_handle_packet heap t now s pkt
        ≡ Option.map (after_data heap t s) (handle_data heap s.receiver pkt)
  unfolding tju_handle_packet handle_established
  tju_handle_packet-data pkt flags = rw (on, flags) refl

  pub tju_handle_packet-ack :
      (pkt : Memory)
      → get_flags pkt ≡ ack_flag_mask
      → tju_handle_packet heap t now s pkt
        ≡ Option.map (after_ack s) (handle_ack heap now s.sender t pkt)
  unfolding tju_handle_packet handle_established
  tju_handle_packet-ack pkt flags = rw (on, flags) refl

pub ack_packet-reads :
    (heap : Memory) (s : Sock)
    → s.established_local_addr.port < 2 ^ 16
    → s.established_remote_addr.port < 2 ^ 16
    → s.sender.nextseq < 2 ^ 32
    → s.receiver.expect_seq < 2 ^ 32
    → 1 ≤ s.receiver.remain_size
    → s.receiver.remain_size ≤ max_rwindow_size
    → (get_flags (ack_packet heap s) ≡ ack_flag_mask)
      × (get_ack (ack_packet heap s) ≡ s.receiver.expect_seq)
      × Advertises (ack_packet heap s)
unfolding ack_packet
ack_packet-reads heap s src dst seq ack low high =
    let r =
      control_packet-Reads heap _ _ s.sender.nextseq s.receiver.expect_seq ack_flag_mask
        (u16 s.receiver.remain_size) src dst seq ack (omega arith) (omega arith) in
    let w =
      get_advertised_window-control_packet heap _ _ s.sender.nextseq s.receiver.expect_seq
        ack_flag_mask (u16 s.receiver.remain_size) src dst seq ack (omega arith) (omega arith) in
    (r.of_flags, r.of_ack, (omega (arith, w, low, high), omega (arith, w)))
