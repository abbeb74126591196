-- ===== src/Duplex/Invariant.antt =====
-- The invariant of the two hosts: each direction is a transfer of its own, and the packets under way
-- are data or ACKs of them.
use tju_tcp.Common.{ℕ, ◌^◌, ◌≤◌, ◌<◌, ◌≡◌, inl, inr, List, [], ◌∷◌, arith, Memory}
use tju_tcp.Global.{established, no_flag}
use tju_tcp.Packet.{get_ack, get_flags}
use tju_tcp.Kernel.Delivery.{All}
use tju_tcp.Receive.Window.{Carries, NoWrap}
use tju_tcp.Ack.Opening.{IsLive}
use tju_tcp.Duplex.Watched.{IsWatched}
use tju_tcp.Transfer.{Ends}
use tju_tcp.Transfer.Packets.{All-map, Carries-le}
use tju_tcp.Transfer.Invariant.{IsReliable}
use tju_tcp.Duplex.{Host, local_port, remote_port}
use tju_tcp.Duplex.Handling.{FromPeer}

-- The direction from `src` to `dst`, with some of the packets under way.
abbrev pub ends_with : Host → Host → List Memory → List Memory → Ends
ends_with src dst sent acks = record {
  sender = src.sock.sender;
  timer = src.timer;
  receiver = dst.sock.receiver;
  sent = sent;
  acks = acks;
  written = src.written;
  delivered = dst.delivered;
}

abbrev pub ends : Host → Host → Ends
ends src dst = ends_with src dst [] []

abbrev pub nextseq : Host → ℕ
nextseq h = h.sock.sender.nextseq

abbrev pub base : Host → ℕ
base h = h.sock.sender.base

abbrev pub expect_seq : Host → ℕ
expect_seq h = h.sock.receiver.expect_seq

pub record IsOpen (h : Host) : Type 0 where
  pub state : h.sock.state ≡ established
  pub local : local_port h < 2 ^ 16
  pub remote : remote_port h < 2 ^ 16

-- `a` writes `stream_a` and `b` writes `stream_b`. An ACK says no more than its sender expects, and what
-- is acknowledged has been received. The sending windows can open,
-- and timers watch them.
pub record IsDuplex (stream_a : ℕ → ℕ) (total_a : ℕ) (stream_b : ℕ → ℕ) (total_b : ℕ) (a b : Host)
    : Type 0 where
  pub open_a : IsOpen a
  pub open_b : IsOpen b
  pub forth : IsReliable stream_a total_a (ends a b)
  pub back : IsReliable stream_b total_b (ends b a)
  pub to_b : All (FromPeer stream_a (nextseq a) (expect_seq a)) b.inbox
  pub to_a : All (FromPeer stream_b (nextseq b) (expect_seq b)) a.inbox
  pub acked_a : base a ≤ expect_seq b
  pub acked_b : base b ≤ expect_seq a
  pub live_a : IsLive a.sock.sender
  pub live_b : IsLive b.sock.sender
  pub watched_a : IsWatched a.sock.sender a.timer
  pub watched_b : IsWatched b.sock.sender b.timer

pub IsDuplex-swap :
    (stream_a : ℕ → ℕ) (total_a : ℕ) (stream_b : ℕ → ℕ) (total_b : ℕ) (a b : Host)
    → IsDuplex stream_a total_a stream_b total_b a b
    → IsDuplex stream_b total_b stream_a total_a b a
IsDuplex-swap _ _ _ _ a b h = record {
  open_a = h.open_b;
  open_b = h.open_a;
  forth = h.back;
  back = h.forth;
  to_b = h.to_a;
  to_a = h.to_b;
  acked_a = h.acked_b;
  acked_b = h.acked_a;
  live_a = h.live_b;
  live_b = h.live_a;
  watched_a = h.watched_b;
  watched_b = h.watched_a;
}

module _ (stream : ℕ → ℕ) (total : ℕ) where
  -- Packets that are known to be of the transfer may be put under way, and forgotten.
  pub IsReliable-with :
      (e : Ends) (sent acks : List Memory)
      → IsReliable stream total e
      → All (Carries stream e.sender.nextseq) sent
      → All (λ pkt. get_ack pkt ≤ e.sender.nextseq) acks
      → IsReliable stream total (record e { sent = sent; acks = acks })
  IsReliable-with e sent acks h cs qs = record {
    origin = h.origin;
    one = h.one;
    sends = h.sends;
    end = h.end;
    within = h.within;
    holds = h.holds;
    sent = cs;
    acks = qs;
    given = h.given;
    delivered = h.delivered;
    position = h.position;
  }

  pub nextseq-lt : NoWrap total → (e : Ends) → IsReliable stream total e → e.sender.nextseq < 2 ^ 32
  nextseq-lt small e h = omega (arith, h.end, h.within, small, h.sends.next, h.sends.sent)

  pub expect_seq-lt :
      NoWrap total → (e : Ends) → IsReliable stream total e → e.receiver.expect_seq < 2 ^ 32
  expect_seq-lt small e h = omega (arith, h.holds.reach, nextseq-lt small e h)

module _ (stream : ℕ → ℕ) where
  pub FromPeer-le :
      (limit limit' top top' : ℕ) (pkt : Memory)
      → limit ≤ limit'
      → top ≤ top'
      → FromPeer stream limit top pkt
      → FromPeer stream limit' top' pkt
  FromPeer-le limit limit' top top' pkt le le' (inl (f, c)) =
      inl (f, Carries-le stream limit limit' pkt le c)
  FromPeer-le limit limit' top top' pkt le le' (inr (f, a, w)) = inr (f, omega (arith, a), w)

  pub All-FromPeer-le :
      (limit limit' top top' : ℕ) (ps : List Memory)
      → limit ≤ limit'
      → top ≤ top'
      → All (FromPeer stream limit top) ps
      → All (FromPeer stream limit' top') ps
  All-FromPeer-le limit limit' top top' ps le le' =
      All-map _ _ ps (λ p. FromPeer-le limit limit' top top' p le le')

  -- Data packets are among those of the peer.
  pub All-FromPeer :
      (limit top : ℕ) (ps : List Memory)
      → All (λ pkt. get_flags pkt ≡ no_flag) ps
      → All (Carries stream limit) ps
      → All (FromPeer stream limit top) ps
  All-FromPeer limit top [] f c = tt
  All-FromPeer limit top (p ∷ ps) f c = (inl (f.0, c.0), All-FromPeer limit top ps f.1 c.1)
