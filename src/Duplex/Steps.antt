-- ===== src/Duplex/Steps.antt =====
-- Every step of the two hosts keeps their invariant.
use mathlib.Core.Option.{some-injective}
use tju_tcp.Common.{ℕ, ◌≡◌, ◌∙◌, sym, subst, some, List, [], ◌∷◌, ◌++◌, arith, Memory}
use tju_tcp.Global.{Timeval}
use tju_tcp.Kernel.Delivery.{All}
use tju_tcp.Timer.{sigalrm}
use tju_tcp.Receive.Window.{NoWrap}
use tju_tcp.Handle.{Handled, tju_handle_packet}
use tju_tcp.Transfer
use tju_tcp.Transfer.Packets.{All-at}
use tju_tcp.Duplex.{
  Host, Link, Step, left_acts, right_acts, Reach, here, next, Act, writes_data, sends_data,
  resends_data, timer_fires, packet_arrives, reads_data,
}
use tju_tcp.Duplex.Handling.{FromPeer}
use tju_tcp.Duplex.Watched.{sigalrm-IsWatched}
use tju_tcp.Duplex.Invariant.{IsDuplex, IsDuplex-swap, nextseq, expect_seq}
use tju_tcp.Duplex.Acts.{becomes, moves, writing, sending, resending}
use tju_tcp.Duplex.Arrivals.{After, arrival, reading}

module _ (heap : Memory) (stream_a : ℕ → ℕ) (total_a : ℕ) (stream_b : ℕ → ℕ) (total_b : ℕ)
    (small_a : NoWrap total_a) (small_b : NoWrap total_b) where
  pub arrival-at :
      (a b : Host) (now : Timeval) (before after : List Memory) (pkt : Memory)
      → IsDuplex stream_a total_a stream_b total_b a b
      → a.inbox ≡ before ++ pkt ∷ after
      → (r : Handled) × (tju_handle_packet heap a.timer now a.sock pkt ≡ some r)
        × After heap stream_a total_a stream_b total_b small_a small_b a b r
  arrival-at a b now before after pkt h at =
      arrival heap stream_a total_a stream_b total_b small_a small_b a b now pkt h (
        All-at _ before after pkt
          (subst (All (FromPeer stream_b (nextseq b) (expect_seq b))) at h.to_a))

  pub Act-IsDuplex :
      {a b a' b' : Host}
      → Act heap stream_a total_a a b a' b'
      → IsDuplex stream_a total_a stream_b total_b a b
      → IsDuplex stream_a total_a stream_b total_b a' b'
  Act-IsDuplex {a} {b} (writes_data s buffer len room fits le same found) h =
      writing heap stream_a total_a stream_b total_b small_a small_b a b s buffer len h
        (Transfer.writes_data s buffer len room fits le same found) found
  Act-IsDuplex {a} {b} (sends_data now p found) h =
      sending heap stream_a total_a stream_b total_b small_a small_b a b now p h found
  Act-IsDuplex {a} {b} (resends_data r found) h =
      resending heap stream_a total_a stream_b total_b small_a small_b a b r h found
  Act-IsDuplex {a} {b} (timer_fires v on) h =
      becomes heap stream_a total_a stream_b total_b small_a small_b a b a.sock.sender
        a.sock.receiver (sigalrm v a.timer) a.written a.delivered h
        (moves heap stream_a total_a stream_b total_b small_a small_b a b _ [] [] h tt tt
          (Transfer.timer_fires v on))
        h.back (omega arith) (omega arith) h.acked_a h.live_a
        (sigalrm-IsWatched a.sock.sender a.timer v h.watched_a)
  Act-IsDuplex {a} {b} (packet_arrives now before after pkt r at found) h =
      let (r', found', both) = arrival-at a b now before after pkt h at in
      subst (After heap stream_a total_a stream_b total_b small_a small_b a b)
        (some-injective r' r (sym found' ∙ found)) both
  Act-IsDuplex {a} {b} (reads_data len out r found) h =
      reading heap stream_a total_a stream_b total_b small_a small_b a b len out r h found

-- The left side writes `stream_l` and the right side `stream_r`.
module _ (heap : Memory) (stream_l : ℕ → ℕ) (total_l : ℕ) (stream_r : ℕ → ℕ) (total_r : ℕ)
    (small_l : NoWrap total_l) (small_r : NoWrap total_r) where
  abbrev Both : Link → Type 0
  Both k = IsDuplex stream_l total_l stream_r total_r k.left k.right

  Step-IsDuplex : {m n : Link} → Step heap stream_l total_l stream_r total_r m n → Both m → Both n
  Step-IsDuplex (left_acts me peer act) h =
      Act-IsDuplex heap stream_l total_l stream_r total_r small_l small_r act h
  Step-IsDuplex {m} (right_acts me peer act) h = IsDuplex-swap _ _ _ _ me peer (
      Act-IsDuplex heap stream_r total_r stream_l total_l small_r small_l act
        (IsDuplex-swap _ _ _ _ m.left m.right h))

  pub Reach-IsDuplex :
      (m : Link) → Both m → (k : Link) → Reach heap stream_l total_l stream_r total_r m k → Both k
  Reach-IsDuplex m h _ here = h
  Reach-IsDuplex m h _ (next reach st) = Step-IsDuplex st (Reach-IsDuplex m h _ reach)
