-- ===== src/Duplex/Acts.antt =====
-- Every step of one of the two hosts keeps the invariant of both.
use mathlib.Core.Option.{some-injective}
use tju_tcp.Common.{ℕ, ◌+◌, ◌≤◌, ◌≡◌, ◌∙◌, sym, ap, subst, some, List, [], arith, Memory}
use tju_tcp.Global.{no_flag, Timeval, Sender, Receiver}
use tju_tcp.Packet.{get_ack, get_flags}
use tju_tcp.Kernel.Delivery.{All}
use tju_tcp.Timer.{Timer}
use tju_tcp.Send.{Pass, sending_thread, returned, tju_send_round}
use tju_tcp.Send.Loop.{sending_thread-Covers}
use tju_tcp.Retransmit.{Resent, retrans_thread}
use tju_tcp.Receive.Window.{Carries, NoWrap}
use tju_tcp.Transfer
use tju_tcp.Transfer.{Ends}
use tju_tcp.Transfer.Packets.{All-append, Covers-le, Covers-no_flag}
use tju_tcp.Transfer.Resends.{retrans_thread-Resends}
use tju_tcp.Transfer.Invariant.{IsReliable}
use tju_tcp.Transfer.Steps.{left_sender, Step-IsReliable}
use tju_tcp.Duplex.{Host, local_port, remote_port, with_sender, gets}
use tju_tcp.Duplex.Base.{base-sending_thread, base-retrans_thread}
use tju_tcp.Duplex.Watched.{IsWatched}
use tju_tcp.Duplex.Threads.{sending_thread-IsWatched, tju_send_round-IsWatched}
use tju_tcp.Duplex.Resending.{retrans_thread-IsWatched}
use tju_tcp.Retransmit.Covers.{timed_out-Sends}
use tju_tcp.Duplex.Live.{tju_send_round-IsLive, sending_thread-IsLive, retrans_thread-IsLive}
use tju_tcp.Ack.Opening.{IsLive}
use tju_tcp.Duplex.Handling.{FromPeer}
use tju_tcp.Duplex.Invariant.{
  IsDuplex, ends, ends_with, nextseq, expect_seq, IsReliable-with, nextseq-lt, All-FromPeer-le,
  All-FromPeer,
}

kept-tju_send_round :
    (s s' : Sender) (buffer : Memory) (len : ℕ)
    → tju_send_round s buffer len ≡ returned s'
    → (s'.nextseq ≡ s.nextseq) × (s'.base ≡ s.base)
unfolding tju_send_round
kept-tju_send_round s s' buffer len e = (
  ap (λ c. (left_sender c).nextseq) (sym e) ∙ same_next,
  ap (λ c. (left_sender c).base) (sym e) ∙ same_base,
)
  where
    same_next : (left_sender (tju_send_round s buffer len)).nextseq ≡ s.nextseq
    same_next = ground arith

    same_base : (left_sender (tju_send_round s buffer len)).base ≡ s.base
    same_base = ground arith

module _ (heap : Memory) (stream_a : ℕ → ℕ) (total_a : ℕ) (stream_b : ℕ → ℕ) (total_b : ℕ)
    (small_a : NoWrap total_a) (small_b : NoWrap total_b) where
  abbrev Both : Host → Host → Type 0
  Both = IsDuplex stream_a total_a stream_b total_b

  -- The one host has changed, but for its inbox.
  pub becomes :
      (a b : Host) (s : Sender) (r : Receiver) (t : Timer) (written : ℕ) (delivered : List ℕ)
      → let a' = record a {
        sock = record a.sock { sender = s; receiver = r };
        timer = t;
        written = written;
        delivered = delivered;
      } in
        Both a b
        → IsReliable stream_a total_a (ends a' b)
        → IsReliable stream_b total_b (ends b a')
        → nextseq a ≤ s.nextseq
        → expect_seq a ≤ r.expect_seq
        → s.base ≤ expect_seq b
        → IsLive s
        → IsWatched s t
        → Both a' b
  becomes a b s r t written delivered h forth back le le' acked live watched = record {
    open_a = record { state = h.open_a.state; local = h.open_a.local; remote = h.open_a.remote };
    open_b = h.open_b;
    forth = forth;
    back = back;
    to_b = All-FromPeer-le stream_a _ _ _ _ b.inbox le le' h.to_b;
    to_a = h.to_a;
    acked_a = acked;
    acked_b = omega (arith, h.acked_b);
    live_a = live;
    live_b = h.live_b;
    watched_a = watched;
    watched_b = h.watched_b;
  }

  -- The other host has got packets.
  pub adds :
      (a b : Host) (packets : List Memory)
      → Both a b
      → All (FromPeer stream_a (nextseq a) (expect_seq a)) packets
      → Both a (gets b packets)
  adds a b packets h more = record {
    open_a = h.open_a;
    open_b = record { state = h.open_b.state; local = h.open_b.local; remote = h.open_b.remote };
    forth = h.forth;
    back = h.back;
    to_b = All-append _ b.inbox packets h.to_b more;
    to_a = h.to_a;
    acked_a = h.acked_a;
    acked_b = h.acked_b;
    live_a = h.live_a;
    live_b = h.live_b;
    watched_a = h.watched_a;
    watched_b = h.watched_b;
  }

  -- A step of the transfer from `a` to `b`, with some packets under way.
  pub moves :
      (a b : Host) (e : Ends) (sent acks : List Memory)
      → Both a b
      → All (Carries stream_a (nextseq a)) sent
      → All (λ pkt. get_ack pkt ≤ nextseq a) acks
      → Transfer.Step heap
          (local_port a)
          (remote_port a)
          b.sock
          stream_a
          total_a
          (ends_with a b sent acks)
          e
      → IsReliable stream_a total_a e
  moves a b e sent acks h cs qs st =
      Step-IsReliable heap (local_port a) (remote_port a) b.sock stream_a total_a h.open_a.local
        h.open_a.remote h.open_b.local h.open_b.remote
        (nextseq-lt stream_b total_b small_b (ends b a) h.back) small_a st
        (IsReliable-with stream_a total_a (ends a b) sent acks h.forth cs qs)

  -- What `a` sends for the first time.
  sends_more :
      (a b : Host) (now : Timeval) (p : Pass)
      → Both a b
      → sending_thread heap (local_port a) (remote_port a) now a.sock.sender a.timer ≡ some p
      → All (λ pkt. get_flags pkt ≡ no_flag) p.packets × (nextseq a ≤ p.sender.nextseq)
  sends_more a b now p h found =
      let (p', found', _, covers, _, _) =
        sending_thread-Covers stream_a heap (local_port a) (remote_port a) h.open_a.local
          h.open_a.remote now h.forth.origin a.sock.sender a.timer h.forth.sends
          (omega (arith, h.forth.end, h.forth.within, small_a)) in
      subst
        (λ (x : Pass).
          All (λ pkt. get_flags pkt ≡ no_flag) x.packets × (nextseq a ≤ x.sender.nextseq))
        (some-injective p' p (sym found' ∙ found))
        (Covers-no_flag stream_a _ _ p'.packets covers, Covers-le stream_a _ _ p'.packets covers)

  pub writing :
      (a b : Host) (s : Sender) (buffer : Memory) (len : ℕ)
      → Both a b
      → (st : Transfer.Step heap
          (local_port a)
          (remote_port a)
          b.sock
          stream_a
          total_a
          (ends a b)
          (record (ends a b) { sender = s; written = a.written + len }))
      → tju_send_round a.sock.sender buffer len ≡ returned s
      → Both (record (with_sender a s a.timer) { written = a.written + len }) b
  writing a b s buffer len h st found =
      becomes a b s a.sock.receiver a.timer (a.written + len) a.delivered h
        (moves a b _ [] [] h tt tt st) h.back
        (omega (arith, (kept-tju_send_round a.sock.sender s buffer len found).0)) (omega arith)
        (omega (arith, (kept-tju_send_round a.sock.sender s buffer len found).1, h.acked_a))
        (tju_send_round-IsLive a.sock.sender s buffer len h.live_a found)
        (tju_send_round-IsWatched a.sock.sender s a.timer buffer len h.watched_a found)

  pub sending :
      (a b : Host) (now : Timeval) (p : Pass)
      → Both a b
      → sending_thread heap (local_port a) (remote_port a) now a.sock.sender a.timer ≡ some p
      → Both (with_sender a p.sender p.timer) (gets b p.packets)
  sending a b now p h found =
      let k = moves a b _ [] [] h tt tt (Transfer.sends_data now p found) in
      let (flags, le) = sends_more a b now p h found in
      adds (with_sender a p.sender p.timer) b p.packets
        (becomes a b p.sender a.sock.receiver p.timer a.written a.delivered h
          (IsReliable-with stream_a total_a _ [] [] k tt tt) h.back le (omega arith)
          (omega (arith, base-sending_thread heap _ _ now _ _ p found, h.acked_a))
          (sending_thread-IsLive heap _ _ now _ _ p h.live_a found)
          (sending_thread-IsWatched stream_a heap _ _ h.open_a.local h.open_a.remote now
            h.forth.origin a.sock.sender a.timer p h.forth.sends
            (omega (arith, h.forth.end, h.forth.within, small_a)) h.watched_a found))
        (All-FromPeer stream_a p.sender.nextseq _ p.packets flags k.sent)

  pub resending :
      (a b : Host) (r : Resent)
      → Both a b
      → retrans_thread heap (local_port a) (remote_port a) a.sock.sender a.timer ≡ some r
      → Both (with_sender a r.sender r.timer) (gets b r.packets)
  resending a b r h found =
      let k = moves a b _ [] [] h tt tt (Transfer.resends_data r found) in
      let again =
        retrans_thread-Resends stream_a heap (local_port a) (remote_port a) h.open_a.local
          h.open_a.remote h.forth.origin a.sock.sender a.timer r h.forth.one h.forth.sends
          (omega (arith, h.forth.end, h.forth.within, small_a)) found in
      adds (with_sender a r.sender r.timer) b r.packets
        (becomes a b r.sender a.sock.receiver r.timer a.written a.delivered h
          (IsReliable-with stream_a total_a _ [] [] k tt tt) h.back (omega (arith, again.next))
          (omega arith) (omega (arith, base-retrans_thread heap _ _ _ _ r found, h.acked_a))
          (retrans_thread-IsLive heap _ _ _ _ r h.live_a found)
          (retrans_thread-IsWatched heap _ _ stream_a h.forth.origin a.sock.sender a.timer r
            h.forth.sends
            (timed_out-Sends stream_a heap _ _ h.open_a.local h.open_a.remote h.forth.origin
              a.sock.sender a.timer h.forth.sends)
            h.live_a h.watched_a found))
        (All-FromPeer stream_a r.sender.nextseq _ r.packets again.flags k.sent)
