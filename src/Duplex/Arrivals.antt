-- ===== src/Duplex/Arrivals.antt =====
-- A packet arrives at one of the two hosts, and the application of one reads.
use Prim.Native.Nat.{max}
use tju_tcp.Common.{ℕ, ◌≤◌, ◌≡◌, ◌∙◌, refl, some, inl, inr, List, [], ◌∷◌, ◌++◌, arith, Memory}
use tju_tcp.Global.{no_flag, Timeval, Sender, Receiver}
use tju_tcp.Packet.{ack_flag_mask, get_ack, get_flags}
use tju_tcp.Timer.{Timer}
use tju_tcp.Receive.{handle_data, tju_recv}
use tju_tcp.Receive.Window.{Carries, NoWrap, handle_data-Keeps}
use tju_tcp.Ack.{handle_ack}
use tju_tcp.Duplex.Watched.{handle_ack-IsWatched}
use tju_tcp.Ack.Opening.{Advertises, handle_ack-IsLive}
use tju_tcp.Ack.Window.{handle_ack-Holding}
use tju_tcp.Handle.{Handled, after_data, after_ack, ack_packet, tju_handle_packet}
use tju_tcp.Transfer
use tju_tcp.Transfer.Invariant.{no_wrap}
use tju_tcp.Duplex.{Host, gets, sent_by}
use tju_tcp.Duplex.Base.{expect_seq-tju_recv}
use tju_tcp.Duplex.Handling.{
  FromPeer, tju_handle_packet-data, tju_handle_packet-ack, ack_packet-reads,
}
use tju_tcp.Duplex.Invariant.{
  IsDuplex, IsDuplex-swap, ends, nextseq, base, expect_seq, IsReliable-with, nextseq-lt,
  expect_seq-lt,
}
use tju_tcp.Duplex.Acts.{becomes, adds, moves}

module _ (heap : Memory) (stream_a : ℕ → ℕ) (total_a : ℕ) (stream_b : ℕ → ℕ) (total_b : ℕ)
    (small_a : NoWrap total_a) (small_b : NoWrap total_b) where
  abbrev Both : Host → Host → Type 0
  Both = IsDuplex stream_a total_a stream_b total_b

  -- What `a` and `b` are once `a` has handled a packet.
  abbrev pub After : Host → Host → Handled → Type 0
  After a b r = Both (record a { sock = r.sock; timer = r.timer }) (gets b (sent_by r.effects))

  -- A data packet of the stream of `b` is filed and answered with an ACK.
  pub data_arrival :
      (a b : Host) (now : Timeval) (pkt : Memory)
      → Both a b
      → get_flags pkt ≡ no_flag
      → Carries stream_b (nextseq b) pkt
      → (r : Receiver) × (handle_data heap a.sock.receiver pkt ≡ some r)
        × (tju_handle_packet heap a.timer now a.sock pkt ≡ some (after_data heap a.timer a.sock r))
        × After a b (after_data heap a.timer a.sock r)
        × (get_flags (ack_packet heap (record a.sock { receiver = r })) ≡ ack_flag_mask)
        × (get_ack (ack_packet heap (record a.sock { receiver = r })) ≡ r.expect_seq)
        × Advertises (ack_packet heap (record a.sock { receiver = r }))
  data_arrival a b now pkt h flags c =
      let (r, found, kept) =
        handle_data-Keeps stream_b (nextseq b) (no_wrap stream_b total_b small_b (ends b a) h.back)
          heap a.sock.receiver pkt h.back.holds c in
      let k =
        moves heap stream_b total_b stream_a total_a small_b small_a b a _ (pkt ∷ []) []
          (IsDuplex-swap _ _ _ _ a b h) (c, tt) tt (Transfer.data_arrives [] [] pkt r refl found) in
      let back = IsReliable-with stream_b total_b _ [] [] k tt tt in
      let s = record a.sock { receiver = r } in
      let reads =
        ack_packet-reads heap s h.open_a.local h.open_a.remote
          (nextseq-lt stream_a total_a small_a (ends a b) h.forth)
          (expect_seq-lt stream_b total_b small_b _ back) kept.holds.left_low
          kept.holds.left_high in
      (
        r,
        found,
        tju_handle_packet-data heap a.timer now a.sock h.open_a.state pkt flags ∙ rw found refl,
        adds heap stream_a total_a stream_b total_b small_a small_b _ b (ack_packet heap s ∷ [])
            (becomes heap stream_a total_a stream_b total_b small_a small_b a b a.sock.sender r
              a.timer a.written a.delivered h h.forth back (omega arith) kept.forward h.acked_a
              h.live_a h.watched_a)
            (inr (reads.0, omega (arith, reads.1), reads.2), tt),
        reads.0,
        reads.1,
        reads.2,
      )

  -- An ACK of something that `a` has sent.
  pub ack_arrival :
      (a b : Host) (now : Timeval) (pkt : Memory)
      → Both a b
      → get_flags pkt ≡ ack_flag_mask
      → get_ack pkt ≤ expect_seq b
      → Advertises pkt
      → (r : Sender × Timer) × (handle_ack heap now a.sock.sender a.timer pkt ≡ some r)
        × (tju_handle_packet heap a.timer now a.sock pkt ≡ some (after_ack a.sock r))
        × After a b (after_ack a.sock r)
        × (r.0.base ≡ max (base a) (get_ack pkt))
  ack_arrival a b now pkt h flags le wide =
      let (s, t, found, _, slides, same) =
        handle_ack-Holding stream_a heap now a.written a.sock.sender a.timer pkt
          (record {
            origin = h.forth.origin;
            sends = h.forth.sends;
            end = h.forth.end;
            low = h.forth.one;
          })
          (omega (arith, h.forth.within, small_a)) (omega (arith, le, h.forth.holds.reach)) in
      let k =
        moves heap stream_a total_a stream_b total_b small_a small_b a b _ [] (pkt ∷ []) h tt
          (omega (arith, le, h.forth.holds.reach), tt)
          (Transfer.ack_arrives now [] [] pkt s t refl found) in
      (
        (s, t),
        found,
        tju_handle_packet-ack heap a.timer now a.sock h.open_a.state pkt flags ∙ rw found refl,
        adds heap stream_a total_a stream_b total_b small_a small_b _ b []
            (becomes heap stream_a total_a stream_b total_b small_a small_b a b s a.sock.receiver t
              a.written a.delivered h (IsReliable-with stream_a total_a _ [] [] k tt tt) h.back
              (omega (arith, same)) (omega arith) (omega (arith, slides, le, h.acked_a))
              (handle_ack-IsLive heap now a.sock.sender a.timer pkt s t h.live_a wide found)
              (handle_ack-IsWatched heap now a.sock.sender a.timer pkt s t h.watched_a found))
            tt,
        slides,
      )

  -- Whatever packet of the peer arrives, it is handled.
  pub arrival :
      (a b : Host) (now : Timeval) (pkt : Memory)
      → Both a b
      → FromPeer stream_b (nextseq b) (expect_seq b) pkt
      → (r : Handled) × (tju_handle_packet heap a.timer now a.sock pkt ≡ some r) × After a b r
  arrival a b now pkt h (inl (flags, c)) =
      let (r, _, handled, after, _, _, _) = data_arrival a b now pkt h flags c in
      (after_data heap a.timer a.sock r, handled, after)
  arrival a b now pkt h (inr (flags, le, wide)) =
      let (r, _, handled, after, _) = ack_arrival a b now pkt h flags le wide in
      (after_ack a.sock r, handled, after)

  -- The application reads.
  pub reading :
      (a b : Host) (len : ℕ) (out : List ℕ) (r : Receiver)
      → Both a b
      → tju_recv heap a.sock.receiver len ≡ some (out, r)
      → Both (record a { sock = record a.sock { receiver = r }; delivered = a.delivered ++ out }) b
  reading a b len out r h found =
      becomes heap stream_a total_a stream_b total_b small_a small_b a b a.sock.sender r a.timer
        a.written (a.delivered ++ out) h h.forth
        (moves heap stream_b total_b stream_a total_a small_b small_a b a _ [] []
          (IsDuplex-swap _ _ _ _ a b h) tt tt (Transfer.reads_data len out r found))
        (omega arith) (omega (arith, expect_seq-tju_recv heap a.sock.receiver r len out found))
        h.acked_a h.live_a h.watched_a
