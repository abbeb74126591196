-- ===== src/Transfer/Delivery.antt =====
-- Reliable delivery from one end to the other.
use tju_tcp.Common.{ℕ, ◌+◌, ◌^◌, ◌≤◌, ◌<◌, ◌≡◌, subst, some, List, ◌∷◌, ◌++◌, arith, Memory, slice}
use tju_tcp.Global.{Timeval, Sender, Receiver, Sock}
use tju_tcp.Packet.{get_ack}
use tju_tcp.Kernel.Delivery.{All}
use tju_tcp.Timer.{Timer}
use tju_tcp.Send.{Pass, sending_thread}
use tju_tcp.Send.Loop.{sending_thread-Covers}
use tju_tcp.Receive.{handle_data}
use tju_tcp.Receive.Window.{Carries, NoWrap, handle_data-Keeps}
use tju_tcp.Ack.{handle_ack}
use tju_tcp.Ack.Window.{handle_ack-Holding}
use tju_tcp.Transfer.{begin, Ends, Reach, here, next}
use tju_tcp.Retransmit.{Resent, retrans_thread}
use tju_tcp.Transfer.Resends.{retrans_thread-returns}
use tju_tcp.Transfer.Packets.{All-at}
use tju_tcp.Transfer.Invariant.{IsReliable, no_wrap, fresh-IsReliable, IsReliable-delivered}
use tju_tcp.Transfer.Steps.{Step-IsReliable}

module _ (heap : Memory) (src dst : ℕ) (peer : Sock) (stream : ℕ → ℕ) (total : ℕ)
    (psrc : src < 2 ^ 16) (pdst : dst < 2 ^ 16)
    (peer_src : peer.established_local_addr.port < 2 ^ 16)
    (peer_dst : peer.established_remote_addr.port < 2 ^ 16)
    (peer_seq : peer.sender.nextseq < 2 ^ 32) (small : NoWrap total) where
  Reach-IsReliable :
      (junk : Sock) (t : Timer) (e : Ends)
      → 1 ≤ total
      → Reach heap src dst peer stream total (begin heap junk t) e
      → IsReliable stream total e
  Reach-IsReliable junk t _ one here = fresh-IsReliable heap stream total junk junk t one
  Reach-IsReliable junk t _ one (next reach st) =
      Step-IsReliable heap src dst peer stream total psrc pdst peer_src peer_dst peer_seq small st
        (Reach-IsReliable junk t _ one reach)

  -- Two sockets that `tju_socket` has made, an application that writes a stream of bytes to the
  -- one, in writes for which there is room, and one that reads from the other; between them a
  -- network that loses, repeats and reorders packets. Whatever has happened: what was read is the
  -- beginning of what was written, in order, with no byte missing, repeated or changed. The ports
  -- fit 16 bits, and the stream is shorter than 2 ^ 32 less a window.
  pub Reach-delivered :
      (junk : Sock) (t : Timer) (e : Ends)
      → 1 ≤ total
      → Reach heap src dst peer stream total (begin heap junk t) e
      → (n : ℕ) × (e.delivered ≡ slice stream 1 n) × (1 + n ≤ e.written)
  Reach-delivered junk t e one reach =
      IsReliable-delivered stream total e (Reach-IsReliable junk t e one reach)

  -- In every run of the two ends, from sockets that `tju_socket` has made, for a stream shorter than
  -- 2 ^ 32 less a window, no step fails: any data packet that was sent is handled when it arrives, and
  -- so is any ACK, and a round of `sending_thread` and one of `retrans_thread` return, all without an
  -- access outside a buffer.
  pub Reach-runs :
      (junk : Sock) (t : Timer) (e : Ends)
      → 1 ≤ total
      → Reach heap src dst peer stream total (begin heap junk t) e
      → ((before after : List Memory) (pkt : Memory)
          → e.sent ≡ before ++ pkt ∷ after
          → (r : Receiver) × (handle_data heap e.receiver pkt ≡ some r))
        × ((now : Timeval) (before after : List Memory) (pkt : Memory)
            → e.acks ≡ before ++ pkt ∷ after
            → (r : Sender × Timer) × (handle_ack heap now e.sender e.timer pkt ≡ some r))
        × ((now : Timeval)
            → (p : Pass) × (sending_thread heap src dst now e.sender e.timer ≡ some p))
        × ((r : Resent) × (retrans_thread heap src dst e.sender e.timer ≡ some r))
  Reach-runs junk t e one reach =
      let h = Reach-IsReliable junk t e one reach in
      (
        λ before after pkt at.
            let (r, found, _) =
              handle_data-Keeps stream e.sender.nextseq (no_wrap stream total small e h) heap
                e.receiver pkt h.holds
                (All-at _ before after pkt
                  (subst (All (Carries stream e.sender.nextseq)) at h.sent)) in
            (r, found),
        λ now before after pkt at.
            let (s', t', found, _, _, _) =
              handle_ack-Holding stream heap now e.written e.sender e.timer pkt
                (record { origin = h.origin; sends = h.sends; end = h.end; low = h.one })
                (omega (arith, h.within, small))
                (All-at (λ q. get_ack q ≤ e.sender.nextseq) before after pkt
                  (subst (All (λ q. get_ack q ≤ e.sender.nextseq)) at h.acks)) in
            ((s', t'), found),
        λ now.
            let (p, found, _, _, _, _) =
              sending_thread-Covers stream heap src dst psrc pdst now h.origin e.sender e.timer
                h.sends (omega (arith, h.end, h.within, small)) in
            (p, found),
        retrans_thread-returns stream heap src dst psrc pdst h.origin e.sender e.timer h.sends
            (omega (arith, h.end, h.within, small)),
      )
