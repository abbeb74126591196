-- ===== src/Transfer/Steps.antt =====
-- Every step of the two ends and the network keeps the invariant.
use mathlib.Core.Option.{some-injective}
use tju_tcp.Common.{
  ℕ, ◌+◌, ◌^◌, ◌≤◌, ◌<◌, ◌≡◌, ◌∙◌, refl, sym, ap, subst, some, List, ◌∷◌, ◌++◌, arith, Memory,
  slice, slice-append, min,
}
use tju_tcp.Global.{Timeval, Sender, Receiver, Sock}
use tju_tcp.Packet.{get_ack}
use tju_tcp.Kernel.Delivery.{All}
use tju_tcp.Timer.{Timer, sigalrm}
use tju_tcp.Send.{Pass, Copy, returned, again}
use tju_tcp.Send.Loop.{sending_thread-Covers}
use tju_tcp.Send.Buffer.{tju_send_round-returned}
use tju_tcp.Receive.{handle_data, tju_recv}
use tju_tcp.Receive.Window.{Carries, NoWrap, handle_data-Keeps}
use tju_tcp.Receive.Delivery.{next_byte, tju_recv-slice}
use tju_tcp.Ack.Window.{handle_ack-Holding}
use tju_tcp.Ack.{handle_ack}
use tju_tcp.Handle.{ack_packet}
use tju_tcp.Handle.Control.{control_packet-Reads}
use tju_tcp.Transfer.{
  Ends, Step, writes_data, sends_data, resends_data, timer_fires, data_arrives, ack_arrives,
  reads_data,
}
use tju_tcp.Transfer.Packets.{All-at, Covers-le, Covers-Carries}
use tju_tcp.Transfer.Resends.{retrans_thread-Resends}
use tju_tcp.Transfer.Invariant.{IsReliable, no_wrap, advances, replaces}

abbrev pub left_sender : Copy → Sender
left_sender (returned s) = s
left_sender (again s _ _) = s

module _ (heap : Memory) (src dst : ℕ) (peer : Sock) (stream : ℕ → ℕ) (total : ℕ)
    (psrc : src < 2 ^ 16) (pdst : dst < 2 ^ 16)
    (peer_src : peer.established_local_addr.port < 2 ^ 16)
    (peer_dst : peer.established_remote_addr.port < 2 ^ 16)
    (peer_seq : peer.sender.nextseq < 2 ^ 32) (small : NoWrap total) where
  get_ack-ack_packet :
      (r : Receiver)
      → r.expect_seq < 2 ^ 32
      → get_ack (ack_packet heap (record peer { receiver = r })) ≡ r.expect_seq
  unfolding ack_packet
  get_ack-ack_packet r lt =
      (control_packet-Reads heap _ _ _ _ _ _ peer_src peer_dst peer_seq lt (omega arith)
        (omega arith)).of_ack

  more :
      (r : Receiver) (len : ℕ) (out : List ℕ) (r' : Receiver)
      → tju_recv heap r len ≡ some (out, r')
      → 0 < r.received_len
  unfolding tju_recv
  more r len out r' e = ground arith

  -- A data packet arrives.
  arrival :
      (e : Ends) (before after : List Memory) (pkt : Memory) (r : Receiver)
      → e.sent ≡ before ++ pkt ∷ after
      → handle_data heap e.receiver pkt ≡ some r
      → IsReliable stream total e
      → IsReliable stream total (record e {
        receiver = r;
        acks = ack_packet heap (record peer { receiver = r }) ∷ e.acks;
      })
  arrival e before after pkt r at found h =
      let (r', found', kept) =
        handle_data-Keeps stream e.sender.nextseq (no_wrap stream total small e h) heap e.receiver
          pkt h.holds
          (All-at _ before after pkt (subst (All (Carries stream e.sender.nextseq)) at h.sent)) in
      subst
        (λ (x : Receiver). IsReliable stream total (record e {
          receiver = x;
          acks = ack_packet heap (record peer { receiver = x }) ∷ e.acks;
        }))
        (some-injective r' r (sym found' ∙ found))
        (record {
          origin = h.origin;
          one = h.one;
          sends = h.sends;
          end = h.end;
          within = h.within;
          holds = kept.holds;
          sent = h.sent;
          acks = (
            omega (
              arith,
              get_ack-ack_packet r'
                  (omega (arith, kept.holds.reach, no_wrap stream total small e h)),
              kept.holds.reach,
            ),
            h.acks,
          );
          given = h.given;
          delivered = h.delivered;
          position = omega (arith, h.position, kept.position, kept.holds.low, h.holds.low);
        })

  -- An ACK arrives.
  acknowledged :
      (e : Ends) (now : Timeval) (before after : List Memory) (pkt : Memory) (s : Sender)
      (t : Timer)
      → e.acks ≡ before ++ pkt ∷ after
      → handle_ack heap now e.sender e.timer pkt ≡ some (s, t)
      → IsReliable stream total e
      → IsReliable stream total (record e { sender = s; timer = t })
  acknowledged e now before after pkt s t at found h =
      let (s', t', found', hold, _, same) =
        handle_ack-Holding stream heap now e.written e.sender e.timer pkt
          (record { origin = h.origin; sends = h.sends; end = h.end; low = h.one })
          (omega (arith, h.within, small))
          (All-at (λ q. get_ack q ≤ e.sender.nextseq) before after pkt
            (subst (All (λ q. get_ack q ≤ e.sender.nextseq)) at h.acks)) in
      subst
        (λ (x : Sender × Timer). IsReliable stream total (record e { sender = x.0; timer = x.1 }))
        (some-injective (s', t') (s, t) (sym found' ∙ found))
        (replaces stream total e s' t' e.written h hold h.within same)

  -- The application reads.
  reading :
      (e : Ends) (len : ℕ) (out : List ℕ) (r : Receiver)
      → tju_recv heap e.receiver len ≡ some (out, r)
      → IsReliable stream total e
      → IsReliable stream total (record e { receiver = r; delivered = e.delivered ++ out })
  reading e len out r found h =
      let n = min len e.receiver.received_len in
      let (r', found', hs, pos, _) =
        tju_recv-slice stream e.sender.nextseq heap e.receiver len h.holds
          (more e.receiver len out r found) in
      subst
        (λ (x : List ℕ × Receiver).
          IsReliable stream total (record e { receiver = x.1; delivered = e.delivered ++ x.0 }))
        (some-injective (slice stream (next_byte e.receiver) n, r') (out, r) (sym found' ∙ found))
        (record {
          origin = h.origin;
          one = h.one;
          sends = h.sends;
          end = h.end;
          within = h.within;
          holds = hs;
          sent = h.sent;
          acks = h.acks;
          given = h.given + n;
          delivered = rw (h.delivered, slice-append stream 1 h.given n, h.position) refl;
          position = omega (arith, pos, h.position);
        })

  pub Step-IsReliable :
      {e f : Ends}
      → Step heap src dst peer stream total e f
      → IsReliable stream total e
      → IsReliable stream total f
  Step-IsReliable {e} (writes_data s buffer len room fits le same found) h =
      let (s', found', hs, longer, stays) =
        tju_send_round-returned stream h.origin e.sender buffer len h.sends room fits
          (λ i lt. same i lt ∙ ap stream (omega (arith, h.end))) in
      subst (λ x. IsReliable stream total (record e { sender = x; written = e.written + len }))
        (ap left_sender (sym found' ∙ found))
        (replaces stream total e s' e.timer (e.written + len) h
          (record {
            origin = h.origin;
            sends = hs;
            end = omega (arith, longer, h.end);
            low = h.one;
          })
          le stays)
  Step-IsReliable {e} (sends_data now p found) h =
      let (p', found', hs, covers, len, _) =
        sending_thread-Covers stream heap src dst psrc pdst now h.origin e.sender e.timer h.sends
          (omega (arith, h.end, h.within, small)) in
      subst
        (λ (x : Pass).
          IsReliable stream total
            (record e { sender = x.sender; timer = x.timer; sent = e.sent ++ x.packets }))
        (some-injective p' p (sym found' ∙ found))
        (advances stream total e p'.sender p'.timer p'.packets h hs len
          (Covers-le stream _ _ p'.packets covers)
          (Covers-Carries stream p'.sender.nextseq _ _ p'.packets (omega arith) covers))
  Step-IsReliable {e} (resends_data r found) h =
      let k =
        retrans_thread-Resends stream heap src dst psrc pdst h.origin e.sender e.timer r h.one
          h.sends (omega (arith, h.end, h.within, small)) found in
      advances stream total e r.sender r.timer r.packets h k.sends k.len (omega (arith, k.next))
        (subst (λ q. All (Carries stream q) r.packets) (sym k.next) k.packets)
  Step-IsReliable {e} (timer_fires v on) h =
      replaces stream total e e.sender (sigalrm v e.timer) e.written h
        (record { origin = h.origin; sends = h.sends; end = h.end; low = h.one }) h.within refl
  Step-IsReliable {e} (data_arrives before after pkt r at found) h =
      arrival e before after pkt r at found h
  Step-IsReliable {e} (ack_arrives now before after pkt s t at found) h =
      acknowledged e now before after pkt s t at found h
  Step-IsReliable {e} (reads_data len out r found) h = reading e len out r found h
