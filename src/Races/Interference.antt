-- ===== src/Races/Interference.antt =====
-- What the other threads do between the reads of `sending_thread` and its lock does no harm to the
-- data that it sends.
use mathlib.Core.Option.{some-injective}
use tju_tcp.Common.{ℕ, ◌+◌, ◌^◌, ◌≤◌, ◌<◌, ◌≡◌, ◌∙◌, refl, sym, ap, subst, some, arith, Memory}
use tju_tcp.Global.{Timeval, Sender}
use tju_tcp.Timer.{Timer}
use tju_tcp.Send.{Pass}
use tju_tcp.Send.Stream.{Covers}
use tju_tcp.Send.Buffer.{tju_send_round-returned}
use tju_tcp.Ack.Sliding.{Holding}
use tju_tcp.Ack.Window.{handle_ack-Holding}
use tju_tcp.Transfer.Resends.{retrans_thread-Resends}
use tju_tcp.Transfer.Steps.{left_sender}
use tju_tcp.Races.{Snapshot, look, send_locked, Between, nothing, acked, wrote, fired, resent}
use tju_tcp.Races.Reads.{send_locked-Covers}

module _ (heap : Memory) (src dst : ℕ) (stream : ℕ → ℕ) (total : ℕ) (psrc : src < 2 ^ 16)
    (pdst : dst < 2 ^ 16) (small : total < 2 ^ 32) where
  -- The sender holds the stream up to `w`, and `nextseq` is still this.
  record Undisturbed (nextseq : ℕ) (s : Sender) (w : ℕ) : Type 0 where
    holding : Holding stream w s
    within : w ≤ total
    same : s.nextseq ≡ nextseq

  Between-Undisturbed :
      {s : Sender} {t : Timer} {w : ℕ} {s' : Sender} {t' : Timer} {w' : ℕ}
      → Between heap src dst stream total s t w s' t' w'
      → Undisturbed s.nextseq s w
      → Undisturbed s.nextseq s' w'
  Between-Undisturbed nothing h = h
  Between-Undisturbed {s} (acked {s1} {s2} {t1} {t2} {w} now pkt before le found) h =
      let k = Between-Undisturbed before h in
      let (s', t', found', holding, _, same) =
        handle_ack-Holding stream heap now w s1 t1 pkt k.holding (omega (arith, k.within, small))
          le in
      subst (λ (x : Sender × Timer). Undisturbed s.nextseq x.0 w)
        (some-injective (s', t') (s2, t2) (sym found' ∙ found))
        (record { holding = holding; within = k.within; same = same ∙ k.same })
  Between-Undisturbed {s} (wrote {s1} {s2} {t1} {w} buffer len before room fits le same found) h =
      let k = Between-Undisturbed before h in
      let (s', found', hs, longer, stays) =
        tju_send_round-returned stream k.holding.origin s1 buffer len k.holding.sends room fits
          (λ i lt. same i lt ∙ ap stream (omega (arith, k.holding.end))) in
      subst (λ x. Undisturbed s.nextseq x (w + len)) (ap left_sender (sym found' ∙ found))
        (record {
          holding = record {
            origin = k.holding.origin;
            sends = hs;
            end = omega (arith, longer, k.holding.end);
            low = k.holding.low;
          };
          within = le;
          same = stays ∙ k.same;
        })
  Between-Undisturbed (fired v before on) h = Between-Undisturbed before h
  Between-Undisturbed (resent {s1} {t1} {w} r before found) h =
      let k = Between-Undisturbed before h in
      let again =
        retrans_thread-Resends stream heap src dst psrc pdst k.holding.origin s1 t1 r k.holding.low
          k.holding.sends (omega (arith, k.holding.end, k.within, small)) found in
      record {
        holding = record {
          origin = k.holding.origin;
          sends = again.sends;
          end = omega (arith, again.len, k.holding.end);
          low = k.holding.low;
        };
        within = k.within;
        same = again.next ∙ k.same;
      }

  look-nextseq : (s : Sender) (n : Snapshot) → look s ≡ some n → n.wnd_nextseq ≡ s.nextseq
  unfolding look
  look-nextseq s n e = ground arith

  -- `sending_thread` has read the window of a sender that holds the stream. Whatever the other
  -- threads do before it gets the lock, ACKs that empty the buffer, calls of `tju_send` that find
  -- room for all their bytes, timers that run out and retransmissions in any number and order: its
  -- round returns, and its packets carry the stream from `nextseq` on, in order and without a gap,
  -- up to the new `nextseq`, which no one else has moved.
  pub Between-Covers :
      (now : Timeval) (n : Snapshot) (s s' : Sender) (t t' : Timer) (w w' : ℕ)
      → Holding stream w s
      → w ≤ total
      → look s ≡ some n
      → Between heap src dst stream total s t w s' t' w'
      → (p : Pass) × (send_locked heap src dst now n s' t' ≡ some p)
        × Covers stream s.nextseq p.packets p.sender.nextseq
        × Holding stream w' p.sender
  Between-Covers now n s s' t t' w w' h le looked between =
      let k = Between-Undisturbed between (record { holding = h; within = le; same = refl }) in
      let (p, found, sends, covers, len) =
        send_locked-Covers stream heap src dst psrc pdst now k.holding.origin n s' t'
          k.holding.sends (omega (arith, k.holding.end, k.within, small))
          (look-nextseq s n looked ∙ sym k.same) in
      (
        p,
        found,
        subst (λ q. Covers stream q p.packets p.sender.nextseq) k.same covers,
        record {
          origin = k.holding.origin;
          sends = sends;
          end = omega (arith, len, k.holding.end);
          low = k.holding.low;
        },
      )
