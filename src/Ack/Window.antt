-- ===== src/Ack/Window.antt =====
-- The sliding of the sending window, against the byte stream of the application.
use tju_tcp.Common.{
  ℕ, ◌^◌, ◌≤◌, ◌<◌, ◌≡◌, refl, some, arith, Memory, false, ◌==◌, ltb, Bool-cases, inl, inr,
}
use Prim.Native.Nat.{max}
use tju_tcp.Global.{Timeval, Sender}
use tju_tcp.Packet.{get_ack}
use tju_tcp.Timer.{Timer, start_timer}
use tju_tcp.Ack.{
  handle_ack, handle_ack_kind, duplicate_ack, new_ack, slid, retime, clean, cleaned, needs_cleaning,
  probe_later, advertised, update_size,
}
use tju_tcp.Ack.Sliding.{
  Holding, duplicate_ack-Same, retime-Same, slid-Sends, Holding-Same, cleaned-Holding,
}

module _ (stream : ℕ → ℕ) where
  -- What an operation on the sender leaves: the stream is held as before, up to the same end, with
  -- `base` at `ack` and `nextseq` as it was.
  record Slides (last ack seq : ℕ) (s' : Sender) : Type 0 where
    holding : Holding stream last s'
    base : s'.base ≡ ack
    next : s'.nextseq ≡ seq

  clean-Slides :
      (heap : Memory) (last ack next : ℕ) (s : Sender)
      → Slides last ack next s
      → (s' : Sender) × (clean heap s ≡ some s') × Slides last ack next s'
  unfolding clean
  clean-Slides heap last ack next s h = elim (Bool-cases (needs_cleaning s)) [
    | inr stays ↦ (s, rw stays, h)
    | inl cleans ↦ (
      cleaned heap s,
      ground (arith, h.holding.sends.acked, h.holding.sends.sent),
      record {
        holding = cleaned-Holding stream heap last s h.holding;
        base = h.base;
        next = h.next;
      },
    )
  ]

  retime-Slides :
      (last ack next : ℕ) (s : Sender) (t : Timer)
      → Slides last ack next s
      → Slides last ack next (retime s t).0
  retime-Slides last ack next s t h = record {
    holding = Holding-Same stream last s _ (retime-Same stream s t) h.holding;
    base = ground (arith, h.base);
    next = ground (arith, h.next);
  }

  new_ack-Slides :
      (heap : Memory) (now : Timeval) (last : ℕ) (s : Sender) (t : Timer) (ack : ℕ)
      → Holding stream last s
      → last < 2 ^ 32
      → s.base ≤ ack
      → ack ≤ s.nextseq
      → (s' : Sender) × (new_ack heap now s t ack ≡ some (s', (retime (slid now s ack) t).1))
        × Slides last ack s.nextseq s'
  unfolding new_ack
  new_ack-Slides heap now last s t ack h small lo hi =
      let (sends, base, next, len) =
        slid-Sends stream now h.origin s ack h.sends (omega (arith, h.end)) lo hi in
      let (s', e, slides) = clean-Slides heap last ack s.nextseq (retime (slid now s ack) t).0 (
        retime-Slides last ack s.nextseq (slid now s ack) t (record {
          holding = record {
            origin = h.origin;
            sends = sends;
            end = omega (arith, len, h.end);
            low = h.low;
          };
          base = base;
          next = next;
        })) in
      (s', rw e, slides)

  probe_later-Slides :
      (last ack seq : ℕ) (s : Sender) (t : Timer)
      → Slides last ack seq s
      → (s' : Sender) × (t' : Timer) × (probe_later (some (s, t)) ≡ some (s', t'))
        × Slides last ack seq s'
  probe_later-Slides last ack seq s t h = elim (Bool-cases (s.window_size == 0)) [
    | inr opened ↦ (s, t, rw opened, h)
    | inl shut ↦ (
      record s { is_retransing = false },
      start_timer t s.wnd_send,
      rw shut,
      record {
        holding = Holding-Same stream last s _ (refl, refl, refl, refl, refl, refl) h.holding;
        base = h.base;
        next = h.next;
      },
    )
  ]

  kind-Slides :
      (heap : Memory) (now : Timeval) (last : ℕ) (s : Sender) (t : Timer) (pkt : Memory)
      → Holding stream last s
      → last < 2 ^ 32
      → get_ack pkt ≤ s.nextseq
      → (s' : Sender) × (t' : Timer) × (handle_ack_kind heap now s t pkt ≡ some (s', t'))
        × Slides last (max s.base (get_ack pkt)) s.nextseq s'
  unfolding handle_ack_kind
  kind-Slides heap now last s t pkt h small hi = elim (Bool-cases (ltb (get_ack pkt) s.base)) [
    | inl below ↦ (
      record s { wnd_send = update_size (advertised s pkt).wnd_send },
      t,
      rw below,
      record {
        holding = Holding-Same stream last s _ (refl, refl, refl, refl, refl, refl) h;
        base = ground arith;
        next = refl;
      },
    )
    | inr above ↦ elim (Bool-cases (get_ack pkt == s.base)) [
      | inl same ↦
          let kept = duplicate_ack-Same stream (advertised s pkt) t in
          (
            (duplicate_ack (advertised s pkt) t).0,
            (duplicate_ack (advertised s pkt) t).1,
            rw (above, same),
            record {
              holding = Holding-Same stream last s _ kept h;
              base = ground (arith, kept.3);
              next = kept.4;
            },
          )
      | inr other ↦
          let (s', e, slides) =
            new_ack-Slides heap now last (advertised s pkt) t (get_ack pkt)
              (Holding-Same stream last s _ (refl, refl, refl, refl, refl, refl) h) small
              (ground arith) hi in
          (
            s',
            (retime (slid now (advertised s pkt) (get_ack pkt)) t).1,
            rw (above, other) e,
            record {
              holding = slides.holding;
              base = ground (arith, slides.base);
              next = slides.next;
            },
          )
    ]
  ]

  -- A sender that holds the stream up to some number below 2 ^ 32 gets an ACK of nothing that was
  -- not sent. It is handled without an access outside the buffer, and the sender still holds the
  -- stream up to that number; `base` moves to the ACK if that is ahead of it and never goes back,
  -- and `nextseq` stays.
  pub handle_ack-Holding :
      (heap : Memory) (now : Timeval) (last : ℕ) (s : Sender) (t : Timer) (pkt : Memory)
      → Holding stream last s
      → last < 2 ^ 32
      → get_ack pkt ≤ s.nextseq
      → (s' : Sender) × (t' : Timer) × (handle_ack heap now s t pkt ≡ some (s', t'))
        × Holding stream last s'
        × (s'.base ≡ max s.base (get_ack pkt))
        × (s'.nextseq ≡ s.nextseq)
  unfolding handle_ack
  handle_ack-Holding heap now last s t pkt h small hi =
      let (s1, t1, e1, h1) = kind-Slides heap now last s t pkt h small hi in
      let (s', t', e', h') =
        probe_later-Slides last (max s.base (get_ack pkt)) s.nextseq s1 t1 h1 in
      (s', t', rw e1 e', h'.holding, h'.base, h'.next)
