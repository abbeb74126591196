-- ===== src/Retransmit/Covers.antt =====
-- What `retrans_thread` sends, against the byte stream of the application.
use mathlib.Core.Path.{subst₂}
use tju_tcp.Common.{
  ap, sym, subst, ℕ, ◌+◌, ◌/◌, ◌≢◌, ◌^◌, ◌<◌, ◌≡◌, refl, ◌∙◌, some, arith, Memory, true, false,
  if◌then◌else◌,
}
use tju_tcp.Global.{Sender, max_dlen, slow_start}
use tju_tcp.Timer.{Timer}
use tju_tcp.Send.Stream.{Covers, Sends}
use tju_tcp.Retransmit.Loop.{Repeats, resend_loop-Covers}
use tju_tcp.Retransmit.{
  Resent, after_timeout, timed_out, finish, resend_all, resend, retrans_thread,
}

base-timed_out : (s : Sender) (t : Timer) → (timed_out s t).base ≡ s.base
unfolding after_timeout
base-timed_out s t = ground arith

nextseq-timed_out : (s : Sender) (t : Timer) → (timed_out s t).nextseq ≡ s.nextseq
unfolding after_timeout
nextseq-timed_out s t = ground arith

module _ (stream : ℕ → ℕ) (heap : Memory) (src dst : ℕ) (psrc : src < 2 ^ 16)
    (pdst : dst < 2 ^ 16) where
  module _ (origin : ℕ) (s : Sender) (h : Sends stream origin s)
      (small : origin + s.sending_len < 2 ^ 32) where
    repeats : Repeats stream heap src dst psrc pdst s.base s.ack_cnt s
    repeats = record {
      start = h.acked;
      short = omega (arith, h.sent);
      small = omega (arith, h.base, h.acked, h.sent);
      content = λ t lt.
          h.content (s.ack_cnt + t) (omega (arith, h.sent)) ∙ ap stream (omega (arith, h.base));
    }

    resend_now :
        (t : Timer)
        → (r : Resent) × (resend_all heap src dst s t ≡ some r)
          × (r.sender ≡ record s { is_retransing = false })
          × (r.timer.retrans ≡ false)
          × Covers stream s.base r.packets s.nextseq
    unfolding resend_all
    resend_now t =
        let (c, e, same, covers) =
          resend_loop-Covers stream heap src dst psrc pdst s.base s.ack_cnt s repeats t in
        (
          finish c,
          rw e,
          ap (λ (x : Sender). record x { is_retransing = false }) same,
          refl,
          subst (Covers stream s.base c.resent.packets) (omega (arith, h.base, h.next, h.acked))
              covers,
        )

  pub timed_out-Sends :
      (origin : ℕ) (s : Sender) (t : Timer)
      → Sends stream origin s
      → Sends stream origin (timed_out s t)
  unfolding after_timeout
  timed_out-Sends origin s t h = record {
    acked = ground (arith, h.acked);
    sent = ground (arith, h.sent);
    room = ground (arith, h.room);
    base = ground (arith, h.base);
    next = ground (arith, h.next);
    content = λ i lt. ground (arith, h.content i);
  }

  -- The sender holds the stream, with numbers below 2 ^ 32, a retransmission is due and the window
  -- is not 0. Then a round of `retrans_thread` returns. It sends again everything from `base` to
  -- `nextseq`, in order, without a gap and nothing else; the request is cleared, and the sender
  -- holds the stream as before. After a timeout `cwnd` is one segment, `ssthresh` half of the old
  -- `cwnd`, and slow start begins; otherwise these stay.
  pub retrans_thread-Covers :
      (origin : ℕ) (s : Sender) (t : Timer)
      → Sends stream origin s
      → origin + s.sending_len < 2 ^ 32
      → t.retrans ≡ true
      → s.window_size ≢ 0
      → s.is_retransing ≡ true
      → (r : Resent) × (retrans_thread heap src dst s t ≡ some r)
        × Sends stream origin r.sender
        × Covers stream s.base r.packets s.nextseq
        × (r.sender.nextseq ≡ s.nextseq)
        × (r.sender.sending_len ≡ s.sending_len)
        × (r.sender.is_retransing ≡ false)
        × (r.timer.retrans ≡ false)
        × (r.sender.cwnd ≡ (if t.timeout_flag then max_dlen else s.cwnd))
        × (r.sender.ssthresh ≡ (if t.timeout_flag then s.cwnd / 2 else s.ssthresh))
        × (r.sender.window_status ≡ (if t.timeout_flag then slow_start else s.window_status))
  unfolding retrans_thread resend after_timeout
  retrans_thread-Covers origin s t h small due open_window on =
      outcome (resend_now origin (timed_out s t) begun (ground (arith, small)) t)
    where
      begun : Sends stream origin (timed_out s t)
      begun = timed_out-Sends origin s t h

      outcome :
          (r : Resent) × (resend_all heap src dst (timed_out s t) t ≡ some r)
            × (r.sender ≡ record (timed_out s t) { is_retransing = false })
            × (r.timer.retrans ≡ false)
            × Covers stream (timed_out s t).base r.packets (timed_out s t).nextseq
          → (r : Resent) × (retrans_thread heap src dst s t ≡ some r)
            × Sends stream origin r.sender
            × Covers stream s.base r.packets s.nextseq
            × (r.sender.nextseq ≡ s.nextseq)
            × (r.sender.sending_len ≡ s.sending_len)
            × (r.sender.is_retransing ≡ false)
            × (r.timer.retrans ≡ false)
            × (r.sender.cwnd ≡ (if t.timeout_flag then max_dlen else s.cwnd))
            × (r.sender.ssthresh ≡ (if t.timeout_flag then s.cwnd / 2 else s.ssthresh))
            × (r.sender.window_status ≡ (if t.timeout_flag then slow_start else s.window_status))
      outcome (r, e, same, off, c) = (
        r,
        ground arith,
        subst (Sends stream origin) (sym same) (record {
          acked = begun.acked;
          sent = begun.sent;
          room = begun.room;
          base = begun.base;
          next = begun.next;
          content = begun.content;
        }),
        subst₂ (λ a b. Covers stream a r.packets b) (base-timed_out s t) (nextseq-timed_out s t) c,
        ap (λ (x : Sender). x.nextseq) same ∙ nextseq-timed_out s t,
        ap (λ (x : Sender). x.sending_len) same ∙ ground arith,
        ap (λ (x : Sender). x.is_retransing) same,
        off,
        ap (λ (x : Sender). x.cwnd) same ∙ ground arith,
        ap (λ (x : Sender). x.ssthresh) same ∙ ground arith,
        ap (λ (x : Sender). x.window_status) same ∙ ground arith,
      )
