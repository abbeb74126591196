-- ===== src/Duplex/Live.antt =====
-- The threads keep the sending window able to open.
use mathlib.Core.Option.{none-ne-some, some-injective}
use tju_tcp.Common.{
  ℕ, zero, suc, [], ◌-◌, ◌≡◌, ◌≢◌, ◌∙◌, refl, ap, subst, inl, inr, ltb, ◌==◌, ◌&&◌, not,
  if◌then◌else◌, Bool-cases, some, arith, Memory,
}
use tju_tcp.Global.{Timeval, Sender, Sock}
use tju_tcp.Timer.{Timer}
use tju_tcp.Send.{Pass, send_end, send_round, send_loop, sending_thread, returned, tju_send_round}
use tju_tcp.Retransmit.{
  Resent, Cursor, begin_resend, resend_round, resend_loop, resend_all, resend, rearm, timed_out,
  retrans_thread, after_timeout,
}
use tju_tcp.Ack.Opening.{IsLive}
use tju_tcp.Transfer.Steps.{left_sender}
use tju_tcp.Connection.{tju_socket}

-- The fields of the window that `IsLive` is about.
pub record Same (s s' : Sender) : Type 0 where
  pub size : s'.window_size ≡ s.window_size
  pub rwnd : s'.rwnd ≡ s.rwnd
  pub cwnd : s'.cwnd ≡ s.cwnd
  pub status : s'.window_status ≡ s.window_status
  pub same : s'.same_ack_cnt ≡ s.same_ack_cnt

Same-IsLive : (s s' : Sender) → Same s s' → IsLive s → IsLive s'
Same-IsLive s s' k h = record {
  rwnd_low = rw k.rwnd h.rwnd_low;
  rwnd_high = rw k.rwnd h.rwnd_high;
  size = rw k.size h.size;
  grows = rw (k.status, k.cwnd, k.same) h.grows;
}

Same-trans : (s s' s'' : Sender) → Same s s' → Same s' s'' → Same s s''
Same-trans s s' s'' h k = record {
  size = k.size ∙ h.size;
  rwnd = k.rwnd ∙ h.rwnd;
  cwnd = k.cwnd ∙ h.cwnd;
  status = k.status ∙ h.status;
  same = k.same ∙ h.same;
}

Same-refl : (s s' : Sender) → s ≡ s' → Same s s'
Same-refl s s' e =
    subst (Same s) e (record { size = refl; rwnd = refl; cwnd = refl; status = refl; same = refl })

-- The sender whose packets a round of `retrans_thread` sends again.
abbrev pub resends_from : Sender → Timer → Sender
resends_from s t =
    if t.retrans && not (s.window_size == 0) && s.is_retransing then timed_out s t else s

module _ (heap : Memory) (src dst : ℕ) where
  send_round-Same :
      (now : Timeval) (wnd_base stop : ℕ) (p : Pass)
      → Same p.sender (send_round heap src dst now wnd_base stop p).sender
  unfolding send_round
  send_round-Same now wnd_base stop p = ground arith

  send_loop-Same :
      (fuel : ℕ) (now : Timeval) (wnd_base stop : ℕ) (p p' : Pass)
      → send_loop heap src dst fuel now wnd_base stop p ≡ some p'
      → Same p.sender p'.sender
  unfolding send_loop
  send_loop-Same zero now wnd_base stop p p' e = absurd (none-ne-some p' e)
  send_loop-Same (suc fuel) now wnd_base stop p p' e =
      elim (Bool-cases (ltb p.sender.have_send_len stop)) [
        | inl more ↦
            Same-trans _ _ _ (send_round-Same now wnd_base stop p)
              (send_loop-Same fuel now wnd_base stop _ p' (rw more at e))
        | inr done ↦
            Same-refl _ _ (ap (λ (x : Pass). x.sender) (some-injective p p' (rw done at e)))
      ]

  pub sending_thread-Same :
      (now : Timeval) (s : Sender) (t : Timer) (p : Pass)
      → sending_thread heap src dst now s t ≡ some p
      → Same s p.sender
  unfolding sending_thread
  sending_thread-Same now s t p e = grind (
    arith,
    send_loop-Same (suc (send_end s - s.have_send_len)) now s.base (send_end s)
        (record { sender = s; seq = s.nextseq; timer = t; packets = [] }),
  )

  resend_loop-Same :
      (fuel have_sent : ℕ) (c c' : Cursor)
      → resend_loop heap src dst fuel have_sent c ≡ some c'
      → Same c.resent.sender c'.resent.sender
  unfolding resend_loop resend_round
  resend_loop-Same zero have_sent c c' e = absurd (none-ne-some c' e)
  resend_loop-Same (suc fuel) have_sent c c' e = elim (Bool-cases (ltb c.wnd_ack_cnt have_sent)) [
    | inl more ↦
        Same-trans _ (resend_round heap src dst have_sent c).resent.sender _ (ground arith)
          (resend_loop-Same fuel have_sent _ c' (rw more at e))
    | inr done ↦
        Same-refl _ _ (ap (λ (x : Cursor). x.resent.sender) (some-injective c c' (rw done at e)))
  ]

  resend_all-Same :
      (s : Sender) (t : Timer) (r : Resent) → resend_all heap src dst s t ≡ some r → Same s r.sender
  unfolding resend_all
  resend_all-Same s t r e = grind (
    arith,
    resend_loop-Same (suc (s.have_send_len - s.ack_cnt)) s.have_send_len (begin_resend s t),
  )

  timed_out-IsLive : (s : Sender) (t : Timer) → IsLive s → IsLive (timed_out s t)
  unfolding after_timeout
  timed_out-IsLive s t h = record {
    rwnd_low = ground (arith, h.rwnd_low);
    rwnd_high = ground (arith, h.rwnd_high);
    size = ground (arith, h.size);
    grows = ground (arith, h.grows);
  }

  resends_from-IsLive : (s : Sender) (t : Timer) → IsLive s → IsLive (resends_from s t)
  resends_from-IsLive s t h =
      elim (Bool-cases (t.retrans && not (s.window_size == 0) && s.is_retransing)) [
        | inl late ↦ rw late (timed_out-IsLive s t h)
        | inr early ↦ rw early h
      ]

  -- A round changes these fields after a timeout alone, before it sends.
  pub retrans_thread-Same :
      (s : Sender) (t : Timer) (r : Resent)
      → retrans_thread heap src dst s t ≡ some r
      → Same (resends_from s t) r.sender
  unfolding retrans_thread resend rearm
  retrans_thread-Same s t r e = elim (Bool-cases t.retrans) [
    | inr off ↦ ground (arith, off, e)
    | inl due ↦ elim (Bool-cases (s.window_size == 0)) [
      | inl shut ↦ ground (arith, due, shut, e)
      | inr opened ↦ elim (Bool-cases s.is_retransing) [
        | inl on ↦
            subst (λ x. Same x r.sender) (ground (arith, due, opened, on))
              (resend_all-Same (timed_out s t) t r (ground (arith, due, opened, on, e)))
        | inr idle ↦ ground (arith, due, opened, idle, e)
      ]
    ]
  ]

  pub retrans_thread-IsLive :
      (s : Sender) (t : Timer) (r : Resent)
      → IsLive s
      → retrans_thread heap src dst s t ≡ some r
      → IsLive r.sender
  retrans_thread-IsLive s t r h e =
      Same-IsLive _ _ (retrans_thread-Same s t r e) (resends_from-IsLive s t h)

  -- A window that is not 0 is not 0 behind a retransmission.
  pub window_size-retrans_thread :
      (s : Sender) (t : Timer) (r : Resent)
      → IsLive s
      → s.window_size ≢ 0
      → retrans_thread heap src dst s t ≡ some r
      → r.sender.window_size ≢ 0
  unfolding after_timeout
  window_size-retrans_thread s t r h opened e =
      ground (arith, (retrans_thread-Same s t r e).size, h.rwnd_low)

  pub sending_thread-IsLive :
      (now : Timeval) (s : Sender) (t : Timer) (p : Pass)
      → IsLive s
      → sending_thread heap src dst now s t ≡ some p
      → IsLive p.sender
  sending_thread-IsLive now s t p h e = Same-IsLive s _ (sending_thread-Same now s t p e) h

  pub window_size-sending_thread :
      (now : Timeval) (s : Sender) (t : Timer) (p : Pass)
      → sending_thread heap src dst now s t ≡ some p
      → p.sender.window_size ≡ s.window_size
  window_size-sending_thread now s t p e = (sending_thread-Same now s t p e).size

pub tju_send_round-Same :
    (s s' : Sender) (buffer : Memory) (len : ℕ)
    → tju_send_round s buffer len ≡ returned s'
    → Same s s'
unfolding tju_send_round
tju_send_round-Same s s' buffer len e = subst (λ c. Same s (left_sender c)) e kept
  where
    kept : Same s (left_sender (tju_send_round s buffer len))
    kept = ground arith

pub tju_send_round-IsLive :
    (s s' : Sender) (buffer : Memory) (len : ℕ)
    → IsLive s
    → tju_send_round s buffer len ≡ returned s'
    → IsLive s'
tju_send_round-IsLive s s' buffer len h e =
    Same-IsLive s s' (tju_send_round-Same s s' buffer len e) h

pub tju_socket-IsLive : (heap : Memory) (junk : Sock) → IsLive (tju_socket heap junk).sender
unfolding tju_socket
tju_socket-IsLive heap junk = record {
  rwnd_low = omega arith;
  rwnd_high = omega arith;
  size = omega arith;
  grows = refl;
}
