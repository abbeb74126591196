-- ===== src/Duplex/Resending.antt =====
-- `retrans_thread` keeps the timer running.
use mathlib.Core.Option
use mathlib.Core.Option.{none-ne-some, some-injective}
use tju_tcp.Common.{
  ℕ, zero, suc, ◌-◌, ◌≡◌, ◌∙◌, refl, sym, ap, subst, some, none, Option, inl, inr, true, false,
  ◌||◌, ltb, ◌==◌, [], arith, Memory, Bool-cases,
}
use tju_tcp.Global.{Sender}
use tju_tcp.Timer.{Timer}
use tju_tcp.Send.Stream.{Sends}
use tju_tcp.Retransmit.{
  Resent, Cursor, begin_resend, resend_round, resend_loop, resend_all, resend, rearm, timed_out,
  retrans_thread, after_timeout, finish,
}
use tju_tcp.Ack.Opening.{IsLive}
use tju_tcp.Duplex.Watched.{IsWatched, covered, covered-start_timer}

-- Once a packet was sent again, the timer has been started.
abbrev ResendsOn : Cursor → Type 0
ResendsOn c =
    (c.wnd_ack_cnt == c.resent.sender.ack_cnt || covered c.resent.sender c.resent.timer) ≡ true

abbrev unasked : Sender → Sender
unasked s = record s { is_retransing = false }

module _ (heap : Memory) (src dst : ℕ) where
  resend_round-on :
      (have_sent : ℕ) (c : Cursor) → ResendsOn c → ResendsOn (resend_round heap src dst have_sent c)
  unfolding resend_round
  resend_round-on have_sent c w = ground (arith, covered-start_timer c.resent.sender c.resent.timer)

  resend_loop-on :
      (fuel have_sent : ℕ) (c c' : Cursor)
      → ResendsOn c
      → resend_loop heap src dst fuel have_sent c ≡ some c'
      → ResendsOn c'
        × (unasked c'.resent.sender ≡ unasked c.resent.sender)
        × (ltb c'.wnd_ack_cnt have_sent ≡ false)
  unfolding resend_loop resend_round
  resend_loop-on zero have_sent c c' w e = absurd (none-ne-some c' e)
  resend_loop-on (suc fuel) have_sent c c' w e = elim (Bool-cases (ltb c.wnd_ack_cnt have_sent)) [
    | inl more ↦
        let c1 = resend_round heap src dst have_sent c in
        resend_loop-on fuel have_sent c1 c' (resend_round-on have_sent c w) (rw more at e)
    | inr done ↦
        subst
          (λ (x : Cursor).
            ResendsOn x
            × (unasked x.resent.sender ≡ unasked c.resent.sender)
            × (ltb x.wnd_ack_cnt have_sent ≡ false))
          (some-injective c c' (rw done at e)) (w, refl, done)
  ]

  resend_all-IsWatched :
      (stream : ℕ → ℕ) (origin : ℕ) (s : Sender) (t : Timer) (r : Resent)
      → Sends stream origin s
      → (s.window_size == 0) ≡ false
      → resend_all heap src dst s t ≡ some r
      → IsWatched r.sender r.timer
  unfolding resend_all
  resend_all-IsWatched stream origin s t r h opened e =
      go
        (resend_loop heap src dst (suc (s.have_send_len - s.ack_cnt)) s.have_send_len
          (begin_resend s t))
        refl
    where
      watched :
          (c : Cursor)
          → ResendsOn c
          → ltb c.wnd_ack_cnt s.have_send_len ≡ false
          → c.resent.sender.ack_cnt ≡ s.ack_cnt
          → c.resent.sender.base ≡ s.base
          → c.resent.sender.nextseq ≡ s.nextseq
          → c.resent.sender.window_size ≡ s.window_size
          → IsWatched (finish c).sender (finish c).timer
      watched c w done acked base next size = record {
        timed = ground (arith, w, done, acked, base, next, size, h.base, h.next, opened);
        asked = refl;
        shut = ground arith;
      }

      go :
          (o : Option Cursor)
          → resend_loop heap src dst
              (suc (s.have_send_len - s.ack_cnt))
              s.have_send_len
              (begin_resend s t)
            ≡ o
          → IsWatched r.sender r.timer
      go none k = cc
      go (some c) k =
          let (w, same, done) =
            resend_loop-on (suc (s.have_send_len - s.ack_cnt)) s.have_send_len (begin_resend s t) c
              (ground arith) k in
          subst (λ (x : Resent). IsWatched x.sender x.timer)
            (some-injective (finish c) r (ap (Option.map finish) (sym k) ∙ e))
            (watched c w done (ap (λ (x : Sender). x.ack_cnt) same)
              (ap (λ (x : Sender). x.base) same) (ap (λ (x : Sender). x.nextseq) same)
              (ap (λ (x : Sender). x.window_size) same))

  pub retrans_thread-IsWatched :
      (stream : ℕ → ℕ) (origin : ℕ) (s : Sender) (t : Timer) (r : Resent)
      → Sends stream origin s
      → Sends stream origin (timed_out s t)
      → IsLive s
      → IsWatched s t
      → retrans_thread heap src dst s t ≡ some r
      → IsWatched r.sender r.timer
  unfolding retrans_thread resend rearm after_timeout
  retrans_thread-IsWatched stream origin s t r h h' live w e = elim (Bool-cases t.retrans) [
    | inr off ↦ given (record { sender = s; timer = t; packets = [] }) (idle_round off e) w
    | inl due ↦ elim (Bool-cases (s.window_size == 0)) [
      | inl shut ↦ given _ (rw (due, shut) at e) (record {
        timed = ground (arith, covered-start_timer s t);
        asked = ground (arith, w.shut, shut);
        shut = w.shut;
      })
      | inr opened ↦ elim (Bool-cases s.is_retransing) [
        | inl on ↦
            resend_all-IsWatched stream origin (timed_out s t) t r h'
              (ground (arith, opened, live.rwnd_low)) (ground (arith, due, opened, on, e))
        | inr idle ↦ given _ (rw (due, opened, idle) at e) (record {
          timed = ground (arith, opened, h.base, h.next);
          asked = ground (arith, idle, h.base, h.next);
          shut = ground (arith, opened);
        })
      ]
    ]
  ]
    where
      idle_round :
          t.retrans ≡ false
          → retrans_thread heap src dst s t ≡ some r
          → some (record { sender = s; timer = t; packets = [] }) ≡ some r
      idle_round off e = sym (rw off refl) ∙ e

      given :
          (x : Resent) → some x ≡ some r → IsWatched x.sender x.timer → IsWatched r.sender r.timer
      given x same k =
          subst (λ (y : Resent). IsWatched y.sender y.timer) (some-injective x r same) k
