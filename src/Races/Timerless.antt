-- ===== src/Races/Timerless.antt =====
-- Data that `sending_thread` sends with what it has read before everything was acknowledged.
use mathlib.Core.Option.{some-injective, none-ne-some}
use tju_tcp.Common.{
  ℕ, zero, suc, ◌+◌, ◌-◌, ◌^◌, ◌≤◌, ◌<◌, ◌≡◌, ◌∙◌, refl, sym, ap, some, [], arith, Memory, false,
  ltb, ltb→lt, subst, Bool-cases, inl, inr,
}
use tju_tcp.Global.{Timeval, Sender}
use tju_tcp.Timer.{Timer}
use tju_tcp.Send.{Pass, may_send, send_end, send_round, send_loop, sending_thread, keep_nextseq}
use tju_tcp.Send.Stream.{Sends}
use tju_tcp.Send.Loop.{
  Sending, may_send-lt, keep_nextseq-Sends, send_round-Sending, send_loop-more, send_loop-Sending,
  sending_thread-Covers,
}
use tju_tcp.Retransmit.{Resent, retrans_thread}
use tju_tcp.Duplex.Base.{base-sending_thread}
use tju_tcp.Transfer.Packets.{Covers-le}
use tju_tcp.Races.{Snapshot, tmp_len, send_locked}

le-send_end : (s : Sender) → send_end s ≤ s.sending_len
unfolding send_end
le-send_end s = ground arith

-- Rounds of the two threads of a socket that nothing else changes.
pub data Rounds (heap : Memory) (src dst : ℕ) (s : Sender) (t : Timer)
    : Sender → Timer → Type 0 where
  begun : Rounds heap src dst s t s t
  then_sends :
      {s' : Sender} {t' : Timer}
      → Rounds heap src dst s t s' t'
      → (now : Timeval) (p : Pass) → sending_thread heap src dst now s' t' ≡ some p
      → Rounds heap src dst s t p.sender p.timer
  then_resends :
      {s' : Sender} {t' : Timer}
      → Rounds heap src dst s t s' t'
      → (r : Resent) → retrans_thread heap src dst s' t' ≡ some r
      → Rounds heap src dst s t r.sender r.timer

-- A round of `retrans_thread` without a request.
abbrev pub nothing_resent : Sender → Timer → Resent
nothing_resent s t = record { sender = s; timer = t; packets = [] }

idle-retrans_thread :
    (heap : Memory) (src dst : ℕ) (s : Sender) (t : Timer)
    → t.retrans ≡ false
    → retrans_thread heap src dst s t ≡ some (nothing_resent s t)
unfolding retrans_thread
idle-retrans_thread heap src dst s t off = rw off refl

module _ (stream : ℕ → ℕ) (heap : Memory) (src dst : ℕ) (psrc : src < 2 ^ 16)
    (pdst : dst < 2 ^ 16) where
  module _ (now : Timeval) (wnd_base origin last start stop : ℕ) where
    -- A round that does not begin at the copy of `base` leaves the timer alone.
    send_round-later :
        (p : Pass)
        → Sending stream heap src dst psrc pdst origin last start stop p
        → p.sender.have_send_len < stop
        → wnd_base < p.seq
        → let p' = send_round heap src dst now wnd_base stop p in
          (p'.timer ≡ p.timer)
          × (p'.sender.is_retransing ≡ p.sender.is_retransing)
          × (p'.sender.base ≡ p.sender.base)
          × (wnd_base < p'.seq)
    unfolding send_round
    send_round-later p h more lt = (
      ground (arith, lt),
      ground (arith, lt),
      ground arith,
      ground (arith, lt, h.seq, h.small, h.within),
    )

    send_loop-later :
        (fuel : ℕ) (p p' : Pass)
        → Sending stream heap src dst psrc pdst origin last start stop p
        → wnd_base < p.seq
        → send_loop heap src dst fuel now wnd_base stop p ≡ some p'
        → (p'.timer ≡ p.timer)
          × (p'.sender.is_retransing ≡ p.sender.is_retransing)
          × (p'.sender.base ≡ p.sender.base)
    unfolding send_loop
    send_loop-later zero p p' h lt e = absurd (none-ne-some p' e)
    send_loop-later (suc fuel) p p' h lt e = elim (Bool-cases (ltb p.sender.have_send_len stop)) [
      | inl more ↦
          let p1 = send_round heap src dst now wnd_base stop p in
          let (h1, _) =
            send_round-Sending stream heap src dst psrc pdst now wnd_base origin last start stop p h
              (ltb→lt _ _ more) in
          let (timer1, retransing1, base1, lt1) = send_round-later p h (ltb→lt _ _ more) lt in
          let (timer2, retransing2, base2) = send_loop-later fuel p1 p' h1 lt1 (
            sym (
              send_loop-more stream heap src dst psrc pdst now wnd_base origin last start stop fuel
                p more)
            ∙ e) in
          (timer2 ∙ timer1, retransing2 ∙ retransing1, base2 ∙ base1)
      | inr done ↦
          let same = some-injective p p' (sym (rw done refl) ∙ e) in
          (
            ap (λ (x : Pass). x.timer) (sym same),
            ap (λ (x : Pass). x.sender.is_retransing) (sym same),
            ap (λ (x : Pass). x.sender.base) (sym same),
          )
    ]

  -- The state in which the loop begins, for a sender that holds the stream.
  begins :
      (origin stop : ℕ) (s : Sender) (t : Timer)
      → Sends stream origin s
      → origin + s.sending_len < 2 ^ 32
      → s.have_send_len ≤ stop
      → stop ≤ s.sending_len
      → Sending stream heap src dst psrc pdst origin
          (origin + s.sending_len)
          s.nextseq
          stop
          (record { sender = s; seq = s.nextseq; timer = t; packets = [] })
  begins origin stop s t h small le within = record {
    acked = h.acked;
    below = le;
    within = within;
    room = h.room;
    base = h.base;
    content = h.content;
    seq = h.next;
    end = refl;
    small = small;
    covers = refl;
  }

  -- A round of `sending_thread` that begins when something is unacknowledged leaves the timer alone.
  timer-sending_thread :
      (now : Timeval) (origin : ℕ) (s : Sender) (t : Timer) (p : Pass)
      → Sends stream origin s
      → origin + s.sending_len < 2 ^ 32
      → s.base < s.nextseq
      → sending_thread heap src dst now s t ≡ some p
      → p.timer ≡ t
  unfolding sending_thread
  timer-sending_thread now origin s t p h small lt e = elim (Bool-cases (may_send s)) [
    | inr idle ↦ ap (λ (x : Pass). x.timer) (sym (some-injective _ p (rw idle at e)))
    | inl sends ↦
        let (p', found, _, _) =
          send_loop-Sending stream heap src dst psrc pdst now s.base origin (origin + s.sending_len)
            s.nextseq (send_end s) (suc (send_end s - s.have_send_len)) _
            (begins origin (send_end s) s t h small (omega (arith, may_send-lt s sends))
              (le-send_end s))
            (omega arith) in
        let (same, _, _) =
          send_loop-later now s.base origin (origin + s.sending_len) s.nextseq (send_end s)
            (suc (send_end s - s.have_send_len)) _ p'
            (begins origin (send_end s) s t h small (omega (arith, may_send-lt s sends))
              (le-send_end s))
            lt found in
        ap (λ (x : Pass). x.timer)
          (sym (some-injective (keep_nextseq p') p (sym (rw (sends, found) refl) ∙ e)))
        ∙ same
  ]

  -- Data is under way in a socket that holds the stream, and no retransmission is asked for.
  record UnderWay (origin : ℕ) (t : Timer) (s : Sender) (t' : Timer) : Type 0 where
    holds : Sends stream origin s
    small : origin + s.sending_len < 2 ^ 32
    unacked : s.base < s.nextseq
    same : t' ≡ t

  Rounds-UnderWay :
      (origin : ℕ) (t : Timer) (off : t.retrans ≡ false) (s : Sender)
      → UnderWay origin t s t
      → (s' : Sender) (t' : Timer) → Rounds heap src dst s t s' t'
      → UnderWay origin t s' t'
  Rounds-UnderWay origin t off s h _ _ begun = h
  Rounds-UnderWay origin t off s h _ _ (then_sends {s'} {t'} rounds now p e) =
      let u = Rounds-UnderWay origin t off s h s' t' rounds in
      let (p', found, holds, covers, size, _) =
        sending_thread-Covers stream heap src dst psrc pdst now origin s' t' u.holds u.small in
      subst (λ (x : Pass). UnderWay origin t x.sender x.timer) (some-injective p' p (sym found ∙ e))
        (record {
          holds = holds;
          small = omega (arith, size, u.small);
          unacked = omega (
            arith,
            base-sending_thread heap src dst now s' t' p' found,
            u.unacked,
            Covers-le stream s'.nextseq p'.sender.nextseq p'.packets covers,
          );
          same = timer-sending_thread now origin s' t' p' u.holds u.small u.unacked found ∙ u.same;
        })
  Rounds-UnderWay origin t off s h _ _ (then_resends {s'} {t'} rounds r e) =
      let u = Rounds-UnderWay origin t off s h s' t' rounds in
      subst (λ (x : Resent). UnderWay origin t x.sender x.timer)
        (some-injective _ r (
          sym (idle-retrans_thread heap src dst s' t' (ap (λ (x : Timer). x.retrans) u.same ∙ off))
          ∙ e))
        u

  -- `sending_thread` has read `base` below `nextseq`; then the handler of an ACK changes `base` and the
  -- timer, as it does when it stops the timer because everything is acknowledged, and no retransmission
  -- is asked for. If the copies allow more bytes than were sent, the round that follows sends data and
  -- leaves the timer as it is, stopped if it was stopped. However many rounds of `sending_thread` and
  -- `retrans_thread` come behind it, with nothing else that changes the socket: the data is still
  -- unacknowledged, the timer is still as it was, and `retrans_thread` sends nothing. Data is under way
  -- that no timer watches.
  pub send_locked-timerless :
      (now : Timeval) (origin : ℕ) (n : Snapshot) (s : Sender) (t : Timer)
      → Sends stream origin s
      → origin + s.sending_len < 2 ^ 32
      → n.wnd_nextseq ≡ s.nextseq
      → n.wnd_base < n.wnd_nextseq
      → s.have_send_len < tmp_len n s
      → t.retrans ≡ false
      → (p : Pass) × (send_locked heap src dst now n s t ≡ some p)
        × (s.nextseq < p.sender.nextseq)
        × (p.timer ≡ t)
        × ((s' : Sender) (t' : Timer)
            → Rounds heap src dst p.sender p.timer s' t'
            → (t' ≡ t)
              × (s'.base < s'.nextseq)
              × (retrans_thread heap src dst s' t' ≡ some (nothing_resent s' t')))
  unfolding send_locked
  send_locked-timerless now origin n s t h small same lt more off =
      let (p, found, h', done) =
        send_loop-Sending stream heap src dst psrc pdst now n.wnd_base origin
          (origin + s.sending_len) s.nextseq (tmp_len n s) (suc (tmp_len n s - s.have_send_len))
          start begun (omega arith) in
      let (timer, _, base) =
        send_loop-later now n.wnd_base origin (origin + s.sending_len) s.nextseq (tmp_len n s)
          (suc (tmp_len n s - s.have_send_len)) start p begun lt found in
      let kept =
        keep_nextseq-Sends stream heap src dst psrc pdst origin (origin + s.sending_len) s.nextseq
          (tmp_len n s) p h' done in
      (
        keep_nextseq p,
        rw found refl,
        omega (arith, h'.seq, done, h.next),
        timer,
        λ s' t' rounds.
            let u =
              Rounds-UnderWay origin p.timer (ap (λ (x : Timer). x.retrans) timer ∙ off)
                (keep_nextseq p).sender
                (record {
                  holds = kept;
                  small = omega (arith, h'.end, small);
                  unacked = omega (arith, base, h.base, h.acked, h'.seq, done);
                  same = refl;
                })
                s' t' rounds in
            (
              u.same ∙ timer,
              u.unacked,
              idle-retrans_thread heap src dst s' t'
                  (ap (λ (x : Timer). x.retrans) (u.same ∙ timer) ∙ off),
            ),
      )
    where
      start : Pass
      start = record { sender = s; seq = n.wnd_nextseq; timer = t; packets = [] }

      begun :
          Sending stream heap src dst psrc pdst origin
            (origin + s.sending_len)
            s.nextseq
            (tmp_len n s)
            start
      begun = record {
        acked = h.acked;
        below = omega arith;
        within = ground arith;
        room = h.room;
        base = h.base;
        content = h.content;
        seq = omega (arith, same, h.next);
        end = refl;
        small = small;
        covers = omega (arith, same);
      }
