-- ===== src/Duplex/Threads.antt =====
-- The threads keep the timer running.
use mathlib.Core.Option.{none-ne-some, some-injective}
use tju_tcp.Common.{
  ℕ, zero, suc, ◌+◌, ◌-◌, ◌^◌, ◌<◌, ◌≡◌, ◌∙◌, refl, sym, subst, some, inl, inr, true, false, ◌||◌,
  not, ltb, ltb→lt, ◌==◌, [], arith, Memory, Bool-cases,
}
use tju_tcp.Global.{Timeval, Sender}
use tju_tcp.Timer.{Timer}
use tju_tcp.Send.{
  Pass, may_send, send_end, send_round, send_loop, sending_thread, keep_nextseq, returned,
  tju_send_round,
}
use tju_tcp.Send.Stream.{Sends}
use tju_tcp.Send.Loop.{Sending, may_send-lt, send_round-Sending, send_loop-Sending}
use tju_tcp.Transfer.Steps.{left_sender}
use tju_tcp.Duplex.Watched.{IsWatched, Alike, Alike-IsWatched, covered, covered-start_timer}

-- What was sent is watched.
abbrev Passes : Pass → Type 0
Passes p = (not (ltb p.sender.base p.seq) || p.timer.retrans || covered p.sender p.timer) ≡ true

record Rest (s s' : Sender) : Type 0 where
  base : s'.base ≡ s.base
  size : s'.window_size ≡ s.window_size

may_send-opened : (s : Sender) → may_send s ≡ true → (s.window_size == 0) ≡ false
unfolding may_send
may_send-opened s sends = ground arith

module _ (stream : ℕ → ℕ) (heap : Memory) (src dst : ℕ) (psrc : src < 2 ^ 16)
    (pdst : dst < 2 ^ 16) where
  module _ (now : Timeval) (wnd_base origin last start stop : ℕ) where
    send_round-Passes :
        (p : Pass)
        → Sending stream heap src dst psrc pdst origin last start stop p
        → wnd_base ≡ p.sender.base
        → Passes p
        → Passes (send_round heap src dst now wnd_base stop p)
          × Rest p.sender (send_round heap src dst now wnd_base stop p).sender
    unfolding send_round
    send_round-Passes p h at w = elim (Bool-cases (wnd_base == p.seq)) [
      | inl first ↦ (
        ground (
          arith,
          first,
          covered-start_timer (send_round heap src dst now wnd_base stop p).sender p.timer,
        ),
        ground arith,
      )
      | inr later ↦ (ground (arith, later, w, h.acked, h.base, h.seq), ground arith)
    ]

    Rest-trans : (a b c : Sender) → Rest a b → Rest b c → Rest a c
    Rest-trans a b c h k = record { base = k.base ∙ h.base; size = k.size ∙ h.size }

    send_loop-Passes :
        (fuel : ℕ) (p p' : Pass)
        → Sending stream heap src dst psrc pdst origin last start stop p
        → wnd_base ≡ p.sender.base
        → Passes p
        → send_loop heap src dst fuel now wnd_base stop p ≡ some p'
        → Passes p' × Rest p.sender p'.sender
    unfolding send_loop
    send_loop-Passes zero p p' h at w e = absurd (none-ne-some p' e)
    send_loop-Passes (suc fuel) p p' h at w e =
        elim (Bool-cases (ltb p.sender.have_send_len stop)) [
          | inl more ↦
              let (h1, _) =
                send_round-Sending stream heap src dst psrc pdst now wnd_base origin last start stop
                  p h (ltb→lt _ _ more) in
              let (w1, rest) = send_round-Passes p h at w in
              let (w2, rest2) =
                send_loop-Passes fuel (send_round heap src dst now wnd_base stop p) p' h1
                  (at ∙ sym rest.base) w1 (rw more at e) in
              (w2, Rest-trans _ _ _ rest rest2)
          | inr done ↦
              subst (λ (x : Pass). Passes x × Rest p.sender x.sender)
                (some-injective p p' (rw done at e)) (w, record { base = refl; size = refl })
        ]

  pub sending_thread-IsWatched :
      (now : Timeval) (origin : ℕ) (s : Sender) (t : Timer) (p : Pass)
      → Sends stream origin s
      → origin + s.sending_len < 2 ^ 32
      → IsWatched s t
      → sending_thread heap src dst now s t ≡ some p
      → IsWatched p.sender p.timer
  unfolding sending_thread send_end
  sending_thread-IsWatched now origin s t p h small w e = elim (Bool-cases (may_send s)) [
    | inr idle ↦
        subst (λ (x : Pass). IsWatched x.sender x.timer) (some-injective _ p (rw idle at e)) w
    | inl sends ↦
        let begin : Pass = record { sender = s; seq = s.nextseq; timer = t; packets = [] } in
        let begun = starts origin s t h small sends in
        let (p', found, h', done) =
          send_loop-Sending stream heap src dst psrc pdst now s.base origin (origin + s.sending_len)
            s.nextseq (send_end s) (suc (send_end s - s.have_send_len)) begin begun (omega arith) in
        let (passes, rest) =
          send_loop-Passes now s.base origin (origin + s.sending_len) s.nextseq (send_end s)
            (suc (send_end s - s.have_send_len)) begin p' begun refl (opened s t w sends) found in
        subst (λ (x : Pass). IsWatched x.sender x.timer)
          (some-injective (keep_nextseq p') p (sym (rw (sends, found) refl) ∙ e))
          (watched p' passes (more p' h' done (may_send-lt s sends) rest.base)
            (window p' rest sends))
  ]
    where
      starts :
          (origin : ℕ) (s : Sender) (t : Timer)
          → Sends stream origin s
          → origin + s.sending_len < 2 ^ 32
          → may_send s ≡ true
          → Sending stream heap src dst psrc pdst origin
              (origin + s.sending_len)
              s.nextseq
              (send_end s)
              (record { sender = s; seq = s.nextseq; timer = t; packets = [] })
      starts origin s t h small sends = record {
        acked = h.acked;
        below = ground (arith, may_send-lt s sends);
        within = ground arith;
        room = h.room;
        base = h.base;
        content = h.content;
        seq = h.next;
        end = refl;
        small = small;
        covers = refl;
      }

      opened :
          (s : Sender) (t : Timer)
          → IsWatched s t
          → may_send s ≡ true
          → Passes (record { sender = s; seq = s.nextseq; timer = t; packets = [] })
      opened s t w sends = ground (arith, w.timed)

      more :
          (p' : Pass)
          → Sending stream heap src dst psrc pdst origin
              (origin + s.sending_len)
              s.nextseq
              (send_end s)
              p'
          → p'.sender.have_send_len ≡ send_end s
          → s.have_send_len < send_end s
          → p'.sender.base ≡ s.base
          → p'.sender.base < p'.seq
      more p' h' done lt same = omega (arith, h'.seq, done, lt, same, h.base, h.acked)

      window :
          (p' : Pass) → Rest s p'.sender → may_send s ≡ true → (p'.sender.window_size == 0) ≡ false
      window p' rest sends = rw rest.size (may_send-opened s sends)

      watched :
          (p' : Pass)
          → Passes p'
          → p'.sender.base < p'.seq
          → (p'.sender.window_size == 0) ≡ false
          → IsWatched (keep_nextseq p').sender (keep_nextseq p').timer
      watched p' passes lt opened = record {
        timed = ground (arith, passes, lt);
        asked = ground (arith, lt);
        shut = ground (arith, opened);
      }

pub tju_send_round-IsWatched :
    (s s' : Sender) (t : Timer) (buffer : Memory) (len : ℕ)
    → IsWatched s t
    → tju_send_round s buffer len ≡ returned s'
    → IsWatched s' t
unfolding tju_send_round
tju_send_round-IsWatched s s' t buffer len h e =
    Alike-IsWatched s s' t (subst (λ c. Alike s (left_sender c)) e kept) h
  where
    kept : Alike s (left_sender (tju_send_round s buffer len))
    kept = ground arith
