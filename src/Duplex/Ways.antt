-- ===== src/Duplex/Ways.antt =====
-- The parts of a way on: a window that is 0 opens, the other side reads, and the timer fires.
use tju_tcp.Common.{
  ℕ, zero, suc, ◌≤◌, ◌<◌, ◌≡◌, ◌≢◌, none, Option, ◌||◌, ◌⊎◌, ◌∙◌, refl, some, inl, inr, true, false,
  List, [], ◌∷◌, ◌++◌, arith, Memory, ltb, ◌==◌, Bool-cases, slice,
}
use tju_tcp.Global.{Itimerval, Timeval, Sender, Receiver}
use tju_tcp.Timer.{Timer, sigalrm, start_timer}
use tju_tcp.Retransmit.{Resent, probe, retrans_thread}
use tju_tcp.Receive.{tju_recv, after_read}
use tju_tcp.Receive.Window.{NoWrap}
use tju_tcp.Ack.Opening.{left_of, handle_ack-opens}
use tju_tcp.Transfer.Resends.{retrans_thread-Resends}
use tju_tcp.Duplex.{
  Host, Link, Reach, Reach-trans, Step, here, next, left_acts, right_acts, timer_fires,
  resends_data, reads_data, local_port, remote_port, with_sender, gets,
}
use tju_tcp.Duplex.Watched.{arms, is_armed}
use tju_tcp.Duplex.Invariant.{IsDuplex, nextseq, base}
use tju_tcp.Duplex.Steps.{Reach-IsDuplex}
use tju_tcp.Duplex.Progress.{Quiet, answer, after_answer}

tju_recv-all :
    (heap : Memory) (r : Receiver)
    → (r.received_len == 0) ≡ false
    → (out : List ℕ) × (r' : Receiver) × (tju_recv heap r r.received_len ≡ some (out, r'))
      × (r'.received_len ≡ 0)
unfolding tju_recv after_read
tju_recv-all heap r some_left =
    (slice r.received_buf 0 r.received_len, record r { received_len = 0 }, ground arith, refl)

-- A round of `retrans_thread` with a window of 0, when one is due.
retrans_thread-probe :
    (heap : Memory) (src dst : ℕ) (s : Sender) (t : Timer)
    → t.retrans ≡ true
    → (s.window_size == 0) ≡ true
    → retrans_thread heap src dst s t
      ≡ some (record {
        sender = s;
        timer = start_timer t s.wnd_send;
        packets = probe heap src dst s ∷ [];
      })
unfolding retrans_thread
retrans_thread-probe heap src dst s t due shut = rw (due, shut) refl

-- `setitimer` does not start a timer with the interval of the host: it is a second or more, or zero.
abbrev pub IsRefused : Host → Type 0
IsRefused h = arms h.sock.sender.wnd_send ≡ false

armed-some : (armed : Option Itimerval) → is_armed armed ≡ true → (v : Itimerval) × (armed ≡ some v)
armed-some none e = cc
armed-some (some v) e = (v, refl)

-- From the two hosts to `k` there is a way, on which `base` does not go back, nothing
-- is written, and `a` does not read.
pub record Way (heap : Memory) (stream_a : ℕ → ℕ) (total_a : ℕ) (stream_b : ℕ → ℕ) (total_b : ℕ)
    (a b : Host) (k : Link) : Type 0 where
  pub reach : Reach heap stream_a total_a stream_b total_b (record { left = a; right = b }) k
  pub duplex : IsDuplex stream_a total_a stream_b total_b k.left k.right
  pub quiet : Quiet a b k
  pub onward : base a ≤ base k.left

module _ (heap : Memory) (stream_a : ℕ → ℕ) (total_a : ℕ) (stream_b : ℕ → ℕ) (total_b : ℕ)
    (small_a : NoWrap total_a) (small_b : NoWrap total_b) where
  abbrev Both : Host → Host → Type 0
  Both = IsDuplex stream_a total_a stream_b total_b

  abbrev Ways : Host → Host → Link → Type 0
  Ways = Way heap stream_a total_a stream_b total_b

  pub Way-here : (a b : Host) → Both a b → Ways a b (record { left = a; right = b })
  Way-here a b h = record {
    reach = here;
    duplex = h;
    quiet = (refl, refl, refl);
    onward = omega arith;
  }

  pub Way-Step :
      (a b : Host) (k k' : Link)
      → Ways a b k
      → Step heap stream_a total_a stream_b total_b k k'
      → Quiet k.left k.right k'
      → base k.left ≤ base k'.left
      → Ways a b k'
  Way-Step a b k k' w st same on = record {
    reach = next w.reach st;
    duplex =
        Reach-IsDuplex heap stream_a total_a stream_b total_b small_a small_b k w.duplex k'
          (next here st);
    quiet = (same.0 ∙ w.quiet.0, same.1 ∙ w.quiet.1, same.2 ∙ w.quiet.2);
    onward = omega (arith, on, w.onward);
  }

  pub Way-trans : (a b : Host) (k k' : Link) → Ways a b k → Ways k.left k.right k' → Ways a b k'
  Way-trans a b k k' w v = record {
    reach = Reach-trans heap _ _ _ _ w.reach v.reach;
    duplex = v.duplex;
    quiet = (v.quiet.0 ∙ w.quiet.0, v.quiet.1 ∙ w.quiet.1, v.quiet.2 ∙ w.quiet.2);
    onward = omega (arith, w.onward, v.onward);
  }

  -- While something is unacknowledged, or the window is 0, a retransmission is due, or becomes due
  -- when the timer of `a` fires, or its interval is refused.
  pub comes_due :
      (a b : Host)
      → Both a b
      → (ltb (base a) (nextseq a) || a.sock.sender.window_size == 0) ≡ true
      → ((t : Timer) × Ways a b (record { left = record a { timer = t }; right = b })
          × (t.retrans ≡ true))
        ⊎ IsRefused a
  unfolding sigalrm
  comes_due a b h needs = elim (Bool-cases a.timer.retrans) [
    | inl due ↦ inl (a.timer, Way-here a b h, due)
    | inr idle ↦ elim (Bool-cases (is_armed a.timer.armed)) [
      | inl on ↦
          let (v, armed) = armed-some a.timer.armed on in
          inl (
            sigalrm v a.timer,
            Way-Step a b _ _ (Way-here a b h) (left_acts _ _ (timer_fires v armed))
                (refl, refl, refl) (omega arith),
            refl,
          )
      | inr off ↦ inr (ground (arith, h.watched_a.timed, needs, idle, off))
    ]
  ]

  -- The application of `b` reads all that there is.
  pub drains :
      (a b : Host)
      → Both a b
      → (b' : Host) × Ways a b (record { left = a; right = b' })
        × (b'.sock.receiver.received_len ≡ 0)
  drains a b h = elim (Bool-cases (b.sock.receiver.received_len == 0)) [
    | inl empty ↦ (b, Way-here a b h, ground arith)
    | inr some_left ↦
        let (out, r, found, none_left) = tju_recv-all heap b.sock.receiver some_left in
        (
          record b { sock = record b.sock { receiver = r }; delivered = b.delivered ++ out },
          Way-Step a b _ _ (Way-here a b h)
              (right_acts _ a (reads_data b.sock.receiver.received_len out r found))
              (refl, refl, refl) (omega arith),
          none_left,
        )
  ]

  -- When it is due, the probe of a window of 0 is sent, and answered: `base` moves, or the window opens,
  -- or it is nearer to it.
  probes :
      (a b : Host) (now : Timeval) (t : Timer)
      → Ways a b (record { left = record a { timer = t }; right = b })
      → t.retrans ≡ true
      → (a.sock.sender.window_size == 0) ≡ true
      → (k : Link) × Ways a b k
        × ((base a < base k.left)
            ⊎ ((k.left.sock.sender.window_size ≢ 0)
                ⊎ (left_of k.left.sock.sender < left_of a.sock.sender)))
  probes a b now t before due shut =
      let h = before.duplex in
      let pkt = probe heap (local_port a) (remote_port a) a.sock.sender in
      let r : Resent = record {
        sender = a.sock.sender;
        timer = start_timer t a.sock.sender.wnd_send;
        packets = pkt ∷ [];
      } in
      let found =
        retrans_thread-probe heap (local_port a) (remote_port a) a.sock.sender t due shut in
      let a' = with_sender a r.sender r.timer in
      let b' = gets b (pkt ∷ []) in
      let w =
        Way-Step a b _ _ before (left_acts a' b' (resends_data r found)) (refl, refl, refl)
          (omega arith) in
      let again =
        retrans_thread-Resends stream_a heap (local_port a) (remote_port a) h.open_a.local
          h.open_a.remote h.forth.origin a.sock.sender t r h.forth.one h.forth.sends
          (omega (arith, h.forth.end, h.forth.within, small_a)) found in
      let e =
        answer heap stream_a total_a stream_b total_b small_a small_b a' b' now b.inbox [] pkt
          w.duplex again.flags.0 again.packets.0 refl in
      let k = after_answer a' b' e.receiver e.ack e.sender e.timer in
      (
        k,
        Way-trans a b _ k w (record {
          reach = e.way;
          duplex = e.duplex;
          quiet = (refl, refl, refl);
          onward = omega (arith, e.slides);
        }),
        elim (Bool-cases (ltb (base a) e.receiver.expect_seq)) [
          | inl more ↦ inl (ground (arith, e.slides))
          | inr same ↦ inr (
              handle_ack-opens heap now a.sock.sender r.timer e.ack e.sender e.timer h.live_a e.wide
                (ground (arith, e.of_ack, e.forward, h.acked_a)) e.taken)
        ],
      )

  -- Whatever the window is, `base` can move, or the window is not 0, or the interval is refused.
  abbrev pub CanSend : Host → Link → Type 0
  CanSend a k = (base a < base k.left) ⊎ ((k.left.sock.sender.window_size ≢ 0) ⊎ IsRefused k.left)

  opens_within :
      (fuel : ℕ) (a b : Host) (now : Timeval)
      → Both a b
      → left_of a.sock.sender < fuel
      → (k : Link) × Ways a b k × CanSend a k
  opens_within zero a b now h lt = absurd (omega (arith, lt))
  opens_within (suc fuel) a b now h lt = elim (Bool-cases (a.sock.sender.window_size == 0)) [
    | inr opened ↦ (record { left = a; right = b }, Way-here a b h, inr (inl (ground arith)))
    | inl shut ↦ elim (comes_due a b h (ground (arith, shut))) [
      | inr refused ↦ (record { left = a; right = b }, Way-here a b h, inr (inr refused))
      | inl (t, before, due) ↦
          let (k, w, what) = probes a b now t before due shut in
          elim what [
            | inl moved ↦ (k, w, inl moved)
            | inr (inl opened) ↦ (k, w, inr (inl opened))
            | inr (inr less) ↦
                let (k', w', what') =
                  opens_within fuel k.left k.right now w.duplex (omega (arith, less, lt)) in
                (
                  k',
                  Way-trans a b k k' w w',
                  elim what' [
                    | inl moved ↦ inl (omega (arith, moved, w.onward))
                    | inr other ↦ inr other
                  ],
                )
          ]
    ]
  ]

  pub opens : (a b : Host) (now : Timeval) → Both a b → (k : Link) × Ways a b k × CanSend a k
  opens a b now h = opens_within (suc (left_of a.sock.sender)) a b now h (omega arith)
