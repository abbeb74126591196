-- ===== src/Send/Loop.antt =====
-- The inner loop of `sending_thread`, and a round of the thread.
use tju_tcp.Common.{
  ℕ, zero, suc, ◌+◌, ◌-◌, ◌^◌, ◌≤◌, ◌<◌, ◌≡◌, refl, ◌∙◌, some, [], arith, Memory, true, false, ltb,
  u32, ltb→lt, Bool-cases, inl, inr, ◌⊎◌,
}
use tju_tcp.Global.{max_sock_buf_size, Timeval, Sender}
use tju_tcp.Timer.{Timer}
use tju_tcp.Send.Stream.{Covers, Covers-snoc, IsSegment, Sends, data_packet-IsSegment}
use tju_tcp.Send.{
  data_packet, Pass, next_dlen, send_round, send_loop, may_send, send_end, sending_thread,
  keep_nextseq,
}

pub may_send-lt : (s : Sender) → may_send s ≡ true → s.have_send_len < send_end s
unfolding may_send send_end
may_send-lt s h = ground arith

module _ (stream : ℕ → ℕ) (heap : Memory) (src dst : ℕ) (psrc : src < 2 ^ 16)
    (pdst : dst < 2 ^ 16) where
  -- The state of the inner loop: `start` is where it began, `stop` where it ends.
  pub record Sending (origin last start stop : ℕ) (p : Pass) : Type 0 where
    pub acked : p.sender.ack_cnt ≤ p.sender.have_send_len
    pub below : p.sender.have_send_len ≤ stop
    pub within : stop ≤ p.sender.sending_len
    pub room : p.sender.sending_len ≤ max_sock_buf_size
    pub base : p.sender.base ≡ origin + p.sender.ack_cnt
    pub content : (i : ℕ) → i < p.sender.sending_len → p.sender.sending_buf i ≡ stream (origin + i)
    pub seq : p.seq ≡ origin + p.sender.have_send_len
    pub end : origin + p.sender.sending_len ≡ last
    pub small : origin + p.sender.sending_len < 2 ^ 32
    pub covers : Covers stream start p.packets p.seq

  module _ (now : Timeval) (wnd_base origin last start stop : ℕ) where
    next_packet :
        (p : Pass)
        → Sending origin last start stop p
        → p.sender.have_send_len < stop
        → IsSegment stream p.seq (next_dlen (stop - p.sender.have_send_len)) (
            data_packet heap src dst p.sender.sending_buf p.sender.have_send_len p.seq
              (next_dlen (stop - p.sender.have_send_len)))
    next_packet p h more =
        data_packet-IsSegment stream heap src dst psrc pdst p.sender.sending_buf
          p.sender.have_send_len p.seq (next_dlen (stop - p.sender.have_send_len)) (ground arith)
          (ground arith) (ground (arith, h.seq, h.small, h.within))
          λ t lt. ground (arith, h.content (p.sender.have_send_len + t), h.seq, h.within)

    pub send_round-Sending :
        (p : Pass)
        → Sending origin last start stop p
        → p.sender.have_send_len < stop
        → Sending origin last start stop (send_round heap src dst now wnd_base stop p)
          × (stop - (send_round heap src dst now wnd_base stop p).sender.have_send_len
              < stop - p.sender.have_send_len)
    unfolding send_round
    send_round-Sending p h more = (
      record {
        acked = ground (arith, h.acked);
        below = ground (arith, h.below);
        within = h.within;
        room = h.room;
        base = ground (arith, h.base);
        content = h.content;
        seq = ground (arith, h.seq, h.small, h.within);
        end = h.end;
        small = h.small;
        covers =
            rw no_wrap
              (Covers-snoc stream start p.seq _ p.packets _ h.covers (next_packet p h more));
      },
      ground arith,
    )
      where
        no_wrap :
            u32 (p.seq + next_dlen (stop - p.sender.have_send_len))
            ≡ p.seq + next_dlen (stop - p.sender.have_send_len)
        no_wrap = ground (arith, h.seq, h.small, h.within)

    pub send_loop-more :
        (fuel : ℕ) (p : Pass)
        → ltb p.sender.have_send_len stop ≡ true
        → send_loop heap src dst (suc fuel) now wnd_base stop p
          ≡ send_loop heap src dst fuel now wnd_base stop
              (send_round heap src dst now wnd_base stop p)
    unfolding send_loop
    send_loop-more fuel p more = rw more

    -- With fuel for the bytes left and one more round, the loop ends by its test.
    pub send_loop-Sending :
        (fuel : ℕ) (p : Pass)
        → Sending origin last start stop p
        → stop - p.sender.have_send_len < fuel
        → (p' : Pass) × (send_loop heap src dst fuel now wnd_base stop p ≡ some p')
          × Sending origin last start stop p'
          × (p'.sender.have_send_len ≡ stop)
    unfolding send_loop
    send_loop-Sending zero p h lt = absurd (omega arith)
    send_loop-Sending (suc fuel) p h lt = elim (Bool-cases (ltb p.sender.have_send_len stop)) [
      | inl more ↦
          let (h1, less) = send_round-Sending p h (ltb→lt _ _ more) in
          let (p', e, h', done) =
            send_loop-Sending fuel (send_round heap src dst now wnd_base stop p) h1
              (omega (arith, less)) in
          (p', send_loop-more fuel p more ∙ e, h', done)
      | inr done ↦ (p, rw done, h, ground (arith, h.below))
    ]

  pub keep_nextseq-Sends :
      (origin last start stop : ℕ) (p : Pass)
      → Sending origin last start stop p
      → p.sender.have_send_len ≡ stop
      → Sends stream origin (keep_nextseq p).sender
  keep_nextseq-Sends origin last start stop p h done = record {
    acked = h.acked;
    sent = omega (arith, h.within);
    room = h.room;
    base = h.base;
    next = h.seq;
    content = h.content;
  }

  -- A sender that holds the stream, up to a number below 2 ^ 32, still does after a round of
  -- `sending_thread`, which returns. The packets that it sends carry the stream from `nextseq` on, in
  -- order and without a gap, each of a size that `sendToLayer3` takes, up to the new `nextseq`.
  -- Nothing is sent if the condition of the loop fails; otherwise everything is that the buffer holds
  -- and the window allows.
  pub sending_thread-Covers :
      (now : Timeval) (origin : ℕ) (s : Sender) (t : Timer)
      → Sends stream origin s
      → origin + s.sending_len < 2 ^ 32
      → (p : Pass) × (sending_thread heap src dst now s t ≡ some p)
        × Sends stream origin p.sender
        × Covers stream s.nextseq p.packets p.sender.nextseq
        × (p.sender.sending_len ≡ s.sending_len)
        × (((may_send s ≡ false) × (p.packets ≡ []))
            ⊎ ((p.sender.nextseq ≡ origin + send_end s)
                × (p.sender.nextseq ≤ s.base + s.window_size)))
  unfolding sending_thread send_end
  sending_thread-Covers now origin s t h small = elim (Bool-cases (may_send s)) [
    | inr idle ↦ (
      record { sender = s; seq = s.nextseq; timer = t; packets = [] },
      rw idle,
      h,
      refl,
      refl,
      inl (idle, refl),
    )
    | inl sends ↦
        let (p, e, h', done) =
          send_loop-Sending now s.base origin (origin + s.sending_len) s.nextseq (send_end s)
            (suc (send_end s - s.have_send_len)) (begin sends) (start sends) (omega arith) in
        (
          keep_nextseq p,
          rw (sends, e),
          keep_nextseq-Sends origin (origin + s.sending_len) s.nextseq (send_end s) p h' done,
          h'.covers,
          omega (arith, h'.end),
          inr (ground (arith, h'.seq, done), ground (arith, h'.seq, done, h.base)),
        )
  ]
    where
      begin : may_send s ≡ true → Pass
      begin sends = record { sender = s; seq = s.nextseq; timer = t; packets = [] }

      start :
          (sends : may_send s ≡ true)
          → Sending origin (origin + s.sending_len) s.nextseq (send_end s) (begin sends)
      start sends = record {
        acked = h.acked;
        below = ground (arith, may_send-lt s sends);
        within = ground arith;
        room = h.room;
        base = h.base;
        content = h.content;
        seq = h.next;
        end = refl;
        small = small;
        covers = refl;
      }
