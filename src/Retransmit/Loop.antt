-- ===== src/Retransmit/Loop.antt =====
-- The inner loop of `retrans_thread`, for whatever copies of `ack_cnt` and `base` it begins with.
use tju_tcp.Common.{
  ap, subst, ℕ, zero, suc, ◌+◌, ◌-◌, ◌^◌, ◌≤◌, ◌<◌, ◌≡◌, refl, ◌∙◌, some, [], arith, Memory, true,
  ltb, u32, ltb→lt, Bool-cases, inl, inr,
}
use tju_tcp.Global.{Sender}
use tju_tcp.Timer.{Timer}
use tju_tcp.Send.{data_packet, next_dlen}
use tju_tcp.Send.Stream.{Covers, Covers-snoc, IsSegment, data_packet-IsSegment}
use tju_tcp.Retransmit.{Cursor, resend_round, resend_loop}

module _ (stream : ℕ → ℕ) (heap : Memory) (src dst : ℕ) (psrc : src < 2 ^ 16)
    (pdst : dst < 2 ^ 16) where
  -- The bytes from place `cnt` of the buffer up to `have_send_len` are those of the stream from number
  -- `from` on.
  pub record Repeats (from cnt : ℕ) (s : Sender) : Type 0 where
    pub start : cnt ≤ s.have_send_len
    pub short : s.have_send_len < 2 ^ 32
    pub small : from + (s.have_send_len - cnt) < 2 ^ 32
    pub content : (t : ℕ) → t < s.have_send_len - cnt → s.sending_buf (cnt + t) ≡ stream (from + t)

  -- The state of the inner loop, begun at the sender `s`: only `is_retransing` changes in it.
  pub record Resends (from cnt : ℕ) (s : Sender) (c : Cursor) : Type 0 where
    pub same : c.resent.sender ≡ record s { is_retransing = c.resent.sender.is_retransing }
    pub above : cnt ≤ c.wnd_ack_cnt
    pub below : c.wnd_ack_cnt ≤ s.have_send_len
    pub base : c.wnd_base + cnt ≡ from + c.wnd_ack_cnt
    pub covers : Covers stream from c.resent.packets c.wnd_base

  module _ (from cnt : ℕ) (s : Sender) (h : Repeats from cnt s) where
    resend_round-Resends :
        (c : Cursor)
        → Resends from cnt s c
        → c.wnd_ack_cnt < s.have_send_len
        → Resends from cnt s (resend_round heap src dst s.have_send_len c)
          × (s.have_send_len - (resend_round heap src dst s.have_send_len c).wnd_ack_cnt
              < s.have_send_len - c.wnd_ack_cnt)
    unfolding resend_round
    resend_round-Resends c r more = (
      record {
        same =
            ap
              (λ (x : Sender). record x {
                is_retransing =
                    (resend_round heap src dst s.have_send_len c).resent.sender.is_retransing;
              })
              r.same;
        above = ground (arith, r.above, h.short);
        below = ground (arith, h.short);
        base = ground (arith, r.base, r.above, h.small, h.short);
        covers =
            rw (ap (λ (x : Sender). x.sending_buf) r.same, no_wrap)
              (Covers-snoc stream from c.wnd_base _ c.resent.packets _ r.covers segment);
      },
      ground (arith, h.short),
    )
      where
        no_wrap :
            u32 (c.wnd_base + next_dlen (s.have_send_len - c.wnd_ack_cnt))
            ≡ c.wnd_base + next_dlen (s.have_send_len - c.wnd_ack_cnt)
        no_wrap = ground (arith, r.base, r.above, h.small)

        segment : IsSegment stream c.wnd_base (next_dlen (s.have_send_len - c.wnd_ack_cnt)) (
            data_packet heap src dst s.sending_buf c.wnd_ack_cnt c.wnd_base
              (next_dlen (s.have_send_len - c.wnd_ack_cnt)))
        segment =
            data_packet-IsSegment stream heap src dst psrc pdst s.sending_buf c.wnd_ack_cnt
              c.wnd_base (next_dlen (s.have_send_len - c.wnd_ack_cnt)) (ground arith) (ground arith)
              (ground (arith, r.base, r.above, h.small))
              λ t lt.
                ap s.sending_buf (omega (arith, r.above))
                ∙ h.content (c.wnd_ack_cnt - cnt + t) (ground (arith, r.above))
                ∙ ap stream (omega (arith, r.base, r.above))

    resend_loop-more :
        (fuel : ℕ) (c : Cursor)
        → ltb c.wnd_ack_cnt s.have_send_len ≡ true
        → resend_loop heap src dst (suc fuel) s.have_send_len c
          ≡ resend_loop heap src dst fuel s.have_send_len
              (resend_round heap src dst s.have_send_len c)
    unfolding resend_loop
    resend_loop-more fuel c more = rw more

    -- With fuel for the bytes left and one more round, the loop ends by its test.
    resend_loop-Resends :
        (fuel : ℕ) (c : Cursor)
        → Resends from cnt s c
        → s.have_send_len - c.wnd_ack_cnt < fuel
        → (c' : Cursor) × (resend_loop heap src dst fuel s.have_send_len c ≡ some c')
          × Resends from cnt s c'
          × (c'.wnd_ack_cnt ≡ s.have_send_len)
    unfolding resend_loop
    resend_loop-Resends zero c r lt = absurd (omega arith)
    resend_loop-Resends (suc fuel) c r lt = elim (Bool-cases (ltb c.wnd_ack_cnt s.have_send_len)) [
      | inl more ↦
          let (r1, less) = resend_round-Resends c r (ltb→lt _ _ more) in
          let (c', e, r', done) =
            resend_loop-Resends fuel (resend_round heap src dst s.have_send_len c) r1
              (omega (arith, less)) in
          (c', resend_loop-more fuel c more ∙ e, r', done)
      | inr done ↦ (c, rw done, r, ground (arith, r.below))
    ]

    pub resend_loop-Covers :
        (t : Timer)
        → (c' : Cursor) × (resend_loop heap src dst
              (suc (s.have_send_len - cnt))
              s.have_send_len
              (record {
                wnd_ack_cnt = cnt;
                wnd_base = from;
                resent = record { sender = s; timer = t; packets = [] };
              })
            ≡ some c')
          × (c'.resent.sender ≡ record s { is_retransing = c'.resent.sender.is_retransing })
          × Covers stream from c'.resent.packets (from + (s.have_send_len - cnt))
    resend_loop-Covers t =
        let (c', e, r, done) =
          resend_loop-Resends (suc (s.have_send_len - cnt))
            (record {
              wnd_ack_cnt = cnt;
              wnd_base = from;
              resent = record { sender = s; timer = t; packets = [] };
            })
            (record {
              same = refl;
              above = omega arith;
              below = h.start;
              base = refl;
              covers = refl;
            })
            (omega arith) in
        (
          c',
          e,
          r.same,
          subst (Covers stream from c'.resent.packets) (omega (arith, r.base, done, h.start))
              r.covers,
        )
