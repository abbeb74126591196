-- ===== src/Races/Torn.antt =====
-- `retrans_thread` reads `ack_cnt` before an ACK is handled and `base` behind it.
use tju_tcp.Common.{ℕ, suc, ◌+◌, ◌-◌, ◌^◌, ◌≤◌, ◌<◌, ◌≡◌, some, arith, Memory, ltb, if◌then◌else◌}
use tju_tcp.Global.{Sender}
use tju_tcp.Timer.{Timer}
use tju_tcp.Send.Stream.{Covers, Sends}
use tju_tcp.Retransmit.{Cursor, resend_loop}
use tju_tcp.Retransmit.Loop.{resend_loop-Covers}
use tju_tcp.Races.{add_ack_cnt, set_base, read_cursor}

-- The stream up to `ack`, and behind it again from `base` on.
abbrev pub displaced : (ℕ → ℕ) → ℕ → ℕ → ℕ → ℕ
displaced stream base ack q = if ltb q ack then stream q else stream (q - (ack - base))

-- The handler that has slid the window to `ack`.
abbrev pub slid_to : ℕ → Sender → Sender
slid_to ack s = record s { wnd_send = set_base ack (add_ack_cnt ack s.wnd_send) }

module _ (stream : ℕ → ℕ) (heap : Memory) (src dst : ℕ) (psrc : src < 2 ^ 16)
    (pdst : dst < 2 ^ 16) where
  -- A sender holds the stream, with numbers that stay below 2 ^ 32 by the length of the buffer, and an
  -- ACK above `base` and up to `nextseq` is handled while `retrans_thread` copies the window: `ack_cnt` is read before, `base` behind it. The retransmission returns, and its
  -- packets are numbered from the ACK on but carry the bytes from the old `base` on: for the receiver,
  -- which waits for the number `ack`, they are the packets of another stream, in which the bytes that
  -- were acknowledged come twice.
  pub torn-displaced :
      (origin ack : ℕ) (s : Sender) (t : Timer)
      → Sends stream origin s
      → origin + s.sending_len + s.sending_len < 2 ^ 32
      → s.base < ack
      → ack ≤ s.nextseq
      → let have_sent = s.have_send_len in
        (c : Cursor) × (resend_loop heap src dst
            (suc (have_sent - s.ack_cnt))
            have_sent
            (read_cursor s (slid_to ack s) t)
          ≡ some c)
        × Covers (displaced stream s.base ack) ack c.resent.packets (ack + (have_sent - s.ack_cnt))
  torn-displaced origin ack s t h small lt le =
      let (c, found, _, covers) =
        resend_loop-Covers (displaced stream s.base ack) heap src dst psrc pdst ack s.ack_cnt
          (slid_to ack s)
          (record {
            start = h.acked;
            short = omega (arith, h.sent);
            small = omega (arith, h.base, h.next, h.acked, h.sent);
            content = λ i below. ground (arith, h.content (s.ack_cnt + i), h.base, h.sent);
          })
          t in
      (c, found, covers)
