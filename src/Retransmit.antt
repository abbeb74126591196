-- ===== src/Retransmit.antt =====
-- `retrans_thread` of timer.c: a round of its `while (1)`.
pub mod Loop
pub mod Covers
mod Tests
use mathlib.Core.Option
use tju_tcp.Common.{
  ℕ, zero, suc, ◌+◌, ◌-◌, ◌/◌, ◌^◌, Bool, true, false, Option, none, some, List, [], ◌∷◌, ◌++◌, not,
  Memory, u32, sub32, ltb, ◌==◌, if◌then◌else◌,
}
use tju_tcp.Global.{max_dlen, Sender, SenderWindow, slow_start}
use tju_tcp.Packet.{create_packet_buf}
use tju_tcp.Timer.{Timer, start_timer}
use tju_tcp.Send.{data_header, data_packet, next_dlen, min_c}

-- What the thread changes, and the packets that it has sent.
pub record Resent : Type 0 where
  pub sender : Sender
  pub timer : Timer
  pub packets : List Memory

-- The loop's copies of `ack_cnt` and `base`.
pub record Cursor : Type 0 where
  pub wnd_ack_cnt : ℕ
  pub wnd_base : ℕ
  pub resent : Resent

-- After a timeout the congestion window is one segment and slow start begins again.
unfoldable pub after_timeout : SenderWindow → SenderWindow
after_timeout w = record w {
  ssthresh = w.cwnd / 2;
  cwnd = max_dlen;
  window_status = slow_start;
  window_size = min_c max_dlen w.rwnd;
}

-- `RETRANS=FALSE; is_retransing=FALSE;` behind the loop.
abbrev pub finish : Cursor → Resent
finish c = record c.resent {
  sender = record c.resent.sender { is_retransing = false };
  timer = record c.resent.timer { retrans = false };
}

abbrev pub begin_resend : Sender → Timer → Cursor
begin_resend s t = record {
  wnd_ack_cnt = s.ack_cnt;
  wnd_base = s.base;
  resent = record { sender = s; timer = t; packets = [] };
}

-- Nothing to be sent again: if something is unacknowledged, the next round will.
unfoldable pub rearm : Sender → Timer → Resent
rearm s t =
    let pending = ltb s.ack_cnt s.have_send_len in
    record {
      sender = record s { is_retransing = if pending then true else s.is_retransing };
      timer = record t { retrans = pending };
      packets = [];
    }

-- If the retransmission is one after a timeout, the window parameters change first.
abbrev pub timed_out : Sender → Timer → Sender
timed_out s t = if t.timeout_flag then record s { wnd_send = after_timeout s.wnd_send } else s

module _ (heap : Memory) (src dst : ℕ) where
  -- The body of the inner loop: the timer starts with the first packet.
  unfoldable pub resend_round : ℕ → Cursor → Cursor
  resend_round have_sent c =
      let r = c.resent in
      let dlen = next_dlen (have_sent - c.wnd_ack_cnt) in
      let packet = data_packet heap src dst r.sender.sending_buf c.wnd_ack_cnt c.wnd_base dlen in
      let first = c.wnd_ack_cnt == r.sender.ack_cnt in
      record {
        wnd_ack_cnt = u32 (c.wnd_ack_cnt + dlen);
        wnd_base = u32 (c.wnd_base + dlen);
        resent = record {
          sender = record r.sender {
            is_retransing = if first then true else r.sender.is_retransing;
          };
          timer = if first then start_timer r.timer r.sender.wnd_send else r.timer;
          packets = r.packets ++ packet ∷ [];
        };
      }

  -- The inner loop; `none` means that the fuel ran out.
  unfoldable pub resend_loop : ℕ → ℕ → Cursor → Option Cursor
  resend_loop zero have_sent c = none
  resend_loop (suc fuel) have_sent c =
      let more = resend_loop fuel have_sent (resend_round have_sent c) in
      if ltb c.wnd_ack_cnt have_sent then more else some c

  -- The probe of a window of 0: a header alone, with the number before `base`.
  unfoldable pub probe : Sender → Memory
  probe s = create_packet_buf heap (data_header src dst (sub32 s.base 1) 0) (λ _. 0) 0

  -- Everything from `ack_cnt` to `have_send_len` is sent again; a packet has a byte at least, so the
  -- fuel is the bytes to send, and one for the last test.
  unfoldable pub resend_all : Sender → Timer → Option Resent
  resend_all s t =
      Option.map finish
        (resend_loop (suc (s.have_send_len - s.ack_cnt)) s.have_send_len (begin_resend s t))

  unfoldable pub resend : Sender → Timer → Option Resent
  resend s t = resend_all (timed_out s t) t

  unfoldable pub retrans_thread : Sender → Timer → Option Resent
  unfolding resend rearm
  retrans_thread s t =
      if not t.retrans
      then some (record { sender = s; timer = t; packets = [] })
      else (if s.window_size == 0
          then some
              (record { sender = s; timer = start_timer t s.wnd_send; packets = probe s ∷ [] })
          else (if not s.is_retransing then some (rearm s t) else resend s t))
