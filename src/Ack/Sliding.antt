-- ===== src/Ack/Sliding.antt =====
-- What the sender holds of the byte stream of the application, and how an ACK moves it.
use tju_tcp.Common.{ℕ, ◌+◌, ◌^◌, ◌≤◌, ◌<◌, ◌≡◌, refl, arith, Memory}
use tju_tcp.Global.{Timeval, Sender}
use tju_tcp.Timer.{Timer, cal_timeout}
use tju_tcp.Send.Stream.{Sends}
use tju_tcp.Ack.{duplicate_ack, slid, retime, cleaned}

-- The sender holds the stream from some byte on, acknowledged up to `base` and sent up to `nextseq`;
-- `last` is the number behind the last byte that the application has given.
pub record Holding (stream : ℕ → ℕ) (last : ℕ) (s : Sender) : Type 0 where
  pub origin : ℕ
  pub sends : Sends stream origin s
  pub end : origin + s.sending_len ≡ last
  pub low : 1 ≤ origin

module _ (stream : ℕ → ℕ) where
  -- The fields that `Sends` speaks of, but for the buffer.
  abbrev pub Same : Sender → Sender → Type 0
  Same s s' =
      (s'.ack_cnt ≡ s.ack_cnt)
      × (s'.have_send_len ≡ s.have_send_len)
      × (s'.sending_len ≡ s.sending_len)
      × (s'.base ≡ s.base)
      × (s'.nextseq ≡ s.nextseq)
      × (s'.sending_buf ≡ s.sending_buf)

  pub Sends-Same :
      (origin : ℕ) (s s' : Sender) → Same s s' → Sends stream origin s → Sends stream origin s'
  Sends-Same origin s s' e h = record {
    acked = omega (arith, h.acked, e.0, e.1);
    sent = omega (arith, h.sent, e.1, e.2);
    room = omega (arith, h.room, e.2);
    base = omega (arith, h.base, e.0, e.3);
    next = omega (arith, h.next, e.1, e.4);
    content = λ i lt. rw e.5 (h.content i (omega (arith, e.2)));
  }

  pub duplicate_ack-Same : (s : Sender) (t : Timer) → Same s (duplicate_ack s t).0
  unfolding duplicate_ack
  duplicate_ack-Same s t = ground arith

  pub retime-Same : (s : Sender) (t : Timer) → Same s (retime s t).0
  retime-Same s t = ground arith

  pub slid-Sends :
      (now : Timeval) (origin : ℕ) (s : Sender) (ack : ℕ)
      → Sends stream origin s
      → origin + s.sending_len < 2 ^ 32
      → s.base ≤ ack
      → ack ≤ s.nextseq
      → Sends stream origin (slid now s ack)
        × ((slid now s ack).base ≡ ack)
        × ((slid now s ack).nextseq ≡ s.nextseq)
        × ((slid now s ack).sending_len ≡ s.sending_len)
  unfolding slid cal_timeout
  slid-Sends now origin s ack h small lo hi = (
    record {
      acked = ground (arith, h.acked, h.base, h.next, h.sent);
      sent = h.sent;
      room = h.room;
      base = ground (arith, h.acked, h.base, h.next, h.sent);
      next = ground (arith, h.next);
      content = h.content;
    },
    refl,
    ground arith,
    refl,
  )

  pub Holding-Same :
      (last : ℕ) (s s' : Sender) → Same s s' → Holding stream last s → Holding stream last s'
  Holding-Same last s s' e h = record {
    origin = h.origin;
    sends = Sends-Same h.origin s s' e h.sends;
    end = omega (arith, h.end, e.2);
    low = h.low;
  }

  pub cleaned-Holding :
      (heap : Memory) (last : ℕ) (s : Sender)
      → Holding stream last s
      → Holding stream last (cleaned heap s)
  cleaned-Holding heap last s record_h = record {
    origin = record_h.origin + s.ack_cnt;
    low = omega (arith, record_h.low);
    sends = record {
      acked = omega arith;
      sent = ground (arith, h.acked, h.sent, h.room);
      room = omega (arith, h.room);
      base = ground (arith, h.base);
      next = ground (arith, h.next, h.acked, h.sent, h.room);
      content = λ i lt. ground (arith, h.content (s.ack_cnt + i));
    };
    end = omega (arith, h.acked, h.sent, record_h.end);
  }
    where
      h : Sends stream record_h.origin s
      h = record_h.sends
