-- ===== src/Send/Buffer.antt =====
-- `tju_send`: how data enters the sending buffer.
use tju_tcp.Common.{ℕ, ◌+◌, ◌-◌, ◌≤◌, ◌<◌, ◌≡◌, refl, arith, Memory, slice, slice-ext, fun_ext, ap}
use tju_tcp.Global.{max_sock_buf_size, Sender}
use tju_tcp.Send.{returned, again, copied, tju_send_round}
use tju_tcp.Send.Stream.{Sends}

copied-Sends :
    (stream : ℕ → ℕ) (origin : ℕ) (s : Sender) (buffer : Memory) (len : ℕ)
    → Sends stream origin s
    → len ≤ max_sock_buf_size - s.sending_len
    → ((t : ℕ) → t < len → buffer t ≡ stream (origin + s.sending_len + t))
    → Sends stream origin (copied s buffer len)
copied-Sends stream origin s buffer len h fits same = record {
  acked = h.acked;
  sent = omega (arith, h.sent);
  room = omega (arith, h.room);
  base = h.base;
  next = h.next;
  content = λ i lt. ground (arith, h.content i, same (i - s.sending_len));
}

-- When the sending buffer holds the stream and has room for the next bytes of it, they are taken
-- in one round: the call returns, the buffer holds the stream with these bytes behind it, and
-- `nextseq` stays.
pub tju_send_round-returned :
    (stream : ℕ → ℕ) (origin : ℕ) (s : Sender) (buffer : Memory) (len : ℕ)
    → Sends stream origin s
    → s.sending_len < max_sock_buf_size
    → len ≤ max_sock_buf_size - s.sending_len
    → ((t : ℕ) → t < len → buffer t ≡ stream (origin + s.sending_len + t))
    → (s' : Sender) × (tju_send_round s buffer len ≡ returned s')
      × Sends stream origin s'
      × (s'.sending_len ≡ s.sending_len + len)
      × (s'.nextseq ≡ s.nextseq)
unfolding tju_send_round
tju_send_round-returned stream origin s buffer len h room fits same = (
  copied s buffer len,
  ground arith,
  copied-Sends stream origin s buffer len h fits same,
  refl,
  refl,
)

-- Data for which there is not enough room: the buffer is filled with its first bytes, but the data
-- and the length that are left to copy are those from before, so these bytes are copied again.
pub tju_send_round-again :
    (s : Sender) (buffer : Memory) (len : ℕ)
    → s.sending_len < max_sock_buf_size
    → max_sock_buf_size < s.sending_len + len
    → let space = max_sock_buf_size - s.sending_len in
      (s' : Sender) × (tju_send_round s buffer len ≡ again s' buffer len)
      × (s'.sending_len ≡ max_sock_buf_size)
      × (slice s'.sending_buf s.sending_len space ≡ slice buffer 0 space)
unfolding tju_send_round
tju_send_round-again s buffer len room more = (
  record (copied s buffer (max_sock_buf_size - s.sending_len)) { sending_len = max_sock_buf_size },
  ground (arith, fun_ext shift),
  refl,
  slice-ext _ buffer s.sending_len 0 _ λ t lt. ground arith,
)
  where
    shift : (i : ℕ) → buffer (i + (max_sock_buf_size - max_sock_buf_size)) ≡ buffer i
    shift i = ap buffer (omega arith)
