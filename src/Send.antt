-- ===== src/Send.antt =====
-- The sending half: `sending_thread` and `retrans_thread` of timer.c, and `tju_send` of tju_tcp.c.
-- One round of a thread's `while (1)` is one function; a round that holds `send_lock` is one step.
-- `heap` is what fresh memory holds, `src` and `dst` are the ports of the two ends, and `now` is what
-- `gettimeofday` gives. A packet that is handed to `sendToLayer3` is listed with its length in it.
pub mod Stream
pub mod Loop
pub mod Buffer
mod Tests
use mathlib.Core.Option
use tju_tcp.Common.{
  ℕ, zero, suc, ◌+◌, ◌-◌, ◌*◌, ◌/◌, ◌^◌, Bool, true, false, Option, none, some, List, [], ◌∷◌, ◌++◌,
  ◌&&◌, ◌||◌, not, Memory, memcpy, u16, u32, ltb, leb, ◌==◌, if◌then◌else◌,
}
use tju_tcp.Global.{max_dlen, max_sock_buf_size, no_flag, Timeval, Sender, SenderWindow, slow_start}
use tju_tcp.Packet.{default_header_len, Header, create_packet_buf}
use tju_tcp.Timer.{Timer, start_timer}

-- The macro `min`.
abbrev pub min_c : ℕ → ℕ → ℕ
min_c x y = if ltb x y then x else y

-- The header of a data packet, `plen` being a `uint16_t`.
abbrev pub data_header : ℕ → ℕ → ℕ → ℕ → Header
data_header src dst seq dlen = record {
  source_port = src;
  destination_port = dst;
  seq_num = seq;
  ack_num = 0;
  hlen = default_header_len;
  plen = u16 (default_header_len + dlen);
  flags = no_flag;
  advertised_window = 1;
  ext = 0;
}

-- A data packet with the `dlen` bytes of the sending buffer from `off` on.
unfoldable pub data_packet : Memory → ℕ → ℕ → Memory → ℕ → ℕ → ℕ → Memory
data_packet heap src dst buf off seq dlen =
    create_packet_buf heap (data_header src dst seq dlen) (λ i. buf (off + i)) dlen

-- What a loop of a thread changes, and the packets that it has sent. `seq` is its local copy of the
-- next sequence number, `wnd_nextseq` or `wnd_base`.
pub record Pass : Type 0 where
  pub sender : Sender
  pub seq : ℕ
  pub timer : Timer
  pub packets : List Memory

-- The length of the next packet when `left` bytes are left.
abbrev pub next_dlen : ℕ → ℕ
next_dlen left = if leb left max_dlen then left else max_dlen

-- The condition under which `sending_thread` sends.
unfoldable pub may_send : Sender → Bool
may_send s =
    not (s.window_size == 0)
    && ltb s.have_send_len s.sending_len
    && ltb s.have_send_len (u32 (s.ack_cnt + s.window_size))
    && not s.is_retransing

-- `min(sock->sending_len,wnd_ack_cnt+wnd_size)`
unfoldable pub send_end : Sender → ℕ
send_end s = min_c s.sending_len (u32 (s.ack_cnt + s.window_size))

abbrev pub keep_nextseq : Pass → Pass
keep_nextseq p = record p {
  sender = record p.sender { wnd_send = record p.sender.wnd_send { nextseq = p.seq } };
}

module _ (heap : Memory) (src dst : ℕ) where
  -- The body of the inner loop of `sending_thread`.
  unfoldable pub send_round : Timeval → ℕ → ℕ → Pass → Pass
  send_round now wnd_base tmp_len p =
      let s = p.sender in
      let w = s.wnd_send in
      let dlen = next_dlen (tmp_len - s.have_send_len) in
      let packet = data_packet heap src dst s.sending_buf s.have_send_len p.seq dlen in
      let w' : SenderWindow = if w.is_estimating_rtt then w else record w {
        is_estimating_rtt = true;
        send_time = now;
        rtt_expect_ack = u32 (p.seq + dlen);
      } in
      let first = wnd_base == p.seq in
      record {
        sender = record s {
          wnd_send = w';
          is_retransing = if first then true else s.is_retransing;
          have_send_len = s.have_send_len + dlen;
        };
        seq = u32 (p.seq + dlen);
        timer = if first then start_timer p.timer w' else p.timer;
        packets = p.packets ++ packet ∷ [];
      }

  -- The inner loop; `none` means that the fuel ran out.
  unfoldable pub send_loop : ℕ → Timeval → ℕ → ℕ → Pass → Option Pass
  send_loop zero now wnd_base tmp_len p = none
  send_loop (suc fuel) now wnd_base tmp_len p =
      let more = send_loop fuel now wnd_base tmp_len (send_round now wnd_base tmp_len p) in
      if ltb p.sender.have_send_len tmp_len then more else some p

  -- A round of `sending_thread`. A packet has a byte at least, so the fuel is the bytes to send, and
  -- one for the last test.
  unfoldable pub sending_thread : Timeval → Sender → Timer → Option Pass
  sending_thread now s t =
      let idle : Pass = record { sender = s; seq = s.nextseq; timer = t; packets = [] } in
      if may_send s
      then Option.map keep_nextseq
          (send_loop (suc (send_end s - s.have_send_len)) now s.base (send_end s) idle)
      else some idle

-- What a round of the loop of `tju_send` leaves: the call returns, or the loop goes on with the
-- sender, the data and the length that are left.
pub data Copy : Type 0 where
  returned : Sender → Copy
  again : Sender → Memory → ℕ → Copy

-- The first `n` bytes of `buffer` go behind those in the sending buffer.
abbrev pub copied : Sender → Memory → ℕ → Sender
copied s buffer n = record s {
  sending_buf = memcpy s.sending_buf s.sending_len buffer 0 n;
  sending_len = s.sending_len + n;
}

-- A round of the loop of `tju_send`; `tmp_len` is not negative, and `sending_len` at most
-- `MAX_SOCK_BUF_SIZE`. In the last branch the pointer and the length move by the space that is left
-- after `sending_len` has been set, as the code has it.
unfoldable pub tju_send_round : Sender → Memory → ℕ → Copy
tju_send_round s tmp_buffer tmp_len =
    let space = max_sock_buf_size - s.sending_len in
    let full = record (copied s tmp_buffer space) { sending_len = max_sock_buf_size } in
    let space' = max_sock_buf_size - full.sending_len in
    if ltb 0 space || not (tmp_len == 0)
    then (if space == 0
        then again s tmp_buffer tmp_len
        else (if leb tmp_len space
            then returned (copied s tmp_buffer tmp_len)
            else again full (λ i. tmp_buffer (i + space')) (tmp_len - space')))
    else returned s
