-- ===== src/Ack.antt =====
-- The ACK branch of `tju_handle_packet` in ESTABLISHED: flow control, congestion control, the RTT, the
-- sliding of the sending window and the cleaning of the sending buffer.
-- `sending_len` and `have_send_len` are `int`s of at most the buffer's size; where the code takes an
-- `uint32_t` off one of them, the model keeps the 32-bit pattern.
pub mod Cases
pub mod Sliding
pub mod Window
pub mod Congestion
pub mod Opening
mod Tests
use mathlib.Core.Option
use tju_tcp.Common.{
  ℕ, ◌+◌, ◌-◌, ◌*◌, ◌/◌, ◌^◌, Bool, true, false, Option, none, some, ◌&&◌, ◌||◌, not, Memory,
  memcpy, u32, sub32, ltb, leb, ◌==◌, if◌then◌else◌,
}
use tju_tcp.Global.{
  max_dlen, max_sock_buf_size, Timeval, Sender, SenderWindow, WindowStatus, slow_start,
  congestion_avoidance, fast_recovery, timeout,
}
use tju_tcp.Packet.{get_ack, get_advertised_window}
use tju_tcp.Timer.{Timer, start_timer, stop_timer, cal_timeout}
use tju_tcp.Send.{min_c}

-- `window_size=min(cwnd,rwnd)`
abbrev pub update_size : SenderWindow → SenderWindow
update_size w = record w { window_size = min_c w.cwnd w.rwnd }

-- A duplicate ACK, by the state of congestion control.
abbrev pub count_duplicate : WindowStatus → SenderWindow → SenderWindow
count_duplicate slow_start w = record w { same_ack_cnt = u32 (w.same_ack_cnt + 1) }
count_duplicate congestion_avoidance w = record w { same_ack_cnt = u32 (w.same_ack_cnt + 1) }
count_duplicate fast_recovery w = record w { cwnd = u32 (w.cwnd + max_dlen) }
count_duplicate timeout w = w

abbrev pub is_fast_recovery : WindowStatus → Bool
is_fast_recovery fast_recovery = true
is_fast_recovery _ = false

-- `same_ack_cnt==3&&window_status!=FAST_RECOVERY`
abbrev pub starts_recovery : SenderWindow → Bool
starts_recovery w = w.same_ack_cnt == 3 && not (is_fast_recovery w.window_status)

abbrev pub recovery : SenderWindow → SenderWindow
recovery w = record w { ssthresh = w.cwnd / 2; cwnd = w.cwnd / 2; window_status = fast_recovery }

-- get_ack(pkt) == base
unfoldable pub duplicate_ack : Sender → Timer → Sender × Timer
duplicate_ack s t =
    let w = count_duplicate s.window_status s.wnd_send in
    if starts_recovery w
    then (
      record s { wnd_send = update_size (recovery w); is_retransing = true },
      record t { retrans = true },
    )
    else (record s { wnd_send = update_size w }, t)

-- The congestion window after an ACK of new data.
abbrev pub grow : WindowStatus → SenderWindow → SenderWindow
grow slow_start w =
    let doubled = u32 (w.cwnd * 2) in
    if leb w.ssthresh doubled
    then record w { cwnd = w.ssthresh; window_status = congestion_avoidance }
    else record w { cwnd = doubled }
grow congestion_avoidance w = record w { cwnd = u32 (w.cwnd + max_dlen) }
grow fast_recovery w = record w { window_status = congestion_avoidance }
grow timeout w = w

-- The measurement of the RTT ends with the first ACK of new data.
abbrev pub measure : Timeval → ℕ → SenderWindow → SenderWindow
measure now ack w =
    if w.is_estimating_rtt
    then record (if w.rtt_expect_ack == ack then cal_timeout w now else w) {
      is_estimating_rtt = false;
    }
    else w

-- The window slides to `ack`.
abbrev pub advance : ℕ → SenderWindow → SenderWindow
advance ack w = record w { ack_cnt = u32 (w.ack_cnt + sub32 ack w.base); base = ack }

-- The timer stops when nothing is unacknowledged, and starts again otherwise.
abbrev pub retime : Sender → Timer → Sender × Timer
retime s t =
    if s.base == s.nextseq
    then (record s { is_retransing = false }, stop_timer t)
    else (record s { is_retransing = true }, start_timer t s.wnd_send)

-- The acknowledged bytes leave the sending buffer when they are all of it, or more than four fifths
-- of its size.
abbrev pub needs_cleaning : Sender → Bool
needs_cleaning s =
    not (s.sending_len == 0)
    && (s.ack_cnt == s.sending_len || ltb (4 * max_sock_buf_size / 5) s.ack_cnt)

abbrev pub cleaned : Memory → Sender → Sender
cleaned heap s = record s {
  wnd_send = record s.wnd_send { ack_cnt = 0 };
  sending_buf = memcpy heap 0 s.sending_buf s.ack_cnt (s.sending_len - s.ack_cnt);
  sending_len = s.sending_len - s.ack_cnt;
  have_send_len = sub32 s.have_send_len s.ack_cnt;
}

-- `none`: the bytes to copy, `sending_len - ack_cnt` as an unsigned number, leave the buffer.
unfoldable pub clean : Memory → Sender → Option Sender
clean heap s =
    if needs_cleaning s
    then (if leb s.ack_cnt s.sending_len then some (cleaned heap s) else none)
    else some s

-- get_ack(pkt) > base
unfoldable pub slid : Timeval → Sender → ℕ → Sender
slid now s ack = record s {
  wnd_send = advance ack (
      measure now ack
        (update_size (grow s.window_status (record s.wnd_send { same_ack_cnt = 0 }))));
}

abbrev pub with_timer : Timer → Option Sender → Option (Sender × Timer)
with_timer t none = none
with_timer t (some s) = some (s, t)

unfoldable pub new_ack : Memory → Timeval → Sender → Timer → ℕ → Option (Sender × Timer)
new_ack heap now s t ack = let (s', t') = retime (slid now s ack) t in with_timer t' (clean heap s')

-- A window of 0 starts the timer of its probe.
abbrev pub probe_later : Option (Sender × Timer) → Option (Sender × Timer)
probe_later none = none
probe_later (some (s, t)) =
    if s.window_size == 0
    then some (record s { is_retransing = false }, start_timer t s.wnd_send)
    else some (s, t)

-- `rwnd=get_advertised_window(pkt)`
abbrev pub advertised : Sender → Memory → Sender
advertised s pkt = record s { wnd_send = record s.wnd_send { rwnd = get_advertised_window pkt } }

-- The three ways to take an ACK.
unfoldable pub handle_ack_kind :
    Memory → Timeval → Sender → Timer → Memory → Option (Sender × Timer)
handle_ack_kind heap now s t pkt =
    let s1 = advertised s pkt in
    if ltb (get_ack pkt) s.base
    then some (record s1 { wnd_send = update_size s1.wnd_send }, t)
    else (if get_ack pkt == s.base
        then some (duplicate_ack s1 t)
        else new_ack heap now s1 t (get_ack pkt))

unfoldable pub handle_ack : Memory → Timeval → Sender → Timer → Memory → Option (Sender × Timer)
handle_ack heap now s t pkt = probe_later (handle_ack_kind heap now s t pkt)
