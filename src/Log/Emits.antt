-- ===== src/Log/Emits.antt =====
-- Which events the threads and the handler of an established connection log, in the order of the
-- macros in tju_tcp.c and timer.c; the line of `CalTimeout`, `_RTTS_LOG_`, is left out.
use tju_tcp.Common.{
  ℕ, ◌+◌, Option, none, some, List, [], ◌∷◌, ◌++◌, map, Memory, not, ◌&&◌, ltb, leb, ◌==◌,
  if◌then◌else◌,
}
use tju_tcp.Global.{
  max_dlen, max_sock_buf_size, no_flag, Sender, SenderWindow, Receiver, WindowStatus, slow_start,
  congestion_avoidance, fast_recovery, timeout, Sock,
}
use tju_tcp.Packet.{ack_flag_mask, get_seq, get_ack, get_flags}
use tju_tcp.Timer.{Timer}
use tju_tcp.Send.{Pass}
use tju_tcp.Receive.{get_wnd_free_len, window_fits, buffered}
use tju_tcp.Ack.{
  advertised, update_size, count_duplicate, is_fast_recovery, starts_recovery, recovery, grow,
}
use tju_tcp.Retransmit.{Resent, timed_out}
use tju_tcp.Handle.{Handled}
use tju_tcp.Duplex.{sent_by}
use tju_tcp.Log.{LogEvent, send_log, recv_log, cwnd_log, rwnd_log, swnd_log, delv_log}

-- `sock->window.wnd_send` is `w` when the macro is reached.
abbrev with_window : Sender → SenderWindow → Sender
with_window s w = record s { wnd_send = w }

-- A duplicate ACK.
unfoldable pub duplicate_events : Sender → List LogEvent
duplicate_events s =
    let w = count_duplicate s.window_status s.wnd_send in
    let inflated =
      if is_fast_recovery s.window_status
      then cwnd_log (with_window s w) fast_recovery ∷ []
      else [] in
    if starts_recovery w
    then inflated
      ++ cwnd_log (with_window s (recovery w)) fast_recovery
        ∷ swnd_log (with_window s (update_size (recovery w)))
        ∷ []
    else inflated ++ swnd_log (with_window s (update_size w)) ∷ []

abbrev pub grow_events : WindowStatus → Sender → List LogEvent
grow_events slow_start s = cwnd_log s slow_start ∷ []
grow_events congestion_avoidance s = cwnd_log s congestion_avoidance ∷ []
grow_events _ s = []

-- An ACK of new data.
unfoldable pub new_ack_events : Sender → List LogEvent
new_ack_events s =
    let w = grow s.window_status (record s.wnd_send { same_ack_cnt = 0 }) in
    grow_events s.window_status (with_window s w) ++ swnd_log (with_window s (update_size w)) ∷ []

unfoldable pub ack_events : Sender → Memory → List LogEvent
ack_events s pkt =
    let s1 = advertised s pkt in
    rwnd_log s1
    ∷ (if ltb (get_ack pkt) s.base
        then swnd_log (with_window s1 (update_size s1.wnd_send)) ∷ []
        else (if get_ack pkt == s.base then duplicate_events s1 else new_ack_events s1))

-- The window of the receiver moves over `free_len` bytes.
abbrev pub moved_events : Receiver → Option ℕ → List LogEvent
moved_events r none = []
moved_events r (some free_len) =
    if ltb max_sock_buf_size (r.received_len + free_len)
    then []
    else delv_log r.expect_seq free_len ∷ []

abbrev pub slide_events : Receiver → List LogEvent
slide_events r = if r.mark 0 == 0 then [] else moved_events r (get_wnd_free_len r.mark)

unfoldable pub data_events : Receiver → Memory → List LogEvent
data_events r pkt =
    if leb r.expect_seq (get_seq pkt)
    then (if window_fits r pkt then slide_events (buffered r pkt) else slide_events r)
    else []

-- A packet at a socket in ESTABLISHED, with what the handler makes of it.
unfoldable pub packet_events : Sock → Memory → Handled → List LogEvent
packet_events s pkt r =
    recv_log pkt
      ∷ (if get_flags pkt == no_flag
          then data_events s.receiver pkt
          else (if get_flags pkt == ack_flag_mask then ack_events s.sender pkt else []))
    ++ map send_log (sent_by r.effects)

unfoldable pub sending_events : Pass → List LogEvent
sending_events p = map send_log p.packets

-- A round of `retrans_thread`, with what it does.
unfoldable pub retrans_events : Sender → Timer → Resent → List LogEvent
retrans_events s t r =
    let late =
      cwnd_log (with_window s (record s.wnd_send { cwnd = max_dlen })) timeout
      ∷ swnd_log (timed_out s t)
      ∷ [] in
    (if t.retrans && not (s.window_size == 0) && s.is_retransing
      then (if t.timeout_flag then late else [])
      else [])
    ++ map send_log r.packets
