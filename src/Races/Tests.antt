-- ===== src/Races/Tests.antt =====
-- Five bytes have been sent once and again, and three more wait to be sent.
use tju_tcp.Common.{◌+◌, ◌<◌, ◌≡◌, refl, some, [], ◌∷◌, arith, Memory, true, false, slice}
use tju_tcp.Global.{Itimerval, Sender}
use tju_tcp.Packet.{create_packet_buf, create_packet, packet_to_buf, header_in_char, get_seq}
use tju_tcp.Timer.{Timer, sigalrm}
use tju_tcp.Send.{Pass, copied, data_packet, may_send, tju_send_round}
use tju_tcp.Send.Stream.{Covers, Sends}
use tju_tcp.Ack.Sliding.{Holding}
use tju_tcp.Retransmit.{Cursor, resend_loop, retrans_thread}
use tju_tcp.Races.{Snapshot, look, send_locked, Between, nothing, wrote, fired, read_cursor}
use tju_tcp.Races.Interference.{Between-Covers}
use tju_tcp.Races.Timerless.{Rounds, nothing_resent, send_locked-timerless}
use tju_tcp.Races.Torn.{displaced, slid_to, torn-displaced}
use tju_tcp.Samples.{heap0, stream0, now0, timer0, sender5}

-- The sender after a retransmission, with three more bytes.
abbrev sender8 : Sender
sender8 = record sender5 { sending_len = 8; is_retransing = false }

abbrev snapshot8 : Snapshot
snapshot8 = record {
  wnd_size = sender8.window_size;
  wnd_ack_cnt = 0;
  wnd_base = 1;
  wnd_nextseq = 6;
}

look_test : look sender8 ≡ some snapshot8
unfolding look may_send
look_test = refl

sender8-Sends : Sends stream0 1 sender8
sender8-Sends = record {
  acked = omega arith;
  sent = omega arith;
  room = omega arith;
  base = refl;
  next = refl;
  content = λ i lt. refl;
}

sender8-Holding : Holding stream0 9 sender8
sender8-Holding = record { origin = 1; sends = sender8-Sends; end = refl; low = omega arith }

abbrev buffer9 : Memory
buffer9 = λ i. 9 + i

-- Two more bytes are written before the lock is taken, and the timer fires.
abbrev sender10 : Sender
sender10 = copied sender8 buffer9 2

abbrev interval0 : Itimerval
interval0 = sender8.timeout

abbrev timer_armed : Timer
timer_armed = record timer0 { armed = some interval0 }

abbrev timer_fired : Timer
timer_fired = record timer0 { retrans = true; timeout_flag = true }

written_between : Between heap0 1234 5678 stream0 11 sender8 timer_armed 9 sender10 timer_fired 11
unfolding tju_send_round sigalrm
written_between =
    fired interval0
      (wrote buffer9 2 nothing (omega arith) (omega arith) (omega arith) (λ i lt. refl) refl) refl

Between-Covers_example :
    (p : Pass) × (send_locked heap0 1234 5678 now0 snapshot8 sender10 timer_fired ≡ some p)
    × Covers stream0 6 p.packets p.sender.nextseq
    × Holding stream0 11 p.sender
Between-Covers_example =
    Between-Covers heap0 1234 5678 stream0 11 (omega arith) (omega arith) (omega arith) now0
      snapshot8 sender8 sender10 timer_armed timer_fired 9 11 sender8-Holding (omega arith)
      look_test written_between

-- Everything has been acknowledged since.
abbrev acked8 : Sender
acked8 = slid_to 6 sender8

acked8-Sends : Sends stream0 1 acked8
acked8-Sends = record {
  acked = omega arith;
  sent = omega arith;
  room = omega arith;
  base = refl;
  next = refl;
  content = λ i lt. refl;
}

send_locked-timerless_example :
    (p : Pass) × (send_locked heap0 1234 5678 now0 snapshot8 acked8 timer0 ≡ some p)
    × (6 < p.sender.nextseq)
    × (p.timer ≡ timer0)
    × ((s' : Sender) (t' : Timer)
        → Rounds heap0 1234 5678 p.sender p.timer s' t'
        → (t' ≡ timer0)
          × (s'.base < s'.nextseq)
          × (retrans_thread heap0 1234 5678 s' t' ≡ some (nothing_resent s' t')))
send_locked-timerless_example =
    send_locked-timerless stream0 heap0 1234 5678 (omega arith) (omega arith) now0 1 snapshot8
      acked8 timer0 acked8-Sends (omega arith) refl (omega arith) (omega arith) refl

torn-displaced_example :
    (c : Cursor) × (resend_loop heap0 1234 5678 6 5 (read_cursor sender8 (slid_to 3 sender8) timer0)
      ≡ some c)
    × Covers (displaced stream0 1 3) 3 c.resent.packets 8
torn-displaced_example =
    torn-displaced stream0 heap0 1234 5678 (omega arith) (omega arith) 1 3 sender8 timer0
      sender8-Sends (omega arith) (omega arith) (omega arith)

-- The packet has the number 3, which the receiver waits for, and the bytes 1 to 5.
torn_packet_test :
    let pkt = data_packet heap0 1234 5678 sender8.sending_buf 0 3 5 in
    (get_seq pkt ≡ 3) × (slice pkt 20 5 ≡ 1 ∷ 2 ∷ 3 ∷ 4 ∷ 5 ∷ [])
unfolding data_packet create_packet_buf create_packet packet_to_buf header_in_char get_seq slice
torn_packet_test = (refl, refl)
