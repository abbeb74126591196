-- ===== src/Retransmit/Tests.antt =====
-- The five bytes that were sent are sent again after a timeout.
use tju_tcp.Common.{◌/◌, ◌≡◌, refl, some, true, false, arith}
use tju_tcp.Global.{max_dlen, slow_start}
use tju_tcp.Timer.{Timer, timeout_handler}
use tju_tcp.Send.Stream.{Sends, Covers}
use tju_tcp.Retransmit.{Resent, retrans_thread}
use tju_tcp.Retransmit.Covers.{retrans_thread-Covers}
use tju_tcp.Samples.{heap0, stream0, timer0, sender5}

sender5-Sends : Sends stream0 1 sender5
sender5-Sends = record {
  acked = omega arith;
  sent = omega arith;
  room = omega arith;
  base = refl;
  next = refl;
  content = λ i lt. refl;
}

abbrev fired : Timer
fired = record timer0 { retrans = true; timeout_flag = true }

fired_lem : timeout_handler timer0 ≡ fired
unfolding timeout_handler
fired_lem = refl

retrans_thread-Covers_example :
    (r : Resent) × (retrans_thread heap0 1234 5678 sender5 fired ≡ some r)
    × Sends stream0 1 r.sender
    × Covers stream0 1 r.packets 6
    × (r.sender.nextseq ≡ 6)
    × (r.sender.sending_len ≡ 5)
    × (r.sender.is_retransing ≡ false)
    × (r.timer.retrans ≡ false)
    × (r.sender.cwnd ≡ max_dlen)
    × (r.sender.ssthresh ≡ max_dlen / 2)
    × (r.sender.window_status ≡ slow_start)
retrans_thread-Covers_example =
    retrans_thread-Covers stream0 heap0 1234 5678 (omega arith) (omega arith) 1 sender5 fired
      sender5-Sends (omega arith) refl (λ e. omega arith) refl
