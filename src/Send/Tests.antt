-- ===== src/Send/Tests.antt =====
-- Five bytes in the sending buffer.
use tju_tcp.Common.{◌+◌, ◌-◌, ◌≤◌, ◌≡◌, ◌⊎◌, false, refl, [], some, arith, slice}
use tju_tcp.Global.{max_sock_buf_size, Sender}
use tju_tcp.Send.{may_send, send_end, Pass, sending_thread, returned, again, tju_send_round}
use tju_tcp.Send.Stream.{Sends, Covers}
use tju_tcp.Send.Loop.{sending_thread-Covers}
use tju_tcp.Send.Buffer.{tju_send_round-returned, tju_send_round-again}
use tju_tcp.Samples.{heap0, stream0, now0, timer0, sender0}

sender0-Sends : Sends stream0 1 sender0
sender0-Sends = record {
  acked = omega arith;
  sent = omega arith;
  room = omega arith;
  base = refl;
  next = refl;
  content = λ i lt. refl;
}

sending_thread-Covers_example :
    (p : Pass) × (sending_thread heap0 1234 5678 now0 sender0 timer0 ≡ some p)
    × Sends stream0 1 p.sender
    × Covers stream0 1 p.packets p.sender.nextseq
    × (p.sender.sending_len ≡ 5)
    × (((may_send sender0 ≡ false) × (p.packets ≡ []))
        ⊎ ((p.sender.nextseq ≡ 1 + send_end sender0)
            × (p.sender.nextseq ≤ 1 + sender0.window_size)))
sending_thread-Covers_example =
    sending_thread-Covers stream0 heap0 1234 5678 (omega arith) (omega arith) now0 1 sender0 timer0
      sender0-Sends (omega arith)

tju_send_round-returned_example :
    (s' : Sender) × (tju_send_round sender0 (λ i. 6 + i) 4 ≡ returned s')
    × Sends stream0 1 s'
    × (s'.sending_len ≡ 9)
    × (s'.nextseq ≡ 1)
tju_send_round-returned_example =
    tju_send_round-returned stream0 1 sender0 (λ i. 6 + i) 4 sender0-Sends (omega arith)
      (omega arith) (λ t lt. refl)

abbrev nearly_full : Sender
nearly_full = record sender0 { sending_len = max_sock_buf_size - 3 }

tju_send_round-again_example :
    (s' : Sender) × (tju_send_round nearly_full (λ i. i) 10 ≡ again s' (λ i. i) 10)
    × (s'.sending_len ≡ max_sock_buf_size)
    × (slice s'.sending_buf nearly_full.sending_len 3 ≡ slice (λ i. i) 0 3)
tju_send_round-again_example =
    tju_send_round-again nearly_full (λ i. i) 10 (omega arith) (omega arith)
