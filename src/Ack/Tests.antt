-- ===== src/Ack/Tests.antt =====
-- ACKs of the five bytes that were sent.
use tju_tcp.Common.{◌≡◌, refl, some, arith, min}
use Prim.Native.Nat.{max}
use tju_tcp.Global.{Sender}
use tju_tcp.Packet.{
  get_ack, get_advertised_window, create_packet_buf, create_packet, packet_to_buf, header_in_char,
}
use tju_tcp.Timer.{Timer}
use tju_tcp.Handle.{control_packet}
use tju_tcp.Ack.{handle_ack, handle_ack_kind, duplicate_ack}
use tju_tcp.Ack.Sliding.{Holding}
use tju_tcp.Ack.Window.{handle_ack-Holding}
use tju_tcp.Ack.Congestion.{control, Move, IsRunning, handle_ack-Move, handle_ack-window_size}
use tju_tcp.Samples.{heap0, stream0, now0, timer0, sender5, ack_of}

sender5-Holding : Holding stream0 6 sender5
sender5-Holding = record {
  origin = 1;
  sends = record {
    acked = omega arith;
    sent = omega arith;
    room = omega arith;
    base = refl;
    next = refl;
    content = λ i lt. refl;
  };
  end = refl;
  low = omega arith;
}

-- Three of the five bytes are acknowledged.
handle_ack-Holding_example :
    (s' : Sender) × (t' : Timer) × (handle_ack heap0 now0 sender5 timer0 (ack_of 4) ≡ some (s', t'))
    × Holding stream0 6 s'
    × (s'.base ≡ max 1 (get_ack (ack_of 4)))
    × (s'.nextseq ≡ 6)
unfolding control_packet create_packet_buf create_packet packet_to_buf header_in_char get_ack
handle_ack-Holding_example =
    handle_ack-Holding stream0 heap0 now0 6 sender5 timer0 (ack_of 4) sender5-Holding (omega arith)
      (omega arith)

sender5-IsRunning : IsRunning sender5
sender5-IsRunning = record { status = cc; cwnd = omega arith; same = omega arith }

-- After the first duplicate ACK.
abbrev once : Sender
once = record sender5 {
  wnd_send = record sender5.wnd_send { same_ack_cnt = 1; rwnd = 3000; window_size = 1375 };
}

handle_ack-once : handle_ack heap0 now0 sender5 timer0 (ack_of 1) ≡ some (once, timer0)
unfolding handle_ack handle_ack_kind duplicate_ack control_packet create_packet_buf create_packet
    packet_to_buf header_in_char get_ack get_advertised_window
handle_ack-once = refl

handle_ack-Move_example : Move 1 (get_ack (ack_of 1)) (control sender5) (control once)
handle_ack-Move_example =
    handle_ack-Move heap0 now0 sender5 timer0 (ack_of 1) once timer0 sender5-IsRunning
      handle_ack-once

handle_ack-window_size_example :
    (once.rwnd ≡ get_advertised_window (ack_of 1)) × (once.window_size ≡ min once.cwnd once.rwnd)
handle_ack-window_size_example =
    handle_ack-window_size heap0 now0 sender5 timer0 (ack_of 1) once timer0 handle_ack-once
