-- ===== src/Receive/Tests.antt =====
-- The receiver on small streams: the numbers of the bytes are the bytes.
use tju_tcp.Common.{ℕ, ◌+◌, ◌-◌, ◌≤◌, ◌≡◌, refl, some, none, List, [], ◌∷◌, arith, Memory, slice}
use tju_tcp.Global.{max_rwindow_size, no_flag, Receiver}
use tju_tcp.Packet.{
  create_packet_buf, create_packet, packet_to_buf, header_in_char, get_seq, get_hlen, get_plen,
}
use tju_tcp.Receive.{get_wnd_free_len, data_len, handle_data}
use tju_tcp.Receive.Scan.{IsFirstFree, get_wnd_free_len-IsFirstFree}
use tju_tcp.Receive.Window.{Holds, Carries, Keeps, handle_data-Keeps}
use tju_tcp.Receive.Delivery.{next_byte, Event, packet, call, run, run-slice}
use tju_tcp.Receive.Progress.{handle_data-overrun}

abbrev heap0 : Memory
heap0 = λ _. 0

abbrev stream0 : ℕ → ℕ
stream0 = λ q. q

abbrev receiver0 : Receiver
receiver0 = record {
  wnd_recv = record {
    remain_size = max_rwindow_size;
    recv_buf = heap0;
    mark = heap0;
    expect_seq = 1;
  };
  received_buf = heap0;
  received_len = 0;
}

-- The `n` bytes from `seq` on.
abbrev segment : ℕ → ℕ → Memory
segment seq n =
    create_packet_buf heap0
      (record {
        source_port = 1;
        destination_port = 2;
        seq_num = seq;
        ack_num = 0;
        hlen = 20;
        plen = 20 + n;
        flags = no_flag;
        advertised_window = 1;
        ext = 0;
      })
      (λ i. seq + i) n

receiver0-Holds : Holds stream0 7 receiver0
receiver0-Holds = record {
  low = omega arith;
  reach = omega arith;
  room = omega arith;
  left_low = omega arith;
  left_high = omega arith;
  last = refl;
  within = λ i lt marked. absurd (marked refl);
  marked = λ i lt marked. absurd (marked refl);
  received = λ i lt. absurd (omega arith);
}

first-Carries : Carries stream0 7 (segment 1 3)
unfolding create_packet_buf create_packet packet_to_buf header_in_char get_seq get_hlen get_plen
    data_len
first-Carries = record { whole = omega arith; end = omega arith; payload = λ t lt. ground arith }

second-Carries : Carries stream0 7 (segment 4 3)
unfolding create_packet_buf create_packet packet_to_buf header_in_char get_seq get_hlen get_plen
    data_len
second-Carries = record { whole = omega arith; end = omega arith; payload = λ t lt. ground arith }

-- The second packet comes first, then the first one, and the first one again.
abbrev events0 : List Event
events0 =
    packet heap0 (segment 4 3)
    ∷ call heap0 5
    ∷ packet heap0 (segment 1 3)
    ∷ packet heap0 (segment 1 3)
    ∷ call heap0 5
    ∷ call heap0 5
    ∷ []

run-slice_example :
    (n : ℕ) × (r' : Receiver) × (run receiver0 events0 ≡ some (slice stream0 1 n, r'))
    × Holds stream0 7 r'
    × (next_byte r' ≡ 1 + n)
run-slice_example =
    run-slice stream0 7 receiver0 events0 (omega arith) receiver0-Holds
      (second-Carries, (first-Carries, (first-Carries, tt)))

handle_data-Keeps_example :
    (r' : Receiver) × (handle_data heap0 receiver0 (segment 4 3) ≡ some r')
    × Keeps stream0 7 receiver0 r'
handle_data-Keeps_example =
    handle_data-Keeps stream0 7 (omega arith) heap0 receiver0 (segment 4 3) receiver0-Holds
      second-Carries

-- With the first four bytes received.
abbrev receiver4 : Receiver
receiver4 = record receiver0 {
  wnd_recv = record receiver0.wnd_recv { expect_seq = 5 };
  received_buf = λ i. 1 + i;
  received_len = 4;
}

receiver4-Holds : Holds stream0 7 receiver4
receiver4-Holds = record {
  low = omega arith;
  reach = omega arith;
  room = omega arith;
  left_low = omega arith;
  left_high = omega arith;
  last = refl;
  within = λ i lt marked. absurd (marked refl);
  marked = λ i lt marked. absurd (marked refl);
  received = λ i lt. refl;
}

-- Three bytes whose numbers end at the wrap.
handle_data-overrun_example : handle_data heap0 receiver0 (segment 0xffff_fffd 4) ≡ none
unfolding data_len create_packet_buf create_packet packet_to_buf header_in_char get_hlen get_plen
    get_seq
handle_data-overrun_example =
    handle_data-overrun heap0 receiver0 (segment 0xffff_fffd 4) (omega arith) (omega arith)
      (omega arith) (omega arith) (omega arith)

abbrev marks0 : Memory
marks0 = λ i. 2 - i

get_wnd_free_len-IsFirstFree_example :
    (k : ℕ) × (get_wnd_free_len marks0 ≡ some k) × (k ≤ 5) × IsFirstFree marks0 0 k
get_wnd_free_len-IsFirstFree_example = get_wnd_free_len-IsFirstFree marks0 5 (omega arith) refl
