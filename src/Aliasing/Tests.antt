-- ===== src/Aliasing/Tests.antt =====
-- A listening socket at 0 and two connections, at 1 and 2.
use tju_tcp.Common.{◌+◌, ◌≤◌, ◌≡◌, refl, some, arith, Memory}
use tju_tcp.Global.{listen, Receiver}
use tju_tcp.Packet.{
  create_packet_buf, create_packet, packet_to_buf, header_in_char, get_seq, get_hlen, get_plen,
}
use tju_tcp.Send.{data_packet}
use tju_tcp.Receive.{handle_data, data_len}
use tju_tcp.Receive.Window.{Holds, Carries}
use tju_tcp.Receive.Progress.{handle_data-forward}
use tju_tcp.Aliasing.{TjuTcp, Store, new_conn, load, save, handle_data_at}
use tju_tcp.Aliasing.Twins.{accept_two, twins-lost}
use tju_tcp.Samples.{heap0, stream0, receiver0, server_addr, client_addr}

abbrev listener0 : TjuTcp
listener0 = record {
  state = listen;
  bind_addr = server_addr;
  established_local_addr = server_addr;
  established_remote_addr = client_addr;
  wnd_recv = 7;
  received_buf = 8;
  received_len = 0;
}

abbrev store0 : Store
store0 = record {
  socks = λ _. listener0;
  windows = λ _. receiver0.wnd_recv;
  buffers = λ _. heap0;
  next = 1;
}

abbrev two0 : Store
two0 = accept_two store0 0 heap0 heap0

abbrev buffer0 : Memory
buffer0 = λ i. 1 + i

-- Three bytes for the one, two for the other.
abbrev packet3 : Memory
packet3 = data_packet heap0 5678 1234 buffer0 0 1 3

abbrev packet2 : Memory
packet2 = data_packet heap0 5679 1234 buffer0 0 1 2

receiver0-Holds : Holds stream0 4 receiver0
receiver0-Holds = record {
  low = omega arith;
  reach = omega arith;
  room = omega arith;
  left_low = omega arith;
  left_high = omega arith;
  last = refl;
  within = λ i lt marked. absurd (marked refl);
  marked = λ i lt marked. absurd (marked refl);
  received = λ i lt. absurd (omega arith);
}

packet3-fields : (get_seq packet3 ≡ 1) × (data_len packet3 ≡ 3) × Carries stream0 4 packet3
unfolding data_packet create_packet_buf create_packet packet_to_buf header_in_char get_seq get_hlen
    get_plen data_len
packet3-fields =
    (refl, refl, record { whole = omega arith; end = omega arith; payload = λ t lt. ground arith })

packet2-fields : (get_seq packet2 ≡ 1) × (data_len packet2 ≡ 2)
unfolding data_packet create_packet_buf create_packet packet_to_buf header_in_char get_seq get_hlen
    get_plen data_len
packet2-fields = (refl, refl)

-- What the first connection makes of its packet.
received0 : (r : Receiver) × (handle_data heap0 receiver0 packet3 ≡ some r) × (4 ≤ r.expect_seq)
received0 =
    let (seq, len, carries) = packet3-fields in
    let (r, found, moved, _) =
      handle_data-forward stream0 4 heap0 receiver0 packet3 (omega arith) receiver0-Holds carries
        seq (omega (arith, len)) (omega (arith, len)) (omega arith) in
    (r, found, omega (arith, moved, len))

abbrev store1 : Store
store1 = save two0 1 received0.0

store1_is : handle_data_at heap0 two0 1 packet3 ≡ some store1
unfolding handle_data_at new_conn
store1_is = rw received0.1 refl

twins-lost_example :
    (st'' : Store) × (handle_data_at heap0 store1 2 packet2 ≡ some st'')
    × ((load st'' 2).received_len ≡ 0)
    × ((load st'' 2).expect_seq ≡ (load store1 1).expect_seq)
    × (get_seq packet2 + data_len packet2 ≤ (load st'' 2).expect_seq)
unfolding new_conn
twins-lost_example =
    twins-lost heap0 store0 store1 0 heap0 heap0 packet3 packet2 (omega arith) store1_is
      (omega (arith, packet2-fields.1))
      (omega (arith, packet2-fields.0, packet2-fields.1, received0.2))
