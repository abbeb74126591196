-- ===== src/Packet/Tests.antt =====
-- A packet of three bytes.
use tju_tcp.Common.{◌+◌, ◌≡◌, refl, [], ◌∷◌, arith, Memory, slice}
use tju_tcp.Packet.{Header, create_packet_buf, create_packet, packet_to_buf, header_in_char}
use tju_tcp.Packet.RoundTrip.{header_of, header_of-create_packet_buf, payload-create_packet_buf}

abbrev fields0 : Header
fields0 = record {
  source_port = 1234;
  destination_port = 5678;
  seq_num = 464;
  ack_num = 0;
  hlen = 20;
  plen = 23;
  flags = 0;
  advertised_window = 1;
  ext = 0;
}

abbrev payload0 : Memory
payload0 = λ i. 65 + i

wire0 :
    slice (create_packet_buf (λ _. 0) fields0 payload0 3) 0 23
    ≡ 4 ∷ 210 ∷ 22 ∷ 46 ∷ 0 ∷ 0 ∷ 1 ∷ 208 ∷ 0 ∷ 0 ∷ 0 ∷ 0 ∷ 0 ∷ 20 ∷ 0 ∷ 23 ∷ 0 ∷ 0 ∷ 1 ∷ 0 ∷ 65
      ∷ 66 ∷ 67 ∷ []
unfolding create_packet_buf create_packet packet_to_buf header_in_char slice
wire0 = refl

header_of-create_packet_buf_example :
    header_of (create_packet_buf (λ _. 0) fields0 payload0 3) ≡ fields0
header_of-create_packet_buf_example =
    header_of-create_packet_buf (λ _. 0) fields0 payload0 3
      (record {
        source_port = omega arith;
        destination_port = omega arith;
        seq_num = omega arith;
        ack_num = omega arith;
        hlen = omega arith;
        plen = omega arith;
        flags = omega arith;
        advertised_window = omega arith;
        ext = omega arith;
      })
      (omega arith)

payload-create_packet_buf_example : create_packet_buf (λ _. 0) fields0 payload0 3 22 ≡ 67
payload-create_packet_buf_example =
    payload-create_packet_buf (λ _. 0) fields0 payload0 3 2 (omega arith) (omega arith)
