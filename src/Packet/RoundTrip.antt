-- ===== src/Packet/RoundTrip.antt =====
-- What the getters of tju_packet.c read from a packet that it built.
use tju_tcp.Common.{ℕ, ◌+◌, ◌-◌, ◌^◌, ◌≤◌, ◌<◌, ◌≡◌, ◌∙◌, arith, Memory}
use tju_tcp.Packet.{
  Header, get_src, get_dst, get_seq, get_ack, get_hlen, get_plen, get_flags, get_advertised_window,
  get_ext, header_in_char, packet_to_buf, create_packet, create_packet_buf, TjuPacket,
}

-- Every field fits its type.
pub record Fits (h : Header) : Type 0 where
  pub source_port : h.source_port < 2 ^ 16
  pub destination_port : h.destination_port < 2 ^ 16
  pub seq_num : h.seq_num < 2 ^ 32
  pub ack_num : h.ack_num < 2 ^ 32
  pub hlen : h.hlen < 2 ^ 16
  pub plen : h.plen < 2 ^ 16
  pub flags : h.flags < 2 ^ 8
  pub advertised_window : h.advertised_window < 2 ^ 16
  pub ext : h.ext < 2 ^ 8

-- The header that the nine getters read.
abbrev pub header_of : Memory → Header
header_of msg = record {
  source_port = get_src msg;
  destination_port = get_dst msg;
  seq_num = get_seq msg;
  ack_num = get_ack msg;
  hlen = get_hlen msg;
  plen = get_plen msg;
  flags = get_flags msg;
  advertised_window = get_advertised_window msg;
  ext = get_ext msg;
}

header_of-header_in_char :
    (heap : Memory) (h : Header) → Fits h → header_of (header_in_char heap h) ≡ h
unfolding header_in_char get_src get_dst get_seq get_ack get_hlen get_plen get_flags
    get_advertised_window get_ext
header_of-header_in_char heap h f = ground arith

-- The getters look at the first 20 bytes alone.
pub header_of-ext : (m k : Memory) → ((i : ℕ) → i < 20 → m i ≡ k i) → header_of m ≡ header_of k
unfolding get_src get_dst get_seq get_ack get_hlen get_plen get_flags get_advertised_window get_ext
header_of-ext m k e = ground (
  arith,
  e 0,
  e 1,
  e 2,
  e 3,
  e 4,
  e 5,
  e 6,
  e 7,
  e 8,
  e 9,
  e 10,
  e 11,
  e 12,
  e 13,
  e 14,
  e 15,
  e 16,
  e 17,
  e 18,
  e 19,
)

packet_to_buf-below :
    (heap : Memory) (p : TjuPacket) (i : ℕ)
    → i < p.header.hlen
    → packet_to_buf heap p i ≡ header_in_char heap p.header i
unfolding packet_to_buf
packet_to_buf-below heap p i lt = ground arith

-- The getters read back every field that a packet was built from, whatever the payload, provided
-- that each fits its type and the payload begins behind the header.
pub header_of-create_packet_buf :
    (heap : Memory) (h : Header) (payload : Memory) (len : ℕ)
    → Fits h
    → 20 ≤ h.hlen
    → header_of (create_packet_buf heap h payload len) ≡ h
unfolding create_packet_buf create_packet
header_of-create_packet_buf heap h payload len f long =
    header_of-ext _ _ (λ i lt. packet_to_buf-below heap _ i (omega arith))
    ∙ header_of-header_in_char heap h f

-- Behind the header stand the bytes of the payload, as many as were given and as `plen` leaves
-- room for.
pub payload-create_packet_buf :
    (heap : Memory) (h : Header) (payload : Memory) (len t : ℕ)
    → t < len
    → t < h.plen - h.hlen
    → create_packet_buf heap h payload len (h.hlen + t) ≡ payload t
unfolding create_packet_buf create_packet packet_to_buf
payload-create_packet_buf heap h payload len t lt lt' = ground arith
