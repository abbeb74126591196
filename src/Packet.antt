-- ===== src/Packet.antt =====
-- tju_packet.c and inc/tju_packet.h: the header, and its form in bytes.
-- `htons` and `htonl` before a `memcpy` put the bytes of a word in network order, highest first, on
-- every host; `ntohs` and `ntohl` after one read them so. A buffer is `Memory`.
pub mod RoundTrip
mod Tests
use tju_tcp.Common.{
  ℕ, ◌+◌, ◌-◌, ◌*◌, ◌/◌, ◌%◌, ◌^◌, ◌&&◌, Memory, memcpy, u8, u16, ltb, leb, ◌==◌, if◌then◌else◌,
}

abbrev pub default_header_len : ℕ
default_header_len = 20

abbrev pub syn_flag_mask : ℕ
syn_flag_mask = 0x8

abbrev pub ack_flag_mask : ℕ
ack_flag_mask = 0x4

abbrev pub fin_flag_mask : ℕ
fin_flag_mask = 0x2

-- `SYN_FLAG_MASK|ACK_FLAG_MASK` and `FIN_FLAG_MASK|ACK_FLAG_MASK`
abbrev pub syn_ack_flags : ℕ
syn_ack_flags = 0xc

abbrev pub fin_ack_flags : ℕ
fin_ack_flags = 0x6

-- `tju_header_t`
pub record Header : Type 0 where
  pub source_port : ℕ
  pub destination_port : ℕ
  pub seq_num : ℕ
  pub ack_num : ℕ
  pub hlen : ℕ
  pub plen : ℕ
  pub flags : ℕ
  pub advertised_window : ℕ
  pub ext : ℕ

-- `tju_packet_t`; its `sent_time` is never read or written. The bytes of `payload` past the length
-- that it was allocated with are those that a read past its end would see.
pub record TjuPacket : Type 0 where
  pub header : Header
  pub payload : Memory

-- The parameters of `uintN_t` wrap at the call. `heap` is what lies on the heap where the packet's
-- data is allocated: `malloc` leaves it as it is.
unfoldable pub create_packet : Memory → Header → Memory → ℕ → TjuPacket
create_packet heap h payload len = record {
  header = h;
  payload = if ltb 0 len then memcpy heap 0 payload 0 len else heap;
}

-- msg[i..i+2) and msg[i..i+4), in network order.
abbrev pub put8 : Memory → ℕ → ℕ → Memory
put8 m i v k = if k == i then u8 v else m k

abbrev pub put16 : Memory → ℕ → ℕ → Memory
put16 m i v = put8 (put8 m i (v / 2 ^ 8)) (i + 1) v

abbrev pub put32 : Memory → ℕ → ℕ → Memory
put32 m i v = put16 (put16 m i (v / 2 ^ 16)) (i + 2) v

abbrev pub read16 : Memory → ℕ → ℕ
read16 m i = m i * 2 ^ 8 + m (i + 1)

abbrev pub read32 : Memory → ℕ → ℕ
read32 m i = read16 m i * 2 ^ 16 + read16 m (i + 2)

unfoldable pub get_src : Memory → ℕ
get_src msg = read16 msg 0

unfoldable pub get_dst : Memory → ℕ
get_dst msg = read16 msg 2

unfoldable pub get_seq : Memory → ℕ
get_seq msg = read32 msg 4

unfoldable pub get_ack : Memory → ℕ
get_ack msg = read32 msg 8

unfoldable pub get_hlen : Memory → ℕ
get_hlen msg = read16 msg 12

unfoldable pub get_plen : Memory → ℕ
get_plen msg = read16 msg 14

unfoldable pub get_flags : Memory → ℕ
get_flags msg = msg 16

unfoldable pub get_advertised_window : Memory → ℕ
get_advertised_window msg = read16 msg 17

unfoldable pub get_ext : Memory → ℕ
get_ext msg = msg 19

-- calloc(plen), then the fields one after the other. `heap` is what lies behind the block.
unfoldable pub header_in_char : Memory → Header → Memory
header_in_char heap h =
    let m0 : Memory = λ i. if ltb i h.plen then 0 else heap i in
    let m1 : Memory = put16 m0 0 h.source_port in
    let m2 : Memory = put16 m1 2 h.destination_port in
    let m3 : Memory = put32 m2 4 h.seq_num in
    let m4 : Memory = put32 m3 8 h.ack_num in
    let m5 : Memory = put16 m4 12 h.hlen in
    let m6 : Memory = put16 m5 14 h.plen in
    let m7 : Memory = put8 m6 16 h.flags in
    let m8 : Memory = put16 m7 17 h.advertised_window in put8 m8 19 h.ext

unfoldable pub packet_to_buf : Memory → TjuPacket → Memory
packet_to_buf heap p =
    let msg = header_in_char heap p.header in
    if ltb p.header.hlen p.header.plen
    then memcpy msg p.header.hlen p.payload 0 (p.header.plen - p.header.hlen)
    else msg

unfoldable pub create_packet_buf : Memory → Header → Memory → ℕ → Memory
create_packet_buf heap h payload len = packet_to_buf heap (create_packet heap h payload len)
