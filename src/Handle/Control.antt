-- ===== src/Handle/Control.antt =====
-- What the getters read from a packet with no data.
use tju_tcp.Common.{ℕ, ◌+◌, u32, ◌^◌, ◌<◌, ◌≡◌, ap, arith, Memory}
use tju_tcp.Packet.{
  Header, get_src, get_dst, get_seq, get_ack, get_flags, get_advertised_window, default_header_len,
  ack_flag_mask,
}
use tju_tcp.Packet.RoundTrip.{header_of, header_of-create_packet_buf}
use tju_tcp.Handle.{control_packet, reply}

-- The fields of a packet that the handlers look at.
pub record Reads (pkt : Memory) (src dst seq ack flags : ℕ) : Type 0 where
  pub of_src : get_src pkt ≡ src
  pub of_dst : get_dst pkt ≡ dst
  pub of_seq : get_seq pkt ≡ seq
  pub of_ack : get_ack pkt ≡ ack
  pub of_flags : get_flags pkt ≡ flags

abbrev control_header : (src dst seq ack flags adv : ℕ) → Header
control_header src dst seq ack flags adv = record {
  source_port = src;
  destination_port = dst;
  seq_num = seq;
  ack_num = ack;
  hlen = default_header_len;
  plen = default_header_len;
  flags = flags;
  advertised_window = adv;
  ext = 0;
}

module _ (heap : Memory) (src dst seq ack flags adv : ℕ) (hs : src < 2 ^ 16) (hd : dst < 2 ^ 16)
    (hq : seq < 2 ^ 32) (ha : ack < 2 ^ 32) (hf : flags < 2 ^ 8) (hw : adv < 2 ^ 16) where
  header_of-control_packet :
      header_of (control_packet heap src dst seq ack flags adv)
      ≡ control_header src dst seq ack flags adv
  unfolding control_packet
  header_of-control_packet =
      header_of-create_packet_buf heap (control_header src dst seq ack flags adv) (λ _. 0) 0
        (record {
          source_port = hs;
          destination_port = hd;
          seq_num = hq;
          ack_num = ha;
          hlen = omega arith;
          plen = omega arith;
          flags = hf;
          advertised_window = hw;
          ext = omega arith;
        })
        (omega arith)

  pub control_packet-Reads :
      Reads (control_packet heap src dst seq ack flags adv) src dst seq ack flags
  control_packet-Reads = record {
    of_src = ap (λ (h : Header). h.source_port) header_of-control_packet;
    of_dst = ap (λ (h : Header). h.destination_port) header_of-control_packet;
    of_seq = ap (λ (h : Header). h.seq_num) header_of-control_packet;
    of_ack = ap (λ (h : Header). h.ack_num) header_of-control_packet;
    of_flags = ap (λ (h : Header). h.flags) header_of-control_packet;
  }

  pub get_advertised_window-control_packet :
      get_advertised_window (control_packet heap src dst seq ack flags adv) ≡ adv
  get_advertised_window-control_packet =
      ap (λ (h : Header). h.advertised_window) header_of-control_packet

-- The answer to a packet goes back to its sender.
pub reply-Reads :
    (heap pkt : Memory) (src dst seq ack flags s : ℕ)
    → src < 2 ^ 16
    → dst < 2 ^ 16
    → s < 2 ^ 32
    → Reads pkt src dst seq ack flags
    → Reads (reply heap pkt s) dst src s (u32 (seq + 1)) ack_flag_mask
reply-Reads heap pkt src dst seq ack flags s hs hd hq r =
    rw (r.of_dst, r.of_src, r.of_seq)
      (control_packet-Reads heap dst src s (u32 (seq + 1)) ack_flag_mask 1 hd hs hq (omega arith)
        (omega arith) (omega arith))
